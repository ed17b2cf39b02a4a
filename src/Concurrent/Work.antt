-- ===== src/Concurrent/Work.antt =====
-- The lines that the threads have still to run, of which every move is one.
use native.Mathlib.Decide.{dec_lt}
use group_a_cs.Base.{
  ℕ, ◌+◌, ◌*◌, ◌<◌, ◌≡◌, refl, ◌∙◌, ap, List, [], ◌∷◌, ◌++◌, arith, length, length-append,
}
use group_a_cs.World.{Table, Locks}
use group_a_cs.Concurrent.{
  Section, reading, writing, entering, leaving, Line, wait_enter, count_up, test_first, post_enter,
  wait_leave, count_down, test_last, post_leave, Pc, idle, at, joining, join, taking, posting,
  Thread, System, Step, step, Reach, here, next, begin_threads, follow,
}
use group_a_cs.Concurrent.Counts.{Among, first_Among, later_Among}
use group_a_cs.Concurrent.Moved.{Moved, starts, reads, joins, works, takes, posts, ends, move-Moved}

abbrev pub section_work : Section → ℕ
section_work (reading t) = 9
section_work (writing ts) = 2 * length ts + 3
section_work (entering t) = 5
section_work (leaving t) = 5

abbrev pub sections_work : List Section → ℕ
sections_work [] = 0
sections_work (s ∷ todo) = section_work s + sections_work todo

abbrev line_work : Line → ℕ
line_work wait_enter = 8
line_work count_up = 7
line_work test_first = 6
line_work post_enter = 5
line_work wait_leave = 4
line_work count_down = 3
line_work test_last = 2
line_work post_leave = 1

abbrev join_work : Line → ℕ
join_work wait_enter = 4
join_work count_up = 3
join_work test_first = 2
join_work _ = 1

abbrev pc_work : Pc → ℕ
pc_work idle = 0
pc_work (at t line) = line_work line
pc_work (joining t line) = join_work line
pc_work (taking held wanted) = length held + 2 * length wanted + 2
pc_work (posting left) = length left + 1

abbrev pub thread_work : Pc → List Section → ℕ
thread_work p todo = pc_work p + sections_work todo

abbrev pub total_work : List Thread → ℕ
total_work [] = 0
total_work (th ∷ ths) = thread_work th.pc th.todo + total_work ths

abbrev pub programs_work : List (List Section) → ℕ
programs_work [] = 0
programs_work (p ∷ programs) = sections_work p + programs_work programs

follow-work : (t : Table) (line : Line) → pc_work (at t line) ≡ pc_work (follow t line) + 1
follow-work t line = ground arith

join-work : (t : Table) (line : Line) → pc_work (joining t line) ≡ pc_work (join t line) + 1
join-work t line = ground arith

Moved-work :
    {l l' : Locks} {p : Pc} {todo : List Section} {th' : Thread}
    → Moved l p todo l' th'
    → thread_work p todo ≡ thread_work th'.pc th'.todo + 1
Moved-work (starts (reading t) todo) = omega arith
Moved-work (starts (writing ts) todo) = omega arith
Moved-work (starts (entering t) todo) = omega arith
Moved-work (starts (leaving t) todo) = omega arith
Moved-work (joins t line k todo e) = omega (arith, join-work t line)
Moved-work (reads t line k todo e) = omega (arith, follow-work t line)
Moved-work (works held todo) = omega arith
Moved-work (takes t held wanted k todo e) = omega (arith, length-append held (t ∷ []))
Moved-work (posts t left todo) = omega arith
Moved-work (ends todo) = omega arith

total_work-middle :
    (before : List Thread) (th : Thread) (after : List Thread)
    → total_work (before ++ th ∷ after) ≡ thread_work th.pc th.todo + total_work (before ++ after)
total_work-middle [] th after = refl
total_work-middle (x ∷ before) th after = omega (arith, total_work-middle before th after)

pub Step-work : {s s' : System} → Step s s' → total_work s.threads ≡ total_work s'.threads + 1
Step-work {s} (step before th after {l} {th'} split moved) =
    ap total_work split
    ∙ omega (
      arith,
      total_work-middle before th after,
      total_work-middle before th' after,
      Moved-work (move-Moved s.locks th.pc th.todo moved),
    )

begin-work :
    (programs : List (List Section)) → total_work (begin_threads programs) ≡ programs_work programs
begin-work [] = refl
begin-work (p ∷ programs) = omega (arith, begin-work programs)

pub Reach-work :
    {programs : List (List Section)} {n : ℕ} {s : System}
    → Reach programs n s
    → n + total_work s.threads ≡ programs_work programs
Reach-work {programs} here = omega (arith, begin-work programs)
Reach-work (next r st) = omega (arith, Reach-work r, Step-work st)

pub total_work-Among :
    (ths : List Thread) → 0 < total_work ths → Among (λ th. thread_work th.pc th.todo) ths
total_work-Among [] h = absurd (omega arith)
total_work-Among (th ∷ ths) h = elim (dec_lt 0 (thread_work th.pc th.todo)) [
  | yes p ↦ first_Among (λ x. thread_work x.pc x.todo) th ths p
  | no p ↦ later_Among (λ x. thread_work x.pc x.todo) th (total_work-Among ths (omega arith))
]
