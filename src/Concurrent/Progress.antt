-- ===== src/Concurrent/Progress.antt =====
-- No deadlock: a waiting thread waits for a thread that can move, or for a thread that waits for a
-- file of higher rank.
use native.Mathlib.Decide.{dec_lt}
use group_a_cs.Base.{
  ℕ, zero, suc, ◌+◌, ◌≤◌, ◌<◌, ◌≡◌, ◌⊎◌, inl, inr, refl, sym, ap, subst, List, [], ◌∷◌, ◌++◌, arith,
  Bool-cases, All,
}
use group_a_cs.Base.Int.{pos}
use group_a_cs.World.{Table, Lock, get_lock}
use group_a_cs.Concurrent.{
  Section, Line, wait_enter, count_up, test_first, post_enter, wait_leave, count_down, test_last,
  post_leave, Pc, idle, at, joining, taking, posting, Thread, System, step,
}
use group_a_cs.Concurrent.Counts.{
  rank, same, reader, writer, member, total, total-Among, Among, in_mutex, counted, arriving,
  parting,
}
use group_a_cs.Concurrent.Balance.{Balanced, tally, tally-IsTally, total-middle}
use group_a_cs.Concurrent.Work.{sections_work, thread_work, total_work, total_work-Among}
use group_a_cs.Concurrent.Invariant.{AllBelow, IsPc, IsThread, Inv, All-middle, same-eq}
use group_a_cs.Concurrent.Waits.{CanStep, LineWaits, Waits, can_move_or_wait}

-- A thread among the threads moves, or waits, and its weights are part of the tallies.
record Waiting (s : System) (th : Thread) : Type 0 where
  waits : Waits s.locks th.pc th.todo
  in_order : IsPc th.pc
  counts : (f : Pc → ℕ) → f th.pc ≤ total f s.threads

total-weighs :
    (f : Pc → ℕ) (before : List Thread) (th : Thread) (after : List Thread)
    → f th.pc ≤ total f (before ++ th ∷ after)
total-weighs f before th after = omega (arith, total-middle f before th after)

module _ (s : System) (inv : Inv s) where
  try : {f : Thread → ℕ} (a : Among f s.threads) → CanStep s ⊎ Waiting s a.th
  try a = elim (can_move_or_wait s.locks a.th.pc a.th.todo) [
    | inl (l', th', e) ↦ inl (_, step a.before a.th a.after a.split e)
    | inr w ↦ inr (record {
      waits = w;
      in_order =
          (All-middle a.before a.th a.th a.after (subst (All IsThread) a.split inv.threads)).0.0;
      counts = λ f.
          subst (λ ths. f a.th.pc ≤ total f ths) (sym a.split)
            (total-weighs f a.before a.th a.after);
    })
  ]

  abbrev lock : Table → Lock
  lock t = get_lock t s.locks

  -- Its writer waits for a file of higher rank.
  blocked_writer :
      (t : Table) (p : Pc) (todo : List Section)
      → Waits s.locks p todo
      → IsPc p
      → 0 < writer t p
      → (t' : Table) × (rank t < rank t') × ((lock t').wrt ≡ 0)
  blocked_writer t idle todo w o h = absurd (omega arith)
  blocked_writer t (at t' line) todo w o h = absurd (omega arith)
  blocked_writer t (joining t' line) todo w o h = absurd (omega arith)
  blocked_writer t (taking held []) todo w o h = absurd w
  blocked_writer t (taking held (t' ∷ wanted)) todo w o h =
      (t', member-AllBelow (rank t') held o.0 h, w)
    where
      member-AllBelow :
          (n : ℕ) (held : List Table) → AllBelow n held → 0 < member t held → rank t < n
      member-AllBelow n [] b m = absurd (omega arith)
      member-AllBelow n (x ∷ held) b m = elim (Bool-cases (same t x)) [
        | inl e ↦ rw (same-eq t x e) b.0
        | inr e ↦ member-AllBelow n held b.1 (ground (arith, e))
      ]
  blocked_writer t (posting left) todo w o h = absurd w

  -- A counted reader that has the writers' semaphore, or is about to post it.
  abbrev sharing : Line → ℕ
  sharing post_enter = 1
  sharing wait_leave = 1
  sharing count_down = 1
  sharing test_last = 1
  sharing _ = 0

  sharing_weights :
      (t : Table) (p : Pc)
      → reader sharing t p + reader arriving t p ≡ reader counted t p + reader parting t p
  sharing_weights t idle = refl
  sharing_weights t (at t' line) = ground arith
  sharing_weights t (joining t' line) = refl
  sharing_weights t (taking held wanted) = refl
  sharing_weights t (posting left) = refl

  sharing-counted :
      (t : Table) (ths : List Thread)
      → total (reader sharing t) ths + total (reader arriving t) ths
        ≡ total (reader counted t) ths + total (reader parting t) ths
  sharing-counted t [] = refl
  sharing-counted t (th ∷ ths) = omega (arith, sharing_weights t th.pc, sharing-counted t ths)

  sharing_waits : (line : Line) (k : Lock) → LineWaits line k → 0 < sharing line → k.mutex ≡ 0
  sharing_waits wait_leave k w h = w
  sharing_waits wait_enter k w h = absurd (omega arith)
  sharing_waits test_first k w h = absurd (omega arith)
  sharing_waits count_up k w h = absurd w
  sharing_waits post_enter k w h = absurd w
  sharing_waits count_down k w h = absurd w
  sharing_waits test_last k w h = absurd w
  sharing_waits post_leave k w h = absurd w

  mutex_waits :
      (line : Line) (k : Lock)
      → LineWaits line k
      → 0 < in_mutex line
      → (0 < arriving line) × (k.readers ≡ pos 1) × (k.wrt ≡ 0)
  mutex_waits wait_leave k w h = absurd (omega arith)
  mutex_waits wait_enter k w h = absurd (omega arith)
  mutex_waits test_first k w h = (omega arith, w.0, w.1)
  mutex_waits count_up k w h = absurd w
  mutex_waits post_enter k w h = absurd w
  mutex_waits count_down k w h = absurd w
  mutex_waits test_last k w h = absurd w
  mutex_waits post_leave k w h = absurd w

  -- It waits for the semaphore round the counter only.
  blocked_reader :
      (t : Table) (p : Pc) (todo : List Section)
      → Waits s.locks p todo
      → 0 < reader sharing t p
      → (lock t).mutex ≡ 0
  blocked_reader t idle todo w h = absurd (omega arith)
  blocked_reader t (at t' line) todo w h = elim (Bool-cases (same t t')) [
    | inl e ↦ rw (same-eq t t' e) (sharing_waits line (lock t') w (rw e at h))
    | inr e ↦ absurd (omega (arith, rw e at h))
  ]
  blocked_reader t (joining t' line) todo w h = absurd (omega arith)
  blocked_reader t (taking held wanted) todo w h = absurd (omega arith)
  blocked_reader t (posting left) todo w h = absurd (omega arith)

  -- A thread that has the semaphore round the counter waits as the first reader only.
  blocked_counter :
      (t : Table) (p : Pc) (todo : List Section)
      → Waits s.locks p todo
      → 0 < reader in_mutex t p
      → (0 < reader arriving t p) × ((lock t).readers ≡ pos 1) × ((lock t).wrt ≡ 0)
  blocked_counter t idle todo w h = absurd (omega arith)
  blocked_counter t (at t' line) todo w h = elim (Bool-cases (same t t')) [
    | inl e ↦ rw e (rw (same-eq t t' e) (mutex_waits line (lock t') w (rw e at h)))
    | inr e ↦ absurd (omega (arith, rw e at h))
  ]
  blocked_counter t (joining t' line) todo w h = absurd (omega arith)
  blocked_counter t (taking held wanted) todo w h = absurd (omega arith)
  blocked_counter t (posting left) todo w h = absurd (omega arith)

  readers_wait : (t : Table) → total (writer t) s.threads ≡ 0 → (lock t).wrt ≡ 0 → CanStep s
  readers_wait t no_writer taken =
      let b : Balanced (lock t) (tally t s.threads) = inv.balanced t in
      let i = tally-IsTally t s.threads in
      let a =
        total-Among (reader sharing t) s.threads
          (ground (arith, b.one_writes, sharing-counted t s.threads)) in
      elim (try a) [
        | inl c ↦ c
        | inr w ↦
            let closed = blocked_reader t a.th.pc a.th.todo w.waits a.weighs in
            let c =
              total-Among (reader in_mutex t) s.threads (omega (arith, b.one_locks, closed)) in
            elim (try c) [
              | inl c ↦ c
              | inr v ↦
                  let (early, one, _) = blocked_counter t c.th.pc c.th.todo v.waits c.weighs in
                  absurd (
                    ground (
                      arith,
                      b.one_writes,
                      b.one_locks,
                      b.counter,
                      one,
                      early,
                      v.counts (reader arriving t),
                      i.between,
                    ))
            ]
      ]

  -- Where the semaphore of a file is taken, some thread moves, or that of a file of higher rank is
  -- taken.
  taken_by :
      (t : Table)
      → (lock t).wrt ≡ 0
      → CanStep s ⊎ ((t' : Table) × (rank t < rank t') × ((lock t').wrt ≡ 0))
  taken_by t taken = elim (dec_lt 0 (total (writer t) s.threads)) [
    | yes some_writer ↦
        let a = total-Among (writer t) s.threads some_writer in
        elim (try a) [
          | inl c ↦ inl c
          | inr w ↦ inr (blocked_writer t a.th.pc a.th.todo w.waits w.in_order a.weighs)
        ]
    | no no_writer ↦ inl (readers_wait t (omega arith) taken)
  ]

  rank-lt : (t : Table) → rank t < 6
  rank-lt t = ground arith

  -- Hence some thread moves; the fuel bounds the ranks above.
  wrt_taken : (n : ℕ) (t : Table) → 6 ≤ rank t + n → (lock t).wrt ≡ 0 → CanStep s
  wrt_taken zero t fuel taken = absurd (omega (arith, rank-lt t))
  wrt_taken (suc n) t fuel taken = elim (taken_by t taken) [
    | inl c ↦ c
    | inr (t', higher, taken') ↦ wrt_taken n t' (omega arith) taken'
  ]

  mutex_taken : (t : Table) → (lock t).mutex ≡ 0 → CanStep s
  mutex_taken t closed =
      let b : Balanced (lock t) (tally t s.threads) = inv.balanced t in
      let c = total-Among (reader in_mutex t) s.threads (omega (arith, b.one_locks)) in
      elim (try c) [
        | inl c ↦ c
        | inr v ↦
            wrt_taken 6 t (omega arith) (blocked_counter t c.th.pc c.th.todo v.waits c.weighs).2
      ]

  line_taken : (t : Table) (line : Line) → LineWaits line (lock t) → CanStep s
  line_taken t wait_enter w = mutex_taken t w
  line_taken t wait_leave w = mutex_taken t w
  line_taken t test_first w = wrt_taken 6 t (omega arith) w.1
  line_taken t count_up w = absurd w
  line_taken t post_enter w = absurd w
  line_taken t count_down w = absurd w
  line_taken t test_last w = absurd w
  line_taken t post_leave w = absurd w

  Waits-CanStep :
      (p : Pc) (todo : List Section) → Waits s.locks p todo → 0 < thread_work p todo → CanStep s
  Waits-CanStep idle todo w h = absurd (omega (arith, ap sections_work w))
  Waits-CanStep (at t line) todo w h = line_taken t line w
  Waits-CanStep (joining t line) todo w h = line_taken t line w
  Waits-CanStep (taking held []) todo w h = absurd w
  Waits-CanStep (taking held (t ∷ wanted)) todo w h = wrt_taken 6 t (omega arith) w
  Waits-CanStep (posting left) todo w h = absurd w

-- While a thread has work left, some thread moves.
pub progress : (s : System) → Inv s → 0 < total_work s.threads → CanStep s
progress s inv h =
    let a = total_work-Among s.threads h in
    elim (try s inv a) [
      | inl c ↦ c
      | inr w ↦ Waits-CanStep s inv a.th.pc a.th.todo w.waits a.weighs
    ]
