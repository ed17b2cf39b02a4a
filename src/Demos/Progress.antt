-- ===== src/Demos/Progress.antt =====
-- Demos/4_DeadLock_Fix and Demos/5_All_Fixed: where a thread of the server can move, a process can.
use group_a_cs.Base.{◌+◌, ◌≡◌, refl, ◌∙◌, ap, Option, none, some, List, [], ◌∷◌, ◌++◌, All, arith}
use group_a_cs.World.{Table}
use group_a_cs.Concurrent.{
  Section, reading, writing, entering, leaving, Pc, idle, at, joining, taking, posting, Thread,
  step,
}
use group_a_cs.Concurrent.Invariant.{Inv}
use group_a_cs.Concurrent.Work.{total_work, thread_work, Step-work}
use group_a_cs.Concurrent.Waits.{CanStep}
use group_a_cs.Demos.Invariant.{Inv-Counted, Advance-Step}
use group_a_cs.Demos.Processes.{Semaphores, advance, Process, Demo, Advance, advances}
use group_a_cs.Demos.Simulation.{threads_of, system_of, result, advance-move}

-- A process at the head of its loop.
abbrev pub IsAtHead : Process → Type 0
IsAtHead p = (p.thread.pc ≡ idle) × (p.thread.todo ≡ [])

no_work-head : (pc : Pc) (todo : List Section) → thread_work pc todo ≡ 0 → (pc ≡ idle) × (todo ≡ [])
no_work-head idle [] h = (refl, refl)
no_work-head idle (reading t ∷ todo) h = absurd (omega arith)
no_work-head idle (writing ts ∷ todo) h = absurd (omega arith)
no_work-head idle (entering t ∷ todo) h = absurd (omega arith)
no_work-head idle (leaving t ∷ todo) h = absurd (omega arith)
no_work-head (at t line) todo h = absurd (ground arith)
no_work-head (joining t line) todo h = absurd (ground arith)
no_work-head (taking held wanted) todo h = absurd (omega arith)
no_work-head (posting left) todo h = absurd (omega arith)

pub no_work-heads : (ps : List Process) → total_work (threads_of ps) ≡ 0 → All IsAtHead ps
no_work-heads [] h = tt
no_work-heads (p ∷ ps) h =
    (no_work-head p.thread.pc p.thread.todo (omega arith), no_work-heads ps (omega arith))

-- Some process runs the next line of its round, of which there are fewer from then on.
abbrev pub GoesOn : Demo → Type 0
GoesOn s =
    (s' : Demo) × Advance s s'
    × (total_work (threads_of s.processes) ≡ total_work (threads_of s'.processes) + 1)

threads_of-split :
    (ps : List Process) (before : List Thread) (th : Thread) (after : List Thread)
    → threads_of ps ≡ before ++ th ∷ after
    → (b : List Process) × (p : Process) × (a : List Process) × (ps ≡ b ++ p ∷ a) × (p.thread ≡ th)
threads_of-split [] [] th after e = cc
threads_of-split [] (x ∷ before) th after e = cc
threads_of-split (p ∷ ps) [] th after e = ([], p, ps, refl, cc)
threads_of-split (p ∷ ps) (x ∷ before) th after e =
    let (b, q, a, split, is) = threads_of-split ps before th after cc in
    (p ∷ b, q, a, ap (λ qs. p ∷ qs) split, is)

pub CanStep-GoesOn : (s : Demo) → Inv (system_of s) → CanStep (system_of s) → GoesOn s
CanStep-GoesOn s inv (s', step before th after {l} {th'} split moved) =
    let (b, p, a, at_p, is) = threads_of-split s.processes before th after split in
    let moves : result (advance s.semaphores p.thread.pc p.thread.todo) ≡ some (l, th') =
      advance-move s.semaphores p.thread.pc p.thread.todo (Inv-Counted s b p a at_p inv)
      ∙ rw is moved in
    go b p a at_p moves (advance s.semaphores p.thread.pc p.thread.todo) refl
  where
    go :
        (b : List Process) (p : Process) (a : List Process)
        → s.processes ≡ b ++ p ∷ a
        → result (advance s.semaphores p.thread.pc p.thread.todo) ≡ some (l, th')
        → (o : Option ((Table → Semaphores) × Thread))
        → advance s.semaphores p.thread.pc p.thread.todo ≡ o
        → GoesOn s
    go b p a at_p moves none e = absurd cc
    go b p a at_p moves (some (k, q)) e =
        let line = advances b p a at_p e in (_, line, Step-work (Advance-Step line inv))
