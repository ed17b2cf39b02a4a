-- ===== src/Demos/Safety.antt =====
-- Demos/4_DeadLock_Fix and Demos/5_All_Fixed: processes that keep out of each other's way, and none of
-- which waits for ever.
use native.Mathlib.Decide.{dec_lt}
use group_a_cs.Base.{◌≤◌, ◌≡◌, ◌⊎◌, List, [], ◌∷◌, All, arith, inl, inr, Bool, if◌then◌else◌}
use group_a_cs.World.{Table, buyer, product, billing, order}
use group_a_cs.Concurrent.{Section, reading, writing}
use group_a_cs.Concurrent.Exclusion.{Inv-exclusion}
use group_a_cs.Concurrent.Counts.{reader, writer, total, inside}
use group_a_cs.Concurrent.Invariant.{IsSection}
use group_a_cs.Concurrent.Work.{total_work}
use group_a_cs.Concurrent.Progress.{progress}
use group_a_cs.Demos.Invariant.{AreOrdered, DemoRuns-Inv}
use group_a_cs.Demos.Progress.{IsAtHead, GoesOn, no_work-heads, CanStep-GoesOn}
use group_a_cs.Demos.{DemoCommand, round}
use group_a_cs.Demos.Processes.{Demo, DemoRuns}
use group_a_cs.Demos.Simulation.{threads_of, system_of}

if-AreSections :
    (b : Bool) (ss ss' : List Section)
    → All IsSection ss
    → All IsSection ss'
    → All IsSection (if b then ss else ss')
if-AreSections b ss ss' h h' = ground (arith, h, h')

one_reader : (t : Table) → All IsSection (reading t ∷ [])
one_reader t = (tt, tt)

two_readers : (t t' : Table) → All IsSection (reading t ∷ reading t' ∷ [])
two_readers t t' = (tt, (tt, tt))

one_writer : (t : Table) → All IsSection (writing (t ∷ []) ∷ [])
one_writer t = ((tt, tt), tt)

order_writer : All IsSection (writing (product ∷ billing ∷ order ∷ []) ∷ [])
order_writer = ground arith

bill_writer : All IsSection (writing (billing ∷ order ∷ []) ∷ [])
bill_writer = ground arith

buyer_writer : All IsSection (writing (buyer ∷ billing ∷ order ∷ []) ∷ [])
buyer_writer = ground arith

no_files : All IsSection []
no_files = tt

ruleset rounds = (
  if-AreSections, one_reader, two_readers, one_writer, order_writer, bill_writer, buyer_writer,
  no_files,
)

round-AreOrdered : AreOrdered round
unfolding round
round-AreOrdered task = search (rounds) depth 40

-- The programs of 4_DeadLock_Fix and 5_All_Fixed, any number of them with any commands, each in its
-- loop without end: in every state that any interleaving of their calls leads to, at most one process
-- has the writers' semaphore of a file as a writer, and while one has it, no process is in the part of
-- a reader's section that reads the file.
pub processes_exclude :
    {commands : List DemoCommand} {s : Demo}
    → DemoRuns round commands s
    → (t : Table)
    → (total (writer t) (threads_of s.processes) ≤ 1)
      × ((total (writer t) (threads_of s.processes) ≡ 0)
          ⊎ (total (reader inside t) (threads_of s.processes) ≡ 0))
processes_exclude r t = Inv-exclusion (DemoRuns-Inv round round-AreOrdered r) t

-- The programs of 4_DeadLock_Fix and 5_All_Fixed, any number of them with any commands, do not deadlock:
-- in every state, unless each process is at the head of its loop, some process can run the next line
-- of its round, and by it the lines that the rounds have left become one fewer.
pub processes_go_on :
    {commands : List DemoCommand} {s : Demo}
    → DemoRuns round commands s
    → GoesOn s ⊎ All IsAtHead s.processes
processes_go_on {s = s} r =
    let inv = DemoRuns-Inv round round-AreOrdered r in
    elim (dec_lt 0 (total_work (threads_of s.processes))) [
      | yes more ↦ inl (CanStep-GoesOn s inv (progress (system_of s) inv more))
      | no over ↦ inr (no_work-heads s.processes (omega arith))
    ]
