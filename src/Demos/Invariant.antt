-- ===== src/Demos/Invariant.antt =====
-- Demos/4_DeadLock_Fix and Demos/5_All_Fixed: in every state of the processes the semaphores agree with
-- what the processes do.
use group_a_cs.Base.{◌<◌, ◌≡◌, refl, sym, ◌∙◌, ap, subst, List, [], ◌∷◌, ◌++◌, map, All, arith}
use group_a_cs.World.{Table, get_lock, all_free}
use group_a_cs.Concurrent.{
  Section, wait_enter, count_up, test_first, post_enter, wait_leave, count_down, test_last,
  post_leave, Pc, idle, at, joining, taking, posting, Step, step, begin_threads, here,
}
use group_a_cs.Concurrent.Counts.{reader, total, counted, same_refl}
use group_a_cs.Concurrent.Balance.{Balanced, tally, tally-with_thread, total-middle}
use group_a_cs.Concurrent.Invariant.{
  IsSection, IsThread, Inv, All-middle, Step-Inv, Reach-Inv, AreSections, IsPc,
}
use group_a_cs.Demos.{DemoCommand}
use group_a_cs.Demos.Processes.{
  Process, Demo, Advance, advances, BeginRound, begins_round, begin_process, DemoRuns, opens,
  runs_on, runs_round,
}
use group_a_cs.Demos.Simulation.{
  locks_of, threads_of, system_of, get_lock-locks_of, Counted, result, advance-move,
  threads_of-append,
}

-- A process that counts down is one of those that are counted.
pub Inv-Counted :
    (s : Demo) (before : List Process) (p : Process) (after : List Process)
    → s.processes ≡ before ++ p ∷ after
    → Inv (system_of s)
    → Counted s.semaphores p.thread.pc
Inv-Counted s before p after split inv = go p.thread.pc refl
  where
    some_counted : (t : Table) → reader counted t p.thread.pc ≡ 1 → 0 < (s.semaphores t).counter
    some_counted t h =
        let b : Balanced _ (tally t (threads_of s.processes)) = inv.balanced t in
        let split_total =
          ap (total (reader counted t)) (ap threads_of split ∙ threads_of-append before p after)
          ∙ total-middle (reader counted t) (threads_of before) p.thread (threads_of after) in
        ground (arith, h, split_total, b.counter, get_lock-locks_of t s.semaphores)

    in_order : IsPc p.thread.pc
    in_order =
        (All-middle (threads_of before) p.thread p.thread (threads_of after) (
          subst (All IsThread) (ap threads_of split ∙ threads_of-append before p after)
            inv.threads)).0.0

    go : (pc : Pc) → p.thread.pc ≡ pc → Counted s.semaphores pc
    go idle e = tt
    go (joining t line) e = absurd (subst IsPc e in_order)
    go (taking held wanted) e = tt
    go (posting left) e = tt
    go (at t count_down) e = some_counted t (ap (reader counted t) e ∙ rw (same_refl t) refl)
    go (at t wait_enter) e = tt
    go (at t count_up) e = tt
    go (at t test_first) e = tt
    go (at t post_enter) e = tt
    go (at t wait_leave) e = tt
    go (at t test_last) e = tt
    go (at t post_leave) e = tt

-- A line of a process is one of a thread of the server.
pub Advance-Step :
    {s s' : Demo} → Advance s s' → Inv (system_of s) → Step (system_of s) (system_of s')
Advance-Step {s} (advances before p after {l} {th} split moved) inv =
    let as_thread =
      sym (
        advance-move s.semaphores p.thread.pc p.thread.todo
          (Inv-Counted s before p after split inv))
      ∙ ap result moved in
    subst (λ ths. Step (system_of s) (record { locks = locks_of l; threads = ths }))
      (sym (threads_of-append before (record { task = p.task; thread = th }) after))
      (step (threads_of before) p.thread (threads_of after)
        (ap threads_of split ∙ threads_of-append before p after) as_thread)

-- Every round is made of sections with their ends, and with their files in order.
abbrev pub AreOrdered : (DemoCommand → List Section) → Type 0
AreOrdered rounds = (task : DemoCommand) → All IsSection (rounds task)

module _ (rounds : DemoCommand → List Section) (ordered : AreOrdered rounds) where
  BeginRound-Inv : {s s' : Demo} → BeginRound rounds s s' → Inv (system_of s) → Inv (system_of s')
  BeginRound-Inv {s} (begins_round before task after split) inv =
      let old = begin_process task in
      let new : Process = record {
        task = task;
        thread = record { pc = idle; todo = rounds task };
      } in
      let was = ap threads_of split ∙ threads_of-append before old after in
      let (ok, rest) =
        All-middle (threads_of before) old.thread new.thread (threads_of after)
          (subst (All IsThread) was inv.threads) in
      subst (λ ths. Inv (record { locks = locks_of s.semaphores; threads = ths }))
        (sym (threads_of-append before new after))
        (record {
          balanced = λ t.
              rw (tally-with_thread t (threads_of before) new.thread (threads_of after)) (
                subst (Balanced (get_lock t (locks_of s.semaphores)))
                  (ap (tally t) was
                    ∙ tally-with_thread t (threads_of before) old.thread (threads_of after))
                  (inv.balanced t));
          threads = rest (tt, ordered task);
        })

  no_sections : List DemoCommand → List (List Section)
  no_sections = map (λ _. [])

  no_sections-AreSections : (commands : List DemoCommand) → AreSections (no_sections commands)
  unfolding no_sections
  no_sections-AreSections [] = tt
  no_sections-AreSections (c ∷ commands) = (tt, no_sections-AreSections commands)

  begin_process-begin :
      (commands : List DemoCommand)
      → threads_of (map begin_process commands) ≡ begin_threads (no_sections commands)
  unfolding no_sections
  begin_process-begin [] = refl
  begin_process-begin (c ∷ commands) =
      ap (λ ths. (begin_process c).thread ∷ ths) (begin_process-begin commands)

  pub DemoRuns-Inv :
      {commands : List DemoCommand} {s : Demo} → DemoRuns rounds commands s → Inv (system_of s)
  DemoRuns-Inv {commands} opens =
      subst (λ ths. Inv (record { locks = all_free; threads = ths }))
        (sym (begin_process-begin commands)) (Reach-Inv (no_sections-AreSections commands) here)
  DemoRuns-Inv (runs_on r a) = let inv = DemoRuns-Inv r in Step-Inv (Advance-Step a inv) inv
  DemoRuns-Inv (runs_round r b) = BeginRound-Inv b (DemoRuns-Inv r)
