-- ===== src/Tests/DemoThreads.antt =====
-- Runs of RaceConditionDemo.c and ReadWriteDemo.c, and the theorems at them.
use group_a_cs.Base.{◌≤◌, ◌≡◌, ◌⊎◌, refl, none, some, List, [], ◌∷◌, All}
use group_a_cs.Base.Int.{ℤ, pos, negsuc, ◌+ℤ◌}
use group_a_cs.Demos.Updates.{
  File, number, prod, bill, Update, file_work, buy, ret, writer_work, out, set_file, Memory,
  Machine, MachineReach, created, then_step, runs_line, semop_wait, fscanf, change, fopen_w,
  fprintf, semop_signal,
}
use group_a_cs.Demos.Updates.Sums.{sum, inside}
use group_a_cs.Demos.Updates.Result.{IsOver, total_change}
use group_a_cs.Demos.Updates.Progress.{CanMove, Overflows, no_update_lost}
use group_a_cs.Demos.Readers.{
  reader, writer, increments, locks, Actor, Stage, Later, at_start, IsEarly, readers_shut_out,
}

abbrev ten : File → ℤ
ten f = pos 10

abbrev two_threads : List (List Update)
two_threads = file_work ∷ file_work ∷ []

-- Both have taken one off.
abbrev finished_memory : Memory
finished_memory = set_file number (some (pos 8)) (
    set_file number none (
      set_file number (some (pos 9))
        (set_file number none (record { sem = 1; files = λ f. some (ten f) }))))

abbrev finished_threads : Machine
finished_threads = record {
  memory = finished_memory;
  workers = record { place = out; todo = [] } ∷ record { place = out; todo = [] } ∷ [];
}

MachineReach-finished_threads : MachineReach ten two_threads finished_threads
unfolding ◌+ℤ◌
MachineReach-finished_threads =
    let a = then_step created (runs_line [] _ _ refl (semop_wait _ _ refl)) in
    let b = then_step a (runs_line [] _ _ refl (fscanf _ _ _ refl)) in
    let c = then_step b (runs_line [] _ _ refl (change _ _ _ _ refl)) in
    let d = then_step c (runs_line [] _ _ refl (fopen_w _ _ _)) in
    let e = then_step d (runs_line [] _ _ refl (fprintf _ _ _)) in
    let f = then_step e (runs_line [] _ _ refl (semop_signal _)) in
    let g = then_step f (runs_line (_ ∷ []) _ _ refl (semop_wait _ _ refl)) in
    let h = then_step g (runs_line (_ ∷ []) _ _ refl (fscanf _ _ _ refl)) in
    let i = then_step h (runs_line (_ ∷ []) _ _ refl (change _ _ _ _ refl)) in
    let j = then_step i (runs_line (_ ∷ []) _ _ refl (fopen_w _ _ _)) in
    let k = then_step j (runs_line (_ ∷ []) _ _ refl (fprintf _ _ _)) in
    then_step k (runs_line (_ ∷ []) _ _ refl (semop_signal _))

no_update_lost_example :
    (sum (λ w. inside w.place) finished_threads.workers ≤ 1)
    × (All IsOver finished_threads.workers ⊎ CanMove finished_threads ⊎ Overflows finished_threads)
    × (All IsOver finished_threads.workers
        → (f : File) → finished_threads.memory.files f ≡ some (ten f +ℤ total_change f two_threads))
no_update_lost_example = no_update_lost ten two_threads MachineReach-finished_threads

-- RaceConditionDemo.c takes two off; DeadlockDemo.c leaves both numbers as they were; the writers of
-- ReadWriteDemo.c add two.
threads_of_demos :
    (total_change number two_threads ≡ negsuc 1)
    × (total_change prod (buy ∷ ret ∷ []) ≡ pos 0)
    × (total_change bill (buy ∷ ret ∷ []) ≡ pos 0)
    × (total_change bill (writer_work ∷ writer_work ∷ []) ≡ pos 2)
unfolding ◌+ℤ◌
threads_of_demos = (refl, refl, refl, refl)

-- A third reader and a writer.
abbrev two_more : List Actor
two_more = reader increments ∷ writer locks ∷ []

readers_shut_out_example :
    (s : Stage) × Later (at_start (reader increments ∷ reader increments ∷ two_more)) s
    × ((s' : Stage) → Later s s' → All IsEarly s'.actors)
readers_shut_out_example = readers_shut_out two_more (tt, (tt, tt))
