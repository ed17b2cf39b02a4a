-- ===== src/Tests/Demos.antt =====
-- Runs of two demo programs, and the theorems at them.
use group_a_cs.Base.{◌≤◌, ◌≡◌, ◌⊎◌, refl, true, List, [], ◌∷◌, All}
use group_a_cs.Base.Int.{pos}
use group_a_cs.Libc.{strstr, is_prefix}
use group_a_cs.World.{product, billing, order}
use group_a_cs.Concurrent.{taking}
use group_a_cs.Concurrent.Counts.{reader, writer, total, inside}
use group_a_cs.Demos.{DemoCommand, round, comp_order, read_product}
use group_a_cs.Demos.Processes.{
  opened, set_semaphores, advance, advances, begins_round, Demo, begin_process, DemoRuns, opens,
  runs_on, runs_round,
}
use group_a_cs.Demos.Simulation.{threads_of}
use group_a_cs.Demos.Progress.{GoesOn, IsAtHead}
use group_a_cs.Demos.Safety.{processes_exclude, processes_go_on}

abbrev blank : DemoCommand
blank = record {
  command = [];
  client_type = [];
  num1 = pos 0;
  num2 = pos 0;
  valid = true;
  valid2 = true;
}

abbrev commands : List DemoCommand
commands = comp_order blank ∷ read_product blank ∷ []

-- The first process has the product file and wants two more; the second is at the head of its loop.
abbrev ordering : Demo
ordering = record {
  semaphores = set_semaphores product (record opened { wrt = 0 }) (λ _. opened);
  processes =
      record {
        task = comp_order blank;
        thread = record { pc = taking (product ∷ []) (billing ∷ order ∷ []); todo = [] };
      }
      ∷ begin_process (read_product blank)
      ∷ [];
}

DemoRuns-ordering : DemoRuns round commands ordering
unfolding advance round strstr is_prefix
DemoRuns-ordering =
    let one = runs_round opens (begins_round [] (comp_order blank) _ refl) in
    let two = runs_on one (advances [] _ _ refl refl) in runs_on two (advances [] _ _ refl refl)

processes_exclude_example :
    (total (writer product) (threads_of ordering.processes) ≤ 1)
    × ((total (writer product) (threads_of ordering.processes) ≡ 0)
        ⊎ (total (reader inside product) (threads_of ordering.processes) ≡ 0))
processes_exclude_example = processes_exclude DemoRuns-ordering product

processes_go_on_example : GoesOn ordering ⊎ All IsAtHead ordering.processes
processes_go_on_example = processes_go_on DemoRuns-ordering
