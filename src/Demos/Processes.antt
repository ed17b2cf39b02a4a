-- ===== src/Demos/Processes.antt =====
-- Demos/4_DeadLock_Fix and Demos/5_All_Fixed, the calls round each use of a file. As in the data server,
-- but the readers are counted by a semaphore, and each process begins its command again and again.
use group_a_cs.Base.{
  ℕ, zero, suc, ◌≡◌, Option, none, some, List, [], ◌∷◌, ◌++◌, map, if◌then◌else◌, ◌==◌,
}
use group_a_cs.World.{Table}
use group_a_cs.Concurrent.{
  Section, Line, wait_enter, count_up, test_first, post_enter, wait_leave, count_down, test_last,
  post_leave, Pc, idle, at, joining, join, taking, posting, Thread, start, follow,
}
use group_a_cs.Concurrent.Counts.{same}
use group_a_cs.Demos.{DemoCommand}

-- The three semaphores of a file.
pub record Semaphores : Type 0 where
  pub wrt : ℕ
  pub mutex : ℕ
  pub counter : ℕ

-- `sem_open`, when no semaphore has the name.
abbrev pub opened : Semaphores
opened = record { wrt = 1; mutex = 1; counter = 0 }

abbrev pub set_semaphores : Table → Semaphores → (Table → Semaphores) → Table → Semaphores
set_semaphores t k l t' = if same t' t then k else l t'

-- `sem_wait`: it waits at zero.
abbrev pub sem_wait : ℕ → Option ℕ
sem_wait zero = none
sem_wait (suc n) = some n

-- `sem_trywait`: at zero it fails, and nothing is done about it.
abbrev pub sem_trywait : ℕ → ℕ
sem_trywait zero = 0
sem_trywait (suc n) = n

abbrev pub lock_mutex : Semaphores → Option Semaphores
lock_mutex k = elim (sem_wait k.mutex) [ none ↦ none | some n ↦ some (record k { mutex = n }) ]

abbrev pub lock_wrt : Semaphores → Option Semaphores
lock_wrt k = elim (sem_wait k.wrt) [ none ↦ none | some n ↦ some (record k { wrt = n }) ]

abbrev pub unlock_wrt : Semaphores → Semaphores
unlock_wrt k = record k { wrt = suc k.wrt }

-- What a reader's line does; `sem_getvalue` and the test of the value are one.
abbrev pub call : Line → Semaphores → Option Semaphores
call wait_enter k = lock_mutex k
call count_up k = some (record k { counter = suc k.counter })
call test_first k = if k.counter == 1 then lock_wrt k else some k
call post_enter k = some (record k { mutex = suc k.mutex })
call wait_leave k = lock_mutex k
call count_down k = some (record k { counter = sem_trywait k.counter })
call test_last k = some (if k.counter == 0 then unlock_wrt k else k)
call post_leave k = some (record k { mutex = suc k.mutex })

abbrev pub with_semaphores :
    (Table → Semaphores)
    → Table
    → Pc
    → List Section
    → Option Semaphores
    → Option ((Table → Semaphores) × Thread)
with_semaphores l t pc todo none = none
with_semaphores l t pc todo (some k) = some (set_semaphores t k l, record { pc = pc; todo = todo })

-- One line of a process within a round. `none`: it waits, or the round is over.
unfoldable pub advance :
    (Table → Semaphores) → Pc → List Section → Option ((Table → Semaphores) × Thread)
advance l idle [] = none
advance l idle (s ∷ todo) = some (l, record { pc = start s; todo = todo })
advance l (at t line) todo = with_semaphores l t (follow t line) todo (call line (l t))
advance l (joining t line) todo = with_semaphores l t (join t line) todo (call line (l t))
advance l (taking held []) todo = some (l, record { pc = posting held; todo = todo })
advance l (taking held (t ∷ wanted)) todo =
    with_semaphores l t (taking (held ++ t ∷ []) wanted) todo (lock_wrt (l t))
advance l (posting []) todo = some (l, record { pc = idle; todo = todo })
advance l (posting (t ∷ left)) todo =
    some (set_semaphores t (unlock_wrt (l t)) l, record { pc = posting left; todo = todo })

-- A process has its command and is somewhere in a round.
pub record Process : Type 0 where
  pub task : DemoCommand
  pub thread : Thread

pub record Demo : Type 0 where
  pub semaphores : Table → Semaphores
  pub processes : List Process

-- Some process runs a line of its round.
pub data Advance (s : Demo) : Demo → Type 0 where
  advances :
      (before : List Process) (p : Process) (after : List Process) {l : Table → Semaphores}
      {th : Thread}
      → s.processes ≡ before ++ p ∷ after
      → advance s.semaphores p.thread.pc p.thread.todo ≡ some (l, th)
      → Advance s (record {
        semaphores = l;
        processes = before ++ record { task = p.task; thread = th } ∷ after;
      })

-- Some process is at the head of its loop and begins a round.
pub data BeginRound (rounds : DemoCommand → List Section) (s : Demo) : Demo → Type 0 where
  begins_round :
      (before : List Process) (task : DemoCommand) (after : List Process)
      → s.processes
        ≡ before ++ record { task = task; thread = record { pc = idle; todo = [] } } ∷ after
      → BeginRound rounds s (record {
        semaphores = s.semaphores;
        processes =
            before
            ++ record { task = task; thread = record { pc = idle; todo = rounds task } } ∷ after;
      })

abbrev pub begin_process : DemoCommand → Process
begin_process task = record { task = task; thread = record { pc = idle; todo = [] } }

-- The states that any number of processes with these commands come to, each in a loop without end.
pub data DemoRuns (rounds : DemoCommand → List Section) (commands : List DemoCommand)
    : Demo → Type 0 where
  opens :
      DemoRuns rounds commands
        (record { semaphores = λ _. opened; processes = map begin_process commands })
  runs_on : {s s' : Demo} → DemoRuns rounds commands s → Advance s s' → DemoRuns rounds commands s'
  runs_round :
      {s s' : Demo}
      → DemoRuns rounds commands s
      → BeginRound rounds s s'
      → DemoRuns rounds commands s'
