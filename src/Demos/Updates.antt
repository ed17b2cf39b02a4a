-- ===== src/Demos/Updates.antt =====
-- Demos/1_Race_Cond_Examples/RaceConditionDemo.c, Demos/3_DeadLock_Scenarios/DeadlockDemo.c and the
-- writers of Demos/2_Race_Fix/ReadWriteDemo.c: threads that change numbers in files under one semaphore.
pub mod Sums
pub mod Kept
pub mod Invariant
pub mod Result
pub mod Progress
use group_a_cs.Base.{
  ℕ, suc, ◌≡◌, Bool, true, false, Option, none, some, List, [], ◌∷◌, ◌++◌, if◌then◌else◌,
}
use group_a_cs.Base.Int.{ℤ, pos, negsuc, ◌+ℤ◌, to_int}

-- nuumber.txt, prod.txt and bill.txt.
pub data File : Type 0 where
  number prod bill : File

abbrev pub same_file : File → File → Bool
same_file number number = true
same_file prod prod = true
same_file bill bill = true
same_file _ _ = false

-- One read of a number, a change, and a write of the new number.
pub record Update : Type 0 where
  pub file : File
  pub by : ℤ

-- The updates of each kind of thread.
abbrev pub file_work : List Update
file_work = record { file = number; by = negsuc 0 } ∷ []

abbrev pub buy : List Update
buy = record { file = prod; by = negsuc 0 } ∷ record { file = bill; by = pos 1 } ∷ []

abbrev pub ret : List Update
ret = record { file = bill; by = negsuc 0 } ∷ record { file = prod; by = pos 1 } ∷ []

abbrev pub writer_work : List Update
writer_work = record { file = bill; by = pos 1 } ∷ []

-- Where a thread is: between two updates, before `fscanf`, before the change of `x`, before the `fopen`
-- that empties the file, before `fprintf`, and before the signal.
pub data Place : Type 0 where
  out : Place
  scans : Update → Place
  changes opens prints : Update → ℤ → Place
  signals : Place

pub record Worker : Type 0 where
  pub place : Place
  pub todo : List Update

-- The semaphore, which `id` and `id2` both name, since the keys are the same; and the files, of which
-- `none` is an empty one.
pub record Memory : Type 0 where
  pub sem : ℕ
  pub files : File → Option ℤ

abbrev pub set_file : File → Option ℤ → Memory → Memory
set_file f o m = record m { files = λ f'. if same_file f' f then o else m.files f' }

-- A line of a thread.
pub data UpdateLine (m : Memory) : Place → List Update → Memory → Worker → Type 0 where
  semop_wait :
      {n : ℕ} (u : Update) (todo : List Update)
      → m.sem ≡ suc n
      → UpdateLine m out (u ∷ todo) (record m { sem = n }) (record { place = scans u; todo = todo })
  fscanf :
      (u : Update) (x : ℤ) (todo : List Update)
      → m.files u.file ≡ some x
      → UpdateLine m (scans u) todo m (record { place = changes u x; todo = todo })
  change :
      (u : Update) (x y : ℤ) (todo : List Update)
      → to_int (x +ℤ u.by) ≡ some y
      → UpdateLine m (changes u x) todo m (record { place = opens u y; todo = todo })
  fopen_w :
      (u : Update) (y : ℤ) (todo : List Update)
      → UpdateLine m
          (opens u y)
          todo
          (set_file u.file none m)
          (record { place = prints u y; todo = todo })
  fprintf :
      (u : Update) (y : ℤ) (todo : List Update)
      → UpdateLine m
          (prints u y)
          todo
          (set_file u.file (some y) m)
          (record { place = signals; todo = todo })
  semop_signal :
      (todo : List Update)
      → UpdateLine m signals todo
          (record m { sem = suc m.sem })
          (record { place = out; todo = todo })

pub record Machine : Type 0 where
  pub memory : Memory
  pub workers : List Worker

pub data MachineStep (s : Machine) : Machine → Type 0 where
  runs_line :
      (before : List Worker) (w : Worker) (after : List Worker) {m : Memory} {w' : Worker}
      → s.workers ≡ before ++ w ∷ after
      → UpdateLine s.memory w.place w.todo m w'
      → MachineStep s (record { memory = m; workers = before ++ w' ∷ after })

abbrev pub begin_workers : List (List Update) → List Worker
begin_workers [] = []
begin_workers (p ∷ programs) = record { place = out; todo = p } ∷ begin_workers programs

-- The states that the threads come to, from these numbers in the files.
pub data MachineReach (numbers : File → ℤ) (programs : List (List Update)) : Machine → Type 0 where
  created : MachineReach numbers programs (record {
    memory = record { sem = 1; files = λ f. some (numbers f) };
    workers = begin_workers programs;
  })
  then_step :
      {s s' : Machine}
      → MachineReach numbers programs s
      → MachineStep s s'
      → MachineReach numbers programs s'
