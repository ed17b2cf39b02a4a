-- ===== src/Concurrent.antt =====
-- The threads of the server as they wait on, count and post the semaphores of Roden.h: Roden.c, the
-- lines round each use of a file, one at a time and in any interleaving.
pub mod Counts
pub mod Balance
pub mod Moved
pub mod Invariant
pub mod Exclusion
pub mod Work
pub mod Waits
pub mod Progress
pub mod Finish
pub mod Quiet
pub mod Alone
pub mod Runs
pub mod Calls
pub mod Answers
pub mod Handlers
pub mod Choices
pub mod Branches
pub mod Changes
pub mod Messages
pub mod Commands
pub mod Deadlock
use group_a_cs.Base.{◌≡◌, ℕ, zero, suc, Option, none, some, List, [], ◌∷◌, ◌++◌, if◌then◌else◌}
use group_a_cs.Base.Int.{pos, negsuc, ◌+ℤ◌, eq_ℤ, is_zero}
use group_a_cs.World.{Table, Lock, Locks, get_lock, set_lock, all_free}

-- What a thread does with the files for one message: it reads a file as a reader, or takes the
-- writers' semaphores of several files, in the order of the list, and posts them in this order.
-- `entering` is the beginning of a reader's section with no end, and `leaving` an end with no beginning.
pub data Section : Type 0 where
  reading : Table → Section
  writing : List Table → Section
  entering leaving : Table → Section

-- The next line of a reader's section.
pub data Line : Type 0 where
  wait_enter count_up test_first post_enter wait_leave count_down test_last post_leave : Line

-- Where a thread is: between two sections; in a reader's section of a file; in the beginning of one
-- that has no end; taking semaphores, those
-- it has and those it still wants; or posting the ones that are left.
pub data Pc : Type 0 where
  idle : Pc
  at joining : Table → Line → Pc
  taking : List Table → List Table → Pc
  posting : List Table → Pc

pub record Thread : Type 0 where
  pub pc : Pc
  pub todo : List Section

abbrev pub start : Section → Pc
start (reading t) = at t wait_enter
start (writing ts) = taking [] ts
start (entering t) = joining t wait_enter
start (leaving t) = at t wait_leave

-- The line after a line of a reader's section of file `t`.
abbrev pub follow : Table → Line → Pc
follow t wait_enter = at t count_up
follow t count_up = at t test_first
follow t test_first = at t post_enter
follow t post_enter = at t wait_leave
follow t wait_leave = at t count_down
follow t count_down = at t test_last
follow t test_last = at t post_leave
follow t post_leave = idle

-- The line after one of a beginning with no end.
abbrev pub join : Table → Line → Pc
join t wait_enter = joining t count_up
join t count_up = joining t test_first
join t test_first = joining t post_enter
join t _ = idle

-- What a line does. `none`: `sem_wait` waits.
abbrev pub read_line : Line → Lock → Option Lock
read_line wait_enter k = elim k.mutex [ zero ↦ none | suc n ↦ some (record k { mutex = n }) ]
read_line count_up k = some (record k { readers = k.readers +ℤ pos 1 })
read_line test_first k =
    if eq_ℤ k.readers (pos 1)
    then (elim k.wrt [ zero ↦ none | suc n ↦ some (record k { wrt = n }) ])
    else some k
read_line post_enter k = some (record k { mutex = suc k.mutex })
read_line wait_leave k = elim k.mutex [ zero ↦ none | suc n ↦ some (record k { mutex = n }) ]
read_line count_down k = some (record k { readers = k.readers +ℤ negsuc 0 })
read_line test_last k = some (if is_zero k.readers then record k { wrt = suc k.wrt } else k)
read_line post_leave k = some (record k { mutex = suc k.mutex })

-- `sem_wait` and `sem_post` of a writer.
abbrev pub take_wrt : Lock → Option Lock
take_wrt k = elim k.wrt [ zero ↦ none | suc n ↦ some (record k { wrt = n }) ]

abbrev pub post_wrt : Lock → Lock
post_wrt k = record k { wrt = suc k.wrt }

-- The thread behind a line that has changed the lock, or not.
abbrev pub behind : Locks → Table → Pc → List Section → Option Lock → Option (Locks × Thread)
behind l t pc todo none = none
behind l t pc todo (some k) = some (set_lock t k l, record { pc = pc; todo = todo })

-- One line of a thread. `none`: the thread waits, or has nothing left to do.
unfoldable pub move : Locks → Pc → List Section → Option (Locks × Thread)
unfolding ◌+ℤ◌
move l idle [] = none
move l idle (s ∷ todo) = some (l, record { pc = start s; todo = todo })
move l (at t line) todo = behind l t (follow t line) todo (read_line line (get_lock t l))
move l (joining t line) todo = behind l t (join t line) todo (read_line line (get_lock t l))
move l (taking held []) todo = some (l, record { pc = posting held; todo = todo })
move l (taking held (t ∷ wanted)) todo =
    behind l t (taking (held ++ t ∷ []) wanted) todo (take_wrt (get_lock t l))
move l (posting []) todo = some (l, record { pc = idle; todo = todo })
move l (posting (t ∷ left)) todo =
    some (set_lock t (post_wrt (get_lock t l)) l, record { pc = posting left; todo = todo })

pub record System : Type 0 where
  pub locks : Locks
  pub threads : List Thread

-- Some thread moves by one line.
pub data Step (s : System) : System → Type 0 where
  step :
      (before : List Thread) (th : Thread) (after : List Thread) {l : Locks} {th' : Thread}
      → s.threads ≡ before ++ th ∷ after
      → move s.locks th.pc th.todo ≡ some (l, th')
      → Step s (record { locks = l; threads = before ++ th' ∷ after })

abbrev pub begin_threads : List (List Section) → List Thread
begin_threads [] = []
begin_threads (p ∷ programs) = record { pc = idle; todo = p } ∷ begin_threads programs

-- The server before the messages, each thread with the sections of its own.
abbrev pub begin : List (List Section) → System
begin programs = record { locks = all_free; threads = begin_threads programs }

-- The states after `n` lines of any interleaving.
pub data Reach (programs : List (List Section)) : ℕ → System → Type 0 where
  here : Reach programs 0 (begin programs)
  next : {n : ℕ} {s s' : System} → Reach programs n s → Step s s' → Reach programs (suc n) s'
