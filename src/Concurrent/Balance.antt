-- ===== src/Concurrent/Balance.antt =====
-- The semaphores and the counter of one file agree with what the threads do, and every line of a
-- thread keeps this so.
use group_a_cs.Base.{ℕ, ◌+◌, ◌≤◌, ◌≡◌, some, List, [], ◌∷◌, ◌++◌, arith, if◌then◌else◌, ltb}
use group_a_cs.Base.Int.{pos, ◌+ℤ◌}
use group_a_cs.World.{Table, Lock}
use group_a_cs.Concurrent.{
  Line, wait_enter, count_up, test_first, post_enter, wait_leave, count_down, test_last, post_leave,
  Pc, idle, at, joining, taking, posting, Thread, follow, read_line,
}
use group_a_cs.Concurrent.Counts.{
  same_refl, in_mutex, counted, arriving, parting, reader, writer, total, total-append,
}

-- How many threads have the semaphore round the counter, are counted, are counted and still before the
-- test, are not counted any more and still before the test, and write.
pub record Tally : Type 0 where
  pub locked : ℕ
  pub readers : ℕ
  pub early : ℕ
  pub late : ℕ
  pub writers : ℕ

-- The readers together have the writers' semaphore.
abbrev pub shared : Tally → ℕ
shared c = if ltb c.early (c.readers + c.late) then 1 else 0

pub record Balanced (k : Lock) (c : Tally) : Type 0 where
  pub one_locks : k.mutex + c.locked ≡ 1
  pub counter : k.readers ≡ pos c.readers
  pub one_writes : k.wrt + c.writers + shared c ≡ 1

abbrev pub tally : Table → List Thread → Tally
tally t ths = record {
  locked = total (reader in_mutex t) ths;
  readers = total (reader counted t) ths;
  early = total (reader arriving t) ths;
  late = total (reader parting t) ths;
  writers = total (writer t) ths;
}

-- A thread at `p`, and those of the tally.
abbrev pub with_thread : Table → Pc → Tally → Tally
with_thread t p d = record {
  locked = reader in_mutex t p + d.locked;
  readers = reader counted t p + d.readers;
  early = reader arriving t p + d.early;
  late = reader parting t p + d.late;
  writers = writer t p + d.writers;
}

pub total-middle :
    (f : Pc → ℕ) (before : List Thread) (th : Thread) (after : List Thread)
    → total f (before ++ th ∷ after) ≡ f th.pc + total f (before ++ after)
total-middle f before th after =
    omega (arith, total-append f before (th ∷ after), total-append f before after)

pub tally-with_thread :
    (t : Table) (before : List Thread) (th : Thread) (after : List Thread)
    → tally t (before ++ th ∷ after) ≡ with_thread t th.pc (tally t (before ++ after))
tally-with_thread t before th after i = record {
  locked = total-middle (reader in_mutex t) before th after i;
  readers = total-middle (reader counted t) before th after i;
  early = total-middle (reader arriving t) before th after i;
  late = total-middle (reader parting t) before th after i;
  writers = total-middle (writer t) before th after i;
}

-- What holds of the tally of any threads.
pub record IsTally (d : Tally) : Type 0 where
  pub between : d.early + d.late ≤ d.locked
  pub of_readers : d.early ≤ d.readers

weights :
    (t : Table) (p : Pc)
    → (reader arriving t p + reader parting t p ≤ reader in_mutex t p)
      × (reader arriving t p ≤ reader counted t p)
weights t idle = omega arith
weights t (at t' line) = ground arith
weights t (joining t' line) = omega arith
weights t (taking held wanted) = omega arith
weights t (posting left) = omega arith

pub tally-IsTally : (t : Table) (ths : List Thread) → IsTally (tally t ths)
tally-IsTally t [] = omega arith
tally-IsTally t (th ∷ ths) = omega (arith, weights t th.pc, tally-IsTally t ths)

pub read_line-Balanced :
    (t : Table) (line : Line) (k k' : Lock) (d : Tally)
    → read_line line k ≡ some k'
    → IsTally d
    → Balanced k (with_thread t (at t line) d)
    → Balanced k' (with_thread t (follow t line) d)
unfolding ◌+ℤ◌
read_line-Balanced t wait_enter k k' d e m b = ground (arith, same_refl t)
read_line-Balanced t count_up k k' d e m b = ground (arith, same_refl t)
read_line-Balanced t test_first k k' d e m b = ground (arith, same_refl t)
read_line-Balanced t post_enter k k' d e m b = ground (arith, same_refl t)
read_line-Balanced t wait_leave k k' d e m b = ground (arith, same_refl t)
read_line-Balanced t count_down k k' d e m b = ground (arith, same_refl t)
read_line-Balanced t test_last k k' d e m b = ground (arith, same_refl t)
read_line-Balanced t post_leave k k' d e m b = ground (arith, same_refl t)
