-- ===== src/Concurrent/Exclusion.antt =====
-- Readers and writers of one file exclude each other.
use group_a_cs.Base.{ℕ, ◌+◌, ◌≤◌, ◌≡◌, ◌⊎◌, List, [], ◌∷◌, arith}
use group_a_cs.World.{Table}
use group_a_cs.Concurrent.{Section, Pc, idle, at, joining, taking, posting, Thread, System, Reach}
use group_a_cs.Concurrent.Counts.{reader, writer, total, inside, counted, arriving}
use group_a_cs.Concurrent.Balance.{Balanced, tally}
use group_a_cs.Concurrent.Invariant.{AreSections, Inv, Reach-Inv}

inside-counted : (t : Table) (p : Pc) → reader inside t p + reader arriving t p ≤ reader counted t p
inside-counted t idle = omega arith
inside-counted t (at t' line) = ground arith
inside-counted t (joining t' line) = omega arith
inside-counted t (taking held wanted) = omega arith
inside-counted t (posting left) = omega arith

total-inside :
    (t : Table) (ths : List Thread)
    → total (reader inside t) ths + total (reader arriving t) ths ≤ total (reader counted t) ths
total-inside t [] = omega arith
total-inside t (th ∷ ths) = omega (arith, inside-counted t th.pc, total-inside t ths)

pub Inv-exclusion :
    {s : System}
    → Inv s
    → (t : Table)
    → (total (writer t) s.threads ≤ 1)
      × ((total (writer t) s.threads ≡ 0) ⊎ (total (reader inside t) s.threads ≡ 0))
Inv-exclusion {s} inv t =
    let b : Balanced _ (tally t s.threads) = inv.balanced t in
    ground (arith, b.one_writes, total-inside t s.threads)

-- If each reader enters a file before it leaves it and leaves it again, and each writer takes the semaphores
-- of its files in the order of their ranks, then in every state that any interleaving of any number of
-- threads reaches, at most one thread has the writers' semaphore of a file as a writer, and while one
-- has it, no thread is in the part of a reader's section that reads the file.
pub readers_or_writer :
    {programs : List (List Section)} {n : ℕ} {s : System}
    → AreSections programs
    → Reach programs n s
    → (t : Table)
    → (total (writer t) s.threads ≤ 1)
      × ((total (writer t) s.threads ≡ 0) ⊎ (total (reader inside t) s.threads ≡ 0))
readers_or_writer ok r t = Inv-exclusion (Reach-Inv ok r) t
