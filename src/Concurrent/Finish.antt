-- ===== src/Concurrent/Finish.antt =====
-- Every interleaving of the threads ends, with every semaphore free.
use native.Mathlib.Decide.{dec_lt}
use group_a_cs.Base.{ℕ, ◌<◌, ◌≡◌, ◌⊎◌, inl, inr, refl, ap, ◌∙◌, List, [], ◌∷◌, arith}
use group_a_cs.Base.Int.{pos}
use group_a_cs.World.{Table, buyer, seller, product, billing, order, Lock, get_lock, all_free, free}
use group_a_cs.Concurrent.{Section, Pc, idle, at, joining, taking, posting, Thread, System, Reach}
use group_a_cs.Concurrent.Counts.{reader, writer, total, in_mutex, counted, parting}
use group_a_cs.Concurrent.Balance.{Balanced, Tally, tally}
use group_a_cs.Concurrent.Work.{thread_work, total_work, programs_work, Reach-work}
use group_a_cs.Concurrent.Invariant.{AreSections, Inv, Reach-Inv}
use group_a_cs.Concurrent.Waits.{CanStep}
use group_a_cs.Concurrent.Progress.{progress}

-- A thread without work is between two sections.
no_work :
    (f : Pc → ℕ) (p : Pc) (todo : List Section) → f idle ≡ 0 → thread_work p todo ≡ 0 → f p ≡ 0
no_work f idle todo e h = e
no_work f (at t line) todo e h = absurd (ground arith)
no_work f (joining t line) todo e h = absurd (ground arith)
no_work f (taking held wanted) todo e h = absurd (omega arith)
no_work f (posting left) todo e h = absurd (omega arith)

no_total : (f : Pc → ℕ) (ths : List Thread) → f idle ≡ 0 → total_work ths ≡ 0 → total f ths ≡ 0
no_total f [] e h = refl
no_total f (th ∷ ths) e h =
    omega (arith, no_work f th.pc th.todo e (omega arith), no_total f ths e (omega arith))

Balanced-free :
    (k : Lock) (d : Tally)
    → Balanced k d
    → d.locked ≡ 0
    → d.readers ≡ 0
    → d.late ≡ 0
    → d.writers ≡ 0
    → k ≡ free
Balanced-free k d b no_locked no_readers no_late no_writers i = record {
  wrt = wrt_free i;
  mutex = mutex_free i;
  readers = (b.counter ∙ ap pos no_readers) i;
}
  where
    mutex_free : k.mutex ≡ 1
    mutex_free = omega (arith, b.one_locks)

    wrt_free : k.wrt ≡ 1
    wrt_free = ground (arith, b.one_writes)

module _ (s : System) (inv : Inv s) (h : total_work s.threads ≡ 0) where
  get_lock-free : (t : Table) → get_lock t s.locks ≡ free
  get_lock-free t =
      let ths = s.threads in
      Balanced-free (get_lock t s.locks) (tally t ths) (inv.balanced t)
        (no_total (reader in_mutex t) ths refl h) (no_total (reader counted t) ths refl h)
        (no_total (reader parting t) ths refl h) (no_total (writer t) ths refl h)

  locks-all_free : s.locks ≡ all_free
  locks-all_free i = record {
    customer_info = get_lock-free buyer i;
    seller_info = get_lock-free seller i;
    product_info = get_lock-free product i;
    billing_info = get_lock-free billing i;
    customer_order = get_lock-free order i;
  }

-- Of any number of threads with any sections, each reader's section with its end and each writer's
-- with its files in the order of the ranks: every interleaving has at most as many lines as the
-- threads have; before it has that many, some thread can run its next line; and after that many all
-- semaphores and counters are as they were before the messages.
pub every_run_finishes :
    {programs : List (List Section)} {n : ℕ} {s : System}
    → AreSections programs
    → Reach programs n s
    → (CanStep s × (n < programs_work programs))
      ⊎ ((s.locks ≡ all_free) × (n ≡ programs_work programs))
every_run_finishes {s = s} ok r = elim (dec_lt 0 (total_work s.threads)) [
  | yes more ↦ inl (progress s (Reach-Inv ok r) more, omega (arith, Reach-work r))
  | no done ↦ inr (locks-all_free s (Reach-Inv ok r) (omega arith), omega (arith, Reach-work r))
]
