-- ===== src/Concurrent/Deadlock.antt =====
-- Demos/3_DeadLock_Scenarios, dl_compOrder.c and dl_compOrderNU.c: two writers that take the
-- semaphores of two files in different orders.
use group_a_cs.Base.{
  ℕ, ◌+◌, ◌<◌, ◌≡◌, refl, ◌∙◌, subst, List, [], ◌∷◌, ◌++◌, if◌then◌else◌, ltb, suc, ◌≤◌, some, none,
  All, arith,
}
use group_a_cs.World.{
  Table, product, billing, order, Lock, Locks, get_lock, set_lock, all_free, free,
}
use group_a_cs.Concurrent.{
  Section, writing, idle, taking, Thread, System, step, Reach, here, next, move,
}
use group_a_cs.Concurrent.Counts.{same_refl, member, get_lock-set_lock}
use group_a_cs.Concurrent.Invariant.{other_lock}
use group_a_cs.Concurrent.Waits.{CanStep}
use group_a_cs.Concurrent.Work.{total_work}

-- No thread can run its next line.
abbrev AllWait : System → Type 0
AllWait s = All (λ th. move s.locks th.pc th.todo ≡ none) s.threads

wait_at :
    (l : Locks) (before : List Thread) (th : Thread) (after : List Thread)
    → All (λ x. move l x.pc x.todo ≡ none) (before ++ th ∷ after)
    → move l th.pc th.todo ≡ none
wait_at l [] th after h = h.0
wait_at l (x ∷ before) th after h = wait_at l before th after h.1

AllWait-stuck : (s : System) → AllWait s → ¬ CanStep s
AllWait-stuck s h (s', step before th after split moved) =
    let waits = wait_at s.locks before th after (subst (All _) split h) in
    ground (arith, waits, moved)

-- A writer has taken the file.
abbrev taken : Lock
taken = record free { wrt = 0 }

get_lock-all_free : (t : Table) → get_lock t all_free ≡ free
get_lock-all_free t = ground arith

takes_free :
    (l : Locks) (t : Table) (held wanted : List Table) (todo : List Section)
    → get_lock t l ≡ free
    → move l (taking held (t ∷ wanted)) todo
      ≡ some (set_lock t taken l, record { pc = taking (held ++ t ∷ []) wanted; todo = todo })
unfolding move
takes_free l t held wanted todo h = rw h refl

waits_taken :
    (l : Locks) (t : Table) (held wanted : List Table) (todo : List Section)
    → get_lock t l ≡ taken
    → move l (taking held (t ∷ wanted)) todo ≡ none
unfolding move
waits_taken l t held wanted todo h = rw h refl

-- The files, once a writer has taken them all.
abbrev take_all : List Table → Locks → Locks
take_all [] l = l
take_all (t ∷ ts) l = take_all ts (set_lock t taken l)

get_lock-take_all :
    (t : Table) (ts : List Table) (l : Locks)
    → get_lock t (take_all ts l) ≡ (if ltb 0 (member t ts) then taken else get_lock t l)
get_lock-take_all t [] l = refl
get_lock-take_all t (x ∷ ts) l =
    ground (arith, get_lock-take_all t ts (set_lock x taken l), get_lock-set_lock t x taken l)

take_all-taken :
    (t : Table) (ts : List Table) (l : Locks) → 0 < member t ts → get_lock t (take_all ts l) ≡ taken
take_all-taken t ts l h = ground (arith, get_lock-take_all t ts l, h)

take_all-others :
    (t : Table) (ts : List Table) (l : Locks)
    → member t ts ≡ 0
    → get_lock t (take_all ts l) ≡ get_lock t l
take_all-others t ts l h = ground (arith, get_lock-take_all t ts l, h)

-- The thread between `before` and `after` takes the files `ts`, which are free, up to those that it
-- still wants.
Reach-taken :
    (programs : List (List Section)) (n : ℕ) (l : Locks) (before after : List Thread)
    (held ts wanted : List Table) (todo : List Section)
    → Reach programs n (record {
      locks = l;
      threads = before ++ record { pc = taking held (ts ++ wanted); todo = todo } ∷ after;
    })
    → ((t : Table) → member t ts ≤ 1)
    → ((t : Table) → 0 < member t ts → get_lock t l ≡ free)
    → (m : ℕ) × (held' : List Table) × Reach programs m (record {
      locks = take_all ts l;
      threads = before ++ record { pc = taking held' wanted; todo = todo } ∷ after;
    })
Reach-taken programs n l before after held [] wanted todo r once are_free = (n, held, r)
Reach-taken programs n l before after held (t ∷ ts) wanted todo r once are_free =
    Reach-taken programs (suc n) (set_lock t taken l) before after (held ++ t ∷ []) ts wanted todo
      (next r (
        step before _ after refl
          (takes_free l t held (ts ++ wanted) todo (are_free t (ground (arith, same_refl t))))))
      (λ x. omega (arith, once x))
      (λ x h. other_lock x t taken l (ground (arith, once x, h)) ∙ are_free x (omega (arith, h)))

abbrev pub two_writers :
    Table
    → Table
    → List Table
    → List Table
    → List Table
    → List Table
    → List Section
    → List Section
    → List (List Section)
two_writers a b xs ys rest rest' todo todo' =
    (writing (xs ++ b ∷ rest) ∷ todo) ∷ (writing (ys ++ a ∷ rest') ∷ todo') ∷ []

-- Two writers of which each takes a file that the other wants before it wants the other's, with no
-- file taken by both before, and whatever they take and do afterwards: an interleaving leads to a
-- state in which no thread can run its next line, although there are lines left.
pub crossed_writers_deadlock :
    (a b : Table) (xs ys rest rest' : List Table) (todo todo' : List Section)
    → 0 < member a xs
    → 0 < member b ys
    → ((t : Table) → member t xs + member t ys ≤ 1)
    → (n : ℕ) × (s : System) × Reach (two_writers a b xs ys rest rest' todo todo') n s
      × (¬ CanStep s)
      × (0 < total_work s.threads)
unfolding move
crossed_writers_deadlock a b xs ys rest rest' todo todo' in_first in_second apart =
    let other_waits : Thread = record { pc = idle; todo = writing (ys ++ a ∷ rest') ∷ todo' } in
    let (n, held, r) =
      Reach-taken _ 1 all_free [] (other_waits ∷ []) [] xs (b ∷ rest) todo
        (next here (step [] _ _ refl refl)) (λ t. omega (arith, apart t))
        (λ t h. get_lock-all_free t) in
    let one : Thread = record { pc = taking held (b ∷ rest); todo = todo } in
    let (m, held', r') =
      Reach-taken _ (suc n) (take_all xs all_free) (one ∷ []) [] [] ys (a ∷ rest') todo'
        (next r (step (one ∷ []) other_waits [] refl refl)) (λ t. omega (arith, apart t))
        (λ t h. take_all-others t xs all_free (omega (arith, apart t, h)) ∙ get_lock-all_free t) in
    let l = take_all ys (take_all xs all_free) in
    let s : System = record {
      locks = l;
      threads = one ∷ record { pc = taking held' (a ∷ rest'); todo = todo' } ∷ [];
    } in
    let first_waits =
      waits_taken l b held rest todo (take_all-taken b ys (take_all xs all_free) in_second) in
    let second_waits = waits_taken l a held' rest' todo' (
      take_all-others a ys (take_all xs all_free) (omega (arith, apart a, in_first))
      ∙ take_all-taken a xs all_free in_first) in
    (m, s, r', AllWait-stuck s (first_waits, (second_waits, tt)), omega arith)

-- The files in the order in which dl_compOrder.c and dl_compOrderNU.c wait for them. The latter posts
-- them in the order of the former.
abbrev pub comp_order_waits : List Table
comp_order_waits = product ∷ billing ∷ order ∷ []

abbrev pub comp_order_nu_waits : List Table
comp_order_nu_waits = order ∷ billing ∷ product ∷ []
