-- ===== src/Concurrent/Invariant.antt =====
-- Every line of every thread keeps the semaphores of all files in agreement with the threads.
use group_a_cs.Base.{
  ℕ, ◌<◌, ◌≡◌, refl, sym, ◌∙◌, subst, true, false, some, List, [], ◌∷◌, ◌++◌, arith, ap, Bool-cases,
  inl, inr, All,
}
use group_a_cs.World.{
  Table, buyer, seller, product, billing, order, Lock, Locks, get_lock, set_lock, all_free,
}
use group_a_cs.Concurrent.{
  Section, reading, writing, entering, leaving, Line, Pc, idle, at, joining, taking, posting,
  Thread, follow, take_wrt, post_wrt, System, Step, step, Reach, here, next, begin_threads,
}
use group_a_cs.Concurrent.Counts.{
  rank, same, same_refl, get_lock-set_lock, reader, writer, member-append, total, in_mutex, counted,
  arriving, parting,
}
use group_a_cs.Concurrent.Balance.{
  Tally, Balanced, tally, with_thread, tally-with_thread, IsTally, tally-IsTally,
  read_line-Balanced,
}
use group_a_cs.Concurrent.Moved.{Moved, starts, reads, joins, works, takes, posts, ends, move-Moved}

pub same-eq : (t t' : Table) → same t t' ≡ true → t ≡ t'
same-eq buyer t' h = ground arith
same-eq seller t' h = ground arith
same-eq product t' h = ground arith
same-eq billing t' h = ground arith
same-eq order t' h = ground arith

-- Every file of the first has a smaller rank than the second.
abbrev pub AllBelow : ℕ → List Table → Type 0
AllBelow n [] = Unit
AllBelow n (t ∷ ts) = (rank t < n) × AllBelow n ts

-- The files stand in the order of their ranks.
abbrev pub IsOrdered : List Table → List Table → Type 0
IsOrdered held [] = Unit
IsOrdered held (t ∷ wanted) = AllBelow (rank t) held × IsOrdered (held ++ t ∷ []) wanted

-- A reader's section with its beginning and its end, or a writer's with its files in order.
abbrev pub IsSection : Section → Type 0
IsSection (reading t) = Unit
IsSection (writing ts) = IsOrdered [] ts
IsSection (entering t) = ⊥
IsSection (leaving t) = ⊥

abbrev pub IsPc : Pc → Type 0
IsPc idle = Unit
IsPc (at t line) = Unit
IsPc (joining t line) = ⊥
IsPc (taking held wanted) = IsOrdered held wanted
IsPc (posting left) = Unit

abbrev pub IsThread : Thread → Type 0
IsThread th = IsPc th.pc × All IsSection th.todo

Moved-IsThread :
    {l l' : Locks} {p : Pc} {todo : List Section} {th' : Thread}
    → Moved l p todo l' th'
    → IsPc p
    → All IsSection todo
    → IsThread th'
Moved-IsThread (starts (reading t) todo) h k = (tt, k.1)
Moved-IsThread (starts (writing ts) todo) h k = (k.0, k.1)
Moved-IsThread (starts (entering t) todo) h k = absurd k.0
Moved-IsThread (starts (leaving t) todo) h k = absurd k.0
Moved-IsThread (joins t line k' todo e) h k = absurd h
Moved-IsThread (reads t line k' todo e) h k = (IsPc-follow t line, k)
  where
    IsPc-follow : (t : Table) (line : Line) → IsPc (follow t line)
    IsPc-follow t line = ground arith
Moved-IsThread (works held todo) h k = (tt, k)
Moved-IsThread (takes t held wanted k' todo e) h k = (h.1, k)
Moved-IsThread (posts t left todo) h k = (tt, k)
Moved-IsThread (ends todo) h k = (tt, k)

-- A lock that another file's line leaves alone.
pub other_lock :
    (t t' : Table) (k : Lock) (l : Locks)
    → same t t' ≡ false
    → get_lock t (set_lock t' k l) ≡ get_lock t l
other_lock t t' k l h = get_lock-set_lock t t' k l ∙ rw h

pub own_lock : (t : Table) (k : Lock) (l : Locks) → get_lock t (set_lock t k l) ≡ k
own_lock t k l = get_lock-set_lock t t k l ∙ rw (same_refl t)

follow_other :
    (t t' : Table) (line : Line) (d : Tally)
    → same t t' ≡ false
    → with_thread t (follow t' line) d ≡ with_thread t (at t' line) d
follow_other t t' line d h = ground (arith, h)

take_wrt-Balanced :
    (t : Table) (held wanted : List Table) (k k' : Lock) (d : Tally)
    → take_wrt k ≡ some k'
    → Balanced k (with_thread t (taking held (t ∷ wanted)) d)
    → Balanced k' (with_thread t (taking (held ++ t ∷ []) wanted) d)
take_wrt-Balanced t held wanted k k' d e b =
    ground (arith, same_refl t, member-append t held (t ∷ []))

post_wrt-Balanced :
    (t : Table) (left : List Table) (k : Lock) (d : Tally)
    → Balanced k (with_thread t (posting (t ∷ left)) d)
    → Balanced (post_wrt k) (with_thread t (posting left) d)
post_wrt-Balanced t left k d b = ground (arith, same_refl t)

-- A property of every file, from the file of a line and from the others.
by_table : (P : Table → Type 0) (t t' : Table) → P t' → (same t t' ≡ false → P t) → P t
by_table P t t' own others = elim (Bool-cases (same t t')) [
  | inl h ↦ subst P (sym (same-eq t t' h)) own
  | inr h ↦ others h
]

-- One line of one thread, seen from one file.
pub Moved-Balanced :
    {l l' : Locks} {p : Pc} {todo : List Section} {th' : Thread} (t : Table) (d : Tally)
    → Moved l p todo l' th'
    → IsPc p
    → All IsSection todo
    → IsTally d
    → Balanced (get_lock t l) (with_thread t p d)
    → Balanced (get_lock t l') (with_thread t th'.pc d)
Moved-Balanced t d (starts (entering t') todo) at_pc ok i b = absurd ok.0
Moved-Balanced t d (joins t' line k todo e) at_pc ok i b = absurd at_pc
Moved-Balanced t d (starts (reading t') todo) at_pc ok i b = ground arith
Moved-Balanced t d (starts (writing ts) todo) at_pc ok i b = b
Moved-Balanced t d (starts (leaving t') todo) at_pc ok i b = absurd ok.0
Moved-Balanced {l} t d (reads t' line k todo e) at_pc ok i b =
    by_table
      (λ x.
        Balanced (get_lock x l) (with_thread x (at t' line) d)
        → Balanced (get_lock x (set_lock t' k l)) (with_thread x (follow t' line) d))
      t t' (λ b'. rw (own_lock t' k l) (read_line-Balanced t' line (get_lock t' l) k d e i b'))
      (λ h b'. rw (other_lock t t' k l h) (rw (follow_other t t' line d h) b')) b
Moved-Balanced t d (works held todo) at_pc ok i b = b
Moved-Balanced {l} t d (takes t' held wanted k todo e) at_pc ok i b =
    by_table
      (λ x.
        Balanced (get_lock x l) (with_thread x (taking held (t' ∷ wanted)) d)
        → Balanced (get_lock x (set_lock t' k l))
            (with_thread x (taking (held ++ t' ∷ []) wanted) d))
      t t' (λ b'. rw (own_lock t' k l) (take_wrt-Balanced t' held wanted (get_lock t' l) k d e b'))
      (λ h b'. rw (other_lock t t' k l h) (ground (arith, h, member-append t held (t' ∷ [])))) b
Moved-Balanced {l} t d (posts t' left todo) at_pc ok i b =
    by_table
      (λ x.
        Balanced (get_lock x l) (with_thread x (posting (t' ∷ left)) d)
        → Balanced (get_lock x (set_lock t' (post_wrt (get_lock t' l)) l))
            (with_thread x (posting left) d))
      t t'
      (λ b'.
        rw (own_lock t' (post_wrt (get_lock t' l)) l)
          (post_wrt-Balanced t' left (get_lock t' l) d b'))
      (λ h b'. rw (other_lock t t' (post_wrt (get_lock t' l)) l h) (ground (arith, h))) b
Moved-Balanced t d (ends todo) at_pc ok i b = b

-- The invariant: the semaphores of every file agree with the threads, and each thread has ended
-- every section that it has begun and takes the semaphores of a section in order.
pub record Inv (s : System) : Type 0 where
  pub balanced : (t : Table) → Balanced (get_lock t s.locks) (tally t s.threads)
  pub threads : All IsThread s.threads

pub All-middle :
    (before : List Thread) (th th' : Thread) (after : List Thread)
    → All IsThread (before ++ th ∷ after)
    → IsThread th × (IsThread th' → All IsThread (before ++ th' ∷ after))
All-middle [] th th' after h = (h.0, λ k. (k, h.1))
All-middle (x ∷ before) th th' after h =
    let (a, f) = All-middle before th th' after h.1 in (a, λ k. (h.0, f k))

pub Step-Inv : {s s' : System} → Step s s' → Inv s → Inv s'
Step-Inv {s} (step before th after {l} {th'} split moved) inv =
    let m = move-Moved s.locks th.pc th.todo moved in
    let (ok, rest) = All-middle before th th' after (subst (All IsThread) split inv.threads) in
    record {
      balanced = λ t. rw (tally-with_thread t before th' after) (
          Moved-Balanced t (tally t (before ++ after)) m ok.0 ok.1
            (tally-IsTally t (before ++ after))
            (subst (Balanced (get_lock t s.locks))
              (ap (tally t) split ∙ tally-with_thread t before th after) (inv.balanced t)));
      threads = rest (Moved-IsThread m ok.0 ok.1);
    }

-- The programs of the threads.
abbrev pub AreSections : List (List Section) → Type 0
AreSections = All (All IsSection)

idle_total :
    (f : Pc → ℕ) (programs : List (List Section))
    → f idle ≡ 0
    → total f (begin_threads programs) ≡ 0
idle_total f [] h = refl
idle_total f (p ∷ programs) h = omega (arith, h, idle_total f programs h)

abbrev pub no_tally : Tally
no_tally = record { locked = 0; readers = 0; early = 0; late = 0; writers = 0 }

pub all_free-Balanced : (t : Table) → Balanced (get_lock t all_free) no_tally
all_free-Balanced buyer = ground arith
all_free-Balanced seller = ground arith
all_free-Balanced product = ground arith
all_free-Balanced billing = ground arith
all_free-Balanced order = ground arith

pub begin-Balanced :
    (t : Table) (programs : List (List Section))
    → Balanced (get_lock t all_free) (tally t (begin_threads programs))
begin-Balanced t programs =
    subst (Balanced (get_lock t all_free)) (sym none_busy) (all_free-Balanced t)
  where
    none_busy : tally t (begin_threads programs) ≡ no_tally
    none_busy i = record {
      locked = idle_total (reader in_mutex t) programs refl i;
      readers = idle_total (reader counted t) programs refl i;
      early = idle_total (reader arriving t) programs refl i;
      late = idle_total (reader parting t) programs refl i;
      writers = idle_total (writer t) programs refl i;
    }

begin-IsThread :
    (programs : List (List Section)) → AreSections programs → All IsThread (begin_threads programs)
begin-IsThread [] h = tt
begin-IsThread (p ∷ programs) h = ((tt, h.0), begin-IsThread programs h.1)

pub Reach-Inv :
    {programs : List (List Section)} {n : ℕ} {s : System}
    → AreSections programs
    → Reach programs n s
    → Inv s
Reach-Inv {programs} ok here = record {
  balanced = λ t. begin-Balanced t programs;
  threads = begin-IsThread programs ok;
}
Reach-Inv ok (next r st) = Step-Inv st (Reach-Inv ok r)
