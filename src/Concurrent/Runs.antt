-- ===== src/Concurrent/Runs.antt =====
-- What a handler does to the semaphores on its way to its end.
use group_a_cs.Base.{
  ◌≡◌, refl, sym, ap, subst, ◌⊎◌, inl, inr, true, false, Bool, some, none, Option, List, [], ◌∷◌,
  Bytes, if◌then◌else◌, arith,
}
use group_a_cs.World.{
  Table, Locks, World, Outcome, done, fault, blocked, looping, M, and_then, ◌>>=◌, pure, lift,
  write_socket, begin_read, end_read, sem_wait_wrt, sem_post_wrt,
}
use group_a_cs.Concurrent.{move, at, taking, posting, wait_enter, wait_leave}
use group_a_cs.Concurrent.Alone.{alone, of_lines, begin_read-alone, end_read-alone}

-- A part of a section: the entry and the exit of a reader, and a wait and a post of a writer.
pub data Part : Type 0 where
  enter leave wait post : Table → Part

-- The lines of a part, with no other thread between.
abbrev pub part : Part → Locks → Option Locks
part (enter t) l = alone 4 l (at t wait_enter) []
part (leave t) l = alone 4 l (at t wait_leave) []
part (wait t) l = alone 1 l (taking [] (t ∷ [])) []
part (post t) l = alone 1 l (posting (t ∷ [])) []

abbrev pub parts : List Part → Locks → Option Locks
parts [] l = some l
parts (p ∷ ps) l = elim (part p l) [ none ↦ none | some l' ↦ parts ps l' ]

-- An outcome in agreement with what parts do to the semaphores: where it is an end, they have led to
-- its semaphores, and where it waits, one of them waits.
abbrev pub Agrees : {A : Type 0} → Option Locks → Outcome A → Type 0
Agrees r (done a w') = r ≡ some w'.locks
Agrees r blocked = r ≡ none
Agrees r fault = Unit
Agrees r looping = Unit

-- In any state, a handler does these parts to the semaphores and nothing else.
unfoldable pub Runs : {A : Type 0} → List Part → M A → Type 0
Runs {A} ps m = (w : World) → Agrees (parts ps w.locks) (m w)

same_result : {A : Type 0} (r r' : Option Locks) (o : Outcome A) → r ≡ r' → Agrees r' o → Agrees r o
same_result r r' o e h = subst (λ x. Agrees x o) (sym e) h

same_locks : (ps : List Part) (l l' : Locks) → some l ≡ some l' → parts ps l ≡ parts ps l'
same_locks ps l l' i = cc

-- The result of one part, and of the parts behind it.
abbrev one_part : Option Locks → Option Locks
one_part o = elim o [ none ↦ none | some l ↦ some l ]

abbrev pub more_parts : List Part → Option Locks → Option Locks
more_parts ps o = elim o [ none ↦ none | some l ↦ parts ps l ]

part_ends :
    (ps : List Part) (o : Option Locks) (l : Locks)
    → one_part o ≡ some l
    → more_parts ps o ≡ parts ps l
part_ends ps none l e = cc
part_ends ps (some k) l e = same_locks ps k l e

part_waits : (ps : List Part) (o : Option Locks) → one_part o ≡ none → more_parts ps o ≡ none
part_waits ps none e = refl
part_waits ps (some k) e = cc

module _ {A B : Type 0} where
  pub quiet_then :
      (ps : List Part) (m : M A) (f : A → M B)
      → Runs [] m
      → ((a : A) → Runs ps (f a))
      → Runs ps (m >>= f)
  unfolding Runs
  quiet_then ps m f h k w = go (m w) (h w)
    where
      go : (o : Outcome A) → Agrees (some w.locks) o → Agrees (parts ps w.locks) (and_then o f)
      go (done a u) e =
          same_result (parts ps w.locks) (parts ps u.locks) (f a u)
            (same_locks ps w.locks u.locks e) (k a u)
      go fault e = tt
      go blocked e = cc
      go looping e = tt

  pub part_then :
      (p : Part) (ps : List Part) (m : M A) (f : A → M B)
      → Runs (p ∷ []) m
      → ((a : A) → Runs ps (f a))
      → Runs (p ∷ ps) (m >>= f)
  unfolding Runs
  part_then p ps m f h k w = go (m w) (h w)
    where
      go :
          (o : Outcome A)
          → Agrees (one_part (part p w.locks)) o
          → Agrees (more_parts ps (part p w.locks)) (and_then o f)
      go (done a u) e =
          same_result (more_parts ps (part p w.locks)) (parts ps u.locks) (f a u)
            (part_ends ps (part p w.locks) u.locks e) (k a u)
      go fault e = tt
      go blocked e = part_waits ps (part p w.locks) e
      go looping e = tt

module _ {A B : Type 0} where
  pub then_quiet :
      (ps : List Part) (m : M A) (f : A → M B)
      → Runs ps m
      → ((a : A) → Runs [] (f a))
      → Runs ps (m >>= f)
  unfolding Runs
  then_quiet ps m f h k w = go (m w) (h w)
    where
      go : (o : Outcome A) → Agrees (parts ps w.locks) o → Agrees (parts ps w.locks) (and_then o f)
      go (done a u) e = same_result (parts ps w.locks) (some u.locks) (f a u) e (k a u)
      go fault e = tt
      go blocked e = e
      go looping e = tt

module _ {A : Type 0} where
  lift-Agrees : (o : Option A) (w : World) → Agrees (some w.locks) (lift o w)
  lift-Agrees none w = tt
  lift-Agrees (some x) w = refl

  pub lift-Runs : (o : Option A) → Runs [] (lift o)
  unfolding Runs
  lift-Runs o w = lift-Agrees o w

  pub pure-Runs : (x : A) → Runs [] (pure x)
  unfolding Runs
  pure-Runs x w = refl

  -- Reading a file, with an answer that depends on the state.
  pub load-Runs : (o : World → Option A) → Runs [] (λ w. lift (o w) w)
  unfolding Runs
  load-Runs o w = lift-Agrees (o w) w

  -- An end in the same state, or none.
  pub unchanged-Runs :
      (m : M A)
      → ((w : World) → ((a : A) × (m w ≡ done a w)) ⊎ (m w ≡ fault) ⊎ (m w ≡ looping))
      → Runs [] m
  unfolding Runs
  unchanged-Runs m h w = elim (h w) [
    | inl (a, e) ↦ subst (Agrees (some w.locks)) (sym e) refl
    | inr (inl e) ↦ subst (Agrees (some w.locks)) (sym e) tt
    | inr (inr e) ↦ subst (Agrees (some w.locks)) (sym e) tt
  ]

  pub branch-Runs :
      (ps : List Part) (b : Bool) (m m' : M A)
      → Runs ps m
      → Runs ps m'
      → Runs ps (if b then m else m')
  branch-Runs ps true m m' h h' = h
  branch-Runs ps false m m' h h' = h'

-- A write-back, which leaves the semaphores alone.
pub save-Runs :
    (o : World → Option Bytes) (f : Bytes → World → World)
    → ((t : Bytes) (w : World) → (f t w).locks ≡ w.locks)
    → Runs [] (λ w. (lift (o w) >>= λ t w'. done tt (f t w')) w)
unfolding Runs
save-Runs o f h w = go (o w)
  where
    go :
        (x : Option Bytes)
        → Agrees {A = Unit {0}} (some w.locks) ((lift x >>= λ t w'. done tt (f t w')) w)
    go none = tt
    go (some t) = ap some (sym (h t w))

pub write_socket-Runs : (reply : Bytes) → Runs [] (write_socket reply)
unfolding Runs
write_socket-Runs reply w = refl

lines-Agrees : (w : World) (o : Option Locks) → Agrees (one_part o) (of_lines w o)
lines-Agrees w none = refl
lines-Agrees w (some l) = refl

pub begin_read-Runs : (t : Table) → Runs (enter t ∷ []) (begin_read t)
unfolding Runs
begin_read-Runs t w = subst (Agrees _) (sym (begin_read-alone t [] w)) (lines-Agrees w _)

pub end_read-Runs : (t : Table) → Runs (leave t ∷ []) (end_read t)
unfolding Runs
end_read-Runs t w = subst (Agrees _) (sym (end_read-alone t [] w)) (lines-Agrees w _)

sem_wait_wrt-alone :
    (t : Table) (w : World)
    → sem_wait_wrt t w ≡ of_lines w (alone 1 w.locks (taking [] (t ∷ [])) [])
unfolding move
sem_wait_wrt-alone t w = ground arith

pub sem_wait_wrt-Runs : (t : Table) → Runs (wait t ∷ []) (sem_wait_wrt t)
unfolding Runs
sem_wait_wrt-Runs t w = subst (Agrees _) (sym (sem_wait_wrt-alone t w)) (lines-Agrees w _)

pub sem_post_wrt-Runs : (t : Table) → Runs (post t ∷ []) (sem_post_wrt t)
unfolding Runs move
sem_post_wrt-Runs t w = refl
