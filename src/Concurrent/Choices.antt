-- ===== src/Concurrent/Choices.antt =====
-- A handler whose sections depend on what it reads: it runs those of one of some lists of requests.
pub mod Answered
pub mod Tokens
use group_a_cs.Base.{
  ◌≡◌, refl, sym, subst, ◌∙◌, ap, ◌⊎◌, inl, inr, Option, none, some, List, [], ◌∷◌, ◌++◌, Bool,
  true, false, if◌then◌else◌, append_assoc, append-nil,
}
use group_a_cs.World.{
  Table, Locks, World, M, Outcome, done, fault, blocked, looping, ◌>>=◌, and_then,
}
use group_a_cs.Concurrent.{Section}
use group_a_cs.Concurrent.Commands.{Request, sections_of, validate_sections}
use group_a_cs.Concurrent.Quiet.{Quiet, Any}
use group_a_cs.Concurrent.Runs.{Part, enter, leave, part, parts, more_parts, Agrees, Runs}
use group_a_cs.Concurrent.Handlers.{section_parts, sections_parts, RunsRequest}
use group_a_cs.Concurrent.Answers.{HasFiles, AgreesBy, RunsBy, again}

abbrev pub OneOf : {A : Type 0} → A → List A → Type 0
OneOf a [] = ⊥
OneOf a (x ∷ xs) = (a ≡ x) ⊎ OneOf a xs

abbrev pub requests_sections : List Request → List Section
requests_sections [] = []
requests_sections (r ∷ rs) = sections_of r ++ requests_sections rs

-- The parts of a list of requests.
abbrev pub requests_parts : List Request → Locks → Option Locks
requests_parts rs = parts (sections_parts (requests_sections rs))

-- An outcome in agreement with one of these lists of requests.
abbrev pub AgreesAmong : {A : Type 0} → List (List Request) → Locks → Outcome A → Type 0
AgreesAmong rss l (done a w') =
    (rs : List Request) × OneOf rs rss × (requests_parts rs l ≡ some w'.locks)
AgreesAmong rss l blocked = (rs : List Request) × OneOf rs rss × (requests_parts rs l ≡ none)
AgreesAmong rss l fault = Unit
AgreesAmong rss l looping = Unit

-- Where the files are, a handler does the parts of one of these lists.
unfoldable pub RunsAmong : List (List Request) → M (Unit {0}) → Type 0
RunsAmong rss m = (w : World) → HasFiles w → AgreesAmong rss w.locks (m w)

one_of :
    {A : Type 0} (rs : List Request) (rss : List (List Request)) (l : Locks) (o : Outcome A)
    → OneOf rs rss
    → Agrees (requests_parts rs l) o
    → AgreesAmong rss l o
one_of rs rss l (done a w) i h = (rs, i, h)
one_of rs rss l blocked i h = (rs, i, h)
one_of rs rss l fault i h = tt
one_of rs rss l looping i h = tt

pub nothing_among : (m : M (Unit {0})) → Runs [] m → RunsAmong ([] ∷ []) m
unfolding RunsAmong Runs
nothing_among m h w files = one_of [] ([] ∷ []) w.locks (m w) (inl refl) (h w)

pub request_among : (r : Request) (m : M (Unit {0})) → RunsRequest r m → RunsAmong ((r ∷ []) ∷ []) m
unfolding RunsAmong Runs
request_among r m h w files =
    one_of (r ∷ []) ((r ∷ []) ∷ []) w.locks (m w) (inl refl) (rw (append-nil (sections_of r)) (h w))

pub if-RunsAmong :
    (b : Bool) (rss rss' : List (List Request)) (m m' : M (Unit {0}))
    → RunsAmong rss m
    → RunsAmong rss' m'
    → RunsAmong (if b then rss else rss') (if b then m else m')
if-RunsAmong true rss rss' m m' h h' = h
if-RunsAmong false rss rss' m m' h h' = h'

module _ (rss : List (List Request)) where
  pub quiet_among :
      {A : Type 0} (R : A → Type 0) (m : M A) (f : A → M (Unit {0}))
      → Quiet R m
      → ((a : A) → R a → RunsAmong rss (f a))
      → RunsAmong rss (m >>= f)
  unfolding RunsAmong Quiet
  quiet_among R m f h k w files = elim (h w) [
    | inl (a, r, e) ↦ rw e (k a r w files)
    | inr (inl e) ↦ rw e tt
    | inr (inr e) ↦ rw e tt
  ]

  pub any_among :
      {A : Type 0} (m : M A) (f : A → M (Unit {0}))
      → Quiet Any m
      → ((a : A) → RunsAmong rss (f a))
      → RunsAmong rss (m >>= f)
  any_among m f h k = quiet_among Any m f h (λ a u. k a)

  -- What follows does nothing to the semaphores.
  pub among_quiet :
      (m : M (Unit {0})) (f : Unit {0} → M (Unit {0}))
      → RunsAmong rss m
      → ((a : Unit {0}) → Runs [] (f a))
      → RunsAmong rss (m >>= f)
  unfolding RunsAmong Runs
  among_quiet m f h k w files = go (m w) (h w files)
    where
      next :
          (rs : List Request) (u : World)
          → OneOf rs rss
          → requests_parts rs w.locks ≡ some u.locks
          → AgreesAmong rss w.locks (f tt u)
      next rs u i e =
          one_of rs rss w.locks (f tt u) i (subst (λ o. Agrees o (f tt u)) (sym e) (k tt u))

      go :
          (o : Outcome (Unit {0}))
          → AgreesAmong rss w.locks o
          → AgreesAmong rss w.locks (and_then o f)
      go (done a u) (rs, i, e) = next rs u i e
      go blocked h = h
      go fault h = tt
      go looping h = tt

module _ (rss : List (List Request)) where
  pub either_among :
      (b : Bool) (m m' : M (Unit {0}))
      → RunsAmong rss m
      → RunsAmong rss m'
      → RunsAmong rss (if b then m else m')
  either_among true m m' h h' = h
  either_among false m m' h h' = h'

  pub assoc_among :
      {A B : Type 0} (m : M A) (f : A → M B) (g : B → M (Unit {0}))
      → RunsAmong rss (m >>= λ a. f a >>= g)
      → RunsAmong rss ((m >>= f) >>= g)
  unfolding RunsAmong
  assoc_among {A = A} m f g h w files = go (m w) (h w files)
    where
      go :
          (o : Outcome A)
          → AgreesAmong rss w.locks (and_then o (λ a u. and_then (f a u) g))
          → AgreesAmong rss w.locks (and_then (and_then o f) g)
      go (done a u) h = h
      go blocked h = h
      go fault h = tt
      go looping h = tt

-- A request whose sections end in an answer of which nothing is used.
pub by_among :
    (r : Request) (m : M (Unit {0}))
    → RunsBy (λ _. sections_parts (sections_of r)) m
    → RunsAmong ((r ∷ []) ∷ []) m
unfolding RunsAmong RunsBy
by_among r m h w files = go (m w) (h w files)
  where
    only : requests_parts (r ∷ []) w.locks ≡ parts (sections_parts (sections_of r)) w.locks
    only = rw (append-nil (sections_of r)) refl

    go :
        (o : Outcome (Unit {0}))
        → AgreesBy (λ _. parts (sections_parts (sections_of r)) w.locks) o
        → AgreesAmong ((r ∷ []) ∷ []) w.locks o
    go (done a u) e = (r ∷ [], inl refl, only ∙ e)
    go blocked (a, e) = (r ∷ [], inl refl, only ∙ e)
    go fault h = tt
    go looping h = tt
