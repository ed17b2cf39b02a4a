-- ===== src/Concurrent/Choices/Answered.antt =====
-- Roden.c, `validateID` and what follows on its answer: the sections of the request of that answer.
use group_a_cs.Base.{
  ◌≡◌, refl, sym, subst, ◌∙◌, ap, inl, inr, Option, none, some, List, [], ◌∷◌, ◌++◌, Bool, true,
  false, append_assoc, append-nil,
}
use group_a_cs.World.{Table, Locks, M, Outcome, done, fault, blocked, looping, ◌>>=◌, and_then}
use group_a_cs.Concurrent.{Section}
use group_a_cs.Concurrent.Commands.{Request, sections_of, validate_sections}
use group_a_cs.Concurrent.Runs.{Part, enter, leave, part, parts, more_parts, Agrees, Runs}
use group_a_cs.Concurrent.Handlers.{section_parts, sections_parts}
use group_a_cs.Concurrent.Answers.{AgreesBy, RunsBy, again}
use group_a_cs.Concurrent.Choices.{OneOf, requests_parts, AgreesAmong, RunsAmong, one_of}

parts-append : (ps qs : List Part) (l : Locks) → parts (ps ++ qs) l ≡ more_parts qs (parts ps l)
parts-append [] qs l = refl
parts-append (p ∷ ps) qs l = go (part p l) (λ l'. parts-append ps qs l')
  where
    go :
        (o : Option Locks)
        → ((l' : Locks) → parts (ps ++ qs) l' ≡ more_parts qs (parts ps l'))
        → more_parts (ps ++ qs) o ≡ more_parts qs (more_parts ps o)
    go none ih = refl
    go (some l') ih = ih l'

sections_parts-append :
    (ss ss' : List Section) → sections_parts (ss ++ ss') ≡ sections_parts ss ++ sections_parts ss'
sections_parts-append [] ss' = refl
sections_parts-append (s ∷ ss) ss' =
    ap (λ ps. section_parts s ++ ps) (sections_parts-append ss ss')
    ∙ sym (append_assoc (section_parts s) (sections_parts ss) (sections_parts ss'))

validate_parts :
    (t : Table) (b : Bool) → sections_parts (validate_sections t b) ≡ enter t ∷ leave t ∷ again t b
validate_parts t true = refl
validate_parts t false = refl

-- `validateID`, and what follows on its answer: the request is that of the answer.
module _ (t : Table) (r : Bool → Request) (more : Bool → List Section)
    (split : (b : Bool) → sections_of (r b) ≡ validate_sections t b ++ more b) where
  after_answer : Bool → Locks → Option Locks
  after_answer b l = parts (enter t ∷ leave t ∷ again t b) l

  request_parts :
      (b : Bool) (l : Locks)
      → requests_parts (r b ∷ []) l ≡ more_parts (sections_parts (more b)) (after_answer b l)
  unfolding after_answer
  request_parts b l =
      ap (λ ss. parts (sections_parts ss) l) (append-nil (sections_of (r b)) ∙ split b)
      ∙ ap (λ ps. parts ps l) (sections_parts-append (validate_sections t b) (more b))
      ∙ parts-append (sections_parts (validate_sections t b)) (sections_parts (more b)) l
      ∙ ap (λ ps. more_parts (sections_parts (more b)) (parts ps l)) (validate_parts t b)

  both : List (List Request)
  both = (r true ∷ []) ∷ (r false ∷ []) ∷ []

  OneOf-both : (b : Bool) → OneOf (r b ∷ []) both
  unfolding both
  OneOf-both true = inl refl
  OneOf-both false = inr (inl refl)

  pub answer_among :
      (m : M Bool) (f : Bool → M (Unit {0}))
      → RunsBy (λ b. enter t ∷ leave t ∷ again t b) m
      → ((b : Bool) → Runs (sections_parts (more b)) (f b))
      → RunsAmong ((r true ∷ []) ∷ (r false ∷ []) ∷ []) (m >>= f)
  unfolding RunsAmong RunsBy Runs both after_answer
  answer_among m f h k w files = go (m w) (h w files)
    where
      go :
          (o : Outcome Bool)
          → AgreesBy (λ b. parts (enter t ∷ leave t ∷ again t b) w.locks) o
          → AgreesAmong both w.locks (and_then o f)
      go (done b u) e =
          one_of (r b ∷ []) both w.locks (f b u) (OneOf-both b)
            (subst (λ o. Agrees o (f b u)) (sym (request_parts b w.locks ∙ rw e refl)) (k b u))
      go blocked (b, e) = (r b ∷ [], OneOf-both b, request_parts b w.locks ∙ rw e refl)
      go fault h = tt
      go looping h = tt
