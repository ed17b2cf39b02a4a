-- ===== src/Concurrent/Choices/Tokens.antt =====
-- Handlers that choose their sections by a token of the message.
use group_a_cs.Base.{
  ◌≡◌, refl, sym, subst, ap, ◌∙◌, none, some, List, [], Bool, true, false, Bytes, ℕ, if◌then◌else◌,
  arith,
}
use group_a_cs.Base.Int.{ℤ}
use group_a_cs.Libc.{strtok, strcpy, atoi}
use group_a_cs.World.{M, ◌>>=◌, token, int_token, text_token}
use group_a_cs.Concurrent.Commands.{Request}
use group_a_cs.Concurrent.Quiet.{Quiet, Any, pure-Quiet, lift-Quiet, then-Quiet, call-Quiet}
use group_a_cs.Concurrent.Choices.{RunsAmong, quiet_among}

-- The lists that the next token gives; without one the handler faults.
abbrev pub with_token : Bytes → (Bytes × Bytes → List (List Request)) → List (List Request)
with_token s rs = elim (strtok s) [ none ↦ [] | some t ↦ rs t ]

with_token-some :
    (s : Bytes) (rs : Bytes × Bytes → List (List Request)) (t : Bytes × Bytes)
    → strtok s ≡ some t
    → with_token s rs ≡ rs t
with_token-some s rs t e = rw (e, with_token)

strcpy-same : (size : ℕ) (s x : Bytes) → strcpy size s ≡ some x → x ≡ s
strcpy-same size s x e = ground (arith, e)

-- The token that is read.
abbrev pub IsRead : Bytes → Bytes × Bytes → Type 0
IsRead s t = strtok s ≡ some t

pub text_token-Read : (size : ℕ) (s : Bytes) → Quiet (IsRead s) (text_token size s)
text_token-Read size s =
    then-Quiet (IsRead s) (IsRead s) (token s) _ (lift-Quiet (IsRead s) (strtok s) (λ t e. e))
      (λ t e.
        then-Quiet (λ x. x ≡ t.0) (IsRead s) _ _
          (lift-Quiet (λ x. x ≡ t.0) (strcpy size t.0) (λ x h. strcpy-same size t.0 x h))
          (λ x h. pure-Quiet (IsRead s) (x, t.1) (e ∙ ap (λ y. some (y, t.1)) (sym h))))

abbrev IsNumberRead : Bytes → ℤ × Bytes → Type 0
IsNumberRead s n = (t : Bytes × Bytes) × IsRead s t × (n.1 ≡ t.1)

int_token-Read : (s : Bytes) → Quiet (IsNumberRead s) (int_token s)
int_token-Read s =
    then-Quiet (IsRead s) (IsNumberRead s) (token s) _ (lift-Quiet (IsRead s) (strtok s) (λ t e. e))
      (λ t e.
        then-Quiet Any (IsNumberRead s) _ _ (call-Quiet (atoi t.0))
          (λ n h. pure-Quiet (IsNumberRead s) (n, t.1) (t, e, refl)))

module _ (s : Bytes) (rs : Bytes × Bytes → List (List Request)) where
  pub text_among :
      (size : ℕ) (f : Bytes × Bytes → M (Unit {0}))
      → ((t : Bytes × Bytes) → RunsAmong (rs t) (f t))
      → RunsAmong (with_token s rs) (text_token size s >>= f)
  text_among size f h =
      quiet_among (with_token s rs) (IsRead s) _ f (text_token-Read size s)
        (λ t e. subst (λ x. RunsAmong x (f t)) (sym (with_token-some s rs t e)) (h t))

  pub int_among :
      (f : ℤ × Bytes → M (Unit {0}))
      → ((n : ℤ) (t : Bytes × Bytes) → RunsAmong (rs t) (f (n, t.1)))
      → RunsAmong (with_token s rs) (int_token s >>= f)
  int_among f h =
      quiet_among (with_token s rs) (IsNumberRead s) _ f (int_token-Read s) (λ n (t, e, same).
        subst (λ x. RunsAmong x (f n)) (sym (with_token-some s rs t e))
          (subst (λ r. RunsAmong (rs t) (f (n.0, r))) (sym same) (h n.0 t)))

  -- Several tokens, of which the first is a part of the result.
  pub read_among :
      {A : Type 0} (key : A → Bytes) (m : M A) (f : A → M (Unit {0}))
      → Quiet (λ a. (t : Bytes × Bytes) × IsRead s t × (key a ≡ t.0)) m
      → ((a : A) (r : Bytes) → RunsAmong (rs (key a, r)) (f a))
      → RunsAmong (with_token s rs) (m >>= f)
  read_among key m f q h = quiet_among (with_token s rs) _ m f q (λ a (t, e, same).
      subst (λ x. RunsAmong x (f a)) (sym (with_token-some s rs t e))
        (subst (λ k. RunsAmong (rs (k, t.1)) (f a)) same (h a t.1)))

-- A choice of a call with an answer.
pub if_then :
    (b : Bool) (rss rss' : List (List Request)) (m m' : M Bool) (f : Bool → M (Unit {0}))
    → RunsAmong rss (m >>= f)
    → RunsAmong rss' (m' >>= f)
    → RunsAmong (if b then rss else rss') ((if b then m else m') >>= f)
if_then true rss rss' m m' f h h' = h
if_then false rss rss' m m' f h h' = h'
