-- ===== src/Concurrent/Quiet.antt =====
-- The calls of a handler that leave the whole state alone: tokens, conversions and copies.
use group_a_cs.Base.{
  ℕ, ◌≡◌, ◌≢◌, refl, sym, subst, ap, ◌⊎◌, inl, inr, Option, none, some, [], ◌∷◌, Bytes, true, false,
  Bool-cases, ◌==◌, arith,
}
use group_a_cs.Libc.{strtok, take_token, skip_commas, strcpy, atoi}
use group_a_cs.Libc.Tokens.{Lacks}
use group_a_cs.World.{
  World, M, done, fault, looping, ◌>>=◌, and_then, pure, lift, token, int_token, text_token,
}

-- The call ends in the state in which it begins, with a result of which `R` holds; or it does not end.
unfoldable pub Quiet : {A : Type 0} → (A → Type 0) → M A → Type 0
Quiet {A} R m = (w : World) → ((a : A) × R a × (m w ≡ done a w)) ⊎ (m w ≡ fault) ⊎ (m w ≡ looping)

-- A result of which nothing is said.
abbrev pub Any : {A : Type 0} → A → Type 0
Any a = Unit

module _ {A : Type 0} (R : A → Type 0) where
  pub pure-Quiet : (x : A) → R x → Quiet R (pure x)
  unfolding Quiet
  pure-Quiet x h w = inl (x, h, refl)

  pub lift-Quiet : (o : Option A) → ((x : A) → o ≡ some x → R x) → Quiet R (lift o)
  unfolding Quiet
  lift-Quiet none h w = inr (inl refl)
  lift-Quiet (some x) h w = inl (x, h x refl, refl)

  pub then-Quiet :
      {B : Type 0} (S : B → Type 0) (m : M A) (f : A → M B)
      → Quiet R m
      → ((a : A) → R a → Quiet S (f a))
      → Quiet S (m >>= f)
  unfolding Quiet
  then-Quiet S m f h k w = elim (h w) [
    | inl (a, r, e) ↦ rw e (k a r w)
    | inr (inl e) ↦ inr (inl (ap (λ o. and_then o f) e))
    | inr (inr e) ↦ inr (inr (ap (λ o. and_then o f) e))
  ]

-- A token is not empty and has no comma.
pub record IsToken (t : Bytes) : Type 0 where
  pub not_empty : t ≢ []
  pub no_comma : Lacks b',' t

no_comma : (c : ℕ) → (c == b',') ≡ false → c ≢ b','
no_comma c h = ground (arith, h)

take_token-Lacks : (s : Bytes) → Lacks b',' (take_token s).0
unfolding take_token
take_token-Lacks [] = tt
take_token-Lacks (c ∷ s) = elim (Bool-cases (c == b',')) [
  | inl h ↦ rw h tt
  | inr h ↦ rw h (no_comma c h, take_token-Lacks s)
]

take_token-IsToken : (c : ℕ) (s : Bytes) → (c == b',') ≡ false → IsToken (take_token (c ∷ s)).0
unfolding take_token
take_token-IsToken c s h =
    rw h (record { not_empty = λ e. cc; no_comma = (no_comma c h, take_token-Lacks s) })

abbrev IsTokenOf : Option (Bytes × Bytes) → Type 0
IsTokenOf none = Unit
IsTokenOf (some t) = IsToken t.0

strtok_comma : (c : ℕ) (s : Bytes) → (c == b',') ≡ true → strtok (c ∷ s) ≡ strtok s
unfolding strtok skip_commas
strtok_comma c s h = ground (arith, h)

strtok_other :
    (c : ℕ) (s : Bytes) → (c == b',') ≡ false → strtok (c ∷ s) ≡ some (take_token (c ∷ s))
unfolding strtok skip_commas
strtok_other c s h = ground (arith, h)

strtok-IsToken : (s : Bytes) → IsTokenOf (strtok s)
unfolding strtok skip_commas
strtok-IsToken [] = tt
strtok-IsToken (c ∷ s) = elim (Bool-cases (c == b',')) [
  | inl h ↦ subst IsTokenOf (sym (strtok_comma c s h)) (strtok-IsToken s)
  | inr h ↦ subst IsTokenOf (sym (strtok_other c s h)) (take_token-IsToken c s h)
]

pub token-Quiet : (s : Bytes) → Quiet (λ (t : Bytes × Bytes). IsToken t.0) (token s)
token-Quiet s =
    lift-Quiet (λ t. IsToken t.0) (strtok s) (λ t e. subst IsTokenOf e (strtok-IsToken s))

-- Any call of the C library, of whose result nothing is said.
pub call-Quiet : {A : Type 0} (o : Option A) → Quiet Any (lift o)
call-Quiet o = lift-Quiet Any o (λ x e. tt)

pub int_token-Quiet : (s : Bytes) → Quiet Any (int_token s)
int_token-Quiet s =
    then-Quiet (λ t. IsToken t.0) Any (token s) _ (token-Quiet s)
      (λ t h. then-Quiet Any Any _ _ (call-Quiet (atoi t.0)) (λ n h. pure-Quiet Any _ tt))

pub text_token-Quiet : (size : ℕ) (s : Bytes) → Quiet Any (text_token size s)
text_token-Quiet size s =
    then-Quiet (λ t. IsToken t.0) Any (token s) _ (token-Quiet s)
      (λ t h. then-Quiet Any Any _ _ (call-Quiet (strcpy size t.0)) (λ n h. pure-Quiet Any _ tt))

module _ {A B : Type 0} where
  pub bare_then :
      (m : M A) (f : A → M B) → Quiet Any m → ((a : A) → Quiet Any (f a)) → Quiet Any (m >>= f)
  bare_then m f h k = then-Quiet Any Any m f h (λ a u. k a)

pub bare_pure : {A : Type 0} (x : A) → Quiet Any (pure x)
bare_pure x = pure-Quiet Any x tt

pub ruleset quiet_calls = (bare_then, bare_pure, call-Quiet, int_token-Quiet, text_token-Quiet)
