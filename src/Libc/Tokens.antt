-- ===== src/Libc/Tokens.antt =====
-- Laws of `strtok`, of `fgets` and of `atoi` on the texts that the program writes.
use group_a_cs.Base.{
  ℕ, ◌-◌, ◌≤◌, ◌<◌, ◌≡◌, ◌≢◌, refl, ap, ◌∙◌, some, [], ◌∷◌, ◌++◌, append_assoc, arith, Bytes,
  length, All, ==_false,
}
use group_a_cs.Base.Int.{pos, int_max, to_int-some}
use group_a_cs.Libc.{take_token, strtok, skip_spaces, digits_value, signed_value, atoi, fgets_from}

abbrev pub Lacks : ℕ → Bytes → Type 0
Lacks b = All (λ c. c ≢ b)

-- A text that is one token of a line: it is not empty and has no comma and no newline.
pub record IsField (f : Bytes) : Type 0 where
  pub not_empty : f ≢ []
  pub no_comma : Lacks b',' f
  pub no_newline : Lacks b'\n' f

-- A text behind a field and its comma.
pub field-append : (f r s x : Bytes) → r ++ s ≡ x → (f ++ b',' ∷ r) ++ s ≡ f ++ b',' ∷ x
field-append f r s x e = append_assoc f (b',' ∷ r) s ∙ ap (λ y. f ++ b',' ∷ y) e

take_token-append : (f r : Bytes) → Lacks b',' f → take_token (f ++ b',' ∷ r) ≡ (f, r)
unfolding take_token
take_token-append [] r h = refl
take_token-append (c ∷ f) r h = rw (take_token-append f r h.1, ==_false c b',' h.0)

-- The next token of a line is its next field.
pub strtok-append : (f r : Bytes) → f ≢ [] → Lacks b',' f → strtok (f ++ b',' ∷ r) ≡ some (f, r)
unfolding strtok
strtok-append [] r ne h = absurd (ne refl)
strtok-append (c ∷ f) r ne h = ground (arith, h.0, take_token-append (c ∷ f) r h)

-- Commas in front of a token are passed over.
pub strtok_comma : (s : Bytes) → strtok (b',' ∷ s) ≡ strtok s
unfolding strtok
strtok_comma s = refl

pub fgets_from-append :
    (l : Bytes) (room : ℕ) (line rest : Bytes)
    → Lacks b'\n' l
    → length l < room
    → fgets_from room line (l ++ b'\n' ∷ rest)
      ≡ (line ++ (l ++ b'\n' ∷ [])) ∷ fgets_from 199 [] rest
unfolding fgets_from
fgets_from-append [] room line rest h fits = refl
fgets_from-append (c ∷ l) room line rest h fits = ground (
  arith,
  h.0,
  fgets_from-append l (room - 1) (line ++ c ∷ []) rest h.1,
  append_assoc line (c ∷ []) (l ++ b'\n' ∷ []),
)

abbrev pub IsDigit : ℕ → Type 0
IsDigit c = (b'0' ≤ c) × (c ≤ b'9')

skip_spaces_digit : (c : ℕ) (s : Bytes) → IsDigit c → skip_spaces (c ∷ s) ≡ c ∷ s
unfolding skip_spaces
skip_spaces_digit c s h = ground arith

signed_value_digit :
    (c : ℕ) (s : Bytes) → IsDigit c → signed_value (c ∷ s) ≡ pos (digits_value (c ∷ s) 0)
unfolding signed_value
signed_value_digit c s h = ground arith

-- `atoi` of digits is the number that they spell, if it is an `int`.
pub atoi_digits :
    (s : Bytes)
    → s ≢ []
    → All IsDigit s
    → digits_value s 0 ≤ int_max
    → atoi s ≡ some (pos (digits_value s 0))
unfolding atoi
atoi_digits [] ne h fits = absurd (ne refl)
atoi_digits (c ∷ s) ne h fits =
    rw (skip_spaces_digit c s h.0, signed_value_digit c s h.0)
      (to_int-some (pos (digits_value (c ∷ s) 0)) (omega arith))
