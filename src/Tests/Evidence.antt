-- ===== src/Tests/Evidence.antt =====
-- Decisions for the conditions on texts and numbers, which the tests evaluate on concrete ones.
use group_a_cs.Base.{
  ◌≡◌, true, false, Bool, some, [], ◌∷◌, arith, Bytes, length, ltb, ◌==◌, if◌then◌else◌,
}
use group_a_cs.Base.Int.{ℤ}
use group_a_cs.Libc.{atoi}
use group_a_cs.Libc.Tokens.{Lacks, IsField}
use group_a_cs.Tables.RoundTrip.Fields.{IsText}
use group_a_cs.Catalog.Request.{IsNumber}

abbrev pub plain : Bytes → Bool
plain [] = true
plain (c ∷ f) = if c == b',' then false else if c == b'\n' then false else plain f

plain-Lacks : (f : Bytes) → plain f ≡ true → Lacks b',' f × Lacks b'\n' f
plain-Lacks [] h = (tt, tt)
plain-Lacks (c ∷ f) h = ground (arith, plain-Lacks f)

abbrev pub is_field : Bytes → Bool
is_field [] = false
is_field (c ∷ f) = plain (c ∷ f)

pub is_field-IsField : (f : Bytes) → is_field f ≡ true → IsField f
is_field-IsField [] h = cc
is_field-IsField (c ∷ f) h =
    let (a, b) = plain-Lacks (c ∷ f) h in
    record { not_empty = (λ e. cc); no_comma = a; no_newline = b }

pub text : (f : Bytes) → is_field f ≡ true → ltb (length f) 20 ≡ true → IsText f
text f h k = record { field = is_field-IsField f h; fits = ground arith }

pub number : (t : Bytes) (n : ℤ) → is_field t ≡ true → atoi t ≡ some n → IsNumber t n
number t n h e = record { field = is_field-IsField t h; value = e }
