-- ===== src/Tables/RoundTrip/Fields.antt =====
-- One field of a row, printed and read back.
use group_a_cs.Base.{
  refl, ℕ, ◌+◌, ◌<◌, ◌≡◌, some, List, [], ◌∷◌, ◌++◌, arith, Bytes, length, length-append, ltb-true,
}
use group_a_cs.Base.Int.{ℤ}
use group_a_cs.Libc.{strtok}
use group_a_cs.Libc.Tokens.{IsField, strtok-append}
use group_a_cs.Convert.{int_to_char_array}
use group_a_cs.Convert.RoundTrip.{IsStorable, atoi-int_to_char_array, int_to_char_array-IsField}
use group_a_cs.Tables.{next_text, next_int}
use group_a_cs.Tables.Save.{fields_text}

-- A text that a `char[20]` holds and that is one token of a line.
pub record IsText (f : Bytes) : Type 0 where
  pub field : IsField f
  pub fits : length f < 20

pub next_text-append :
    (f : Bytes) → IsText f → (r : Bytes) → next_text (f ++ (b',' ∷ r)) ≡ some (f, r)
unfolding next_text
next_text-append f h r =
    rw (strtok-append f r h.field.not_empty h.field.no_comma, ltb-true _ _ h.fits)

pub strtok_int :
    (z : ℤ)
    → IsStorable z
    → (r : Bytes) → strtok (int_to_char_array z ++ (b',' ∷ r)) ≡ some (int_to_char_array z, r)
strtok_int z h r =
    let f = int_to_char_array-IsField z h in
    strtok-append (int_to_char_array z) r f.not_empty f.no_comma

pub next_int-append :
    (z : ℤ)
    → IsStorable z
    → (r : Bytes) → next_int (int_to_char_array z ++ (b',' ∷ r)) ≡ some (z, r)
unfolding next_int
next_int-append z h r = rw (strtok_int z h r, atoi-int_to_char_array z h)

-- The length of a row's text, one field at a time.
abbrev pub fields_length : List Bytes → ℕ
fields_length [] = 0
fields_length (f ∷ fs) = length f + 1 + fields_length fs

pub length-fields_text : (fs : List Bytes) → length (fields_text fs []) ≡ fields_length fs
length-fields_text [] = refl
length-fields_text (f ∷ fs) =
    omega (arith, length-append f (b',' ∷ fields_text fs []), length-fields_text fs)
