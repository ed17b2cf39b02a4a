-- ===== src/Libc.antt =====
-- The functions of the C library that the source calls, on strings as lists of bytes.
-- The delimiters of every `strtok` call of the data server are "," or "", so `strtok` is the first
-- and `strtok_rest` the second. The place that C keeps between calls is the rest that is returned.
pub mod Tokens
use group_a_cs.Base.{
  ℕ, zero, suc, ◌+◌, ◌-◌, ◌*◌, ◌/◌, ◌%◌, Bool, true, false, ◌&&◌, ◌||◌, Option, none, some, List,
  [], ◌∷◌, ◌++◌, Bytes, ltb, leb, ◌==◌, if◌then◌else◌, length, reverse,
}
use group_a_cs.Base.Int.{ℤ, pos, negsuc, to_int}

unfoldable pub skip_commas : Bytes → Bytes
skip_commas [] = []
skip_commas (c ∷ s) = if c == b',' then skip_commas s else c ∷ s

unfoldable pub take_token : Bytes → Bytes × Bytes
take_token [] = ([], [])
take_token (c ∷ s) = let (t, r) = take_token s in if c == b',' then ([], s) else (c ∷ t, r)

-- `strtok(s, ",")`: the token and what is left for the next call, or NULL.
unfoldable pub strtok : Bytes → Option (Bytes × Bytes)
unfolding skip_commas take_token
strtok s = elim (skip_commas s) [ [] ↦ none | c ∷ r ↦ some (take_token (c ∷ r)) ]

-- `strtok(NULL, "")`: all that is left, or NULL.
unfoldable pub strtok_rest : Bytes → Option Bytes
strtok_rest [] = none
strtok_rest (c ∷ s) = some (c ∷ s)

abbrev pub is_space : ℕ → Bool
is_space c = (c == 32) || (leb 9 c && leb c 13)

abbrev pub is_digit : ℕ → Bool
is_digit c = leb b'0' c && leb c b'9'

unfoldable pub skip_spaces : Bytes → Bytes
skip_spaces [] = []
skip_spaces (c ∷ s) = if is_space c then skip_spaces s else c ∷ s

-- The value of the digits at the front of a string, behind `n`.
unfoldable pub digits_value : Bytes → ℕ → ℕ
digits_value [] n = n
digits_value (c ∷ s) n = if is_digit c then digits_value s (n * 10 + (c - b'0')) else n

abbrev pub negate : ℕ → ℤ
negate zero = pos 0
negate (suc n) = negsuc n

unfoldable pub signed_value : Bytes → ℤ
unfolding digits_value
signed_value [] = pos 0
signed_value (c ∷ s) =
    if c == b'-'
    then negate (digits_value s 0)
    else if c == b'+'
    then pos (digits_value s 0)
    else pos (digits_value (c ∷ s) 0)

-- `atoi`; a value that is no `int` is undefined behaviour.
unfoldable pub atoi : Bytes → Option ℤ
unfolding skip_spaces signed_value
atoi s = to_int (signed_value (skip_spaces s))

-- `strcpy` into an array of `size` bytes; a string that does not fit is undefined behaviour.
abbrev pub strcpy : ℕ → Bytes → Option Bytes
strcpy size s = if ltb (length s) size then some s else none

unfoldable pub is_prefix : Bytes → Bytes → Bool
is_prefix [] s = true
is_prefix (p ∷ ps) [] = false
is_prefix (p ∷ ps) (c ∷ s) = (p == c) && is_prefix ps s

-- `strstr(s, needle) != NULL`.
unfoldable pub strstr : Bytes → Bytes → Bool
unfolding is_prefix
strstr [] needle = is_prefix needle []
strstr (c ∷ s) needle = is_prefix needle (c ∷ s) || strstr s needle

-- The lines that repeated `fgets(buffer, 200, f)` reads: each ends behind its newline, or after 199
-- bytes. `room` is what is left of the 199, and `line` what has been read of the line.
unfoldable pub fgets_from : ℕ → Bytes → Bytes → List Bytes
fgets_from room line [] = elim line [ [] ↦ [] | c ∷ cs ↦ (c ∷ cs) ∷ [] ]
fgets_from room line (c ∷ s) = elim ((c == b'\n') || leb room 1) [
  | true ↦ (line ++ c ∷ []) ∷ fgets_from 199 [] s
  | false ↦ fgets_from (room - 1) (line ++ c ∷ []) s
]

unfoldable pub fgets_lines : Bytes → List Bytes
unfolding fgets_from
fgets_lines = fgets_from 199 []

-- Digits, last first. The fuel is the number itself, which a division by ten makes smaller.
unfoldable pub digits_from : ℕ → ℕ → Bytes
digits_from zero n = []
digits_from (suc k) n = elim (n == 0) [
  | true ↦ []
  | false ↦ (b'0' + n % 10) ∷ digits_from k (n / 10)
]

-- `sprintf(s, "%d", n)`.
unfoldable pub sprintf_int : ℤ → Bytes
unfolding digits_from
sprintf_int (pos zero) = b'0' ∷ []
sprintf_int (pos (suc n)) = reverse (digits_from (suc n) (suc n))
sprintf_int (negsuc n) = b'-' ∷ reverse (digits_from (suc n) (suc n))
