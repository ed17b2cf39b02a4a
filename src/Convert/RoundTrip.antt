-- ===== src/Convert/RoundTrip.antt =====
-- What is read back from the text of `intToCharArray`.
use mathlib.Core.List.{reverse-append}
use native.Mathlib.Nat.{pow-suc}
use native.Mathlib.Decide.{ℕ_discrete}
use group_a_cs.Base.{
  ℕ, zero, suc, ◌+◌, ◌*◌, ◌/◌, ◌%◌, ◌^◌, ◌≤◌, ◌<◌, ◌≡◌, ◌≢◌, refl, sym, ◌∙◌, ap, some, [], ◌∷◌,
  ◌++◌, false, reverse, append_assoc, append-nil, arith, Bytes, length, length-append, All,
  All-append,
}
use group_a_cs.Base.Int.{ℤ, pos, negsuc, is_zero, int_max}
use group_a_cs.Libc.{digits_value, atoi}
use group_a_cs.Libc.Tokens.{IsDigit, atoi_digits, IsField}
use group_a_cs.Convert.{char_loop, int_to_char_array}

-- The numbers that the tables can hold and read back: positive `int`s.
abbrev pub IsStorable : ℤ → Type 0
IsStorable (pos n) = (0 < n) × (n ≤ int_max)
IsStorable (negsuc n) = ⊥

pub is_zero-IsStorable : (z : ℤ) → IsStorable z → is_zero z ≡ false
is_zero-IsStorable (pos n) h = ground arith
is_zero-IsStorable (negsuc n) h = absurd h

reverse-cons : (c : ℕ) (s : Bytes) → reverse (c ∷ s) ≡ reverse s ++ c ∷ []
reverse-cons c s = reverse-append (c ∷ []) s

digits_value_last :
    (n : ℕ) (rest : Bytes) → digits_value ((b'0' + n % 10) ∷ rest) (n / 10) ≡ digits_value rest n
unfolding digits_value
digits_value_last n rest = ground arith

char_loop_zero : (k : ℕ) → char_loop k 0 ≡ []
unfolding char_loop
char_loop_zero zero = refl
char_loop_zero (suc k) = refl

char_loop-suc : (k n : ℕ) → n ≢ 0 → char_loop (suc k) n ≡ (b'0' + n % 10) ∷ char_loop k (n / 10)
unfolding char_loop
char_loop-suc k n h = ground arith

digits_value-char_loop :
    (k n : ℕ) (rest : Bytes)
    → n ≤ k
    → digits_value (reverse (char_loop k n) ++ rest) 0 ≡ digits_value rest n
digits_value-char_loop zero n rest h = let e : n ≡ 0 = omega arith in rw (e, char_loop_zero)
digits_value-char_loop (suc k) n rest h = elim (ℕ_discrete n 0) [
  | yes e ↦ rw (e, char_loop_zero)
  | no more ↦
      rw (char_loop-suc k n more, reverse-cons, append_assoc)
        (digits_value-char_loop k (n / 10) _ (omega arith) ∙ digits_value_last n rest)
]

All-reverse {κ} : (P : ℕ → Type κ) (s : Bytes) → All P s → All P (reverse s)
All-reverse P [] h = h
All-reverse P (c ∷ s) h =
    rw reverse-cons (All-append P (reverse s) (c ∷ []) (All-reverse P s h.1) (h.0, tt))

pub length-reverse : (s : Bytes) → length (reverse s) ≡ length s
length-reverse [] = refl
length-reverse (c ∷ s) =
    rw reverse-cons (omega (arith, length-append (reverse s) (c ∷ []), length-reverse s))

char_loop-digits : (k n : ℕ) → All IsDigit (char_loop k n)
unfolding char_loop
char_loop-digits zero n = tt
char_loop-digits (suc k) n = ground (arith, char_loop-digits k (n / 10))

reverse-cons-ne-nil : (c : ℕ) (s : Bytes) → reverse (c ∷ s) ≢ []
reverse-cons-ne-nil c s e = omega (arith, length-reverse (c ∷ s), ap length e)

char_loop-ne-nil : (k n : ℕ) → 0 < n → n ≤ k → reverse (char_loop k n) ≢ []
char_loop-ne-nil zero n h le = absurd (omega arith)
char_loop-ne-nil (suc k) n h le =
    rw (char_loop-suc k n (omega arith))
      (reverse-cons-ne-nil (b'0' + n % 10) (char_loop k (n / 10)))

pub length-char_loop : (d k n : ℕ) → n < 10 ^ d → length (char_loop k n) ≤ d
unfolding char_loop
length-char_loop d zero n h = omega arith
length-char_loop zero (suc k) n h = ground arith
length-char_loop (suc d) (suc k) n h =
    let h' : n < 10 * 10 ^ d = omega (arith, pow-suc 10 d) in
    ground (arith, length-char_loop d k (n / 10) (omega arith))

int_to_char_array-digits : (n : ℕ) → All IsDigit (int_to_char_array (pos n))
unfolding int_to_char_array
int_to_char_array-digits n = All-reverse IsDigit _ (char_loop-digits n n)

-- A positive `int` is read back by `atoi`.
pub atoi-int_to_char_array : (z : ℤ) → IsStorable z → atoi (int_to_char_array z) ≡ some z
unfolding int_to_char_array
atoi-int_to_char_array (pos n) h =
    let same : digits_value (reverse (char_loop n n)) 0 ≡ n =
      ap (λ s. digits_value s 0) (sym (append-nil (reverse (char_loop n n))))
      ∙ digits_value-char_loop n n [] (omega arith)
      ∙ unfold digits_value in refl in
    atoi_digits _ (char_loop-ne-nil n n h.0 (omega arith)) (int_to_char_array-digits n)
      (omega arith)
    ∙ ap (λ m. some (pos m)) same
atoi-int_to_char_array (negsuc n) h = absurd h

All-map {κ μ} :
    (P : ℕ → Type κ) (Q : ℕ → Type μ) (s : Bytes) → ((c : ℕ) → P c → Q c) → All P s → All Q s
All-map P Q [] f h = tt
All-map P Q (c ∷ s) f h = (f c h.0, All-map P Q s f h.1)

-- Its text is one field of a line, of ten bytes at most.
pub int_to_char_array-IsField : (z : ℤ) → IsStorable z → IsField (int_to_char_array z)
int_to_char_array-IsField (pos n) h = record {
  not_empty = unfold int_to_char_array in char_loop-ne-nil n n h.0 (omega arith);
  no_comma = All-map IsDigit _ _ (λ c d. omega arith) (int_to_char_array-digits n);
  no_newline = All-map IsDigit _ _ (λ c d. omega arith) (int_to_char_array-digits n);
}
int_to_char_array-IsField (negsuc n) h = absurd h

pub length-int_to_char_array : (z : ℤ) → IsStorable z → length (int_to_char_array z) ≤ 10
unfolding int_to_char_array
length-int_to_char_array (pos n) h =
    omega (arith, length-reverse (char_loop n n), length-char_loop 10 n n (omega arith))
length-int_to_char_array (negsuc n) h = absurd h

-- Zero has no digit: the loop body is never entered.
pub int_to_char_array_zero : int_to_char_array (pos 0) ≡ []
unfolding int_to_char_array
int_to_char_array_zero = refl
