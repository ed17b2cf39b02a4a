-- ===== src/Convert.antt =====
-- JacobWilson.c, `intToCharArray`: an integer as text, into a zeroed array.
pub mod RoundTrip
use group_a_cs.Base.{
  ℕ, zero, suc, ◌+◌, ◌/◌, ◌%◌, true, false, [], ◌∷◌, Bytes, ◌==◌, if◌then◌else◌, reverse, codes,
  ◌≡◌, refl,
}
use group_a_cs.Base.Int.{ℤ, pos, negsuc}

-- The loop on a number that is not negative: the `switch` appends the digit of `temp % 10`, last
-- digit first. The fuel is the number itself, which a division by ten makes smaller.
unfoldable pub char_loop : ℕ → ℕ → Bytes
char_loop zero temp = []
char_loop (suc k) temp = elim (temp == 0) [
  | true ↦ []
  | false ↦ (b'0' + temp % 10) ∷ char_loop k (temp / 10)
]

-- The loop on a negative number `- temp`: `temp % 10` is not positive in C, so that only the case 0
-- of the `switch` appends, and all others take the default.
unfoldable pub negative_loop : ℕ → ℕ → Bytes
negative_loop zero temp = []
negative_loop (suc k) temp =
    let rest = negative_loop k (temp / 10) in
    elim (temp == 0) [ true ↦ [] | false ↦ (if temp % 10 == 0 then b'0' ∷ rest else rest) ]

-- The loop, and the reversal behind it.
unfoldable pub int_to_char_array : ℤ → Bytes
unfolding char_loop negative_loop
int_to_char_array (pos n) = reverse (char_loop n n)
int_to_char_array (negsuc n) = reverse (negative_loop (suc n) (suc n))

digits_of_2000 : int_to_char_array (pos 2000) ≡ codes "2000"
unfolding int_to_char_array
digits_of_2000 = refl

digits_of_negative : int_to_char_array (negsuc 104) ≡ codes "0"
unfolding int_to_char_array
digits_of_negative = refl
