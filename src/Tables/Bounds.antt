-- ===== src/Tables/Bounds.antt =====
-- JacobWilson.c: how much of `putBack[1000]` a write-back of products needs.
use native.Mathlib.Nat.{pow-suc}
use group_a_cs.Base.{
  ℕ, zero, suc, ◌+◌, ◌*◌, ◌/◌, ◌^◌, ◌≤◌, ◌<◌, ◌≡◌, refl, none, some, List, [], ◌∷◌, ◌++◌, Bytes,
  length, length-append, All, arith, ltb-true,
}
use group_a_cs.Base.Int.{ℤ, pos, negsuc, IsInt}
use group_a_cs.Convert.{char_loop, negative_loop, int_to_char_array}
use group_a_cs.Convert.RoundTrip.{length-char_loop, length-reverse}
use group_a_cs.Tables.{ProductInfo}
use group_a_cs.Tables.Save.{
  fields_text, product_fields, count_newlines, rows_text, write_back, write_back_product_struct,
}

length-negative_loop : (d k n : ℕ) → n < 10 ^ d → length (negative_loop k n) ≤ d
unfolding negative_loop
length-negative_loop d zero n h = omega arith
length-negative_loop zero (suc k) n h = ground arith
length-negative_loop (suc d) (suc k) n h =
    let h' : n < 10 * 10 ^ d = omega (arith, pow-suc 10 d) in
    ground (arith, length-negative_loop d k (n / 10) (omega arith))

-- The text of any `int` has ten bytes at most.
int_to_char_array-short : (z : ℤ) → IsInt z → length (int_to_char_array z) ≤ 10
unfolding int_to_char_array
int_to_char_array-short (pos n) h =
    omega (arith, length-reverse (char_loop n n), length-char_loop 10 n n (omega arith))
int_to_char_array-short (negsuc n) h = omega (
  arith,
  length-reverse (negative_loop (suc n) (suc n)),
  length-negative_loop 10 (suc n) (suc n) (omega arith),
)

-- A product in the memory of the server: `int`s, and a name in `char[20]`.
pub record IsProduct (r : ProductInfo) : Type 0 where
  pub product_id : IsInt r.product_id
  pub product_name : length r.product_name < 20
  pub seller_id : IsInt r.seller_id
  pub quantity : IsInt r.quantity
  pub price : IsInt r.price

length-fields_text :
    (f : Bytes) (fs : List Bytes) (rest : Bytes)
    → length (fields_text (f ∷ fs) rest) ≡ length f + 1 + length (fields_text fs rest)
length-fields_text f fs rest = omega (arith, length-append f (b',' ∷ fields_text fs rest))

row-bounds :
    (r : ProductInfo) (rest : Bytes)
    → IsProduct r
    → (length rest + 6 ≤ length (fields_text (product_fields r) (b'\n' ∷ rest)))
      × (length (fields_text (product_fields r) (b'\n' ∷ rest)) ≤ length rest + 65)
row-bounds r rest h =
    let price = int_to_char_array r.price ∷ [] in
    let quantity = int_to_char_array r.quantity ∷ price in
    let seller = int_to_char_array r.seller_id ∷ quantity in
    let end = b'\n' ∷ rest in
    omega (
      arith,
      length-fields_text (int_to_char_array r.product_id) (r.product_name ∷ seller) end,
      length-fields_text r.product_name seller end,
      length-fields_text (int_to_char_array r.seller_id) quantity end,
      length-fields_text (int_to_char_array r.quantity) price end,
      length-fields_text (int_to_char_array r.price) [] end,
      int_to_char_array-short r.product_id h.product_id,
      int_to_char_array-short r.seller_id h.seller_id,
      int_to_char_array-short r.quantity h.quantity,
      int_to_char_array-short r.price h.price,
      h.product_name,
    )

-- The text of the first rows.
RowsText : ℕ → List ProductInfo → Type 0
RowsText n table =
    (text : Bytes) × (rows_text product_fields n table ≡ some text)
    × (n * 6 ≤ length text)
    × (length text ≤ n * 65)

rows-bounds :
    (n : ℕ) (table : List ProductInfo) → All IsProduct table → n ≤ length table → RowsText n table
unfolding RowsText rows_text
rows-bounds zero table h enough = ([], refl, omega arith, omega arith)
rows-bounds (suc n) [] h enough = absurd (omega arith)
rows-bounds (suc n) (r ∷ table) h enough =
    let (text, e, low, high) = rows-bounds n table h.1 (omega arith) in
    let row = row-bounds r text h.0 in
    (
      fields_text (product_fields r) (b'\n' ∷ text),
      rw e refl,
      omega (arith, low, row),
      omega (arith, high, row),
    )

-- A write-back of products, of which there is one more than the old file has newlines: where the
-- junk in `putBack` and 65 bytes for each row are less than its 1000, the file is written, and is no
-- longer than that; where the junk and six bytes for each row are 1000 or more, as for 167 rows
-- whatever is in them, the buffer is overrun.
pub write_back_product_struct_bounds :
    (put_back old : Bytes) (table : List ProductInfo)
    → All IsProduct table
    → count_newlines old + 1 ≤ length table
    → (length put_back + (count_newlines old + 1) * 65 < 1000
        → (text : Bytes) × (write_back_product_struct put_back (some old) table ≡ some text)
          × (length text ≤ length put_back + (count_newlines old + 1) * 65))
      × (1000 ≤ length put_back + (count_newlines old + 1) * 6
          → write_back_product_struct put_back (some old) table ≡ none)
unfolding write_back_product_struct write_back RowsText
write_back_product_struct_bounds put_back old table h enough =
    let (text, e, low, high) = rows-bounds (count_newlines old + 1) table h enough in
    let both = length-append put_back text in
    (
      λ fits. (
        put_back ++ text,
        rw e
            (rw (ltb-true (length (put_back ++ text)) 1000 (omega (arith, both, high, fits))) refl),
        omega (arith, both, high),
      ),
      λ full. rw e (ground (arith, both, low, full)),
    )
