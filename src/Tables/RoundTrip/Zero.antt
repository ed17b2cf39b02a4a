-- ===== src/Tables/RoundTrip/Zero.antt =====
-- A product that is sold out: zero is printed as no digit at all, and `strtok` passes over the empty
-- field.
use group_a_cs.Base.{◌≡◌, refl, some, [], ◌∷◌, Bytes}
use group_a_cs.Base.Int.{pos}
use group_a_cs.Libc.{strtok, atoi}
use group_a_cs.Libc.Tokens.{strtok_comma}
use group_a_cs.Convert.RoundTrip.{IsStorable, atoi-int_to_char_array, int_to_char_array_zero}
use group_a_cs.Tables.{ProductInfo, next_int, parse_product}
use group_a_cs.Tables.Save.{fields_text, product_fields}
use group_a_cs.Tables.RoundTrip.Fields.{IsText, next_text-append, next_int-append, strtok_int}

next_int_comma : (s : Bytes) → next_int (b',' ∷ s) ≡ next_int s
unfolding next_int
next_int_comma s = rw (strtok_comma s)

next_int_end : next_int (b'\n' ∷ []) ≡ some (pos 0, [])
unfolding next_int strtok atoi
next_int_end = refl

-- The line that is written for a product with quantity zero is read back with the price for the
-- quantity and zero for the price. The other numbers and the name can be stored.
pub parse_product_sold_out :
    (r : ProductInfo)
    → IsStorable r.product_id
    → IsText r.product_name
    → IsStorable r.seller_id
    → r.quantity ≡ pos 0
    → IsStorable r.price
    → (t : Bytes × Bytes) × (strtok (fields_text (product_fields r) (b'\n' ∷ [])) ≡ some t)
      × (parse_product t.0 t.1 ≡ some (record r { quantity = r.price; price = pos 0 }))
unfolding parse_product
parse_product_sold_out r id name seller zero price = (
  _,
  strtok_int r.product_id id _,
  rw
      (
        atoi-int_to_char_array r.product_id id,
        next_text-append r.product_name name _,
        next_int-append r.seller_id seller _,
      )
      (rw (zero, int_to_char_array_zero)
        (rw (next_int_comma, next_int-append r.price price _, next_int_end))),
)
