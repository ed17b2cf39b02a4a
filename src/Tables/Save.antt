-- ===== src/Tables/Save.antt =====
-- JacobWilson.c: the functions that write a table back to its file.
use group_a_cs.Base.{
  ℕ, zero, suc, ◌+◌, Option, none, some, List, [], ◌∷◌, ◌++◌, Bytes, ltb, ◌==◌, if◌then◌else◌,
  ◌>>=◌, length,
}
use group_a_cs.Convert.{int_to_char_array}
use group_a_cs.Tables.{ClientInfo, ProductInfo, BillingInfo, CustomerOrderInfo}

-- `strcat(putBack, field); strcat(putBack, ",");` for each field.
abbrev pub fields_text : List Bytes → Bytes → Bytes
fields_text [] rest = rest
fields_text (f ∷ fs) rest = f ++ (b',' ∷ fields_text fs rest)

abbrev pub client_fields : ClientInfo → List Bytes
client_fields r =
    int_to_char_array r.uuid
    ∷ r.first_name
    ∷ r.last_name
    ∷ r.phone_number
    ∷ r.street_address
    ∷ r.city
    ∷ r.state
    ∷ r.zip_code
    ∷ []

abbrev pub product_fields : ProductInfo → List Bytes
product_fields r =
    int_to_char_array r.product_id
    ∷ r.product_name
    ∷ int_to_char_array r.seller_id
    ∷ int_to_char_array r.quantity
    ∷ int_to_char_array r.price
    ∷ []

abbrev pub billing_fields : BillingInfo → List Bytes
billing_fields r =
    int_to_char_array r.order_id
    ∷ int_to_char_array r.customer_id
    ∷ r.first_name
    ∷ r.last_name
    ∷ r.street_address
    ∷ r.city
    ∷ r.state
    ∷ r.zip_code
    ∷ int_to_char_array r.total_order_cost
    ∷ []

abbrev pub customer_order_fields : CustomerOrderInfo → List Bytes
customer_order_fields r =
    int_to_char_array r.order_id
    ∷ int_to_char_array r.product_id
    ∷ int_to_char_array r.quantity_purchased
    ∷ r.first_name
    ∷ r.last_name
    ∷ r.street_address
    ∷ r.city
    ∷ r.state
    ∷ r.zip_code
    ∷ int_to_char_array r.total_price
    ∷ []

-- The loop that counts the newlines of the old file.
unfoldable pub count_newlines : Bytes → ℕ
count_newlines [] = 0
count_newlines (c ∷ s) = if c == b'\n' then count_newlines s + 1 else count_newlines s

module _ {A : Type 0} (fields : A → List Bytes) where
  -- The loop over the first `num` rows. Its test `x != num` always holds, so each row ends in a
  -- newline.
  unfoldable pub rows_text : ℕ → List A → Option Bytes
  rows_text zero table = some []
  rows_text (suc num) [] = none
  rows_text (suc num) (r ∷ table) = do
    rest ← rows_text num table
    some (fields_text (fields r) (b'\n' ∷ rest))

  -- `put_back` is the string that the uninitialised `char putBack[1000]` holds. The number of rows
  -- is the number of newlines in the old file, which must be there, and one.
  unfoldable pub write_back : Bytes → Option Bytes → List A → Option Bytes
  unfolding rows_text
  write_back put_back none table = none
  write_back put_back (some old) table = do
    text ← rows_text (count_newlines old + 1) table
    if ltb (length (put_back ++ text)) 1000 then some (put_back ++ text) else none

-- Each takes the junk in its buffer and the old file, and returns the new file.
unfoldable pub write_back_client_struct : Bytes → Option Bytes → List ClientInfo → Option Bytes
unfolding write_back count_newlines
write_back_client_struct = write_back client_fields

unfoldable pub write_back_product_struct : Bytes → Option Bytes → List ProductInfo → Option Bytes
unfolding write_back count_newlines
write_back_product_struct = write_back product_fields

unfoldable pub write_back_billing_struct : Bytes → Option Bytes → List BillingInfo → Option Bytes
unfolding write_back count_newlines
write_back_billing_struct = write_back billing_fields

unfoldable pub write_back_customer_order_struct :
    Bytes → Option Bytes → List CustomerOrderInfo → Option Bytes
unfolding write_back count_newlines
write_back_customer_order_struct = write_back customer_order_fields
