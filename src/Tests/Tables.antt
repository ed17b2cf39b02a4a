-- ===== src/Tests/Tables.antt =====
-- The theorems on the tables' files at rows that meet their hypotheses.
use group_a_cs.Base.{
  ◌≡◌, ◌+◌, ◌*◌, ◌≤◌, ◌<◌, List, length, refl, none, some, true, [], ◌∷◌, codes, arith, Bytes,
}
use group_a_cs.Convert.{int_to_char_array}
use group_a_cs.Tables.{
  ProductInfo, load_client_info, load_product_info, load_billing_info, load_customer_order_info,
}
use group_a_cs.Tables.Save.{
  count_newlines, write_back_client_struct, write_back_product_struct, write_back_billing_struct,
  write_back_customer_order_struct,
}
use group_a_cs.Tables.Bounds.{IsProduct, write_back_product_struct_bounds}
use group_a_cs.Tables.RoundTrip.Clients.{
  IsStoredClient, no_client, load_client_info-write_back_client_struct,
}
use group_a_cs.Tables.RoundTrip.Products.{
  IsStoredProduct, no_product, load_product_info-write_back_product_struct,
  load_product_info-free_row,
}
use group_a_cs.Tables.RoundTrip.Bills.{
  IsStoredBilling, no_billing, load_billing_info-write_back_billing_struct,
}
use group_a_cs.Tables.RoundTrip.Orders.{
  IsStoredCustomerOrder, no_customer_order,
  load_customer_order_info-write_back_customer_order_struct,
}
use group_a_cs.Tests.Evidence.{text}
use group_a_cs.Tests.Samples.{hook, wayne, wayne_bill, wayne_order}

-- A file of one line, without and with a newline behind it.
abbrev one_row : Bytes
one_row = codes "x"

abbrev one_line : Bytes
one_line = codes "x\n"

one_row-lines : count_newlines one_row + 1 ≡ 1
unfolding count_newlines
one_row-lines = refl

one_line-lines : count_newlines one_line ≡ 1
unfolding count_newlines
one_line-lines = refl

wayne-IsStored : IsStoredClient wayne
wayne-IsStored = record {
  uuid = (omega arith, omega arith);
  first_name = text (codes "Bruce") refl refl;
  last_name = text (codes "Wayne") refl refl;
  phone_number = text (codes "(569)653-0303") refl refl;
  street_address = text (codes "1 Cave way") refl refl;
  city = text (codes "Gotham City") refl refl;
  state = text (codes "NY") refl refl;
  zip_code = text (codes "9095") refl refl;
}

load_client_info-write_back_client_struct_example :
    (file : Bytes) × (write_back_client_struct [] (some one_row) (wayne ∷ no_client ∷ [])
      ≡ some file)
    × (load_client_info (some file) (no_client ∷ no_client ∷ [])
        ≡ some (true, wayne ∷ no_client ∷ []))
unfolding int_to_char_array
load_client_info-write_back_client_struct_example =
    load_client_info-write_back_client_struct one_row (wayne ∷ []) (no_client ∷ [])
      (no_client ∷ no_client ∷ []) (wayne-IsStored, tt) one_row-lines (omega arith) (omega arith)

pub hook-IsStored : IsStoredProduct hook
hook-IsStored = record {
  product_id = (omega arith, omega arith);
  product_name = text (codes "Hook") refl refl;
  seller_id = (omega arith, omega arith);
  quantity = (omega arith, omega arith);
  price = (omega arith, omega arith);
}

load_product_info-write_back_product_struct_example :
    (file : Bytes) × (write_back_product_struct [] (some one_row) (hook ∷ no_product ∷ [])
      ≡ some file)
    × (load_product_info (some file) (no_product ∷ no_product ∷ [])
        ≡ some (true, hook ∷ no_product ∷ []))
unfolding int_to_char_array
load_product_info-write_back_product_struct_example =
    load_product_info-write_back_product_struct one_row (hook ∷ []) (no_product ∷ [])
      (no_product ∷ no_product ∷ []) (hook-IsStored, tt) one_row-lines (omega arith) (omega arith)

load_product_info-free_row_example :
    (file : Bytes) × (write_back_product_struct [] (some one_line) (hook ∷ no_product ∷ [])
      ≡ some file)
    × (load_product_info (some file) (no_product ∷ no_product ∷ []) ≡ none)
unfolding int_to_char_array
load_product_info-free_row_example =
    load_product_info-free_row one_line (hook ∷ []) [] (no_product ∷ no_product ∷ [])
      (hook-IsStored, tt) one_line-lines (omega arith)

wayne_bill-IsStored : IsStoredBilling wayne_bill
wayne_bill-IsStored = record {
  order_id = (omega arith, omega arith);
  customer_id = (omega arith, omega arith);
  first_name = text (codes "Bruce") refl refl;
  last_name = text (codes "Wayne") refl refl;
  street_address = text (codes "1 Cave way") refl refl;
  city = text (codes "Gotham City") refl refl;
  state = text (codes "NY") refl refl;
  zip_code = text (codes "9095") refl refl;
  total_order_cost = (omega arith, omega arith);
}

load_billing_info-write_back_billing_struct_example :
    (file : Bytes) × (write_back_billing_struct [] (some one_row) (wayne_bill ∷ no_billing ∷ [])
      ≡ some file)
    × (load_billing_info (some file) (no_billing ∷ no_billing ∷ [])
        ≡ some (true, wayne_bill ∷ no_billing ∷ []))
unfolding int_to_char_array
load_billing_info-write_back_billing_struct_example =
    load_billing_info-write_back_billing_struct one_row (wayne_bill ∷ []) (no_billing ∷ [])
      (no_billing ∷ no_billing ∷ []) (wayne_bill-IsStored, tt) one_row-lines (omega arith)
      (omega arith)

wayne_order-IsStored : IsStoredCustomerOrder wayne_order
wayne_order-IsStored = record {
  order_id = (omega arith, omega arith);
  product_id = (omega arith, omega arith);
  quantity_purchased = (omega arith, omega arith);
  first_name = text (codes "Bruce") refl refl;
  last_name = text (codes "Wayne") refl refl;
  street_address = text (codes "1 Cave way") refl refl;
  city = text (codes "Gotham City") refl refl;
  state = text (codes "NY") refl refl;
  zip_code = text (codes "9095") refl refl;
  total_price = (omega arith, omega arith);
}

load_customer_order_info-write_back_customer_order_struct_example :
    (file : Bytes) × (write_back_customer_order_struct []
        (some one_row)
        (wayne_order ∷ no_customer_order ∷ [])
      ≡ some file)
    × (load_customer_order_info (some file) (no_customer_order ∷ no_customer_order ∷ [])
        ≡ some (true, wayne_order ∷ no_customer_order ∷ []))
unfolding int_to_char_array
load_customer_order_info-write_back_customer_order_struct_example =
    load_customer_order_info-write_back_customer_order_struct one_row (wayne_order ∷ [])
      (no_customer_order ∷ []) (no_customer_order ∷ no_customer_order ∷ [])
      (wayne_order-IsStored, tt) one_row-lines (omega arith) (omega arith)

hook-IsProduct : IsProduct hook
hook-IsProduct = record {
  product_id = (omega arith, omega arith);
  product_name = omega arith;
  seller_id = (omega arith, omega arith);
  quantity = (omega arith, omega arith);
  price = (omega arith, omega arith);
}

abbrev two_hooks : List ProductInfo
two_hooks = hook ∷ hook ∷ []

write_back_product_struct_bounds_example :
    (length (codes "xyz") + (count_newlines one_row + 1) * 65 < 1000
      → (text : Bytes) × (write_back_product_struct (codes "xyz") (some one_row) two_hooks
          ≡ some text)
        × (length text ≤ length (codes "xyz") + (count_newlines one_row + 1) * 65))
    × (1000 ≤ length (codes "xyz") + (count_newlines one_row + 1) * 6
        → write_back_product_struct (codes "xyz") (some one_row) two_hooks ≡ none)
unfolding count_newlines
write_back_product_struct_bounds_example =
    write_back_product_struct_bounds (codes "xyz") one_row two_hooks
      (hook-IsProduct, (hook-IsProduct, tt)) (omega arith)
