-- ===== src/Tests/Ordering.antt =====
-- The theorems on orders at items, tables and messages that meet their hypotheses.
use group_a_cs.Base.{
  ◌≡◌, ◌↔◌, refl, some, true, false, Bool, List, [], ◌∷◌, ◌++◌, codes, arith, map, Bytes, All,
}
use group_a_cs.Base.Int.{ℤ, eq_ℤ_ne, pos, ◌-ℤ◌, ltb_ℤ}
use group_a_cs.Libc.{atoi, strtok, fgets_lines}
use group_a_cs.Convert.{int_to_char_array}
use group_a_cs.Tables.{
  ItemOrder, ClientInfo, ProductInfo, BillingInfo, CustomerOrderInfo, load_client_info,
  load_product_info, load_billing_info, load_customer_order_info, next_text, next_int,
}
use group_a_cs.Tables.Save.{
  write_back_product_struct, write_back_billing_struct, write_back_customer_order_struct,
}
use group_a_cs.Tables.RoundTrip.Clients.{no_client}
use group_a_cs.Tables.RoundTrip.Products.{no_product, product_text}
use group_a_cs.Tables.RoundTrip.Bills.{no_billing, billing_text}
use group_a_cs.Tables.RoundTrip.Orders.{no_customer_order, customer_order_text}
use group_a_cs.World.{done, quiet}
use group_a_cs.World.Rows.{first_free}
use group_a_cs.World.Rows.Prefix.{Loaded}
use group_a_cs.Catalog.{confirmation, invalid}
use group_a_cs.Catalog.Request.{IsNumber}
use group_a_cs.Ordering.{extract_buyer_order, validate_buyer_order, new_product_quantity_from_order}
use group_a_cs.Ordering.Check.{validate_buyer_order_iff}
use group_a_cs.Ordering.Items.{Covered}
use group_a_cs.Ordering.Sold.{Distinct, AllInStock, DistinctItems}
use group_a_cs.Ordering.Stock.{new_product_quantity-validated}
use group_a_cs.Ordering.Records.{IsPurchase, bill, order_row}
use group_a_cs.Ordering.Complete.{complete_an_order}
use group_a_cs.Ordering.Complete.Replies.{complete_an_order-invalid, complete_an_order_confirmed}
use group_a_cs.Tests.Evidence.{number}
use group_a_cs.Tests.Samples.{
  zeroed, no_item, hook, apples, wayne, wayne_bill, wayne_order, two_rows, shop,
}

abbrev pub item : ℤ → ℤ → ℤ → ItemOrder
item id quantity cost = record { product_id = id; quantity = quantity; item_cost_per_unit = cost }

-- All but fifty of the hooks, and ten apples.
abbrev pub items : List ItemOrder
items = item (pos 2000) (pos 150) (pos 20) ∷ item (pos 2002) (pos 10) (pos 1) ∷ []

abbrev pub stock : List ProductInfo
stock = hook ∷ apples ∷ []

abbrev pub left : List ProductInfo
left = record hook { quantity = pos 50 } ∷ record apples { quantity = pos 40 } ∷ []

validate_buyer_order_iff_example :
    (b : Bool) × (validate_buyer_order (items ++ no_item ∷ []) (stock ++ no_product ∷ []) ≡ some b)
    × ((b ≡ true)
        ↔ (All (Covered stock) items × (ltb_ℤ no_product.quantity no_item.quantity ≡ false)))
validate_buyer_order_iff_example =
    validate_buyer_order_iff items [] no_item stock [] no_product (refl, (refl, tt))
      (refl, (refl, tt)) refl refl

pub accepted :
    validate_buyer_order (items ++ no_item ∷ no_item ∷ []) (stock ++ no_product ∷ no_product ∷ [])
    ≡ some true
unfolding validate_buyer_order first_free
accepted = refl

pub stock-Distinct : Distinct stock
stock-Distinct = ((eq_ℤ_ne (pos 2000) (pos 2002) refl, tt), (tt, tt))

pub items-DistinctItems : DistinctItems items
items-DistinctItems = ((eq_ℤ_ne (pos 2002) (pos 2000) refl, tt), (tt, tt))

pub items-IsPurchase : All IsPurchase items
items-IsPurchase = (record { quantity = tt; cost = tt }, (record { quantity = tt; cost = tt }, tt))

new_product_quantity-validated_example :
    (new_product_quantity_from_order
        (items ++ no_item ∷ no_item ∷ [])
        (stock ++ no_product ∷ no_product ∷ [])
      ≡ some (left ++ no_product ∷ no_product ∷ []))
    × AllInStock left
unfolding ◌-ℤ◌
new_product_quantity-validated_example =
    new_product_quantity-validated items (no_item ∷ []) no_item stock (no_product ∷ []) no_product
      (refl, (refl, tt)) (refl, (refl, tt)) refl refl refl stock-Distinct
      (omega arith, (omega arith, tt)) items-DistinctItems (omega arith, (omega arith, tt)) accepted

pub n1003 : IsNumber (codes "1003") (pos 1003)
unfolding atoi
n1003 = number (codes "1003") (pos 1003) refl refl

pub shop-products :
    Loaded ProductInfo.product_id
      (load_product_info (some two_rows) zeroed.product_list)
      stock
      no_product
      (no_product ∷ [])
unfolding load_product_info fgets_lines strtok atoi next_text next_int
shop-products = record { loaded = refl; used = (refl, (refl, tt)); ended = refl }

pub shop-buyers :
    Loaded ClientInfo.uuid
      (load_client_info (shop two_rows).customer_info zeroed.client_db)
      (wayne ∷ [])
      no_client
      (no_client ∷ no_client ∷ [])
unfolding load_client_info fgets_lines strtok atoi next_text next_int
shop-buyers = record { loaded = refl; used = (refl, tt); ended = refl }

pub shop-bills :
    Loaded BillingInfo.order_id
      (load_billing_info (shop two_rows).billing_info zeroed.billing_info)
      (wayne_bill ∷ [])
      no_billing
      (no_billing ∷ no_billing ∷ [])
unfolding load_billing_info fgets_lines strtok atoi next_text next_int
shop-bills = record { loaded = refl; used = (refl, tt); ended = refl }

pub shop-orders :
    Loaded CustomerOrderInfo.order_id
      (load_customer_order_info (shop two_rows).customer_order zeroed.customer_order_info)
      (wayne_order ∷ [])
      no_customer_order
      (no_customer_order ∷ no_customer_order ∷ [])
unfolding load_customer_order_info fgets_lines strtok atoi next_text next_int
shop-orders = record { loaded = refl; used = (refl, tt); ended = refl }

abbrev request : Bytes
request = codes "2000,150,20,2002,10,1,"

pub request-items :
    extract_buyer_order (request ++ b'\n' ∷ []) zeroed.order_list
    ≡ some (items ++ no_item ∷ no_item ∷ [])
unfolding extract_buyer_order strtok atoi next_int
request-items = refl

abbrev ordered : List CustomerOrderInfo
ordered = wayne_order ∷ (map (order_row (pos 7000) wayne) items ++ no_customer_order ∷ [])

pub left-saved :
    write_back_product_struct [] (some two_rows) (left ++ no_product ∷ no_product ∷ [])
    ≡ some (product_text left)
unfolding write_back_product_struct int_to_char_array
left-saved = refl

pub bills-saved :
    write_back_billing_struct []
      (shop two_rows).billing_info
      (wayne_bill ∷ bill (pos 7000) wayne (pos 3010) ∷ no_billing ∷ no_billing ∷ [])
    ≡ some (billing_text (wayne_bill ∷ bill (pos 7000) wayne (pos 3010) ∷ []))
unfolding write_back_billing_struct int_to_char_array
bills-saved = refl

-- Only the first of the two items has a line in the new file.
pub orders-saved :
    write_back_customer_order_struct [] (shop two_rows).customer_order ordered
    ≡ some (
        customer_order_text
          (wayne_order ∷ order_row (pos 7000) wayne (item (pos 2000) (pos 150) (pos 20)) ∷ []))
unfolding write_back_customer_order_struct int_to_char_array
orders-saved = refl

complete_an_order_confirmed_example :
    complete_an_order
      (record zeroed { rand = 6000 })
      (codes "1003,2000,150,20,2002,10,1,")
      (quiet (shop two_rows) [] [])
    ≡ done tt (
        quiet
          (record (shop two_rows) {
            product_info = some (product_text left);
            billing_info = some (billing_text (wayne_bill ∷ bill (pos 7000) wayne (pos 3010) ∷ []));
            customer_order = some (
                customer_order_text (
                  wayne_order
                  ∷ order_row (pos 7000) wayne (item (pos 2000) (pos 150) (pos 20))
                  ∷ []));
          })
          []
          (confirmation ∷ []))
unfolding ◌-ℤ◌
complete_an_order_confirmed_example =
    complete_an_order_confirmed (record zeroed { rand = 6000 }) (shop two_rows) [] [] n1003 b'2'
      (codes "000,150,20,2002,10,1,") items (no_item ∷ []) no_item stock (no_product ∷ [])
      no_product [] [] (no_client ∷ no_client ∷ []) wayne no_client (wayne_bill ∷ [])
      (no_billing ∷ no_billing ∷ []) no_billing (wayne_order ∷ [])
      (no_customer_order ∷ no_customer_order ∷ []) no_customer_order (product_text left)
      (billing_text (wayne_bill ∷ bill (pos 7000) wayne (pos 3010) ∷ []))
      (customer_order_text
        (wayne_order ∷ order_row (pos 7000) wayne (item (pos 2000) (pos 150) (pos 20)) ∷ []))
      request-items (refl, (refl, tt)) refl shop-products shop-buyers shop-bills shop-orders tt refl
      refl stock-Distinct (omega arith, (omega arith, tt)) items-DistinctItems
      (omega arith, (omega arith, tt)) items-IsPurchase (omega arith) (omega arith) accepted
      left-saved bills-saved orders-saved

refused :
    validate_buyer_order
      (item (pos 2002) (pos 60) (pos 1) ∷ no_item ∷ no_item ∷ no_item ∷ [])
      (stock ++ no_product ∷ no_product ∷ [])
    ≡ some false
unfolding validate_buyer_order first_free
refused = refl

too_many :
    extract_buyer_order (codes "2002,60,1," ++ b'\n' ∷ []) zeroed.order_list
    ≡ some (item (pos 2002) (pos 60) (pos 1) ∷ no_item ∷ no_item ∷ no_item ∷ [])
unfolding extract_buyer_order strtok atoi next_int
too_many = refl

complete_an_order-invalid_example :
    complete_an_order zeroed (codes "1003,2002,60,1,") (quiet (shop two_rows) [] [])
    ≡ done tt (quiet (shop two_rows) [] (invalid ∷ []))
complete_an_order-invalid_example =
    complete_an_order-invalid zeroed (shop two_rows) [] [] n1003 b'2' (codes "002,60,1,")
      (item (pos 2002) (pos 60) (pos 1) ∷ no_item ∷ no_item ∷ no_item ∷ []) true
      (stock ++ no_product ∷ no_product ∷ []) too_many shop-products.loaded refused
