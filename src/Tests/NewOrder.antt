-- ===== src/Tests/NewOrder.antt =====
-- An order, and the bills of the buyer behind it, on concrete files.
use group_a_cs.Base.{◌≡◌, ◌+◌, refl, some, codes, [], ◌∷◌, ◌++◌, arith}
use group_a_cs.Base.Int.{ℤ, pos, ◌-ℤ◌}
use group_a_cs.Convert.{int_to_char_array}
use group_a_cs.Convert.RoundTrip.{IsStorable}
use group_a_cs.Libc.{sprintf_int, strtok, atoi}
use group_a_cs.Tables.{next_int}
use group_a_cs.Tables.Save.{count_newlines}
use group_a_cs.Tables.RoundTrip.Clients.{no_client}
use group_a_cs.Tables.RoundTrip.Products.{no_product, product_text}
use group_a_cs.Tables.RoundTrip.Bills.{IsStoredBilling, billing_text, no_billing}
use group_a_cs.Tables.RoundTrip.Orders.{customer_order_text, no_customer_order}
use group_a_cs.World.{done, quiet, ◌>>=◌}
use group_a_cs.World.Rows.{concat_rows}
use group_a_cs.Catalog.{confirmation}
use group_a_cs.Ordering.{extract_buyer_order}
use group_a_cs.Ordering.Records.{bill, order_row}
use group_a_cs.Views.{billing_line}
use group_a_cs.Server.{execute_task_on_server}
use group_a_cs.Server.Sessions.NewOrder.{new_order_viewed}
use group_a_cs.Tests.Evidence.{text}
use group_a_cs.Tests.Samples.{zeroed, no_item, wayne, wayne_bill, wayne_order, two_rows, shop}
use group_a_cs.Tests.Ordering.{
  n1003, item, items, stock, left, shop-products, shop-buyers, shop-bills, shop-orders,
  stock-Distinct, items-DistinctItems, items-IsPurchase, accepted, left-saved, orders-saved,
}

request-items :
    extract_buyer_order (codes "2000,150,20,2002,10,1,\n" ++ b'\n' ∷ []) zeroed.order_list
    ≡ some (items ++ no_item ∷ no_item ∷ [])
unfolding extract_buyer_order strtok atoi next_int
request-items = refl

one_bill :
    count_newlines (codes "3000,1003,Bruce,Wayne,1 Cave way,Gotham City,NY,9095,430,\n") + 1 ≡ 2
unfolding count_newlines
one_bill = refl

bill-IsStored : (id sum : ℤ) → IsStorable id → IsStorable sum → IsStoredBilling (bill id wayne sum)
bill-IsStored id sum h k = record {
  order_id = h;
  customer_id = (omega arith, omega arith);
  first_name = text (codes "Bruce") refl refl;
  last_name = text (codes "Wayne") refl refl;
  street_address = text (codes "1 Cave way") refl refl;
  city = text (codes "Gotham City") refl refl;
  state = text (codes "NY") refl refl;
  zip_code = text (codes "9095") refl refl;
  total_order_cost = k;
}

new_order_viewed_example :
    (execute_task_on_server
          (record zeroed { rand = 6000 })
          (codes "[COMPLETE_ORDER],1003,2000,150,20,2002,10,1,")
        >>= λ _. execute_task_on_server zeroed (codes "[VIEW_BUYER_ORDERS],1003,"))
      (quiet (shop two_rows) [] [])
    ≡ done tt (
        quiet
          (record (shop two_rows) {
            product_info = some (product_text left);
            billing_info = some (billing_text (wayne_bill ∷ bill (pos 7000) wayne (pos 3010) ∷ []));
            customer_order = some (
                customer_order_text (
                  wayne_order
                  ∷ order_row (pos 7000) wayne (item (pos 2000) (pos 150) (pos 20))
                  ∷ []));
          })
          []
          (confirmation ∷ codes "3000,430,\n7000,3010,\n" ∷ []))
unfolding ◌-ℤ◌ concat_rows billing_line sprintf_int int_to_char_array
new_order_viewed_example =
    new_order_viewed (record zeroed { rand = 6000 }) (shop two_rows) [] []
      (codes "3000,1003,Bruce,Wayne,1 Cave way,Gotham City,NY,9095,430,\n") n1003 b'2'
      (codes "000,150,20,2002,10,1,") refl refl zeroed no_billing (no_billing ∷ []) items
      (no_item ∷ []) no_item stock (no_product ∷ []) no_product [] [] (no_client ∷ no_client ∷ [])
      wayne no_client (wayne_bill ∷ []) (no_billing ∷ no_billing ∷ []) no_billing (wayne_order ∷ [])
      (no_customer_order ∷ no_customer_order ∷ []) no_customer_order (product_text left)
      (customer_order_text
        (wayne_order ∷ order_row (pos 7000) wayne (item (pos 2000) (pos 150) (pos 20)) ∷ []))
      request-items (refl, (refl, tt)) refl shop-products shop-buyers shop-bills shop-orders tt refl
      refl stock-Distinct (omega arith, (omega arith, tt)) items-DistinctItems
      (omega arith, (omega arith, tt)) items-IsPurchase (omega arith) (omega arith) accepted
      left-saved orders-saved one_bill
      (
        bill-IsStored (pos 3000) (pos 430) (omega arith, omega arith) (omega arith, omega arith),
        (
          bill-IsStored (pos 7000) (pos 3010) (omega arith, omega arith) (omega arith, omega arith),
          tt,
        ),
      )
      (omega arith) (omega arith) refl refl (omega arith)
