-- ===== src/Tests/Sessions.antt =====
-- Messages that the server handles one after the other, on concrete files.
use group_a_cs.Base.{◌≡◌, ◌+◌, refl, true, some, codes, [], ◌∷◌, Bytes, arith}
use group_a_cs.Convert.{int_to_char_array}
use group_a_cs.Libc.{sprintf_int}
use group_a_cs.Tables.RoundTrip.Products.{no_product}
use group_a_cs.Tables.{load_product_info}
use group_a_cs.Tables.Save.{count_newlines}
use group_a_cs.Tables.RoundTrip.Clients.{IsStoredClient, client_text, no_client}
use group_a_cs.Tables.RoundTrip.Bills.{billing_text, no_billing}
use group_a_cs.Tables.RoundTrip.Orders.{customer_order_text, no_customer_order}
use group_a_cs.Views
use group_a_cs.World.{done, quiet, ◌>>=◌}
use group_a_cs.World.Rows.{concat_rows}
use group_a_cs.Catalog.{product_line, confirmation}
use group_a_cs.Server.{execute_task_on_server}
use group_a_cs.Server.Sessions.NewProduct.{new_product_viewed}
use group_a_cs.Server.Sessions.NewName.{new_name_viewed}
use group_a_cs.Tests.Clients.{
  client_line, town, n1003, clients-Loaded, bills-Loaded, orders-Loaded, dick, dick_bill,
  dick_order, dick_bill-saved, dick_order-saved,
}
use group_a_cs.Tests.Evidence.{text}
use group_a_cs.Tests.Tables.{hook-IsStored}
use group_a_cs.Tests.Samples.{zeroed, wayne, wayne_bill, wayne_order, hook, apples, two_lines, shop}
use group_a_cs.Tests.Catalog.{
  n7, n1000, n2000, two_lines-Loaded, two_lines-lines, new_rope, rope, rope-IsStored,
  apples-IsStored,
}

new_product_viewed_example :
    (new : Bytes) × ((execute_task_on_server new_rope (codes "[NEW_PRODUCT],1000,Rope,7,2000,")
          >>= λ _. execute_task_on_server zeroed (codes "[VIEW_PRODUCTS],[BUYER],"))
        (quiet (shop two_lines) [] [])
      ≡ done tt (
          quiet
            (shop new)
            []
            (confirmation ∷ concat_rows product_line (hook ∷ apples ∷ rope ∷ []) ∷ [])))
    × (load_product_info (some new) zeroed.product_list
        ≡ some (true, hook ∷ apples ∷ rope ∷ no_product ∷ []))
unfolding int_to_char_array concat_rows product_line sprintf_int
new_product_viewed_example =
    new_product_viewed new_rope (shop two_lines) [] [] two_lines (hook ∷ apples ∷ []) no_product
      (no_product ∷ []) refl two_lines-Loaded n1000 (text (codes "Rope") refl refl) n7 n2000 refl
      zeroed no_product [] two_lines-lines (hook-IsStored, (apples-IsStored, tt)) rope-IsStored
      (omega arith) (omega arith) (omega arith) refl refl

one_line : count_newlines client_line + 1 ≡ 1
unfolding count_newlines
one_line = refl

dick-IsStored : IsStoredClient dick
dick-IsStored = record {
  uuid = (omega arith, omega arith);
  first_name = text (codes "Dick") refl refl;
  last_name = text (codes "Grayson") refl refl;
  phone_number = text (codes "(569)653-0303") refl refl;
  street_address = text (codes "1 Cave way") refl refl;
  city = text (codes "Gotham City") refl refl;
  state = text (codes "NY") refl refl;
  zip_code = text (codes "9095") refl refl;
}

new_name_viewed_example :
    (execute_task_on_server zeroed (codes "[EDIT_INFO],[BUYER],1003,[NAME],Dick,Grayson,") >>= λ _.
    execute_task_on_server zeroed (codes "[VIEW_BILLING],1003,"))
      (quiet (town client_line) [] [])
    ≡ done tt (
        quiet
          (record (town client_line) {
            customer_info = some (client_text (dick ∷ []));
            billing_info = some (billing_text (dick_bill ∷ []));
            customer_order = some (customer_order_text (dick_order ∷ []));
          })
          []
          (confirmation
            ∷ codes "1003,Dick,Grayson,(569)653-0303,1 Cave way,Gotham City,NY,9095,\n"
            ∷ []))
unfolding Views.client_line sprintf_int int_to_char_array
new_name_viewed_example =
    new_name_viewed zeroed (town client_line) [] [] client_line n1003
      (text (codes "Dick") refl refl) (text (codes "Grayson") refl refl) [] wayne [] no_client
      (no_client ∷ no_client ∷ []) refl tt tt refl refl clients-Loaded zeroed no_client
      (no_client ∷ no_client ∷ []) (wayne_bill ∷ []) (no_billing ∷ no_billing ∷ []) no_billing
      (wayne_order ∷ []) (no_customer_order ∷ no_customer_order ∷ []) no_customer_order
      (billing_text (dick_bill ∷ [])) (customer_order_text (dick_order ∷ [])) bills-Loaded
      orders-Loaded dick_bill-saved dick_order-saved one_line (dick-IsStored, tt) (omega arith)
      (omega arith) (omega arith) refl refl
