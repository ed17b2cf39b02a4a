-- ===== src/Tests/Returns.antt =====
-- The theorem on `buyerModifiesOrder` at a message and files that meet its hypotheses.
use group_a_cs.Base.{◌≡◌, refl, some, none, true, List, [], ◌∷◌, ◌++◌, Bytes, codes}
use group_a_cs.Base.Int.{pos, ◌-ℤ◌}
use group_a_cs.Convert.{int_to_char_array}
use group_a_cs.Libc.{atoi, strtok, fgets_lines}
use group_a_cs.Tables.{
  BillingInfo, CustomerOrderInfo, load_billing_info, load_customer_order_info, next_text, next_int,
}
use group_a_cs.Tables.Save.{write_back_billing_struct, write_back_customer_order_struct}
use group_a_cs.Tables.RoundTrip.Bills.{no_billing, billing_text}
use group_a_cs.Tables.RoundTrip.Orders.{no_customer_order, customer_order_text}
use group_a_cs.World.{Files, done, quiet}
use group_a_cs.World.Rows.{overwrite}
use group_a_cs.World.Rows.Prefix.{Loaded}
use group_a_cs.Catalog.Request.{IsNumber}
use group_a_cs.Ordering.{deduct_cost}
use group_a_cs.Ordering.Complete.{buyer_modifies_order}
use group_a_cs.Ordering.Complete.Returns.{buyer_modifies_order_lem}
use group_a_cs.Tests.Evidence.{number}
use group_a_cs.Tests.Samples.{zeroed, wayne_bill, wayne_order}

-- Apples and hooks of one order, and hooks of another.
abbrev apples_row : CustomerOrderInfo
apples_row = record wayne_order {
  product_id = pos 2002;
  quantity_purchased = pos 30;
  total_price = pos 30;
}

abbrev other_row : CustomerOrderInfo
other_row = record wayne_order {
  order_id = pos 3001;
  quantity_purchased = pos 5;
  total_price = pos 100;
}

abbrev order_file : Bytes
order_file =
    codes "3000,2002,30,Bruce,Wayne,1 Cave way,Gotham City,NY,9095,30,\n"
    ++ codes "3000,2000,20,Bruce,Wayne,1 Cave way,Gotham City,NY,9095,400,\n"
    ++ codes "3001,2000,5,Bruce,Wayne,1 Cave way,Gotham City,NY,9095,100,"

abbrev sales : Files
sales = record {
  customer_info = none;
  seller_info = none;
  product_info = none;
  billing_info = some (codes "3000,1003,Bruce,Wayne,1 Cave way,Gotham City,NY,9095,430,");
  customer_order = some order_file;
}

n3000 : IsNumber (codes "3000") (pos 3000)
unfolding atoi
n3000 = number (codes "3000") (pos 3000) refl refl

n2000 : IsNumber (codes "2000") (pos 2000)
unfolding atoi
n2000 = number (codes "2000") (pos 2000) refl refl

order_file-Loaded :
    Loaded CustomerOrderInfo.product_id
      (load_customer_order_info (some order_file) zeroed.customer_order_info)
      (apples_row ∷ wayne_order ∷ other_row ∷ [])
      no_customer_order
      []
unfolding load_customer_order_info fgets_lines strtok atoi next_text next_int
order_file-Loaded = record { loaded = refl; used = (refl, (refl, (refl, tt))); ended = refl }

sales-loaded :
    load_billing_info sales.billing_info zeroed.billing_info
    ≡ some (true, wayne_bill ∷ no_billing ∷ no_billing ∷ no_billing ∷ [])
unfolding load_billing_info fgets_lines strtok atoi next_text next_int
sales-loaded = refl

abbrev less_bill : BillingInfo
less_bill = record wayne_bill { total_order_cost = pos 400 }

less_bill-deducted : deduct_cost (pos 30) wayne_bill ≡ some less_bill
unfolding deduct_cost ◌-ℤ◌
less_bill-deducted = refl

abbrev kept_rows : List CustomerOrderInfo
kept_rows = apples_row ∷ no_customer_order ∷ no_customer_order ∷ no_customer_order ∷ []

kept_rows-overwritten :
    overwrite (apples_row ∷ []) zeroed.modified_customer_order_info ≡ some kept_rows
unfolding overwrite
kept_rows-overwritten = refl

kept_rows-saved :
    write_back_customer_order_struct [] (some order_file) kept_rows
    ≡ some (customer_order_text (apples_row ∷ no_customer_order ∷ no_customer_order ∷ []))
unfolding write_back_customer_order_struct int_to_char_array
kept_rows-saved = refl

less_bill-saved :
    write_back_billing_struct [] sales.billing_info
      (less_bill ∷ no_billing ∷ no_billing ∷ no_billing ∷ [])
    ≡ some (billing_text (less_bill ∷ []))
unfolding write_back_billing_struct int_to_char_array
less_bill-saved = refl

buyer_modifies_order_lem_example :
    buyer_modifies_order zeroed (codes "3000,2000,") (quiet sales [] [])
    ≡ done tt (
        quiet
          (record sales {
            billing_info = some (billing_text (less_bill ∷ []));
            customer_order =
                some
                  (customer_order_text (apples_row ∷ no_customer_order ∷ no_customer_order ∷ []));
          })
          []
          [])
buyer_modifies_order_lem_example =
    buyer_modifies_order_lem zeroed sales [] [] [] [] (wayne_order ∷ other_row ∷ []) [] kept_rows
      apples_row no_customer_order [] (no_billing ∷ no_billing ∷ no_billing ∷ []) wayne_bill
      less_bill (customer_order_text (apples_row ∷ no_customer_order ∷ no_customer_order ∷ []))
      (billing_text (less_bill ∷ [])) n3000 n2000 order_file-Loaded sales-loaded tt refl tt refl
      less_bill-deducted kept_rows-overwritten kept_rows-saved less_bill-saved
