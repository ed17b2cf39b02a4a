-- ===== src/Ordering/Complete/Returns.antt =====
-- `buyerModifiesOrder` from the message to the new files.
use group_a_cs.Base.{◌≡◌, true, not, some, List, ◌∷◌, ◌++◌, append_assoc, Bytes, length}
use group_a_cs.Base.Int.{ℤ, eq_ℤ}
use group_a_cs.Libc.Tokens.{strtok-append}
use group_a_cs.Tables.{BillingInfo, CustomerOrderInfo, load_billing_info, load_customer_order_info}
use group_a_cs.Tables.Save.{write_back_billing_struct, write_back_customer_order_struct}
use group_a_cs.World.{Locals, Files, billing, order, done, quiet}
use group_a_cs.World.Rows.{find_row, get_row, overwrite}
use group_a_cs.World.Rows.Prefix.{
  Absent, Loaded, keep, find_row-append, get_row-append, modify_row-append, select_rows-append,
}
use group_a_cs.Catalog.Request.{IsNumber}
use group_a_cs.Ordering.{deduct_cost}
use group_a_cs.Ordering.Complete.{buyer_modifies_order}

-- The order table loses the rows of the returned product in every order, not only in the one that
-- the message names; what is taken off the bill is the price of the first row of the named order,
-- whichever product that row is of; and no reply is sent. Every semaphore is free again. The array
-- that the write-back gets has behind the kept rows what the uninitialised
-- `modifiedCustomerOrderInfo` holds.
pub buyer_modifies_order_lem :
    (v : Locals) (files : Files) (deleted : List ℤ) (sent : List Bytes) {o p : Bytes}
    {order_id product_id : ℤ} (tail : Bytes) (pre post crest modified : List CustomerOrderInfo)
    (item cz : CustomerOrderInfo) (bpre bpost : List BillingInfo) (b b' : BillingInfo)
    (new_orders new_bills : Bytes)
    → IsNumber o order_id
    → IsNumber p product_id
    → Loaded CustomerOrderInfo.product_id
        (load_customer_order_info files.customer_order v.customer_order_info)
        (pre ++ item ∷ post)
        cz
        crest
    → load_billing_info files.billing_info v.billing_info ≡ some (true, bpre ++ b ∷ bpost)
    → Absent CustomerOrderInfo.order_id order_id pre
    → eq_ℤ item.order_id order_id ≡ true
    → Absent BillingInfo.order_id order_id bpre
    → eq_ℤ b.order_id order_id ≡ true
    → deduct_cost item.total_price b ≡ some b'
    → overwrite
        (keep (λ (r : CustomerOrderInfo). not (eq_ℤ r.product_id product_id)) (pre ++ item ∷ post))
        v.modified_customer_order_info
      ≡ some modified
    → write_back_customer_order_struct (v.put_back order) files.customer_order modified
      ≡ some new_orders
    → write_back_billing_struct (v.put_back billing) files.billing_info (bpre ++ b' ∷ bpost)
      ≡ some new_bills
    → buyer_modifies_order v (o ++ b',' ∷ (p ++ b',' ∷ tail)) (quiet files deleted sent)
      ≡ done tt (
          quiet
            (record files { billing_info = some new_bills; customer_order = some new_orders })
            deleted
            sent)
unfolding buyer_modifies_order
buyer_modifies_order_lem v files deleted sent {o} {p} {order_id} {product_id} tail pre post crest
      modified item cz bpre bpost b b' new_orders new_bills is_order is_product lc lb absent here
      babsent bhere deducted kept so sb =
    rw (strtok-append o (p ++ b',' ∷ tail) is_order.field.not_empty is_order.field.no_comma) (
      rw is_order.value (
        rw (strtok-append p tail is_product.field.not_empty is_product.field.no_comma) (
          rw is_product.value (
            rw lc.loaded (
              rw lb (
                rw found (
                  rw row (
                    rw
                      (select_rows-append CustomerOrderInfo.product_id
                        (λ (r : CustomerOrderInfo). not (eq_ℤ r.product_id product_id))
                        (pre ++ item ∷ post) cz crest lc.used lc.ended)
                      (rw kept (
                        rw so (
                          rw
                            (find_row-append BillingInfo.order_id order_id bpre b bpost babsent
                              bhere)
                            (rw
                              (modify_row-append bpre b b' bpost (deduct_cost item.total_price)
                                deducted)
                              (rw sb)))))))))))))
  where
    found :
        find_row CustomerOrderInfo.order_id order_id ((pre ++ item ∷ post) ++ cz ∷ crest)
        ≡ some (length pre)
    found = rw append_assoc (
        find_row-append CustomerOrderInfo.order_id order_id pre item (post ++ cz ∷ crest) absent
          here)

    row : get_row (length pre) ((pre ++ item ∷ post) ++ cz ∷ crest) ≡ some item
    row = rw append_assoc (get_row-append pre item (post ++ cz ∷ crest))
