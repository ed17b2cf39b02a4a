-- ===== src/Ordering/Complete/Replies.antt =====
-- `completeAnOrder` from the message to the new files and the reply.
use group_a_cs.Base.{
  Bool, ℕ, ◌≤◌, ◌≡◌, true, false, some, List, [], ◌∷◌, ◌++◌, append_assoc, Bytes, All, length, drop,
  map,
}
use group_a_cs.Base.Int.{ℤ, eq_ℤ, is_zero, ltb_ℤ, int_max}
use group_a_cs.Libc.{strtok_rest}
use group_a_cs.Libc.Tokens.{strtok-append}
use group_a_cs.Tables.{
  ClientInfo, ProductInfo, BillingInfo, CustomerOrderInfo, ItemOrder, load_client_info,
  load_product_info, load_billing_info, load_customer_order_info,
}
use group_a_cs.Tables.Save.{
  write_back_product_struct, write_back_billing_struct, write_back_customer_order_struct,
}
use group_a_cs.World.{Locals, Files, product, billing, order, done, quiet, generate_uid}
use group_a_cs.World.Rows.{get_row}
use group_a_cs.World.Rows.Prefix.{InUse, Absent, Loaded, find_row-append, get_row-append}
use group_a_cs.Catalog.{confirmation, invalid}
use group_a_cs.Catalog.Request.{IsNumber}
use group_a_cs.Ordering.{extract_buyer_order, validate_buyer_order, find_buyer_in_client_info}
use group_a_cs.Ordering.Complete.{complete_an_order}
use group_a_cs.Ordering.Sold.{AllInStock, Distinct, DistinctItems, IsQuantity, sold_all}
use group_a_cs.Ordering.Stock.{new_product_quantity-validated}
use group_a_cs.Ordering.Records.{
  IsPurchase, total, bill, order_row, order_to_billing_info-bill, order_to_customer_order-rows,
}

module _ (v : Locals) (files : Files) (deleted : List ℤ) (sent : List Bytes) {b : Bytes}
    {buyer_id : ℤ} (is_buyer : IsNumber b buyer_id) (c : ℕ) (items : Bytes) where
  -- An order that `validateBuyerOrder` does not accept gets the refusal as its only reply; no file
  -- changes, and every semaphore is free again.
  pub complete_an_order-invalid :
      (order_list : List ItemOrder) (found : Bool) (p_list : List ProductInfo)
      → extract_buyer_order ((c ∷ items) ++ b'\n' ∷ []) v.order_list ≡ some order_list
      → load_product_info files.product_info v.product_list ≡ some (found, p_list)
      → validate_buyer_order order_list p_list ≡ some false
      → complete_an_order v (b ++ b',' ∷ (c ∷ items)) (quiet files deleted sent)
        ≡ done tt (quiet files deleted (sent ++ invalid ∷ []))
  unfolding complete_an_order strtok_rest
  complete_an_order-invalid order_list found p_list extracted loaded refused =
      rw (strtok-append b (c ∷ items) is_buyer.field.not_empty is_buyer.field.no_comma)
        (rw is_buyer.value (rw extracted (rw loaded (rw refused))))

  found_row :
      (before : List ClientInfo) (buyer_data : ClientInfo) (after : List ClientInfo)
      (uz : ClientInfo) (urest : List ClientInfo)
      → Absent ClientInfo.uuid buyer_id before
      → eq_ℤ buyer_data.uuid buyer_id ≡ true
      → (find_buyer_in_client_info buyer_id ((before ++ buyer_data ∷ after) ++ uz ∷ urest)
          ≡ some (length before))
        × (get_row (length before) ((before ++ buyer_data ∷ after) ++ uz ∷ urest) ≡ some buyer_data)
  unfolding find_buyer_in_client_info
  found_row before buyer_data after uz urest absent here = (
    rw append_assoc (
        find_row-append ClientInfo.uuid buyer_id before buyer_data (after ++ uz ∷ urest) absent
          here),
    rw append_assoc (get_row-append before buyer_data (after ++ uz ∷ urest)),
  )

  -- An accepted order of distinct products, by a buyer of the table, is carried out in full: the
  -- write-backs get the product table with exactly the ordered quantities taken from the stock, the
  -- billing table with one new bill for the total, and the order table with a row for each item, the
  -- last two under one order id; the confirmation is the only reply, and every semaphore is free
  -- again. Quantities and prices are not negative and the total is an `int`; the tables are in use up
  -- to a free row, and the text that each write-back returns is the new file.
  pub complete_an_order_confirmed :
      (os orest : List ItemOrder) (y : ItemOrder) (ps prest : List ProductInfo) (pz : ProductInfo)
      (before after urest : List ClientInfo) (buyer_data uz : ClientInfo)
      (bs brest : List BillingInfo) (bz : BillingInfo) (cs crest : List CustomerOrderInfo)
      (cz : CustomerOrderInfo) (new_products new_bills new_orders : Bytes)
      → extract_buyer_order ((c ∷ items) ++ b'\n' ∷ []) v.order_list ≡ some (os ++ y ∷ orest)
      → InUse ItemOrder.product_id os
      → is_zero y.product_id ≡ true
      → Loaded ProductInfo.product_id
          (load_product_info files.product_info v.product_list)
          ps
          pz
          prest
      → Loaded ClientInfo.uuid
          (load_client_info files.customer_info v.client_db)
          (before ++ buyer_data ∷ after)
          uz
          urest
      → Loaded BillingInfo.order_id
          (load_billing_info files.billing_info v.billing_info)
          bs
          bz
          brest
      → Loaded CustomerOrderInfo.order_id
          (load_customer_order_info files.customer_order v.customer_order_info)
          cs
          cz
          crest
      → Absent ClientInfo.uuid buyer_id before
      → eq_ℤ buyer_data.uuid buyer_id ≡ true
      → ltb_ℤ pz.quantity y.quantity ≡ false
      → Distinct ps
      → AllInStock ps
      → DistinctItems os
      → All (λ (o : ItemOrder). IsQuantity o.quantity) os
      → All IsPurchase os
      → total os ≤ int_max
      → length os ≤ length (cz ∷ crest)
      → validate_buyer_order (os ++ y ∷ orest) (ps ++ pz ∷ prest) ≡ some true
      → write_back_product_struct
          (v.put_back product)
          files.product_info
          (sold_all os ps ++ pz ∷ prest)
        ≡ some new_products
      → write_back_billing_struct
          (v.put_back billing)
          files.billing_info
          (bs ++ bill (generate_uid v) buyer_data (ℤ.pos (total os)) ∷ brest)
        ≡ some new_bills
      → write_back_customer_order_struct
          (v.put_back order)
          files.customer_order
          (cs ++ (map (order_row (generate_uid v) buyer_data) os ++ drop (length os) (cz ∷ crest)))
        ≡ some new_orders
      → complete_an_order v (b ++ b',' ∷ (c ∷ items)) (quiet files deleted sent)
        ≡ done tt (
            quiet
              (record files {
                product_info = some new_products;
                billing_info = some new_bills;
                customer_order = some new_orders;
              })
              deleted
              (sent ++ confirmation ∷ []))
  unfolding complete_an_order strtok_rest
  complete_an_order_confirmed os orest y ps prest pz before after urest buyer_data uz bs brest bz cs
        crest cz np nb nc extracted uo hy lp lu lb lc absent here fits d st di q pu sum room valid
        sp sb sc =
      let found = found_row before buyer_data after uz urest absent here in
      let stock =
        (new_product_quantity-validated os orest y ps prest pz uo lp.used hy lp.ended fits d st di q
          valid).0 in
      let billed =
        order_to_billing_info-bill (generate_uid v) buyer_data os y orest bs bz brest uo hy pu sum
          lb.used lb.ended in
      let ordered =
        order_to_customer_order-rows (generate_uid v) buyer_data os y orest cs cz crest uo hy pu sum
          lc.used lc.ended room in
      rw (strtok-append b (c ∷ items) is_buyer.field.not_empty is_buyer.field.no_comma) (
        rw is_buyer.value (
          rw extracted (
            rw lp.loaded (
              rw valid (
                rw lu.loaded (
                  rw lb.loaded (
                    rw lc.loaded (
                      rw found.0 (
                        rw stock
                          (rw sp (rw found.1 (rw billed (rw sb (rw ordered (rw sc)))))))))))))))
