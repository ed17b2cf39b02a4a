-- ===== src/Server/Sessions/NewOrder.antt =====
-- `completeAnOrder`, and `buyerViewsOrder` of the next message.
use group_a_cs.Base.{
  sym, ap, ◌∙◌, refl, ◌+◌, ◌<◌, ◌≢◌, codes, Bool-cases, inl, inr, Bool, ℕ, ◌≤◌, ◌≡◌, true, false,
  some, List, [], ◌∷◌, ◌++◌, append_assoc, Bytes, All, length, drop, map,
}
use group_a_cs.Base.Int.{ℤ, eq_ℤ, is_zero, ltb_ℤ, int_max}
use group_a_cs.Tables.{
  ClientInfo, ProductInfo, BillingInfo, CustomerOrderInfo, ItemOrder, load_client_info,
  load_product_info, load_billing_info, load_customer_order_info,
}
use group_a_cs.Tables.Save.{
  write_back_product_struct, write_back_billing_struct, write_back_customer_order_struct,
}
use group_a_cs.World.{Locals, Files, product, billing, order, done, quiet, generate_uid}
use group_a_cs.World.Rows.Prefix.{InUse, Absent, Loaded}
use group_a_cs.Catalog.{confirmation}
use group_a_cs.Catalog.Request.{IsNumber}
use group_a_cs.Ordering.{extract_buyer_order, validate_buyer_order}
use group_a_cs.Ordering.Complete.{complete_an_order}
use group_a_cs.Ordering.Sold.{AllInStock, Distinct, DistinctItems, IsQuantity, sold_all}
use group_a_cs.Ordering.Records.{IsPurchase, total, bill, order_row}
use group_a_cs.Libc.Tokens.{field-append}
use group_a_cs.Convert.RoundTrip.{is_zero-IsStorable}
use group_a_cs.Tables.Save.{count_newlines}
use group_a_cs.Tables.RoundTrip.Bills.{
  IsStoredBilling, billing_text, write_back_billing_struct-billing_text,
  load_billing_info-billing_text,
}
use group_a_cs.World.{World, msg_buffer_size, ◌>>=◌, and_then}
use group_a_cs.World.Rows.{concat_rows}
use group_a_cs.World.Rows.Prefix.{keep}
use group_a_cs.Views.{billing_line, buyer_views_order}
use group_a_cs.Views.Replies.{buyer_views_order_lem}
use group_a_cs.Ordering.Complete.Replies.{complete_an_order_confirmed}
use group_a_cs.Server.{execute_task_on_server}
use group_a_cs.Server.Dispatch.{complete_order, view_buyer_orders, execute_task_on_server-handler}

order-handled :
    (v : Locals) (b : Bytes) (c : ℕ) (items : Bytes) (w : World)
    → b ≢ []
    → execute_task_on_server v (codes "[COMPLETE_ORDER]," ++ (b ++ b',' ∷ (c ∷ items))) w
      ≡ complete_an_order v (b ++ b',' ∷ (c ∷ items ++ codes "\n")) w
order-handled v [] c items w ne = absurd (ne refl)
order-handled v (x ∷ b) c items w ne =
    execute_task_on_server-handler v complete_order x _ w
    ∙ ap (λ m. complete_an_order v m w) (field-append (x ∷ b) (c ∷ items) (codes "\n") _ refl)

bills-handled :
    (v : Locals) (b : Bytes) (w : World)
    → b ≢ []
    → execute_task_on_server v (codes "[VIEW_BUYER_ORDERS]," ++ (b ++ b',' ∷ [])) w
      ≡ buyer_views_order v (b ++ b',' ∷ codes "\n") w
bills-handled v [] w ne = absurd (ne refl)
bills-handled v (x ∷ b) w ne =
    execute_task_on_server-handler v view_buyer_orders x _ w
    ∙ ap (λ m. buyer_views_order v m w) (field-append (x ∷ b) [] (codes "\n") _ refl)

billing-InUse :
    (rows : List BillingInfo) → All IsStoredBilling rows → InUse BillingInfo.order_id rows
billing-InUse [] h = tt
billing-InUse (r ∷ rows) h = (is_zero-IsStorable r.order_id h.0.order_id, billing-InUse rows h.1)

keep-last :
    (test : BillingInfo → Bool) (rows : List BillingInfo) (r : BillingInfo)
    → test r ≡ true
    → keep test (rows ++ r ∷ []) ≡ keep test rows ++ r ∷ []
keep-last test [] r e = rw e
keep-last test (x ∷ rows) r e = elim (Bool-cases (test x)) [
  | inl t ↦ rw t (ap (λ l. x ∷ l) (keep-last test rows r e))
  | inr t ↦ rw t (keep-last test rows r e)
]

-- The bill of an order, and the bills with it.
abbrev pub new_bill : Locals → ClientInfo → List ItemOrder → BillingInfo
new_bill v buyer_data os = bill (generate_uid v) buyer_data (ℤ.pos (total os))

abbrev pub billed : Locals → ClientInfo → List ItemOrder → List BillingInfo → List BillingInfo
billed v buyer_data os bs = bs ++ new_bill v buyer_data os ∷ []

module _ (v : Locals) (files : Files) (deleted : List ℤ) (sent : List Bytes) (old : Bytes)
    {b : Bytes} {buyer_id : ℤ} (is_buyer : IsNumber b buyer_id) (c : ℕ) (items : Bytes)
    (file : files.billing_info ≡ some old) (clean : v.put_back billing ≡ []) (v' : Locals)
    (z' : BillingInfo) (rest' : List BillingInfo) where
  -- A buyer's order, on a server with free semaphores, is shown on the buyer's bills next: the first
  -- reply is the confirmation, the second the lines of the buyer's old bills and of the new one, which
  -- is for the total of the order; the billing file is the text of the old bills and the new one, the
  -- other write-backs get the reduced stock and the rows of the order, and every semaphore is free
  -- again. The order is of distinct products, is accepted and is by a known buyer, the quantities and prices are not
  -- negative and the total is an `int`; the tables load as rows in use up to a free row; the billing
  -- file has a newline behind each row, the new rows can be stored, in fewer than 1000 bytes, and the
  -- lines fit the reply; the buffer of their write-back is clean, the other two write-backs have a
  -- result, and the table of the second handler has the room and a free row behind it.
  pub new_order_viewed :
      (os orest : List ItemOrder) (y : ItemOrder) (ps prest : List ProductInfo) (pz : ProductInfo)
      (before after urest : List ClientInfo) (buyer_data uz : ClientInfo)
      (bs brest : List BillingInfo) (bz : BillingInfo) (cs crest : List CustomerOrderInfo)
      (cz : CustomerOrderInfo) (new_products new_orders : Bytes)
      → extract_buyer_order ((c ∷ items ++ codes "\n") ++ b'\n' ∷ []) v.order_list
        ≡ some (os ++ y ∷ orest)
      → InUse ItemOrder.product_id os
      → is_zero y.product_id ≡ true
      → Loaded ProductInfo.product_id
          (load_product_info files.product_info v.product_list)
          ps
          pz
          prest
      → Loaded ClientInfo.uuid
          (load_client_info files.customer_info v.client_db)
          (before ++ buyer_data ∷ after)
          uz
          urest
      → Loaded BillingInfo.order_id
          (load_billing_info files.billing_info v.billing_info)
          bs
          bz
          brest
      → Loaded CustomerOrderInfo.order_id
          (load_customer_order_info files.customer_order v.customer_order_info)
          cs
          cz
          crest
      → Absent ClientInfo.uuid buyer_id before
      → eq_ℤ buyer_data.uuid buyer_id ≡ true
      → ltb_ℤ pz.quantity y.quantity ≡ false
      → Distinct ps
      → AllInStock ps
      → DistinctItems os
      → All (λ (o : ItemOrder). IsQuantity o.quantity) os
      → All IsPurchase os
      → total os ≤ int_max
      → length os ≤ length (cz ∷ crest)
      → validate_buyer_order (os ++ y ∷ orest) (ps ++ pz ∷ prest) ≡ some true
      → write_back_product_struct
          (v.put_back product)
          files.product_info
          (sold_all os ps ++ pz ∷ prest)
        ≡ some new_products
      → write_back_customer_order_struct
          (v.put_back order)
          files.customer_order
          (cs ++ (map (order_row (generate_uid v) buyer_data) os ++ drop (length os) (cz ∷ crest)))
        ≡ some new_orders
      → count_newlines old + 1 ≡ length (billed v buyer_data os bs)
      → All IsStoredBilling (billed v buyer_data os bs)
      → length (billing_text (billed v buyer_data os bs)) < 1000
      → length (billed v buyer_data os bs) ≤ length v'.billing_info
      → drop (length (billed v buyer_data os bs)) v'.billing_info ≡ z' ∷ rest'
      → is_zero z'.order_id ≡ true
      → length (
          concat_rows billing_line
            (keep (λ r. eq_ℤ r.customer_id buyer_id) bs ++ new_bill v buyer_data os ∷ []))
        < msg_buffer_size
      → (execute_task_on_server v (codes "[COMPLETE_ORDER]," ++ (b ++ b',' ∷ (c ∷ items))) >>= λ _.
            execute_task_on_server v' (codes "[VIEW_BUYER_ORDERS]," ++ (b ++ b',' ∷ [])))
          (quiet files deleted sent)
        ≡ done tt (
            quiet
              (record files {
                product_info = some new_products;
                billing_info = some (billing_text (billed v buyer_data os bs));
                customer_order = some new_orders;
              })
              deleted
              ((sent ++ confirmation ∷ [])
                ++ concat_rows billing_line
                    (keep (λ r. eq_ℤ r.customer_id buyer_id) bs ++ new_bill v buyer_data os ∷ [])
                  ∷ []))
  new_order_viewed os orest y ps prest pz before after urest buyer_data uz bs brest bz cs crest cz
        np nc extracted uo hy lp lu lb lc absent here fits d st di q pu sum room valid sp sc lines h
        small space padded free short =
      let row = new_bill v buyer_data os in
      let rows = billed v buyer_data os bs in
      let saved : Files = record files {
        product_info = some np;
        billing_info = some (billing_text rows);
        customer_order = some nc;
      } in
      let written : write_back_billing_struct (v.put_back billing) files.billing_info
            (bs ++ row ∷ brest)
          ≡ some (billing_text rows) =
        rw (clean, file)
          (ap (write_back_billing_struct [] (some old)) (sym (append_assoc bs (row ∷ []) brest))
            ∙ write_back_billing_struct-billing_text old rows brest lines small) in
      let reads : Loaded BillingInfo.order_id
          (load_billing_info (some (billing_text rows)) v'.billing_info) rows z' rest' =
        record {
          loaded =
              load_billing_info-billing_text rows v'.billing_info h space
              ∙ ap (λ l. some (true, rows ++ l)) padded;
          used = billing-InUse rows h;
          ended = free;
        } in
      let mine = keep-last (λ r. eq_ℤ r.customer_id buyer_id) bs row here in
      ap
        (λ o.
          and_then o
            (λ _. execute_task_on_server v' (codes "[VIEW_BUYER_ORDERS]," ++ (b ++ b',' ∷ []))))
        (order-handled v b c items (quiet files deleted sent) is_buyer.field.not_empty
          ∙ complete_an_order_confirmed v files deleted sent is_buyer c (items ++ codes "\n") os
              orest y ps prest pz before after urest buyer_data uz bs brest bz cs crest cz np
              (billing_text rows) nc extracted uo hy lp lu lb lc absent here fits d st di q pu sum
              room valid sp written sc)
      ∙ (bills-handled v' b _ is_buyer.field.not_empty
          ∙ (buyer_views_order_lem v' saved deleted (sent ++ confirmation ∷ []) (codes "\n")
                is_buyer reads (rw mine short)
              ∙ ap
                  (λ l. done tt (
                    quiet saved deleted
                      ((sent ++ confirmation ∷ []) ++ concat_rows billing_line l ∷ [])))
                  mine))
