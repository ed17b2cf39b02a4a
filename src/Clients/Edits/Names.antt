-- ===== src/Clients/Edits/Names.antt =====
-- `clientEditsInfo` with the sub-command `[NAME]`, from the message to the new files and the reply.
use group_a_cs.Base.{
  ◌≡◌, true, some, Bool, Bool-cases, inl, inr, List, [], ◌∷◌, ◌++◌, append_assoc, refl, Bytes,
  codes, length, ltb-true,
}
use group_a_cs.Base.Int.{ℤ, eq_ℤ, is_zero}
use group_a_cs.Libc.{strtok, strtok_rest, strstr}
use group_a_cs.Libc.Tokens.{strtok-append}
use group_a_cs.Tables.{
  ClientInfo, BillingInfo, CustomerOrderInfo, load_client_info, load_billing_info,
  load_customer_order_info,
}
use group_a_cs.Tables.Save.{
  write_back_client_struct, write_back_billing_struct, write_back_customer_order_struct,
}
use group_a_cs.Tables.RoundTrip.Fields.{IsText}
use group_a_cs.World.{Locals, Files, buyer, seller, billing, order, done, quiet}
use group_a_cs.World.Rows.Prefix.{
  Absent, InUse, Loaded, keep, change, find_row-append, modify_row-append, select_rows-append,
  change_rows-append,
}
use group_a_cs.Catalog.{confirmation}
use group_a_cs.Catalog.Request.{IsNumber}
use group_a_cs.Clients.Edits.{
  seller_edits_name, buyer_edits_name, client_edits_info, change_buyer_orders, change_orders,
  name_tokens,
}

strtok_rest-append : (f r : Bytes) → strtok_rest (f ++ b',' ∷ r) ≡ some (f ++ b',' ∷ r)
unfolding strtok_rest
strtok_rest-append [] r = refl
strtok_rest-append (c ∷ f) r = refl

-- The orders after the loops over the bills of a buyer.
abbrev pub changed_orders :
    List BillingInfo
    → (CustomerOrderInfo → CustomerOrderInfo)
    → List CustomerOrderInfo
    → List CustomerOrderInfo
changed_orders [] f rows = rows
changed_orders (b ∷ bs) f rows =
    changed_orders bs f (change (λ (r : CustomerOrderInfo). eq_ℤ r.order_id b.order_id) f rows)

-- A change that keeps the order ids keeps the rows in use.
change-InUse :
    (test : CustomerOrderInfo → Bool) (f : CustomerOrderInfo → CustomerOrderInfo)
    (rows : List CustomerOrderInfo)
    → ((r : CustomerOrderInfo) → (f r).order_id ≡ r.order_id)
    → InUse CustomerOrderInfo.order_id rows
    → InUse CustomerOrderInfo.order_id (change test f rows)
change-InUse test f [] same h = tt
change-InUse test f (r ∷ rows) same h = (
  elim (Bool-cases (test r)) [ inl e ↦ rw e (rw (same r) h.0) | inr e ↦ rw e h.0 ],
  change-InUse test f rows same h.1,
)

change_orders-append :
    (bs : List BillingInfo) (f : CustomerOrderInfo → CustomerOrderInfo)
    (rows : List CustomerOrderInfo) (z : CustomerOrderInfo) (rest : List CustomerOrderInfo)
    → ((r : CustomerOrderInfo) → (f r).order_id ≡ r.order_id)
    → InUse CustomerOrderInfo.order_id rows
    → is_zero z.order_id ≡ true
    → change_orders bs f (rows ++ z ∷ rest) ≡ some (changed_orders bs f rows ++ z ∷ rest)
unfolding change_orders
change_orders-append [] f rows z rest same h e = refl
change_orders-append (b ∷ bs) f rows z rest same h e =
    let test = λ (r : CustomerOrderInfo). eq_ℤ r.order_id b.order_id in
    rw (change_rows-append CustomerOrderInfo.order_id test f rows z rest h e, change_orders)
      (change_orders-append bs f (change test f rows) z rest same (change-InUse test f rows same h)
        e)

module _ (v : Locals) (files : Files) (deleted : List ℤ) (sent : List Bytes) {d first last : Bytes}
    {id : ℤ} (tail : Bytes) (is_id : IsNumber d id) (is_first : IsText first)
    (is_last : IsText last) (pre : List ClientInfo) (r : ClientInfo) (post : List ClientInfo)
    (z : ClientInfo) (rest : List ClientInfo) (here : eq_ℤ r.uuid id ≡ true)
    (absent : Absent ClientInfo.uuid id pre) where
  abbrev renamed : ClientInfo
  renamed = record r { first_name = first; last_name = last }

  -- A seller who is in the table is renamed: the write-back gets the table in which only the two names
  -- of this seller's row have changed, the reply is the confirmation, no other file changes, and every
  -- semaphore is free again. The id and the two names stand behind `[SELLER]` and `[NAME]`.
  pub seller_edits_name_lem :
      (new : Bytes)
      → Loaded ClientInfo.uuid
          (load_client_info files.seller_info v.client_db)
          (pre ++ r ∷ post)
          z
          rest
      → write_back_client_struct
          (v.put_back seller)
          files.seller_info
          (pre ++ renamed ∷ (post ++ z ∷ rest))
        ≡ some new
      → client_edits_info v
          (codes "[SELLER],"
            ++ (d ++ b',' ∷ (codes "[NAME]," ++ (first ++ b',' ∷ (last ++ b',' ∷ tail)))))
          (quiet files deleted sent)
        ≡ done tt
            (quiet (record files { seller_info = some new }) deleted (sent ++ confirmation ∷ []))
  unfolding client_edits_info seller_edits_name name_tokens strtok strstr
  seller_edits_name_lem new loads saved =
      rw
        (strtok-append d (codes "[NAME]," ++ (first ++ b',' ∷ (last ++ b',' ∷ tail)))
          is_id.field.not_empty is_id.field.no_comma)
        (rw is_id.value (
          rw (strtok_rest-append first (last ++ b',' ∷ tail)) (
            rw loads.loaded (
              rw append_assoc (
                rw (find_row-append ClientInfo.uuid id pre r (post ++ z ∷ rest) absent here) (
                  rw
                    (strtok-append first (last ++ b',' ∷ tail) is_first.field.not_empty
                      is_first.field.no_comma)
                    (rw (ltb-true (length first) 20 is_first.fits) (
                      rw (strtok-append last tail is_last.field.not_empty is_last.field.no_comma) (
                        rw (ltb-true (length last) 20 is_last.fits) (
                          rw
                            (modify_row-append pre r renamed (post ++ z ∷ rest)
                              (λ x. some (record x { first_name = first; last_name = last })) refl)
                            (rw saved)))))))))))

  -- A buyer who is in the table is renamed in three tables: the write-backs get the client table in
  -- which only the two names of this buyer's row have changed, the billing table in which the names
  -- have changed on exactly the bills of this buyer, and the order table in which they have changed on
  -- the rows of the orders of these bills. The reply is the confirmation, and every semaphore is free
  -- again.
  pub buyer_edits_name_lem :
      (bs brest : List BillingInfo) (bz : BillingInfo) (cs crest : List CustomerOrderInfo)
      (cz : CustomerOrderInfo) (new_clients new_bills new_orders : Bytes)
      → Loaded ClientInfo.uuid
          (load_client_info files.customer_info v.client_db)
          (pre ++ r ∷ post)
          z
          rest
      → Loaded BillingInfo.order_id
          (load_billing_info files.billing_info v.billing_info)
          bs
          bz
          brest
      → Loaded CustomerOrderInfo.order_id
          (load_customer_order_info files.customer_order v.customer_order_info)
          cs
          cz
          crest
      → write_back_client_struct
          (v.put_back buyer)
          files.customer_info
          (pre ++ renamed ∷ (post ++ z ∷ rest))
        ≡ some new_clients
      → write_back_billing_struct (v.put_back billing) files.billing_info (
          change
            (λ (b : BillingInfo). eq_ℤ b.customer_id id)
            (λ b. record b { first_name = first; last_name = last })
            bs
          ++ bz ∷ brest)
        ≡ some new_bills
      → write_back_customer_order_struct (v.put_back order) files.customer_order (
          changed_orders
            (keep (λ (b : BillingInfo). eq_ℤ b.customer_id id) bs)
            (λ o. record o { first_name = first; last_name = last })
            cs
          ++ cz ∷ crest)
        ≡ some new_orders
      → client_edits_info v
          (codes "[BUYER],"
            ++ (d ++ b',' ∷ (codes "[NAME]," ++ (first ++ b',' ∷ (last ++ b',' ∷ tail)))))
          (quiet files deleted sent)
        ≡ done tt (
            quiet
              (record files {
                customer_info = some new_clients;
                billing_info = some new_bills;
                customer_order = some new_orders;
              })
              deleted
              (sent ++ confirmation ∷ []))
  unfolding client_edits_info buyer_edits_name change_buyer_orders name_tokens strtok strstr
  buyer_edits_name_lem bs brest bz cs crest cz nc nb new_orders lu lb lc su sb so =
      rw
        (strtok-append d (codes "[NAME]," ++ (first ++ b',' ∷ (last ++ b',' ∷ tail)))
          is_id.field.not_empty is_id.field.no_comma)
        (rw is_id.value (
          rw (strtok_rest-append first (last ++ b',' ∷ tail)) (
            rw lu.loaded (
              rw append_assoc (
                rw (find_row-append ClientInfo.uuid id pre r (post ++ z ∷ rest) absent here) (
                  rw
                    (strtok-append first (last ++ b',' ∷ tail) is_first.field.not_empty
                      is_first.field.no_comma)
                    (rw (ltb-true (length first) 20 is_first.fits) (
                      rw (strtok-append last tail is_last.field.not_empty is_last.field.no_comma) (
                        rw (ltb-true (length last) 20 is_last.fits) (
                          rw
                            (modify_row-append pre r renamed (post ++ z ∷ rest)
                              (λ x. some (record x { first_name = first; last_name = last })) refl)
                            (rw su (
                              rw lb.loaded (
                                rw
                                  (select_rows-append BillingInfo.order_id
                                    (λ (b : BillingInfo). eq_ℤ b.customer_id id) bs bz brest lb.used
                                    lb.ended)
                                  (rw
                                    (change_rows-append BillingInfo.order_id
                                      (λ (b : BillingInfo). eq_ℤ b.customer_id id)
                                      (λ b. record b { first_name = first; last_name = last }) bs bz
                                      brest lb.used lb.ended)
                                    (rw sb (
                                      rw lc.loaded (
                                        rw
                                          (change_orders-append
                                            (keep (λ (b : BillingInfo). eq_ℤ b.customer_id id) bs)
                                            (λ o. record o { first_name = first; last_name = last })
                                            cs cz crest (λ o. refl) lc.used lc.ended)
                                          (rw so))))))))))))))))))
