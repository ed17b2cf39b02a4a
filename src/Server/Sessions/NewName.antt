-- ===== src/Server/Sessions/NewName.antt =====
-- `clientEditsInfo` with a new name, and `buyerViewsInfo` of the next message.
use group_a_cs.Base.{
  sym, append-nil, ◌+◌, ◌<◌, ◌≤◌, ◌≡◌, refl, ap, ◌∙◌, some, List, [], ◌∷◌, ◌++◌, append_assoc,
  Bytes, codes, length, All, drop, ◌≢◌, true,
}
use group_a_cs.Base.Int.{ℤ, eq_ℤ, is_zero}
use group_a_cs.Libc.Tokens.{field-append}
use group_a_cs.Convert.RoundTrip.{is_zero-IsStorable}
use group_a_cs.Tables.{
  ClientInfo, BillingInfo, CustomerOrderInfo, load_client_info, load_billing_info,
  load_customer_order_info,
}
use group_a_cs.Tables.Save.{
  count_newlines, write_back_client_struct, write_back_billing_struct,
  write_back_customer_order_struct,
}
use group_a_cs.Tables.RoundTrip.Fields.{IsText}
use group_a_cs.Tables.RoundTrip.Clients.{
  IsStoredClient, client_text, write_back_client_struct-client_text, load_client_info-client_text,
}
use group_a_cs.World.{
  buyer, billing, order, Locals, Files, World, done, quiet, msg_buffer_size, ◌>>=◌, and_then,
}
use group_a_cs.World.Rows.{concat_rows}
use group_a_cs.World.Rows.Prefix.{InUse, Loaded, Absent, keep, change, keep-Absent}
use group_a_cs.Catalog.{confirmation}
use group_a_cs.Catalog.Request.{IsNumber}
use group_a_cs.Clients.Edits.{client_edits_info}
use group_a_cs.Clients.Edits.Names.{changed_orders, buyer_edits_name_lem}
use group_a_cs.Views.{client_line, buyer_views_info}
use group_a_cs.Views.Replies.{buyer_views_info_lem}
use group_a_cs.Server.{execute_task_on_server}
use group_a_cs.Server.Dispatch.{edit_info, view_billing, execute_task_on_server-handler}

client-InUse : (rows : List ClientInfo) → All IsStoredClient rows → InUse ClientInfo.uuid rows
client-InUse [] h = tt
client-InUse (r ∷ rows) h = (is_zero-IsStorable r.uuid h.0.uuid, client-InUse rows h.1)

name-handled :
    (v : Locals) (d first last : Bytes) (w : World)
    → execute_task_on_server v
        (codes "[EDIT_INFO],[BUYER],"
          ++ (d ++ b',' ∷ (codes "[NAME]," ++ (first ++ b',' ∷ (last ++ b',' ∷ [])))))
        w
      ≡ client_edits_info v
          (codes "[BUYER],"
            ++ (d ++ b',' ∷ (codes "[NAME]," ++ (first ++ b',' ∷ (last ++ b',' ∷ codes "\n")))))
          w
name-handled v d first last w =
    execute_task_on_server-handler v edit_info b'[' _ w
    ∙ ap (λ m. client_edits_info v (codes "[BUYER]," ++ m) w)
        (field-append d _ (codes "\n") _ (
          ap (λ m. codes "[NAME]," ++ m)
            (field-append first _ (codes "\n") _ (field-append last [] (codes "\n") _ refl))))

info-handled :
    (v : Locals) (d : Bytes) (w : World)
    → d ≢ []
    → execute_task_on_server v (codes "[VIEW_BILLING]," ++ (d ++ b',' ∷ [])) w
      ≡ buyer_views_info v (d ++ b',' ∷ codes "\n") w
info-handled v [] w ne = absurd (ne refl)
info-handled v (c ∷ d) w ne =
    execute_task_on_server-handler v view_billing c _ w
    ∙ ap (λ m. buyer_views_info v m w) (field-append (c ∷ d) [] (codes "\n") _ refl)

module _ (v : Locals) (files : Files) (deleted : List ℤ) (sent : List Bytes) (old : Bytes)
    {d first last : Bytes} {id : ℤ} (is_id : IsNumber d id) (is_first : IsText first)
    (is_last : IsText last) (pre : List ClientInfo) (r : ClientInfo) (post : List ClientInfo)
    (z : ClientInfo) (rest : List ClientInfo) (here : eq_ℤ r.uuid id ≡ true)
    (absent : Absent ClientInfo.uuid id pre) (only : Absent ClientInfo.uuid id post)
    (file : files.customer_info ≡ some old) (clean : v.put_back buyer ≡ [])
    (loads : Loaded ClientInfo.uuid
      (load_client_info files.customer_info v.client_db)
      (pre ++ r ∷ post)
      z
      rest)
    (v' : Locals) (z' : ClientInfo) (rest' : List ClientInfo) where
  abbrev renamed : ClientInfo
  renamed = record r { first_name = first; last_name = last }

  abbrev renamed_rows : List ClientInfo
  renamed_rows = pre ++ renamed ∷ post

  renamed-saved :
      count_newlines old + 1 ≡ length renamed_rows
      → length (client_text renamed_rows) < 1000
      → write_back_client_struct
          (v.put_back buyer)
          files.customer_info
          (pre ++ renamed ∷ (post ++ z ∷ rest))
        ≡ some (client_text renamed_rows)
  renamed-saved lines fits =
      rw (clean, file)
        (ap (write_back_client_struct [] (some old))
            (sym (append_assoc pre (renamed ∷ post) (z ∷ rest)))
          ∙ write_back_client_struct-client_text old renamed_rows (z ∷ rest) lines fits)

  renamed-shown :
      concat_rows client_line (keep (λ x. eq_ℤ x.uuid id) renamed_rows) ≡ client_line renamed
  unfolding concat_rows
  renamed-shown =
      ap (concat_rows client_line)
        (keep-Absent ClientInfo.uuid id pre renamed post absent here only)
      ∙ append-nil (client_line renamed)

  renamed-Loaded :
      All IsStoredClient renamed_rows
      → length renamed_rows ≤ length v'.client_db
      → drop (length renamed_rows) v'.client_db ≡ z' ∷ rest'
      → is_zero z'.uuid ≡ true
      → Loaded ClientInfo.uuid
          (load_client_info (some (client_text renamed_rows)) v'.client_db)
          renamed_rows
          z'
          rest'
  renamed-Loaded h room padded free = record {
    loaded =
        load_client_info-client_text renamed_rows v'.client_db h room
        ∙ ap (λ l. some (true, renamed_rows ++ l)) padded;
    used = client-InUse renamed_rows h;
    ended = free;
  }

  -- A buyer's new name, on a server with free semaphores, is what the buyer is shown next: the first
  -- reply is the confirmation and the second the row of the buyer with the new names, the clients' file
  -- is the text of the rows with this one changed, and every semaphore is free again. The three tables
  -- of the edit load as rows in use up to a free row, exactly one row of the clients is the buyer's,
  -- and their file has one newline less than rows; the new rows can be stored, in fewer than 1000
  -- bytes, and the buyer's fits the reply; the buffer of their write-back is clean, the other two
  -- write-backs have a result, and the table of the second handler has the room and a free row behind
  -- it.
  pub new_name_viewed :
      (bs brest : List BillingInfo) (bz : BillingInfo) (cs crest : List CustomerOrderInfo)
      (cz : CustomerOrderInfo) (new_bills new_orders : Bytes)
      → Loaded BillingInfo.order_id
          (load_billing_info files.billing_info v.billing_info)
          bs
          bz
          brest
      → Loaded CustomerOrderInfo.order_id
          (load_customer_order_info files.customer_order v.customer_order_info)
          cs
          cz
          crest
      → write_back_billing_struct (v.put_back billing) files.billing_info (
          change
            (λ (b : BillingInfo). eq_ℤ b.customer_id id)
            (λ b. record b { first_name = first; last_name = last })
            bs
          ++ bz ∷ brest)
        ≡ some new_bills
      → write_back_customer_order_struct (v.put_back order) files.customer_order (
          changed_orders
            (keep (λ (b : BillingInfo). eq_ℤ b.customer_id id) bs)
            (λ o. record o { first_name = first; last_name = last })
            cs
          ++ cz ∷ crest)
        ≡ some new_orders
      → count_newlines old + 1 ≡ length renamed_rows
      → All IsStoredClient renamed_rows
      → length (client_text renamed_rows) < 1000
      → length (client_line renamed) < msg_buffer_size
      → length renamed_rows ≤ length v'.client_db
      → drop (length renamed_rows) v'.client_db ≡ z' ∷ rest'
      → is_zero z'.uuid ≡ true
      → (execute_task_on_server v (
              codes "[EDIT_INFO],[BUYER],"
              ++ (d ++ b',' ∷ (codes "[NAME]," ++ (first ++ b',' ∷ (last ++ b',' ∷ [])))))
            >>= λ _. execute_task_on_server v' (codes "[VIEW_BILLING]," ++ (d ++ b',' ∷ [])))
          (quiet files deleted sent)
        ≡ done tt (
            quiet
              (record files {
                customer_info = some (client_text renamed_rows);
                billing_info = some new_bills;
                customer_order = some new_orders;
              })
              deleted
              ((sent ++ confirmation ∷ []) ++ client_line renamed ∷ []))
  new_name_viewed bs brest bz cs crest cz nb nc lb lc sb so lines h fits short room padded free =
      let view =
        λ (_ : Unit {0}). execute_task_on_server v' (codes "[VIEW_BILLING]," ++ (d ++ b',' ∷ [])) in
      let saved : Files = record files {
        customer_info = some (client_text renamed_rows);
        billing_info = some nb;
        customer_order = some nc;
      } in
      ap (λ o. and_then o view)
        (name-handled v d first last (quiet files deleted sent)
          ∙ buyer_edits_name_lem v files deleted sent (codes "\n") is_id is_first is_last pre r post
              z rest here absent bs brest bz cs crest cz (client_text renamed_rows) nb nc loads lb
              lc (renamed-saved lines fits) sb so)
      ∙ (info-handled v' d _ is_id.field.not_empty
          ∙ (buyer_views_info_lem v' saved deleted (sent ++ confirmation ∷ []) (codes "\n") is_id
                (renamed-Loaded h room padded free) (rw renamed-shown short)
              ∙ ap
                  (λ reply.
                    done tt (quiet saved deleted ((sent ++ confirmation ∷ []) ++ reply ∷ [])))
                  renamed-shown))
