-- ===== src/Server/Sessions/NewProduct.antt =====
-- `addNewProduct`, and `viewProducts` of the next message.
use group_a_cs.Base.{
  ◌+◌, ◌<◌, ◌≤◌, ◌≡◌, refl, ap, ◌∙◌, some, List, [], ◌∷◌, ◌++◌, Bytes, codes, length, All,
  All-append, drop, ◌≢◌, false, true,
}
use group_a_cs.Base.Int.{ℤ, is_zero}
use group_a_cs.Libc.Tokens.{field-append}
use group_a_cs.Convert.RoundTrip.{is_zero-IsStorable}
use group_a_cs.Tables.{ProductInfo, load_product_info}
use group_a_cs.Tables.Save.{count_newlines}
use group_a_cs.Tables.RoundTrip.Fields.{IsText}
use group_a_cs.Tables.RoundTrip.Products.{IsStoredProduct, product_text}
use group_a_cs.World.{
  Locals, Files, World, product, done, quiet, generate_uid, msg_buffer_size, ◌>>=◌, and_then,
}
use group_a_cs.World.Rows.{concat_rows}
use group_a_cs.World.Rows.Prefix.{Loaded}
use group_a_cs.Catalog.{confirmation, product_line, add_new_product}
use group_a_cs.Catalog.Request.{IsNumber}
use group_a_cs.Catalog.Add.{add_new_product_added}
use group_a_cs.Catalog.View.{view_products_buyer}
use group_a_cs.Server.{execute_task_on_server}
use group_a_cs.Server.Dispatch.{new_product, view_all, execute_task_on_server-handler}

new_product-handled :
    (v : Locals) (s name q u : Bytes) (w : World)
    → s ≢ []
    → execute_task_on_server v
        (codes "[NEW_PRODUCT]," ++ (s ++ b',' ∷ (name ++ b',' ∷ (q ++ b',' ∷ (u ++ b',' ∷ [])))))
        w
      ≡ add_new_product v (s ++ b',' ∷ (name ++ b',' ∷ (q ++ b',' ∷ (u ++ b',' ∷ codes "\n")))) w
new_product-handled v [] name q u w ne = absurd (ne refl)
new_product-handled v (c ∷ s) name q u w ne =
    execute_task_on_server-handler v new_product c _ w
    ∙ ap (λ m. add_new_product v m w)
        (field-append (c ∷ s) _ (codes "\n") _ (
          field-append name _ (codes "\n") _
            (field-append q _ (codes "\n") _ (field-append u [] (codes "\n") _ refl))))

stored-InUse : (r : ProductInfo) → IsStoredProduct r → is_zero r.product_id ≡ false
stored-InUse r h = is_zero-IsStorable r.product_id h.product_id

module _ (v : Locals) (files : Files) (deleted : List ℤ) (sent : List Bytes) (old : Bytes)
    (rows : List ProductInfo) (z : ProductInfo) (rest : List ProductInfo) {s name q u : Bytes}
    {seller quantity price : ℤ} (file : files.product_info ≡ some old)
    (loads : Loaded ProductInfo.product_id
      (load_product_info (some old) v.product_list)
      rows
      z
      rest)
    (is_seller : IsNumber s seller) (is_name : IsText name) (is_quantity : IsNumber q quantity)
    (is_price : IsNumber u price) (clean : v.put_back product ≡ []) where
  abbrev added : ProductInfo
  added = record {
    product_id = generate_uid v;
    product_name = name;
    seller_id = seller;
    quantity = quantity;
    price = price;
  }

  -- A seller's new product, on a server with free semaphores, is shown to the buyer whose message is
  -- handled next: the two replies are the confirmation and the lines of the old rows with that of the
  -- new row behind them, only the product file changes, which then loads as these rows, and every
  -- semaphore is free again. The old file loads as rows in use up to a free row and has a newline
  -- behind each row; the rows can be stored, their text is shorter than 1000 bytes and their lines fit
  -- the reply; the buffer of the write-back is clean; and the table of the second handler has the room
  -- and a free row behind it.
  pub new_product_viewed :
      (v' : Locals) (z' : ProductInfo) (rest' : List ProductInfo)
      → count_newlines old ≡ length rows
      → All IsStoredProduct rows
      → IsStoredProduct added
      → length (product_text (rows ++ added ∷ [])) < 1000
      → length (concat_rows product_line (rows ++ added ∷ [])) < msg_buffer_size
      → length rows + 1 ≤ length v'.product_list
      → drop (length (rows ++ added ∷ [])) v'.product_list ≡ z' ∷ rest'
      → is_zero z'.product_id ≡ true
      → (new : Bytes) × ((execute_task_on_server v (
                codes "[NEW_PRODUCT],"
                ++ (s ++ b',' ∷ (name ++ b',' ∷ (q ++ b',' ∷ (u ++ b',' ∷ [])))))
              >>= λ _. execute_task_on_server v' (codes "[VIEW_PRODUCTS],[BUYER],"))
            (quiet files deleted sent)
          ≡ done tt (
              quiet
                (record files { product_info = some new })
                deleted
                ((sent ++ confirmation ∷ [])
                  ++ concat_rows product_line (rows ++ added ∷ []) ∷ [])))
        × (load_product_info (some new) v'.product_list
            ≡ some (true, (rows ++ added ∷ []) ++ z' ∷ rest'))
  new_product_viewed v' z' rest' lines h hn fits reply_fits room padded free =
      let (new, handled, loaded) =
        add_new_product_added v files deleted sent old rows z rest (codes "\n") file loads is_seller
          is_name is_quantity is_price clean v'.product_list lines h hn fits room in
      let loads' : load_product_info (some new) v'.product_list
          ≡ some (true, (rows ++ added ∷ []) ++ z' ∷ rest') =
        loaded ∙ ap (λ l. some (true, (rows ++ added ∷ []) ++ l)) padded in
      (
        new,
        ap (λ o. and_then o (λ _. execute_task_on_server v' (codes "[VIEW_PRODUCTS],[BUYER],")))
              (new_product-handled v s name q u (quiet files deleted sent) is_seller.field.not_empty
                ∙ handled)
            ∙ (execute_task_on_server-handler v' view_all b'[' (codes "BUYER],") _
                ∙ view_products_buyer v' (record files { product_info = some new }) deleted
                    (sent ++ confirmation ∷ []) (rows ++ added ∷ []) z' rest' loads'
                    (All-append (λ r. is_zero r.product_id ≡ false) rows (added ∷ []) loads.used
                      (stored-InUse added hn, tt))
                    free reply_fits (codes "\n")),
        loads',
      )
