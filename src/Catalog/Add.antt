-- ===== src/Catalog/Add.antt =====
-- `addNewProduct` from the message to the new file and the reply.
use group_a_cs.Base.{
  ◌+◌, ◌<◌, ◌≤◌, ◌≡◌, refl, sym, ap, ◌∙◌, true, some, List, [], ◌∷◌, ◌++◌, append_assoc, arith,
  Bytes, length, length-append, ltb-true, All, All-append, drop,
}
use group_a_cs.Base.Int.{ℤ}
use group_a_cs.Libc.Tokens.{strtok-append}
use group_a_cs.Tables.{ProductInfo, load_product_info}
use group_a_cs.Tables.Save.{count_newlines, write_back_product_struct}
use group_a_cs.Tables.RoundTrip.Fields.{IsText}
use group_a_cs.Tables.RoundTrip.Products.{
  IsStoredProduct, product_text, write_back_product_struct-product_text,
  load_product_info-product_text,
}
use group_a_cs.World.{Locals, Files, product, done, quiet, generate_uid}
use group_a_cs.World.Rows.Prefix.{Loaded, first_free-append, modify_row-append}
use group_a_cs.Catalog.{confirmation, add_new_product}
use group_a_cs.Catalog.Request.{IsNumber}

module _ (v : Locals) (files : Files) (deleted : List ℤ) (sent : List Bytes) (old : Bytes)
    (rows : List ProductInfo) (z : ProductInfo) (rest : List ProductInfo) {s name q u : Bytes}
    {seller quantity price : ℤ} (tail : Bytes) (file : files.product_info ≡ some old)
    (loads : Loaded ProductInfo.product_id
      (load_product_info (some old) v.product_list)
      rows
      z
      rest)
    (is_seller : IsNumber s seller) (is_name : IsText name) (is_quantity : IsNumber q quantity)
    (is_price : IsNumber u price) (clean : v.put_back product ≡ []) where
  abbrev pub new_row : ProductInfo
  new_row = record {
    product_id = generate_uid v;
    product_name = name;
    seller_id = seller;
    quantity = quantity;
    price = price;
  }

  abbrev pub message : Bytes
  message = s ++ b',' ∷ (name ++ b',' ∷ (q ++ b',' ∷ (u ++ b',' ∷ tail)))

  loaded_file : load_product_info files.product_info v.product_list ≡ some (true, rows ++ z ∷ rest)
  loaded_file = rw file loads.loaded

  add_new_product-saved :
      (new : Bytes)
      → write_back_product_struct (v.put_back product) files.product_info (rows ++ new_row ∷ rest)
        ≡ some new
      → add_new_product v message (quiet files deleted sent)
        ≡ done tt
            (quiet (record files { product_info = some new }) deleted (sent ++ confirmation ∷ []))
  unfolding add_new_product
  add_new_product-saved new saved = rw loaded_file (
      rw (first_free-append ProductInfo.product_id rows z rest loads.used loads.ended) (
        rw
          (strtok-append s (name ++ b',' ∷ (q ++ b',' ∷ (u ++ b',' ∷ tail)))
            is_seller.field.not_empty is_seller.field.no_comma)
          (rw is_seller.value (
            rw
              (strtok-append name (q ++ b',' ∷ (u ++ b',' ∷ tail)) is_name.field.not_empty
                is_name.field.no_comma)
              (rw (ltb-true (length name) 20 is_name.fits) (
                rw
                  (strtok-append q (u ++ b',' ∷ tail) is_quantity.field.not_empty
                    is_quantity.field.no_comma)
                  (rw is_quantity.value (
                    rw (strtok-append u tail is_price.field.not_empty is_price.field.no_comma) (
                      rw is_price.value (
                        rw (modify_row-append rows z new_row rest (λ r. some new_row) refl)
                          (rw saved)))))))))))

  -- Where the file has a newline behind each of its rows, a new product is added: the confirmation is
  -- the only reply, every semaphore is free again, and the new file loads as the old rows with the new
  -- one behind them. The rows can be stored, their text is shorter than 1000 bytes, the buffer is
  -- clean and the table has the room.
  pub add_new_product_added :
      (table : List ProductInfo)
      → count_newlines old ≡ length rows
      → All IsStoredProduct rows
      → IsStoredProduct new_row
      → length (product_text (rows ++ new_row ∷ [])) < 1000
      → length rows + 1 ≤ length table
      → (new : Bytes) × (add_new_product v message (quiet files deleted sent)
          ≡ done tt (
              quiet (record files { product_info = some new }) deleted (sent ++ confirmation ∷ [])))
        × (load_product_info (some new) table
            ≡ some (true, (rows ++ new_row ∷ []) ++ drop (length (rows ++ new_row ∷ [])) table))
  add_new_product_added table lines h hn fits room =
      let n : length (rows ++ new_row ∷ []) ≡ length rows + 1 =
        omega (arith, length-append rows (new_row ∷ [])) in
      (
        product_text (rows ++ new_row ∷ []),
        add_new_product-saved (product_text (rows ++ new_row ∷ [])) (
            rw (clean, file)
              (ap (write_back_product_struct [] (some old))
                  (sym (append_assoc rows (new_row ∷ []) rest))
                ∙ write_back_product_struct-product_text old (rows ++ new_row ∷ []) rest
                    (omega arith) fits)),
        load_product_info-product_text (rows ++ new_row ∷ []) table
            (All-append IsStoredProduct rows (new_row ∷ []) h (hn, tt)) (omega arith),
      )

  -- Where the file has no newline behind its last row, as the files of the repository have none, the
  -- new product is lost: the reply is the confirmation, but the new file is the text of the old rows.
  pub add_new_product_lost :
      count_newlines old + 1 ≡ length rows
      → length (product_text rows) < 1000
      → add_new_product v message (quiet files deleted sent)
        ≡ done tt (
            quiet
              (record files { product_info = some (product_text rows) })
              deleted
              (sent ++ confirmation ∷ []))
  add_new_product_lost lines fits = add_new_product-saved (product_text rows) (
      rw (clean, file)
        (write_back_product_struct-product_text old rows (new_row ∷ rest) lines fits))
