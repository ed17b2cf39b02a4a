-- ===== src/Catalog/Modify.antt =====
-- `modifyQuantity` and `modifyPrice`, from the message to the new file and the replies.
use group_a_cs.Base.{
  ◌+◌, ◌<◌, ◌≤◌, ◌≡◌, refl, true, false, some, List, [], ◌∷◌, ◌++◌, append_assoc, arith, Bytes,
  length, length-append, if◌then◌else◌,
}
use group_a_cs.Base.Int.{ℤ, eq_ℤ}
use group_a_cs.Libc.Tokens.{strtok-append}
use group_a_cs.Tables.{ProductInfo, load_product_info}
use group_a_cs.Tables.Save.{count_newlines, write_back_product_struct}
use group_a_cs.Tables.RoundTrip.Products.{product_text, write_back_product_struct-product_text}
use group_a_cs.World.{
  and_then, lift, write_socket, pure, save_products, sem_post_wrt, all_free, free, Locals, Files,
  World, product, done, quiet, ◌>>=◌,
}
use group_a_cs.World.Rows.{modify_row}
use group_a_cs.World.Rows.Prefix.{Absent, find_row_or_end-append, get_row-append, modify_row-append}
use group_a_cs.Validate.Products.{validate_id-product}
use group_a_cs.Catalog.{confirmation, invalid, modify_product, modify_quantity, modify_price}
use group_a_cs.Catalog.Request.{IsNumber, Loads, owner_tokens-append, any-has_product}

module _ (v : Locals) (files : Files) (deleted : List ℤ) (sent : List Bytes) (old : Bytes)
    (pre : List ProductInfo) (r : ProductInfo) (post : List ProductInfo) (z : ProductInfo)
    (rest : List ProductInfo) {s p q : Bytes} {seller id n : ℤ} (tail : Bytes)
    (file : files.product_info ≡ some old) (loads : Loads v old (pre ++ r ∷ post) z rest)
    (is_seller : IsNumber s seller) (is_product : IsNumber p id) (short : length p ≤ 8)
    (is_value : IsNumber q n) (here : eq_ℤ r.product_id id ≡ true)
    (first : Absent ProductInfo.product_id id pre) where
  abbrev message : Bytes
  message = s ++ b',' ∷ (p ++ b',' ∷ (q ++ b',' ∷ tail))

  loaded_file :
      load_product_info files.product_info v.product_list
      ≡ some (true, (pre ++ r ∷ post) ++ z ∷ rest)
  loaded_file = rw file loads.loaded

  locked : World
  locked = record (quiet files deleted sent) {
    locks = record all_free { product_info = record free { wrt = 0 } };
  }

  -- Up to the test of the owner.
  modify_product_row :
      (set_field : ℤ → ProductInfo → ProductInfo)
      → modify_product v set_field message (quiet files deleted sent)
        ≡ and_then
            ((if eq_ℤ r.seller_id seller
                then lift (
                    modify_row
                      (length pre)
                      (λ x. some (set_field n x))
                      (pre ++ r ∷ (post ++ z ∷ rest)))
                else (write_socket invalid >>= λ _. pure (pre ++ r ∷ (post ++ z ∷ rest))))
              locked)
            (λ rows.
              save_products v rows >>= λ _. sem_post_wrt product >>= λ _. write_socket confirmation)
  unfolding modify_product locked
  modify_product_row set_field =
      rw
        (owner_tokens-append (q ++ b',' ∷ tail) (quiet files deleted sent) is_seller is_product
          short)
        (rw (strtok-append q tail is_value.field.not_empty is_value.field.no_comma) (
          rw is_value.value (
            rw
              (validate_id-product v files deleted sent (pre ++ r ∷ post) z rest loaded_file
                loads.used loads.ended p id is_product.field is_product.value)
              (rw (any-has_product id pre r post here) (
                rw loaded_file (
                  rw append_assoc (
                    rw
                      (find_row_or_end-append ProductInfo.product_id id pre r post
                        (post ++ z ∷ rest) loads.used first here)
                      (rw (get_row-append pre r (post ++ z ∷ rest))))))))))

  modify_product_owner :
      (set_field : ℤ → ProductInfo → ProductInfo) (new : Bytes)
      → eq_ℤ r.seller_id seller ≡ true
      → write_back_product_struct
          (v.put_back product)
          files.product_info
          ((pre ++ set_field n r ∷ post) ++ z ∷ rest)
        ≡ some new
      → modify_product v set_field message (quiet files deleted sent)
        ≡ done tt
            (quiet (record files { product_info = some new }) deleted (sent ++ confirmation ∷ []))
  unfolding locked
  modify_product_owner set_field new owner saved = rw (modify_product_row set_field) (
      rw owner (
        rw
          (modify_row-append pre r (set_field n r) (post ++ z ∷ rest) (λ x. some (set_field n x))
            refl)
          (rw (rw append_assoc at saved))))

  modify_product_stranger :
      (set_field : ℤ → ProductInfo → ProductInfo) (new : Bytes)
      → eq_ℤ r.seller_id seller ≡ false
      → write_back_product_struct
          (v.put_back product)
          files.product_info
          ((pre ++ r ∷ post) ++ z ∷ rest)
        ≡ some new
      → modify_product v set_field message (quiet files deleted sent)
        ≡ done tt (
            quiet
              (record files { product_info = some new })
              deleted
              ((sent ++ invalid ∷ []) ++ confirmation ∷ []))
  unfolding locked
  modify_product_stranger set_field new owner saved =
      rw (modify_product_row set_field) (rw owner (rw (rw append_assoc at saved)))

  module _ (clean : v.put_back product ≡ [])
      (lines : count_newlines old + 1 ≡ length (pre ++ r ∷ post)) where
    saved_rows :
        (x : ProductInfo)
        → length (product_text (pre ++ x ∷ post)) < 1000
        → write_back_product_struct
            (v.put_back product)
            files.product_info
            ((pre ++ x ∷ post) ++ z ∷ rest)
          ≡ some (product_text (pre ++ x ∷ post))
    saved_rows x fits =
        rw (clean, file)
          (write_back_product_struct-product_text old (pre ++ x ∷ post) (z ∷ rest)
            (omega (arith, length-append pre (r ∷ post), length-append pre (x ∷ post))) fits)

    -- The owner of a product sets its quantity: the new file is the text of the table with that one
    -- field changed, the only reply is the confirmation, and every semaphore is free again. The
    -- message has the three numbers in front, that of the product in at most eight characters; the
    -- table is in use up to a free row and no earlier row has the id; the file has a line for each row
    -- and no newline behind the last; the text fits the buffer, which is clean.
    pub modify_quantity_owner :
        eq_ℤ r.seller_id seller ≡ true
        → length (product_text (pre ++ record r { quantity = n } ∷ post)) < 1000
        → modify_quantity v message (quiet files deleted sent)
          ≡ done tt (
              quiet
                (record files {
                  product_info = some (product_text (pre ++ record r { quantity = n } ∷ post));
                })
                deleted
                (sent ++ confirmation ∷ []))
    unfolding modify_quantity
    modify_quantity_owner owner fits =
        modify_product_owner (λ n x. record x { quantity = n }) _ owner
          (saved_rows (record r { quantity = n }) fits)

    -- The same for `modifyPrice` and the price.
    pub modify_price_owner :
        eq_ℤ r.seller_id seller ≡ true
        → length (product_text (pre ++ record r { price = n } ∷ post)) < 1000
        → modify_price v message (quiet files deleted sent)
          ≡ done tt (
              quiet
                (record files {
                  product_info = some (product_text (pre ++ record r { price = n } ∷ post));
                })
                deleted
                (sent ++ confirmation ∷ []))
    unfolding modify_price
    modify_price_owner owner fits =
        modify_product_owner (λ n x. record x { price = n }) _ owner
          (saved_rows (record r { price = n }) fits)

    -- A seller who does not own the product changes no row, through `modifyQuantity` and through
    -- `modifyPrice`, but gets two replies, the refusal and then the confirmation.
    pub modify_stranger :
        eq_ℤ r.seller_id seller ≡ false
        → length (product_text (pre ++ r ∷ post)) < 1000
        → let after = done tt (
            quiet
              (record files { product_info = some (product_text (pre ++ r ∷ post)) })
              deleted
              ((sent ++ invalid ∷ []) ++ confirmation ∷ [])) in
          (modify_quantity v message (quiet files deleted sent) ≡ after)
          × (modify_price v message (quiet files deleted sent) ≡ after)
    unfolding modify_quantity modify_price
    modify_stranger owner fits = (
      modify_product_stranger _ _ owner (saved_rows r fits),
      modify_product_stranger _ _ owner (saved_rows r fits),
    )
