-- ===== src/Catalog/Delete.antt =====
-- `deleteProduct` from the message to the new file and the replies.
use group_a_cs.Base.{
  ◌+◌, ◌<◌, ◌≤◌, ◌≡◌, refl, true, false, not, some, List, [], ◌∷◌, ◌++◌, append_assoc, arith, Bytes,
  length, length-append, ap, sym, ◌∙◌, if◌then◌else◌,
}
use group_a_cs.Base.Int.{ℤ, pos, eq_ℤ}
use group_a_cs.Tables.{ProductInfo, load_product_info}
use group_a_cs.Tables.Save.{count_newlines, write_back_product_struct}
use group_a_cs.Tables.RoundTrip.Products.{product_text, write_back_product_struct-product_text}
use group_a_cs.World.{
  and_then, lift, write_socket, pure, save_products, sem_post_wrt, all_free, free, Locals, Files,
  World, product, done, quiet, ◌>>=◌, ◌>>◌,
}
use group_a_cs.World.Rows.{select_rows, overwrite}
use group_a_cs.World.Rows.Prefix.{
  Absent, InUse, keep, find_row_or_end-append, get_row-append, modify_row-append, first_free-append,
  select_rows-append,
}
use group_a_cs.Validate.Products.{validate_id-product}
use group_a_cs.Catalog.{confirmation, invalid, note_deleted, delete_product}
use group_a_cs.Catalog.Request.{IsNumber, Loads, owner_tokens-append, any-has_product}

overwrite-append :
    {A : Type 0} (rows front back : List A)
    → length rows ≡ length front
    → overwrite rows (front ++ back) ≡ some (rows ++ back)
unfolding overwrite
overwrite-append [] [] back e = refl
overwrite-append [] (f ∷ front) back e = absurd (omega arith)
overwrite-append (r ∷ rows) [] back e = absurd (omega arith)
overwrite-append (r ∷ rows) (f ∷ front) back e = rw (overwrite-append rows front back (omega arith))

keep_others :
    (id : ℤ) (rows : List ProductInfo)
    → Absent ProductInfo.product_id id rows
    → keep (λ (r : ProductInfo). not (eq_ℤ r.product_id id)) rows ≡ rows
keep_others id [] h = refl
keep_others id (x ∷ rows) h = rw (h.0) (ap (λ l. x ∷ l) (keep_others id rows h.1))

keep_but_one :
    (id : ℤ) (pre : List ProductInfo) (r : ProductInfo) (post : List ProductInfo)
    → Absent ProductInfo.product_id id pre
    → eq_ℤ r.product_id id ≡ true
    → Absent ProductInfo.product_id id post
    → keep (λ (r : ProductInfo). not (eq_ℤ r.product_id id)) (pre ++ r ∷ post) ≡ pre ++ post
keep_but_one id [] r post h e k = rw e (keep_others id post k)
keep_but_one id (x ∷ pre) r post h e k =
    rw (h.0) (ap (λ l. x ∷ l) (keep_but_one id pre r post h.1 e k))

module _ (v : Locals) (files : Files) (deleted : List ℤ) (sent : List Bytes) (old : Bytes)
    (pre : List ProductInfo) (r : ProductInfo) (post : List ProductInfo) (z : ProductInfo)
    (rest : List ProductInfo) {s p : Bytes} {seller id : ℤ} (tail : Bytes)
    (file : files.product_info ≡ some old) (loads : Loads v old (pre ++ r ∷ post) z rest)
    (is_seller : IsNumber s seller) (is_product : IsNumber p id) (short : length p ≤ 8)
    (here : eq_ℤ r.product_id id ≡ true) (first : Absent ProductInfo.product_id id pre)
    (clean : v.put_back product ≡ [])
    (lines : count_newlines old + 1 ≡ length (pre ++ r ∷ post)) where
  abbrev message : Bytes
  message = s ++ b',' ∷ (p ++ b',' ∷ tail)

  loaded_file :
      load_product_info files.product_info v.product_list
      ≡ some (true, (pre ++ r ∷ post) ++ z ∷ rest)
  loaded_file = rw file loads.loaded

  locked : World
  locked = record (quiet files deleted sent) {
    locks = record all_free { product_info = record free { wrt = 0 } };
  }

  -- Up to the test of the owner.
  delete_product_row :
      delete_product v message (quiet files deleted sent)
      ≡ and_then
          ((if eq_ℤ r.seller_id seller
              then (do
                note_deleted id
                others ← lift (
                    select_rows ProductInfo.product_id
                      (λ x. not (eq_ℤ x.product_id id))
                      ((pre ++ r ∷ post) ++ z ∷ rest))
                lift (overwrite others v.modified_product_list))
              else (write_socket invalid >>= λ _. pure v.modified_product_list))
            locked)
          (λ rows.
            save_products v rows >>= λ _. sem_post_wrt product >>= λ _. write_socket confirmation)
  unfolding delete_product locked
  delete_product_row =
      rw (owner_tokens-append tail (quiet files deleted sent) is_seller is_product short) (
        rw
          (validate_id-product v files deleted sent (pre ++ r ∷ post) z rest loaded_file loads.used
            loads.ended p id is_product.field is_product.value)
          (rw (any-has_product id pre r post here) (
            rw loaded_file (
              rw append_assoc (
                rw
                  (find_row_or_end-append ProductInfo.product_id id pre r post (post ++ z ∷ rest)
                    loads.used first here)
                  (rw (get_row-append pre r (post ++ z ∷ rest))))))))

  -- The owner of a product deletes it: the reply is the confirmation, the id is noted behind the ids
  -- deleted before, and every semaphore is free again. The new file has the other rows in order, and
  -- behind them one row of what the uninitialised `modifiedProductList` holds there. The message has
  -- the two numbers in front, that of the product in at most eight characters; the table is in use up to
  -- a free row and no other row has the id; the arrays have the room; the file has a line for each row
  -- and no newline behind the last; the text fits the buffer, which is clean.
  pub delete_product_owner :
      (front back : List ProductInfo) (junk : ProductInfo) (ds dz : List ℤ)
      → eq_ℤ r.seller_id seller ≡ true
      → Absent ProductInfo.product_id id post
      → v.modified_product_list ≡ front ++ junk ∷ back
      → length (pre ++ post) ≡ length front
      → deleted ≡ ds ++ pos 0 ∷ dz
      → InUse (λ n. n) ds
      → length (product_text ((pre ++ post) ++ junk ∷ [])) < 1000
      → delete_product v message (quiet files deleted sent)
        ≡ done tt (
            quiet
              (record files { product_info = some (product_text ((pre ++ post) ++ junk ∷ [])) })
              (ds ++ id ∷ dz)
              (sent ++ confirmation ∷ []))
  unfolding locked note_deleted
  delete_product_owner front back junk ds dz owner others memory room noted used fits =
      rw delete_product_row (
        rw owner (
          rw noted (
            rw (first_free-append (λ n. n) ds (pos 0) dz used refl) (
              rw (modify_row-append ds (pos 0) id dz (λ x. some id) refl) (
                rw
                  (select_rows-append ProductInfo.product_id (λ x. not (eq_ℤ x.product_id id))
                    (pre ++ r ∷ post) z rest loads.used loads.ended)
                  (rw (keep_but_one id pre r post first here others) (
                    rw memory (
                      rw (overwrite-append (pre ++ post) front (junk ∷ back) room)
                        (rw saved)))))))))
    where
      saved :
          write_back_product_struct
            (v.put_back product)
            files.product_info
            ((pre ++ post) ++ junk ∷ back)
          ≡ some (product_text ((pre ++ post) ++ junk ∷ []))
      saved =
          rw (clean, file)
            (ap (write_back_product_struct [] (some old))
                (sym (append_assoc (pre ++ post) (junk ∷ []) back))
              ∙ write_back_product_struct-product_text old ((pre ++ post) ++ junk ∷ []) back
                  (omega (
                    arith,
                    length-append pre (r ∷ post),
                    length-append pre post,
                    length-append (pre ++ post) (junk ∷ []),
                  ))
                  fits)

  -- A seller who does not own the product gets two replies, the refusal and then the confirmation, and
  -- the whole product file is replaced by what the uninitialised `modifiedProductList` holds: none of
  -- the old rows is kept.
  pub delete_product_stranger :
      (rows back : List ProductInfo)
      → eq_ℤ r.seller_id seller ≡ false
      → v.modified_product_list ≡ rows ++ back
      → length (pre ++ r ∷ post) ≡ length rows
      → length (product_text rows) < 1000
      → delete_product v message (quiet files deleted sent)
        ≡ done tt (
            quiet
              (record files { product_info = some (product_text rows) })
              deleted
              ((sent ++ invalid ∷ []) ++ confirmation ∷ []))
  unfolding locked
  delete_product_stranger rows back owner memory room fits =
      rw delete_product_row (rw owner (rw memory (rw saved)))
    where
      saved :
          write_back_product_struct (v.put_back product) files.product_info (rows ++ back)
          ≡ some (product_text rows)
      saved =
          rw (clean, file) (write_back_product_struct-product_text old rows back (omega arith) fits)
