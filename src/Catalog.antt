-- ===== src/Catalog.antt =====
-- Roden.c, the handlers of the product table: `viewProducts`, `addNewProduct`, `deleteProduct`,
-- `modifyQuantity` and `modifyPrice`.
pub mod Request
pub mod Modify
pub mod View
pub mod Add
pub mod Delete
use group_a_cs.Base.{
  Bool, true, false, not, ◌||◌, Option, none, some, List, [], ◌∷◌, ◌++◌, Bytes, codes,
  if◌then◌else◌,
}
use group_a_cs.Base.Int.{ℤ, eq_ℤ, is_zero}
use group_a_cs.Libc.{strstr, strcpy, atoi, sprintf_int}
use group_a_cs.Tables.{ProductInfo}
use group_a_cs.World.{
  product, Locals, M, ◌>>=◌, ◌>>◌, pure, lift, token, int_token, text_token, write_socket,
  msg_buffer_size, generate_uid, load_products, save_products, begin_read, end_read, done,
  sem_wait_wrt, sem_post_wrt,
}
use group_a_cs.World.Rows.{
  first_free, find_row_or_end, select_rows, modify_row, get_row, overwrite, concat_rows,
}
use group_a_cs.Validate.{validate_id}

abbrev pub confirmation : Bytes
confirmation = codes "[CONFIRMATION]"

abbrev pub invalid : Bytes
invalid = codes "[INVALID]"

-- What `viewProducts` appends for a row.
unfoldable pub product_line : ProductInfo → Bytes
product_line r =
    sprintf_int r.product_id
    ++ (b','
        ∷ (r.product_name
            ++ (b',' ∷ (sprintf_int r.quantity ++ (b',' ∷ (sprintf_int r.price ++ codes ",\n"))))))

-- The rows before the end of the table or, in the branch of a seller, before the first row of the
-- seller.
unfoldable pub rows_until : (ProductInfo → Bool) → List ProductInfo → Option (List ProductInfo)
rows_until stop [] = none
rows_until stop (r ∷ rows) = elim (is_zero r.product_id || stop r) [
  | true ↦ some []
  | false ↦ elim (rows_until stop rows) [ none ↦ none | some rest ↦ some (r ∷ rest) ]
]

-- Reads the table in a reader section, and sends the rows.
unfoldable pub send_products : Locals → (ProductInfo → Bool) → M (Unit {0})
unfolding rows_until product_line concat_rows
send_products v stop = do
  begin_read product
  loaded ← load_products v.product_list
  if loaded.0
      then (do
        rows ← lift (rows_until stop loaded.1)
        reply ← lift (strcpy msg_buffer_size (concat_rows product_line rows))
        end_read product
        write_socket reply)
      else pure tt

-- `viewProducts`. In the branch of a seller `strtok(buffer, ",")` starts again at the front of the
-- buffer, which the first call has ended behind its token.
unfoldable pub view_products : Locals → Bytes → M (Unit {0})
unfolding send_products
view_products v buffer = do
  client_type ← text_token 25 buffer
  if strstr client_type.0 (codes "[BUYER]") then send_products v (λ r. false) else (do
    requesting ← int_token client_type.0
    send_products v (λ r. eq_ℤ r.seller_id requesting.0))

-- `addNewProduct`.
unfoldable pub add_new_product : Locals → Bytes → M (Unit {0})
unfolding first_free modify_row
add_new_product v buffer = do
  sem_wait_wrt product
  loaded ← load_products v.product_list
  row ← lift (first_free ProductInfo.product_id loaded.1)
  seller ← int_token buffer
  name ← text_token 20 seller.1
  quantity ← int_token name.1
  price ← int_token quantity.1
  rows ← lift (
      modify_row row
        (λ r. some (record {
          product_id = generate_uid v;
          product_name = name.0;
          seller_id = seller.0;
          quantity = quantity.0;
          price = price.0;
        }))
        loaded.1)
  save_products v rows
  sem_post_wrt product
  write_socket confirmation

-- `deletedProducts[i] = productID` at the first free `i`.
unfoldable pub note_deleted : ℤ → M (Unit {0})
unfolding first_free modify_row
note_deleted id w =
    (lift (first_free (λ n. n) w.deleted_products) >>= λ i.
    lift (modify_row i (λ old. some id) w.deleted_products) >>= λ l w'.
    done tt (record w' { deleted_products = l }))
      w

-- The first two tokens of `deleteProduct`, `modifyQuantity` and `modifyPrice`: the seller, the
-- product, the question that is put to `validateID`, and what is behind.
unfoldable pub owner_tokens : Bytes → M (ℤ × ℤ × Bytes × Bytes)
owner_tokens buffer = do
  seller ← int_token buffer
  t ← token seller.1
  question ← lift (strcpy 20 (t.0 ++ codes ",[PRODUCT],"))
  id ← lift (atoi t.0)
  pure (seller.0, id, question, t.1)

-- `deleteProduct`. The table that is written is the one that only the owner's branch fills.
unfoldable pub delete_product : Locals → Bytes → M (Unit {0})
delete_product v buffer = do
  args ← owner_tokens buffer
  known ← validate_id v args.2
  if known
      then (do
        sem_wait_wrt product
        loaded ← load_products v.product_list
        i ← lift (find_row_or_end ProductInfo.product_id args.1 loaded.1)
        row ← lift (get_row i loaded.1)
        modified ←
            (if eq_ℤ row.seller_id args.0
              then (do
                note_deleted args.1
                rest ← lift (
                    select_rows ProductInfo.product_id (λ r. not (eq_ℤ r.product_id args.1))
                      loaded.1)
                lift (overwrite rest v.modified_product_list))
              else (do write_socket invalid; pure v.modified_product_list))
        save_products v modified
        sem_post_wrt product
        write_socket confirmation)
      else write_socket invalid

-- The common body of `modifyQuantity` and `modifyPrice`, which differ in the field that they set.
unfoldable pub modify_product : Locals → (ℤ → ProductInfo → ProductInfo) → Bytes → M (Unit {0})
modify_product v set_field buffer = do
  args ← owner_tokens buffer
  value ← int_token args.3
  known ← validate_id v args.2
  if known
      then (do
        sem_wait_wrt product
        loaded ← load_products v.product_list
        i ← lift (find_row_or_end ProductInfo.product_id args.1 loaded.1)
        row ← lift (get_row i loaded.1)
        rows ←
            (if eq_ℤ row.seller_id args.0
              then lift (modify_row i (λ r. some (set_field value.0 r)) loaded.1)
              else (do write_socket invalid; pure loaded.1))
        save_products v rows
        sem_post_wrt product
        write_socket confirmation)
      else write_socket invalid

-- `modifyQuantity`.
unfoldable pub modify_quantity : Locals → Bytes → M (Unit {0})
unfolding modify_product
modify_quantity v = modify_product v (λ n r. record r { quantity = n })

-- `modifyPrice`.
unfoldable pub modify_price : Locals → Bytes → M (Unit {0})
unfolding modify_product
modify_price v = modify_product v (λ n r. record r { price = n })
