-- ===== src/Catalog/View.antt =====
-- `viewProducts`: what a buyer and what a seller is sent.
use group_a_cs.Base.{
  ◌<◌, ◌≡◌, refl, true, false, Bool, some, List, [], ◌∷◌, ◌++◌, arith, Bytes, codes, length,
  ltb-true, All,
}
use group_a_cs.Base.Int.{ℤ, pos, eq_ℤ, is_zero}
use group_a_cs.Libc.{strtok, atoi, strstr}
use group_a_cs.Tables.{ProductInfo, load_product_info}
use group_a_cs.World.{Locals, Files, done, quiet, begin_read, end_read, msg_buffer_size}
use group_a_cs.World.Rows.{concat_rows}
use group_a_cs.World.Rows.Prefix.{InUse}
use group_a_cs.Catalog.{product_line, rows_until, send_products, view_products}

rows_until-append :
    (stop : ProductInfo → Bool) (rows : List ProductInfo) (z : ProductInfo)
    (rest : List ProductInfo)
    → InUse ProductInfo.product_id rows
    → All (λ r. stop r ≡ false) rows
    → is_zero z.product_id ≡ true
    → rows_until stop (rows ++ z ∷ rest) ≡ some rows
unfolding rows_until
rows_until-append stop [] z rest u h e = ground arith
rows_until-append stop (r ∷ rows) z rest u h e =
    ground (arith, u.0, h.0, rows_until-append stop rows z rest u.1 h.1 e)

never : (rows : List ProductInfo) → All (λ (r : ProductInfo). false ≡ false) rows
never [] = tt
never (r ∷ rows) = (refl, never rows)

owned-never :
    (rows : List ProductInfo)
    → InUse ProductInfo.seller_id rows
    → All (λ (r : ProductInfo). eq_ℤ r.seller_id (pos 0) ≡ false) rows
owned-never [] h = tt
owned-never (r ∷ rows) h = (h.0, owned-never rows h.1)

module _ (v : Locals) (files : Files) (deleted : List ℤ) (sent : List Bytes)
    (rows : List ProductInfo) (z : ProductInfo) (rest : List ProductInfo)
    (loaded : load_product_info files.product_info v.product_list ≡ some (true, rows ++ z ∷ rest))
    (used : InUse ProductInfo.product_id rows) (ended : is_zero z.product_id ≡ true)
    (short : length (concat_rows product_line rows) < msg_buffer_size) where
  send_products-All :
      (stop : ProductInfo → Bool)
      → All (λ r. stop r ≡ false) rows
      → send_products v stop (quiet files deleted sent)
        ≡ done tt (quiet files deleted (sent ++ concat_rows product_line rows ∷ []))
  unfolding send_products begin_read end_read
  send_products-All stop h =
      rw loaded (rw (rows_until-append stop rows z rest used h ended) (rw (ltb-true _ _ short)))

  -- A buyer is sent a line for every row in use, and every semaphore is free again.
  pub view_products_buyer :
      (tail : Bytes)
      → view_products v (codes "[BUYER]," ++ tail) (quiet files deleted sent)
        ≡ done tt (quiet files deleted (sent ++ concat_rows product_line rows ∷ []))
  unfolding view_products strtok strstr
  view_products_buyer tail = send_products-All (λ r. false) (never rows)

  -- A seller, whichever id the message gives, is sent a line for every row in use, the products of
  -- all other sellers included, if no row has the seller id zero: the id that is compared is not the
  -- one of the message but the `atoi` of the word before it.
  pub view_products_seller :
      (tail : Bytes)
      → InUse ProductInfo.seller_id rows
      → view_products v (codes "[SELLER]," ++ tail) (quiet files deleted sent)
        ≡ done tt (quiet files deleted (sent ++ concat_rows product_line rows ∷ []))
  unfolding view_products strtok strstr atoi
  view_products_seller tail owned =
      send_products-All (λ r. eq_ℤ r.seller_id (pos 0)) (owned-never rows owned)
