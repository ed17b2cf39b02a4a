-- ===== src/Validate/Products.antt =====
-- `validateID` on the product table.
use group_a_cs.Base.{
  ◌≡◌, true, false, Bool, some, List, ◌∷◌, ◌++◌, Bytes, codes, if◌then◌else◌, Bool-cases, inl, inr,
}
use group_a_cs.Base.Int.{ℤ, negsuc, eq_ℤ, is_zero}
use group_a_cs.Libc.{strtok, atoi, strstr}
use group_a_cs.Libc.Tokens.{IsField, strtok-append}
use group_a_cs.Tables.{ProductInfo, load_product_info}
use group_a_cs.World.{
  product, free, all_free, Locals, Files, World, done, quiet, begin_read, end_read, load_products,
}
use group_a_cs.World.Rows.Prefix.{any, InUse, any_row-append}
use group_a_cs.Validate.{validate_in, validate_id}

-- The state in which a reader has left twice and entered once.
abbrev pub left_twice : Files → List ℤ → List Bytes → World
left_twice files deleted sent = record (quiet files deleted sent) {
  locks = record all_free { product_info = record free { readers = negsuc 0 } };
}

abbrev pub has_product : ℤ → ProductInfo → Bool
has_product id r = eq_ℤ r.product_id id

module _ (v : Locals) (files : Files) (deleted : List ℤ) (sent : List Bytes)
    (rows : List ProductInfo) (z : ProductInfo) (rest : List ProductInfo)
    (loaded : load_product_info files.product_info v.product_list ≡ some (true, rows ++ z ∷ rest))
    (used : InUse ProductInfo.product_id rows) (ended : is_zero z.product_id ≡ true) where
  validate_in-product :
      (id : ℤ)
      → validate_in product ProductInfo.product_id ProductInfo.product_id id
          (load_products v.product_list)
          (quiet files deleted sent)
        ≡ (if any (has_product id) rows
            then done true (quiet files deleted sent)
            else done false (left_twice files deleted sent))
  unfolding validate_in begin_read end_read
  validate_in-product id = elim (Bool-cases (any (has_product id) rows)) [
    | inl e ↦
        rw (loaded) (
          rw (any_row-append ProductInfo.product_id (has_product id) rows z rest used ended) (rw e))
    | inr e ↦
        rw (loaded) (
          rw (any_row-append ProductInfo.product_id (has_product id) rows z rest used ended) (rw e))
  ]

  pub validate_id-product :
      (p : Bytes) (id : ℤ)
      → IsField p
      → atoi p ≡ some id
      → validate_id v (p ++ codes ",[PRODUCT],") (quiet files deleted sent) ≡ (
          if any (has_product id) rows
          then done true (quiet files deleted sent)
          else done false (left_twice files deleted sent))
  unfolding validate_id strtok strstr
  validate_id-product p id h e =
      rw (strtok-append p (codes "[PRODUCT],") h.not_empty h.no_comma)
        (rw e (validate_in-product id))
