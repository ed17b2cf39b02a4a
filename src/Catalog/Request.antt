-- ===== src/Catalog/Request.antt =====
-- A message to the product handlers, and a product table that a handler loads.
use group_a_cs.Base.{
  ℕ, ◌≤◌, ◌≡◌, true, some, List, [], ◌∷◌, ◌++◌, arith, Bytes, codes, length, length-append,
  ltb-true,
}
use group_a_cs.Base.Int.{ℤ, eq_ℤ, is_zero}
use group_a_cs.Libc.{atoi}
use group_a_cs.Libc.Tokens.{IsField, strtok-append}
use group_a_cs.Tables.{ProductInfo, load_product_info}
use group_a_cs.World.{Locals, World, done, int_token}
use group_a_cs.World.Rows.Prefix.{InUse, any}
use group_a_cs.Validate.Products.{has_product}
use group_a_cs.Catalog.{owner_tokens}

-- A token that `atoi` reads as `n`.
pub record IsNumber (t : Bytes) (n : ℤ) : Type 0 where
  pub field : IsField t
  pub value : atoi t ≡ some n

-- The handler loads these rows, which end at the free row `z`.
pub record Loads (v : Locals) (file : List ℕ) (rows : List ProductInfo) (z : ProductInfo)
    (rest : List ProductInfo) : Type 0 where
  pub loaded : load_product_info (some file) v.product_list ≡ some (true, rows ++ z ∷ rest)
  pub used : InUse ProductInfo.product_id rows
  pub ended : is_zero z.product_id ≡ true

pub int_token-append :
    {t : Bytes} {n : ℤ} (r : Bytes) (w : World)
    → IsNumber t n
    → int_token (t ++ b',' ∷ r) w ≡ done (n, r) w
int_token-append {t} r w h = rw (strtok-append t r h.field.not_empty h.field.no_comma) (rw h.value)

-- The message that `owner_tokens` reads: seller, product, and what is behind.
pub owner_tokens-append :
    {s p : Bytes} {seller id : ℤ} (r : Bytes) (w : World)
    → IsNumber s seller
    → IsNumber p id
    → length p ≤ 8
    → owner_tokens (s ++ b',' ∷ (p ++ b',' ∷ r)) w
      ≡ done (seller, id, p ++ codes ",[PRODUCT],", r) w
unfolding owner_tokens
owner_tokens-append {s} {p} r w hs hp short =
    rw (strtok-append s (p ++ b',' ∷ r) hs.field.not_empty hs.field.no_comma) (
      rw hs.value (
        rw (strtok-append p r hp.field.not_empty hp.field.no_comma) (
          rw
            (ltb-true (length (p ++ codes ",[PRODUCT],")) 20
              (omega (arith, length-append p (codes ",[PRODUCT],"))))
            (rw hp.value))))

pub any-has_product :
    (id : ℤ) (pre : List ProductInfo) (r : ProductInfo) (post : List ProductInfo)
    → eq_ℤ r.product_id id ≡ true
    → any (has_product id) (pre ++ r ∷ post) ≡ true
any-has_product id [] r post e = rw e
any-has_product id (x ∷ pre) r post e = ground (arith, any-has_product id pre r post e)
