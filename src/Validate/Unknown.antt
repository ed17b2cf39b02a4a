-- ===== src/Validate/Unknown.antt =====
-- What `validateID` leaves behind when it finds nothing, and the loop of `validateOrderIsBuyers`.
use group_a_cs.Base.{◌∙◌, ℕ, zero, suc, ◌≡◌, refl, true, false, some, List, ◌∷◌, ◌++◌, Bytes, codes}
use group_a_cs.Base.Int.{ℤ, eq_ℤ, is_zero}
use group_a_cs.Libc.Tokens.{strtok-append}
use group_a_cs.Tables.{ProductInfo, BillingInfo, load_product_info, load_billing_info}
use group_a_cs.World.{
  blocked, sem_wait_wrt, ◌>>=◌, free, all_free, product, product, Locals, Files, World, done,
  looping, quiet, begin_read, end_read,
}
use group_a_cs.World.Rows.Prefix.{any, InUse}
use group_a_cs.Catalog.Request.{IsNumber}
use group_a_cs.Validate.{validate_id, validate_order_is_buyers, check_first}
use group_a_cs.Validate.Products.{left_twice, has_product, validate_id-product}

-- A writer has the product table, and the counter of readers is zero.
abbrev pub writer_inside : Files → List ℤ → List Bytes → World
writer_inside files deleted sent = record (quiet files deleted sent) {
  locks = record all_free { product_info = record free { wrt = 0 } };
}

-- A writer that comes while the reader is inside waits.
writer_waits :
    (files : Files) (deleted : List ℤ) (sent : List Bytes)
    → (begin_read product >>= λ _. sem_wait_wrt product) (quiet files deleted sent) ≡ blocked
unfolding begin_read
writer_waits files deleted sent = refl

-- If no row has the id, `validateID` answers false on a table that it has loaded, and leaves the
-- counter of readers at minus one (`left_twice`). From then on a reader enters without taking the
-- semaphore, and a writer that comes while the reader is inside does not wait; from a state with
-- free semaphores it waits.
pub validate_id_unknown :
    (v : Locals) (files : Files) (deleted : List ℤ) (sent : List Bytes) (rows : List ProductInfo)
    (z : ProductInfo) (rest : List ProductInfo) {p : Bytes} {id : ℤ}
    → load_product_info files.product_info v.product_list ≡ some (true, rows ++ z ∷ rest)
    → InUse ProductInfo.product_id rows
    → is_zero z.product_id ≡ true
    → IsNumber p id
    → any (has_product id) rows ≡ false
    → (validate_id v (p ++ codes ",[PRODUCT],") (quiet files deleted sent)
        ≡ done false (left_twice files deleted sent))
      × ((begin_read product >>= λ _. sem_wait_wrt product) (left_twice files deleted sent)
          ≡ done tt (writer_inside files deleted sent))
      × ((begin_read product >>= λ _. sem_wait_wrt product) (quiet files deleted sent) ≡ blocked)
unfolding begin_read
validate_id_unknown v files deleted sent rows z rest {p} {id} loaded used ended number absent = (
  validate_id-product v files deleted sent rows z rest loaded used ended p id number.field
        number.value
      ∙ rw absent,
  refl,
  writer_waits files deleted sent,
)

check_first_looping :
    (rounds : ℕ) (buyer_id order_id : ℤ) (r : BillingInfo) (rows : List BillingInfo) (w : World)
    → is_zero r.order_id ≡ false
    → eq_ℤ r.order_id order_id ≡ false
    → check_first rounds buyer_id order_id (r ∷ rows) w ≡ looping
unfolding check_first
check_first_looping zero b o r rows w used other = refl
check_first_looping (suc n) b o r rows w used other =
    rw (used, check_first) (rw (other, check_first) (check_first_looping n b o r rows w used other))

module _ (v : Locals) (files : Files) (deleted : List ℤ) (sent : List Bytes) {b o : Bytes}
    {buyer_id order_id : ℤ} (tail : Bytes) (is_buyer : IsNumber b buyer_id)
    (is_order : IsNumber o order_id) (r : BillingInfo) (rows : List BillingInfo)
    (loaded : load_billing_info files.billing_info v.billing_info ≡ some (true, r ∷ rows))
    (used : is_zero r.order_id ≡ false) where
  -- If the first bill is not that of the order, `validateOrderIsBuyers` reads the first bill again and
  -- again: however many rounds it is given, it is still in the loop, also where a later bill is the
  -- one that is asked for.
  pub validate_order_is_buyers_looping :
      eq_ℤ r.order_id order_id ≡ false
      → validate_order_is_buyers v (b ++ b',' ∷ (o ++ b',' ∷ tail)) (quiet files deleted sent)
        ≡ looping
  unfolding validate_order_is_buyers begin_read end_read
  validate_order_is_buyers_looping other =
      rw (strtok-append b (o ++ b',' ∷ tail) is_buyer.field.not_empty is_buyer.field.no_comma) (
        rw is_buyer.value (
          rw (strtok-append o tail is_order.field.not_empty is_order.field.no_comma) (
            rw is_order.value
              (rw loaded (check_first_looping v.rounds buyer_id order_id r rows _ used other)))))

  -- If the first bill is that of the order, one round answers whether it is the buyer's, and every
  -- semaphore is free again.
  pub validate_order_is_buyers_first :
      {n : ℕ}
      → v.rounds ≡ suc n
      → eq_ℤ r.order_id order_id ≡ true
      → validate_order_is_buyers v (b ++ b',' ∷ (o ++ b',' ∷ tail)) (quiet files deleted sent)
        ≡ done (eq_ℤ r.customer_id buyer_id) (quiet files deleted sent)
  unfolding validate_order_is_buyers begin_read end_read
  validate_order_is_buyers_first rounds here =
      rw (strtok-append b (o ++ b',' ∷ tail) is_buyer.field.not_empty is_buyer.field.no_comma) (
        rw is_buyer.value (
          rw (strtok-append o tail is_order.field.not_empty is_order.field.no_comma) (
            rw is_order.value
              (rw loaded (rw rounds (rw (used, check_first) (rw (here, check_first))))))))
