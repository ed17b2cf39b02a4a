-- ===== src/Tests/Validate.antt =====
-- The theorems on `validateID` and `validateOrderIsBuyers` at inputs that meet their hypotheses.
use group_a_cs.Base.{◌≡◌, refl, some, true, false, [], ◌∷◌, ◌++◌, codes}
use group_a_cs.Base.Int.{pos}
use group_a_cs.Libc.{atoi, strtok, fgets_lines}
use group_a_cs.Tables.{load_product_info, load_billing_info, next_text, next_int}
use group_a_cs.Tables.RoundTrip.Products.{no_product}
use group_a_cs.Tables.RoundTrip.Bills.{no_billing}
use group_a_cs.World.{product, sem_wait_wrt, begin_read, ◌>>=◌, blocked, done, looping, quiet}
use group_a_cs.Validate.{validate_id, validate_order_is_buyers}
use group_a_cs.Validate.Products.{left_twice}
use group_a_cs.Validate.Unknown.{
  writer_inside, validate_id_unknown, validate_order_is_buyers_looping,
}
use group_a_cs.Catalog.Request.{IsNumber}
use group_a_cs.Tests.Evidence.{number}
use group_a_cs.Tests.Samples.{zeroed, hook, apples, wayne_bill, two_rows, shop}

n1003 : IsNumber (codes "1003") (pos 1003)
unfolding atoi
n1003 = number (codes "1003") (pos 1003) refl refl

pub n3000 : IsNumber (codes "3000") (pos 3000)
unfolding atoi
n3000 = number (codes "3000") (pos 3000) refl refl

n3001 : IsNumber (codes "3001") (pos 3001)
unfolding atoi
n3001 = number (codes "3001") (pos 3001) refl refl

shop-bills :
    load_billing_info (shop two_rows).billing_info zeroed.billing_info
    ≡ some (true, wayne_bill ∷ no_billing ∷ no_billing ∷ no_billing ∷ [])
unfolding load_billing_info fgets_lines strtok atoi next_text next_int
shop-bills = refl

shop-products :
    load_product_info (shop two_rows).product_info zeroed.product_list
    ≡ some (true, (hook ∷ apples ∷ []) ++ no_product ∷ no_product ∷ [])
unfolding load_product_info fgets_lines strtok atoi next_text next_int
shop-products = refl

validate_order_is_buyers_looping_example :
    validate_order_is_buyers zeroed (codes "1003,3001,") (quiet (shop two_rows) [] []) ≡ looping
validate_order_is_buyers_looping_example =
    validate_order_is_buyers_looping zeroed (shop two_rows) [] [] [] n1003 n3001 wayne_bill
      (no_billing ∷ no_billing ∷ no_billing ∷ []) shop-bills refl refl

validate_id_unknown_example :
    (validate_id zeroed (codes "3001,[PRODUCT],") (quiet (shop two_rows) [] [])
      ≡ done false (left_twice (shop two_rows) [] []))
    × ((begin_read product >>= λ _. sem_wait_wrt product) (left_twice (shop two_rows) [] [])
        ≡ done tt (writer_inside (shop two_rows) [] []))
    × ((begin_read product >>= λ _. sem_wait_wrt product) (quiet (shop two_rows) [] []) ≡ blocked)
validate_id_unknown_example =
    validate_id_unknown zeroed (shop two_rows) [] [] (hook ∷ apples ∷ []) no_product
      (no_product ∷ []) shop-products (refl, (refl, tt)) refl n3001 refl
