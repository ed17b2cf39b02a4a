-- ===== src/Validate.antt =====
-- Roden.c, `validateID` and `validateOrderIsBuyers`: is an id in a table?
pub mod Products
pub mod Buyers
pub mod Unknown
use group_a_cs.Base.{ℕ, zero, suc, Bool, true, false, List, [], ◌∷◌, Bytes, codes, if◌then◌else◌}
use group_a_cs.Base.Int.{ℤ, eq_ℤ, is_zero}
use group_a_cs.Libc.{strstr}
use group_a_cs.Tables.{ClientInfo, ProductInfo, BillingInfo, CustomerOrderInfo}
use group_a_cs.World.{
  Table, buyer, seller, product, billing, order, Locals, Outcome, done, looping, M, ◌>>=◌, ◌>>◌,
  pure, lift, int_token, text_token, load_buyers, load_sellers, load_products, load_billing,
  load_orders, begin_read, end_read,
}
use group_a_cs.World.Rows.{any_row}

-- One branch of `validateID`. A loaded table is released before the scan, and once more where the
-- scan finds nothing.
unfoldable pub validate_in :
    Table → {A : Type 0} → (key : A → ℤ) → (id_of : A → ℤ) → ℤ → M (Bool × List A) → M Bool
validate_in t key id_of id load = do
  begin_read t
  loaded ← load
  if loaded.0
      then (do
        end_read t
        found ← lift (any_row key (λ r. eq_ℤ (id_of r) id) loaded.1)
        if found then pure true else (do end_read t; pure false))
      else (do end_read t; pure false)

-- `validateID`.
unfoldable pub validate_id : Locals → Bytes → M Bool
unfolding validate_in
validate_id v buffer = do
  id ← int_token buffer
  db ← text_token 20 id.1
  if strstr db.0 (codes "[BUYER]")
      then validate_in buyer ClientInfo.uuid ClientInfo.uuid id.0 (load_buyers v.client_db)
      else if strstr db.0 (codes "[SELLER]")
      then validate_in seller ClientInfo.uuid ClientInfo.uuid id.0 (load_sellers v.client_db)
      else if strstr db.0 (codes "[PRODUCT]")
      then validate_in product ProductInfo.product_id ProductInfo.product_id id.0
          (load_products v.product_list)
      else if strstr db.0 (codes "[BILLING]")
      then validate_in billing BillingInfo.order_id BillingInfo.order_id id.0
          (load_billing v.billing_info)
      else if strstr db.0 (codes "[ORDER]")
      then validate_in order CustomerOrderInfo.order_id CustomerOrderInfo.product_id id.0
          (load_orders v.customer_order_info)
      else pure false

-- The loop of `validateOrderIsBuyers`, which reads the first row in every round.
unfoldable pub check_first : ℕ → ℤ → ℤ → List BillingInfo → M Bool
check_first rounds buyer_id order_id [] w = Outcome.fault
check_first zero buyer_id order_id (r ∷ rows) w = looping
check_first (suc n) buyer_id order_id (r ∷ rows) w = elim (is_zero r.order_id) [
  | true ↦ done false w
  | false ↦ elim (eq_ℤ r.order_id order_id) [
    | true ↦ done (eq_ℤ r.customer_id buyer_id) w
    | false ↦ check_first n buyer_id order_id (r ∷ rows) w
  ]
]

unfoldable pub validate_order_is_buyers : Locals → Bytes → M Bool
unfolding check_first
validate_order_is_buyers v buffer = do
  buyer_id ← int_token buffer
  order_id ← int_token buyer_id.1
  begin_read billing
  loaded ← load_billing v.billing_info
  end_read billing
  check_first v.rounds buyer_id.0 order_id.0 loaded.1
