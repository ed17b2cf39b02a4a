-- ===== src/Concurrent/Handlers.antt =====
-- The sections that the handlers of Roden.c run, from their own model.
use group_a_cs.Base.{
  refl, false, ℕ, zero, suc, ◌≡◌, true, Bool, Option, List, [], ◌∷◌, ◌++◌, map, Bool-cases, inl,
  inr, ◌⊎◌, Bytes,
}
use group_a_cs.Base.Int.{ℤ, is_zero, eq_ℤ}
use group_a_cs.Tables.{BillingInfo, CustomerOrderInfo}
use group_a_cs.World.{done, fault, looping, Locals, World, M, done}
use group_a_cs.Validate.{validate_order_is_buyers, check_first}
use group_a_cs.Catalog.{add_new_product}
use group_a_cs.Ordering.Complete.{complete_an_order, buyer_modifies_order}
use group_a_cs.Clients.Edits.{
  name_tokens, number_token, address_tokens, change_buyer_orders, seller_edits_name,
  seller_edits_number, seller_edits_address, buyer_edits_number, buyer_edits_name,
  buyer_edits_address,
}
use group_a_cs.Views.{buyer_views_order, buyer_views_info, seller_views_orders, read_order_details}
use group_a_cs.Concurrent.{Section, reading, writing, entering, leaving}
use group_a_cs.Concurrent.Commands.{
  Request, sections_of, view_buyer_orders, view_billing, seller_orders, order_details, mod_order,
  new_product, complete_order, check_buyer, edit_buyer, edit_seller, name, number, address,
}
use group_a_cs.Concurrent.Runs.{Part, enter, leave, wait, post, Runs, unchanged-Runs, branch-Runs}
use group_a_cs.Concurrent.Calls.{handler_runs}

-- A section in parts.
abbrev pub section_parts : Section → List Part
section_parts (reading t) = enter t ∷ leave t ∷ []
section_parts (writing ts) = map wait ts ++ map post ts
section_parts (entering t) = enter t ∷ []
section_parts (leaving t) = leave t ∷ []

abbrev pub sections_parts : List Section → List Part
sections_parts [] = []
sections_parts (s ∷ ss) = section_parts s ++ sections_parts ss

abbrev pub RunsRequest : {A : Type 0} → Request → M A → Type 0
RunsRequest r = Runs (sections_parts (sections_of r))

module _ (v : Locals) (buffer : Bytes) where
  pub buyer_views_order-Runs : RunsRequest view_buyer_orders (buyer_views_order v buffer)
  unfolding buyer_views_order
  buyer_views_order-Runs = search (handler_runs) depth 20

  pub buyer_views_info-Runs : RunsRequest view_billing (buyer_views_info v buffer)
  unfolding buyer_views_info
  buyer_views_info-Runs = search (handler_runs) depth 20

  pub seller_views_orders-Runs : RunsRequest seller_orders (seller_views_orders v buffer)
  unfolding seller_views_orders
  seller_views_orders-Runs = search (handler_runs) depth 20

  pub read_order_details-Runs : RunsRequest order_details (read_order_details v buffer)
  unfolding read_order_details
  read_order_details-Runs = search (handler_runs) depth 20

  pub buyer_modifies_order-Runs : RunsRequest mod_order (buyer_modifies_order v buffer)
  unfolding buyer_modifies_order
  buyer_modifies_order-Runs = search (handler_runs) depth 30

  pub add_new_product-Runs : RunsRequest new_product (add_new_product v buffer)
  unfolding add_new_product
  add_new_product-Runs = search (handler_runs) depth 30

  pub complete_an_order-Runs : RunsRequest complete_order (complete_an_order v buffer)
  unfolding complete_an_order
  complete_an_order-Runs = search (handler_runs, branch-Runs) depth 40

check_first-unchanged :
    (rounds : ℕ) (buyer_id order_id : ℤ) (rows : List BillingInfo) (w : World)
    → ((a : Bool) × (check_first rounds buyer_id order_id rows w ≡ done a w))
      ⊎ (check_first rounds buyer_id order_id rows w ≡ fault)
      ⊎ (check_first rounds buyer_id order_id rows w ≡ looping)
unfolding check_first
check_first-unchanged rounds b o [] w = inr (inl refl)
check_first-unchanged zero b o (r ∷ rows) w = inr (inr refl)
check_first-unchanged (suc n) b o (r ∷ rows) w = elim (Bool-cases (is_zero r.order_id)) [
  | inl z ↦ inl (false, rw (z, check_first) refl)
  | inr z ↦ elim (Bool-cases (eq_ℤ r.order_id o)) [
    | inl y ↦ inl (eq_ℤ r.customer_id b, rw (z, check_first) (rw (y, check_first) refl))
    | inr y ↦ rw (z, check_first) (rw (y, check_first) (check_first-unchanged n b o (r ∷ rows) w))
  ]
]

check_first-Runs :
    (rounds : ℕ) (buyer_id order_id : ℤ) (rows : List BillingInfo)
    → Runs [] (check_first rounds buyer_id order_id rows)
check_first-Runs rounds b o rows = unchanged-Runs _ (check_first-unchanged rounds b o rows)

pub validate_order_is_buyers-Runs :
    (v : Locals) (buffer : Bytes)
    → RunsRequest (check_buyer true) (validate_order_is_buyers v buffer)
unfolding validate_order_is_buyers
validate_order_is_buyers-Runs v buffer = search (handler_runs, check_first-Runs) depth 20

module _ (ptr : Option Bytes) where
  name_tokens-Runs : Runs [] (name_tokens ptr)
  unfolding name_tokens
  name_tokens-Runs = search (handler_runs)

  number_token-Runs : Runs [] (number_token ptr)
  unfolding number_token
  number_token-Runs = search (handler_runs)

  address_tokens-Runs : Runs [] (address_tokens ptr)
  unfolding address_tokens
  address_tokens-Runs = search (handler_runs) depth 20

module _ (v : Locals) (ptr : Option Bytes) (id : ℤ) where
  pub seller_edits_name-Runs : RunsRequest (edit_seller name) (seller_edits_name v ptr id)
  unfolding seller_edits_name
  seller_edits_name-Runs = search (handler_runs, name_tokens-Runs) depth 20

  pub seller_edits_number-Runs : RunsRequest (edit_seller number) (seller_edits_number v ptr id)
  unfolding seller_edits_number
  seller_edits_number-Runs = search (handler_runs, number_token-Runs) depth 20

  pub seller_edits_address-Runs : RunsRequest (edit_seller address) (seller_edits_address v ptr id)
  unfolding seller_edits_address
  seller_edits_address-Runs = search (handler_runs, address_tokens-Runs) depth 20

  pub buyer_edits_number-Runs : RunsRequest (edit_buyer number) (buyer_edits_number v ptr id)
  unfolding buyer_edits_number
  buyer_edits_number-Runs = search (handler_runs, number_token-Runs) depth 20

  change_buyer_orders-Runs :
      (f : BillingInfo → BillingInfo) (g : CustomerOrderInfo → CustomerOrderInfo)
      → Runs [] (change_buyer_orders v id f g)
  unfolding change_buyer_orders
  change_buyer_orders-Runs f g = search (handler_runs) depth 20

  pub buyer_edits_name-Runs : RunsRequest (edit_buyer name) (buyer_edits_name v ptr id)
  unfolding buyer_edits_name
  buyer_edits_name-Runs = search (handler_runs, name_tokens-Runs, change_buyer_orders-Runs) depth 30

  pub buyer_edits_address-Runs : RunsRequest (edit_buyer address) (buyer_edits_address v ptr id)
  unfolding buyer_edits_address
  buyer_edits_address-Runs =
      search (handler_runs, address_tokens-Runs, change_buyer_orders-Runs) depth 30

-- From any state, each of these handlers does to the semaphores and counters what the parts of the
-- sections do that `sections_of` gives for its message, one after the other, with no other thread
-- between: where it ends, they have led to its semaphores, and where it waits for ever, one of them
-- does. Nothing is said of undefined behaviour and of a loop without end. The handlers are
-- completeAnOrder, buyerModifiesOrder, buyerViewsOrder, buyerViewsInfo, sellerViewsOrders,
-- readOrderDetails, validateOrderIsBuyers, addNewProduct and the six edits.
pub handlers_run_sections :
    (v : Locals) (buffer : Bytes) (ptr : Option Bytes) (id : ℤ)
    → RunsRequest complete_order (complete_an_order v buffer)
      × RunsRequest mod_order (buyer_modifies_order v buffer)
      × RunsRequest view_buyer_orders (buyer_views_order v buffer)
      × RunsRequest view_billing (buyer_views_info v buffer)
      × RunsRequest seller_orders (seller_views_orders v buffer)
      × RunsRequest order_details (read_order_details v buffer)
      × RunsRequest (check_buyer true) (validate_order_is_buyers v buffer)
      × RunsRequest new_product (add_new_product v buffer)
      × RunsRequest (edit_seller name) (seller_edits_name v ptr id)
      × RunsRequest (edit_seller number) (seller_edits_number v ptr id)
      × RunsRequest (edit_seller address) (seller_edits_address v ptr id)
      × RunsRequest (edit_buyer name) (buyer_edits_name v ptr id)
      × RunsRequest (edit_buyer number) (buyer_edits_number v ptr id)
      × RunsRequest (edit_buyer address) (buyer_edits_address v ptr id)
handlers_run_sections v buffer ptr id = (
  complete_an_order-Runs v buffer,
  buyer_modifies_order-Runs v buffer,
  buyer_views_order-Runs v buffer,
  buyer_views_info-Runs v buffer,
  seller_views_orders-Runs v buffer,
  read_order_details-Runs v buffer,
  validate_order_is_buyers-Runs v buffer,
  add_new_product-Runs v buffer,
  seller_edits_name-Runs v ptr id,
  seller_edits_number-Runs v ptr id,
  seller_edits_address-Runs v ptr id,
  buyer_edits_name-Runs v ptr id,
  buyer_edits_number-Runs v ptr id,
  buyer_edits_address-Runs v ptr id,
)
