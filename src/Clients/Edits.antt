-- ===== src/Clients/Edits.antt =====
-- Roden.c, `clientEditsInfo` and the six functions that it calls. `ptr` is what is behind the
-- sub-command; each function takes its tokens from it, and a null pointer has none.
pub mod Names
use group_a_cs.Base.{Option, none, some, List, [], ◌∷◌, Bytes, codes, if◌then◌else◌}
use group_a_cs.Base.Int.{ℤ, eq_ℤ}
use group_a_cs.Libc.{strstr, strtok_rest}
use group_a_cs.Tables.{ClientInfo, BillingInfo, CustomerOrderInfo}
use group_a_cs.World.{
  buyer, seller, billing, order, Locals, M, ◌>>=◌, ◌>>◌, pure, lift, int_token, text_token,
  write_socket, load_buyers, load_sellers, load_billing, load_orders, save_buyers, save_sellers,
  save_billing, save_orders, sem_wait_wrt, sem_post_wrt,
}
use group_a_cs.World.Rows.{find_row, select_rows, change_rows, modify_row}
use group_a_cs.Catalog.{confirmation}

unfoldable pub name_tokens : Option Bytes → M (Bytes × Bytes)
name_tokens ptr = do
  s ← lift ptr
  first ← text_token 20 s
  last ← text_token 20 first.1
  pure (first.0, last.0)

unfoldable pub number_token : Option Bytes → M Bytes
number_token ptr = do s ← lift ptr; phone ← text_token 20 s; pure phone.0

unfoldable pub address_tokens : Option Bytes → M (Bytes × Bytes × Bytes × Bytes)
address_tokens ptr = do
  s ← lift ptr
  street ← text_token 20 s
  city ← text_token 20 street.1
  state ← text_token 20 city.1
  zip ← text_token 20 state.1
  pure (street.0, city.0, state.0, zip.0)

abbrev pub named : Bytes × Bytes → ClientInfo → Option ClientInfo
named n r = some (record r { first_name = n.0; last_name = n.1 })

abbrev pub numbered : Bytes → ClientInfo → Option ClientInfo
numbered n r = some (record r { phone_number = n })

abbrev pub addressed : Bytes × Bytes × Bytes × Bytes → ClientInfo → Option ClientInfo
addressed a r = some (record r { street_address = a.0; city = a.1; state = a.2; zip_code = a.3 })

-- `sellerEditsName`.
unfoldable pub seller_edits_name : Locals → Option Bytes → ℤ → M (Unit {0})
seller_edits_name v ptr id = do
  sem_wait_wrt seller
  loaded ← load_sellers v.client_db
  row ← lift (find_row ClientInfo.uuid id loaded.1)
  n ← name_tokens ptr
  rows ← lift (modify_row row (named n) loaded.1)
  save_sellers v rows
  sem_post_wrt seller

-- `sellerEditsNumber`.
unfoldable pub seller_edits_number : Locals → Option Bytes → ℤ → M (Unit {0})
seller_edits_number v ptr id = do
  sem_wait_wrt seller
  loaded ← load_sellers v.client_db
  row ← lift (find_row ClientInfo.uuid id loaded.1)
  n ← number_token ptr
  rows ← lift (modify_row row (numbered n) loaded.1)
  save_sellers v rows
  sem_post_wrt seller

-- `sellerEditsAddress`.
unfoldable pub seller_edits_address : Locals → Option Bytes → ℤ → M (Unit {0})
seller_edits_address v ptr id = do
  sem_wait_wrt seller
  loaded ← load_sellers v.client_db
  row ← lift (find_row ClientInfo.uuid id loaded.1)
  a ← address_tokens ptr
  rows ← lift (modify_row row (addressed a) loaded.1)
  save_sellers v rows
  sem_post_wrt seller

-- `buyerEditsNumber`.
unfoldable pub buyer_edits_number : Locals → Option Bytes → ℤ → M (Unit {0})
buyer_edits_number v ptr id = do
  sem_wait_wrt buyer
  loaded ← load_buyers v.client_db
  row ← lift (find_row ClientInfo.uuid id loaded.1)
  n ← number_token ptr
  rows ← lift (modify_row row (numbered n) loaded.1)
  save_buyers v rows
  sem_post_wrt buyer

-- The loops of `buyerEditsName` and `buyerEditsAddress` over the order table: one for each order id
-- that the billing table has for the buyer.
unfoldable pub change_orders :
    List BillingInfo
    → (CustomerOrderInfo → CustomerOrderInfo)
    → List CustomerOrderInfo
    → Option (List CustomerOrderInfo)
change_orders [] f table = some table
change_orders (b ∷ bs) f table =
    elim (change_rows CustomerOrderInfo.order_id (λ r. eq_ℤ r.order_id b.order_id) f table) [
      | none ↦ none
      | some table' ↦ change_orders bs f table'
    ]

-- What both do with the billing and the order tables.
unfoldable pub change_buyer_orders :
    Locals
    → ℤ
    → (BillingInfo → BillingInfo)
    → (CustomerOrderInfo → CustomerOrderInfo)
    → M (Unit {0})
unfolding change_orders
change_buyer_orders v id f g = do
  bills ← load_billing v.billing_info
  mine ← lift (select_rows BillingInfo.order_id (λ r. eq_ℤ r.customer_id id) bills.1)
  bills' ← lift (change_rows BillingInfo.order_id (λ r. eq_ℤ r.customer_id id) f bills.1)
  save_billing v bills'
  orders ← load_orders v.customer_order_info
  orders' ← lift (change_orders mine g orders.1)
  save_orders v orders'

-- `buyerEditsName`.
unfoldable pub buyer_edits_name : Locals → Option Bytes → ℤ → M (Unit {0})
unfolding change_buyer_orders
buyer_edits_name v ptr id = do
  sem_wait_wrt buyer
  sem_wait_wrt billing
  sem_wait_wrt order
  loaded ← load_buyers v.client_db
  row ← lift (find_row ClientInfo.uuid id loaded.1)
  n ← name_tokens ptr
  rows ← lift (modify_row row (named n) loaded.1)
  save_buyers v rows
  change_buyer_orders v id (λ r. record r { first_name = n.0; last_name = n.1 })
      (λ r. record r { first_name = n.0; last_name = n.1 })
  sem_post_wrt buyer
  sem_post_wrt billing
  sem_post_wrt order

-- `buyerEditsAddress`.
unfoldable pub buyer_edits_address : Locals → Option Bytes → ℤ → M (Unit {0})
unfolding change_buyer_orders
buyer_edits_address v ptr id = do
  sem_wait_wrt buyer
  sem_wait_wrt billing
  sem_wait_wrt order
  loaded ← load_buyers v.client_db
  row ← lift (find_row ClientInfo.uuid id loaded.1)
  a ← address_tokens ptr
  rows ← lift (modify_row row (addressed a) loaded.1)
  save_buyers v rows
  change_buyer_orders v id
      (λ r. record r { street_address = a.0; city = a.1; state = a.2; zip_code = a.3 })
      (λ r. record r { street_address = a.0; city = a.1; state = a.2; zip_code = a.3 })
  sem_post_wrt buyer
  sem_post_wrt billing
  sem_post_wrt order

-- `clientEditsInfo`.
unfoldable pub client_edits_info : Locals → Bytes → M (Unit {0})
client_edits_info v buffer = do
  client_type ← text_token 20 buffer
  client_id ← int_token client_type.1
  sub_command ← text_token 20 client_id.1
  let ptr = strtok_rest sub_command.1
  if strstr client_type.0 (codes "[BUYER]")
      then (if strstr sub_command.0 (codes "[NAME]")
          then buyer_edits_name v ptr client_id.0
          else if strstr sub_command.0 (codes "[NUMBER]")
          then buyer_edits_number v ptr client_id.0
          else if strstr sub_command.0 (codes "[ADDRESS]")
          then buyer_edits_address v ptr client_id.0
          else pure tt)
      else (if strstr sub_command.0 (codes "[NAME]")
          then seller_edits_name v ptr client_id.0
          else if strstr sub_command.0 (codes "[NUMBER]")
          then seller_edits_number v ptr client_id.0
          else if strstr sub_command.0 (codes "[ADDRESS]")
          then seller_edits_address v ptr client_id.0
          else pure tt)
  write_socket confirmation
