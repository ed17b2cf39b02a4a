-- ===== src/Server.antt =====
-- Roden.c, `extractCommand` and `executeTaskOnServer`, and the loop of a thread in dataServer.c.
pub mod Dispatch
pub mod Sessions
use group_a_cs.Base.{
  ◌-◌, Bool, Option, none, some, List, [], ◌∷◌, ◌++◌, Bytes, codes, if◌then◌else◌, length, take,
}
use group_a_cs.Base.Int.{ℤ}
use group_a_cs.Libc.{strtok, strtok_rest, strcpy, strstr, skip_commas}
use group_a_cs.World.{Locals, World, M, ◌>>=◌, pure, lift, write_socket, Files, all_free}
use group_a_cs.Validate.{validate_id, validate_order_is_buyers}
use group_a_cs.Catalog.{
  confirmation, invalid, view_products, add_new_product, delete_product, modify_quantity,
  modify_price,
}
use group_a_cs.Ordering.Complete.{complete_an_order, buyer_modifies_order}
use group_a_cs.Clients.{write_new_client_data}
use group_a_cs.Clients.Edits.{client_edits_info}
use group_a_cs.Views.{buyer_views_order, buyer_views_info, seller_views_orders, read_order_details}

-- `extractCommand`: the command and the new buffer. With no token the command stays as it was, and
-- with nothing behind it the buffer ends behind the command.
unfoldable pub extract_command : Bytes → Bytes → Option (Bytes × Bytes)
extract_command buffer command = elim (strtok buffer) [
  | none ↦ some (command, buffer)
  | some t ↦ elim (strcpy 25 t.0) [
    | none ↦ none
    | some c ↦ elim (strtok_rest t.1) [
      | none ↦ some (c, take (length buffer - length (skip_commas buffer)) buffer ++ t.0)
      | some ptr ↦ some (c, ptr ++ b'\n' ∷ [])
    ]
  ]
]

abbrev pub reply_result : Bool → M (Unit {0})
reply_result result = if result then write_socket confirmation else write_socket invalid

-- The chain of tests of `executeTaskOnServer`.
unfoldable pub dispatch : Locals → Bytes → Bytes → M (Unit {0})
dispatch v command buffer =
    if strstr command (codes "[NEW_CLIENT]")
    then write_new_client_data v buffer
    else if strstr command (codes "[VALIDATE_ID]")
    then validate_id v buffer >>= reply_result
    else if strstr command (codes "[VIEW_PRODUCTS]")
    then view_products v buffer
    else if strstr command (codes "[COMPLETE_ORDER]")
    then complete_an_order v buffer
    else if strstr command (codes "[VIEW_BUYER_ORDERS]")
    then buyer_views_order v buffer
    else if strstr command (codes "[CHECK_BUYER]")
    then validate_order_is_buyers v buffer >>= reply_result
    else if strstr command (codes "[ORDER_DETAILS]")
    then read_order_details v buffer
    else if strstr command (codes "[MOD_ORDER]")
    then buyer_modifies_order v buffer
    else if strstr command (codes "[VIEW_BILLING]")
    then buyer_views_info v buffer
    else if strstr command (codes "[EDIT_INFO]")
    then client_edits_info v buffer
    else if strstr command (codes "[NEW_PRODUCT]")
    then add_new_product v buffer
    else if strstr command (codes "[DELETE_PROD]")
    then delete_product v buffer
    else if strstr command (codes "[MOD_QUANT]")
    then modify_quantity v buffer
    else if strstr command (codes "[MOD_PRICE]")
    then modify_price v buffer
    else if strstr command (codes "[SELLER_ORDERS]")
    then seller_views_orders v buffer
    else pure tt

-- `executeTaskOnServer`, on the message that `readSocket` reads.
unfoldable pub execute_task_on_server : Locals → Bytes → M (Unit {0})
unfolding extract_command dispatch
execute_task_on_server v message = do
  c ← lift (extract_command message v.command)
  dispatch v c.0 c.1

-- The loop of `threadTask`, for the messages that its client sends.
unfoldable pub thread_task : Locals → List Bytes → M (Unit {0})
unfolding execute_task_on_server
thread_task v [] w = pure tt w
thread_task v (m ∷ ms) w = (execute_task_on_server v m >>= λ _. thread_task v ms) w

-- The state that `main` of dataServer.c sets up.
abbrev pub initial : Files → List ℤ → World
initial files deleted = record {
  files = files;
  locks = all_free;
  deleted_products = deleted;
  sent = [];
}
