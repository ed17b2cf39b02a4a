-- ===== src/Server/Dispatch.antt =====
-- Which handler a message reaches.
use group_a_cs.Base.{◌≡◌, refl, [], ◌∷◌, ◌++◌, Bytes, codes, ℕ}
use group_a_cs.Libc.{strtok, strtok_rest, strstr}
use group_a_cs.World.{Locals, World, M, ◌>>=◌}
use group_a_cs.Validate.{validate_id, validate_order_is_buyers}
use group_a_cs.Catalog.{
  view_products, add_new_product, delete_product, modify_quantity, modify_price,
}
use group_a_cs.Ordering.Complete.{complete_an_order, buyer_modifies_order}
use group_a_cs.Clients.{write_new_client_data}
use group_a_cs.Clients.Edits.{client_edits_info}
use group_a_cs.Views.{buyer_views_order, buyer_views_info, seller_views_orders, read_order_details}
use group_a_cs.Server.{execute_task_on_server, extract_command, dispatch, reply_result}

-- The commands that the comments of `executeTaskOnServer` list.
pub data Command : Type 0 where
  new_client check_id view_all complete_order view_buyer_orders check_buyer order_details mod_order
        view_billing edit_info new_product delete_prod mod_quant mod_price seller_orders :
      Command

abbrev pub command_text : Command → Bytes
command_text new_client = codes "[NEW_CLIENT]"
command_text check_id = codes "[VALIDATE_ID]"
command_text view_all = codes "[VIEW_PRODUCTS]"
command_text complete_order = codes "[COMPLETE_ORDER]"
command_text view_buyer_orders = codes "[VIEW_BUYER_ORDERS]"
command_text check_buyer = codes "[CHECK_BUYER]"
command_text order_details = codes "[ORDER_DETAILS]"
command_text mod_order = codes "[MOD_ORDER]"
command_text view_billing = codes "[VIEW_BILLING]"
command_text edit_info = codes "[EDIT_INFO]"
command_text new_product = codes "[NEW_PRODUCT]"
command_text delete_prod = codes "[DELETE_PROD]"
command_text mod_quant = codes "[MOD_QUANT]"
command_text mod_price = codes "[MOD_PRICE]"
command_text seller_orders = codes "[SELLER_ORDERS]"

abbrev pub handler : Locals → Command → Bytes → M (Unit {0})
handler v new_client m = write_new_client_data v m
handler v check_id m = validate_id v m >>= reply_result
handler v view_all m = view_products v m
handler v complete_order m = complete_an_order v m
handler v view_buyer_orders m = buyer_views_order v m
handler v check_buyer m = validate_order_is_buyers v m >>= reply_result
handler v order_details m = read_order_details v m
handler v mod_order m = buyer_modifies_order v m
handler v view_billing m = buyer_views_info v m
handler v edit_info m = client_edits_info v m
handler v new_product m = add_new_product v m
handler v delete_prod m = delete_product v m
handler v mod_quant m = modify_quantity v m
handler v mod_price m = modify_price v m
handler v seller_orders m = seller_views_orders v m

-- A message of a command, a comma and a text that is not empty is handled by the handler of this
-- command and by no other, on the text with a newline behind it.
pub execute_task_on_server-handler :
    (v : Locals) (k : Command) (c : ℕ) (s : Bytes) (w : World)
    → execute_task_on_server v (command_text k ++ b',' ∷ c ∷ s) w
      ≡ handler v k (c ∷ s ++ b'\n' ∷ []) w
unfolding execute_task_on_server extract_command dispatch strtok strtok_rest strstr
execute_task_on_server-handler v new_client c s w = refl
execute_task_on_server-handler v check_id c s w = refl
execute_task_on_server-handler v view_all c s w = refl
execute_task_on_server-handler v complete_order c s w = refl
execute_task_on_server-handler v view_buyer_orders c s w = refl
execute_task_on_server-handler v check_buyer c s w = refl
execute_task_on_server-handler v order_details c s w = refl
execute_task_on_server-handler v mod_order c s w = refl
execute_task_on_server-handler v view_billing c s w = refl
execute_task_on_server-handler v edit_info c s w = refl
execute_task_on_server-handler v new_product c s w = refl
execute_task_on_server-handler v delete_prod c s w = refl
execute_task_on_server-handler v mod_quant c s w = refl
execute_task_on_server-handler v mod_price c s w = refl
execute_task_on_server-handler v seller_orders c s w = refl
