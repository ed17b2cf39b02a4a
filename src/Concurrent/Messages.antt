-- ===== src/Concurrent/Messages.antt =====
-- Roden.c, `executeTaskOnServer`: the sections that a message runs.
use group_a_cs.Base.{◌≡◌, true, some, List, [], ◌∷◌, Bytes, codes, if◌then◌else◌}
use group_a_cs.Libc.{strstr}
use group_a_cs.World.{Locals, World, M, ◌>>=◌, write_socket}
use group_a_cs.Validate.{validate_order_is_buyers}
use group_a_cs.Clients.Edits.{client_edits_info}
use group_a_cs.Server.{reply_result, dispatch, extract_command, execute_task_on_server}
use group_a_cs.Concurrent.Commands.{
  Request, view_products as view_request, edit_buyer, edit_seller, name, number, address,
  complete_order, view_buyer_orders, check_buyer, order_details, mod_order, view_billing,
  new_product, seller_orders, delete_prod, mod_quant, mod_price,
}
use group_a_cs.Concurrent.Runs.{then_quiet, pure-Runs, write_socket-Runs}
use group_a_cs.Concurrent.Handlers.{
  RunsRequest, complete_an_order-Runs, buyer_views_order-Runs, validate_order_is_buyers-Runs,
  read_order_details-Runs, buyer_modifies_order-Runs, buyer_views_info-Runs, add_new_product-Runs,
  seller_views_orders-Runs, buyer_edits_name-Runs, buyer_edits_number-Runs,
  buyer_edits_address-Runs, seller_edits_name-Runs, seller_edits_number-Runs,
  seller_edits_address-Runs,
}
use group_a_cs.Concurrent.Answers.{HasFiles}
use group_a_cs.Concurrent.Choices.{
  RunsAmong, AgreesAmong, request_among, nothing_among, if-RunsAmong, among_quiet,
}
use group_a_cs.Concurrent.Choices.Tokens.{with_token, text_among, int_among}
use group_a_cs.Concurrent.Branches.{
  new_client_requests, validate_requests, reply_result-Runs, write_new_client_data-RunsAmong,
  validate_id-RunsAmong, view_products-RunsAmong,
}
use group_a_cs.Concurrent.Changes.{
  change_requests, delete_product-RunsAmong, modify_quantity-RunsAmong, modify_price-RunsAmong,
}

-- The request of an edit: the type is the first token and the sub-command the third.
abbrev pub edit_request : Bytes → Bytes × Bytes → List (List Request)
edit_request client sub_command =
    if strstr client (codes "[BUYER]")
    then (if strstr sub_command.0 (codes "[NAME]")
        then (edit_buyer name ∷ []) ∷ []
        else if strstr sub_command.0 (codes "[NUMBER]")
        then (edit_buyer number ∷ []) ∷ []
        else if strstr sub_command.0 (codes "[ADDRESS]")
        then (edit_buyer address ∷ []) ∷ []
        else [] ∷ [])
    else (if strstr sub_command.0 (codes "[NAME]")
        then (edit_seller name ∷ []) ∷ []
        else if strstr sub_command.0 (codes "[NUMBER]")
        then (edit_seller number ∷ []) ∷ []
        else if strstr sub_command.0 (codes "[ADDRESS]")
        then (edit_seller address ∷ []) ∷ []
        else [] ∷ [])

abbrev pub edit_requests : Bytes → List (List Request)
edit_requests buffer =
    with_token buffer
      (λ client. with_token client.1 (λ id. with_token id.1 (edit_request client.0)))

ruleset edit_runs = (
  if-RunsAmong, request_among, nothing_among, pure-Runs, buyer_edits_name-Runs,
  buyer_edits_number-Runs, buyer_edits_address-Runs, seller_edits_name-Runs,
  seller_edits_number-Runs, seller_edits_address-Runs,
)

module _ (v : Locals) where
  then_reply :
      (rss : List (List Request)) (m : M (Unit {0})) (reply : Bytes)
      → RunsAmong rss m
      → RunsAmong rss (m >>= λ _. write_socket reply)
  then_reply rss m reply h = among_quiet rss m _ h (λ a. write_socket-Runs reply)

  client_edits_info-RunsAmong :
      (buffer : Bytes) → RunsAmong (edit_requests buffer) (client_edits_info v buffer)
  unfolding client_edits_info
  client_edits_info-RunsAmong buffer =
      search (text_among, int_among, then_reply, edit_runs) depth 40

-- The requests that a command can be, with this text behind it. Only whether `validateID` finds an id
-- is left open, since it depends on the files.
abbrev pub requests_of : Bytes → Bytes → List (List Request)
requests_of command buffer =
    if strstr command (codes "[NEW_CLIENT]")
    then new_client_requests buffer
    else if strstr command (codes "[VALIDATE_ID]")
    then validate_requests buffer
    else if strstr command (codes "[VIEW_PRODUCTS]")
    then (view_request true ∷ []) ∷ []
    else if strstr command (codes "[COMPLETE_ORDER]")
    then (complete_order ∷ []) ∷ []
    else if strstr command (codes "[VIEW_BUYER_ORDERS]")
    then (view_buyer_orders ∷ []) ∷ []
    else if strstr command (codes "[CHECK_BUYER]")
    then (check_buyer true ∷ []) ∷ []
    else if strstr command (codes "[ORDER_DETAILS]")
    then (order_details ∷ []) ∷ []
    else if strstr command (codes "[MOD_ORDER]")
    then (mod_order ∷ []) ∷ []
    else if strstr command (codes "[VIEW_BILLING]")
    then (view_billing ∷ []) ∷ []
    else if strstr command (codes "[EDIT_INFO]")
    then edit_requests buffer
    else if strstr command (codes "[NEW_PRODUCT]")
    then (new_product ∷ []) ∷ []
    else if strstr command (codes "[DELETE_PROD]")
    then change_requests delete_prod
    else if strstr command (codes "[MOD_QUANT]")
    then change_requests mod_quant
    else if strstr command (codes "[MOD_PRICE]")
    then change_requests mod_price
    else if strstr command (codes "[SELLER_ORDERS]")
    then (seller_orders ∷ []) ∷ []
    else [] ∷ []

module _ (v : Locals) where
  check_buyer-Runs :
      (buffer : Bytes)
      → RunsRequest (check_buyer true) (validate_order_is_buyers v buffer >>= reply_result)
  check_buyer-Runs buffer =
      then_quiet _ _ _ (validate_order_is_buyers-Runs v buffer) reply_result-Runs

  dispatch-RunsAmong :
      (command buffer : Bytes) → RunsAmong (requests_of command buffer) (dispatch v command buffer)
  unfolding dispatch
  dispatch-RunsAmong command buffer =
      search
        (
          if-RunsAmong, write_new_client_data-RunsAmong, validate_id-RunsAmong,
          view_products-RunsAmong, client_edits_info-RunsAmong, delete_product-RunsAmong,
          modify_quantity-RunsAmong, modify_price-RunsAmong, request_among, nothing_among,
          pure-Runs, complete_an_order-Runs, buyer_views_order-Runs, check_buyer-Runs,
          read_order_details-Runs, buyer_modifies_order-Runs, buyer_views_info-Runs,
          add_new_product-Runs, seller_views_orders-Runs,
        )
        depth 30

-- Where the five files are, what a message does to the semaphores and counters, from any state, is what
-- the parts of the sections do of the request that its command and its tokens name, one after the
-- other, with no other thread between: where the handling ends, they have led to its semaphores, and
-- where it waits for ever, one of them does. Of an id that `validateID` looks for it is one of two
-- requests, with the id found or not. Nothing is said of undefined behaviour and of a loop without end.
pub message_runs_sections :
    (v : Locals) (message : Bytes) (w : World) {command buffer : Bytes}
    → HasFiles w
    → extract_command message v.command ≡ some (command, buffer)
    → AgreesAmong (requests_of command buffer) w.locks (execute_task_on_server v message w)
unfolding execute_task_on_server RunsAmong
message_runs_sections v message w {command} {buffer} files e =
    rw e (dispatch-RunsAmong v command buffer w files)
