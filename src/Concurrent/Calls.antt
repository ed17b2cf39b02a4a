-- ===== src/Concurrent/Calls.antt =====
-- The calls of a handler that leave the semaphores alone: tokens, loads and write-backs.
use group_a_cs.Base.{ℕ, refl, some, List, [], Bytes}
use group_a_cs.Libc.{strtok}
use group_a_cs.Tables.{
  ClientInfo, ProductInfo, BillingInfo, CustomerOrderInfo, load_client_info, load_product_info,
  load_billing_info, load_customer_order_info,
}
use group_a_cs.Tables.Save.{
  write_back_client_struct, write_back_product_struct, write_back_billing_struct,
  write_back_customer_order_struct,
}
use group_a_cs.World.{
  buyer, seller, product, billing, order, Locals, token, int_token, text_token, load_buyers,
  load_sellers, load_products, load_billing, load_orders, save_buyers, save_sellers, save_products,
  save_billing, save_orders,
}
use group_a_cs.Concurrent.Runs.{
  Part, enter, leave, wait, post, parts, Runs, quiet_then, part_then, lift-Runs, pure-Runs,
  load-Runs, unchanged-Runs, save-Runs, branch-Runs, write_socket-Runs, begin_read-Runs,
  end_read-Runs, sem_wait_wrt-Runs, sem_post_wrt-Runs,
}

-- The rules for the parts of a section.
pub ruleset runs = (
  quiet_then, part_then, lift-Runs, pure-Runs, write_socket-Runs, begin_read-Runs, end_read-Runs,
  sem_wait_wrt-Runs, sem_post_wrt-Runs,
)

module _ (s : Bytes) where
  pub token-Runs : Runs [] (token s)
  token-Runs = lift-Runs (strtok s)

  pub int_token-Runs : Runs [] (int_token s)
  int_token-Runs = search (runs)

  pub text_token-Runs : (size : ℕ) → Runs [] (text_token size s)
  text_token-Runs size = search (runs)

-- Loading a table.
module _ (v : Locals) where
  pub load_buyers-Runs : (table : List ClientInfo) → Runs [] (load_buyers table)
  load_buyers-Runs table = load-Runs (λ w. load_client_info w.files.customer_info table)

  pub load_sellers-Runs : (table : List ClientInfo) → Runs [] (load_sellers table)
  load_sellers-Runs table = load-Runs (λ w. load_client_info w.files.seller_info table)

  pub load_products-Runs : (table : List ProductInfo) → Runs [] (load_products table)
  load_products-Runs table = load-Runs (λ w. load_product_info w.files.product_info table)

  pub load_billing-Runs : (table : List BillingInfo) → Runs [] (load_billing table)
  load_billing-Runs table = load-Runs (λ w. load_billing_info w.files.billing_info table)

  pub load_orders-Runs : (table : List CustomerOrderInfo) → Runs [] (load_orders table)
  load_orders-Runs table = load-Runs (λ w. load_customer_order_info w.files.customer_order table)

  -- Writing one back.
  pub save_buyers-Runs : (table : List ClientInfo) → Runs [] (save_buyers v table)
  save_buyers-Runs table =
      save-Runs (λ w. write_back_client_struct (v.put_back buyer) w.files.customer_info table)
        (λ t w. record w { files = record w.files { customer_info = some t } }) (λ t w. refl)

  pub save_sellers-Runs : (table : List ClientInfo) → Runs [] (save_sellers v table)
  save_sellers-Runs table =
      save-Runs (λ w. write_back_client_struct (v.put_back seller) w.files.seller_info table)
        (λ t w. record w { files = record w.files { seller_info = some t } }) (λ t w. refl)

  pub save_products-Runs : (table : List ProductInfo) → Runs [] (save_products v table)
  save_products-Runs table =
      save-Runs (λ w. write_back_product_struct (v.put_back product) w.files.product_info table)
        (λ t w. record w { files = record w.files { product_info = some t } }) (λ t w. refl)

  pub save_billing-Runs : (table : List BillingInfo) → Runs [] (save_billing v table)
  save_billing-Runs table =
      save-Runs (λ w. write_back_billing_struct (v.put_back billing) w.files.billing_info table)
        (λ t w. record w { files = record w.files { billing_info = some t } }) (λ t w. refl)

  pub save_orders-Runs : (table : List CustomerOrderInfo) → Runs [] (save_orders v table)
  save_orders-Runs table =
      save-Runs
        (λ w. write_back_customer_order_struct (v.put_back order) w.files.customer_order table)
        (λ t w. record w { files = record w.files { customer_order = some t } }) (λ t w. refl)

-- The rules for what a handler does between and behind them.
pub ruleset handler_runs = (
  runs, int_token-Runs, text_token-Runs, load_buyers-Runs, load_sellers-Runs, load_products-Runs,
  load_billing-Runs, load_orders-Runs, save_buyers-Runs, save_sellers-Runs, save_products-Runs,
  save_billing-Runs, save_orders-Runs,
)
