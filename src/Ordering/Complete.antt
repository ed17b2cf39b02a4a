-- ===== src/Ordering/Complete.antt =====
-- Roden.c, `completeAnOrder` and `buyerModifiesOrder`: the handlers that write the billing and the
-- order tables.
pub mod Replies
pub mod Returns
use group_a_cs.Base.{not, [], ◌∷◌, ◌++◌, Bytes, if◌then◌else◌}
use group_a_cs.Base.Int.{eq_ℤ}
use group_a_cs.Libc.{strtok_rest}
use group_a_cs.Tables.{BillingInfo, CustomerOrderInfo}
use group_a_cs.World.{
  product, billing, order, Locals, M, ◌>>=◌, ◌>>◌, lift, int_token, write_socket, generate_uid,
  load_buyers, load_products, load_billing, load_orders, save_products, save_billing, save_orders,
  sem_wait_wrt, sem_post_wrt,
}
use group_a_cs.World.Rows.{find_row, select_rows, modify_row, get_row, overwrite}
use group_a_cs.Catalog.{confirmation, invalid}
use group_a_cs.Ordering.{
  extract_buyer_order, validate_buyer_order, new_product_quantity_from_order, order_to_billing_info,
  order_to_customer_order, find_buyer_in_client_info, deduct_cost,
}

-- `completeAnOrder`.
unfoldable pub complete_an_order : Locals → Bytes → M (Unit {0})
complete_an_order v buffer = do
  buyer_id ← int_token buffer
  rest ← lift (strtok_rest buyer_id.1)
  order_list ← lift (extract_buyer_order (rest ++ b'\n' ∷ []) v.order_list)
  sem_wait_wrt product
  sem_wait_wrt billing
  sem_wait_wrt order
  products ← load_products v.product_list
  valid ← lift (validate_buyer_order order_list products.1)
  if valid
      then (do
        buyers ← load_buyers v.client_db
        bills ← load_billing v.billing_info
        orders ← load_orders v.customer_order_info
        row ← lift (find_buyer_in_client_info buyer_id.0 buyers.1)
        products' ← lift (new_product_quantity_from_order order_list products.1)
        save_products v products'
        buyer_data ← lift (get_row row buyers.1)
        bills' ← lift (order_to_billing_info (generate_uid v) buyer_data order_list bills.1)
        save_billing v bills'
        orders' ← lift (order_to_customer_order (generate_uid v) buyer_data order_list orders.1)
        save_orders v orders'
        write_socket confirmation)
      else write_socket invalid
  sem_post_wrt product
  sem_post_wrt billing
  sem_post_wrt order

-- `buyerModifiesOrder`: the price that is taken off is that of the first row of the order, and the
-- rows that go are those of the product in every order. No reply is written.
unfoldable pub buyer_modifies_order : Locals → Bytes → M (Unit {0})
buyer_modifies_order v buffer = do
  order_id ← int_token buffer
  returned ← int_token order_id.1
  sem_wait_wrt billing
  sem_wait_wrt order
  orders ← load_orders v.customer_order_info
  bills ← load_billing v.billing_info
  i ← lift (find_row CustomerOrderInfo.order_id order_id.0 orders.1)
  item ← lift (get_row i orders.1)
  kept ←
      lift (
        select_rows CustomerOrderInfo.product_id (λ r. not (eq_ℤ r.product_id returned.0)) orders.1)
  modified ← lift (overwrite kept v.modified_customer_order_info)
  save_orders v modified
  j ← lift (find_row BillingInfo.order_id order_id.0 bills.1)
  bills' ← lift (modify_row j (deduct_cost item.total_price) bills.1)
  save_billing v bills'
  sem_post_wrt billing
  sem_post_wrt order
