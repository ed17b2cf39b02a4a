-- ===== src/Views.antt =====
-- Roden.c, the handlers that only read: `buyerViewsOrder`, `buyerViewsInfo`, `sellerViewsOrders` and
-- `readOrderDetails`.
pub mod Replies
use group_a_cs.Base.{Option, none, some, List, [], ◌∷◌, ◌++◌, Bytes, if◌then◌else◌, leb, length}
use group_a_cs.Base.Int.{eq_ℤ}
use group_a_cs.Libc.{strcpy, sprintf_int}
use group_a_cs.Tables.{ClientInfo, ProductInfo, BillingInfo, CustomerOrderInfo}
use group_a_cs.World.{
  buyer, product, billing, order, Locals, M, ◌>>=◌, ◌>>◌, lift, int_token, write_socket,
  msg_buffer_size, load_buyers, load_products, load_billing, load_orders, begin_read, end_read,
}
use group_a_cs.World.Rows.{select_rows, concat_rows}

-- `strcat(data, field); strcat(data, ",");`
abbrev pub field_text : Bytes → Bytes → Bytes
field_text f rest = f ++ (b',' ∷ rest)

unfoldable pub billing_line : BillingInfo → Bytes
billing_line r =
    field_text (sprintf_int r.order_id) (field_text (sprintf_int r.total_order_cost) (b'\n' ∷ []))

-- `buyerViewsOrder`.
unfoldable pub buyer_views_order : Locals → Bytes → M (Unit {0})
unfolding billing_line concat_rows select_rows
buyer_views_order v buffer = do
  user_id ← int_token buffer
  begin_read billing
  loaded ← load_billing v.billing_info
  end_read billing
  mine ← lift (select_rows BillingInfo.order_id (λ r. eq_ℤ r.customer_id user_id.0) loaded.1)
  reply ← lift (strcpy msg_buffer_size (concat_rows billing_line mine))
  write_socket reply

unfoldable pub client_line : ClientInfo → Bytes
client_line r = field_text (sprintf_int r.uuid) (
    field_text r.first_name (
      field_text r.last_name (
        field_text r.phone_number (
          field_text r.street_address
            (field_text r.city (field_text r.state (field_text r.zip_code (b'\n' ∷ []))))))))

-- `buyerViewsInfo`.
unfoldable pub buyer_views_info : Locals → Bytes → M (Unit {0})
unfolding client_line concat_rows select_rows
buyer_views_info v buffer = do
  user_id ← int_token buffer
  begin_read buyer
  loaded ← load_buyers v.client_db
  end_read buyer
  mine ← lift (select_rows ClientInfo.uuid (λ r. eq_ℤ r.uuid user_id.0) loaded.1)
  reply ← lift (strcpy msg_buffer_size (concat_rows client_line mine))
  write_socket reply

unfoldable pub order_line : CustomerOrderInfo → Bytes
order_line r = field_text (sprintf_int r.order_id) (
    field_text (sprintf_int r.product_id) (
      field_text (sprintf_int r.quantity_purchased) (
        field_text (sprintf_int r.total_price) (
          field_text r.first_name (
            field_text r.last_name (
              field_text r.street_address
                (field_text r.city (field_text r.state (field_text r.zip_code [])))))))))

-- The nested loops of `sellerViewsOrders`: for each product of the seller the orders of it.
unfoldable pub orders_of_products :
    List ProductInfo → List CustomerOrderInfo → Option (List CustomerOrderInfo)
unfolding select_rows
orders_of_products [] orders = some []
orders_of_products (p ∷ ps) orders =
    elim (select_rows CustomerOrderInfo.order_id (λ r. eq_ℤ r.product_id p.product_id) orders) [
      | none ↦ none
      | some mine ↦ elim (orders_of_products ps orders) [
        | none ↦ none
        | some rest ↦ some (mine ++ rest)
      ]
    ]

-- The second half of `sellerViewsOrders`, for the products of the seller.
unfoldable pub send_orders_of : Locals → List ProductInfo → M (Unit {0})
unfolding order_line concat_rows orders_of_products
send_orders_of v owned = do
  begin_read order
  orders ← load_orders v.customer_order_info
  end_read order
  rows ← lift (orders_of_products owned orders.1)
  reply ← lift (strcpy msg_buffer_size (concat_rows order_line rows))
  write_socket reply

-- `sellerViewsOrders`.
unfoldable pub seller_views_orders : Locals → Bytes → M (Unit {0})
unfolding send_orders_of select_rows
seller_views_orders v buffer = do
  seller_id ← int_token buffer
  begin_read product
  products ← load_products v.product_list
  end_read product
  owned ← lift (select_rows ProductInfo.product_id (λ r. eq_ℤ r.seller_id seller_id.0) products.1)
  send_orders_of v owned

-- What `readOrderDetails` appends for an item of the order and a product that has its id.
unfoldable pub detail_line : CustomerOrderInfo → ProductInfo → Bytes
detail_line item p = field_text (sprintf_int item.product_id) (
    field_text p.product_name (
      field_text (sprintf_int item.quantity_purchased)
        (field_text (sprintf_int item.total_price) [])))

unfoldable pub details_text : List CustomerOrderInfo → List ProductInfo → Option Bytes
unfolding select_rows concat_rows detail_line
details_text [] products = some []
details_text (item ∷ items) products =
    elim (select_rows ProductInfo.product_id (λ p. eq_ℤ item.product_id p.product_id) products) [
      | none ↦ none
      | some named ↦ elim (details_text items products) [
        | none ↦ none
        | some rest ↦ some (concat_rows (detail_line item) named ++ rest)
      ]
    ]

-- The second half of `readOrderDetails`, for the items of the order.
unfoldable pub send_details : Locals → List CustomerOrderInfo → M (Unit {0})
unfolding details_text
send_details v items = do
  begin_read product
  products ← load_products v.product_list
  end_read product
  text ← lift (details_text items products.1)
  reply ← lift (strcpy msg_buffer_size text)
  write_socket reply

-- `readOrderDetails`; its array holds 200 items.
unfoldable pub read_order_details : Locals → Bytes → M (Unit {0})
unfolding send_details select_rows
read_order_details v buffer = do
  order_id ← int_token buffer
  begin_read order
  orders ← load_orders v.customer_order_info
  end_read order
  items ← lift (select_rows CustomerOrderInfo.order_id (λ r. eq_ℤ r.order_id order_id.0) orders.1)
  items_in_order ← lift (if leb (length items) 200 then some items else none)
  send_details v items_in_order
