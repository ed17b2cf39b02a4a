-- ===== src/Views/Replies.antt =====
-- What the viewing handlers send, on tables that end in a free row.
use group_a_cs.Base.{
  ◌<◌, ◌≤◌, ◌≡◌, refl, some, Option, Bool, List, [], ◌∷◌, ◌++◌, Bytes, length, ltb-true, leb-true,
}
use group_a_cs.Base.Int.{ℤ, eq_ℤ}
use group_a_cs.Libc.Tokens.{strtok-append}
use group_a_cs.Tables.{
  ClientInfo, ProductInfo, BillingInfo, CustomerOrderInfo, load_client_info, load_product_info,
  load_billing_info, load_customer_order_info,
}
use group_a_cs.World.{Locals, Files, done, quiet, begin_read, end_read, msg_buffer_size}
use group_a_cs.World.Rows.{concat_rows}
use group_a_cs.World.Rows.Prefix.{Loaded, keep, select_rows-append}
use group_a_cs.Catalog.Request.{IsNumber}
use group_a_cs.Views.{
  billing_line, buyer_views_order, client_line, buyer_views_info, order_line, orders_of_products,
  send_orders_of, seller_views_orders, detail_line, details_text, send_details, read_order_details,
}

-- The orders of each of the products in turn.
abbrev pub orders_of : List ProductInfo → List CustomerOrderInfo → List CustomerOrderInfo
orders_of [] orders = []
orders_of (p ∷ ps) orders = keep (λ r. eq_ℤ r.product_id p.product_id) orders ++ orders_of ps orders

-- For each item a line for each product with its id.
abbrev pub details : List CustomerOrderInfo → List ProductInfo → Bytes
details [] products = []
details (item ∷ items) products =
    concat_rows (detail_line item) (keep (λ p. eq_ℤ item.product_id p.product_id) products)
    ++ details items products

module _ {result : Option (Bool × List CustomerOrderInfo)} {orders : List CustomerOrderInfo}
    {z : CustomerOrderInfo} {rest : List CustomerOrderInfo}
    (l : Loaded CustomerOrderInfo.order_id result orders z rest) where
  orders_of_products-append :
      (ps : List ProductInfo)
      → orders_of_products ps (orders ++ z ∷ rest) ≡ some (orders_of ps orders)
  unfolding orders_of_products
  orders_of_products-append [] = refl
  orders_of_products-append (p ∷ ps) =
      rw
        (
          select_rows-append CustomerOrderInfo.order_id (λ r. eq_ℤ r.product_id p.product_id) orders
              z rest l.used l.ended,
          orders_of_products,
        )
        (rw (orders_of_products-append ps))

module _ {result : Option (Bool × List ProductInfo)} {products : List ProductInfo} {z : ProductInfo}
    {rest : List ProductInfo} (l : Loaded ProductInfo.product_id result products z rest) where
  details_text-append :
      (items : List CustomerOrderInfo)
      → details_text items (products ++ z ∷ rest) ≡ some (details items products)
  unfolding details_text
  details_text-append [] = refl
  details_text-append (item ∷ items) =
      rw
        (
          select_rows-append ProductInfo.product_id (λ p. eq_ℤ item.product_id p.product_id)
              products z rest l.used l.ended,
          details_text,
        )
        (rw (details_text-append items))

module _ (v : Locals) (files : Files) (deleted : List ℤ) (sent : List Bytes)
    {products : List ProductInfo} {no_product : ProductInfo} {more : List ProductInfo}
    (p : Loaded ProductInfo.product_id
      (load_product_info files.product_info v.product_list)
      products
      no_product
      more)
    {orders : List CustomerOrderInfo} {no_order : CustomerOrderInfo} {rest : List CustomerOrderInfo}
    (o : Loaded CustomerOrderInfo.order_id
      (load_customer_order_info files.customer_order v.customer_order_info)
      orders
      no_order
      rest) where
  send_orders_of_lem :
      (owned : List ProductInfo)
      → length (concat_rows order_line (orders_of owned orders)) < msg_buffer_size
      → send_orders_of v owned (quiet files deleted sent)
        ≡ done tt
            (quiet files deleted (sent ++ concat_rows order_line (orders_of owned orders) ∷ []))
  unfolding send_orders_of begin_read end_read
  send_orders_of_lem owned short =
      rw o.loaded (rw (orders_of_products-append o owned) (rw (ltb-true _ _ short)))

  send_details_lem :
      (items : List CustomerOrderInfo)
      → length (details items products) < msg_buffer_size
      → send_details v items (quiet files deleted sent)
        ≡ done tt (quiet files deleted (sent ++ details items products ∷ []))
  unfolding send_details begin_read end_read
  send_details_lem items short =
      rw p.loaded (rw (details_text-append p items) (rw (ltb-true _ _ short)))

  module _ {t : Bytes} {id : ℤ} (tail : Bytes) (is_id : IsNumber t id) where
    -- Where no semaphore is taken and the product and order files load as rows in use up to a free
    -- row, a seller, whose id the message begins with, is sent in one reply the order rows of the
    -- products of the seller, product by product, if they fit the buffer; nothing else is changed,
    -- and every semaphore is free again.
    pub seller_views_orders_lem :
        let owned = keep (λ r. eq_ℤ r.seller_id id) products in
        length (concat_rows order_line (orders_of owned orders)) < msg_buffer_size
        → seller_views_orders v (t ++ b',' ∷ tail) (quiet files deleted sent)
          ≡ done tt
              (quiet files deleted (sent ++ concat_rows order_line (orders_of owned orders) ∷ []))
    unfolding seller_views_orders begin_read end_read
    seller_views_orders_lem short =
        rw (strtok-append t tail is_id.field.not_empty is_id.field.no_comma) (
          rw is_id.value (
            rw p.loaded (
              rw
                (select_rows-append ProductInfo.product_id (λ r. eq_ℤ r.seller_id id) products
                  no_product more p.used p.ended)
                (send_orders_of_lem (keep (λ r. eq_ℤ r.seller_id id) products) short))))

    -- Where no semaphore is taken and the product and order files load as rows in use up to a free
    -- row, the details of the order that the message begins with, of at most 200 rows, are sent in
    -- one reply: for each row of the order the entry of each product with its id, if they fit the
    -- buffer; nothing else is changed, and every semaphore is free again.
    pub read_order_details_lem :
        let items = keep (λ r. eq_ℤ r.order_id id) orders in
        length items ≤ 200
        → length (details items products) < msg_buffer_size
        → read_order_details v (t ++ b',' ∷ tail) (quiet files deleted sent)
          ≡ done tt (quiet files deleted (sent ++ details items products ∷ []))
    unfolding read_order_details begin_read end_read
    read_order_details_lem few short =
        rw (strtok-append t tail is_id.field.not_empty is_id.field.no_comma) (
          rw is_id.value (
            rw o.loaded (
              rw
                (select_rows-append CustomerOrderInfo.order_id (λ r. eq_ℤ r.order_id id) orders
                  no_order rest o.used o.ended)
                (rw (leb-true _ _ few)
                  (send_details_lem (keep (λ r. eq_ℤ r.order_id id) orders) short)))))

module _ (v : Locals) (files : Files) (deleted : List ℤ) (sent : List Bytes) {t : Bytes} {id : ℤ}
    (tail : Bytes) (is_id : IsNumber t id) where
  -- A buyer is sent, as one reply, the billing rows of the orders of the buyer, if they fit the
  -- buffer; nothing is changed, and every semaphore is free again.
  pub buyer_views_order_lem :
      {rows : List BillingInfo} {z : BillingInfo} {rest : List BillingInfo}
      → Loaded BillingInfo.order_id
          (load_billing_info files.billing_info v.billing_info)
          rows
          z
          rest
      → length (concat_rows billing_line (keep (λ r. eq_ℤ r.customer_id id) rows)) < msg_buffer_size
      → buyer_views_order v (t ++ b',' ∷ tail) (quiet files deleted sent)
        ≡ done tt (
            quiet files deleted
              (sent ++ concat_rows billing_line (keep (λ r. eq_ℤ r.customer_id id) rows) ∷ []))
  unfolding buyer_views_order begin_read end_read
  buyer_views_order_lem {rows} {z} {rest} b short =
      rw (strtok-append t tail is_id.field.not_empty is_id.field.no_comma) (
        rw is_id.value (
          rw b.loaded (
            rw
              (select_rows-append BillingInfo.order_id (λ r. eq_ℤ r.customer_id id) rows z rest
                b.used b.ended)
              (rw (ltb-true _ _ short)))))

  -- A buyer is sent, as one reply, the rows of the buyer file with the buyer's id, if they fit the
  -- buffer; nothing is changed, and every semaphore is free again.
  pub buyer_views_info_lem :
      {rows : List ClientInfo} {z : ClientInfo} {rest : List ClientInfo}
      → Loaded ClientInfo.uuid (load_client_info files.customer_info v.client_db) rows z rest
      → length (concat_rows client_line (keep (λ r. eq_ℤ r.uuid id) rows)) < msg_buffer_size
      → buyer_views_info v (t ++ b',' ∷ tail) (quiet files deleted sent)
        ≡ done tt (
            quiet files deleted
              (sent ++ concat_rows client_line (keep (λ r. eq_ℤ r.uuid id) rows) ∷ []))
  unfolding buyer_views_info begin_read end_read
  buyer_views_info_lem {rows} {z} {rest} b short =
      rw (strtok-append t tail is_id.field.not_empty is_id.field.no_comma) (
        rw is_id.value (
          rw b.loaded (
            rw (select_rows-append ClientInfo.uuid (λ r. eq_ℤ r.uuid id) rows z rest b.used b.ended)
              (rw (ltb-true _ _ short)))))
