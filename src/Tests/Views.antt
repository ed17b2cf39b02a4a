-- ===== src/Tests/Views.antt =====
-- The theorems on the viewing handlers at messages and files that meet their hypotheses.
use group_a_cs.Base.{◌≡◌, [], ◌∷◌, codes, arith}
use group_a_cs.Libc.{sprintf_int}
use group_a_cs.World.{done, quiet}
use group_a_cs.World.Rows.{concat_rows}
use group_a_cs.Views.{order_line, seller_views_orders, detail_line, read_order_details}
use group_a_cs.Views.Replies.{seller_views_orders_lem, read_order_details_lem}
use group_a_cs.Tests.Samples.{zeroed, wayne_order, two_rows, shop}
use group_a_cs.Tests.Catalog.{n1001}
use group_a_cs.Tests.Validate.{n3000}
use group_a_cs.Tests.Ordering.{shop-products, shop-orders}

seller_views_orders_lem_example :
    seller_views_orders zeroed (codes "1001,") (quiet (shop two_rows) [] [])
    ≡ done tt (quiet (shop two_rows) [] (concat_rows order_line (wayne_order ∷ []) ∷ []))
unfolding concat_rows order_line sprintf_int
seller_views_orders_lem_example =
    seller_views_orders_lem zeroed (shop two_rows) [] [] shop-products shop-orders [] n1001
      (omega arith)

read_order_details_lem_example :
    read_order_details zeroed (codes "3000,") (quiet (shop two_rows) [] [])
    ≡ done tt (quiet (shop two_rows) [] (codes "2000,Hook,20,400," ∷ []))
unfolding concat_rows detail_line sprintf_int
read_order_details_lem_example =
    read_order_details_lem zeroed (shop two_rows) [] [] shop-products shop-orders [] n3000
      (omega arith) (omega arith)
