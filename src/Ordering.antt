-- ===== src/Ordering.antt =====
-- Roden.c, completing an order: `extractBuyerOrder` to `completeAnOrder`.
pub mod Complete
pub mod Items
pub mod Check
pub mod Sold
pub mod Stock
pub mod Records
use group_a_cs.Base.{
  ℕ, zero, suc, ◌+◌, Bool, true, false, Option, none, some, List, [], ◌∷◌, ◌++◌, Bytes, codes,
  if◌then◌else◌, ◌>>=◌, take,
}
use group_a_cs.Base.Int.{ℤ, pos, ◌+ℤ◌, ◌-ℤ◌, ◌*ℤ◌, eq_ℤ, is_zero, ltb_ℤ, to_int}
use group_a_cs.Libc.{strtok, strtok_rest, atoi}
use group_a_cs.Tables.{ClientInfo, ProductInfo, BillingInfo, CustomerOrderInfo, ItemOrder, next_int}
use group_a_cs.World.Rows.{first_free, find_row, modify_row, get_row}

-- `extractBuyerOrder`: triples of numbers, up to a product id of zero.
unfoldable pub extract_buyer_order : Bytes → List ItemOrder → Option (List ItemOrder)
extract_buyer_order s [] = do t ← strtok s; id ← atoi t.0; if is_zero id then some [] else none
extract_buyer_order s (old ∷ table) = do
  t ← strtok s
  id ← atoi t.0
  if is_zero id then some (old ∷ table) else (do
    quantity ← next_int t.1
    cost ← next_int quantity.1
    rest ← extract_buyer_order cost.1 table
    some (record { product_id = id; quantity = quantity.0; item_cost_per_unit = cost.0 } ∷ rest))

-- The inner loop of `validateBuyerOrder` on one item: false where the stock is too small, or where no
-- row has the product.
unfoldable pub check_item : ItemOrder → Bool → List ProductInfo → Bool
check_item item id_found [] = id_found
check_item item id_found (p ∷ ps) = elim (eq_ℤ item.product_id p.product_id) [
  | true ↦ elim (ltb_ℤ p.quantity item.quantity) [ true ↦ false | false ↦ check_item item true ps ]
  | false ↦ check_item item id_found ps
]

unfoldable pub check_items : List ItemOrder → List ProductInfo → Bool
check_items [] ps = true
check_items (item ∷ items) ps = elim (check_item item false ps) [
  | true ↦ check_items items ps
  | false ↦ false
]

-- `validateBuyerOrder`. Both loops run to the number of rows and one more (`i <= rowsInOrderList`).
unfoldable pub validate_buyer_order : List ItemOrder → List ProductInfo → Option Bool
unfolding check_items check_item
validate_buyer_order order_list p_list = do
  rows_in_product_list ← first_free ProductInfo.product_id p_list
  rows_in_order_list ← first_free ItemOrder.product_id order_list
  some (
      check_items (take (rows_in_order_list + 1) order_list)
        (take (rows_in_product_list + 1) p_list))

-- `pList[row].quantity -= item.quantity` at the first row of the product.
unfoldable pub take_from_stock : ItemOrder → List ProductInfo → Option (List ProductInfo)
take_from_stock item p_list = do
  row ← find_row ProductInfo.product_id item.product_id p_list
  modify_row row
      (λ p. do left ← to_int (p.quantity -ℤ item.quantity); some (record p { quantity = left }))
      p_list

unfoldable pub take_all_from_stock : List ItemOrder → List ProductInfo → Option (List ProductInfo)
take_all_from_stock [] p_list = some p_list
take_all_from_stock (item ∷ items) p_list = do
  after ← take_from_stock item p_list
  take_all_from_stock items after

-- `writeNewProductQuantityFromOrder`, up to the call that writes the table back.
unfoldable pub new_product_quantity_from_order :
    List ItemOrder → List ProductInfo → Option (List ProductInfo)
unfolding take_all_from_stock take_from_stock
new_product_quantity_from_order order_list p_list = do
  n ← first_free ItemOrder.product_id order_list
  take_all_from_stock (take n order_list) p_list

-- `quantity * itemCostPerUnit`.
unfoldable pub item_total : ItemOrder → Option ℤ
item_total item = to_int (item.quantity *ℤ item.item_cost_per_unit)

-- The loop that totals the cost, from `cost`.
unfoldable pub total_cost : ℤ → List ItemOrder → Option ℤ
unfolding item_total
total_cost cost [] = none
total_cost cost (item ∷ items) = elim (is_zero item.product_id) [
  | true ↦ some cost
  | false ↦ do t ← item_total item; sum ← to_int (cost +ℤ t); total_cost sum items
]

-- `writeOrderToBillingInfo`, up to the call that writes the table back: the new table.
unfoldable pub order_to_billing_info :
    ℤ → ClientInfo → List ItemOrder → List BillingInfo → Option (List BillingInfo)
unfolding total_cost
order_to_billing_info order_id buyer_data order_list billing_list = do
  row ← first_free BillingInfo.order_id billing_list
  cost ← total_cost (pos 0) order_list
  modify_row row
      (λ r. some (record {
        order_id = order_id;
        customer_id = buyer_data.uuid;
        first_name = buyer_data.first_name;
        last_name = buyer_data.last_name;
        street_address = buyer_data.street_address;
        city = buyer_data.city;
        state = buyer_data.state;
        zip_code = buyer_data.zip_code;
        total_order_cost = cost;
      }))
      billing_list

-- The row that `writeOrderToCustomerOrder` writes for an item.
unfoldable pub customer_order_row : ℤ → ClientInfo → ItemOrder → Option CustomerOrderInfo
unfolding item_total
customer_order_row order_id buyer_data item = do
  total ← item_total item
  some (record {
    order_id = order_id;
    product_id = item.product_id;
    quantity_purchased = item.quantity;
    first_name = buyer_data.first_name;
    last_name = buyer_data.last_name;
    street_address = buyer_data.street_address;
    city = buyer_data.city;
    state = buyer_data.state;
    zip_code = buyer_data.zip_code;
    total_price = total;
  })

-- Its loop, from row `row`.
unfoldable pub put_items :
    ℤ → ClientInfo → ℕ → List ItemOrder → List CustomerOrderInfo → Option (List CustomerOrderInfo)
unfolding customer_order_row
put_items order_id buyer_data row [] table = some table
put_items order_id buyer_data row (item ∷ items) table = do
  table' ← modify_row row (λ r. customer_order_row order_id buyer_data item) table
  put_items order_id buyer_data (row + 1) items table'

-- `writeOrderToCustomerOrder`, up to the call that writes the table back.
unfoldable pub order_to_customer_order :
    ℤ → ClientInfo → List ItemOrder → List CustomerOrderInfo → Option (List CustomerOrderInfo)
unfolding put_items
order_to_customer_order order_id buyer_data order_list customer_orders = do
  last_record_row ← first_free CustomerOrderInfo.order_id customer_orders
  n ← first_free ItemOrder.product_id order_list
  put_items order_id buyer_data last_record_row (take n order_list) customer_orders

-- `findBuyerInClientInfo`.
unfoldable pub find_buyer_in_client_info : ℤ → List ClientInfo → Option ℕ
find_buyer_in_client_info = find_row ClientInfo.uuid

-- `totalOrderCost -= itemCost`, in `buyerModifiesOrder`.
unfoldable pub deduct_cost : ℤ → BillingInfo → Option BillingInfo
deduct_cost item_cost r = do
  left ← to_int (r.total_order_cost -ℤ item_cost)
  some (record r { total_order_cost = left })
