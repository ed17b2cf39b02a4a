-- ===== src/Ordering/Records.antt =====
-- `writeOrderToBillingInfo` and `writeOrderToCustomerOrder`: what an order adds to the two tables.
use group_a_cs.Base.{
  ℕ, ◌+◌, ◌*◌, ◌<◌, ◌≤◌, Bytes, ◌≡◌, refl, ap, sym, ◌∙◌, true, some, List, [], ◌∷◌, ◌++◌, map,
  arith, length, length-append, drop, All, append_assoc,
}
use group_a_cs.Base.Int.{ℤ, pos, negsuc, is_zero, ◌+ℤ◌, ◌*ℤ◌, int_max, to_int}
use group_a_cs.Tables.{ClientInfo, BillingInfo, CustomerOrderInfo, ItemOrder}
use group_a_cs.Tables.Save.{count_newlines, write_back_customer_order_struct}
use group_a_cs.Tables.RoundTrip.Orders.{
  customer_order_text, write_back_customer_order_struct-customer_order_text,
}
use group_a_cs.World.Rows.Prefix.{InUse, first_free-append, take-append, modify_row-append}
use group_a_cs.Ordering.{
  item_total, total_cost, order_to_billing_info, customer_order_row, put_items,
  order_to_customer_order,
}

-- An item whose quantity and price are zero or more, with its cost.
abbrev pub cost_of : ℤ → ℤ → ℕ
cost_of (pos q) (pos u) = q * u
cost_of _ _ = 0

abbrev pub IsNat : ℤ → Type 0
IsNat (pos n) = Unit
IsNat (negsuc n) = ⊥

pub record IsPurchase (o : ItemOrder) : Type 0 where
  pub quantity : IsNat o.quantity
  pub cost : IsNat o.item_cost_per_unit

abbrev pub cost : ItemOrder → ℕ
cost o = cost_of o.quantity o.item_cost_per_unit

abbrev pub total : List ItemOrder → ℕ
total [] = 0
total (o ∷ os) = cost o + total os

mul_pos : (x y : ℤ) → IsNat x → IsNat y → x *ℤ y ≡ pos (cost_of x y)
unfolding ◌*ℤ◌
mul_pos (pos a) (pos b) h k = grind arith
mul_pos (pos a) (negsuc b) h k = absurd k
mul_pos (negsuc a) y h k = absurd h

item_total-cost :
    (o : ItemOrder) → IsPurchase o → cost o ≤ int_max → item_total o ≡ some (pos (cost o))
unfolding item_total
item_total-cost o h fits =
    rw (mul_pos o.quantity o.item_cost_per_unit h.quantity h.cost) (ground arith)

add_pos : (a b : ℕ) → a + b ≤ int_max → to_int (pos a +ℤ pos b) ≡ some (pos (a + b))
unfolding ◌+ℤ◌
add_pos a b h = ground arith

total_cost-total :
    (c : ℕ) (os : List ItemOrder) (y : ItemOrder) (orest : List ItemOrder)
    → InUse ItemOrder.product_id os
    → is_zero y.product_id ≡ true
    → All IsPurchase os
    → c + total os ≤ int_max
    → total_cost (pos c) (os ++ y ∷ orest) ≡ some (pos (c + total os))
unfolding total_cost
total_cost-total c [] y orest u e h fits = rw (e, total_cost) (ap (λ n. some (pos n)) (omega arith))
total_cost-total c (o ∷ os) y orest u e h fits =
    rw (u.0, total_cost)
      (rw (item_total-cost o h.0 (omega arith)) (
        rw (add_pos c (cost o) (omega arith)) (
          total_cost-total (c + cost o) os y orest u.1 e h.1 (omega arith)
          ∙ ap (λ n. some (pos n)) (omega arith))))

-- The bill of an order.
abbrev pub bill : ℤ → ClientInfo → ℤ → BillingInfo
bill order_id buyer_data sum = record {
  order_id = order_id;
  customer_id = buyer_data.uuid;
  first_name = buyer_data.first_name;
  last_name = buyer_data.last_name;
  street_address = buyer_data.street_address;
  city = buyer_data.city;
  state = buyer_data.state;
  zip_code = buyer_data.zip_code;
  total_order_cost = sum;
}

-- The row of an item.
abbrev pub order_row : ℤ → ClientInfo → ItemOrder → CustomerOrderInfo
order_row order_id buyer_data item = record {
  order_id = order_id;
  product_id = item.product_id;
  quantity_purchased = item.quantity;
  first_name = buyer_data.first_name;
  last_name = buyer_data.last_name;
  street_address = buyer_data.street_address;
  city = buyer_data.city;
  state = buyer_data.state;
  zip_code = buyer_data.zip_code;
  total_price = pos (cost item);
}

-- If quantities and prices are not negative and the total is an `int`, `writeOrderToBillingInfo` turns
-- the first free row of the billing table into one bill, for the sum of quantity times price over the
-- items, and leaves all other rows alone.
pub order_to_billing_info-bill :
    (order_id : ℤ) (buyer_data : ClientInfo) (os : List ItemOrder) (y : ItemOrder)
    (orest : List ItemOrder) (bs : List BillingInfo) (z : BillingInfo) (brest : List BillingInfo)
    → InUse ItemOrder.product_id os
    → is_zero y.product_id ≡ true
    → All IsPurchase os
    → total os ≤ int_max
    → InUse BillingInfo.order_id bs
    → is_zero z.order_id ≡ true
    → order_to_billing_info order_id buyer_data (os ++ y ∷ orest) (bs ++ z ∷ brest)
      ≡ some (bs ++ bill order_id buyer_data (pos (total os)) ∷ brest)
unfolding order_to_billing_info
order_to_billing_info-bill order_id buyer_data os y orest bs z brest uo hy h fits ub hz =
    rw (first_free-append BillingInfo.order_id bs z brest ub hz) (
      rw (total_cost-total 0 os y orest uo hy h (omega arith)) (
        modify_row-append bs z _ brest _
          (ap (λ n. some (bill order_id buyer_data (pos n))) (omega arith))))

put_items-append :
    (order_id : ℤ) (buyer_data : ClientInfo) (os : List ItemOrder)
    (cs free : List CustomerOrderInfo)
    → All IsPurchase os
    → total os ≤ int_max
    → length os ≤ length free
    → put_items order_id buyer_data (length cs) os (cs ++ free)
      ≡ some (cs ++ (map (order_row order_id buyer_data) os ++ drop (length os) free))
unfolding put_items
put_items-append order_id buyer_data [] cs free h fits room = refl
put_items-append order_id buyer_data (o ∷ os) cs [] h fits room = absurd (omega arith)
put_items-append order_id buyer_data (o ∷ os) cs (f ∷ free) h fits room =
    rw
      (modify_row-append cs f (order_row order_id buyer_data o) free
        (λ r. customer_order_row order_id buyer_data o) made)
      ((λ i. put_items order_id buyer_data (longer i) os (sym assoc i))
        ∙ put_items-append order_id buyer_data os (cs ++ row ∷ []) free h.1 (omega arith)
            (omega arith)
        ∙ ap some (
            append_assoc cs (row ∷ [])
              (map (order_row order_id buyer_data) os ++ drop (length os) free)))
  where
    row : CustomerOrderInfo
    row = order_row order_id buyer_data o

    assoc : (cs ++ row ∷ []) ++ free ≡ cs ++ row ∷ free
    assoc = append_assoc cs (row ∷ []) free

    longer : length cs + 1 ≡ length (cs ++ row ∷ [])
    longer = omega (arith, length-append cs (row ∷ []))

    made : customer_order_row order_id buyer_data o ≡ some (order_row order_id buyer_data o)
    made = rw (item_total-cost o h.0 (omega arith))

-- Under the same conditions, and if the free rows are enough, `writeOrderToCustomerOrder` puts a row
-- for each item behind the rows in use, in the order of the items, and leaves all other rows alone.
pub order_to_customer_order-rows :
    (order_id : ℤ) (buyer_data : ClientInfo) (os : List ItemOrder) (y : ItemOrder)
    (orest : List ItemOrder) (cs : List CustomerOrderInfo) (z : CustomerOrderInfo)
    (crest : List CustomerOrderInfo)
    → InUse ItemOrder.product_id os
    → is_zero y.product_id ≡ true
    → All IsPurchase os
    → total os ≤ int_max
    → InUse CustomerOrderInfo.order_id cs
    → is_zero z.order_id ≡ true
    → length os ≤ length (z ∷ crest)
    → order_to_customer_order order_id buyer_data (os ++ y ∷ orest) (cs ++ z ∷ crest)
      ≡ some (cs ++ (map (order_row order_id buyer_data) os ++ drop (length os) (z ∷ crest)))
unfolding order_to_customer_order
order_to_customer_order-rows order_id buyer_data os y orest cs z crest uo hy h fits uc hz room =
    rw (first_free-append CustomerOrderInfo.order_id cs z crest uc hz) (
      rw (first_free-append ItemOrder.product_id os y orest uo hy) (
        rw (take-append os (y ∷ orest))
          (put_items-append order_id buyer_data os cs (z ∷ crest) h fits room)))

-- The new order table does not reach the file: where the old file has a newline behind each of its
-- rows, the write-back of the table with an order's rows writes the old rows and the row of the first
-- item only. The buffer is zeroed and the text shorter than 1000 bytes.
pub order_items_lost :
    (order_id : ℤ) (buyer_data : ClientInfo) (o : ItemOrder) (os : List ItemOrder)
    (cs free : List CustomerOrderInfo) (old : Bytes)
    → count_newlines old ≡ length cs
    → length (customer_order_text (cs ++ order_row order_id buyer_data o ∷ [])) < 1000
    → write_back_customer_order_struct []
        (some old)
        (cs ++ (map (order_row order_id buyer_data) (o ∷ os) ++ free))
      ≡ some (customer_order_text (cs ++ order_row order_id buyer_data o ∷ []))
order_items_lost order_id buyer_data o os cs free old lines fits =
    let row = order_row order_id buyer_data o in
    let rest = map (order_row order_id buyer_data) os ++ free in
    ap (write_back_customer_order_struct [] (some old)) (sym (append_assoc cs (row ∷ []) rest))
    ∙ write_back_customer_order_struct-customer_order_text old (cs ++ row ∷ []) rest
        (omega (arith, length-append cs (row ∷ []))) fits
