-- ===== src/Ordering/Check.antt =====
-- `validateBuyerOrder` decides that each item is a product in stock.
use native.Mathlib.Numerals.{add-one}
use group_a_cs.Base.{
  ◌≡◌, ◌↔◌, inl, inr, true, false, Bool, some, List, [], ◌∷◌, ◌++◌, arith, All, Bool-cases, ◌∙◌,
  sym,
}
use group_a_cs.Base.Int.{pos, eq_ℤ, is_zero, ltb_ℤ, eq_ℤ-eq}
use group_a_cs.Tables.{ProductInfo, ItemOrder}
use group_a_cs.World.Rows.Prefix.{InUse, first_free-append, take-suc-append}
use group_a_cs.Ordering.{check_item, check_items, validate_buyer_order}
use group_a_cs.Ordering.Items.{Covered, check_item_end, check_item_iff, check_item-append}

true-false : ¬ (true ≡ false)
true-false e = cc

check_items-cons :
    (o : ItemOrder) (os : List ItemOrder) (ps : List ProductInfo)
    → (check_items (o ∷ os) ps ≡ true)
      ↔ ((check_item o false ps ≡ true) × (check_items os ps ≡ true))
unfolding check_items
check_items-cons o os ps = ((λ h. ground arith), (λ h. ground arith))

check_items_iff :
    (os : List ItemOrder) (y : ItemOrder) (ps : List ProductInfo) (z : ProductInfo)
    → InUse ItemOrder.product_id os
    → is_zero z.product_id ≡ true
    → check_item y false (ps ++ z ∷ []) ≡ true
    → (check_items (os ++ y ∷ []) (ps ++ z ∷ []) ≡ true) ↔ All (Covered ps) os
unfolding check_items
check_items_iff [] y ps z u hz last = ((λ h. tt), (λ h. rw (last, check_items)))
check_items_iff (o ∷ os) y ps z u hz last =
    let same =
      check_item-append o false ps z (ground (arith, u.0, eq_ℤ-eq z.product_id (pos 0) hz)) in
    let (down, up) = check_items_iff os y ps z u.1 hz last in
    let split = check_items-cons o (os ++ y ∷ []) (ps ++ z ∷ []) in
    (
      (λ h. ((check_item_iff ps o).0 (sym same ∙ (split.0 h).0), down (split.0 h).1)),
      (λ h. split.1 (same ∙ (check_item_iff ps o).1 h.0, up h.1)),
    )

-- The row of the order behind the last item is compared with the free row of the table.
check_item_end_junk :
    (y : ItemOrder) (id_found : Bool) (ps : List ProductInfo) (z : ProductInfo)
    → InUse ProductInfo.product_id ps
    → is_zero y.product_id ≡ true
    → is_zero z.product_id ≡ true
    → ltb_ℤ z.quantity y.quantity ≡ true
    → check_item y id_found (ps ++ z ∷ []) ≡ false
unfolding check_item
check_item_end_junk y id_found [] z u hy hz junk =
    let same : eq_ℤ y.product_id z.product_id ≡ true =
      ground (arith, eq_ℤ-eq y.product_id (pos 0) hy, eq_ℤ-eq z.product_id (pos 0) hz) in
    rw (same, check_item) (rw (junk, check_item))
check_item_end_junk y id_found (p ∷ ps) z u hy hz junk =
    let other : eq_ℤ y.product_id p.product_id ≡ false =
      ground (arith, u.0, eq_ℤ-eq y.product_id (pos 0) hy) in
    rw (other, check_item) (check_item_end_junk y id_found ps z u.1 hy hz junk)

check_items_last :
    (os : List ItemOrder) (y : ItemOrder) (qs : List ProductInfo)
    → check_items (os ++ y ∷ []) qs ≡ true
    → check_item y false qs ≡ true
check_items_last [] y qs h = ((check_items-cons y [] qs).0 h).0
check_items_last (o ∷ os) y qs h =
    check_items_last os y qs ((check_items-cons o (os ++ y ∷ []) qs).0 h).1

validate_buyer_order_rows :
    (os orest : List ItemOrder) (y : ItemOrder) (ps prest : List ProductInfo) (z : ProductInfo)
    → InUse ItemOrder.product_id os
    → InUse ProductInfo.product_id ps
    → is_zero y.product_id ≡ true
    → is_zero z.product_id ≡ true
    → validate_buyer_order (os ++ y ∷ orest) (ps ++ z ∷ prest)
      ≡ some (check_items (os ++ y ∷ []) (ps ++ z ∷ []))
unfolding validate_buyer_order
validate_buyer_order_rows os orest y ps prest z uo up hy hz =
    rw (first_free-append ProductInfo.product_id ps z prest up hz) (
      rw (first_free-append ItemOrder.product_id os y orest uo hy)
        (rw add-one (rw add-one (rw (take-suc-append os y orest, take-suc-append ps z prest)))))

pub validate_buyer_order-Covered :
    (os orest : List ItemOrder) (y : ItemOrder) (ps prest : List ProductInfo) (z : ProductInfo)
    → InUse ItemOrder.product_id os
    → InUse ProductInfo.product_id ps
    → is_zero y.product_id ≡ true
    → is_zero z.product_id ≡ true
    → ltb_ℤ z.quantity y.quantity ≡ false
    → (b : Bool) × (validate_buyer_order (os ++ y ∷ orest) (ps ++ z ∷ prest) ≡ some b)
      × ((b ≡ true) ↔ All (Covered ps) os)
validate_buyer_order-Covered os orest y ps prest z uo up hy hz fits = (
  check_items (os ++ y ∷ []) (ps ++ z ∷ []),
  validate_buyer_order_rows os orest y ps prest z uo up hy hz,
  check_items_iff os y ps z uo hz (check_item_end y ps z up hy hz fits),
)

-- If the order and the product table are in use up to a free row, then `validateBuyerOrder` returns,
-- and returns true exactly when every item is a product of the table, no row of the product has too
-- small a stock, and the quantity behind the last item is not above that in the free row of the table:
-- the loop goes one row too far, and compares what is in memory there.
pub validate_buyer_order_iff :
    (os orest : List ItemOrder) (y : ItemOrder) (ps prest : List ProductInfo) (z : ProductInfo)
    → InUse ItemOrder.product_id os
    → InUse ProductInfo.product_id ps
    → is_zero y.product_id ≡ true
    → is_zero z.product_id ≡ true
    → (b : Bool) × (validate_buyer_order (os ++ y ∷ orest) (ps ++ z ∷ prest) ≡ some b)
      × ((b ≡ true) ↔ (All (Covered ps) os × (ltb_ℤ z.quantity y.quantity ≡ false)))
validate_buyer_order_iff os orest y ps prest z uo up hy hz = (
  check_items (os ++ y ∷ []) (ps ++ z ∷ []),
  validate_buyer_order_rows os orest y ps prest z uo up hy hz,
  elim (Bool-cases (ltb_ℤ z.quantity y.quantity)) [
    | inl junk ↦ (
      (λ h. absurd (
          true-false (
            sym (check_items_last os y (ps ++ z ∷ []) h)
            ∙ check_item_end_junk y false ps z up hy hz junk))),
      (λ h. absurd (true-false (sym junk ∙ h.1))),
    )
    | inr fits ↦
        let (down, up') = check_items_iff os y ps z uo hz (check_item_end y ps z up hy hz fits) in
        ((λ h. (down h, fits)), (λ h. up' h.0))
  ],
)
