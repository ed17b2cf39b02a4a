-- ===== src/Ordering/Stock.antt =====
-- `writeNewProductQuantityFromOrder`: a valid order of distinct products is taken from the stock
-- exactly, and no quantity becomes negative.
use group_a_cs.Base.{
  ◌≡◌, ◌≢◌, inl, inr, refl, subst, true, false, some, List, [], ◌∷◌, ◌++◌, map, All, Bool-cases,
}
use group_a_cs.Base.Int.{eq_ℤ, is_zero, ltb_ℤ, eq_ℤ-eq}
use group_a_cs.Tables.{ProductInfo, ItemOrder}
use group_a_cs.World.Rows.Prefix.{InUse, first_free-append, take-append}
use group_a_cs.Ordering.{
  take_from_stock, take_all_from_stock, new_product_quantity_from_order, validate_buyer_order,
}
use group_a_cs.Ordering.Check.{validate_buyer_order-Covered}
use group_a_cs.Ordering.Items.{Covered}
use group_a_cs.Ordering.Sold.{
  IsQuantity, AllInStock, Distinct, DistinctItems, sold, sold_all, covered_sub, map-sold_absent,
  take_from_stock_here, take_from_stock_there, eq_ℤ-true, Distinct-map, AllInStock-map, Covered-map,
}

-- The rows in use are changed and the rows behind them are left alone.
take_from_stock-append :
    (item : ItemOrder) (ps rest : List ProductInfo)
    → Distinct ps
    → AllInStock ps
    → IsQuantity item.quantity
    → Covered ps item
    → take_from_stock item (ps ++ rest) ≡ some (map (sold item) ps ++ rest)
take_from_stock-append item [] rest d st q c = absurd c.known
take_from_stock-append item (p ∷ ps) rest d st q c =
    elim (Bool-cases (eq_ℤ p.product_id item.product_id)) [
      | inl same ↦
          let e = eq_ℤ-eq p.product_id item.product_id same in
          let others = subst (λ k. All (λ (r : ProductInfo). r.product_id ≢ k) ps) e d.0 in
          rw (same, map-sold_absent item ps others)
            (take_from_stock_here item p (ps ++ rest) e
              (covered_sub p.quantity item.quantity st.0 q (c.enough.0 e)).0)
      | inr other ↦
          let ne : p.product_id ≢ item.product_id = λ e. cc (eq_ℤ-true e) in
          rw other (
            take_from_stock_there item p (ps ++ rest) ne (
              take_from_stock-append item ps rest d.1 st.1 q (record {
                known = elim c.known [ inl e ↦ absurd (ne e) | inr m ↦ m ];
                enough = c.enough.1;
              })))
    ]

take_all_from_stock-sold_all :
    (os : List ItemOrder) (ps rest : List ProductInfo)
    → Distinct ps
    → AllInStock ps
    → DistinctItems os
    → All (λ (o : ItemOrder). IsQuantity o.quantity) os
    → All (Covered ps) os
    → (take_all_from_stock os (ps ++ rest) ≡ some (sold_all os ps ++ rest))
      × AllInStock (sold_all os ps)
unfolding take_all_from_stock
take_all_from_stock-sold_all [] ps rest d st di q c = (refl, st)
take_all_from_stock-sold_all (o ∷ os) ps rest d st di q c =
    let first = take_from_stock-append o ps rest d st q.0 c.0 in
    let (done, left) =
      take_all_from_stock-sold_all os (map (sold o) ps) rest (Distinct-map o ps d)
        (AllInStock-map o ps st q.0 c.0.enough) di.1 q.1 (Covered-map o os ps di.0 c.1) in
    (rw first done, left)

-- If `validateBuyerOrder` accepts an order of distinct products, with quantities of zero or more, over
-- a table of distinct products whose quantities are not negative, then
-- `writeNewProductQuantityFromOrder` takes from each row exactly what was ordered of its product,
-- changes nothing else, and leaves no quantity negative. Both lists end at a free row, and the two
-- free rows compare as in zeroed memory.
pub new_product_quantity-validated :
    (os orest : List ItemOrder) (y : ItemOrder) (ps prest : List ProductInfo) (z : ProductInfo)
    → InUse ItemOrder.product_id os
    → InUse ProductInfo.product_id ps
    → is_zero y.product_id ≡ true
    → is_zero z.product_id ≡ true
    → ltb_ℤ z.quantity y.quantity ≡ false
    → Distinct ps
    → AllInStock ps
    → DistinctItems os
    → All (λ (o : ItemOrder). IsQuantity o.quantity) os
    → validate_buyer_order (os ++ y ∷ orest) (ps ++ z ∷ prest) ≡ some true
    → (new_product_quantity_from_order (os ++ y ∷ orest) (ps ++ z ∷ prest)
        ≡ some (sold_all os ps ++ z ∷ prest))
      × AllInStock (sold_all os ps)
unfolding new_product_quantity_from_order
new_product_quantity-validated os orest y ps prest z uo up hy hz fits d st di q valid =
    let (b, returned, decided) =
      validate_buyer_order-Covered os orest y ps prest z uo up hy hz fits in
    let covered = decided.0 (cc (returned, valid)) in
    let (taken, left) = take_all_from_stock-sold_all os ps (z ∷ prest) d st di q covered in
    (
      rw (first_free-append ItemOrder.product_id os y orest uo hy)
          (rw (take-append os (y ∷ orest)) taken),
      left,
    )
