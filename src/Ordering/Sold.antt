-- ===== src/Ordering/Sold.antt =====
-- The sale of items from the rows of a table: what stays true of the other rows and items.
use group_a_cs.Base.{
  ◌≤◌, ◌≡◌, ◌≢◌, inl, inr, refl, sym, subst, ◌∙◌, true, false, some, List, [], ◌∷◌, map, arith, All,
  Bool-cases, if◌then◌else◌,
}
use group_a_cs.Base.Int.{ℤ, pos, negsuc, eq_ℤ, ◌≤ℤ◌, ◌-ℤ◌, eq_ℤ-eq, eq_ℤ_refl, int_max, to_int}
use group_a_cs.Tables.{ProductInfo, ItemOrder}
use group_a_cs.World.Rows.{find_row, modify_row}
use group_a_cs.Ordering.{take_from_stock}
use group_a_cs.Ordering.Items.{Covered, Exists}

-- A quantity of zero or more that an `int` holds.
abbrev pub IsQuantity : ℤ → Type 0
IsQuantity (pos n) = n ≤ int_max
IsQuantity (negsuc n) = ⊥

abbrev pub AllInStock : List ProductInfo → Type 0
AllInStock = All (λ (p : ProductInfo). IsQuantity p.quantity)

-- No two rows have one product id.
abbrev pub Distinct : List ProductInfo → Type 0
Distinct [] = Unit
Distinct (p ∷ ps) = All (λ (r : ProductInfo). r.product_id ≢ p.product_id) ps × Distinct ps

-- No two items are of one product.
abbrev pub DistinctItems : List ItemOrder → Type 0
DistinctItems [] = Unit
DistinctItems (o ∷ os) = All (λ (r : ItemOrder). o.product_id ≢ r.product_id) os × DistinctItems os

-- A row after the sale of an item, and after the sale of each item of an order.
abbrev pub sold : ItemOrder → ProductInfo → ProductInfo
sold item p =
    if eq_ℤ p.product_id item.product_id
    then record p { quantity = p.quantity -ℤ item.quantity }
    else p

abbrev pub sold_all : List ItemOrder → List ProductInfo → List ProductInfo
sold_all [] ps = ps
sold_all (o ∷ os) ps = sold_all os (map (sold o) ps)

pub eq_ℤ-true : {a b : ℤ} → a ≡ b → eq_ℤ a b ≡ true
eq_ℤ-true {a} e = rw (← e) (eq_ℤ_refl a)

eq_ℤ_other : {a b : ℤ} → a ≢ b → eq_ℤ a b ≡ false
eq_ℤ_other {a} {b} h = elim (Bool-cases (eq_ℤ a b)) [
  | inl e ↦ absurd (h (eq_ℤ-eq a b e))
  | inr e ↦ e
]

-- A subtraction that is covered stays in range.
pub covered_sub :
    (a b : ℤ)
    → IsQuantity a
    → IsQuantity b
    → b ≤ℤ a
    → (to_int (a -ℤ b) ≡ some (a -ℤ b)) × IsQuantity (a -ℤ b) × (a -ℤ b ≤ℤ a)
unfolding ◌-ℤ◌
covered_sub (pos a) (pos b) ha hb le = ground arith
covered_sub (pos a) (negsuc b) ha hb le = absurd hb
covered_sub (negsuc a) b ha hb le = absurd ha

pub map-sold_absent :
    (item : ItemOrder) (ps : List ProductInfo)
    → All (λ (r : ProductInfo). r.product_id ≢ item.product_id) ps
    → map (sold item) ps ≡ ps
map-sold_absent item [] h = refl
map-sold_absent item (p ∷ ps) h = rw (eq_ℤ_other h.0, map-sold_absent item ps h.1)

module _ (item : ItemOrder) (p : ProductInfo) (ps : List ProductInfo) where
  pub take_from_stock_here :
      p.product_id ≡ item.product_id
      → to_int (p.quantity -ℤ item.quantity) ≡ some (p.quantity -ℤ item.quantity)
      → take_from_stock item (p ∷ ps)
        ≡ some (record p { quantity = p.quantity -ℤ item.quantity } ∷ ps)
  unfolding take_from_stock find_row modify_row
  take_from_stock_here e f = rw (eq_ℤ-true e, find_row) (rw f)

  pub take_from_stock_there :
      {qs : List ProductInfo}
      → p.product_id ≢ item.product_id
      → take_from_stock item ps ≡ some qs
      → take_from_stock item (p ∷ ps) ≡ some (p ∷ qs)
  unfolding take_from_stock find_row modify_row
  take_from_stock_there e f = rw (eq_ℤ_other e, find_row) (ground arith)

sold_id : (item : ItemOrder) (p : ProductInfo) → (sold item p).product_id ≡ p.product_id
sold_id item p = ground arith

sold_other : (item : ItemOrder) (p : ProductInfo) → p.product_id ≢ item.product_id → sold item p ≡ p
sold_other item p h = rw (eq_ℤ_other h)

map-sold_ne :
    (item : ItemOrder) (k : ℤ) (ps : List ProductInfo)
    → All (λ (r : ProductInfo). r.product_id ≢ k) ps
    → All (λ (r : ProductInfo). r.product_id ≢ k) (map (sold item) ps)
map-sold_ne item k [] h = tt
map-sold_ne item k (p ∷ ps) h = ((λ e. h.0 (sym (sold_id item p) ∙ e)), map-sold_ne item k ps h.1)

pub Distinct-map :
    (item : ItemOrder) (ps : List ProductInfo) → Distinct ps → Distinct (map (sold item) ps)
Distinct-map item [] d = tt
Distinct-map item (p ∷ ps) d = (
  subst (λ k. All (λ (r : ProductInfo). r.product_id ≢ k) (map (sold item) ps))
      (sym (sold_id item p)) (map-sold_ne item p.product_id ps d.0),
  Distinct-map item ps d.1,
)

pub AllInStock-map :
    (item : ItemOrder) (ps : List ProductInfo)
    → AllInStock ps
    → IsQuantity item.quantity
    → All (λ (p : ProductInfo). p.product_id ≡ item.product_id → item.quantity ≤ℤ p.quantity) ps
    → AllInStock (map (sold item) ps)
AllInStock-map item [] st q h = tt
AllInStock-map item (p ∷ ps) st q h = (
  elim (Bool-cases (eq_ℤ p.product_id item.product_id)) [
    | inl same ↦
        rw same
          (covered_sub p.quantity item.quantity st.0 q
            (h.0 (eq_ℤ-eq p.product_id item.product_id same))).1
    | inr other ↦ rw other st.0
  ],
  AllInStock-map item ps st.1 q h.1,
)

Exists-map :
    (item : ItemOrder) (k : ℤ) (ps : List ProductInfo)
    → Exists (λ (p : ProductInfo). p.product_id ≡ k) ps
    → Exists (λ (p : ProductInfo). p.product_id ≡ k) (map (sold item) ps)
Exists-map item k [] m = m
Exists-map item k (p ∷ ps) (inl e) = inl (sold_id item p ∙ e)
Exists-map item k (p ∷ ps) (inr m) = inr (Exists-map item k ps m)

enough-map :
    (item other : ItemOrder) (ps : List ProductInfo)
    → item.product_id ≢ other.product_id
    → All (λ (p : ProductInfo). p.product_id ≡ other.product_id → other.quantity ≤ℤ p.quantity) ps
    → All
        (λ (p : ProductInfo). p.product_id ≡ other.product_id → other.quantity ≤ℤ p.quantity)
        (map (sold item) ps)
enough-map item other [] ne h = tt
enough-map item other (p ∷ ps) ne h = (
  (λ e.
      let e' : p.product_id ≡ other.product_id = sym (sold_id item p) ∙ e in
      rw (sold_other item p (λ k. ne (sym k ∙ e'))) (h.0 e')),
  enough-map item other ps ne h.1,
)

-- A sale leaves the items of other products covered.
pub Covered-map :
    (item : ItemOrder) (os : List ItemOrder) (ps : List ProductInfo)
    → All (λ (r : ItemOrder). item.product_id ≢ r.product_id) os
    → All (Covered ps) os
    → All (Covered (map (sold item) ps)) os
Covered-map item [] ps ne h = tt
Covered-map item (o ∷ os) ps ne h = (
  record {
    known = Exists-map item o.product_id ps h.0.known;
    enough = enough-map item o ps ne.0 h.0.enough;
  },
  Covered-map item os ps ne.1 h.1,
)
