-- ===== src/Ordering/Items.antt =====
-- `validateBuyerOrder`, the inner loop: an item against the rows of the product table.
use group_a_cs.Base.{
  ◌≡◌, ◌↔◌, ◌⊎◌, inl, inr, refl, true, false, Bool, List, [], ◌∷◌, ◌++◌, arith, All, Bool-cases,
  ◌∙◌, sym,
}
use group_a_cs.Base.Int.{ℤ, pos, eq_ℤ, is_zero, ltb_ℤ, ◌≤ℤ◌, eq_ℤ-eq, eq_ℤ_ne}
use group_a_cs.Tables.{ProductInfo, ItemOrder}
use group_a_cs.World.Rows.Prefix.{InUse}
use group_a_cs.Ordering.{check_item}

-- Some member has the property.
abbrev pub Exists : {A : Type 0} → (A → Type 0) → List A → Type 0
Exists P [] = ⊥
Exists P (x ∷ xs) = P x ⊎ Exists P xs

-- The item is a product of the table, and no row of the product has too small a stock.
pub record Covered (ps : List ProductInfo) (item : ItemOrder) : Type 0 where
  pub known : Exists (λ (p : ProductInfo). p.product_id ≡ item.product_id) ps
  pub enough :
      All (λ (p : ProductInfo). p.product_id ≡ item.product_id → item.quantity ≤ℤ p.quantity) ps

ltb_ℤ-false : (a b : ℤ) → ltb_ℤ a b ≡ false → b ≤ℤ a
ltb_ℤ-false a b h = ground arith

ltb_ℤ-true : (a b : ℤ) → ltb_ℤ a b ≡ true → ¬ (b ≤ℤ a)
ltb_ℤ-true a b h = ground arith

-- What `check_item` finds, for either value of the flag.
abbrev Checked : ItemOrder → Bool → List ProductInfo → Type 0
Checked item id_found ps =
    ((id_found ≡ true) ⊎ Exists (λ (p : ProductInfo). p.product_id ≡ item.product_id) ps)
    × All (λ (p : ProductInfo). p.product_id ≡ item.product_id → item.quantity ≤ℤ p.quantity) ps

module _ (item : ItemOrder) (id_found : Bool) (p : ProductInfo) (ps : List ProductInfo) where
  check_item_short :
      eq_ℤ item.product_id p.product_id ≡ true
      → ltb_ℤ p.quantity item.quantity ≡ true
      → check_item item id_found (p ∷ ps) ≡ false
  unfolding check_item
  check_item_short e f = rw (e, check_item) (rw (f, check_item))

  check_item_fits :
      eq_ℤ item.product_id p.product_id ≡ true
      → ltb_ℤ p.quantity item.quantity ≡ false
      → check_item item id_found (p ∷ ps) ≡ check_item item true ps
  unfolding check_item
  check_item_fits e f = rw (e, check_item) (rw (f, check_item))

  check_item_other :
      eq_ℤ item.product_id p.product_id ≡ false
      → check_item item id_found (p ∷ ps) ≡ check_item item id_found ps
  unfolding check_item
  check_item_other e = rw (e, check_item)

check_item_sound :
    (item : ItemOrder) (id_found : Bool) (ps : List ProductInfo)
    → check_item item id_found ps ≡ true
    → Checked item id_found ps
check_item_sound item id_found [] h = (inl (unfold check_item in h), tt)
check_item_sound item id_found (p ∷ ps) h = elim (Bool-cases (eq_ℤ item.product_id p.product_id)) [
  | inl same ↦ elim (Bool-cases (ltb_ℤ p.quantity item.quantity)) [
    | inl short ↦ cc (check_item_short item id_found p ps same short)
    | inr fits ↦
        let (a, b) =
          check_item_sound item true ps (sym (check_item_fits item id_found p ps same fits) ∙ h) in
        (
          inr (inl (sym (eq_ℤ-eq item.product_id p.product_id same))),
          ((λ e. ltb_ℤ-false p.quantity item.quantity fits), b),
        )
  ]
  | inr other ↦
      let (a, b) =
        check_item_sound item id_found ps (sym (check_item_other item id_found p ps other) ∙ h) in
      (
        elim a [ inl f ↦ inl f | inr m ↦ inr (inr m) ],
        ((λ e. absurd (eq_ℤ_ne item.product_id p.product_id other e)), b),
      )
]

check_item_complete :
    (item : ItemOrder) (id_found : Bool) (ps : List ProductInfo)
    → Checked item id_found ps
    → check_item item id_found ps ≡ true
check_item_complete item id_found [] (inl e, _) = unfold check_item in e
check_item_complete item id_found [] (inr m, _) = absurd m
check_item_complete item id_found (p ∷ ps) h =
    elim (Bool-cases (eq_ℤ item.product_id p.product_id)) [
      | inl same ↦ elim (Bool-cases (ltb_ℤ p.quantity item.quantity)) [
        | inl short ↦ absurd (
            ltb_ℤ-true p.quantity item.quantity short
              (h.1.0 (sym (eq_ℤ-eq item.product_id p.product_id same))))
        | inr fits ↦
            check_item_fits item id_found p ps same fits
            ∙ check_item_complete item true ps (inl refl, h.1.1)
      ]
      | inr other ↦
          check_item_other item id_found p ps other
          ∙ check_item_complete item id_found ps (
            elim h.0 [
              | inl f ↦ inl f
              | inr m ↦ elim m [
                | inl e ↦ absurd (eq_ℤ_ne item.product_id p.product_id other e)
                | inr n ↦ inr n
              ]
            ],
            h.1.1,
          )
    ]

-- A free row behind the table is of no product.
pub check_item-append :
    (item : ItemOrder) (id_found : Bool) (ps : List ProductInfo) (z : ProductInfo)
    → eq_ℤ item.product_id z.product_id ≡ false
    → check_item item id_found (ps ++ z ∷ []) ≡ check_item item id_found ps
unfolding check_item
check_item-append item id_found [] z e = rw (e, check_item)
check_item-append item id_found (p ∷ ps) z e =
    ground (arith, check_item-append item id_found ps z e, check_item-append item true ps z e)

-- The row behind the order is compared too: it meets the free row of the table, and passes.
pub check_item_end :
    (y : ItemOrder) (ps : List ProductInfo) (z : ProductInfo)
    → InUse ProductInfo.product_id ps
    → is_zero y.product_id ≡ true
    → is_zero z.product_id ≡ true
    → ltb_ℤ z.quantity y.quantity ≡ false
    → check_item y false (ps ++ z ∷ []) ≡ true
check_item_end y [] z u hy hz fits =
    check_item_fits y false z []
      (ground (arith, eq_ℤ-eq y.product_id (pos 0) hy, eq_ℤ-eq z.product_id (pos 0) hz)) fits
    ∙ (unfold check_item in refl)
check_item_end y (p ∷ ps) z u hy hz fits =
    check_item_other y false p (ps ++ z ∷ []) (ground (arith, u.0, eq_ℤ-eq y.product_id (pos 0) hy))
    ∙ check_item_end y ps z u.1 hy hz fits

pub check_item_iff :
    (ps : List ProductInfo) (item : ItemOrder) → (check_item item false ps ≡ true) ↔ Covered ps item
check_item_iff ps item = (
  (λ h.
      let (a, b) = check_item_sound item false ps h in
      record { known = elim a [ inl f ↦ cc | inr m ↦ m ]; enough = b }),
  (λ c. check_item_complete item false ps (inr c.known, c.enough)),
)
