-- ===== src/World/Rows.antt =====
-- The loops over the rows of an array that the handlers write out. `key` is the field whose zero
-- ends the rows that are in use.
pub mod Prefix
use group_a_cs.Base.{
  ℕ, zero, suc, ◌+◌, true, false, Bool, Option, none, some, List, [], ◌∷◌, ◌++◌, Bytes,
  if◌then◌else◌, ◌>>=◌,
}
use group_a_cs.Base.Int.{ℤ, eq_ℤ, is_zero}

module _ {A : Type 0} (key : A → ℤ) where
  -- `while (table[row].key != 0) row++;`
  unfoldable pub first_free : List A → Option ℕ
  first_free [] = none
  first_free (r ∷ rows) = elim (is_zero (key r)) [
    | true ↦ some 0
    | false ↦ do n ← first_free rows; some (suc n)
  ]

  -- `while (table[row].key != id) row++;`
  unfoldable pub find_row : ℤ → List A → Option ℕ
  find_row id [] = none
  find_row id (r ∷ rows) = elim (eq_ℤ (key r) id) [
    | true ↦ some 0
    | false ↦ do n ← find_row id rows; some (suc n)
  ]

  -- The same with a `break`, which also ends at a free row.
  unfoldable pub find_row_or_end : ℤ → List A → Option ℕ
  find_row_or_end id [] = none
  find_row_or_end id (r ∷ rows) = elim (is_zero (key r)) [
    | true ↦ some 0
    | false ↦ elim (eq_ℤ (key r) id) [
      | true ↦ some 0
      | false ↦ do n ← find_row_or_end id rows; some (suc n)
    ]
  ]

  -- Whether a row in use passes a test, which is all that the validating loops look for.
  unfoldable pub any_row : (A → Bool) → List A → Option Bool
  any_row test [] = none
  any_row test (r ∷ rows) = elim (is_zero (key r)) [
    | true ↦ some false
    | false ↦ elim (test r) [ true ↦ some true | false ↦ any_row test rows ]
  ]

  -- The rows in use that pass a test, in order.
  unfoldable pub select_rows : (A → Bool) → List A → Option (List A)
  select_rows test [] = none
  select_rows test (r ∷ rows) = elim (is_zero (key r)) [
    | true ↦ some []
    | false ↦ do rest ← select_rows test rows; some (if test r then r ∷ rest else rest)
  ]

  -- Each row in use that passes a test is changed.
  unfoldable pub change_rows : (A → Bool) → (A → A) → List A → Option (List A)
  change_rows test f [] = none
  change_rows test f (r ∷ rows) = elim (is_zero (key r)) [
    | true ↦ some (r ∷ rows)
    | false ↦ do rest ← change_rows test f rows; some ((if test r then f r else r) ∷ rest)
  ]

module _ {A : Type 0} where
  -- A write to row `i`.
  unfoldable pub modify_row : ℕ → (A → Option A) → List A → Option (List A)
  modify_row i f [] = none
  modify_row zero f (r ∷ rows) = do r' ← f r; some (r' ∷ rows)
  modify_row (suc i) f (r ∷ rows) = do rest ← modify_row i f rows; some (r ∷ rest)

  unfoldable pub get_row : ℕ → List A → Option A
  get_row i [] = none
  get_row zero (r ∷ rows) = some r
  get_row (suc i) (r ∷ rows) = get_row i rows

  -- Rows written to the front of an array, one after another.
  unfoldable pub overwrite : List A → List A → Option (List A)
  overwrite [] table = some table
  overwrite (r ∷ rows) [] = none
  overwrite (r ∷ rows) (old ∷ table) = do rest ← overwrite rows table; some (r ∷ rest)

-- Texts appended by `strcat`, one for each row.
unfoldable pub concat_rows : {A : Type 0} → (A → Bytes) → List A → Bytes
concat_rows f [] = []
concat_rows f (r ∷ rows) = f r ++ concat_rows f rows
