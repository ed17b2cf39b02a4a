-- ===== src/World/Rows/Prefix.antt =====
-- The loops over rows on a table that is in use up to a free row: each gives what the plain list
-- function gives on the rows in use.
use group_a_cs.Base.{
  suc, ◌≡◌, refl, ap, true, false, Bool, Option, some, List, [], ◌∷◌, ◌++◌, if◌then◌else◌, length,
  take, All, Bool-cases, inl, inr,
}
use group_a_cs.Base.Int.{ℤ, eq_ℤ, is_zero}
use group_a_cs.World.Rows.{
  first_free, find_row, find_row_or_end, any_row, select_rows, change_rows, modify_row, get_row,
}

module _ {A : Type 0} where
  -- The members that pass a test.
  abbrev pub keep : (A → Bool) → List A → List A
  keep test [] = []
  keep test (r ∷ rows) = if test r then r ∷ keep test rows else keep test rows

  abbrev pub any : (A → Bool) → List A → Bool
  any test [] = false
  any test (r ∷ rows) = if test r then true else any test rows

  -- The list with the members changed that pass a test.
  abbrev pub change : (A → Bool) → (A → A) → List A → List A
  change test f [] = []
  change test f (r ∷ rows) = (if test r then f r else r) ∷ change test f rows

  pub modify_row-append :
      (rows : List A) (r r' : A) (rest : List A) (f : A → Option A)
      → f r ≡ some r'
      → modify_row (length rows) f (rows ++ r ∷ rest) ≡ some (rows ++ r' ∷ rest)
  unfolding modify_row
  modify_row-append [] r r' rest f e = rw e
  modify_row-append (x ∷ rows) r r' rest f e = rw (modify_row-append rows r r' rest f e)

  pub get_row-append :
      (rows : List A) (r : A) (rest : List A) → get_row (length rows) (rows ++ r ∷ rest) ≡ some r
  unfolding get_row
  get_row-append [] r rest = refl
  get_row-append (x ∷ rows) r rest = get_row-append rows r rest

  pub take-append : (rows rest : List A) → take (length rows) (rows ++ rest) ≡ rows
  take-append [] rest = refl
  take-append (x ∷ rows) rest = ap (λ l. x ∷ l) (take-append rows rest)

  pub take-suc-append :
      (rows : List A) (r : A) (rest : List A)
      → take (suc (length rows)) (rows ++ r ∷ rest) ≡ rows ++ r ∷ []
  take-suc-append [] r rest = refl
  take-suc-append (x ∷ rows) r rest = ap (λ l. x ∷ l) (take-suc-append rows r rest)

module _ {A : Type 0} (key : A → ℤ) where
  -- The rows have keys other than zero.
  abbrev pub InUse : List A → Type 0
  InUse = All (λ r. is_zero (key r) ≡ false)

  -- No row has this key.
  abbrev pub Absent : ℤ → List A → Type 0
  Absent id = All (λ r. eq_ℤ (key r) id ≡ false)

  keep-none : (id : ℤ) (rows : List A) → Absent id rows → keep (λ x. eq_ℤ (key x) id) rows ≡ []
  keep-none id [] h = refl
  keep-none id (r ∷ rows) h = rw h.0 (keep-none id rows h.1)

  -- The one row that has the id.
  pub keep-Absent :
      (id : ℤ) (pre : List A) (r : A) (post : List A)
      → Absent id pre
      → eq_ℤ (key r) id ≡ true
      → Absent id post
      → keep (λ x. eq_ℤ (key x) id) (pre ++ r ∷ post) ≡ r ∷ []
  keep-Absent id [] r post h e k = rw e (ap (λ l. r ∷ l) (keep-none id post k))
  keep-Absent id (x ∷ pre) r post h e k = rw h.0 (keep-Absent id pre r post h.1 e k)

  pub first_free-append :
      (rows : List A) (z : A) (rest : List A)
      → InUse rows
      → is_zero (key z) ≡ true
      → first_free key (rows ++ z ∷ rest) ≡ some (length rows)
  unfolding first_free
  first_free-append [] z rest h e = rw (e, first_free)
  first_free-append (r ∷ rows) z rest h e =
      rw (h.0, first_free) (rw (first_free-append rows z rest h.1 e))

  pub find_row-append :
      (id : ℤ) (rows : List A) (r : A) (rest : List A)
      → Absent id rows
      → eq_ℤ (key r) id ≡ true
      → find_row key id (rows ++ r ∷ rest) ≡ some (length rows)
  unfolding find_row
  find_row-append id [] r rest h e = rw (e, find_row)
  find_row-append id (x ∷ rows) r rest h e =
      rw (h.0, find_row) (rw (find_row-append id rows r rest h.1 e))

  pub find_row_or_end-append :
      (id : ℤ) (rows : List A) (r : A) (post rest : List A)
      → InUse (rows ++ r ∷ post)
      → Absent id rows
      → eq_ℤ (key r) id ≡ true
      → find_row_or_end key id (rows ++ r ∷ rest) ≡ some (length rows)
  unfolding find_row_or_end
  find_row_or_end-append id [] r post rest u h e =
      rw (u.0, find_row_or_end) (rw (e, find_row_or_end))
  find_row_or_end-append id (x ∷ rows) r post rest u h e =
      rw (u.0, find_row_or_end)
        (rw (h.0, find_row_or_end) (rw (find_row_or_end-append id rows r post rest u.1 h.1 e)))

  pub any_row-append :
      (test : A → Bool) (rows : List A) (z : A) (rest : List A)
      → InUse rows
      → is_zero (key z) ≡ true
      → any_row key test (rows ++ z ∷ rest) ≡ some (any test rows)
  unfolding any_row
  any_row-append test [] z rest h e = rw (e, any_row)
  any_row-append test (r ∷ rows) z rest h e = elim (Bool-cases (test r)) [
    | inl t ↦ rw (h.0, any_row) (rw (t, any_row))
    | inr t ↦ rw (h.0, any_row) (rw (t, any_row) (any_row-append test rows z rest h.1 e))
  ]

  pub select_rows-append :
      (test : A → Bool) (rows : List A) (z : A) (rest : List A)
      → InUse rows
      → is_zero (key z) ≡ true
      → select_rows key test (rows ++ z ∷ rest) ≡ some (keep test rows)
  unfolding select_rows
  select_rows-append test [] z rest h e = rw (e, select_rows)
  select_rows-append test (r ∷ rows) z rest h e =
      rw (h.0, select_rows) (rw (select_rows-append test rows z rest h.1 e))

  pub change_rows-append :
      (test : A → Bool) (f : A → A) (rows : List A) (z : A) (rest : List A)
      → InUse rows
      → is_zero (key z) ≡ true
      → change_rows key test f (rows ++ z ∷ rest) ≡ some (change test f rows ++ z ∷ rest)
  unfolding change_rows
  change_rows-append test f [] z rest h e = rw (e, change_rows)
  change_rows-append test f (r ∷ rows) z rest h e =
      rw (h.0, change_rows) (rw (change_rows-append test f rows z rest h.1 e))

-- A loader's result: rows in use up to a free row.
pub record Loaded {A : Type 0} (key : A → ℤ) (result : Option (Bool × List A)) (rows : List A)
    (z : A) (rest : List A) : Type 0 where
  pub loaded : result ≡ some (true, rows ++ z ∷ rest)
  pub used : InUse key rows
  pub ended : is_zero (key z) ≡ true
