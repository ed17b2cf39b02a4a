-- ===== src/Tables/RoundTrip.antt =====
-- What the loaders read back from the text of the write-back functions, for any row format.
pub mod Fields
pub mod Clients
pub mod Bills
pub mod Orders
pub mod Products
pub mod Zero
use mathlib.Core.List.{append_assoc}
use group_a_cs.Base.{
  ℕ, zero, suc, ◌+◌, ◌≤◌, ◌<◌, ◌≡◌, ◌≢◌, refl, sym, ◌∙◌, ap, true, false, Option, none, some, List,
  [], ◌∷◌, ◌++◌, map, arith, Bytes, ◌==◌, if◌then◌else◌, ◌>>=◌, length, drop, ltb-true, All-append,
  length-append, All,
}
use group_a_cs.Libc.{strtok, fgets_from, fgets_lines}
use group_a_cs.Libc.Tokens.{Lacks, IsField, fgets_from-append}
use group_a_cs.Tables.{load_lines}
use group_a_cs.Tables.Save.{write_back, fields_text, count_newlines, rows_text}

pub fields_text-append :
    (fs : List Bytes) (rest : Bytes) → fields_text fs rest ≡ fields_text fs [] ++ rest
fields_text-append [] rest = refl
fields_text-append (f ∷ fs) rest =
    ap (λ s. f ++ (b',' ∷ s)) (fields_text-append fs rest)
    ∙ sym (append_assoc f (b',' ∷ fields_text fs []) rest)

Lacks-append : (b : ℕ) (s t : Bytes) → Lacks b s → Lacks b t → Lacks b (s ++ t)
Lacks-append b [] t hs ht = ht
Lacks-append b (c ∷ s) t hs ht = (hs.0, Lacks-append b s t hs.1 ht)

fields_text-no_newline : (fs : List Bytes) → All IsField fs → Lacks b'\n' (fields_text fs [])
fields_text-no_newline [] h = tt
fields_text-no_newline (f ∷ fs) h =
    Lacks-append b'\n' f _ h.0.no_newline (omega arith, fields_text-no_newline fs h.1)

count_newlines-append : (s t : Bytes) → Lacks b'\n' s → count_newlines (s ++ t) ≡ count_newlines t
unfolding count_newlines
count_newlines-append [] t h = refl
count_newlines-append (c ∷ s) t h = ground (arith, h.0, count_newlines-append s t h.1)

count_newlines_newline : (t : Bytes) → count_newlines (b'\n' ∷ t) ≡ count_newlines t + 1
unfolding count_newlines
count_newlines_newline t = refl

count_newlines-nil : count_newlines [] ≡ 0
unfolding count_newlines
count_newlines-nil = refl

-- How the rows of a table are printed and parsed, and which rows survive both.
pub record RowFormat (A : Type 0) : Type 1 where
  pub fields : A → List Bytes
  pub parse : Bytes → Bytes → Option A
  pub IsStored : A → Type 0
  pub fields-IsField : (r : A) → IsStored r → All IsField (fields r)
  pub fields_fit : (r : A) → IsStored r → length (fields_text (fields r) []) < 199
  pub parse-fields :
      (r : A)
      → IsStored r
      → (t : Bytes × Bytes) × (strtok (fields_text (fields r) (b'\n' ∷ [])) ≡ some t)
        × (parse t.0 t.1 ≡ some r)

module _ {A : Type 0} (format : RowFormat A) where
  open format use {fields, parse, IsStored, fields-IsField, fields_fit, parse-fields}

  -- The text of whole rows, each with its newline.
  abbrev pub table_text : List A → Bytes
  table_text [] = []
  table_text (r ∷ rows) = fields_text (fields r) (b'\n' ∷ table_text rows)

  abbrev row_line : A → Bytes
  row_line r = fields_text (fields r) (b'\n' ∷ [])

  -- A row whose text is one line, which need not be a line that is read back.
  pub record IsPrinted (r : A) : Type 0 where
    pub no_newline : Lacks b'\n' (fields_text (fields r) [])
    pub fits : length (fields_text (fields r) []) < 199

  IsStored-IsPrinted : (r : A) → IsStored r → IsPrinted r
  IsStored-IsPrinted r h = record {
    no_newline = fields_text-no_newline (fields r) (fields-IsField r h);
    fits = fields_fit r h;
  }

  pub All-IsPrinted : (rows : List A) → All IsStored rows → All IsPrinted rows
  All-IsPrinted [] h = tt
  All-IsPrinted (r ∷ rows) h = (IsStored-IsPrinted r h.0, All-IsPrinted rows h.1)

  fgets_lines-table_text :
      (rows : List A) → All IsPrinted rows → fgets_lines (table_text rows) ≡ map row_line rows
  unfolding fgets_lines
  fgets_lines-table_text [] h = refl
  fgets_lines-table_text (r ∷ rows) h =
      ap (fgets_from 199 []) (fields_text-append (fields r) (b'\n' ∷ table_text rows))
      ∙ fgets_from-append (fields_text (fields r) []) 199 [] (table_text rows) h.0.no_newline
          h.0.fits
      ∙ (λ i.
          sym (fields_text-append (fields r) (b'\n' ∷ [])) i ∷ fgets_lines-table_text rows h.1 i)

  load_lines-map :
      (rows table : List A)
      → All IsStored rows
      → length rows ≤ length table
      → load_lines parse (map row_line rows) table ≡ some (rows ++ drop (length rows) table)
  unfolding load_lines
  load_lines-map [] table h fits = refl
  load_lines-map (r ∷ rows) [] h fits = absurd (omega arith)
  load_lines-map (r ∷ rows) (old ∷ table) h fits =
      let (t, read, parsed) = parse-fields r h.0 in
      rw (read, load_lines) (rw (parsed, load_lines-map rows table h.1 (omega arith)))

  -- Loading the text of a table puts its rows in front of what the array held.
  pub load_lines-table_text :
      (rows table : List A)
      → All IsStored rows
      → length rows ≤ length table
      → load_lines parse (fgets_lines (table_text rows)) table
        ≡ some (rows ++ drop (length rows) table)
  load_lines-table_text rows table h fits =
      rw (fgets_lines-table_text rows (All-IsPrinted rows h)) (load_lines-map rows table h fits)

  rows_text-table_text :
      (rows rest : List A) → rows_text fields (length rows) (rows ++ rest) ≡ some (table_text rows)
  unfolding rows_text
  rows_text-table_text [] rest = refl
  rows_text-table_text (r ∷ rows) rest = rw (rows_text-table_text rows rest)

  pub count_newlines-table_text :
      (rows : List A) → All IsPrinted rows → count_newlines (table_text rows) ≡ length rows
  count_newlines-table_text [] h = count_newlines-nil
  count_newlines-table_text (r ∷ rows) h =
      ap count_newlines (fields_text-append (fields r) (b'\n' ∷ table_text rows))
      ∙ count_newlines-append (fields_text (fields r) []) (b'\n' ∷ table_text rows) h.0.no_newline
      ∙ omega (arith, count_newlines_newline (table_text rows), count_newlines-table_text rows h.1)

  -- The write-back writes as many rows as the old file has newlines, and one.
  pub write_back-table_text :
      (old : Bytes) (rows rest : List A)
      → count_newlines old + 1 ≡ length rows
      → length (table_text rows) < 1000
      → write_back fields [] (some old) (rows ++ rest) ≡ some (table_text rows)
  unfolding write_back
  write_back-table_text old rows rest n fits =
      rw (n, rows_text-table_text rows rest) (rw (ltb-true _ _ fits))

  -- A row that cannot be parsed makes the load of the whole text fail.
  load_lines-map_fault :
      (rows table : List A) (z : A) (t : Bytes × Bytes)
      → All IsStored rows
      → strtok (row_line z) ≡ some t
      → parse t.0 t.1 ≡ none
      → load_lines parse (map row_line (rows ++ z ∷ [])) table ≡ none
  unfolding load_lines
  load_lines-map_fault [] [] z t h read bad = rw (read, load_lines)
  load_lines-map_fault [] (old ∷ table) z t h read bad = rw (read, load_lines) (rw bad)
  load_lines-map_fault (r ∷ rows) [] z t h read bad =
      let (u, read_row, parsed) = parse-fields r h.0 in rw (read_row, load_lines)
  load_lines-map_fault (r ∷ rows) (old ∷ table) z t h read bad =
      let (u, read_row, parsed) = parse-fields r h.0 in
      rw (read_row, load_lines) (rw (parsed, load_lines-map_fault rows table z t h.1 read bad))

  pub load_lines_fault :
      (rows table : List A) (z : A) (t : Bytes × Bytes)
      → All IsStored rows
      → IsPrinted z
      → strtok (row_line z) ≡ some t
      → parse t.0 t.1 ≡ none
      → load_lines parse (fgets_lines (table_text (rows ++ z ∷ []))) table ≡ none
  load_lines_fault rows table z t h printed read bad =
      rw
        (fgets_lines-table_text (rows ++ z ∷ [])
          (All-append IsPrinted rows (z ∷ []) (All-IsPrinted rows h) (printed, tt)))
        (load_lines-map_fault rows table z t h read bad)
