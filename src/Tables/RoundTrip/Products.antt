-- ===== src/Tables/RoundTrip/Products.antt =====
-- The product table: `loadProductInfo` and `writeBackProductStruct`.
use group_a_cs.Base.{
  ◌+◌, ◌<◌, ◌≤◌, ◌≡◌, refl, true, none, some, List, [], ◌∷◌, ◌++◌, arith, Bytes, length,
  length-append, drop, All, append_assoc,
}
use group_a_cs.Base.Int.{pos}
use group_a_cs.Libc.{strtok, atoi}
use group_a_cs.Libc.Tokens.{IsField}
use group_a_cs.Convert.{int_to_char_array}
use group_a_cs.Convert.RoundTrip.{
  IsStorable, atoi-int_to_char_array, int_to_char_array-IsField, length-int_to_char_array,
}
use group_a_cs.Tables.{next_text, next_int, ProductInfo, parse_product, load_product_info}
use group_a_cs.Tables.Save.{fields_text, product_fields, count_newlines, write_back_product_struct}
use group_a_cs.Tables.RoundTrip.{
  RowFormat, table_text, IsPrinted, load_lines-table_text, load_lines_fault, write_back-table_text,
}
use group_a_cs.Tables.RoundTrip.Fields.{
  IsText, next_text-append, strtok_int, next_int-append, length-fields_text,
}

-- A row that can be printed and read back: its numbers are positive, its texts are short, not empty
-- and without commas and newlines.
pub record IsStoredProduct (r : ProductInfo) : Type 0 where
  pub product_id : IsStorable r.product_id
  pub product_name : IsText r.product_name
  pub seller_id : IsStorable r.seller_id
  pub quantity : IsStorable r.quantity
  pub price : IsStorable r.price

pub product_fields-IsField : (r : ProductInfo) → IsStoredProduct r → All IsField (product_fields r)
product_fields-IsField r h = (
  int_to_char_array-IsField r.product_id h.product_id,
  (
    h.product_name.field,
    (
      int_to_char_array-IsField r.seller_id h.seller_id,
      (
        int_to_char_array-IsField r.quantity h.quantity,
        (int_to_char_array-IsField r.price h.price, tt),
      ),
    ),
  ),
)

pub product_fields_fit :
    (r : ProductInfo) → IsStoredProduct r → length (fields_text (product_fields r) []) < 199
product_fields_fit r h = omega (
  arith,
  length-fields_text (product_fields r),
  length-int_to_char_array r.product_id h.product_id,
  h.product_name.fits,
  length-int_to_char_array r.seller_id h.seller_id,
  length-int_to_char_array r.quantity h.quantity,
  length-int_to_char_array r.price h.price,
)

pub parse_product-fields :
    (r : ProductInfo)
    → IsStoredProduct r
    → (t : Bytes × Bytes) × (strtok (fields_text (product_fields r) (b'\n' ∷ [])) ≡ some t)
      × (parse_product t.0 t.1 ≡ some r)
unfolding parse_product
parse_product-fields r h = (
  _,
  strtok_int _ h.product_id _,
  rw (
    atoi-int_to_char_array _ h.product_id,
    next_text-append _ h.product_name _,
    next_int-append _ h.seller_id _,
    next_int-append _ h.quantity _,
    next_int-append _ h.price _,
  ),
)

abbrev pub product_format : RowFormat ProductInfo
product_format = record {
  fields = product_fields;
  parse = parse_product;
  IsStored = IsStoredProduct;
  fields-IsField = product_fields-IsField;
  fields_fit = product_fields_fit;
  parse-fields = parse_product-fields;
}

-- The text of a table of rows.
abbrev pub product_text : List ProductInfo → Bytes
product_text = table_text product_format

-- Loading the text of a table puts its rows in front of what the array held.
pub load_product_info-product_text :
    (rows table : List ProductInfo)
    → All IsStoredProduct rows
    → length rows ≤ length table
    → load_product_info (some (product_text rows)) table
      ≡ some (true, rows ++ drop (length rows) table)
unfolding load_product_info
load_product_info-product_text rows table h room =
    rw (load_lines-table_text product_format rows table h room)

pub write_back_product_struct-product_text :
    (old : Bytes) (rows rest : List ProductInfo)
    → count_newlines old + 1 ≡ length rows
    → length (product_text rows) < 1000
    → write_back_product_struct [] (some old) (rows ++ rest) ≡ some (product_text rows)
unfolding write_back_product_struct
write_back_product_struct-product_text = write_back-table_text product_format

-- If the rows in front of a table can be stored, are as many as the old file has newlines and one,
-- and their text is shorter than 1000 bytes, then with a zeroed buffer the write-back writes exactly
-- these rows: loading the new file puts them back in front of any array that has the room.
pub load_product_info-write_back_product_struct :
    (old : Bytes) (rows rest table : List ProductInfo)
    → All IsStoredProduct rows
    → count_newlines old + 1 ≡ length rows
    → length (product_text rows) < 1000
    → length rows ≤ length table
    → (file : Bytes) × (write_back_product_struct [] (some old) (rows ++ rest) ≡ some file)
      × (load_product_info (some file) table ≡ some (true, rows ++ drop (length rows) table))
load_product_info-write_back_product_struct old rows rest table h lines short room = (
  product_text rows,
  write_back_product_struct-product_text old rows rest lines short,
  load_product_info-product_text rows table h room,
)

-- A row of zeroed memory.
abbrev pub no_product : ProductInfo
no_product = record {
  product_id = pos 0;
  product_name = [];
  seller_id = pos 0;
  quantity = pos 0;
  price = pos 0;
}

no_product-IsPrinted : IsPrinted product_format no_product
unfolding int_to_char_array
no_product-IsPrinted = record { no_newline = omega arith; fits = omega arith }

no_product_unreadable :
    (t : Bytes × Bytes) × (strtok (fields_text (product_fields no_product) (b'\n' ∷ [])) ≡ some t)
    × (parse_product t.0 t.1 ≡ none)
unfolding int_to_char_array strtok parse_product atoi next_text next_int
no_product_unreadable = ((b'\n' ∷ [], []), refl, refl)

-- If the old file has as many newlines as the table has rows, which is how the write-back itself
-- leaves a file, the row behind them is zeroed memory, the buffer is clean, and the rows can be stored
-- in a text shorter than 1000 bytes, then the write-back writes the zeroed row too, and the file that
-- it leaves cannot be loaded any more, whatever the array holds: the loader passes a null pointer on.
pub load_product_info-free_row :
    (old : Bytes) (rows rest table : List ProductInfo)
    → All IsStoredProduct rows
    → count_newlines old ≡ length rows
    → length (product_text (rows ++ no_product ∷ [])) < 1000
    → (file : Bytes) × (write_back_product_struct [] (some old) (rows ++ no_product ∷ rest)
        ≡ some file)
      × (load_product_info (some file) table ≡ none)
unfolding load_product_info
load_product_info-free_row old rows rest table h lines short =
    let (t, read, bad) = no_product_unreadable in
    (
      product_text (rows ++ no_product ∷ []),
      rw (← append_assoc rows (no_product ∷ []) rest) (
          write_back_product_struct-product_text old (rows ++ no_product ∷ []) rest
            (omega (arith, length-append rows (no_product ∷ []))) short),
      rw (load_lines_fault product_format rows table no_product t h no_product-IsPrinted read bad),
    )
