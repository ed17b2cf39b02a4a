-- ===== src/Tables/RoundTrip/Bills.antt =====
-- The billing table: `loadBillingInfo` and `writeBackBillingStruct`.
use group_a_cs.Base.{
  ◌+◌, ◌<◌, ◌≤◌, ◌≡◌, refl, true, none, some, List, [], ◌∷◌, ◌++◌, arith, Bytes, length,
  length-append, drop, All, append_assoc,
}
use group_a_cs.Base.Int.{pos}
use group_a_cs.Libc.{strtok, atoi}
use group_a_cs.Libc.Tokens.{IsField}
use group_a_cs.Convert.{int_to_char_array}
use group_a_cs.Convert.RoundTrip.{
  IsStorable, atoi-int_to_char_array, int_to_char_array-IsField, length-int_to_char_array,
}
use group_a_cs.Tables.{next_text, next_int, BillingInfo, parse_billing, load_billing_info}
use group_a_cs.Tables.Save.{fields_text, billing_fields, count_newlines, write_back_billing_struct}
use group_a_cs.Tables.RoundTrip.{
  RowFormat, table_text, IsPrinted, load_lines-table_text, load_lines_fault, write_back-table_text,
}
use group_a_cs.Tables.RoundTrip.Fields.{
  IsText, next_text-append, strtok_int, next_int-append, length-fields_text,
}

-- A row that can be printed and read back: its numbers are positive, its texts are short, not empty
-- and without commas and newlines.
pub record IsStoredBilling (r : BillingInfo) : Type 0 where
  pub order_id : IsStorable r.order_id
  pub customer_id : IsStorable r.customer_id
  pub first_name : IsText r.first_name
  pub last_name : IsText r.last_name
  pub street_address : IsText r.street_address
  pub city : IsText r.city
  pub state : IsText r.state
  pub zip_code : IsText r.zip_code
  pub total_order_cost : IsStorable r.total_order_cost

pub billing_fields-IsField : (r : BillingInfo) → IsStoredBilling r → All IsField (billing_fields r)
billing_fields-IsField r h = (
  int_to_char_array-IsField r.order_id h.order_id,
  (
    int_to_char_array-IsField r.customer_id h.customer_id,
    (
      h.first_name.field,
      (
        h.last_name.field,
        (
          h.street_address.field,
          (
            h.city.field,
            (
              h.state.field,
              (
                h.zip_code.field,
                (int_to_char_array-IsField r.total_order_cost h.total_order_cost, tt),
              ),
            ),
          ),
        ),
      ),
    ),
  ),
)

pub billing_fields_fit :
    (r : BillingInfo) → IsStoredBilling r → length (fields_text (billing_fields r) []) < 199
billing_fields_fit r h = omega (
  arith,
  length-fields_text (billing_fields r),
  length-int_to_char_array r.order_id h.order_id,
  length-int_to_char_array r.customer_id h.customer_id,
  h.first_name.fits,
  h.last_name.fits,
  h.street_address.fits,
  h.city.fits,
  h.state.fits,
  h.zip_code.fits,
  length-int_to_char_array r.total_order_cost h.total_order_cost,
)

pub parse_billing-fields :
    (r : BillingInfo)
    → IsStoredBilling r
    → (t : Bytes × Bytes) × (strtok (fields_text (billing_fields r) (b'\n' ∷ [])) ≡ some t)
      × (parse_billing t.0 t.1 ≡ some r)
unfolding parse_billing
parse_billing-fields r h = (
  _,
  strtok_int _ h.order_id _,
  rw (
    atoi-int_to_char_array _ h.order_id,
    next_int-append _ h.customer_id _,
    next_text-append _ h.first_name _,
    next_text-append _ h.last_name _,
    next_text-append _ h.street_address _,
    next_text-append _ h.city _,
    next_text-append _ h.state _,
    next_text-append _ h.zip_code _,
    next_int-append _ h.total_order_cost _,
  ),
)

abbrev pub billing_format : RowFormat BillingInfo
billing_format = record {
  fields = billing_fields;
  parse = parse_billing;
  IsStored = IsStoredBilling;
  fields-IsField = billing_fields-IsField;
  fields_fit = billing_fields_fit;
  parse-fields = parse_billing-fields;
}

-- The text of a table of rows.
abbrev pub billing_text : List BillingInfo → Bytes
billing_text = table_text billing_format

-- Loading the text of a table puts its rows in front of what the array held.
pub load_billing_info-billing_text :
    (rows table : List BillingInfo)
    → All IsStoredBilling rows
    → length rows ≤ length table
    → load_billing_info (some (billing_text rows)) table
      ≡ some (true, rows ++ drop (length rows) table)
unfolding load_billing_info
load_billing_info-billing_text rows table h room =
    rw (load_lines-table_text billing_format rows table h room)

pub write_back_billing_struct-billing_text :
    (old : Bytes) (rows rest : List BillingInfo)
    → count_newlines old + 1 ≡ length rows
    → length (billing_text rows) < 1000
    → write_back_billing_struct [] (some old) (rows ++ rest) ≡ some (billing_text rows)
unfolding write_back_billing_struct
write_back_billing_struct-billing_text = write_back-table_text billing_format

-- If the rows in front of a table can be stored, are as many as the old file has newlines and one,
-- and their text is shorter than 1000 bytes, then with a zeroed buffer the write-back writes exactly
-- these rows: loading the new file puts them back in front of any array that has the room.
pub load_billing_info-write_back_billing_struct :
    (old : Bytes) (rows rest table : List BillingInfo)
    → All IsStoredBilling rows
    → count_newlines old + 1 ≡ length rows
    → length (billing_text rows) < 1000
    → length rows ≤ length table
    → (file : Bytes) × (write_back_billing_struct [] (some old) (rows ++ rest) ≡ some file)
      × (load_billing_info (some file) table ≡ some (true, rows ++ drop (length rows) table))
load_billing_info-write_back_billing_struct old rows rest table h lines short room = (
  billing_text rows,
  write_back_billing_struct-billing_text old rows rest lines short,
  load_billing_info-billing_text rows table h room,
)

-- A row of zeroed memory.
abbrev pub no_billing : BillingInfo
no_billing = record {
  order_id = pos 0;
  customer_id = pos 0;
  first_name = [];
  last_name = [];
  street_address = [];
  city = [];
  state = [];
  zip_code = [];
  total_order_cost = pos 0;
}

no_billing-IsPrinted : IsPrinted billing_format no_billing
unfolding int_to_char_array
no_billing-IsPrinted = record { no_newline = omega arith; fits = omega arith }

no_billing_unreadable :
    (t : Bytes × Bytes) × (strtok (fields_text (billing_fields no_billing) (b'\n' ∷ [])) ≡ some t)
    × (parse_billing t.0 t.1 ≡ none)
unfolding int_to_char_array strtok parse_billing atoi next_text next_int
no_billing_unreadable = ((b'\n' ∷ [], []), refl, refl)

-- If the old file has as many newlines as the table has rows, which is how the write-back itself
-- leaves a file, the row behind them is zeroed memory, the buffer is clean, and the rows can be stored
-- in a text shorter than 1000 bytes, then the write-back writes the zeroed row too, and the file that
-- it leaves cannot be loaded any more, whatever the array holds: the loader passes a null pointer on.
pub load_billing_info-free_row :
    (old : Bytes) (rows rest table : List BillingInfo)
    → All IsStoredBilling rows
    → count_newlines old ≡ length rows
    → length (billing_text (rows ++ no_billing ∷ [])) < 1000
    → (file : Bytes) × (write_back_billing_struct [] (some old) (rows ++ no_billing ∷ rest)
        ≡ some file)
      × (load_billing_info (some file) table ≡ none)
unfolding load_billing_info
load_billing_info-free_row old rows rest table h lines short =
    let (t, read, bad) = no_billing_unreadable in
    (
      billing_text (rows ++ no_billing ∷ []),
      rw (← append_assoc rows (no_billing ∷ []) rest) (
          write_back_billing_struct-billing_text old (rows ++ no_billing ∷ []) rest
            (omega (arith, length-append rows (no_billing ∷ []))) short),
      rw (load_lines_fault billing_format rows table no_billing t h no_billing-IsPrinted read bad),
    )
