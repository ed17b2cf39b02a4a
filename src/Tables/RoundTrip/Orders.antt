-- ===== src/Tables/RoundTrip/Orders.antt =====
-- The order table: `loadCustomerOrderInfo` and `writeBackCustomerOrderStruct`.
use group_a_cs.Base.{
  ◌+◌, ◌<◌, ◌≤◌, ◌≡◌, refl, true, none, some, List, [], ◌∷◌, ◌++◌, arith, Bytes, length,
  length-append, drop, All, append_assoc,
}
use group_a_cs.Base.Int.{pos}
use group_a_cs.Libc.{strtok, atoi}
use group_a_cs.Libc.Tokens.{IsField}
use group_a_cs.Convert.{int_to_char_array}
use group_a_cs.Convert.RoundTrip.{
  IsStorable, atoi-int_to_char_array, int_to_char_array-IsField, length-int_to_char_array,
}
use group_a_cs.Tables.{
  next_text, next_int, CustomerOrderInfo, parse_customer_order, load_customer_order_info,
}
use group_a_cs.Tables.Save.{
  fields_text, customer_order_fields, count_newlines, write_back_customer_order_struct,
}
use group_a_cs.Tables.RoundTrip.{
  RowFormat, table_text, IsPrinted, load_lines-table_text, load_lines_fault, write_back-table_text,
}
use group_a_cs.Tables.RoundTrip.Fields.{
  IsText, next_text-append, strtok_int, next_int-append, length-fields_text,
}

-- A row that can be printed and read back: its numbers are positive, its texts are short, not empty
-- and without commas and newlines.
pub record IsStoredCustomerOrder (r : CustomerOrderInfo) : Type 0 where
  pub order_id : IsStorable r.order_id
  pub product_id : IsStorable r.product_id
  pub quantity_purchased : IsStorable r.quantity_purchased
  pub first_name : IsText r.first_name
  pub last_name : IsText r.last_name
  pub street_address : IsText r.street_address
  pub city : IsText r.city
  pub state : IsText r.state
  pub zip_code : IsText r.zip_code
  pub total_price : IsStorable r.total_price

pub customer_order_fields-IsField :
    (r : CustomerOrderInfo) → IsStoredCustomerOrder r → All IsField (customer_order_fields r)
customer_order_fields-IsField r h = (
  int_to_char_array-IsField r.order_id h.order_id,
  (
    int_to_char_array-IsField r.product_id h.product_id,
    (
      int_to_char_array-IsField r.quantity_purchased h.quantity_purchased,
      (
        h.first_name.field,
        (
          h.last_name.field,
          (
            h.street_address.field,
            (
              h.city.field,
              (
                h.state.field,
                (h.zip_code.field, (int_to_char_array-IsField r.total_price h.total_price, tt)),
              ),
            ),
          ),
        ),
      ),
    ),
  ),
)

pub customer_order_fields_fit :
    (r : CustomerOrderInfo)
    → IsStoredCustomerOrder r
    → length (fields_text (customer_order_fields r) []) < 199
customer_order_fields_fit r h = omega (
  arith,
  length-fields_text (customer_order_fields r),
  length-int_to_char_array r.order_id h.order_id,
  length-int_to_char_array r.product_id h.product_id,
  length-int_to_char_array r.quantity_purchased h.quantity_purchased,
  h.first_name.fits,
  h.last_name.fits,
  h.street_address.fits,
  h.city.fits,
  h.state.fits,
  h.zip_code.fits,
  length-int_to_char_array r.total_price h.total_price,
)

pub parse_customer_order-fields :
    (r : CustomerOrderInfo)
    → IsStoredCustomerOrder r
    → (t : Bytes × Bytes) × (strtok (fields_text (customer_order_fields r) (b'\n' ∷ [])) ≡ some t)
      × (parse_customer_order t.0 t.1 ≡ some r)
unfolding parse_customer_order
parse_customer_order-fields r h = (
  _,
  strtok_int _ h.order_id _,
  rw (
    atoi-int_to_char_array _ h.order_id,
    next_int-append _ h.product_id _,
    next_int-append _ h.quantity_purchased _,
    next_text-append _ h.first_name _,
    next_text-append _ h.last_name _,
    next_text-append _ h.street_address _,
    next_text-append _ h.city _,
    next_text-append _ h.state _,
    next_text-append _ h.zip_code _,
    next_int-append _ h.total_price _,
  ),
)

abbrev pub customer_order_format : RowFormat CustomerOrderInfo
customer_order_format = record {
  fields = customer_order_fields;
  parse = parse_customer_order;
  IsStored = IsStoredCustomerOrder;
  fields-IsField = customer_order_fields-IsField;
  fields_fit = customer_order_fields_fit;
  parse-fields = parse_customer_order-fields;
}

-- The text of a table of rows.
abbrev pub customer_order_text : List CustomerOrderInfo → Bytes
customer_order_text = table_text customer_order_format

-- Loading the text of a table puts its rows in front of what the array held.
pub load_customer_order_info-customer_order_text :
    (rows table : List CustomerOrderInfo)
    → All IsStoredCustomerOrder rows
    → length rows ≤ length table
    → load_customer_order_info (some (customer_order_text rows)) table
      ≡ some (true, rows ++ drop (length rows) table)
unfolding load_customer_order_info
load_customer_order_info-customer_order_text rows table h room =
    rw (load_lines-table_text customer_order_format rows table h room)

pub write_back_customer_order_struct-customer_order_text :
    (old : Bytes) (rows rest : List CustomerOrderInfo)
    → count_newlines old + 1 ≡ length rows
    → length (customer_order_text rows) < 1000
    → write_back_customer_order_struct [] (some old) (rows ++ rest)
      ≡ some (customer_order_text rows)
unfolding write_back_customer_order_struct
write_back_customer_order_struct-customer_order_text = write_back-table_text customer_order_format

-- If the rows in front of a table can be stored, are as many as the old file has newlines and one,
-- and their text is shorter than 1000 bytes, then with a zeroed buffer the write-back writes exactly
-- these rows: loading the new file puts them back in front of any array that has the room.
pub load_customer_order_info-write_back_customer_order_struct :
    (old : Bytes) (rows rest table : List CustomerOrderInfo)
    → All IsStoredCustomerOrder rows
    → count_newlines old + 1 ≡ length rows
    → length (customer_order_text rows) < 1000
    → length rows ≤ length table
    → (file : Bytes) × (write_back_customer_order_struct [] (some old) (rows ++ rest) ≡ some file)
      × (load_customer_order_info (some file) table ≡ some (true, rows ++ drop (length rows) table))
load_customer_order_info-write_back_customer_order_struct old rows rest table h lines short room = (
  customer_order_text rows,
  write_back_customer_order_struct-customer_order_text old rows rest lines short,
  load_customer_order_info-customer_order_text rows table h room,
)

-- A row of zeroed memory.
abbrev pub no_customer_order : CustomerOrderInfo
no_customer_order = record {
  order_id = pos 0;
  product_id = pos 0;
  quantity_purchased = pos 0;
  first_name = [];
  last_name = [];
  street_address = [];
  city = [];
  state = [];
  zip_code = [];
  total_price = pos 0;
}

no_customer_order-IsPrinted : IsPrinted customer_order_format no_customer_order
unfolding int_to_char_array
no_customer_order-IsPrinted = record { no_newline = omega arith; fits = omega arith }

no_customer_order_unreadable :
    (t : Bytes × Bytes) × (strtok
        (fields_text (customer_order_fields no_customer_order) (b'\n' ∷ []))
      ≡ some t)
    × (parse_customer_order t.0 t.1 ≡ none)
unfolding int_to_char_array strtok parse_customer_order atoi next_text next_int
no_customer_order_unreadable = ((b'\n' ∷ [], []), refl, refl)

-- If the old file has as many newlines as the table has rows, which is how the write-back itself
-- leaves a file, the row behind them is zeroed memory, the buffer is clean, and the rows can be stored
-- in a text shorter than 1000 bytes, then the write-back writes the zeroed row too, and the file that
-- it leaves cannot be loaded any more, whatever the array holds: the loader passes a null pointer on.
pub load_customer_order_info-free_row :
    (old : Bytes) (rows rest table : List CustomerOrderInfo)
    → All IsStoredCustomerOrder rows
    → count_newlines old ≡ length rows
    → length (customer_order_text (rows ++ no_customer_order ∷ [])) < 1000
    → (file : Bytes) × (write_back_customer_order_struct []
          (some old)
          (rows ++ no_customer_order ∷ rest)
        ≡ some file)
      × (load_customer_order_info (some file) table ≡ none)
unfolding load_customer_order_info
load_customer_order_info-free_row old rows rest table h lines short =
    let (t, read, bad) = no_customer_order_unreadable in
    (
      customer_order_text (rows ++ no_customer_order ∷ []),
      rw (← append_assoc rows (no_customer_order ∷ []) rest) (
          write_back_customer_order_struct-customer_order_text old (rows ++ no_customer_order ∷ [])
            rest (omega (arith, length-append rows (no_customer_order ∷ []))) short),
      rw (
          load_lines_fault customer_order_format rows table no_customer_order t h
            no_customer_order-IsPrinted read bad),
    )
