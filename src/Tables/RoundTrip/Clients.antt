-- ===== src/Tables/RoundTrip/Clients.antt =====
-- The buyers' and the sellers' table: `loadClientInfo` and `writeBackClientStruct`.
use group_a_cs.Base.{
  ◌+◌, ◌<◌, ◌≤◌, ◌≡◌, refl, true, none, some, List, [], ◌∷◌, ◌++◌, arith, Bytes, length,
  length-append, drop, All, append_assoc,
}
use group_a_cs.Base.Int.{pos}
use group_a_cs.Libc.{strtok, atoi}
use group_a_cs.Libc.Tokens.{IsField}
use group_a_cs.Convert.{int_to_char_array}
use group_a_cs.Convert.RoundTrip.{
  IsStorable, atoi-int_to_char_array, int_to_char_array-IsField, length-int_to_char_array,
}
use group_a_cs.Tables.{next_text, next_int, ClientInfo, parse_client, load_client_info}
use group_a_cs.Tables.Save.{fields_text, client_fields, count_newlines, write_back_client_struct}
use group_a_cs.Tables.RoundTrip.{
  RowFormat, table_text, IsPrinted, load_lines-table_text, load_lines_fault, write_back-table_text,
}
use group_a_cs.Tables.RoundTrip.Fields.{IsText, next_text-append, strtok_int, length-fields_text}

-- A row that can be printed and read back: its numbers are positive, its texts are short, not empty
-- and without commas and newlines.
pub record IsStoredClient (r : ClientInfo) : Type 0 where
  pub uuid : IsStorable r.uuid
  pub first_name : IsText r.first_name
  pub last_name : IsText r.last_name
  pub phone_number : IsText r.phone_number
  pub street_address : IsText r.street_address
  pub city : IsText r.city
  pub state : IsText r.state
  pub zip_code : IsText r.zip_code

pub client_fields-IsField : (r : ClientInfo) → IsStoredClient r → All IsField (client_fields r)
client_fields-IsField r h = (
  int_to_char_array-IsField r.uuid h.uuid,
  (
    h.first_name.field,
    (
      h.last_name.field,
      (
        h.phone_number.field,
        (h.street_address.field, (h.city.field, (h.state.field, (h.zip_code.field, tt)))),
      ),
    ),
  ),
)

pub client_fields_fit :
    (r : ClientInfo) → IsStoredClient r → length (fields_text (client_fields r) []) < 199
client_fields_fit r h = omega (
  arith,
  length-fields_text (client_fields r),
  length-int_to_char_array r.uuid h.uuid,
  h.first_name.fits,
  h.last_name.fits,
  h.phone_number.fits,
  h.street_address.fits,
  h.city.fits,
  h.state.fits,
  h.zip_code.fits,
)

pub parse_client-fields :
    (r : ClientInfo)
    → IsStoredClient r
    → (t : Bytes × Bytes) × (strtok (fields_text (client_fields r) (b'\n' ∷ [])) ≡ some t)
      × (parse_client t.0 t.1 ≡ some r)
unfolding parse_client
parse_client-fields r h = (
  _,
  strtok_int _ h.uuid _,
  rw (
    atoi-int_to_char_array _ h.uuid,
    next_text-append _ h.first_name _,
    next_text-append _ h.last_name _,
    next_text-append _ h.phone_number _,
    next_text-append _ h.street_address _,
    next_text-append _ h.city _,
    next_text-append _ h.state _,
    next_text-append _ h.zip_code _,
  ),
)

abbrev pub client_format : RowFormat ClientInfo
client_format = record {
  fields = client_fields;
  parse = parse_client;
  IsStored = IsStoredClient;
  fields-IsField = client_fields-IsField;
  fields_fit = client_fields_fit;
  parse-fields = parse_client-fields;
}

-- The text of a table of rows.
abbrev pub client_text : List ClientInfo → Bytes
client_text = table_text client_format

-- Loading the text of a table puts its rows in front of what the array held.
pub load_client_info-client_text :
    (rows table : List ClientInfo)
    → All IsStoredClient rows
    → length rows ≤ length table
    → load_client_info (some (client_text rows)) table
      ≡ some (true, rows ++ drop (length rows) table)
unfolding load_client_info
load_client_info-client_text rows table h room =
    rw (load_lines-table_text client_format rows table h room)

pub write_back_client_struct-client_text :
    (old : Bytes) (rows rest : List ClientInfo)
    → count_newlines old + 1 ≡ length rows
    → length (client_text rows) < 1000
    → write_back_client_struct [] (some old) (rows ++ rest) ≡ some (client_text rows)
unfolding write_back_client_struct
write_back_client_struct-client_text = write_back-table_text client_format

-- If the rows in front of a table can be stored, are as many as the old file has newlines and one,
-- and their text is shorter than 1000 bytes, then with a zeroed buffer the write-back writes exactly
-- these rows: loading the new file puts them back in front of any array that has the room.
pub load_client_info-write_back_client_struct :
    (old : Bytes) (rows rest table : List ClientInfo)
    → All IsStoredClient rows
    → count_newlines old + 1 ≡ length rows
    → length (client_text rows) < 1000
    → length rows ≤ length table
    → (file : Bytes) × (write_back_client_struct [] (some old) (rows ++ rest) ≡ some file)
      × (load_client_info (some file) table ≡ some (true, rows ++ drop (length rows) table))
load_client_info-write_back_client_struct old rows rest table h lines short room = (
  client_text rows,
  write_back_client_struct-client_text old rows rest lines short,
  load_client_info-client_text rows table h room,
)

-- A row of zeroed memory.
abbrev pub no_client : ClientInfo
no_client = record {
  uuid = pos 0;
  first_name = [];
  last_name = [];
  phone_number = [];
  street_address = [];
  city = [];
  state = [];
  zip_code = [];
}

no_client-IsPrinted : IsPrinted client_format no_client
unfolding int_to_char_array
no_client-IsPrinted = record { no_newline = omega arith; fits = omega arith }

no_client_unreadable :
    (t : Bytes × Bytes) × (strtok (fields_text (client_fields no_client) (b'\n' ∷ [])) ≡ some t)
    × (parse_client t.0 t.1 ≡ none)
unfolding int_to_char_array strtok parse_client atoi next_text next_int
no_client_unreadable = ((b'\n' ∷ [], []), refl, refl)

-- If the old file has as many newlines as the table has rows, which is how the write-back itself
-- leaves a file, the row behind them is zeroed memory, the buffer is clean, and the rows can be stored
-- in a text shorter than 1000 bytes, then the write-back writes the zeroed row too, and the file that
-- it leaves cannot be loaded any more, whatever the array holds: the loader passes a null pointer on.
pub load_client_info-free_row :
    (old : Bytes) (rows rest table : List ClientInfo)
    → All IsStoredClient rows
    → count_newlines old ≡ length rows
    → length (client_text (rows ++ no_client ∷ [])) < 1000
    → (file : Bytes) × (write_back_client_struct [] (some old) (rows ++ no_client ∷ rest)
        ≡ some file)
      × (load_client_info (some file) table ≡ none)
unfolding load_client_info
load_client_info-free_row old rows rest table h lines short =
    let (t, read, bad) = no_client_unreadable in
    (
      client_text (rows ++ no_client ∷ []),
      rw (← append_assoc rows (no_client ∷ []) rest) (
          write_back_client_struct-client_text old (rows ++ no_client ∷ []) rest
            (omega (arith, length-append rows (no_client ∷ []))) short),
      rw (load_lines_fault client_format rows table no_client t h no_client-IsPrinted read bad),
    )
