-- ===== src/Clients.antt =====
-- Roden.c, the handlers of the buyers' and the sellers' data: `writeNewClientData`, and
-- `clientEditsInfo` with the functions that it calls.
pub mod Edits
pub mod New
use group_a_cs.Base.{
  ℕ, zero, suc, ◌+◌, Bool, true, false, Option, none, some, List, [], ◌∷◌, ◌++◌, Bytes, codes,
  if◌then◌else◌,
}
use group_a_cs.Base.Int.{ℤ, pos}
use group_a_cs.Libc.{strstr, strcpy, sprintf_int}
use group_a_cs.Tables.{ClientInfo}
use group_a_cs.World.{
  Table, buyer, seller, Locals, World, M, ◌>>=◌, ◌>>◌, pure, lift, text_token, write_socket,
  generate_uid, load_buyers, load_sellers, save_buyers, save_sellers, sem_wait_wrt, sem_post_wrt,
}
use group_a_cs.World.Rows.{first_free, modify_row}

-- The tokens of `writeNewClientData`, each of 24 bytes at most.
pub record NewClient : Type 0 where
  pub client_type : Bytes
  pub first_name : Bytes
  pub last_name : Bytes
  pub phone_number : Bytes
  pub street_address : Bytes
  pub city : Bytes
  pub state : Bytes
  pub zip_code : Bytes

unfoldable pub new_client_tokens : Bytes → M NewClient
new_client_tokens buffer = do
  client_type ← text_token 25 buffer
  first ← text_token 25 client_type.1
  last ← text_token 25 first.1
  phone ← text_token 25 last.1
  street ← text_token 25 phone.1
  city ← text_token 25 street.1
  state ← text_token 25 city.1
  zip ← text_token 25 state.1
  pure (record {
    client_type = client_type.0;
    first_name = first.0;
    last_name = last.0;
    phone_number = phone.0;
    street_address = street.0;
    city = city.0;
    state = state.0;
    zip_code = zip.0;
  })

-- The assignments to the new row. The phone number of the row is not among them.
unfoldable pub fill_client : ℤ → NewClient → ClientInfo → Option ClientInfo
fill_client uuid c r = elim (strcpy 20 c.first_name) [
  | none ↦ none
  | some first ↦ elim (strcpy 20 c.last_name) [
    | none ↦ none
    | some last ↦ elim (strcpy 20 c.street_address) [
      | none ↦ none
      | some street ↦ elim (strcpy 20 c.city) [
        | none ↦ none
        | some city ↦ elim (strcpy 20 c.state) [
          | none ↦ none
          | some state ↦ elim (strcpy 20 c.zip_code) [
            | none ↦ none
            | some zip ↦ some (record r {
              uuid = uuid;
              first_name = first;
              last_name = last;
              street_address = street;
              city = city;
              state = state;
              zip_code = zip;
            })
          ]
        ]
      ]
    ]
  ]
]

-- `writeNewClientData`. The branch of a seller writes one row behind the first free one.
unfoldable pub write_new_client_data : Locals → Bytes → M (Unit {0})
unfolding new_client_tokens fill_client
write_new_client_data v buffer = do
  c ← new_client_tokens buffer
  if strstr c.client_type (codes "[BUYER]")
      then (do
        sem_wait_wrt buyer
        loaded ← load_buyers v.client_db
        row ← lift (first_free ClientInfo.uuid loaded.1)
        rows ← lift (modify_row row (fill_client (generate_uid v) c) loaded.1)
        write_socket (sprintf_int (generate_uid v))
        save_buyers v rows
        sem_post_wrt buyer)
      else (do
        sem_wait_wrt seller
        loaded ← load_sellers v.client_db
        row ← lift (first_free ClientInfo.uuid loaded.1)
        rows ← lift (modify_row (row + 1) (fill_client (generate_uid v) c) loaded.1)
        write_socket (sprintf_int (generate_uid v))
        save_sellers v rows
        sem_post_wrt seller)
