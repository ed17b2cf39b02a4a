-- ===== src/Clients/New.antt =====
-- `writeNewClientData`, from the message to the new file and the reply.
use group_a_cs.Base.{
  ◌≡◌, ◌∙◌, ◌+◌, ap, sym, true, false, some, List, [], ◌∷◌, ◌++◌, append_assoc, arith, Bytes, codes,
  length, length-append, ltb-true,
}
use group_a_cs.Base.Int.{ℤ}
use group_a_cs.Libc.{strstr, sprintf_int}
use group_a_cs.Libc.Tokens.{strtok-append}
use group_a_cs.Tables.{ClientInfo, load_client_info}
use group_a_cs.Tables.Save.{write_back_client_struct}
use group_a_cs.Tables.RoundTrip.Fields.{IsText}
use group_a_cs.World.{Locals, Files, World, buyer, seller, done, quiet, text_token, generate_uid}
use group_a_cs.World.Rows.{modify_row}
use group_a_cs.World.Rows.Prefix.{Loaded, first_free-append, modify_row-append}
use group_a_cs.Clients.{NewClient, new_client_tokens, fill_client, write_new_client_data}

text_token-append :
    {f : Bytes} (r : Bytes) (w : World) → IsText f → text_token 25 (f ++ b',' ∷ r) w ≡ done (f, r) w
text_token-append {f} r w h =
    rw (strtok-append f r h.field.not_empty h.field.no_comma)
      (rw (ltb-true (length f) 25 (omega (arith, h.fits))))

-- The texts of a new client's row.
pub record IsClient (c : NewClient) : Type 0 where
  pub first_name : IsText c.first_name
  pub last_name : IsText c.last_name
  pub phone_number : IsText c.phone_number
  pub street_address : IsText c.street_address
  pub city : IsText c.city
  pub state : IsText c.state
  pub zip_code : IsText c.zip_code

-- What `fill_client` leaves in a row: the phone number is the one that the row had.
abbrev pub filled : ℤ → NewClient → ClientInfo → ClientInfo
filled uuid c r = record r {
  uuid = uuid;
  first_name = c.first_name;
  last_name = c.last_name;
  street_address = c.street_address;
  city = c.city;
  state = c.state;
  zip_code = c.zip_code;
}

fill_client-filled :
    (uuid : ℤ) (c : NewClient) (r : ClientInfo)
    → IsClient c
    → fill_client uuid c r ≡ some (filled uuid c r)
unfolding fill_client
fill_client-filled uuid c r h =
    rw (ltb-true (length c.first_name) 20 h.first_name.fits, fill_client)
      (rw (ltb-true (length c.last_name) 20 h.last_name.fits, fill_client)
        (rw (ltb-true (length c.street_address) 20 h.street_address.fits, fill_client)
          (rw (ltb-true (length c.city) 20 h.city.fits, fill_client)
            (rw (ltb-true (length c.state) 20 h.state.fits, fill_client)
              (rw (ltb-true (length c.zip_code) 20 h.zip_code.fits, fill_client))))))

-- The message of a new client.
abbrev pub client_message : NewClient → Bytes → Bytes
client_message c tail =
    c.client_type
    ++ b','
      ∷ (c.first_name
          ++ b','
            ∷ (c.last_name
                ++ b','
                  ∷ (c.phone_number
                      ++ b','
                        ∷ (c.street_address
                            ++ b','
                              ∷ (c.city
                                  ++ b',' ∷ (c.state ++ b',' ∷ (c.zip_code ++ b',' ∷ tail)))))))

new_client_tokens-client_message :
    (c : NewClient) (tail : Bytes) (w : World)
    → IsText c.client_type
    → IsClient c
    → new_client_tokens (client_message c tail) w ≡ done c w
unfolding new_client_tokens
new_client_tokens-client_message c tail w ht h = rw (text_token-append _ w ht) (
    rw (text_token-append _ w h.first_name) (
      rw (text_token-append _ w h.last_name) (
        rw (text_token-append _ w h.phone_number) (
          rw (text_token-append _ w h.street_address) (
            rw (text_token-append _ w h.city)
              (rw (text_token-append _ w h.state) (rw (text_token-append tail w h.zip_code))))))))

module _ (v : Locals) (files : Files) (deleted : List ℤ) (sent : List Bytes) (c : NewClient)
    (tail : Bytes) (is_type : IsText c.client_type) (is_client : IsClient c)
    (rows : List ClientInfo) (z : ClientInfo) where
  -- A new buyer gets the first free row: the write-back gets the old rows and behind them the row
  -- with the id and the texts of the message, but for the phone number, which is the one that the free
  -- row held. The reply is the id, and every semaphore is free again.
  pub write_new_client_data-buyer :
      (rest : List ClientInfo) (new : Bytes)
      → strstr c.client_type (codes "[BUYER]") ≡ true
      → Loaded ClientInfo.uuid (load_client_info files.customer_info v.client_db) rows z rest
      → write_back_client_struct
          (v.put_back buyer)
          files.customer_info
          (rows ++ filled (generate_uid v) c z ∷ rest)
        ≡ some new
      → write_new_client_data v (client_message c tail) (quiet files deleted sent)
        ≡ done tt (
            quiet
              (record files { customer_info = some new })
              deleted
              (sent ++ sprintf_int (generate_uid v) ∷ []))
  unfolding write_new_client_data
  write_new_client_data-buyer rest new is_buyer loads saved =
      rw (new_client_tokens-client_message c tail (quiet files deleted sent) is_type is_client) (
        rw is_buyer (
          rw loads.loaded (
            rw (first_free-append ClientInfo.uuid rows z rest loads.used loads.ended) (
              rw
                (modify_row-append rows z (filled (generate_uid v) c z) rest
                  (fill_client (generate_uid v) c)
                  (fill_client-filled (generate_uid v) c z is_client))
                (rw saved)))))

  -- A new seller gets the row behind the first free row, which stays free: the loops over the table
  -- stop before the new row. The reply is the id.
  pub write_new_client_data-seller :
      (y : ClientInfo) (rest : List ClientInfo) (new : Bytes)
      → strstr c.client_type (codes "[BUYER]") ≡ false
      → Loaded ClientInfo.uuid (load_client_info files.seller_info v.client_db) rows z (y ∷ rest)
      → write_back_client_struct
          (v.put_back seller)
          files.seller_info
          (rows ++ z ∷ filled (generate_uid v) c y ∷ rest)
        ≡ some new
      → write_new_client_data v (client_message c tail) (quiet files deleted sent)
        ≡ done tt (
            quiet
              (record files { seller_info = some new })
              deleted
              (sent ++ sprintf_int (generate_uid v) ∷ []))
  unfolding write_new_client_data
  write_new_client_data-seller y rest new is_seller loads saved =
      rw (new_client_tokens-client_message c tail (quiet files deleted sent) is_type is_client) (
        rw is_seller (
          rw loads.loaded (
            rw (first_free-append ClientInfo.uuid rows z (y ∷ rest) loads.used loads.ended)
              (rw behind (rw saved)))))
    where
      longer : length rows + 1 ≡ length (rows ++ z ∷ [])
      longer = omega (arith, length-append rows (z ∷ []))

      assoc : (x : ClientInfo) → rows ++ z ∷ x ∷ rest ≡ (rows ++ z ∷ []) ++ x ∷ rest
      assoc x = sym (append_assoc rows (z ∷ []) (x ∷ rest))

      behind :
          modify_row (length rows + 1) (fill_client (generate_uid v) c) (rows ++ z ∷ y ∷ rest)
          ≡ some (rows ++ z ∷ filled (generate_uid v) c y ∷ rest)
      behind =
          (λ i. modify_row (longer i) (fill_client (generate_uid v) c) (assoc y i))
          ∙ modify_row-append (rows ++ z ∷ []) y (filled (generate_uid v) c y) rest
              (fill_client (generate_uid v) c) (fill_client-filled (generate_uid v) c y is_client)
          ∙ ap some (append_assoc rows (z ∷ []) (filled (generate_uid v) c y ∷ rest))
