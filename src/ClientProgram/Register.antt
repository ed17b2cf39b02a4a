-- ===== src/ClientProgram/Register.antt =====
-- A registration, from what is typed to the server's files and its answer.
use group_a_cs.Base.{
  ℕ, ◌+◌, ◌≤◌, ◌<◌, ◌≡◌, refl, ap, ◌∙◌, some, List, [], ◌∷◌, ◌++◌, Bytes, codes, length,
  length-append, arith, ltb-true, Bool-cases, inl, inr, ◌==◌,
}
use group_a_cs.Base.Int.{ℤ}
use group_a_cs.Libc.{strstr, sprintf_int}
use group_a_cs.Libc.Tokens.{field-append}
use group_a_cs.Tables.{ClientInfo, load_client_info}
use group_a_cs.Tables.Save.{write_back_client_struct}
use group_a_cs.Tables.RoundTrip.Fields.{IsText}
use group_a_cs.World.{buyer, Locals, Files, World, done, quiet, generate_uid}
use group_a_cs.World.Rows.Prefix.{Loaded}
use group_a_cs.Clients.{NewClient, write_new_client_data}
use group_a_cs.Clients.New.{IsClient, client_message, filled, write_new_client_data-buyer}
use group_a_cs.Server.{execute_task_on_server}
use group_a_cs.Server.Dispatch.{execute_task_on_server-handler, new_client}
use group_a_cs.ClientProgram.{Person, person_texts, user_register, strcats, scan, scan_person}
use group_a_cs.ClientProgram.Messages.{strcats-concat}
use group_a_cs.ClientProgram.Session.{exchange-reply, register}

-- The texts as the server reads them from the message.
abbrev pub as_buyer : Person → NewClient
as_buyer p = record {
  client_type = codes "[BUYER]";
  first_name = p.first_name;
  last_name = p.last_name;
  phone_number = p.num;
  street_address = p.address;
  city = p.city;
  state = p.state;
  zip_code = p.zip_code;
}

buyer-IsText : IsText (codes "[BUYER]")
buyer-IsText = record {
  field = record { not_empty = λ e. cc; no_comma = ground arith; no_newline = ground arith };
  fits = omega arith;
}

field_fits : (f r : Bytes) → IsText f → length (f ++ b',' ∷ r) ≤ 20 + length r
field_fits f r h = omega (arith, h.fits, length-append f (b',' ∷ r))

client_message-append : (c : NewClient) (s : Bytes) → client_message c [] ++ s ≡ client_message c s
client_message-append c s = field-append c.client_type _ s _ (
    field-append c.first_name _ s _ (
      field-append c.last_name _ s _ (
        field-append c.phone_number _ s _ (
          field-append c.street_address _ s _ (
            field-append c.city _ s _
              (field-append c.state _ s _ (field-append c.zip_code [] s s refl)))))))

client_message-fits :
    (p : Person) → IsClient (as_buyer p) → length (client_message (as_buyer p) []) ≤ 160
client_message-fits p h = omega (
  arith,
  field_fits p.first_name _ h.first_name,
  field_fits p.last_name _ h.last_name,
  field_fits p.num _ h.phone_number,
  field_fits p.address _ h.street_address,
  field_fits p.city _ h.city,
  field_fits p.state _ h.state,
  field_fits p.zip_code [] h.zip_code,
)

scan-fits : (size : ℕ) (f : Bytes) → IsText f → 20 ≤ size → scan size f ≡ some f
scan-fits size f h large = rw (ltb-true (length f) size (omega (arith, h.fits, large)))

scan_person-fits :
    (p : Person) → IsClient (as_buyer p) → length p.zip_code < 10 → scan_person p ≡ some p
scan_person-fits p h zip_fits =
    rw (scan-fits 50 p.first_name h.first_name (omega arith), scan_person)
      (rw (scan-fits 50 p.last_name h.last_name (omega arith), scan_person)
        (rw (scan-fits 50 p.num h.phone_number (omega arith), scan_person)
          (rw (scan-fits 100 p.address h.street_address (omega arith), scan_person)
            (rw (scan-fits 50 p.city h.city (omega arith), scan_person)
              (rw (scan-fits 50 p.state h.state (omega arith), scan_person)
                (rw (ltb-true (length p.zip_code) 10 zip_fits, scan_person)))))))

user_register-message :
    (type : ℕ) (p : Person)
    → IsClient (as_buyer p)
    → length p.zip_code < 10
    → user_register type [] p ≡ some (codes "[NEW_CLIENT]," ++ client_message (as_buyer p) [])
unfolding user_register
user_register-message type p h zip_fits =
    rw (scan_person-fits p h zip_fits)
      (elim (Bool-cases (type == 0)) [ inl e ↦ rw e written | inr e ↦ rw e written ])
  where
    written :
        strcats [] (codes "[NEW_CLIENT],[BUYER]," ∷ person_texts p)
        ≡ some (codes "[NEW_CLIENT]," ++ client_message (as_buyer p) [])
    written =
        strcats-concat (codes "[NEW_CLIENT],[BUYER]," ∷ person_texts p) []
          (omega (arith, client_message-fits p h))

-- A registration, as a buyer or as a seller, on a server with free semaphores: the client gets the new
-- id as its reply, and the write-back of the buyers' file gets the table with the new row, without the
-- phone number, in its first free row. The file is what the write-back makes of this table, the
-- sellers' file stays as it is, and every semaphore is free again. The buyers' table is in use up to a
-- free row, the texts fit their arrays, and the write-back has a result; whether the new row is in it
-- depends on the newlines of the old file.
pub registration_makes_buyer :
    (v : Locals) (files : Files) (deleted : List ℤ) (sent : List Bytes) (type : ℕ) (p : Person)
    (rows : List ClientInfo) (z : ClientInfo) (rest : List ClientInfo) (new : Bytes)
    → IsClient (as_buyer p)
    → length p.zip_code < 10
    → Loaded ClientInfo.uuid (load_client_info files.customer_info v.client_db) rows z rest
    → write_back_client_struct
        (v.put_back buyer)
        files.customer_info
        (rows ++ filled (generate_uid v) (as_buyer p) z ∷ rest)
      ≡ some new
    → register v (length sent) type p (quiet files deleted sent)
      ≡ done (sprintf_int (generate_uid v)) (
          quiet
            (record files { customer_info = some new })
            deleted
            (sent ++ sprintf_int (generate_uid v) ∷ []))
unfolding register strstr
registration_makes_buyer v files deleted sent type p rows z rest new h zip_fits loads saved =
    rw (user_register-message type p h zip_fits)
      (exchange-reply v message w w' sent (sprintf_int (generate_uid v)) handled refl)
  where
    w : World
    w = quiet files deleted sent

    w' : World
    w' =
        quiet (record files { customer_info = some new }) deleted
          (sent ++ sprintf_int (generate_uid v) ∷ [])

    message : Bytes
    message = codes "[NEW_CLIENT]," ++ client_message (as_buyer p) []

    handled : execute_task_on_server v message w ≡ done tt w'
    handled =
        execute_task_on_server-handler v new_client b'[' _ w
        ∙ ap (λ m. write_new_client_data v m w) (client_message-append (as_buyer p) (codes "\n"))
        ∙ write_new_client_data-buyer v files deleted sent (as_buyer p) (codes "\n") buyer-IsText h
            rows z rest new refl loads saved
