-- ===== src/Tests/ClientProgram.antt =====
-- Messages of the client, on a server with one client in its table.
use group_a_cs.Base.{◌≡◌, true, false, some, [], ◌∷◌, codes, arith}
use group_a_cs.Libc.{sprintf_int}
use group_a_cs.Base.Int.{pos}
use group_a_cs.World.{done, quiet}
use group_a_cs.Catalog.{confirmation, invalid}
use group_a_cs.Tables.RoundTrip.Clients.{no_client, client_text}
use group_a_cs.Clients.New.{filled}
use group_a_cs.ClientProgram.{Person}
use group_a_cs.ClientProgram.Session.{log_in, register}
use group_a_cs.ClientProgram.LogIn.{log_in_seller, log_in_buyer}
use group_a_cs.ClientProgram.Register.{registration_makes_buyer}
use group_a_cs.Tests.Samples.{zeroed, wayne}
use group_a_cs.Tests.Clients.{
  client_line, ended_line, town, n1003, clients-Loaded, ended-Loaded, kyle, kyle-IsClient,
  kyle-saved,
}

log_in_seller_example :
    log_in zeroed 0 1 (codes "1003") (quiet (town client_line) [] [])
    ≡ done false (quiet (town client_line) [] (invalid ∷ []))
log_in_seller_example =
    log_in_seller zeroed (quiet (town client_line) [] []) (codes "1003") (omega arith)

log_in_buyer_example :
    log_in zeroed 0 0 (codes "1003") (quiet (town client_line) [] [])
    ≡ done true (quiet (town client_line) [] (confirmation ∷ []))
log_in_buyer_example =
    log_in_buyer zeroed (town client_line) [] [] (wayne ∷ []) no_client (no_client ∷ no_client ∷ [])
      clients-Loaded (codes "1003") (pos 1003) n1003 (omega arith)

abbrev selina : Person
selina = record {
  first_name = codes "Selina";
  last_name = codes "Kyle";
  num = codes "555";
  address = codes "2 Roof";
  city = codes "Gotham City";
  state = codes "NY";
  zip_code = codes "9096";
}

-- Registered as a seller.
registration_makes_buyer_example :
    register zeroed 0 1 selina (quiet (town ended_line) [] [])
    ≡ done (codes "5200") (
        quiet
          (record (town ended_line) {
            customer_info =
                some
                  (client_text (wayne ∷ filled (pos 5200) (kyle (codes "[BUYER]")) no_client ∷ []));
          })
          []
          (codes "5200" ∷ []))
unfolding sprintf_int
registration_makes_buyer_example =
    registration_makes_buyer zeroed (town ended_line) [] [] 1 selina (wayne ∷ []) no_client
      (no_client ∷ no_client ∷ [])
      (client_text (wayne ∷ filled (pos 5200) (kyle (codes "[BUYER]")) no_client ∷ []))
      (kyle-IsClient (codes "[BUYER]")) (omega arith) ended-Loaded kyle-saved
