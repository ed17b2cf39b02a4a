-- ===== src/Tests/Clients.antt =====
-- The theorems on the client handlers at messages and files that meet their hypotheses.
use group_a_cs.Base.{◌≡◌, refl, some, none, [], ◌∷◌, Bytes, codes}
use group_a_cs.Base.Int.{pos}
use group_a_cs.Convert.{int_to_char_array}
use group_a_cs.Libc.{atoi, strtok, fgets_lines, strstr, sprintf_int}
use group_a_cs.Tables.{
  ClientInfo, BillingInfo, CustomerOrderInfo, load_client_info, load_billing_info,
  load_customer_order_info, next_text, next_int,
}
use group_a_cs.Tables.Save.{
  write_back_client_struct, write_back_billing_struct, write_back_customer_order_struct,
}
use group_a_cs.Tables.RoundTrip.Clients.{no_client, client_text}
use group_a_cs.Tables.RoundTrip.Bills.{no_billing, billing_text}
use group_a_cs.Tables.RoundTrip.Orders.{no_customer_order, customer_order_text}
use group_a_cs.World.{Files, done, quiet}
use group_a_cs.World.Rows.Prefix.{Loaded}
use group_a_cs.Catalog.{confirmation}
use group_a_cs.Catalog.Request.{IsNumber}
use group_a_cs.Clients.{NewClient, write_new_client_data}
use group_a_cs.Clients.New.{
  IsClient, filled, write_new_client_data-buyer, write_new_client_data-seller,
}
use group_a_cs.Clients.Edits.{client_edits_info}
use group_a_cs.Clients.Edits.Names.{buyer_edits_name_lem}
use group_a_cs.Tests.Evidence.{text, number}
use group_a_cs.Tests.Samples.{zeroed, wayne, wayne_bill, wayne_order}

abbrev pub client_line : Bytes
client_line = codes "1003,Bruce,Wayne,(569)653-0303,1 Cave way,Gotham City,NY,9095,"

abbrev pub ended_line : Bytes
ended_line = codes "1003,Bruce,Wayne,(569)653-0303,1 Cave way,Gotham City,NY,9095,\n"

abbrev pub town : Bytes → Files
town clients = record {
  customer_info = some clients;
  seller_info = some clients;
  product_info = none;
  billing_info = some (codes "3000,1003,Bruce,Wayne,1 Cave way,Gotham City,NY,9095,430,");
  customer_order = some (codes "3000,2000,20,Bruce,Wayne,1 Cave way,Gotham City,NY,9095,400,");
}

pub n1003 : IsNumber (codes "1003") (pos 1003)
unfolding atoi
n1003 = number (codes "1003") (pos 1003) refl refl

pub clients-Loaded :
    Loaded ClientInfo.uuid
      (load_client_info (some client_line) zeroed.client_db)
      (wayne ∷ [])
      no_client
      (no_client ∷ no_client ∷ [])
unfolding load_client_info fgets_lines strtok atoi next_text next_int
clients-Loaded = record { loaded = refl; used = (refl, tt); ended = refl }

pub ended-Loaded :
    Loaded ClientInfo.uuid
      (load_client_info (some ended_line) zeroed.client_db)
      (wayne ∷ [])
      no_client
      (no_client ∷ no_client ∷ [])
unfolding load_client_info fgets_lines strtok atoi next_text next_int
ended-Loaded = record { loaded = refl; used = (refl, tt); ended = refl }

pub bills-Loaded :
    Loaded BillingInfo.order_id
      (load_billing_info (town client_line).billing_info zeroed.billing_info)
      (wayne_bill ∷ [])
      no_billing
      (no_billing ∷ no_billing ∷ [])
unfolding load_billing_info fgets_lines strtok atoi next_text next_int
bills-Loaded = record { loaded = refl; used = (refl, tt); ended = refl }

pub orders-Loaded :
    Loaded CustomerOrderInfo.order_id
      (load_customer_order_info (town client_line).customer_order zeroed.customer_order_info)
      (wayne_order ∷ [])
      no_customer_order
      (no_customer_order ∷ no_customer_order ∷ [])
unfolding load_customer_order_info fgets_lines strtok atoi next_text next_int
orders-Loaded = record { loaded = refl; used = (refl, tt); ended = refl }

abbrev pub dick : ClientInfo
dick = record wayne { first_name = codes "Dick"; last_name = codes "Grayson" }

abbrev pub dick_bill : BillingInfo
dick_bill = record wayne_bill { first_name = codes "Dick"; last_name = codes "Grayson" }

abbrev pub dick_order : CustomerOrderInfo
dick_order = record wayne_order { first_name = codes "Dick"; last_name = codes "Grayson" }

dick-saved :
    write_back_client_struct [] (some client_line) (dick ∷ no_client ∷ no_client ∷ no_client ∷ [])
    ≡ some (client_text (dick ∷ []))
unfolding write_back_client_struct int_to_char_array
dick-saved = refl

pub dick_bill-saved :
    write_back_billing_struct []
      (town client_line).billing_info
      (dick_bill ∷ no_billing ∷ no_billing ∷ no_billing ∷ [])
    ≡ some (billing_text (dick_bill ∷ []))
unfolding write_back_billing_struct int_to_char_array
dick_bill-saved = refl

pub dick_order-saved :
    write_back_customer_order_struct []
      (town client_line).customer_order
      (dick_order ∷ no_customer_order ∷ no_customer_order ∷ no_customer_order ∷ [])
    ≡ some (customer_order_text (dick_order ∷ []))
unfolding write_back_customer_order_struct int_to_char_array
dick_order-saved = refl

buyer_edits_name_lem_example :
    client_edits_info zeroed
      (codes "[BUYER],1003,[NAME],Dick,Grayson,")
      (quiet (town client_line) [] [])
    ≡ done tt (
        quiet
          (record (town client_line) {
            customer_info = some (client_text (dick ∷ []));
            billing_info = some (billing_text (dick_bill ∷ []));
            customer_order = some (customer_order_text (dick_order ∷ []));
          })
          []
          (confirmation ∷ []))
buyer_edits_name_lem_example =
    buyer_edits_name_lem zeroed (town client_line) [] [] [] n1003 (text (codes "Dick") refl refl)
      (text (codes "Grayson") refl refl) [] wayne [] no_client (no_client ∷ no_client ∷ []) refl tt
      (wayne_bill ∷ []) (no_billing ∷ no_billing ∷ []) no_billing (wayne_order ∷ [])
      (no_customer_order ∷ no_customer_order ∷ []) no_customer_order (client_text (dick ∷ []))
      (billing_text (dick_bill ∷ [])) (customer_order_text (dick_order ∷ [])) clients-Loaded
      bills-Loaded orders-Loaded dick-saved dick_bill-saved dick_order-saved

abbrev pub kyle : Bytes → NewClient
kyle client_type = record {
  client_type = client_type;
  first_name = codes "Selina";
  last_name = codes "Kyle";
  phone_number = codes "555";
  street_address = codes "2 Roof";
  city = codes "Gotham City";
  state = codes "NY";
  zip_code = codes "9096";
}

pub kyle-IsClient : (t : Bytes) → IsClient (kyle t)
kyle-IsClient t = record {
  first_name = text (codes "Selina") refl refl;
  last_name = text (codes "Kyle") refl refl;
  phone_number = text (codes "555") refl refl;
  street_address = text (codes "2 Roof") refl refl;
  city = text (codes "Gotham City") refl refl;
  state = text (codes "NY") refl refl;
  zip_code = text (codes "9096") refl refl;
}

pub kyle-saved :
    write_back_client_struct []
      (some ended_line)
      (wayne ∷ filled (pos 5200) (kyle (codes "[BUYER]")) no_client ∷ no_client ∷ no_client ∷ [])
    ≡ some (client_text (wayne ∷ filled (pos 5200) (kyle (codes "[BUYER]")) no_client ∷ []))
unfolding write_back_client_struct int_to_char_array
kyle-saved = refl

-- The write-back has room for the free row only, and the new seller is lost.
free-saved :
    write_back_client_struct []
      (some ended_line)
      (wayne ∷ no_client ∷ filled (pos 5200) (kyle (codes "[SELLER]")) no_client ∷ no_client ∷ [])
    ≡ some (client_text (wayne ∷ no_client ∷ []))
unfolding write_back_client_struct int_to_char_array
free-saved = refl

write_new_client_data-buyer_example :
    write_new_client_data zeroed
      (codes "[BUYER],Selina,Kyle,555,2 Roof,Gotham City,NY,9096,")
      (quiet (town ended_line) [] [])
    ≡ done tt (
        quiet
          (record (town ended_line) {
            customer_info =
                some
                  (client_text (wayne ∷ filled (pos 5200) (kyle (codes "[BUYER]")) no_client ∷ []));
          })
          []
          (codes "5200" ∷ []))
unfolding sprintf_int strstr
write_new_client_data-buyer_example =
    write_new_client_data-buyer zeroed (town ended_line) [] [] (kyle (codes "[BUYER]")) []
      (text (codes "[BUYER]") refl refl) (kyle-IsClient (codes "[BUYER]")) (wayne ∷ []) no_client
      (no_client ∷ no_client ∷ [])
      (client_text (wayne ∷ filled (pos 5200) (kyle (codes "[BUYER]")) no_client ∷ [])) refl
      ended-Loaded kyle-saved

write_new_client_data-seller_example :
    write_new_client_data zeroed
      (codes "[SELLER],Selina,Kyle,555,2 Roof,Gotham City,NY,9096,")
      (quiet (town ended_line) [] [])
    ≡ done tt (
        quiet
          (record (town ended_line) { seller_info = some (client_text (wayne ∷ no_client ∷ [])) })
          []
          (codes "5200" ∷ []))
unfolding sprintf_int strstr
write_new_client_data-seller_example =
    write_new_client_data-seller zeroed (town ended_line) [] [] (kyle (codes "[SELLER]")) []
      (text (codes "[SELLER]") refl refl) (kyle-IsClient (codes "[SELLER]")) (wayne ∷ []) no_client
      no_client (no_client ∷ []) (client_text (wayne ∷ no_client ∷ [])) refl ended-Loaded free-saved
