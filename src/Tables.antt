-- ===== src/Tables.antt =====
-- readDatabaseIntoArray.h and the loaders of Roden.c: the rows of the five database files, and the
-- arrays that the loaders fill. An array is a list; running off its end, like every undefined
-- behaviour, has no result. What an uninitialised array holds is an argument.
pub mod RoundTrip
pub mod Bounds
pub mod Save
use group_a_cs.Base.{
  ℕ, zero, suc, Bool, true, false, Option, none, some, List, [], ◌∷◌, Bytes, ◌>>=◌, replicate,
}
use group_a_cs.Base.Int.{ℤ, pos}
use group_a_cs.Libc.{strtok, atoi, strcpy, fgets_lines}

pub record ClientInfo : Type 0 where
  pub uuid : ℤ
  pub first_name : Bytes
  pub last_name : Bytes
  pub street_address : Bytes
  pub city : Bytes
  pub state : Bytes
  pub zip_code : Bytes
  pub phone_number : Bytes

pub record ProductInfo : Type 0 where
  pub product_id : ℤ
  pub product_name : Bytes
  pub seller_id : ℤ
  pub quantity : ℤ
  pub price : ℤ

pub record BillingInfo : Type 0 where
  pub order_id : ℤ
  pub customer_id : ℤ
  pub first_name : Bytes
  pub last_name : Bytes
  pub street_address : Bytes
  pub city : Bytes
  pub state : Bytes
  pub zip_code : Bytes
  pub total_order_cost : ℤ

pub record CustomerOrderInfo : Type 0 where
  pub order_id : ℤ
  pub product_id : ℤ
  pub quantity_purchased : ℤ
  pub first_name : Bytes
  pub last_name : Bytes
  pub street_address : Bytes
  pub city : Bytes
  pub state : Bytes
  pub zip_code : Bytes
  pub total_price : ℤ

pub record ItemOrder : Type 0 where
  pub product_id : ℤ
  pub quantity : ℤ
  pub item_cost_per_unit : ℤ

abbrev pub max_rows_in_db : ℕ
max_rows_in_db = 3000

-- `strcpy(field, strtok(NULL, ","))` into an array of 20 bytes; a missing token is a null pointer.
unfoldable pub next_text : Bytes → Option (Bytes × Bytes)
next_text s = do t ← strtok s; f ← strcpy 20 t.0; some (f, t.1)

-- `field = atoi(strtok(NULL, ","))`.
unfoldable pub next_int : Bytes → Option (ℤ × Bytes)
next_int s = do t ← strtok s; n ← atoi t.0; some (n, t.1)

-- The body of the inner loop of each loader: the first token of a line, and what is behind it.
unfoldable pub parse_client : Bytes → Bytes → Option ClientInfo
parse_client record_text line = do
  uuid ← atoi record_text
  first ← next_text line
  last ← next_text first.1
  phone ← next_text last.1
  street ← next_text phone.1
  city ← next_text street.1
  state ← next_text city.1
  zip ← next_text state.1
  some (record {
    uuid = uuid;
    first_name = first.0;
    last_name = last.0;
    street_address = street.0;
    city = city.0;
    state = state.0;
    zip_code = zip.0;
    phone_number = phone.0;
  })

unfoldable pub parse_product : Bytes → Bytes → Option ProductInfo
parse_product record_text line = do
  id ← atoi record_text
  name ← next_text line
  seller ← next_int name.1
  quantity ← next_int seller.1
  price ← next_int quantity.1
  some (record {
    product_id = id;
    product_name = name.0;
    seller_id = seller.0;
    quantity = quantity.0;
    price = price.0;
  })

unfoldable pub parse_customer_order : Bytes → Bytes → Option CustomerOrderInfo
parse_customer_order record_text line = do
  id ← atoi record_text
  product ← next_int line
  quantity ← next_int product.1
  first ← next_text quantity.1
  last ← next_text first.1
  street ← next_text last.1
  city ← next_text street.1
  state ← next_text city.1
  zip ← next_text state.1
  total ← next_int zip.1
  some (record {
    order_id = id;
    product_id = product.0;
    quantity_purchased = quantity.0;
    first_name = first.0;
    last_name = last.0;
    street_address = street.0;
    city = city.0;
    state = state.0;
    zip_code = zip.0;
    total_price = total.0;
  })

unfoldable pub parse_billing : Bytes → Bytes → Option BillingInfo
parse_billing record_text line = do
  id ← atoi record_text
  customer ← next_int line
  first ← next_text customer.1
  last ← next_text first.1
  street ← next_text last.1
  city ← next_text street.1
  state ← next_text city.1
  zip ← next_text state.1
  total ← next_int zip.1
  some (record {
    order_id = id;
    customer_id = customer.0;
    first_name = first.0;
    last_name = last.0;
    street_address = street.0;
    city = city.0;
    state = state.0;
    zip_code = zip.0;
    total_order_cost = total.0;
  })

-- The outer loop of a loader: each line with a token overwrites the next row of the table.
module _ {A : Type 0} (parse : Bytes → Bytes → Option A) where
  unfoldable pub load_lines : List Bytes → List A → Option (List A)
  load_lines [] table = some table
  load_lines (l ∷ ls) table = elim (strtok l) [
    | none ↦ load_lines ls table
    | some t ↦ elim table [
      | [] ↦ none
      | row ∷ rows ↦ do new ← parse t.0 t.1; rest ← load_lines ls rows; some (new ∷ rest)
    ]
  ]

-- A file that is not there leaves the table as it is, and the loader returns false.
abbrev pub load_file :
    {A : Type 0} → (Bytes → Bytes → Option A) → Option Bytes → List A → Option (Bool × List A)
load_file parse none table = some (false, table)
load_file parse (some text) table = do
  rows ← load_lines parse (fgets_lines text) table
  some (true, rows)

unfoldable pub load_client_info : Option Bytes → List ClientInfo → Option (Bool × List ClientInfo)
unfolding load_lines parse_client
load_client_info = load_file parse_client

unfoldable pub load_product_info :
    Option Bytes → List ProductInfo → Option (Bool × List ProductInfo)
unfolding load_lines parse_product
load_product_info = load_file parse_product

unfoldable pub load_customer_order_info :
    Option Bytes → List CustomerOrderInfo → Option (Bool × List CustomerOrderInfo)
unfolding load_lines parse_customer_order
load_customer_order_info = load_file parse_customer_order

unfoldable pub load_billing_info :
    Option Bytes → List BillingInfo → Option (Bool × List BillingInfo)
unfolding load_lines parse_billing
load_billing_info = load_file parse_billing
