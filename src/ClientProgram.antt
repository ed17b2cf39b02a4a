-- ===== src/ClientProgram.antt =====
-- client.c: the messages that the menus build in the global buffer, and what the program makes of the
-- replies. What is typed is an argument of the functions.
pub mod Messages
pub mod Session
pub mod LogIn
pub mod Register
use group_a_cs.Base.{
  ℕ, zero, suc, ◌+◌, Bool, true, false, ◌&&◌, Option, none, some, ◌>>=◌, List, [], ◌∷◌, ◌++◌, Bytes,
  codes, ◌==◌, if◌then◌else◌, get_elem?, length,
}
use group_a_cs.Libc.{strcpy}
use group_a_cs.World.{Locals, World, M, done, blocked, lift}
use group_a_cs.Server.{execute_task_on_server}

abbrev pub buffer_size : ℕ
buffer_size = 10240

-- `strcat(buffer, s)` for each text in turn. `none`: the buffer is too small.
unfoldable pub strcats : Bytes → List Bytes → Option Bytes
strcats buffer [] = some buffer
strcats buffer (s ∷ ss) = elim (strcpy buffer_size (buffer ++ s)) [
  | none ↦ none
  | some b ↦ strcats b ss
]

-- `scanf` of a text into an array of `size` bytes. `none`: it does not fit.
abbrev pub scan : ℕ → Bytes → Option Bytes
scan size typed = strcpy size typed

-- `&c` as a string, for a `char c`: behind a byte other than zero it goes on in some other object.
abbrev pub char_text : ℕ → Option Bytes
char_text zero = some []
char_text (suc c) = none

-- What is typed at a registration.
pub record Person : Type 0 where
  pub first_name : Bytes
  pub last_name : Bytes
  pub num : Bytes
  pub address : Bytes
  pub city : Bytes
  pub state : Bytes
  pub zip_code : Bytes

-- The `scanf` calls of `userRegister`.
abbrev pub scan_person : Person → Option Person
scan_person p = do
  first ← scan 50 p.first_name
  last ← scan 50 p.last_name
  num ← scan 50 p.num
  address ← scan 100 p.address
  city ← scan 50 p.city
  state ← scan 50 p.state
  zip ← scan 10 p.zip_code
  some (record {
    first_name = first;
    last_name = last;
    num = num;
    address = address;
    city = city;
    state = state;
    zip_code = zip;
  })

abbrev pub person_texts : Person → List Bytes
person_texts p =
    p.first_name
    ∷ codes ","
    ∷ p.last_name
    ∷ codes ","
    ∷ p.num
    ∷ codes ","
    ∷ p.address
    ∷ codes ","
    ∷ p.city
    ∷ codes ","
    ∷ p.state
    ∷ codes ","
    ∷ p.zip_code
    ∷ codes ","
    ∷ []

-- The message of `userRegister` for a buyer (`type` zero) and for a seller.
unfoldable pub user_register : ℕ → Bytes → Person → Option Bytes
unfolding strcats
user_register type buffer p = do
  q ← scan_person p
  if type == 0
      then strcats buffer (codes "[NEW_CLIENT],[BUYER]," ∷ person_texts q)
      else strcats buffer (codes "[NEW_CLIENT],[BUYER]," ∷ person_texts q)

-- The message of `IDLogin`. What is typed goes to `buyerID`, and `ID` stays empty.
unfoldable pub id_login : ℕ → Bytes → Bytes → Option Bytes
unfolding strcats
id_login type buffer typed = do
  buyer_id ← scan 50 typed
  if type == 0
      then strcats buffer (codes "[VALIDATE_ID]," ∷ buyer_id ∷ codes ",[BUYER]," ∷ [])
      else strcats buffer (codes "[VALIDATE_ID]," ∷ [] ∷ codes ",[SELLER]," ∷ [])

-- `viewOrder` and `viewBill`.
unfoldable pub view_order : Bytes → Option Bytes
unfolding strcats
view_order buyer_id = strcats [] (codes "[VIEW_BUYER_ORDERS]," ∷ buyer_id ∷ codes "," ∷ [])

unfoldable pub view_bill : Bytes → Option Bytes
unfolding strcats
view_bill buyer_id = strcats [] (codes "[VIEW_BILLING]," ∷ buyer_id ∷ codes "," ∷ [])

-- `viewProducts`; `seller_id` is a `char`.
unfoldable pub view_products : ℕ → ℕ → Option Bytes
unfolding strcats
view_products type seller_id =
    if type == 0 then strcats [] (codes "[VIEW_PRODUCTS],[BUYER]," ∷ []) else (do
      id ← char_text seller_id
      strcats [] (codes "[VIEW_PRODUCTS],[SELLER]," ∷ id ∷ codes "," ∷ []))

-- The three edits of `editInfo`: a name, a number, an address.
abbrev edit_texts : ℕ → Bytes → ℕ → Option (List Bytes)
edit_texts type buyer_id seller_id =
    if type == 0
    then some (codes "[EDIT_INFO],[BUYER]," ∷ buyer_id ∷ [])
    else (do id ← char_text seller_id; some (codes "[EDIT_INFO],[SELLER]," ∷ id ∷ []))

unfoldable pub edit_name : ℕ → Bytes → ℕ → Bytes → Bytes → Option Bytes
unfolding strcats
edit_name type buyer_id seller_id typed_first typed_last = do
  first ← scan 50 typed_first
  last ← scan 50 typed_last
  texts ← edit_texts type buyer_id seller_id
  strcats [] (texts ++ codes ",[NAME]," ∷ first ∷ codes "," ∷ last ∷ codes "," ∷ [])

unfoldable pub edit_number : ℕ → Bytes → ℕ → Bytes → Option Bytes
unfolding strcats
edit_number type buyer_id seller_id typed = do
  num ← scan 50 typed
  texts ← edit_texts type buyer_id seller_id
  strcats [] (texts ++ codes ",[NUMBER]," ∷ num ∷ codes "," ∷ [])

unfoldable pub edit_address : ℕ → Bytes → ℕ → Bytes → Option Bytes
unfolding strcats
edit_address type buyer_id seller_id typed = do
  address ← scan 100 typed
  texts ← edit_texts type buyer_id seller_id
  strcats [] (texts ++ codes ",[ADDRESS]," ∷ address ∷ codes "," ∷ [])

-- `completeOrder`, whose message is fixed.
abbrev pub complete_order : Bytes
complete_order = codes "[COMPLETE_ORDER],1002,2007,2,12,"

-- The first message of `modifyOrder`: both ids are typed into a `char`.
unfoldable pub modify_order : Bytes → Bytes → Option Bytes
unfolding strcats
modify_order typed_order typed_product = do
  order_id ← scan 1 typed_order
  product_id ← scan 1 typed_product
  strcats [] (codes "[VALIDATE_ID]," ∷ order_id ∷ codes ",[BILLING]," ∷ [])

-- `addNewProduct`; the product id is typed into a `char`.
unfoldable pub add_new_product : ℕ → Bytes → Bytes → Bytes → Bytes → Option Bytes
unfolding strcats
add_new_product seller_id typed_name typed_id typed_quantity typed_price = do
  product ← scan 100 typed_name
  product_id ← scan 1 typed_id
  quantity ← scan 100 typed_quantity
  price ← scan 100 typed_price
  seller ← char_text seller_id
  strcats [] (
      codes "[NEW_PRODUCT],"
      ∷ seller
      ∷ codes ","
      ∷ product
      ∷ codes ","
      ∷ quantity
      ∷ codes ","
      ∷ price
      ∷ codes ","
      ∷ [])

-- `deleteProduct`, `modifyQuantity` and `modifyPrice`: a `char` is read for the product id and for the
-- quantity.
unfoldable pub delete_product : ℕ → ℕ → Option Bytes
unfolding strcats
delete_product seller_id typed = do
  seller ← char_text seller_id
  id ← char_text typed
  strcats [] (codes "[DELETE_PROD]," ∷ seller ∷ codes "," ∷ id ∷ codes "," ∷ [])

unfoldable pub modify_quantity : ℕ → ℕ → ℕ → Option Bytes
unfolding strcats
modify_quantity seller_id typed typed_quantity = do
  seller ← char_text seller_id
  id ← char_text typed
  quantity ← char_text typed_quantity
  strcats []
      (codes "[MOD_QUANT]," ∷ seller ∷ codes "," ∷ id ∷ codes "," ∷ quantity ∷ codes "," ∷ [])

unfoldable pub modify_price : ℕ → ℕ → Bytes → Option Bytes
unfolding strcats
modify_price seller_id typed typed_price = do
  price ← scan 1 typed_price
  seller ← char_text seller_id
  id ← char_text typed
  strcats [] (codes "[MOD_PRICE]," ∷ seller ∷ codes "," ∷ id ∷ codes "," ∷ price ∷ codes "," ∷ [])
