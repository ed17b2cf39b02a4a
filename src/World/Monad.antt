-- ===== src/World/Monad.antt =====
-- A handler's step on the shared state (Roden.h, dataServer.c), and the files that it reads.
use group_a_cs.Base.{ℕ, Bool, Option, none, some, List, [], ◌∷◌, ◌++◌, Bytes, ◌%◌, ◌+◌}
use group_a_cs.Base.Int.{ℤ, pos}
use group_a_cs.Libc.{strtok, atoi, strcpy}
use group_a_cs.Tables.{
  ClientInfo, ProductInfo, BillingInfo, CustomerOrderInfo, ItemOrder, load_client_info,
  load_product_info, load_billing_info, load_customer_order_info,
}
use group_a_cs.Tables.Save.{
  write_back_client_struct, write_back_product_struct, write_back_billing_struct,
  write_back_customer_order_struct,
}

-- The five files, and with each its semaphores.
pub data Table : Type 0 where
  buyer seller product billing order : Table

-- The binary semaphore that a writer or the first reader holds, the one round the counter, and the
-- counter of readers.
pub record Lock : Type 0 where
  pub wrt : ℕ
  pub mutex : ℕ
  pub readers : ℤ

pub record Locks : Type 0 where
  pub customer_info : Lock
  pub seller_info : Lock
  pub product_info : Lock
  pub billing_info : Lock
  pub customer_order : Lock

-- The text of each file, if the file is there.
pub record Files : Type 0 where
  pub customer_info : Option Bytes
  pub seller_info : Option Bytes
  pub product_info : Option Bytes
  pub billing_info : Option Bytes
  pub customer_order : Option Bytes

pub record World : Type 0 where
  pub files : Files
  pub locks : Locks
  pub deleted_products : List ℤ
  pub sent : List Bytes

-- What a handler finds that the source does not set: the contents of its uninitialised local
-- variables, by name, the junk in the buffer of each write-back, and the value of `rand()`.
-- `rounds` bounds a loop of the source that may not end.
pub record Locals : Type 0 where
  pub client_db : List ClientInfo
  pub product_list : List ProductInfo
  pub modified_product_list : List ProductInfo
  pub billing_info : List BillingInfo
  pub customer_order_info : List CustomerOrderInfo
  pub modified_customer_order_info : List CustomerOrderInfo
  pub order_list : List ItemOrder
  pub put_back : Table → Bytes
  pub command : Bytes
  pub rand : ℕ
  pub rounds : ℕ

-- How a handler ends: with a value and a state; by undefined behaviour; waiting for a semaphore that
-- nobody posts while the handler waits; or still in a loop when its rounds are over.
pub data Outcome (A : Type 0) : Type 0 where
  done : A → World → Outcome A
  fault : Outcome A
  blocked : Outcome A
  looping : Outcome A

abbrev pub M : Type 0 → Type 0
M A = World → Outcome A

abbrev pub and_then : {A B : Type 0} → Outcome A → (A → World → Outcome B) → Outcome B
and_then (done a w) f = f a w
and_then fault f = fault
and_then blocked f = blocked
and_then looping f = looping

infixl 5 ◌>>=◌ ◌>>◌
abbrev pub ◌>>=◌ : {A B : Type 0} → M A → (A → M B) → M B
◌>>=◌ m f w = and_then (m w) f

abbrev pub ◌>>◌ : {A B : Type 0} → M A → M B → M B
m >> k = m >>= λ _. k

abbrev pub pure : {A : Type 0} → A → M A
pure a w = done a w

-- A step of the C library or of the tables; `none` is undefined behaviour.
abbrev pub lift : {A : Type 0} → Option A → M A
lift none w = fault
lift (some a) w = done a w

abbrev pub token : Bytes → M (Bytes × Bytes)
token s = lift (strtok s)

-- `atoi(strtok(…, ","))`.
abbrev pub int_token : Bytes → M (ℤ × Bytes)
int_token s = do t ← token s; n ← lift (atoi t.0); pure (n, t.1)

-- `strcpy(field, strtok(…, ","))` into an array of `size` bytes.
abbrev pub text_token : ℕ → Bytes → M (Bytes × Bytes)
text_token size s = do t ← token s; f ← lift (strcpy size t.0); pure (f, t.1)

-- `writeSocket(clientSock, reply)`.
abbrev pub write_socket : Bytes → M (Unit {0})
write_socket reply w = done tt (record w { sent = w.sent ++ reply ∷ [] })

abbrev pub msg_buffer_size : ℕ
msg_buffer_size = 10240

-- `generateUID()`, for the value of `rand()`.
abbrev pub generate_uid : Locals → ℤ
generate_uid v = pos (v.rand % 9000 + 1000)

abbrev pub load_buyers : List ClientInfo → M (Bool × List ClientInfo)
load_buyers table w = lift (load_client_info w.files.customer_info table) w

abbrev pub load_sellers : List ClientInfo → M (Bool × List ClientInfo)
load_sellers table w = lift (load_client_info w.files.seller_info table) w

abbrev pub load_products : List ProductInfo → M (Bool × List ProductInfo)
load_products table w = lift (load_product_info w.files.product_info table) w

abbrev pub load_billing : List BillingInfo → M (Bool × List BillingInfo)
load_billing table w = lift (load_billing_info w.files.billing_info table) w

abbrev pub load_orders : List CustomerOrderInfo → M (Bool × List CustomerOrderInfo)
load_orders table w = lift (load_customer_order_info w.files.customer_order table) w

abbrev pub save_buyers : Locals → List ClientInfo → M (Unit {0})
save_buyers v table w =
    (lift (write_back_client_struct (v.put_back buyer) w.files.customer_info table) >>= λ t w'.
    done tt (record w' { files = record w'.files { customer_info = some t } }))
      w

abbrev pub save_sellers : Locals → List ClientInfo → M (Unit {0})
save_sellers v table w =
    (lift (write_back_client_struct (v.put_back seller) w.files.seller_info table) >>= λ t w'.
    done tt (record w' { files = record w'.files { seller_info = some t } }))
      w

abbrev pub save_products : Locals → List ProductInfo → M (Unit {0})
save_products v table w =
    (lift (write_back_product_struct (v.put_back product) w.files.product_info table) >>= λ t w'.
    done tt (record w' { files = record w'.files { product_info = some t } }))
      w

abbrev pub save_billing : Locals → List BillingInfo → M (Unit {0})
save_billing v table w =
    (lift (write_back_billing_struct (v.put_back billing) w.files.billing_info table) >>= λ t w'.
    done tt (record w' { files = record w'.files { billing_info = some t } }))
      w

abbrev pub save_orders : Locals → List CustomerOrderInfo → M (Unit {0})
save_orders v table w =
    (lift (write_back_customer_order_struct (v.put_back order) w.files.customer_order table)
        >>= λ t w'. done tt (record w' { files = record w'.files { customer_order = some t } }))
      w
