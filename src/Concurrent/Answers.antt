-- ===== src/Concurrent/Answers.antt =====
-- Roden.c, `validateID`: the sections that it runs, by its answer.
use group_a_cs.Base.{
  ◌≡◌, refl, sym, subst, ◌⊎◌, inl, inr, Option, none, some, List, [], ◌∷◌, Bytes, Bool, true, false,
  if◌then◌else◌, arith,
}
use group_a_cs.Base.Int.{ℤ}
use group_a_cs.Libc.{fgets_lines}
use group_a_cs.Tables.{
  ClientInfo, ProductInfo, BillingInfo, CustomerOrderInfo, load_file, load_lines, load_client_info,
  load_product_info, load_billing_info, load_customer_order_info,
}
use group_a_cs.World.{
  Table, Locks, World, M, Outcome, done, fault, blocked, looping, ◌>>=◌, and_then, pure, lift,
  begin_read, end_read, load_buyers, load_sellers, load_products, load_billing, load_orders,
  write_socket,
}
use group_a_cs.Validate.{validate_in}
use group_a_cs.Concurrent.Alone.{of_lines, begin_read-alone, end_read-alone}
use group_a_cs.Concurrent.Quiet.{Quiet, Any, call-Quiet}
use group_a_cs.Concurrent.Runs.{Part, enter, leave, part, parts, Agrees, Runs, end_read-Runs}

-- The files are there.
pub record HasFiles (w : World) : Type 0 where
  pub buyers : (x : Bytes) × (w.files.customer_info ≡ some x)
  pub sellers : (x : Bytes) × (w.files.seller_info ≡ some x)
  pub products : (x : Bytes) × (w.files.product_info ≡ some x)
  pub bills : (x : Bytes) × (w.files.billing_info ≡ some x)
  pub orders : (x : Bytes) × (w.files.customer_order ≡ some x)

-- Where the files are, the table is loaded, and the state stays as it is; or a row is faulty.
pub Loads : {A : Type 0} → M (Bool × List A) → Type 0
Loads {A} load =
    (w : World) → HasFiles w → (load w ≡ fault) ⊎ ((rows : List A) × (load w ≡ done (true, rows) w))

module _ {A : Type 0} (parse : Bytes → Bytes → Option A) where
  with_rows : Option (List A) → Option (Bool × List A)
  with_rows none = none
  with_rows (some rows) = some (true, rows)

  rows-cases :
      (o : Option (List A)) (w : World)
      → (lift (with_rows o) w ≡ fault)
        ⊎ ((rows : List A) × (lift (with_rows o) w ≡ done (true, rows) w))
  unfolding with_rows
  rows-cases none w = inl refl
  rows-cases (some rows) w = inr (rows, refl)

  with_rows-load_file :
      (text : Bytes) (table : List A)
      → load_file parse (some text) table ≡ with_rows (load_lines parse (fgets_lines text) table)
  unfolding with_rows
  with_rows-load_file text table = ground arith

  load_file-cases :
      (o : Option Bytes) (table : List A) (w : World)
      → (x : Bytes) × (o ≡ some x)
      → (lift (load_file parse o table) w ≡ fault)
        ⊎ ((rows : List A) × (lift (load_file parse o table) w ≡ done (true, rows) w))
  load_file-cases none table w h = cc
  load_file-cases (some text) table w h =
      rw (with_rows-load_file text table) (rows-cases (load_lines parse (fgets_lines text) table) w)

pub load_buyers-Loads : (table : List ClientInfo) → Loads (load_buyers table)
unfolding Loads load_client_info
load_buyers-Loads table w h = load_file-cases _ w.files.customer_info table w h.buyers

pub load_sellers-Loads : (table : List ClientInfo) → Loads (load_sellers table)
unfolding Loads load_client_info
load_sellers-Loads table w h = load_file-cases _ w.files.seller_info table w h.sellers

pub load_products-Loads : (table : List ProductInfo) → Loads (load_products table)
unfolding Loads load_product_info
load_products-Loads table w h = load_file-cases _ w.files.product_info table w h.products

pub load_billing-Loads : (table : List BillingInfo) → Loads (load_billing table)
unfolding Loads load_billing_info
load_billing-Loads table w h = load_file-cases _ w.files.billing_info table w h.bills

pub load_orders-Loads : (table : List CustomerOrderInfo) → Loads (load_orders table)
unfolding Loads load_customer_order_info
load_orders-Loads table w h = load_file-cases _ w.files.customer_order table w h.orders

-- What an answer says of the parts that have been run.
abbrev pub AgreesBy : {A : Type 0} → (A → Option Locks) → Outcome A → Type 0
AgreesBy r (done b w') = r b ≡ some w'.locks
AgreesBy {A} r blocked = (b : A) × (r b ≡ none)
AgreesBy r fault = Unit
AgreesBy r looping = Unit

-- Where the files are, the call does the parts that belong to its answer.
unfoldable pub RunsBy : {A : Type 0} → (A → List Part) → M A → Type 0
RunsBy ps m = (w : World) → HasFiles w → AgreesBy (λ b. parts (ps b) w.locks) (m w)

of_lines-HasFiles : (w : World) (l : Locks) → HasFiles w → HasFiles (record w { locks = l })
of_lines-HasFiles w l h = record {
  buyers = h.buyers;
  sellers = h.sellers;
  products = h.products;
  bills = h.bills;
  orders = h.orders;
}

pub write_socket-RunsBy : (reply : Bytes) → RunsBy (λ _. []) (write_socket reply)
unfolding RunsBy
write_socket-RunsBy reply w files = refl

module _ {B : Type 0} (ps : B → List Part) where
  -- A part of one of the two kinds of a reader, and what follows.
  pub reader_by :
      (b : B) (p : Part) (m : M (Unit {0})) (f : Unit {0} → M B)
      → ((w : World) → m w ≡ of_lines w (part p w.locks))
      → RunsBy ps (f tt)
      → RunsBy (λ b. p ∷ ps b) (m >>= f)
  unfolding RunsBy
  reader_by b p m f e h w files =
      subst (λ o. AgreesBy (λ b. parts (p ∷ ps b) w.locks) (and_then o f)) (sym (e w))
        (go (part p w.locks) refl)
    where
      go :
          (o : Option Locks)
          → part p w.locks ≡ o
          → AgreesBy (λ b. parts (p ∷ ps b) w.locks) (and_then (of_lines w o) f)
      go none is = (b, rw (is, parts) refl)
      go (some l) is = rw (is, parts) (h (record w { locks = l }) (of_lines-HasFiles w l files))

  pub load_by :
      {A : Type 0} (load : M (Bool × List A)) (f : Bool × List A → M B)
      → Loads load
      → ((rows : List A) → RunsBy ps (f (true, rows)))
      → RunsBy ps (load >>= f)
  unfolding RunsBy Loads
  load_by load f h k w files = elim (h w files) [
    | inl e ↦ rw e tt
    | inr (rows, e) ↦ rw e (k rows w files)
  ]

  pub calls_by :
      {A : Type 0} (R : A → Type 0) (m : M A) (f : A → M B)
      → Quiet R m
      → ((a : A) → R a → RunsBy ps (f a))
      → RunsBy ps (m >>= f)
  unfolding RunsBy Quiet
  calls_by R m f h k w files = elim (h w) [
    | inl (a, r, e) ↦ rw e (k a r w files)
    | inr (inl e) ↦ rw e tt
    | inr (inr e) ↦ rw e tt
  ]

module _ (t : Table) where
  -- Where nothing is found, the file is left once more.
  abbrev pub again : Bool → List Part
  again true = []
  again false = leave t ∷ []

  found-by :
      (found : Bool) → RunsBy again (if found then pure true else (end_read t >>= λ _. pure false))
  unfolding RunsBy Runs
  found-by true w files = refl
  found-by false w files = go (end_read t w) (end_read-Runs t w)
    where
      go :
          (o : Outcome (Unit {0}))
          → Agrees (parts (leave t ∷ []) w.locks) o
          → AgreesBy (λ b. parts (again b) w.locks) (and_then o (λ _. pure false))
      go (done a u) e = e
      go blocked e = (false, e)
      go fault e = tt
      go looping e = tt

  pub validate_in-RunsBy :
      {A : Type 0} (key id_of : A → ℤ) (id : ℤ) (load : M (Bool × List A))
      → Loads load
      → RunsBy (λ b. enter t ∷ leave t ∷ again b) (validate_in t key id_of id load)
  unfolding validate_in
  validate_in-RunsBy key id_of id load h =
      reader_by _ true (enter t) (begin_read t) _ (begin_read-alone t []) (
        load_by _ load _ h (λ rows.
          reader_by again true (leave t) (end_read t) _ (end_read-alone t [])
            (calls_by again Any _ _ (call-Quiet _) (λ found u. found-by found))))
