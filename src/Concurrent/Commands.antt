-- ===== src/Concurrent/Commands.antt =====
-- Roden.c, the sections that each handler runs, and dataServer.c, threads with messages of their own.
-- The files are there, but for the product file, where `viewProducts` says so.
use group_a_cs.Base.{
  ℕ, ◌<◌, ◌≡◌, ◌⊎◌, List, [], ◌∷◌, ◌++◌, Bool, true, false, if◌then◌else◌, All, All-append, arith,
}
use group_a_cs.World.{Table, buyer, seller, product, billing, order, all_free}
use group_a_cs.Concurrent.{Section, reading, writing, entering, leaving, System, Reach}
use group_a_cs.Concurrent.Work.{programs_work}
use group_a_cs.Concurrent.Invariant.{IsSection, AreSections}
use group_a_cs.Concurrent.Waits.{CanStep}
use group_a_cs.Concurrent.Finish.{every_run_finishes}

-- What a client edits; `other`: none of the three.
pub data Edit : Type 0 where
  name number address other : Edit

-- A message, as far as the semaphores depend on it: the file that `validateID` searches and whether
-- the id is there, whether the product file can be opened that `viewProducts` reads, and whether the
-- loop of `validateOrderIsBuyers` ends.
pub data Request : Type 0 where
  new_buyer new_seller : Request
  validate : Table → Bool → Request
  complete_order view_buyer_orders order_details mod_order : Request
  view_products check_buyer : Bool → Request
  view_billing : Request
  edit_buyer edit_seller : Edit → Request
  new_product : Request
  delete_prod mod_quant mod_price : Bool → Request
  seller_orders : Request

abbrev pub validate_sections : Table → Bool → List Section
validate_sections t found = reading t ∷ (if found then [] else leaving t ∷ [])

-- The product is validated, and the table changed if it is there.
abbrev pub change_sections : Bool → List Section
change_sections found =
    validate_sections product found ++ (if found then writing (product ∷ []) ∷ [] else [])

abbrev edit_buyer_sections : Edit → List Section
edit_buyer_sections name = writing (buyer ∷ billing ∷ order ∷ []) ∷ []
edit_buyer_sections number = writing (buyer ∷ []) ∷ []
edit_buyer_sections address = writing (buyer ∷ billing ∷ order ∷ []) ∷ []
edit_buyer_sections other = []

abbrev edit_seller_sections : Edit → List Section
edit_seller_sections name = writing (seller ∷ []) ∷ []
edit_seller_sections number = writing (seller ∷ []) ∷ []
edit_seller_sections address = writing (seller ∷ []) ∷ []
edit_seller_sections other = []

-- The sections of the handler, in the order of its lines.
abbrev pub sections_of : Request → List Section
sections_of new_buyer = writing (buyer ∷ []) ∷ []
sections_of new_seller = writing (seller ∷ []) ∷ []
sections_of (validate t found) = validate_sections t found
sections_of (view_products there) = if there then reading product ∷ [] else entering product ∷ []
sections_of complete_order = writing (product ∷ billing ∷ order ∷ []) ∷ []
sections_of view_buyer_orders = reading billing ∷ []
sections_of (check_buyer ends) = reading billing ∷ []
sections_of order_details = reading order ∷ reading product ∷ []
sections_of mod_order = writing (billing ∷ order ∷ []) ∷ []
sections_of view_billing = reading buyer ∷ []
sections_of (edit_buyer e) = edit_buyer_sections e
sections_of (edit_seller e) = edit_seller_sections e
sections_of new_product = writing (product ∷ []) ∷ []
sections_of (delete_prod found) = change_sections found
sections_of (mod_quant found) = change_sections found
sections_of (mod_price found) = change_sections found
sections_of seller_orders = reading product ∷ reading order ∷ []

-- The handling ends behind its sections. A thread whose loop in `validateOrderIsBuyers` does not end
-- stays in it, with no semaphore, and handles no further message.
abbrev pub ends : Request → Bool
ends (check_buyer b) = b
ends _ = true

-- The sections of a thread's messages, and of the threads of the server.
abbrev pub thread_sections : List Request → List Section
thread_sections [] = []
thread_sections (r ∷ rs) = sections_of r ++ (if ends r then thread_sections rs else [])

abbrev pub server_sections : List (List Request) → List (List Section)
server_sections [] = []
server_sections (rs ∷ clients) = thread_sections rs ∷ server_sections clients

-- `validateID`, where the message needs it, finds the id, and `viewProducts` the product file.
abbrev pub Finds : Request → Type 0
Finds (validate t found) = found ≡ true
Finds (view_products there) = there ≡ true
Finds (delete_prod found) = found ≡ true
Finds (mod_quant found) = found ≡ true
Finds (mod_price found) = found ≡ true
Finds _ = Unit

change-AreSections : (found : Bool) → found ≡ true → All IsSection (change_sections found)
change-AreSections found h = rw h ground arith

sections_of-AreSections : (r : Request) → Finds r → All IsSection (sections_of r)
sections_of-AreSections new_buyer h = ground arith
sections_of-AreSections new_seller h = ground arith
sections_of-AreSections (validate t found) h = rw h ground arith
sections_of-AreSections (view_products there) h = rw h ground arith
sections_of-AreSections complete_order h = ground arith
sections_of-AreSections view_buyer_orders h = ground arith
sections_of-AreSections (check_buyer b) h = ground arith
sections_of-AreSections order_details h = ground arith
sections_of-AreSections mod_order h = ground arith
sections_of-AreSections view_billing h = ground arith
sections_of-AreSections (edit_buyer e) h = ground arith
sections_of-AreSections (edit_seller e) h = ground arith
sections_of-AreSections new_product h = ground arith
sections_of-AreSections (delete_prod found) h = change-AreSections found h
sections_of-AreSections (mod_quant found) h = change-AreSections found h
sections_of-AreSections (mod_price found) h = change-AreSections found h
sections_of-AreSections seller_orders h = ground arith

if-AreSections :
    (b : Bool) (ss : List Section) → All IsSection ss → All IsSection (if b then ss else [])
if-AreSections true ss h = h
if-AreSections false ss h = tt

thread_sections-AreSections :
    (rs : List Request) → All Finds rs → All IsSection (thread_sections rs)
thread_sections-AreSections [] h = tt
thread_sections-AreSections (r ∷ rs) h =
    All-append IsSection (sections_of r) (if ends r then thread_sections rs else [])
      (sections_of-AreSections r h.0)
      (if-AreSections (ends r) (thread_sections rs) (thread_sections-AreSections rs h.1))

pub server_sections-AreSections :
    (clients : List (List Request))
    → All (All Finds) clients
    → AreSections (server_sections clients)
server_sections-AreSections [] h = tt
server_sections-AreSections (rs ∷ clients) h =
    (thread_sections-AreSections rs h.0, server_sections-AreSections clients h.1)

-- The server has no deadlock: for any number of clients with any messages, each of which names only ids
-- that `validateID` finds and finds the product file that it looks at, every interleaving of the lines with
-- which the threads wait on, count and post the semaphores has a bounded length; before all of these
-- lines are run, some thread can run its next; and then all semaphores and counters are as at the
-- start. A thread whose loop in `validateOrderIsBuyers` does not end has no such lines behind it.
pub server_finishes :
    (clients : List (List Request)) {n : ℕ} {s : System}
    → All (All Finds) clients
    → Reach (server_sections clients) n s
    → (CanStep s × (n < programs_work (server_sections clients)))
      ⊎ ((s.locks ≡ all_free) × (n ≡ programs_work (server_sections clients)))
server_finishes clients h r = every_run_finishes (server_sections-AreSections clients h) r
