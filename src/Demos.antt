-- ===== src/Demos.antt =====
-- Demos/4_DeadLock_Fix and Demos/5_All_Fixed: the programs that try out the semaphores, one process
-- each, in a loop on one command.
pub mod Readers
pub mod Updates
pub mod Processes
pub mod Simulation
pub mod Invariant
pub mod Progress
pub mod Safety
use group_a_cs.Base.{Bool, true, List, [], ◌∷◌, Bytes, codes, if◌then◌else◌}
use group_a_cs.Base.Int.{ℤ}
use group_a_cs.Libc.{strstr}
use group_a_cs.World.{Table, buyer, seller, product, billing, order}
use group_a_cs.Concurrent.{Section, reading, writing}

-- `struct command`.
pub record DemoCommand : Type 0 where
  pub command : Bytes
  pub client_type : Bytes
  pub num1 : ℤ
  pub num2 : ℤ
  pub valid : Bool
  pub valid2 : Bool

-- `[NEW_CLIENT]`.
abbrev pub new_client_round : DemoCommand → List Section
new_client_round c =
    if strstr c.client_type (codes "[BUYER]")
    then writing (buyer ∷ []) ∷ []
    else writing (seller ∷ []) ∷ []

-- `[VALIDATE_ID]`.
abbrev pub validate_round : DemoCommand → List Section
validate_round c =
    if strstr c.client_type (codes "[BUYER]")
    then reading buyer ∷ []
    else if strstr c.client_type (codes "[SELLER]")
    then reading seller ∷ []
    else if strstr c.client_type (codes "[PRODUCT]")
    then reading product ∷ []
    else if strstr c.client_type (codes "[BILLING]")
    then reading billing ∷ []
    else if strstr c.client_type (codes "[ORDER]")
    then reading order ∷ []
    else []

-- `[VIEW_PRODUCTS]`.
abbrev pub view_products_round : DemoCommand → List Section
view_products_round c =
    if strstr c.client_type (codes "[BUYER]")
    then reading product ∷ []
    else if strstr c.client_type (codes "[SELLER]")
    then reading product ∷ []
    else []

-- `[COMPLETE_ORDER]`.
abbrev pub complete_order_round : DemoCommand → List Section
complete_order_round c = if c.valid then writing (product ∷ billing ∷ order ∷ []) ∷ [] else []

-- `[EDIT_INFO]`: the name is looked for in the type of the client, number and address in the command.
abbrev pub edit_buyer_round : DemoCommand → List Section
edit_buyer_round c =
    if strstr c.client_type (codes "[NAME]")
    then writing (buyer ∷ billing ∷ order ∷ []) ∷ []
    else if strstr c.command (codes "[NUMBER]")
    then writing (buyer ∷ []) ∷ []
    else if strstr c.command (codes "[ADDRESS]")
    then writing (buyer ∷ billing ∷ order ∷ []) ∷ []
    else []

abbrev pub edit_seller_round : DemoCommand → List Section
edit_seller_round c =
    if strstr c.client_type (codes "[NAME]")
    then writing (seller ∷ []) ∷ []
    else if strstr c.command (codes "[NUMBER]")
    then writing (seller ∷ []) ∷ []
    else if strstr c.command (codes "[ADDRESS]")
    then writing (seller ∷ []) ∷ []
    else []

abbrev pub edit_round : DemoCommand → List Section
edit_round c =
    if strstr c.client_type (codes "[BUYER]") then edit_buyer_round c else edit_seller_round c

-- `[DELETE_PROD]`, `[MOD_QUANT]` and `[MOD_PRICE]`. `valid2` decides on a write inside.
abbrev pub change_product_round : DemoCommand → List Section
change_product_round c = if c.valid then writing (product ∷ []) ∷ [] else []

-- One round of the loop of `main`.
unfoldable pub round : DemoCommand → List Section
round c =
    if strstr c.command (codes "[NEW_CLIENT]")
    then new_client_round c
    else if strstr c.command (codes "[VALIDATE_ID]")
    then validate_round c
    else if strstr c.command (codes "[VIEW_PRODUCTS]")
    then view_products_round c
    else if strstr c.command (codes "[COMPLETE_ORDER]")
    then complete_order_round c
    else if strstr c.command (codes "[VIEW_BUYER_ORDERS]")
    then reading billing ∷ []
    else if strstr c.command (codes "[CHECK_BUYER]")
    then reading billing ∷ []
    else if strstr c.command (codes "[ORDER_DETAILS]")
    then reading order ∷ reading product ∷ []
    else if strstr c.command (codes "[MOD_ORDER]")
    then writing (billing ∷ order ∷ []) ∷ []
    else if strstr c.command (codes "[VIEW_BILLING]")
    then reading buyer ∷ []
    else if strstr c.command (codes "[EDIT_INFO]")
    then edit_round c
    else if strstr c.command (codes "[NEW_PRODUCT]")
    then writing (product ∷ []) ∷ []
    else if strstr c.command (codes "[DELETE_PROD]")
    then change_product_round c
    else if strstr c.command (codes "[MOD_QUANT]")
    then change_product_round c
    else if strstr c.command (codes "[MOD_PRICE]")
    then change_product_round c
    else if strstr c.command (codes "[SELLER_ORDERS]")
    then reading product ∷ reading order ∷ []
    else []

-- The commands that the programs are built with. What a program does not set is as it was.
abbrev pub comp_order : DemoCommand → DemoCommand
comp_order task = record task { command = codes "[COMPLETE_ORDER]" }

abbrev pub read_billing : DemoCommand → DemoCommand
read_billing task = record task { command = codes "[VALIDATE_ID]"; client_type = codes "[BILLING]" }

abbrev pub read_order : DemoCommand → DemoCommand
read_order task = record task { command = codes "[VALIDATE_ID]"; client_type = codes "[ORDER]" }

abbrev pub read_product : DemoCommand → DemoCommand
read_product task = record task { command = codes "[VALIDATE_ID]"; client_type = codes "[PRODUCT]" }
