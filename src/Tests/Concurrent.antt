-- ===== src/Tests/Concurrent.antt =====
-- Interleavings of two threads, and the theorems at them.
use group_a_cs.Base.{
  true, some, Bytes, codes, ℕ, ◌+◌, ◌≤◌, ◌<◌, ◌≡◌, ◌⊎◌, refl, List, [], ◌∷◌, arith,
}
use group_a_cs.Base.Int.{pos, ◌+ℤ◌}
use group_a_cs.World.{Files, Table, product, billing, order, set_lock, all_free}
use group_a_cs.Server.{initial}
use group_a_cs.Concurrent.{writing, at, taking, System, Reach, here, next, step, move, wait_leave}
use group_a_cs.Concurrent.Counts.{total, writer, reader, inside, member}
use group_a_cs.Concurrent.Work.{total_work, programs_work}
use group_a_cs.Concurrent.Waits.{CanStep}
use group_a_cs.Concurrent.Exclusion.{readers_or_writer}
use group_a_cs.Concurrent.Commands.{
  Request, view_products, complete_order, server_sections, server_sections-AreSections,
  server_finishes,
}
use group_a_cs.Libc.{strtok, strtok_rest, take_token, skip_commas}
use group_a_cs.Server.{extract_command, execute_task_on_server}
use group_a_cs.Concurrent.Answers.{HasFiles}
use group_a_cs.Concurrent.Choices.{AgreesAmong}
use group_a_cs.Concurrent.Messages.{requests_of, message_runs_sections}
use group_a_cs.Concurrent.Deadlock.{comp_order_waits, comp_order_nu_waits, crossed_writers_deadlock}
use group_a_cs.Tests.Samples.{zeroed, two_rows, shop}

-- One client looks at the products while another one completes an order.
abbrev looking_and_buying : List (List Request)
looking_and_buying = (view_products true ∷ []) ∷ (complete_order ∷ []) ∷ []

-- The first has entered as a reader, the second waits for the products.
abbrev looking : System
looking = record {
  locks = set_lock product (record { wrt = 0; mutex = 1; readers = pos 1 }) all_free;
  threads =
      record { pc = at product wait_leave; todo = [] }
      ∷ record { pc = taking [] (product ∷ billing ∷ order ∷ []); todo = [] }
      ∷ [];
}

Reach-looking : Reach (server_sections looking_and_buying) 6 looking
unfolding move ◌+ℤ◌
Reach-looking =
    let one = next here (step [] _ _ refl refl) in
    let two = next one (step (_ ∷ []) _ [] refl refl) in
    let three = next two (step [] _ _ refl refl) in
    let four = next three (step [] _ _ refl refl) in
    let five = next four (step [] _ _ refl refl) in next five (step [] _ _ refl refl)

readers_or_writer_example :
    (total (writer product) looking.threads ≤ 1)
    × ((total (writer product) looking.threads ≡ 0)
        ⊎ (total (reader inside product) looking.threads ≡ 0))
readers_or_writer_example =
    readers_or_writer (server_sections-AreSections looking_and_buying ((refl, tt), ((tt, tt), tt)))
      Reach-looking product

server_finishes_example :
    (CanStep looking × (6 < programs_work (server_sections looking_and_buying)))
    ⊎ ((looking.locks ≡ all_free) × (6 ≡ programs_work (server_sections looking_and_buying)))
server_finishes_example =
    server_finishes looking_and_buying ((refl, tt), ((tt, tt), tt)) Reach-looking

-- dl_compOrder.c has the products and the bills, dl_compOrderNU.c the orders.
apart_files : (t : Table) → member t (product ∷ billing ∷ []) + member t (order ∷ []) ≤ 1
apart_files t = ground arith

crossed_writers_deadlock_example :
    (n : ℕ) × (s : System) × Reach
      ((writing comp_order_waits ∷ []) ∷ (writing comp_order_nu_waits ∷ []) ∷ [])
      n
      s
    × (¬ CanStep s)
    × (0 < total_work s.threads)
crossed_writers_deadlock_example =
    crossed_writers_deadlock billing order (product ∷ billing ∷ []) (order ∷ []) [] (product ∷ [])
      [] [] (omega arith) (omega arith) apart_files

abbrev deletion : Bytes
deletion = codes "[DELETE_PROD],1001,2000,"

abbrev full_shop : Files
full_shop = record (shop two_rows) { seller_info = some [] }

shop-HasFiles : HasFiles (initial full_shop [])
shop-HasFiles = record {
  buyers = (_, refl);
  sellers = (_, refl);
  products = (_, refl);
  bills = (_, refl);
  orders = (_, refl);
}

message_runs_sections_example :
    AgreesAmong
      (requests_of (codes "[DELETE_PROD]") (codes "1001,2000,\n"))
      all_free
      (execute_task_on_server zeroed deletion (initial full_shop []))
unfolding extract_command strtok strtok_rest take_token skip_commas
message_runs_sections_example =
    message_runs_sections zeroed deletion (initial full_shop []) shop-HasFiles refl
