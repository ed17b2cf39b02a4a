-- ===== src/Tests/Relay.antt =====
-- The relay with one client and with two, on messages that the data server answers.
use group_a_cs.Base.{◌≡◌, ◌∙◌, refl, [], ◌∷◌, Bytes, codes, arith}
use group_a_cs.Base.Int.{pos}
use group_a_cs.Libc.{strtok, strtok_rest, strstr, atoi}
use group_a_cs.World.{World, done, quiet}
use group_a_cs.Catalog.{confirmation, invalid}
use group_a_cs.Clients.Edits.{client_edits_info}
use group_a_cs.Server.{execute_task_on_server}
use group_a_cs.Relay.{
  Relay, RelayReach, here, next, accepts, sends, forwards, handles, returns, answers, Answers,
}
use group_a_cs.Relay.OneClient.{one_client_answered}
use group_a_cs.Relay.Swapped.{replies_swapped}
use group_a_cs.Relay.Stale.{reply_stale}
use group_a_cs.Server.Dispatch.{delete_prod, execute_task_on_server-handler}
use group_a_cs.Convert.{int_to_char_array}
use group_a_cs.Tables.RoundTrip.Products.{no_product, product_text}
use group_a_cs.Catalog.Delete.{delete_product_stranger}
use group_a_cs.Tests.Catalog.{n1001, n2002, two_rows-Loads, two_rows-lines}
use group_a_cs.ClientProgram.LogIn.{seller_refused}
use group_a_cs.Tests.Samples.{zeroed, hook, apples, two_rows, shop}

abbrev start : World
start = quiet (shop two_rows) [] []

abbrev after_login : World
after_login = quiet (shop two_rows) [] (invalid ∷ [])

abbrev after_edit : World
after_edit = quiet (shop two_rows) [] (invalid ∷ confirmation ∷ [])

abbrev login : Bytes
login = codes "[VALIDATE_ID],,[SELLER],"

abbrev edit : Bytes
edit = codes "[EDIT_INFO],[BUYER],1003,[AGE],7,"

edit_confirmed : execute_task_on_server zeroed edit after_login ≡ done tt after_edit
unfolding execute_task_on_server strtok strtok_rest strstr atoi client_edits_info
edit_confirmed = refl

one_client_answered_example : Answers start (login ∷ []) (invalid ∷ []) after_login
one_client_answered_example =
    one_client_answered
      (next
        (next
          (next
            (next
              (next (next here accepts)
                (sends 0 login (omega arith) refl (omega arith) (omega arith)))
              (forwards 0 login [] (omega arith) refl refl))
            (handles zeroed login [] (invalid ∷ []) after_login refl (seller_refused zeroed start)
              refl))
          (returns 0 invalid [] [] (omega arith) refl refl))
        (answers 0 invalid [] (omega arith) refl refl))
      (((((((tt, tt), tt), tt), refl), tt), tt)) (omega arith) refl

replies_swapped_example :
    (s : Relay) × RelayReach start s
    × ((s.child 0).asked ≡ login ∷ [])
    × ((s.child 1).asked ≡ edit ∷ [])
    × ((s.child 0).got ≡ confirmation ∷ [])
    × ((s.child 1).got ≡ invalid ∷ [])
replies_swapped_example =
    replies_swapped zeroed start after_login after_edit login edit invalid confirmation
      (omega arith) (omega arith) (seller_refused zeroed start) refl edit_confirmed refl

-- The product of another seller.
abbrev deletion : Bytes
deletion = codes "[DELETE_PROD],1001,2002,"

abbrev deleted_from : World
deleted_from = quiet (shop two_rows) (pos 0 ∷ []) []

abbrev emptied : World
emptied =
    quiet (shop (product_text (no_product ∷ no_product ∷ []))) (pos 0 ∷ [])
      (invalid ∷ confirmation ∷ [])

abbrev emptied_refused : World
emptied_refused =
    quiet (shop (product_text (no_product ∷ no_product ∷ []))) (pos 0 ∷ [])
      (invalid ∷ confirmation ∷ invalid ∷ [])

deletion_refused : execute_task_on_server zeroed deletion deleted_from ≡ done tt emptied
unfolding int_to_char_array
deletion_refused =
    execute_task_on_server-handler zeroed delete_prod b'1' (codes "001,2002,") deleted_from
    ∙ delete_product_stranger zeroed (shop two_rows) (pos 0 ∷ []) [] two_rows (hook ∷ []) apples []
        no_product (no_product ∷ []) (codes "\n") refl two_rows-Loads n1001 n2002 (omega arith) refl
        (refl, tt) refl two_rows-lines (no_product ∷ no_product ∷ []) (no_product ∷ no_product ∷ [])
        refl refl refl (omega arith)

reply_stale_example :
    (s : Relay) × RelayReach deleted_from s
    × ((s.child 0).asked ≡ deletion ∷ login ∷ [])
    × ((s.child 0).got ≡ invalid ∷ confirmation ∷ [])
    × (s.replies ≡ invalid ∷ [])
reply_stale_example =
    reply_stale zeroed deleted_from emptied emptied_refused deletion login invalid confirmation
      invalid (omega arith) (omega arith) deletion_refused refl (seller_refused zeroed emptied) refl
