-- ===== src/ClientProgram/LogIn.antt =====
-- Logging in, from what is typed to the server's answer.
use group_a_cs.Base.{
  ◌<◌, ◌≡◌, ◌≢◌, refl, ap, ◌∙◌, true, false, some, List, [], ◌∷◌, ◌++◌, Bytes, codes, if◌then◌else◌,
  length, length-append, append_assoc, arith, ltb-true, Bool-cases, inl, inr,
}
use group_a_cs.Base.Int.{ℤ}
use group_a_cs.Libc.{strtok, atoi, strstr}
use group_a_cs.Tables.{ClientInfo, load_client_info}
use group_a_cs.World.{Locals, Files, World, ◌>>=◌, and_then, done, quiet}
use group_a_cs.World.Rows.Prefix.{any, Loaded}
use group_a_cs.Catalog.{confirmation, invalid}
use group_a_cs.Catalog.Request.{IsNumber}
use group_a_cs.Validate.{validate_id}
use group_a_cs.Validate.Buyers.{buyers_left_twice, has_uuid, validate_id-buyer}
use group_a_cs.Server.{execute_task_on_server, reply_result}
use group_a_cs.Server.Dispatch.{execute_task_on_server-handler, check_id}
use group_a_cs.ClientProgram.{id_login}
use group_a_cs.ClientProgram.Messages.{strcats-concat}
use group_a_cs.ClientProgram.Session.{same_text, exchange, exchange-reply, log_in}

-- The message of a seller names no id, and the server takes `[SELLER]` for the id and the newline for
-- the table.
validate_id-seller :
    (v : Locals) (w : World) → validate_id v (codes ",[SELLER],\n") w ≡ done false w
unfolding validate_id strtok strstr atoi
validate_id-seller v w = refl

pub seller_refused :
    (v : Locals) (w : World)
    → execute_task_on_server v (codes "[VALIDATE_ID],,[SELLER],") w
      ≡ done tt (record w { sent = w.sent ++ invalid ∷ [] })
seller_refused v w =
    execute_task_on_server-handler v check_id b',' (codes "[SELLER],") w
    ∙ rw (validate_id-seller v w)

-- In any state of the server, and whatever fitting id is typed, a seller's login is refused: the
-- server answers that the id is invalid and changes nothing else.
pub log_in_seller :
    (v : Locals) (w : World) (typed : Bytes)
    → length typed < 50
    → log_in v (length w.sent) 1 typed w ≡ done false (record w { sent = w.sent ++ invalid ∷ [] })
unfolding log_in id_login exchange same_text
log_in_seller v w typed fits =
    rw (ltb-true (length typed) 50 fits)
      (rw (exchange-reply v _ w _ w.sent invalid (seller_refused v w) refl))

-- The message of a buyer.
id_login-buyer :
    (typed : Bytes)
    → length typed < 50
    → id_login 0 [] typed ≡ some (codes "[VALIDATE_ID]," ++ (typed ++ codes ",[BUYER],"))
unfolding id_login
id_login-buyer typed fits = rw (ltb-true (length typed) 50 fits) (
    strcats-concat (codes "[VALIDATE_ID]," ∷ typed ∷ codes ",[BUYER]," ∷ []) []
      (omega (arith, fits, length-append typed (codes ",[BUYER],"))))

-- It reaches `validateID` without its command and with a newline.
buyer_reaches :
    (v : Locals) (typed : Bytes) (w : World)
    → typed ≢ []
    → execute_task_on_server v (codes "[VALIDATE_ID]," ++ (typed ++ codes ",[BUYER],")) w
      ≡ (validate_id v (typed ++ codes ",[BUYER],\n") >>= reply_result) w
buyer_reaches v [] w h = absurd (h refl)
buyer_reaches v (c ∷ typed) w h =
    execute_task_on_server-handler v check_id c (typed ++ codes ",[BUYER],") w
    ∙ ap (λ m. (validate_id v (c ∷ m) >>= reply_result) w)
        (append_assoc typed (codes ",[BUYER],") (codes "\n"))

module _ (v : Locals) (files : Files) (deleted : List ℤ) (sent : List Bytes)
    (rows : List ClientInfo) (z : ClientInfo) (rest : List ClientInfo)
    (loads : Loaded ClientInfo.uuid
      (load_client_info files.customer_info v.client_db)
      rows
      z
      rest) where
  -- A buyer's login on a server with free semaphores, whose table is in use up to a free row: the
  -- client gets to the buyer's menu if and only if a row in use has the number that is typed. The
  -- server sends one reply. If no row has it, the counter of the readers stays at minus one.
  pub log_in_buyer :
      (typed : Bytes) (id : ℤ)
      → IsNumber typed id
      → length typed < 50
      → log_in v (length sent) 0 typed (quiet files deleted sent) ≡ (
          if any (has_uuid id) rows
          then done true (quiet files deleted (sent ++ confirmation ∷ []))
          else done false (buyers_left_twice files deleted (sent ++ invalid ∷ [])))
  unfolding log_in id_login exchange same_text
  log_in_buyer typed id number fits =
      rw (id_login-buyer typed fits) (elim (Bool-cases (any (has_uuid id) rows)) [
        | inl e ↦
            let w' = quiet files deleted (sent ++ confirmation ∷ []) in
            rw e (rw (exchange-reply v message w w' sent confirmation (reached ∙ rw e refl) refl))
        | inr e ↦
            let w' = buyers_left_twice files deleted (sent ++ invalid ∷ []) in
            rw e (rw (exchange-reply v message w w' sent invalid (reached ∙ rw e refl) refl))
      ])
    where
      w : World
      w = quiet files deleted sent

      message : Bytes
      message = codes "[VALIDATE_ID]," ++ (typed ++ codes ",[BUYER],")

      reached :
          execute_task_on_server v message w
          ≡ and_then
              (if any (has_uuid id) rows
                then done true (quiet files deleted sent)
                else done false (buyers_left_twice files deleted sent))
              reply_result
      reached =
          buyer_reaches v typed (quiet files deleted sent) number.field.not_empty
          ∙ rw (validate_id-buyer v files deleted sent rows z rest loads typed id number) refl
