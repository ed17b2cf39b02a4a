-- ===== src/ClientProgram/Session.antt =====
-- client.c together with the server: a message is sent, handled, and the reply read.
use group_a_cs.Base.{
  ℕ, Bool, true, false, ◌&&◌, none, some, List, [], ◌∷◌, ◌++◌, Bytes, codes, ◌==◌, get_elem?,
  length, ◌≡◌, refl, ap, ◌∙◌,
}
use group_a_cs.World.{Locals, World, M, ◌>>=◌, ◌>>◌, pure, done, blocked, lift}
use group_a_cs.Server.{execute_task_on_server}
use group_a_cs.ClientProgram.{Person, user_register, id_login}

-- `strcmp(s, t) == 0`.
unfoldable pub same_text : Bytes → Bytes → Bool
same_text [] [] = true
same_text [] (d ∷ t) = false
same_text (c ∷ s) [] = false
same_text (c ∷ s) (d ∷ t) = (c == d) && same_text s t

-- `clientReceive`, behind `received` replies that the client has read: it waits if there is none.
abbrev pub client_receive : ℕ → M Bytes
client_receive received w = elim (get_elem? w.sent received) [
  | none ↦ blocked
  | some reply ↦ done reply w
]

-- `clientSend` and `clientReceive`, with the server's handler between.
unfoldable pub exchange : Locals → ℕ → Bytes → M Bytes
exchange v received message = execute_task_on_server v message >> client_receive received

-- `IDLogin`: whether the client goes on to the menu of the user.
unfoldable pub log_in : Locals → ℕ → ℕ → Bytes → M Bool
unfolding exchange same_text
log_in v received type typed = do
  message ← lift (id_login type [] typed)
  reply ← exchange v received message
  pure (same_text reply (codes "[CONFIRMATION]"))

-- `userRegister` up to the reply.
unfoldable pub register : Locals → ℕ → ℕ → Person → M Bytes
unfolding exchange
register v received type p = do
  message ← lift (user_register type [] p)
  exchange v received message

-- The reply that comes first behind those that are read.
get_elem?-append :
    (sent : List Bytes) (reply : Bytes) → get_elem? (sent ++ reply ∷ []) (length sent) ≡ some reply
get_elem?-append [] reply = refl
get_elem?-append (s ∷ sent) reply = get_elem?-append sent reply

pub exchange-reply :
    (v : Locals) (message : Bytes) (w w' : World) (sent : List Bytes) (reply : Bytes)
    → execute_task_on_server v message w ≡ done tt w'
    → w'.sent ≡ sent ++ reply ∷ []
    → exchange v (length sent) message w ≡ done reply w'
unfolding exchange
exchange-reply v message w w' sent reply handled one_reply =
    rw (handled, exchange) (rw (lookup, client_receive))
  where
    lookup : get_elem? w'.sent (length sent) ≡ some reply
    lookup = ap (λ l. get_elem? l (length sent)) one_reply ∙ get_elem?-append sent reply
