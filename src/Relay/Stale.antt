-- ===== src/Relay/Stale.antt =====
-- With one client, a message that has two replies gives a later message an old one.
use group_a_cs.Base.{◌≤◌, ◌<◌, ◌≡◌, refl, [], ◌∷◌, ◌++◌, Bytes, length, arith}
use group_a_cs.World.{Locals, World, done}
use group_a_cs.Server.{execute_task_on_server}
use group_a_cs.Relay.{
  Relay, accepts, sends, forwards, handles, returns, answers, RelayReach, here, next, max_msg_size,
  max_messages,
}

the_client : 0 < 1
the_client = omega arith

room : 0 < max_messages
room = omega arith

-- One client sends two messages that fit the queue, of which the data server answers the first with two
-- replies and the second with one: the relay can give the client the second reply to the first message
-- as the reply to the second message, whose own reply is then still on the connection.
pub reply_stale :
    (v : Locals) (w w1 w2 : World) (m1 m2 r1 r1' r2 : Bytes)
    → length m1 ≤ max_msg_size
    → length m2 ≤ max_msg_size
    → execute_task_on_server v m1 w ≡ done tt w1
    → w1.sent ≡ w.sent ++ r1 ∷ r1' ∷ []
    → execute_task_on_server v m2 w1 ≡ done tt w2
    → w2.sent ≡ w1.sent ++ r2 ∷ []
    → (s : Relay) × RelayReach w s
      × ((s.child 0).asked ≡ m1 ∷ m2 ∷ [])
      × ((s.child 0).got ≡ r1 ∷ r1' ∷ [])
      × (s.replies ≡ r2 ∷ [])
reply_stale v w w1 w2 m1 m2 r1 r1' r2 short1 short2 runs1 two runs2 one =
    let connected = next here accepts in
    let asked1 = next connected (sends 0 m1 the_client refl short1 room) in
    let to_server1 = next asked1 (forwards 0 m1 [] the_client refl refl) in
    let handled1 = next to_server1 (handles v m1 [] (r1 ∷ r1' ∷ []) w1 refl runs1 two) in
    let back1 = next handled1 (returns 0 r1 [] (r1' ∷ []) the_client refl refl) in
    let answer1 = next back1 (answers 0 r1 [] the_client refl refl) in
    let asked2 = next answer1 (sends 0 m2 the_client refl short2 room) in
    let to_server2 = next asked2 (forwards 0 m2 [] the_client refl refl) in
    let handled2 = next to_server2 (handles v m2 [] (r2 ∷ []) w2 refl runs2 one) in
    let back2 = next handled2 (returns 0 r1' [] (r2 ∷ []) the_client refl refl) in
    let answer2 = next back2 (answers 0 r1' [] the_client refl refl) in
    (_, answer2, refl, refl, refl)
