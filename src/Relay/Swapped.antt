-- ===== src/Relay/Swapped.antt =====
-- With two clients a reply can reach the wrong one.
use group_a_cs.Base.{◌≤◌, ◌<◌, ◌≡◌, refl, [], ◌∷◌, ◌++◌, Bytes, length, arith}
use group_a_cs.World.{Locals, World, done}
use group_a_cs.Server.{execute_task_on_server}
use group_a_cs.Relay.{
  Relay, accepts, sends, forwards, handles, returns, answers, RelayReach, here, next, max_msg_size,
  max_messages,
}

first_client : 0 < 2
first_client = omega arith

room : 0 < max_messages
room = omega arith

room_for_another : 1 < max_messages
room_for_another = omega arith

second_client : 1 < 2
second_client = omega arith

-- Two clients each send a message, and the data server answers both with one reply: the relay can give
-- each client the reply to the other one's message.
pub replies_swapped :
    (v : Locals) (w w1 w2 : World) (m1 m2 r1 r2 : Bytes)
    → length m1 ≤ max_msg_size
    → length m2 ≤ max_msg_size
    → execute_task_on_server v m1 w ≡ done tt w1
    → w1.sent ≡ w.sent ++ r1 ∷ []
    → execute_task_on_server v m2 w1 ≡ done tt w2
    → w2.sent ≡ w1.sent ++ r2 ∷ []
    → (s : Relay) × RelayReach w s
      × ((s.child 0).asked ≡ m1 ∷ [])
      × ((s.child 1).asked ≡ m2 ∷ [])
      × ((s.child 0).got ≡ r2 ∷ [])
      × ((s.child 1).got ≡ r1 ∷ [])
replies_swapped v w w1 w2 m1 m2 r1 r2 short1 short2 runs1 one1 runs2 one2 =
    let connected = next (next here accepts) accepts in
    let asked1 = next connected (sends 0 m1 first_client refl short1 room) in
    let asked2 = next asked1 (sends 1 m2 second_client refl short2 room_for_another) in
    let to_server1 = next asked2 (forwards 0 m1 (m2 ∷ []) first_client refl refl) in
    let to_server2 = next to_server1 (forwards 1 m2 [] second_client refl refl) in
    let handled1 = next to_server2 (handles v m1 (m2 ∷ []) (r1 ∷ []) w1 refl runs1 one1) in
    let handled2 = next handled1 (handles v m2 [] (r2 ∷ []) w2 refl runs2 one2) in
    let back1 = next handled2 (returns 0 r1 [] (r2 ∷ []) first_client refl refl) in
    let back2 = next back1 (returns 1 r2 [] [] second_client refl refl) in
    let answer1 = next back2 (answers 1 r1 (r2 ∷ []) second_client refl refl) in
    let answer2 = next answer1 (answers 0 r2 [] first_client refl refl) in
    (_, answer2, refl, refl, refl, refl)
