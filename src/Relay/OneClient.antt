-- ===== src/Relay/OneClient.antt =====
-- With one client the relay is not seen.
use group_a_cs.Base.{
  zero, suc, ◌+◌, ◌≤◌, ◌≡◌, refl, sym, ap, ◌∙◌, subst, true, false, List, [], ◌∷◌, ◌++◌, Bytes,
  if◌then◌else◌, length, length-append, append_assoc, append-nil, arith,
}
use group_a_cs.World.{Locals, World, done}
use group_a_cs.Server.{execute_task_on_server}
use group_a_cs.Relay.{
  Relay, set_at, asks, gets, RelayStep, accepts, sends, fails_to_send, forwards, handles, returns,
  answers, RelayReach, here, next, IsAnswered, AreAnswered, Answers, no_message, message,
}

-- All the messages of the client are handled, or on their way to the data server in order, or lost in
-- `mq_send`; the replies it has got and those on their way back are the answers to the handled ones;
-- and one message or reply is on its way while the child waits, none while it does not.
pub record OneClient (w : World) (s : Relay) : Type 0 where
  pub handled : List Bytes
  pub lost : List Bytes
  pub in_order : (s.child 0).asked ≡ handled ++ (s.requests ++ (s.queue ++ lost))
  pub answered : Answers w handled ((s.child 0).got ++ (s.pipe ++ s.replies)) s.server
  pub one :
      length s.queue + length s.requests + length s.replies + length s.pipe + length lost
      ≡ (if (s.child 0).waits then 1 else 0)
  pub held : length s.requests + length s.replies ≡ (if s.parent_waits 0 then 1 else 0)

no_items : {A : Type 0} (xs : List A) → length xs ≡ 0 → xs ≡ []
no_items [] h = refl
no_items (x ∷ xs) h = absurd (omega (arith, h))

move_first : {A : Type 0} (a b c : List A) (x : A) → a ++ (b ++ x ∷ c) ≡ a ++ ((b ++ x ∷ []) ++ c)
move_first a b c x = ap (λ l. a ++ l) (sym (append_assoc b (x ∷ []) c))

module _ {w : World} {s : Relay} (o : OneClient w s) where
  -- While the child does not wait, nothing is on its way and every message is handled.
  all_handled :
      (s.child 0).waits ≡ false
      → (s.queue ≡ [])
        × (s.requests ≡ [])
        × (s.replies ≡ [])
        × (s.pipe ≡ [])
        × (o.lost ≡ [])
        × ((s.child 0).asked ≡ o.handled)
  all_handled idle =
      let q = no_items s.queue (ground (arith, idle, o.one)) in
      let rq = no_items s.requests (ground (arith, idle, o.one)) in
      let l = no_items o.lost (ground (arith, idle, o.one)) in
      (
        q,
        rq,
        no_items s.replies (ground (arith, idle, o.one)),
        no_items s.pipe (ground (arith, idle, o.one)),
        l,
        o.in_order ∙ (λ i. o.handled ++ (rq i ++ (q i ++ l i))) ∙ append-nil o.handled,
      )

  sends-OneClient :
      (m : Bytes)
      → (s.child 0).waits ≡ false
      → OneClient w
          (record s { child = set_at 0 (asks m (s.child 0)) s.child; queue = s.queue ++ m ∷ [] })
  sends-OneClient m idle = record {
    handled = o.handled;
    lost = [];
    in_order =
        let (q, rq, _, _, _, a) = all_handled idle in
        ap (λ l. l ++ m ∷ []) a ∙ sym (λ i. o.handled ++ (rq i ++ ((q i ++ m ∷ []) ++ [])));
    answered = o.answered;
    one = ground (arith, idle, o.one, length-append s.queue (m ∷ []));
    held = o.held;
  }

  fails_to_send-OneClient :
      (m : Bytes)
      → (s.child 0).waits ≡ false
      → OneClient w (record s { child = set_at 0 (asks m (s.child 0)) s.child })
  fails_to_send-OneClient m idle = record {
    handled = o.handled;
    lost = m ∷ [];
    in_order =
        let (q, rq, _, _, _, a) = all_handled idle in
        ap (λ l. l ++ m ∷ []) a ∙ sym (λ i. o.handled ++ (rq i ++ (q i ++ m ∷ [])));
    answered = o.answered;
    one = ground (arith, idle, o.one);
    held = o.held;
  }

  forwards-OneClient :
      (m : Bytes) (queue : List Bytes)
      → s.parent_waits 0 ≡ false
      → s.queue ≡ m ∷ queue
      → OneClient w (record s {
        parent_waits = set_at 0 true s.parent_waits;
        queue = queue;
        requests = s.requests ++ m ∷ [];
      })
  forwards-OneClient m queue free_parent first = record {
    handled = o.handled;
    lost = o.lost;
    in_order =
        o.in_order
        ∙ (λ i. o.handled ++ (s.requests ++ (first i ++ o.lost)))
        ∙ move_first o.handled s.requests (queue ++ o.lost) m;
    answered = o.answered;
    one = ground (arith, ap length first, o.one, length-append s.requests (m ∷ []));
    held = ground (arith, free_parent, o.held, length-append s.requests (m ∷ []));
  }

  handles-OneClient :
      (v : Locals) (m : Bytes) (requests rs : List Bytes) (w' : World)
      → s.requests ≡ m ∷ requests
      → execute_task_on_server v m s.server ≡ done tt w'
      → w'.sent ≡ s.server.sent ++ rs
      → length rs ≡ 1
      → OneClient w (record s { requests = requests; replies = s.replies ++ rs; server = w' })
  handles-OneClient v m requests rs w' first runs sent one_reply = record {
    handled = o.handled ++ m ∷ [];
    lost = o.lost;
    in_order =
        o.in_order
        ∙ (λ i. o.handled ++ (first i ++ (s.queue ++ o.lost)))
        ∙ sym (append_assoc o.handled (m ∷ []) (requests ++ (s.queue ++ o.lost)));
    answered =
        subst (λ l. Answers w (o.handled ++ m ∷ []) l w')
          (append_assoc (s.child 0).got (s.pipe ++ s.replies) rs
            ∙ ap (λ l. (s.child 0).got ++ l) (append_assoc s.pipe s.replies rs))
          (message v m rs w' o.answered runs sent);
    one = ground (arith, ap length first, o.one, one_reply, length-append s.replies rs);
    held = ground (arith, ap length first, o.held, one_reply, length-append s.replies rs);
  }

  returns-OneClient :
      (r : Bytes) (replies : List Bytes)
      → s.parent_waits 0 ≡ true
      → s.replies ≡ r ∷ replies
      → OneClient w (record s {
        parent_waits = set_at 0 false s.parent_waits;
        replies = replies;
        pipe = s.pipe ++ r ∷ [];
      })
  returns-OneClient r replies busy first = record {
    handled = o.handled;
    lost = o.lost;
    in_order = o.in_order;
    answered =
        subst (λ rs. Answers w o.handled rs s.server)
          ((λ i. (s.child 0).got ++ (s.pipe ++ first i))
            ∙ move_first (s.child 0).got s.pipe replies r)
          o.answered;
    one = ground (arith, ap length first, o.one, length-append s.pipe (r ∷ []));
    held = ground (arith, busy, ap length first, o.held);
  }

  answers-OneClient :
      (r : Bytes) (pipe : List Bytes)
      → (s.child 0).waits ≡ true
      → s.pipe ≡ r ∷ pipe
      → OneClient w (record s { child = set_at 0 (gets r (s.child 0)) s.child; pipe = pipe })
  answers-OneClient r pipe waits first = record {
    handled = o.handled;
    lost = o.lost;
    in_order = o.in_order;
    answered =
        subst (λ rs. Answers w o.handled rs s.server)
          ((λ i. (s.child 0).got ++ (first i ++ s.replies))
            ∙ sym (append_assoc (s.child 0).got (r ∷ []) (pipe ++ s.replies)))
          o.answered;
    one = ground (arith, waits, ap length first, o.one);
    held = o.held;
  }

RelayStep-OneClient :
    {w : World} {s s' : Relay} (st : RelayStep s s')
    → IsAnswered st
    → s.clients ≤ 1
    → OneClient w s
    → OneClient w s'
RelayStep-OneClient accepts a few o = record {
  handled = o.handled;
  lost = o.lost;
  in_order = o.in_order;
  answered = o.answered;
  one = o.one;
  held = o.held;
}
RelayStep-OneClient (sends zero m c idle short room) a few o = sends-OneClient o m idle
RelayStep-OneClient (fails_to_send zero m c idle long) a few o = fails_to_send-OneClient o m idle
RelayStep-OneClient (forwards zero m queue c free_parent first) a few o =
    forwards-OneClient o m queue free_parent first
RelayStep-OneClient (handles v m requests rs w' first runs sent) a few o =
    handles-OneClient o v m requests rs w' first runs sent a
RelayStep-OneClient (returns zero r [] replies c busy first) a few o =
    returns-OneClient o r replies busy first
RelayStep-OneClient (returns zero r (r' ∷ more) replies c busy first) a few o =
    absurd (ground (arith, ap length first, o.one, length-append more replies))
RelayStep-OneClient (answers zero r pipe c waits first) a few o =
    answers-OneClient o r pipe waits first
RelayStep-OneClient (sends (suc i) m c idle short room) a few o = absurd (omega (arith, c, few))
RelayStep-OneClient (fails_to_send (suc i) m c idle long) a few o = absurd (omega (arith, c, few))
RelayStep-OneClient (forwards (suc i) m queue c free_parent first) a few o =
    absurd (omega (arith, c, few))
RelayStep-OneClient (returns (suc i) r more replies c busy first) a few o =
    absurd (omega (arith, c, few))
RelayStep-OneClient (answers (suc i) r pipe c waits first) a few o = absurd (omega (arith, c, few))

clients_only_come : {s s' : Relay} → RelayStep s s' → s.clients ≤ s'.clients
clients_only_come accepts = omega arith
clients_only_come (sends i m c idle short room) = omega arith
clients_only_come (fails_to_send i m c idle long) = omega arith
clients_only_come (forwards i m queue c free_parent first) = omega arith
clients_only_come (handles v m requests rs w first runs sent) = omega arith
clients_only_come (returns i r more replies c busy first) = omega arith
clients_only_come (answers i r pipe c waits first) = omega arith

RelayReach-OneClient :
    {w : World} {s : Relay} (r : RelayReach w s) → AreAnswered r → s.clients ≤ 1 → OneClient w s
RelayReach-OneClient {w} here a few = record {
  handled = [];
  lost = [];
  in_order = refl;
  answered = no_message;
  one = refl;
  held = refl;
}
RelayReach-OneClient (next {s} r st) a few =
    let few_before : s.clients ≤ 1 = omega (arith, few, clients_only_come st) in
    RelayStep-OneClient st a.1 few_before (RelayReach-OneClient r a.0 few_before)

-- With at most one client, and where each message that the data server has handled was answered with
-- one reply, in every state that the relay, its client and the data server reach, in whatever order
-- they take their steps: when the child does not wait, the replies that the client has got are those
-- that the data server, asked directly, gives to the messages that the client has sent, in their
-- order, and the data server is in the state that they lead to.
pub one_client_answered :
    {w : World} {s : Relay} (r : RelayReach w s)
    → AreAnswered r
    → s.clients ≤ 1
    → (s.child 0).waits ≡ false
    → Answers w (s.child 0).asked (s.child 0).got s.server
one_client_answered {w} {s} r a few idle =
    let o = RelayReach-OneClient r a few in
    let (q, rq, rp, p, l, same) = all_handled o idle in
    subst (λ ms. Answers w ms (s.child 0).got s.server) (sym same)
      (subst (λ rs. Answers w o.handled rs s.server)
        ((λ i. (s.child 0).got ++ (p i ++ rp i)) ∙ append-nil (s.child 0).got) o.answered)
