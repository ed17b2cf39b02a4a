-- ===== src/Relay.antt =====
-- serverIPC.c, between the clients and the data server: for each client a process that reads its
-- messages (the child) and one that forwards messages (the parent). All children and parents share one
-- message queue, one pipe and one connection to the data server.
pub mod OneClient
pub mod Swapped
pub mod Stale
use group_a_cs.Base.{
  ℕ, suc, ◌≤◌, ◌<◌, ◌≡◌, Bool, true, false, List, [], ◌∷◌, ◌++◌, Bytes, ◌==◌, if◌then◌else◌, length,
}
use group_a_cs.World.{Locals, World, done}
use group_a_cs.Server.{execute_task_on_server}

-- `MAX_MSG_SIZE` and `MAX_MESSAGES`.
abbrev pub max_msg_size : ℕ
max_msg_size = 1024

abbrev pub max_messages : ℕ
max_messages = 10

-- The child of a client: whether it waits for a reply, the messages that it has read from its client
-- and the replies that it has written to it.
pub record Child : Type 0 where
  pub waits : Bool
  pub asked : List Bytes
  pub got : List Bytes

abbrev pub new_child : Child
new_child = record { waits = false; asked = []; got = [] }

-- The queue, what is on the connection to the data server and back, the pipe, whether the parent of
-- a client waits for the data server, and the state of the data server.
pub record Relay : Type 0 where
  pub clients : ℕ
  pub child : ℕ → Child
  pub parent_waits : ℕ → Bool
  pub queue : List Bytes
  pub requests : List Bytes
  pub replies : List Bytes
  pub pipe : List Bytes
  pub server : World

abbrev pub set_at : {A : Type 0} → ℕ → A → (ℕ → A) → ℕ → A
set_at i a f j = if j == i then a else f j

abbrev pub asks : Bytes → Child → Child
asks m c = record { waits = true; asked = c.asked ++ m ∷ []; got = c.got }

abbrev pub gets : Bytes → Child → Child
gets r c = record { waits = false; asked = c.asked; got = c.got ++ r ∷ [] }

-- What one `read` gives of the replies that the data server has written in one stream.
abbrev pub read_together : Bytes → List Bytes → Bytes
read_together r [] = r
read_together r (r' ∷ more) = r ++ read_together r' more

-- One step of one process. A handler writes any number of replies, and the parent reads one, or several
-- that have come together.
pub data RelayStep (s : Relay) : Relay → Type 0 where
  accepts : RelayStep s (record s { clients = suc s.clients })
  sends :
      (i : ℕ) (m : Bytes)
      → i < s.clients
      → (s.child i).waits ≡ false
      → length m ≤ max_msg_size
      → length s.queue < max_messages
      → RelayStep s
          (record s { child = set_at i (asks m (s.child i)) s.child; queue = s.queue ++ m ∷ [] })
  -- `mq_send` fails, and the child waits for a reply all the same.
  fails_to_send :
      (i : ℕ) (m : Bytes)
      → i < s.clients
      → (s.child i).waits ≡ false
      → max_msg_size < length m
      → RelayStep s (record s { child = set_at i (asks m (s.child i)) s.child })
  forwards :
      (i : ℕ) (m : Bytes) (queue : List Bytes)
      → i < s.clients
      → s.parent_waits i ≡ false
      → s.queue ≡ m ∷ queue
      → RelayStep s (record s {
        parent_waits = set_at i true s.parent_waits;
        queue = queue;
        requests = s.requests ++ m ∷ [];
      })
  handles :
      (v : Locals) (m : Bytes) (requests : List Bytes) (rs : List Bytes) (w : World)
      → s.requests ≡ m ∷ requests
      → execute_task_on_server v m s.server ≡ done tt w
      → w.sent ≡ s.server.sent ++ rs
      → RelayStep s (record s { requests = requests; replies = s.replies ++ rs; server = w })
  returns :
      (i : ℕ) (r : Bytes) (more replies : List Bytes)
      → i < s.clients
      → s.parent_waits i ≡ true
      → s.replies ≡ r ∷ (more ++ replies)
      → RelayStep s (record s {
        parent_waits = set_at i false s.parent_waits;
        replies = replies;
        pipe = s.pipe ++ read_together r more ∷ [];
      })
  answers :
      (i : ℕ) (r : Bytes) (pipe : List Bytes)
      → i < s.clients
      → (s.child i).waits ≡ true
      → s.pipe ≡ r ∷ pipe
      → RelayStep s (record s { child = set_at i (gets r (s.child i)) s.child; pipe = pipe })

abbrev pub no_clients : World → Relay
no_clients w = record {
  clients = 0;
  child = λ i. new_child;
  parent_waits = λ i. false;
  queue = [];
  requests = [];
  replies = [];
  pipe = [];
  server = w;
}

pub data RelayReach (w : World) : Relay → Type 0 where
  here : RelayReach w (no_clients w)
  next : {s s' : Relay} → RelayReach w s → RelayStep s s' → RelayReach w s'

-- Each message that was handled in these steps was answered with one reply.
abbrev pub IsAnswered : {s s' : Relay} → RelayStep s s' → Type 0
IsAnswered accepts = Unit
IsAnswered (sends i m c idle short room) = Unit
IsAnswered (fails_to_send i m c idle long) = Unit
IsAnswered (forwards i m queue c free_parent first) = Unit
IsAnswered (handles v m requests rs w first runs sent) = length rs ≡ 1
IsAnswered (returns i r more replies c busy first) = Unit
IsAnswered (answers i r pipe c waits first) = Unit

abbrev pub AreAnswered : {w : World} {s : Relay} → RelayReach w s → Type 0
AreAnswered here = Unit
AreAnswered (next r st) = AreAnswered r × IsAnswered st

-- The replies of the data server to messages that one client sends it directly.
pub data Answers (w : World) : List Bytes → List Bytes → World → Type 0 where
  no_message : Answers w [] [] w
  message :
      {ms rs : List Bytes} {w' : World} (v : Locals) (m : Bytes) (rs' : List Bytes) (w'' : World)
      → Answers w ms rs w'
      → execute_task_on_server v m w' ≡ done tt w''
      → w''.sent ≡ w'.sent ++ rs'
      → Answers w (ms ++ m ∷ []) (rs ++ rs') w''
