-- ===== src/Concurrent/Branches.antt =====
-- Roden.c, the sections of `writeNewClientData`, `validateID` and `viewProducts`, which depend on the
-- message or on the files.
use group_a_cs.Base.{
  ◌≡◌, refl, sym, codes, if◌then◌else◌, List, [], ◌∷◌, Bytes, Bool, true, false, append-nil,
}
use group_a_cs.Base.Int.{ℤ}
use group_a_cs.Tables.{ProductInfo}
use group_a_cs.World.{
  Table, buyer, seller, product, billing, order, Locals, M, ◌>>=◌, pure, text_token, write_socket,
  begin_read, end_read,
}
use group_a_cs.Validate.{validate_id, validate_in}
use group_a_cs.Catalog.{send_products, view_products}
use group_a_cs.Libc.{strstr}
use group_a_cs.Clients.{NewClient, new_client_tokens, write_new_client_data}
use group_a_cs.Server.{reply_result}
use group_a_cs.Concurrent.Alone.{begin_read-alone, end_read-alone}
use group_a_cs.Concurrent.Commands.{
  Request, sections_of, new_buyer, new_seller, validate, view_products as view_request,
}
use group_a_cs.Concurrent.Quiet.{Quiet, Any, quiet_calls, then-Quiet, pure-Quiet, text_token-Quiet}
use group_a_cs.Concurrent.Runs.{Part, enter, leave, Runs, branch-Runs}
use group_a_cs.Concurrent.Calls.{handler_runs}
use group_a_cs.Concurrent.Handlers.{RunsRequest}
use group_a_cs.Concurrent.Answers.{
  RunsBy, reader_by, load_by, calls_by, write_socket-RunsBy, Loads, load_buyers-Loads,
  load_sellers-Loads, load_products-Loads, load_billing-Loads, load_orders-Loads,
  validate_in-RunsBy, again,
}
use group_a_cs.Concurrent.Choices.Answered.{answer_among}
use group_a_cs.Concurrent.Choices.{
  RunsAmong, any_among, either_among, assoc_among, by_among, if-RunsAmong, request_among,
  nothing_among,
}
use group_a_cs.Concurrent.Choices.Tokens.{
  with_token, IsRead, text_token-Read, text_among, int_among, read_among, if_then,
}

-- The requests that a new client can be: the type is the first token.
abbrev pub client_requests : Bytes × Bytes → List (List Request)
client_requests t =
    if strstr t.0 (codes "[BUYER]") then (new_buyer ∷ []) ∷ [] else (new_seller ∷ []) ∷ []

abbrev pub new_client_requests : Bytes → List (List Request)
new_client_requests buffer = with_token buffer client_requests

-- The two requests of an id in a file: it is there or not.
abbrev pub either_answer : Table → List (List Request)
either_answer t = (validate t true ∷ []) ∷ (validate t false ∷ []) ∷ []

-- Those of an id: the file is named by the token behind it.
abbrev pub file_requests : Bytes × Bytes → List (List Request)
file_requests db =
    if strstr db.0 (codes "[BUYER]")
    then either_answer buyer
    else if strstr db.0 (codes "[SELLER]")
    then either_answer seller
    else if strstr db.0 (codes "[PRODUCT]")
    then either_answer product
    else if strstr db.0 (codes "[BILLING]")
    then either_answer billing
    else if strstr db.0 (codes "[ORDER]")
    then either_answer order
    else [] ∷ []

abbrev pub validate_requests : Bytes → List (List Request)
validate_requests buffer = with_token buffer (λ id. with_token id.1 file_requests)

pub reply_result-Runs : (b : Bool) → Runs [] (reply_result b)
reply_result-Runs b = search (handler_runs, branch-Runs) depth 10

answer_requests :
    (t : Table) (m : M Bool)
    → RunsBy (λ b. enter t ∷ leave t ∷ again t b) m
    → RunsAmong (either_answer t) (m >>= reply_result)
answer_requests t m h =
    answer_among t (validate t) (λ b. []) (λ b. sym (append-nil (sections_of (validate t b)))) m
      reply_result h reply_result-Runs

ruleset table_loads = (
  load_buyers-Loads, load_sellers-Loads, load_products-Loads, load_billing-Loads, load_orders-Loads,
)

-- The parts of a handler that reads a file and replies.
abbrev Shows : List Part → M (Unit {0}) → Type 0
Shows ps m = RunsBy (λ _. ps) m

module _ (ps : List Part) where
  shown_enter :
      (t : Table) (f : Unit {0} → M (Unit {0}))
      → Shows ps (f tt)
      → Shows (enter t ∷ ps) (begin_read t >>= f)
  shown_enter t f h = reader_by (λ _. ps) tt (enter t) (begin_read t) f (begin_read-alone t []) h

  shown_leave :
      (t : Table) (f : Unit {0} → M (Unit {0}))
      → Shows ps (f tt)
      → Shows (leave t ∷ ps) (end_read t >>= f)
  shown_leave t f h = reader_by (λ _. ps) tt (leave t) (end_read t) f (end_read-alone t []) h

  shown_load :
      {A : Type 0} (load : M (Bool × List A)) (f : Bool × List A → M (Unit {0}))
      → Loads load
      → ((rows : List A) → Shows ps (f (true, rows)))
      → Shows ps (load >>= f)
  shown_load load f h k = load_by (λ _. ps) load f h k

  shown_call :
      {A : Type 0} (m : M A) (f : A → M (Unit {0}))
      → Quiet Any m
      → ((a : A) → Shows ps (f a))
      → Shows ps (m >>= f)
  shown_call m f h k = calls_by (λ _. ps) Any m f h (λ a u. k a)

shown_reply : (reply : Bytes) → Shows [] (write_socket reply)
shown_reply reply = write_socket-RunsBy reply

module _ (v : Locals) where
  new_client_tokens-Read :
      (buffer : Bytes)
      → Quiet
          (λ (c : NewClient). (t : Bytes × Bytes) × IsRead buffer t × (c.client_type ≡ t.0))
          (new_client_tokens buffer)
  unfolding new_client_tokens
  new_client_tokens-Read buffer =
      let R : NewClient → Type 0 =
        λ (c : NewClient). (t : Bytes × Bytes) × IsRead buffer t × (c.client_type ≡ t.0) in
      then-Quiet (IsRead buffer) R _ _ (text_token-Read 25 buffer) (λ t e. rest R _ t.1 (λ first.
        rest R _ first.1 (λ last. rest R _ last.1 (λ phone. rest R _ phone.1 (λ street.
          rest R _ street.1 (λ city.
            rest R _ city.1 (λ state. rest R _ state.1 (λ zip. pure-Quiet R _ (t, e, refl)))))))))
    where
      rest :
          (R : NewClient → Type 0) (f : Bytes × Bytes → M NewClient) (s : Bytes)
          → ((t : Bytes × Bytes) → Quiet R (f t))
          → Quiet R (text_token 25 s >>= f)
      rest R f s h = then-Quiet Any R _ f (text_token-Quiet 25 s) (λ t u. h t)

  new_client_chosen :
      (is_buyer : Bool) (m m' : M (Unit {0}))
      → RunsRequest new_buyer m
      → RunsRequest new_seller m'
      → RunsAmong
          (if is_buyer then (new_buyer ∷ []) ∷ [] else (new_seller ∷ []) ∷ [])
          (if is_buyer then m else m')
  new_client_chosen is_buyer m m' h h' =
      if-RunsAmong is_buyer _ _ m m' (request_among new_buyer m h) (request_among new_seller m' h')

  pub write_new_client_data-RunsAmong :
      (buffer : Bytes) → RunsAmong (new_client_requests buffer) (write_new_client_data v buffer)
  unfolding write_new_client_data
  write_new_client_data-RunsAmong buffer =
      read_among buffer client_requests NewClient.client_type _ _ (new_client_tokens-Read buffer)
        (λ c r. search (new_client_chosen, handler_runs) depth 40)

  validated :
      {A : Type 0} (t : Table) (key id_of : A → ℤ) (id : ℤ) (load : M (Bool × List A))
      → Loads load
      → RunsAmong (either_answer t) (validate_in t key id_of id load >>= reply_result)
  validated t key id_of id load h = answer_requests t _ (validate_in-RunsBy t key id_of id load h)

  not_validated : RunsAmong ([] ∷ []) (pure false >>= reply_result)
  not_validated = nothing_among _ (search (handler_runs, reply_result-Runs))

  pub validate_id-RunsAmong :
      (buffer : Bytes)
      → RunsAmong (validate_requests buffer) (validate_id v buffer >>= reply_result)
  unfolding validate_id
  validate_id-RunsAmong buffer =
      search (assoc_among, int_among, text_among, if_then, validated, not_validated, table_loads)
        depth 40

  send_products-RunsBy :
      (stop : ProductInfo → Bool)
      → Shows (enter product ∷ leave product ∷ []) (send_products v stop)
  unfolding send_products
  send_products-RunsBy stop =
      search
        (shown_enter, shown_load, shown_call, shown_leave, shown_reply, quiet_calls, table_loads)
        depth 20

  pub view_products-RunsAmong :
      (buffer : Bytes) → RunsAmong ((view_request true ∷ []) ∷ []) (view_products v buffer)
  unfolding view_products
  view_products-RunsAmong buffer =
      search (any_among, quiet_calls, either_among, by_among, send_products-RunsBy) depth 20
