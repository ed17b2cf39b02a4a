-- ===== src/Concurrent/Changes.antt =====
-- Roden.c, the sections of `deleteProduct`, `modifyQuantity` and `modifyPrice`, which depend on the answer
-- of `validateID`.
use group_a_cs.Base.{
  ℕ, ◌≡◌, refl, inl, Option, none, some, List, [], ◌∷◌, ◌++◌, Bytes, codes, Bool, true, false,
  if◌then◌else◌, arith,
}
use group_a_cs.Base.Int.{ℤ}
use group_a_cs.Libc.{strstr, is_prefix, skip_commas, take_token, strcpy, atoi, strtok}
use group_a_cs.Libc.Tokens.{strtok-append}
use group_a_cs.Tables.{ProductInfo}
use group_a_cs.World.{
  load_products, product, Locals, World, M, done, ◌>>=◌, lift, token, int_token, text_token,
}
use group_a_cs.World.Rows.{first_free, modify_row}
use group_a_cs.Validate.{validate_id}
use group_a_cs.Catalog.{
  owner_tokens, delete_product, modify_product, modify_quantity, modify_price, note_deleted,
}
use group_a_cs.Concurrent.{writing}
use group_a_cs.Concurrent.Commands.{
  Request, sections_of, change_sections, delete_prod, mod_quant, mod_price,
}
use group_a_cs.Concurrent.Quiet.{
  Quiet, Any, IsToken, then-Quiet, token-Quiet, call-Quiet, pure-Quiet, lift-Quiet, int_token-Quiet,
}
use group_a_cs.Concurrent.Runs.{enter, leave, wait, post, Agrees, Runs, branch-Runs}
use group_a_cs.Concurrent.Calls.{handler_runs}
use group_a_cs.Concurrent.Handlers.{sections_parts}
use group_a_cs.Concurrent.Answers.{RunsBy, calls_by, load_products-Loads, validate_in-RunsBy, again}
use group_a_cs.Concurrent.Choices.Answered.{answer_among}
use group_a_cs.Concurrent.Choices.{RunsAmong, quiet_among}

-- The product is there, or not.
abbrev pub change_requests : (Bool → Request) → List (List Request)
change_requests r = (r true ∷ []) ∷ (r false ∷ []) ∷ []

-- The question that `deleteProduct`, `modifyQuantity` and `modifyPrice` put to `validateID`.
IsQuestion : Bytes → Type 0
IsQuestion q = (t : Bytes) × IsToken t × (q ≡ t ++ codes ",[PRODUCT],")

owner_tokens-Quiet :
    (buffer : Bytes) → Quiet (λ (a : ℤ × ℤ × Bytes × Bytes). IsQuestion a.2) (owner_tokens buffer)
unfolding owner_tokens IsQuestion
owner_tokens-Quiet buffer =
    then-Quiet Any _ (int_token buffer) _ (int_token-Quiet buffer) (λ seller u.
      then-Quiet (λ (t : Bytes × Bytes). IsToken t.0) _ (token seller.1) _ (token-Quiet seller.1)
        (λ t token.
          then-Quiet (λ q. q ≡ t.0 ++ codes ",[PRODUCT],") _
            (lift (strcpy 20 (t.0 ++ codes ",[PRODUCT],"))) _
            (lift-Quiet _ _ (λ q e. ground (arith, e)))
            (λ q is.
              then-Quiet Any _ (lift (atoi t.0)) _ (call-Quiet _)
                (λ id u. pure-Quiet _ _ (t.0, token, is)))))

module _ (t : Bytes) (is_token : IsToken t) where
  question : Bytes
  question = t ++ codes ",[PRODUCT],"

  question-id : Quiet (λ (id : ℤ × Bytes). id.1 ≡ codes "[PRODUCT],") (int_token question)
  unfolding question
  question-id =
      then-Quiet (λ (x : Bytes × Bytes). x.1 ≡ codes "[PRODUCT],") _ (token question) _
        (lift-Quiet _ (strtok question) (λ x e.
          let found = strtok-append t (codes "[PRODUCT],") is_token.not_empty is_token.no_comma in
          ground (arith, e, found)))
        (λ x is. then-Quiet Any _ (lift (atoi x.0)) _ (call-Quiet _) (λ n u. pure-Quiet _ _ is))

  question-db :
      (s : Bytes)
      → s ≡ codes "[PRODUCT],"
      → Quiet (λ (db : Bytes × Bytes). db.0 ≡ codes "[PRODUCT]") (text_token 20 s)
  unfolding strtok skip_commas take_token Quiet
  question-db s is w = inl ((codes "[PRODUCT]", []), refl, rw is refl)

  question-RunsBy :
      (v : Locals)
      → RunsBy (λ b. enter product ∷ leave product ∷ again product b) (validate_id v question)
  unfolding validate_id strstr is_prefix
  question-RunsBy v =
      calls_by _ (λ (id : ℤ × Bytes). id.1 ≡ codes "[PRODUCT],") (int_token question) _ question-id
        (λ id of_product.
          calls_by _ (λ (db : Bytes × Bytes). db.0 ≡ codes "[PRODUCT]") (text_token 20 id.1) _
            (question-db id.1 of_product)
            (λ db is_product. rw is_product (
              validate_in-RunsBy product ProductInfo.product_id ProductInfo.product_id id.0
                (load_products v.product_list) (load_products-Loads v.product_list))))

ruleset change_rules = (handler_runs, branch-Runs)

-- The list of deleted products is no semaphore.
noted :
    (w : World) (o : Option ℕ) (f : ℕ → Option (List ℤ))
    → Agrees
        (some w.locks)
        ((lift o >>= λ i. lift (f i) >>= λ l w'. done tt (record w' { deleted_products = l })) w)
noted w none f = tt
noted w (some i) f = kept (f i)
  where
    kept :
        (o : Option (List ℤ))
        → Agrees
            (some w.locks)
            ((lift o >>= λ l w'. done tt (record w' { deleted_products = l })) w)
    kept none = tt
    kept (some l) = refl

module _ (v : Locals) where
  note_deleted-Runs : (id : ℤ) → Runs [] (note_deleted id)
  unfolding note_deleted Runs
  note_deleted-Runs id w =
      noted w (first_free (λ n. n) w.deleted_products)
        (λ i. modify_row i (λ old. some id) w.deleted_products)

  known-RunsBy :
      (q : Bytes)
      → IsQuestion q
      → RunsBy (λ b. enter product ∷ leave product ∷ again product b) (validate_id v q)
  unfolding IsQuestion question
  known-RunsBy q (t, token, is) = rw is (question-RunsBy t token v)

  changes :
      (r : Bool → Request) (q : Bytes) (f : Bool → M (Unit {0}))
      → ((b : Bool) → sections_of (r b) ≡ change_sections b)
      → IsQuestion q
      → Runs (wait product ∷ post product ∷ []) (f true)
      → Runs [] (f false)
      → RunsAmong (change_requests r) (validate_id v q >>= f)
  changes r q f split asks h h' =
      answer_among product r (λ b. if b then writing (product ∷ []) ∷ [] else []) split
        (validate_id v q) f (known-RunsBy q asks) (by_answer f h h')
    where
      by_answer :
          (f : Bool → M (Unit {0}))
          → Runs (wait product ∷ post product ∷ []) (f true)
          → Runs [] (f false)
          → (b : Bool) → Runs (sections_parts (if b then writing (product ∷ []) ∷ [] else [])) (f b)
      by_answer f h h' true = h
      by_answer f h h' false = h'

  pub delete_product-RunsAmong :
      (buffer : Bytes) → RunsAmong (change_requests delete_prod) (delete_product v buffer)
  unfolding delete_product
  delete_product-RunsAmong buffer =
      quiet_among _ (λ (a : ℤ × ℤ × Bytes × Bytes). IsQuestion a.2) (owner_tokens buffer) _
        (owner_tokens-Quiet buffer)
        (λ a asks.
          changes delete_prod a.2 _ (λ b. refl) asks
            (search (change_rules, note_deleted-Runs) depth 40) (search (change_rules)))

  modify_product-RunsAmong :
      (r : Bool → Request) (set_field : ℤ → ProductInfo → ProductInfo) (buffer : Bytes)
      → ((b : Bool) → sections_of (r b) ≡ change_sections b)
      → RunsAmong (change_requests r) (modify_product v set_field buffer)
  unfolding modify_product
  modify_product-RunsAmong r set_field buffer split =
      quiet_among _ (λ (a : ℤ × ℤ × Bytes × Bytes). IsQuestion a.2) (owner_tokens buffer) _
        (owner_tokens-Quiet buffer)
        (λ a asks. quiet_among _ Any (int_token a.3) _ (int_token-Quiet a.3) (λ value u.
          changes r a.2 _ split asks (search (change_rules) depth 40) (search (change_rules))))

  pub modify_quantity-RunsAmong :
      (buffer : Bytes) → RunsAmong (change_requests mod_quant) (modify_quantity v buffer)
  unfolding modify_quantity
  modify_quantity-RunsAmong buffer = modify_product-RunsAmong mod_quant _ buffer (λ b. refl)

  pub modify_price-RunsAmong :
      (buffer : Bytes) → RunsAmong (change_requests mod_price) (modify_price v buffer)
  unfolding modify_price
  modify_price-RunsAmong buffer = modify_product-RunsAmong mod_price _ buffer (λ b. refl)
