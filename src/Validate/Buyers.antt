-- ===== src/Validate/Buyers.antt =====
-- `validateID` on the table of buyers, for a message that the server has got.
use group_a_cs.Base.{
  ◌≡◌, true, false, Bool, List, ◌++◌, Bytes, codes, if◌then◌else◌, Bool-cases, inl, inr,
}
use group_a_cs.Base.Int.{ℤ, negsuc, eq_ℤ}
use group_a_cs.Libc.{strtok, strstr}
use group_a_cs.Libc.Tokens.{strtok-append}
use group_a_cs.Tables.{ClientInfo, load_client_info}
use group_a_cs.World.{
  buyer, free, all_free, Locals, Files, World, done, quiet, begin_read, end_read, load_buyers,
}
use group_a_cs.World.Rows.Prefix.{any, any_row-append, Loaded}
use group_a_cs.Catalog.Request.{IsNumber}
use group_a_cs.Validate.{validate_in, validate_id}

-- The state in which a reader of the buyers has left twice and entered once.
abbrev pub buyers_left_twice : Files → List ℤ → List Bytes → World
buyers_left_twice files deleted sent = record (quiet files deleted sent) {
  locks = record all_free { customer_info = record free { readers = negsuc 0 } };
}

abbrev pub has_uuid : ℤ → ClientInfo → Bool
has_uuid id r = eq_ℤ r.uuid id

module _ (v : Locals) (files : Files) (deleted : List ℤ) (sent : List Bytes)
    (rows : List ClientInfo) (z : ClientInfo) (rest : List ClientInfo)
    (loads : Loaded ClientInfo.uuid
      (load_client_info files.customer_info v.client_db)
      rows
      z
      rest) where
  validate_in-buyer :
      (id : ℤ)
      → validate_in buyer ClientInfo.uuid ClientInfo.uuid id
          (load_buyers v.client_db)
          (quiet files deleted sent)
        ≡ (if any (has_uuid id) rows
            then done true (quiet files deleted sent)
            else done false (buyers_left_twice files deleted sent))
  unfolding validate_in begin_read end_read
  validate_in-buyer id =
      let found = any_row-append ClientInfo.uuid (has_uuid id) rows z rest loads.used loads.ended in
      elim (Bool-cases (any (has_uuid id) rows)) [
        | inl e ↦ rw loads.loaded (rw found (rw e))
        | inr e ↦ rw loads.loaded (rw found (rw e))
      ]

  pub validate_id-buyer :
      (typed : Bytes) (id : ℤ)
      → IsNumber typed id
      → validate_id v (typed ++ codes ",[BUYER],\n") (quiet files deleted sent) ≡ (
          if any (has_uuid id) rows
          then done true (quiet files deleted sent)
          else done false (buyers_left_twice files deleted sent))
  unfolding validate_id strtok strstr
  validate_id-buyer typed id number =
      rw (strtok-append typed (codes "[BUYER],\n") number.field.not_empty number.field.no_comma)
        (rw number.value (validate_in-buyer id))
