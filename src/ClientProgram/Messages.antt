-- ===== src/ClientProgram/Messages.antt =====
-- What the messages of client.c hold.
use group_a_cs.Base.{
  ℕ, suc, ◌<◌, ◌≡◌, ◌∙◌, sym, ap, none, some, List, [], ◌∷◌, ◌++◌, Bytes, length, length-append,
  append_assoc, append-nil, arith, ltb-true,
}
use group_a_cs.ClientProgram.{
  strcats, buffer_size, modify_order, add_new_product, delete_product, modify_quantity,
  modify_price,
}

abbrev pub concat : List Bytes → Bytes
concat [] = []
concat (s ∷ ss) = s ++ concat ss

-- Texts that fit the buffer stand in it one behind the other.
pub strcats-concat :
    (ss : List Bytes) (buffer : Bytes)
    → length (buffer ++ concat ss) < buffer_size
    → strcats buffer ss ≡ some (buffer ++ concat ss)
unfolding strcats
strcats-concat [] buffer h = ap some (sym (append-nil buffer))
strcats-concat (s ∷ ss) buffer h =
    rw (ltb-true (length (buffer ++ s)) buffer_size shorter, strcats)
      (strcats-concat ss (buffer ++ s) (omega (arith, h, lengths))
        ∙ ap some (append_assoc buffer s (concat ss)))
  where
    lengths : length ((buffer ++ s) ++ concat ss) ≡ length (buffer ++ concat (s ∷ ss))
    lengths = ap length (append_assoc buffer s (concat ss))

    shorter : length (buffer ++ s) < buffer_size
    shorter = omega (arith, h, lengths, length-append (buffer ++ s) (concat ss))

-- Where the ids are not empty and no `char` is zero, no message of `modifyOrder`, `addNewProduct`,
-- `deleteProduct`, `modifyQuantity` or `modifyPrice` is defined: each uses a `char` as an array or as
-- a string.
char_messages_undefined :
    (seller_id typed typed_quantity c d : ℕ) (id order_id name quantity price : Bytes)
    → (modify_order (c ∷ id) order_id ≡ none)
      × (add_new_product seller_id name (c ∷ id) quantity price ≡ none)
      × (delete_product seller_id (suc typed) ≡ none)
      × (modify_quantity seller_id (suc typed) typed_quantity ≡ none)
      × (modify_price seller_id (suc typed) (d ∷ price) ≡ none)
unfolding modify_order add_new_product delete_product modify_quantity modify_price
char_messages_undefined seller_id typed typed_quantity c d id order_id name quantity price =
    (ground arith, ground arith, ground arith, ground arith, ground arith)
