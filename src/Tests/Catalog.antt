-- ===== src/Tests/Catalog.antt =====
-- The theorems on the product handlers at messages and files that meet their hypotheses.
use group_a_cs.Base.{◌≡◌, ◌+◌, refl, some, codes, true, [], ◌∷◌, ◌++◌, arith}
use group_a_cs.Base.Int.{pos}
use group_a_cs.Convert.{int_to_char_array}
use group_a_cs.Libc.{atoi, fgets_lines, strtok}
use group_a_cs.Tables.{ProductInfo, load_product_info, next_text, next_int}
use group_a_cs.Tables.Save.{count_newlines}
use group_a_cs.Tables.RoundTrip.Products.{IsStoredProduct, product_text, no_product}
use group_a_cs.World.{Locals, done, quiet}
use group_a_cs.World.Rows.Prefix.{Loaded}
use group_a_cs.Catalog.{confirmation, invalid, delete_product, modify_quantity}
use group_a_cs.Catalog.Request.{IsNumber, Loads}
use group_a_cs.Catalog.Delete.{delete_product_owner, delete_product_stranger}
use group_a_cs.Catalog.Modify.{modify_quantity_owner}
use group_a_cs.Tests.Evidence.{text, number}
use group_a_cs.Tests.Samples.{zeroed, hook, apples, two_rows, two_lines, shop}

pub n7 : IsNumber (codes "7") (pos 7)
unfolding atoi
n7 = number (codes "7") (pos 7) refl refl

pub n1000 : IsNumber (codes "1000") (pos 1000)
unfolding atoi
n1000 = number (codes "1000") (pos 1000) refl refl

pub n1001 : IsNumber (codes "1001") (pos 1001)
unfolding atoi
n1001 = number (codes "1001") (pos 1001) refl refl

pub n2000 : IsNumber (codes "2000") (pos 2000)
unfolding atoi
n2000 = number (codes "2000") (pos 2000) refl refl

pub n2002 : IsNumber (codes "2002") (pos 2002)
unfolding atoi
n2002 = number (codes "2002") (pos 2002) refl refl

pub two_rows-Loads : Loads zeroed two_rows (hook ∷ apples ∷ []) no_product (no_product ∷ [])
unfolding load_product_info fgets_lines strtok atoi next_text next_int
two_rows-Loads = record { loaded = refl; used = (refl, (refl, tt)); ended = refl }

pub two_rows-lines : count_newlines two_rows + 1 ≡ 2
unfolding count_newlines
two_rows-lines = refl

two_rows-loaded :
    load_product_info (shop two_rows).product_info zeroed.product_list
    ≡ some (true, (hook ∷ apples ∷ []) ++ no_product ∷ no_product ∷ [])
two_rows-loaded = two_rows-Loads.loaded

two_rows-Loaded :
    (v : Locals)
    → v.product_list ≡ zeroed.product_list
    → Loaded ProductInfo.product_id
        (load_product_info (some two_rows) v.product_list)
        (hook ∷ apples ∷ [])
        no_product
        (no_product ∷ [])
two_rows-Loaded v e = record {
  loaded = rw e two_rows-Loads.loaded;
  used = (refl, (refl, tt));
  ended = refl;
}

pub two_lines-Loaded :
    Loaded ProductInfo.product_id
      (load_product_info (some two_lines) zeroed.product_list)
      (hook ∷ apples ∷ [])
      no_product
      (no_product ∷ [])
unfolding load_product_info fgets_lines strtok atoi next_text next_int
two_lines-Loaded = record { loaded = refl; used = (refl, (refl, tt)); ended = refl }

pub two_lines-lines : count_newlines two_lines ≡ 2
unfolding count_newlines
two_lines-lines = refl

abbrev pub rope : ProductInfo
rope = record {
  product_id = pos 7000;
  product_name = codes "Rope";
  seller_id = pos 1000;
  quantity = pos 7;
  price = pos 2000;
}

pub apples-IsStored : IsStoredProduct apples
apples-IsStored = record {
  product_id = (omega arith, omega arith);
  product_name = text (codes "apples") refl refl;
  seller_id = (omega arith, omega arith);
  quantity = (omega arith, omega arith);
  price = (omega arith, omega arith);
}

pub rope-IsStored : IsStoredProduct rope
rope-IsStored = record {
  product_id = (omega arith, omega arith);
  product_name = text (codes "Rope") refl refl;
  seller_id = (omega arith, omega arith);
  quantity = (omega arith, omega arith);
  price = (omega arith, omega arith);
}

modify_quantity_owner_example :
    modify_quantity zeroed (codes "1000,2002,7,") (quiet (shop two_rows) [] [])
    ≡ done tt (
        quiet
          (shop (product_text (hook ∷ record apples { quantity = pos 7 } ∷ [])))
          []
          (confirmation ∷ []))
unfolding int_to_char_array
modify_quantity_owner_example =
    modify_quantity_owner zeroed (shop two_rows) [] [] two_rows (hook ∷ []) apples [] no_product
      (no_product ∷ []) [] refl two_rows-Loads n1000 n2002 (omega arith) n7 refl (refl, tt) refl
      two_rows-lines refl (omega arith)

delete_product_owner_example :
    delete_product zeroed (codes "1000,2002,") (quiet (shop two_rows) (pos 0 ∷ []) [])
    ≡ done tt
        (quiet (shop (product_text (hook ∷ no_product ∷ []))) (pos 2002 ∷ []) (confirmation ∷ []))
unfolding int_to_char_array
delete_product_owner_example =
    delete_product_owner zeroed (shop two_rows) (pos 0 ∷ []) [] two_rows (hook ∷ []) apples []
      no_product (no_product ∷ []) [] refl two_rows-Loads n1000 n2002 (omega arith) refl (refl, tt)
      refl two_rows-lines (no_product ∷ []) (no_product ∷ no_product ∷ []) no_product [] [] refl tt
      refl refl refl tt (omega arith)

delete_product_stranger_example :
    delete_product zeroed (codes "1001,2002,") (quiet (shop two_rows) (pos 0 ∷ []) [])
    ≡ done tt (
        quiet
          (shop (product_text (no_product ∷ no_product ∷ [])))
          (pos 0 ∷ [])
          (invalid ∷ confirmation ∷ []))
unfolding int_to_char_array
delete_product_stranger_example =
    delete_product_stranger zeroed (shop two_rows) (pos 0 ∷ []) [] two_rows (hook ∷ []) apples []
      no_product (no_product ∷ []) [] refl two_rows-Loads n1001 n2002 (omega arith) refl (refl, tt)
      refl two_rows-lines (no_product ∷ no_product ∷ []) (no_product ∷ no_product ∷ []) refl refl
      refl (omega arith)

abbrev pub new_rope : Locals
new_rope = record zeroed { rand = 6000 }
