-- ===== src/Tests/Server.antt =====
-- Messages handled by the server, to their replies.
use group_a_cs.Base.{◌≡◌, refl, [], ◌∷◌, codes}
use group_a_cs.Libc.{strtok, strtok_rest, strstr, atoi, fgets_lines}
use group_a_cs.Convert.{int_to_char_array}
use group_a_cs.Tables.{load_product_info, next_text, next_int}
use group_a_cs.Tables.Save.{write_back_product_struct}
use group_a_cs.World.Rows.{any_row, find_row_or_end, get_row, modify_row}
use group_a_cs.Validate.{validate_id}
use group_a_cs.Catalog.{modify_quantity, owner_tokens, view_products}
use group_a_cs.Server.{execute_task_on_server, thread_task}
use group_a_cs.Server.Dispatch.{mod_quant, execute_task_on_server-handler}
use group_a_cs.World.{quiet, fault, begin_read, end_read}
use group_a_cs.Tests.Samples.{zeroed, two_rows, shop}

execute_task_on_server-handler_example :
    execute_task_on_server zeroed (codes "[MOD_QUANT],1000,2002,7,") (quiet (shop two_rows) [] [])
    ≡ modify_quantity zeroed (codes "1000,2002,7,\n") (quiet (shop two_rows) [] [])
execute_task_on_server-handler_example =
    execute_task_on_server-handler zeroed mod_quant b'1' (codes "000,2002,7,")
      (quiet (shop two_rows) [] [])

-- Two changes of a quantity: the first leaves a newline behind the last row, so that the second
-- writes an empty record, and the products cannot be viewed any more.
viewed_after_two_changes :
    thread_task zeroed
      (codes "[MOD_QUANT],1000,2002,7,"
        ∷ codes "[MOD_QUANT],1000,2002,8,"
        ∷ codes "[VIEW_PRODUCTS],[BUYER],"
        ∷ [])
      (quiet (shop two_rows) [] [])
    ≡ fault
unfolding thread_task strtok strtok_rest strstr modify_quantity owner_tokens atoi validate_id
    begin_read load_product_info fgets_lines next_text next_int end_read any_row find_row_or_end
    get_row modify_row write_back_product_struct int_to_char_array view_products
viewed_after_two_changes = refl
