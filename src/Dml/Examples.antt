-- ===== src/Dml/Examples.antt =====
-- The statements at a table of two rows.
use my_database_engine.Common.{
  not, none, some, List, [], ◌∷◌, map, keep, codes, text_beq, text_key, find, assign, ◌≡◌, refl,
  arith,
}
use my_database_engine.Ast.{
  Row, Expr, InsertStatement, UpdateStatement, DeleteStatement, literal, integer, column_ref,
  binary,
}
use my_database_engine.Doubles.Decimal.{decimal}
use my_database_engine.Executor.{TableStorage, done, undefined}
use my_database_engine.Transaction.{new_transaction}
use my_database_engine.Dml.{execute_update, execute_delete, execute_insert}
use my_database_engine.Dml.Selected.{
  row_after, update_of, delete_of, is_selected, appended, execute_update_effect,
  execute_delete_effect,
}
use my_database_engine.Dml.Effects.{execute_insert_short}

abbrev rows : List Row
rows =
    ((codes "id", codes "1") ∷ (codes "age", codes "35") ∷ [])
    ∷ ((codes "id", codes "4") ∷ (codes "age", codes "17") ∷ [])
    ∷ []

abbrev users : TableStorage
users = (codes "users", rows) ∷ []

abbrev is_four : Expr
is_four = binary (codes "=") (column_ref [] (codes "id")) (literal integer (codes "4"))

abbrev birthday : UpdateStatement
birthday = record {
  table = codes "users";
  assignments = (codes "age", literal integer (codes "18")) ∷ [];
  where_clause = some is_four;
}

abbrev leave : DeleteStatement
leave = record { table = codes "users"; where_clause = some is_four }

abbrev short_insert : InsertStatement
short_insert = record {
  table = codes "users";
  columns = codes "id" ∷ codes "age" ∷ [];
  values = literal integer (codes "5") ∷ [];
}

execute_update_effect_example :
    execute_update decimal birthday users (some (new_transaction 1))
    ≡ done (
      assign (codes "users") (map (row_after decimal birthday) rows) users,
      appended
          (map (update_of decimal birthday) (keep (is_selected decimal (some is_four)) rows))
          (some (new_transaction 1)),
    )
unfolding find text_beq
execute_update_effect_example =
    execute_update_effect decimal birthday users (some (new_transaction 1)) refl

execute_delete_effect_example :
    execute_delete decimal leave users (some (new_transaction 1))
    ≡ done (
      assign
          (codes "users")
          (keep (λ row. not (is_selected decimal (some is_four) row)) rows)
          users,
      appended
          (map (delete_of decimal leave) (keep (is_selected decimal (some is_four)) rows))
          (some (new_transaction 1)),
    )
unfolding find text_beq
execute_delete_effect_example =
    execute_delete_effect decimal leave users (some (new_transaction 1)) refl

execute_insert_short_example : execute_insert short_insert users none ≡ undefined
unfolding find text_beq
execute_insert_short_example =
    execute_insert_short short_insert users none {rows = rows} refl (omega arith)
