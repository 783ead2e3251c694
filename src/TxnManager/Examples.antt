-- ===== src/TxnManager/Examples.antt =====
-- Rolled back statements at a table of two rows.
use my_database_engine.Common.{
  not, none, some, List, [], ◌∷◌, keep, Text, codes, text_beq, text_key, find, assign, ◌≡◌, refl,
}
use my_database_engine.Ast.{
  Row, Expr, InsertStatement, UpdateStatement, DeleteStatement, literal, integer, column_ref,
  binary,
}
use my_database_engine.Doubles.Decimal.{decimal}
use my_database_engine.Expr.{extract_literal}
use my_database_engine.Executor.{TableStorage, done}
use my_database_engine.Transaction.{new_transaction}
use my_database_engine.Dml.{
  matches, execute_update, execute_delete, execute_insert, row_of_values, row_key,
}
use my_database_engine.Wal.Recover.{has_id}
use my_database_engine.TxnManager.{TxnManager, new_manager}
use my_database_engine.TxnManager.Undo.{HasDistinctIds}
use my_database_engine.TxnManager.Rollback.{
  then_rollback, rollback-update, rollback-delete, rollback-insert,
}

abbrev rows : List Row
rows =
    ((codes "id", codes "1") ∷ (codes "age", codes "35") ∷ [])
    ∷ ((codes "id", codes "4") ∷ (codes "age", codes "17") ∷ [])
    ∷ []

abbrev users : TableStorage
users = (codes "users", rows) ∷ []

abbrev is_four : Expr
is_four = binary (codes "=") (column_ref [] (codes "id")) (literal integer (codes "4"))

abbrev birthday : UpdateStatement
birthday = record {
  table = codes "users";
  assignments = (codes "age", literal integer (codes "18")) ∷ [];
  where_clause = some is_four;
}

abbrev leave : DeleteStatement
leave = record { table = codes "users"; where_clause = some is_four }

abbrev join_club : InsertStatement
join_club = record {
  table = codes "users";
  columns = codes "id" ∷ codes "age" ∷ [];
  values = literal integer (codes "5") ∷ literal integer (codes "20") ∷ [];
}

rows-HasDistinctIds : HasDistinctIds rows
unfolding find text_beq has_id
rows-HasDistinctIds = ((codes "1", refl, (refl, tt)), ((codes "4", refl, tt), tt))

rollback-update_example :
    (result : TableStorage × TxnManager) × (then_rollback 0 1
        (new_manager none)
        (execute_update decimal birthday users (some (new_transaction 1)))
      ≡ done result)
    × ((k : Text) → find k result.0 ≡ find k users)
unfolding find text_beq
rollback-update_example =
    rollback-update decimal 0 1 (new_manager none) users birthday refl rows-HasDistinctIds
      ((λ e. cc), tt)

rollback-delete_example :
    (result : TableStorage × TxnManager) × (then_rollback 0 1
        (new_manager none)
        (execute_delete decimal leave users (some (new_transaction 1)))
      ≡ done result)
    × (find (codes "users") result.0
        ≡ some (keep (λ row. not (matches decimal (some is_four) row)) rows))
unfolding find text_beq
rollback-delete_example =
    rollback-delete decimal 0 1 (new_manager none) users leave refl rows-HasDistinctIds

rollback-insert_example :
    (result : TableStorage × TxnManager) × (then_rollback 0 1
        (new_manager none)
        (execute_insert join_club users (some (new_transaction 1)))
      ≡ done result)
    × ((k : Text) → find k result.0 ≡ find k users)
unfolding find assign text_beq has_id row_of_values extract_literal row_key
rollback-insert_example =
    rollback-insert decimal 0 1 (new_manager none) users join_club refl refl
      (refl, (refl, (refl, tt)), tt)
