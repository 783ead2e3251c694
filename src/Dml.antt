-- ===== src/Dml.antt =====
-- src/executor.cpp: executeInsert, executeUpdate, executeDelete and executeCreateTable. The optional
-- transaction is the object that the `txn` pointer names; a call returns it with its new log.
pub mod Effects
pub mod Selected
mod Examples
use my_database_engine.Common.{
  Bool, true, false, Option, none, some, List, [], ◌∷◌, ◌++◌, Text, codes, Dict, find, assign,
  contains, text_key, if◌then◌else◌,
}
use my_database_engine.Ast.{
  Row, Expr, InsertStatement, UpdateStatement, DeleteStatement, CreateTableStatement,
}
use my_database_engine.Doubles.{Doubles}
use my_database_engine.Expr.{evaluate_expr, resolve_expr, extract_literal}
use my_database_engine.Transaction.{
  Transaction, WriteRecord, is_active, log_write, insert, update, delete,
}
use my_database_engine.Executor.{
  TableStorage, Outcome, done, throws, undefined, ◌>>=◌, table_not_found,
}

-- `row.count("id") ? row.at("id") : ""`
unfoldable pub row_key : Row → Text
row_key row = elim (find (codes "id") row) [ none ↦ codes "" | some key ↦ key ]

-- `if (txn && txn->active()) txn->logWrite(rec)`
unfoldable pub log_if_active : WriteRecord → Option Transaction → Option Transaction
log_if_active wr none = none
log_if_active wr (some txn) = if is_active txn then some (log_write wr txn) else some txn

-- The loop over the columns; `values[i]` past the end is undefined.
unfoldable pub row_of_values : List Text → List Expr → Row → Outcome Row
row_of_values [] values row = done row
row_of_values (column ∷ columns) [] row = undefined
row_of_values (column ∷ columns) (value ∷ values) row =
    row_of_values columns values (assign column (extract_literal value) row)

unfoldable pub insert_record : Text → Row → WriteRecord
unfolding row_key
insert_record table row = record {
  type = insert;
  table = table;
  key = row_key row;
  old_row = [];
  new_row = row;
}

-- Executor::executeInsert
unfoldable pub execute_insert :
    InsertStatement
    → TableStorage
    → Option Transaction
    → Outcome (TableStorage × Option Transaction)
unfolding log_if_active insert_record
execute_insert stmt storage txn = elim (find stmt.table storage) [
  | none ↦ throws (table_not_found stmt.table)
  | some rows ↦ do
    row ← row_of_values stmt.columns stmt.values []
    done (
      assign stmt.table (rows ++ row ∷ []) storage,
      log_if_active (insert_record stmt.table row) txn,
    )
]

-- The loop over the assignments, each on the row as the ones before it left it.
unfoldable pub assign_columns : List (Text × Expr) → Row → Row
assign_columns [] row = row
assign_columns ((column, value) ∷ rest) row =
    assign_columns rest (assign column (resolve_expr value row) row)

unfoldable pub update_record : Text → Row → Row → WriteRecord
unfolding row_key
update_record table old_row new_row = record {
  type = update;
  table = table;
  key = row_key new_row;
  old_row = old_row;
  new_row = new_row;
}

unfoldable pub delete_record : Text → Row → WriteRecord
unfolding row_key
delete_record table row = record {
  type = delete;
  table = table;
  key = row_key row;
  old_row = row;
  new_row = [];
}

module _ (fp : Doubles) where
  -- `!where.has_value() || evaluateExpr(where.value(), row)`
  unfoldable pub matches : Option Expr → Row → Bool
  matches none row = true
  matches (some predicate) row = evaluate_expr fp predicate row

  -- The loop of executeUpdate over the rows.
  unfoldable pub update_rows :
      UpdateStatement → List Row → Option Transaction → List Row × Option Transaction
  unfolding log_if_active update_record
  update_rows stmt [] txn = ([], txn)
  update_rows stmt (row ∷ rows) txn =
      let new_row = assign_columns stmt.assignments row in
      let hit = matches stmt.where_clause row in
      let txn' = if hit then log_if_active (update_record stmt.table row new_row) txn else txn in
      let (rest, txn'') = update_rows stmt rows txn' in
      ((if hit then new_row else row) ∷ rest, txn'')

  -- Executor::executeUpdate
  unfoldable pub execute_update :
      UpdateStatement
      → TableStorage
      → Option Transaction
      → Outcome (TableStorage × Option Transaction)
  execute_update stmt storage txn = elim (find stmt.table storage) [
    | none ↦ throws (table_not_found stmt.table)
    | some rows ↦
        let (rows', txn') = update_rows stmt rows txn in
        done (assign stmt.table rows' storage, txn')
  ]

  -- std::remove_if with the predicate of executeDelete, which logs each row that it removes.
  unfoldable pub delete_rows :
      DeleteStatement → List Row → Option Transaction → List Row × Option Transaction
  unfolding log_if_active delete_record
  delete_rows stmt [] txn = ([], txn)
  delete_rows stmt (row ∷ rows) txn =
      let hit = matches stmt.where_clause row in
      let txn' = if hit then log_if_active (delete_record stmt.table row) txn else txn in
      let (rest, txn'') = delete_rows stmt rows txn' in (if hit then rest else row ∷ rest, txn'')

  -- Executor::executeDelete
  unfoldable pub execute_delete :
      DeleteStatement
      → TableStorage
      → Option Transaction
      → Outcome (TableStorage × Option Transaction)
  execute_delete stmt storage txn = elim (find stmt.table storage) [
    | none ↦ throws (table_not_found stmt.table)
    | some rows ↦
        let (rows', txn') = delete_rows stmt rows txn in
        done (assign stmt.table rows' storage, txn')
  ]

-- Executor::executeCreateTable
unfoldable pub execute_create_table : CreateTableStatement → TableStorage → Outcome TableStorage
execute_create_table stmt storage =
    if contains stmt.table storage
    then throws (codes "Table already exists: " ++ stmt.table)
    else done (assign stmt.table [] storage)
