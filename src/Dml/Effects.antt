-- ===== src/Dml/Effects.antt =====
-- What UPDATE, DELETE and INSERT leave in the table and in the log of the transaction.
use my_database_engine.Common.{
  Option, none, some, List, [], ◌∷◌, ◌++◌, append_assoc, append-nil, map, Text, arith, find, assign,
  keep, not, text_key, if◌then◌else◌, ◌≡◌, refl, ap, Bool-cases, inl, inr, length, ◌<◌,
}
use my_database_engine.Ast.{Row, Expr, InsertStatement, UpdateStatement, DeleteStatement}
use my_database_engine.Doubles.{Doubles}
use my_database_engine.Transaction.{Transaction, WriteRecord, is_active, log_write}
use my_database_engine.Executor.{TableStorage, done, undefined}
use my_database_engine.Dml.{
  log_if_active, matches, assign_columns, update_rows, update_record, execute_update, delete_rows,
  delete_record, execute_delete, row_of_values, insert_record, execute_insert,
}

-- The transaction with more records in its log, if it is there and active.
unfoldable pub logged : List WriteRecord → Option Transaction → Option Transaction
logged wrs none = none
logged wrs (some txn) =
    if is_active txn then some (record txn { write_log = txn.write_log ++ wrs }) else some txn

logged-nil : (txn : Option Transaction) → logged [] txn ≡ txn
unfolding logged
logged-nil none = refl
logged-nil (some txn) = elim (Bool-cases (is_active txn)) [
  | inl t ↦ rw t (ap (λ l. some (record txn { write_log = l })) (append-nil txn.write_log))
  | inr t ↦ rw t
]

logged-log_if_active :
    (wr : WriteRecord) (wrs : List WriteRecord) (txn : Option Transaction)
    → logged wrs (log_if_active wr txn) ≡ logged (wr ∷ wrs) txn
unfolding logged log_if_active log_write
logged-log_if_active wr wrs none = refl
logged-log_if_active wr wrs (some txn) = elim (Bool-cases (is_active txn)) [
  | inl t ↦ rw t (
      rw t
        (ap (λ l. some (record txn { write_log = l })) (append_assoc txn.write_log (wr ∷ []) wrs)))
  | inr t ↦ rw t (rw t)
]

module _ (fp : Doubles) where
  -- A row after the UPDATE, and its log record.
  unfoldable pub updated : UpdateStatement → Row → Row
  updated stmt row =
      if matches fp stmt.where_clause row then assign_columns stmt.assignments row else row

  abbrev pub update_entry : UpdateStatement → Row → WriteRecord
  update_entry stmt row = update_record stmt.table row (assign_columns stmt.assignments row)

  pub update_rows_lem :
      (stmt : UpdateStatement) (rows : List Row) (txn : Option Transaction)
      → update_rows fp stmt rows txn ≡ (
        map (updated stmt) rows,
        logged (map (update_entry stmt) (keep (matches fp stmt.where_clause) rows)) txn,
      )
  unfolding update_rows updated
  update_rows_lem stmt [] txn = ground (arith, logged-nil txn)
  update_rows_lem stmt (row ∷ rows) txn = elim (Bool-cases (matches fp stmt.where_clause row)) [
    | inl t ↦ ground (
      arith,
      update_rows_lem stmt rows (log_if_active (update_entry stmt row) txn),
      logged-log_if_active (update_entry stmt row)
          (map (update_entry stmt) (keep (matches fp stmt.where_clause) rows)) txn,
    )
    | inr t ↦ ground (arith, update_rows_lem stmt rows txn)
  ]

  pub delete_rows_lem :
      (stmt : DeleteStatement) (rows : List Row) (txn : Option Transaction)
      → delete_rows fp stmt rows txn ≡ (
        keep (λ row. not (matches fp stmt.where_clause row)) rows,
        logged (map (delete_record stmt.table) (keep (matches fp stmt.where_clause) rows)) txn,
      )
  unfolding delete_rows
  delete_rows_lem stmt [] txn = ground (arith, logged-nil txn)
  delete_rows_lem stmt (row ∷ rows) txn = elim (Bool-cases (matches fp stmt.where_clause row)) [
    | inl t ↦ ground (
      arith,
      delete_rows_lem stmt rows (log_if_active (delete_record stmt.table row) txn),
      logged-log_if_active (delete_record stmt.table row)
          (map (delete_record stmt.table) (keep (matches fp stmt.where_clause) rows)) txn,
    )
    | inr t ↦ ground (arith, delete_rows_lem stmt rows txn)
  ]

  -- The two calls, by the tests and the records of the code.
  pub execute_update_lem :
      (stmt : UpdateStatement) (storage : TableStorage) (txn : Option Transaction) {rows : List Row}
      → find stmt.table storage ≡ some rows
      → execute_update fp stmt storage txn
        ≡ done (
          assign stmt.table (map (updated stmt) rows) storage,
          logged (map (update_entry stmt) (keep (matches fp stmt.where_clause) rows)) txn,
        )
  unfolding execute_update
  execute_update_lem stmt storage txn {rows} h = ground (arith, update_rows_lem stmt rows txn)

  pub execute_delete_lem :
      (stmt : DeleteStatement) (storage : TableStorage) (txn : Option Transaction) {rows : List Row}
      → find stmt.table storage ≡ some rows
      → execute_delete fp stmt storage txn
        ≡ done (
          assign stmt.table (keep (λ row. not (matches fp stmt.where_clause row)) rows) storage,
          logged (map (delete_record stmt.table) (keep (matches fp stmt.where_clause) rows)) txn,
        )
  unfolding execute_delete
  execute_delete_lem stmt storage txn {rows} h = ground (arith, delete_rows_lem stmt rows txn)

row_of_values_short :
    (columns : List Text) (values : List Expr) (row : Row)
    → length values < length columns
    → row_of_values columns values row ≡ undefined
unfolding row_of_values
row_of_values_short [] values row h = absurd (omega arith)
row_of_values_short (column ∷ columns) [] row h = refl
row_of_values_short (column ∷ columns) (value ∷ values) row h =
    row_of_values_short columns values _ (omega arith)

-- INSERT with fewer values than columns reads past the end of the value list.
pub execute_insert_short :
    (stmt : InsertStatement) (storage : TableStorage) (txn : Option Transaction) {rows : List Row}
    → find stmt.table storage ≡ some rows
    → length stmt.values < length stmt.columns
    → execute_insert stmt storage txn ≡ undefined
unfolding execute_insert
execute_insert_short stmt storage txn h short =
    ground (arith, row_of_values_short stmt.columns stmt.values [] short)

logged-one :
    (wr : WriteRecord) (txn : Option Transaction) → log_if_active wr txn ≡ logged (wr ∷ []) txn
unfolding logged log_if_active log_write
logged-one wr none = refl
logged-one wr (some txn) = refl

-- INSERT puts the row of its values at the end of the table, and logs it if there is an active
-- transaction.
pub execute_insert_effect :
    (stmt : InsertStatement) (storage : TableStorage) (txn : Option Transaction) {rows : List Row}
    {row : Row}
    → find stmt.table storage ≡ some rows
    → row_of_values stmt.columns stmt.values [] ≡ done row
    → execute_insert stmt storage txn
      ≡ done (
        assign stmt.table (rows ++ row ∷ []) storage,
        logged (insert_record stmt.table row ∷ []) txn,
      )
unfolding execute_insert
execute_insert_effect stmt storage txn {row = row} h built =
    ground (arith, h, built, logged-one (insert_record stmt.table row) txn)
