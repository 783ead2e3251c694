-- ===== src/Dml/Selected.antt =====
-- UPDATE and DELETE against a description of their own: which rows a WHERE selects, what the SET list
-- makes of a row, and which records the log gets.
use mathlib.Core.Path.{fun_ext}
use my_database_engine.Common.{
  Option, none, some, List, [], ◌∷◌, ◌++◌, map, Text, Bool, true, find, assign, keep, not, codes,
  text_key, if◌then◌else◌, ◌≡◌, refl, ◌∙◌,
}
use my_database_engine.Ast.{Row, Expr, UpdateStatement, DeleteStatement}
use my_database_engine.Doubles.{Doubles}
use my_database_engine.Expr.{evaluate_expr, resolve_expr}
use my_database_engine.Transaction.{
  Transaction, WriteRecord, TxnStatus, status_is_active, active, committed, aborted, update, delete,
}
use my_database_engine.Executor.{TableStorage, done}
use my_database_engine.Dml.{
  matches, assign_columns, update_record, delete_record, row_key, execute_update, execute_delete,
}
use my_database_engine.Dml.Effects.{
  logged, updated, update_entry, execute_update_lem, execute_delete_lem,
}

-- The row's text in the column id, empty if there is none.
abbrev pub id_of : Row → Text
id_of row = elim (find (codes "id") row) [ none ↦ [] | some id ↦ id ]

abbrev fold_left {ℓ κ} : {A : Type ℓ} {B : Type κ} → (B → A → B) → B → List A → B
fold_left f b [] = b
fold_left f b (a ∷ as') = fold_left f (f b a) as'

-- The row with the SET list applied from left to right, each value computed on the row so far.
abbrev pub with_set : List (Text × Expr) → Row → Row
with_set sets row = fold_left (λ r set. assign set.0 (resolve_expr set.1 r) r) row sets

-- The log with more records, if there is a transaction and its status is active.
abbrev pub appended : List WriteRecord → Option Transaction → Option Transaction
appended wrs none = none
appended wrs (some txn) = elim txn.status [
  | active ↦ some (record txn { write_log = txn.write_log ++ wrs })
  | committed ↦ some txn
  | aborted ↦ some txn
]

status_cases {ℓ} :
    {A : Type ℓ} (s : TxnStatus) (a b : A)
    → (if status_is_active s then a else b) ≡ elim s [ active ↦ a | committed ↦ b | aborted ↦ b ]
status_cases active a b = refl
status_cases committed a b = refl
status_cases aborted a b = refl

logged-appended :
    (wrs : List WriteRecord) (txn : Option Transaction) → logged wrs txn ≡ appended wrs txn
unfolding logged
logged-appended wrs none = refl
logged-appended wrs (some txn) = status_cases txn.status _ _

assign_columns-with_set :
    (sets : List (Text × Expr)) (row : Row) → assign_columns sets row ≡ with_set sets row
unfolding assign_columns
assign_columns-with_set [] row = refl
assign_columns-with_set ((col, e) ∷ sets) row =
    assign_columns-with_set sets (assign col (resolve_expr e row) row)

module _ (fp : Doubles) where
  -- Without a WHERE every row is selected, with one those on which it is true.
  abbrev pub is_selected : Option Expr → Row → Bool
  is_selected none row = true
  is_selected (some e) row = evaluate_expr fp e row

  matches-is_selected : (clause : Option Expr) → matches fp clause ≡ is_selected clause
  unfolding matches
  matches-is_selected none = refl
  matches-is_selected (some e) = refl

  abbrev pub row_after : UpdateStatement → Row → Row
  row_after stmt row =
      if is_selected stmt.where_clause row then with_set stmt.assignments row else row

  abbrev pub update_of : UpdateStatement → Row → WriteRecord
  update_of stmt row = record {
    type = update;
    table = stmt.table;
    key = id_of (with_set stmt.assignments row);
    old_row = row;
    new_row = with_set stmt.assignments row;
  }

  abbrev pub delete_of : DeleteStatement → Row → WriteRecord
  delete_of stmt row = record {
    type = delete;
    table = stmt.table;
    key = id_of row;
    old_row = row;
    new_row = [];
  }

  updated-row_after : (stmt : UpdateStatement) → updated fp stmt ≡ row_after stmt
  unfolding updated
  updated-row_after stmt = fun_ext λ row.
      rw (matches-is_selected stmt.where_clause, assign_columns-with_set stmt.assignments row) refl

  update_entry-update_of : (stmt : UpdateStatement) → update_entry fp stmt ≡ update_of stmt
  unfolding update_record row_key
  update_entry-update_of stmt =
      fun_ext λ row. rw (assign_columns-with_set stmt.assignments row) refl

  delete_record-delete_of : (stmt : DeleteStatement) → delete_record stmt.table ≡ delete_of stmt
  unfolding delete_record row_key
  delete_record-delete_of stmt = refl

  -- UPDATE on a table that exists applies the SET list to exactly the rows that its WHERE selects, in
  -- place, leaves the others and the other tables, and appends for each selected row, in table order,
  -- a record with the table, the new id, the old row and the new one to the log of an active
  -- transaction.
  pub execute_update_effect :
      (stmt : UpdateStatement) (storage : TableStorage) (txn : Option Transaction) {rows : List Row}
      → find stmt.table storage ≡ some rows
      → execute_update fp stmt storage txn
        ≡ done (
          assign stmt.table (map (row_after stmt) rows) storage,
          appended (map (update_of stmt) (keep (is_selected stmt.where_clause) rows)) txn,
        )
  execute_update_effect stmt storage txn {rows} h =
      execute_update_lem fp stmt storage txn h
      ∙ rw
          (
            updated-row_after stmt,
            update_entry-update_of stmt,
            matches-is_selected stmt.where_clause,
            logged-appended,
          )
          refl

  -- DELETE on a table that exists removes exactly the rows that its WHERE selects, keeps the order of
  -- the others and the other tables, and appends for each removed row, in table order, a record with
  -- the table, the id and the row to the log of an active transaction.
  pub execute_delete_effect :
      (stmt : DeleteStatement) (storage : TableStorage) (txn : Option Transaction) {rows : List Row}
      → find stmt.table storage ≡ some rows
      → execute_delete fp stmt storage txn
        ≡ done (
          assign stmt.table (keep (λ row. not (is_selected stmt.where_clause row)) rows) storage,
          appended (map (delete_of stmt) (keep (is_selected stmt.where_clause) rows)) txn,
        )
  execute_delete_effect stmt storage txn {rows} h =
      execute_delete_lem fp stmt storage txn h
      ∙ rw (delete_record-delete_of stmt, matches-is_selected stmt.where_clause, logged-appended)
          refl
