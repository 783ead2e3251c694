-- ===== src/TxnManager/Rollback.antt =====
-- A transaction of one statement that is rolled back.
use mathlib.Core.List.{reverse, reverse-cons}
use my_database_engine.Common.{
  ℕ, not, Option, none, some, List, [], ◌∷◌, ◌++◌, map, Text, arith, find, assign, find-assign,
  keep, ◌==◌, ==_iff, ==_refl, text_key, number_key, ◌≡◌, refl, ap, sym, ◌∙◌, Bool-cases, inl, inr,
  if◌then◌else◌,
}
use my_database_engine.Ast.{Row, InsertStatement, UpdateStatement, DeleteStatement}
use my_database_engine.Doubles.{Doubles}
use my_database_engine.Transaction.{
  Transaction, WriteRecord, new_transaction, active, abort_transaction,
}
use my_database_engine.Dml.{
  insert_record, update_record, delete_record, matches, execute_insert, execute_update,
  execute_delete, row_of_values,
}
use my_database_engine.Dml.Effects.{
  updated, update_entry, logged, execute_update_lem, execute_delete_lem, execute_insert_effect,
}
use my_database_engine.Executor.{TableStorage, Outcome, done, ◌>>=◌}
use my_database_engine.Lock.{release_all}
use my_database_engine.Wal.{LogType}
use my_database_engine.Wal.Recover.{rows_of}
use my_database_engine.TxnManager.{
  TxnManager, undo_rows, undo_write, undo_writes, rollback, log_to, end_records,
}
use my_database_engine.TxnManager.Undo.{
  undo_reverse, IsOnTable, undo_writes-append, undo_writes-one, HasDistinctIds, KeepsId,
  undo-update, undo-insert, undo-delete, IsFresh,
}

rows_of-some :
    (table : Text) (storage : TableStorage) {rows : List Row}
    → find table storage ≡ some rows
    → rows_of table storage ≡ rows
unfolding rows_of
rows_of-some table storage h = ground (arith, h)

find-undo_write_own :
    (k : Text) (wr : WriteRecord) (storage : TableStorage) (rows : List Row)
    → find wr.table storage ≡ some rows
    → find k (undo_write wr storage)
      ≡ (if wr.table == k then some (undo_rows wr rows) else find k storage)
unfolding undo_write
find-undo_write_own k wr storage rows h =
    rw (rows_of-some wr.table storage h) (find-assign wr.table k (undo_rows wr rows) storage)

find-undo_write :
    (table k : Text) (wr : WriteRecord) (storage : TableStorage) (rows : List Row)
    → wr.table ≡ table
    → find table storage ≡ some rows
    → find k (undo_write wr storage)
      ≡ (if table == k then some (undo_rows wr rows) else find k storage)
find-undo_write table k wr storage rows e h =
    find-undo_write_own k wr storage rows (ap (λ c. find c storage) e ∙ h)
    ∙ ap (λ b. if b then some (undo_rows wr rows) else find k storage) (ap (λ c. c == k) e)

-- What rollback leaves of every table, for a log that writes one.
find-undo_writes :
    (table k : Text) (wrs : List WriteRecord) (storage : TableStorage) (rows : List Row)
    → IsOnTable table wrs
    → find table storage ≡ some rows
    → find k (undo_writes (reverse wrs) storage)
      ≡ (if table == k then some (undo_reverse wrs rows) else find k storage)
unfolding undo_reverse
find-undo_writes table k [] storage rows on h = elim (Bool-cases (table == k)) [
  | inl t ↦ rw t (unfold undo_writes in (ap (λ c. find c storage) (sym ((==_iff table k).0 t)) ∙ h))
  | inr t ↦ rw t (unfold undo_writes in refl)
]
find-undo_writes table k (wr ∷ wrs) storage rows on h = rw reverse-cons (
    rw undo_writes-append (
      rw undo_writes-one (
        find-undo_write table k wr (undo_writes (reverse wrs) storage) (undo_reverse wrs rows) on.0
          (find-undo_writes table table wrs storage rows on.1 h ∙ rw (==_refl table))
        ∙ rw (find-undo_writes table k wrs storage rows on.1 h) (ground arith))))

-- The transaction object behind the pointer that a statement was given, in the manager's map.
abbrev pub with_transaction : ℕ → Option Transaction → TxnManager → TxnManager
with_transaction id none m = m
with_transaction id (some txn) m = record m { transactions = assign id txn m.transactions }

-- The statement run under a transaction that has just begun, and the transaction rolled back.
abbrev pub then_rollback :
    ℕ
    → ℕ
    → TxnManager
    → Outcome (TableStorage × Option Transaction)
    → Outcome (TableStorage × TxnManager)
then_rollback garbage id m run =
    run >>= λ (storage, txn). rollback garbage id storage (with_transaction id txn m)

-- rollback of a transaction that has written one table.
rollback_written :
    (garbage id : ℕ) (m : TxnManager) (table : Text) (wrs : List WriteRecord)
    (storage : TableStorage) (rows : List Row)
    → IsOnTable table wrs
    → (result : TableStorage × TxnManager) × (rollback garbage id
          (assign table rows storage)
          (with_transaction id (logged wrs (some (new_transaction id))) m)
        ≡ done result)
      × ((k : Text)
          → find k result.0 ≡ (if table == k then some (undo_reverse wrs rows) else find k storage))
unfolding rollback logged
rollback_written garbage id m table wrs storage rows on =
    let txn : Transaction = record { id = id; status = active; write_log = wrs } in
    (
      (
        undo_writes (reverse wrs) (assign table rows storage),
        record m {
          transactions = assign id (abort_transaction txn) (assign id txn m.transactions);
          lock_table = release_all id m.lock_table;
          wal = log_to (end_records garbage txn LogType.abort) m.wal;
        },
      ),
      ground (arith, find-assign id id txn m.transactions, ==_refl id),
      λ k.
          find-undo_writes table k wrs (assign table rows storage) rows on
            (find-assign table table rows storage ∙ rw (==_refl table))
          ∙ ground (arith, find-assign table k rows storage),
    )

restored :
    (table k : Text) (storage : TableStorage) (rows : List Row)
    → find table storage ≡ some rows
    → (if table == k then some rows else find k storage) ≡ find k storage
restored table k storage rows h = elim (Bool-cases (table == k)) [
  | inl t ↦ rw t (sym h ∙ ap (λ c. find c storage) ((==_iff table k).0 t))
  | inr t ↦ rw t
]

IsOnTable-map {ℓ} :
    {A : Type ℓ} (table : Text) (f : A → WriteRecord) (xs : List A)
    → ((x : A) → (f x).table ≡ table)
    → IsOnTable table (map f xs)
IsOnTable-map table f [] h = tt
IsOnTable-map table f (x ∷ xs) h = (h x, IsOnTable-map table f xs h)

module _ (fp : Doubles) (garbage id : ℕ) (m : TxnManager) (storage : TableStorage) where
  -- If every row of the table has an id of its own and the UPDATE assigns none, rolling the
  -- transaction back gives every table the rows that it had.
  pub rollback-update :
      (stmt : UpdateStatement) {rows : List Row}
      → find stmt.table storage ≡ some rows
      → HasDistinctIds rows
      → KeepsId stmt.assignments
      → (result : TableStorage × TxnManager) × (then_rollback garbage id m
            (execute_update fp stmt storage (some (new_transaction id)))
          ≡ done result)
        × ((k : Text) → find k result.0 ≡ find k storage)
  unfolding update_record
  rollback-update stmt {rows} h distinct keeps =
      let wrs = map (update_entry fp stmt) (keep (matches fp stmt.where_clause) rows) in
      let written =
        rollback_written garbage id m stmt.table wrs storage (map (updated fp stmt) rows)
          (IsOnTable-map stmt.table (update_entry fp stmt) _ (λ row. refl)) in
      (
        written.0,
        rw (execute_update_lem fp stmt storage (some (new_transaction id)) h) written.1,
        λ k.
            written.2 k
            ∙ rw (undo-update fp stmt keeps rows distinct) (restored stmt.table k storage rows h),
      )

  -- Rolling back a DELETE does not bring the rows back: the table keeps only the rows that the
  -- statement left.
  pub rollback-delete :
      (stmt : DeleteStatement) {rows : List Row}
      → find stmt.table storage ≡ some rows
      → HasDistinctIds rows
      → (result : TableStorage × TxnManager) × (then_rollback garbage id m
            (execute_delete fp stmt storage (some (new_transaction id)))
          ≡ done result)
        × (find stmt.table result.0
            ≡ some (keep (λ row. not (matches fp stmt.where_clause row)) rows))
  unfolding delete_record
  rollback-delete stmt {rows} h distinct =
      let wrs = map (delete_record stmt.table) (keep (matches fp stmt.where_clause) rows) in
      let left = keep (λ row. not (matches fp stmt.where_clause row)) rows in
      let written =
        rollback_written garbage id m stmt.table wrs storage left
          (IsOnTable-map stmt.table (delete_record stmt.table) _ (λ row. refl)) in
      (
        written.0,
        rw (execute_delete_lem fp stmt storage (some (new_transaction id)) h) written.1,
        written.2 stmt.table
            ∙ rw (==_refl stmt.table)
                (ap some (undo-delete stmt.table (matches fp stmt.where_clause) rows distinct)),
      )

  -- Rolling back an INSERT of a row with a new id gives every table the rows that it had.
  pub rollback-insert :
      (stmt : InsertStatement) {rows : List Row} {row : Row}
      → find stmt.table storage ≡ some rows
      → row_of_values stmt.columns stmt.values [] ≡ done row
      → IsFresh rows (row ∷ [])
      → (result : TableStorage × TxnManager) × (then_rollback garbage id m
            (execute_insert stmt storage (some (new_transaction id)))
          ≡ done result)
        × ((k : Text) → find k result.0 ≡ find k storage)
  rollback-insert stmt {rows} {row} h built fresh =
      let wrs = map (insert_record stmt.table) (row ∷ []) in
      let written =
        rollback_written garbage id m stmt.table wrs storage (rows ++ row ∷ [])
          (unfold insert_record in (refl, tt)) in
      (
        written.0,
        rw (execute_insert_effect stmt storage (some (new_transaction id)) h built) written.1,
        λ k.
            written.2 k
            ∙ rw (undo-insert stmt.table rows (row ∷ []) fresh)
                (restored stmt.table k storage rows h),
      )
