-- ===== src/TxnManager/Undo.antt =====
-- What rollback makes of the writes of a statement, on the rows of one table.
use mathlib.Core.List.{reverse, reverse-cons}
use my_database_engine.Common.{
  Bool, true, false, not, some, List, [], ◌∷◌, ◌++◌, append_assoc, append-nil, map, Text, codes,
  arith, find, find-assign, keep, All, ◌==◌, ==_iff, ==_refl, text_key, ◌≡◌, ◌≢◌, refl, ap, sym,
  ◌∙◌, Bool-cases, inl, inr,
}
use my_database_engine.Ast.{Row, Expr, UpdateStatement}
use my_database_engine.Doubles.{Doubles}
use my_database_engine.Transaction.{WriteRecord}
use my_database_engine.Dml.{
  row_key, assign_columns, insert_record, update_record, delete_record, matches,
}
use my_database_engine.Dml.Effects.{updated, update_entry}
use my_database_engine.Executor.{TableStorage}
use my_database_engine.Wal.Recover.{rows_of, has_id, remove_id}
use my_database_engine.TxnManager.{restore_row, undo_rows, undo_write, undo_writes}

-- The undo of a log against one table, the last record first.
unfoldable pub undo_reverse : List WriteRecord → List Row → List Row
undo_reverse [] rows = rows
undo_reverse (wr ∷ wrs) rows = undo_rows wr (undo_reverse wrs rows)

pub undo_writes-append :
    (early late : List WriteRecord) (storage : TableStorage)
    → undo_writes (early ++ late) storage ≡ undo_writes late (undo_writes early storage)
unfolding undo_writes
undo_writes-append [] late storage = refl
undo_writes-append (wr ∷ early) late storage = undo_writes-append early late (undo_write wr storage)

pub undo_writes-one :
    (wr : WriteRecord) (storage : TableStorage)
    → undo_writes (wr ∷ []) storage ≡ undo_write wr storage
unfolding undo_writes
undo_writes-one wr storage = refl

abbrev pub IsOnTable : Text → List WriteRecord → Type 0
IsOnTable table = All (λ wr. wr.table ≡ table)

pub rows_of-undo_write :
    (wr : WriteRecord) (storage : TableStorage)
    → rows_of wr.table (undo_write wr storage) ≡ undo_rows wr (rows_of wr.table storage)
unfolding undo_write rows_of
rows_of-undo_write wr storage = ground (
  arith,
  find-assign wr.table wr.table (undo_rows wr (rows_of wr.table storage)) storage,
  ==_refl wr.table,
)

rows_of-undo_write_at :
    {table : Text} (wr : WriteRecord) (storage : TableStorage)
    → wr.table ≡ table
    → undo_rows wr (rows_of table storage) ≡ rows_of table (undo_write wr storage)
rows_of-undo_write_at wr storage e = rw (← e) (sym (rows_of-undo_write wr storage))

-- rollback on a log that writes one table.
pub rows_of-undo_writes :
    (table : Text) (wrs : List WriteRecord) (storage : TableStorage)
    → IsOnTable table wrs
    → rows_of table (undo_writes (reverse wrs) storage) ≡ undo_reverse wrs (rows_of table storage)
unfolding undo_reverse
rows_of-undo_writes table [] storage h = unfold undo_writes in refl
rows_of-undo_writes table (wr ∷ wrs) storage h = rw reverse-cons (
    rw undo_writes-append (
      rw undo_writes-one (
        sym (rows_of-undo_write_at wr (undo_writes (reverse wrs) storage) h.0)
        ∙ ap (undo_rows wr) (rows_of-undo_writes table wrs storage h.1))))

-- The row has this id.
abbrev pub HasKey : Row → Text → Type 0
HasKey row key = find (codes "id") row ≡ some key

-- Every row has an id, and no two rows have the same.
abbrev pub HasDistinctIds : List Row → Type 0
HasDistinctIds [] = Unit
HasDistinctIds (row ∷ rows) =
    ((key : Text) × HasKey row key × All (λ r. has_id key r ≡ false) rows) × HasDistinctIds rows

-- A record whose key the first row lacks leaves that row where it is.
skip_row :
    (wr : WriteRecord) (row : Row) (rows : List Row)
    → has_id wr.key row ≡ false
    → undo_rows wr (row ∷ rows) ≡ row ∷ undo_rows wr rows
unfolding undo_rows remove_id restore_row
skip_row wr row rows h = ground (arith, h)

skip_rows :
    (wrs : List WriteRecord) (row : Row) (rows : List Row)
    → All (λ wr. has_id wr.key row ≡ false) wrs
    → undo_reverse wrs (row ∷ rows) ≡ row ∷ undo_reverse wrs rows
unfolding undo_reverse
skip_rows [] row rows h = refl
skip_rows (wr ∷ wrs) row rows h =
    ap (undo_rows wr) (skip_rows wrs row rows h.1) ∙ skip_row wr row (undo_reverse wrs rows) h.0

has_id-HasKey : (key : Text) (row : Row) {k : Text} → HasKey row k → has_id key row ≡ (k == key)
unfolding has_id
has_id-HasKey key row h = ground (arith, h)

row_key-HasKey : (row : Row) {k : Text} → HasKey row k → row_key row ≡ k
unfolding row_key
row_key-HasKey row h = ground (arith, h)

-- No assignment of the UPDATE is to the id.
abbrev pub KeepsId : List (Text × Expr) → Type 0
KeepsId = All (λ a. a.0 ≢ codes "id")

assign_columns-HasKey :
    (assignments : List (Text × Expr)) (row : Row) {k : Text}
    → KeepsId assignments
    → HasKey row k
    → HasKey (assign_columns assignments row) k
unfolding assign_columns
assign_columns-HasKey [] row h e = e
assign_columns-HasKey ((column, value) ∷ rest) row h e =
    assign_columns-HasKey rest _ h.1
      (rw find-assign (ground (arith, e, h.0, ==_iff column (codes "id"))))

-- The key of another row's record is not the id of this row.
other_key :
    (row other : Row) (key : Text)
    → HasKey row key
    → (k : Text) → HasKey other k
    → has_id key other ≡ false
    → has_id k row ≡ false
other_key row other key h k h' e =
    rw (has_id-HasKey k row h)
      (ground (arith, ==_iff k key, ==_iff key k, has_id-HasKey key other h', e))

module _ (fp : Doubles) (stmt : UpdateStatement) (keeps : KeepsId stmt.assignments) where
  -- The log of the UPDATE on these rows.
  abbrev update_log : List Row → List WriteRecord
  update_log rows = map (update_entry fp stmt) (keep (matches fp stmt.where_clause) rows)

  update_entry-key : (row : Row) {k : Text} → HasKey row k → (update_entry fp stmt row).key ≡ k
  unfolding update_record
  update_entry-key row h = row_key-HasKey _ (assign_columns-HasKey stmt.assignments row keeps h)

  updated-HasKey : (row : Row) {k : Text} → HasKey row k → HasKey (updated fp stmt row) k
  unfolding updated
  updated-HasKey row h = ground (arith, h, assign_columns-HasKey stmt.assignments row keeps h)

  other_keys :
      (row : Row) {key : Text} (rows : List Row)
      → HasKey row key
      → HasDistinctIds rows
      → All (λ r. has_id key r ≡ false) rows
      → All (λ wr. has_id wr.key row ≡ false) (update_log rows)
  other_keys row [] h d a = tt
  other_keys row {key} (other ∷ rows) h d a =
      elim (Bool-cases (matches fp stmt.where_clause other)) [
        | inl t ↦ rw t (
          rw (update_entry-key other d.0.1) (other_key row other key h d.0.0 d.0.1 a.0),
          other_keys row rows h d.1 a.1,
        )
        | inr t ↦ rw t (other_keys row rows h d.1 a.1)
      ]

  restore_first :
      (row : Row) (rows : List Row) {key : Text}
      → HasKey row key
      → undo_rows (update_entry fp stmt row) (updated fp stmt row ∷ rows) ≡ row ∷ rows
  unfolding undo_rows restore_row update_record
  restore_first row rows {key} h =
      let same_key : has_id (update_entry fp stmt row).key (updated fp stmt row) ≡ true =
        rw (update_entry-key row h)
          (has_id-HasKey key (updated fp stmt row) (updated-HasKey row h) ∙ ==_refl key) in
      ground (arith, same_key)

  updated_miss : (row : Row) → matches fp stmt.where_clause row ≡ false → updated fp stmt row ≡ row
  unfolding updated
  updated_miss row h = rw h

  -- Undoing the log of an UPDATE gives the rows back.
  pub undo-update :
      (rows : List Row)
      → HasDistinctIds rows
      → undo_reverse (update_log rows) (map (updated fp stmt) rows) ≡ rows
  unfolding undo_reverse
  undo-update [] d = refl
  undo-update (row ∷ rows) d = elim (Bool-cases (matches fp stmt.where_clause row)) [
    | inl t ↦ rw t (
        rw
          (skip_rows (update_log rows) (updated fp stmt row) (map (updated fp stmt) rows)
            (other_keys (updated fp stmt row) rows (updated-HasKey row d.0.1) d.1 d.0.2))
          (rw (undo-update rows d.1) (restore_first row rows d.0.1)))
    | inr t ↦ rw t (
        rw (updated_miss row t) (
          rw
            (skip_rows (update_log rows) row (map (updated fp stmt) rows)
              (other_keys row rows d.0.1 d.1 d.0.2))
            (rw (undo-update rows d.1))))
  ]

-- The rows of an INSERT have ids, each new to the rows before it.
abbrev pub IsFresh : List Row → List Row → Type 0
IsFresh rows [] = Unit
IsFresh rows (row ∷ more) =
    (has_id (row_key row) row ≡ true)
    × All (λ r. has_id (row_key row) r ≡ false) rows
    × IsFresh (rows ++ row ∷ []) more

remove_new :
    (key : Text) (row : Row) (rows : List Row)
    → has_id key row ≡ true
    → All (λ r. has_id key r ≡ false) rows
    → remove_id key (rows ++ row ∷ []) ≡ rows
unfolding remove_id
remove_new key row [] h a = ground (arith, h)
remove_new key row (r ∷ rows) h a = ground (arith, a.0, remove_new key row rows h a.1)

-- Undoing the log of inserted rows takes exactly them away.
pub undo-insert :
    (table : Text) (rows new : List Row)
    → IsFresh rows new
    → undo_reverse (map (insert_record table) new) (rows ++ new) ≡ rows
unfolding undo_reverse
undo-insert table rows [] h = append-nil rows
undo-insert table rows (row ∷ new) h = rw (sym (append_assoc rows (row ∷ []) new)) (
    rw (undo-insert table (rows ++ row ∷ []) new h.2)
      (unfold undo_rows insert_record in remove_new (row_key row) row rows h.0 h.1))

keep_absent :
    (p : Row → Bool) (key : Text) (old_row : Row) (rows : List Row)
    → All (λ r. has_id key r ≡ false) rows
    → restore_row key old_row (keep p rows) ≡ keep p rows
unfolding restore_row
keep_absent p key old_row [] h = refl
keep_absent p key old_row (row ∷ rows) h = elim (Bool-cases (p row)) [
  | inl t ↦ ground (arith, h.0, keep_absent p key old_row rows h.1)
  | inr t ↦ ground (arith, keep_absent p key old_row rows h.1)
]

module _ (table : Text) (hit : Row → Bool) where
  absent-skip :
      (row : Row) (rows : List Row) {key : Text}
      → HasKey row key
      → HasDistinctIds rows
      → All (λ r. has_id key r ≡ false) rows
      → All (λ wr. has_id wr.key row ≡ false) (map (delete_record table) (keep hit rows))
  unfolding delete_record
  absent-skip row [] h d a = tt
  absent-skip row (other ∷ rows) {key} h d a = elim (Bool-cases (hit other)) [
    | inl t ↦ rw t (
      rw (row_key-HasKey other d.0.1) (other_key row other key h d.0.0 d.0.1 a.0),
      absent-skip row rows h d.1 a.1,
    )
    | inr t ↦ rw t (absent-skip row rows h d.1 a.1)
  ]

  -- Undoing the log of a DELETE changes nothing: it looks for the rows that are gone.
  pub undo-delete :
      (rows : List Row)
      → HasDistinctIds rows
      → undo_reverse (map (delete_record table) (keep hit rows)) (keep (λ r. not (hit r)) rows)
        ≡ keep (λ r. not (hit r)) rows
  unfolding undo_reverse
  undo-delete [] d = refl
  undo-delete (row ∷ rows) d = elim (Bool-cases (hit row)) [
    | inl t ↦ rw t (
        rw (undo-delete rows d.1) (
          unfold undo_rows delete_record in
          rw (row_key-HasKey row d.0.1) (keep_absent (λ r. not (hit r)) d.0.0 row rows d.0.2)))
    | inr t ↦ rw t (
        rw
          (skip_rows (map (delete_record table) (keep hit rows)) row (keep (λ r. not (hit r)) rows)
            (absent-skip row rows d.0.1 d.1 d.0.2))
          (rw (undo-delete rows d.1)))
  ]
