-- ===== src/Wal/Recover.antt =====
-- WAL::recover of src/wal.cpp: redo of the committed transactions, undo of the others.
use my_database_engine.Common.{
  ℕ, Bool, true, false, not, none, some, List, [], ◌∷◌, ◌++◌, Text, codes, find, assign, keep,
  nat_beq, ◌==◌, text_key, if◌then◌else◌,
}
use mathlib.Core.List.{reverse}
use my_database_engine.Ast.{Row}
use my_database_engine.RowCodec.{deserialize_row}
use my_database_engine.Executor.{TableStorage}
use my_database_engine.Wal.{LogRecord, LogType, commit, update, insert, delete, Wal, read_all}

-- `storage[table]`: a missing table counts as empty.
unfoldable pub rows_of : Text → TableStorage → List Row
rows_of table storage = elim (find table storage) [ none ↦ [] | some rows ↦ rows ]

-- `it != r.end() && it->second == key` for `r.find("id")`.
unfoldable pub has_id : Text → Row → Bool
has_id key row = elim (find (codes "id") row) [ none ↦ false | some id ↦ id == key ]

-- The loop that looks for a row with the key.
unfoldable pub exists_id : Text → List Row → Bool
exists_id key [] = false
exists_id key (row ∷ rows) = if has_id key row then true else exists_id key rows

-- erase(remove_if(...)) by the key.
unfoldable pub remove_id : Text → List Row → List Row
remove_id key = keep (λ row. not (has_id key row))

-- `row["id"]`: the subscript adds an empty column where there is none.
unfoldable pub touch_id : Row → Row
touch_id row = elim (find (codes "id") row) [
  | none ↦ assign (codes "id") (codes "") row
  | some id ↦ row
]

-- The loop `if (row["id"] == key) { row = new_row; found = true; break; }`.
unfoldable pub replace_id : Text → Row → List Row → List Row × Bool
replace_id key new_row [] = ([], false)
replace_id key new_row (row ∷ rows) =
    let (rest, found) = replace_id key new_row rows in
    if has_id key (touch_id row) then (new_row ∷ rows, true) else (touch_id row ∷ rest, found)

-- The set of committed transactions.
unfoldable pub committed_ids : List LogRecord → List ℕ
committed_ids [] = []
committed_ids (rec ∷ recs) =
    let rest = committed_ids recs in elim rec.type [ commit ↦ rec.txn_id ∷ rest | _ ↦ rest ]

unfoldable pub is_committed : ℕ → List ℕ → Bool
is_committed txn [] = false
is_committed txn (id ∷ ids) = if nat_beq id txn then true else is_committed txn ids

unfoldable pub redo_rows : LogType → Text → Row → List Row → List Row
redo_rows insert key new_row rows = if exists_id key rows then rows else rows ++ new_row ∷ []
redo_rows update key new_row rows =
    let (rows', found) = replace_id key new_row rows in
    if found then rows' else rows' ++ new_row ∷ []
redo_rows delete key new_row rows = remove_id key rows
redo_rows _ key new_row rows = rows

unfoldable pub undo_rows : LogType → Text → Row → List Row → List Row
undo_rows insert key old_row rows = remove_id key rows
undo_rows update key old_row rows = (replace_id key old_row rows).0
undo_rows delete key old_row rows = (replace_id key old_row rows).0
undo_rows _ key old_row rows = rows

-- Begin, Commit and Abort records touch no table.
unfoldable pub is_write : LogType → Bool
is_write update = true
is_write insert = true
is_write delete = true
is_write _ = false

-- One round of the redo loop.
unfoldable pub redo_record : LogRecord → TableStorage → TableStorage
redo_record rec storage =
    if is_write rec.type
    then assign rec.table
        (redo_rows rec.type rec.key (deserialize_row rec.new_value) (rows_of rec.table storage))
        storage
    else storage

-- One round of the undo loop.
unfoldable pub undo_record : LogRecord → TableStorage → TableStorage
undo_record rec storage =
    if is_write rec.type
    then assign rec.table
        (undo_rows rec.type rec.key (deserialize_row rec.old_value) (rows_of rec.table storage))
        storage
    else storage

unfoldable pub redo_all : List ℕ → List LogRecord → TableStorage → TableStorage
redo_all ids [] storage = storage
redo_all ids (rec ∷ recs) storage =
    redo_all ids recs (if is_committed rec.txn_id ids then redo_record rec storage else storage)

-- On the records in reverse order.
unfoldable pub undo_all : List ℕ → List LogRecord → TableStorage → TableStorage
undo_all ids [] storage = storage
undo_all ids (rec ∷ recs) storage =
    undo_all ids recs (if is_committed rec.txn_id ids then storage else undo_record rec storage)

unfoldable pub recover_records : List LogRecord → TableStorage → TableStorage
unfolding committed_ids redo_all undo_all
recover_records records storage =
    let ids = committed_ids records in undo_all ids (reverse records) (redo_all ids records storage)

-- WAL::recover
unfoldable pub recover : Wal → TableStorage → TableStorage × Wal
unfolding recover_records
recover wal storage = let (records, wal') = read_all wal in (recover_records records storage, wal')
