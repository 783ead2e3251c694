-- ===== src/TxnManager.antt =====
-- include/txn_manager.h: begin, commit and rollback.
pub mod Undo
pub mod Rollback
mod Examples
use mathlib.Core.List.{reverse}
use my_database_engine.Common.{
  ℕ, ◌+◌, ◌%◌, ◌^◌, Bool, true, false, not, Option, none, some, List, [], ◌∷◌, ◌++◌, map, Text,
  codes, Dict, find, assign, number_key, text_key, if◌then◌else◌,
}
use my_database_engine.Ast.{Row}
use my_database_engine.RowCodec.{serialize_row}
use my_database_engine.Executor.{TableStorage, Outcome, done, throws, ◌>>=◌}
use my_database_engine.Transaction.{
  Transaction, WriteRecord, WriteType, insert, update, delete, new_transaction, is_active,
  commit_transaction, abort_transaction,
}
use my_database_engine.Lock.{LockTable, release_all}
use my_database_engine.Wal.{LogRecord, LogType, Wal, append}
use my_database_engine.Wal.Recover.{rows_of, has_id, remove_id}

pub record TxnManager : Type 0 where
  pub next_id : ℕ
  pub transactions : Dict ℕ Transaction
  pub lock_table : LockTable
  -- the `WAL*`, `none` for a null pointer
  pub wal : Option Wal

abbrev pub new_manager : Option Wal → TxnManager
new_manager wal = record { next_id = 1; transactions = []; lock_table = []; wal = wal }

unfoldable pub log_type : WriteType → LogType
log_type insert = LogType.insert
log_type update = LogType.update
log_type delete = LogType.delete

-- A record with no row. The code leaves `lsn` and `prevLsn` unset: `append` sets the first, and
-- `garbage` stands for what the second happens to hold.
unfoldable pub bare_record : ℕ → ℕ → LogType → LogRecord
bare_record garbage id type = record {
  lsn = 0;
  prev_lsn = garbage;
  txn_id = id;
  type = type;
  table = [];
  key = [];
  old_value = [];
  new_value = [];
}

unfoldable pub write_log_record : ℕ → ℕ → WriteRecord → LogRecord
unfolding log_type
write_log_record garbage id wr = record {
  lsn = 0;
  prev_lsn = garbage;
  txn_id = id;
  type = log_type wr.type;
  table = wr.table;
  key = wr.key;
  old_value = serialize_row wr.old_row;
  new_value = serialize_row wr.new_row;
}

unfoldable pub append_all : List LogRecord → Wal → Wal
append_all [] wal = wal
append_all (rec ∷ recs) wal = append_all recs (append rec wal).1

-- `if (wal_) { ... }`; the flush at the end of a block is not visible in the file's bytes.
unfoldable pub log_to : List LogRecord → Option Wal → Option Wal
log_to recs none = none
log_to recs (some wal) = some (append_all recs wal)

-- The log records of a transaction that ends with a Commit or an Abort.
unfoldable pub end_records : ℕ → Transaction → LogType → List LogRecord
unfolding write_log_record bare_record
end_records garbage txn last =
    map (write_log_record garbage txn.id) txn.write_log ++ bare_record garbage txn.id last ∷ []

-- `emplace` leaves an entry that is already there.
emplace : ℕ → Transaction → Dict ℕ Transaction → Dict ℕ Transaction
emplace id txn m = elim (find id m) [ none ↦ assign id txn m | some old ↦ m ]

-- TransactionManager::begin
unfoldable pub begin_transaction : ℕ → TxnManager → ℕ × TxnManager
unfolding emplace log_to bare_record
begin_transaction garbage m = (
  m.next_id,
  record m {
    next_id = (m.next_id + 1) % 2 ^ 64;
    transactions = emplace m.next_id (new_transaction m.next_id) m.transactions;
    wal = log_to (bare_record garbage m.next_id LogType.begin ∷ []) m.wal;
  },
)

-- TransactionManager::get
unfoldable pub get_transaction : ℕ → TxnManager → Outcome Transaction
get_transaction id m = elim (find id m.transactions) [
  | none ↦ throws (codes "Transaction not found")
  | some txn ↦ done txn
]

unfoldable pub require_active : Transaction → Outcome Transaction
require_active txn = if is_active txn then done txn else throws (codes "Transaction is not active")

-- TransactionManager::commit
unfoldable pub commit : ℕ → ℕ → TxnManager → Outcome TxnManager
unfolding get_transaction require_active end_records log_to commit_transaction
commit garbage id m = do
  found ← get_transaction id m
  txn ← require_active found
  done (record m {
    transactions = assign id (commit_transaction txn) m.transactions;
    lock_table = release_all id m.lock_table;
    wal = log_to (end_records garbage txn LogType.commit) m.wal;
  })

-- The loop over a table for an Update or a Delete record: the first row with the key.
unfoldable pub restore_row : Text → Row → List Row → List Row
restore_row key old_row [] = []
restore_row key old_row (row ∷ rows) =
    let rest = restore_row key old_row rows in if has_id key row then old_row ∷ rows else row ∷ rest

unfoldable pub undo_rows : WriteRecord → List Row → List Row
undo_rows wr rows = elim wr.type [
  | insert ↦ remove_id wr.key rows
  | update ↦ restore_row wr.key wr.old_row rows
  | delete ↦ restore_row wr.key wr.old_row rows
]

unfoldable pub undo_write : WriteRecord → TableStorage → TableStorage
unfolding undo_rows rows_of
undo_write wr storage = assign wr.table (undo_rows wr (rows_of wr.table storage)) storage

-- The loop of rollback, on the log in reverse order.
unfoldable pub undo_writes : List WriteRecord → TableStorage → TableStorage
undo_writes [] storage = storage
undo_writes (wr ∷ wrs) storage = undo_writes wrs (undo_write wr storage)

-- TransactionManager::rollback
unfoldable pub rollback : ℕ → ℕ → TableStorage → TxnManager → Outcome (TableStorage × TxnManager)
unfolding get_transaction require_active end_records log_to abort_transaction undo_writes undo_write
rollback garbage id storage m = do
  found ← get_transaction id m
  txn ← require_active found
  done (
    undo_writes (reverse txn.write_log) storage,
    record m {
      transactions = assign id (abort_transaction txn) m.transactions;
      lock_table = release_all id m.lock_table;
      wal = log_to (end_records garbage txn LogType.abort) m.wal;
    },
  )
