-- ===== src/Transaction.antt =====
-- include/transaction.h
use my_database_engine.Common.{ℕ, Bool, true, false, List, [], ◌∷◌, ◌++◌, Text}
use my_database_engine.Ast.{Row}

pub data WriteType : Type 0 where
  insert update delete : WriteType

pub record WriteRecord : Type 0 where
  pub type : WriteType
  pub table : Text
  pub key : Text
  pub old_row : Row
  pub new_row : Row

pub data TxnStatus : Type 0 where
  active committed aborted : TxnStatus

pub record Transaction : Type 0 where
  pub id : ℕ
  pub status : TxnStatus
  pub write_log : List WriteRecord

abbrev pub new_transaction : ℕ → Transaction
new_transaction id = record { id = id; status = active; write_log = [] }

abbrev pub status_is_active : TxnStatus → Bool
status_is_active active = true
status_is_active _ = false

-- Transaction::active
abbrev pub is_active : Transaction → Bool
is_active t = status_is_active t.status

-- Transaction::logWrite
unfoldable pub log_write : WriteRecord → Transaction → Transaction
log_write wr t = record t { write_log = t.write_log ++ wr ∷ [] }

-- Transaction::commit and Transaction::abort
unfoldable pub commit_transaction : Transaction → Transaction
commit_transaction t = record t { status = committed }

unfoldable pub abort_transaction : Transaction → Transaction
abort_transaction t = record t { status = aborted }
