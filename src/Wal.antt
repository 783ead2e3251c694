-- ===== src/Wal.antt =====
-- include/wal.h and src/wal.cpp: the log records, their byte form, and the log file.
pub mod Bytes
pub mod Recover
pub mod Dead
mod Examples
use my_database_engine.Common.{
  ℕ, zero, suc, ◌+◌, ◌%◌, ◌^◌, Bool, true, false, ◌&&◌, Option, none, some, List, [], ◌∷◌, ◌++◌,
  Text, length, take, if◌then◌else◌,
}
use my_database_engine.Ast.{Row}
use my_database_engine.FileStream.{
  FileStream, opened, read_bytes, write_bytes, seek_get, seek_put_end, clear,
}
use my_database_engine.Wal.Bytes.{le_bytes, le_value}

-- LogRecord::Type; `other` is a byte that names no enumerator.
pub data LogType : Type 0 where
  begin commit abort update insert delete : LogType
  other : ℕ → LogType

abbrev pub code_of : LogType → ℕ
code_of begin = 0
code_of commit = 1
code_of abort = 2
code_of update = 3
code_of insert = 4
code_of delete = 5
code_of (other n) = n

unfoldable pub type_of : ℕ → LogType
type_of zero = begin
type_of (suc zero) = commit
type_of (suc (suc zero)) = abort
type_of (suc (suc (suc zero))) = update
type_of (suc (suc (suc (suc zero)))) = insert
type_of (suc (suc (suc (suc (suc zero))))) = delete
type_of n = other n

pub record LogRecord : Type 0 where
  pub lsn : ℕ
  pub prev_lsn : ℕ
  pub txn_id : ℕ
  pub type : LogType
  pub table : Text
  pub key : Text
  pub old_value : Text
  pub new_value : Text

-- writeStr: a 32-bit length, and so many bytes. The integers are little-endian, as on x86.
unfoldable pub string_bytes : Text → List ℕ
string_bytes s = let len = length s % 2 ^ 32 in le_bytes 4 len ++ take len s

-- The bytes of the successive writes of writeRecord, one field after another.
unfoldable pub record_bytes : LogRecord → List ℕ
record_bytes rec =
    le_bytes 8 rec.lsn
    ++ (le_bytes 8 rec.prev_lsn
        ++ (le_bytes 8 rec.txn_id
            ++ (code_of rec.type
                ∷ (string_bytes rec.table
                    ++ (string_bytes rec.key
                        ++ (string_bytes rec.old_value ++ string_bytes rec.new_value))))))

-- Reading from the stream; `none` is a failed read.
abbrev pub Reader {ℓ} : Type ℓ → Type ℓ
Reader A = FileStream → Option A × FileStream

abbrev pub continue {ℓ κ} :
    {A : Type ℓ} {B : Type κ} → Option A × FileStream → (A → Reader B) → Option B × FileStream
continue (none, s) f = (none, s)
continue (some a, s) f = f a s

infixl 5 ◌>>=◌
abbrev pub ◌>>=◌ {ℓ κ} : {A : Type ℓ} {B : Type κ} → Reader A → (A → Reader B) → Reader B
◌>>=◌ m f s = continue (m s) f

abbrev pub pure {ℓ} : {A : Type ℓ} → A → Reader A
pure a s = (some a, s)

unfoldable pub read_number : ℕ → Reader ℕ
read_number width = do bs ← read_bytes width; pure (le_value bs)

-- readStr
unfoldable pub read_string : Reader Text
unfolding read_number
read_string = do len ← read_number 4; read_bytes len

-- WAL::readRecord behind its first field.
unfoldable pub read_fields : ℕ → Reader LogRecord
unfolding read_string
read_fields lsn = do
  prev_lsn ← read_number 8
  txn_id ← read_number 8
  type ← read_number 1
  table ← read_string
  key ← read_string
  old_value ← read_string
  new_value ← read_string
  pure (record {
    lsn = lsn;
    prev_lsn = prev_lsn;
    txn_id = txn_id;
    type = type_of type;
    table = table;
    key = key;
    old_value = old_value;
    new_value = new_value;
  })

-- WAL::readRecord
unfoldable pub read_record : Reader LogRecord
unfolding read_fields
read_record = do lsn ← read_number 8; read_fields lsn

-- `while (readRecord(rec)) records.push_back(rec);` A record takes 41 bytes at least, so the length
-- of the file is enough fuel.
unfoldable pub read_records : ℕ → FileStream → List LogRecord × FileStream
read_records zero s = ([], s)
read_records (suc f) s =
    let (found, s') = read_record s in
    let (rest, s'') = read_records f s' in
    elim found [ none ↦ ([], s') | some rec ↦ (rec ∷ rest, s'') ]

pub record Wal : Type 0 where
  pub file : FileStream
  pub next_lsn : ℕ

-- `nextLsn_ = rec.lsn + 1` after each record, in 64 bits.
unfoldable pub lsn_after : ℕ → List LogRecord → ℕ
lsn_after n [] = n
lsn_after n (rec ∷ recs) = lsn_after ((rec.lsn + 1) % 2 ^ 64) recs

-- The constructor, on a file with these bytes (none, if the file is new).
unfoldable pub open_wal : List ℕ → Wal
unfolding read_records lsn_after
open_wal bytes =
    let (records, file) = read_records (suc (length bytes)) (opened bytes) in
    record { file = file; next_lsn = lsn_after 1 records }

-- WAL::append
unfoldable pub append : LogRecord → Wal → ℕ × Wal
append rec wal = (
  wal.next_lsn,
  record {
    file = write_bytes (record_bytes (record rec { lsn = wal.next_lsn })) (seek_put_end wal.file);
    next_lsn = (wal.next_lsn + 1) % 2 ^ 64;
  },
)

-- WAL::readAll
unfoldable pub read_all : Wal → List LogRecord × Wal
unfolding read_records
read_all wal =
    let start = clear (seek_get 0 wal.file) in
    let (records, file) = read_records (suc (length wal.file.bytes)) start in
    (records, record wal { file = file })
