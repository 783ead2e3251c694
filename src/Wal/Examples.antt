-- ===== src/Wal/Examples.antt =====
-- A log file with one record, and the theorem on it.
use my_database_engine.Common.{◌≡◌, none, some, [], ◌∷◌}
use my_database_engine.Wal.{LogRecord, begin, record_bytes, open_wal, read_all}
use my_database_engine.Wal.Dead.{run_wal, wal_never_writes}

abbrev first : LogRecord
first = record {
  lsn = 1;
  prev_lsn = 0;
  txn_id = 1;
  type = begin;
  table = [];
  key = [];
  old_value = [];
  new_value = [];
}

wal_never_writes_example :
    ((run_wal (some first ∷ none ∷ some first ∷ []) (open_wal (record_bytes first))).file.bytes
      ≡ record_bytes first)
    × ((read_all (run_wal (some first ∷ none ∷ some first ∷ []) (open_wal (record_bytes first)))).0
        ≡ [])
wal_never_writes_example =
    wal_never_writes (record_bytes first) (some first ∷ none ∷ some first ∷ [])
