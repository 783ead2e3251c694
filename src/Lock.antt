-- ===== src/Lock.antt =====
-- include/lock_manager.h and src/lock_manager.cpp. The mutex makes each call one step.
pub mod Exclusion
mod Examples
use my_database_engine.Common.{
  ℕ, Bool, true, false, Option, none, some, List, [], ◌∷◌, ◌++◌, map, Text, Dict, find, assign,
  keep, not, nat_beq, ◌||◌, if◌then◌else◌, text_key,
}

pub data LockMode : Type 0 where
  shared exclusive : LockMode

pub record LockEntry : Type 0 where
  pub holder : ℕ
  pub mode : LockMode

abbrev pub LockTable : Type 0
LockTable = Dict Text (List LockEntry)

abbrev pub is_exclusive : LockMode → Bool
is_exclusive exclusive = true
is_exclusive shared = false

-- `locks_[resource]`: a resource that is not there gets an empty entry list.
unfoldable pub entries_of : Text → LockTable → List LockEntry
entries_of resource locks = elim (find resource locks) [ none ↦ [] | some entries ↦ entries ]

-- The loop of acquireLock: whether an entry of another transaction conflicts.
unfoldable pub has_conflict : ℕ → LockMode → List LockEntry → Bool
has_conflict txn mode [] = false
has_conflict txn mode (entry ∷ entries) =
    let rest = has_conflict txn mode entries in
    if nat_beq entry.holder txn
    then rest
    else if is_exclusive mode || is_exclusive entry.mode
    then true
    else rest

-- LockManager::acquireLock
unfoldable pub acquire_lock : ℕ → Text → LockMode → LockTable → Bool × LockTable
acquire_lock txn resource mode locks =
    let entries = entries_of resource locks in
    if has_conflict txn mode entries
    then (false, assign resource entries locks)
    else (true, assign resource (entries ++ record { holder = txn; mode = mode } ∷ []) locks)

unfoldable pub release_entries : ℕ → List LockEntry → List LockEntry
release_entries txn = keep (λ entry. not (nat_beq entry.holder txn))

-- LockManager::releaseAll
unfoldable pub release_all : ℕ → LockTable → LockTable
release_all txn [] = []
release_all txn ((resource, entries) ∷ rest) =
    (resource, release_entries txn entries) ∷ release_all txn rest

is_empty : List LockEntry → Bool
is_empty [] = true
is_empty (entry ∷ entries) = false

-- LockManager::isLocked
unfoldable pub is_locked : Text → LockTable → Bool
unfolding is_empty
is_locked resource locks = elim (find resource locks) [
  | none ↦ false
  | some entries ↦ not (is_empty entries)
]
