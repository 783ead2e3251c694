-- ===== src/Lock/Exclusion.antt =====
-- No schedule of lock calls lets an exclusive lock stand beside another transaction's lock.
use my_database_engine.Common.{
  ℕ, Bool, true, false, List, [], ◌∷◌, ◌++◌, Text, arith, find, keep, not, nat_beq, if◌then◌else◌,
  text_key, ◌==◌, ==_iff, find-assign, ◌≡◌, ◌≢◌, ◌↔◌, refl, All, Bool-cases, inl, inr, All-append,
  All-keep, ap, ◌∙◌, ◌&&◌,
}
use my_database_engine.Lock.{
  LockMode, shared, LockEntry, LockTable, entries_of, has_conflict, acquire_lock, release_entries,
  release_all,
}

-- Two locks on one resource may stand together: they are of one transaction, or both shared.
abbrev pub Compatible : LockEntry → LockEntry → Type 0
Compatible a b = a.holder ≢ b.holder → (a.mode ≡ shared) × (b.mode ≡ shared)

abbrev pub IsExclusive : List LockEntry → Type 0
IsExclusive [] = Unit
IsExclusive (entry ∷ entries) = All (Compatible entry) entries × IsExclusive entries

-- Every resource's locks may stand together.
pub record IsSafe (locks : LockTable) : Type 0 where
  pub at : (resource : Text) → IsExclusive (entries_of resource locks)

abbrev pub new_entry : ℕ → LockMode → LockEntry
new_entry txn mode = record { holder = txn; mode = mode }

no_conflict-All :
    (txn : ℕ) (mode : LockMode) (entries : List LockEntry)
    → has_conflict txn mode entries ≡ false
    → All (λ entry. Compatible entry (new_entry txn mode)) entries
unfolding has_conflict
no_conflict-All txn mode [] h = tt
no_conflict-All txn mode (entry ∷ entries) h =
    (λ differ. ground (arith, differ), no_conflict-All txn mode entries (ground (arith)))

All-no_conflict :
    (txn : ℕ) (mode : LockMode) (entries : List LockEntry)
    → All (λ entry. Compatible entry (new_entry txn mode)) entries
    → has_conflict txn mode entries ≡ false
unfolding has_conflict
All-no_conflict txn mode [] h = refl
All-no_conflict txn mode (entry ∷ entries) h = elim (Bool-cases (nat_beq entry.holder txn)) [
  | inl t ↦ ground (arith, All-no_conflict txn mode entries h.1)
  | inr t ↦
      let both = h.0 (λ e. ground (arith, e)) in
      ground (arith, both.0, both.1, All-no_conflict txn mode entries h.1)
]

IsExclusive-append :
    (entries : List LockEntry) (entry : LockEntry)
    → IsExclusive entries
    → All (λ e. Compatible e entry) entries
    → IsExclusive (entries ++ entry ∷ [])
IsExclusive-append [] entry h k = (tt, tt)
IsExclusive-append (e ∷ es) entry h k =
    (All-append (Compatible e) es (entry ∷ []) h.0 (k.0, tt), IsExclusive-append es entry h.1 k.1)

IsExclusive-keep :
    (p : LockEntry → Bool) (entries : List LockEntry)
    → IsExclusive entries
    → IsExclusive (keep p entries)
IsExclusive-keep p [] h = tt
IsExclusive-keep p (e ∷ es) h = elim (Bool-cases (p e)) [
  | inl t ↦ rw (t) (All-keep (Compatible e) p es h.0, IsExclusive-keep p es h.1)
  | inr t ↦ rw (t) (IsExclusive-keep p es h.1)
]

-- What acquireLock leaves on each resource.
pub entries_of-acquire_lock :
    (txn : ℕ) (resource other : Text) (mode : LockMode) (locks : LockTable)
    → entries_of other (acquire_lock txn resource mode locks).1 ≡ (
        if resource == other
        then (if has_conflict txn mode (entries_of resource locks)
            then entries_of resource locks
            else entries_of resource locks ++ new_entry txn mode ∷ [])
        else entries_of other locks)
unfolding acquire_lock entries_of
entries_of-acquire_lock txn resource other mode locks =
    elim (Bool-cases (has_conflict txn mode (entries_of resource locks))) [
      | inl t ↦ ground (
        arith,
        t,
        find-assign resource other (entries_of resource locks) locks,
        ==_iff resource other,
      )
      | inr t ↦ ground (
        arith,
        t,
        find-assign resource other (entries_of resource locks ++ new_entry txn mode ∷ []) locks,
        ==_iff resource other,
      )
    ]

pub entries_of-release_all :
    (txn : ℕ) (resource : Text) (locks : LockTable)
    → entries_of resource (release_all txn locks) ≡ release_entries txn (entries_of resource locks)
unfolding release_all release_entries entries_of find
entries_of-release_all txn resource [] = refl
entries_of-release_all txn resource ((r, entries) ∷ rest) =
    ground (arith, entries_of-release_all txn resource rest)

pub acquire_lock-IsSafe :
    (txn : ℕ) (resource : Text) (mode : LockMode) (locks : LockTable)
    → IsSafe locks
    → IsSafe (acquire_lock txn resource mode locks).1
acquire_lock-IsSafe txn resource mode locks safe = record {
  at = λ other. rw entries_of-acquire_lock (elim (Bool-cases (resource == other)) [
    | inl t ↦ rw t (elim (Bool-cases (has_conflict txn mode (entries_of resource locks))) [
      | inl c ↦ rw c (safe.at resource)
      | inr c ↦ rw c (
          IsExclusive-append (entries_of resource locks) (new_entry txn mode) (safe.at resource)
            (no_conflict-All txn mode (entries_of resource locks) c))
    ])
    | inr t ↦ rw t (safe.at other)
  ]);
}

pub release_all-IsSafe :
    (txn : ℕ) (locks : LockTable) → IsSafe locks → IsSafe (release_all txn locks)
unfolding release_entries
release_all-IsSafe txn locks safe = record {
  at = λ resource. rw entries_of-release_all (IsExclusive-keep _ _ (safe.at resource));
}

granted_entries :
    (txn : ℕ) (resource : Text) (mode : LockMode) (locks : LockTable) (other : Text)
    → (if resource == other
        then (if has_conflict txn mode (entries_of resource locks)
            then entries_of resource locks
            else entries_of resource locks ++ new_entry txn mode ∷ [])
        else entries_of other locks)
      ≡ (if (acquire_lock txn resource mode locks).0 && (resource == other)
          then entries_of other locks ++ new_entry txn mode ∷ []
          else entries_of other locks)
unfolding acquire_lock
granted_entries txn resource mode locks other = elim (Bool-cases (resource == other)) [
  | inl t ↦
      let same : entries_of resource locks ≡ entries_of other locks =
        ap (λ r. entries_of r locks) ((==_iff resource other).0 t) in
      ground (arith, t, same)
  | inr t ↦ ground (arith, t)
]

-- A lock is granted exactly if each lock on its resource is of the same transaction, or both are
-- shared. A granted lock goes to the end of the resource's list; a refused one changes no list, and
-- no other resource's list changes.
pub acquire_lock_granted :
    (txn : ℕ) (resource : Text) (mode : LockMode) (locks : LockTable)
    → (((acquire_lock txn resource mode locks).0 ≡ true)
        ↔ All (λ entry. Compatible entry (new_entry txn mode)) (entries_of resource locks))
      × ((other : Text)
          → entries_of other (acquire_lock txn resource mode locks).1 ≡ (
              if (acquire_lock txn resource mode locks).0 && (resource == other)
              then entries_of other locks ++ new_entry txn mode ∷ []
              else entries_of other locks))
unfolding acquire_lock
acquire_lock_granted txn resource mode locks = (
  (
    λ h. no_conflict-All txn mode (entries_of resource locks) (ground arith),
    λ h. ground (arith, All-no_conflict txn mode (entries_of resource locks) h),
  ),
  λ other.
      entries_of-acquire_lock txn resource other mode locks
      ∙ granted_entries txn resource mode locks other,
)

-- A call of one of the transactions.
pub data Call : Type 0 where
  acquire : ℕ → Text → LockMode → Call
  release : ℕ → Call

unfoldable pub run_calls : List Call → LockTable → LockTable
run_calls [] locks = locks
run_calls (acquire txn resource mode ∷ calls) locks =
    run_calls calls (acquire_lock txn resource mode locks).1
run_calls (release txn ∷ calls) locks = run_calls calls (release_all txn locks)

-- After any interleaving of lock calls from a safe table, no exclusive lock stands beside a lock
-- of another transaction.
pub run_calls-IsSafe :
    (calls : List Call) (locks : LockTable) → IsSafe locks → IsSafe (run_calls calls locks)
unfolding run_calls
run_calls-IsSafe [] locks safe = safe
run_calls-IsSafe (acquire txn resource mode ∷ calls) locks safe =
    run_calls-IsSafe calls (acquire_lock txn resource mode locks).1
      (acquire_lock-IsSafe txn resource mode locks safe)
run_calls-IsSafe (release txn ∷ calls) locks safe =
    run_calls-IsSafe calls (release_all txn locks) (release_all-IsSafe txn locks safe)

release_entries-holder :
    (txn : ℕ) (entries : List LockEntry)
    → All (λ entry. entry.holder ≢ txn) (release_entries txn entries)
unfolding release_entries
release_entries-holder txn [] = tt
release_entries-holder txn (entry ∷ entries) = elim (Bool-cases (nat_beq entry.holder txn)) [
  | inl t ↦ rw (t, keep) (release_entries-holder txn entries)
  | inr t ↦ rw (t, keep) (λ e. ground (arith, e), release_entries-holder txn entries)
]

-- After releaseAll no resource has a lock of the transaction, and the others keep theirs.
pub release_all_complete :
    (txn : ℕ) (resource : Text) (locks : LockTable)
    → All (λ entry. entry.holder ≢ txn) (entries_of resource (release_all txn locks))
      × (entries_of resource (release_all txn locks)
          ≡ keep (λ entry. not (nat_beq entry.holder txn)) (entries_of resource locks))
unfolding release_entries
release_all_complete txn resource locks = (
  rw entries_of-release_all (release_entries-holder txn (entries_of resource locks)),
  entries_of-release_all txn resource locks,
)
