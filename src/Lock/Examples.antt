-- ===== src/Lock/Examples.antt =====
-- The lock calls of `main`, and the theorems at them.
use my_database_engine.Common.{
  true, false, [], ◌∷◌, codes, text_beq, find, assign, List, ◌≡◌, ◌↔◌, ◌≢◌, refl, All, keep, not,
  nat_beq, ◌&&◌, ◌++◌, Text, ◌==◌, text_key, if◌then◌else◌,
}
use my_database_engine.Lock.{
  shared, exclusive, entries_of, acquire_lock, has_conflict, release_all, release_entries,
}
use my_database_engine.Lock.Exclusion.{
  Call, acquire, run_calls, run_calls-IsSafe, IsSafe, acquire_lock_granted, Compatible, new_entry,
  release_all_complete,
}

abbrev calls : List Call
calls = acquire 1 (codes "users:1") shared ∷ acquire 2 (codes "users:1") shared ∷ []

third_is_denied : (acquire_lock 3 (codes "users:1") exclusive (run_calls calls [])).0 ≡ false
unfolding acquire_lock run_calls entries_of find assign has_conflict text_beq
third_is_denied = refl

-- A transaction that holds the resource shared is granted it exclusively.
own_lock_is_granted :
    (acquire_lock 1 (codes "users:1") exclusive (acquire_lock 1 (codes "users:1") shared []).1).0
    ≡ true
unfolding acquire_lock entries_of find assign has_conflict text_beq
own_lock_is_granted = refl

third_after_release :
    (acquire_lock 3
      (codes "users:1")
      exclusive
      (release_all 2 (release_all 1 (run_calls calls [])))).0
    ≡ true
unfolding acquire_lock run_calls entries_of find assign has_conflict text_beq release_all
    release_entries
third_after_release = refl

no_locks-IsSafe : IsSafe []
unfolding entries_of find
no_locks-IsSafe = record { at = λ resource. tt }

run_calls-IsSafe_example : IsSafe (run_calls calls [])
run_calls-IsSafe_example = run_calls-IsSafe calls [] no_locks-IsSafe

acquire_lock_granted_example :
    (((acquire_lock 3 (codes "users:1") exclusive (run_calls calls [])).0 ≡ true)
      ↔ All
          (λ entry. Compatible entry (new_entry 3 exclusive))
          (entries_of (codes "users:1") (run_calls calls [])))
    × ((other : Text)
        → entries_of other (acquire_lock 3 (codes "users:1") exclusive (run_calls calls [])).1 ≡ (
            if (acquire_lock 3 (codes "users:1") exclusive (run_calls calls [])).0
              && (codes "users:1" == other)
            then entries_of other (run_calls calls []) ++ new_entry 3 exclusive ∷ []
            else entries_of other (run_calls calls [])))
acquire_lock_granted_example =
    acquire_lock_granted 3 (codes "users:1") exclusive (run_calls calls [])

release_all_complete_example :
    All
      (λ entry. entry.holder ≢ 1)
      (entries_of (codes "users:1") (release_all 1 (run_calls calls [])))
    × (entries_of (codes "users:1") (release_all 1 (run_calls calls []))
        ≡ keep
            (λ entry. not (nat_beq entry.holder 1))
            (entries_of (codes "users:1") (run_calls calls [])))
release_all_complete_example = release_all_complete 1 (codes "users:1") (run_calls calls [])
