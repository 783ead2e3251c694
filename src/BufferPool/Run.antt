-- ===== src/BufferPool/Run.antt =====
-- The pool from its start.
use my_database_engine.Common.{
  ℕ, ◌+◌, ◌^◌, ◌≤◌, ◌<◌, ◌≡◌, inl, inr, refl, ◌∙◌, Bool, List, [], ◌∷◌, arith, length, find,
  number_key, Bool-cases, Option-cases, ltb,
}
use my_database_engine.Page.{Page}
use my_database_engine.Disk.{Result, error, no_such_page, open_disk, read_page}
use my_database_engine.Disk.Pages.{open_disk-IsReady}
use my_database_engine.BufferPool.{
  BufferPool, new_pool, fetch_page, load_page, make_room, and_then, new_page, unpin, flush_page,
  flush_all, keys,
}
use my_database_engine.BufferPool.Cache.{IsPool, contents, is_listed}
use my_database_engine.BufferPool.Evict.{MakesRoom, room, full, make_room-MakesRoom}
use my_database_engine.BufferPool.Fetch.{Fetches, fetched, fetch_page-Fetches}
use my_database_engine.BufferPool.Create.{Creates, created, new_page-Creates}
use my_database_engine.BufferPool.Flush.{unpin-IsPool, flush_page-Flushes, flush_each-Flushes}

-- A new pool over a file that has just been opened satisfies the invariant.
pub new_pool-IsPool : (size : ℕ) (bytes : List ℕ) → IsPool (new_pool size (open_disk bytes))
unfolding new_pool is_listed find
new_pool-IsPool size bytes = record {
  ready = (open_disk-IsReady bytes).0;
  few = (open_disk-IsReady bytes).1;
  held = λ k page e. absurd (cc e);
  cached = λ k. refl;
  mapped = λ k. refl;
  once = tt;
  bound = omega arith;
}

-- The calls of the pool's clients.
pub data Call : Type 0 where
  fetch : ℕ → Call
  create : Call
  release : ℕ → Bool → Call
  flush : ℕ → Call
  flush_everything : Call

-- The pool behind a call, whether it has thrown or not.
unfoldable pub after_call : Call → BufferPool → BufferPool
after_call (fetch id) pool = (fetch_page id pool).1
after_call create pool = (new_page pool).1
after_call (release id dirty) pool = unpin id dirty pool
after_call (flush id) pool = (flush_page id pool).1
after_call flush_everything pool = (flush_all pool).1

unfoldable pub run_calls : List Call → BufferPool → BufferPool
run_calls [] pool = pool
run_calls (c ∷ cs) pool = run_calls cs (after_call c pool)

-- What any call keeps: the invariant, and the bytes of the pages that there are.
pub record Stays (pool pool' : BufferPool) : Type 0 where
  pub valid : IsPool pool'
  pub bytes : (k : ℕ) → k < pool.disk.page_count → contents k pool' ≡ contents k pool
  pub grows : pool.disk.page_count ≤ pool'.disk.page_count
  pub slowly : pool'.disk.page_count ≤ pool.disk.page_count + 1

same_bytes :
    (pool pool' : BufferPool)
    → IsPool pool'
    → ((k : ℕ) → contents k pool' ≡ contents k pool)
    → pool'.disk.page_count ≡ pool.disk.page_count
    → Stays pool pool'
same_bytes pool pool' h bytes count = record {
  valid = h;
  bytes = λ k _. bytes k;
  grows = omega (arith, count);
  slowly = omega (arith, count);
}

-- fetchPage of a page that the file has not: it throws, perhaps after an eviction.
fetch_missing :
    (id : ℕ) (pool : BufferPool)
    → IsPool pool
    → pool.disk.page_count ≤ id
    → Stays pool (fetch_page id pool).1
unfolding fetch_page load_page read_page
fetch_missing id pool h outside = elim (Option-cases (find id pool.pages)) [
  | inr (page, e) ↦ absurd (omega (arith, (h.held id page e).inside, outside))
  | inl e ↦ rw (fetch_page, e) (go (make_room pool) (make_room-MakesRoom pool h))
]
  where
    go :
        (r : Result {0} Unit × BufferPool)
        → MakesRoom pool r
        → Stays pool (and_then r (λ _ pool'. load_page id pool')).1
    go _ (room pool' keeps free) =
        let is : load_page id pool' ≡ (error (no_such_page id), pool') =
          ground (arith, keeps.count, outside) in
        rw is (same_bytes pool pool' keeps.valid keeps.bytes keeps.count)
    go _ (full all k) = same_bytes pool pool h (λ k. refl) refl

fetch-Stays : (id : ℕ) (pool : BufferPool) → IsPool pool → Stays pool (fetch_page id pool).1
fetch-Stays id pool h = elim (Bool-cases (ltb id pool.disk.page_count)) [
  | inl t ↦ go (fetch_page id pool) (fetch_page-Fetches id pool h (ground (arith, t)))
  | inr t ↦ fetch_missing id pool h (ground (arith, t))
]
  where
    go : (r : Result Page × BufferPool) → Fetches id pool r → Stays pool r.1
    go _ (fetched page pool' has) = same_bytes pool pool' has.valid has.bytes has.count
    go _ (Fetches.refused all k) = same_bytes pool pool h (λ k. refl) refl

create-Stays :
    (pool : BufferPool)
    → IsPool pool
    → pool.disk.page_count + 1 < 2 ^ 32
    → Stays pool (new_page pool).1
create-Stays pool h small = go (new_page pool) (new_page-Creates pool h small)
  where
    go : (r : Result ℕ × BufferPool) → Creates pool r → Stays pool r.1
    go _ (created pool' has) = record {
      valid = has.valid;
      bytes = λ k inside. has.bytes k (λ i. omega (arith, i, inside));
      grows = omega (arith, has.count);
      slowly = omega (arith, has.count);
    }
    go _ (Creates.refused all k) = same_bytes pool pool h (λ k. refl) refl

after_call-Stays :
    (c : Call) (pool : BufferPool)
    → IsPool pool
    → pool.disk.page_count + 1 < 2 ^ 32
    → Stays pool (after_call c pool)
unfolding after_call flush_all
after_call-Stays (fetch id) pool h small = fetch-Stays id pool h
after_call-Stays create pool h small = create-Stays pool h small
after_call-Stays (release id dirty) pool h small =
    let (valid, bytes, count) = unpin-IsPool id dirty pool h in same_bytes pool _ valid bytes count
after_call-Stays (flush id) pool h small =
    let (done, after, now) = flush_page-Flushes id pool h in
    same_bytes pool _ after.valid after.bytes after.count
after_call-Stays flush_everything pool h small =
    let (done, after, now) = flush_each-Flushes (keys pool.pages) pool h in
    same_bytes pool _ after.valid after.bytes after.count

-- Whatever the pool's clients call, with evictions, refusals and exceptions, the invariant holds
-- (the list, its map and the pages agree, the bound on the pages in memory, a page that is not dirty
-- is as in the file) and each page that the file had keeps its bytes. The condition: the page ids
-- are not used up.
pub run_calls-IsPool :
    (calls : List Call) (pool : BufferPool)
    → IsPool pool
    → pool.disk.page_count + length calls < 2 ^ 32
    → IsPool (run_calls calls pool)
      × ((k : ℕ) → k < pool.disk.page_count → contents k (run_calls calls pool) ≡ contents k pool)
unfolding run_calls
run_calls-IsPool [] pool h small = (h, λ k inside. refl)
run_calls-IsPool (c ∷ cs) pool h small =
    let step = after_call-Stays c pool h (omega arith) in
    let (valid, bytes) =
      run_calls-IsPool cs (after_call c pool) step.valid (omega (arith, step.slowly)) in
    (valid, λ k inside. bytes k (omega (arith, step.grows)) ∙ step.bytes k inside)
