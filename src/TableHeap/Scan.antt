-- ===== src/TableHeap/Scan.antt =====
-- The scan of the heap, which goes on behind the last page of the file.
use my_database_engine.Common.{
  ℕ, zero, suc, ◌+◌, ◌-◌, ◌≤◌, ◌<◌, ◌≡◌, inl, inr, refl, ap, false, Option, List, [], arith,
  Option-cases, Bool-cases, find, number_key, ltb,
}
use my_database_engine.Ast.{Row}
use my_database_engine.Mvcc.{MvccSnapshot}
use my_database_engine.Page.{Page, new_page_of}
use my_database_engine.Disk.{
  StorageError, DiskManager, no_such_page, all_pinned, Result, ok, error, read_page,
}
use my_database_engine.BufferPool
use my_database_engine.BufferPool.{BufferPool, fetch_page, make_room, load_page, unpin}
use my_database_engine.BufferPool.Cache.{IsPool}
use my_database_engine.BufferPool.Evict.{MakesRoom, room, full, make_room-MakesRoom}
use my_database_engine.BufferPool.Fetch.{HasFetched, Fetches, fetched, refused, fetch_page-Fetches}
use my_database_engine.SlottedPage.{
  Access, done, out_of_bounds, RowId, invalid_page_id, record_count,
}
use my_database_engine.TableHeap.{
  TableHeap, HeapResult, returns, throws, undefined, after, scan_slots, scan_loop, scan,
}
use my_database_engine.TableHeap.Heap.{HasLeft-clean}

-- The call does not return.
abbrev pub Fails {ℓ} : {A : Type ℓ} → HeapResult A → Type 0
Fails (returns a pool) = ⊥
Fails (throws e pool) = Unit
Fails undefined = Unit

read_page-missing :
    (id : ℕ) (page : Page) (disk : DiskManager)
    → disk.page_count ≤ id
    → read_page id page disk ≡ (error (no_such_page id), disk)
unfolding read_page
read_page-missing id page disk h =
    let past : ltb id disk.page_count ≡ false = ground (arith, h) in rw past refl

-- A page that the file does not have is not fetched.
pub fetch_page-missing :
    (id : ℕ) (pool : BufferPool)
    → IsPool pool
    → pool.disk.page_count ≤ id
    → (e : StorageError) × (pool' : BufferPool) × (fetch_page id pool ≡ (error e, pool'))
unfolding fetch_page load_page
fetch_page-missing id pool h past = elim (Option-cases (find id pool.pages)) [
  | inr (p, e) ↦ absurd (omega (arith, (h.held id p e).inside, past))
  | inl e ↦ rw (fetch_page, e) (go (make_room pool) (make_room-MakesRoom pool h))
]
  where
    go :
        (r : Result {0} Unit × BufferPool)
        → MakesRoom pool r
        → (e : StorageError) × (pool' : BufferPool) × (BufferPool.and_then r
              (λ _ made. load_page id made)
            ≡ (error e, pool'))
    go _ (room made keeps free) =
        let behind : made.disk.page_count ≤ id = omega (arith, keeps.count, past) in
        let read = read_page-missing id (new_page_of id) made.disk behind in
        (
          no_such_page id,
          record made { disk = (read_page id (new_page_of id) made.disk).1 },
          rw (load_page, ap (λ r. r.0) read) refl,
        )
    go _ (full all k) = (all_pinned, pool, refl)

-- A fetch gives a page, or throws.
data Gives (id : ℕ) (pool : BufferPool) : Result Page × BufferPool → Type 0 where
  gives :
      (page : Page) (pool' : BufferPool)
      → id < pool.disk.page_count
      → HasFetched id pool page pool'
      → Gives id pool (ok page, pool')
  fails : (e : StorageError) (pool' : BufferPool) → Gives id pool (error e, pool')

fetch_page-Gives : (id : ℕ) (pool : BufferPool) → IsPool pool → Gives id pool (fetch_page id pool)
fetch_page-Gives id pool h = elim (Bool-cases (ltb id pool.disk.page_count)) [
  | inl t ↦
      let inside : id < pool.disk.page_count = ground (arith, t) in
      go (fetch_page id pool) inside (fetch_page-Fetches id pool h inside)
  | inr t ↦
      let (e, pool', is) = fetch_page-missing id pool h (ground (arith, t)) in rw is (fails e pool')
]
  where
    go :
        (r : Result Page × BufferPool)
        → id < pool.disk.page_count
        → Fetches id pool r
        → Gives id pool r
    go _ inside (fetched page pool' f) = gives page pool' inside f
    go _ inside (refused all crowded) = fails all_pinned pool

-- The loop meets a page that the file does not have before the ids are used up.
scan_loop-Fails :
    (snapshot : Option MvccSnapshot) (n id : ℕ) (rows : List (RowId × Row)) (pool : BufferPool)
    → IsPool pool
    → id ≤ pool.disk.page_count
    → pool.disk.page_count < id + n
    → Fails (scan_loop snapshot n id rows pool)
unfolding scan_loop
scan_loop-Fails snapshot zero id rows pool h low k = absurd (omega (arith, low, k))
scan_loop-Fails snapshot (suc n) id rows pool h low k =
    go (fetch_page id pool) (fetch_page-Gives id pool h) λ found pool'' valid count inside.
      scan_loop-Fails snapshot n (id + 1) found pool'' valid (omega (arith, count, inside))
        (omega (arith, count, k))
  where
    Again : Type 0
    Again =
        (found : List (RowId × Row)) (pool'' : BufferPool)
        → IsPool pool''
        → pool''.disk.page_count ≡ pool.disk.page_count
        → id < pool.disk.page_count
        → Fails (scan_loop snapshot n (id + 1) found pool'')

    next :
        (page : Page) (pool' : BufferPool) (a : Access (List (RowId × Row)))
        → id < pool.disk.page_count
        → HasFetched id pool page pool'
        → Again
        → Fails (elim a as (λ _. HeapResult (List (RowId × Row))) [
          | done found ↦ scan_loop snapshot n (id + 1) found (unpin id false pool')
          | out_of_bounds ↦ undefined
        ])
    next page pool' out_of_bounds inside f again = tt
    next page pool' (done found) inside f again =
        let left = HasLeft-clean id page pool pool' f in
        again found (unpin id false pool') left.valid left.count inside

    go :
        (r : Result Page × BufferPool)
        → Gives id pool r
        → Again
        → Fails (
            after r λ page pool'.
              elim (scan_slots snapshot id page.bytes (record_count page.bytes) rows)
                as (λ _. HeapResult (List (RowId × Row))) [
                  | done found ↦ scan_loop snapshot n (id + 1) found (unpin id false pool')
                  | out_of_bounds ↦ undefined
                ])
    go _ (gives page pool' inside f) again =
        next page pool' (scan_slots snapshot id page.bytes (record_count page.bytes) rows) inside f
          again
    go _ (fails e pool') again = tt

-- On a valid pool over a file with fewer than 2^32 - 1 pages, scan of a heap whose page the file has
-- never returns: it throws, or it reads outside a page.
pub scan-Fails :
    (snapshot : Option MvccSnapshot) (heap : TableHeap) (pool : BufferPool)
    → IsPool pool
    → heap.first_page_id < pool.disk.page_count
    → pool.disk.page_count < invalid_page_id
    → Fails (scan snapshot heap pool)
unfolding scan
scan-Fails snapshot heap pool h inside few =
    scan_loop-Fails snapshot (invalid_page_id - heap.first_page_id) heap.first_page_id [] pool h
      (omega (arith, inside)) (omega (arith, inside, few))
