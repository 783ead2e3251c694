-- ===== src/TableHeap.antt =====
-- include/table_heap.h and src/table_heap.cpp: rows in the pages of a buffer pool. A Page* is the page
-- that fetch_page gives; what is written through it is stored in the pool. unpin evicts nothing, so
-- what is read through a pointer behind it is what stood there before.
pub mod Pinned
pub mod Heap
pub mod Rows
pub mod Delete
pub mod Update
pub mod Scan
pub mod Create
mod Examples
use my_database_engine.Common.{
  ℕ, zero, suc, ◌+◌, ◌-◌, Bool, true, false, not, Option, none, some, List, [], ◌∷◌, ◌++◌, find,
  assign, number_key, if◌then◌else◌,
}
use my_database_engine.Ast.{Row}
use my_database_engine.Mvcc.{MvccSnapshot, VersionedRow, is_visible}
use my_database_engine.Page.{Page}
use my_database_engine.Disk.{StorageError, Result, ok, error}
use my_database_engine.BufferPool.{BufferPool, fetch_page, new_page, unpin}
use my_database_engine.SlottedPage.{
  Access, done, out_of_bounds, RowId, invalid_page_id, has_place, is_valid, read_slot, record_count,
  page_id_of, row_at, get_slot, clear_slot, insert_into_page,
}

-- The pool is passed on; firstPageId_ is the heap's own.
pub record TableHeap : Type 0 where
  pub first_page_id : ℕ

-- `undefined` is an access outside a page.
pub data HeapResult {ℓ} (A : Type ℓ) : Type ℓ where
  returns : A → BufferPool → HeapResult A
  throws : StorageError → BufferPool → HeapResult A
  undefined : HeapResult A

-- The rest of a call, after a call of the buffer pool that may throw.
abbrev pub after {ℓ κ} :
    {A : Type ℓ} {B : Type κ}
    → Result A × BufferPool
    → (A → BufferPool → HeapResult B)
    → HeapResult B
after (error e, pool) f = throws e pool
after (ok a, pool) f = f a pool

-- What is written through the pointer to a page.
abbrev pub store_bytes : ℕ → Page → List ℕ → BufferPool → BufferPool
store_bytes id page bytes pool = record pool {
  pages = assign id (record page { bytes = bytes }) pool.pages;
}

-- The end of create, with the page that the pointer shows.
abbrev pub heap_on : Option Page → BufferPool → HeapResult TableHeap
heap_on none pool = undefined
heap_on (some page) pool =
    returns (record { first_page_id = page_id_of page.bytes })
      (unpin (page_id_of page.bytes) true pool)

-- TableHeap::create
unfoldable pub create : BufferPool → HeapResult TableHeap
unfolding new_page page_id_of unpin
create pool = after (new_page pool) λ created pool'. heap_on (find created pool'.pages) pool'

-- The end of insertRow, behind insertIntoPage.
abbrev pub stored : ℕ → Page → Access (RowId × List ℕ) → BufferPool → HeapResult RowId
stored id page (done (rid, bytes)) pool =
    returns rid (unpin id true (store_bytes id page bytes pool))
stored id page out_of_bounds pool = undefined

-- TableHeap::insertRow
unfoldable pub insert_row : ℕ → TableHeap → Row → BufferPool → HeapResult RowId
unfolding fetch_page insert_into_page unpin
insert_row unset heap row pool =
    after (fetch_page heap.first_page_id pool)
      λ page pool'. stored heap.first_page_id page (insert_into_page unset row page.bytes) pool'

-- The end of getRow, behind the reads of the page.
abbrev pub shown : Access (Option Row) → BufferPool → HeapResult (Option Row)
shown (done found) pool = returns found pool
shown out_of_bounds pool = undefined

-- TableHeap::getRow
unfoldable pub get_row : RowId → BufferPool → HeapResult (Option Row)
unfolding fetch_page get_slot unpin
get_row rid pool =
    after (fetch_page rid.page_id pool)
      λ page pool'. shown (get_slot rid.slot_index page.bytes) (unpin rid.page_id false pool')

-- The end of deleteRow, behind the access to the slot.
abbrev pub deleted : ℕ → Page → Access (Option (List ℕ)) → BufferPool → HeapResult Bool
deleted id page out_of_bounds pool = undefined
deleted id page (done none) pool = returns false (unpin id false pool)
deleted id page (done (some bytes)) pool =
    returns true (unpin id true (store_bytes id page bytes pool))

-- TableHeap::deleteRow
unfoldable pub delete_row : RowId → BufferPool → HeapResult Bool
unfolding fetch_page clear_slot unpin
delete_row rid pool =
    after (fetch_page rid.page_id pool)
      λ page pool'. deleted rid.page_id page (clear_slot rid.slot_index page.bytes) pool'

-- The row id that insertRow returns is dropped.
abbrev pub updated : HeapResult RowId → HeapResult Bool
updated (returns rid pool) = returns true pool
updated (throws e pool) = throws e pool
updated undefined = undefined

-- updateRow, behind the slot's invalidation, which is deleteRow's.
abbrev pub reinsert : ℕ → TableHeap → Row → HeapResult Bool → HeapResult Bool
unfolding insert_row
reinsert unset heap row (returns true pool) = updated (insert_row unset heap row pool)
reinsert unset heap row (returns false pool) = returns false pool
reinsert unset heap row (throws e pool) = throws e pool
reinsert unset heap row undefined = undefined

-- TableHeap::updateRow; up to the call of insertRow its text is that of deleteRow.
unfoldable pub update_row : ℕ → TableHeap → RowId → Row → BufferPool → HeapResult Bool
unfolding delete_row insert_row
update_row unset heap rid row pool = reinsert unset heap row (delete_row rid pool)

-- The visibility of a row for a snapshot, if there is one.
unfoldable pub is_shown : Option MvccSnapshot → Row → Bool
unfolding is_visible
is_shown none row = true
is_shown (some snapshot) row =
    is_visible snapshot (record { row = row; created_by = 1; deleted_by = 0 })

-- One round of the loop of scan over the slots.
unfoldable pub scan_slot :
    Option MvccSnapshot → ℕ → List ℕ → ℕ → List (RowId × Row) → Access (List (RowId × Row))
unfolding read_slot row_at is_shown
scan_slot snapshot id bytes i rows =
    let e = read_slot bytes i in
    if not (has_place i)
    then out_of_bounds
    else if not (is_valid e)
    then done rows
    else elim (row_at e bytes) [
      | out_of_bounds ↦ out_of_bounds
      | done row ↦
          if is_shown snapshot row
          then done (rows ++ (record { page_id = id; slot_index = i }, row) ∷ [])
          else done rows
    ]

-- The loop over the first n slots of a page, onto the rows found so far.
unfoldable pub scan_slots :
    Option MvccSnapshot → ℕ → List ℕ → ℕ → List (RowId × Row) → Access (List (RowId × Row))
unfolding scan_slot
scan_slots snapshot id bytes zero rows = done rows
scan_slots snapshot id bytes (suc n) rows = elim (scan_slots snapshot id bytes n rows) [
  | done found ↦ scan_slot snapshot id bytes n found
  | out_of_bounds ↦ out_of_bounds
]

-- The loop of scan over the pages; n of them stand before INVALID_PAGE_ID.
unfoldable pub scan_loop :
    Option MvccSnapshot → ℕ → ℕ → List (RowId × Row) → BufferPool → HeapResult (List (RowId × Row))
unfolding fetch_page scan_slots record_count unpin
scan_loop snapshot zero id rows pool = returns rows pool
scan_loop snapshot (suc n) id rows pool = after (fetch_page id pool) λ page pool'.
    elim (scan_slots snapshot id page.bytes (record_count page.bytes) rows) [
      | done found ↦ scan_loop snapshot n (id + 1) found (unpin id false pool')
      | out_of_bounds ↦ undefined
    ]

-- TableHeap::scan
unfoldable pub scan : Option MvccSnapshot → TableHeap → BufferPool → HeapResult (List (RowId × Row))
unfolding scan_loop
scan snapshot heap pool =
    scan_loop snapshot (invalid_page_id - heap.first_page_id) heap.first_page_id [] pool
