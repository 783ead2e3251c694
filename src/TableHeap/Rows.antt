-- ===== src/TableHeap/Rows.antt =====
-- Inserting rows into the heap, and reading them back.
use my_database_engine.Common.{
  ℕ, ◌+◌, ◌^◌, ◌≤◌, ◌<◌, ◌≡◌, ◌≢◌, refl, ap, ◌∙◌, some, List, length, find, number_key,
}
use my_database_engine.Ast.{Row}
use my_database_engine.RowCodec.{serialize_row, deserialize_row}
use my_database_engine.Page.{Page, pin}
use my_database_engine.Disk.{Result, all_pinned}
use my_database_engine.BufferPool.{BufferPool, fetch_page}
use my_database_engine.BufferPool.Cache.{contents}
use my_database_engine.BufferPool.Evict.{IsPinned}
use my_database_engine.BufferPool.Fetch.{
  HasFetched, Fetches, fetched, refused, fetch_page-Fetches, hit,
}
use my_database_engine.SlottedPage.{
  Access, RowId, invalid_page_id, slot_place, slot_size, record_count, get_slot, insert_into_page,
}
use my_database_engine.SlottedPage.Insert.{
  HasInserted, Inserts, inserted, no_room, overruns, data_first, insert_into_page-Inserts,
}
use my_database_engine.TableHeap.{
  TableHeap, HeapResult, returns, throws, undefined, after, stored, insert_row, get_row,
}
use my_database_engine.TableHeap.Pinned.{HasLeft, HasLeft-same}
use my_database_engine.TableHeap.Heap.{IsHeap, HasLeft-written, get_row-held, IsHeap-left}

-- The slot where the next row goes.
abbrev pub next_row_id : TableHeap → BufferPool → RowId
next_row_id heap pool = record {
  page_id = heap.first_page_id;
  slot_index = record_count (contents heap.first_page_id pool);
}

-- What an inserted row has done to the heap.
pub record HasStored (heap : TableHeap) (row : Row) (pool pool' : BufferPool) : Type 0 where
  pub kept : IsHeap heap pool'
  pub read :
      (pool'' : BufferPool) × (get_row (next_row_id heap pool) pool'
        ≡ returns (some (deserialize_row (serialize_row row))) pool'')
  pub rows :
      (i : ℕ)
      → i < record_count (contents heap.first_page_id pool)
      → get_slot i (contents heap.first_page_id pool')
        ≡ get_slot i (contents heap.first_page_id pool)
  pub pages : (k : ℕ) → heap.first_page_id ≢ k → contents k pool' ≡ contents k pool

-- What an insertion into the heap's page gives.
pub data Places (heap : TableHeap) (row : Row) (pool : BufferPool) : HeapResult RowId → Type 0 where
  stores :
      (pool' : BufferPool)
      → HasStored heap row pool pool'
      → Places heap row pool (returns (next_row_id heap pool) pool')
  no_space :
      (pool' : BufferPool)
      → data_first (contents heap.first_page_id pool)
        < slot_place (record_count (contents heap.first_page_id pool))
          + slot_size
          + length (serialize_row row)
      → IsHeap heap pool'
      → ((k : ℕ) → contents k pool' ≡ contents k pool)
      → Places heap row pool (returns (record { page_id = invalid_page_id; slot_index = 0 }) pool')
  too_long :
      data_first (contents heap.first_page_id pool) < length (serialize_row row)
      → Places heap row pool undefined

pub data Stores (heap : TableHeap) (row : Row) (pool : BufferPool) : HeapResult RowId → Type 0 where
  places : (r : HeapResult RowId) → Places heap row pool r → Stores heap row pool r
  all_in_use :
      ((k : ℕ) → IsPinned pool k)
      → pool.pool_size ≤ length pool.pages
      → Stores heap row pool (throws all_pinned pool)

module _ (heap : TableHeap) (row : Row) (pool : BufferPool) (h : IsHeap heap pool) where
  stored_row :
      (bytes' : List ℕ) (pool' : BufferPool)
      → HasInserted row (contents heap.first_page_id pool) bytes'
      → HasLeft heap.first_page_id bytes' pool pool'
      → HasStored heap row pool pool'
  stored_row bytes' pool' put left =
      let reads =
        get_row-held (next_row_id heap pool) pool' left.held.0
          (some (deserialize_row (serialize_row row))) left.valid left.held.1
          (ap (get_slot (record_count (contents heap.first_page_id pool))) left.now ∙ put.shown) in
      record {
        kept = IsHeap-left heap bytes' pool pool' h put.valid put.id left;
        read = (reads.0, reads.1);
        rows = λ i k. ap (get_slot i) left.now ∙ put.others i k;
        pages = left.others;
      }

  stored-Places :
      (page : Page) (pool' : BufferPool) (result : Access (RowId × List ℕ))
      → HasFetched heap.first_page_id pool page pool'
      → Inserts row (contents heap.first_page_id pool) result
      → Places heap row pool (stored heap.first_page_id page result pool')
  stored-Places page pool' _ f (inserted bytes' room put) =
      let left = HasLeft-written heap.first_page_id page pool pool' bytes' f put.valid.full in
      rw h.named (stores _ (stored_row bytes' _ put left))
  stored-Places page pool' _ f (no_room fits full) =
      let bytes = contents heap.first_page_id pool in
      let left = HasLeft-written heap.first_page_id page pool pool' bytes f h.slotted.full in
      no_space _ full (IsHeap-left heap bytes pool _ h h.slotted refl left)
        (HasLeft-same heap.first_page_id pool _ left)
  stored-Places page pool' _ f (overruns long) = too_long long

  put_into :
      (unset : ℕ)
      → length (serialize_row row) < 2 ^ 16
      → (page : Page) → page.bytes ≡ contents heap.first_page_id pool
      → Inserts row (contents heap.first_page_id pool) (insert_into_page unset row page.bytes)
  put_into unset small page given =
      rw given
        (insert_into_page-Inserts unset row (contents heap.first_page_id pool) h.slotted small)

  -- With its page in memory, the pool does not throw.
  pub insert_row-held :
      (unset : ℕ)
      → length (serialize_row row) < 2 ^ 16
      → (p : Page) → find heap.first_page_id pool.pages ≡ some p
      → Places heap row pool (insert_row unset heap row pool)
  unfolding insert_row fetch_page
  insert_row-held unset small p e =
      let got = hit heap.first_page_id p pool h.valid e in
      rw (insert_row, fetch_page, e)
        (stored-Places (pin p) _ _ got (put_into unset small (pin p) got.given))

  -- On a heap, a row of fewer than 2^16 bytes is inserted: the id that is returned reads the row as
  -- its text form gives it, each slot before it and each other page are as they were, and the heap is
  -- a heap; or, with no room for the row and a slot, the invalid id is returned and nothing changes;
  -- or bytes outside the page are accessed, where the row is longer than what lies in front of the
  -- data; or the pool throws and changes nothing, where it is full and all its pages are pinned.
  pub insert_row-Stores :
      (unset : ℕ)
      → length (serialize_row row) < 2 ^ 16
      → Stores heap row pool (insert_row unset heap row pool)
  unfolding insert_row
  insert_row-Stores unset small =
      go (fetch_page heap.first_page_id pool)
        (fetch_page-Fetches heap.first_page_id pool h.valid h.inside)
    where
      go :
          (r : Result Page × BufferPool)
          → Fetches heap.first_page_id pool r
          → Stores heap row pool (
              after r λ page pool'.
                stored heap.first_page_id page (insert_into_page unset row page.bytes) pool')
      go _ (fetched page pool' f) =
          places _ (stored-Places page pool' _ f (put_into unset small page f.given))
      go _ (refused all full) = all_in_use all full
