-- ===== src/TableHeap/Delete.antt =====
-- Deleting a row of the heap.
use my_database_engine.Common.{
  ℕ, ◌≤◌, ◌≡◌, ◌≢◌, refl, ap, ◌∙◌, Bool, true, false, Option, none, some, List, length, find,
  number_key,
}
use my_database_engine.Ast.{Row}
use my_database_engine.Page.{Page}
use my_database_engine.Disk.{Result, all_pinned}
use my_database_engine.BufferPool.{BufferPool, fetch_page}
use my_database_engine.BufferPool.Cache.{contents}
use my_database_engine.BufferPool.Evict.{IsPinned}
use my_database_engine.BufferPool.Fetch.{HasFetched, Fetches, fetched, refused, fetch_page-Fetches}
use my_database_engine.SlottedPage.{Access, done, RowId, get_slot, clear_slot}
use my_database_engine.SlottedPage.Clear.{HasCleared, Clears, cleared, nothing, clear_slot-Clears}
use my_database_engine.TableHeap.{
  TableHeap, HeapResult, returns, throws, after, deleted, get_row, delete_row,
}
use my_database_engine.TableHeap.Pinned.{HasLeft, HasLeft-same}
use my_database_engine.TableHeap.Heap.{
  IsHeap, HasLeft-clean, HasLeft-written, get_row-held, IsHeap-left,
}

abbrev pub row_id : TableHeap → ℕ → RowId
row_id heap i = record { page_id = heap.first_page_id; slot_index = i }

-- What a deletion has done to the heap.
pub record HasDeleted (heap : TableHeap) (i : ℕ) (pool pool' : BufferPool) : Type 0 where
  pub kept : IsHeap heap pool'
  pub read : (pool'' : BufferPool) × (get_row (row_id heap i) pool' ≡ returns none pool'')
  pub rows :
      (j : ℕ)
      → i ≢ j
      → get_slot j (contents heap.first_page_id pool')
        ≡ get_slot j (contents heap.first_page_id pool)
  pub pages : (k : ℕ) → heap.first_page_id ≢ k → contents k pool' ≡ contents k pool
  pub held : (p : Page) × (find heap.first_page_id pool'.pages ≡ some p)

pub data Deletes (heap : TableHeap) (i : ℕ) (pool : BufferPool) : HeapResult Bool → Type 0 where
  deletes :
      (row : Row) (pool' : BufferPool)
      → get_slot i (contents heap.first_page_id pool) ≡ done (some row)
      → HasDeleted heap i pool pool'
      → Deletes heap i pool (returns true pool')
  missing :
      (pool' : BufferPool)
      → get_slot i (contents heap.first_page_id pool) ≡ done none
      → IsHeap heap pool'
      → ((k : ℕ) → contents k pool' ≡ contents k pool)
      → Deletes heap i pool (returns false pool')
  all_in_use :
      ((k : ℕ) → IsPinned pool k)
      → pool.pool_size ≤ length pool.pages
      → Deletes heap i pool (throws all_pinned pool)

module _ (heap : TableHeap) (i : ℕ) (pool : BufferPool) (h : IsHeap heap pool) where
  deleted_row :
      (bytes' : List ℕ) (pool' : BufferPool)
      → HasCleared i (contents heap.first_page_id pool) bytes'
      → HasLeft heap.first_page_id bytes' pool pool'
      → HasDeleted heap i pool pool'
  deleted_row bytes' pool' gone left =
      let reads =
        get_row-held (row_id heap i) pool' left.held.0 none left.valid left.held.1
          (ap (get_slot i) left.now ∙ gone.gone) in
      record {
        kept = IsHeap-left heap bytes' pool pool' h gone.valid gone.id left;
        read = (reads.0, reads.1);
        rows = λ j differ. ap (get_slot j) left.now ∙ gone.others j differ;
        pages = left.others;
        held = left.held;
      }

  deleted-Deletes :
      (page : Page) (pool' : BufferPool) (result : Access (Option (List ℕ)))
      → HasFetched heap.first_page_id pool page pool'
      → Clears i (contents heap.first_page_id pool) result
      → Deletes heap i pool (deleted heap.first_page_id page result pool')
  deleted-Deletes page pool' _ f (cleared row bytes' shows gone) =
      let left = HasLeft-written heap.first_page_id page pool pool' bytes' f gone.valid.full in
      deletes row _ shows (deleted_row bytes' _ gone left)
  deleted-Deletes page pool' _ f (nothing shows) =
      let left = HasLeft-clean heap.first_page_id page pool pool' f in
      missing _ shows (IsHeap-left heap _ pool _ h h.slotted refl left)
        (HasLeft-same heap.first_page_id pool _ left)

  -- On a heap, deleteRow returns true where the slot shows a row: the slot reads as none then, and
  -- every other slot and page is as it was; it returns false and changes nothing where the slot shows
  -- none; or the pool throws and changes nothing, where it is full and all its pages are pinned.
  pub delete_row-Deletes : Deletes heap i pool (delete_row (row_id heap i) pool)
  unfolding delete_row
  delete_row-Deletes =
      go (fetch_page heap.first_page_id pool)
        (fetch_page-Fetches heap.first_page_id pool h.valid h.inside)
    where
      go :
          (r : Result Page × BufferPool)
          → Fetches heap.first_page_id pool r
          → Deletes heap i pool (
              after r λ page pool'. deleted heap.first_page_id page (clear_slot i page.bytes) pool')
      go _ (fetched page pool' f) =
          deleted-Deletes page pool' _ f
            (rw f.given (clear_slot-Clears i (contents heap.first_page_id pool) h.slotted))
      go _ (refused all full) = all_in_use all full
