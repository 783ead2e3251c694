-- ===== src/TableHeap/Update.antt =====
-- Updating a row of the heap: it is deleted, and the new one inserted; what that returns is dropped.
use my_database_engine.Common.{ℕ, ◌+◌, ◌^◌, ◌≤◌, ◌<◌, ◌≡◌, Bool, true, false, none, some, length}
use my_database_engine.Ast.{Row}
use my_database_engine.RowCodec.{serialize_row}
use my_database_engine.Disk.{all_pinned}
use my_database_engine.BufferPool.{BufferPool}
use my_database_engine.BufferPool.Cache.{contents}
use my_database_engine.BufferPool.Evict.{IsPinned}
use my_database_engine.SlottedPage.{done, slot_place, slot_size, record_count, get_slot}
use my_database_engine.SlottedPage.Insert.{data_first}
use my_database_engine.TableHeap.{
  TableHeap, HeapResult, returns, throws, undefined, updated, reinsert, update_row,
}
use my_database_engine.TableHeap.Heap.{IsHeap}
use my_database_engine.TableHeap.Rows.{
  HasStored, Places, stores, no_space, too_long, insert_row-held,
}
use my_database_engine.TableHeap.Delete.{
  row_id, HasDeleted, Deletes, deletes, missing, all_in_use, delete_row-Deletes,
}

pub data Updates (heap : TableHeap) (i : ℕ) (row : Row) (pool : BufferPool)
    : HeapResult Bool → Type 0 where
  replaces :
      (old : Row) (mid pool' : BufferPool)
      → get_slot i (contents heap.first_page_id pool) ≡ done (some old)
      → HasDeleted heap i pool mid
      → HasStored heap row mid pool'
      → Updates heap i row pool (returns true pool')
  loses :
      (old : Row) (mid pool' : BufferPool)
      → get_slot i (contents heap.first_page_id pool) ≡ done (some old)
      → HasDeleted heap i pool mid
      → data_first (contents heap.first_page_id mid)
        < slot_place (record_count (contents heap.first_page_id mid))
          + slot_size
          + length (serialize_row row)
      → IsHeap heap pool'
      → ((k : ℕ) → contents k pool' ≡ contents k mid)
      → Updates heap i row pool (returns true pool')
  overruns :
      (old : Row) (mid : BufferPool)
      → get_slot i (contents heap.first_page_id pool) ≡ done (some old)
      → HasDeleted heap i pool mid
      → data_first (contents heap.first_page_id mid) < length (serialize_row row)
      → Updates heap i row pool undefined
  absent :
      (pool' : BufferPool)
      → get_slot i (contents heap.first_page_id pool) ≡ done none
      → IsHeap heap pool'
      → ((k : ℕ) → contents k pool' ≡ contents k pool)
      → Updates heap i row pool (returns false pool')
  pinned :
      ((k : ℕ) → IsPinned pool k)
      → pool.pool_size ≤ length pool.pages
      → Updates heap i row pool (throws all_pinned pool)

module _ (heap : TableHeap) (i : ℕ) (row : Row) (pool : BufferPool) where
  updated-Updates :
      (old : Row) (mid : BufferPool) (r : HeapResult _)
      → get_slot i (contents heap.first_page_id pool) ≡ done (some old)
      → HasDeleted heap i pool mid
      → Places heap row mid r
      → Updates heap i row pool (updated r)
  updated-Updates old mid _ shows gone (stores pool' put) = replaces old mid pool' shows gone put
  updated-Updates old mid _ shows gone (no_space pool' full is same) =
      loses old mid pool' shows gone full is same
  updated-Updates old mid _ shows gone (too_long long) = overruns old mid shows gone long

  -- On a heap, updateRow with a row of fewer than 2^16 bytes returns true where the slot shows a row,
  -- after that row is deleted: the new row is inserted then, or, with no room for it and a slot, it is
  -- not, and the row is lost, or bytes outside the page are accessed, where it is longer than what
  -- lies in front of the data. It returns false and changes nothing where the slot shows none; or the
  -- pool throws and changes nothing, where it is full and all its pages are pinned.
  pub update_row-Updates :
      (unset : ℕ)
      → IsHeap heap pool
      → length (serialize_row row) < 2 ^ 16
      → Updates heap i row pool (update_row unset heap (row_id heap i) row pool)
  unfolding update_row
  update_row-Updates unset h small = go _ (delete_row-Deletes heap i pool h)
    where
      go :
          (r : HeapResult Bool)
          → Deletes heap i pool r
          → Updates heap i row pool (reinsert unset heap row r)
      go _ (deletes old mid shows gone) =
          updated-Updates old mid _ shows gone
            (insert_row-held heap row mid gone.kept unset small gone.held.0 gone.held.1)
      go _ (missing pool' shows is same) = absent pool' shows is same
      go _ (all_in_use all full) = pinned all full
