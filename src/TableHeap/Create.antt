-- ===== src/TableHeap/Create.antt =====
-- A new heap.
use my_database_engine.Common.{
  ℕ, ◌+◌, ◌^◌, ◌≤◌, ◌<◌, ◌≡◌, ◌≢◌, refl, ap, ◌∙◌, true, none, length, arith, find, number_key,
}
use my_database_engine.Wal.Bytes.{le_bytes, le_value, le_value-le_bytes}
use my_database_engine.Page.{page_size, new_page_of, header_bytes}
use my_database_engine.Disk.{Result, all_pinned}
use my_database_engine.BufferPool.{BufferPool, new_page, unpin}
use my_database_engine.BufferPool.Cache.{IsPool, contents}
use my_database_engine.BufferPool.Evict.{IsPinned}
use my_database_engine.BufferPool.Create.{
  Creates, created, refused, new_page_full, new_page-Creates,
}
use my_database_engine.SlottedPage.{record_count, page_id_of, page_end, get_slot, done}
use my_database_engine.SlottedPage.Layout.{IsSlotted}
use my_database_engine.TableHeap.{TableHeap, HeapResult, returns, throws, after, heap_on, create}
use my_database_engine.TableHeap.Pinned.{unpin-dirty}
use my_database_engine.SlottedPage.Slots.{get_slot-absent}
use my_database_engine.TableHeap.Heap.{IsHeap}

fresh_count : (id : ℕ) → record_count (new_page_of id).bytes ≡ 0
unfolding record_count new_page_of header_bytes le_bytes le_value
fresh_count id = refl

fresh_id : (id : ℕ) → id < 2 ^ 32 → page_id_of (new_page_of id).bytes ≡ id
unfolding page_id_of new_page_of header_bytes le_bytes
fresh_id id h = le_value-le_bytes 4 id h

page_full : page_size ≡ page_end
unfolding page_size
page_full = refl

fresh-IsSlotted : (id : ℕ) → IsSlotted (new_page_of id).bytes
fresh-IsSlotted id = record {
  full = new_page_full id ∙ page_full;
  dir = omega (arith, fresh_count id);
  rows = λ i k. absurd (omega (arith, k, fresh_count id));
}

pub data Makes (pool : BufferPool) : HeapResult TableHeap → Type 0 where
  makes :
      (pool' : BufferPool)
      → IsHeap (record { first_page_id = pool.disk.page_count }) pool'
      → ((i : ℕ) → get_slot i (contents pool.disk.page_count pool') ≡ done none)
      → ((k : ℕ) → pool.disk.page_count ≢ k → contents k pool' ≡ contents k pool)
      → Makes pool (returns (record { first_page_id = pool.disk.page_count }) pool')
  all_in_use :
      ((k : ℕ) → IsPinned pool k)
      → pool.pool_size ≤ length pool.pages
      → Makes pool (throws all_pinned pool)

-- On a valid pool whose page ids are not used up, create makes a heap on a new page whose slots show
-- no row, and every other page is as it was; or the pool throws and changes nothing, where it is full
-- and all its pages are pinned.
pub create-Makes :
    (pool : BufferPool) → IsPool pool → pool.disk.page_count + 1 < 2 ^ 32 → Makes pool (create pool)
unfolding create
create-Makes pool h few = go (new_page pool) (new_page-Creates pool h few)
  where
    go :
        (r : Result ℕ × BufferPool)
        → Creates pool r
        → Makes pool (after r λ id pool'. heap_on (find id pool'.pages) pool')
    go _ (created pool' c) =
        let id = pool.disk.page_count in
        let (page, here, same) = c.present in
        let named : page_id_of page.bytes ≡ id =
          ap page_id_of same ∙ fresh_id id (omega (arith, few)) in
        let left = unpin-dirty id page pool' c.valid here (ap length same ∙ new_page_full id) in
        let now : contents id (unpin id true pool') ≡ (new_page_of id).bytes = left.now ∙ same in
        rw here (
          rw named (
            makes (unpin id true pool')
              (record {
                valid = left.valid;
                inside = omega (arith, left.count, c.count);
                slotted = rw now (fresh-IsSlotted id);
                named = ap page_id_of now ∙ fresh_id id (omega (arith, few));
              })
              (λ i. ap (get_slot i) now ∙ get_slot-absent i _ (omega (arith, fresh_count id)))
              λ k differ. left.others k differ ∙ c.bytes k differ))
    go _ (refused all crowded) = all_in_use all crowded
