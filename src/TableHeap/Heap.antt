-- ===== src/TableHeap/Heap.antt =====
-- The heap: its page, and the calls that leave it.
use my_database_engine.Common.{
  ℕ, ◌<◌, ◌≡◌, refl, ap, sym, ◌∙◌, true, false, Option, some, List, length, arith, find, number_key,
}
use my_database_engine.Ast.{Row}
use my_database_engine.Page.{page_size, Page, pin}
use my_database_engine.BufferPool.{BufferPool, fetch_page, unpin}
use my_database_engine.BufferPool.Cache.{IsPool, contents}
use my_database_engine.BufferPool.Fetch.{HasFetched, hit}
use my_database_engine.SlottedPage.{done, RowId, page_end, page_id_of, get_slot}
use my_database_engine.SlottedPage.Layout.{IsSlotted}
use my_database_engine.TableHeap.{TableHeap, returns, store_bytes, get_row}
use my_database_engine.TableHeap.Pinned.{HasLeft, unpin-clean, unpin-store_bytes}

-- The heap's page is a slotted page with its id in the header.
pub record IsHeap (heap : TableHeap) (pool : BufferPool) : Type 0 where
  pub valid : IsPool pool
  pub inside : heap.first_page_id < pool.disk.page_count
  pub slotted : IsSlotted (contents heap.first_page_id pool)
  pub named : page_id_of (contents heap.first_page_id pool) ≡ heap.first_page_id

page_full : page_size ≡ page_end
unfolding page_size
page_full = refl

-- What a fetched page becomes when it is left as it is.
pub HasLeft-clean :
    (id : ℕ) (page : Page) (pool pool' : BufferPool)
    → HasFetched id pool page pool'
    → HasLeft id (contents id pool) pool (unpin id false pool')
HasLeft-clean id page pool pool' f =
    let left = unpin-clean id page pool' f.valid f.present in
    record {
      valid = left.valid;
      now = left.now ∙ f.given;
      others = λ k differ. left.others k differ ∙ f.bytes k;
      count = left.count ∙ f.count;
      held = left.held;
    }

pub HasLeft-written :
    (id : ℕ) (page : Page) (pool pool' : BufferPool) (bytes : List ℕ)
    → HasFetched id pool page pool'
    → length bytes ≡ page_end
    → HasLeft id bytes pool (unpin id true (store_bytes id page bytes pool'))
HasLeft-written id page pool pool' bytes f full =
    let left = unpin-store_bytes id page pool' f.valid f.present bytes (full ∙ sym page_full) in
    record {
      valid = left.valid;
      now = left.now;
      others = λ k differ. left.others k differ ∙ f.bytes k;
      count = left.count ∙ f.count;
      held = left.held;
    }

-- A read of a page in memory.
pub get_row-held :
    (rid : RowId) (pool : BufferPool) (p : Page) (found : Option Row)
    → IsPool pool
    → find rid.page_id pool.pages ≡ some p
    → get_slot rid.slot_index (contents rid.page_id pool) ≡ done found
    → (pool' : BufferPool) × (get_row rid pool ≡ returns found pool')
      × HasLeft rid.page_id (contents rid.page_id pool) pool pool'
unfolding get_row fetch_page
get_row-held rid pool p found h e reads =
    let got = hit rid.page_id p pool h e in
    (
      _,
      rw (get_row, fetch_page, e, got.given, reads) refl,
      HasLeft-clean rid.page_id (pin p) pool _ got,
    )

pub IsHeap-left :
    (heap : TableHeap) (bytes : List ℕ) (pool pool' : BufferPool)
    → IsHeap heap pool
    → IsSlotted bytes
    → page_id_of bytes ≡ page_id_of (contents heap.first_page_id pool)
    → HasLeft heap.first_page_id bytes pool pool'
    → IsHeap heap pool'
IsHeap-left heap bytes pool pool' h slotted same left = record {
  valid = left.valid;
  inside = omega (arith, left.count, h.inside);
  slotted = rw left.now slotted;
  named = ap page_id_of left.now ∙ same ∙ h.named;
}
