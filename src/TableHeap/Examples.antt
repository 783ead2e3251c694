-- ===== src/TableHeap/Examples.antt =====
-- A heap of one page with one row, in a file of that page.
use my_database_engine.Common.{
  ℕ, ◌≡◌, refl, ap, sym, ◌∙◌, none, List, [], ◌∷◌, arith, length, take, codes, find,
}
use my_database_engine.Ast.{Row}
use my_database_engine.RowCodec.{serialize_row}
use my_database_engine.Wal.Bytes.{le_value}
use my_database_engine.FileStream.{seek_put_end}
use my_database_engine.Page.{page_size, zeros}
use my_database_engine.Disk.{open_disk}
use my_database_engine.Disk.Pages.{page_at}
use my_database_engine.BufferPool.{BufferPool, new_pool}
use my_database_engine.BufferPool.Cache.{contents}
use my_database_engine.BufferPool.Run.{new_pool-IsPool}
use my_database_engine.BufferPool.Create.{length-zeros}
use my_database_engine.SlottedPage.{
  SlotEntry, record_count, page_id_of, data_start, page_end, insert_into_page,
}
use my_database_engine.SlottedPage.Layout.{IsSlotted, row_written}
use my_database_engine.SlottedPage.Written.{row_written-IsSlotted, page_id_of-row_written}
use my_database_engine.SlottedPage.Insert.{Inserts, insert_into_page-Inserts, take-length}
use my_database_engine.TableHeap.{TableHeap, create, insert_row, delete_row, update_row, scan}
use my_database_engine.TableHeap.Heap.{IsHeap}
use my_database_engine.TableHeap.Rows.{Stores, insert_row-Stores}
use my_database_engine.TableHeap.Delete.{row_id, Deletes, delete_row-Deletes}
use my_database_engine.TableHeap.Update.{Updates, update_row-Updates}
use my_database_engine.TableHeap.Create.{Makes, create-Makes}
use my_database_engine.TableHeap.Scan.{Fails, scan-Fails}

abbrev blank : List ℕ
blank = zeros 4096

blank-IsSlotted : IsSlotted blank
unfolding record_count zeros le_value
blank-IsSlotted = record {
  full = length-zeros 4096;
  dir = omega arith;
  rows = λ i k. absurd (omega (arith, k));
}

abbrev a_row : Row
a_row = (codes "a", codes "1") ∷ []

-- The text a=1; of the row at the end of the page.
abbrev a_slot : SlotEntry
a_slot = record { offset = 4092; width = 4; valid = 1; unused = 0 }

abbrev page_bytes : List ℕ
page_bytes = row_written blank (codes "a=1;") a_slot

page_bytes-IsSlotted : IsSlotted page_bytes
unfolding record_count zeros data_start le_value
page_bytes-IsSlotted =
    row_written-IsSlotted blank (codes "a=1;") a_slot blank-IsSlotted (omega arith) (omega arith)
      refl refl

abbrev pool_of_one : BufferPool
pool_of_one = new_pool 1 (open_disk page_bytes)

abbrev a_heap : TableHeap
a_heap = record { first_page_id = 0 }

one_page : pool_of_one.disk.page_count ≡ 1
unfolding open_disk page_size new_pool
one_page = rw page_bytes-IsSlotted.full refl

whole_page :
    (bytes : List ℕ) → length bytes ≡ page_end → contents 0 (new_pool 1 (open_disk bytes)) ≡ bytes
unfolding contents page_at open_disk page_size new_pool find seek_put_end
whole_page bytes full = ap (λ n. take n bytes) (sym full) ∙ take-length bytes

on_page : contents 0 pool_of_one ≡ page_bytes
on_page = whole_page page_bytes page_bytes-IsSlotted.full

a_heap-IsHeap : IsHeap a_heap pool_of_one
unfolding new_pool page_id_of zeros le_value record_count
a_heap-IsHeap = record {
  valid = new_pool-IsPool 1 page_bytes;
  inside = omega (arith, one_page);
  slotted = rw on_page page_bytes-IsSlotted;
  named =
      ap page_id_of on_page
      ∙ page_id_of-row_written blank (codes "a=1;") a_slot blank-IsSlotted.full (omega arith)
          (omega arith);
}

create-Makes_example : Makes pool_of_one (create pool_of_one)
unfolding new_pool
create-Makes_example =
    create-Makes pool_of_one (new_pool-IsPool 1 page_bytes) (omega (arith, one_page))

insert_row-Stores_example : Stores a_heap a_row pool_of_one (insert_row 0 a_heap a_row pool_of_one)
unfolding serialize_row
insert_row-Stores_example = insert_row-Stores a_heap a_row pool_of_one a_heap-IsHeap 0 (omega arith)

delete_row-Deletes_example : Deletes a_heap 0 pool_of_one (delete_row (row_id a_heap 0) pool_of_one)
delete_row-Deletes_example = delete_row-Deletes a_heap 0 pool_of_one a_heap-IsHeap

update_row-Updates_example :
    Updates a_heap 0 a_row pool_of_one (update_row 0 a_heap (row_id a_heap 0) a_row pool_of_one)
unfolding serialize_row
update_row-Updates_example =
    update_row-Updates a_heap 0 a_row pool_of_one 0 a_heap-IsHeap (omega arith)

scan-Fails_example : Fails (scan none a_heap pool_of_one)
unfolding new_pool
scan-Fails_example =
    scan-Fails none a_heap pool_of_one (new_pool-IsPool 1 page_bytes) (omega (arith, one_page))
      (omega (arith, one_page))

insert_into_page-Inserts_example : Inserts a_row page_bytes (insert_into_page 0 a_row page_bytes)
unfolding serialize_row
insert_into_page-Inserts_example =
    insert_into_page-Inserts 0 a_row page_bytes page_bytes-IsSlotted (omega arith)
