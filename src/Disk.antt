-- ===== src/Disk.antt =====
-- include/disk_manager.h and src/disk_manager.cpp: a file of pages.
pub mod Pages
use my_database_engine.Common.{
  ℕ, ◌+◌, ◌*◌, ◌/◌, ◌%◌, ◌^◌, Bool, none, some, List, length, ltb, if◌then◌else◌,
}
use my_database_engine.FileStream.{
  FileStream, opened, read_bytes, write_bytes, seek_get, seek_put, seek_put_end,
}
use my_database_engine.Page.{page_size, Page, new_page_of}

-- The exceptions of the disk manager and the buffer pool; `null_page` stands for the undefined
-- behaviour of following a null pointer.
pub data StorageError : Type 0 where
  no_such_page : ℕ → StorageError
  read_failed : ℕ → StorageError
  write_failed : ℕ → StorageError
  all_pinned : StorageError
  null_page : StorageError

pub data Result {ℓ} (A : Type ℓ) : Type ℓ where
  ok : A → Result A
  error : StorageError → Result A

pub record DiskManager : Type 0 where
  pub file : FileStream
  pub page_count : ℕ

-- The constructor, on a file with these bytes (none, if it creates the file). PageId has 32 bits.
unfoldable pub open_disk : List ℕ → DiskManager
open_disk bytes = record {
  file = seek_put_end (opened bytes);
  page_count = length bytes / page_size % 2 ^ 32;
}

-- DiskManager::readPage
unfoldable pub read_page : ℕ → Page → DiskManager → Result Page × DiskManager
read_page id page disk =
    let (found, file) = read_bytes page_size (seek_get (id * page_size) disk.file) in
    if ltb id disk.page_count
    then elim found [
      | none ↦ (error (read_failed id), record disk { file = file })
      | some bytes ↦ (ok (record page { bytes = bytes }), record disk { file = file })
    ]
    else (error (no_such_page id), disk)

-- DiskManager::writePage
unfoldable pub write_page : ℕ → Page → DiskManager → Result {0} Unit × DiskManager
write_page id page disk =
    let file = write_bytes page.bytes (seek_put (id * page_size) disk.file) in
    if file.failed then (error (write_failed id), record disk { file = file }) else (
      ok tt,
      record {
        file = file;
        page_count = if ltb id disk.page_count then disk.page_count else (id + 1) % 2 ^ 32;
      },
    )

-- DiskManager::allocatePage
unfoldable pub allocate_page : DiskManager → Result ℕ × DiskManager
unfolding write_page
allocate_page disk =
    let (written, disk') = write_page disk.page_count (new_page_of disk.page_count) disk in
    elim written [ error e ↦ (error e, disk') | ok _ ↦ (ok disk.page_count, disk') ]
