-- ===== src/BufferPool/Examples.antt =====
-- The buffer pool on a file of two pages.
use my_database_engine.Common.{
  ℕ, ◌<◌, ◌≡◌, refl, true, false, List, [], ◌∷◌, arith, nat_beq, if◌then◌else◌,
}
use my_database_engine.Page.{page_size, zeros, new_page_of}
use my_database_engine.Disk.{ok, open_disk, read_page, write_page}
use my_database_engine.Disk.Pages.{
  page_at, open_disk-IsReady, WroteAt, write_page-WroteAt, read_page-write_page,
}
use my_database_engine.BufferPool.{BufferPool, new_pool, fetch_page, new_page, flush_all}
use my_database_engine.BufferPool.Cache.{IsPool, contents}
use my_database_engine.BufferPool.Fetch.{Fetches, fetch_page-Fetches}
use my_database_engine.BufferPool.Flush.{flush_all-on_disk}
use my_database_engine.BufferPool.Run.{
  new_pool-IsPool, Call, fetch, release, create, flush_everything, run_calls, run_calls-IsPool,
}
use my_database_engine.BufferPool.Create.{Creates, new_page-Creates, new_page_full, length-zeros}

-- Two pages of zeros.
abbrev two_pages : List ℕ
two_pages = zeros 8192

page_count_two : (open_disk two_pages).page_count ≡ 2
unfolding open_disk page_size
page_count_two = rw (length-zeros 8192) refl

abbrev small_pool : BufferPool
small_pool = new_pool 1 (open_disk two_pages)

-- Page 0 is changed in memory, put out of a pool of one page by page 1, and all is flushed.
abbrev some_calls : List Call
some_calls = fetch 0 ∷ release 0 true ∷ fetch 1 ∷ release 1 false ∷ create ∷ flush_everything ∷ []

run_calls-IsPool_example :
    IsPool (run_calls some_calls small_pool)
    × ((k : ℕ)
        → k < small_pool.disk.page_count
        → contents k (run_calls some_calls small_pool) ≡ contents k small_pool)
unfolding new_pool
run_calls-IsPool_example =
    run_calls-IsPool some_calls small_pool (new_pool-IsPool 1 two_pages)
      (omega (arith, page_count_two))

fetch_page-Fetches_example : Fetches 1 small_pool (fetch_page 1 small_pool)
unfolding new_pool
fetch_page-Fetches_example =
    fetch_page-Fetches 1 small_pool (new_pool-IsPool 1 two_pages) (omega (arith, page_count_two))

new_page-Creates_example : Creates small_pool (new_page small_pool)
unfolding new_pool
new_page-Creates_example =
    new_page-Creates small_pool (new_pool-IsPool 1 two_pages) (omega (arith, page_count_two))

abbrev used_pool : BufferPool
used_pool = run_calls (fetch 0 ∷ release 0 true ∷ []) small_pool

used_pool-IsPool : IsPool used_pool
unfolding new_pool
used_pool-IsPool =
    (run_calls-IsPool (fetch 0 ∷ release 0 true ∷ []) small_pool (new_pool-IsPool 1 two_pages)
      (omega (arith, page_count_two))).0

flush_all-on_disk_example :
    ((flush_all used_pool).0 ≡ ok tt)
    × IsPool (flush_all used_pool).1
    × ((k : ℕ) → contents k (flush_all used_pool).1 ≡ contents k used_pool)
    × ((k : ℕ) → page_at k (flush_all used_pool).1.disk ≡ contents k used_pool)
flush_all-on_disk_example = flush_all-on_disk used_pool used_pool-IsPool

wrote_one :
    WroteAt 1
      (new_page_of 1)
      (open_disk two_pages)
      (write_page 1 (new_page_of 1) (open_disk two_pages))
wrote_one =
    write_page-WroteAt 1 (new_page_of 1) (open_disk two_pages) (open_disk-IsReady two_pages).0
      (new_page_full 1) (omega (arith, page_count_two)) (omega arith)

-- Page 1 is written, and page 0 read.
read_page-write_page_example :
    (read_page 0 (new_page_of 0) (write_page 1 (new_page_of 1) (open_disk two_pages)).1).0
    ≡ ok (record (new_page_of 0) {
      bytes = if nat_beq 1 0 then (new_page_of 1).bytes else page_at 0 (open_disk two_pages);
    })
read_page-write_page_example =
    read_page-write_page 1 0 (new_page_of 1) (new_page_of 0) (open_disk two_pages)
      (open_disk-IsReady two_pages).0 (new_page_full 1) (omega (arith, page_count_two))
      (omega arith) (ground (arith, wrote_one.count, page_count_two))
