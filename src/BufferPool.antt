-- ===== src/BufferPool.antt =====
-- include/buffer_pool.h and src/buffer_pool.cpp: the pages in memory, in the order of their last
-- use. An iterator into the list of ids is modelled by the id that it points at (an id stands in
-- the list once), and a Page* by the page's id.
pub mod Cache
pub mod Evict
pub mod Fetch
pub mod Flush
pub mod Create
pub mod Run
mod Examples
use mathlib.Core.List.{reverse}
use my_database_engine.Common.{
  ℕ, Bool, true, false, not, Option, none, some, List, [], ◌∷◌, length, keep, leb, ltb, nat_beq,
  if◌then◌else◌, Dict, find, assign, erase, number_key,
}
use my_database_engine.Page.{Page, new_page_of, set_dirty, pin, unpin_page}
use my_database_engine.Disk.{
  DiskManager, Result, ok, error, StorageError, all_pinned, null_page, read_page, write_page,
  allocate_page,
}

pub record BufferPool : Type 0 where
  pub pool_size : ℕ
  pub disk : DiskManager
  pub pages : Dict ℕ Page
  pub lru_list : List ℕ
  pub lru_map : Dict ℕ ℕ

unfoldable pub new_pool : ℕ → DiskManager → BufferPool
new_pool size disk = record {
  pool_size = size;
  disk = disk;
  pages = [];
  lru_list = [];
  lru_map = [];
}

-- lruList_.erase(it), for the node of this id.
unfoldable pub erase_node : ℕ → List ℕ → List ℕ
erase_node id = keep (λ other. not (nat_beq other id))

-- lruList_.push_front(id); lruMap_[id] = lruList_.begin();
unfoldable pub push_front : ℕ → BufferPool → BufferPool
push_front id pool = record pool {
  lru_list = id ∷ pool.lru_list;
  lru_map = assign id id pool.lru_map;
}

-- BufferPool::touchPage
unfoldable pub touch_page : ℕ → BufferPool → BufferPool
unfolding erase_node push_front
touch_page id pool = push_front id (elim (find id pool.lru_map) [
  | none ↦ pool
  | some node ↦ record pool { lru_list = erase_node node pool.lru_list }
])

-- The three erasures of evict.
unfoldable pub drop_page : ℕ → BufferPool → BufferPool
unfolding erase_node
drop_page id pool = record pool {
  pages = erase id pool.pages;
  lru_map = erase id pool.lru_map;
  lru_list = erase_node id pool.lru_list;
}

-- What evict does with an unpinned page.
unfoldable pub evict_page : ℕ → Page → BufferPool → Result Bool × BufferPool
unfolding drop_page
evict_page id page pool =
    let (written, disk) = write_page id page pool.disk in
    if page.is_dirty
    then elim written [
      | error e ↦ (error e, record pool { disk = disk })
      | ok _ ↦ (ok true, drop_page id (record pool { disk = disk }))
    ]
    else (ok true, drop_page id pool)

-- The loop of evict over the ids that are left, the least recently used first.
unfoldable pub evict_from : List ℕ → BufferPool → Result Bool × BufferPool
unfolding evict_page
evict_from [] pool = (ok false, pool)
evict_from (id ∷ ids) pool =
    let later = evict_from ids pool in
    elim (find id pool.pages) [
      | none ↦ (error null_page, pool)
      | some page ↦ if ltb 0 page.pin_count then later else evict_page id page pool
    ]

-- BufferPool::evict
unfoldable pub evict : BufferPool → Result Bool × BufferPool
unfolding evict_from
evict pool = evict_from (reverse pool.lru_list) pool

-- The rest of a call, after a step that may throw.
abbrev pub and_then {ℓ κ} :
    {A : Type ℓ} {B : Type κ}
    → Result A × BufferPool
    → (A → BufferPool → Result B × BufferPool)
    → Result B × BufferPool
and_then (error e, pool) f = (error e, pool)
and_then (ok a, pool) f = f a pool

-- `if (pages_.size() >= poolSize_) { if (!evict()) throw ... }`
unfoldable pub make_room : BufferPool → Result {0} Unit × BufferPool
unfolding evict
make_room pool =
    if leb pool.pool_size (length pool.pages)
    then and_then (evict pool)
        (λ evicted pool'. if evicted then (ok tt, pool') else (error all_pinned, pool'))
    else (ok tt, pool)

-- pages_[id] = page, and the page to the front of the list.
unfoldable pub add_page : ℕ → Page → BufferPool → BufferPool
unfolding push_front
add_page id page pool = push_front id (record pool { pages = assign id page pool.pages })

-- The cache miss of fetchPage, behind the eviction.
unfoldable pub load_page : ℕ → BufferPool → Result Page × BufferPool
unfolding add_page
load_page id pool =
    let (found, disk) = read_page id (new_page_of id) pool.disk in
    elim found [
      | error e ↦ (error e, record pool { disk = disk })
      | ok page ↦ (ok (pin page), add_page id (pin page) (record pool { disk = disk }))
    ]

-- BufferPool::fetchPage; the result is the page that the pointer shows.
unfoldable pub fetch_page : ℕ → BufferPool → Result Page × BufferPool
unfolding touch_page make_room load_page
fetch_page id pool = elim (find id pool.pages) [
  | some page ↦
      (ok (pin page), touch_page id (record pool { pages = assign id (pin page) pool.pages }))
  | none ↦ and_then (make_room pool) (λ _ pool'. load_page id pool')
]

-- newPage, behind the eviction.
unfoldable pub create_page : BufferPool → Result ℕ × BufferPool
unfolding add_page
create_page pool =
    let (allocated, disk) = allocate_page pool.disk in
    elim allocated [
      | error e ↦ (error e, record pool { disk = disk })
      | ok id ↦
          (ok id, add_page id (set_dirty true (pin (new_page_of id))) (record pool { disk = disk }))
    ]

-- BufferPool::newPage; the result is the id of the new page.
unfoldable pub new_page : BufferPool → Result ℕ × BufferPool
unfolding make_room create_page
new_page pool = and_then (make_room pool) (λ _ pool'. create_page pool')

-- BufferPool::unpin
unfoldable pub unpin : ℕ → Bool → BufferPool → BufferPool
unpin id dirty pool = elim (find id pool.pages) [
  | none ↦ pool
  | some page ↦
      let page' = unpin_page page in
      record pool { pages = assign id (if dirty then set_dirty true page' else page') pool.pages }
]

-- What flushing does with a page that is in memory.
unfoldable pub flush_one : ℕ → Page → BufferPool → Result {0} Unit × BufferPool
flush_one id page pool =
    let (written, disk) = write_page id page pool.disk in
    if page.is_dirty
    then elim written [
      | error e ↦ (error e, record pool { disk = disk })
      | ok _ ↦
          (ok tt, record pool { disk = disk; pages = assign id (set_dirty false page) pool.pages })
    ]
    else (ok tt, pool)

-- BufferPool::flushPage
unfoldable pub flush_page : ℕ → BufferPool → Result {0} Unit × BufferPool
unfolding flush_one
flush_page id pool = elim (find id pool.pages) [
  | none ↦ (ok tt, pool)
  | some page ↦ flush_one id page pool
]

abbrev pub keys {ℓ} : {V : Type ℓ} → Dict ℕ V → List ℕ
keys [] = []
keys ((k, v) ∷ m) = k ∷ keys m

-- The loop of flushAll over the entries that are left. Its body is that of flushPage, on the entry
-- of the map that the loop's reference shows.
unfoldable pub flush_each : List ℕ → BufferPool → Result {0} Unit × BufferPool
unfolding flush_page
flush_each [] pool = (ok tt, pool)
flush_each (id ∷ ids) pool = and_then (flush_page id pool) (λ _ pool'. flush_each ids pool')

-- BufferPool::flushAll
unfoldable pub flush_all : BufferPool → Result {0} Unit × BufferPool
unfolding flush_each
flush_all pool = flush_each (keys pool.pages) pool
