-- ===== src/BufferPool/Fetch.antt =====
-- fetchPage gives the page its bytes, wherever they are, and changes the bytes of none.
use my_database_engine.Common.{
  ℕ, ◌+◌, ◌*◌, ◌≤◌, ◌<◌, ◌≡◌, ◌≢◌, inl, inr, refl, ap, ◌∙◌, sym, false, none, some, ◌∷◌, arith,
  length, nat_beq, nat_beq_iff, Bool-cases, Option-cases, find, assign, number_key, find-assign,
}
use my_database_engine.Page.{page_size, Page, new_page_of, pin}
use my_database_engine.Disk.{Result, ok, error, all_pinned}
use my_database_engine.Disk.Pages.{page_at, read_page-disk, length-page_at}
use my_database_engine.BufferPool.{
  BufferPool, erase_node, push_front, touch_page, make_room, add_page, load_page, fetch_page,
  and_then,
}
use my_database_engine.BufferPool.Cache.{
  IsPool, IsHeld, IsOnce-erase_node, Keeps, contents, is_listed, is_listed-erase_node,
  length-assign, length-assign_le,
}
use my_database_engine.BufferPool.Evict.{IsPinned, MakesRoom, room, full, make_room-MakesRoom}

-- A page replaced by one that holds the same bytes and is as well pinned.
pub replaced :
    (id : ℕ) (page page' : Page) (pool : BufferPool)
    → IsPool pool
    → find id pool.pages ≡ some page
    → page'.bytes ≡ page.bytes
    → (page'.is_dirty ≡ false → page'.bytes ≡ page_at id pool.disk)
    → IsPool (record pool { pages = assign id page' pool.pages })
      × ((k : ℕ)
          → contents k (record pool { pages = assign id page' pool.pages }) ≡ contents k pool)
unfolding contents
replaced id page page' pool h e same clean = (
  record {
    ready = h.ready;
    few = h.few;
    held = λ k p f. elim (Bool-cases (nat_beq id k)) [
      | inl t ↦
          let i = (nat_beq_iff id k).0 t in
          let q : page' ≡ p = ground (arith, find-assign id k page' pool.pages, t, f) in
          let old = h.held id page e in
          rw (sym q) (
            rw (sym i)
              (record { inside = old.inside; full = ap length same ∙ old.full; clean = clean }))
      | inr t ↦ h.held k p (ground (arith, find-assign id k page' pool.pages, t, f))
    ];
    cached = λ k. ground (arith, find-assign id k page' pool.pages, h.cached k, e);
    mapped = h.mapped;
    once = h.once;
    bound = omega (arith, length-assign id page' page pool.pages e, h.bound);
  },
  λ k. elim (Bool-cases (nat_beq id k)) [
    | inl t ↦
        let i = (nat_beq_iff id k).0 t in
        rw (contents, find-assign id k page' pool.pages, t) (rw (sym i) (rw (contents, e) same))
    | inr t ↦ rw (contents, find-assign id k page' pool.pages, t) refl
  ],
)

-- The page of a hit moves to the front.
touch_page-IsPool :
    (id : ℕ) (page : Page) (pool : BufferPool)
    → IsPool pool
    → find id pool.pages ≡ some page
    → touch_page id pool ≡ (record pool {
      lru_list = id ∷ erase_node id pool.lru_list;
      lru_map = assign id id pool.lru_map;
    })
unfolding touch_page push_front
touch_page-IsPool id page pool h e =
    let at : find id pool.lru_map ≡ some id = ground (arith, h.mapped id, h.cached id, e) in
    rw at refl

moved :
    (id : ℕ) (page : Page) (pool : BufferPool)
    → IsPool pool
    → find id pool.pages ≡ some page
    → IsPool (touch_page id pool) × ((k : ℕ) → contents k (touch_page id pool) ≡ contents k pool)
unfolding contents is_listed
moved id page pool h e = rw (touch_page-IsPool id page pool h e) (
  record {
    ready = h.ready;
    few = h.few;
    held = h.held;
    cached = λ k.
        ground (arith, is_listed-erase_node k id pool.lru_list, h.cached k, nat_beq_iff id k, e);
    mapped = λ k. ground (
      arith,
      find-assign id k id pool.lru_map,
      is_listed-erase_node k id pool.lru_list,
      h.mapped k,
      nat_beq_iff id k,
    );
    once = (
      ground (arith, is_listed-erase_node id id pool.lru_list),
      IsOnce-erase_node id pool.lru_list h.once,
    );
    bound = h.bound;
  },
  λ k. refl,
)

-- A page that comes into memory as it stands in the file, where there is room.
pub add_page-IsPool :
    (id : ℕ) (page : Page) (pool : BufferPool)
    → IsPool pool
    → find id pool.pages ≡ none
    → IsHeld id page pool.disk
    → length pool.pages < pool.pool_size
    → IsPool (add_page id page pool)
unfolding add_page push_front is_listed
add_page-IsPool id page pool h e new free = record {
  ready = h.ready;
  few = h.few;
  held = λ k p f. elim (Bool-cases (nat_beq id k)) [
    | inl t ↦
        let q : page ≡ p = ground (arith, find-assign id k page pool.pages, t, f) in
        rw (sym q) (rw (sym ((nat_beq_iff id k).0 t)) new)
    | inr t ↦ h.held k p (ground (arith, find-assign id k page pool.pages, t, f))
  ];
  cached = λ k. ground (arith, find-assign id k page pool.pages, h.cached k);
  mapped = λ k. ground (arith, find-assign id k id pool.lru_map, h.mapped k, nat_beq_iff id k);
  once = (ground (arith, h.cached id, e), h.once);
  bound = omega (arith, length-assign_le id page pool.pages, free);
}

-- What fetching a page that the file has has done.
pub record HasFetched (id : ℕ) (pool : BufferPool) (page : Page) (pool' : BufferPool) : Type 0 where
  pub valid : IsPool pool'
  pub given : page.bytes ≡ contents id pool
  pub present : find id pool'.pages ≡ some page
  pub is_pinned : 0 < page.pin_count
  pub bytes : (k : ℕ) → contents k pool' ≡ contents k pool
  pub count : pool'.disk.page_count ≡ pool.disk.page_count
  pub others :
      (k : ℕ) (p : Page)
      → id ≢ k
      → find k pool.pages ≡ some p
      → 0 < p.pin_count
      → find k pool'.pages ≡ some p

-- The two results: the page, or the exception where all pages in a full pool are pinned.
pub data Fetches (id : ℕ) (pool : BufferPool) : Result Page × BufferPool → Type 0 where
  fetched :
      (page : Page) (pool' : BufferPool)
      → HasFetched id pool page pool'
      → Fetches id pool (ok page, pool')
  refused :
      ((k : ℕ) → IsPinned pool k)
      → pool.pool_size ≤ length pool.pages
      → Fetches id pool (error all_pinned, pool)

pub hit :
    (id : ℕ) (page : Page) (pool : BufferPool)
    → IsPool pool
    → find id pool.pages ≡ some page
    → HasFetched id pool
        (pin page)
        (touch_page id (record pool { pages = assign id (pin page) pool.pages }))
unfolding pin contents touch_page push_front
hit id page pool h e =
    let pool1 = record pool { pages = assign id (pin page) pool.pages } in
    let here : find id pool1.pages ≡ some (pin page) =
      ground (arith, find-assign id id (pin page) pool.pages, nat_beq_iff id id) in
    let (valid1, bytes1) = replaced id page (pin page) pool h e refl (h.held id page e).clean in
    let (valid2, bytes2) = moved id (pin page) pool1 valid1 here in
    let same = ap (λ p. p.pages) (touch_page-IsPool id (pin page) pool1 valid1 here) in
    record {
      valid = valid2;
      given = rw (contents, e) refl;
      present = ap (λ m. find id m) same ∙ here;
      is_pinned = omega arith;
      bytes = λ k. bytes2 k ∙ bytes1 k;
      count = ap (λ p. p.disk.page_count) (touch_page-IsPool id (pin page) pool1 valid1 here);
      others = λ k p differ f pos.
          ap (λ m. find k m) same
          ∙ ground (arith, find-assign id k (pin page) pool.pages, f, differ, nat_beq_iff id k);
    }

-- The position of the stream is free.
seeked :
    (n : ℕ) (pool : BufferPool)
    → IsPool pool
    → IsPool
        (record pool { disk = record pool.disk { file = record pool.disk.file { position = n } } })
unfolding page_at
seeked n pool h = record {
  ready = record {
    not_failed = h.ready.not_failed;
    not_at_end = h.ready.not_at_end;
    whole = h.ready.whole;
  };
  few = h.few;
  held = λ k p f.
      let old = h.held k p f in record { inside = old.inside; full = old.full; clean = old.clean };
  cached = h.cached;
  mapped = h.mapped;
  once = h.once;
  bound = h.bound;
}

loaded :
    (id : ℕ) (pool pool' : BufferPool)
    → IsPool pool
    → find id pool.pages ≡ none
    → id < pool.disk.page_count
    → Keeps pool pool'
    → length pool'.pages < pool.pool_size
    → Fetches id pool (load_page id pool')
unfolding load_page contents pin page_at add_page push_front
loaded id pool pool' h e inside keeps free =
    let inside' : id < pool'.disk.page_count = omega (arith, keeps.count, inside) in
    let page = pin (record (new_page_of id) { bytes = page_at id pool'.disk }) in
    let pool2 = record pool' {
      disk = record pool'.disk {
        file = record pool'.disk.file { position = id * page_size + page_size };
      };
    } in
    let read = read_page-disk id (new_page_of id) pool'.disk keeps.valid.ready inside' in
    let is : load_page id pool' ≡ (ok page, add_page id page pool2) = ground (arith, read) in
    let none' = keeps.absent id e in
    rw is (
      fetched page (add_page id page pool2) (record {
        valid =
            add_page-IsPool id page pool2 (seeked (id * page_size + page_size) pool' keeps.valid)
              none'
              (record {
                inside = inside';
                full = length-page_at id pool'.disk keeps.valid.ready inside';
                clean = λ _. refl;
              })
              (omega (arith, keeps.size, free));
        given = sym (rw (contents, none') refl) ∙ keeps.bytes id;
        present = ground (arith, find-assign id id page pool'.pages, nat_beq_iff id id);
        is_pinned = omega arith;
        bytes = λ k. elim (Bool-cases (nat_beq id k)) [
          | inl t ↦
              let i = (nat_beq_iff id k).0 t in
              let now : contents k (add_page id page pool2) ≡ page.bytes =
                rw (contents, find-assign id k page pool'.pages, t) refl in
              now ∙ rw (sym i) (sym (rw (contents, none') refl) ∙ keeps.bytes id)
          | inr t ↦
              let now : contents k (add_page id page pool2) ≡ contents k pool' =
                rw (contents, find-assign id k page pool'.pages, t) refl in
              now ∙ keeps.bytes k
        ];
        count = keeps.count;
        others = λ k p differ f pos.
            find-assign id k page pool'.pages
            ∙ ground (arith, keeps.pinned k p f pos, differ, nat_beq_iff id k);
      }))

-- fetchPage of a page that the file has gives the page with its bytes, from memory or from the file,
-- pinned and in memory, and keeps the invariant, the bytes of every page and every other pinned
-- page; or it throws and changes nothing, where the pool is full and all its pages are pinned.
pub fetch_page-Fetches :
    (id : ℕ) (pool : BufferPool)
    → IsPool pool
    → id < pool.disk.page_count
    → Fetches id pool (fetch_page id pool)
unfolding fetch_page
fetch_page-Fetches id pool h inside = elim (Option-cases (find id pool.pages)) [
  | inr (page, e) ↦ rw (fetch_page, e) (fetched _ _ (hit id page pool h e))
  | inl e ↦ rw (fetch_page, e) (go (make_room pool) (make_room-MakesRoom pool h) e)
]
  where
    go :
        (r : Result {0} Unit × BufferPool)
        → MakesRoom pool r
        → find id pool.pages ≡ none
        → Fetches id pool (and_then r (λ _ pool'. load_page id pool'))
    go _ (room pool' keeps free) e = loaded id pool pool' h e inside keeps free
    go _ (full all k) e = refused all k
