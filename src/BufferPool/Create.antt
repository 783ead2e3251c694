-- ===== src/BufferPool/Create.antt =====
-- newPage: a page of zeros behind its header, at the end of the file, and no other page changes.
use my_database_engine.Common.{
  ℕ, zero, suc, ◌+◌, ◌-◌, ◌^◌, ◌≤◌, ◌<◌, ◌≡◌, ◌≢◌, inl, inr, refl, ap, ◌∙◌, sym, true, none, some,
  ◌++◌, arith, length, length-append, nat_beq, nat_beq_iff, Bool-cases, Option-cases, find,
  number_key, find-assign,
}
use my_database_engine.Wal.Bytes.{le_bytes, length-le_bytes}
use my_database_engine.Page.{
  page_size, header_size, Page, header_bytes, zeros, new_page_of, set_dirty, pin,
}
use my_database_engine.Disk.{Result, ok, error, write_page, allocate_page, all_pinned}
use my_database_engine.Disk.Pages.{page_at, WroteAt, write_page-WroteAt}
use my_database_engine.BufferPool.{
  BufferPool, push_front, add_page, create_page, new_page, make_room, and_then,
}
use my_database_engine.BufferPool.Cache.{IsPool, Keeps, contents}
use my_database_engine.BufferPool.Evict.{IsPinned, MakesRoom, room, full, make_room-MakesRoom}
use my_database_engine.BufferPool.Fetch.{add_page-IsPool}

pub length-zeros : (n : ℕ) → length (zeros n) ≡ n
unfolding zeros
length-zeros zero = refl
length-zeros (suc n) = ap suc (length-zeros n)

header_fits : (header_size ≡ 12) × (12 ≤ page_size)
unfolding page_size header_size
header_fits = (refl, omega arith)

pub new_page_full : (id : ℕ) → length (new_page_of id).bytes ≡ page_size
unfolding new_page_of header_bytes
new_page_full id =
    let free = page_size - header_size in
    let counts = le_bytes 2 0 ++ le_bytes 4 0 in
    omega (
      arith,
      header_fits.0,
      header_fits.1,
      length-append (header_bytes id) (zeros free),
      length-append (le_bytes 4 id) (le_bytes 2 free ++ counts),
      length-append (le_bytes 2 free) counts,
      length-append (le_bytes 2 0) (le_bytes 4 0),
      length-le_bytes 4 id,
      length-le_bytes 2 free,
      length-le_bytes 2 0,
      length-le_bytes 4 0,
      length-zeros free,
    )

-- What newPage has done.
pub record HasCreated (id : ℕ) (pool pool' : BufferPool) : Type 0 where
  pub valid : IsPool pool'
  pub new : contents id pool' ≡ (new_page_of id).bytes
  pub bytes : (k : ℕ) → id ≢ k → contents k pool' ≡ contents k pool
  pub count : pool'.disk.page_count ≡ id + 1
  pub present : (p : Page) × (find id pool'.pages ≡ some p) × (p.bytes ≡ (new_page_of id).bytes)

pub data Creates (pool : BufferPool) : Result ℕ × BufferPool → Type 0 where
  created :
      (pool' : BufferPool)
      → HasCreated pool.disk.page_count pool pool'
      → Creates pool (ok pool.disk.page_count, pool')
  refused :
      ((k : ℕ) → IsPinned pool k)
      → pool.pool_size ≤ length pool.pages
      → Creates pool (error all_pinned, pool)

-- The file one page longer.
extended :
    (id : ℕ) (page : Page) (pool : BufferPool)
    → IsPool pool
    → pool.disk.page_count ≡ id
    → id + 1 < 2 ^ 32
    → WroteAt id page pool.disk (write_page id page pool.disk)
    → ((write_page id page pool.disk).1.page_count ≡ id + 1)
      × IsPool (record pool { disk = (write_page id page pool.disk).1 })
extended id page pool h at small w =
    let longer : (write_page id page pool.disk).1.page_count ≡ id + 1 =
      ground (arith, w.count, at) in
    (
      longer,
      record {
        ready = w.ready;
        few = omega (arith, longer, small);
        held = λ k p f.
            let old = h.held k p f in
            record {
              inside = omega (arith, longer, old.inside, at);
              full = old.full;
              clean = λ c. old.clean c ∙ sym (w.others k (λ i. omega (arith, i, old.inside, at)));
            };
        cached = h.cached;
        mapped = h.mapped;
        once = h.once;
        bound = h.bound;
      },
    )

made :
    (pool pool' : BufferPool)
    → Keeps pool pool'
    → length pool'.pages < pool.pool_size
    → pool.disk.page_count + 1 < 2 ^ 32
    → Creates pool (create_page pool')
unfolding create_page allocate_page contents set_dirty pin add_page push_front page_at
made pool pool' keeps free small =
    let id = pool.disk.page_count in
    let same_id : pool'.disk.page_count ≡ id = keeps.count in
    let page = set_dirty true (pin (new_page_of id)) in
    let w =
      write_page-WroteAt id (new_page_of id) pool'.disk keeps.valid.ready (new_page_full id)
        (omega (arith, same_id)) small in
    let pool2 = record pool' { disk = (write_page id (new_page_of id) pool'.disk).1 } in
    let (longer, valid2) = extended id (new_page_of id) pool' keeps.valid same_id small w in
    let unknown : find id pool'.pages ≡ none = elim (Option-cases (find id pool'.pages)) [
      | inl e ↦ e
      | inr (p, e) ↦ absurd (omega (arith, (keeps.valid.held id p e).inside, same_id))
    ] in
    let is : create_page pool' ≡ (ok id, add_page id page pool2) =
      ground (arith, same_id, w.wrote) in
    rw is (
      created (add_page id page pool2) (record {
        valid =
            add_page-IsPool id page pool2 valid2 unknown
              (record { inside = omega (arith, longer); full = new_page_full id; clean = λ c. cc })
              (omega (arith, keeps.size, free));
        new = rw (contents, find-assign id id page pool'.pages) (ground (arith, nat_beq_iff id id));
        bytes = λ k differ. elim (Bool-cases (nat_beq id k)) [
          | inl t ↦ absurd (differ ((nat_beq_iff id k).0 t))
          | inr t ↦
              let now : contents k (add_page id page pool2) ≡ contents k pool2 =
                rw (contents, find-assign id k page pool'.pages, t) refl in
              let before : contents k pool2 ≡ contents k pool' =
                elim (Option-cases (find k pool'.pages)) [
                  | inl e ↦ rw (contents, e) (w.others k differ)
                  | inr (p, e) ↦ rw (contents, e) refl
                ] in
              now ∙ before ∙ keeps.bytes k
        ];
        count = longer;
        present =
            (page, ground (arith, find-assign id id page pool'.pages, nat_beq_iff id id), refl);
      }))

-- newPage, where the page ids are not used up, gives the next id of the file and a page of zeros
-- behind its header, and keeps the invariant and the bytes of every other page; or it throws and
-- changes nothing, where the pool is full and all its pages are pinned.
pub new_page-Creates :
    (pool : BufferPool)
    → IsPool pool
    → pool.disk.page_count + 1 < 2 ^ 32
    → Creates pool (new_page pool)
unfolding new_page
new_page-Creates pool h small = go (make_room pool) (make_room-MakesRoom pool h)
  where
    go :
        (r : Result {0} Unit × BufferPool)
        → MakesRoom pool r
        → Creates pool (and_then r (λ _ pool'. create_page pool'))
    go _ (room pool' keeps free) = made pool pool' keeps free small
    go _ (full all k) = refused all k
