-- ===== src/TableHeap/Pinned.antt =====
-- What the heap does with a fetched page: unpinning it, and writing to it before that.
use my_database_engine.Common.{
  ℕ, ◌≡◌, ◌≢◌, inl, inr, refl, ap, sym, ◌∙◌, true, false, some, List, [], ◌∷◌, length, arith,
  Bool-cases, nat_beq, nat_beq_iff, Dict, find, assign, find-assign, number_key,
}
use my_database_engine.Page.{page_size, Page, unpin_page, set_dirty}
use my_database_engine.BufferPool.{BufferPool, unpin}
use my_database_engine.BufferPool.Cache.{IsPool, contents, length-assign}
use my_database_engine.BufferPool.Fetch.{replaced}
use my_database_engine.TableHeap.{store_bytes}

-- A dirty page in the place of one in memory.
pub overwritten :
    (id : ℕ) (page page' : Page) (pool : BufferPool)
    → IsPool pool
    → find id pool.pages ≡ some page
    → length page'.bytes ≡ page_size
    → page'.is_dirty ≡ true
    → IsPool (record pool { pages = assign id page' pool.pages })
      × (contents id (record pool { pages = assign id page' pool.pages }) ≡ page'.bytes)
      × ((k : ℕ)
          → id ≢ k
          → contents k (record pool { pages = assign id page' pool.pages }) ≡ contents k pool)
unfolding contents
overwritten id page page' pool h e full dirty = (
  record {
    ready = h.ready;
    few = h.few;
    held = λ k p f. elim (Bool-cases (nat_beq id k)) [
      | inl t ↦
          let i = (nat_beq_iff id k).0 t in
          let q : page' ≡ p = ground (arith, find-assign id k page' pool.pages, t, f) in
          rw (sym q) (
            rw (sym i) (record {
              inside = (h.held id page e).inside;
              full = full;
              clean = λ c. absurd (cc (c, dirty));
            }))
      | inr t ↦ h.held k p (ground (arith, find-assign id k page' pool.pages, t, f))
    ];
    cached = λ k. ground (arith, find-assign id k page' pool.pages, h.cached k, e);
    mapped = h.mapped;
    once = h.once;
    bound = omega (arith, length-assign id page' page pool.pages e, h.bound);
  },
  rw (contents, find-assign id id page' pool.pages) (ground (arith, nat_beq_iff id id)),
  λ k differ.
      let t : nat_beq id k ≡ false = ground (arith, differ) in
      rw (contents, find-assign id k page' pool.pages, t) refl,
)

assign-assign :
    {V : Type 0} (k : ℕ) (v w : V) (m : Dict ℕ V) → assign k v (assign k w m) ≡ assign k v m
unfolding assign
assign-assign k v w [] = ground (arith, nat_beq_iff k k)
assign-assign k v w ((j, x) ∷ m) = elim (Bool-cases (nat_beq j k)) [
  | inl t ↦ rw t (rw t refl)
  | inr t ↦ rw t (rw t (ap (λ r. (j, x) ∷ r) (assign-assign k v w m)))
]

-- What the end of a call of the heap has done: this page has these bytes, and the others theirs.
pub record HasLeft (id : ℕ) (bytes : List ℕ) (pool pool' : BufferPool) : Type 0 where
  pub valid : IsPool pool'
  pub now : contents id pool' ≡ bytes
  pub others : (k : ℕ) → id ≢ k → contents k pool' ≡ contents k pool
  pub count : pool'.disk.page_count ≡ pool.disk.page_count
  pub held : (p : Page) × (find id pool'.pages ≡ some p)

module _ (id : ℕ) (page : Page) (pool : BufferPool) (h : IsPool pool)
    (e : find id pool.pages ≡ some page) where
  again : (p : Page) → find id (assign id p pool.pages) ≡ some p
  again p = ground (arith, find-assign id id p pool.pages, nat_beq_iff id id)

  pub unpin-clean : HasLeft id page.bytes pool (unpin id false pool)
  unfolding unpin unpin_page contents
  unpin-clean =
      let kept = replaced id page (unpin_page page) pool h e refl (h.held id page e).clean in
      rw (unpin, e)
        (record {
          valid = kept.0;
          now = kept.1 id ∙ rw (contents, e) refl;
          others = λ k differ. kept.1 k;
          count = refl;
          held = (unpin_page page, again (unpin_page page));
        })

  pub unpin-store_bytes :
      (bytes : List ℕ)
      → length bytes ≡ page_size
      → HasLeft id bytes pool (unpin id true (store_bytes id page bytes pool))
  unfolding unpin set_dirty unpin_page
  unpin-store_bytes bytes full =
      let page' = record page { bytes = bytes } in
      let pages' = assign id page' pool.pages in
      let here : find id pages' ≡ some page' =
        ground (arith, find-assign id id page' pool.pages, nat_beq_iff id id) in
      let wrote = overwritten id page (set_dirty true (unpin_page page')) pool h e full refl in
      rw (unpin, here, assign-assign id (set_dirty true (unpin_page page')) page' pool.pages)
        (record {
          valid = wrote.0;
          now = wrote.1;
          others = wrote.2;
          count = refl;
          held = (set_dirty true (unpin_page page'), again (set_dirty true (unpin_page page')));
        })

  pub unpin-dirty : length page.bytes ≡ page_size → HasLeft id page.bytes pool (unpin id true pool)
  unfolding unpin set_dirty unpin_page
  unpin-dirty full =
      let wrote = overwritten id page (set_dirty true (unpin_page page)) pool h e full refl in
      rw (unpin, e)
        (record {
          valid = wrote.0;
          now = wrote.1;
          others = wrote.2;
          count = refl;
          held = (set_dirty true (unpin_page page), again (set_dirty true (unpin_page page)));
        })

-- A page that was left with the bytes it had.
pub HasLeft-same :
    (id : ℕ) (pool pool' : BufferPool)
    → HasLeft id (contents id pool) pool pool'
    → (k : ℕ) → contents k pool' ≡ contents k pool
HasLeft-same id pool pool' left k = elim (Bool-cases (nat_beq id k)) [
  | inl t ↦ let same : id ≡ k = ground (arith, t) in rw (sym same) left.now
  | inr t ↦ left.others k (ground (arith, t))
]
