-- ===== src/BufferPool/Flush.antt =====
-- flushAll brings the bytes of every page to the file; flushPage and unpin change the bytes of none.
use my_database_engine.Common.{
  ℕ, ◌≡◌, inl, inr, refl, ◌∙◌, sym, Bool, true, false, none, some, List, [], ◌∷◌, arith, nat_beq,
  nat_beq_iff, Bool-cases, Option-cases, Dict, find, assign, number_key, find-assign,
}
use my_database_engine.Page.{Page, set_dirty, unpin_page}
use my_database_engine.Disk.{ok, write_page}
use my_database_engine.Disk.Pages.{page_at}
use my_database_engine.BufferPool.{
  BufferPool, unpin, flush_one, flush_page, flush_each, flush_all, keys,
}
use my_database_engine.BufferPool.Cache.{IsPool, contents, is_listed}
use my_database_engine.BufferPool.Evict.{write_page-Keeps}
use my_database_engine.BufferPool.Fetch.{replaced}

-- unpin keeps the invariant and the bytes of every page.
pub unpin-IsPool :
    (id : ℕ) (dirty : Bool) (pool : BufferPool)
    → IsPool pool
    → IsPool (unpin id dirty pool)
      × ((k : ℕ) → contents k (unpin id dirty pool) ≡ contents k pool)
      × ((unpin id dirty pool).disk.page_count ≡ pool.disk.page_count)
unfolding unpin unpin_page set_dirty
unpin-IsPool id dirty pool h = elim (Option-cases (find id pool.pages)) [
  | inl e ↦ rw (unpin, e) (h, λ k. refl, refl)
  | inr (page, e) ↦ go dirty page e
]
  where
    go :
        (d : Bool) (page : Page)
        → find id pool.pages ≡ some page
        → IsPool (unpin id d pool)
          × ((k : ℕ) → contents k (unpin id d pool) ≡ contents k pool)
          × ((unpin id d pool).disk.page_count ≡ pool.disk.page_count)
    go true page e =
        let (valid, bytes) =
          replaced id page (set_dirty true (unpin_page page)) pool h e refl (λ c. cc c) in
        rw (unpin, e) (valid, bytes, refl)
    go false page e =
        let (valid, bytes) =
          replaced id page (unpin_page page) pool h e refl (h.held id page e).clean in
        rw (unpin, e) (valid, bytes, refl)

abbrev pub IsClean : ℕ → BufferPool → Type 0
IsClean k pool = (page : Page) → find k pool.pages ≡ some page → page.is_dirty ≡ false

-- What a flush has done.
pub record Flushes (pool pool' : BufferPool) : Type 0 where
  pub valid : IsPool pool'
  pub bytes : (k : ℕ) → contents k pool' ≡ contents k pool
  pub clean : (k : ℕ) → IsClean k pool → IsClean k pool'
  pub listed : (k : ℕ) → find k pool.pages ≡ none → find k pool'.pages ≡ none
  pub count : pool'.disk.page_count ≡ pool.disk.page_count

pub flush_page-Flushes :
    (id : ℕ) (pool : BufferPool)
    → IsPool pool
    → ((flush_page id pool).0 ≡ ok tt)
      × Flushes pool (flush_page id pool).1
      × IsClean id (flush_page id pool).1
unfolding flush_page flush_one set_dirty
flush_page-Flushes id pool h = elim (Option-cases (find id pool.pages)) [
  | inl e ↦
      rw (flush_page, e)
        (
          refl,
          record {
            valid = h;
            bytes = λ k. refl;
            clean = λ k c. c;
            listed = λ k f. f;
            count = refl;
          },
          λ page f. cc (e, f),
        )
  | inr (page, e) ↦ elim (Bool-cases page.is_dirty) [
    | inr t ↦
        let is : flush_page id pool ≡ (ok tt, pool) = ground (arith, e, t) in
        rw is (
          refl,
          record {
            valid = h;
            bytes = λ k. refl;
            clean = λ k c. c;
            listed = λ k f. f;
            count = refl;
          },
          λ p f. ground (arith, e, f, t),
        )
    | inl t ↦
        let (w, keeps) = write_page-Keeps id page pool h e in
        let pool1 = record pool { disk = (write_page id page pool.disk).1 } in
        let page' = set_dirty false page in
        let pool2 = record pool1 { pages = assign id page' pool.pages } in
        let is : flush_page id pool ≡ (ok tt, pool2) = ground (arith, e, t, w.wrote) in
        let (valid, bytes) = replaced id page page' pool1 keeps.valid e refl (λ _. sym w.same) in
        rw is (
          refl,
          record {
            valid = valid;
            bytes = λ k. bytes k ∙ keeps.bytes k;
            clean = λ k c p f. elim (Bool-cases (nat_beq id k)) [
              | inl t' ↦ ground (arith, find-assign id k page' pool.pages, f, t')
              | inr t' ↦ c p (ground (arith, find-assign id k page' pool.pages, f, t'))
            ];
            listed =
                λ k f. ground (arith, find-assign id k page' pool.pages, f, e, nat_beq_iff id k);
            count = keeps.count;
          },
          λ p f. ground (arith, find-assign id id page' pool.pages, f, nat_beq_iff id id),
        )
  ]
]

-- The loop flushes the pages of its ids, and does not throw.
pub flush_each-Flushes :
    (ids : List ℕ) (pool : BufferPool)
    → IsPool pool
    → ((flush_each ids pool).0 ≡ ok tt)
      × Flushes pool (flush_each ids pool).1
      × ((k : ℕ) → is_listed k ids ≡ true → IsClean k (flush_each ids pool).1)
unfolding flush_each is_listed
flush_each-Flushes [] pool h = (
  refl,
  record { valid = h; bytes = λ k. refl; clean = λ k c. c; listed = λ k f. f; count = refl },
  λ k l. absurd (cc l),
)
flush_each-Flushes (id ∷ ids) pool h =
    let (done1, first, now) = flush_page-Flushes id pool h in
    let pool1 = (flush_page id pool).1 in
    let (done2, rest, later) = flush_each-Flushes ids pool1 first.valid in
    let is : flush_each (id ∷ ids) pool ≡ flush_each ids pool1 = ground (arith, done1) in
    rw is (
      done2,
      record {
        valid = rest.valid;
        bytes = λ k. rest.bytes k ∙ first.bytes k;
        clean = λ k c. rest.clean k (first.clean k c);
        listed = λ k f. rest.listed k (first.listed k f);
        count = rest.count ∙ first.count;
      },
      λ k l. elim (Bool-cases (nat_beq id k)) [
        | inl t ↦ rest.clean k (rw (sym ((nat_beq_iff id k).0 t)) now)
        | inr t ↦ later k (ground (arith, l, t))
      ],
    )

is_listed-keys : (k : ℕ) (m : Dict ℕ Page) → is_listed k (keys m) ≡ false → find k m ≡ none
unfolding is_listed find
is_listed-keys k [] h = refl
is_listed-keys k ((j, p) ∷ m) h = ground (arith, is_listed-keys k m, h)

-- flushAll does not throw, keeps the invariant and the bytes of every page, and brings the bytes of
-- every page to the file.
pub flush_all-on_disk :
    (pool : BufferPool)
    → IsPool pool
    → ((flush_all pool).0 ≡ ok tt)
      × IsPool (flush_all pool).1
      × ((k : ℕ) → contents k (flush_all pool).1 ≡ contents k pool)
      × ((k : ℕ) → page_at k (flush_all pool).1.disk ≡ contents k pool)
unfolding flush_all contents
flush_all-on_disk pool h =
    let (done, after, clean) = flush_each-Flushes (keys pool.pages) pool h in
    (
      done,
      after.valid,
      after.bytes,
      λ k. elim (Option-cases (find k (flush_all pool).1.pages)) [
        | inl e ↦ sym (rw (contents, e) refl) ∙ after.bytes k
        | inr (page, e) ↦
            let is_clean : page.is_dirty ≡ false =
              elim (Bool-cases (is_listed k (keys pool.pages))) [
                | inl t ↦ clean k t page e
                | inr t ↦ ground (arith, after.listed k (is_listed-keys k pool.pages t), e)
              ] in
            let same : contents k (flush_all pool).1 ≡ page.bytes = rw (contents, e) refl in
            sym ((after.valid.held k page e).clean is_clean) ∙ sym same ∙ after.bytes k
      ],
    )
