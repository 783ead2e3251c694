-- ===== src/BufferPool/Evict.antt =====
-- Eviction makes room and loses nothing: it writes a dirty page to the file before it drops it, and
-- passes over the pinned pages.
use mathlib.Core.Path.{subst}
use mathlib.Core.List.{reverse, reverse-cons, reverse-reverse}
use my_database_engine.Common.{
  ℕ, ◌≤◌, ◌<◌, ◌≡◌, inl, inr, refl, ◌∙◌, sym, Bool, true, false, some, List, [], ◌∷◌, arith, length,
  if◌then◌else◌, nat_beq, nat_beq_iff, Bool-cases, Option-cases, find, contains, number_key,
  find-erase, All, All-append, ltb, leb,
}
use my_database_engine.Page.{Page}
use my_database_engine.Disk.{Result, ok, error, write_page, all_pinned}
use my_database_engine.Disk.Pages.{page_at, WroteAt, write_page-WroteAt}
use my_database_engine.BufferPool.{
  and_then, BufferPool, drop_page, evict_page, evict_from, evict, make_room,
}
use my_database_engine.BufferPool.Cache.{
  IsPool, IsOnce-erase_node, Keeps, Keeps-refl, Keeps-trans, contents, is_listed,
  is_listed-erase_node, length-erase, length-erase_le,
}

-- Dropping an unpinned page whose bytes are the file's.
drop_page-Keeps :
    (id : ℕ) (page : Page) (pool : BufferPool)
    → IsPool pool
    → find id pool.pages ≡ some page
    → page.pin_count ≡ 0
    → page.bytes ≡ page_at id pool.disk
    → Keeps pool (drop_page id pool)
unfolding drop_page contents
drop_page-Keeps id page pool h e unpinned same = record {
  valid = record {
    ready = h.ready;
    few = h.few;
    held = λ k p f. h.held k p (ground (arith, find-erase id k pool.pages));
    cached = λ k.
        ground
          (arith, find-erase id k pool.pages, is_listed-erase_node k id pool.lru_list, h.cached k);
    mapped = λ k.
        ground (
          arith,
          find-erase id k pool.lru_map,
          is_listed-erase_node k id pool.lru_list,
          h.mapped k,
        );
    once = IsOnce-erase_node id pool.lru_list h.once;
    bound = omega (arith, length-erase_le id pool.pages, h.bound);
  };
  bytes = λ k. elim (Bool-cases (nat_beq id k)) [
    | inl t ↦
        let i = (nat_beq_iff id k).0 t in
        rw (contents, find-erase id k pool.pages, t) (rw (sym i) (rw (contents, e) (sym same)))
    | inr t ↦ rw (contents, find-erase id k pool.pages, t) refl
  ];
  count = refl;
  size = refl;
  pinned = λ k p f pos. elim (Bool-cases (nat_beq id k)) [
    | inl t ↦ ground (arith, (nat_beq_iff id k).0 t)
    | inr t ↦ find-erase id k pool.pages ∙ (rw t f)
  ];
  absent = λ k f. ground (arith, find-erase id k pool.pages, f);
}

-- Writing a page of the pool to the file.
pub write_page-Keeps :
    (id : ℕ) (page : Page) (pool : BufferPool)
    → IsPool pool
    → find id pool.pages ≡ some page
    → WroteAt id page pool.disk (write_page id page pool.disk)
      × Keeps pool (record pool { disk = (write_page id page pool.disk).1 })
unfolding contents
write_page-Keeps id page pool h e =
    let held = h.held id page e in
    let w =
      write_page-WroteAt id page pool.disk h.ready held.full (omega (arith, held.inside))
        (omega (arith, held.inside, h.few)) in
    let same_count : (write_page id page pool.disk).1.page_count ≡ pool.disk.page_count =
      ground (arith, w.count, held.inside) in
    (
      w,
      record {
        valid = record {
          ready = w.ready;
          few = omega (arith, same_count, h.few);
          held = λ k p f.
              let old = h.held k p f in
              record {
                inside = omega (arith, same_count, old.inside);
                full = old.full;
                clean = λ c. elim (Bool-cases (nat_beq id k)) [
                  | inl t ↦ let i = (nat_beq_iff id k).0 t in cc (e, f, i, w.same)
                  | inr t ↦ old.clean c ∙ sym (w.others k (λ i. ground (arith, i)))
                ];
              };
          cached = h.cached;
          mapped = h.mapped;
          once = h.once;
          bound = h.bound;
        };
        bytes = λ k. elim (Option-cases (find k pool.pages)) [
          | inl f ↦ rw (contents, f) (w.others k (λ i. cc (i, e, f)))
          | inr (p, f) ↦ rw (contents, f) refl
        ];
        count = same_count;
        size = refl;
        pinned = λ k p f pos. f;
        absent = λ k f. f;
      },
    )

abbrev pub IsPinned : BufferPool → ℕ → Type 0
IsPinned pool id = (page : Page) → find id pool.pages ≡ some page → 0 < page.pin_count

-- What eviction over these ids has done: it has dropped a page, or all of them are pinned.
data Evicts (ids : List ℕ) (pool : BufferPool) : Result Bool × BufferPool → Type 0 where
  dropped :
      (pool' : BufferPool)
      → Keeps pool pool'
      → length pool'.pages < length pool.pages
      → Evicts ids pool (ok true, pool')
  kept : All (IsPinned pool) ids → Evicts ids pool (ok false, pool)

evict_page-Evicts :
    (ids : List ℕ) (id : ℕ) (page : Page) (pool : BufferPool)
    → IsPool pool
    → find id pool.pages ≡ some page
    → page.pin_count ≡ 0
    → Evicts ids pool (evict_page id page pool)
unfolding evict_page drop_page
evict_page-Evicts ids id page pool h e unpinned = elim (Bool-cases page.is_dirty) [
  | inl t ↦
      let (w, keeps) = write_page-Keeps id page pool h e in
      let pool' = record pool { disk = (write_page id page pool.disk).1 } in
      let e1 : evict_page id page pool ≡ (ok true, drop_page id pool') =
        ground (arith, t, w.wrote) in
      rw e1 (
        dropped (drop_page id pool')
          (Keeps-trans pool pool' (drop_page id pool') keeps
            (drop_page-Keeps id page pool' keeps.valid e unpinned (sym w.same)))
          (length-erase id pool.pages page e))
  | inr t ↦
      let e1 : evict_page id page pool ≡ (ok true, drop_page id pool) = ground (arith, t) in
      rw e1 (
        dropped (drop_page id pool)
          (drop_page-Keeps id page pool h e unpinned ((h.held id page e).clean t))
          (length-erase id pool.pages page e))
]

keep_on :
    (id : ℕ) (ids : List ℕ) (pool : BufferPool) (r : Result Bool × BufferPool)
    → IsPinned pool id
    → Evicts ids pool r
    → Evicts (id ∷ ids) pool r
keep_on id ids pool _ p (dropped pool' keeps less) = dropped pool' keeps less
keep_on id ids pool _ p (kept all) = kept (p, all)

same_pinned :
    (page p : Page) (id : ℕ) (pool : BufferPool)
    → find id pool.pages ≡ some page
    → find id pool.pages ≡ some p
    → 0 < page.pin_count
    → 0 < p.pin_count
same_pinned page p id pool e f pos = ground (arith, e, f)

evict_from-Evicts :
    (ids : List ℕ) (pool : BufferPool)
    → IsPool pool
    → All (λ id. contains id pool.pages ≡ true) ids
    → Evicts ids pool (evict_from ids pool)
unfolding evict_from
evict_from-Evicts [] pool h a = kept tt
evict_from-Evicts (id ∷ ids) pool h a = elim (Option-cases (find id pool.pages)) [
  | inl e ↦ absurd (ground (arith, a.0, e))
  | inr (page, e) ↦
      rw (evict_from, e)
        (elim (Bool-cases (ltb 0 page.pin_count)) [
          | inl t ↦ rw t (
              keep_on id ids pool _ (λ p f. same_pinned page p id pool e f (ground (arith, t)))
                (evict_from-Evicts ids pool h a.1))
          | inr t ↦ rw t (evict_page-Evicts (id ∷ ids) id page pool h e (ground (arith, t)))
        ])
]

-- The ids of the list are in memory, in any order.
All-contains :
    (ids : List ℕ) (pool : BufferPool)
    → ((k : ℕ) → is_listed k ids ≡ true → contains k pool.pages ≡ true)
    → All (λ id. contains id pool.pages ≡ true) ids
unfolding is_listed
All-contains [] pool f = tt
All-contains (id ∷ ids) pool f =
    (f id (ground arith), All-contains ids pool (λ k h. f k (ground (arith, h))))

module _ (P : ℕ → Type 0) where
  All-reverse : (ids : List ℕ) → All P ids → All P (reverse ids)
  All-reverse [] h = h
  All-reverse (id ∷ ids) h =
      rw (reverse-cons id ids)
        (All-append P (reverse ids) (id ∷ []) (All-reverse ids h.1) (h.0, tt))

  All-is_listed : (k : ℕ) (ids : List ℕ) → All P ids → is_listed k ids ≡ true → P k
  unfolding is_listed
  All-is_listed k [] h l = cc
  All-is_listed k (id ∷ ids) h l = elim (Bool-cases (nat_beq id k)) [
    | inl t ↦ rw (sym ((nat_beq_iff id k).0 t)) h.0
    | inr t ↦ All-is_listed k ids h.1 (ground (arith, l, t))
  ]

evict-Evicts : (pool : BufferPool) → IsPool pool → Evicts (reverse pool.lru_list) pool (evict pool)
unfolding evict
evict-Evicts pool h = evict_from-Evicts (reverse pool.lru_list) pool h (
    All-reverse (λ id. contains id pool.pages ≡ true) pool.lru_list
      (All-contains pool.lru_list pool (λ k l. h.cached k ∙ l)))

-- What making room has done: there is room, or all pages are pinned and nothing has changed.
pub data MakesRoom (pool : BufferPool) : Result {0} Unit × BufferPool → Type 0 where
  room :
      (pool' : BufferPool)
      → Keeps pool pool'
      → length pool'.pages < pool.pool_size
      → MakesRoom pool (ok tt, pool')
  full :
      ((id : ℕ) → IsPinned pool id)
      → pool.pool_size ≤ length pool.pages
      → MakesRoom pool (error all_pinned, pool)

pub make_room-MakesRoom : (pool : BufferPool) → IsPool pool → MakesRoom pool (make_room pool)
unfolding make_room
make_room-MakesRoom pool h = elim (Bool-cases (leb pool.pool_size (length pool.pages))) [
  | inl t ↦ rw (make_room, t) (go (evict pool) (evict-Evicts pool h) (ground (arith, t)))
  | inr t ↦ rw (make_room, t) (room pool (Keeps-refl pool h) (ground (arith, t)))
]
  where
    go :
        (r : Result Bool × BufferPool)
        → Evicts (reverse pool.lru_list) pool r
        → pool.pool_size ≤ length pool.pages
        → MakesRoom pool (
            and_then r
              (λ evicted pool'. if evicted then (ok tt, pool') else (error all_pinned, pool')))
    go _ (dropped pool' keeps less) k = room pool' keeps (omega (arith, less, h.bound))
    go _ (kept all) k =
        full
          (λ id page e.
            let listed : is_listed id pool.lru_list ≡ true =
              sym (h.cached id) ∙ ground (arith, e) in
            All-is_listed (IsPinned pool) id pool.lru_list
              (subst (All (IsPinned pool)) (reverse-reverse pool.lru_list)
                (All-reverse (IsPinned pool) (reverse pool.lru_list) all))
              listed page e)
          k
