-- ===== src/BufferPool/Cache.antt =====
-- The invariant of the buffer pool, and what its steps keep: the bytes of every page, wherever they
-- are, and the pinned pages.
use my_database_engine.Common.{
  ℕ, suc, ◌^◌, ◌≤◌, ◌<◌, ◌≡◌, inl, inr, refl, ◌∙◌, Bool, true, false, none, some, List, [], ◌∷◌,
  arith, length, if◌then◌else◌, nat_beq, Bool-cases, Dict, find, assign, erase, contains,
  number_key,
}
use my_database_engine.Page.{page_size, Page}
use my_database_engine.Disk.{DiskManager}
use my_database_engine.Disk.Pages.{page_at, IsReady}
use my_database_engine.BufferPool.{BufferPool, erase_node}

unfoldable pub is_listed : ℕ → List ℕ → Bool
is_listed k [] = false
is_listed k (id ∷ ids) = if nat_beq id k then true else is_listed k ids

-- No id twice.
abbrev pub IsOnce : List ℕ → Type 0
IsOnce [] = Unit
IsOnce (id ∷ ids) = (is_listed id ids ≡ false) × IsOnce ids

-- The bytes of a page: those in memory, or else those in the file.
unfoldable pub contents : ℕ → BufferPool → List ℕ
contents k pool = elim (find k pool.pages) [ none ↦ page_at k pool.disk | some page ↦ page.bytes ]

-- A page in memory is one of the file's, has its full size, and is the file's if it is not dirty.
pub record IsHeld (k : ℕ) (page : Page) (disk : DiskManager) : Type 0 where
  pub inside : k < disk.page_count
  pub full : length page.bytes ≡ page_size
  pub clean : page.is_dirty ≡ false → page.bytes ≡ page_at k disk

pub record IsPool (pool : BufferPool) : Type 0 where
  pub ready : IsReady pool.disk
  pub few : pool.disk.page_count < 2 ^ 32
  pub held : (k : ℕ) (page : Page) → find k pool.pages ≡ some page → IsHeld k page pool.disk
  pub cached : (k : ℕ) → contains k pool.pages ≡ is_listed k pool.lru_list
  pub mapped : (k : ℕ) → find k pool.lru_map ≡ (if is_listed k pool.lru_list then some k else none)
  pub once : IsOnce pool.lru_list
  pub bound : length pool.pages ≤ pool.pool_size

-- What a step that only moves pages between memory and file keeps.
pub record Keeps (pool pool' : BufferPool) : Type 0 where
  pub valid : IsPool pool'
  pub bytes : (k : ℕ) → contents k pool' ≡ contents k pool
  pub count : pool'.disk.page_count ≡ pool.disk.page_count
  pub size : pool'.pool_size ≡ pool.pool_size
  pub pinned :
      (k : ℕ) (page : Page)
      → find k pool.pages ≡ some page
      → 0 < page.pin_count
      → find k pool'.pages ≡ some page
  pub absent : (k : ℕ) → find k pool.pages ≡ none → find k pool'.pages ≡ none

pub Keeps-refl : (pool : BufferPool) → IsPool pool → Keeps pool pool
Keeps-refl pool h = record {
  valid = h;
  bytes = λ k. refl;
  count = refl;
  size = refl;
  pinned = λ k page e p. e;
  absent = λ k e. e;
}

pub Keeps-trans : (a b c : BufferPool) → Keeps a b → Keeps b c → Keeps a c
Keeps-trans a b c h k = record {
  valid = k.valid;
  bytes = λ i. k.bytes i ∙ h.bytes i;
  count = k.count ∙ h.count;
  size = k.size ∙ h.size;
  pinned = λ i page e p. k.pinned i page (h.pinned i page e p) p;
  absent = λ i e. k.absent i (h.absent i e);
}

pub is_listed-erase_node :
    (k id : ℕ) (ids : List ℕ)
    → is_listed k (erase_node id ids) ≡ (if nat_beq id k then false else is_listed k ids)
unfolding is_listed erase_node
is_listed-erase_node k id [] = ground arith
is_listed-erase_node k id (i ∷ ids) = ground (arith, is_listed-erase_node k id ids)

pub IsOnce-erase_node : (id : ℕ) (ids : List ℕ) → IsOnce ids → IsOnce (erase_node id ids)
unfolding erase_node
IsOnce-erase_node id [] h = tt
IsOnce-erase_node id (i ∷ ids) h = elim (Bool-cases (nat_beq i id)) [
  | inl t ↦ rw t (IsOnce-erase_node id ids h.1)
  | inr t ↦ rw t (ground (arith, is_listed-erase_node i id ids, h.0), IsOnce-erase_node id ids h.1)
]

module _ {ℓ} {V : Type ℓ} where
  pub length-erase_le : (k : ℕ) (m : Dict ℕ V) → length (erase k m) ≤ length m
  unfolding erase
  length-erase_le k [] = omega arith
  length-erase_le k ((j, v) ∷ m) = ground (arith, length-erase_le k m)

  pub length-erase :
      (k : ℕ) (m : Dict ℕ V) (v : V) → find k m ≡ some v → length (erase k m) < length m
  unfolding erase find
  length-erase k [] v h = cc
  length-erase k ((j, w) ∷ m) v h = elim (Bool-cases (nat_beq j k)) [
    | inl t ↦ ground (arith, length-erase_le k m)
    | inr t ↦ ground (arith, length-erase k m v (ground arith))
  ]

  pub length-assign_le : (k : ℕ) (v : V) (m : Dict ℕ V) → length (assign k v m) ≤ suc (length m)
  unfolding assign
  length-assign_le k v [] = omega arith
  length-assign_le k v ((j, w) ∷ m) = ground (arith, length-assign_le k v m)

  pub length-assign :
      (k : ℕ) (v w : V) (m : Dict ℕ V) → find k m ≡ some w → length (assign k v m) ≡ length m
  unfolding assign find
  length-assign k v w [] h = cc
  length-assign k v w ((j, x) ∷ m) h = elim (Bool-cases (nat_beq j k)) [
    | inl t ↦ ground arith
    | inr t ↦ ground (arith, length-assign k v w m (ground arith))
  ]
