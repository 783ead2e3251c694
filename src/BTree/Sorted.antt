-- ===== src/BTree/Sorted.antt =====
-- The order of the keys of a leaf.
use my_database_engine.Common.{
  ℕ, zero, suc, ◌≤◌, ◌≡◌, inl, inr, refl, true, false, some, List, [], ◌∷◌, Text, All, length, take,
  drop, get_elem?, arith, Bool-cases, text_lt, text_lt_irrefl, drop-length, text_lt_trans,
  text_lt_total,
}
use my_database_engine.BTree.{BTreeNode, insert_at, insert_position, insert_in_leaf}

-- No key is smaller than one before it.
abbrev pub IsSorted : List Text → Type 0
IsSorted [] = Unit
IsSorted (k ∷ keys) = All (λ other. text_lt other k ≡ false) keys × IsSorted keys

not_less_trans : (a b c : Text) → text_lt b a ≡ false → text_lt c b ≡ false → text_lt c a ≡ false
not_less_trans a b c h k = elim (Bool-cases (text_lt c a)) [
  | inr t ↦ t
  | inl t ↦ elim (Bool-cases (text_lt a b)) [
    | inl u ↦ absurd (cc (text_lt_trans c a b t u, k))
    | inr u ↦ let same : a ≡ b = text_lt_total a b u h in absurd (cc (t, k, same))
  ]
]

less_asym : (a b : Text) → text_lt a b ≡ true → text_lt b a ≡ false
less_asym a b h = elim (Bool-cases (text_lt b a)) [
  | inr t ↦ t
  | inl t ↦ absurd (cc (text_lt_trans a b a h t, text_lt_irrefl a))
]

All-insert_at :
    (x : Text) (p : ℕ) (key : Text) (keys : List Text)
    → text_lt key x ≡ false
    → All (λ other. text_lt other x ≡ false) keys
    → All (λ other. text_lt other x ≡ false) (insert_at p key keys)
unfolding insert_at
All-insert_at x zero key keys h k = (h, k)
All-insert_at x (suc p) key [] h k = (h, tt)
All-insert_at x (suc p) key (y ∷ keys) h k = (k.0, All-insert_at x p key keys h k.1)

IsSorted-insert_at :
    (p : ℕ) (key : Text) (keys : List Text)
    → IsSorted keys
    → All (λ k. text_lt key k ≡ false) (take p keys)
    → All (λ k. text_lt k key ≡ false) (drop p keys)
    → IsSorted (insert_at p key keys)
unfolding insert_at
IsSorted-insert_at zero key keys h low high = (high, h)
IsSorted-insert_at (suc p) key [] h low high = (tt, tt)
IsSorted-insert_at (suc p) key (k ∷ keys) h low high =
    (All-insert_at k p key keys low.0 h.0, IsSorted-insert_at p key keys h.1 low.1 high)

-- The keys up to one that is not greater are not greater.
not_greater_front :
    (key : Text) (n : ℕ) (k : Text) (keys : List Text)
    → IsSorted keys
    → get_elem? keys n ≡ some k
    → text_lt key k ≡ false
    → All (λ other. text_lt key other ≡ false) (take (suc n) keys)
not_greater_front key n k [] h at below = cc
not_greater_front key zero k (x ∷ keys) h at below = (cc (at, below), tt)
not_greater_front key (suc n) k (x ∷ keys) h at below = (
  not_less_trans x k key (All-get_elem? n k keys h.0 at) below,
  not_greater_front key n k keys h.1 at below,
)
  where
    All-get_elem? :
        (i : ℕ) (y : Text) (ys : List Text)
        → All (λ other. text_lt other x ≡ false) ys
        → get_elem? ys i ≡ some y
        → text_lt y x ≡ false
    All-get_elem? i y [] all e = cc
    All-get_elem? zero y (z ∷ ys) all e = cc (all.0, e)
    All-get_elem? (suc i) y (z ∷ ys) all e = All-get_elem? i y ys all.1 e

get_elem?-inside :
    (n : ℕ) (keys : List Text) → suc n ≤ length keys → (k : Text) × (get_elem? keys n ≡ some k)
get_elem?-inside n [] h = absurd (omega (arith, h))
get_elem?-inside zero (k ∷ keys) h = (k, refl)
get_elem?-inside (suc n) (k ∷ keys) h = get_elem?-inside n keys (omega arith)

greater_behind :
    (key : Text) (n : ℕ) (k : Text) (keys : List Text)
    → get_elem? keys n ≡ some k
    → text_lt key k ≡ true
    → All (λ other. text_lt other key ≡ false) (drop (suc n) keys)
    → All (λ other. text_lt other key ≡ false) (drop n keys)
greater_behind key n k [] at above h = cc
greater_behind key zero k (x ∷ keys) at above h = (less_asym key x (cc (at, above)), h)
greater_behind key (suc n) k (x ∷ keys) at above h = greater_behind key n k keys at above h

module _ (key : Text) (keys : List Text) where
  insert_position-front :
      (n : ℕ)
      → n ≤ length keys
      → IsSorted keys
      → All (λ other. text_lt key other ≡ false) (take (insert_position key keys n) keys)
  unfolding insert_position
  insert_position-front zero h s = tt
  insert_position-front (suc n) h s =
      let (k, e) = get_elem?-inside n keys h in
      elim (Bool-cases (text_lt key k)) [
        | inl t ↦ rw (insert_position, e, t) (insert_position-front n (omega arith) s)
        | inr t ↦ rw (insert_position, e, t) (not_greater_front key n k keys s e t)
      ]

  insert_position-behind :
      (n : ℕ)
      → n ≤ length keys
      → All (λ other. text_lt other key ≡ false) (drop n keys)
      → All (λ other. text_lt other key ≡ false) (drop (insert_position key keys n) keys)
  unfolding insert_position
  insert_position-behind zero h s = s
  insert_position-behind (suc n) h s =
      let (k, e) = get_elem?-inside n keys h in
      elim (Bool-cases (text_lt key k)) [
        | inl t ↦
            rw (insert_position, e, t)
              (insert_position-behind n (omega arith) (greater_behind key n k keys e t s))
        | inr t ↦ rw (insert_position, e, t) s
      ]

-- Inserting into a leaf whose keys are in order keeps them in order.
pub insert_in_leaf-IsSorted :
    (key value : Text) (node : BTreeNode)
    → IsSorted node.keys
    → IsSorted (insert_in_leaf key value node).keys
unfolding insert_in_leaf
insert_in_leaf-IsSorted key value node s =
    IsSorted-insert_at (insert_position key node.keys (length node.keys)) key node.keys s
      (insert_position-front key node.keys (length node.keys) (omega arith) s)
      (insert_position-behind key node.keys (length node.keys) (omega arith)
        (rw (drop-length node.keys) tt))
