-- ===== src/BTree/Leaf.antt =====
-- Inserting into a leaf and searching it.
use my_database_engine.Common.{
  ℕ, zero, suc, ◌≡◌, inl, inr, refl, ap, sym, true, false, Option, none, some, List, [], ◌∷◌, Text,
  length, drop, drop-length, get_elem?, arith, Bool-cases, Option-cases, text_beq, text_lt,
  text_beq_iff, text_lt_irrefl, if◌then◌else◌,
}
use my_database_engine.BTree.{BTreeNode, insert_at, search_leaf, insert_position, insert_in_leaf}

abbrev pub or_else {ℓ} : {A : Type ℓ} → Option A → Option A → Option A
or_else none b = b
or_else (some a) b = some a

search_leaf-other :
    (p : ℕ) (key key' : Text) (value : Text) (keys values : List Text)
    → text_beq key key' ≡ false
    → length keys ≡ length values
    → search_leaf key' (insert_at p key keys) (insert_at p value values)
      ≡ search_leaf key' keys values
unfolding search_leaf insert_at
search_leaf-other zero key key' value keys values ne len = rw ne refl
search_leaf-other (suc p) key key' value [] [] ne len = rw ne refl
search_leaf-other (suc p) key key' value [] (v ∷ values) ne len = absurd (omega (arith, len))
search_leaf-other (suc p) key key' value (k ∷ keys) [] ne len = absurd (omega (arith, len))
search_leaf-other (suc p) key key' value (k ∷ keys) (v ∷ values) ne len =
    rw (search_leaf-other p key key' value keys values ne (omega arith)) refl

search_leaf-same :
    (p : ℕ) (key : Text) (value : Text) (keys values : List Text)
    → length keys ≡ length values
    → search_leaf key (drop p keys) (drop p values) ≡ none
    → search_leaf key (insert_at p key keys) (insert_at p value values)
      ≡ or_else (search_leaf key keys values) (some value)
unfolding search_leaf insert_at
search_leaf-same zero key value keys values len behind =
    rw ((text_beq_iff key key).1 refl, behind) refl
search_leaf-same (suc p) key value [] [] len behind = rw ((text_beq_iff key key).1 refl) refl
search_leaf-same (suc p) key value [] (v ∷ values) len behind = absurd (omega (arith, len))
search_leaf-same (suc p) key value (k ∷ keys) [] len behind = absurd (omega (arith, len))
search_leaf-same (suc p) key value (k ∷ keys) (v ∷ values) len behind =
    elim (Bool-cases (text_beq k key)) [
      | inl t ↦ rw t refl
      | inr t ↦ rw t (search_leaf-same p key value keys values (omega arith) behind)
    ]

search_leaf-nil : (key : Text) (keys : List Text) → search_leaf key keys [] ≡ none
unfolding search_leaf
search_leaf-nil key [] = refl
search_leaf-nil key (k ∷ keys) = refl

search_leaf_empty : (key : Text) (values : List Text) → search_leaf key [] values ≡ none
unfolding search_leaf
search_leaf_empty key values = refl

greater-ne : (key k : Text) → text_lt key k ≡ true → text_beq k key ≡ false
greater-ne key k above = elim (Bool-cases (text_beq k key)) [
  | inr t ↦ t
  | inl t ↦
      let same : k ≡ key = (text_beq_iff k key).0 t in
      absurd (cc (above, ap (text_lt key) same, text_lt_irrefl key))
]

-- A greater key is not the one that is searched for.
search_leaf-front :
    (key : Text) (n : ℕ) (k : Text) (keys values : List Text)
    → get_elem? keys n ≡ some k
    → text_lt key k ≡ true
    → search_leaf key (drop (suc n) keys) (drop (suc n) values) ≡ none
    → search_leaf key (drop n keys) (drop n values) ≡ none
unfolding search_leaf
search_leaf-front key zero k [] values at above behind = cc
search_leaf-front key zero k (x ∷ keys) [] at above behind = refl
search_leaf-front key zero k (x ∷ keys) (v ∷ values) at above behind =
    let apart : text_beq x key ≡ false = greater-ne key x (cc (at, above)) in rw apart behind
search_leaf-front key (suc n) k [] values at above behind = cc
search_leaf-front key (suc n) k (x ∷ keys) [] at above behind = search_leaf-nil key (drop n keys)
search_leaf-front key (suc n) k (x ∷ keys) (v ∷ values) at above behind =
    search_leaf-front key n k keys values at above behind

-- The new key stands behind every equal one.
search_leaf-behind :
    (key : Text) (keys values : List Text) (n : ℕ)
    → search_leaf key (drop n keys) (drop n values) ≡ none
    → search_leaf key
        (drop (insert_position key keys n) keys)
        (drop (insert_position key keys n) values)
      ≡ none
unfolding insert_position
search_leaf-behind key keys values zero h = h
search_leaf-behind key keys values (suc n) h = elim (Option-cases (get_elem? keys n)) [
  | inl e ↦ rw (insert_position, e) h
  | inr (k, e) ↦ elim (Bool-cases (text_lt key k)) [
    | inr t ↦ rw (insert_position, e, t) h
    | inl t ↦
        rw (insert_position, e, t)
          (search_leaf-behind key keys values n (search_leaf-front key n k keys values e t h))
  ]
]

-- In a leaf with a value for each key, a search behind an insertion gives for every other key what it
-- gave before; for the inserted key it gives the value that the leaf had for it, and the inserted one
-- only if it had none.
pub search_leaf-insert_in_leaf :
    (key key' value : Text) (node : BTreeNode)
    → length node.keys ≡ length node.values
    → search_leaf key' (insert_in_leaf key value node).keys (insert_in_leaf key value node).values
      ≡ (if text_beq key key'
          then or_else (search_leaf key' node.keys node.values) (some value)
          else search_leaf key' node.keys node.values)
unfolding insert_in_leaf
search_leaf-insert_in_leaf key key' value node len = elim (Bool-cases (text_beq key key')) [
  | inr t ↦ rw t (
      search_leaf-other (insert_position key node.keys (length node.keys)) key key' value node.keys
        node.values t len)
  | inl t ↦
      let same : key ≡ key' = (text_beq_iff key key').0 t in
      let p = insert_position key node.keys (length node.keys) in
      let ends : search_leaf key (drop (length node.keys) node.keys)
            (drop (length node.keys) node.values)
          ≡ none =
        rw (drop-length node.keys) (search_leaf_empty key (drop (length node.keys) node.values)) in
      rw t (
        rw (sym same) (
          search_leaf-same p key value node.keys node.values len
            (search_leaf-behind key node.keys node.values (length node.keys) ends)))
]
