-- ===== src/BTree.antt =====
-- include/btree.h and src/btree.cpp: the nodes of the index, apart from the pages that hold them. The
-- arrays of a node, of ORDER + 1 entries, are lists of their first keyCount entries, without a bound.
pub mod Leaf
pub mod Sorted
mod Examples
use my_database_engine.Common.{
  ℕ, zero, suc, ◌+◌, ◌/◌, Bool, true, false, not, Option, none, some, List, [], ◌∷◌, ◌++◌, Text,
  length, take, drop, get_elem?, text_beq, text_lt, leb, if◌then◌else◌,
}
use my_database_engine.SlottedPage.{invalid_page_id}

abbrev pub node_order : ℕ
node_order = 4

pub record BTreeNode : Type 0 where
  pub is_leaf : Bool
  pub keys : List Text
  pub children : List ℕ
  pub values : List Text
  pub next_leaf : ℕ

pub record SplitResult : Type 0 where
  pub key : Text
  pub new_page : ℕ

-- The entries from a position on move up by one, and this one takes the place.
unfoldable pub insert_at {ℓ} : {A : Type ℓ} → ℕ → A → List A → List A
insert_at i a xs = take i xs ++ a ∷ drop i xs

-- The loop of findLeaf and of insertRec that counts the keys that are not greater, from the left.
unfoldable pub child_index : Text → List Text → ℕ
child_index key [] = 0
child_index key (k ∷ keys) =
    let rest = child_index key keys in if not (text_lt key k) then suc rest else 0

-- The loop of search over the keys of a leaf.
unfoldable pub search_leaf : Text → List Text → List Text → Option Text
search_leaf key [] values = none
search_leaf key (k ∷ keys) [] = none
search_leaf key (k ∷ keys) (v ∷ values) =
    if text_beq k key then some v else search_leaf key keys values

-- The loop of insertRec over the first n keys of a leaf, from the right.
unfoldable pub insert_position : Text → List Text → ℕ → ℕ
insert_position key keys zero = 0
insert_position key keys (suc n) =
    let rest = insert_position key keys n in
    elim (get_elem? keys n) [ none ↦ suc n | some k ↦ if text_lt key k then rest else suc n ]

-- insertRec on a leaf, up to the test whether it has to be split.
unfoldable pub insert_in_leaf : Text → Text → BTreeNode → BTreeNode
unfolding insert_position insert_at
insert_in_leaf key value node =
    let pos = insert_position key node.keys (length node.keys) in
    record node { keys = insert_at pos key node.keys; values = insert_at pos value node.values }

-- insertRec on an internal node, behind the split of child i.
unfoldable pub insert_child : ℕ → SplitResult → BTreeNode → BTreeNode
unfolding insert_at
insert_child i split node = record node {
  keys = insert_at i split.key node.keys;
  children = insert_at (i + 1) split.new_page node.children;
}

-- The test whether a node has to be split.
abbrev pub is_over_full : BTreeNode → Bool
is_over_full node = not (leb (length node.keys) node_order)

-- splitNode on a leaf, with the id of the right node: the left and the right node, and the result.
unfoldable pub split_leaf : ℕ → BTreeNode → BTreeNode × BTreeNode × Option SplitResult
split_leaf right_id node =
    let mid = length node.keys / 2 in
    let right : BTreeNode = record {
      is_leaf = node.is_leaf;
      keys = drop mid node.keys;
      children = [];
      values = drop mid node.values;
      next_leaf = node.next_leaf;
    } in
    let left = record node {
      keys = take mid node.keys;
      values = take mid node.values;
      next_leaf = right_id;
    } in
    (
      left,
      right,
      elim (get_elem? node.keys mid) [
        | none ↦ none
        | some key ↦ some (record { key = key; new_page = right_id })
      ],
    )

-- splitNode on an internal node: the key in the middle goes up, and is in neither half.
unfoldable pub split_internal : ℕ → BTreeNode → BTreeNode × BTreeNode × Option SplitResult
split_internal right_id node =
    let mid = length node.keys / 2 in
    let right : BTreeNode = record {
      is_leaf = node.is_leaf;
      keys = drop (mid + 1) node.keys;
      children = drop (mid + 1) node.children;
      values = [];
      next_leaf = invalid_page_id;
    } in
    let left = record node { keys = take mid node.keys; children = take (mid + 1) node.children } in
    (
      left,
      right,
      elim (get_elem? node.keys mid) [
        | none ↦ none
        | some key ↦ some (record { key = key; new_page = right_id })
      ],
    )
