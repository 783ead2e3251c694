-- ===== src/BTree/Examples.antt =====
-- A leaf with two keys.
use my_database_engine.Common.{
  ◌≡◌, refl, true, some, [], ◌∷◌, codes, text_beq, if◌then◌else◌, text_lt,
}
use my_database_engine.SlottedPage.{invalid_page_id}
use my_database_engine.BTree.{BTreeNode, search_leaf, insert_in_leaf, child_index}
use my_database_engine.BTree.Leaf.{or_else, search_leaf-insert_in_leaf}

abbrev two_keys : BTreeNode
two_keys = record {
  is_leaf = true;
  keys = codes "a" ∷ codes "c" ∷ [];
  children = [];
  values = codes "1" ∷ codes "3" ∷ [];
  next_leaf = invalid_page_id;
}

-- A key that is there already is inserted behind itself.
inserted_keys :
    (insert_in_leaf (codes "a") (codes "2") two_keys).keys ≡ codes "a" ∷ codes "a" ∷ codes "c" ∷ []
unfolding insert_in_leaf text_lt
inserted_keys = refl

-- The old value is found.
old_value :
    search_leaf
      (codes "a")
      (insert_in_leaf (codes "a") (codes "2") two_keys).keys
      (insert_in_leaf (codes "a") (codes "2") two_keys).values
    ≡ some (codes "1")
unfolding insert_in_leaf search_leaf text_lt text_beq
old_value = refl

-- The separator goes to the right.
to_the_right : child_index (codes "b") (codes "a" ∷ codes "b" ∷ codes "c" ∷ []) ≡ 2
unfolding child_index text_lt
to_the_right = refl

search_leaf-insert_in_leaf_example :
    search_leaf
      (codes "a")
      (insert_in_leaf (codes "a") (codes "2") two_keys).keys
      (insert_in_leaf (codes "a") (codes "2") two_keys).values
    ≡ (if text_beq (codes "a") (codes "a")
        then or_else (search_leaf (codes "a") two_keys.keys two_keys.values) (some (codes "2"))
        else search_leaf (codes "a") two_keys.keys two_keys.values)
search_leaf-insert_in_leaf_example =
    search_leaf-insert_in_leaf (codes "a") (codes "a") (codes "2") two_keys refl
