-- ===== src/Operator/Join.antt =====
-- The hash join against a nested loop over both sides.
use my_database_engine.Common.{
  Bool, false, Option, none, some, List, [], ◌∷◌, ◌++◌, map, append_assoc, Text, arith, keep,
  flat_map, find, find-assign, ◌==◌, ==_iff, text_key, ◌≡◌, refl, if◌then◌else◌, Option-cases,
  List-cases, inl, inr, Bool-cases,
}
use my_database_engine.Ast.{Row}
use my_database_engine.Operator.{HashTable, add_to_table, join_rows, hits}
use my_database_engine.Operator.Rows.{joined_rows}
use my_database_engine.Operator.Open.{build_table}

-- The row has `key` in the column.
unfoldable pub has_key : Text → Text → Row → Bool
has_key column key row = elim (find column row) [ none ↦ false | some value ↦ value == key ]

-- What a nested loop over the build rows gives for one probe row.
unfoldable pub nested_loop : Text → Text → List Row → Row → List Row
nested_loop build_key probe_key build row = elim (find probe_key row) [
  | none ↦ []
  | some key ↦ map (join_rows row) (keep (has_key build_key key) build)
]

-- A table entry with more rows behind it; an entry is never empty.
abbrev append_hits : Option (List Row) → List Row → Option (List Row)
append_hits entry [] = entry
append_hits none (row ∷ rows) = some (row ∷ rows)
append_hits (some old) (row ∷ rows) = some (old ++ row ∷ rows)

append_hits-append :
    (entry : Option (List Row)) (row : Row) (rows : List Row)
    → append_hits (append_hits entry (row ∷ [])) rows ≡ append_hits entry (row ∷ rows)
append_hits-append none row [] = refl
append_hits-append none row (r ∷ rows) = refl
append_hits-append (some old) row [] = refl
append_hits-append (some old) row (r ∷ rows) = rw append_assoc

find-add_to_table :
    (bk key : Text) (table : HashTable) (row : Row)
    → find key (add_to_table bk table row)
      ≡ (if has_key bk key row then append_hits (find key table) (row ∷ []) else find key table)
unfolding add_to_table has_key
find-add_to_table bk key table row = go (find bk row) refl
  where
    go :
        (o : Option Text)
        → find bk row ≡ o
        → find key (add_to_table bk table row)
          ≡ (if has_key bk key row then append_hits (find key table) (row ∷ []) else find key table)
    go none e = ground (arith, e)
    go (some value) e = elim (Option-cases (find value table)) [
      | inl miss ↦ ground (arith, e, miss, ==_iff value key, find-assign value key (row ∷ []) table)
      | inr (old, hit) ↦
          ground (arith, e, hit, ==_iff value key, find-assign value key (old ++ row ∷ []) table)
    ]

find-build_table :
    (bk key : Text) (table : HashTable) (rows : List Row)
    → find key (build_table bk table rows)
      ≡ append_hits (find key table) (keep (has_key bk key) rows)
unfolding build_table
find-build_table bk key table [] = refl
find-build_table bk key table (row ∷ rows) = elim (Bool-cases (has_key bk key row)) [
  | inl t ↦ ground (
    arith,
    find-build_table bk key (add_to_table bk table row) rows,
    find-add_to_table bk key table row,
    append_hits-append (find key table) row (keep (has_key bk key) rows),
  )
  | inr t ↦ ground (
    arith,
    find-build_table bk key (add_to_table bk table row) rows,
    find-add_to_table bk key table row,
  )
]

-- The rows that the hash table gives for a probe row are those of the nested loop, in its order.
pub joined_rows-build_table :
    (bk pk : Text) (build : List Row) (row : Row)
    → joined_rows pk (build_table bk [] build) row ≡ nested_loop bk pk build row
unfolding hits nested_loop find
joined_rows-build_table bk pk build row = elim (Option-cases (find pk row)) [
  | inl e ↦ ground (arith, e)
  | inr (key, e) ↦ elim (List-cases (keep (has_key bk key) build)) [
    | inl k ↦ ground (arith, e, k, find-build_table bk key [] build)
    | inr (r, rs, k) ↦ ground (arith, e, k, find-build_table bk key [] build)
  ]
]

pub join-nested_loop :
    (bk pk : Text) (build probe : List Row)
    → flat_map (joined_rows pk (build_table bk [] build)) probe
      ≡ flat_map (nested_loop bk pk build) probe
join-nested_loop bk pk build [] = refl
join-nested_loop bk pk build (row ∷ rows) =
    rw (joined_rows-build_table bk pk build row, join-nested_loop bk pk build rows)
