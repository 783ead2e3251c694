-- ===== src/Operator.antt =====
-- include/operator.h, seq_scan.h, filter.h, projection.h, limit.h, sort.h, hash_join.h and
-- src/hash_join.cpp: the pull-based operators, as a data type with the state that each one keeps.
pub mod Rows
pub mod Pull
pub mod Open
pub mod Opened
pub mod Join
pub mod Columns
mod Examples
pub mod Compare
use my_database_engine.Common.{
  ℕ, zero, suc, ◌+◌, Bool, true, false, Option, none, some, List, [], ◌∷◌, ◌++◌, Text, codes,
  length, leb, get_elem?, drop, if◌then◌else◌, ◌==◌, text_key, text_beq, Dict, find, assign,
  contains,
}
use my_database_engine.Common.Int.{ℤ, leb_ℤ}
use my_database_engine.Ast.{Row, Expr, OrderByClause}
use my_database_engine.Doubles.{Doubles}
use my_database_engine.Expr.{evaluate_expr}
use my_database_engine.Mvcc.{VersionedRow, MvccSnapshot, is_visible}
use my_database_engine.Operator.Compare.{row_less}

-- The join's hash table: key value to the build rows that have it, in the order of their arrival.
abbrev pub HashTable : Type 0
HashTable = Dict Text (List Row)

pub data Operator : Type 0 where
  -- tableName_, rows_, cursor_
  seq_scan : Text → List Row → ℕ → Operator
  -- tableName_, versionedRows_, snapshot_, cursor_
  versioned_scan : Text → List VersionedRow → MvccSnapshot → ℕ → Operator
  -- child_, predicate_
  filter : Operator → Expr → Operator
  -- child_, columns_
  projection : Operator → List Text → Operator
  -- child_, count_, seen_
  limit : Operator → ℤ → ℕ → Operator
  -- child_, orderBy_, buffered_, cursor_
  sort : Operator → List OrderByClause → List Row → ℕ → Operator
  -- build_, probe_, buildKey_, probeKey_, hashTable_, currentMatches_, probeRow_, probeCursor_
  hash_join : Operator → Operator → Text → Text → HashTable → List Row → Row → ℕ → Operator

-- The `while` loop of SeqScan::next over the versions from the cursor on: the version found, and
-- the cursor after it.
unfoldable pub skip_invisible : MvccSnapshot → List VersionedRow → ℕ → Option Row × ℕ
skip_invisible s [] cursor = (none, cursor)
skip_invisible s (v ∷ vs) cursor =
    let rest = skip_invisible s vs (cursor + 1) in
    if is_visible s v then (some v.row, cursor + 1) else rest

-- The loop of Projection::next over the columns.
unfoldable pub project_columns : List Text → Row → Row → Row
project_columns [] row projected = projected
project_columns (col ∷ cols) row projected =
    project_columns cols row
      (elim (find col row) [ none ↦ projected | some value ↦ assign col value projected ])

unfoldable pub is_star : List Text → Bool
is_star (col ∷ []) = col == codes "*"
is_star _ = false

-- Projection::next on a row of the child.
unfoldable pub project_row : List Text → Row → Row
unfolding is_star
project_row cols row = if is_star cols then row else project_columns cols row []

-- The loop of HashJoin::next over the columns of a match.
unfoldable pub join_rows : Row → Row → Row
join_rows joined [] = joined
join_rows joined ((k, v) ∷ rest) =
    join_rows (if contains k joined then joined else assign k v joined) rest

-- One row of the build side into the hash table.
unfoldable pub add_to_table : Text → HashTable → Row → HashTable
add_to_table build_key table row = elim (find build_key row) [
  | none ↦ table
  | some key ↦ elim (find key table) [
    | none ↦ assign key (row ∷ []) table
    | some rows ↦ assign key (rows ++ row ∷ []) table
  ]
]

-- What a `next` call returns: a row or the end, and the operator after it. `none` is a run that has
-- used up its fuel.
abbrev pub Pulled : Type 0
Pulled = Option (Option Row × Operator)

infixl 5 ◌>>=◌
abbrev pub ◌>>=◌ {ℓ κ} : {A : Type ℓ} {B : Type κ} → Option A → (A → Option B) → Option B
none >>= f = none
some a >>= f = f a

-- The rows that the build side has for the key of a probe row; the end of the list where the key
-- column or the key is missing.
unfoldable pub hits : Text → HashTable → Row → Option (List Row)
hits probe_key table row = elim (find probe_key row) [ none ↦ none | some key ↦ find key table ]

module _ (fp : Doubles) where
  -- Operator::next. The fuel bounds the nesting of the operators and the rounds of the loops.
  unfoldable pub next : ℕ → Operator → Pulled
  next zero op = none
  next (suc f) (seq_scan table rows cursor) = elim (get_elem? rows cursor) [
    | none ↦ some (none, seq_scan table rows cursor)
    | some row ↦ some (some row, seq_scan table rows (cursor + 1))
  ]
  next (suc f) (versioned_scan table versions s cursor) =
      let (found, cursor') = skip_invisible s (drop cursor versions) cursor in
      some (found, versioned_scan table versions s cursor')
  next (suc f) (filter child predicate) = do
    (pulled, child') ← next f child
    let again = next f (filter child' predicate)
    elim pulled [
      | none ↦ some (none, filter child' predicate)
      | some row ↦
          if evaluate_expr fp predicate row then some (some row, filter child' predicate) else again
    ]
  next (suc f) (projection child cols) = do
    (pulled, child') ← next f child
    elim pulled [
      | none ↦ some (none, projection child' cols)
      | some row ↦ some (some (project_row cols row), projection child' cols)
    ]
  next (suc f) (limit child count seen) =
      let pull = do
        (pulled, child') ← next f child
        elim pulled [
          | none ↦ some (none, limit child' count seen)
          | some row ↦ some (some row, limit child' count (seen + 1))
        ]
      in if leb_ℤ count seen then some (none, limit child count seen) else pull
  next (suc f) (sort child order buffered cursor) = elim (get_elem? buffered cursor) [
    | none ↦ some (none, sort child order buffered cursor)
    | some row ↦ some (some row, sort child order buffered (cursor + 1))
  ]
  next (suc f) (hash_join build probe bk pk table matches probe_row cursor) =
      let pull = do
        (pulled, probe') ← next f probe
        elim pulled [
          | none ↦ some (none, hash_join build probe' bk pk table matches probe_row cursor)
          | some row ↦ elim (hits pk table row) [
            | none ↦ next f (hash_join build probe' bk pk table matches probe_row cursor)
            | some found ↦ next f (hash_join build probe' bk pk table found row 0)
          ]
        ]
      in elim (get_elem? matches cursor) [
        | none ↦ pull
        | some match ↦ some (
          some (join_rows probe_row match),
          hash_join build probe bk pk table matches probe_row (cursor + 1),
        )
      ]

  -- `while (auto row = op->next()) rows.push_back(*row);`
  unfoldable pub drain : ℕ → Operator → Option (List Row × Operator)
  drain zero op = none
  drain (suc f) op = do
    (pulled, op') ← next f op
    elim pulled [
      | none ↦ some ([], op')
      | some row ↦ drain f op' >>= λ (rows, op''). some (row ∷ rows, op'')
    ]
