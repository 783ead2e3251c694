-- ===== src/Operator/Open.antt =====
-- Operator::open of each operator. `std::sort` is the parameter `std_sort`.
use my_database_engine.Common.{ℕ, Bool, Option, some, List, [], ◌∷◌, Text}
use my_database_engine.Ast.{Row}
use my_database_engine.Doubles.{Doubles}
use my_database_engine.Operator.{
  Operator, HashTable, seq_scan, versioned_scan, filter, projection, limit, sort, hash_join, drain,
  add_to_table, ◌>>=◌,
}
use my_database_engine.Operator.Compare.{row_less}

-- The loop of HashJoin::open over the rows of the build side.
unfoldable pub build_table : Text → HashTable → List Row → HashTable
build_table build_key table [] = table
build_table build_key table (row ∷ rows) =
    build_table build_key (add_to_table build_key table row) rows

module _ (fp : Doubles) (std_sort : (Row → Row → Bool) → List Row → List Row) where
  -- The fuel is that of the loops that read a child to its end.
  unfoldable pub open_operator : ℕ → Operator → Option Operator
  open_operator f (seq_scan table rows cursor) = some (seq_scan table rows 0)
  open_operator f (versioned_scan table versions s cursor) =
      some (versioned_scan table versions s 0)
  open_operator f (filter child predicate) = do
    child' ← open_operator f child
    some (filter child' predicate)
  open_operator f (projection child cols) = do
    child' ← open_operator f child
    some (projection child' cols)
  open_operator f (limit child count seen) = do
    child' ← open_operator f child
    some (limit child' count 0)
  open_operator f (sort child order buffered cursor) = do
    child' ← open_operator f child
    (rows, child'') ← drain fp f child'
    some (sort child'' order (std_sort (row_less fp order) rows) 0)
  open_operator f (hash_join build probe bk pk table matches probe_row cursor) = do
    build' ← open_operator f build
    probe' ← open_operator f probe
    (rows, build'') ← drain fp f build'
    some (hash_join build'' probe' bk pk (build_table bk [] rows) [] probe_row 0)
