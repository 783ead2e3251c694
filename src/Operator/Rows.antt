-- ===== src/Operator/Rows.antt =====
-- The rows that an operator still has to give, by relational algebra on lists, and a bound on the
-- fuel of one `next` call.
use my_database_engine.Common.{
  ℕ, ◌+◌, ◌-◌, none, some, List, [], ◌++◌, map, Text, length, take, drop, keep, flat_map,
}
use my_database_engine.Common.Int.{to_nat}
use my_database_engine.Ast.{Row}
use my_database_engine.Doubles.{Doubles}
use my_database_engine.Expr.{evaluate_expr}
use my_database_engine.Mvcc.{VersionedRow, MvccSnapshot, is_visible}
use my_database_engine.Operator.{
  Operator, HashTable, seq_scan, versioned_scan, filter, projection, limit, sort, hash_join,
  project_row, join_rows, hits,
}

-- The rows of the versions that the snapshot sees.
abbrev pub visible_rows : MvccSnapshot → List VersionedRow → List Row
visible_rows s vs = map (λ v. v.row) (keep (is_visible s) vs)

-- The joined rows of one probe row.
abbrev pub joined_rows : Text → HashTable → Row → List Row
joined_rows probe_key table row = elim (hits probe_key table row) [
  | none ↦ []
  | some matches ↦ map (join_rows row) matches
]

module _ (fp : Doubles) where
  unfoldable pub rows_left : Operator → List Row
  rows_left (seq_scan table rows cursor) = drop cursor rows
  rows_left (versioned_scan table versions s cursor) = visible_rows s (drop cursor versions)
  rows_left (filter child predicate) = keep (evaluate_expr fp predicate) (rows_left child)
  rows_left (projection child cols) = map (project_row cols) (rows_left child)
  rows_left (limit child count seen) = take (to_nat count - seen) (rows_left child)
  rows_left (sort child order buffered cursor) = drop cursor buffered
  rows_left (hash_join build probe bk pk table matches probe_row cursor) =
      map (join_rows probe_row) (drop cursor matches)
      ++ flat_map (joined_rows pk table) (rows_left probe)

  unfoldable pub cost : Operator → ℕ
  unfolding rows_left
  cost (filter child predicate) = cost child + length (rows_left child) + 1
  cost (projection child cols) = cost child + 1
  cost (limit child count seen) = cost child + 1
  cost (hash_join build probe bk pk table matches probe_row cursor) =
      cost probe + length (rows_left probe) + 1
  cost _ = 0
