-- ===== src/Executor/Select.antt =====
-- A SELECT statement through the optimizer and the executor.
use my_database_engine.Common.{
  ℕ, ◌≤◌, ◌≡◌, ◌∙◌, Bool, Option, none, some, List, [], ◌∷◌, map, Text, arith, take, keep, find,
  text_key,
}
use my_database_engine.Common.Int.{ℤ, to_nat}
use my_database_engine.Ast.{Row, Expr, OrderByClause, SelectStatement}
use my_database_engine.Doubles.{Doubles}
use my_database_engine.Expr.{evaluate_expr}
use my_database_engine.Mvcc.{MvccSnapshot}
use my_database_engine.Plan.{build_select, to_physical}
use my_database_engine.Operator.{project_row}
use my_database_engine.Operator.Compare.{row_less}
use my_database_engine.Executor.{TableStorage, Outcome, done, throws, table_not_found, execute}
use my_database_engine.Executor.Query.{plan_rows, snapshot_rows, query_fuel, execute-plan_rows}

module _ (fp : Doubles) (std_sort : (Row → Row → Bool) → List Row → List Row) where
  where_rows : Option Expr → List Row → List Row
  where_rows none rows = rows
  where_rows (some predicate) rows = keep (evaluate_expr fp predicate) rows

  order_rows : List OrderByClause → List Row → List Row
  order_rows [] rows = rows
  order_rows (clause ∷ clauses) rows = std_sort (row_less fp (clause ∷ clauses)) rows

  limit_rows : Option ℤ → List Row → List Row
  limit_rows none rows = rows
  limit_rows (some count) rows = take (to_nat count) rows

  -- What a SELECT gives for the rows of its table: WHERE, then the columns, then ORDER BY, then LIMIT.
  unfoldable pub select_rows : SelectStatement → List Row → List Row
  unfolding where_rows order_rows limit_rows
  select_rows stmt rows = limit_rows stmt.limit (
      order_rows stmt.order_by (map (project_row stmt.columns) (where_rows stmt.where_clause rows)))

  -- The meaning of the plan of a SELECT.
  abbrev pub select_outcome :
      TableStorage → Option MvccSnapshot → SelectStatement → Outcome (List Row)
  select_outcome storage snapshot stmt = elim (find stmt.table storage) [
    | none ↦ throws (table_not_found stmt.table)
    | some rows ↦ done (select_rows stmt (snapshot_rows snapshot rows))
  ]

  plan_rows-build_select :
      (storage : TableStorage) (snapshot : Option MvccSnapshot) (stmt : SelectStatement)
      → plan_rows fp std_sort storage snapshot (to_physical (build_select stmt))
        ≡ select_outcome storage snapshot stmt
  unfolding plan_rows build_select to_physical select_rows
  plan_rows-build_select storage snapshot stmt =
      go stmt.columns stmt.table stmt.where_clause stmt.order_by stmt.limit
    where
      go :
          (columns : List Text) (table : Text) (w : Option Expr) (o : List OrderByClause)
          (l : Option ℤ)
          → plan_rows fp std_sort storage snapshot (
              to_physical (
                build_select (record {
                  columns = columns;
                  table = table;
                  where_clause = w;
                  order_by = o;
                  limit = l;
                })))
            ≡ select_outcome storage snapshot (record {
              columns = columns;
              table = table;
              where_clause = w;
              order_by = o;
              limit = l;
            })
      go columns table none [] none = ground arith
      go columns table none [] (some n) = ground arith
      go columns table none (c ∷ cs) none = ground arith
      go columns table none (c ∷ cs) (some n) = ground arith
      go columns table (some p) [] none = ground arith
      go columns table (some p) [] (some n) = ground arith
      go columns table (some p) (c ∷ cs) none = ground arith
      go columns table (some p) (c ∷ cs) (some n) = ground arith

  -- A SELECT that is compiled and run with enough fuel gives the rows of its WHERE, projection,
  -- ORDER BY and LIMIT, or throws if its table is missing.
  pub execute-build_select :
      (f : ℕ) (storage : TableStorage) (snapshot : Option MvccSnapshot) (stmt : SelectStatement)
      → query_fuel fp std_sort storage snapshot (to_physical (build_select stmt)) ≤ f
      → execute fp std_sort f storage snapshot (to_physical (build_select stmt))
        ≡ select_outcome storage snapshot stmt
  execute-build_select f storage snapshot stmt h =
      execute-plan_rows fp std_sort f storage snapshot (to_physical (build_select stmt)) h
      ∙ plan_rows-build_select storage snapshot stmt
