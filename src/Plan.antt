-- ===== src/Plan.antt =====
-- include/logical_plan.h, include/physical_plan.h and src/optimizer.cpp.
use my_database_engine.Common.{Option, none, some, List, [], ◌∷◌, Text}
use my_database_engine.Common.Int.{ℤ}
use my_database_engine.Ast.{
  Expr, OrderByClause, SelectStatement, InsertStatement, UpdateStatement, DeleteStatement,
  Statement, select, insert, update, delete, create_table, drop_table,
}

-- A node and its children: the node types fix how many children there are.
pub data LogicalPlan : Type 0 where
  scan : Text → LogicalPlan
  filter : Expr → LogicalPlan → LogicalPlan
  projection : List Text → LogicalPlan → LogicalPlan
  sort : List OrderByClause → LogicalPlan → LogicalPlan
  limit : ℤ → LogicalPlan → LogicalPlan
  join : Text → Text → LogicalPlan → LogicalPlan → LogicalPlan

pub data PhysicalPlan : Type 0 where
  seq_scan : Text → PhysicalPlan
  filter : Expr → PhysicalPlan → PhysicalPlan
  projection : List Text → PhysicalPlan → PhysicalPlan
  sort : List OrderByClause → PhysicalPlan → PhysicalPlan
  limit : ℤ → PhysicalPlan → PhysicalPlan
  hash_join : Text → Text → PhysicalPlan → PhysicalPlan → PhysicalPlan

-- The three optional wrappers of buildSelect.
with_filter : Option Expr → LogicalPlan → LogicalPlan
with_filter none cur = cur
with_filter (some predicate) cur = LogicalPlan.filter predicate cur

with_sort : List OrderByClause → LogicalPlan → LogicalPlan
with_sort [] cur = cur
with_sort (c ∷ cs) cur = LogicalPlan.sort (c ∷ cs) cur

with_limit : Option ℤ → LogicalPlan → LogicalPlan
with_limit none cur = cur
with_limit (some count) cur = LogicalPlan.limit count cur

unfoldable pub build_select : SelectStatement → LogicalPlan
unfolding with_filter with_sort with_limit
build_select stmt = with_limit stmt.limit (
    with_sort stmt.order_by
      (LogicalPlan.projection stmt.columns (with_filter stmt.where_clause (scan stmt.table))))

unfoldable pub build_insert : InsertStatement → LogicalPlan
build_insert stmt = scan stmt.table

unfoldable pub build_delete : DeleteStatement → LogicalPlan
unfolding with_filter
build_delete stmt = with_filter stmt.where_clause (scan stmt.table)

unfoldable pub build_update : UpdateStatement → LogicalPlan
unfolding with_filter
build_update stmt = with_filter stmt.where_clause (scan stmt.table)

-- Optimizer::toLogical; `none` is the exception "unsupported statement".
unfoldable pub to_logical : Statement → Option LogicalPlan
to_logical (select s) = some (build_select s)
to_logical (insert s) = some (build_insert s)
to_logical (delete s) = some (build_delete s)
to_logical (update s) = some (build_update s)
to_logical (create_table s) = none
to_logical (drop_table s) = none

-- Optimizer::toPhysical: each logical node has one algorithm.
unfoldable pub to_physical : LogicalPlan → PhysicalPlan
to_physical (scan table) = seq_scan table
to_physical (LogicalPlan.filter p child) = PhysicalPlan.filter p (to_physical child)
to_physical (LogicalPlan.projection cols child) = PhysicalPlan.projection cols (to_physical child)
to_physical (LogicalPlan.sort order child) = PhysicalPlan.sort order (to_physical child)
to_physical (LogicalPlan.limit n child) = PhysicalPlan.limit n (to_physical child)
to_physical (join lk rk left right) = hash_join lk rk (to_physical left) (to_physical right)
