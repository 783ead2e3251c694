-- ===== src/Executor/Examples.antt =====
-- The queries of `main`, and the theorems at them.
use my_database_engine.Common.{
  ◌≤◌, Bool, none, some, List, [], ◌∷◌, codes, text_beq, find, assign, refl, ◌≡◌, arith,
  if◌then◌else◌,
}
use my_database_engine.Common.Int.{pos}
use my_database_engine.Ast.{Row, SelectStatement, literal, integer, column_ref, binary}
use my_database_engine.Doubles.Decimal.{decimal}
use my_database_engine.Plan.{to_physical, build_select}
use my_database_engine.Executor.{TableStorage, execute, build}
use my_database_engine.Operator.{hits, add_to_table, drain, next}
use my_database_engine.Operator.Open.{build_table, open_operator}
use my_database_engine.Plan.{hash_join, seq_scan}
use my_database_engine.Executor.{done}
use my_database_engine.Executor.Join.{Merges, joined_pairs, execute-hash_join}
use my_database_engine.Executor.Query.{plan_rows, query_fuel, execute-plan_rows}
use my_database_engine.Executor.Select.{select_outcome, execute-build_select}
use my_database_engine.Expr.{evaluate_expr, compare_values, compare_doubles, resolve_expr}

abbrev insert_sorted : (Row → Row → Bool) → Row → List Row → List Row
insert_sorted lt row [] = row ∷ []
insert_sorted lt row (r ∷ rows) = if lt row r then row ∷ r ∷ rows else r ∷ insert_sorted lt row rows

-- A sort for the tests.
abbrev sort_rows : (Row → Row → Bool) → List Row → List Row
sort_rows lt [] = []
sort_rows lt (row ∷ rows) = insert_sorted lt row (sort_rows lt rows)

abbrev users : TableStorage
users =
    (
      codes "users",
      ((codes "id", codes "1") ∷ (codes "age", codes "35") ∷ [])
          ∷ ((codes "id", codes "4") ∷ (codes "age", codes "17") ∷ [])
          ∷ [],
    )
    ∷ []

-- SELECT id FROM users WHERE age >= 18 LIMIT 3
abbrev adults : SelectStatement
adults = record {
  columns = codes "id" ∷ [];
  table = codes "users";
  where_clause =
      some (binary (codes ">=") (column_ref [] (codes "age")) (literal integer (codes "18")));
  order_by = [];
  limit = some (pos 3);
}

enough_fuel : query_fuel decimal sort_rows users none (to_physical (build_select adults)) ≤ 20
unfolding query_fuel build to_physical build_select find text_beq evaluate_expr compare_values
    compare_doubles resolve_expr
enough_fuel = omega arith

execute-plan_rows_example :
    execute decimal sort_rows 20 users none (to_physical (build_select adults))
    ≡ plan_rows decimal sort_rows users none (to_physical (build_select adults))
execute-plan_rows_example =
    execute-plan_rows decimal sort_rows 20 users none (to_physical (build_select adults))
      enough_fuel

execute-build_select_example :
    execute decimal sort_rows 20 users none (to_physical (build_select adults))
    ≡ select_outcome decimal sort_rows users none adults
execute-build_select_example =
    execute-build_select decimal sort_rows 20 users none adults enough_fuel

abbrev orders : TableStorage
orders =
    (codes "orders", ((codes "user", codes "4") ∷ (codes "item", codes "pen") ∷ []) ∷ []) ∷ users

-- The users as the build side, their orders as the probe side.
abbrev user_rows : List Row
user_rows =
    ((codes "id", codes "1") ∷ (codes "age", codes "35") ∷ [])
    ∷ ((codes "id", codes "4") ∷ (codes "age", codes "17") ∷ [])
    ∷ []

abbrev order_rows : List Row
order_rows = ((codes "user", codes "4") ∷ (codes "item", codes "pen") ∷ []) ∷ []

execute-hash_join_example :
    (rows : List Row) × (execute decimal sort_rows 30 orders none (
        hash_join
          (codes "id")
          (codes "user")
          (seq_scan (codes "users"))
          (seq_scan (codes "orders")))
      ≡ done rows)
    × Merges rows (joined_pairs (codes "id") (codes "user") user_rows order_rows)
unfolding query_fuel build find text_beq execute hits build_table add_to_table assign open_operator
    drain next
execute-hash_join_example =
    execute-hash_join decimal sort_rows 30 orders none (codes "id") (codes "user")
      (seq_scan (codes "users")) (seq_scan (codes "orders")) user_rows order_rows (omega arith)
      (omega arith) (omega arith) refl refl
