-- ===== src/Operator/Examples.antt =====
-- The theorems on operators at small tables.
use my_database_engine.Common.{
  true, false, none, List, [], ◌∷◌, codes, text_beq, find, text_key, ◌≡◌, refl, arith,
  if◌then◌else◌,
}
use my_database_engine.Ast.{Row, OrderByClause, literal, integer, column_ref, binary}
use my_database_engine.Doubles.Decimal.{decimal}
use my_database_engine.Operator.{Operator, seq_scan, filter, is_star, project_row, join_rows}
use my_database_engine.Operator.Rows.{cost}
use my_database_engine.Operator.Pull.{Pulls, next-Pulls}
use my_database_engine.Operator.Columns.{
  is_listed, or_else, find-project_row, find-join_rows, row_less-unselected,
}
use my_database_engine.Operator.Compare.{row_less}

abbrev alice : Row
alice = (codes "id", codes "1") ∷ (codes "age", codes "35") ∷ []

abbrev dave : Row
dave = (codes "id", codes "4") ∷ (codes "age", codes "17") ∷ []

abbrev adults : Operator
adults =
    filter (seq_scan (codes "users") (dave ∷ alice ∷ []) 0)
      (binary (codes ">=") (column_ref [] (codes "age")) (literal integer (codes "18")))

next-Pulls_example : Pulls decimal 4 adults
unfolding cost
next-Pulls_example = next-Pulls decimal 4 adults (omega arith)

find-project_row_example :
    find (codes "age") (project_row (codes "id" ∷ codes "age" ∷ []) alice) ≡ (
      if is_listed (codes "age") (codes "id" ∷ codes "age" ∷ [])
      then find (codes "age") alice
      else none)
unfolding is_star
find-project_row_example = find-project_row (codes "id" ∷ codes "age" ∷ []) alice (codes "age") refl

find-join_rows_example :
    find (codes "id") (join_rows alice dave)
    ≡ or_else (find (codes "id") alice) (find (codes "id") dave)
find-join_rows_example = find-join_rows alice dave (codes "id")

abbrev by_age : List OrderByClause
by_age = record { column = codes "age"; ascending = true } ∷ []

row_less-unselected_example :
    row_less decimal by_age
      (project_row (codes "id" ∷ []) alice)
      (project_row (codes "id" ∷ []) dave)
    ≡ false
unfolding is_star text_beq
row_less-unselected_example =
    row_less-unselected decimal (codes "id" ∷ []) by_age alice dave refl (refl, tt) refl
