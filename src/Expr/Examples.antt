-- ===== src/Expr/Examples.antt =====
-- Tests of expression evaluation, and the theorems at concrete operands.
use my_database_engine.Common.{true, not, ◌||◌, [], ◌∷◌, codes, text_beq, find, ◌≡◌, refl}
use my_database_engine.Ast.{Row, Expr, literal, integer, column_ref, binary}
use my_database_engine.Doubles.Decimal.{decimal}
use my_database_engine.Expr.{resolve_expr, compare_doubles, compare_values, evaluate_expr}
use my_database_engine.Expr.Laws.{lt, compare_values-Mirror, compare_values_le, compare_values_ne}

abbrev alice : Row
alice = (codes "id", codes "1") ∷ (codes "age", codes "35") ∷ []

abbrev adult : Expr
adult = binary (codes ">=") (column_ref [] (codes "age")) (literal integer (codes "18"))

age_is_compared : evaluate_expr decimal adult alice ≡ true
unfolding evaluate_expr resolve_expr compare_values compare_doubles find text_beq
age_is_compared = refl

compare_values-Mirror_example :
    compare_values decimal (codes "9") (codes "<") (codes "10")
    ≡ compare_values decimal (codes "10") (codes ">") (codes "9")
compare_values-Mirror_example =
    compare_values-Mirror decimal (codes "9") (codes "10") (lt refl refl)

compare_values_le_example : compare_values decimal (codes "9") (codes "<=") (codes "10") ≡ (
    compare_values decimal (codes "9") (codes "<") (codes "10")
    || compare_values decimal (codes "9") (codes "=") (codes "10"))
compare_values_le_example = compare_values_le decimal (codes "9") (codes "10")

compare_values_ne_example :
    compare_values decimal (codes "a") (codes "!=") (codes "b")
    ≡ not (compare_values decimal (codes "a") (codes "=") (codes "b"))
compare_values_ne_example = compare_values_ne decimal (codes "a") (codes "b")
