-- ===== src/Expr.antt =====
-- src/executor.cpp, the evaluation of expressions; `Filter` calls the same functions.
pub mod Laws
mod Examples
use my_database_engine.Common.{
  Bool, true, false, not, ◌&&◌, ◌||◌, Option, none, some, Text, codes, text_beq, text_lt, ◌==◌,
  text_key, if◌then◌else◌, find,
}
use my_database_engine.Ast.{Row, Expr, literal, column_ref, binary, unary}
use my_database_engine.Doubles.{Doubles, DoubleOrder, less, equal, greater, unordered}

-- resolveExpr: the text that an operand of a comparison stands for.
unfoldable pub resolve_expr : Expr → Row → Text
resolve_expr (literal kind value) row = value
resolve_expr (column_ref table column) row = elim (find column row) [
  | none ↦ codes ""
  | some value ↦ value
]
resolve_expr (binary op left right) row = codes ""
resolve_expr (unary op operand) row = codes ""

-- extractLiteral: the value of an INSERT.
unfoldable pub extract_literal : Expr → Text
extract_literal (literal kind value) = value
extract_literal _ = codes ""

-- The ladder of `compareValues` on two doubles.
unfoldable pub compare_doubles : DoubleOrder → Text → Bool
compare_doubles o op =
    if op == codes "="
    then elim o [ equal ↦ true | _ ↦ false ]
    else if op == codes "!="
    then elim o [ equal ↦ false | _ ↦ true ]
    else if op == codes "<"
    then elim o [ less ↦ true | _ ↦ false ]
    else if op == codes ">"
    then elim o [ greater ↦ true | _ ↦ false ]
    else if op == codes "<="
    then elim o [ less ↦ true | equal ↦ true | _ ↦ false ]
    else if op == codes ">="
    then elim o [ greater ↦ true | equal ↦ true | _ ↦ false ]
    else false

-- The ladder of the `catch` clause, on two strings.
unfoldable pub compare_texts : Text → Text → Text → Bool
compare_texts left op right =
    if op == codes "="
    then left == right
    else if op == codes "!="
    then not (left == right)
    else if op == codes "<"
    then text_lt left right
    else if op == codes ">"
    then text_lt right left
    else if op == codes "<="
    then not (text_lt right left)
    else if op == codes ">="
    then not (text_lt left right)
    else false

module _ (fp : Doubles) where
  open fp use {Double, stod, order}

  -- The two sides with what `std::stod` makes of them, in one `try`.
  compare_parsed : Option Double → Option Double → Text → Text → Text → Bool
  compare_parsed (some l) (some r) left op right = compare_doubles (order l r) op
  compare_parsed _ _ left op right = compare_texts left op right

  -- compareValues: as numbers if both sides are numbers, else as strings.
  unfoldable pub compare_values : Text → Text → Text → Bool
  unfolding compare_parsed
  compare_values left op right = compare_parsed (stod left) (stod right) left op right

  -- evaluateExpr
  unfoldable pub evaluate_expr : Expr → Row → Bool
  evaluate_expr (binary op left right) row =
      let l = evaluate_expr left row in
      let r = evaluate_expr right row in
      if op == codes "AND"
      then l && r
      else if op == codes "OR"
      then l || r
      else compare_values (resolve_expr left row) op (resolve_expr right row)
  evaluate_expr (unary op operand) row =
      let inner = evaluate_expr operand row in if op == codes "NOT" then not inner else true
  evaluate_expr (literal kind value) row = value == codes "true" || value == codes "1"
  evaluate_expr (column_ref table column) row = true
