-- ===== src/Parser/Expression.antt =====
-- src/parser.cpp: the precedence ladder. A call is one unit of fuel.
use my_database_engine.Common.{
  ℕ, zero, suc, Bool, true, false, ◌||◌, [], ◌∷◌, Text, codes, nat_beq, if◌then◌else◌,
}
use my_database_engine.Ast.{Expr, LiteralKind, literal, column_ref, binary, unary}
use my_database_engine.Lexer.{
  TokenType, Token, and, or, not_word, identifier, number, string, bool_true, bool_false, eq, neq,
  lt, gt, lte, gte, minus, lparen, rparen, dot,
}
use my_database_engine.Parser.{
  unexpected, parsed, rejects, undefined, out_of_fuel, Parser, and_then, ◌>>=◌, ◌>>◌, pure,
  same_type, peek, expect, match_type, take_token,
}

abbrev pub is_connective : TokenType → Bool
is_connective t = same_type t and || same_type t or

abbrev pub is_comparison : TokenType → Bool
is_comparison t =
    same_type t eq
    || same_type t neq
    || same_type t lt
    || same_type t gt
    || same_type t lte
    || same_type t gte

abbrev pub is_prefix : TokenType → Bool
is_prefix t = same_type t not_word || same_type t minus

-- value.find('.') != npos
unfoldable pub has_dot : Text → Bool
has_dot [] = false
has_dot (c ∷ cs) = if nat_beq c 46 then true else has_dot cs

-- The literals of parsePrimary.
unfoldable pub is_literal : TokenType → Bool
is_literal t =
    same_type t number || same_type t string || same_type t bool_true || same_type t bool_false

unfoldable pub literal_of : Token → Expr
unfolding has_dot
literal_of t =
    if same_type t.type number
    then literal (if has_dot t.value then LiteralKind.float else LiteralKind.integer) t.value
    else if same_type t.type string
    then literal LiteralKind.string t.value
    else literal LiteralKind.bool t.value

-- The column of parsePrimary, behind its first name.
unfoldable pub parse_column : Token → Parser Expr
unfolding match_type expect
parse_column name = do
  qualified ← match_type dot
  let column = do
    column ← expect identifier (codes "Expected column name after '.'")
    pure (column_ref name.value column.value)
  if qualified then column else pure (column_ref [] name.value)

-- The end of the parenthesis of parsePrimary.
unfoldable pub close_group : Expr → Parser Expr
unfolding expect
close_group inner = do expect rparen (codes "Expected ')' after expression"); pure inner

unfoldable mutual
  unfolding peek take_token close_group parse_column literal_of is_literal

  pub parse_expression : ℕ → Parser Expr
  parse_expression zero ts = out_of_fuel
  parse_expression (suc f) ts = and_then (parse_comparison f ts) (expression_loop f)

  pub expression_loop : ℕ → Expr → Parser Expr
  expression_loop zero lhs ts = out_of_fuel
  expression_loop (suc f) lhs [] = undefined
  expression_loop (suc f) lhs (t ∷ ts) =
      let more = and_then (take_token (t ∷ ts)) λ op rest.
        and_then (parse_comparison f rest) λ rhs. expression_loop f (binary op.value lhs rhs) in
      if is_connective t.type then more else parsed lhs (t ∷ ts)

  pub parse_comparison : ℕ → Parser Expr
  parse_comparison zero ts = out_of_fuel
  parse_comparison (suc f) ts = and_then (parse_unary f ts) (comparison_loop f)

  pub comparison_loop : ℕ → Expr → Parser Expr
  comparison_loop zero lhs ts = out_of_fuel
  comparison_loop (suc f) lhs [] = undefined
  comparison_loop (suc f) lhs (t ∷ ts) =
      let more = and_then (take_token (t ∷ ts)) λ op rest.
        and_then (parse_unary f rest) λ rhs. comparison_loop f (binary op.value lhs rhs) in
      if is_comparison t.type then more else parsed lhs (t ∷ ts)

  pub parse_unary : ℕ → Parser Expr
  parse_unary zero ts = out_of_fuel
  parse_unary (suc f) [] = undefined
  parse_unary (suc f) (t ∷ ts) =
      let prefixed =
        and_then (take_token (t ∷ ts))
          λ op rest. and_then (parse_unary f rest) λ operand. pure (unary op.value operand) in
      let primary = parse_primary f (t ∷ ts) in if is_prefix t.type then prefixed else primary

  pub parse_primary : ℕ → Parser Expr
  parse_primary zero ts = out_of_fuel
  parse_primary (suc f) [] = undefined
  parse_primary (suc f) (t ∷ ts) =
      let grouped =
        and_then (take_token (t ∷ ts)) λ _ rest. and_then (parse_expression f rest) close_group in
      if is_literal t.type
      then and_then (take_token (t ∷ ts)) (λ u. pure (literal_of u))
      else if same_type t.type identifier
      then and_then (take_token (t ∷ ts)) parse_column
      else if same_type t.type lparen
      then grouped
      else rejects (unexpected (codes "Expected a value: number, string, column name, or '('") t)
