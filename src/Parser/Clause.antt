-- ===== src/Parser/Clause.antt =====
-- src/parser.cpp: the lists and the clauses of the statements. The fuel is passed on to the loops and
-- to the expressions.
use my_database_engine.Common.{
  ℕ, zero, suc, ◌+◌, ◌-◌, ◌*◌, ◌^◌, Bool, true, false, not, Option, none, some, List, [], ◌∷◌, Text,
  codes, ltb, leb, nat_beq, if◌then◌else◌,
}
use my_database_engine.Common.Int.{ℤ, pos, negsuc}
use my_database_engine.Ast.{Expr, OrderByClause}
use my_database_engine.Lexer.{
  where_word, order, by, asc, desc, limit, identifier, number, comma, is_space, is_digit,
}
use my_database_engine.Parser.{
  invalid_number, number_out_of_range, parsed, rejects, out_of_fuel, Parser, and_then, ◌>>=◌, ◌>>◌,
  pure, expect, match_type,
}
use my_database_engine.Parser.Expression.{parse_expression}

-- `do { ... } while (match(TokenType::COMMA));`
unfoldable pub comma_list {ℓ} : {A : Type ℓ} → ℕ → Parser A → Parser (List A)
unfolding match_type
comma_list zero p ts = out_of_fuel
comma_list (suc f) p ts = and_then (p ts) λ a rest. and_then (match_type comma rest) λ again rest'.
    let more = and_then (comma_list f p rest') λ as' end. parsed (a ∷ as') end in
    if again then more else parsed (a ∷ []) rest'

-- expect(IDENTIFIER, msg).value
unfoldable pub parse_name : Text → Parser Text
unfolding expect
parse_name msg = do name ← expect identifier msg; pure name.value

-- parseColumnList
unfoldable pub parse_column_list : ℕ → Parser (List Text)
unfolding comma_list parse_name
parse_column_list f = comma_list f (parse_name (codes "Expected column name"))

-- parseWhereClause
unfoldable pub parse_where_clause : ℕ → Parser (Option Expr)
unfolding match_type
parse_where_clause f = do
  found ← match_type where_word
  let clause = do e ← parse_expression f; pure (some e)
  if found then clause else pure none

-- One round of parseOrderByClause.
unfoldable pub parse_order : Parser OrderByClause
unfolding parse_name match_type
parse_order = do
  column ← parse_name (codes "Expected column name")
  descending ← match_type desc
  match_type asc
  pure (record { column = column; ascending = not descending })

-- parseOrderByClause
unfoldable pub parse_order_by_clause : ℕ → Parser (List OrderByClause)
unfolding match_type expect comma_list parse_order
parse_order_by_clause f = do
  found ← match_type order
  let clauses = do expect by (codes "Expected BY after ORDER"); comma_list f parse_order
  if found then clauses else pure []

-- The digits at the front, after those read so far.
unfoldable pub digits_value : ℕ → Text → ℕ
digits_value n [] = n
digits_value n (c ∷ cs) = if is_digit c then digits_value (10 * n + (c - 48)) cs else n

unfoldable pub skip_spaces : Text → Text
skip_spaces [] = []
skip_spaces (c ∷ cs) = if is_space c then skip_spaces cs else c ∷ cs

unfoldable pub starts_with_digit : Text → Bool
starts_with_digit [] = false
starts_with_digit (c ∷ cs) = is_digit c

-- The number behind the sign, in the range of a 32-bit int.
unfoldable pub signed_number : Text → Bool → Text → Parser ℤ
unfolding digits_value starts_with_digit
signed_number source negative digits =
    let n = digits_value 0 digits in
    if not (starts_with_digit digits)
    then (λ ts. rejects (invalid_number source))
    else if negative
    then (if leb n (2 ^ 31)
        then pure (if nat_beq n 0 then pos 0 else negsuc (n - 1))
        else (λ ts. rejects (number_out_of_range source)))
    else if ltb n (2 ^ 31)
    then pure (pos n)
    else (λ ts. rejects (number_out_of_range source))

-- std::stoi: spaces, a sign, and the digits up to the first other character.
unfoldable pub stoi : Text → Parser ℤ
unfolding skip_spaces signed_number
stoi source = elim (skip_spaces source) [
  | [] ↦ λ ts. rejects (invalid_number source)
  | c ∷ cs ↦
      if nat_beq c 45
      then signed_number source true cs
      else if nat_beq c 43
      then signed_number source false cs
      else signed_number source false (c ∷ cs)
]

-- parseLimitClause
unfoldable pub parse_limit_clause : Parser (Option ℤ)
unfolding match_type expect stoi
parse_limit_clause = do
  found ← match_type limit
  let clause = do
    num ← expect number (codes "Expected number after LIMIT")
    n ← stoi num.value
    pure (some n)
  if found then clause else pure none
