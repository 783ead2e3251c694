-- ===== src/Parser/Grammar/Reads.antt =====
-- The parser reads every tree of the grammar off the front of the tokens.
use my_database_engine.Common.{
  ℕ, suc, ◌≡◌, refl, sym, ◌∙◌, Bool, true, false, ◌||◌, List, [], ◌∷◌, ◌++◌, arith,
}
use my_database_engine.Ast.{Expr, binary, unary, column_ref, literal}
use my_database_engine.Lexer.{TokenType, Token, identifier, lparen, rparen, dot}
use my_database_engine.Parser.{parsed, and_then, same_type, advance, match_type, expect, take_token}
use my_database_engine.Parser.Expression.{
  is_prefix, is_literal, parse_column, close_group, parse_expression, expression_loop,
  parse_comparison, comparison_loop, parse_unary, parse_primary,
}
use my_database_engine.Parser.Total.Expressions.{
  connective-ne-end, comparison-ne-end, prefix-ne-end, literal-ne-end,
}
use my_database_engine.Parser.Grammar.Classes.{
  connects-is_connective, compares-is_comparison, precedes-is_prefix, denotes-is_literal,
  literal_of-kind_of,
}
use my_database_engine.Parser.Grammar.{
  connects, compares, precedes, denotes, kind_of, Primary, value, column, qualified, group,
  Comparisons, no_more, also, Joins, ends, next, primary_tokens, comparisons_tokens, joins_tokens,
  IsPrimary, IsComparisons, IsJoins,
}

-- There is a next token, and it is none of these.
abbrev pub NextIsNo : (TokenType → Bool) → List Token → Type 0
NextIsNo p [] = ⊥
NextIsNo p (t ∷ ts) = p t.type ≡ false

abbrev pub is_dot : TokenType → Bool
is_dot t = same_type t dot

abbrev pub goes_on : TokenType → Bool
goes_on t = is_dot t || compares t

-- What an expression goes on with.
abbrev pub continues : TokenType → Bool
continues t = goes_on t || connects t

-- A column with no dot behind it.
pub parse_column_plain :
    (t : Token) (rest : List Token)
    → NextIsNo is_dot rest
    → parse_column t rest ≡ parsed (column_ref [] t.value) rest
unfolding parse_column match_type
parse_column_plain t [] h = absurd h
parse_column_plain t (u ∷ us) h = rw h refl

pub parse_column_qualified :
    (t d u : Token) (rest : List Token)
    → d.type ≡ dot
    → u.type ≡ identifier
    → parse_column t (d ∷ u ∷ rest) ≡ parsed (column_ref t.value u.value) rest
unfolding parse_column match_type expect advance
parse_column_qualified t d u rest e k = rw (e, k) refl

pub close_group_lem :
    (e : Expr) (r : Token) (rest : List Token)
    → r.type ≡ rparen
    → close_group e (r ∷ rest) ≡ parsed e rest
unfolding close_group expect advance
close_group_lem e r rest k = rw k refl

pub parse_primary-value :
    (f : ℕ) (t : Token) (rest : List Token)
    → denotes t.type ≡ true
    → parse_primary (suc f) (t ∷ rest) ≡ parsed (literal (kind_of t.type t.value) t.value) rest
unfolding parse_primary
parse_primary-value f t rest k =
    let h = sym (denotes-is_literal t.type) ∙ k in
    rw (parse_primary, h) (rw (literal-ne-end t h, literal_of-kind_of t) refl)

pub parse_primary-identifier :
    (f : ℕ) (t : Token) (rest : List Token)
    → t.type ≡ identifier
    → parse_primary (suc f) (t ∷ rest) ≡ parse_column t rest
unfolding parse_primary is_literal take_token advance
parse_primary-identifier f t rest h = rw (parse_primary, h) refl

pub parse_primary-group :
    (f : ℕ) (t : Token) (rest : List Token)
    → t.type ≡ lparen
    → parse_primary (suc f) (t ∷ rest) ≡ and_then (parse_expression f rest) close_group
unfolding parse_primary is_literal take_token advance
parse_primary-group f t rest h = rw (parse_primary, h) refl

-- A prefix is read with its operand.
pub parse_unary-prefixed :
    (f : ℕ) (op : Token) (ts rest : List Token) (e : Expr)
    → precedes op.type ≡ true
    → parse_unary f ts ≡ parsed e rest
    → parse_unary (suc f) (op ∷ ts) ≡ parsed (unary op.value e) rest
unfolding parse_unary
parse_unary-prefixed f op ts rest e c k =
    let h = sym (precedes-is_prefix op.type) ∙ c in
    rw (parse_unary, h) (rw (prefix-ne-end op h) (rw k refl))

-- What starts a primary expression is no prefix.
pub parse_unary-plain :
    (f : ℕ) (p : Primary) (rest : List Token)
    → IsPrimary p
    → parse_unary (suc f) (primary_tokens p ++ rest) ≡ parse_primary f (primary_tokens p ++ rest)
unfolding parse_unary primary_tokens is_literal
parse_unary-plain f (value t) rest h =
    let is : is_literal t.type ≡ true = sym (denotes-is_literal t.type) ∙ h in
    let no : is_prefix t.type ≡ false = ground arith in rw (parse_unary, no) refl
parse_unary-plain f (column t) rest h = rw (parse_unary, h) refl
parse_unary-plain f (qualified t d u) rest h = rw (parse_unary, h.0) refl
parse_unary-plain f (group l s r) rest h = rw (parse_unary, h.0) refl

pub comparison_loop-also :
    (f : ℕ) (lhs rhs : Expr) (op : Token) (ts rest : List Token)
    → compares op.type ≡ true
    → parse_unary f ts ≡ parsed rhs rest
    → comparison_loop (suc f) lhs (op ∷ ts) ≡ comparison_loop f (binary op.value lhs rhs) rest
unfolding comparison_loop
comparison_loop-also f lhs rhs op ts rest c k =
    let h = sym (compares-is_comparison op.type) ∙ c in
    rw (comparison_loop, h) (rw (comparison-ne-end op h) (rw k refl))

pub expression_loop-next :
    (f : ℕ) (lhs rhs : Expr) (op : Token) (ts rest : List Token)
    → connects op.type ≡ true
    → parse_comparison f ts ≡ parsed rhs rest
    → expression_loop (suc f) lhs (op ∷ ts) ≡ expression_loop f (binary op.value lhs rhs) rest
unfolding expression_loop
expression_loop-next f lhs rhs op ts rest c k =
    let h = sym (connects-is_connective op.type) ∙ c in
    rw (expression_loop, h) (rw (connective-ne-end op h) (rw k refl))

pub comparison_loop-ends :
    (f : ℕ) (e : Expr) (rest : List Token)
    → NextIsNo goes_on rest
    → comparison_loop (suc f) e rest ≡ parsed e rest
unfolding comparison_loop
comparison_loop-ends f e [] h = absurd h
comparison_loop-ends f e (t ∷ ts) h =
    let none_read : compares t.type ≡ false = ground arith in
    let no = sym (compares-is_comparison t.type) ∙ none_read in rw (comparison_loop, no) refl

pub expression_loop-ends :
    (f : ℕ) (e : Expr) (rest : List Token)
    → NextIsNo continues rest
    → expression_loop (suc f) e rest ≡ parsed e rest
unfolding expression_loop
expression_loop-ends f e [] h = absurd h
expression_loop-ends f e (t ∷ ts) h =
    let none_read : connects t.type ≡ false = ground arith in
    let no = sym (connects-is_connective t.type) ∙ none_read in rw (expression_loop, no) refl

NextIsNo-weaken : (rest : List Token) → NextIsNo continues rest → NextIsNo goes_on rest
NextIsNo-weaken [] h = h
NextIsNo-weaken (t ∷ ts) h = ground arith

NextIsNo-dot : (rest : List Token) → NextIsNo goes_on rest → NextIsNo is_dot rest
NextIsNo-dot [] h = h
NextIsNo-dot (t ∷ ts) h = ground arith

-- What follows the parts of a level.
pub NextIsNo-comparisons :
    (cs : Comparisons) (rest : List Token)
    → IsComparisons cs
    → NextIsNo goes_on rest
    → NextIsNo is_dot (comparisons_tokens cs ++ rest)
unfolding comparisons_tokens
NextIsNo-comparisons no_more rest h k = NextIsNo-dot rest k
NextIsNo-comparisons (also op u cs) rest h k = let c = h.0 in ground (arith, c)

pub NextIsNo-joins :
    (js : Joins) (rest : List Token)
    → IsJoins js
    → NextIsNo continues rest
    → NextIsNo goes_on (joins_tokens js ++ rest)
unfolding joins_tokens
NextIsNo-joins ends rest h k = NextIsNo-weaken rest k
NextIsNo-joins (next op c js) rest h k = let o = h.0 in ground (arith, o)
