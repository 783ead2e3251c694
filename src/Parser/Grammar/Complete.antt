-- ===== src/Parser/Grammar/Complete.antt =====
-- The parser reads every tree of the grammar off the front of the tokens, with four units of fuel
-- for each of its tokens.
use my_database_engine.Common.{
  ℕ, zero, suc, ◌+◌, ◌*◌, ◌≤◌, ◌≡◌, ap, ◌∙◌, List, [], ◌∷◌, ◌++◌, append_assoc, arith, length,
  length-append,
}
use my_database_engine.Ast.{Expr, binary}
use my_database_engine.Lexer.{Token}
use my_database_engine.Parser.{parsed, and_then}
use my_database_engine.Parser.Expression.{
  close_group, parse_expression, expression_loop, parse_comparison, comparison_loop, parse_unary,
  parse_primary,
}
use my_database_engine.Parser.Grammar.{
  Primary, value, column, qualified, group, Unary, prefixed, plain, Comparison, compared,
  Comparisons, no_more, also, Sentence, joined, Joins, ends, next, primary_tokens, unary_tokens,
  comparison_tokens, comparisons_tokens, sentence_tokens, joins_tokens, primary_expr, unary_expr,
  comparison_expr, comparisons_expr, sentence_expr, joins_expr, IsPrimary, IsUnary, IsComparison,
  IsComparisons, IsSentence, IsJoins,
}
use my_database_engine.Parser.Grammar.Reads.{
  NextIsNo, is_dot, goes_on, continues, parse_column_plain, parse_column_qualified, close_group_lem,
  parse_primary-value, parse_primary-identifier, parse_primary-group, parse_unary-prefixed,
  parse_unary-plain, comparison_loop-also, expression_loop-next, comparison_loop-ends,
  expression_loop-ends, NextIsNo-comparisons, NextIsNo-joins,
}

parse_comparison-loop :
    (f : ℕ) (e : Expr) (ts rest : List Token)
    → parse_unary f ts ≡ parsed e rest
    → parse_comparison (suc f) ts ≡ comparison_loop f e rest
unfolding parse_comparison
parse_comparison-loop f e ts rest h = ap (λ r. and_then r (comparison_loop f)) h

parse_expression-loop :
    (f : ℕ) (e : Expr) (ts rest : List Token)
    → parse_comparison f ts ≡ parsed e rest
    → parse_expression (suc f) ts ≡ expression_loop f e rest
unfolding parse_expression
parse_expression-loop f e ts rest h = ap (λ r. and_then r (expression_loop f)) h

mutual
  unfolding primary_tokens unary_tokens comparison_tokens comparisons_tokens sentence_tokens
      joins_tokens primary_expr unary_expr comparison_expr comparisons_expr sentence_expr joins_expr

  pub parse_primary-primary_tokens :
      (p : Primary) (f : ℕ) (rest : List Token)
      → IsPrimary p
      → NextIsNo is_dot rest
      → 4 * length (primary_tokens p) + 1 ≤ f
      → parse_primary f (primary_tokens p ++ rest) ≡ parsed (primary_expr p) rest
  parse_primary-primary_tokens (value t) zero rest h n k = absurd (omega arith)
  parse_primary-primary_tokens (value t) (suc f) rest h n k = parse_primary-value f t rest h
  parse_primary-primary_tokens (column t) zero rest h n k = absurd (omega arith)
  parse_primary-primary_tokens (column t) (suc f) rest h n k =
      parse_primary-identifier f t rest h ∙ parse_column_plain t rest n
  parse_primary-primary_tokens (qualified t d u) zero rest h n k = absurd (omega arith)
  parse_primary-primary_tokens (qualified t d u) (suc f) rest h n k =
      parse_primary-identifier f t (d ∷ u ∷ rest) h.0 ∙ parse_column_qualified t d u rest h.1 h.2
  parse_primary-primary_tokens (group l s r) zero rest h n k = absurd (omega arith)
  parse_primary-primary_tokens (group l s r) (suc f) rest h n k =
      let len = length-append (sentence_tokens s) (r ∷ []) in
      let inner =
        expression-sentence_tokens s f (r ∷ rest) h.1 (ap continues h.2) (omega (arith, len)) in
      rw (append_assoc (sentence_tokens s) (r ∷ []) rest) (
        parse_primary-group f l (sentence_tokens s ++ r ∷ rest) h.0
        ∙ ap (λ x. and_then x close_group) inner
        ∙ close_group_lem (sentence_expr s) r rest h.2)

  parse_unary-unary_tokens :
      (u : Unary) (f : ℕ) (rest : List Token)
      → IsUnary u
      → NextIsNo is_dot rest
      → 4 * length (unary_tokens u) + 2 ≤ f
      → parse_unary f (unary_tokens u ++ rest) ≡ parsed (unary_expr u) rest
  parse_unary-unary_tokens (prefixed op u) zero rest h n k = absurd (omega arith)
  parse_unary-unary_tokens (prefixed op u) (suc f) rest h n k =
      parse_unary-prefixed f op (unary_tokens u ++ rest) rest (unary_expr u) h.0
        (parse_unary-unary_tokens u f rest h.1 n (omega arith))
  parse_unary-unary_tokens (plain p) zero rest h n k = absurd (omega arith)
  parse_unary-unary_tokens (plain p) (suc f) rest h n k =
      parse_unary-plain f p rest h ∙ parse_primary-primary_tokens p f rest h n (omega arith)

  parse_comparison-comparison_tokens :
      (c : Comparison) (f : ℕ) (rest : List Token)
      → IsComparison c
      → NextIsNo goes_on rest
      → 4 * length (comparison_tokens c) + 3 ≤ f
      → parse_comparison f (comparison_tokens c ++ rest) ≡ parsed (comparison_expr c) rest
  parse_comparison-comparison_tokens (compared u cs) zero rest h n k = absurd (omega arith)
  parse_comparison-comparison_tokens (compared u cs) (suc f) rest h n k =
      let len = length-append (unary_tokens u) (comparisons_tokens cs) in
      let after = comparisons_tokens cs ++ rest in
      rw (append_assoc (unary_tokens u) (comparisons_tokens cs) rest) (
        parse_comparison-loop f (unary_expr u) (unary_tokens u ++ after) after (
          parse_unary-unary_tokens u f after h.0 (NextIsNo-comparisons cs rest h.1 n)
            (omega (arith, len)))
        ∙ comparison_loop-comparisons_tokens cs f (unary_expr u) rest h.1 n (omega (arith, len)))

  comparison_loop-comparisons_tokens :
      (cs : Comparisons) (f : ℕ) (lhs : Expr) (rest : List Token)
      → IsComparisons cs
      → NextIsNo goes_on rest
      → 4 * length (comparisons_tokens cs) + 2 ≤ f
      → comparison_loop f lhs (comparisons_tokens cs ++ rest)
        ≡ parsed (comparisons_expr lhs cs) rest
  comparison_loop-comparisons_tokens no_more zero lhs rest h n k = absurd (omega arith)
  comparison_loop-comparisons_tokens no_more (suc f) lhs rest h n k =
      comparison_loop-ends f lhs rest n
  comparison_loop-comparisons_tokens (also op u cs) zero lhs rest h n k = absurd (omega arith)
  comparison_loop-comparisons_tokens (also op u cs) (suc f) lhs rest h n k =
      let len = length-append (unary_tokens u) (comparisons_tokens cs) in
      let after = comparisons_tokens cs ++ rest in
      rw (append_assoc (unary_tokens u) (comparisons_tokens cs) rest) (
        comparison_loop-also f lhs (unary_expr u) op (unary_tokens u ++ after) after h.0 (
          parse_unary-unary_tokens u f after h.1 (NextIsNo-comparisons cs rest h.2 n)
            (omega (arith, len)))
        ∙ comparison_loop-comparisons_tokens cs f (binary op.value lhs (unary_expr u)) rest h.2 n
            (omega (arith, len)))

  pub expression-sentence_tokens :
      (s : Sentence) (f : ℕ) (rest : List Token)
      → IsSentence s
      → NextIsNo continues rest
      → 4 * length (sentence_tokens s) + 4 ≤ f
      → parse_expression f (sentence_tokens s ++ rest) ≡ parsed (sentence_expr s) rest
  expression-sentence_tokens (joined c js) zero rest h n k = absurd (omega arith)
  expression-sentence_tokens (joined c js) (suc f) rest h n k =
      let len = length-append (comparison_tokens c) (joins_tokens js) in
      let after = joins_tokens js ++ rest in
      rw (append_assoc (comparison_tokens c) (joins_tokens js) rest) (
        parse_expression-loop f (comparison_expr c) (comparison_tokens c ++ after) after (
          parse_comparison-comparison_tokens c f after h.0 (NextIsNo-joins js rest h.1 n)
            (omega (arith, len)))
        ∙ expression_loop-joins_tokens js f (comparison_expr c) rest h.1 n (omega (arith, len)))

  expression_loop-joins_tokens :
      (js : Joins) (f : ℕ) (lhs : Expr) (rest : List Token)
      → IsJoins js
      → NextIsNo continues rest
      → 4 * length (joins_tokens js) + 3 ≤ f
      → expression_loop f lhs (joins_tokens js ++ rest) ≡ parsed (joins_expr lhs js) rest
  expression_loop-joins_tokens ends zero lhs rest h n k = absurd (omega arith)
  expression_loop-joins_tokens ends (suc f) lhs rest h n k = expression_loop-ends f lhs rest n
  expression_loop-joins_tokens (next op c js) zero lhs rest h n k = absurd (omega arith)
  expression_loop-joins_tokens (next op c js) (suc f) lhs rest h n k =
      let len = length-append (comparison_tokens c) (joins_tokens js) in
      let after = joins_tokens js ++ rest in
      rw (append_assoc (comparison_tokens c) (joins_tokens js) rest) (
        expression_loop-next f lhs (comparison_expr c) op (comparison_tokens c ++ after) after h.0 (
          parse_comparison-comparison_tokens c f after h.1 (NextIsNo-joins js rest h.2 n)
            (omega (arith, len)))
        ∙ expression_loop-joins_tokens js f (binary op.value lhs (comparison_expr c)) rest h.2 n
            (omega (arith, len)))
