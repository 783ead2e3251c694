-- ===== src/Parser/Case.antt =====
-- Keywords that are not in upper case: the lexer and the parser read them, and the evaluation of the
-- expression does not know them.
use my_database_engine.Common.{
  ℕ, ◌+◌, ◌*◌, ◌≤◌, ◌≡◌, ◌≢◌, inl, inr, refl, ap, sym, ◌∙◌, true, false, List, ◌∷◌, ◌++◌,
  append_assoc, append-nil, map, Text, codes, arith, length, find, text_beq,
}
use my_database_engine.Ast.{Row, Expr, binary, unary}
use my_database_engine.Doubles.{Doubles}
use my_database_engine.Expr.{evaluate_expr}
use my_database_engine.Expr.Laws
use my_database_engine.Expr.Laws.{evaluate_expr-unknown, evaluate_expr-unary_unknown}
use my_database_engine.Lexer.{Token, classify_word, to_upper}
use my_database_engine.Parser.{parsed}
use my_database_engine.Parser.Expression.{parse_expression}
use my_database_engine.Parser.Grammar.{
  connects, precedes, Unary, prefixed, Comparison, compared, no_more, Sentence, joined, Joins, ends,
  next, unary_tokens, comparison_tokens, sentence_tokens, joins_tokens, comparison_expr, unary_expr,
  sentence_expr, joins_expr, IsUnary, IsComparison, IsSentence, IsJoins,
}
use my_database_engine.Parser.Grammar.Reads.{NextIsNo, continues}
use my_database_engine.Parser.Grammar.Complete.{expression-sentence_tokens}

-- One more connective with its right side, behind all others.
add_join : Joins → Token → Comparison → Joins
add_join ends op right = next op right ends
add_join (next t c js) op right = next t c (add_join js op right)

add_join-tokens :
    (js : Joins) (op : Token) (right : Comparison)
    → joins_tokens (add_join js op right) ≡ joins_tokens js ++ op ∷ comparison_tokens right
unfolding add_join joins_tokens
add_join-tokens ends op right = ap (λ ts. op ∷ ts) (append-nil (comparison_tokens right))
add_join-tokens (next t c js) op right =
    ap (λ ts. t ∷ (comparison_tokens c ++ ts)) (add_join-tokens js op right)
    ∙ ap (λ ts. t ∷ ts)
        (sym (append_assoc (comparison_tokens c) (joins_tokens js) (op ∷ comparison_tokens right)))

add_join-expr :
    (lhs : Expr) (js : Joins) (op : Token) (right : Comparison)
    → joins_expr lhs (add_join js op right)
      ≡ binary op.value (joins_expr lhs js) (comparison_expr right)
unfolding add_join joins_expr
add_join-expr lhs ends op right = refl
add_join-expr lhs (next t c js) op right =
    add_join-expr (binary t.value lhs (comparison_expr c)) js op right

add_join-IsJoins :
    (js : Joins) (op : Token) (right : Comparison)
    → IsJoins js
    → connects op.type ≡ true
    → IsComparison right
    → IsJoins (add_join js op right)
unfolding add_join
add_join-IsJoins ends op right h c k = (c, k, tt)
add_join-IsJoins (next t d js) op right h c k = (h.0, h.1, add_join-IsJoins js op right h.2 c k)

-- A word that the lexer takes for a connective is no comparison operator.
connective-word :
    (word : Text) → connects (classify_word (map to_upper word)) ≡ true → ¬ Laws.IsComparison word
unfolding classify_word to_upper find text_beq
connective-word word h (inl e) = cc (h, ap (λ w. connects (classify_word (map to_upper w))) e)
connective-word word h (inr (inl e)) = cc (h, ap (λ w. connects (classify_word (map to_upper w))) e)
connective-word word h (inr (inr (inl e))) =
    cc (h, ap (λ w. connects (classify_word (map to_upper w))) e)
connective-word word h (inr (inr (inr (inl e)))) =
    cc (h, ap (λ w. connects (classify_word (map to_upper w))) e)
connective-word word h (inr (inr (inr (inr (inl e))))) =
    cc (h, ap (λ w. connects (classify_word (map to_upper w))) e)
connective-word word h (inr (inr (inr (inr (inr e))))) =
    cc (h, ap (λ w. connects (classify_word (map to_upper w))) e)

module _ (fp : Doubles) where
  -- Let an expression of the grammar end with a connective, of the type that the lexer gives its word,
  -- and a right side, and let the word be neither AND nor OR, as it is in lower case. With enough fuel,
  -- and where the next token does not go on, parse_expression reads it, and the expression that it
  -- returns is false on every row, whatever stands on the two sides.
  pub parse_expression-connective_case :
      (f : ℕ) (left : Sentence) (op : Token) (right : Comparison) (rest : List Token)
      → IsSentence left
      → IsComparison right
      → connects op.type ≡ true
      → op.type ≡ classify_word (map to_upper op.value)
      → op.value ≢ codes "AND"
      → op.value ≢ codes "OR"
      → NextIsNo continues rest
      → 4 * length (sentence_tokens left ++ op ∷ comparison_tokens right) + 4 ≤ f
      → (e : Expr) × (parse_expression f
            ((sentence_tokens left ++ op ∷ comparison_tokens right) ++ rest)
          ≡ parsed e rest)
        × ((row : Row) → evaluate_expr fp e row ≡ false)
  unfolding sentence_tokens sentence_expr
  parse_expression-connective_case f (joined c js) op right rest h k t word no_and no_or stop
        enough =
      let whole = joined c (add_join js op right) in
      let same : sentence_tokens whole
          ≡ sentence_tokens (joined c js) ++ op ∷ comparison_tokens right =
        ap (λ ts. comparison_tokens c ++ ts) (add_join-tokens js op right)
        ∙ sym
            (append_assoc (comparison_tokens c) (joins_tokens js) (op ∷ comparison_tokens right)) in
      let reads =
        expression-sentence_tokens whole f rest (h.0, add_join-IsJoins js op right h.1 t k) stop
          (omega (arith, enough, ap length same)) in
      (
        binary op.value (joins_expr (comparison_expr c) js) (comparison_expr right),
        ap (λ ts. parse_expression f (ts ++ rest)) (sym same)
            ∙ reads
            ∙ ap (λ e. parsed e rest) (add_join-expr (comparison_expr c) js op right),
        λ row.
            evaluate_expr-unknown fp op.value _ _ row no_and no_or
              (connective-word op.value (ap connects (sym word) ∙ t)),
      )

  -- Let a prefix be other than the word NOT, a minus or the keyword in lower case, and stand with its
  -- operand. With enough fuel, and where the next token does not go on, parse_expression reads them,
  -- and the expression that it returns is true on every row, whatever the operand.
  pub parse_expression-prefix_case :
      (f : ℕ) (op : Token) (operand : Unary) (rest : List Token)
      → precedes op.type ≡ true
      → op.value ≢ codes "NOT"
      → IsUnary operand
      → NextIsNo continues rest
      → 4 * length (op ∷ unary_tokens operand) + 4 ≤ f
      → (e : Expr) × (parse_expression f (op ∷ (unary_tokens operand ++ rest)) ≡ parsed e rest)
        × ((row : Row) → evaluate_expr fp e row ≡ true)
  unfolding sentence_tokens sentence_expr
  parse_expression-prefix_case f op operand rest t no_not h stop enough =
      let whole = joined (compared (prefixed op operand) no_more) ends in
      let same : sentence_tokens whole ≡ op ∷ unary_tokens operand =
        append-nil _ ∙ append-nil (op ∷ unary_tokens operand) in
      let reads =
        expression-sentence_tokens whole f rest (((t, h), tt), tt) stop
          (omega (arith, enough, ap length same)) in
      (
        unary op.value (unary_expr operand),
        ap (λ ts. parse_expression f (ts ++ rest)) (sym same) ∙ reads,
        λ row. evaluate_expr-unary_unknown fp op.value (unary_expr operand) row no_not,
      )
