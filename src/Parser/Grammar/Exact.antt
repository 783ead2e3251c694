-- ===== src/Parser/Grammar/Exact.antt =====
-- The parser reads as an expression exactly the trees of the grammar.
use my_database_engine.Common.{
  ℕ, zero, suc, ◌≡◌, inl, inr, refl, ap, sym, ◌∙◌, false, List, [], ◌∷◌, Bool-cases, arith, length,
  length-append, ◌*◌, ◌+◌, ◌≤◌, ◌↔◌,
}
use mathlib.Core.Path.{subst}
use my_database_engine.Ast.{Expr, binary, unary}
use my_database_engine.Lexer.{Token, identifier, lparen}
use my_database_engine.Parser.{parsed, Parser, and_then, pure, same_type, is_end, take_token}
use my_database_engine.Parser.Expression.{
  is_connective, is_comparison, is_prefix, is_literal, literal_of, close_group, parse_column,
  parse_expression, expression_loop, parse_comparison, comparison_loop, parse_unary, parse_primary,
}
use my_database_engine.Parser.Total.Expressions.{
  connective-ne-end, comparison-ne-end, prefix-ne-end, literal-ne-end,
}
use my_database_engine.Parser.Grammar.Classes.{
  connects-is_connective, compares-is_comparison, precedes-is_prefix, denotes-is_literal,
  literal_of-kind_of,
}
use my_database_engine.Parser.Grammar.{
  value, prefixed, plain, no_more, ends, primary_tokens, unary_tokens, comparisons_tokens,
  joins_tokens, sentence_tokens, primary_expr, unary_expr, comparisons_expr, joins_expr,
}
use my_database_engine.Parser.Grammar.Reads.{NextIsNo, continues}
use my_database_engine.Parser.Grammar.Complete.{expression-sentence_tokens}
use my_database_engine.Parser.Grammar.Sound.{
  same_type-eq, Holds, Holds-and_then, Holds-imp, IsPrimaryOf, IsUnaryOf, IsComparisonOf,
  IsComparisonsOf, IsSentenceOf, IsJoinsOf, Holds-take_token, Holds-parse_column, Holds-close_group,
  also-IsComparisonsOf, next-IsJoinsOf, compared-IsComparisonOf, joined-IsSentenceOf,
}

-- A step behind the token at the front.
passed {ℓ} :
    {B : Type ℓ} (Q : B → List Token → Type 0) (t : Token) (ts : List Token) (f : Token → Parser B)
    → is_end t ≡ false
    → Holds Q (f t ts)
    → Holds Q (and_then (take_token (t ∷ ts)) f)
passed Q t ts f apart h =
    Holds-and_then (λ u rest. (u ≡ t) × (rest ≡ ts)) Q (take_token (t ∷ ts)) f
      (Holds-take_token t ts apart) λ u rest (same, left). rw (same, left) h

mutual
  unfolding parse_expression expression_loop parse_comparison comparison_loop parse_unary
      parse_primary primary_tokens unary_tokens comparisons_tokens joins_tokens primary_expr
      unary_expr comparisons_expr joins_expr

  pub expression-Holds : (f : ℕ) (ts : List Token) → Holds (IsSentenceOf ts) (parse_expression f ts)
  expression-Holds zero ts = tt
  expression-Holds (suc f) ts =
      Holds-and_then (IsComparisonOf ts) (IsSentenceOf ts) (parse_comparison f ts)
        (expression_loop f) (parse_comparison-Holds f ts)
        λ lhs mid first.
          Holds-imp (IsJoinsOf lhs mid) (IsSentenceOf ts) (expression_loop f lhs mid)
            (λ e rest. joined-IsSentenceOf lhs e ts mid rest first)
            (expression_loop-Holds f lhs mid)

  expression_loop-Holds :
      (f : ℕ) (lhs : Expr) (ts : List Token) → Holds (IsJoinsOf lhs ts) (expression_loop f lhs ts)
  expression_loop-Holds zero lhs ts = tt
  expression_loop-Holds (suc f) lhs [] = tt
  expression_loop-Holds (suc f) lhs (t ∷ ts) = elim (Bool-cases (is_connective t.type)) [
    | inr c ↦ rw (expression_loop, c) (ends, tt, refl, refl)
    | inl c ↦
        rw (expression_loop, c)
          (passed (IsJoinsOf lhs (t ∷ ts)) t ts
            (λ op rest.
              and_then (parse_comparison f rest) λ rhs. expression_loop f (binary op.value lhs rhs))
            (connective-ne-end t c)
            (Holds-and_then (IsComparisonOf ts) (IsJoinsOf lhs (t ∷ ts)) (parse_comparison f ts)
              (λ rhs. expression_loop f (binary t.value lhs rhs)) (parse_comparison-Holds f ts)
              λ rhs mid right.
                Holds-imp (IsJoinsOf (binary t.value lhs rhs) mid) (IsJoinsOf lhs (t ∷ ts))
                  (expression_loop f (binary t.value lhs rhs) mid)
                  (λ e rest.
                    next-IsJoinsOf lhs rhs e t ts mid rest (connects-is_connective t.type ∙ c)
                      right)
                  (expression_loop-Holds f (binary t.value lhs rhs) mid)))
  ]

  parse_comparison-Holds :
      (f : ℕ) (ts : List Token) → Holds (IsComparisonOf ts) (parse_comparison f ts)
  parse_comparison-Holds zero ts = tt
  parse_comparison-Holds (suc f) ts =
      Holds-and_then (IsUnaryOf ts) (IsComparisonOf ts) (parse_unary f ts) (comparison_loop f)
        (parse_unary-Holds f ts)
        λ lhs mid first.
          Holds-imp (IsComparisonsOf lhs mid) (IsComparisonOf ts) (comparison_loop f lhs mid)
            (λ e rest. compared-IsComparisonOf lhs e ts mid rest first)
            (comparison_loop-Holds f lhs mid)

  comparison_loop-Holds :
      (f : ℕ) (lhs : Expr) (ts : List Token)
      → Holds (IsComparisonsOf lhs ts) (comparison_loop f lhs ts)
  comparison_loop-Holds zero lhs ts = tt
  comparison_loop-Holds (suc f) lhs [] = tt
  comparison_loop-Holds (suc f) lhs (t ∷ ts) = elim (Bool-cases (is_comparison t.type)) [
    | inr c ↦ rw (comparison_loop, c) (no_more, tt, refl, refl)
    | inl c ↦
        rw (comparison_loop, c)
          (passed (IsComparisonsOf lhs (t ∷ ts)) t ts
            (λ op rest.
              and_then (parse_unary f rest) λ rhs. comparison_loop f (binary op.value lhs rhs))
            (comparison-ne-end t c)
            (Holds-and_then (IsUnaryOf ts) (IsComparisonsOf lhs (t ∷ ts)) (parse_unary f ts)
              (λ rhs. comparison_loop f (binary t.value lhs rhs)) (parse_unary-Holds f ts)
              λ rhs mid right.
                Holds-imp (IsComparisonsOf (binary t.value lhs rhs) mid)
                  (IsComparisonsOf lhs (t ∷ ts)) (comparison_loop f (binary t.value lhs rhs) mid)
                  (λ e rest.
                    also-IsComparisonsOf lhs rhs e t ts mid rest (compares-is_comparison t.type ∙ c)
                      right)
                  (comparison_loop-Holds f (binary t.value lhs rhs) mid)))
  ]

  parse_unary-Holds : (f : ℕ) (ts : List Token) → Holds (IsUnaryOf ts) (parse_unary f ts)
  parse_unary-Holds zero ts = tt
  parse_unary-Holds (suc f) [] = tt
  parse_unary-Holds (suc f) (t ∷ ts) = elim (Bool-cases (is_prefix t.type)) [
    | inr c ↦
        rw (parse_unary, c)
          (Holds-imp (IsPrimaryOf (t ∷ ts)) (IsUnaryOf (t ∷ ts)) (parse_primary f (t ∷ ts))
            (λ e rest (p, is, same, means). (plain p, is, same, means))
            (parse_primary-Holds f (t ∷ ts)))
    | inl c ↦
        rw (parse_unary, c)
          (passed (IsUnaryOf (t ∷ ts)) t ts
            (λ op rest. and_then (parse_unary f rest) λ operand. pure (unary op.value operand))
            (prefix-ne-end t c)
            (Holds-and_then (IsUnaryOf ts) (IsUnaryOf (t ∷ ts)) (parse_unary f ts)
              (λ operand. pure (unary t.value operand)) (parse_unary-Holds f ts)
              λ e rest (u, is, same, means). (
                prefixed t u,
                (precedes-is_prefix t.type ∙ c, is),
                ap (λ x. t ∷ x) same,
                ap (unary t.value) means,
              )))
  ]

  parse_primary-Holds : (f : ℕ) (ts : List Token) → Holds (IsPrimaryOf ts) (parse_primary f ts)
  parse_primary-Holds zero ts = tt
  parse_primary-Holds (suc f) [] = tt
  parse_primary-Holds (suc f) (t ∷ ts) = elim (Bool-cases (is_literal t.type)) [
    | inl c ↦
        rw (parse_primary, c)
          (passed (IsPrimaryOf (t ∷ ts)) t ts (λ u. pure (literal_of u)) (literal-ne-end t c)
            (value t, denotes-is_literal t.type ∙ c, refl, sym (literal_of-kind_of t)))
    | inr c ↦ elim (Bool-cases (same_type t.type identifier)) [
      | inl d ↦
          rw (parse_primary, c, d)
            (passed (IsPrimaryOf (t ∷ ts)) t ts parse_column (ground arith)
              (Holds-parse_column t ts (same_type-eq t.type identifier d)))
      | inr d ↦ elim (Bool-cases (same_type t.type lparen)) [
        | inr e ↦ rw (parse_primary, c, d, e) tt
        | inl e ↦
            rw (parse_primary, c, d, e)
              (passed (IsPrimaryOf (t ∷ ts)) t ts
                (λ _ rest. and_then (parse_expression f rest) close_group) (ground arith)
                (Holds-and_then (IsSentenceOf ts) (IsPrimaryOf (t ∷ ts)) (parse_expression f ts)
                  close_group (expression-Holds f ts)
                  λ inner mid from.
                    Holds-close_group t ts mid inner (same_type-eq t.type lparen e) from))
      ]
    ]
  ]

-- With fuel for the tokens, and where the next of the tokens left is no dot, comparison or
-- connective, parse_expression returns an expression and those tokens exactly if the tokens read are
-- those of a tree of the grammar and the expression is the tree's.
pub parse_expression-IsSentenceOf :
    (f : ℕ) (ts : List Token) (e : Expr) (rest : List Token)
    → 4 * length ts + 4 ≤ f
    → NextIsNo continues rest
    → (parse_expression f ts ≡ parsed e rest) ↔ IsSentenceOf ts e rest
parse_expression-IsSentenceOf f ts e rest enough next = (
  (λ returns. subst (λ r. Holds (IsSentenceOf ts) r) returns (expression-Holds f ts)),
  λ (s, is, same, means).
      let len : length ts ≡ length (sentence_tokens s) + length rest =
        ap length same ∙ length-append (sentence_tokens s) rest in
      ap (parse_expression f) same
      ∙ expression-sentence_tokens s f rest is next (omega (arith, enough, len))
      ∙ ap (λ x. parsed x rest) means,
)
