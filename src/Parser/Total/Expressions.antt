-- ===== src/Parser/Total/Expressions.antt =====
-- The precedence ladder ends, with four units of fuel for each token.
use my_database_engine.Common.{
  ℕ, zero, suc, ◌+◌, ◌*◌, ◌≤◌, ◌≡◌, inl, inr, refl, true, false, List, [], ◌∷◌, arith, length,
  Bool-cases,
}
use my_database_engine.Ast.{Expr, binary, unary}
use my_database_engine.Lexer.{Token, rparen, dot, identifier, lparen}
use my_database_engine.Parser.{and_then, same_type, is_end, pure, match_type, expect, take_token}
use my_database_engine.Parser.Expression.{
  is_connective, is_comparison, is_prefix, is_literal, literal_of, close_group, parse_column,
  parse_expression, expression_loop, parse_comparison, comparison_loop, parse_unary, parse_primary,
}
use my_database_engine.Parser.Total.{
  HasEnd, Within, Within-and_then, Within-le, Within-if, take_token-Within, match_type-Within,
  expect-Within,
}

parse_column-Within :
    (name : Token) (ts : List Token) → HasEnd ts → Within (suc (length ts)) (parse_column name ts)
unfolding parse_column
parse_column-Within name ts h =
    Within-and_then (suc (length ts)) (suc (length ts)) (match_type dot ts) _
      (match_type-Within dot ts refl h)
      λ qualified rest end less.
        Within-if (suc (length ts)) qualified _ _ rest
          (Within-and_then (length rest) (suc (length ts)) (expect identifier _ rest) _
            (expect-Within identifier _ rest refl end)
            λ column rest' end' less'. (end', omega (arith, less, less')))
          (end, less)

-- An operator is not the end of the tokens.
pub connective-ne-end : (t : Token) → is_connective t.type ≡ true → is_end t ≡ false
connective-ne-end t h = ground arith

pub comparison-ne-end : (t : Token) → is_comparison t.type ≡ true → is_end t ≡ false
comparison-ne-end t h = ground arith

pub prefix-ne-end : (t : Token) → is_prefix t.type ≡ true → is_end t ≡ false
prefix-ne-end t h = ground arith

pub literal-ne-end : (t : Token) → is_literal t.type ≡ true → is_end t ≡ false
unfolding is_literal
literal-ne-end t h = ground arith

close_group-Within :
    (inner : Expr) (ts : List Token) → HasEnd ts → Within (length ts) (close_group inner ts)
unfolding close_group
close_group-Within inner ts h =
    Within-and_then (length ts) (length ts) (expect rparen _ ts) (λ _. pure inner)
      (expect-Within rparen _ ts refl h) λ u rest end less. (end, less)

mutual
  unfolding parse_expression expression_loop parse_comparison comparison_loop parse_unary
      parse_primary

  pub parse_expression-Within :
      (f : ℕ) (ts : List Token)
      → HasEnd ts
      → 4 * length ts + 4 ≤ f
      → Within (length ts) (parse_expression f ts)
  parse_expression-Within zero ts h k = absurd (omega arith)
  parse_expression-Within (suc f) ts h k =
      Within-and_then (length ts) (length ts) (parse_comparison f ts) (expression_loop f)
        (parse_comparison-Within f ts h (omega arith))
        λ e rest end less.
          Within-le (suc (length rest)) (length ts) (expression_loop f e rest) (omega arith)
            (expression_loop-Within f e rest end (omega arith))

  expression_loop-Within :
      (f : ℕ) (e : Expr) (ts : List Token)
      → HasEnd ts
      → 4 * length ts + 4 ≤ f
      → Within (suc (length ts)) (expression_loop f e ts)
  expression_loop-Within zero e ts h k = absurd (omega arith)
  expression_loop-Within (suc f) e [] h k = absurd h
  expression_loop-Within (suc f) e (t ∷ ts) h k = elim (Bool-cases (is_connective t.type)) [
    | inr c ↦ rw (expression_loop, c) (h, omega arith)
    | inl c ↦
        rw (expression_loop, c)
          (Within-and_then (suc (length ts)) (suc (suc (length ts))) (take_token (t ∷ ts)) _
            (take_token-Within t ts h (connective-ne-end t c))
            λ op rest end less.
              Within-and_then (length rest) (suc (suc (length ts))) (parse_comparison f rest) _
                (parse_comparison-Within f rest end (omega arith))
                λ rhs rest' end' less'.
                  Within-le (suc (length rest')) (suc (suc (length ts)))
                    (expression_loop f (binary op.value e rhs) rest') (omega arith)
                    (expression_loop-Within f (binary op.value e rhs) rest' end' (omega arith)))
  ]

  parse_comparison-Within :
      (f : ℕ) (ts : List Token)
      → HasEnd ts
      → 4 * length ts + 3 ≤ f
      → Within (length ts) (parse_comparison f ts)
  parse_comparison-Within zero ts h k = absurd (omega arith)
  parse_comparison-Within (suc f) ts h k =
      Within-and_then (length ts) (length ts) (parse_unary f ts) (comparison_loop f)
        (parse_unary-Within f ts h (omega arith))
        λ e rest end less.
          Within-le (suc (length rest)) (length ts) (comparison_loop f e rest) (omega arith)
            (comparison_loop-Within f e rest end (omega arith))

  comparison_loop-Within :
      (f : ℕ) (e : Expr) (ts : List Token)
      → HasEnd ts
      → 4 * length ts + 3 ≤ f
      → Within (suc (length ts)) (comparison_loop f e ts)
  comparison_loop-Within zero e ts h k = absurd (omega arith)
  comparison_loop-Within (suc f) e [] h k = absurd h
  comparison_loop-Within (suc f) e (t ∷ ts) h k = elim (Bool-cases (is_comparison t.type)) [
    | inr c ↦ rw (comparison_loop, c) (h, omega arith)
    | inl c ↦
        rw (comparison_loop, c)
          (Within-and_then (suc (length ts)) (suc (suc (length ts))) (take_token (t ∷ ts)) _
            (take_token-Within t ts h (comparison-ne-end t c))
            λ op rest end less.
              Within-and_then (length rest) (suc (suc (length ts))) (parse_unary f rest) _
                (parse_unary-Within f rest end (omega arith))
                λ rhs rest' end' less'.
                  Within-le (suc (length rest')) (suc (suc (length ts)))
                    (comparison_loop f (binary op.value e rhs) rest') (omega arith)
                    (comparison_loop-Within f (binary op.value e rhs) rest' end' (omega arith)))
  ]

  parse_unary-Within :
      (f : ℕ) (ts : List Token)
      → HasEnd ts
      → 4 * length ts + 2 ≤ f
      → Within (length ts) (parse_unary f ts)
  parse_unary-Within zero ts h k = absurd (omega arith)
  parse_unary-Within (suc f) [] h k = absurd h
  parse_unary-Within (suc f) (t ∷ ts) h k = elim (Bool-cases (is_prefix t.type)) [
    | inr c ↦ rw (parse_unary, c) (parse_primary-Within f (t ∷ ts) h (omega arith))
    | inl c ↦
        rw (parse_unary, c)
          (Within-and_then (suc (length ts)) (suc (length ts)) (take_token (t ∷ ts)) _
            (take_token-Within t ts h (prefix-ne-end t c))
            λ op rest end less.
              Within-and_then (length rest) (suc (length ts)) (parse_unary f rest)
                (λ operand. pure (unary op.value operand))
                (parse_unary-Within f rest end (omega arith))
                λ operand rest' end' less'. (end', omega arith))
  ]

  parse_primary-Within :
      (f : ℕ) (ts : List Token)
      → HasEnd ts
      → 4 * length ts + 1 ≤ f
      → Within (length ts) (parse_primary f ts)
  parse_primary-Within zero ts h k = absurd (omega arith)
  parse_primary-Within (suc f) [] h k = absurd h
  parse_primary-Within (suc f) (t ∷ ts) h k = elim (Bool-cases (is_literal t.type)) [
    | inl c ↦
        rw (parse_primary, c)
          (Within-and_then (suc (length ts)) (suc (length ts)) (take_token (t ∷ ts))
            (λ u. pure (literal_of u)) (take_token-Within t ts h (literal-ne-end t c))
            λ u rest end less. (end, less))
    | inr c ↦ elim (Bool-cases (same_type t.type identifier)) [
      | inl d ↦
          rw (parse_primary, c, d)
            (Within-and_then (suc (length ts)) (suc (length ts)) (take_token (t ∷ ts)) parse_column
              (take_token-Within t ts h (ground arith))
              λ u rest end less.
                Within-le (suc (length rest)) (suc (length ts)) (parse_column u rest) (omega arith)
                  (parse_column-Within u rest end))
      | inr d ↦ elim (Bool-cases (same_type t.type lparen)) [
        | inr e ↦ rw (parse_primary, c, d, e) tt
        | inl e ↦
            rw (parse_primary, c, d, e)
              (Within-and_then (suc (length ts)) (suc (length ts)) (take_token (t ∷ ts))
                (λ _ rest. and_then (parse_expression f rest) close_group)
                (take_token-Within t ts h (ground arith))
                λ u rest end less.
                  Within-and_then (length rest) (suc (length ts)) (parse_expression f rest)
                    close_group (parse_expression-Within f rest end (omega arith))
                    λ inner after end' less'.
                      Within-le (length after) (suc (length ts)) (close_group inner after)
                        (omega arith) (close_group-Within inner after end'))
      ]
    ]
  ]
