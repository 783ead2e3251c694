-- ===== src/Expr/Laws.antt =====
-- The comparison operators agree with one order on values, and what an unknown operator does.
use my_database_engine.Common.{
  true, false, not, ◌||◌, sym, ap, ◌∙◌, ◌⊎◌, Option, Text, codes, text_beq, ◌==◌, ==_iff, text_key,
  text_lt_total, text_lt_irrefl, text_lt_trans, ◌≡◌, ◌≢◌, refl, arith, none, some,
}
use my_database_engine.Ast.{Row, Expr, binary, unary}
use my_database_engine.Doubles.{Doubles, DoubleOrder, flip}
use my_database_engine.Expr.{
  compare_doubles, compare_texts, compare_parsed, compare_values, evaluate_expr,
}

-- The operator that says the same with the sides exchanged.
pub data Mirror : Text → Text → Type 0 where
  eq : {a b : Text} → a ≡ codes "=" → b ≡ codes "=" → Mirror a b
  ne : {a b : Text} → a ≡ codes "!=" → b ≡ codes "!=" → Mirror a b
  lt : {a b : Text} → a ≡ codes "<" → b ≡ codes ">" → Mirror a b
  le : {a b : Text} → a ≡ codes "<=" → b ≡ codes ">=" → Mirror a b

text_beq_comm : (a b : Text) → (a == b) ≡ (b == a)
text_beq_comm a b = ground (arith, ==_iff a b, ==_iff b a)

compare_texts_le :
    (l r : Text)
    → compare_texts l (codes "<=") r
      ≡ (compare_texts l (codes "<") r || compare_texts l (codes "=") r)
unfolding compare_texts text_beq
compare_texts_le l r =
    ground (arith, text_lt_total l r, text_lt_irrefl l, text_lt_trans l r l, ==_iff l r)

module _ (fp : Doubles) (l r : Text) where
  open fp use {stod, order, order_flip}

  -- `!=` is the negation of `=`, whether the operands are numbers, NaN or strings.
  pub compare_values_ne :
      compare_values fp l (codes "!=") r ≡ not (compare_values fp l (codes "=") r)
  unfolding compare_values compare_doubles compare_texts text_beq
  compare_values_ne = ground arith

  -- `<=` holds exactly if `<` or `=` does.
  pub compare_values_le :
      compare_values fp l (codes "<=") r
      ≡ (compare_values fp l (codes "<") r || compare_values fp l (codes "=") r)
  unfolding compare_values compare_doubles text_beq
  compare_values_le = ground (arith, compare_texts_le l r)

compare_doubles-Mirror :
    (o : DoubleOrder) {a b : Text} → Mirror a b → compare_doubles o a ≡ compare_doubles (flip o) b
unfolding compare_doubles text_beq
compare_doubles-Mirror o (eq p q) = rw (p, q) (ground arith)
compare_doubles-Mirror o (ne p q) = rw (p, q) (ground arith)
compare_doubles-Mirror o (lt p q) = rw (p, q) (ground arith)
compare_doubles-Mirror o (le p q) = rw (p, q) (ground arith)

compare_texts-Mirror :
    (l r : Text) {a b : Text} → Mirror a b → compare_texts l a r ≡ compare_texts r b l
unfolding compare_texts text_beq
compare_texts-Mirror l r (eq p q) = rw (p, q) (ground (arith, text_beq_comm l r))
compare_texts-Mirror l r (ne p q) = rw (p, q) (ground (arith, text_beq_comm l r))
compare_texts-Mirror l r (lt p q) = rw (p, q) refl
compare_texts-Mirror l r (le p q) = rw (p, q) refl

compare_parsed-Mirror :
    (fp : Doubles) (x y : Option fp.Double) (l r : Text) {a b : Text}
    → Mirror a b
    → compare_parsed fp x y l a r ≡ compare_parsed fp y x r b l
unfolding compare_parsed
compare_parsed-Mirror fp (some x) (some y) l r {b = b} m =
    compare_doubles-Mirror (fp.order x y) m
    ∙ ap (λ o. compare_doubles o b) (sym (fp.order_flip x y))
compare_parsed-Mirror fp (some x) none l r m = compare_texts-Mirror l r m
compare_parsed-Mirror fp none (some y) l r m = compare_texts-Mirror l r m
compare_parsed-Mirror fp none none l r m = compare_texts-Mirror l r m

-- A comparison with its sides exchanged and its operator mirrored has the same result.
pub compare_values-Mirror :
    (fp : Doubles) (l r : Text) {a b : Text}
    → Mirror a b
    → compare_values fp l a r ≡ compare_values fp r b l
unfolding compare_values
compare_values-Mirror fp l r m = compare_parsed-Mirror fp (fp.stod l) (fp.stod r) l r m

-- The operators that `compareValues` knows.
abbrev pub IsComparison : Text → Type 0
IsComparison op =
    (op ≡ codes "=")
    ⊎ (op ≡ codes "!=")
    ⊎ (op ≡ codes "<")
    ⊎ (op ≡ codes ">")
    ⊎ (op ≡ codes "<=")
    ⊎ (op ≡ codes ">=")

-- Any other binary operator, such as `and` in lower case, is false on every row.
pub evaluate_expr-unknown :
    (fp : Doubles) (op : Text) (left right : Expr) (row : Row)
    → op ≢ codes "AND"
    → op ≢ codes "OR"
    → ¬ IsComparison op
    → evaluate_expr fp (binary op left right) row ≡ false
unfolding evaluate_expr compare_values compare_doubles compare_texts
evaluate_expr-unknown fp op left right row h k c = ground (
  arith,
  ==_iff op (codes "AND"),
  ==_iff op (codes "OR"),
  ==_iff op (codes "="),
  ==_iff op (codes "!="),
  ==_iff op (codes "<"),
  ==_iff op (codes ">"),
  ==_iff op (codes "<="),
  ==_iff op (codes ">="),
)

-- Any unary operator but `NOT`, such as `not` in lower case or `-`, is true on every row.
pub evaluate_expr-unary_unknown :
    (fp : Doubles) (op : Text) (operand : Expr) (row : Row)
    → op ≢ codes "NOT"
    → evaluate_expr fp (unary op operand) row ≡ true
unfolding evaluate_expr
evaluate_expr-unary_unknown fp op operand row h = ground (arith, ==_iff op (codes "NOT"))
