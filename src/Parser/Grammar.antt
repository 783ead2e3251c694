-- ===== src/Parser/Grammar.antt =====
-- The grammar of expressions, apart from the parser: syntax trees with every token, the tokens that
-- they are written with, and the expressions that they stand for. AND and OR are of one level and
-- group to the left, as comparisons do; a prefix binds tighter than a comparison.
pub mod Classes
pub mod Reads
pub mod Complete
pub mod Sound
pub mod Exact
use my_database_engine.Common.{
  ℕ, ◌≡◌, refl, Bool, true, false, List, [], ◌∷◌, ◌++◌, Text, any, nat_beq, if◌then◌else◌,
}
use my_database_engine.Ast.{Expr, LiteralKind, binary, unary, column_ref, literal}
use my_database_engine.Lexer.{
  TokenType, Token, and, or, not_word, identifier, number, string, bool_true, bool_false, eq, neq,
  lt, gt, lte, gte, minus, lparen, rparen, dot,
}

-- The token types that the grammar knows, listed.
abbrev pub connects : TokenType → Bool
connects and = true
connects or = true
connects _ = false

abbrev pub compares : TokenType → Bool
compares eq = true
compares neq = true
compares lt = true
compares gt = true
compares lte = true
compares gte = true
compares _ = false

abbrev pub precedes : TokenType → Bool
precedes not_word = true
precedes minus = true
precedes _ = false

abbrev pub denotes : TokenType → Bool
denotes number = true
denotes string = true
denotes bool_true = true
denotes bool_false = true
denotes _ = false

-- A number is a float if it holds a dot, code 46.
abbrev number_kind : Text → LiteralKind
number_kind v = if any (λ c. nat_beq c 46) v then LiteralKind.float else LiteralKind.integer

abbrev pub kind_of : TokenType → Text → LiteralKind
kind_of number v = number_kind v
kind_of string v = LiteralKind.string
kind_of _ v = LiteralKind.bool

mutual
  pub data Primary : Type 0 where
    value : Token → Primary
    column : Token → Primary
    qualified : Token → Token → Token → Primary
    group : Token → Sentence → Token → Primary

  pub data Unary : Type 0 where
    prefixed : Token → Unary → Unary
    plain : Primary → Unary

  -- A comparison, and the operators with their right sides that follow it.
  pub data Comparison : Type 0 where
    compared : Unary → Comparisons → Comparison

  pub data Comparisons : Type 0 where
    no_more : Comparisons
    also : Token → Unary → Comparisons → Comparisons

  pub data Sentence : Type 0 where
    joined : Comparison → Joins → Sentence

  pub data Joins : Type 0 where
    ends : Joins
    next : Token → Comparison → Joins → Joins

-- The tokens of a tree.
unfoldable mutual
  pub primary_tokens : Primary → List Token
  primary_tokens (value t) = t ∷ []
  primary_tokens (column t) = t ∷ []
  primary_tokens (qualified t d u) = t ∷ d ∷ u ∷ []
  primary_tokens (group l s r) = l ∷ (sentence_tokens s ++ r ∷ [])

  pub unary_tokens : Unary → List Token
  unary_tokens (prefixed op u) = op ∷ unary_tokens u
  unary_tokens (plain p) = primary_tokens p

  pub comparison_tokens : Comparison → List Token
  comparison_tokens (compared u cs) = unary_tokens u ++ comparisons_tokens cs

  pub comparisons_tokens : Comparisons → List Token
  comparisons_tokens no_more = []
  comparisons_tokens (also op u cs) = op ∷ (unary_tokens u ++ comparisons_tokens cs)

  pub sentence_tokens : Sentence → List Token
  sentence_tokens (joined c js) = comparison_tokens c ++ joins_tokens js

  pub joins_tokens : Joins → List Token
  joins_tokens ends = []
  joins_tokens (next op c js) = op ∷ (comparison_tokens c ++ joins_tokens js)

-- The expression of a tree; the operators of one level take what stands left of them.
unfoldable mutual
  pub primary_expr : Primary → Expr
  primary_expr (value t) = literal (kind_of t.type t.value) t.value
  primary_expr (column t) = column_ref [] t.value
  primary_expr (qualified t d u) = column_ref t.value u.value
  primary_expr (group l s r) = sentence_expr s

  pub unary_expr : Unary → Expr
  unary_expr (prefixed op u) = unary op.value (unary_expr u)
  unary_expr (plain p) = primary_expr p

  pub comparison_expr : Comparison → Expr
  comparison_expr (compared u cs) = comparisons_expr (unary_expr u) cs

  pub comparisons_expr : Expr → Comparisons → Expr
  comparisons_expr lhs no_more = lhs
  comparisons_expr lhs (also op u cs) = comparisons_expr (binary op.value lhs (unary_expr u)) cs

  pub sentence_expr : Sentence → Expr
  sentence_expr (joined c js) = joins_expr (comparison_expr c) js

  pub joins_expr : Expr → Joins → Expr
  joins_expr lhs ends = lhs
  joins_expr lhs (next op c js) = joins_expr (binary op.value lhs (comparison_expr c)) js

-- The tokens of a tree have the types that the grammar wants at their places.
abbrev mutual
  pub IsPrimary : Primary → Type 0
  IsPrimary (value t) = denotes t.type ≡ true
  IsPrimary (column t) = t.type ≡ identifier
  IsPrimary (qualified t d u) = (t.type ≡ identifier) × (d.type ≡ dot) × (u.type ≡ identifier)
  IsPrimary (group l s r) = (l.type ≡ lparen) × IsSentence s × (r.type ≡ rparen)

  pub IsUnary : Unary → Type 0
  IsUnary (prefixed op u) = (precedes op.type ≡ true) × IsUnary u
  IsUnary (plain p) = IsPrimary p

  pub IsComparison : Comparison → Type 0
  IsComparison (compared u cs) = IsUnary u × IsComparisons cs

  pub IsComparisons : Comparisons → Type 0
  IsComparisons no_more = Unit
  IsComparisons (also op u cs) = (compares op.type ≡ true) × IsUnary u × IsComparisons cs

  pub IsSentence : Sentence → Type 0
  IsSentence (joined c js) = IsComparison c × IsJoins js

  pub IsJoins : Joins → Type 0
  IsJoins ends = Unit
  IsJoins (next op c js) = (connects op.type ≡ true) × IsComparison c × IsJoins js
