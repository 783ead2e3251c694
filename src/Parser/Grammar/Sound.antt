-- ===== src/Parser/Grammar/Sound.antt =====
-- What the parser reads as an expression is a tree of the grammar.
use my_database_engine.Common.{
  ℕ, ◌≡◌, inl, inr, refl, ap, sym, ◌∙◌, true, false, List, [], ◌∷◌, ◌++◌, append_assoc, arith,
  Bool-cases, get_elem?, nat_beq_iff, some,
}
use my_database_engine.Ast.{Expr, binary}
use my_database_engine.Lexer.{
  TokenType, Token, select, insert, update, delete, create, drop, table, from, where_word, into,
  values, set, and, or, not_word, order, by, asc, desc, limit, join, on, inner, left, identifier,
  number, string, bool_true, bool_false, eq, neq, lt, gt, lte, gte, plus, minus, slash, star, comma,
  semicolon, lparen, rparen, dot, end_of_file,
}
use my_database_engine.Parser.{
  Parsed, parsed, rejects, undefined, out_of_fuel, Parser, and_then, pure, same_type, ordinal,
  is_end, match_type, expect, take_token, advance,
}
use my_database_engine.Parser.Expression.{close_group, parse_column}
use my_database_engine.Parser.Grammar.{
  connects, compares, Primary, column, qualified, group, Unary, Comparison, compared, Comparisons,
  also, Sentence, joined, Joins, next, primary_tokens, unary_tokens, comparison_tokens,
  comparisons_tokens, sentence_tokens, joins_tokens, primary_expr, unary_expr, comparison_expr,
  comparisons_expr, sentence_expr, joins_expr, IsPrimary, IsUnary, IsComparison, IsComparisons,
  IsSentence, IsJoins,
}

abbrev all_types : List TokenType
all_types =
    select ∷ insert ∷ update ∷ delete ∷ create ∷ drop ∷ table ∷ from ∷ where_word ∷ into ∷ values
    ∷ set ∷ and ∷ or ∷ not_word ∷ order ∷ by ∷ asc ∷ desc ∷ limit ∷ join ∷ on ∷ inner ∷ left
    ∷ identifier ∷ number ∷ string ∷ bool_true ∷ bool_false ∷ eq ∷ neq ∷ lt ∷ gt ∷ lte ∷ gte ∷ plus
    ∷ minus ∷ slash ∷ star ∷ comma ∷ semicolon ∷ lparen ∷ rparen ∷ dot ∷ end_of_file ∷ []

get_elem?-ordinal : (a : TokenType) → get_elem? all_types (ordinal a) ≡ some a
get_elem?-ordinal select = refl
get_elem?-ordinal _ = refl

-- Equal values are of equal enumerators.
pub same_type-eq : (a b : TokenType) → same_type a b ≡ true → a ≡ b
same_type-eq a b h = cc (
  ap (get_elem? all_types) ((nat_beq_iff (ordinal a) (ordinal b)).0 h),
  get_elem?-ordinal a,
  get_elem?-ordinal b,
)

-- If the parser returns, then with this.
abbrev pub Holds {ℓ} : {A : Type ℓ} → (A → List Token → Type 0) → Parsed A → Type 0
Holds P (parsed a ts) = P a ts
Holds P other = Unit

module _ {ℓ κ} {A : Type ℓ} {B : Type κ} where
  pub Holds-and_then :
      (P : A → List Token → Type 0) (Q : B → List Token → Type 0) (r : Parsed A) (f : A → Parser B)
      → Holds P r
      → ((a : A) (ts : List Token) → P a ts → Holds Q (f a ts))
      → Holds Q (and_then r f)
  Holds-and_then P Q (parsed a ts) f h k = k a ts h
  Holds-and_then P Q (rejects e) f h k = tt
  Holds-and_then P Q undefined f h k = tt
  Holds-and_then P Q out_of_fuel f h k = tt

pub Holds-imp {ℓ} :
    {A : Type ℓ} (P Q : A → List Token → Type 0) (r : Parsed A)
    → ((a : A) (ts : List Token) → P a ts → Q a ts)
    → Holds P r
    → Holds Q r
Holds-imp P Q (parsed a ts) k h = k a ts h
Holds-imp P Q (rejects e) k h = tt
Holds-imp P Q undefined k h = tt
Holds-imp P Q out_of_fuel k h = tt

-- The tokens are those of a tree and the rest, and the expression is the tree's.
abbrev pub IsPrimaryOf : List Token → Expr → List Token → Type 0
IsPrimaryOf ts e rest =
    (p : Primary) × IsPrimary p × (ts ≡ primary_tokens p ++ rest) × (primary_expr p ≡ e)

abbrev pub IsUnaryOf : List Token → Expr → List Token → Type 0
IsUnaryOf ts e rest = (u : Unary) × IsUnary u × (ts ≡ unary_tokens u ++ rest) × (unary_expr u ≡ e)

abbrev pub IsComparisonOf : List Token → Expr → List Token → Type 0
IsComparisonOf ts e rest =
    (c : Comparison) × IsComparison c × (ts ≡ comparison_tokens c ++ rest) × (comparison_expr c ≡ e)

abbrev pub IsComparisonsOf : Expr → List Token → Expr → List Token → Type 0
IsComparisonsOf lhs ts e rest =
    (cs : Comparisons) × IsComparisons cs
    × (ts ≡ comparisons_tokens cs ++ rest)
    × (comparisons_expr lhs cs ≡ e)

abbrev pub IsSentenceOf : List Token → Expr → List Token → Type 0
IsSentenceOf ts e rest =
    (s : Sentence) × IsSentence s × (ts ≡ sentence_tokens s ++ rest) × (sentence_expr s ≡ e)

abbrev pub IsJoinsOf : Expr → List Token → Expr → List Token → Type 0
IsJoinsOf lhs ts e rest =
    (js : Joins) × IsJoins js × (ts ≡ joins_tokens js ++ rest) × (joins_expr lhs js ≡ e)

-- The token at the front, and what follows it.
pub Holds-take_token :
    (t : Token) (ts : List Token)
    → is_end t ≡ false
    → Holds (λ u rest. (u ≡ t) × (rest ≡ ts)) (take_token (t ∷ ts))
unfolding take_token advance
Holds-take_token t ts h = rw h (refl, refl)

Holds-expect :
    (type : TokenType) (msg : List ℕ) (ts : List Token)
    → same_type type end_of_file ≡ false
    → Holds (λ t rest. (t.type ≡ type) × (ts ≡ t ∷ rest)) (expect type msg ts)
unfolding expect advance
Holds-expect type msg [] ne = tt
Holds-expect type msg (t ∷ ts) ne = elim (Bool-cases (same_type t.type type)) [
  | inr e ↦ rw (expect, e) tt
  | inl e ↦
      let no : is_end t ≡ false = ground arith in
      rw (expect, e, advance, no) (same_type-eq t.type type e, refl)
]

pub Holds-parse_column :
    (t : Token) (ts : List Token)
    → t.type ≡ identifier
    → Holds (IsPrimaryOf (t ∷ ts)) (parse_column t ts)
unfolding parse_column match_type primary_tokens primary_expr
Holds-parse_column t [] h = tt
Holds-parse_column t (d ∷ ts) h = elim (Bool-cases (same_type d.type dot)) [
  | inr e ↦ rw (match_type, e) (column t, h, refl, refl)
  | inl e ↦
      let no : is_end d ≡ false = ground arith in
      rw (match_type, e, advance, no)
        (Holds-and_then _ _ (expect identifier _ ts) _ (Holds-expect identifier _ ts refl)
          λ u rest (k, same).
            (qualified t d u, (h, same_type-eq d.type dot e, k), ap (λ x. t ∷ d ∷ x) same, refl))
]

pub Holds-close_group :
    (l : Token) (ts mid : List Token) (e : Expr)
    → l.type ≡ lparen
    → IsSentenceOf ts e mid
    → Holds (IsPrimaryOf (l ∷ ts)) (close_group e mid)
unfolding close_group primary_tokens primary_expr
Holds-close_group l ts mid e k (s, is, same, means) =
    Holds-and_then _ _ (expect rparen _ mid) (λ _. pure e) (Holds-expect rparen _ mid refl)
      λ r rest (right, split). (
        group l s r,
        (k, is, right),
        ap (λ x. l ∷ x)
            (same
              ∙ ap (λ x. sentence_tokens s ++ x) split
              ∙ sym (append_assoc (sentence_tokens s) (r ∷ []) rest)),
        means,
      )

-- An operator with its right side, in front of what the loop reads then.
pub also-IsComparisonsOf :
    (lhs rhs e : Expr) (op : Token) (ts mid rest : List Token)
    → compares op.type ≡ true
    → IsUnaryOf ts rhs mid
    → IsComparisonsOf (binary op.value lhs rhs) mid e rest
    → IsComparisonsOf lhs (op ∷ ts) e rest
unfolding comparisons_tokens comparisons_expr
also-IsComparisonsOf lhs rhs e op ts mid rest h (u, isu, sameu, meansu) (cs, isc, samec, meansc) = (
  also op u cs,
  (h, isu, isc),
  ap (λ x. op ∷ x)
      (sameu
        ∙ ap (λ x. unary_tokens u ++ x) samec
        ∙ sym (append_assoc (unary_tokens u) (comparisons_tokens cs) rest)),
  ap (λ x. comparisons_expr (binary op.value lhs x) cs) meansu ∙ meansc,
)

pub next-IsJoinsOf :
    (lhs rhs e : Expr) (op : Token) (ts mid rest : List Token)
    → connects op.type ≡ true
    → IsComparisonOf ts rhs mid
    → IsJoinsOf (binary op.value lhs rhs) mid e rest
    → IsJoinsOf lhs (op ∷ ts) e rest
unfolding joins_tokens joins_expr
next-IsJoinsOf lhs rhs e op ts mid rest h (c, isc, samec, meansc) (js, isj, samej, meansj) = (
  next op c js,
  (h, isc, isj),
  ap (λ x. op ∷ x)
      (samec
        ∙ ap (λ x. comparison_tokens c ++ x) samej
        ∙ sym (append_assoc (comparison_tokens c) (joins_tokens js) rest)),
  ap (λ x. joins_expr (binary op.value lhs x) js) meansc ∙ meansj,
)

pub compared-IsComparisonOf :
    (lhs e : Expr) (ts mid rest : List Token)
    → IsUnaryOf ts lhs mid
    → IsComparisonsOf lhs mid e rest
    → IsComparisonOf ts e rest
unfolding comparison_tokens comparison_expr
compared-IsComparisonOf lhs e ts mid rest (u, isu, sameu, meansu) (cs, isc, samec, meansc) = (
  compared u cs,
  (isu, isc),
  sameu
      ∙ ap (λ x. unary_tokens u ++ x) samec
      ∙ sym (append_assoc (unary_tokens u) (comparisons_tokens cs) rest),
  ap (λ x. comparisons_expr x cs) meansu ∙ meansc,
)

pub joined-IsSentenceOf :
    (lhs e : Expr) (ts mid rest : List Token)
    → IsComparisonOf ts lhs mid
    → IsJoinsOf lhs mid e rest
    → IsSentenceOf ts e rest
unfolding sentence_tokens sentence_expr
joined-IsSentenceOf lhs e ts mid rest (c, isc, samec, meansc) (js, isj, samej, meansj) = (
  joined c js,
  (isc, isj),
  samec
      ∙ ap (λ x. comparison_tokens c ++ x) samej
      ∙ sym (append_assoc (comparison_tokens c) (joins_tokens js) rest),
  ap (λ x. joins_expr x js) meansc ∙ meansj,
)
