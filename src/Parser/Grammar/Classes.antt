-- ===== src/Parser/Grammar/Classes.antt =====
-- The token types that the parser tests for are those of the grammar, and its literals of the kinds
-- of the grammar.
use my_database_engine.Common.{◌≡◌, refl, ap, true, [], ◌∷◌, Text, any, nat_beq, if◌then◌else◌}
use my_database_engine.Ast.{LiteralKind, literal}
use my_database_engine.Lexer.{TokenType, Token, and, number, string, eq, minus}
use my_database_engine.Parser.Expression.{
  is_connective, is_comparison, is_prefix, is_literal, literal_of, has_dot,
}
use my_database_engine.Parser.Grammar.{connects, compares, precedes, denotes, kind_of}

pub connects-is_connective : (t : TokenType) → connects t ≡ is_connective t
connects-is_connective and = refl
connects-is_connective _ = refl

pub compares-is_comparison : (t : TokenType) → compares t ≡ is_comparison t
compares-is_comparison eq = refl
compares-is_comparison _ = refl

pub precedes-is_prefix : (t : TokenType) → precedes t ≡ is_prefix t
precedes-is_prefix minus = refl
precedes-is_prefix _ = refl

pub denotes-is_literal : (t : TokenType) → denotes t ≡ is_literal t
unfolding is_literal
denotes-is_literal number = refl
denotes-is_literal _ = refl

has_dot-any : (v : Text) → has_dot v ≡ any (λ c. nat_beq c 46) v
unfolding has_dot
has_dot-any [] = refl
has_dot-any (c ∷ cs) = ap (λ r. if nat_beq c 46 then true else r) (has_dot-any cs)

pub literal_of-kind_of : (t : Token) → literal_of t ≡ literal (kind_of t.type t.value) t.value
unfolding literal_of
literal_of-kind_of t = go t.type t.value
  where
    go :
        (type : TokenType) (v : Text)
        → literal_of (record { type = type; value = v; line = t.line; col = t.col })
          ≡ literal (kind_of type v) v
    go number v =
        ap (λ b. literal (if b then LiteralKind.float else LiteralKind.integer) v) (has_dot-any v)
    go string v = refl
    go _ v = refl
