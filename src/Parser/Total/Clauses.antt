-- ===== src/Parser/Total/Clauses.antt =====
-- Parsers that end within their fuel, and how they are put together.
use my_database_engine.Common.{
  ℕ, zero, suc, ◌+◌, ◌*◌, ◌≤◌, ◌<◌, ◌≡◌, refl, Bool, true, false, none, some, List, [], ◌∷◌, Text,
  arith, length, if◌then◌else◌,
}
use my_database_engine.Lexer
use my_database_engine.Lexer.{
  TokenType, Token, end_of_file, LexError, Lexed, lexed, fails, tokenize,
}
use my_database_engine.Parser.{
  ParseFailure, parsed, rejects, Parser, and_then, ◌>>=◌, pure, same_type, expect, match_type,
}
use my_database_engine.Parser.Expression.{parse_expression}
use my_database_engine.Parser.Clause.{
  comma_list, parse_name, parse_column_list, parse_where_clause, parse_order, parse_order_by_clause,
}
use my_database_engine.Parser.Total.{
  HasEnd, Within, Within-and_then, Within-le, Within-branch, match_type-Within, expect-Within,
}
use my_database_engine.Parser.Total.Expressions.{parse_expression-Within}

-- With this fuel the parser ends, and leaves no more tokens than it found.
pub record Reads {ℓ} {A : Type ℓ} (f : ℕ) (p : Parser A) : Type 0 where
  pub within :
      (ts : List Token) → HasEnd ts → 4 * length ts + 4 ≤ f → Within (suc (length ts)) (p ts)

-- The same, and it leaves fewer.
pub record Eats {ℓ} {A : Type ℓ} (f : ℕ) (p : Parser A) : Type 0 where
  pub within : (ts : List Token) → HasEnd ts → 4 * length ts + 4 ≤ f → Within (length ts) (p ts)

module _ (f : ℕ) where
  module _ {ℓ} {A : Type ℓ} where
    pub Reads-Eats : (p : Parser A) → Eats f p → Reads f p
    Reads-Eats p e = record {
      within =
          λ ts h k. Within-le (length ts) (suc (length ts)) (p ts) (omega arith) (e.within ts h k);
    }

    pub Reads-pure : (a : A) → Reads f (pure a)
    Reads-pure a = record { within = λ ts h k. (h, omega arith) }

    pub Reads-rejects : (e : ParseFailure) → Reads {A = A} f (λ ts. rejects e)
    Reads-rejects e = record { within = λ ts h k. tt }

    pub Reads-if :
        (b : Bool) (p q : Parser A) → Reads f p → Reads f q → Reads f (if b then p else q)
    Reads-if true p q h k = h
    Reads-if false p q h k = k

  module _ {ℓ κ} {A : Type ℓ} {B : Type κ} (p : Parser A) (q : A → Parser B) where
    pub Reads-bind : Reads f p → ((a : A) → Reads f (q a)) → Reads f (p >>= q)
    Reads-bind h k = record {
      within = λ ts end enough.
          Within-and_then (suc (length ts)) (suc (length ts)) (p ts) q (h.within ts end enough)
            λ a rest end' less.
              Within-le (suc (length rest)) (suc (length ts)) (q a rest) (omega arith)
                ((k a).within rest end' (omega arith));
    }

    pub Eats-bind : Eats f p → ((a : A) → Reads f (q a)) → Eats f (p >>= q)
    Eats-bind h k = record {
      within = λ ts end enough.
          Within-and_then (length ts) (length ts) (p ts) q (h.within ts end enough)
            λ a rest end' less.
              Within-le (suc (length rest)) (length ts) (q a rest) (omega arith)
                ((k a).within rest end' (omega arith));
    }

    pub Reads-eat : Eats f p → ((a : A) → Reads f (q a)) → Reads f (p >>= q)
    Reads-eat h k = Reads-Eats (p >>= q) (Eats-bind h k)

  pub Eats-expect :
      (type : TokenType) (msg : Text)
      → same_type end_of_file type ≡ false
      → Eats f (expect type msg)
  Eats-expect type msg ne = record { within = λ ts h k. expect-Within type msg ts ne h }

  pub Reads-match_type :
      (type : TokenType) → same_type end_of_file type ≡ false → Reads f (match_type type)
  Reads-match_type type ne = record { within = λ ts h k. match_type-Within type ts ne h }

  pub Eats-parse_expression : Eats f (parse_expression f)
  Eats-parse_expression = record { within = λ ts h k. parse_expression-Within f ts h k }

  pub Eats-parse_name : (msg : Text) → Eats f (parse_name msg)
  unfolding parse_name
  Eats-parse_name msg =
      Eats-bind (expect Lexer.identifier msg) _ (Eats-expect Lexer.identifier msg refl)
        λ name. Reads-pure name.value

  module _ {ℓ} {A : Type ℓ} (p : Parser A) (eats : Eats f p) where
    comma_list-Within :
        (g : ℕ) (ts : List Token)
        → HasEnd ts
        → 4 * length ts + 4 ≤ f
        → length ts < g
        → Within (length ts) (comma_list g p ts)
    unfolding comma_list
    comma_list-Within zero ts h k l = absurd (omega arith)
    comma_list-Within (suc g) ts h k l =
        Within-and_then (length ts) (length ts) (p ts) _ (eats.within ts h k) λ a rest end less.
          Within-and_then (suc (length rest)) (length ts) (match_type Lexer.comma rest) _
            (match_type-Within Lexer.comma rest refl end)
            λ again rest' end' less'.
              Within-branch (length ts) again
                (and_then (comma_list g p rest') λ as' end. parsed (a ∷ as') end)
                (parsed (a ∷ []) rest')
                (Within-and_then (length rest') (length ts) (comma_list g p rest')
                  (λ as'. pure (a ∷ as'))
                  (comma_list-Within g rest' end' (omega arith) (omega arith))
                  λ as' rest'' end'' less''. (end'', omega arith))
                (end', omega arith)

    pub Eats-comma_list : Eats f (comma_list f p)
    Eats-comma_list = record { within = λ ts h k. comma_list-Within f ts h k (omega arith) }

  pub Eats-parse_column_list : Eats f (parse_column_list f)
  unfolding parse_column_list
  Eats-parse_column_list = Eats-comma_list (parse_name _) (Eats-parse_name _)

  pub Reads-parse_where_clause : Reads f (parse_where_clause f)
  unfolding parse_where_clause
  Reads-parse_where_clause =
      Reads-bind (match_type Lexer.where_word) _ (Reads-match_type Lexer.where_word refl) λ found.
        Reads-if found _ _
          (Reads-bind (parse_expression f) _ (Reads-Eats _ Eats-parse_expression)
            λ e. Reads-pure (some e))
          (Reads-pure none)

  pub Eats-parse_order : Eats f parse_order
  unfolding parse_order
  Eats-parse_order = Eats-bind (parse_name _) _ (Eats-parse_name _) λ column.
      Reads-bind (match_type Lexer.desc) _ (Reads-match_type Lexer.desc refl) λ descending.
        Reads-bind (match_type Lexer.asc) _ (Reads-match_type Lexer.asc refl) λ _. Reads-pure _

  pub Reads-parse_order_by_clause : Reads f (parse_order_by_clause f)
  unfolding parse_order_by_clause
  Reads-parse_order_by_clause =
      Reads-bind (match_type Lexer.order) _ (Reads-match_type Lexer.order refl) λ found.
        Reads-if found _ _
          (Reads-bind (expect Lexer.by _) _ (Reads-Eats _ (Eats-expect Lexer.by _ refl))
            λ _. Reads-Eats _ (Eats-comma_list parse_order Eats-parse_order))
          (Reads-pure [])
