-- ===== src/Parser/Examples.antt =====
-- The parser on small texts.
use my_database_engine.Common.{
  ◌≡◌, inl, inr, refl, true, false, Option, none, some, List, [], ◌∷◌, ◌++◌, ◌↔◌, Text, codes, find,
  text_beq, text_ne, arith,
}
use my_database_engine.Common.Int.{pos}
use my_database_engine.Ast.{Row, Expr, integer, literal, column_ref, binary, unary, Statement}
use my_database_engine.Doubles.Decimal.{decimal}
use my_database_engine.Expr.{evaluate_expr}
use my_database_engine.Lexer
use my_database_engine.Lexer.{
  TokenType, Token, Lexed, lexed, tokenize, classify_word, to_upper, identifier, number, eq, lparen,
  rparen, end_of_file,
}
use my_database_engine.Parser.{Parsed, parsed}
use my_database_engine.Parser.Expression.{parse_expression}
use my_database_engine.Parser.Statement.{parse}
use my_database_engine.Parser.Total.{Within}
use my_database_engine.Parser.Total.Statements.{Answers, parse-Within, parse-tokenize}
use my_database_engine.Parser.Grammar.{
  value, column, group, plain, prefixed, compared, no_more, also, joined, ends, Unary, Comparison,
  Sentence, unary_tokens, comparison_tokens, sentence_tokens, sentence_expr,
}
use my_database_engine.Parser.Case.{parse_expression-connective_case, parse_expression-prefix_case}
use my_database_engine.Parser.Grammar.Sound.{IsSentenceOf}
use my_database_engine.Parser.Grammar.Exact.{parse_expression-IsSentenceOf}

abbrev statement_of : Parsed Statement → Option Statement
statement_of (parsed s rest) = some s
statement_of _ = none

abbrev statement_of_tokens : Lexed (List Token) → Option Statement
statement_of_tokens (lexed ts) = statement_of (parse ts)
statement_of_tokens _ = none

drop_read :
    statement_of_tokens (tokenize (codes "DROP TABLE t;"))
    ≡ some (Statement.drop_table (record { table = codes "t" }))
unfolding tokenize parse
drop_read = refl

select_read :
    statement_of_tokens (tokenize (codes "SELECT a FROM t WHERE x = 3 ORDER BY a DESC LIMIT 3"))
    ≡ some (
        Statement.select (record {
          columns = codes "a" ∷ [];
          table = codes "t";
          where_clause =
              some (binary (codes "=") (column_ref [] (codes "x")) (literal integer (codes "3")));
          order_by = record { column = codes "a"; ascending = false } ∷ [];
          limit = some (pos 3);
        }))
unfolding tokenize parse parse_expression
select_read = refl

create_read :
    statement_of_tokens (tokenize (codes "CREATE TABLE t (id INT PRIMARY KEY NOT NULL)"))
    ≡ some (
        Statement.create_table (record {
          table = codes "t";
          columns =
              record { name = codes "id"; type = codes "INT"; primary_key = true; not_null = true }
              ∷ [];
        }))
unfolding tokenize parse
create_read = refl

abbrev token_of : TokenType → Text → Token
token_of t v = record { type = t; value = v; line = 1; col = 1 }

abbrev end_token : Token
end_token = token_of end_of_file []

-- NOT x = (1)
abbrev not_equal : Sentence
not_equal =
    joined
      (compared
        (prefixed (token_of Lexer.not_word (codes "NOT"))
          (plain (column (token_of identifier (codes "x")))))
        (also (token_of eq (codes "="))
          (plain (
            group (token_of lparen (codes "("))
              (joined (compared (plain (value (token_of number (codes "1")))) no_more) ends)
              (token_of rparen (codes ")"))))
          no_more))
      ends

parse-tokenize_example : Answers (codes "SELECT * FROM t WHERE")
parse-tokenize_example = parse-tokenize (codes "SELECT * FROM t WHERE")

parse-Within_example : Within 3 (parse (token_of Lexer.drop (codes "DROP") ∷ end_token ∷ []))
parse-Within_example =
    parse-Within (token_of Lexer.drop (codes "DROP") ∷ end_token ∷ []) (inr (inl refl))

parse_expression-IsSentenceOf_example :
    (parse_expression 32 (sentence_tokens not_equal ++ end_token ∷ [])
      ≡ parsed (sentence_expr not_equal) (end_token ∷ []))
    ↔ IsSentenceOf
        (sentence_tokens not_equal ++ end_token ∷ [])
        (sentence_expr not_equal)
        (end_token ∷ [])
unfolding sentence_tokens
parse_expression-IsSentenceOf_example =
    parse_expression-IsSentenceOf 32 (sentence_tokens not_equal ++ end_token ∷ [])
      (sentence_expr not_equal) (end_token ∷ []) (omega arith) refl

-- NOT binds tighter than the comparison.
not_equal_read :
    parse_expression 32 (sentence_tokens not_equal ++ end_token ∷ [])
    ≡ parsed
        (binary
          (codes "=")
          (unary (codes "NOT") (column_ref [] (codes "x")))
          (literal integer (codes "1")))
        (end_token ∷ [])
unfolding parse_expression sentence_tokens
not_equal_read = refl

abbrev column_x : Unary
column_x = plain (column (token_of identifier (codes "x")))

abbrev x_alone : Comparison
x_alone = compared column_x no_more

-- x and x, with the keyword in lower case
parse_expression-connective_case_example :
    (e : Expr) × (parse_expression 32 (
        (sentence_tokens (joined x_alone ends)
          ++ token_of Lexer.and (codes "and") ∷ comparison_tokens x_alone)
        ++ end_token ∷ [])
      ≡ parsed e (end_token ∷ []))
    × ((row : Row) → evaluate_expr decimal e row ≡ false)
unfolding sentence_tokens comparison_tokens unary_tokens classify_word to_upper find text_beq
parse_expression-connective_case_example =
    parse_expression-connective_case decimal 32 (joined x_alone ends)
      (token_of Lexer.and (codes "and")) x_alone (end_token ∷ []) ((refl, tt), tt) (refl, tt) refl
      refl (λ e. cc) (λ e. cc) refl (omega arith)

-- not x
parse_expression-prefix_case_example :
    (e : Expr) × (parse_expression 32
        (token_of Lexer.not_word (codes "not") ∷ (unary_tokens column_x ++ end_token ∷ []))
      ≡ parsed e (end_token ∷ []))
    × ((row : Row) → evaluate_expr decimal e row ≡ true)
unfolding unary_tokens text_beq
parse_expression-prefix_case_example =
    parse_expression-prefix_case decimal 32 (token_of Lexer.not_word (codes "not")) column_x
      (end_token ∷ []) refl (text_ne (codes "not") (codes "NOT") refl) refl refl (omega arith)
