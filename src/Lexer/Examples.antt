-- ===== src/Lexer/Examples.antt =====
-- The lexer on small texts.
use my_database_engine.Common.{◌≡◌, refl, List, [], ◌∷◌, ◌++◌, map, codes, find, text_beq}
use my_database_engine.Lexer.{
  Cursor, cursor, Token, TokenType, Lexed, lexed, fails, unknown_character, select, identifier, gte,
  number, end_of_file, tokenize, tokenize_loop, read_token, read_while, skip_whitespace,
  skip_line_comment, starts_comment, single, read_operator, equals_next, read_string_token,
  string_loop, unescape, read_number_token, read_fraction, read_word_token, classify_word, to_upper,
}
use my_database_engine.Lexer.Total.{Ends, tokenize-Ends}
use my_database_engine.Lexer.Words.{read_token-word}

abbrev types_of : Lexed (List Token) → List TokenType
types_of (lexed ts) = map (λ t. t.type) ts
types_of _ = []

select_types :
    types_of (tokenize (codes "Select a -- x\n>= 3.14"))
    ≡ select ∷ identifier ∷ gte ∷ number ∷ end_of_file ∷ []
unfolding tokenize tokenize_loop read_token read_while skip_whitespace skip_line_comment
    starts_comment single read_operator equals_next read_string_token string_loop unescape
    read_number_token read_fraction read_word_token classify_word to_upper find text_beq
select_types = refl

unknown_at_three : tokenize (codes "a #") ≡ fails (unknown_character 35 1 3)
unfolding tokenize tokenize_loop read_token read_while skip_whitespace skip_line_comment
    starts_comment single read_operator equals_next read_string_token string_loop unescape
    read_number_token read_fraction read_word_token classify_word to_upper find text_beq
unknown_at_three = refl

tokenize-Ends_example : Ends (tokenize (codes "SELECT * FROM t"))
tokenize-Ends_example = tokenize-Ends (codes "SELECT * FROM t")

read_token-word_example :
    (token : Token) × (after : Cursor) × (read_token 115
        (codes "elect" ++ codes " x")
        (cursor (codes "select x") 1 1)
      ≡ lexed (token, after))
    × (token.value ≡ codes "select")
    × (token.type ≡ classify_word (map to_upper (codes "select")))
    × (after.rest ≡ codes " x")
read_token-word_example =
    read_token-word 115 (codes "elect") (codes " x") 1 1 refl
      (refl, (refl, (refl, (refl, (refl, tt))))) refl
