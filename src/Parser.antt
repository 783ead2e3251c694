-- ===== src/Parser.antt =====
-- include/parser.h and src/parser.cpp: the state and the navigation of the parser. The position is
-- modelled by the tokens that are left. A Parser A reads an A and leaves the tokens behind it.
pub mod Expression
pub mod Clause
pub mod Statement
pub mod Total
pub mod Grammar
pub mod Case
mod Examples
use my_database_engine.Common.{
  ℕ, Bool, true, false, not, Option, none, some, List, [], ◌∷◌, Text, codes, length, nat_beq,
  if◌then◌else◌,
}
use my_database_engine.Lexer.{
  TokenType, Token, select, insert, update, delete, create, drop, table, from, where_word, into,
  values, set, and, or, not_word, order, by, asc, desc, limit, join, on, inner, left, identifier,
  number, string, bool_true, bool_false, eq, neq, lt, gt, lte, gte, plus, minus, slash, star, comma,
  semicolon, lparen, rparen, dot, end_of_file,
}

-- What makes the parser throw: expect met another token (the message goes on with its text), or
-- error was called at a token; the line and the column of the message are the token's. The last two
-- are the exceptions of std::stoi.
pub data ParseFailure : Type 0 where
  expected : Text → Token → ParseFailure
  unexpected : Text → Token → ParseFailure
  invalid_number : Text → ParseFailure
  number_out_of_range : Text → ParseFailure

-- `undefined` is a read of tokens_ past its end; `out_of_fuel` has no counterpart.
pub data Parsed {ℓ} (A : Type ℓ) : Type ℓ where
  parsed : A → List Token → Parsed A
  rejects : ParseFailure → Parsed A
  undefined : Parsed A
  out_of_fuel : Parsed A

abbrev pub Parser {ℓ} : Type ℓ → Type ℓ
Parser A = List Token → Parsed A

abbrev pub and_then {ℓ κ} : {A : Type ℓ} {B : Type κ} → Parsed A → (A → Parser B) → Parsed B
and_then (parsed a ts) f = f a ts
and_then (rejects e) f = rejects e
and_then undefined f = undefined
and_then out_of_fuel f = out_of_fuel

infixl 5 ◌>>=◌ ◌>>◌
abbrev pub ◌>>=◌ {ℓ κ} : {A : Type ℓ} {B : Type κ} → Parser A → (A → Parser B) → Parser B
◌>>=◌ p f ts = and_then (p ts) f

abbrev pub ◌>>◌ {ℓ κ} : {A : Type ℓ} {B : Type κ} → Parser A → Parser B → Parser B
◌>>◌ p q ts = and_then (p ts) (λ _. q)

abbrev pub pure {ℓ} : {A : Type ℓ} → A → Parser A
pure a ts = parsed a ts

-- The value of the enumerator.
abbrev pub ordinal : TokenType → ℕ
ordinal select = 0
ordinal insert = 1
ordinal update = 2
ordinal delete = 3
ordinal create = 4
ordinal drop = 5
ordinal table = 6
ordinal from = 7
ordinal where_word = 8
ordinal into = 9
ordinal values = 10
ordinal set = 11
ordinal and = 12
ordinal or = 13
ordinal not_word = 14
ordinal order = 15
ordinal by = 16
ordinal asc = 17
ordinal desc = 18
ordinal limit = 19
ordinal join = 20
ordinal on = 21
ordinal inner = 22
ordinal left = 23
ordinal identifier = 24
ordinal number = 25
ordinal string = 26
ordinal bool_true = 27
ordinal bool_false = 28
ordinal eq = 29
ordinal neq = 30
ordinal lt = 31
ordinal gt = 32
ordinal lte = 33
ordinal gte = 34
ordinal plus = 35
ordinal minus = 36
ordinal slash = 37
ordinal star = 38
ordinal comma = 39
ordinal semicolon = 40
ordinal lparen = 41
ordinal rparen = 42
ordinal dot = 43
ordinal end_of_file = 44

-- `==` on the enumeration.
abbrev pub same_type : TokenType → TokenType → Bool
same_type a b = nat_beq (ordinal a) (ordinal b)

abbrev pub is_end : Token → Bool
is_end t = same_type t.type end_of_file

-- Parser::peek
unfoldable pub peek : Parser Token
peek [] = undefined
peek (t ∷ ts) = parsed t (t ∷ ts)

-- Parser::advance, as to the position; the token that it returns is the one that was looked at
-- before, in every call of the parser that uses it.
unfoldable pub advance : List Token → List Token
advance [] = []
advance (t ∷ ts) = if is_end t then t ∷ ts else ts

-- Parser::check
unfoldable pub check : TokenType → Parser Bool
check type [] = undefined
check type (t ∷ ts) = parsed (same_type t.type type) (t ∷ ts)

-- Parser::match
unfoldable pub match_type : TokenType → Parser Bool
unfolding advance
match_type type [] = undefined
match_type type (t ∷ ts) =
    if same_type t.type type then parsed true (advance (t ∷ ts)) else parsed false (t ∷ ts)

-- Parser::expect
unfoldable pub expect : TokenType → Text → Parser Token
unfolding advance
expect type msg [] = undefined
expect type msg (t ∷ ts) =
    if same_type t.type type then parsed t (advance (t ∷ ts)) else rejects (expected msg t)

-- advance, with the token that was looked at.
unfoldable pub take_token : Parser Token
unfolding advance
take_token [] = undefined
take_token (t ∷ ts) = parsed t (advance (t ∷ ts))
