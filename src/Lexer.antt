-- ===== src/Lexer.antt =====
-- include/token.h, include/lexer.h and src/lexer.cpp: the tokens of a text. The position is modelled
-- by the text that is left; reading past its end gives '\0', as src_[src_.size()] does.
pub mod Total
pub mod Words
mod Examples
use my_database_engine.Common.{
  ℕ, zero, suc, ◌+◌, ◌-◌, Bool, true, false, not, ◌&&◌, ◌||◌, Option, none, some, List, [], ◌∷◌,
  ◌++◌, Text, codes, map, length, leb, nat_beq, if◌then◌else◌, Dict, find, text_key, text_beq,
}

pub data TokenType : Type 0 where
  select insert update delete create drop table from where_word into values set : TokenType
  and or not_word order by asc desc limit join on inner left : TokenType
  identifier number string bool_true bool_false : TokenType
  eq neq lt gt lte gte plus minus slash star : TokenType
  comma semicolon lparen rparen dot end_of_file : TokenType

pub record Token : Type 0 where
  pub type : TokenType
  pub value : Text
  pub line : ℕ
  pub col : ℕ

-- The exceptions of tokenize.
pub data LexError : Type 0 where
  unterminated_string : ℕ → ℕ → LexError
  expected_equals : ℕ → LexError
  unknown_character : ℕ → ℕ → ℕ → LexError

pub data Lexed {ℓ} (A : Type ℓ) : Type ℓ where
  lexed : A → Lexed A
  fails : LexError → Lexed A
  out_of_fuel : Lexed A

-- src_ from pos_ on, line_ and col_ (ints, which no text of less than 2^31 bytes brings to their
-- limit).
pub record Cursor : Type 0 where
  pub rest : Text
  pub line : ℕ
  pub col : ℕ

-- The classes of <cctype> in the "C" locale.
abbrev pub is_between : ℕ → ℕ → ℕ → Bool
is_between low high c = leb low c && leb c high

abbrev pub is_space : ℕ → Bool
is_space c = is_between 9 13 c || nat_beq c 32

abbrev pub is_digit : ℕ → Bool
is_digit = is_between 48 57

abbrev pub is_alpha : ℕ → Bool
is_alpha c = is_between 65 90 c || is_between 97 122 c

abbrev pub is_word : ℕ → Bool
is_word c = is_alpha c || is_digit c || nat_beq c 95

unfoldable pub to_upper : ℕ → ℕ
to_upper c = if is_between 97 122 c then c - 32 else c

-- advance, past a character.
abbrev pub line_after : ℕ → ℕ → ℕ
line_after c line = if nat_beq c 10 then line + 1 else line

abbrev pub col_after : ℕ → ℕ → ℕ
col_after c col = if nat_beq c 10 then 1 else col + 1

abbrev pub cursor : Text → ℕ → ℕ → Cursor
cursor rest line col = record { rest = rest; line = line; col = col }

abbrev pub past : ℕ → Text → Cursor → Cursor
past c rest s = cursor rest (line_after c s.line) (col_after c s.col)

-- `while (!isAtEnd() && p(peek())) value += advance();`
unfoldable pub read_while : (ℕ → Bool) → Text → ℕ → ℕ → Text × Cursor
read_while p [] line col = ([], cursor [] line col)
read_while p (c ∷ cs) line col =
    let (word, after) = read_while p cs (line_after c line) (col_after c col) in
    if p c then (c ∷ word, after) else ([], cursor (c ∷ cs) line col)

unfoldable pub skip_whitespace : Cursor → Cursor
unfolding read_while
skip_whitespace s = (read_while is_space s.rest s.line s.col).1

unfoldable pub skip_line_comment : Cursor → Cursor
unfolding read_while
skip_line_comment s = (read_while (λ c. not (nat_beq c 10)) s.rest s.line s.col).1

-- The escape sequences \n and \t; each other character stands for itself.
unfoldable pub unescape : ℕ → ℕ
unescape c = if nat_beq c 110 then 10 else if nat_beq c 116 then 9 else c

abbrev pub push : ℕ → Option (Text × Cursor) → Option (Text × Cursor)
push c none = none
push c (some (word, s)) = some (c ∷ word, s)

-- The loop of readString, up to the closing quote; `none` if the text ends before it.
unfoldable pub string_loop : Text → ℕ → ℕ → Option (Text × Cursor)
unfolding unescape
string_loop [] line col = none
string_loop (c ∷ []) line col = if nat_beq c 39 then some ([], cursor (c ∷ []) line col) else none
string_loop (c ∷ d ∷ cs) line col = elim (nat_beq c 39) [
  | true ↦ some ([], cursor (c ∷ d ∷ cs) line col)
  | false ↦ elim (nat_beq c 92) [
    | true ↦ push (unescape d) (string_loop cs (line_after d line) (col_after d (col + 1)))
    | false ↦ push c (string_loop (d ∷ cs) (line_after c line) (col_after c col))
  ]
]

-- readString, behind the opening quote.
unfoldable pub read_string_token : Text → Cursor → Lexed (Token × Cursor)
unfolding string_loop
read_string_token rest s = elim (string_loop rest s.line (s.col + 1)) [
  | none ↦ fails (unterminated_string s.line s.col)
  | some (word, after) ↦ elim after.rest [
    | [] ↦ fails (unterminated_string s.line s.col)
    | c ∷ cs ↦
        lexed (record { type = string; value = word; line = s.line; col = s.col }, past c cs after)
  ]
]

-- The decimal part of readNumber.
unfoldable pub read_fraction : Cursor → Text × Cursor
unfolding read_while
read_fraction s = elim s.rest [
  | [] ↦ ([], s)
  | c ∷ cs ↦ elim cs [
    | [] ↦ ([], s)
    | d ∷ ds ↦
        let (digits, after) =
          read_while is_digit (d ∷ ds) (line_after c s.line) (col_after c s.col) in
        if nat_beq c 46 && is_digit d then (c ∷ digits, after) else ([], s)
  ]
]

unfoldable pub read_number_token : Cursor → Token × Cursor
unfolding read_while read_fraction
read_number_token s =
    let (digits, after) = read_while is_digit s.rest s.line s.col in
    let (fraction, after') = read_fraction after in
    (record { type = number; value = digits ++ fraction; line = s.line; col = s.col }, after')

abbrev pub keywords : Dict Text TokenType
keywords =
    (codes "SELECT", select)
    ∷ (codes "INSERT", insert)
    ∷ (codes "UPDATE", update)
    ∷ (codes "DELETE", delete)
    ∷ (codes "CREATE", create)
    ∷ (codes "DROP", drop)
    ∷ (codes "TABLE", table)
    ∷ (codes "FROM", from)
    ∷ (codes "WHERE", where_word)
    ∷ (codes "INTO", into)
    ∷ (codes "VALUES", values)
    ∷ (codes "SET", set)
    ∷ (codes "AND", and)
    ∷ (codes "OR", or)
    ∷ (codes "NOT", not_word)
    ∷ (codes "ORDER", order)
    ∷ (codes "BY", by)
    ∷ (codes "ASC", asc)
    ∷ (codes "DESC", desc)
    ∷ (codes "LIMIT", limit)
    ∷ (codes "JOIN", join)
    ∷ (codes "ON", on)
    ∷ (codes "INNER", inner)
    ∷ (codes "LEFT", left)
    ∷ (codes "TRUE", bool_true)
    ∷ (codes "FALSE", bool_false)
    ∷ []

unfoldable pub classify_word : Text → TokenType
unfolding find text_beq
classify_word upper = elim (find upper keywords) [ none ↦ identifier | some type ↦ type ]

-- readIdentifierOrKeyword
unfoldable pub read_word_token : Cursor → Token × Cursor
unfolding read_while classify_word to_upper
read_word_token s =
    let (word, after) = read_while is_word s.rest s.line s.col in
    (
      record { type = classify_word (map to_upper word); value = word; line = s.line; col = s.col },
      after,
    )

-- The tokens of one character.
unfoldable pub single : ℕ → Option TokenType
single c =
    if nat_beq c 44
    then some comma
    else if nat_beq c 59
    then some semicolon
    else if nat_beq c 40
    then some lparen
    else if nat_beq c 41
    then some rparen
    else if nat_beq c 46
    then some dot
    else if nat_beq c 43
    then some plus
    else if nat_beq c 47
    then some slash
    else if nat_beq c 42
    then some star
    else if nat_beq c 61
    then some eq
    else if nat_beq c 45
    then some minus
    else none

-- Is the next character `=`?
unfoldable pub equals_next : Text → Option Text
equals_next [] = none
equals_next (c ∷ cs) = if nat_beq c 61 then some cs else none

-- A token with this text, behind which so many columns are gone.
abbrev pub emit : TokenType → Text → ℕ → Text → Cursor → Lexed (Token × Cursor)
emit type value width rest s = lexed (
  record { type = type; value = value; line = s.line; col = s.col },
  cursor rest s.line (s.col + width),
)

-- The operators > >= < <= !=
unfoldable pub read_operator : ℕ → Text → Cursor → Lexed (Token × Cursor)
unfolding equals_next
read_operator c rest s = elim (equals_next rest) [
  | some cs ↦
      emit (if nat_beq c 62 then gte else if nat_beq c 60 then lte else neq) (c ∷ 61 ∷ []) 2 cs s
  | none ↦
      if nat_beq c 33
      then fails (expected_equals s.line)
      else emit (if nat_beq c 62 then gt else lt) (c ∷ []) 1 rest s
]

-- One round of the loop of tokenize, at a character that is no space and starts no comment.
unfoldable pub read_token : ℕ → Text → Cursor → Lexed (Token × Cursor)
unfolding single read_operator read_string_token read_number_token read_word_token
read_token c rest s = elim (single c) [
  | some type ↦ emit type (c ∷ []) 1 rest s
  | none ↦
      if nat_beq c 62 || nat_beq c 60 || nat_beq c 33
      then read_operator c rest s
      else if nat_beq c 39
      then read_string_token rest s
      else if is_digit c
      then lexed (read_number_token s)
      else if is_alpha c || nat_beq c 95
      then lexed (read_word_token s)
      else fails (unknown_character c s.line s.col)
]

unfoldable pub starts_comment : Text → Bool
starts_comment (c ∷ d ∷ cs) = nat_beq c 45 && nat_beq d 45
starts_comment _ = false

abbrev pub push_token : Token → Lexed (List Token) → Lexed (List Token)
push_token t (lexed ts) = lexed (t ∷ ts)
push_token t other = other

-- The loop of tokenize. Each round consumes a character, so one round more than the text has
-- characters is enough.
unfoldable pub tokenize_loop : ℕ → Cursor → Lexed (List Token)
unfolding skip_whitespace skip_line_comment read_token starts_comment
tokenize_loop zero s = out_of_fuel
tokenize_loop (suc f) s =
    let at = skip_whitespace s in
    elim at.rest [
      | [] ↦ lexed (record { type = end_of_file; value = []; line = at.line; col = at.col } ∷ [])
      | c ∷ cs ↦
          let here = cursor (c ∷ cs) at.line at.col in
          elim (starts_comment (c ∷ cs)) [
            | true ↦ tokenize_loop f (skip_line_comment here)
            | false ↦ elim (read_token c cs here) [
              | lexed (token, after) ↦ push_token token (tokenize_loop f after)
              | fails e ↦ fails e
              | out_of_fuel ↦ out_of_fuel
            ]
          ]
    ]

-- Lexer::tokenize, on a new lexer for the text.
unfoldable pub tokenize : Text → Lexed (List Token)
unfolding tokenize_loop
tokenize src = tokenize_loop (suc (length src)) (cursor src 1 1)
