-- ===== src/Lexer/Total.antt =====
-- The loop of the lexer ends: each round consumes a character.
use my_database_engine.Common.{
  ℕ, zero, suc, ◌+◌, ◌≤◌, ◌<◌, ◌≡◌, inl, inr, refl, Bool, true, false, not, ◌||◌, Option, none,
  some, List, [], ◌∷◌, ◌++◌, Text, arith, length, nat_beq, Bool-cases, Option-cases,
}
use my_database_engine.Lexer.{
  Token, LexError, Lexed, lexed, fails, out_of_fuel, end_of_file, Cursor, cursor, is_space,
  is_digit, is_alpha, is_word, line_after, col_after, read_while, skip_whitespace,
  skip_line_comment, push, string_loop, read_string_token, read_fraction, read_number_token,
  read_word_token, single, equals_next, read_operator, read_token, starts_comment, push_token,
  tokenize_loop, tokenize, unterminated_string, string, past,
}

read_while_le :
    (p : ℕ → Bool) (rest : Text) (line col : ℕ)
    → length (read_while p rest line col).1.rest ≤ length rest
unfolding read_while
read_while_le p [] line col = omega arith
read_while_le p (c ∷ cs) line col =
    ground (arith, read_while_le p cs (line_after c line) (col_after c col))

read_while_lt :
    (p : ℕ → Bool) (c : ℕ) (cs : Text) (line col : ℕ)
    → p c ≡ true
    → length (read_while p (c ∷ cs) line col).1.rest < length (c ∷ cs)
unfolding read_while
read_while_lt p c cs line col h =
    ground (arith, read_while_le p cs (line_after c line) (col_after c col), h)

-- The text that is left behind a loop of readString.
abbrev StringRest : Text → Option (Text × Cursor) → Type 0
StringRest rest none = Unit
StringRest rest (some (word, s)) = length s.rest ≤ length rest

StringRest-push :
    (c : ℕ) (small large : Text) (r : Option (Text × Cursor))
    → length small ≤ length large
    → StringRest small r
    → StringRest large (push c r)
StringRest-push c small large none h k = tt
StringRest-push c small large (some (word, s)) h k = omega (arith, h, k)

StringRest-string_loop : (rest : Text) (line col : ℕ) → StringRest rest (string_loop rest line col)
unfolding string_loop
StringRest-string_loop [] line col = tt
StringRest-string_loop (c ∷ []) line col = elim (Bool-cases (nat_beq c 39)) [
  | inl t ↦ rw (string_loop, t) (omega arith)
  | inr t ↦ rw (string_loop, t) tt
]
StringRest-string_loop (c ∷ d ∷ cs) line col = elim (Bool-cases (nat_beq c 39)) [
  | inl t ↦ rw (string_loop, t) (omega arith)
  | inr t ↦ elim (Bool-cases (nat_beq c 92)) [
    | inl u ↦
        rw (string_loop, t, u)
          (StringRest-push _ cs (c ∷ d ∷ cs) _ (omega arith)
            (StringRest-string_loop cs (line_after d line) (col_after d (col + 1))))
    | inr u ↦
        rw (string_loop, t, u)
          (StringRest-push c (d ∷ cs) (c ∷ d ∷ cs) _ (omega arith)
            (StringRest-string_loop (d ∷ cs) (line_after c line) (col_after c col)))
  ]
]

-- What reading a token has done: it has consumed its first character, or thrown.
data Reads (rest : Text) : Lexed (Token × Cursor) → Type 0 where
  reads :
      (token : Token) (after : Cursor)
      → length after.rest ≤ length rest
      → Reads rest (lexed (token, after))
  stops : (e : LexError) → Reads rest (fails e)

read_string_token-Reads : (rest : Text) (s : Cursor) → Reads rest (read_string_token rest s)
unfolding read_string_token
read_string_token-Reads rest s =
    go (string_loop rest s.line (s.col + 1)) (StringRest-string_loop rest s.line (s.col + 1))
  where
    close :
        (word left : Text) (l k : ℕ)
        → length left ≤ length rest
        → Reads rest (elim left [
          | [] ↦ fails (unterminated_string s.line s.col)
          | c ∷ cs ↦ lexed (
            record { type = string; value = word; line = s.line; col = s.col },
            past c cs (cursor (c ∷ cs) l k),
          )
        ])
    close word [] l k h = stops _
    close word (c ∷ cs) l k h = reads _ _ (omega (arith, h))

    go :
        (r : Option (Text × Cursor))
        → StringRest rest r
        → Reads rest (elim r [
          | none ↦ fails (unterminated_string s.line s.col)
          | some (word, after) ↦ elim after.rest [
            | [] ↦ fails (unterminated_string s.line s.col)
            | c ∷ cs ↦ lexed (
              record { type = string; value = word; line = s.line; col = s.col },
              past c cs after,
            )
          ]
        ])
    go none h = stops _
    go (some (word, after)) h = close word after.rest after.line after.col h

read_fraction_le :
    (rest : Text) (l k : ℕ) → length (read_fraction (cursor rest l k)).1.rest ≤ length rest
unfolding read_fraction
read_fraction_le [] l k = omega arith
read_fraction_le (c ∷ []) l k = omega arith
read_fraction_le (c ∷ d ∷ ds) l k =
    ground (arith, read_while_le is_digit (d ∷ ds) (line_after c l) (col_after c k))

read_number_token_le :
    (c : ℕ) (rest : Text) (l k : ℕ)
    → is_digit c ≡ true
    → length (read_number_token (cursor (c ∷ rest) l k)).1.rest ≤ length rest
unfolding read_number_token
read_number_token_le c rest l k h =
    let digits = (read_while is_digit (c ∷ rest) l k).1 in
    omega (
      arith,
      read_while_lt is_digit c rest l k h,
      read_fraction_le digits.rest digits.line digits.col,
    )

read_word_token_le :
    (c : ℕ) (rest : Text) (l k : ℕ)
    → is_word c ≡ true
    → length (read_word_token (cursor (c ∷ rest) l k)).1.rest ≤ length rest
unfolding read_word_token
read_word_token_le c rest l k h = omega (arith, read_while_lt is_word c rest l k h)

read_operator-Reads : (c : ℕ) (rest : Text) (s : Cursor) → Reads rest (read_operator c rest s)
unfolding read_operator equals_next
read_operator-Reads c [] s = elim (Bool-cases (nat_beq c 33)) [
  | inl t ↦ rw (read_operator, t) (stops _)
  | inr t ↦ rw (read_operator, t) (reads _ _ (omega arith))
]
read_operator-Reads c (d ∷ ds) s = elim (Bool-cases (nat_beq d 61)) [
  | inl t ↦ rw (read_operator, equals_next, t) (reads _ _ (omega arith))
  | inr t ↦ elim (Bool-cases (nat_beq c 33)) [
    | inl u ↦ rw (read_operator, equals_next, t, u) (stops _)
    | inr u ↦ rw (read_operator, equals_next, t, u) (reads _ _ (omega arith))
  ]
]

read_token-Reads :
    (c : ℕ) (rest : Text) (line col : ℕ)
    → Reads rest (read_token c rest (cursor (c ∷ rest) line col))
unfolding read_token
read_token-Reads c rest line col =
    let at = cursor (c ∷ rest) line col in
    elim (Option-cases (single c)) [
      | inr (type, e) ↦ rw (read_token, e) (reads _ _ (omega arith))
      | inl e ↦ elim (Bool-cases (nat_beq c 62 || nat_beq c 60 || nat_beq c 33)) [
        | inl t ↦ rw (read_token, e, t) (read_operator-Reads c rest (cursor (c ∷ rest) line col))
        | inr t ↦ elim (Bool-cases (nat_beq c 39)) [
          | inl u ↦
              rw (read_token, e, t, u) (read_string_token-Reads rest (cursor (c ∷ rest) line col))
          | inr u ↦ elim (Bool-cases (is_digit c)) [
            | inl d ↦
                let is : read_token c rest at ≡ lexed (read_number_token at) =
                  rw (read_token, e, t, u, d) refl in
                rw is (
                  reads (read_number_token at).0 (read_number_token at).1
                    (read_number_token_le c rest line col d))
            | inr d ↦ elim (Bool-cases (is_alpha c || nat_beq c 95)) [
              | inl a ↦
                  let is : read_token c rest at ≡ lexed (read_word_token at) =
                    rw (read_token, e, t, u, d, a) refl in
                  rw is (
                    reads (read_word_token at).0 (read_word_token at).1
                      (read_word_token_le c rest line col (ground (arith, a))))
              | inr a ↦ rw (read_token, e, t, u, d, a) (stops _)
            ]
          ]
        ]
      ]
    ]

-- The result of tokenize: an exception, or tokens up to the end-of-file token.
pub data Ends : Lexed (List Token) → Type 0 where
  ended : (ts : List Token) (eof : Token) → eof.type ≡ end_of_file → Ends (lexed (ts ++ eof ∷ []))
  stopped : (e : LexError) → Ends (fails e)

Ends-push_token : (t : Token) (r : Lexed (List Token)) → Ends r → Ends (push_token t r)
Ends-push_token t _ (ended ts eof h) = ended (t ∷ ts) eof h
Ends-push_token t _ (stopped e) = stopped e

skip_comment_lt :
    (c : ℕ) (cs : Text) (line col : ℕ)
    → starts_comment (c ∷ cs) ≡ true
    → length (skip_line_comment (cursor (c ∷ cs) line col)).rest ≤ length cs
unfolding skip_line_comment starts_comment
skip_comment_lt c [] line col h = absurd (cc h)
skip_comment_lt c (d ∷ ds) line col h =
    omega (arith, read_while_lt (λ k. not (nat_beq k 10)) c (d ∷ ds) line col (ground (arith, h)))

tokenize_loop-Ends : (f : ℕ) (s : Cursor) → length s.rest < f → Ends (tokenize_loop f s)
unfolding tokenize_loop skip_whitespace
tokenize_loop-Ends zero s h = absurd (omega arith)
tokenize_loop-Ends (suc f) s h =
    let at = skip_whitespace s in
    step (λ s' less. tokenize_loop-Ends f s' less) at.rest at.line at.col
      (omega (arith, h, read_while_le is_space s.rest s.line s.col))
  where
    after_token :
        ((s' : Cursor) → length s'.rest < f → Ends (tokenize_loop f s'))
        → (c : ℕ) (cs : Text) (r : Lexed (Token × Cursor)) → length cs < f
        → Reads cs r
        → Ends (elim r [
          | lexed (token, after) ↦ push_token token (tokenize_loop f after)
          | fails e ↦ fails e
          | out_of_fuel ↦ out_of_fuel
        ])
    after_token again c cs _ k (reads token after less) =
        Ends-push_token token (tokenize_loop f after) (again after (omega (arith, less, k)))
    after_token again c cs _ k (stops e) = stopped e

    step :
        ((s' : Cursor) → length s'.rest < f → Ends (tokenize_loop f s'))
        → (left : Text) (l k : ℕ) → length left < suc f
        → Ends (elim left [
          | [] ↦ lexed (record { type = end_of_file; value = []; line = l; col = k } ∷ [])
          | c ∷ cs ↦ elim (starts_comment (c ∷ cs)) [
            | true ↦ tokenize_loop f (skip_line_comment (cursor (c ∷ cs) l k))
            | false ↦ elim (read_token c cs (cursor (c ∷ cs) l k)) [
              | lexed (token, after) ↦ push_token token (tokenize_loop f after)
              | fails e ↦ fails e
              | out_of_fuel ↦ out_of_fuel
            ]
          ]
        ])
    step again [] l k h' = ended [] _ refl
    step again (c ∷ cs) l k h' = elim (Bool-cases (starts_comment (c ∷ cs))) [
      | inl t ↦ rw t (
          again (skip_line_comment (cursor (c ∷ cs) l k))
            (omega (arith, h', skip_comment_lt c cs l k t)))
      | inr t ↦ rw t (
          after_token again c cs (read_token c cs (cursor (c ∷ cs) l k)) (omega (arith, h'))
            (read_token-Reads c cs l k))
    ]

-- Whatever the text, the loop of tokenize ends within its fuel: it throws, or returns tokens of
-- which the last one is an end-of-file token.
pub tokenize-Ends : (src : Text) → Ends (tokenize src)
unfolding tokenize
tokenize-Ends src = tokenize_loop-Ends (suc (length src)) (cursor src 1 1) (omega arith)
