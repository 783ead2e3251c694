-- ===== src/Lexer/Words.antt =====
-- Words: an identifier or a keyword is read as far as it goes, and its case does not matter.
use my_database_engine.Common.{
  ℕ, ◌≡◌, refl, Bool, true, false, ◌||◌, none, [], ◌∷◌, ◌++◌, Text, arith, All, map, nat_beq,
}
use my_database_engine.Lexer.{
  Token, lexed, Cursor, cursor, is_alpha, is_digit, is_word, line_after, col_after, read_while,
  classify_word, to_upper, read_word_token, single, read_token,
}

-- The text ends, or goes on with a character that belongs to no word.
abbrev pub IsBreak : Text → Type 0
IsBreak [] = Unit
IsBreak (c ∷ cs) = is_word c ≡ false

read_while-append :
    (word rest : Text) (line col : ℕ)
    → All (λ c. is_word c ≡ true) word
    → IsBreak rest
    → ((read_while is_word (word ++ rest) line col).0 ≡ word)
      × ((read_while is_word (word ++ rest) line col).1.rest ≡ rest)
unfolding read_while
read_while-append [] [] line col h b = (refl, refl)
read_while-append [] (c ∷ cs) line col h b = (rw (read_while, b) refl, rw (read_while, b) refl)
read_while-append (c ∷ word) rest line col h b =
    let again = read_while-append word rest (line_after c line) (col_after c col) h.1 b in
    (rw (read_while, h.0, again.0) refl, rw (read_while, h.0) again.1)

single-word : (c : ℕ) → is_word c ≡ true → single c ≡ none
unfolding single
single-word c h = ground arith

-- The first character of a word.
abbrev pub starts_word : ℕ → Bool
starts_word c = is_alpha c || nat_beq c 95

starts_word-cases :
    (c : ℕ)
    → starts_word c ≡ true
    → (is_word c ≡ true)
      × (is_digit c ≡ false)
      × (nat_beq c 39 ≡ false)
      × ((nat_beq c 62 || nat_beq c 60 || nat_beq c 33) ≡ false)
starts_word-cases c h = (ground arith, ground arith, ground arith, ground arith)

-- At a letter or an underscore, followed by characters of a word and then by none, the lexer reads
-- the word to its end and no further: the token has its text, and the type that its upper-case form
-- has among the keywords.
pub read_token-word :
    (c : ℕ) (word rest : Text) (line col : ℕ)
    → starts_word c ≡ true
    → All (λ d. is_word d ≡ true) word
    → IsBreak rest
    → (token : Token) × (after : Cursor) × (read_token c
          (word ++ rest)
          (cursor (c ∷ word ++ rest) line col)
        ≡ lexed (token, after))
      × (token.value ≡ c ∷ word)
      × (token.type ≡ classify_word (map to_upper (c ∷ word)))
      × (after.rest ≡ rest)
unfolding read_token read_word_token
read_token-word c word rest line col h all b =
    let at = cursor (c ∷ word ++ rest) line col in
    let facts = starts_word-cases c h in
    let read = read_while-append (c ∷ word) rest line col (facts.0, all) b in
    let is : read_token c (word ++ rest) at ≡ lexed (read_word_token at) =
      rw (read_token, single-word c facts.0, facts.3, facts.2, facts.1, h) refl in
    ((read_word_token at).0, (read_word_token at).1, is, read.0, rw (read.0) refl, read.1)
