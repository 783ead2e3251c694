-- ===== src/Parser/Total/Statements.antt =====
-- Each clause and each statement ends, and so does parse.
use my_database_engine.Common.{
  ℕ, zero, suc, ◌+◌, ◌*◌, ◌≤◌, ◌<◌, ◌≡◌, inl, inr, refl, Bool, true, false, none, some, List, [],
  ◌∷◌, ◌++◌, Text, codes, arith, length, if◌then◌else◌, Bool-cases, List-cases, text_beq,
}
use my_database_engine.Ast.{ColumnDef, Statement}
use my_database_engine.Lexer
use my_database_engine.Lexer.{
  TokenType, Token, end_of_file, LexError, Lexed, lexed, fails, tokenize,
}
use my_database_engine.Lexer.Total.{Ends, ended, stopped, tokenize-Ends}
use my_database_engine.Parser.{
  ParseFailure, Parsed, parsed, rejects, undefined, out_of_fuel, and_then, pure, same_type, is_end,
  peek, check, expect, match_type, take_token, advance,
}
use my_database_engine.Parser.Expression.{parse_expression}
use my_database_engine.Parser.Clause.{
  comma_list, parse_name, parse_column_list, parse_where_clause, parse_order_by_clause, skip_spaces,
  signed_number, stoi, parse_limit_clause,
}
use my_database_engine.Parser.Statement.{
  parse_select, parse_insert, parse_assignment, parse_update, parse_delete, constraint_loop,
  parse_column_def, parse_create_table, parse_drop_table, parse_by_type, parse_statement,
  parse_fuel, parse,
}
use my_database_engine.Parser.Total.{
  HasEnd, Within, Within-and_then, Within-le, Within-branch, advance-HasEnd, expect-Within,
}
use my_database_engine.Parser.Total.Clauses.{
  Reads, Eats, Reads-Eats, Reads-pure, Reads-rejects, Reads-if, Reads-bind, Eats-bind, Reads-eat,
  Eats-expect, Reads-match_type, Eats-parse_expression, Eats-parse_name, Eats-comma_list,
  Eats-parse_column_list, Reads-parse_where_clause, Reads-parse_order_by_clause,
}

module _ (f : ℕ) where
  Reads-signed_number :
      (source : Text) (negative : Bool) (digits : Text)
      → Reads f (signed_number source negative digits)
  unfolding signed_number
  Reads-signed_number source negative digits = Reads-if f _ _ _ (Reads-rejects f _) (
      Reads-if f negative _ _ (Reads-if f _ _ _ (Reads-pure f _) (Reads-rejects f _))
        (Reads-if f _ _ _ (Reads-pure f _) (Reads-rejects f _)))

  Reads-stoi : (source : Text) → Reads f (stoi source)
  unfolding stoi
  Reads-stoi source = elim (List-cases (skip_spaces source)) [
    | inl e ↦ rw (stoi, e) (Reads-rejects f _)
    | inr (c, cs, e) ↦
        rw (stoi, e)
          (Reads-if f _ _ _ (Reads-signed_number source true cs) (
            Reads-if f _ _ _ (Reads-signed_number source false cs)
              (Reads-signed_number source false (c ∷ cs))))
  ]

  Reads-parse_limit_clause : Reads f parse_limit_clause
  unfolding parse_limit_clause
  Reads-parse_limit_clause =
      Reads-bind f (match_type Lexer.limit) _ (Reads-match_type f Lexer.limit refl) λ found.
        Reads-if f found _ _
          (Reads-eat f (expect Lexer.number _) _ (Eats-expect f Lexer.number _ refl) λ num.
            Reads-bind f (stoi num.value) _ (Reads-stoi num.value) λ n. Reads-pure f (some n))
          (Reads-pure f none)

  Reads-take_token : Reads f take_token
  unfolding take_token advance
  Reads-take_token = record { within = λ ts. go ts }
    where
      go :
          (ts : List Token)
          → HasEnd ts
          → 4 * length ts + 4 ≤ f
          → Within (suc (length ts)) (take_token ts)
      go [] h k = absurd h
      go (t ∷ ts) h k = elim (Bool-cases (is_end t)) [
        | inl e ↦ rw (take_token, advance, e) (h, omega arith)
        | inr e ↦
            let passed = advance-HasEnd t ts h e in
            rw (take_token, passed.0) (passed.1, omega arith)
      ]

  Reads-peek : Reads f peek
  unfolding peek
  Reads-peek = record { within = λ ts. go ts }
    where
      go :
          (ts : List Token) → HasEnd ts → 4 * length ts + 4 ≤ f → Within (suc (length ts)) (peek ts)
      go [] h k = absurd h
      go (t ∷ ts) h k = (h, omega arith)

  Reads-check_star : Reads f (check Lexer.star)
  unfolding check
  Reads-check_star = record { within = λ ts. go ts }
    where
      go :
          (ts : List Token)
          → HasEnd ts
          → 4 * length ts + 4 ≤ f
          → Within (suc (length ts)) (check Lexer.star ts)
      go [] h k = absurd h
      go (t ∷ ts) h k = (h, omega arith)

  Reads-parse_select : Reads f (parse_select f)
  unfolding parse_select
  Reads-parse_select =
      Reads-eat f (expect Lexer.select _) _ (Eats-expect f Lexer.select _ refl) λ _.
        Reads-bind f (check Lexer.star) _ Reads-check_star λ all.
          Reads-bind f (if all then _ else parse_column_list f) _
            (Reads-if f all _ (parse_column_list f)
              (Reads-bind f take_token _ Reads-take_token λ _. Reads-pure f _)
              (Reads-Eats f _ (Eats-parse_column_list f)))
            λ columns. Reads-eat f (expect Lexer.from _) _ (Eats-expect f Lexer.from _ refl) λ _.
              Reads-eat f (parse_name _) _ (Eats-parse_name f _) λ name.
                Reads-bind f (parse_where_clause f) _ (Reads-parse_where_clause f) λ where_clause.
                  Reads-bind f (parse_order_by_clause f) _ (Reads-parse_order_by_clause f)
                    λ order_by.
                      Reads-bind f parse_limit_clause _ Reads-parse_limit_clause
                        λ limit_clause. Reads-pure f _

  Reads-parse_insert : Reads f (parse_insert f)
  unfolding parse_insert
  Reads-parse_insert =
      Reads-eat f (expect Lexer.insert _) _ (Eats-expect f Lexer.insert _ refl) λ _.
        Reads-eat f (expect Lexer.into _) _ (Eats-expect f Lexer.into _ refl) λ _.
          Reads-eat f (parse_name _) _ (Eats-parse_name f _) λ name.
            Reads-eat f (expect Lexer.lparen _) _ (Eats-expect f Lexer.lparen _ refl) λ _.
              Reads-eat f (parse_column_list f) _ (Eats-parse_column_list f) λ columns.
                Reads-eat f (expect Lexer.rparen _) _ (Eats-expect f Lexer.rparen _ refl) λ _.
                  Reads-eat f (expect Lexer.values _) _ (Eats-expect f Lexer.values _ refl) λ _.
                    Reads-eat f (expect Lexer.lparen _) _ (Eats-expect f Lexer.lparen _ refl) λ _.
                      Reads-eat f (comma_list f (parse_expression f)) _
                        (Eats-comma_list f (parse_expression f) (Eats-parse_expression f))
                        λ exprs.
                          Reads-eat f (expect Lexer.rparen _) _ (Eats-expect f Lexer.rparen _ refl)
                            λ _. Reads-pure f _

  Eats-parse_assignment : Eats f (parse_assignment f)
  unfolding parse_assignment
  Eats-parse_assignment = Eats-bind f (parse_name _) _ (Eats-parse_name f _) λ column.
      Reads-eat f (expect Lexer.eq _) _ (Eats-expect f Lexer.eq _ refl) λ _.
        Reads-eat f (parse_expression f) _ (Eats-parse_expression f) λ e. Reads-pure f (column, e)

  Reads-parse_update : Reads f (parse_update f)
  unfolding parse_update
  Reads-parse_update =
      Reads-eat f (expect Lexer.update _) _ (Eats-expect f Lexer.update _ refl) λ _.
        Reads-eat f (parse_name _) _ (Eats-parse_name f _) λ name.
          Reads-eat f (expect Lexer.set _) _ (Eats-expect f Lexer.set _ refl) λ _.
            Reads-eat f (comma_list f (parse_assignment f)) _
              (Eats-comma_list f (parse_assignment f) Eats-parse_assignment)
              λ assignments.
                Reads-bind f (parse_where_clause f) _ (Reads-parse_where_clause f)
                  λ where_clause. Reads-pure f _

  Reads-parse_delete : Reads f (parse_delete f)
  unfolding parse_delete
  Reads-parse_delete =
      Reads-eat f (expect Lexer.delete _) _ (Eats-expect f Lexer.delete _ refl) λ _.
        Reads-eat f (expect Lexer.from _) _ (Eats-expect f Lexer.from _ refl) λ _.
          Reads-eat f (parse_name _) _ (Eats-parse_name f _) λ name.
            Reads-bind f (parse_where_clause f) _ (Reads-parse_where_clause f)
              λ where_clause. Reads-pure f _

  advance-Within :
      (t : Token) (ts : List Token)
      → HasEnd (t ∷ ts)
      → HasEnd (advance (t ∷ ts)) × (length (advance (t ∷ ts)) ≤ suc (length ts))
  unfolding advance
  advance-Within t ts h = elim (Bool-cases (is_end t)) [
    | inl e ↦ rw (advance, e) (h, omega arith)
    | inr e ↦ let passed = advance-HasEnd t ts h e in rw (passed.0) (passed.1, omega arith)
  ]

  -- A constraint of two tokens, and what the loop does behind it.
  constraint_step :
      (g : ℕ) (def : ColumnDef) (msg : Text) (t : Token) (ts : List Token)
      → HasEnd (t ∷ ts)
      → ((rest : List Token)
          → HasEnd rest
          → length rest < suc (length ts)
          → Within (suc (length rest)) (constraint_loop g def rest))
      → Within
          (suc (suc (length ts)))
          (and_then (expect Lexer.identifier msg (advance (t ∷ ts))) (λ _. constraint_loop g def))
  constraint_step g def msg t ts h again =
      let at = advance-Within t ts h in
      Within-and_then (length (advance (t ∷ ts))) (suc (suc (length ts)))
        (expect Lexer.identifier msg (advance (t ∷ ts))) (λ _. constraint_loop g def)
        (expect-Within Lexer.identifier msg (advance (t ∷ ts)) refl at.0)
        λ u rest end less.
          Within-le (suc (length rest)) (suc (suc (length ts))) (constraint_loop g def rest)
            (omega (arith, less, at.1)) (again rest end (omega (arith, less, at.1)))

  constraint_loop-Within :
      (g : ℕ) (def : ColumnDef) (ts : List Token)
      → HasEnd ts
      → length ts < g
      → Within (suc (length ts)) (constraint_loop g def ts)
  unfolding constraint_loop
  constraint_loop-Within zero def ts h l = absurd (omega arith)
  constraint_loop-Within (suc g) def [] h l = absurd h
  constraint_loop-Within (suc g) def (t ∷ ts) h l =
      let primary = record def { primary_key = true } in
      let not_null = record def { not_null = true } in
      Within-branch (suc (suc (length ts))) (text_beq t.value (codes "PRIMARY")) _ _
        (constraint_step g primary _ t ts h
          λ rest end less. constraint_loop-Within g primary rest end (omega arith))
        (Within-branch (suc (suc (length ts))) (same_type t.type Lexer.not_word) _ _
          (constraint_step g not_null _ t ts h
            λ rest end less. constraint_loop-Within g not_null rest end (omega arith))
          (h, omega arith))

  Eats-parse_column_def : Eats f (parse_column_def f)
  unfolding parse_column_def
  Eats-parse_column_def = Eats-bind f (parse_name _) _ (Eats-parse_name f _) λ name.
      Reads-eat f (parse_name _) _ (Eats-parse_name f _)
        λ type. record { within = λ ts h k. constraint_loop-Within f _ ts h (omega arith) }

  Reads-parse_create_table : Reads f (parse_create_table f)
  unfolding parse_create_table
  Reads-parse_create_table =
      Reads-eat f (expect Lexer.create _) _ (Eats-expect f Lexer.create _ refl) λ _.
        Reads-eat f (expect Lexer.table _) _ (Eats-expect f Lexer.table _ refl) λ _.
          Reads-eat f (parse_name _) _ (Eats-parse_name f _) λ name.
            Reads-eat f (expect Lexer.lparen _) _ (Eats-expect f Lexer.lparen _ refl) λ _.
              Reads-eat f (comma_list f (parse_column_def f)) _
                (Eats-comma_list f (parse_column_def f) Eats-parse_column_def)
                λ columns.
                  Reads-eat f (expect Lexer.rparen _) _ (Eats-expect f Lexer.rparen _ refl)
                    λ _. Reads-pure f _

  Reads-parse_drop_table : Reads f parse_drop_table
  unfolding parse_drop_table
  Reads-parse_drop_table =
      Reads-eat f (expect Lexer.drop _) _ (Eats-expect f Lexer.drop _ refl) λ _.
        Reads-eat f (expect Lexer.table _) _ (Eats-expect f Lexer.table _ refl)
          λ _. Reads-eat f (parse_name _) _ (Eats-parse_name f _) λ name. Reads-pure f _

  Reads-parse_by_type : (type : TokenType) (t : Token) → Reads f (parse_by_type f type t)
  unfolding parse_by_type
  Reads-parse_by_type Lexer.select t =
      Reads-bind f (parse_select f) _ Reads-parse_select λ s. Reads-pure f _
  Reads-parse_by_type Lexer.insert t =
      Reads-bind f (parse_insert f) _ Reads-parse_insert λ s. Reads-pure f _
  Reads-parse_by_type Lexer.update t =
      Reads-bind f (parse_update f) _ Reads-parse_update λ s. Reads-pure f _
  Reads-parse_by_type Lexer.delete t =
      Reads-bind f (parse_delete f) _ Reads-parse_delete λ s. Reads-pure f _
  Reads-parse_by_type Lexer.create t =
      Reads-bind f (parse_create_table f) _ Reads-parse_create_table λ s. Reads-pure f _
  Reads-parse_by_type Lexer.drop t =
      Reads-bind f parse_drop_table _ Reads-parse_drop_table λ s. Reads-pure f _
  Reads-parse_by_type _ t = Reads-rejects f _

  Reads-parse_statement : Reads f (parse_statement f)
  unfolding parse_statement
  Reads-parse_statement = Reads-bind f peek _ Reads-peek λ t. Reads-parse_by_type t.type t

-- On tokens with an end-of-file token the parser ends within its fuel: it throws, or returns a
-- statement and leaves an end-of-file token; it never reads behind the last token.
pub parse-Within : (ts : List Token) → HasEnd ts → Within (suc (length ts)) (parse ts)
unfolding parse
parse-Within ts h =
    let f = parse_fuel ts in
    let whole = Reads-bind f (parse_statement f) _ (Reads-parse_statement f) λ s.
      Reads-bind f (match_type Lexer.semicolon) (λ _. pure s)
        (Reads-match_type f Lexer.semicolon refl) λ _. Reads-pure f s in
    whole.within ts h (omega arith)

HasEnd-append : (ts : List Token) (t : Token) → t.type ≡ end_of_file → HasEnd (ts ++ t ∷ [])
HasEnd-append [] t e = inl (rw e refl)
HasEnd-append (u ∷ ts) t e = inr (HasEnd-append ts t e)

-- What parsing a text gives: the lexer throws, or the parser throws or returns a statement.
pub data Answers (src : Text) : Type 0 where
  lexer_fails : (e : LexError) → tokenize src ≡ fails e → Answers src
  parser_rejects :
      (ts : List Token) (e : ParseFailure)
      → tokenize src ≡ lexed ts
      → parse ts ≡ rejects e
      → Answers src
  answers :
      (ts : List Token) (s : Statement) (rest : List Token)
      → tokenize src ≡ lexed ts
      → parse ts ≡ parsed s rest
      → Answers src

parse-cases :
    (ts : List Token) (src : Text) (r : Parsed Statement)
    → tokenize src ≡ lexed ts
    → parse ts ≡ r
    → Within (suc (length ts)) r
    → Answers src
parse-cases ts src (parsed s rest) e k h = answers ts s rest e k
parse-cases ts src (rejects x) e k h = parser_rejects ts x e k
parse-cases ts src undefined e k h = absurd h
parse-cases ts src out_of_fuel e k h = absurd h

-- Whatever the text, lexer and parser end: one of them throws, or a statement is returned. Neither
-- runs out of fuel, and the parser reads no token that is not there.
pub parse-tokenize : (src : Text) → Answers src
parse-tokenize src = go (tokenize src) (tokenize-Ends src) refl
  where
    go : (r : Lexed (List Token)) → Ends r → tokenize src ≡ r → Answers src
    go _ (ended ts eof k) e =
        parse-cases (ts ++ eof ∷ []) src (parse (ts ++ eof ∷ [])) e refl
          (parse-Within (ts ++ eof ∷ []) (HasEnd-append ts eof k))
    go _ (stopped x) e = lexer_fails x e
