-- ===== src/Parser/Statement.antt =====
-- src/parser.cpp: the statements and parse. The fuel is passed on to the clauses and the expressions.
use my_database_engine.Common.{
  ℕ, zero, suc, ◌+◌, ◌*◌, true, false, List, [], ◌∷◌, Text, codes, length, text_beq, if◌then◌else◌,
}
use my_database_engine.Ast.{
  Expr, ColumnDef, SelectStatement, InsertStatement, UpdateStatement, DeleteStatement,
  CreateTableStatement, DropTableStatement, Statement,
}
use my_database_engine.Lexer.{
  TokenType, Token, select, insert, update, delete, create, drop, table, from, into, values, set,
  not_word, identifier, eq, star, semicolon, lparen, rparen,
}
use my_database_engine.Parser.{
  unexpected, parsed, rejects, undefined, out_of_fuel, Parser, and_then, ◌>>=◌, ◌>>◌, pure,
  same_type, peek, advance, check, expect, match_type, take_token,
}
use my_database_engine.Parser.Expression.{parse_expression}
use my_database_engine.Parser.Clause.{
  comma_list, parse_name, parse_column_list, parse_where_clause, parse_order_by_clause,
  parse_limit_clause,
}

-- parseSelect
unfoldable pub parse_select : ℕ → Parser SelectStatement
unfolding check take_token expect parse_name parse_column_list parse_where_clause
    parse_order_by_clause parse_limit_clause
parse_select f = do
  expect select (codes "Expected SELECT")
  all ← check star
  let one = do take_token; pure (codes "*" ∷ [])
  columns ← (if all then one else parse_column_list f)
  expect from (codes "Expected FROM after column list")
  name ← parse_name (codes "Expected table name")
  where_clause ← parse_where_clause f
  order_by ← parse_order_by_clause f
  limit_clause ← parse_limit_clause
  pure (record {
    columns = columns;
    table = name;
    where_clause = where_clause;
    order_by = order_by;
    limit = limit_clause;
  })

-- parseInsert
unfoldable pub parse_insert : ℕ → Parser InsertStatement
unfolding expect parse_name parse_column_list comma_list
parse_insert f = do
  expect insert (codes "Expected INSERT")
  expect into (codes "Expected INTO after INSERT")
  name ← parse_name (codes "Expected table name")
  expect lparen (codes "Expected '(' before column list")
  columns ← parse_column_list f
  expect rparen (codes "Expected ')' after column list")
  expect values (codes "Expected VALUES")
  expect lparen (codes "Expected '(' before values")
  exprs ← comma_list f (parse_expression f)
  expect rparen (codes "Expected ')' after values")
  pure (record { table = name; columns = columns; values = exprs })

-- One round of the loop of parseUpdate.
unfoldable pub parse_assignment : ℕ → Parser (Text × Expr)
unfolding expect parse_name
parse_assignment f = do
  column ← parse_name (codes "Expected column name")
  expect eq (codes "Expected '=' after column name")
  e ← parse_expression f
  pure (column, e)

-- parseUpdate
unfoldable pub parse_update : ℕ → Parser UpdateStatement
unfolding expect parse_name comma_list parse_assignment parse_where_clause
parse_update f = do
  expect update (codes "Expected UPDATE")
  name ← parse_name (codes "Expected table name")
  expect set (codes "Expected SET after table name")
  assignments ← comma_list f (parse_assignment f)
  where_clause ← parse_where_clause f
  pure (record { table = name; assignments = assignments; where_clause = where_clause })

-- parseDelete
unfoldable pub parse_delete : ℕ → Parser DeleteStatement
unfolding expect parse_name parse_where_clause
parse_delete f = do
  expect delete (codes "Expected DELETE")
  expect from (codes "Expected FROM after DELETE")
  name ← parse_name (codes "Expected table name")
  where_clause ← parse_where_clause f
  pure (record { table = name; where_clause = where_clause })

-- The loop of parseColumnDef over the constraints.
unfoldable pub constraint_loop : ℕ → ColumnDef → Parser ColumnDef
unfolding advance expect text_beq
constraint_loop zero def ts = out_of_fuel
constraint_loop (suc f) def [] = undefined
constraint_loop (suc f) def (t ∷ ts) =
    let primary =
      and_then (expect identifier (codes "Expected KEY after PRIMARY") (advance (t ∷ ts)))
        (λ _. constraint_loop f (record def { primary_key = true })) in
    let not_null =
      and_then (expect identifier (codes "Expected NULL after NOT") (advance (t ∷ ts)))
        (λ _. constraint_loop f (record def { not_null = true })) in
    if text_beq t.value (codes "PRIMARY")
    then primary
    else if same_type t.type not_word
    then not_null
    else parsed def (t ∷ ts)

-- parseColumnDef
unfoldable pub parse_column_def : ℕ → Parser ColumnDef
unfolding parse_name constraint_loop
parse_column_def f = do
  name ← parse_name (codes "Expected column name")
  type ← parse_name (codes "Expected type (INT, TEXT...)")
  constraint_loop f (record { name = name; type = type; primary_key = false; not_null = false })

-- parseCreateTable
unfoldable pub parse_create_table : ℕ → Parser CreateTableStatement
unfolding expect parse_name comma_list parse_column_def
parse_create_table f = do
  expect create (codes "Expected CREATE")
  expect table (codes "Expected TABLE after CREATE")
  name ← parse_name (codes "Expected table name")
  expect lparen (codes "Expected '(' before column definitions")
  columns ← comma_list f (parse_column_def f)
  expect rparen (codes "Expected ')' after column definitions")
  pure (record { table = name; columns = columns })

-- parseDropTable
unfoldable pub parse_drop_table : Parser DropTableStatement
unfolding expect parse_name
parse_drop_table = do
  expect drop (codes "Expected DROP")
  expect table (codes "Expected TABLE after DROP")
  name ← parse_name (codes "Expected table name")
  pure (record { table = name })

-- The cases of parseStatement.
unfoldable pub parse_by_type : ℕ → TokenType → Token → Parser Statement
unfolding parse_select parse_insert parse_update parse_delete parse_create_table parse_drop_table
parse_by_type f select t = do s ← parse_select f; pure (Statement.select s)
parse_by_type f insert t = do s ← parse_insert f; pure (Statement.insert s)
parse_by_type f update t = do s ← parse_update f; pure (Statement.update s)
parse_by_type f delete t = do s ← parse_delete f; pure (Statement.delete s)
parse_by_type f create t = do s ← parse_create_table f; pure (Statement.create_table s)
parse_by_type f drop t = do s ← parse_drop_table; pure (Statement.drop_table s)
parse_by_type f _ t =
    λ ts. rejects (unexpected (codes "Expected SELECT, INSERT, UPDATE, DELETE, CREATE or DROP") t)

-- parseStatement
unfoldable pub parse_statement : ℕ → Parser Statement
unfolding parse_by_type peek
parse_statement f = do t ← peek; parse_by_type f t.type t

-- The fuel for so many tokens: a parenthesis costs four calls.
abbrev pub parse_fuel : List Token → ℕ
parse_fuel ts = 4 * length ts + 4

-- Parser::parse, with the tokens that it leaves.
unfoldable pub parse : Parser Statement
unfolding parse_statement match_type
parse ts =
    and_then (parse_statement (parse_fuel ts) ts)
      λ s rest. and_then (match_type semicolon rest) λ _. pure s
