-- ===== src/Ast.antt =====
-- include/ast.h: expressions, clauses and statements; include/row.h: rows.
use my_database_engine.Common.{Bool, Option, List, Text, Dict}
use my_database_engine.Common.Int.{ℤ}

-- A row, column name to value.
abbrev pub Row : Type 0
Row = Dict Text Text

pub data LiteralKind : Type 0 where
  integer float string bool : LiteralKind

-- The variant `Expr`, with the fields of its four structs.
pub data Expr : Type 0 where
  literal : LiteralKind → Text → Expr
  column_ref : Text → Text → Expr
  binary : Text → Expr → Expr → Expr
  unary : Text → Expr → Expr

pub record ColumnDef : Type 0 where
  pub name : Text
  pub type : Text
  pub primary_key : Bool
  pub not_null : Bool

pub record OrderByClause : Type 0 where
  pub column : Text
  pub ascending : Bool

pub record SelectStatement : Type 0 where
  pub columns : List Text
  pub table : Text
  pub where_clause : Option Expr
  pub order_by : List OrderByClause
  pub limit : Option ℤ

pub record InsertStatement : Type 0 where
  pub table : Text
  pub columns : List Text
  pub values : List Expr

pub record UpdateStatement : Type 0 where
  pub table : Text
  pub assignments : List (Text × Expr)
  pub where_clause : Option Expr

pub record DeleteStatement : Type 0 where
  pub table : Text
  pub where_clause : Option Expr

pub record CreateTableStatement : Type 0 where
  pub table : Text
  pub columns : List ColumnDef

pub record DropTableStatement : Type 0 where
  pub table : Text

pub data Statement : Type 0 where
  select : SelectStatement → Statement
  insert : InsertStatement → Statement
  update : UpdateStatement → Statement
  delete : DeleteStatement → Statement
  create_table : CreateTableStatement → Statement
  drop_table : DropTableStatement → Statement
