-- ===== src/Operator/Columns.antt =====
-- Which columns a projected row and a joined row have.
use my_database_engine.Common.{
  Bool, false, Option, none, some, List, [], ◌∷◌, Text, codes, arith, any, find, assign,
  find-assign, ◌==◌, ==_iff, text_key, ◌≡◌, refl, ap, Option-cases, Bool-cases, inl, inr, All,
  if◌then◌else◌,
}
use my_database_engine.Ast.{Row, OrderByClause}
use my_database_engine.Doubles.{Doubles}
use my_database_engine.Operator.{project_columns, project_row, is_star, join_rows}
use my_database_engine.Operator.Compare.{row_less, column_or_empty, compare_keys_empty}

-- The value of the first of two rows that has the column.
abbrev pub or_else : Option Text → Option Text → Option Text
or_else none other = other
or_else (some value) other = some value

abbrev pub is_listed : Text → List Text → Bool
is_listed k cols = any (λ col. col == k) cols

find-project_columns :
    (cols : List Text) (row projected : Row) (k : Text)
    → find k (project_columns cols row projected)
      ≡ (if is_listed k cols then or_else (find k row) (find k projected) else find k projected)
unfolding project_columns
find-project_columns [] row projected k = refl
find-project_columns (col ∷ cols) row projected k = elim (Bool-cases (col == k)) [
  | inl t ↦
      let same_value : find col row ≡ find k row = ap (λ c. find c row) ((==_iff col k).0 t) in
      elim (Option-cases (find col row)) [
        | inl e ↦ ground (arith, same_value, find-project_columns cols row projected k)
        | inr (v, e) ↦ ground (
          arith,
          same_value,
          find-project_columns cols row (assign col v projected) k,
          find-assign col k v projected,
        )
      ]
  | inr t ↦ elim (Option-cases (find col row)) [
    | inl e ↦ ground (arith, find-project_columns cols row projected k)
    | inr (v, e) ↦ ground (
      arith,
      find-project_columns cols row (assign col v projected) k,
      find-assign col k v projected,
    )
  ]
]

-- A projected row has the listed columns of the row and no other.
pub find-project_row :
    (cols : List Text) (row : Row) (k : Text)
    → is_star cols ≡ false
    → find k (project_row cols row) ≡ (if is_listed k cols then find k row else none)
unfolding project_row find
find-project_row cols row k h = ground (arith, find-project_columns cols row [] k)

-- A joined row has the value of the probe row, or where the probe row lacks the column that of the
-- build row.
pub find-join_rows :
    (probe match : Row) (k : Text)
    → find k (join_rows probe match) ≡ or_else (find k probe) (find k match)
unfolding join_rows find
find-join_rows probe [] k = ground arith
find-join_rows probe ((j, v) ∷ rest) k = elim (Bool-cases (j == k)) [
  | inl t ↦
      let same_value : find j probe ≡ find k probe = ap (λ c. find c probe) ((==_iff j k).0 t) in
      elim (Option-cases (find j probe)) [
        | inl e ↦
            ground
              (arith, same_value, find-join_rows (assign j v probe) rest k, find-assign j k v probe)
        | inr (w, e) ↦ ground (arith, same_value, find-join_rows probe rest k)
      ]
  | inr t ↦ elim (Option-cases (find j probe)) [
    | inl e ↦ ground (arith, find-join_rows (assign j v probe) rest k, find-assign j k v probe)
    | inr (w, e) ↦ ground (arith, find-join_rows probe rest k)
  ]
]

column_or_empty-project_row :
    (cols : List Text) (row : Row) (k : Text)
    → is_star cols ≡ false
    → is_listed k cols ≡ false
    → column_or_empty k (project_row cols row) ≡ codes ""
unfolding column_or_empty
column_or_empty-project_row cols row k h l = ground (arith, find-project_row cols row k h)

-- No sort column is among the selected ones.
abbrev pub AllUnlisted : List Text → List OrderByClause → Type 0
AllUnlisted cols = All (λ clause. is_listed clause.column cols ≡ false)

-- ORDER BY columns that are not selected order nothing: Sort sees projected rows, which lack them.
pub row_less-unselected :
    (fp : Doubles) (cols : List Text) (order : List OrderByClause) (a b : Row)
    → is_star cols ≡ false
    → AllUnlisted cols order
    → fp.stod (codes "") ≡ none
    → row_less fp order (project_row cols a) (project_row cols b) ≡ false
unfolding row_less
row_less-unselected fp cols [] a b h u n = refl
row_less-unselected fp cols (clause ∷ rest) a b h u n = ground (
  arith,
  column_or_empty-project_row cols a clause.column h u.0,
  column_or_empty-project_row cols b clause.column h u.0,
  compare_keys_empty fp n,
  row_less-unselected fp cols rest a b h u.1 n,
)
