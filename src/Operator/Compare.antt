-- ===== src/Operator/Compare.antt =====
-- include/sort.h: the comparison that Sort hands to std::sort.
use my_database_engine.Common.{
  Bool, true, false, Option, none, some, List, [], ◌∷◌, Text, codes, text_lt, find, text_key,
  if◌then◌else◌, ◌≡◌, arith,
}
use my_database_engine.Ast.{Row, OrderByClause}
use my_database_engine.Doubles.{Doubles, DoubleOrder, less, greater}

-- The three results of Sort::compareValues: -1, 0 and 1.
pub data Sign : Type 0 where
  negative same positive : Sign

unfoldable pub column_or_empty : Text → Row → Text
column_or_empty column row = elim (find column row) [ none ↦ codes "" | some value ↦ value ]

compare_strings : Text → Text → Sign
compare_strings a b = if text_lt a b then negative else if text_lt b a then positive else same

compare_numbers : DoubleOrder → Sign
compare_numbers less = negative
compare_numbers greater = positive
compare_numbers _ = same

module _ (fp : Doubles) where
  open fp use {Double, stod, order}

  compare_parsed : Option Double → Option Double → Text → Text → Sign
  unfolding compare_strings compare_numbers
  compare_parsed (some x) (some y) a b = compare_numbers (order x y)
  compare_parsed _ _ a b = compare_strings a b

  -- Sort::compareValues
  unfoldable pub compare_keys : Text → Text → Sign
  unfolding compare_parsed
  compare_keys a b = compare_parsed (stod a) (stod b) a b

  -- The lambda of Sort::sortRows.
  unfoldable pub row_less : List OrderByClause → Row → Row → Bool
  row_less [] a b = false
  row_less (clause ∷ rest) a b =
      let later = row_less rest a b in
      elim (compare_keys (column_or_empty clause.column a) (column_or_empty clause.column b)) [
        | negative ↦ clause.ascending
        | positive ↦ if clause.ascending then false else true
        | same ↦ later
      ]

-- Two missing values are the same, the empty text being no number.
pub compare_keys_empty :
    (fp : Doubles) → fp.stod (codes "") ≡ none → compare_keys fp (codes "") (codes "") ≡ same
unfolding compare_keys text_lt
compare_keys_empty fp h = ground (arith, h)
