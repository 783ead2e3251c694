-- ===== src/RowCodec.antt =====
-- The text form `col1=val1;col2=val2;` of a row: WAL::serializeRow and WAL::deserializeRow in
-- src/wal.cpp, and with the same code TableHeap::serializeRowData and deserializeRowData.
pub mod RoundTrip
mod Examples
use my_database_engine.Common.{
  ℕ, zero, suc, Bool, Option, none, some, List, [], ◌∷◌, ◌++◌, Text, length, nat_beq, assign,
  text_key, if◌then◌else◌,
}
use my_database_engine.Ast.{Row}

-- s.find(c) with the two substrings around the byte.
unfoldable pub split_byte : ℕ → Text → Option (Text × Text)
split_byte c [] = none
split_byte c (x ∷ xs) =
    let rest : Option (Text × Text) = elim (split_byte c xs) [
      | none ↦ none
      | some (before, after) ↦ some (x ∷ before, after)
    ] in
    if nat_beq x c then some ([], xs) else rest

unfoldable pub serialize_row : Row → Text
serialize_row [] = []
serialize_row ((col, val) ∷ row) = col ++ b'=' ∷ (val ++ b';' ∷ serialize_row row)

assign_unless_empty : Text → Text → Row → Row
assign_unless_empty [] val row = row
assign_unless_empty (c ∷ cs) val row = assign (c ∷ cs) val row

-- One `col=val` token into the row.
unfoldable pub add_token : Text → Row → Row
unfolding assign_unless_empty
add_token token row = elim (split_byte b'=' token) [
  | none ↦ row
  | some (col, val) ↦ assign_unless_empty col val row
]

-- The `while` loop; each round drops at least the `;`, so the length of the text is enough fuel.
unfoldable pub deserialize_loop : ℕ → Text → Row → Row
deserialize_loop zero s row = row
deserialize_loop (suc f) s row = elim (split_byte b';' s) [
  | none ↦ row
  | some (token, rest) ↦ deserialize_loop f rest (add_token token row)
]

unfoldable pub deserialize_row : Text → Row
unfolding deserialize_loop add_token
deserialize_row s = deserialize_loop (length s) s []
