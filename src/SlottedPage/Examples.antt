-- ===== src/SlottedPage/Examples.antt =====
-- A slotted page with one row.
use my_database_engine.Common.{ℕ, List, Option, ◌≡◌, refl, some, [], ◌∷◌, codes, assign}
use my_database_engine.Ast.{Row}
use my_database_engine.RowCodec.{serialize_row, deserialize_row, split_byte}
use my_database_engine.Wal.Bytes.{le_bytes, le_value}
use my_database_engine.Page.{zeros}
use my_database_engine.SlottedPage.{
  Access, done, out_of_bounds, get_slot, write_at, insert_into_page, RowId,
}

abbrev a_row : Row
a_row = (codes "a", codes "1") ∷ []

abbrev read_after : Access (RowId × List ℕ) → Access (Option Row)
read_after (done (rid, bytes)) = get_slot 0 bytes
read_after out_of_bounds = out_of_bounds

-- The row of slot 0 on a page of zeros with one inserted row.
row_read : read_after (insert_into_page 0 a_row (zeros 4096)) ≡ done (some a_row)
unfolding insert_into_page get_slot zeros le_value le_bytes serialize_row deserialize_row write_at
    split_byte assign
row_read = refl
