-- ===== src/RowCodec/Examples.antt =====
-- The row codec at concrete rows.
use my_database_engine.Common.{[], ◌∷◌, ◌++◌, codes, text_beq, text_key, find, ◌≡◌, refl, arith}
use my_database_engine.Ast.{Row}
use my_database_engine.RowCodec.{serialize_row, deserialize_row}
use my_database_engine.RowCodec.RoundTrip.{find-deserialize-serialize, find-deserialize_cut}

abbrev alice : Row
alice = (codes "id", codes "1") ∷ (codes "name", codes "Alice") ∷ []

alice_text : serialize_row alice ≡ codes "id=1;name=Alice;"
unfolding serialize_row
alice_text = refl

find-deserialize-serialize_example :
    find (codes "name") (deserialize_row (serialize_row alice)) ≡ find (codes "name") alice
unfolding find text_beq
find-deserialize-serialize_example = find-deserialize-serialize alice (codes "name") (
  (λ e. cc),
  omega arith,
  omega arith,
  omega arith,
  refl,
  ((λ e. cc), omega arith, omega arith, omega arith, refl, tt),
)

-- The row of alice with a note between its columns.
find-deserialize_cut_example :
    find (codes "note") (
      deserialize_row (
        serialize_row (
          ((codes "id", codes "1") ∷ [])
          ++ (codes "note", codes "a" ++ b';' ∷ codes "b") ∷ (codes "name", codes "Alice") ∷ [])))
    ≡ find (codes "note") (
        ((codes "id", codes "1") ∷ [])
        ++ (codes "note", codes "a") ∷ (codes "name", codes "Alice") ∷ [])
unfolding find text_beq
find-deserialize_cut_example =
    find-deserialize_cut ((codes "id", codes "1") ∷ []) ((codes "name", codes "Alice") ∷ [])
      (codes "note") (codes "a") (codes "b") (codes "note")
      (
        (λ e. cc),
        omega arith,
        omega arith,
        omega arith,
        refl,
        (
          (λ e. cc),
          omega arith,
          omega arith,
          omega arith,
          refl,
          ((λ e. cc), omega arith, omega arith, omega arith, refl, tt),
        ),
      )
      (omega arith) (omega arith)
