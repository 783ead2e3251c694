-- ===== src/RowCodec/RoundTrip.antt =====
-- What is read back from the text form of a row.
use my_database_engine.Common.{
  ℕ, zero, suc, ◌+◌, ◌≤◌, Option, none, some, [], ◌∷◌, ◌++◌, append_assoc, Text, arith, length,
  length-append, find, assign, find-assign, ◌==◌, ==_iff, text_key, All, ◌≡◌, ◌≢◌, refl, ap, sym,
  ◌∙◌, Bool-cases, inl, inr,
}
use my_database_engine.Ast.{Row}
use my_database_engine.RowCodec.{
  split_byte, serialize_row, add_token, deserialize_loop, deserialize_row,
}

-- The byte does not stand in the text.
abbrev pub Lacks : ℕ → Text → Type 0
Lacks c = All (λ x. x ≢ c)

-- Column names are not empty and hold neither `=` nor `;`, values hold no `;`, and no column is
-- there twice (as in a map).
abbrev pub IsPlain : Row → Type 0
IsPlain [] = Unit
IsPlain ((col, val) ∷ row) =
    (col ≢ [])
    × Lacks b'=' col
    × Lacks b';' col
    × Lacks b';' val
    × (find col row ≡ none)
    × IsPlain row

split_byte-append : (c : ℕ) (a b : Text) → Lacks c a → split_byte c (a ++ c ∷ b) ≡ some (a, b)
unfolding split_byte
split_byte-append c [] b h = ground arith
split_byte-append c (x ∷ xs) b h = ground (arith, h.0, split_byte-append c xs b h.1)

Lacks-append : (c : ℕ) (a b : Text) → Lacks c a → Lacks c b → Lacks c (a ++ b)
Lacks-append c [] b h k = k
Lacks-append c (x ∷ xs) b h k = (h.0, Lacks-append c xs b h.1 k)

add_token-pair :
    (col val : Text) (row : Row)
    → col ≢ []
    → Lacks b'=' col
    → add_token (col ++ b'=' ∷ val) row ≡ assign col val row
unfolding add_token
add_token-pair [] val row h l = absurd (h refl)
add_token-pair (c ∷ cs) val row h l = ground (arith, split_byte-append b'=' (c ∷ cs) val l)

-- The value of the row that was read, else that of the row so far.
abbrev later : Option Text → Option Text → Option Text
later none old = old
later (some v) old = some v

-- One round of the loop on the text of a column.
loop_round :
    (f : ℕ) (col val rest : Text) (acc : Row)
    → col ≢ []
    → Lacks b'=' col
    → Lacks b';' col
    → Lacks b';' val
    → deserialize_loop (suc f) (col ++ b'=' ∷ (val ++ b';' ∷ rest)) acc
      ≡ deserialize_loop f rest (assign col val acc)
unfolding deserialize_loop
loop_round f col val rest acc ne le ls lv =
    let token = Lacks-append b';' col (b'=' ∷ val) ls (omega arith, lv) in
    let cut = split_byte-append b';' (col ++ b'=' ∷ val) rest token in
    rw (sym (append_assoc col (b'=' ∷ val) (b';' ∷ rest)))
      (ground (arith, cut, add_token-pair col val acc ne le))

length-serialize_row :
    (col val : Text) (row : Row)
    → length (serialize_row ((col, val) ∷ row))
      ≡ length col + length val + length (serialize_row row) + 2
unfolding serialize_row
length-serialize_row col val row = omega (
  arith,
  length-append col (b'=' ∷ (val ++ b';' ∷ serialize_row row)),
  length-append val (b';' ∷ serialize_row row),
)

find-deserialize_loop :
    (f : ℕ) (row acc : Row) (k : Text)
    → IsPlain row
    → length (serialize_row row) ≤ f
    → find k (deserialize_loop f (serialize_row row) acc) ≡ later (find k row) (find k acc)
unfolding serialize_row find
find-deserialize_loop zero [] acc k p h = unfold deserialize_loop in refl
find-deserialize_loop (suc f) [] acc k p h = unfold deserialize_loop split_byte in refl
find-deserialize_loop zero ((col, val) ∷ row) acc k p h =
    absurd (omega (arith, length-serialize_row col val row))
find-deserialize_loop (suc f) ((col, val) ∷ row) acc k p h =
    rw (loop_round f col val (serialize_row row) acc p.0 p.1 p.2 p.3)
      (elim (Bool-cases (col == k)) [
        | inl t ↦
            let missing : find k row ≡ none =
              ap (λ c. find c row) (sym ((==_iff col k).0 t)) ∙ p.4 in
            ground (
              arith,
              missing,
              find-deserialize_loop f row (assign col val acc) k p.5
                  (omega (arith, length-serialize_row col val row)),
              find-assign col k val acc,
            )
        | inr t ↦ ground (
          arith,
          find-deserialize_loop f row (assign col val acc) k p.5
              (omega (arith, length-serialize_row col val row)),
          find-assign col k val acc,
        )
      ])

-- A plain row is read back with the same value in every column.
pub find-deserialize-serialize :
    (row : Row) (k : Text) → IsPlain row → find k (deserialize_row (serialize_row row)) ≡ find k row
unfolding deserialize_row find
find-deserialize-serialize row k p =
    ground (arith, find-deserialize_loop (length (serialize_row row)) row [] k p)

split_byte-none : (c : ℕ) (a : Text) → Lacks c a → split_byte c a ≡ none
unfolding split_byte
split_byte-none c [] h = refl
split_byte-none c (x ∷ xs) h = ground (arith, h.0, split_byte-none c xs h.1)

-- A token with no `=` changes nothing.
add_token-lost : (lost : Text) (acc : Row) → Lacks b'=' lost → add_token lost acc ≡ acc
unfolding add_token
add_token-lost lost acc me = ground (arith, split_byte-none b'=' lost me)

loop_ignores :
    (f : ℕ) (lost rest : Text) (acc : Row)
    → Lacks b'=' lost
    → Lacks b';' lost
    → deserialize_loop (suc f) (lost ++ b';' ∷ rest) acc ≡ deserialize_loop f rest acc
unfolding deserialize_loop
loop_ignores f lost rest acc me ms =
    rw (deserialize_loop, split_byte-append b';' lost rest ms, add_token-lost lost acc me) refl

module _ (col val lost : Text) (after : Row) (k : Text) (me : Lacks b'=' lost)
    (ms : Lacks b';' lost) where
  abbrev uncut : Row → Row
  uncut before = before ++ (col, val ++ b';' ∷ lost) ∷ after

  abbrev cut : Row → Row
  cut before = before ++ (col, val) ∷ after

  after_cut :
      (f : ℕ) (acc : Row)
      → IsPlain after
      → length (serialize_row (uncut [])) ≤ suc (suc f)
      → find k (deserialize_loop f (serialize_row after) (assign col val acc))
        ≡ later (find k after) (find k (assign col val acc))
  after_cut f acc p h =
      find-deserialize_loop f after (assign col val acc) k p
        (omega (arith, h, length-serialize_row col (val ++ b';' ∷ lost) after))

  find-deserialize_loop_lost :
      (f : ℕ) (before acc : Row)
      → IsPlain (cut before)
      → length (serialize_row (uncut before)) ≤ f
      → find k (deserialize_loop f (serialize_row (uncut before)) acc)
        ≡ later (find k (cut before)) (find k acc)
  unfolding serialize_row find
  find-deserialize_loop_lost zero [] acc p h =
      absurd (omega (arith, length-serialize_row col (val ++ b';' ∷ lost) after))
  find-deserialize_loop_lost (suc zero) [] acc p h = absurd (
      omega (
        arith,
        length-serialize_row col (val ++ b';' ∷ lost) after,
        length-append val (b';' ∷ lost),
      ))
  find-deserialize_loop_lost (suc (suc f)) [] acc p h =
      rw (append_assoc val (b';' ∷ lost) (b';' ∷ serialize_row after)) (
        rw (loop_round (suc f) col val (lost ++ b';' ∷ serialize_row after) acc p.0 p.1 p.2 p.3) (
          rw (loop_ignores f lost (serialize_row after) (assign col val acc) me ms)
            (elim (Bool-cases (col == k)) [
              | inl t ↦
                  let missing : find k after ≡ none =
                    ap (λ c. find c after) (sym ((==_iff col k).0 t)) ∙ p.4 in
                  ground (arith, missing, after_cut f acc p.5 h, find-assign col k val acc)
              | inr t ↦ ground (arith, after_cut f acc p.5 h, find-assign col k val acc)
            ])))
  find-deserialize_loop_lost zero ((c, v) ∷ before) acc p h =
      absurd (omega (arith, length-serialize_row c v (uncut before)))
  find-deserialize_loop_lost (suc f) ((c, v) ∷ before) acc p h =
      let rest =
        find-deserialize_loop_lost f before (assign c v acc) p.5
          (omega (arith, length-serialize_row c v (uncut before))) in
      rw (loop_round f c v (serialize_row (uncut before)) acc p.0 p.1 p.2 p.3)
        (elim (Bool-cases (c == k)) [
          | inl t ↦
              let missing : find k (cut before) ≡ none =
                ap (λ x. find x (cut before)) (sym ((==_iff c k).0 t)) ∙ p.4 in
              ground (arith, missing, rest, find-assign c k v acc)
          | inr t ↦ ground (arith, rest, find-assign c k v acc)
        ])

-- In a plain row, let one value be followed by a `;` and a text that holds neither = nor ;. The row
-- that is read back has in every column what the plain row has: the value is cut at its `;`, what
-- follows is lost, and the other columns are as they were.
pub find-deserialize_cut :
    (before after : Row) (col val lost k : Text)
    → IsPlain (before ++ (col, val) ∷ after)
    → Lacks b'=' lost
    → Lacks b';' lost
    → find k (deserialize_row (serialize_row (before ++ (col, val ++ b';' ∷ lost) ∷ after)))
      ≡ find k (before ++ (col, val) ∷ after)
unfolding deserialize_row find
find-deserialize_cut before after col val lost k p me ms = ground (
  arith,
  find-deserialize_loop_lost col val lost after k me ms
      (length (serialize_row (before ++ (col, val ++ b';' ∷ lost) ∷ after))) before [] p
      (omega arith),
)
