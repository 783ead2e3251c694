-- ===== src/SlottedPage/Insert.antt =====
-- Inserting a row into a slotted page.
use my_database_engine.Common.{
  ℕ, ◌+◌, ◌-◌, ◌^◌, ◌%◌, ◌≤◌, ◌<◌, ◌≡◌, inl, inr, refl, ap, true, false, some, List, [], ◌∷◌,
  length, take, arith, Bool-cases, ltb, leb, if◌then◌else◌, ◌&&◌,
}
use my_database_engine.Ast.{Row}
use my_database_engine.RowCodec.{serialize_row, deserialize_row}
use my_database_engine.SlottedPage.{
  Access, done, out_of_bounds, RowId, invalid_page_id, SlotEntry, slot_place, slot_size,
  record_count, page_id_of, data_start, page_end, get_slot, insert_into_page, write_row,
}
use my_database_engine.SlottedPage.Layout.{
  IsSlotted, data_start_le, row_written, record_count-row_written,
}
use my_database_engine.SlottedPage.Written.{
  get_slot-row_written, get_slot-row_written_other, row_written-IsSlotted, page_id_of-row_written,
}

-- What an inserted row has done.
pub record HasInserted (row : Row) (bytes bytes' : List ℕ) : Type 0 where
  pub valid : IsSlotted bytes'
  pub count : record_count bytes' ≡ record_count bytes + 1
  pub id : page_id_of bytes' ≡ page_id_of bytes
  pub shown :
      get_slot (record_count bytes) bytes' ≡ done (some (deserialize_row (serialize_row row)))
  pub others : (i : ℕ) → i < record_count bytes → get_slot i bytes' ≡ get_slot i bytes

-- The bytes between the last slot and the first row.
abbrev pub data_first : List ℕ → ℕ
data_first bytes = data_start bytes (record_count bytes)

-- The results: the row and its slot are in the page, where both fit; or the invalid id, and the page
-- as it was, where the row fits in front of the data but not together with a slot; or an access
-- outside the page, where the row is longer than what lies in front of the data.
pub data Inserts (row : Row) (bytes : List ℕ) : Access (RowId × List ℕ) → Type 0 where
  inserted :
      (bytes' : List ℕ)
      → slot_place (record_count bytes) + slot_size + length (serialize_row row) ≤ data_first bytes
      → HasInserted row bytes bytes'
      → Inserts row bytes
          (done (record { page_id = page_id_of bytes; slot_index = record_count bytes }, bytes'))
  no_room :
      length (serialize_row row) ≤ data_first bytes
      → data_first bytes < slot_place (record_count bytes) + slot_size + length (serialize_row row)
      → Inserts row bytes (done (record { page_id = invalid_page_id; slot_index = 0 }, bytes))
  overruns : data_first bytes < length (serialize_row row) → Inserts row bytes out_of_bounds

pub take-length : (xs : List ℕ) → take (length xs) xs ≡ xs
take-length [] = refl
take-length (x ∷ xs) = ap (λ r. x ∷ r) (take-length xs)

write_row-done :
    (unset : ℕ) (text : List ℕ) (offset : ℕ) (bytes : List ℕ)
    → offset + length text ≤ page_end
    → write_row unset text offset bytes
      ≡ done (
        record { page_id = page_id_of bytes; slot_index = record_count bytes },
        row_written bytes text
            (record { offset = offset; width = length text; valid = 1; unused = unset }),
      )
unfolding write_row
write_row-done unset text offset bytes h =
    let inside : leb (offset + length text) page_end ≡ true = ground (arith, h) in rw inside refl

write_row-overruns :
    (unset : ℕ) (text : List ℕ) (offset : ℕ) (bytes : List ℕ)
    → page_end < offset + length text
    → write_row unset text offset bytes ≡ out_of_bounds
unfolding write_row
write_row-overruns unset text offset bytes h =
    let outside : leb (offset + length text) page_end ≡ false = ground (arith, h) in rw outside refl

module _ (unset : ℕ) (row : Row) (bytes : List ℕ) (h : IsSlotted bytes)
    (small : length (serialize_row row) < 2 ^ 16) where
  guarded : insert_into_page unset row bytes ≡ (
      if leb (length (serialize_row row)) (data_first bytes)
        && ltb
            (data_first bytes - length (serialize_row row))
            (slot_place (record_count bytes) + slot_size)
      then done (record { page_id = invalid_page_id; slot_index = 0 }, bytes)
      else write_row unset
          (serialize_row row)
          ((data_first bytes + 2 ^ 16 - length (serialize_row row)) % 2 ^ 16)
          bytes)
  unfolding insert_into_page
  guarded =
      let exact : length (serialize_row row) % 2 ^ 16 ≡ length (serialize_row row) =
        omega (arith, small) in
      let dir : ltb page_end (slot_place (record_count bytes)) ≡ false = ground (arith, h.dir) in
      rw (exact, dir, take-length (serialize_row row)) refl

  has_room :
      slot_place (record_count bytes) + slot_size + length (serialize_row row) ≤ data_first bytes
      → Inserts row bytes (
          write_row unset
            (serialize_row row)
            ((data_first bytes + 2 ^ 16 - length (serialize_row row)) % 2 ^ 16)
            bytes)
  has_room room =
      let text = serialize_row row in
      let place : (data_first bytes + 2 ^ 16 - length text) % 2 ^ 16
          ≡ data_first bytes - length text =
        omega (arith, room, data_start_le bytes (record_count bytes)) in
      let e : SlotEntry = record {
        offset = data_first bytes - length text;
        width = length text;
        valid = 1;
        unused = unset;
      } in
      let apart : slot_place (record_count bytes) + slot_size ≤ data_first bytes - length text =
        omega (arith, room) in
      let below : data_first bytes - length text + length text ≤ data_first bytes =
        omega (arith, room) in
      let inside : data_first bytes - length text + length text ≤ page_end =
        omega (arith, below, data_start_le bytes (record_count bytes)) in
      rw (place, write_row-done unset text (data_first bytes - length text) bytes inside)
        (inserted (row_written bytes text e) room (record {
          valid = row_written-IsSlotted bytes text e h apart below refl refl;
          count = record_count-row_written bytes text e h.full apart inside;
          id = page_id_of-row_written bytes text e h.full apart inside;
          shown = get_slot-row_written bytes text e h apart below refl refl;
          others = get_slot-row_written_other bytes text e h apart below refl refl;
        }))

  -- On a slotted page, a row of fewer than 2^16 bytes is in the page with a slot of its own, which
  -- shows it, and the other slots show what they did; or the page is unchanged and the id invalid,
  -- where no room for the row and a slot is left; or bytes outside the page are accessed, where the
  -- row is longer than what lies in front of the data.
  pub insert_into_page-Inserts : Inserts row bytes (insert_into_page unset row bytes)
  insert_into_page-Inserts =
      elim (Bool-cases (leb (length (serialize_row row)) (data_first bytes))) [
        | inr long ↦
            rw (guarded, long)
              (rw
                (write_row-overruns unset (serialize_row row)
                  ((data_first bytes + 2 ^ 16 - length (serialize_row row)) % 2 ^ 16) bytes
                  (ground (arith, long, small)))
                (overruns (ground (arith, long))))
        | inl fits ↦
            elim (Bool-cases (
              ltb (data_first bytes - length (serialize_row row))
                (slot_place (record_count bytes) + slot_size))) [
                  | inl t ↦
                      rw (guarded, fits, t)
                        (no_room (ground (arith, fits)) (ground (arith, t, fits)))
                  | inr t ↦ rw (guarded, fits, t) (has_room (ground (arith, fits, t)))
                ]
      ]
