-- ===== src/SlottedPage/Layout.antt =====
-- The order of a slotted page: the directory in front, the rows of the valid slots behind it.
use my_database_engine.Common.{
  ℕ, zero, suc, ◌+◌, ◌^◌, ◌≤◌, ◌<◌, ◌≡◌, inl, inr, refl, ap, sym, ◌∙◌, true, List, length, drop,
  arith, Bool-cases, nat_beq,
}
use my_database_engine.Wal.Bytes.{le_bytes, le_value, le_value-le_bytes, length-le_bytes}
use my_database_engine.SlottedPage.{
  slice, write_at, SlotEntry, slot_place, slot_size, slot_bytes, read_slot, write_slot,
  record_count, set_record_count, is_valid, data_start, page_end,
}
use my_database_engine.SlottedPage.Memory.{
  length-write_at, slice-write_at_before, slice-write_at_behind, slice-write_at, slice-slice,
  slice-take,
}

pub record IsSlotted (bytes : List ℕ) : Type 0 where
  pub full : length bytes ≡ page_end
  pub dir : slot_place (record_count bytes) ≤ page_end
  pub rows :
      (i : ℕ)
      → i < record_count bytes
      → is_valid (read_slot bytes i) ≡ true
      → (slot_place (record_count bytes) ≤ (read_slot bytes i).offset)
        × ((read_slot bytes i).offset + (read_slot bytes i).width ≤ page_end)

pub data_start_le : (bytes : List ℕ) (n : ℕ) → data_start bytes n ≤ page_end
unfolding data_start
data_start_le bytes zero = omega arith
data_start_le bytes (suc n) = ground (arith, data_start_le bytes n)

-- No valid row starts before the start of the data.
pub data_start_below :
    (bytes : List ℕ) (n i : ℕ)
    → i < n
    → is_valid (read_slot bytes i) ≡ true
    → data_start bytes n ≤ (read_slot bytes i).offset
unfolding data_start
data_start_below bytes zero i h v = absurd (omega (arith, h))
data_start_below bytes (suc n) i h v = elim (Bool-cases (nat_beq i n)) [
  | inl t ↦
      let same : i ≡ n = ground (arith, t) in
      rw same (ground (arith, ap (λ j. is_valid (read_slot bytes j)) (sym same), v))
  | inr t ↦ ground (arith, t, data_start_below bytes n i (ground (arith, h, t)) v)
]

pub slot_bytes-length : (e : SlotEntry) → length (slot_bytes e) ≡ slot_size
unfolding slot_bytes le_bytes
slot_bytes-length e = refl

-- A page with a row written at the offset of a slot, that slot behind the others, and the next count.
abbrev pub row_written : List ℕ → List ℕ → SlotEntry → List ℕ
row_written bytes text e =
    set_record_count (record_count bytes + 1)
      (write_slot (record_count bytes) e (write_at e.offset text bytes))

module _ (bytes text : List ℕ) (e : SlotEntry) (full : length bytes ≡ page_end)
    (apart : slot_place (record_count bytes) + slot_size ≤ e.offset)
    (inside : e.offset + length text ≤ page_end) where
  pub length-row_written : length (row_written bytes text e) ≡ page_end
  unfolding set_record_count write_slot
  length-row_written =
      length-write_at 6 (le_bytes 2 (record_count bytes + 1)) _
      ∙ length-write_at (slot_place (record_count bytes)) (slot_bytes e) _
      ∙ length-write_at e.offset text bytes
      ∙ full

  count_bytes : length (le_bytes 2 (record_count bytes + 1)) ≡ 2
  count_bytes = length-le_bytes 2 (record_count bytes + 1)

  -- The header but for the count.
  pub slice-row_written_header :
      (t w : ℕ) → t + w ≤ 6 → slice t w (row_written bytes text e) ≡ slice t w bytes
  unfolding set_record_count write_slot
  slice-row_written_header t w h =
      slice-write_at_before t w 6 (le_bytes 2 (record_count bytes + 1)) _ h
      ∙ slice-write_at_before t w (slot_place (record_count bytes)) (slot_bytes e) _ (omega arith)
      ∙ slice-write_at_before t w e.offset text bytes (omega (arith, apart))

  -- The directory as it was.
  pub slice-row_written_directory :
      (t w : ℕ)
      → 8 ≤ t
      → t + w ≤ slot_place (record_count bytes)
      → slice t w (row_written bytes text e) ≡ slice t w bytes
  unfolding set_record_count write_slot
  slice-row_written_directory t w h k =
      slice-write_at_behind t w 6 (le_bytes 2 (record_count bytes + 1)) _
        (omega (arith, count_bytes))
      ∙ slice-write_at_before t w (slot_place (record_count bytes)) (slot_bytes e) _ (omega arith)
      ∙ slice-write_at_before t w e.offset text bytes (omega (arith, apart))

  -- The rows behind the new one.
  pub slice-row_written_rows :
      (t w : ℕ)
      → e.offset + length text ≤ t
      → slice t w (row_written bytes text e) ≡ slice t w bytes
  unfolding set_record_count write_slot
  slice-row_written_rows t w h =
      slice-write_at_behind t w 6 (le_bytes 2 (record_count bytes + 1)) _
        (omega (arith, count_bytes, apart, h))
      ∙ slice-write_at_behind t w (slot_place (record_count bytes)) (slot_bytes e) _
          (omega (arith, slot_bytes-length e, apart, h))
      ∙ slice-write_at_behind t w e.offset text bytes h

  -- The new row.
  pub slice-row_written : slice e.offset (length text) (row_written bytes text e) ≡ text
  unfolding set_record_count write_slot
  slice-row_written =
      slice-write_at_behind e.offset (length text) 6 (le_bytes 2 (record_count bytes + 1)) _
        (omega (arith, count_bytes, apart))
      ∙ slice-write_at_behind e.offset (length text) (slot_place (record_count bytes))
          (slot_bytes e) _ (omega (arith, slot_bytes-length e, apart))
      ∙ slice-write_at e.offset text bytes (omega (arith, full, inside))

  pub record_count-row_written : record_count (row_written bytes text e) ≡ record_count bytes + 1
  unfolding record_count set_record_count le_bytes
  record_count-row_written =
      ap le_value (
        slice-write_at 6 (le_bytes 2 (record_count bytes + 1)) _ (
          omega (
            arith,
            length-row_written,
            length-write_at 6 (le_bytes 2 (record_count bytes + 1))
                (write_slot (record_count bytes) e (write_at e.offset text bytes)),
            count_bytes,
          )))
      ∙ le_value-le_bytes 2 (record_count bytes + 1) (omega (arith, apart, inside))

  new_slot : slice (slot_place (record_count bytes)) 6 (row_written bytes text e) ≡ slot_bytes e
  unfolding set_record_count write_slot le_bytes write_at
  new_slot =
      slice-write_at_behind (slot_place (record_count bytes)) 6 6
        (le_bytes 2 (record_count bytes + 1)) _ (omega (arith, count_bytes))
      ∙ slice-write_at (slot_place (record_count bytes)) (slot_bytes e)
          (write_at e.offset text bytes)
          (omega
            (arith, slot_bytes-length e, length-write_at e.offset text bytes, full, apart, inside))

  -- A part of the new slot.
  new_slot_part :
      (i w : ℕ)
      → i + w ≤ 6
      → slice (slot_place (record_count bytes) + i) w (row_written bytes text e)
        ≡ slice i w (slot_bytes e)
  new_slot_part i w h =
      sym (slice-slice (slot_place (record_count bytes)) i w 6 (row_written bytes text e) h)
      ∙ ap (slice i w) new_slot

  pub read_slot-row_written_offset :
      e.offset < 2 ^ 16
      → (read_slot (row_written bytes text e) (record_count bytes)).offset ≡ e.offset
  unfolding read_slot slot_bytes le_bytes
  read_slot-row_written_offset h =
      ap le_value (
        sym (
          slice-take 0 2 6 (drop (slot_place (record_count bytes)) (row_written bytes text e))
            (omega arith))
        ∙ ap (slice 0 2) new_slot)
      ∙ le_value-le_bytes 2 e.offset h

  pub read_slot-row_written_width :
      e.width < 2 ^ 16 → (read_slot (row_written bytes text e) (record_count bytes)).width ≡ e.width
  unfolding read_slot slot_bytes le_bytes
  read_slot-row_written_width h =
      ap le_value (new_slot_part 2 2 (omega arith)) ∙ le_value-le_bytes 2 e.width h

  pub read_slot-row_written_valid :
      (read_slot (row_written bytes text e) (record_count bytes)).valid ≡ e.valid
  unfolding read_slot slot_bytes le_bytes le_value
  read_slot-row_written_valid = ap le_value (new_slot_part 4 1 (omega arith)) ∙ omega arith
