-- ===== src/SlottedPage/Written.antt =====
-- A page behind the insertion of a row: its slots and its order.
use my_database_engine.Common.{
  ℕ, ◌+◌, ◌≤◌, ◌<◌, ◌≡◌, inl, inr, refl, ap, sym, ◌∙◌, true, some, List, length, arith, Bool-cases,
  nat_beq,
}
use my_database_engine.RowCodec.{deserialize_row}
use my_database_engine.Wal.Bytes.{le_value}
use my_database_engine.SlottedPage.{
  done, SlotEntry, slot_place, slot_size, read_slot, record_count, page_id_of, is_valid, data_start,
  page_end, some_row, get_slot,
}
use my_database_engine.SlottedPage.Slots.{get_slot-valid, get_slot-same, row_at-slice}
use my_database_engine.SlottedPage.Layout.{
  IsSlotted, data_start_le, data_start_below, row_written, length-row_written,
  slice-row_written_header, slice-row_written_directory, slice-row_written_rows, slice-row_written,
  record_count-row_written, read_slot-row_written_offset, read_slot-row_written_width,
  read_slot-row_written_valid,
}

-- The row between the directory and the rows that are there.
module _ (bytes text : List ℕ) (e : SlotEntry) (h : IsSlotted bytes)
    (apart : slot_place (record_count bytes) + slot_size ≤ e.offset)
    (below : e.offset + length text ≤ data_start bytes (record_count bytes))
    (wide : e.width ≡ length text) (valid : e.valid ≡ 1) where
  inside : e.offset + length text ≤ page_end
  inside = omega (arith, below, data_start_le bytes (record_count bytes))

  old_slot :
      (i : ℕ) → i < record_count bytes → read_slot (row_written bytes text e) i ≡ read_slot bytes i
  unfolding read_slot
  old_slot i k =
      rw
        (
          slice-row_written_directory bytes text e h.full apart inside (slot_place i) 2
              (omega arith) (omega (arith, k)),
          slice-row_written_directory bytes text e h.full apart inside (slot_place i + 2) 2
              (omega arith) (omega (arith, k)),
          slice-row_written_directory bytes text e h.full apart inside (slot_place i + 4) 1
              (omega arith) (omega (arith, k)),
          slice-row_written_directory bytes text e h.full apart inside (slot_place i + 5) 1
              (omega arith) (omega (arith, k)),
        )
        refl

  count_next : record_count (row_written bytes text e) ≡ record_count bytes + 1
  count_next = record_count-row_written bytes text e h.full apart inside

  dir_next : slot_place (record_count (row_written bytes text e)) ≤ page_end
  dir_next = omega (arith, count_next, apart, inside)

  offset_next : (read_slot (row_written bytes text e) (record_count bytes)).offset ≡ e.offset
  offset_next =
      read_slot-row_written_offset bytes text e h.full apart inside (omega (arith, inside))

  width_next : (read_slot (row_written bytes text e) (record_count bytes)).width ≡ length text
  width_next =
      read_slot-row_written_width bytes text e h.full apart inside (omega (arith, inside, wide))
      ∙ wide

  valid_next : is_valid (read_slot (row_written bytes text e) (record_count bytes)) ≡ true
  valid_next =
      let one = read_slot-row_written_valid bytes text e h.full apart inside in
      ground (arith, one, valid)

  -- The new slot shows the new row.
  pub get_slot-row_written :
      get_slot (record_count bytes) (row_written bytes text e) ≡ done (some (deserialize_row text))
  get_slot-row_written =
      get_slot-valid (record_count bytes) (row_written bytes text e) (omega (arith, count_next))
        dir_next valid_next
      ∙ ap some_row (
          row_at-slice (read_slot (row_written bytes text e) (record_count bytes))
            (row_written bytes text e) text (omega (arith, offset_next, width_next, inside))
            (rw (offset_next, width_next) (slice-row_written bytes text e h.full apart inside)))

  -- Every other slot shows what it showed.
  pub get_slot-row_written_other :
      (i : ℕ) → i < record_count bytes → get_slot i (row_written bytes text e) ≡ get_slot i bytes
  get_slot-row_written_other i k =
      get_slot-same i bytes (row_written bytes text e) h k (omega (arith, count_next, k)) dir_next
        (old_slot i k)
        λ v.
          slice-row_written_rows bytes text e h.full apart inside (read_slot bytes i).offset
            (read_slot bytes i).width
            (omega (arith, data_start_below bytes (record_count bytes) i k v, below))

  pub row_written-IsSlotted : IsSlotted (row_written bytes text e)
  row_written-IsSlotted = record {
    full = length-row_written bytes text e h.full apart inside;
    dir = dir_next;
    rows = λ i k v. elim (Bool-cases (nat_beq i (record_count bytes))) [
      | inl t ↦
          let same : i ≡ record_count bytes = ground (arith, t) in
          rw same (
            omega (arith, count_next, offset_next, apart),
            omega (arith, offset_next, width_next, inside),
          )
      | inr t ↦
          let old : i < record_count bytes = ground (arith, k, t, count_next) in
          let v' = ap is_valid (sym (old_slot i old)) ∙ v in
          let starts = data_start_below bytes (record_count bytes) i old v' in
          rw (old_slot i old) (omega (arith, count_next, starts, below, apart), (h.rows i old v').1)
    ];
  }

pub page_id_of-row_written :
    (bytes text : List ℕ) (e : SlotEntry)
    → length bytes ≡ page_end
    → slot_place (record_count bytes) + slot_size ≤ e.offset
    → e.offset + length text ≤ page_end
    → page_id_of (row_written bytes text e) ≡ page_id_of bytes
unfolding page_id_of
page_id_of-row_written bytes text e full apart inside =
    ap le_value (slice-row_written_header bytes text e full apart inside 0 4 (omega arith))
