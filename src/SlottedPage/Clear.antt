-- ===== src/SlottedPage/Clear.antt =====
-- Marking a slot as not valid, as an update and a deletion do.
use my_database_engine.Common.{
  ℕ, ◌+◌, ◌≤◌, ◌<◌, ◌≡◌, ◌≢◌, inl, inr, refl, ap, sym, ◌∙◌, true, false, Option, none, some, List,
  length, arith, Bool-cases, nat_beq, ltb, leb,
}
use my_database_engine.Ast.{Row}
use my_database_engine.Wal.Bytes.{le_bytes, le_value}
use my_database_engine.SlottedPage.{
  Access, done, slice, write_at, SlotEntry, slot_place, slot_size, slot_bytes, read_slot,
  write_slot, record_count, page_id_of, is_valid, has_place, page_end, some_row, get_slot,
  clear_slot,
}
use my_database_engine.SlottedPage.Memory.{
  length-write_at, slice-write_at_before, slice-write_at_behind, slice-write_at, slice-slice,
}
use my_database_engine.SlottedPage.Layout.{IsSlotted, slot_bytes-length}
use my_database_engine.SlottedPage.Slots.{
  get_slot-valid, get_slot-invalid, get_slot-absent, get_slot-same, row_at-slice,
}

-- A slot that is written again, as not valid.
module _ (bytes : List ℕ) (h : IsSlotted bytes) (i : ℕ) (there : i < record_count bytes)
    (e : SlotEntry) (off : e.valid ≡ 0) where
  slice-write_slot_before :
      (t w : ℕ) → t + w ≤ slot_place i → slice t w (write_slot i e bytes) ≡ slice t w bytes
  unfolding write_slot
  slice-write_slot_before t w k = slice-write_at_before t w (slot_place i) (slot_bytes e) bytes k

  slice-write_slot_behind :
      (t w : ℕ) → slot_place i + slot_size ≤ t → slice t w (write_slot i e bytes) ≡ slice t w bytes
  unfolding write_slot
  slice-write_slot_behind t w k =
      slice-write_at_behind t w (slot_place i) (slot_bytes e) bytes
        (omega (arith, k, slot_bytes-length e))

  same_count : record_count (write_slot i e bytes) ≡ record_count bytes
  unfolding record_count
  same_count = ap le_value (slice-write_slot_before 6 2 (omega arith))

  same_page_id : page_id_of (write_slot i e bytes) ≡ page_id_of bytes
  unfolding page_id_of
  same_page_id = ap le_value (slice-write_slot_before 0 4 (omega arith))

  same_length : length (write_slot i e bytes) ≡ page_end
  unfolding write_slot
  same_length = length-write_at (slot_place i) (slot_bytes e) bytes ∙ h.full

  same_slice :
      (j t w : ℕ)
      → i ≢ j
      → slot_place j ≤ t
      → t + w ≤ slot_place j + slot_size
      → slice t w (write_slot i e bytes) ≡ slice t w bytes
  same_slice j t w differ from to = elim (Bool-cases (ltb i j)) [
    | inl before ↦ slice-write_slot_behind t w (ground (arith, before, from))
    | inr behind ↦ slice-write_slot_before t w (grind (arith, behind, to, differ))
  ]

  other_slot : (j : ℕ) → i ≢ j → read_slot (write_slot i e bytes) j ≡ read_slot bytes j
  unfolding read_slot
  other_slot j differ =
      rw
        (
          same_slice j (slot_place j) 2 differ (omega arith) (omega arith),
          same_slice j (slot_place j + 2) 2 differ (omega arith) (omega arith),
          same_slice j (slot_place j + 4) 1 differ (omega arith) (omega arith),
          same_slice j (slot_place j + 5) 1 differ (omega arith) (omega arith),
        )
        refl

  written : slice (slot_place i) 6 (write_slot i e bytes) ≡ slot_bytes e
  unfolding write_slot le_bytes write_at
  written =
      slice-write_at (slot_place i) (slot_bytes e) bytes
        (omega (arith, slot_bytes-length e, h.full, h.dir, there))

  now_invalid : is_valid (read_slot (write_slot i e bytes) i) ≡ false
  unfolding read_slot slot_bytes le_bytes le_value
  now_invalid =
      let flag : le_value (slice (slot_place i + 4) 1 (write_slot i e bytes)) ≡ e.valid =
        ap le_value (
          sym (slice-slice (slot_place i) 4 1 6 (write_slot i e bytes) (omega arith))
          ∙ ap (slice 4 1) written)
        ∙ omega arith in
      ground (arith, flag, off)

  cleared_none : get_slot i (write_slot i e bytes) ≡ done none
  cleared_none =
      get_slot-invalid i (write_slot i e bytes) (omega (arith, there, same_count))
        (omega (arith, h.dir, same_count)) now_invalid

  same_rows : (j : ℕ) → i ≢ j → get_slot j (write_slot i e bytes) ≡ get_slot j bytes
  same_rows j differ = elim (Bool-cases (leb (record_count bytes) j)) [
    | inl t ↦
        get_slot-absent j (write_slot i e bytes) (ground (arith, t, same_count))
        ∙ sym (get_slot-absent j bytes (ground (arith, t)))
    | inr t ↦
        let k : j < record_count bytes = ground (arith, t) in
        get_slot-same j bytes (write_slot i e bytes) h k (omega (arith, k, same_count))
          (omega (arith, h.dir, same_count)) (other_slot j differ)
          λ v.
            slice-write_slot_behind (read_slot bytes j).offset (read_slot bytes j).width
              (omega (arith, (h.rows j k v).0, there))
  ]

  still : IsSlotted (write_slot i e bytes)
  still = record {
    full = same_length;
    dir = omega (arith, h.dir, same_count);
    rows = λ j k v. elim (Bool-cases (nat_beq i j)) [
      | inl t ↦
          let same : i ≡ j = ground (arith, t) in
          absurd (cc (now_invalid, v, ap (λ x. is_valid (read_slot (write_slot i e bytes) x)) same))
      | inr t ↦
          let differ : i ≢ j = ground (arith, t) in
          let old = other_slot j differ in
          let at = h.rows j (omega (arith, k, same_count)) (ap is_valid (sym old) ∙ v) in
          rw old (omega (arith, at.0, same_count), at.1)
    ];
  }

-- What clearing a slot has done.
pub record HasCleared (i : ℕ) (bytes bytes' : List ℕ) : Type 0 where
  pub valid : IsSlotted bytes'
  pub count : record_count bytes' ≡ record_count bytes
  pub id : page_id_of bytes' ≡ page_id_of bytes
  pub gone : get_slot i bytes' ≡ done none
  pub others : (j : ℕ) → i ≢ j → get_slot j bytes' ≡ get_slot j bytes

-- A slot that shows a row is cleared; one that shows none is not written.
pub data Clears (i : ℕ) (bytes : List ℕ) : Access (Option (List ℕ)) → Type 0 where
  cleared :
      (row : Row) (bytes' : List ℕ)
      → get_slot i bytes ≡ done (some row)
      → HasCleared i bytes bytes'
      → Clears i bytes (done (some bytes'))
  nothing : get_slot i bytes ≡ done none → Clears i bytes (done none)

-- On a slotted page, clear_slot makes a slot that shows a row show none, and every other slot shows
-- what it did; where the slot shows none, nothing is written.
pub clear_slot-Clears :
    (i : ℕ) (bytes : List ℕ) → IsSlotted bytes → Clears i bytes (clear_slot i bytes)
unfolding clear_slot
clear_slot-Clears i bytes h = elim (Bool-cases (leb (record_count bytes) i)) [
  | inl t ↦ rw t (nothing (get_slot-absent i bytes (ground (arith, t))))
  | inr t ↦
      let there : i < record_count bytes = ground (arith, t) in
      let placed : has_place i ≡ true = ground (arith, there, h.dir) in
      elim (Bool-cases (is_valid (read_slot bytes i))) [
        | inr v ↦ rw (t, placed, v) (nothing (get_slot-invalid i bytes there h.dir v))
        | inl v ↦
            let e : SlotEntry = record (read_slot bytes i) { valid = 0 } in
            rw (t, placed, v)
              (cleared _ (write_slot i e bytes)
                (get_slot-valid i bytes there h.dir v
                  ∙ ap some_row
                      (row_at-slice (read_slot bytes i) bytes _ (h.rows i there v).1 refl))
                (record {
                  valid = still bytes h i there e refl;
                  count = same_count bytes h i there e refl;
                  id = same_page_id bytes h i there e refl;
                  gone = cleared_none bytes h i there e refl;
                  others = same_rows bytes h i there e refl;
                }))
      ]
]
