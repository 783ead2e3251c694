-- ===== src/SlottedPage/Slots.antt =====
-- What a slot of a page shows.
use my_database_engine.Common.{
  ℕ, ◌+◌, ◌≤◌, ◌<◌, ◌≡◌, inl, inr, refl, ap, sym, ◌∙◌, true, false, none, List, arith, Bool-cases,
  leb,
}
use my_database_engine.RowCodec.{deserialize_row}
use my_database_engine.SlottedPage.{
  done, slice, SlotEntry, slot_place, read_slot, record_count, is_valid, has_place, page_end,
  some_row, row_at, get_slot,
}
use my_database_engine.SlottedPage.Layout.{IsSlotted}

pub get_slot-valid :
    (i : ℕ) (bytes : List ℕ)
    → i < record_count bytes
    → slot_place (record_count bytes) ≤ page_end
    → is_valid (read_slot bytes i) ≡ true
    → get_slot i bytes ≡ some_row (row_at (read_slot bytes i) bytes)
unfolding get_slot
get_slot-valid i bytes h dir v =
    let there : leb (record_count bytes) i ≡ false = ground (arith, h) in
    let placed : has_place i ≡ true = ground (arith, h, dir) in rw (there, placed, v) refl

pub get_slot-invalid :
    (i : ℕ) (bytes : List ℕ)
    → i < record_count bytes
    → slot_place (record_count bytes) ≤ page_end
    → is_valid (read_slot bytes i) ≡ false
    → get_slot i bytes ≡ done none
unfolding get_slot
get_slot-invalid i bytes h dir v =
    let there : leb (record_count bytes) i ≡ false = ground (arith, h) in
    let placed : has_place i ≡ true = ground (arith, h, dir) in rw (there, placed, v) refl

pub row_at-slice :
    (e : SlotEntry) (bytes text : List ℕ)
    → e.offset + e.width ≤ page_end
    → slice e.offset e.width bytes ≡ text
    → row_at e bytes ≡ done (deserialize_row text)
unfolding row_at
row_at-slice e bytes text h same =
    let inside : leb (e.offset + e.width) page_end ≡ true = ground (arith, h) in
    rw (inside, same) refl

pub get_slot-absent :
    (i : ℕ) (bytes : List ℕ) → record_count bytes ≤ i → get_slot i bytes ≡ done none
unfolding get_slot
get_slot-absent i bytes h =
    let missing : leb (record_count bytes) i ≡ true = ground (arith, h) in rw missing refl

-- The same slot of a slotted page and another one shows the same, if its row lies there too.
pub get_slot-same :
    (i : ℕ) (bytes bytes' : List ℕ)
    → IsSlotted bytes
    → i < record_count bytes
    → i < record_count bytes'
    → slot_place (record_count bytes') ≤ page_end
    → read_slot bytes' i ≡ read_slot bytes i
    → (is_valid (read_slot bytes i) ≡ true
        → slice (read_slot bytes i).offset (read_slot bytes i).width bytes'
          ≡ slice (read_slot bytes i).offset (read_slot bytes i).width bytes)
    → get_slot i bytes' ≡ get_slot i bytes
get_slot-same i bytes bytes' h k k' dir same row =
    elim (Bool-cases (is_valid (read_slot bytes i))) [
      | inr v ↦
          get_slot-invalid i bytes' k' dir (ap is_valid same ∙ v)
          ∙ sym (get_slot-invalid i bytes k h.dir v)
      | inl v ↦
          let e = read_slot bytes i in
          get_slot-valid i bytes' k' dir (ap is_valid same ∙ v)
          ∙ ap (λ s. some_row (row_at s bytes')) same
          ∙ ap some_row (
              row_at-slice e bytes' (slice e.offset e.width bytes) (h.rows i k v).1 (row v)
              ∙ sym (row_at-slice e bytes _ (h.rows i k v).1 refl))
          ∙ sym (get_slot-valid i bytes k h.dir v)
    ]
