-- ===== src/SlottedPage.antt =====
-- src/table_heap.cpp, as to one page: rows at the end of the page, and a directory of slots that
-- grows from its front. Numbers lie in a page as on x86; an access outside the page is undefined.
pub mod Memory
pub mod Layout
pub mod Slots
pub mod Written
pub mod Insert
pub mod Clear
mod Examples
use my_database_engine.Common.{
  ℕ, zero, suc, ◌+◌, ◌-◌, ◌*◌, ◌^◌, ◌%◌, Bool, true, false, not, ◌&&◌, Option, none, some, List, [],
  ◌∷◌, ◌++◌, length, take, drop, ltb, leb, nat_beq, if◌then◌else◌,
}
use my_database_engine.Ast.{Row}
use my_database_engine.RowCodec.{serialize_row, deserialize_row}
use my_database_engine.Wal.Bytes.{le_bytes, le_value}

-- `out_of_bounds` is a memcpy, or a string, from or to bytes outside the page.
pub data Access {ℓ} (A : Type ℓ) : Type ℓ where
  done : A → Access A
  out_of_bounds : Access A

-- PAGE_SIZE
abbrev pub page_end : ℕ
page_end = 4096

-- `width` bytes from `start` on.
abbrev pub slice : ℕ → ℕ → List ℕ → List ℕ
slice start width bytes = take width (drop start bytes)

-- The bytes from `start` on replaced by these.
unfoldable pub write_at : ℕ → List ℕ → List ℕ → List ℕ
write_at start written [] = []
write_at (suc start) written (b ∷ bytes) = b ∷ write_at start written bytes
write_at zero [] (b ∷ bytes) = b ∷ bytes
write_at zero (d ∷ written) (b ∷ bytes) = d ∷ write_at zero written bytes

-- RowId; slotIndex has 16 bits.
pub record RowId : Type 0 where
  pub page_id : ℕ
  pub slot_index : ℕ

-- UINT32_MAX
abbrev pub invalid_page_id : ℕ
invalid_page_id = 4294967295

-- SlotEntry with the byte that the compiler leaves unused behind it.
pub record SlotEntry : Type 0 where
  pub offset : ℕ
  pub width : ℕ
  pub valid : ℕ
  pub unused : ℕ

-- sizeof(SlotEntry)
abbrev pub slot_size : ℕ
slot_size = 6

-- sizeof(PageHeader) + sizeof(uint16_t)
abbrev pub slot_dir_start : ℕ
slot_dir_start = 14

-- The place of a slot; behind the last slot, the end of the directory.
abbrev pub slot_place : ℕ → ℕ
slot_place i = slot_dir_start + i * slot_size

unfoldable pub slot_bytes : SlotEntry → List ℕ
slot_bytes e = le_bytes 2 e.offset ++ (le_bytes 2 e.width ++ e.valid ∷ e.unused ∷ [])

-- The slot at a place, as memcpy reads it.
unfoldable pub read_slot : List ℕ → ℕ → SlotEntry
read_slot bytes i = record {
  offset = le_value (slice (slot_place i) 2 bytes);
  width = le_value (slice (slot_place i + 2) 2 bytes);
  valid = le_value (slice (slot_place i + 4) 1 bytes);
  unused = le_value (slice (slot_place i + 5) 1 bytes);
}

unfoldable pub write_slot : ℕ → SlotEntry → List ℕ → List ℕ
unfolding slot_bytes
write_slot i e bytes = write_at (slot_place i) (slot_bytes e) bytes

-- header().recordCount
unfoldable pub record_count : List ℕ → ℕ
record_count bytes = le_value (slice 6 2 bytes)

unfoldable pub set_record_count : ℕ → List ℕ → List ℕ
set_record_count n bytes = write_at 6 (le_bytes 2 n) bytes

-- page->id()
unfoldable pub page_id_of : List ℕ → ℕ
page_id_of bytes = le_value (slice 0 4 bytes)

-- A slot lies in the page.
abbrev pub has_place : ℕ → Bool
has_place i = leb (slot_place i + slot_size) page_end

abbrev pub is_valid : SlotEntry → Bool
is_valid e = not (nat_beq e.valid 0)

-- The loop over the first n slots that finds where the row data starts.
unfoldable pub data_start : List ℕ → ℕ → ℕ
unfolding read_slot
data_start bytes zero = page_end
data_start bytes (suc n) =
    let start = data_start bytes n in
    let e = read_slot bytes n in if is_valid e && ltb e.offset start then e.offset else start

-- The row data, the slot and the count, written behind the guard of insertIntoPage.
unfoldable pub write_row : ℕ → List ℕ → ℕ → List ℕ → Access (RowId × List ℕ)
unfolding write_slot record_count set_record_count page_id_of
write_row unset text offset bytes =
    let count = record_count bytes in
    let with_data = write_at offset text bytes in
    let with_slot =
      write_slot count (record { offset = offset; width = length text; valid = 1; unused = unset })
        with_data in
    if leb (offset + length text) page_end
    then done (
      record { page_id = page_id_of bytes; slot_index = count },
      set_record_count (count + 1) with_slot,
    )
    else out_of_bounds

-- insertIntoPage. The difference in the guard is an int: where it is negative, the comparison reads
-- it as a huge size_t, and the guard does not hold.
unfoldable pub insert_into_page : ℕ → Row → List ℕ → Access (RowId × List ℕ)
unfolding record_count data_start write_row
insert_into_page unset row bytes =
    let text = serialize_row row in
    let data_len = length text % 2 ^ 16 in
    let count = record_count bytes in
    let start = data_start bytes count in
    if ltb page_end (slot_place count)
    then out_of_bounds
    else if leb data_len start && ltb (start - data_len) (slot_place count + slot_size)
    then done (record { page_id = invalid_page_id; slot_index = 0 }, bytes)
    else write_row unset (take data_len text) ((start + 2 ^ 16 - data_len) % 2 ^ 16) bytes

-- The row that a slot shows.
unfoldable pub row_at : SlotEntry → List ℕ → Access Row
row_at e bytes =
    if leb (e.offset + e.width) page_end
    then done (deserialize_row (slice e.offset e.width bytes))
    else out_of_bounds

abbrev pub some_row : Access Row → Access (Option Row)
some_row (done row) = done (some row)
some_row out_of_bounds = out_of_bounds

-- The row of a slot, none if there is no such slot or it is not valid: getRow, on the page.
unfoldable pub get_slot : ℕ → List ℕ → Access (Option Row)
unfolding record_count read_slot row_at
get_slot i bytes =
    let e = read_slot bytes i in
    if leb (record_count bytes) i
    then done none
    else if not (has_place i)
    then out_of_bounds
    else if not (is_valid e)
    then done none
    else some_row (row_at e bytes)

-- The slot marked as not valid, none if there is no such slot or it is not: updateRow and deleteRow,
-- on the page.
unfoldable pub clear_slot : ℕ → List ℕ → Access (Option (List ℕ))
unfolding record_count read_slot write_slot
clear_slot i bytes =
    let e = read_slot bytes i in
    if leb (record_count bytes) i
    then done none
    else if not (has_place i)
    then out_of_bounds
    else if not (is_valid e)
    then done none
    else done (some (write_slot i (record e { valid = 0 }) bytes))
