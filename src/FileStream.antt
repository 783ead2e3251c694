-- ===== src/FileStream.antt =====
-- The part of `std::fstream` in binary mode that the engine uses: the bytes of the file, the one
-- position of a file buffer, and the eofbit and failbit of the stream. The badbit (a disk error) is
-- not modelled.
use my_database_engine.Common.{
  ℕ, ◌+◌, Bool, true, false, not, ◌||◌, Option, none, some, List, ◌++◌, length, take, drop, nat_beq,
  if◌then◌else◌,
}

pub record FileStream : Type 0 where
  pub bytes : List ℕ
  pub position : ℕ
  pub failed : Bool
  pub at_end : Bool

-- A stream that has just been opened.
abbrev pub opened : List ℕ → FileStream
opened bytes = record { bytes = bytes; position = 0; failed = false; at_end = false }

abbrev pub is_good : FileStream → Bool
is_good s = not (s.failed || s.at_end)

-- read(p, n): the bytes, or `none` where the stream converts to false afterwards.
unfoldable pub read_bytes : ℕ → FileStream → Option (List ℕ) × FileStream
read_bytes n s =
    let found = take n (drop s.position s.bytes) in
    if is_good s
    then (if nat_beq (length found) n
        then (some found, record s { position = s.position + n })
        else (
          none,
          record s { position = s.position + length found; failed = true; at_end = true },
        ))
    else (none, record s { failed = true })

-- write(p, n) at the position, over what stands there.
unfoldable pub write_bytes : List ℕ → FileStream → FileStream
write_bytes bs s =
    if is_good s
    then record s {
      bytes = take s.position s.bytes ++ (bs ++ drop (s.position + length bs) s.bytes);
      position = s.position + length bs;
    }
    else record s { failed = true }

-- seekg(n, beg): clears the eofbit, and moves unless the stream has failed.
unfoldable pub seek_get : ℕ → FileStream → FileStream
seek_get n s =
    if s.failed then record s { at_end = false } else record s { position = n; at_end = false }

-- seekp(0, end): moves unless the stream has failed.
unfoldable pub seek_put_end : FileStream → FileStream
seek_put_end s = if s.failed then s else record s { position = length s.bytes }

-- clear()
unfoldable pub clear : FileStream → FileStream
clear s = record s { failed = false; at_end = false }

-- seekp(n, beg): moves unless the stream has failed.
unfoldable pub seek_put : ℕ → FileStream → FileStream
seek_put n s = if s.failed then s else record s { position = n }
