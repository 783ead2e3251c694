-- ===== src/Page.antt =====
-- include/page.h: a page of 4096 bytes with its dirty flag and its pin count (an int, which no run
-- raises to its limit).
use my_database_engine.Common.{ℕ, zero, suc, ◌+◌, ◌-◌, Bool, false, List, [], ◌∷◌, ◌++◌}
use my_database_engine.Wal.Bytes.{le_bytes}

unfoldable pub page_size : ℕ
page_size = 4096

-- sizeof(PageHeader)
unfoldable pub header_size : ℕ
header_size = 12

pub record Page : Type 0 where
  pub bytes : List ℕ
  pub is_dirty : Bool
  pub pin_count : ℕ

unfoldable pub zeros : ℕ → List ℕ
zeros zero = []
zeros (suc n) = 0 ∷ zeros n

-- pageId, freeSpace, recordCount and checksum, as they lie in memory on x86.
unfoldable pub header_bytes : ℕ → List ℕ
header_bytes id =
    le_bytes 4 id ++ (le_bytes 2 (page_size - header_size) ++ (le_bytes 2 0 ++ le_bytes 4 0))

-- Page(id)
unfoldable pub new_page_of : ℕ → Page
unfolding header_bytes zeros
new_page_of id = record {
  bytes = header_bytes id ++ zeros (page_size - header_size);
  is_dirty = false;
  pin_count = 0;
}

unfoldable pub set_dirty : Bool → Page → Page
set_dirty dirty page = record page { is_dirty = dirty }

unfoldable pub pin : Page → Page
pin page = record page { pin_count = page.pin_count + 1 }

-- `if (pinCount_ > 0) --pinCount_`, which is subtraction that stops at 0.
unfoldable pub unpin_page : Page → Page
unpin_page page = record page { pin_count = page.pin_count - 1 }
