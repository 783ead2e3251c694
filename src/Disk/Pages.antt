-- ===== src/Disk/Pages.antt =====
-- What the disk manager reads is what it wrote: the pages of a file are independent.
use my_database_engine.Common.{
  ℕ, zero, suc, ◌+◌, ◌*◌, ◌≤◌, ◌<◌, ◌≡◌, ◌≢◌, ◌⊎◌, inl, inr, refl, ap, ◌∙◌, sym, false, List, [],
  ◌∷◌, ◌++◌, arith, length, take, drop, length-drop, length-append, take-append, drop-nil,
  if◌then◌else◌, nat_beq, nat_beq_iff, Bool-cases, ltb, ◌%◌, ◌^◌,
}
use my_database_engine.FileStream.{read_bytes, write_bytes, seek_get, seek_put, seek_put_end}
use my_database_engine.Page.{page_size, Page}
use my_database_engine.Disk.{DiskManager, Result, ok, open_disk, read_page, write_page}

-- The bytes of a page in the file.
unfoldable pub page_at : ℕ → DiskManager → List ℕ
page_at id disk = take page_size (drop (id * page_size) disk.file.bytes)

-- The stream is good, and the file has the bytes of all pages.
pub record IsReady (disk : DiskManager) : Type 0 where
  pub not_failed : disk.file.failed ≡ false
  pub not_at_end : disk.file.at_end ≡ false
  pub whole : disk.page_count * page_size ≤ length disk.file.bytes

module _ {ℓ} {A : Type ℓ} where
  length-take : (n : ℕ) (xs : List A) → n ≤ length xs → length (take n xs) ≡ n
  length-take zero xs h = refl
  length-take (suc n) [] h = absurd (omega arith)
  length-take (suc n) (x ∷ xs) h = ap suc (length-take n xs (omega arith))

  -- Before the piece that is written.
  take-splice :
      (n j m : ℕ) (xs ys : List A)
      → j + n ≤ m
      → m ≤ length xs
      → take n (drop j (take m xs ++ ys)) ≡ take n (drop j xs)
  take-splice zero j m xs ys h k = refl
  take-splice (suc n) zero zero xs ys h k = absurd (omega arith)
  take-splice (suc n) zero (suc m) [] ys h k = absurd (omega arith)
  take-splice (suc n) zero (suc m) (x ∷ xs) ys h k =
      ap (λ r. x ∷ r) (take-splice n zero m xs ys (omega arith) (omega arith))
  take-splice (suc n) (suc j) zero xs ys h k = absurd (omega arith)
  take-splice (suc n) (suc j) (suc m) [] ys h k = absurd (omega arith)
  take-splice (suc n) (suc j) (suc m) (x ∷ xs) ys h k =
      take-splice (suc n) j m xs ys (omega arith) (omega arith)

  -- Behind it.
  drop-piece :
      (j : ℕ) (bs xs : List A) → length bs ≤ j → drop j (bs ++ drop (length bs) xs) ≡ drop j xs
  drop-piece j [] xs h = refl
  drop-piece zero (b ∷ bs) xs h = absurd (omega arith)
  drop-piece (suc j) (b ∷ bs) [] h =
      ap (λ r. drop j (bs ++ r)) (sym (drop-nil (length bs)))
      ∙ drop-piece j bs [] (omega arith)
      ∙ drop-nil j
  drop-piece (suc j) (b ∷ bs) (x ∷ xs) h = drop-piece j bs xs (omega arith)

  drop-splice :
      (j m : ℕ) (bs xs : List A)
      → m + length bs ≤ j
      → m ≤ length xs
      → drop j (take m xs ++ (bs ++ drop (m + length bs) xs)) ≡ drop j xs
  drop-splice j zero bs xs h k =
      let e : 0 + length bs ≡ length bs = omega arith in rw e (drop-piece j bs xs (omega arith))
  drop-splice zero (suc m) bs xs h k = absurd (omega arith)
  drop-splice (suc j) (suc m) bs [] h k = absurd (omega arith)
  drop-splice (suc j) (suc m) bs (x ∷ xs) h k =
      let e : suc m + length bs ≡ suc (m + length bs) = omega arith in
      rw e (drop-splice j m bs xs (omega arith) (omega arith))

  -- The piece itself.
  take-piece :
      (m : ℕ) (bs xs ys : List A)
      → m ≤ length xs
      → take (length bs) (drop m (take m xs ++ (bs ++ ys))) ≡ bs
  take-piece zero bs xs ys h = take-append bs ys
  take-piece (suc m) bs [] ys h = absurd (omega arith)
  take-piece (suc m) bs (x ∷ xs) ys h = take-piece m bs xs ys (omega arith)

<-cases : (k id : ℕ) → id ≢ k → (k < id) ⊎ (id < k)
<-cases k id differ = ground (arith, differ)

-- A page ends where the next one starts.
pub page_before : (id n : ℕ) → id < n → id * page_size + page_size ≤ n * page_size
unfolding page_size
page_before id n h = omega arith

-- The file behind a write of a page.
written : ℕ → List ℕ → List ℕ → List ℕ
written id bs bytes = take (id * page_size) bytes ++ (bs ++ drop (id * page_size + length bs) bytes)

write_page-disk :
    (id : ℕ) (page : Page) (disk : DiskManager)
    → IsReady disk
    → write_page id page disk ≡ (
      ok tt,
      record {
        file = record disk.file {
          bytes = written id page.bytes disk.file.bytes;
          position = id * page_size + length page.bytes;
        };
        page_count = if ltb id disk.page_count then disk.page_count else (id + 1) % 2 ^ 32;
      },
    )
unfolding write_page write_bytes seek_put written
write_page-disk id page disk h = ground (arith, h.not_failed, h.not_at_end)

pub length-page_at :
    (id : ℕ) (disk : DiskManager)
    → IsReady disk
    → id < disk.page_count
    → length (page_at id disk) ≡ page_size
unfolding page_at
length-page_at id disk h k = length-take page_size (drop (id * page_size) disk.file.bytes) (
    omega (
      arith,
      length-drop (id * page_size) disk.file.bytes,
      page_before id disk.page_count k,
      h.whole,
    ))

pub read_page-disk :
    (id : ℕ) (page : Page) (disk : DiskManager)
    → IsReady disk
    → id < disk.page_count
    → read_page id page disk ≡ (
      ok (record page { bytes = page_at id disk }),
      record disk { file = record disk.file { position = id * page_size + page_size } },
    )
unfolding read_page read_bytes seek_get page_at
read_page-disk id page disk h k =
    let full = length-page_at id disk h k in ground (arith, h.not_failed, h.not_at_end, full)

-- Every other page of the file holds what it held.
written_other :
    (k id : ℕ) (bs bytes : List ℕ)
    → length bs ≡ page_size
    → id * page_size ≤ length bytes
    → id ≢ k
    → take page_size (drop (k * page_size) (written id bs bytes))
      ≡ take page_size (drop (k * page_size) bytes)
unfolding written
written_other k id bs bytes e h differ = elim (<-cases k id differ) [
  | inl before ↦
      take-splice page_size (k * page_size) (id * page_size) bytes
        (bs ++ drop (id * page_size + length bs) bytes) (page_before k id before) h
  | inr behind ↦ ap (take page_size) (
      drop-splice (k * page_size) (id * page_size) bs bytes
        (omega (arith, e, page_before id k behind)) h)
]

-- The page holds what was written.
written_same :
    (id : ℕ) (bs bytes : List ℕ)
    → length bs ≡ page_size
    → id * page_size ≤ length bytes
    → take page_size (drop (id * page_size) (written id bs bytes)) ≡ bs
unfolding written
written_same id bs bytes e h =
    ap (λ n. take n (drop (id * page_size) (written id bs bytes))) (sym e)
    ∙ take-piece (id * page_size) bs bytes (drop (id * page_size + length bs) bytes) h

length-written :
    (id : ℕ) (bs bytes : List ℕ)
    → id * page_size ≤ length bytes
    → (length bytes ≤ length (written id bs bytes))
      × (id * page_size + length bs ≤ length (written id bs bytes))
unfolding written
length-written id bs bytes h =
    let len1 =
      length-append (take (id * page_size) bytes) (bs ++ drop (id * page_size + length bs) bytes) in
    let len2 = length-append bs (drop (id * page_size + length bs) bytes) in
    let len3 = length-drop (id * page_size + length bs) bytes in
    let len4 = length-take (id * page_size) bytes h in
    (omega (arith, len1, len2, len3, len4), omega (arith, len1, len2, len3, len4))

-- What a write of a page has done.
pub record WroteAt (id : ℕ) (page : Page) (disk : DiskManager) (r : Result {0} Unit × DiskManager)
    : Type 0 where
  pub wrote : r.0 ≡ ok tt
  pub ready : IsReady r.1
  pub count : r.1.page_count ≡ (if ltb id disk.page_count then disk.page_count else id + 1)
  pub same : page_at id r.1 ≡ page.bytes
  pub others : (k : ℕ) → id ≢ k → page_at k r.1 ≡ page_at k disk

mul-suc : (id : ℕ) → suc id * page_size ≡ id * page_size + page_size
unfolding page_size
mul-suc id = omega arith

count_whole :
    (id count size : ℕ)
    → count * page_size ≤ size
    → id * page_size + page_size ≤ size
    → (if ltb id count then count else id + 1) * page_size ≤ size
unfolding page_size
count_whole id count size h k = ground arith

offset_le : (id count size : ℕ) → id ≤ count → count * page_size ≤ size → id * page_size ≤ size
unfolding page_size
offset_le id count size h k = omega arith

pub write_page-WroteAt :
    (id : ℕ) (page : Page) (disk : DiskManager)
    → IsReady disk
    → length page.bytes ≡ page_size
    → id ≤ disk.page_count
    → id + 1 < 2 ^ 32
    → WroteAt id page disk (write_page id page disk)
unfolding page_at
write_page-WroteAt id page disk h e le small =
    let old = disk.file.bytes in
    let at = offset_le id disk.page_count (length old) le h.whole in
    let longer = length-written id page.bytes old at in
    let wraps : (id + 1) % 2 ^ 32 ≡ id + 1 = omega arith in
    rw (write_page-disk id page disk h) (
      rw wraps (record {
        wrote = refl;
        ready = record {
          not_failed = h.not_failed;
          not_at_end = h.not_at_end;
          whole =
              count_whole id disk.page_count (length (written id page.bytes old))
                (omega (arith, longer.0, h.whole)) (omega (arith, longer.1, e));
        };
        count = refl;
        same = written_same id page.bytes old e at;
        others = λ k differ. written_other k id page.bytes old e at differ;
      }))

-- After a page has been written every page of the file is read as it stands: the written one with
-- what was written, each other one as before. The conditions: the file is ready, the page has its
-- full size and is one of the file's or the next, and the page ids are not used up.
pub read_page-write_page :
    (id k : ℕ) (page blank : Page) (disk : DiskManager)
    → IsReady disk
    → length page.bytes ≡ page_size
    → id ≤ disk.page_count
    → id + 1 < 2 ^ 32
    → k < (write_page id page disk).1.page_count
    → (read_page k blank (write_page id page disk).1).0
      ≡ ok (record blank { bytes = if nat_beq id k then page.bytes else page_at k disk })
read_page-write_page id k page blank disk h e le small inside =
    let w = write_page-WroteAt id page disk h e le small in
    let r = read_page-disk k blank (write_page id page disk).1 w.ready inside in
    ap (λ x. x.0) r
    ∙ ap (λ bs. ok (record blank { bytes = bs }))
        (elim (Bool-cases (nat_beq id k)) [
          | inl t ↦ let e = (nat_beq_iff id k).0 t in rw t (rw (sym e) w.same)
          | inr t ↦ rw t (w.others k (λ e. ground (arith, e)))
        ])

-- A file that has just been opened is ready, whatever it holds.
pub open_disk-IsReady :
    (bytes : List ℕ) → IsReady (open_disk bytes) × ((open_disk bytes).page_count < 2 ^ 32)
unfolding open_disk seek_put_end page_size
open_disk-IsReady bytes =
    (record { not_failed = refl; not_at_end = refl; whole = omega arith }, omega arith)
