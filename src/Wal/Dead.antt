-- ===== src/Wal/Dead.antt =====
-- The constructor reads the log to its end and leaves the failbit set, and nothing clears it before
-- a write: a `WAL` never writes to its file and reads no record back.
use my_database_engine.Common.{
  ℕ, zero, suc, ◌+◌, ◌-◌, ◌≤◌, ◌<◌, ◌≡◌, ◌≢◌, ◌⊎◌, refl, ap, ◌∙◌, true, false, Option, none, some,
  List, [], ◌∷◌, arith, length, take, drop, nat_beq_iff, length-drop, length-take_le,
  length-take_short, inl, inr,
}
use native.Mathlib.Decide.{ℕ_discrete}
use my_database_engine.FileStream.{
  FileStream, opened, read_bytes, write_bytes, seek_get, seek_put_end, clear,
}
use my_database_engine.Wal.Bytes.{le_value}
use my_database_engine.Wal.{
  LogRecord, Reader, continue, pure, read_number, read_string, read_fields, read_record,
  read_records, Wal, open_wal, append, read_all,
}

-- A good stream inside its file.
abbrev IsAt : FileStream → Type 0
IsAt s = (s.failed ≡ false) × (s.at_end ≡ false) × (s.position ≤ length s.bytes)

-- After a read from `s`: a success moves forward inside the file, a failure stands at its end.
abbrev After {ℓ} : {A : Type ℓ} → FileStream → Option A × FileStream → Type 0
After s (some a, s') =
    (s'.bytes ≡ s.bytes)
    × (s'.failed ≡ false)
    × (s'.at_end ≡ false)
    × (s.position ≤ s'.position)
    × (s'.position ≤ length s.bytes)
After s (none, s') = (s'.bytes ≡ s.bytes) × (s'.failed ≡ true) × (s'.position ≡ length s.bytes)

-- The three results of a read.
pub read_bytes_full :
    (n : ℕ) (s : FileStream)
    → IsAt s
    → length (take n (drop s.position s.bytes)) ≡ n
    → read_bytes n s
      ≡ (some (take n (drop s.position s.bytes)), record s { position = s.position + n })
unfolding read_bytes
read_bytes_full n s h e =
    ground (arith, h.0, h.1, nat_beq_iff (length (take n (drop s.position s.bytes))) n)

read_bytes_short :
    (n : ℕ) (s : FileStream)
    → IsAt s
    → length (take n (drop s.position s.bytes)) ≢ n
    → read_bytes n s ≡ (
      none,
      record s {
        position = s.position + length (take n (drop s.position s.bytes));
        failed = true;
        at_end = true;
      },
    )
unfolding read_bytes
read_bytes_short n s h e =
    ground (arith, h.0, h.1, nat_beq_iff (length (take n (drop s.position s.bytes))) n)

After-read_bytes : (n : ℕ) (s : FileStream) → IsAt s → After s (read_bytes n s)
After-read_bytes n s h = elim (ℕ_discrete (length (take n (drop s.position s.bytes))) n) [
  | yes e ↦ rw (read_bytes_full n s h e) (
    refl,
    h.0,
    h.1,
    omega arith,
    omega
        (arith, length-take_le n (drop s.position s.bytes), length-drop s.position s.bytes, e, h.2),
  )
  | no e ↦ rw (read_bytes_short n s h e) (
    refl,
    refl,
    omega (
      arith,
      length-take_short n (drop s.position s.bytes) e,
      length-drop s.position s.bytes,
      h.2,
    ),
  )
]

After-further {ℓ} :
    {B : Type ℓ} (s s' : FileStream) (r : Option B × FileStream)
    → s'.bytes ≡ s.bytes
    → s.position ≤ s'.position
    → After s' r
    → After s r
After-further s s' (some b, s'') e h k =
    (k.0 ∙ e, k.1, k.2, omega arith, omega (arith, ap length e))
After-further s s' (none, s'') e h k = (k.0 ∙ e, k.1, k.2 ∙ ap length e)

After-continue {ℓ κ} :
    {A : Type ℓ} {B : Type κ} (s : FileStream) (r : Option A × FileStream) (f : A → Reader B)
    → After s r
    → ((a : A) (s' : FileStream) → IsAt s' → After s' (f a s'))
    → After s (continue r f)
After-continue s (none, s') f h k = h
After-continue s (some a, s') f h k =
    After-further s s' (f a s') h.0 h.3 (k a s' (h.1, h.2, omega (arith, ap length h.0)))

After-pure {ℓ} : {A : Type ℓ} (a : A) (s : FileStream) → IsAt s → After s (pure a s)
After-pure a s h = (refl, h.0, h.1, omega arith, h.2)

After-read_number : (n : ℕ) (s : FileStream) → IsAt s → After s (read_number n s)
unfolding read_number
After-read_number n s h =
    After-continue s (read_bytes n s) _ (After-read_bytes n s h)
      (λ a s' h'. After-pure (le_value a) s' h')

After-read_string : (s : FileStream) → IsAt s → After s (read_string s)
unfolding read_string
After-read_string s h =
    After-continue s _ _ (After-read_number 4 s h) (λ len s' h'. After-read_bytes len s' h')

-- The fields behind the first number of a record.
After-read_fields : (lsn : ℕ) (s : FileStream) → IsAt s → After s (read_fields lsn s)
unfolding read_fields
After-read_fields lsn s h = After-continue s _ _ (After-read_number 8 s h) λ b s2 h2.
    After-continue s2 _ _ (After-read_number 8 s2 h2) λ c s3 h3.
      After-continue s3 _ _ (After-read_number 1 s3 h3) λ d s4 h4.
        After-continue s4 _ _ (After-read_string s4 h4) λ t s5 h5.
          After-continue s5 _ _ (After-read_string s5 h5) λ k s6 h6.
            After-continue s6 _ _ (After-read_string s6 h6) λ o s7 h7.
              After-continue s7 _ _ (After-read_string s7 h7)
                λ n s8 h8. (refl, h8.0, h8.1, omega arith, h8.2)

-- A record that is read takes eight bytes at least: a failed first number is a failed record.
After-read_record :
    (s : FileStream)
    → IsAt s
    → After (record s { position = s.position + 8 }) (read_record s)
      ⊎ ((read_record s).0 ≡ none) × After s (read_record s)
unfolding read_record read_number
After-read_record s h = elim (ℕ_discrete (length (take 8 (drop s.position s.bytes))) 8) [
  | yes e ↦
      let room = length-take_le 8 (drop s.position s.bytes) in
      rw (read_bytes_full 8 s h e) (
        inl (
          After-read_fields _ (record s { position = s.position + 8 })
            (h.0, h.1, omega (arith, room, e, length-drop s.position s.bytes))))
  | no e ↦ rw (read_bytes_short 8 s h e) (
      inr (
        refl,
        (
          refl,
          refl,
          omega (
            arith,
            length-take_short 8 (drop s.position s.bytes) e,
            length-drop s.position s.bytes,
            h.2,
          ),
        ),
      ))
]

-- A stream that a failed read has left at the end of its file.
abbrev pub IsDead : List ℕ → FileStream → Type 0
IsDead bytes s = (s.bytes ≡ bytes) × (s.failed ≡ true) × (s.position ≡ length bytes)

read_records-IsDead :
    (f : ℕ) (s : FileStream)
    → IsAt s
    → length s.bytes - s.position < f
    → IsDead s.bytes (read_records f s).1
unfolding read_records
read_records-IsDead zero s h k = absurd (omega arith)
read_records-IsDead (suc f) s h k =
    go (read_records-IsDead f) (read_record s) (After-read_record s h)
  where
    after : Option LogRecord × FileStream → List LogRecord × FileStream
    after r = elim r.0 [
      | none ↦ ([], r.1)
      | some rec ↦ (rec ∷ (read_records f r.1).0, (read_records f r.1).1)
    ]

    go :
        ((s' : FileStream)
          → IsAt s'
          → length s'.bytes - s'.position < f
          → IsDead s'.bytes (read_records f s').1)
        → (r : Option LogRecord × FileStream)
        → After (record s { position = s.position + 8 }) r ⊎ (r.0 ≡ none) × After s r
        → IsDead s.bytes (after r).1
    go ih (none, s') (inl a) = a
    go ih (none, s') (inr a) = a.1
    go ih (some rec, s') (inl a) =
        let further =
          ih s' (a.1, a.2, omega (arith, ap length a.0, a.4))
            (omega (arith, ap length a.0, a.3, k)) in
        (further.0 ∙ a.0, further.1, further.2 ∙ ap length a.0)
    go ih (some rec, s') (inr a) = cc (a.0)

abbrev pub IsDeadWal : List ℕ → Wal → Type 0
IsDeadWal bytes wal = IsDead bytes wal.file

-- Opening a log file, whatever it holds, leaves the stream failed at the end of the file.
pub open_wal-IsDeadWal : (bytes : List ℕ) → IsDeadWal bytes (open_wal bytes)
unfolding open_wal
open_wal-IsDeadWal bytes =
    read_records-IsDead (suc (length bytes)) (opened bytes) (refl, refl, omega arith) (omega arith)

append-IsDeadWal :
    (bytes : List ℕ) (rec : LogRecord) (wal : Wal)
    → IsDeadWal bytes wal
    → IsDeadWal bytes (append rec wal).1
unfolding append write_bytes seek_put_end
append-IsDeadWal bytes rec wal h = ground (arith, h.0, h.1, h.2)

-- At the end of the file no record is read.
read_records_at_end :
    (f : ℕ) (s : FileStream)
    → IsAt s
    → s.position ≡ length s.bytes
    → (read_records (suc f) s).0 ≡ []
unfolding read_records
read_records_at_end f s h e = go (read_record s) (After-read_record s h)
  where
    after : Option LogRecord × FileStream → List LogRecord × FileStream
    after r = elim r.0 [
      | none ↦ ([], r.1)
      | some rec ↦ (rec ∷ (read_records f r.1).0, (read_records f r.1).1)
    ]

    go :
        (r : Option LogRecord × FileStream)
        → After (record s { position = s.position + 8 }) r ⊎ (r.0 ≡ none) × After s r
        → (after r).0 ≡ []
    go (none, s') a = refl
    go (some rec, s') (inl a) = absurd (omega (arith, a.3, a.4, e))
    go (some rec, s') (inr a) = cc (a.0)

read_all_dead :
    (bytes : List ℕ) (wal : Wal)
    → IsDeadWal bytes wal
    → ((read_all wal).0 ≡ []) × IsDeadWal bytes (read_all wal).1
unfolding read_all clear seek_get
read_all_dead bytes wal h =
    let start : FileStream = record wal.file { failed = false; at_end = false } in
    rw (h.1) (
      read_records_at_end (length wal.file.bytes) start
          (refl, refl, omega (arith, h.2, ap length h.0)) (omega (arith, h.2, ap length h.0)),
      let dead =
            read_records-IsDead (suc (length wal.file.bytes)) start
              (refl, refl, omega (arith, h.2, ap length h.0)) (omega arith) in
          (dead.0 ∙ h.0, dead.1, dead.2 ∙ ap length h.0),
    )

-- A call on an open log: `none` is readAll.
unfoldable pub run_wal : List (Option LogRecord) → Wal → Wal
run_wal [] wal = wal
run_wal (none ∷ calls) wal = run_wal calls (read_all wal).1
run_wal (some rec ∷ calls) wal = run_wal calls (append rec wal).1

run_wal-IsDeadWal :
    (bytes : List ℕ) (calls : List (Option LogRecord)) (wal : Wal)
    → IsDeadWal bytes wal
    → IsDeadWal bytes (run_wal calls wal)
unfolding run_wal
run_wal-IsDeadWal bytes [] wal h = h
run_wal-IsDeadWal bytes (none ∷ calls) wal h =
    run_wal-IsDeadWal bytes calls _ (read_all_dead bytes wal h).1
run_wal-IsDeadWal bytes (some rec ∷ calls) wal h =
    run_wal-IsDeadWal bytes calls _ (append-IsDeadWal bytes rec wal h)

-- Whatever is appended to and read from an open log, its file keeps the bytes that it had, and
-- readAll returns no record.
pub wal_never_writes :
    (bytes : List ℕ) (calls : List (Option LogRecord))
    → ((run_wal calls (open_wal bytes)).file.bytes ≡ bytes)
      × ((read_all (run_wal calls (open_wal bytes))).0 ≡ [])
wal_never_writes bytes calls =
    let dead = run_wal-IsDeadWal bytes calls (open_wal bytes) (open_wal-IsDeadWal bytes) in
    (dead.0, (read_all_dead bytes (run_wal calls (open_wal bytes)) dead).0)
