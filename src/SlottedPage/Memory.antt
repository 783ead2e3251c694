-- ===== src/SlottedPage/Memory.antt =====
-- Reading bytes behind a write: what was written, and what was there before elsewhere.
use my_database_engine.Common.{
  ℕ, zero, suc, ◌+◌, ◌≤◌, ◌≡◌, refl, ap, List, [], ◌∷◌, length, take, drop, drop-drop, sym, ◌∙◌,
  arith,
}
use my_database_engine.SlottedPage.{slice, write_at}

pub length-write_at : (s : ℕ) (d b : List ℕ) → length (write_at s d b) ≡ length b
unfolding write_at
length-write_at s d [] = refl
length-write_at (suc s) d (x ∷ b) = ap suc (length-write_at s d b)
length-write_at zero [] (x ∷ b) = refl
length-write_at zero (y ∷ d) (x ∷ b) = ap suc (length-write_at zero d b)

-- Bytes in front of a write.
pub slice-write_at_before :
    (t w s : ℕ) (d b : List ℕ) → t + w ≤ s → slice t w (write_at s d b) ≡ slice t w b
unfolding write_at
slice-write_at_before t w s d [] h = refl
slice-write_at_before zero zero s d (x ∷ b) h = refl
slice-write_at_before zero (suc w) zero d (x ∷ b) h = absurd (omega (arith, h))
slice-write_at_before zero (suc w) (suc s) d (x ∷ b) h =
    ap (λ r. x ∷ r) (slice-write_at_before zero w s d b (omega arith))
slice-write_at_before (suc t) w zero d (x ∷ b) h = absurd (omega (arith, h))
slice-write_at_before (suc t) w (suc s) d (x ∷ b) h = slice-write_at_before t w s d b (omega arith)

-- Bytes behind a write.
pub drop-write_at_behind :
    (t s : ℕ) (d b : List ℕ) → s + length d ≤ t → drop t (write_at s d b) ≡ drop t b
unfolding write_at
drop-write_at_behind t s d [] h = refl
drop-write_at_behind zero zero [] (x ∷ b) h = refl
drop-write_at_behind (suc t) zero [] (x ∷ b) h = refl
drop-write_at_behind zero zero (y ∷ d) (x ∷ b) h = absurd (omega (arith, h))
drop-write_at_behind (suc t) zero (y ∷ d) (x ∷ b) h = drop-write_at_behind t zero d b (omega arith)
drop-write_at_behind zero (suc s) d (x ∷ b) h = absurd (omega (arith, h))
drop-write_at_behind (suc t) (suc s) d (x ∷ b) h = drop-write_at_behind t s d b (omega arith)

pub slice-write_at_behind :
    (t w s : ℕ) (d b : List ℕ) → s + length d ≤ t → slice t w (write_at s d b) ≡ slice t w b
slice-write_at_behind t w s d b h = ap (take w) (drop-write_at_behind t s d b h)

-- The bytes that were written.
pub slice-write_at :
    (s : ℕ) (d b : List ℕ) → s + length d ≤ length b → slice s (length d) (write_at s d b) ≡ d
unfolding write_at
slice-write_at zero [] b h = refl
slice-write_at (suc s) d [] h = absurd (omega (arith, h))
slice-write_at zero (y ∷ d) [] h = absurd (omega (arith, h))
slice-write_at zero (y ∷ d) (x ∷ b) h = ap (λ r. y ∷ r) (slice-write_at zero d b (omega arith))
slice-write_at (suc s) d (x ∷ b) h = slice-write_at s d b (omega arith)

pub slice-take : (i w n : ℕ) (b : List ℕ) → i + w ≤ n → slice i w (take n b) ≡ slice i w b
slice-take zero zero n b h = refl
slice-take (suc i) w zero b h = absurd (omega (arith, h))
slice-take zero (suc w) zero b h = absurd (omega (arith, h))
slice-take i w (suc n) [] h = refl
slice-take zero (suc w) (suc n) (x ∷ b) h = ap (λ r. x ∷ r) (slice-take zero w n b (omega arith))
slice-take (suc i) w (suc n) (x ∷ b) h = slice-take i w n b (omega arith)

-- A part of a slice.
pub slice-slice :
    (s i w n : ℕ) (b : List ℕ) → i + w ≤ n → slice i w (slice s n b) ≡ slice (s + i) w b
slice-slice s i w n b h = slice-take i w n (drop s b) h ∙ ap (take w) (sym (drop-drop s i b))
