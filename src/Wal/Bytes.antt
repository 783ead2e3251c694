-- ===== src/Wal/Bytes.antt =====
-- Little-endian integers of a fixed width.
use my_database_engine.Common.{
  ℕ, zero, suc, ◌+◌, ◌*◌, ◌/◌, ◌%◌, ◌^◌, ◌<◌, ◌≡◌, refl, List, [], ◌∷◌, length, arith, ap,
}
use native.Mathlib.Nat.{pow-suc}

-- The lowest `width` bytes of a number, the lowest first.
unfoldable pub le_bytes : ℕ → ℕ → List ℕ
le_bytes zero n = []
le_bytes (suc width) n = (n % 256) ∷ le_bytes width (n / 256)

unfoldable pub le_value : List ℕ → ℕ
le_value [] = 0
le_value (b ∷ bs) = b + 256 * le_value bs

pub length-le_bytes : (width n : ℕ) → length (le_bytes width n) ≡ width
unfolding le_bytes
length-le_bytes zero n = refl
length-le_bytes (suc width) n = ap suc (length-le_bytes width (n / 256))

-- A number that fits the width is read back.
pub le_value-le_bytes : (width n : ℕ) → n < 256 ^ width → le_value (le_bytes width n) ≡ n
unfolding le_bytes le_value
le_value-le_bytes zero n h = omega arith
le_value-le_bytes (suc width) n h =
    omega (arith, le_value-le_bytes width (n / 256) (omega (arith, pow-suc 256 width)))
