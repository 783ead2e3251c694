-- ===== src/Doubles/Decimal.antt =====
-- An instance of `Doubles` for the tests: texts of decimal digits, as whole numbers.
use Prim.Native.Nat.{compare, Ordering}
use my_database_engine.Common.{
  ℕ, ◌+◌, ◌*◌, ◌-◌, Option, none, some, [], ◌∷◌, Text, ◌≡◌, arith, leb, ◌&&◌, if◌then◌else◌,
}
use my_database_engine.Doubles.{Doubles, DoubleOrder, less, equal, greater, flip}

abbrev digits_value : ℕ → Text → Option ℕ
digits_value n [] = some n
digits_value n (c ∷ cs) =
    let rest = digits_value (n * 10 + (c - 48)) cs in if leb 48 c && leb c 57 then rest else none

abbrev stod : Text → Option ℕ
stod [] = none
stod (c ∷ cs) = digits_value 0 (c ∷ cs)

abbrev order : ℕ → ℕ → DoubleOrder
order a b = elim (compare a b) [ Ordering.lt ↦ less | Ordering.eq ↦ equal | Ordering.gt ↦ greater ]

pub order_flip : (a b : ℕ) → order b a ≡ flip (order a b)
order_flip a b = ground arith

abbrev pub decimal : Doubles
decimal = record { Double = ℕ; stod = stod; order = order; order_flip = order_flip }
