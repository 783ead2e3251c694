-- ===== src/Doubles.antt =====
-- The floating-point part of the C++ library that the engine uses: `std::stod` and the comparison
-- of two doubles. Nothing is assumed of which texts are numbers.
pub mod Decimal
use my_database_engine.Common.{Option, Text, ◌≡◌}

-- IEEE 754: exactly one of these holds between two doubles, the last if one of them is NaN.
pub data DoubleOrder : Type 0 where
  less equal greater unordered : DoubleOrder

-- The order seen from the other side.
abbrev pub flip : DoubleOrder → DoubleOrder
flip less = greater
flip equal = equal
flip greater = less
flip unordered = unordered

pub record Doubles : Type 1 where
  pub Double : Type 0
  -- `none` where `std::stod` throws
  pub stod : Text → Option Double
  pub order : Double → Double → DoubleOrder
  pub order_flip : (a b : Double) → order b a ≡ flip (order a b)
