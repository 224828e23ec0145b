-- ===== src/Floats.antt =====
-- The float64 of Go, as far as the package uses it: conversions, constants, products and comparisons.
-- No property depends on how they round, so the decoders take them as a parameter.
use gombus.Prelude.{ℕ, Bool}
use gombus.Prelude.Int.{ℤ, pos}
use gombus.Units.{Decimal}

pub record Floats : Type 1 where
  -- The type float64.
  pub Float : Type 0
  -- `float64(n)` of an int64 and of a uint64.
  pub of_int : ℤ → Float
  pub of_uint : ℕ → Float
  -- `float64(math.Float32frombits(bits))`
  pub of_float32 : ℕ → Float
  -- A constant of the source.
  pub of_decimal : Decimal → Float
  pub times : Float → Float → Float
  pub negate : Float → Float
  -- `n <= x` and `x < n` for a constant, and `int(x)`.
  pub at_least : ℕ → Float → Bool
  pub below : ℕ → Float → Bool
  pub to_int : Float → ℤ

abbrev pub zero_float : (F : Floats) → F.Float
zero_float F = F.of_int (pos 0)
