-- ===== src/Tests.antt =====
-- Runs of the models on concrete bytes, and the properties at concrete inputs.
mod Frames
mod Numbers
mod Times
mod Responses
mod Queries
mod Telegrams
mod Sessions
mod Buses
mod Scans
mod Tools
use gombus.Prelude.{
  ℕ, ◌+◌, ◌<◌, ◌≡◌, refl, Bool, true, ◌&&◌, List, [], ◌∷◌, All, ltb, ltb→lt, arith,
}
use gombus.Prelude.Int.{ℤ, pos, negsuc}
use gombus.Result.{Bytes, IsByte}
use gombus.Units.{Decimal}
use gombus.Floats.{Floats}

abbrev pub all_bytes : Bytes → Bool
all_bytes [] = true
all_bytes (b ∷ rest) = ltb b 256 && all_bytes rest

pub all_bytes_sound : (b : Bytes) → all_bytes b ≡ true → All IsByte b
all_bytes_sound [] h = tt
all_bytes_sound (x ∷ b) h = (ground arith, all_bytes_sound b (ground arith))

-- A float as the way it was made, for runs: only comparisons of integers are decided.
pub data Symbol : Type 0 where
  integer : ℤ → Symbol
  natural : ℕ → Symbol
  bits : ℕ → Symbol
  constant : Decimal → Symbol
  product : Symbol → Symbol → Symbol
  negative : Symbol → Symbol

abbrev as_integer : Symbol → ℤ
as_integer (integer n) = n
as_integer (natural n) = pos n
as_integer (bits n) = pos 0
as_integer (constant d) = pos 0
as_integer (product x y) = as_integer x
as_integer (negative x) = pos 0

abbrev is_at_least : ℕ → ℤ → Bool
is_at_least n (pos m) = ltb n (m + 1)
is_at_least n (negsuc m) = Bool.false

abbrev is_below : ℕ → ℤ → Bool
is_below n (pos m) = ltb m n
is_below n (negsuc m) = true

abbrev pub symbols : Floats
symbols = record {
  Float = Symbol;
  of_int = integer;
  of_uint = natural;
  of_float32 = bits;
  of_decimal = constant;
  times = product;
  negate = negative;
  at_least = λ n x. is_at_least n (as_integer x);
  below = λ n x. is_below n (as_integer x);
  to_int = as_integer;
}

-- The data area of a response: a volume of 2850427 litres in BCD, two idle bytes, a date and time
-- (2023-11-06, 08:30), a text, and manufacturer data with more records to come.
abbrev pub water_area : Bytes
water_area =
    0x0C ∷ 0x13 ∷ 0x27 ∷ 0x04 ∷ 0x85 ∷ 0x02 ∷ 0x2F ∷ 0x2F ∷ 0x04 ∷ 0x6D ∷ 0x1E ∷ 0x08 ∷ 0xE6 ∷ 0x2B
    ∷ 0x0D ∷ 0x78 ∷ 0x02 ∷ 0x42 ∷ 0x41 ∷ 0x1F ∷ 0xAA ∷ 0xBB ∷ []

-- The response of meter 12345678 of KAM with these records.
abbrev pub water_frame : Bytes
water_frame =
    0x68 ∷ 0x25 ∷ 0x25 ∷ 0x68 ∷ 0x08 ∷ 0x01 ∷ 0x72 ∷ 0x78 ∷ 0x56 ∷ 0x34 ∷ 0x12 ∷ 0x2D ∷ 0x2C ∷ 0x01
    ∷ 0x07 ∷ 0x55 ∷ 0x00 ∷ 0x00 ∷ 0x00 ∷ 0x0C ∷ 0x13 ∷ 0x27 ∷ 0x04 ∷ 0x85 ∷ 0x02 ∷ 0x2F ∷ 0x2F
    ∷ 0x04 ∷ 0x6D ∷ 0x1E ∷ 0x08 ∷ 0xE6 ∷ 0x2B ∷ 0x0D ∷ 0x78 ∷ 0x02 ∷ 0x42 ∷ 0x41 ∷ 0x1F ∷ 0xAA
    ∷ 0xBB ∷ 0xA0 ∷ 0x16 ∷ []
