-- ===== src/Record.antt =====
-- decode.go: a data record of a response, and the bounds check that every read is behind.
pub mod Time
pub mod Lvar
pub mod Value
pub mod Decode
pub mod Bounds
pub mod Within
pub mod Walk
pub mod Embedded
pub mod Confined
use gombus.Prelude.{
  ℕ, zero, suc, ◌+◌, Bool, true, false, String, List, [], ◌∷◌, Option, none, ltb, length,
  if◌then◌else◌,
}
use gombus.Prelude.Int.{pos}
use gombus.Result.{
  Bytes, Error, Result, ok, err, sentinel, message, short_data_record, too_many_extensions, ◌>>=◌,
  ◌>>◌, refuse, at,
}
use gombus.Encoding.{check_kth_bit_set}
use gombus.Units.{ValueUnit, text, date_none}
use gombus.DateTime.{DateTime, zero_time}
use gombus.Floats.{Floats, zero_float}

pub record DecodedDataRecord (Float : Type 0) : Type 0 where
  pub function : String
  pub storage_number : ℕ
  pub tariff : ℕ
  pub device : ℕ
  pub unit : ValueUnit
  pub value : Float
  pub value_string : Bytes
  pub raw_value : Float
  pub value_err : Option Error
  pub time : DateTime
  pub summer_time_flag : Bool
  pub has_more_records : Bool

-- `Unit{}`
abbrev pub zero_unit : ValueUnit
zero_unit = record {
  exp = record { mantissa = 0; power = pos 0 };
  unit = [];
  type = 0;
  vif_unit_desc = text "";
  date = date_none;
  raw = false;
}

-- `DecodedDataRecord{}`. The fields Exponent, Type and Quantity, which no code sets, are left out.
abbrev pub empty_record : (F : Floats) → DecodedDataRecord F.Float
empty_record F = record {
  function = "";
  storage_number = 0;
  tariff = 0;
  device = 0;
  unit = zero_unit;
  value = zero_float F;
  value_string = [];
  raw_value = zero_float F;
  value_err = none;
  time = zero_time;
  summer_time_flag = false;
  has_more_records = false;
}

-- The method Unit.Value.
abbrev pub unit_value : (F : Floats) → ValueUnit → F.Float → F.Float
unit_value F u v = F.times v (F.of_decimal u.exp)

unfoldable pub need : Bytes → ℕ → ℕ → Result (Unit {0})
need bytes i n = refuse (ltb (length bytes) (i + n)) (sentinel short_data_record)

abbrev pub max_extensions : ℕ
max_extensions = 10

-- The loop of `readExtensions`, with the number of extensions it may still read.
unfoldable pub read_extensions_loop : ℕ → Bytes → ℕ → Result Bytes
unfolding need
read_extensions_loop zero bytes i = err (message too_many_extensions)
read_extensions_loop (suc left) bytes i = do
  need bytes i 1
  b ← at bytes i
  let more = read_extensions_loop left bytes (i + 1)
  if check_kth_bit_set b 7 then (do rest ← more; ok (b ∷ rest)) else ok (b ∷ [])

unfoldable pub read_extensions : Bytes → ℕ → Result Bytes
unfolding read_extensions_loop
read_extensions bytes i = read_extensions_loop max_extensions bytes i
