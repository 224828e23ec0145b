-- ===== src/Units.antt =====
-- unit.go: the unit of a reading. `Exp` is always a decimal constant of the source, kept as written;
-- the type that the floats of package `Numbers` give it is in Record.antt.
pub mod MeasureUnit
pub mod VifUnit
pub mod VifUnitExt
pub mod Primary
pub mod Flows
pub mod Extension
pub mod Electrical
pub mod Alternate
pub mod Table
pub mod Codes
use Prim.Native.Char.{code}
use gombus.Prelude.{ℕ, zero, suc, Bool, true, false, List, [], ◌∷◌, String}
use gombus.Prelude.Int.{ℤ, pos}
use gombus.Result.{Bytes}

-- A Go string as its bytes. Every literal of the models is ASCII.
abbrev pub codes : String → Bytes
codes String.[] = []
codes (String.◌∷◌ c s) = code c ∷ codes s

pub data DateFormat : Type 0 where
  date_none date_type_g date_type_f date_type_i : DateFormat

-- mantissa × 10 ^ power
pub record Decimal : Type 0 where
  pub mantissa : ℕ
  pub power : ℤ

-- `VIFUnitDesc`: a fixed text, or `unknown code 0x…` with the code.
pub data Description : Type 0 where
  text : String → Description
  unknown_code : ℕ → Description

-- The type Unit.
pub record ValueUnit : Type 0 where
  pub exp : Decimal
  pub unit : Bytes
  pub type : ℕ
  pub vif_unit_desc : Description
  pub date : DateFormat
  pub raw : Bool

abbrev pub decimal_one : Decimal
decimal_one = record { mantissa = 1; power = pos 0 }

-- Composite literals that leave out the fields that are zero.
abbrev pub typed : ℕ → ℤ → String → ℕ → ValueUnit
typed m p u t = record {
  exp = record { mantissa = m; power = p };
  unit = codes u;
  type = t;
  vif_unit_desc = text "";
  date = date_none;
  raw = false;
}

abbrev pub typed_raw : ℕ → ℤ → String → ℕ → ValueUnit
typed_raw m p u t = record {
  exp = record { mantissa = m; power = p };
  unit = codes u;
  type = t;
  vif_unit_desc = text "";
  date = date_none;
  raw = true;
}

abbrev pub typed_date : ℕ → ℤ → String → ℕ → DateFormat → ValueUnit
typed_date m p u t d = record {
  exp = record { mantissa = m; power = p };
  unit = codes u;
  type = t;
  vif_unit_desc = text "";
  date = d;
  raw = true;
}

abbrev pub described : ℕ → ℤ → String → String → ValueUnit
described m p u d = record {
  exp = record { mantissa = m; power = p };
  unit = codes u;
  type = 0;
  vif_unit_desc = text d;
  date = date_none;
  raw = false;
}
