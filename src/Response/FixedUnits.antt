-- ===== src/Response/FixedUnits.antt =====
-- decode_fixed.go: the units of the two counters, against the table of the VIFs.
use gombus.Prelude.{ℕ, zero, suc, ◌+◌, ◌%◌, ◌<◌, ◌≡◌, refl, List, [], ◌∷◌, All, arith, bit_and}
use gombus.Prelude.Bits.{agree, agree_sound}
use gombus.Result.{Bytes}
use gombus.Units.{Decimal, ValueUnit, codes}
use gombus.Units.Table.{unit_table, lookup_code}
use gombus.Field.{decode_unit, unit_of_code, combinable_vifes, duration_of_limit_exceed}
use gombus.Field.Scales.{decade}
use gombus.Response.FixedTable.{fixed_unit_table}
use gombus.Response.Fixed.{fixed_unit_of}

low_six : (v : ℕ) → v < 256 → bit_and v 0x3F ≡ v % 64
unfolding agree
low_six v h = agree_sound 256 (λ x. bit_and x 0x3F) (λ x. x % 64) v refl h

-- A counter of unit code 3Eh has the unit that the other counter has, whatever its own medium
-- bits.
pub fixed_unit_of-historic :
    (own other : ℕ)
    → own < 256
    → other < 256
    → own % 64 ≡ 0x3E
    → fixed_unit_of own other ≡ fixed_unit_of other own
unfolding fixed_unit_of
fixed_unit_of-historic own other h k e = ground (arith, low_six own h, low_six other k)

-- A quantity of both structures: its unit and its type; the lowest of its nine unit codes, which
-- scales by 10 ^ (`up` - `down`); and the lowest of its eight VIFs, which scales by 10 ^ -`offset`.
pub record Quantity : Type 0 where
  pub unit : Bytes
  pub type : ℕ
  pub code : ℕ
  pub up : ℕ
  pub down : ℕ
  pub vif : ℕ
  pub offset : ℕ

abbrev energy_wh : Quantity
energy_wh = record {
  unit = codes "WH";
  type = 0x07;
  code = 0x02;
  up = 0;
  down = 0;
  vif = 0x00;
  offset = 3;
}

abbrev energy_j : Quantity
energy_j = record {
  unit = codes "J";
  type = 0x0F;
  code = 0x0B;
  up = 3;
  down = 0;
  vif = 0x08;
  offset = 0;
}

abbrev volume : Quantity
volume = record {
  unit = codes "m^3";
  type = 0x17;
  code = 0x26;
  up = 0;
  down = 6;
  vif = 0x10;
  offset = 6;
}

abbrev power_w : Quantity
power_w = record {
  unit = codes "W";
  type = 0x2F;
  code = 0x14;
  up = 0;
  down = 0;
  vif = 0x28;
  offset = 3;
}

abbrev power_j_h : Quantity
power_j_h = record {
  unit = codes "J/h";
  type = 0x37;
  code = 0x1D;
  up = 3;
  down = 0;
  vif = 0x30;
  offset = 0;
}

abbrev volume_flow : Quantity
volume_flow = record {
  unit = codes "m^3/h";
  type = 0x3F;
  code = 0x2F;
  up = 0;
  down = 6;
  vif = 0x38;
  offset = 6;
}

abbrev pub fixed_quantities : List Quantity
fixed_quantities = energy_wh ∷ energy_j ∷ volume ∷ power_w ∷ power_j_h ∷ volume_flow ∷ []

-- A reading in this unit is one of the quantity, scaled by `exp`.
pub record Measures (q : Quantity) (exp : Decimal) (u : ValueUnit) : Type 0 where
  pub unit : u.unit ≡ q.unit
  pub type : u.type ≡ q.type
  pub scale : u.exp ≡ exp

-- Unit code n of the nine of a quantity, and VIF n of its eight.
abbrev pub Coded : ℕ → ℕ → Quantity → Type 0
Coded n other q = Measures q (decade (n + q.up) q.down) (fixed_unit_of (q.code + n) other)

abbrev pub Informed : ℕ → Quantity → Type 0
Informed n q = Measures q (decade n q.offset) (decode_unit (q.vif + n) [])

coded : (n other : ℕ) → n < 9 → All (Coded n other) fixed_quantities
unfolding fixed_unit_of fixed_unit_table lookup_code
coded zero other h = ground arith
coded (suc zero) other h = ground arith
coded (suc (suc zero)) other h = ground arith
coded (suc (suc (suc zero))) other h = ground arith
coded (suc (suc (suc (suc zero)))) other h = ground arith
coded (suc (suc (suc (suc (suc zero))))) other h = ground arith
coded (suc (suc (suc (suc (suc (suc zero)))))) other h = ground arith
coded (suc (suc (suc (suc (suc (suc (suc zero))))))) other h = ground arith
coded (suc (suc (suc (suc (suc (suc (suc (suc zero)))))))) other h = ground arith
coded (suc (suc (suc (suc (suc (suc (suc (suc (suc n))))))))) other h = absurd (omega arith)

informed : (n : ℕ) → n < 8 → All (Informed n) fixed_quantities
unfolding decode_unit unit_of_code combinable_vifes duration_of_limit_exceed unit_table lookup_code
informed zero h = ground arith
informed (suc zero) h = ground arith
informed (suc (suc zero)) h = ground arith
informed (suc (suc (suc zero))) h = ground arith
informed (suc (suc (suc (suc zero)))) h = ground arith
informed (suc (suc (suc (suc (suc zero))))) h = ground arith
informed (suc (suc (suc (suc (suc (suc zero)))))) h = ground arith
informed (suc (suc (suc (suc (suc (suc (suc zero))))))) h = ground arith
informed (suc (suc (suc (suc (suc (suc (suc (suc n)))))))) h = absurd (omega arith)

-- The six quantities of the fixed structure with nine decades (energy in Wh and J, volume, power in
-- W and J/h, and volume flow) have one unit and one type in both structures: unit code n of a
-- quantity has them whatever the other counter is, scaled by the n-th decade from the lowest one
-- of that structure on, and every VIF m of the eight of the same quantity has them too, scaled by
-- 10 ^ (m - k) with the k of its formula.
pub fixed_unit_of-quantities :
    (n m other : ℕ)
    → n < 9
    → m < 8
    → All (Coded n other) fixed_quantities × All (Informed m) fixed_quantities
fixed_unit_of-quantities n m other h k = (coded n other h, informed m k)
