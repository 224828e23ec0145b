-- ===== src/Field/Scales.antt =====
-- The exponents of the unit tables against the formulas in the comments of unit.go, and the
-- duration VIFEs of field.go.
use gombus.Prelude.{
  List, All, ℕ, zero, suc, ◌+◌, ◌%◌, ◌<◌, ◌≤◌, ◌≡◌, ◌≢◌, ◌↔◌, refl, [], ◌∷◌, arith, bit_and, some,
  ◌==◌, if◌then◌else◌,
}
use gombus.Prelude.Int.{pos, sub_ℕ}
use gombus.Prelude.Bits.{agree, agree_sound}
use gombus.Result.{Bytes}
use gombus.Units.{Decimal, ValueUnit, typed, codes}
use gombus.Units.Table.{unit_table, lookup_code}
use gombus.Field.{decode_unit, unit_of_code, combinable_vifes, duration_of_limit_exceed}

-- 10 ^ (n - k)
abbrev pub decade : ℕ → ℕ → Decimal
decade n k = record { mantissa = 1; power = sub_ℕ n k }

-- The quantities with eight decades, as the VIF of the lowest one and the k of its formula: energy in
-- Wh and J, volume, mass, power in W and J/h, volume flow in m^3/h, m^3/min and m^3/s, and mass flow.
abbrev pub quantities : List (ℕ × ℕ)
quantities =
    (0x00, 3)
    ∷ (0x08, 0)
    ∷ (0x10, 6)
    ∷ (0x18, 3)
    ∷ (0x28, 3)
    ∷ (0x30, 0)
    ∷ (0x38, 6)
    ∷ (0x40, 7)
    ∷ (0x48, 9)
    ∷ (0x50, 3)
    ∷ []

-- Each VIF of the ten quantities with eight decades scales a reading by 10 ^ (n - k), with n its
-- low three bits and k that of the quantity.
pub decode_unit-quantities :
    (n : ℕ) → n < 8 → All (λ (q : ℕ × ℕ). (decode_unit (q.0 + n) []).exp ≡ decade n q.1) quantities
unfolding decode_unit unit_of_code combinable_vifes duration_of_limit_exceed unit_table lookup_code
decode_unit-quantities zero h = ground arith
decode_unit-quantities (suc zero) h = ground arith
decode_unit-quantities (suc (suc zero)) h = ground arith
decode_unit-quantities (suc (suc (suc zero))) h = ground arith
decode_unit-quantities (suc (suc (suc (suc zero)))) h = ground arith
decode_unit-quantities (suc (suc (suc (suc (suc zero))))) h = ground arith
decode_unit-quantities (suc (suc (suc (suc (suc (suc zero)))))) h = ground arith
decode_unit-quantities (suc (suc (suc (suc (suc (suc (suc zero))))))) h = ground arith
decode_unit-quantities (suc (suc (suc (suc (suc (suc (suc (suc n)))))))) h = absurd (omega arith)

-- The cumulative count of the maximum power (VIF FBh, VIFE 78h to 7Fh) follows the formula 10 ^
-- (nnn - 3) of its comment for every n but 1, where 79h has the exponent of 78h.
pub decode_unit-cumul_count :
    (n : ℕ)
    → n < 8
    → (((decode_unit 0xFB ((0x78 + n) ∷ [])).exp ≡ decade n 3) ↔ (n ≢ 1))
      × ((decode_unit 0xFB (0x79 ∷ [])).exp ≡ (decode_unit 0xFB (0x78 ∷ [])).exp)
unfolding decode_unit unit_of_code combinable_vifes duration_of_limit_exceed unit_table lookup_code
decode_unit-cumul_count zero h = ((λ e. ground arith, λ p. ground arith), refl)
decode_unit-cumul_count (suc zero) h = ((λ e. ground arith, λ p. ground arith), refl)
decode_unit-cumul_count (suc (suc zero)) h = ((λ e. ground arith, λ p. ground arith), refl)
decode_unit-cumul_count (suc (suc (suc zero))) h = ((λ e. ground arith, λ p. ground arith), refl)
decode_unit-cumul_count (suc (suc (suc (suc zero)))) h =
    ((λ e. ground arith, λ p. ground arith), refl)
decode_unit-cumul_count (suc (suc (suc (suc (suc zero))))) h =
    ((λ e. ground arith, λ p. ground arith), refl)
decode_unit-cumul_count (suc (suc (suc (suc (suc (suc zero)))))) h =
    ((λ e. ground arith, λ p. ground arith), refl)
decode_unit-cumul_count (suc (suc (suc (suc (suc (suc (suc zero))))))) h =
    ((λ e. ground arith, λ p. ground arith), refl)
decode_unit-cumul_count (suc (suc (suc (suc (suc (suc (suc (suc n)))))))) h = absurd (omega arith)

low_seven : (v : ℕ) → v < 256 → bit_and v 0x7F ≡ v % 128
unfolding agree
low_seven v h = agree_sound 256 (λ x. bit_and x 0x7F) (λ x. x % 128) v refl h

low_two : (v : ℕ) → v < 256 → bit_and (v % 128) 0x03 ≡ v % 4
unfolding agree
low_two v h = agree_sound 256 (λ x. bit_and (x % 128) 0x03) (λ x. x % 4) v refl h

-- The seconds of the time bases: second, minute, hour and day.
abbrev pub time_base : ℕ → ℕ
time_base nn = if nn == 0 then 1 else if nn == 1 then 60 else if nn == 2 then 3600 else 86400

duration_first :
    (v : ℕ) (vife : Bytes)
    → v < 256
    → 0x50 ≤ v % 128
    → v % 128 ≤ 0x5F
    → duration_of_limit_exceed (v ∷ vife) ≡ some (typed (time_base (v % 4)) (pos 0) "seconds" 0)
unfolding duration_of_limit_exceed
duration_first v vife h lo hi = ground (arith, low_seven v h, low_two v h)

-- Behind a VIF of the primary table, a first VIFE E101 ufnn makes the reading a duration in
-- seconds, whatever follows it and whatever the VIF measures; the type code stays that of the VIF.
pub decode_unit-duration :
    (vif v : ℕ) (vife : Bytes) (u : ValueUnit)
    → vif < 256
    → vif ≢ 0xFB
    → vif ≢ 0xFC
    → vif ≢ 0xFD
    → vif % 128 ≢ 0x7F
    → v < 256
    → 0x50 ≤ v % 128
    → v % 128 ≤ 0x5F
    → lookup_code (vif % 128) unit_table ≡ some u
    → decode_unit vif (v ∷ vife) ≡ record u {
      exp = record { mantissa = time_base (v % 4); power = pos 0 };
      unit = codes "seconds";
    }
unfolding decode_unit combinable_vifes unit_of_code
decode_unit-duration vif v vife u h a b c m k lo hi e =
    ground (arith, low_seven vif h, duration_first v vife k lo hi)
