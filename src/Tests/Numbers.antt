-- ===== src/Tests/Numbers.antt =====
-- encoding.go, field.go and unit.go at concrete inputs.
use gombus.Prelude.{ℕ, ◌+◌, ◌*◌, ◌≤◌, ◌<◌, ◌≡◌, ◌↔◌, ◌≢◌, refl, some, [], ◌∷◌, length, All, arith}
use gombus.Prelude.Int.{neg, negsuc}
use gombus.Result.{Bytes, IsByte, ok, ◌>>=◌}
use gombus.Encoding.{uint_to_bcd, bcd_magnitude, bcd_signed, bcd_digits_loop, int_le}
use gombus.Encoding.Bcd.{bcd_magnitude-uint_to_bcd}
use gombus.Encoding.Signed.{bcd_signed-bcd_magnitude}
use gombus.Encoding.LittleEndian.{int_le-signed}
use gombus.Units.{typed}
use gombus.Units.MeasureUnit
use gombus.Units.VifUnit
use gombus.Units.Table.{lookup_code, unit_table}
use gombus.Field.{decode_storage_number, decode_tariff, decode_device, decode_unit}
use gombus.Field.Numbers.{decode_numbers-number}
use gombus.Units.Codes.{vif_volume, vif_ext_volts}
use gombus.Field.TypeCodes.{decode_unit-code}
use gombus.Field.UnitLaws.{decode_unit-type}
use gombus.Field.Scales.{decade, decode_unit-cumul_count}
use gombus.Response.FixedUnits.{fixed_quantities, Coded, Informed, fixed_unit_of-quantities}
use gombus.Tests.{all_bytes_sound}

-- 12345678
abbrev serial_field : Bytes
serial_field = 0x78 ∷ 0x56 ∷ 0x34 ∷ 0x12 ∷ []

bcd_magnitude_run : bcd_magnitude serial_field ≡ ok 12345678
unfolding bcd_magnitude bcd_digits_loop
bcd_magnitude_run = refl

volume_entry : lookup_code 0x13 unit_table ≡ some (typed 1 (neg 3) MeasureUnit.m3 VifUnit.volume)
unfolding lookup_code unit_table
volume_entry = refl

bcd_magnitude-uint_to_bcd_example :
    (b : Bytes) × (uint_to_bcd 12345678 4 ≡ ok b)
    × (length b ≡ 4)
    × All IsByte b
    × (bcd_magnitude b ≡ ok 12345678)
bcd_magnitude-uint_to_bcd_example =
    bcd_magnitude-uint_to_bcd 12345678 4 (omega arith) (omega arith) (omega arith)

-- -123: F1 is a sign nibble and the digit 1.
bcd_signed-bcd_magnitude_example :
    bcd_signed (0x23 ∷ 0xF1 ∷ []) ≡ (bcd_magnitude (0x23 ∷ 0x01 ∷ []) >>= λ v. ok (neg v))
bcd_signed-bcd_magnitude_example =
    bcd_signed-bcd_magnitude (0x23 ∷ []) 0xF1 (omega arith) (all_bytes_sound (0x23 ∷ []) refl)
      (omega arith)

int_le-signed_example : int_le (0xFE ∷ 0xFF ∷ []) ≡ negsuc 1
int_le-signed_example = int_le-signed (0xFE ∷ 0xFF ∷ []) (all_bytes_sound (0xFE ∷ 0xFF ∷ []) refl)

decode_numbers-number_example :
    (decode_storage_number 0xC4 (0x95 ∷ 0x42 ∷ []) ≡ 1 + 2 * (5 + 16 * 2))
    × (decode_tariff (0x95 ∷ 0x42 ∷ []) ≡ 1)
    × (decode_device (0x95 ∷ 0x42 ∷ []) ≡ 2)
decode_numbers-number_example =
    decode_numbers-number 0xC4 (0x95 ∷ 0x42 ∷ []) (omega arith)
      (all_bytes_sound (0x95 ∷ 0x42 ∷ []) refl)

decode_unit-type_example :
    ((decode_unit 0x13 []).type < 0x100)
    × (0x100 ≤ (decode_unit 0xFD (0x1A ∷ [])).type)
    × ((decode_unit 0xFB (0x1A ∷ [])).type ≡ 0x21A)
decode_unit-type_example =
    decode_unit-type 0x13 0x1A [] [] (omega arith) (λ e. omega (arith, e)) (λ e. omega (arith, e))
      (omega arith)

decode_unit-code_example :
    ((decode_unit 0x93 (0x3B ∷ [])).type ≡ vif_volume)
    × ((decode_unit 0xFD (0x48 ∷ [])).type ≡ vif_ext_volts)
decode_unit-code_example =
    decode_unit-code 0x93 0x48 (0x3B ∷ []) [] (omega arith) (omega arith) (omega arith) refl

decode_unit-cumul_count_example :
    (((decode_unit 0xFB (0x79 ∷ [])).exp ≡ decade 1 3) ↔ (◌≢◌ {A = ℕ} 1 1))
    × ((decode_unit 0xFB (0x79 ∷ [])).exp ≡ (decode_unit 0xFB (0x78 ∷ [])).exp)
decode_unit-cumul_count_example = decode_unit-cumul_count 1 (omega arith)

-- Unit codes such as 05h, 10^3 Wh, and VIFs such as 05h, 10^2 Wh.
fixed_unit_of-quantities_example :
    All (Coded 3 0) fixed_quantities × All (Informed 5) fixed_quantities
fixed_unit_of-quantities_example = fixed_unit_of-quantities 3 5 0 (omega arith) (omega arith)
