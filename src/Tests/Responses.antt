-- ===== src/Tests/Responses.antt =====
-- decode.go and decode_fixed.go on the response of a water meter.
use gombus.Prelude.{◌+◌, ◌*◌, ◌^◌, ◌≤◌, ◌<◌, ◌≡◌, ◌↔◌, refl, List, [], ◌∷◌, length, arith}
use gombus.Prelude.Int.{pos}
use gombus.Result.{Bytes, Ensures, ok, at, slice}
use gombus.Encoding.{check_kth_bit_set, int_le}
use gombus.Field.{decode_unit, unit_of_code, duration_of_limit_exceed, combinable_vifes}
use gombus.Units.Table.{lookup_code, unit_table}
use gombus.Record.{DecodedDataRecord, empty_record, need}
use gombus.Record.Time.{decode_record_time}
use gombus.Record.Lvar.{integer_raw_value}
use gombus.Record.Value.{decode_record_value}
use gombus.Record.Within.{decode_record_value-untimed}
use gombus.Record.Decode.{record_head, marker_of, decode_record, decode_data}
use gombus.Record.Embedded.Area.{IsArea, more_mark, filler, one, more}
use gombus.Record.Confined.Area.{decode_data-IsArea}
use gombus.Record.Walk.{IsRecord, IsWalk, decode_record_total, decode_data_total}
use gombus.DateTime.{zero_time}
use gombus.Response.Decode.{decode}
use gombus.Response.Total.{decode_total}
use gombus.Tests.{
  all_bytes_sound, Symbol, integer, constant, product, symbols, water_area, water_frame,
}

decode_total_example : Ensures (λ f. f.serial_number < 10 ^ 8) (decode symbols water_frame)
decode_total_example = decode_total symbols water_frame (all_bytes_sound water_frame refl)

decode_record_total_example :
    Ensures
      (λ p. (2 ≤ p.1) × (8 + p.1 ≤ length water_area) × IsRecord symbols p.0)
      (decode_record symbols water_area 8)
decode_record_total_example =
    decode_record_total symbols water_area 8 (all_bytes_sound water_area refl) (omega arith)

decode_data_total_example :
    Ensures
      (λ rs. IsWalk symbols rs × (2 * length rs ≤ length water_area + 1))
      (decode_data symbols water_area)
decode_data_total_example = decode_data_total symbols water_area (all_bytes_sound water_area refl)

-- A date VIF with a BCD data field.
abbrev date_in_bcd : DecodedDataRecord Symbol
date_in_bcd = record (empty_record symbols) { unit = decode_unit 0x6C [] }

decode_record_value-untimed_example :
    Ensures (λ p. p.0.time ≡ zero_time) (decode_record_value symbols water_area 2 0x0C date_in_bcd)
unfolding lookup_code
decode_record_value-untimed_example =
    decode_record_value-untimed symbols water_area (all_bytes_sound water_area refl) date_in_bcd
      (refl, refl) 2 0x0C (omega arith) refl

-- A volume of 42 litres in a binary integer.
abbrev litres : DecodedDataRecord Symbol
unfolding decode_unit
litres =
    let unit = decode_unit 0x13 [] in
    record (record_head symbols 0x01 [] unit) {
      raw_value = integer (pos 42);
      value = product (integer (pos 42)) (constant unit.exp);
    }

-- An idle filler, the volume, and manufacturer data.
abbrev volume_area : Bytes
volume_area = 0x2F ∷ 0x01 ∷ 0x13 ∷ 0x2A ∷ 0x1F ∷ 0xAA ∷ []

abbrev volume_records : List (DecodedDataRecord Symbol)
volume_records = litres ∷ more_mark symbols ∷ []

volume_area-IsArea : IsArea symbols volume_area volume_records
unfolding decode_record marker_of decode_unit at check_kth_bit_set need decode_record_value
    lookup_code slice decode_record_time unit_of_code unit_table duration_of_limit_exceed
    combinable_vifes integer_raw_value int_le
volume_area-IsArea = filler (
    one 0x01 (0x13 ∷ 0x2A ∷ []) (λ e. omega (arith, e)) (λ e. omega (arith, e))
      (λ e. omega (arith, e)) refl (more (0xAA ∷ [])))

decode_data-IsArea_example :
    (decode_data symbols volume_area ≡ ok volume_records)
    ↔ IsArea symbols volume_area volume_records
decode_data-IsArea_example =
    decode_data-IsArea symbols volume_area volume_records (all_bytes_sound volume_area refl)

decode_data-volume_area : decode_data symbols volume_area ≡ ok volume_records
decode_data-volume_area =
    (decode_data-IsArea symbols volume_area volume_records (all_bytes_sound volume_area refl)).1
      volume_area-IsArea
