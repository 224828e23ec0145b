-- ===== src/Response/Fixed.antt =====
-- decode_fixed.go: a fixed data response, two counters at fixed offsets.
use gombus.Prelude.{
  ℕ, ◌/◌, ◌^◌, List, [], ◌∷◌, Option, none, some, ltb, ◌==◌, if◌then◌else◌, bit_and, bit_or, length,
  get_or,
}
use gombus.Prelude.Int.{ℤ}
use gombus.Result.{
  Bytes, Result, ok, err, fault, sentinel, invalid_frame, noted, fixed_counter, ◌>>=◌, ◌>>◌, refuse,
  at, slice,
}
use gombus.Encoding.{int_le, bcd_signed, bcd_magnitude}
use gombus.Units.{ValueUnit, typed}
use gombus.Units.MeasureUnit
use gombus.Units.Table.{lookup_code}
use gombus.Field.{function_instantaneous, device_type_lookup}
use gombus.Field.Medium
use gombus.Floats.{Floats}
use gombus.Record.{DecodedDataRecord, empty_record, unit_value}
use gombus.Response.{DecodedFrame, serial_of}
use gombus.Response.FixedTable.{fixed_unit_table}
use gombus.Prelude.Int.{pos}

abbrev pub fixed_unit_same_historic : ℕ
fixed_unit_same_historic = 0x3E

abbrev pub fixed_min_frame_len : ℕ
fixed_min_frame_len = 25

abbrev pub fixed_counter2_storage_no : ℕ
fixed_counter2_storage_no = 1

abbrev pub fixed_medium_codes : List ℕ
fixed_medium_codes =
    Medium.other ∷ Medium.oil ∷ Medium.electricity ∷ Medium.gas ∷ Medium.heat_out ∷ Medium.steam
    ∷ Medium.hot_water ∷ Medium.water ∷ Medium.heat_cost ∷ Medium.unknown ∷ Medium.gas
    ∷ Medium.heat_out ∷ Medium.hot_water ∷ Medium.water ∷ Medium.heat_cost ∷ Medium.unknown ∷ []

-- The index has four bits, so it is in the table.
unfoldable pub fixed_medium : ℕ → ℕ → ℕ
fixed_medium unit1 unit2 =
    get_or fixed_medium_codes (bit_or (bit_and unit1 0xC0 / 2 ^ 6) (bit_and unit2 0xC0 / 2 ^ 4)) 0

abbrev pub fixed_unit_none : ValueUnit
fixed_unit_none = typed 1 (pos 0) MeasureUnit.none 0

abbrev pub unit_or_none : Option ValueUnit → ValueUnit
unit_or_none (some unit) = unit
unit_or_none none = fixed_unit_none

unfoldable pub fixed_unit_of : ℕ → ℕ → ValueUnit
fixed_unit_of own other =
    let code = bit_and own 0x3F in
    let other_code = bit_and other 0x3F in
    if code == fixed_unit_same_historic
    then (if other_code == fixed_unit_same_historic
        then fixed_unit_none
        else unit_or_none (lookup_code other_code fixed_unit_table))
    else unit_or_none (lookup_code code fixed_unit_table)

module _ (F : Floats) where
  -- The record of a value that decoded, and of one that did not.
  unfoldable pub counted : Result ℤ → DecodedDataRecord F.Float → Result (DecodedDataRecord F.Float)
  counted (ok v) r =
      ok (record r { raw_value = F.of_int v; value = unit_value F r.unit (F.of_int v) })
  counted (err e) r = ok (record r { value_err = some (noted fixed_counter e) })
  counted (fault x) r = fault x

  unfoldable pub fixed_record : Bytes → ℕ → ℕ → ℕ → ℕ → Result (DecodedDataRecord F.Float)
  unfolding counted fixed_unit_of
  fixed_record counter own other status storage =
      let r : DecodedDataRecord F.Float = record (empty_record F) {
        function = function_instantaneous;
        storage_number = storage;
        unit = fixed_unit_of own other;
      } in
      counted (if bit_and status 0x01 == 0 then bcd_signed counter else ok (int_le counter)) r

  unfoldable pub decode_fixed : Bytes → Result (DecodedFrame F.Float)
  unfolding fixed_record fixed_medium serial_of
  decode_fixed lf = do
    refuse (ltb (length lf) fixed_min_frame_len) (sentinel invalid_frame)
    id ← slice lf 7 11
    serial ← serial_of (bcd_magnitude id)
    status ← at lf 12
    unit1 ← at lf 13
    unit2 ← at lf 14
    counter1 ← slice lf 15 19
    counter2 ← slice lf 19 23
    access_number ← at lf 11
    first ← fixed_record counter1 unit1 unit2 status 0
    second ← fixed_record counter2 unit2 unit1 status fixed_counter2_storage_no
    ok (record {
      raw = [];
      serial_number = serial;
      manufacturer = [];
      product_name = [];
      version = 0;
      device_type = device_type_lookup (fixed_medium unit1 unit2);
      access_number = access_number;
      signature = 0;
      status = status;
      data_records = first ∷ second ∷ [];
    })
