-- ===== src/Field.antt =====
-- field.go: what the DIF, VIF, DIFE and VIFE bytes of a record say of its value, and the name of a
-- medium code. `slog` warnings are left out: they change no result.
pub mod Medium
pub mod DeviceTypes
pub mod Numbers
pub mod UnitLaws
pub mod TypeCodes
pub mod Scales
use gombus.Prelude.{
  ℕ, ◌+◌, ◌-◌, ◌*◌, ◌/◌, ◌^◌, Bool, false, ◌&&◌, ◌||◌, String, List, [], ◌∷◌, Option, none, some,
  leb, ◌==◌, if◌then◌else◌, bit_and, bit_or, length, ltb,
}
use gombus.Prelude.Int.{ℤ, pos, sub_ℕ}
use gombus.Result.{Bytes}
use gombus.Encoding.{is_empty}
use gombus.Units.{
  ValueUnit, Decimal, Description, text, unknown_code, date_none, codes, decimal_one, typed,
  described,
}
use gombus.Units.MeasureUnit
use gombus.Units.VifUnit
use gombus.Units.Table.{unit_table, lookup_code}
use gombus.Field.DeviceTypes.{device_type_names}

-- The texts of `DecodedDataRecord.Function`, of vif.go.
abbrev pub function_instantaneous : String
function_instantaneous = "Instantaneous value"

abbrev pub function_maximum : String
function_maximum = "Maximum value"

abbrev pub function_minimum : String
function_minimum = "Minimum value"

abbrev pub function_during_error : String
function_during_error = "Value during error state"

-- The masks of constants.go that the decoders use.
abbrev pub dif_mask_data : ℕ
dif_mask_data = 0x0F

abbrev pub dif_mask_function : ℕ
dif_mask_function = 0x30

abbrev pub dif_mask_storage_no : ℕ
dif_mask_storage_no = 0x40

abbrev pub dife_mask_storage_no : ℕ
dife_mask_storage_no = 0x0F

abbrev pub dife_mask_tariff : ℕ
dife_mask_tariff = 0x30

abbrev pub dife_mask_device : ℕ
dife_mask_device = 0x40

abbrev pub vif_without_extension : ℕ
vif_without_extension = 0x7F

unfoldable pub decode_record_function : ℕ → String
decode_record_function dif =
    if dif == 0x0F
    then "Manufacturer specific"
    else if dif == 0x1F
    then "More records follow"
    else if dif == 0x2F
    then "Idle filler"
    else if dif == 0x7F
    then "Global readout request"
    else (let f = bit_and dif dif_mask_function in
        if f == 0x00
        then function_instantaneous
        else if f == 0x10
        then function_maximum
        else if f == 0x20
        then function_minimum
        else if f == 0x30
        then function_during_error
        else "Unknown")

abbrev pub wildcard_device_type : ℕ
wildcard_device_type = 0xFF

-- What `deviceTypeLookup` returns for a code, given what its table has for it.
device_type_or : ℕ → Option String → String
device_type_or device_type (some name) = name
device_type_or device_type none =
    if device_type == wildcard_device_type then "Not applicable (wildcard)" else "Reserved"

unfoldable pub device_type_lookup : ℕ → String
unfolding device_type_or device_type_names lookup_code
device_type_lookup device_type =
    device_type_or device_type (lookup_code device_type device_type_names)

abbrev pub vif_manufacturer_specific : ℕ
vif_manufacturer_specific = 0x7F

abbrev pub rest_of : Bytes → Bytes
rest_of [] = []
rest_of (_ ∷ vife) = vife

unfoldable pub combinable_vifes : ℕ → Bytes → Bytes
combinable_vifes vif vife =
    if bit_and vif vif_without_extension == vif_manufacturer_specific
    then []
    else if vif == 0xFB || vif == 0xFD
    then (if ltb (length vife) 2 then [] else rest_of vife)
    else vife

-- The array `durationTimeBases`, at an index below 4.
unfoldable pub duration_time_base : ℕ → ValueUnit
duration_time_base nn =
    if nn == 0
    then typed 1 (pos 0) MeasureUnit.seconds 0
    else if nn == 1
    then typed 60 (pos 0) MeasureUnit.seconds 0
    else if nn == 2
    then typed 3600 (pos 0) MeasureUnit.seconds 0
    else typed 86400 (pos 0) MeasureUnit.seconds 0

-- `none` is the result with `false`.
unfoldable pub duration_of_limit_exceed : Bytes → Option ValueUnit
unfolding duration_time_base
duration_of_limit_exceed [] = none
duration_of_limit_exceed (v ∷ vifes) =
    let code = bit_and v vif_without_extension in
    let more = duration_of_limit_exceed vifes in
    if code == 0x7F
    then none
    else if leb 0x50 code && leb code 0x5F
    then some (duration_time_base (bit_and code 0x03))
    else more

abbrev pub unknown_unit : Description → ValueUnit
unknown_unit d = record {
  exp = decimal_one;
  unit = codes "unknown";
  type = 0;
  vif_unit_desc = d;
  date = date_none;
  raw = false;
}

-- The factor of a VIFE behind the VIF FCh.
unfoldable pub variable_factor : ℕ → Decimal
variable_factor v =
    let code = bit_and v vif_without_extension in
    if leb 0x70 code && leb code 0x77
    then record { mantissa = 1; power = sub_ℕ (bit_and v 0x07) 6 }
    else if leb 0x78 code && leb code 0x7B
    then record { mantissa = 1; power = sub_ℕ (bit_and v 0x03) 3 }
    else if code == 0x7D
    then record { mantissa = 1000; power = pos 0 }
    else decimal_one

-- A duration of limit exceed replaces the exponent and the unit, and keeps the rest.
unfoldable pub override_duration : ValueUnit → Option ValueUnit → ValueUnit
override_duration unit none = unit
override_duration unit (some base) = record unit { exp = base.exp; unit = base.unit }

unfoldable pub unit_of_code : ℕ → Bytes → Option ValueUnit → ValueUnit
unfolding override_duration
unit_of_code code vifes none = unknown_unit (unknown_code code)
unit_of_code code vifes (some unit) = override_duration unit (duration_of_limit_exceed vifes)

-- The end of `decodeUnit`: the table, and the combinable VIFEs.
abbrev pub unit_for : ℕ → ℕ → Bytes → ValueUnit
unit_for code vif vife = unit_of_code code (combinable_vifes vif vife) (lookup_code code unit_table)

unfoldable pub decode_unit : ℕ → Bytes → ValueUnit
decode_unit vif [] =
    if vif == 0xFB || vif == 0xFD || vif == 0xFC
    then unknown_unit (text "missing VIFE")
    else unit_for (bit_and vif vif_without_extension) vif []
decode_unit vif (v ∷ vife) =
    if vif == 0xFB
    then unit_for (bit_or (bit_and v vif_without_extension) 0x200) vif (v ∷ vife)
    else if vif == 0xFD
    then unit_for (bit_or (bit_and v vif_without_extension) 0x100) vif (v ∷ vife)
    else if vif == 0xFC
    then record {
      exp = variable_factor v;
      unit = codes "variable";
      type = VifUnit.variable_vif;
      vif_unit_desc = text "";
      date = date_none;
      raw = false;
    }
    else unit_for (bit_and vif vif_without_extension) vif (v ∷ vife)

-- The loops over the DIFE chain. A chain has ten bytes at most, so no shift leaves an int.
unfoldable pub storage_number_loop : ℕ → ℕ → Bytes → ℕ
storage_number_loop result bit_index [] = result
storage_number_loop result bit_index (d ∷ dife) =
    storage_number_loop (bit_or result (bit_and d dife_mask_storage_no * 2 ^ bit_index))
      (bit_index + 4) dife

unfoldable pub decode_storage_number : ℕ → Bytes → ℕ
unfolding storage_number_loop
decode_storage_number dif dife =
    storage_number_loop (bit_and dif dif_mask_storage_no / 2 ^ 6) 1 dife

unfoldable pub tariff_loop : ℕ → ℕ → Bytes → ℕ
tariff_loop result bit_index [] = result
tariff_loop result bit_index (d ∷ dife) =
    tariff_loop (bit_or result (bit_and d dife_mask_tariff / 2 ^ 4 * 2 ^ bit_index)) (bit_index + 2)
      dife

unfoldable pub decode_tariff : Bytes → ℕ
unfolding tariff_loop
decode_tariff dife = tariff_loop 0 0 dife

unfoldable pub device_loop : ℕ → ℕ → Bytes → ℕ
device_loop result bit_index [] = result
device_loop result bit_index (d ∷ dife) =
    device_loop (bit_or result (bit_and d dife_mask_device / 2 ^ 6 * 2 ^ bit_index)) (bit_index + 1)
      dife

unfoldable pub decode_device : Bytes → ℕ
unfolding device_loop
decode_device dife = device_loop 0 0 dife
