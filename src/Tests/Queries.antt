-- ===== src/Tests/Queries.antt =====
-- records.go on a frame of three records.
use gombus.Prelude.{ℕ, ◌≡◌, ◌⊎◌, refl, List, [], ◌∷◌, some, All, ◌++◌}
use gombus.Prelude.Int.{pos}
use gombus.Result.{ok, err, sentinel, no_record, invalid_date_time}
use gombus.Units.{codes}
use gombus.Units.VifUnit
use gombus.Units.Table.{lookup_code, unit_table}
use gombus.Field.{
  function_instantaneous, decode_unit, unit_of_code, duration_of_limit_exceed, combinable_vifes,
}
use gombus.Record.{DecodedDataRecord, empty_record}
use gombus.Response.{DecodedFrame}
use gombus.Response.Text.{same_bytes}
use gombus.Query.{
  RecordMatch, match_type, match_function, match_current, match_storage, match_all, find_in, find,
  record_of, value_or_error, value,
}
use gombus.Query.Selection.{IsCurrent, Read, value_lem}
use gombus.Tests.{Symbol, symbols, integer}

-- A volume of storage number 1, the current volume, and an energy that did not decode.
abbrev volume_of : ℕ → ℕ → DecodedDataRecord Symbol
volume_of storage n = record (empty_record symbols) {
  function = function_instantaneous;
  storage_number = storage;
  unit = decode_unit 0x13 [];
  value = integer (pos n);
}

abbrev broken_energy : DecodedDataRecord Symbol
broken_energy = record (empty_record symbols) {
  function = function_instantaneous;
  unit = decode_unit 0x03 [];
  value_err = some (sentinel invalid_date_time);
}

abbrev meter : DecodedFrame Symbol
meter = record {
  raw = [];
  serial_number = 12345678;
  manufacturer = codes "KAM";
  product_name = [];
  version = 1;
  device_type = "Water";
  access_number = 0;
  signature = 0;
  status = 0;
  data_records = volume_of 1 5 ∷ volume_of 0 7 ∷ broken_energy ∷ [];
}

abbrev volumes : List (RecordMatch Symbol)
volumes = match_type VifUnit.volume ∷ []

find_run : find meter (match_storage 0 ∷ []) ≡ some (volume_of 0 7)
unfolding find find_in match_all match_storage
find_run = refl

-- The volume of storage number 1 is skipped, and the current one is read.
value_lem_example :
    (All (λ r. ¬ IsCurrent VifUnit.volume function_instantaneous r) meter.data_records
      × (value meter VifUnit.volume function_instantaneous ≡ err (sentinel no_record)))
    ⊎ ((before : List (DecodedDataRecord Symbol)) × (r : DecodedDataRecord Symbol) × (after : List
          (DecodedDataRecord Symbol))
        × (meter.data_records ≡ before ++ r ∷ after)
        × All (λ r. ¬ IsCurrent VifUnit.volume function_instantaneous r) before
        × IsCurrent VifUnit.volume function_instantaneous r
        × Read meter VifUnit.volume function_instantaneous r)
value_lem_example = value_lem meter VifUnit.volume function_instantaneous

value_run : value meter VifUnit.volume function_instantaneous ≡ ok (integer (pos 7))
unfolding value record_of find find_in match_all match_type match_function match_current same_bytes
    value_or_error decode_unit unit_of_code lookup_code unit_table duration_of_limit_exceed
    combinable_vifes
value_run = refl
