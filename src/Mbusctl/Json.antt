-- ===== src/Mbusctl/Json.antt =====
-- cmd/mbusctl/json.go: what the tool writes with -json. The encoder is encoding/json, a parameter
-- of the commands (Bus.antt); a value that it is given is one constructor of `JsonValue`.
use gombus.Prelude.{ℕ, Bool, ◌&&◌, Option, none, some, List, [], map, ◌==◌, if◌then◌else◌}
use gombus.Units.{codes}
use gombus.Result.{Bytes, Error, Result, ok, err, fault}
use gombus.DateTime.{DateTime}
use gombus.Record.{DecodedDataRecord}
use gombus.Response.{DecodedFrame}
use gombus.Scan.{SecondaryAddress}
use gombus.Mbusctl.{Writer, write, unless_failed}

-- The type jsonRecord.
pub record JsonRecord (Float : Type 0) : Type 0 where
  pub function : Bytes
  pub storage_number : ℕ
  pub tariff : ℕ
  pub device : ℕ
  pub unit : Bytes
  pub unit_type : ℕ
  pub value : Float
  pub raw_value : Float
  pub value_string : Bytes
  pub value_error : Bytes
  pub time : Bytes

-- The type jsonFrame.
pub record JsonFrame (Float : Type 0) : Type 0 where
  pub serial_number : ℕ
  pub manufacturer : Bytes
  pub product_name : Bytes
  pub version : ℕ
  pub device_type : Bytes
  pub access_number : ℕ
  pub status : ℕ
  pub records : List (JsonRecord Float)

-- The type jsonSecondary.
pub record JsonSecondary : Type 0 where
  pub id : ℕ
  pub manufacturer : Bytes
  pub version : ℕ
  pub medium : ℕ

-- The arguments of writeJSON: a frame, an array of frames, jsonPrimaryScan, jsonSecondaryScan and
-- jsonSetAddress.
pub data JsonValue (Float : Type 0) : Type 0 where
  frame_object : JsonFrame Float → JsonValue Float
  frame_array : List (JsonFrame Float) → JsonValue Float
  primary_scan_object : List ℕ → JsonValue Float
  secondary_scan_object : List JsonSecondary → JsonValue Float
  set_address_object : ℕ → JsonValue Float

-- The method IsZero of time.Time.
unfoldable pub is_zero_time : DateTime → Bool
is_zero_time t =
    t.year == 1
    && (t.month == 1 && (t.day == 1 && (t.hour == 0 && (t.minute == 0 && t.second == 0))))

unfoldable pub error_or_empty : (Error → Bytes) → Option Error → Bytes
error_or_empty text none = []
error_or_empty text (some e) = text e

-- The texts of an error and of a time are `error_text` and `rfc3339`.
module _ {Float : Type 0} (error_text : Error → Bytes) (rfc3339 : DateTime → Bytes) where
  unfoldable pub new_json_record : DecodedDataRecord Float → JsonRecord Float
  unfolding error_or_empty is_zero_time
  new_json_record r = record {
    function = codes r.function;
    storage_number = r.storage_number;
    tariff = r.tariff;
    device = r.device;
    unit = r.unit.unit;
    unit_type = r.unit.type;
    value = r.value;
    raw_value = r.raw_value;
    value_string = r.value_string;
    value_error = error_or_empty error_text r.value_err;
    time = if is_zero_time r.time then [] else rfc3339 r.time;
  }

  unfoldable pub new_json_frame : DecodedFrame Float → JsonFrame Float
  unfolding new_json_record
  new_json_frame df = record {
    serial_number = df.serial_number;
    manufacturer = df.manufacturer;
    product_name = df.product_name;
    version = df.version;
    device_type = codes df.device_type;
    access_number = df.access_number;
    status = df.status;
    records = map new_json_record df.data_records;
  }

  unfoldable pub new_json_frames : List (DecodedFrame Float) → List (JsonFrame Float)
  unfolding new_json_frame
  new_json_frames frames = map new_json_frame frames

unfoldable pub new_json_secondary : SecondaryAddress → JsonSecondary
new_json_secondary sec = record {
  id = sec.id;
  manufacturer = sec.manufacturer;
  version = sec.version;
  medium = sec.medium;
}

-- `Encode` writes the whole text in one call, and nothing where the value cannot be encoded.
unfoldable pub write_encoded : Result Bytes → Writer → Result (Unit {0}) × Writer
unfolding write
write_encoded (ok text) w = let r = write text w in (unless_failed r.0, r.1)
write_encoded (err e) w = (err e, w)
write_encoded (fault x) w = (fault x, w)

unfoldable pub write_json :
    {Float : Type 0}
    → (JsonValue Float → Result Bytes)
    → JsonValue Float
    → Writer
    → Result (Unit {0}) × Writer
unfolding write_encoded
write_json encode v w = write_encoded (encode v) w
