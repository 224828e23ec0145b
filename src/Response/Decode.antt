-- ===== src/Response/Decode.antt =====
-- decode.go: a response of either kind, from its bytes.
use gombus.Prelude.{ℕ, ◌-◌, ltb, ◌==◌, if◌then◌else◌, length}
use gombus.Result.{
  Bytes, Result, ok, err, sentinel, invalid_frame, unsupported_ci, ◌>>=◌, ◌>>◌, refuse, at, slice,
}
use gombus.Encoding.{bcd_magnitude}
use gombus.Field.{device_type_lookup}
use gombus.Floats.{Floats}
use gombus.Frame.LongFrame
use gombus.Record.Decode.{decode_data}
use gombus.Response.{DecodedFrame, uint16_le, decode_manufacturer, serial_of}
use gombus.Response.Text.{extract_product_name}
use gombus.Response.Fixed.{decode_fixed}

abbrev pub ci_variable_data_mode1 : ℕ
ci_variable_data_mode1 = 0x72

abbrev pub ci_fixed_data_mode1 : ℕ
ci_fixed_data_mode1 = 0x73

module _ (F : Floats) where
  -- `LongFrame.Decode` from the manufacturer on.
  unfoldable pub decode_variable : Bytes → Result (DecodedFrame F.Float)
  decode_variable lf = do
    man ← decode_manufacturer lf
    area ← slice lf 19 (length lf - 2)
    dr ← decode_data F area
    id ← slice lf 7 11
    serial ← serial_of (bcd_magnitude id)
    version ← at lf 13
    medium ← at lf 14
    access_number ← at lf 15
    status ← at lf 16
    low ← at lf 17
    high ← at lf 18
    ok (record {
      raw = lf;
      serial_number = serial;
      manufacturer = man;
      product_name = extract_product_name F man dr;
      version = version;
      device_type = device_type_lookup medium;
      access_number = access_number;
      signature = uint16_le low high;
      status = status;
      data_records = dr;
    })

  unfoldable pub decode : Bytes → Result (DecodedFrame F.Float)
  unfolding decode_variable
  decode lf = do
    refuse (ltb (length lf) 21) (sentinel invalid_frame)
    ci ← LongFrame.ci_field lf
    if ci == ci_variable_data_mode1
        then decode_variable lf
        else if ci == ci_fixed_data_mode1
        then decode_fixed F lf
        else err (sentinel unsupported_ci)
