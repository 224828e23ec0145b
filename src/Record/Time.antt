-- ===== src/Record/Time.antt =====
-- datetime.go: the timestamp of a record. A record that the source changes through its pointer is
-- passed in and returned.
use gombus.Prelude.{Bool, some, ◌==◌, if◌then◌else◌, not, length}
use gombus.Result.{Bytes, Result, ok, err, fault, sentinel, unsupported_date_time, ◌>>=◌}
use gombus.Units.{DateFormat, date_none, date_type_g, date_type_f, date_type_i}
use gombus.DateTime.{
  DateTime, decode_type_g, decode_type_f, decode_type_i, date_type_g_width, date_type_f_width,
  date_type_i_width,
}
use gombus.Floats.{Floats}
use gombus.Record.{DecodedDataRecord}

module _ (F : Floats) where
  -- `if err != nil { record.ValueErr = err; return }; record.Time = t`
  unfoldable pub stamp :
      Result DateTime → DecodedDataRecord F.Float → Result (DecodedDataRecord F.Float)
  stamp (ok t) r = ok (record r { time = t })
  stamp (err e) r = ok (record r { value_err = some e })
  stamp (fault x) r = fault x

  unfoldable pub stamp_flagged :
      Bool × Result DateTime → DecodedDataRecord F.Float → Result (DecodedDataRecord F.Float)
  unfolding stamp
  stamp_flagged (summer_time, t) r = stamp t (record r { summer_time_flag = summer_time })

  -- The width of a type J field is refused like any other width but those of types F and I.
  unfoldable pub decode_record_date_time :
      Bytes → DecodedDataRecord F.Float → Result (DecodedDataRecord F.Float)
  unfolding stamp_flagged
  decode_record_date_time b r =
      if length b == date_type_f_width
      then (do t ← decode_type_f b; stamp_flagged t r)
      else if length b == date_type_i_width
      then (do t ← decode_type_i b; stamp_flagged t r)
      else ok (record r { value_err = some (sentinel unsupported_date_time) })

  unfoldable pub decode_record_time :
      DateFormat → Bytes → DecodedDataRecord F.Float → Result (DecodedDataRecord F.Float)
  unfolding stamp decode_record_date_time
  decode_record_time date_type_g b r =
      if not (length b == date_type_g_width)
      then ok (record r { value_err = some (sentinel unsupported_date_time) })
      else stamp (decode_type_g b) r
  decode_record_time date_type_f b r = decode_record_date_time b r
  decode_record_time date_type_i b r = ok r
  decode_record_time date_none b r = ok r
