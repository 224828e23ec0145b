-- ===== src/Record/Value.antt =====
-- decode.go: the data bytes of a record, by the data field of its DIF.
use gombus.Prelude.{ℕ, ◌+◌, List, [], ◌∷◌, Option, none, some, ◌==◌, ◌||◌, if◌then◌else◌, bit_and}
use gombus.Prelude.Int.{ℤ}
use gombus.Result.{
  Bytes, Result, ok, err, fault, message, noted, dif_field, bcd_data_field, ◌>>=◌, ◌>>◌, slice,
}
use gombus.Encoding.{bcd_signed, bytes_to_float32}
use gombus.Units.Table.{lookup_code}
use gombus.Field.{dif_mask_data}
use gombus.Floats.{Floats}
use gombus.Record.{DecodedDataRecord, need}
use gombus.Record.Time.{decode_record_time}
use gombus.Record.Lvar.{integer_raw_value, decode_lvar}

abbrev pub dif_integer_widths : List (ℕ × ℕ)
dif_integer_widths = (0x01, 1) ∷ (0x02, 2) ∷ (0x03, 3) ∷ (0x04, 4) ∷ (0x06, 6) ∷ (0x07, 8) ∷ []

abbrev pub dif_bcd_widths : List (ℕ × ℕ)
dif_bcd_widths = (0x09, 1) ∷ (0x0A, 2) ∷ (0x0B, 3) ∷ (0x0C, 4) ∷ (0x0E, 6) ∷ []

module _ (F : Floats) where
  -- The record after a BCD field: one that does not decode is a bad value, not a bad frame.
  unfoldable pub bcd_value :
      Result ℤ → ℕ → DecodedDataRecord F.Float → Result (DecodedDataRecord F.Float × ℕ)
  bcd_value (ok v) width r = ok (record r { raw_value = F.of_int v }, width)
  bcd_value (err e) width r = ok (record r { value_err = some (noted bcd_data_field e) }, width)
  bcd_value (fault x) width r = fault x

  unfoldable pub decode_integer_field :
      Bytes → ℕ → ℕ → DecodedDataRecord F.Float → Result (DecodedDataRecord F.Float × ℕ)
  unfolding need
  decode_integer_field bytes i width r = do
    need bytes i width
    b ← slice bytes i (i + width)
    -- The test for `DateNone` is the last clause of `decode_record_time`.
    r' ←
        decode_record_time F r.unit.date b
          (record r { raw_value = integer_raw_value F b r.unit.raw })
    ok (r', width)

  unfoldable pub decode_bcd_field :
      Bytes → ℕ → ℕ → DecodedDataRecord F.Float → Result (DecodedDataRecord F.Float × ℕ)
  unfolding bcd_value
  decode_bcd_field bytes i width r = do
    need bytes i width
    b ← slice bytes i (i + width)
    bcd_value (bcd_signed b) width r

  unfoldable pub decode_other_field :
      Bytes → ℕ → ℕ → DecodedDataRecord F.Float → Result (DecodedDataRecord F.Float × ℕ)
  decode_other_field bytes i field r =
      if field == 0x00 || field == 0x08
      then ok (r, 0)
      else if field == 0x05
      then (do
        need bytes i 4
        b ← slice bytes i (i + 4)
        f ← bytes_to_float32 b
        ok (record r { raw_value = F.of_float32 f }, 4))
      else if field == 0x0D
      then (do p ← decode_lvar F bytes i r; ok (p.0, 1 + p.1))
      else if field == 0x0F
      then ok (record r { function = "Special Function" }, 0)
      else err (message dif_field)

  -- The widths that the two tables give for the data field.
  unfoldable pub decode_field :
      Option ℕ
      → Option ℕ
      → Bytes
      → ℕ
      → ℕ
      → DecodedDataRecord F.Float
      → Result (DecodedDataRecord F.Float × ℕ)
  unfolding decode_integer_field decode_bcd_field decode_other_field
  decode_field (some width) bcd bytes i field r = decode_integer_field bytes i width r
  decode_field none (some width) bytes i field r = decode_bcd_field bytes i width r
  decode_field none none bytes i field r = decode_other_field bytes i field r

  unfoldable pub decode_record_value :
      Bytes → ℕ → ℕ → DecodedDataRecord F.Float → Result (DecodedDataRecord F.Float × ℕ)
  unfolding decode_field
  decode_record_value bytes i dif r =
      let field = bit_and dif dif_mask_data in
      decode_field (lookup_code field dif_integer_widths) (lookup_code field dif_bcd_widths) bytes i
        field r
