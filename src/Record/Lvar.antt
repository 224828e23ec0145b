-- ===== src/Record/Lvar.antt =====
-- decode.go: a field of variable length, whose first byte gives its kind and its size.
use gombus.Prelude.{ℕ, ◌+◌, ◌-◌, Bool, ◌||◌, not, some, leb, ltb, ◌==◌, if◌then◌else◌, bit_and}
use gombus.Result.{
  Bytes, Result, ok, err, fault, message, noted, binary_size, float_size, reserved_lvar,
  lvar_bcd_data_field, ◌>>=◌, ◌>>◌, refuse, at, slice,
}
use gombus.Encoding.{decode_ascii, bcd_magnitude, uint_le, int_le, bytes_to_float32, max_le_bytes}
use gombus.Floats.{Floats}
use gombus.Record.{DecodedDataRecord, need}

module _ (F : Floats) where
  unfoldable pub integer_raw_value : Bytes → Bool → F.Float
  integer_raw_value b raw = if raw then F.of_uint (uint_le b) else F.of_int (int_le b)

  -- What `decodeLVAR` makes of the magnitude: one that does not decode is a bad value, not a bad
  -- frame. A uint64 is converted with its sign applied to the float.
  unfoldable pub signed_magnitude :
      Bool → Result ℕ → ℕ → DecodedDataRecord F.Float → Result (DecodedDataRecord F.Float × ℕ)
  signed_magnitude negative (ok v) size r =
      ok (record r { raw_value = if negative then F.negate (F.of_uint v) else F.of_uint v }, size)
  signed_magnitude negative (err e) size r =
      ok (record r { value_err = some (noted lvar_bcd_data_field e) }, size)
  signed_magnitude negative (fault x) size r = fault x

  -- The four ranges of the length byte, each with the payload that starts at index `i`.
  unfoldable pub lvar_text :
      Bytes → ℕ → ℕ → DecodedDataRecord F.Float → Result (DecodedDataRecord F.Float × ℕ)
  lvar_text bytes i size r = do
    need bytes i size
    s ← slice bytes i (i + size)
    ok (record r { value_string = decode_ascii s }, size)

  unfoldable pub lvar_bcd :
      Bytes → ℕ → Bool → ℕ → DecodedDataRecord F.Float → Result (DecodedDataRecord F.Float × ℕ)
  unfolding signed_magnitude
  lvar_bcd bytes i negative size r = do
    need bytes i size
    s ← slice bytes i (i + size)
    signed_magnitude negative (bcd_magnitude s) size r

  unfoldable pub lvar_binary :
      Bytes → ℕ → ℕ → DecodedDataRecord F.Float → Result (DecodedDataRecord F.Float × ℕ)
  unfolding integer_raw_value
  lvar_binary bytes i size r = do
    refuse (ltb size 1 || ltb max_le_bytes size) (message binary_size)
    need bytes i size
    s ← slice bytes i (i + size)
    ok (record r { raw_value = integer_raw_value s r.unit.raw }, size)

  unfoldable pub lvar_float :
      Bytes → ℕ → ℕ → DecodedDataRecord F.Float → Result (DecodedDataRecord F.Float × ℕ)
  lvar_float bytes i size r = do
    refuse (not (size == 4)) (message float_size)
    need bytes i size
    s ← slice bytes i (i + size)
    f ← bytes_to_float32 s
    ok (record r { raw_value = F.of_float32 f }, size)

  -- The number is that of the payload's bytes.
  unfoldable pub decode_lvar :
      Bytes → ℕ → DecodedDataRecord F.Float → Result (DecodedDataRecord F.Float × ℕ)
  unfolding lvar_text lvar_bcd lvar_binary lvar_float
  decode_lvar bytes i r = do
    need bytes i 1
    lvar ← at bytes i
    if leb lvar 0xBF
        then lvar_text bytes (i + 1) lvar r
        else if leb lvar 0xDF
        then lvar_bcd bytes (i + 1) (ltb 0xCF lvar) (bit_and lvar 0x0F) r
        else if leb lvar 0xEF
        then lvar_binary bytes (i + 1) (lvar - 0xE0) r
        else if leb lvar 0xFA
        then lvar_float bytes (i + 1) (lvar - 0xF0) r
        else err (message reserved_lvar)
