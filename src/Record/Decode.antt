-- ===== src/Record/Decode.antt =====
-- decode.go: one data record, DIF to last data byte, and the walk over all of them.
use gombus.Prelude.{
  ℕ, zero, suc, ◌+◌, ◌-◌, true, false, List, [], ◌∷◌, Option, none, some, ltb, ◌==◌, ◌||◌,
  if◌then◌else◌, bit_and, length,
}
use gombus.Result.{Bytes, Result, ok, fault, out_of_fuel, ◌>>=◌, ◌>>◌, at, slice}
use gombus.Encoding.{check_kth_bit_set, decode_ascii}
use gombus.Units.{ValueUnit, decimal_one, text, date_none}
use gombus.Units.VifUnit
use gombus.Field.{
  decode_record_function, decode_unit, decode_storage_number, decode_device, decode_tariff,
  dif_mask_storage_no, vif_without_extension,
}
use gombus.Floats.{Floats}
use gombus.Record.{DecodedDataRecord, empty_record, unit_value, need, read_extensions}
use gombus.Record.Value.{decode_record_value}

-- The unit that a text names, with the scale of the VIFE.
unfoldable pub custom_unit_of : ℕ → Bytes → Bytes → ValueUnit
custom_unit_of vif vife custom_unit = record {
  exp = if check_kth_bit_set vif 7 then (decode_unit vif vife).exp else decimal_one;
  unit = custom_unit;
  type = VifUnit.variable_vif;
  vif_unit_desc = text "";
  date = date_none;
  raw = false;
}

-- The chain behind a byte that has its extension bit set.
unfoldable pub extensions_of : ℕ → Bytes → ℕ → Result Bytes
extensions_of b bytes i = if check_kth_bit_set b 7 then read_extensions bytes i else ok []

-- The text of a plain-text VIF, and the index behind it; `none` for every other VIF.
unfoldable pub custom_text : ℕ → Bytes → ℕ → Result (Option Bytes × ℕ)
custom_text vif bytes i =
    if bit_and vif vif_without_extension == 0x7C
    then (do
      need bytes i 1
      size ← at bytes i
      need bytes (i + 1) size
      s ← slice bytes (i + 1) (i + 1 + size)
      ok (some (decode_ascii s), i + 1 + size))
    else ok (none, i)

unfoldable pub unit_of_text : ℕ → Bytes → Option Bytes → ValueUnit
unfolding custom_unit_of
unit_of_text vif vife (some custom_unit) = custom_unit_of vif vife custom_unit
unit_of_text vif vife none = decode_unit vif vife

-- What the walk makes of the byte it stands on: 0Fh and 1Fh end it, 2Fh is skipped, and any other
-- byte starts a record.
pub data Marker : Type 0 where
  final idle start : Marker

unfoldable pub marker_of : ℕ → Marker
marker_of b = if b == 0x0F || b == 0x1F then final else if b == 0x2F then idle else start

module _ (F : Floats) where
  -- The record as it is before its data bytes are read.
  abbrev pub record_head : ℕ → Bytes → ValueUnit → DecodedDataRecord F.Float
  record_head dif dife unit = record (empty_record F) {
    function = decode_record_function dif;
    unit = unit;
    storage_number = decode_storage_number dif dife;
    device = decode_device dife;
    tariff = decode_tariff dife;
  }

  -- The record, and the number of bytes that it is made of.
  unfoldable pub decode_record : Bytes → ℕ → Result (DecodedDataRecord F.Float × ℕ)
  unfolding extensions_of custom_text unit_of_text
  decode_record bytes from = do
    dif ← at bytes from
    dife ← extensions_of dif bytes (from + 1)
    let i = from + 1 + length dife
    need bytes i 1
    vif ← at bytes i
    named ← custom_text vif bytes (i + 1)
    vife ← extensions_of vif bytes named.1
    let j = named.1 + length vife
    p ← decode_record_value F bytes j dif (record_head dif dife (unit_of_text vif vife named.0))
    ok (record p.0 { value = unit_value F p.0.unit p.0.raw_value }, j + p.1 - from)

  -- The record of 0Fh or 1Fh, which ends the walk.
  unfoldable pub last_record : ℕ → DecodedDataRecord F.Float
  last_record b = record (empty_record F) {
    function = decode_record_function b;
    storage_number = bit_and b dif_mask_storage_no;
    has_more_records = b == 0x1F;
  }

  -- The loop from index `i` on; every round reads a byte or more.
  unfoldable pub decode_data_loop : ℕ → Bytes → ℕ → Result (List (DecodedDataRecord F.Float))
  unfolding decode_record last_record marker_of
  decode_data_loop zero bytes i = if ltb i (length bytes) then fault out_of_fuel else ok []
  decode_data_loop (suc fuel) bytes i = elim (ltb i (length bytes)) [
    | true ↦ (do
      b ← at bytes i
      elim (marker_of b) [
        | final ↦ ok (last_record b ∷ [])
        | idle ↦ decode_data_loop fuel bytes (i + 1)
        | start ↦ (do
          p ← decode_record bytes i
          rest ← decode_data_loop fuel bytes (i + p.1)
          ok (p.0 ∷ rest))
      ])
    | false ↦ ok []
  ]

  unfoldable pub decode_data : Bytes → Result (List (DecodedDataRecord F.Float))
  unfolding decode_data_loop
  decode_data bytes = decode_data_loop (length bytes) bytes 0
