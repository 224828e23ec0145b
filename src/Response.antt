-- ===== src/Response.antt =====
-- decode.go: what a response says, and the manufacturer code of its header.
pub mod Manufacturer
pub mod Text
pub mod Digits
pub mod FixedTable
pub mod Fixed
pub mod Decode
pub mod Total
pub mod FixedUnits
use gombus.Prelude.{
  ℕ, ◌+◌, ◌-◌, ◌*◌, ◌/◌, ◌%◌, ◌^◌, Bool, true, false, ◌||◌, not, List, [], ◌∷◌, String, ltb, leb,
  ◌==◌, if◌then◌else◌, bit_and, bit_or, length,
}
use gombus.Result.{
  Bytes, Result, ok, err, fault, sentinel, wrapped, invalid_frame, invalid_manufacturer, ◌>>=◌,
  ◌>>◌, refuse, at, slice,
}
use gombus.Encoding.{bcd_magnitude}
use gombus.Record.{DecodedDataRecord}

pub record DecodedFrame (Float : Type 0) : Type 0 where
  pub raw : Bytes
  pub serial_number : ℕ
  pub manufacturer : Bytes
  pub product_name : Bytes
  pub version : ℕ
  pub device_type : String
  pub access_number : ℕ
  pub signature : ℕ
  pub status : ℕ
  pub data_records : List (DecodedDataRecord Float)

-- `binary.LittleEndian.Uint16`
abbrev pub uint16_le : ℕ → ℕ → ℕ
uint16_le b0 b1 = bit_or b0 (b1 * 2 ^ 8)

abbrev pub manufacturer_end : ℕ
manufacturer_end = 13

-- The letters are ASCII, so the string of the three runes is three bytes.
unfoldable pub decode_manufacturer : Bytes → Result Bytes
decode_manufacturer lf = do
  refuse (ltb (length lf) manufacturer_end) (sentinel invalid_frame)
  b0 ← at lf 11
  b1 ← at lf 12
  let id = uint16_le b0 b1
  ok (
      (bit_and (id / 2 ^ 10) 0x1F + 64)
      ∷ (bit_and (id / 2 ^ 5) 0x1F + 64)
      ∷ (bit_and id 0x1F + 64)
      ∷ [])

-- The loop of `encodeManufacturer` of scan.go; `id` is a uint16.
unfoldable pub pack_letters : ℕ → Bytes → Result ℕ
pack_letters id [] = ok id
pack_letters id (ch ∷ code) =
    let rest = pack_letters (bit_or (id * 2 ^ 5 % 2 ^ 16) ((ch + 2 ^ 8 - 64) % 2 ^ 8)) code in
    if ltb ch 0x41 || ltb 0x5A ch then err (sentinel invalid_manufacturer) else rest

unfoldable pub encode_manufacturer : Bytes → Result Bytes
unfolding pack_letters
encode_manufacturer code = do
  refuse (not (length code == 3)) (sentinel invalid_manufacturer)
  id ← pack_letters 0 code
  ok (id % 256 ∷ id / 256 ∷ [])

-- The identification number: four BCD bytes from index 7 on, without which there is no frame.
unfoldable pub serial_of : Result ℕ → Result ℕ
serial_of (ok v) = ok v
serial_of (err e) = err (wrapped invalid_frame e)
serial_of (fault x) = fault x

module _ {Float : Type 0} where
  last_has_more : List (DecodedDataRecord Float) → Bool
  last_has_more [] = false
  last_has_more (r ∷ []) = r.has_more_records
  last_has_more (r ∷ s ∷ rest) = last_has_more (s ∷ rest)

  unfoldable pub has_more_records : DecodedFrame Float → Bool
  unfolding last_has_more
  has_more_records df = last_has_more df.data_records
