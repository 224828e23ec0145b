-- ===== src/Wireless/Link.antt =====
-- wmbus/link.go: the link layer, in frame formats A and B and with the CRCs already removed.
pub mod Total
pub mod Blocks
pub mod RoundTrip
pub mod FormatB
use gombus.Prelude.{
  ℕ, zero, suc, ◌+◌, ◌-◌, ◌*◌, ◌/◌, ◌%◌, ◌^◌, ◌||◌, not, String, List, [], ◌∷◌, ◌++◌, ltb, leb,
  ◌==◌, if◌then◌else◌, bit_and, length, min, replicate,
}
use gombus.Result.{
  Bytes, Result, ok, err, fault, out_of_fuel, sentinel, wrapped, noted, joined, crc_block,
  wireless_invalid_frame, ◌>>=◌, ◌>>◌, refuse, at, slice,
}
use gombus.Response.{uint16_le, decode_manufacturer}
use gombus.Wireless.Crc.{check_crc}

pub data Format : Type 0 where
  format_a format_b format_stripped : Format

-- The method Format.String, on the formats that there are.
unfoldable pub format_name : Format → String
format_name format_a = "A"
format_name format_b = "B"
format_name format_stripped = "CRC-stripped"

abbrev pub dll_header_len : ℕ
dll_header_len = 10

-- `ident` has four bytes.
pub record Frame : Type 0 where
  pub format : Format
  pub c : ℕ
  pub manufacturer_code : ℕ
  pub ident : Bytes
  pub version : ℕ
  pub device_type : ℕ
  pub payload : Bytes

unfoldable pub new_frame : Format → Bytes → Bytes → Result Frame
new_frame format raw payload = do
  c ← at raw 1
  m0 ← at raw 2
  m1 ← at raw 3
  version ← at raw 8
  device_type ← at raw 9
  ident ← slice raw 4 8
  ok (record {
    format = format;
    c = c;
    manufacturer_code = uint16_le m0 m1;
    ident = ident;
    version = version;
    device_type = device_type;
    payload = payload;
  })

-- The byte count and the offset of an error text are left out.
unfoldable pub block_error : Result (Unit {0}) → Result (Unit {0})
block_error (ok u) = ok u
block_error (err e) = err (noted crc_block e)
block_error (fault x) = fault x

abbrev pub block_len : ℕ
block_len = 16

-- The loop of `stripFormatABlocks`: every round takes a byte or more of those that remain.
unfoldable pub strip_blocks : ℕ → Bytes → ℕ → ℕ → Result Bytes
unfolding block_error
strip_blocks zero raw offset remaining = if remaining == 0 then ok [] else fault out_of_fuel
strip_blocks (suc fuel) raw offset remaining =
    let n = min remaining block_len in
    let rest = strip_blocks fuel raw (offset + n + 2) (remaining - n) in
    let round = (do
      refuse (ltb (length raw) (offset + n + 2)) (sentinel wireless_invalid_frame)
      body ← slice raw offset (offset + n)
      crc ← slice raw (offset + n) (offset + n + 2)
      block_error (check_crc body crc)
      more ← rest
      ok (body ++ more)) in
    if remaining == 0 then ok [] else round

unfoldable pub strip_format_a_blocks : Bytes → ℕ → Result Bytes
unfolding strip_blocks
strip_format_a_blocks raw payload_len =
    strip_blocks payload_len raw (dll_header_len + 2) payload_len

unfoldable pub parse_format_a : Bytes → Result Frame
unfolding new_frame block_error strip_format_a_blocks
parse_format_a raw = do
  refuse (ltb (length raw) (dll_header_len + 2)) (sentinel wireless_invalid_frame)
  l ← at raw 0
  refuse (ltb l (dll_header_len - 1)) (sentinel wireless_invalid_frame)
  header ← slice raw 0 dll_header_len
  crc ← slice raw dll_header_len (dll_header_len + 2)
  block_error (check_crc header crc)
  payload ← strip_format_a_blocks raw (l - (dll_header_len - 1))
  new_frame format_a raw payload

abbrev pub format_b_first_crc_end : ℕ
format_b_first_crc_end = 128

-- `ParseFormatB` of a telegram with one CRC, and of one with two.
unfoldable pub parse_one_block : Bytes → ℕ → Result Frame
unfolding new_frame block_error
parse_one_block raw total = do
  body ← slice raw 0 (total - 2)
  crc ← slice raw (total - 2) total
  block_error (check_crc body crc)
  payload ← slice raw dll_header_len (total - 2)
  new_frame format_b raw payload

unfoldable pub parse_two_blocks : Bytes → ℕ → Result Frame
unfolding new_frame block_error
parse_two_blocks raw total = do
  refuse (ltb total (format_b_first_crc_end + 3)) (sentinel wireless_invalid_frame)
  body1 ← slice raw 0 (format_b_first_crc_end - 2)
  crc1 ← slice raw (format_b_first_crc_end - 2) format_b_first_crc_end
  block_error (check_crc body1 crc1)
  body2 ← slice raw format_b_first_crc_end (total - 2)
  crc2 ← slice raw (total - 2) total
  block_error (check_crc body2 crc2)
  payload1 ← slice raw dll_header_len (format_b_first_crc_end - 2)
  payload2 ← slice raw format_b_first_crc_end (total - 2)
  new_frame format_b raw (payload1 ++ payload2)

unfoldable pub parse_format_b : Bytes → Result Frame
unfolding parse_one_block parse_two_blocks
parse_format_b raw = do
  refuse (ltb (length raw) (dll_header_len + 2)) (sentinel wireless_invalid_frame)
  l ← at raw 0
  let total = l + 1
  refuse (ltb total (dll_header_len + 2)) (sentinel wireless_invalid_frame)
  refuse (ltb (length raw) total) (sentinel wireless_invalid_frame)
  if leb total format_b_first_crc_end then parse_one_block raw total else parse_two_blocks raw total

unfoldable pub parse_without_crc : Bytes → Result Frame
unfolding new_frame
parse_without_crc raw = do
  refuse (ltb (length raw) dll_header_len) (sentinel wireless_invalid_frame)
  l ← at raw 0
  let total = l + 1
  refuse (ltb total dll_header_len) (sentinel wireless_invalid_frame)
  refuse (ltb (length raw) total) (sentinel wireless_invalid_frame)
  payload ← slice raw dll_header_len total
  new_frame format_stripped raw payload

-- The first of two results that is no error; a fault is one, as in Go.
unfoldable pub either_format : Result Frame → Result Frame → Result Frame
either_format (ok f) b = ok f
either_format (fault x) b = fault x
either_format (err e) (ok f) = ok f
either_format (err e) (fault x) = fault x
either_format (err e) (err d) = err (wrapped wireless_invalid_frame (joined e d))

unfoldable pub parse : Bytes → Result Frame
unfolding either_format
parse raw = either_format (parse_format_a raw) (parse_format_b raw)

-- `manufacturerOf`: an error gives the empty string.
unfoldable pub text_or_empty : Result Bytes → Result Bytes
text_or_empty (ok name) = ok name
text_or_empty (err e) = ok []
text_or_empty (fault x) = fault x

unfoldable pub manufacturer_of : ℕ → Result Bytes
unfolding text_or_empty
manufacturer_of code =
    text_or_empty (decode_manufacturer (replicate 11 0 ++ (code % 256 ∷ code / 256 % 256 ∷ [])))

-- The loop of `identSerial` over the bytes from index `i` on, the last one first; a uint32.
unfoldable pub ident_serial : Bytes → Result ℕ
ident_serial [] = ok 0
ident_serial (b ∷ more) = do
  serial ← ident_serial more
  let hi = b / 16
  let lo = bit_and b 0x0F
  refuse (ltb 9 hi || ltb 9 lo) (sentinel wireless_invalid_frame)
  ok ((serial * 100 + hi * 10 + lo) % 2 ^ 32)
