-- ===== src/Scan.antt =====
-- scan.go: secondary addresses, selection masks and the selection frame.
pub mod Probe
pub mod Search
pub mod Selects
use gombus.Prelude.{
  ℕ, ◌+◌, ◌-◌, ◌*◌, Bool, false, true, not, ◌&&◌, ◌||◌, List, [], ◌∷◌, ◌++◌, leb, ltb, ◌==◌,
  if◌then◌else◌, bit_or, length, replicate,
}
use gombus.Encoding.{bcd_magnitude, is_empty}
use gombus.Result.{
  Bytes, Error, Result, ok, err, fault, sentinel, wrapped, invalid_frame, invalid_secondary_mask,
  canceled, deadline_exceeded, eof, unexpected_eof, read_timeout, no_long_frame_found,
  checksum_mismatch, unsupported_ci, ◌>>=◌, ◌>>◌, refuse, at, slice, errors_is,
}
use gombus.Commands.{seal, addr_secondary_select}
use gombus.Response.{decode_manufacturer, encode_manufacturer, serial_of}
use gombus.Response.Text.{digits_before}

abbrev pub secondary_digits : ℕ
secondary_digits = 8

-- 'F'
abbrev pub mask_wildcard : ℕ
mask_wildcard = 0x46

abbrev pub ci_select_slave : ℕ
ci_select_slave = 0x52

abbrev pub c_snd_ud : ℕ
c_snd_ud = 0x53

pub record SecondaryAddress : Type 0 where
  pub id : ℕ
  pub manufacturer : Bytes
  pub version : ℕ
  pub medium : ℕ

-- The method Mask: `%08d` of a uint64, which has twenty digits at most.
unfoldable pub mask : SecondaryAddress → Bytes
mask s =
    let digits = digits_before 20 s.id [] in
    replicate (secondary_digits - length digits) 0x30 ++ digits

unfoldable pub mask_nibble : ℕ → Result ℕ
mask_nibble c =
    if leb 0x30 c && leb c 0x39
    then ok (c - 0x30)
    else if c == mask_wildcard || c == 0x66
    then ok 0x0F
    else err (sentinel invalid_secondary_mask)

-- The loop of `maskToBCD` over pairs of digits; the first pair is the last byte.
unfoldable pub mask_pairs : Bytes → Result Bytes
unfolding mask_nibble
mask_pairs [] = ok []
mask_pairs (c ∷ []) = ok []
mask_pairs (c ∷ d ∷ rest) = do
  hi ← mask_nibble c
  lo ← mask_nibble d
  before ← mask_pairs rest
  ok (before ++ (bit_or (hi * 16) lo ∷ []))

unfoldable pub mask_to_bcd : Bytes → Result Bytes
unfolding mask_pairs
mask_to_bcd mask = do
  refuse (not (length mask == secondary_digits)) (sentinel invalid_secondary_mask)
  mask_pairs mask

-- `id` has four bytes and `manufacturer` two.
pub record SecondaryFilter : Type 0 where
  pub id : Bytes
  pub manufacturer : Bytes
  pub version : ℕ
  pub medium : ℕ

-- The manufacturer of a filter: two wildcards for none.
unfoldable pub filter_manufacturer : Bytes → Result Bytes
filter_manufacturer name = if is_empty name then ok (0xFF ∷ 0xFF ∷ []) else encode_manufacturer name

unfoldable pub new_secondary_filter : SecondaryAddress → Result SecondaryFilter
unfolding mask mask_to_bcd filter_manufacturer
new_secondary_filter sec = do
  id ← mask_to_bcd (mask sec)
  manufacturer ← filter_manufacturer sec.manufacturer
  ok (record { id = id; manufacturer = manufacturer; version = 0xFF; medium = 0xFF })

-- The method frame.
unfoldable pub selection_frame : SecondaryFilter → Result Bytes
selection_frame f = seal (
    (0x68 ∷ 0x00 ∷ 0x00 ∷ 0x68 ∷ c_snd_ud ∷ addr_secondary_select ∷ ci_select_slave ∷ f.id)
    ++ (f.manufacturer ++ (f.version ∷ f.medium ∷ 0x00 ∷ 0x16 ∷ [])))

unfoldable pub secondary_from_header : Bytes → Result SecondaryAddress
secondary_from_header frame = do
  refuse (ltb (length frame) 15) (sentinel invalid_frame)
  manufacturer ← decode_manufacturer frame
  bcd ← slice frame 7 11
  id ← serial_of (bcd_magnitude bcd)
  version ← at frame 13
  medium ← at frame 14
  ok (record { id = id; manufacturer = manufacturer; version = version; medium = medium })

unfoldable pub is_bus_noise : Error → Bool
is_bus_noise e =
    if errors_is e canceled
      || (errors_is e deadline_exceeded || (errors_is e eof || errors_is e unexpected_eof))
    then false
    else errors_is e read_timeout
      || (errors_is e no_long_frame_found
          || (errors_is e invalid_frame
              || (errors_is e checksum_mismatch || errors_is e unsupported_ci)))
