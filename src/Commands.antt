-- ===== src/Commands.antt =====
-- commands.go: the frames that the master sends, and the address rules of gombus.go that guard them.
pub mod Build
pub mod Addressing
use gombus.Prelude.{
  ℕ, ◌+◌, Bool, ◌&&◌, ◌||◌, List, [], ◌∷◌, ◌++◌, ltb, leb, ◌==◌, if◌then◌else◌, take, drop, length,
}
use gombus.Result.{
  Bytes, Result, ok, err, sentinel, invalid_primary_id, ◌>>=◌, ◌>>◌, refuse, set_at,
}
use gombus.Encoding.{uint_to_bcd}
use gombus.Frame.ShortFrame
use gombus.Frame.ShortFrame.{new_short_frame}
use gombus.Frame.LongFrame

abbrev pub min_primary_id : ℕ
min_primary_id = 1

abbrev pub max_primary_id : ℕ
max_primary_id = 250

abbrev pub addr_secondary_select : ℕ
addr_secondary_select = 253

abbrev pub addr_broadcast_reply : ℕ
addr_broadcast_reply = 254

abbrev pub addr_broadcast_no_reply : ℕ
addr_broadcast_no_reply = 255

unfoldable pub validate_assignable_addr : ℕ → Result (Unit {0})
validate_assignable_addr addr =
    if ltb addr min_primary_id || ltb max_primary_id addr
    then err (sentinel invalid_primary_id)
    else ok tt

unfoldable pub validate_destination_addr : ℕ → Result (Unit {0})
validate_destination_addr addr =
    if leb min_primary_id addr && leb addr max_primary_id
    then ok tt
    else if addr == addr_secondary_select || addr == addr_broadcast_reply
    then ok tt
    else if addr == addr_broadcast_no_reply
    then err (sentinel invalid_primary_id)
    else err (sentinel invalid_primary_id)

unfoldable pub request_ud2 : ℕ → Result Bytes
request_ud2 primary_id = do
  sf ← set_at new_short_frame 1 0x5B
  sf' ← set_at sf 2 primary_id
  ShortFrame.set_checksum sf'

unfoldable pub snd_nke : ℕ → Result Bytes
snd_nke primary_id = do
  sf ← set_at new_short_frame 1 0x40
  sf' ← set_at sf 2 primary_id
  ShortFrame.set_checksum sf'

-- `data.SetLength(); data.SetChecksum()`
unfoldable pub seal : Bytes → Result Bytes
seal lf = do lf' ← LongFrame.set_length lf; LongFrame.set_checksum lf'

unfoldable pub application_reset : ℕ → Result Bytes
application_reset primary_id =
    seal (0x68 ∷ 0x06 ∷ 0x06 ∷ 0x68 ∷ 0x73 ∷ primary_id ∷ 0x50 ∷ 0x00 ∷ 0x16 ∷ [])

unfoldable pub send_ud2 : Result Bytes
send_ud2 = seal (
    0x68 ∷ 0x00 ∷ 0x00 ∷ 0x68 ∷ 0x73 ∷ 0xFD ∷ 0x52 ∷ 0xFF ∷ 0xFF ∷ 0xFF ∷ 0xFF ∷ 0xFF ∷ 0xFF ∷ 0xFF
    ∷ 0xFF ∷ 0x00 ∷ 0x16 ∷ [])

-- `copy(b[i:j], src)` for `src` of `j - i` bytes.
unfoldable pub copy_into : Bytes → ℕ → Bytes → Bytes
copy_into b i src = take i b ++ (src ++ drop (i + length src) b)

unfoldable pub set_primary_using_secondary : ℕ → ℕ → Result Bytes
set_primary_using_secondary secondary primary = do
  validate_assignable_addr primary
  id ← uint_to_bcd secondary 4
  let frame =
      0x68 ∷ 0x00 ∷ 0x00 ∷ 0x68 ∷ 0x73 ∷ 0xFD ∷ 0x51 ∷ 0x00 ∷ 0x00 ∷ 0x00 ∷ 0x00 ∷ 0xFF ∷ 0xFF
      ∷ 0xFF ∷ 0xFF ∷ 0x01 ∷ 0x7A ∷ primary ∷ 0x00 ∷ 0x16 ∷ []
  seal (copy_into frame 7 id)

unfoldable pub set_primary_using_primary : ℕ → ℕ → Result Bytes
set_primary_using_primary old_primary new_primary = do
  validate_destination_addr old_primary
  validate_assignable_addr new_primary
  seal (
      0x68 ∷ 0x06 ∷ 0x06 ∷ 0x68 ∷ 0x73 ∷ old_primary ∷ 0x51 ∷ 0x01 ∷ 0x7A ∷ new_primary ∷ 0x00
      ∷ 0x16 ∷ [])
