-- ===== src/Wireless/Crc.antt =====
-- wmbus/crc.go: the block CRC of EN 13757-4.
pub mod Detects
use gombus.Prelude.{
  ℕ, zero, suc, ◌+◌, ◌*◌, ◌%◌, ◌^◌, List, [], ◌∷◌, not, ◌==◌, if◌then◌else◌, bit_and, bit_xor,
}
use gombus.Result.{Bytes, Result, sentinel, crc_mismatch, ◌>>=◌, refuse, at}

abbrev pub crc_polynomial : ℕ
crc_polynomial = 0x3D65

-- One round of the inner loop, on a uint16.
unfoldable pub crc_round : ℕ → ℕ
crc_round crc =
    if not (bit_and crc 0x8000 == 0)
    then bit_xor (crc * 2 % 2 ^ 16) crc_polynomial
    else crc * 2 % 2 ^ 16

unfoldable pub crc_rounds : ℕ → ℕ → ℕ
unfolding crc_round
crc_rounds zero crc = crc
crc_rounds (suc n) crc = crc_rounds n (crc_round crc)

-- The loop over the bytes.
unfoldable pub crc_from : ℕ → Bytes → ℕ
unfolding crc_rounds
crc_from crc [] = crc
crc_from crc (b ∷ rest) = crc_from (crc_rounds 8 (bit_xor crc (b * 2 ^ 8))) rest

unfoldable pub crc16 : Bytes → ℕ
unfolding crc_from
crc16 b = bit_xor (crc_from 0 b) 0xFFFF

-- The two CRC bytes come most significant byte first.
unfoldable pub check_crc : Bytes → Bytes → Result (Unit {0})
unfolding crc16
check_crc b crc_bytes = do
  b0 ← at crc_bytes 0
  b1 ← at crc_bytes 1
  refuse (not (crc16 b == b0 * 2 ^ 8 + b1)) (sentinel crc_mismatch)
