-- ===== src/Wireless/Cipher.antt =====
-- wmbus/crypto.go and wmbus/cmac.go: decryption of the application data, and the key derivation.
-- AES is the parameter: the block cipher of crypto/aes, for a key.
pub mod Slices
pub mod Total
pub mod RoundTrip
use gombus.Prelude.{
  ℕ, zero, suc, ◌+◌, ◌-◌, ◌*◌, ◌/◌, ◌%◌, ◌^◌, Bool, true, false, not, ◌&&◌, ◌||◌, List, [], ◌∷◌,
  ◌++◌, Option, none, some, ltb, ◌==◌, if◌then◌else◌, bit_and, bit_or, bit_xor, length, take, drop,
  replicate, get_or, set,
}
use gombus.Encoding.{is_empty}
use gombus.Result.{
  Bytes, Result, ok, err, sentinel, wireless_invalid_frame, unsupported_mode, decrypt_failed,
  key_required, invalid_key, ◌>>=◌, ◌>>◌, refuse, at, slice, set_at, index_from_end,
}
use gombus.Wireless.Transport.{
  Transport, mode_none, mode_aes_cbc_iv, mode_aes_cbc_derived, from_index,
}

-- Encryption and decryption of one block of 16 bytes under a key.
pub record BlockCipher : Type 0 where
  pub encrypt : Bytes → Bytes → Bytes
  pub decrypt : Bytes → Bytes → Bytes

abbrev pub aes_block_size : ℕ
aes_block_size = 16

abbrev pub filler_byte : ℕ
filler_byte = 0x2F

-- `subtle.XORBytes`, on as many bytes as both have.
unfoldable pub xor_bytes : Bytes → Bytes → Bytes
xor_bytes [] ys = []
xor_bytes (x ∷ xs) [] = []
xor_bytes (x ∷ xs) (y ∷ ys) = bit_xor x y ∷ xor_bytes xs ys

-- The bytes of `shiftLeftOne` before the constant is added.
unfoldable pub shifted_left : Bytes → Bytes
shifted_left [] = []
shifted_left (b ∷ []) = b * 2 % 256 ∷ []
shifted_left (b ∷ c ∷ rest) = bit_or (b * 2 % 256) (c / 2 ^ 7) ∷ shifted_left (c ∷ rest)

unfoldable pub shift_left_one : Bytes → Result Bytes
unfolding shifted_left
shift_left_one b = do
  first ← at b 0
  let out = shifted_left b
  i ← index_from_end out 1
  last ← at out i
  if not (bit_and first 0x80 == 0) then set_at out i (bit_xor last 0x87) else ok out

abbrev pub mode_five_iv : Transport → Bytes
mode_five_iv tr = tr.address ++ replicate (aes_block_size - length tr.address) tr.access_number

-- `plain[0] == 2F && plain[1] == 2F`
abbrev pub opens_with_fillers : Bytes → Bool
opens_with_fillers [] = false
opens_with_fillers (x ∷ []) = false
opens_with_fillers (x ∷ y ∷ rest) = x == filler_byte && y == filler_byte

-- The bytes before the last block, and the last block with its subkey added.
unfoldable pub cmac_split : Bytes → Bytes → Bytes → Bytes × Bytes
unfolding xor_bytes
cmac_split msg k1 k2 =
    let whole = length msg - aes_block_size in
    let n = length msg - length msg % aes_block_size in
    let padded = drop n msg ++ (0x80 ∷ replicate (aes_block_size - 1 - (length msg - n)) 0) in
    if not (is_empty msg) && length msg % aes_block_size == 0
    then (take whole msg, xor_bytes (drop whole msg) k1)
    else (take n msg, xor_bytes padded k2)

module _ (aes : BlockCipher) where
  unfoldable pub cmac_subkeys : Bytes → Result (Bytes × Bytes)
  unfolding shift_left_one
  cmac_subkeys key = do
    k1 ← shift_left_one (aes.encrypt key (replicate aes_block_size 0))
    k2 ← shift_left_one k1
    ok (k1, k2)

  -- The loop of `cmacAES` over whole blocks: the chaining value after them.
  unfoldable pub cmac_blocks : ℕ → Bytes → Bytes → Bytes → Bytes
  unfolding xor_bytes
  cmac_blocks zero key mac head = mac
  cmac_blocks (suc n) key mac head =
      cmac_blocks n key (aes.encrypt key (xor_bytes mac (take aes_block_size head)))
        (drop aes_block_size head)

  unfoldable pub cmac_aes : Bytes → Bytes → Result Bytes
  unfolding cmac_subkeys cmac_blocks cmac_split
  cmac_aes key msg = do
    refuse (not (length key == aes_block_size)) (sentinel invalid_key)
    k ← cmac_subkeys key
    let parts = cmac_split msg k.0 k.1
    let mac = cmac_blocks (length parts.0 / aes_block_size) key (replicate aes_block_size 0) parts.0
    ok (aes.encrypt key (xor_bytes mac parts.1))

  unfoldable pub derive_key : Bytes → Transport → Result Bytes
  unfolding cmac_aes
  derive_key master_key tr = do
    refuse (not tr.has_counter) (sentinel wireless_invalid_frame)
    let input = 0x00 ∷ tr.counter ++ take 4 (drop 2 tr.address)
    cmac_aes master_key (input ++ replicate (aes_block_size - length input) 0x07)

  -- `decryptCBC` over whole blocks, with the block before as the chaining value.
  unfoldable pub decrypt_cbc : ℕ → Bytes → Bytes → Bytes → Bytes
  unfolding xor_bytes
  decrypt_cbc zero key prev b = []
  decrypt_cbc (suc n) key prev b =
      xor_bytes (aes.decrypt key (take aes_block_size b)) prev
      ++ decrypt_cbc n key (take aes_block_size b) (drop aes_block_size b)

  -- The key and the initialisation vector of the two modes.
  unfoldable pub cbc_parameters : Bytes → Transport → Result (Bytes × Bytes)
  unfolding derive_key
  cbc_parameters key tr =
      if tr.mode == mode_aes_cbc_iv
      then ok (key, mode_five_iv tr)
      else if tr.mode == mode_aes_cbc_derived
      then (do k ← derive_key key tr; ok (k, replicate aes_block_size 0))
      else err (sentinel unsupported_mode)

  -- `decrypt` of a telegram that is encrypted.
  unfoldable pub decrypt_blocks : Transport → Bytes → Result Bytes
  unfolding decrypt_cbc cbc_parameters
  decrypt_blocks tr key = do
    refuse (is_empty key) (sentinel key_required)
    refuse (not (length key == aes_block_size)) (sentinel invalid_key)
    refuse (not (tr.encrypted_bytes % aes_block_size == 0)) (sentinel wireless_invalid_frame)
    p ← cbc_parameters key tr
    b ← slice tr.body 0 tr.encrypted_bytes
    let plain = decrypt_cbc (tr.encrypted_bytes / aes_block_size) p.0 p.1 b
    refuse (not (opens_with_fillers plain)) (sentinel decrypt_failed)
    tail ← from_index tr.body tr.encrypted_bytes
    ok (plain ++ tail)

  unfoldable pub decrypt : Transport → Bytes → Result Bytes
  unfolding decrypt_blocks
  decrypt tr key =
      if tr.mode == mode_none || tr.encrypted_bytes == 0 then ok tr.body else decrypt_blocks tr key
