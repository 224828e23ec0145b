-- ===== src/Wireless/Cipher/Total.antt =====
-- wmbus/crypto.go and wmbus/cmac.go: decryption indexes only bytes that are there, for any key.
use gombus.Prelude.{
  ℕ, zero, suc, ◌-◌, ◌*◌, ◌/◌, ◌%◌, ◌≤◌, refl, ◌||◌, ◌∷◌, ◌++◌, arith, not, ◌==◌, length, take,
  drop, replicate, length-drop, All, All-append, All-take, All-drop,
}
use gombus.Encoding.{is_empty}
use gombus.Result.{
  Bytes, IsByte, sentinel, wireless_invalid_frame, invalid_key, key_required, decrypt_failed,
  IsSlice, slice-Ensures, Ensures, returns, fails, Ensures-if, Ensures-bind, Ensures-refuse,
}
use gombus.Wireless.Transport.{Transport, mode_none, mode_aes_cbc_iv, mode_aes_cbc_derived}
use gombus.Wireless.Transport.Header.{IsTransport, IsAddressed, from_index-Ensures}
use gombus.Wireless.Cipher.{
  BlockCipher, aes_block_size, mode_five_iv, opens_with_fillers, cmac_subkeys, cmac_blocks,
  cmac_split, cmac_aes, derive_key, decrypt_cbc, cbc_parameters, decrypt_blocks, decrypt,
}
use gombus.Wireless.Cipher.Slices.{
  append-IsSlice, cmac_split-IsSlice, replicate-IsSlice, shift_left_one-Ensures, take-IsSlice,
  xor_bytes-IsSlice,
}

-- What the decryption relies on: a block becomes a block.
unfoldable pub KeepsBlocks : BlockCipher → Type 0
KeepsBlocks aes =
    (key b : Bytes) → IsSlice 16 b → IsSlice 16 (aes.encrypt key b) × IsSlice 16 (aes.decrypt key b)

module _ (aes : BlockCipher) (keeps : KeepsBlocks aes) where
  encrypt-IsSlice : (key b : Bytes) → IsSlice 16 b → IsSlice 16 (aes.encrypt key b)
  unfolding KeepsBlocks
  encrypt-IsSlice key b s = (keeps key b s).0

  cmac_subkeys-Ensures :
      (key : Bytes)
      → Ensures (λ (k : Bytes × Bytes). IsSlice 16 k.0 × IsSlice 16 k.1) (cmac_subkeys aes key)
  unfolding cmac_subkeys
  cmac_subkeys-Ensures key =
      Ensures-bind
        (shift_left_one-Ensures _ (encrypt-IsSlice key _ (replicate-IsSlice 16 0 (omega arith))))
        λ k1 s1. Ensures-bind (shift_left_one-Ensures k1 s1) λ k2 s2. returns (s1, s2)

  cmac_blocks-IsSlice :
      (n : ℕ) (key mac head : Bytes)
      → IsSlice 16 mac
      → All IsByte head
      → n * 16 ≤ length head
      → IsSlice 16 (cmac_blocks aes n key mac head)
  unfolding cmac_blocks
  cmac_blocks-IsSlice zero key mac head s a h = s
  cmac_blocks-IsSlice (suc n) key mac head s a h =
      cmac_blocks-IsSlice n key _ (drop 16 head)
        (encrypt-IsSlice key _
          (xor_bytes-IsSlice 16 mac (take 16 head) s (take-IsSlice 16 head (omega arith) a)))
        (All-drop IsByte 16 head a) (omega (arith, length-drop {0} 16 head))

  pub cmac_aes-Ensures :
      (key msg : Bytes) → All IsByte msg → Ensures (IsSlice 16) (cmac_aes aes key msg)
  unfolding cmac_aes
  cmac_aes-Ensures key msg a =
      Ensures-refuse (not (length key == aes_block_size)) (sentinel invalid_key) λ _.
        Ensures-bind (cmac_subkeys-Ensures key) λ k (s1, s2).
          let (b, s) = cmac_split-IsSlice msg k.0 k.1 a s1 s2 in
          let head = (cmac_split msg k.0 k.1).0 in
          let mac =
            cmac_blocks-IsSlice (length head / 16) key (replicate 16 0) head
              (replicate-IsSlice 16 0 (omega arith)) b (omega arith) in
          returns (encrypt-IsSlice key _ (xor_bytes-IsSlice 16 _ _ mac s))

  derive_key-Ensures :
      (key : Bytes) (tr : Transport) → IsAddressed tr → Ensures (IsSlice 16) (derive_key aes key tr)
  unfolding derive_key IsAddressed
  derive_key-Ensures key tr ((l, a), (k, b), _, _) =
      Ensures-refuse (not tr.has_counter) (sentinel wireless_invalid_frame) λ _.
        let input = 0x00 ∷ tr.counter ++ take 4 (drop 2 tr.address) in
        let some =
          All-append IsByte tr.counter (take 4 (drop 2 tr.address)) b
            (All-take IsByte 4 _ (All-drop IsByte 2 tr.address a)) in
        let filler = replicate-IsSlice (16 - length input) 0x07 (omega arith) in
        cmac_aes-Ensures key (input ++ replicate (16 - length input) 0x07) (
          All-append IsByte input (replicate (16 - length input) 0x07) (omega arith, some) filler.1)

  decrypt_cbc-IsSlice :
      (n : ℕ) (key prev b : Bytes)
      → IsSlice 16 prev
      → IsSlice (n * 16) b
      → IsSlice (n * 16) (decrypt_cbc aes n key prev b)
  unfolding decrypt_cbc KeepsBlocks
  decrypt_cbc-IsSlice zero key prev b s t = (refl, tt)
  decrypt_cbc-IsSlice (suc n) key prev b s (l, a) =
      let block = take-IsSlice 16 b (omega arith) a in
      let first = xor_bytes-IsSlice 16 _ prev (keeps key (take 16 b) block).1 s in
      let rest =
        decrypt_cbc-IsSlice n key (take 16 b) (drop 16 b) block
          (omega (arith, length-drop {0} 16 b), All-drop IsByte 16 b a) in
      let (m, c) = append-IsSlice 16 (n * 16) _ _ first rest in (omega (arith, m), c)

  mode_five_iv-IsSlice : (tr : Transport) → IsAddressed tr → IsSlice 16 (mode_five_iv tr)
  unfolding IsAddressed
  mode_five_iv-IsSlice tr ((l, a), _, h, _) =
      let (m, c) =
        append-IsSlice 8 _ tr.address _ (l, a)
          (replicate-IsSlice (16 - length tr.address) tr.access_number h) in
      (omega (arith, m, l), c)

  cbc_parameters-Ensures :
      (key : Bytes) (tr : Transport)
      → IsAddressed tr
      → Ensures (λ (p : Bytes × Bytes). IsSlice 16 p.1) (cbc_parameters aes key tr)
  unfolding cbc_parameters
  cbc_parameters-Ensures key tr t =
      Ensures-if (tr.mode == mode_aes_cbc_iv) (λ _. returns (mode_five_iv-IsSlice tr t))
        λ _.
          Ensures-if (tr.mode == mode_aes_cbc_derived)
            (λ _.
              Ensures-bind (derive_key-Ensures key tr t)
                λ _ _. returns (replicate-IsSlice 16 0 (omega arith)))
            λ _. fails

  pub decrypt-Ensures :
      (n : ℕ) (tr : Transport) (key : Bytes)
      → IsTransport n tr
      → Ensures (IsSlice (length tr.body)) (decrypt aes tr key)
  unfolding decrypt decrypt_blocks IsTransport
  decrypt-Ensures n tr key (t, _, whole, held, _, a) =
      Ensures-if (tr.mode == mode_none || tr.encrypted_bytes == 0) (λ _. returns (refl, a))
        λ _. Ensures-refuse (is_empty key) (sentinel key_required) λ _.
          Ensures-refuse (not (length key == aes_block_size)) (sentinel invalid_key) λ _.
            Ensures-refuse (not (tr.encrypted_bytes % aes_block_size == 0))
              (sentinel wireless_invalid_frame)
              λ _. Ensures-bind (cbc_parameters-Ensures key tr t) λ p iv.
                Ensures-bind (slice-Ensures tr.body 0 tr.encrypted_bytes (omega arith) held a)
                  λ b (l, c).
                    let blocks = tr.encrypted_bytes / 16 in
                    let plain = decrypt_cbc-IsSlice blocks p.0 p.1 b iv (omega (arith, l), c) in
                    Ensures-refuse (not (opens_with_fillers (decrypt_cbc aes blocks p.0 p.1 b)))
                      (sentinel decrypt_failed)
                      λ _.
                        Ensures-bind (from_index-Ensures tr.body tr.encrypted_bytes held a)
                          λ tail s.
                            let (m, d) = append-IsSlice _ _ _ tail plain s in
                            returns (omega (arith, m), d)
