-- ===== src/Wireless/Cipher/RoundTrip.antt =====
-- wmbus/crypto.go: decryption gives back what cipher block chaining encrypted.
use gombus.Prelude.{
  ℕ, zero, suc, ◌-◌, ◌*◌, ◌/◌, ◌<◌, ◌≡◌, refl, ap, ◌∙◌, [], ◌∷◌, ◌++◌, arith, true, length, take,
  drop, length-append, length-take, length-drop, take-append, take_all, drop-append, drop_all,
  take-append-drop, All-take, All-drop,
}
use gombus.Prelude.Xor.{bit_xor_cancel}
use gombus.Result.{Bytes, IsByte, IsSlice, ok, slice-eq_ok}
use gombus.Wireless.Transport.{Transport, mode_aes_cbc_iv}
use gombus.Wireless.Cipher.{
  BlockCipher, xor_bytes, decrypt_cbc, decrypt, decrypt_blocks, cbc_parameters, mode_five_iv,
  opens_with_fillers,
}
use gombus.Wireless.Cipher.Slices.{xor_bytes-IsSlice}
use gombus.Wireless.Cipher.Total.{KeepsBlocks}

-- Cipher block chaining of the meter: every block is added to the one before and encrypted.
unfoldable pub encrypt_cbc : BlockCipher → ℕ → Bytes → Bytes → Bytes → Bytes
unfolding xor_bytes
encrypt_cbc aes zero key prev b = []
encrypt_cbc aes (suc n) key prev b =
    let block = aes.encrypt key (xor_bytes (take 16 b) prev) in
    block ++ encrypt_cbc aes n key block (drop 16 b)

-- A telegram of mode 5 whose body is encrypted with the initialisation vector of its address.
abbrev pub encrypted : BlockCipher → Transport → ℕ → Bytes → Bytes → Bytes → Transport
encrypted aes tr n key plain tail = record tr {
  mode = mode_aes_cbc_iv;
  encrypted_bytes = n * 16;
  body = encrypt_cbc aes n key (mode_five_iv tr) plain ++ tail;
}

-- What the chaining relies on: decryption of a block is the inverse of its encryption.
unfoldable pub Inverts : BlockCipher → Type 0
Inverts aes = (key b : Bytes) → IsSlice 16 b → aes.decrypt key (aes.encrypt key b) ≡ b

xor_bytes_cancel :
    (n : ℕ) (xs ys : Bytes) → length xs ≡ n → length ys ≡ n → xor_bytes (xor_bytes xs ys) ys ≡ xs
unfolding xor_bytes
xor_bytes_cancel n [] ys h k = refl
xor_bytes_cancel n (x ∷ xs) [] h k = absurd (omega arith)
xor_bytes_cancel zero (x ∷ xs) (y ∷ ys) h k = absurd (omega arith)
xor_bytes_cancel (suc n) (x ∷ xs) (y ∷ ys) h k =
    rw (bit_xor_cancel x y, xor_bytes_cancel n xs ys (omega arith) (omega arith)) refl

take_block : (a b : Bytes) → length a ≡ 16 → take 16 (a ++ b) ≡ a
take_block a b h = take-append 16 a b (omega arith) ∙ take_all 16 a (omega arith)

drop_block : (a b : Bytes) → length a ≡ 16 → drop 16 (a ++ b) ≡ b
drop_block a b h = drop-append 16 a b (omega arith) ∙ ap (λ t. t ++ b) (drop_all 16 a (omega arith))

same_size : (m : ℕ) → m - 0 ≡ m
same_size m = omega arith

module _ (aes : BlockCipher) (keeps : KeepsBlocks aes) (inverts : Inverts aes) where
  decrypt_cbc-encrypt_cbc :
      (n : ℕ) (key prev b : Bytes)
      → IsSlice 16 prev
      → IsSlice (n * 16) b
      → decrypt_cbc aes n key prev (encrypt_cbc aes n key prev b) ≡ b
  unfolding decrypt_cbc encrypt_cbc KeepsBlocks Inverts
  decrypt_cbc-encrypt_cbc zero key prev [] s t = refl
  decrypt_cbc-encrypt_cbc zero key prev (x ∷ b) s t = absurd (omega (arith, t.0))
  decrypt_cbc-encrypt_cbc (suc n) key prev b s (l, a) =
      let head : IsSlice 16 (take 16 b) =
        (omega (arith, length-take {0} 16 b), All-take IsByte 16 b a) in
      let sum = xor_bytes-IsSlice 16 (take 16 b) prev head s in
      let block = aes.encrypt key (xor_bytes (take 16 b) prev) in
      let more = encrypt_cbc aes n key block (drop 16 b) in
      let kept = (keeps key (xor_bytes (take 16 b) prev) sum).0 in
      let ih =
        decrypt_cbc-encrypt_cbc n key block (drop 16 b) kept
          (omega (arith, length-drop {0} 16 b), All-drop IsByte 16 b a) in
      rw
        (
          take_block block more kept.0,
          drop_block block more kept.0,
          inverts key (xor_bytes (take 16 b) prev) sum,
          xor_bytes_cancel 16 (take 16 b) prev head.0 s.0,
          ih,
        )
        (take-append-drop 16 b)

  encrypt_cbc-length :
      (n : ℕ) (key prev b : Bytes)
      → IsSlice 16 prev
      → IsSlice (n * 16) b
      → length (encrypt_cbc aes n key prev b) ≡ n * 16
  unfolding encrypt_cbc KeepsBlocks
  encrypt_cbc-length zero key prev b s t = refl
  encrypt_cbc-length (suc n) key prev b s (l, a) =
      let head : IsSlice 16 (take 16 b) =
        (omega (arith, length-take {0} 16 b), All-take IsByte 16 b a) in
      let block = aes.encrypt key (xor_bytes (take 16 b) prev) in
      let kept =
        (keeps key (xor_bytes (take 16 b) prev) (xor_bytes-IsSlice 16 (take 16 b) prev head s)).0 in
      let ih =
        encrypt_cbc-length n key block (drop 16 b) kept
          (omega (arith, length-drop {0} 16 b), All-drop IsByte 16 b a) in
      omega (arith, length-append block (encrypt_cbc aes n key block (drop 16 b)), kept.0, ih)

  -- Given a block cipher that maps blocks to blocks and whose decryption inverts its encryption:
  -- of a mode 5 telegram with one encrypted block or more, whose plain text begins with the two
  -- fillers, and whose initialisation vector has 16 bytes, decryption under the same key of 16
  -- bytes gives the plain text and the unencrypted tail back.
  pub decrypt-encrypt_cbc :
      (tr : Transport) (n : ℕ) (key plain tail : Bytes)
      → 0 < n
      → length key ≡ 16
      → IsSlice 16 (mode_five_iv tr)
      → IsSlice (n * 16) plain
      → opens_with_fillers plain ≡ true
      → decrypt aes (encrypted aes tr n key plain tail) key ≡ ok (plain ++ tail)
  unfolding decrypt decrypt_blocks cbc_parameters
  decrypt-encrypt_cbc tr n [] plain tail h k i s o = absurd (omega arith)
  decrypt-encrypt_cbc tr zero (x ∷ key) plain tail h k i s o = absurd (omega arith)
  decrypt-encrypt_cbc tr (suc n) (x ∷ key) plain tail h k i s o =
      let m = suc n * 16 in
      let code = encrypt_cbc aes (suc n) (x ∷ key) (mode_five_iv tr) plain in
      let l = encrypt_cbc-length (suc n) (x ∷ key) (mode_five_iv tr) plain i s in
      let whole = length-append code tail in
      let first =
        slice-eq_ok (code ++ tail) 0 m (omega arith) (omega (arith, l, whole))
        ∙ ap (λ (t : ℕ). ok (take t (code ++ tail))) (same_size m)
        ∙ ap ok (take-append m code tail (omega (arith, l)) ∙ take_all m code (omega (arith, l))) in
      let rest : drop m (code ++ tail) ≡ tail =
        drop-append m code tail (omega (arith, l))
        ∙ ap (λ t. t ++ tail) (drop_all m code (omega (arith, l))) in
      let last =
        slice-eq_ok (code ++ tail) m (length (code ++ tail)) (omega (arith, l, whole)) (omega arith)
        ∙ ap (λ t. ok (take (length (code ++ tail) - m) t)) rest
        ∙ ap ok (take_all (length (code ++ tail) - m) tail (omega (arith, l, whole))) in
      let blocks : m / 16 ≡ suc n = omega arith in
      let back = decrypt_cbc-encrypt_cbc (suc n) (x ∷ key) (mode_five_iv tr) plain i s in
      ground (arith, k, first, last, blocks, back, o)
