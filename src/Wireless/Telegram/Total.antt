-- ===== src/Wireless/Telegram/Total.antt =====
-- wmbus/telegram.go: decoding any telegram under any key ends in a telegram or an error.
use gombus.Prelude.{
  ℕ, ◌-◌, ◌/◌, ◌^◌, ◌<◌, ◌≡◌, ◌⊎◌, refl, [], ◌∷◌, ◌++◌, arith, length, get_or, take, drop,
  length-take, length-drop, All, All-take, All-drop, All-append, ltb, ◌||◌, bit_and,
}
use gombus.Result.{
  Bytes, IsByte, IsSlice, Result, ok, err, fault, sentinel, wireless_invalid_frame, Ensures,
  returns, fails, Ensures-bind, Ensures-refuse, IsSafe, get_or-IsByte,
}
use gombus.Floats.{Floats}
use gombus.Response.Total.{decode_total}
use gombus.Wireless.Link.{Frame, ident_serial}
use gombus.Wireless.Link.Total.{IsFrame, parse-Ensures}
use gombus.Wireless.Transport.{Transport, mode_none, mode_aes_cbc_iv, mode_aes_cbc_derived}
use gombus.Wireless.Transport.Header.{IsTransport, IsAddressed}
use gombus.Wireless.Transport.Total.{parse_transport-Ensures}
use gombus.Wireless.Cipher.{BlockCipher}
use gombus.Wireless.Cipher.Total.{KeepsBlocks, decrypt-Ensures}
use gombus.Wireless.Telegram.{
  Telegram, as_wireless, ident_or_zero, key_of, KeyRing, decode_application, decode_frame,
  decode_frame_with_key_ring, decode_telegram, decode_with_key_ring,
}
use gombus.Wireless.Telegram.Wired.{
  wide_sealed, seal_wide, wide_sealed-All, draft_of, draft_of-payload,
}

ident_serial-IsSafe : (b : Bytes) → IsSafe (ident_serial b)
unfolding ident_serial
ident_serial-IsSafe [] = returns tt
ident_serial-IsSafe (x ∷ b) = Ensures-bind (ident_serial-IsSafe b) λ serial _.
    Ensures-refuse (ltb 9 (x / 16) || ltb 9 (bit_and x 0x0F)) (sentinel wireless_invalid_frame)
      λ _. returns tt

ident_or_zero-Ensures :
    (r : Result ℕ) (ident : Bytes)
    → IsSafe r
    → IsSlice 4 ident
    → Ensures (IsSlice 4) (ident_or_zero r ident)
unfolding ident_or_zero
ident_or_zero-Ensures (ok v) ident s i = returns i
ident_or_zero-Ensures (err e) ident s i =
    returns (refl, (omega arith, (omega arith, (omega arith, (omega arith, tt)))))
ident_or_zero-Ensures (fault x) ident s i = elim s [ ]

as_wireless-Ensures {ℓ κ} :
    {A : Type ℓ} {P : A → Type κ} {r : Result A} → Ensures P r → Ensures P (as_wireless r)
unfolding as_wireless
as_wireless-Ensures (returns p) = returns p
as_wireless-Ensures fails = fails

draft_of-All :
    (man ident fields payload : Bytes)
    → All IsByte man
    → All IsByte ident
    → All IsByte fields
    → All IsByte payload
    → All IsByte (draft_of man ident fields payload)
draft_of-All man ident fields payload a b c d =
    let start = All-append IsByte ident _ b (
      All-append IsByte man _ a (
        All-append IsByte (fields ++ (0x00 ∷ 0x00 ∷ payload)) (0x00 ∷ 0x16 ∷ [])
          (All-append IsByte fields (0x00 ∷ 0x00 ∷ payload) c (omega arith, (omega arith, d)))
          (omega arith, (omega arith, tt)))) in
    (
      omega arith,
      (
        omega arith,
        (omega arith, (omega arith, (omega arith, (omega arith, (omega arith, start))))),
      ),
    )

version_of-IsByte : (tr : Transport) → IsAddressed tr → IsByte (get_or tr.address 6 0)
unfolding IsAddressed
version_of-IsByte tr ((l, a), _, _, _) = get_or-IsByte tr.address 6 (omega (arith, l)) a

module _ (F : Floats) (aes : BlockCipher) where
  pub decode_application-Ensures :
      (tr : Transport) (payload : Bytes)
      → IsAddressed tr
      → All IsByte payload
      → Ensures (λ f. f.serial_number < 10 ^ 8) (decode_application F aes tr payload)
  unfolding decode_application IsAddressed
  decode_application-Ensures tr payload ((l, a), _, u, v) p =
      let ident = take 4 (drop 2 tr.address) in
      let man = take 2 tr.address in
      let fields =
        get_or tr.address 6 0 ∷ get_or tr.address 7 0 ∷ tr.access_number ∷ tr.status ∷ [] in
      let slice4 : IsSlice 4 ident = (
        omega (arith, l, length-take {0} 4 (drop 2 tr.address), length-drop {0} 2 tr.address),
        All-take IsByte 4 _ (All-drop IsByte 2 tr.address a),
      ) in
      let two : length man ≡ 2 = omega (arith, l, length-take {0} 2 tr.address) in
      let six = get_or-IsByte tr.address 6 (omega (arith, l)) a in
      let seven = get_or-IsByte tr.address 7 (omega (arith, l)) a in
      Ensures-bind
        (ident_or_zero-Ensures (ident_serial ident) ident (ident_serial-IsSafe ident) slice4)
        λ ident' (k, b).
          let lf = draft_of man ident' fields payload in
          let bytes =
            draft_of-All man ident' fields payload (All-take IsByte 2 tr.address a) b
              (six, (seven, (u, (v, tt)))) p in
          let size = (draft_of-payload man ident' fields payload two k refl).0 in
          rw (seal_wide lf (omega (arith, size)))
            (as_wireless-Ensures (decode_total F (wide_sealed lf) (wide_sealed-All lf bytes)))

  -- What is known of a telegram.
  unfoldable pub IsTelegram : Telegram F.Float → Type 0
  IsTelegram t =
      (t.serial_number < 10 ^ 8)
      × IsByte t.version
      × IsByte t.access_number
      × IsByte t.status
      × ((t.encryption_mode ≡ mode_none)
          ⊎ ((t.encryption_mode ≡ mode_aes_cbc_iv) ⊎ (t.encryption_mode ≡ mode_aes_cbc_derived)))

  module _ (keeps : KeepsBlocks aes) where
    pub decode_frame-Ensures :
        (n : ℕ) (f : Frame) (key : Bytes)
        → IsFrame n f
        → Ensures IsTelegram (decode_frame F aes f key)
    unfolding decode_frame IsTelegram IsTransport IsAddressed
    decode_frame-Ensures n f key w = Ensures-bind (parse_transport-Ensures n f w) λ tr p.
        Ensures-bind (decrypt-Ensures aes keeps _ tr key p) λ payload (_, b).
          Ensures-bind (decode_application-Ensures tr payload p.0 b)
            λ decoded s. returns (s, version_of-IsByte tr p.0, p.0.2, p.0.3, p.1)

    key_of-IsSafe : (r : Result ℕ) (keys : KeyRing) → IsSafe r → IsSafe (key_of r keys)
    unfolding key_of
    key_of-IsSafe (ok serial) keys s = returns tt
    key_of-IsSafe (err e) keys s = returns tt
    key_of-IsSafe (fault x) keys s = elim s [ ]

    -- Given a block cipher that maps blocks to blocks: decoding any bytes under any key never
    -- indexes out of range and ends within its fuel. It is an error, or a telegram with a serial
    -- number of eight digits, byte-sized header fields, and one of the three security modes that
    -- are decrypted.
    pub decode_telegram-Ensures :
        (raw key : Bytes) → All IsByte raw → Ensures IsTelegram (decode_telegram F aes raw key)
    unfolding decode_telegram
    decode_telegram-Ensures raw key a =
        Ensures-bind (parse-Ensures raw a) λ f w. decode_frame-Ensures (length raw - 12) f key w

    -- Given a block cipher that maps blocks to blocks: decoding any bytes with any key ring never
    -- indexes out of range and ends within its fuel. It is an error, or a telegram with a serial
    -- number of eight digits, byte-sized header fields, and one of the three security modes that
    -- are decrypted.
    pub decode_with_key_ring-Ensures :
        (raw : Bytes) (keys : KeyRing)
        → All IsByte raw
        → Ensures IsTelegram (decode_with_key_ring F aes raw keys)
    unfolding decode_with_key_ring decode_frame_with_key_ring
    decode_with_key_ring-Ensures raw keys a = Ensures-bind (parse-Ensures raw a) λ f w.
        Ensures-bind (key_of-IsSafe (ident_serial f.ident) keys (ident_serial-IsSafe f.ident))
          λ key _. decode_frame-Ensures (length raw - 12) f key w
