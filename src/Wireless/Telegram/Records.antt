-- ===== src/Wireless/Telegram/Records.antt =====
-- wmbus/telegram.go: a telegram has the records that the wired walk finds in its decrypted payload.
use gombus.Prelude.{
  ℕ, ◌-◌, ◌≤◌, ◌≡◌, refl, sym, ap, ◌∙◌, List, [], ◌∷◌, arith, length, get_or, take, drop, replicate,
  length-take, length-drop, take-append, take_all, ltb,
}
use gombus.Result.{
  Bytes, Result, ok, err, fault, sentinel, invalid_frame, refuse, Ensures, Ensures-ok,
  Ensures-ne-fault, to_Ensures, >>=-eq-ok, at, at-eq_ok, slice, slice-eq_ok,
}
use gombus.Floats.{Floats}
use gombus.Frame.LongFrame
use gombus.Commands.{seal}
use gombus.Record.Decode.{decode_data}
use gombus.Encoding.{bcd_magnitude}
use gombus.Record.{DecodedDataRecord}
use gombus.Response.{DecodedFrame, decode_manufacturer, serial_of}
use gombus.Response.Decode.{decode, decode_variable}
use gombus.Wireless.Transport.{Transport, parse_transport}
use gombus.Wireless.Transport.Header.{IsTransport, IsAddressed}
use gombus.Wireless.Transport.Total.{parse_transport-Ensures}
use gombus.Wireless.Cipher.{BlockCipher, decrypt}
use gombus.Wireless.Cipher.Total.{KeepsBlocks}
use gombus.Wireless.Telegram.Total.{decode_frame-Ensures}
use gombus.Wireless.Telegram.{
  Telegram, decode_frame, wired_draft, as_wireless, ident_or_zero, decode_application,
}
use gombus.Wireless.Link.{Frame, ident_serial}
use gombus.Wireless.Link.Total.{IsFrame}
use gombus.Wireless.Telegram.Wired.{
  wide_sealed, seal_wide, length-wide_sealed, wide_sealed-middle, wide_sealed-ci, draft_of,
  draft_of-payload,
}

ident_or_zero-length :
    (r : Result ℕ) (ident ident' : Bytes)
    → length ident ≡ 4
    → ident_or_zero r ident ≡ ok ident'
    → length ident' ≡ 4
unfolding ident_or_zero
ident_or_zero-length (ok serial) ident ident' h e = cc
ident_or_zero-length (err x) ident ident' h e = ap length (inner e)
  where
    inner : ok (replicate 4 0) ≡ ok ident' → ident' ≡ replicate 4 0
    inner e = cc
ident_or_zero-length (fault x) ident ident' h e = cc

as_wireless-eq-ok {ℓ} : {A : Type ℓ} (r : Result A) {a : A} → as_wireless r ≡ ok a → r ≡ ok a
unfolding as_wireless
as_wireless-eq-ok (ok f) e = e
as_wireless-eq-ok (err x) e = cc
as_wireless-eq-ok (fault x) e = cc

abbrev records_or_none :
    {Float : Type 0} → Result (DecodedFrame Float) → List (DecodedDataRecord Float)
records_or_none (ok f) = f.data_records
records_or_none (err e) = []
records_or_none (fault x) = []

abbrev telegram_records :
    {Float : Type 0} → Result (Telegram Float) → List (DecodedDataRecord Float)
telegram_records (ok t) = t.data_records
telegram_records (err e) = []
telegram_records (fault x) = []

module _ (F : Floats) where
  decode_variable-records :
      (lf : Bytes) (f : DecodedFrame F.Float)
      → decode_variable F lf ≡ ok f
      → (area : Bytes) × (slice lf 19 (length lf - 2) ≡ ok area)
        × (decode_data F area ≡ ok f.data_records)
  unfolding decode_variable
  decode_variable-records lf f e =
      let (man, _, e1) = >>=-eq-ok (decode_manufacturer lf) _ e in
      let (area, s, e2) = >>=-eq-ok (slice lf 19 (length lf - 2)) _ e1 in
      let (dr, d, e3) = >>=-eq-ok (decode_data F area) _ e2 in
      let (id, _, e4) = >>=-eq-ok (slice lf 7 11) _ e3 in
      let (serial, _, e5) = >>=-eq-ok (serial_of (bcd_magnitude id)) _ e4 in
      let (_, _, e6) = >>=-eq-ok (at lf 13) _ e5 in
      let (_, _, e7) = >>=-eq-ok (at lf 14) _ e6 in
      let (_, _, e8) = >>=-eq-ok (at lf 15) _ e7 in
      let (_, _, e9) = >>=-eq-ok (at lf 16) _ e8 in
      let (_, _, e10) = >>=-eq-ok (at lf 17) _ e9 in
      let (_, _, e11) = >>=-eq-ok (at lf 18) _ e10 in
      (area, s, d ∙ ap (λ r. ok (records_or_none r)) e11)

  -- A response with the CI of the variable structure.
  decode-records :
      (lf : Bytes) (f : DecodedFrame F.Float)
      → 21 ≤ length lf
      → get_or lf 6 0 ≡ 0x72
      → decode F lf ≡ ok f
      → decode_data F (take (length lf - 21) (drop 19 lf)) ≡ ok f.data_records
  unfolding decode LongFrame.ci_field
  decode-records lf f h c e =
      let (_, _, e1) = >>=-eq-ok (refuse (ltb (length lf) 21) (sentinel invalid_frame)) _ e in
      let (ci, a, e2) = >>=-eq-ok (at lf 6) _ e1 in
      let known = at-eq_ok lf 6 (omega arith) ∙ ap ok c in
      let mode : ci ≡ 0x72 = cc in
      let (area, s, d) = decode_variable-records lf f (cc) in
      let same : length lf - 2 - 19 ≡ length lf - 21 = omega arith in
      let t = slice-eq_ok lf 19 (length lf - 2) (omega arith) (omega arith) in
      let whole : area ≡ take (length lf - 2 - 19) (drop 19 lf) = cc in
      sym (ap (λ b. decode_data F b) (whole ∙ ap (λ (n : ℕ). take n (drop 19 lf)) same)) ∙ d

  -- The sealed response around the payload.
  sealed-records :
      (man ident fields payload : Bytes) (f : DecodedFrame F.Float)
      → length man ≡ 2
      → length ident ≡ 4
      → length fields ≡ 4
      → decode F (wide_sealed (draft_of man ident fields payload)) ≡ ok f
      → decode_data F payload ≡ ok f.data_records
  sealed-records man ident fields payload f h k m e =
      let lf = draft_of man ident fields payload in
      let (l, rest) = draft_of-payload man ident fields payload h k m in
      let n = length-wide_sealed lf in
      let ci = wide_sealed-ci man ident fields payload (omega (arith, l)) in
      let records = decode-records (wide_sealed lf) f (omega (arith, l, n)) ci e in
      let size : length (wide_sealed lf) - 21 ≡ length payload = omega (arith, l, n) in
      let middle = wide_sealed-middle lf 19 (length payload) (omega arith) (omega (arith, l)) in
      let area : take (length (wide_sealed lf) - 21) (drop 19 (wide_sealed lf)) ≡ payload =
        ap (λ (j : ℕ). take j (drop 19 (wide_sealed lf))) size
        ∙ middle
        ∙ ap (take (length payload)) rest
        ∙ take-append (length payload) payload (0x00 ∷ 0x16 ∷ []) (omega arith)
        ∙ take_all (length payload) payload (omega arith) in
      sym (ap (λ b. decode_data F b) area) ∙ records

  decode_application-records :
      (aes : BlockCipher) (tr : Transport) (payload : Bytes) (f : DecodedFrame F.Float)
      → length tr.address ≡ 8
      → decode_application F aes tr payload ≡ ok f
      → decode_data F payload ≡ ok f.data_records
  unfolding decode_application
  decode_application-records aes tr payload f h e =
      let ident = take 4 (drop 2 tr.address) in
      let (ident', i, e1) = >>=-eq-ok (ident_or_zero (ident_serial ident) ident) _ e in
      let (lf, s, e2) = >>=-eq-ok (seal (wired_draft tr ident' payload)) _ e1 in
      let four =
        ident_or_zero-length (ident_serial ident) ident ident'
          (omega (arith, length-take {0} 4 (drop 2 tr.address), length-drop {0} 2 tr.address)) i in
      let two : length (take 2 tr.address) ≡ 2 = omega (arith, length-take {0} 2 tr.address) in
      let fields =
        get_or tr.address 6 0 ∷ get_or tr.address 7 0 ∷ tr.access_number ∷ tr.status ∷ [] in
      let (l, _) = draft_of-payload (take 2 tr.address) ident' fields payload two four refl in
      let sealed =
        seal_wide (draft_of (take 2 tr.address) ident' fields payload) (omega (arith, l)) in
      let same : lf ≡ wide_sealed (draft_of (take 2 tr.address) ident' fields payload) = cc in
      sealed-records (take 2 tr.address) ident' fields payload f two four refl
        (ap (λ b. decode F b) (sym same) ∙ as_wireless-eq-ok (decode F lf) e2)

  -- The walk over the decrypted payload.
  unfoldable pub Refines : BlockCipher → Frame → Bytes → Telegram F.Float → Type 0
  Refines aes f key t =
      (tr : Transport) × (payload : Bytes) × (parse_transport f ≡ ok tr)
      × (decrypt aes tr key ≡ ok payload)
      × (decode_data F payload ≡ ok t.data_records)

  decode_frame-eq-ok :
      (aes : BlockCipher) (n : ℕ) (f : Frame) (key : Bytes) (t : Telegram F.Float)
      → IsFrame n f
      → decode_frame F aes f key ≡ ok t
      → Refines aes f key t
  unfolding decode_frame Refines IsTransport IsAddressed
  decode_frame-eq-ok aes n f key t w e =
      let (tr, q, e1) = >>=-eq-ok (parse_transport f) _ e in
      let (payload, d, e2) = >>=-eq-ok (decrypt aes tr key) _ e1 in
      let (decoded, a, e3) = >>=-eq-ok (decode_application F aes tr payload) _ e2 in
      let known = Ensures-ok (parse_transport-Ensures n f w) q in
      let records = decode_application-records aes tr payload decoded known.0.0.0 a in
      (tr, payload, q, d, records ∙ ap (λ r. ok (telegram_records r)) e3)

  -- Given a block cipher that maps blocks to blocks: decoding a link-layer frame, whose fields are
  -- bytes in their sizes, is an error, or a telegram whose data records are exactly those that the
  -- walk of the wired package finds in the decrypted payload of the parsed transport layer.
  pub decode_frame-Refines :
      (aes : BlockCipher) (n : ℕ) (f : Frame) (key : Bytes)
      → KeepsBlocks aes
      → IsFrame n f
      → Ensures (Refines aes f key) (decode_frame F aes f key)
  decode_frame-Refines aes n f key keeps w =
      to_Ensures (decode_frame F aes f key) (λ t e. decode_frame-eq-ok aes n f key t w e)
        (λ x e. Ensures-ne-fault x (decode_frame-Ensures F aes keeps n f key w) e)
