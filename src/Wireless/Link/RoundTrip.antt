-- ===== src/Wireless/Link/RoundTrip.antt =====
-- wmbus/link.go: a telegram of format A is read as what it carries.
use gombus.Prelude.{
  ℕ, ◌+◌, ◌-◌, ◌/◌, ◌%◌, ◌^◌, ◌<◌, ◌≡◌, refl, sym, ap, ◌∙◌, false, [], ◌∷◌, ◌++◌, append_assoc,
  arith, ltb, length, length-append,
}
use gombus.Result.{Bytes, ok, at-eq_ok, slice-eq_ok}
use gombus.Response.{uint16_le}
use gombus.Wireless.Link.Blocks.{
  crc_bytes, blocks, check_crc-crc_bytes, slice_part, length-crc_bytes, strip_blocks-blocks,
}
use gombus.Wireless.Link.Total.{uint16_le-eq}
use gombus.Wireless.Link.{Format, format_a, Frame, new_frame, strip_format_a_blocks, parse_format_a}

-- The header of a telegram, behind its length field.
abbrev pub header : ℕ → Frame → Bytes
header l f =
    l
    ∷ f.c
    ∷ (f.manufacturer_code % 256)
    ∷ (f.manufacturer_code / 256)
    ∷ (f.ident ++ (f.version ∷ f.device_type ∷ []))

-- A frame that can be sent: its fields have their sizes.
pub record IsSendable (f : Frame) : Type 0 where
  pub ident : length f.ident ≡ 4
  pub code : f.manufacturer_code < 2 ^ 16

new_frame_fields :
    (format : Format) (l c code v d : ℕ) (ident payload rest : Bytes)
    → length ident ≡ 4
    → code < 2 ^ 16
    → new_frame format
        ((l ∷ c ∷ (code % 256) ∷ (code / 256) ∷ (ident ++ (v ∷ d ∷ []))) ++ rest)
        payload
      ≡ ok (record {
        format = format;
        c = c;
        manufacturer_code = code;
        ident = ident;
        version = v;
        device_type = d;
        payload = payload;
      })
unfolding new_frame
new_frame_fields format l c code v d (p ∷ q ∷ r ∷ s ∷ []) payload rest h k =
    let same : uint16_le (code % 256) (code / 256) ≡ code =
      uint16_le-eq (code % 256) (code / 256) (omega arith) ∙ omega arith in
    let raw : Bytes = l ∷ c ∷ (code % 256) ∷ (code / 256) ∷ p ∷ q ∷ r ∷ s ∷ v ∷ d ∷ rest in
    rw (
      at-eq_ok raw 1 (omega arith),
      at-eq_ok raw 2 (omega arith),
      at-eq_ok raw 3 (omega arith),
      at-eq_ok raw 8 (omega arith),
      at-eq_ok raw 9 (omega arith),
      slice-eq_ok raw 4 8 (omega arith) (omega arith),
      same,
    )
new_frame_fields format l c code v d _ payload rest h k = absurd (omega arith)

pub new_frame-header :
    (f : Frame) (l : ℕ) (rest : Bytes)
    → IsSendable f
    → new_frame f.format (header l f ++ rest) f.payload ≡ ok f
new_frame-header f l rest h =
    new_frame_fields f.format l f.c f.manufacturer_code f.version f.device_type f.ident f.payload
      rest h.ident h.code

pub length-header : (l : ℕ) (f : Frame) → IsSendable f → length (header l f) ≡ 10
length-header l f h = omega (arith, length-append f.ident (f.version ∷ f.device_type ∷ []), h.ident)

-- A telegram of format A: the header with its CRC, and the blocks.
unfoldable pub encode_format_a : Frame → Bytes
encode_format_a f =
    let head = header (9 + length f.payload) f in
    head ++ (crc_bytes head ++ blocks (length f.payload) f.payload)

pub parse_format_a-encode :
    (f : Frame) (rest : Bytes)
    → IsSendable f
    → f.format ≡ format_a
    → parse_format_a (encode_format_a f ++ rest) ≡ ok f
unfolding parse_format_a strip_format_a_blocks encode_format_a
parse_format_a-encode f rest h e =
    let n = length f.payload in
    let head = header (9 + n) f in
    let body = blocks n f.payload in
    let raw = (head ++ (crc_bytes head ++ body)) ++ rest in
    let ten = length-header (9 + n) f h in
    let two = length-crc_bytes head in
    let whole : raw ≡ head ++ (crc_bytes head ++ (body ++ rest)) =
      append_assoc head (crc_bytes head ++ body) rest
      ∙ ap (λ t. head ++ t) (append_assoc (crc_bytes head) body rest) in
    let size : length raw ≡ 12 + length (body ++ rest) =
      ap length whole
      ∙ omega (
        arith,
        length-append head (crc_bytes head ++ (body ++ rest)),
        length-append (crc_bytes head) (body ++ rest),
      ) in
    let payload =
      strip_blocks-blocks n raw (head ++ crc_bytes head) f.payload rest 12
        (whole ∙ sym (append_assoc head (crc_bytes head) (body ++ rest)))
        (length-append head (crc_bytes head) ∙ omega arith) (omega arith) in
    let enough : ltb (length raw) 12 ≡ false = ground arith in
    let long : ltb (9 + n) 9 ≡ false = ground arith in
    let back : 9 + n - 9 ≡ n = omega arith in
    rw
      (
        enough,
        at-eq_ok raw 0 (omega arith),
        long,
        slice_part raw [] head (crc_bytes head ++ (body ++ rest)) 0 10 whole refl (omega arith),
        slice_part raw head (crc_bytes head) (body ++ rest) 10 12 whole ten (omega arith),
        check_crc-crc_bytes head,
        back,
        payload,
      )
      (ap (λ t. new_frame t raw f.payload) (sym e)
        ∙ ap (λ r. new_frame f.format r f.payload) whole
        ∙ new_frame-header f (9 + n) (crc_bytes head ++ (body ++ rest)) h)
