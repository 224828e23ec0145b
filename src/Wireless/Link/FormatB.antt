-- ===== src/Wireless/Link/FormatB.antt =====
-- wmbus/link.go: a telegram of format B is read as what it carries.
use gombus.Prelude.{
  ℕ, ◌+◌, ◌-◌, ◌≤◌, ◌<◌, ◌≡◌, refl, sym, ap, ◌∙◌, true, false, [], ◌++◌, append_assoc, arith,
  le→not_ltb, get_or, Bool-cases, inl, inr, leb, if◌then◌else◌, length, length-append, length-take,
  length-drop, take, drop, take-append-drop,
}
use gombus.Result.{Bytes, ok, at-eq_ok}
use gombus.Wireless.Link.Blocks.{crc_bytes, check_crc-crc_bytes, slice_part, length-crc_bytes}
use gombus.Wireless.Link.{
  format_a, format_b, Frame, new_frame, parse_format_a, parse_one_block, parse_two_blocks,
  parse_format_b,
}
use gombus.Wireless.Link.RoundTrip.{
  header, IsSendable, new_frame-header, length-header, encode_format_a, parse_format_a-encode,
}

-- A telegram of format B with one CRC: the header and the payload in one block.
abbrev one_block : ℕ → Frame → Bytes
one_block l f = header l f ++ f.payload

-- With two CRCs the first block has 126 bytes, 116 of them of the payload.
abbrev first_block : ℕ → Frame → Bytes
first_block l f = header l f ++ take 116 f.payload

unfoldable pub encode_format_b : Frame → Bytes
encode_format_b f =
    let n = length f.payload in
    if leb n 116
    then one_block (11 + n) f ++ crc_bytes (one_block (11 + n) f)
    else first_block (13 + n) f
      ++ (crc_bytes (first_block (13 + n) f)
          ++ (drop 116 f.payload ++ crc_bytes (drop 116 f.payload)))

parse_one_block-encode :
    (f : Frame) (l total : ℕ) (raw rest : Bytes)
    → IsSendable f
    → f.format ≡ format_b
    → total ≡ 12 + length f.payload
    → raw ≡ (one_block l f ++ crc_bytes (one_block l f)) ++ rest
    → parse_one_block raw total ≡ ok f
unfolding parse_one_block
parse_one_block-encode f l total raw rest h e t w =
    let body = one_block l f in
    let ten = length-header l f h in
    let sized : length body ≡ total - 2 =
      length-append (header l f) f.payload ∙ omega (arith, ten) in
    let two = length-crc_bytes body in
    let whole : raw ≡ body ++ (crc_bytes body ++ rest) =
      w ∙ append_assoc body (crc_bytes body) rest in
    let headed : raw ≡ header l f ++ (f.payload ++ (crc_bytes body ++ rest)) =
      whole ∙ append_assoc (header l f) f.payload (crc_bytes body ++ rest) in
    rw
      (
        slice_part raw [] body (crc_bytes body ++ rest) 0 (total - 2) whole refl
            (omega (arith, sized)),
        slice_part raw body (crc_bytes body) rest (total - 2) total whole sized (omega arith),
        check_crc-crc_bytes body,
        slice_part raw (header l f) f.payload (crc_bytes body ++ rest) 10 (total - 2) headed ten
            (omega arith),
      )
      (ap (λ m. new_frame m raw f.payload) (sym e)
        ∙ ap (λ r. new_frame f.format r f.payload) headed
        ∙ new_frame-header f l (f.payload ++ (crc_bytes body ++ rest)) h)

parse_two_blocks-encode :
    (f : Frame) (l total : ℕ) (raw rest : Bytes)
    → IsSendable f
    → f.format ≡ format_b
    → 116 < length f.payload
    → total ≡ 14 + length f.payload
    → raw
      ≡ (first_block l f
          ++ (crc_bytes (first_block l f)
              ++ (drop 116 f.payload ++ crc_bytes (drop 116 f.payload))))
        ++ rest
    → parse_two_blocks raw total ≡ ok f
unfolding parse_two_blocks
parse_two_blocks-encode f l total raw rest h e n t w =
    let one = take 116 f.payload in
    let more = drop 116 f.payload in
    let body = first_block l f in
    let ten = length-header l f h in
    let one_size : length one ≡ 116 = length-take 116 f.payload ∙ omega arith in
    let more_size = length-drop {0} 116 f.payload in
    let body_size : length body ≡ 126 =
      length-append (header l f) one ∙ omega (arith, ten, one_size) in
    let two = length-crc_bytes body in
    let two' = length-crc_bytes more in
    let behind = more ++ (crc_bytes more ++ rest) in
    let whole : raw ≡ body ++ (crc_bytes body ++ behind) =
      w
      ∙ append_assoc body (crc_bytes body ++ (more ++ crc_bytes more)) rest
      ∙ ap (λ x. body ++ x)
          (append_assoc (crc_bytes body) (more ++ crc_bytes more) rest
            ∙ ap (λ x. crc_bytes body ++ x) (append_assoc more (crc_bytes more) rest)) in
    let second : raw ≡ (body ++ crc_bytes body) ++ behind =
      whole ∙ sym (append_assoc body (crc_bytes body) behind) in
    let second_at : length (body ++ crc_bytes body) ≡ 128 =
      length-append body (crc_bytes body) ∙ omega (arith, body_size, two) in
    let last : raw ≡ ((body ++ crc_bytes body) ++ more) ++ (crc_bytes more ++ rest) =
      second ∙ sym (append_assoc (body ++ crc_bytes body) more (crc_bytes more ++ rest)) in
    let last_at : length ((body ++ crc_bytes body) ++ more) ≡ total - 2 =
      length-append (body ++ crc_bytes body) more ∙ omega (arith, second_at, more_size) in
    let headed : raw ≡ header l f ++ (one ++ (crc_bytes body ++ behind)) =
      whole ∙ append_assoc (header l f) one (crc_bytes body ++ behind) in
    let enough = le→not_ltb total 131 (omega arith) in
    rw
      (
        enough,
        slice_part raw [] body (crc_bytes body ++ behind) 0 126 whole refl
            (omega (arith, body_size)),
        slice_part raw body (crc_bytes body) behind 126 128 whole body_size (omega (arith, two)),
        check_crc-crc_bytes body,
        slice_part raw (body ++ crc_bytes body) more (crc_bytes more ++ rest) 128 (total - 2) second
            second_at (omega (arith, more_size)),
        slice_part raw ((body ++ crc_bytes body) ++ more) (crc_bytes more) rest (total - 2) total
            last last_at (omega (arith, two')),
        check_crc-crc_bytes more,
        slice_part raw (header l f) one (crc_bytes body ++ behind) 10 126 headed ten
            (omega (arith, one_size)),
        take-append-drop 116 f.payload,
      )
      (ap (λ m. new_frame m raw f.payload) (sym e)
        ∙ ap (λ r. new_frame f.format r f.payload) headed
        ∙ new_frame-header f l (one ++ (crc_bytes body ++ behind)) h)

parse_format_b_steps :
    (raw : Bytes) (l total : ℕ)
    → 12 ≤ length raw
    → get_or raw 0 0 ≡ l
    → l + 1 ≡ total
    → 12 ≤ total
    → total ≤ length raw
    → parse_format_b raw
      ≡ (if leb total 128 then parse_one_block raw total else parse_two_blocks raw total)
unfolding parse_format_b
parse_format_b_steps raw l total h g e n k = rw (
  le→not_ltb (length raw) 12 h,
  at-eq_ok raw 0 (omega arith),
  g,
  e,
  le→not_ltb total 12 n,
  le→not_ltb (length raw) total k,
)

not_leb : (n : ℕ) → leb n 116 ≡ false → 116 < n
not_leb n h = ground arith

too_long : (n : ℕ) → 116 < n → leb (14 + n) 128 ≡ false
too_long n h = ground arith

one_block-encode :
    (f : Frame) (rest : Bytes)
    → IsSendable f
    → f.format ≡ format_b
    → leb (length f.payload) 116 ≡ true
    → parse_format_b (
        (one_block (11 + length f.payload) f ++ crc_bytes (one_block (11 + length f.payload) f))
        ++ rest)
      ≡ ok f
one_block-encode f rest h e t =
    let n = length f.payload in
    let body = one_block (11 + n) f in
    let raw = (body ++ crc_bytes body) ++ rest in
    let size : 12 + n ≤ length raw = omega (
      arith,
      length-append (body ++ crc_bytes body) rest,
      length-append body (crc_bytes body),
      length-append (header (11 + n) f) f.payload,
      length-header (11 + n) f h,
      length-crc_bytes body,
    ) in
    let fits : leb (12 + n) 128 ≡ true = ground arith in
    parse_format_b_steps raw (11 + n) (12 + n) (omega arith) refl (omega arith) (omega arith) size
    ∙ ap (λ x. if x then parse_one_block raw (12 + n) else parse_two_blocks raw (12 + n)) fits
    ∙ parse_one_block-encode f (11 + n) (12 + n) raw rest h e refl refl

two_blocks-encode :
    (f : Frame) (rest : Bytes)
    → IsSendable f
    → f.format ≡ format_b
    → leb (length f.payload) 116 ≡ false
    → parse_format_b (
        (first_block (13 + length f.payload) f
          ++ (crc_bytes (first_block (13 + length f.payload) f)
              ++ (drop 116 f.payload ++ crc_bytes (drop 116 f.payload))))
        ++ rest)
      ≡ ok f
two_blocks-encode f rest h e t =
    let n = length f.payload in
    let body = first_block (13 + n) f in
    let more = drop 116 f.payload in
    let raw = (body ++ (crc_bytes body ++ (more ++ crc_bytes more))) ++ rest in
    let long = not_leb n t in
    let size : 14 + n ≤ length raw = omega (
      arith,
      length-append (body ++ (crc_bytes body ++ (more ++ crc_bytes more))) rest,
      length-append body (crc_bytes body ++ (more ++ crc_bytes more)),
      length-append (crc_bytes body) (more ++ crc_bytes more),
      length-append more (crc_bytes more),
      length-append (header (13 + n) f) (take 116 f.payload),
      length-header (13 + n) f h,
      length-crc_bytes body,
      length-crc_bytes more,
      length-take {0} 116 f.payload,
      length-drop {0} 116 f.payload,
    ) in
    let two = too_long n long in
    parse_format_b_steps raw (13 + n) (14 + n) (omega arith) refl (omega arith) (omega arith) size
    ∙ ap (λ x. if x then parse_one_block raw (14 + n) else parse_two_blocks raw (14 + n)) two
    ∙ parse_two_blocks-encode f (13 + n) (14 + n) raw rest h e long refl refl

pub parse_format_b-encode :
    (f : Frame) (rest : Bytes)
    → IsSendable f
    → f.format ≡ format_b
    → parse_format_b (encode_format_b f ++ rest) ≡ ok f
unfolding encode_format_b
parse_format_b-encode f rest h e = elim (Bool-cases (leb (length f.payload) 116)) [
  | inl t ↦ rw t (one_block-encode f rest h e t)
  | inr t ↦ rw t (two_blocks-encode f rest h e t)
]

-- A link-layer frame with four identification bytes and a manufacturer code of 16 bits, written
-- with the CRCs of format A or of format B for one block or two, is read back by the parser of
-- that format, whatever follows it.
pub parse_formats-encode :
    (f : Frame) (rest : Bytes)
    → IsSendable f
    → (parse_format_a (encode_format_a f ++ rest) ≡ ok (record f { format = format_a }))
      × (parse_format_b (encode_format_b f ++ rest) ≡ ok (record f { format = format_b }))
unfolding encode_format_a encode_format_b
parse_formats-encode f rest h =
    let a : Frame = record f { format = format_a } in
    let b : Frame = record f { format = format_b } in
    let sendable_a : IsSendable a = record { ident = h.ident; code = h.code } in
    let sendable_b : IsSendable b = record { ident = h.ident; code = h.code } in
    (parse_format_a-encode a rest sendable_a refl, parse_format_b-encode b rest sendable_b refl)
