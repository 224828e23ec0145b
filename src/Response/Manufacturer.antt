-- ===== src/Response/Manufacturer.antt =====
-- decode.go and scan.go: the manufacturer code of a header is three letters of five bits each.
use gombus.Prelude.{
  ℕ, ◌+◌, ◌-◌, ◌*◌, ◌/◌, ◌%◌, ◌^◌, ◌≤◌, ◌<◌, ◌≡◌, ◌∙◌, sym, [], ◌∷◌, arith, length, get_or, bit_and,
  bit_or,
}
use gombus.Prelude.Bits.{bit_or_disjoint, zero-bit_or}
use gombus.Prelude.Masks.{bit_or_comm, low_five_bits}
use gombus.Result.{Bytes, ok, at-eq_ok}
use gombus.Response.{decode_manufacturer, encode_manufacturer, pack_letters}

-- A capital letter.
abbrev pub IsLetter : ℕ → Type 0
IsLetter c = (0x41 ≤ c) × (c ≤ 0x5A)

join_letters : (a b : ℕ) → b < 32 → bit_or (a * 32) b ≡ a * 32 + b
join_letters a b h = bit_or_comm (a * 32) b ∙ bit_or_disjoint 5 b a h ∙ omega arith

-- The number that the letters are packed into.
abbrev packed : ℕ → ℕ → ℕ → ℕ
packed a b c = (a * 32 + b) * 32 + c

pack_letters_lem :
    (a b c : ℕ)
    → a < 27
    → b < 27
    → c < 27
    → 1 ≤ a
    → 1 ≤ b
    → 1 ≤ c
    → pack_letters 0 ((a + 64) ∷ (b + 64) ∷ (c + 64) ∷ []) ≡ ok (packed a b c)
unfolding pack_letters
pack_letters_lem a b c ha hb hc pa pb pc =
    let first : bit_or 0 a ≡ a = zero-bit_or a in
    let second = join_letters a b (omega arith) in
    let third = join_letters (a * 32 + b) c (omega arith) in
    let shift : (a * 32 + b) * 2 ^ 5 % 2 ^ 16 ≡ (a * 32 + b) * 32 = omega arith in
    let shift' : a * 2 ^ 5 % 2 ^ 16 ≡ a * 32 = omega arith in
    let ea : (a + 64 + 2 ^ 8 - 64) % 2 ^ 8 ≡ a = omega arith in
    let eb : (b + 64 + 2 ^ 8 - 64) % 2 ^ 8 ≡ b = omega arith in
    let ec : (c + 64 + 2 ^ 8 - 64) % 2 ^ 8 ≡ c = omega arith in
    rw (ea, eb, ec, first, shift', second, shift, third) (ground arith)

shifted : (a : ℕ) → IsLetter a → (a - 64 + 64 ≡ a) × (a - 64 < 27) × (1 ≤ a - 64)
shifted a h = (omega arith, omega arith, omega arith)

pub encode_manufacturer_lem :
    (a b c : ℕ)
    → IsLetter a
    → IsLetter b
    → IsLetter c
    → encode_manufacturer (a ∷ b ∷ c ∷ [])
      ≡ ok (packed (a - 64) (b - 64) (c - 64) % 256 ∷ packed (a - 64) (b - 64) (c - 64) / 256 ∷ [])
unfolding encode_manufacturer
encode_manufacturer_lem a b c ha hb hc =
    let (ea, la, pa) = shifted a ha in
    let (eb, lb, pb) = shifted b hb in
    let (ec, lc, pc) = shifted c hc in
    let e = pack_letters_lem (a - 64) (b - 64) (c - 64) la lb lc pa pb pc in
    ground (arith, e, ea, eb, ec)

-- Two bytes that hold a packed number.
unpack :
    (lf : Bytes) (a b c : ℕ)
    → a < 27
    → b < 27
    → c < 27
    → 13 ≤ length lf
    → get_or lf 11 0 ≡ packed a b c % 256
    → get_or lf 12 0 ≡ packed a b c / 256
    → decode_manufacturer lf ≡ ok ((a + 64) ∷ (b + 64) ∷ (c + 64) ∷ [])
unfolding decode_manufacturer
unpack lf a b c ha hb hc n lo hi =
    let p : bit_or (get_or lf 11 0) (get_or lf 12 0 * 2 ^ 8) ≡ packed a b c =
      bit_or_disjoint 8 (get_or lf 11 0) (get_or lf 12 0) (omega arith) ∙ omega arith in
    let qa : bit_and (packed a b c / 2 ^ 10) 0x1F ≡ a =
      low_five_bits (packed a b c / 2 ^ 10) ∙ omega arith in
    let qb : bit_and (packed a b c / 2 ^ 5) 0x1F ≡ b =
      low_five_bits (packed a b c / 2 ^ 5) ∙ omega arith in
    let qc : bit_and (packed a b c) 0x1F ≡ c = low_five_bits (packed a b c) ∙ omega arith in
    rw (at-eq_ok lf 11 (omega arith), at-eq_ok lf 12 (omega arith), p, qa, qb, qc) (ground arith)

-- Of three capital letters: a header that holds the two bytes they are packed into, at offset 11,
-- gives the same three letters back.
pub decode_manufacturer-encode_manufacturer :
    (a b c : ℕ) (lf : Bytes)
    → IsLetter a
    → IsLetter b
    → IsLetter c
    → 13 ≤ length lf
    → encode_manufacturer (a ∷ b ∷ c ∷ []) ≡ ok (get_or lf 11 0 ∷ get_or lf 12 0 ∷ [])
    → decode_manufacturer lf ≡ ok (a ∷ b ∷ c ∷ [])
decode_manufacturer-encode_manufacturer a b c lf ha hb hc n e =
    let (ea, la, pa) = shifted a ha in
    let (eb, lb, pb) = shifted b hb in
    let (ec, lc, pc) = shifted c hc in
    let f = sym (encode_manufacturer_lem a b c ha hb hc) ∙ e in
    let u = unpack lf (a - 64) (b - 64) (c - 64) la lb lc n (cc) (cc) in cc
