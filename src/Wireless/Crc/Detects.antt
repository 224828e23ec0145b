-- ===== src/Wireless/Crc/Detects.antt =====
-- wmbus/crc.go: what the block CRC detects.
use native.Mathlib.Decide.{dec_lt}
use gombus.Prelude.{
  ℕ, zero, suc, ◌+◌, ◌-◌, ◌*◌, ◌/◌, ◌%◌, ◌^◌, ◌≤◌, ◌<◌, ◌≡◌, ◌≢◌, sym, ap, ◌∙◌, [], ◌∷◌, ◌++◌,
  arith, bit_xor, bit_and, All,
}
use gombus.Prelude.Xor.{
  bit_xor-half, bit_xor_comm, bit_xor_injective, bit_xor-lt, bit_and-bit, bit_fifteen,
}
use gombus.Result.{Bytes, IsByte, ok, err, sentinel, crc_mismatch, at}
use gombus.Wireless.Crc.{crc_polynomial, crc_round, crc_rounds, crc_from, crc16, check_crc}

top_bit : (r : ℕ) → r < 65536 → bit_and r 0x8000 ≡ r / 32768 * 32768
top_bit r h = bit_and-bit 15 r ∙ ap (λ t. t * 32768) (bit_fifteen r h)

crc_round-low : (r : ℕ) → r < 32768 → crc_round r ≡ r * 2
unfolding crc_round
crc_round-low r h = ground (arith, top_bit r (omega arith))

crc_round-high :
    (r : ℕ) → 32768 ≤ r → r < 65536 → crc_round r ≡ bit_xor (r * 2 % 65536) crc_polynomial
unfolding crc_round
crc_round-high r h k = ground (arith, top_bit r k)

-- The feedback sets the lowest bit of the register.
fed_parity : (x : ℕ) → bit_xor (x * 2) crc_polynomial % 2 ≡ 1
fed_parity x = omega (arith, bit_xor-half (x * 2) crc_polynomial)

crc_round-lt : (r : ℕ) → r < 65536 → crc_round r < 65536
crc_round-lt r h = elim (dec_lt r 32768) [
  | yes k ↦ omega (arith, crc_round-low r k)
  | no k ↦ omega (
    arith,
    crc_round-high r (omega arith) h,
    bit_xor-lt 16 (r * 2 % 65536) crc_polynomial (omega arith) (omega arith),
  )
]

-- Two registers that a round makes equal have the same top bit, and then the same rest.
differ_in_parity : (r s : ℕ) → r < 32768 → 32768 ≤ s → s < 65536 → crc_round r ≡ crc_round s → r ≡ s
differ_in_parity r s h k l e = absurd (
    omega (
      arith,
      crc_round-low r h,
      crc_round-high s k l,
      fed_parity (s - 32768),
      e,
      ap (λ t. bit_xor t crc_polynomial % 2) (wrapped s k l),
    ))
  where
    wrapped : (s : ℕ) → 32768 ≤ s → s < 65536 → s * 2 % 65536 ≡ (s - 32768) * 2
    wrapped s k l = omega arith

same_feedback :
    (r s : ℕ) → 32768 ≤ r → r < 65536 → 32768 ≤ s → s < 65536 → crc_round r ≡ crc_round s → r ≡ s
same_feedback r s h k h' k' e =
    let fed = sym (crc_round-high r h k) ∙ e ∙ crc_round-high s h' k' in
    let P = crc_polynomial in
    let rest =
      bit_xor_injective P (r * 2 % 65536) (s * 2 % 65536)
        (bit_xor_comm P (r * 2 % 65536) ∙ fed ∙ bit_xor_comm (s * 2 % 65536) P) in
    omega (arith, rest)

crc_round_injective : (r s : ℕ) → r < 65536 → s < 65536 → crc_round r ≡ crc_round s → r ≡ s
crc_round_injective r s h k e = elim (dec_lt r 32768) [
  | yes p ↦ elim (dec_lt s 32768) [
    | yes q ↦ omega (arith, crc_round-low r p, crc_round-low s q, e)
    | no q ↦ differ_in_parity r s p (omega arith) k e
  ]
  | no p ↦ elim (dec_lt s 32768) [
    | yes q ↦ sym (differ_in_parity s r q (omega arith) h (sym e))
    | no q ↦ same_feedback r s (omega arith) h (omega arith) k e
  ]
]

crc_rounds-lt : (n r : ℕ) → r < 65536 → crc_rounds n r < 65536
unfolding crc_rounds
crc_rounds-lt zero r h = h
crc_rounds-lt (suc n) r h = crc_rounds-lt n (crc_round r) (crc_round-lt r h)

crc_rounds_injective : (n r s : ℕ) → r < 65536 → s < 65536 → crc_rounds n r ≡ crc_rounds n s → r ≡ s
unfolding crc_rounds
crc_rounds_injective zero r s h k e = e
crc_rounds_injective (suc n) r s h k e =
    crc_round_injective r s h k
      (crc_rounds_injective n (crc_round r) (crc_round s) (crc_round-lt r h) (crc_round-lt s k) e)

-- The register that takes a byte, and after the eight rounds.
abbrev fed : ℕ → ℕ → ℕ
fed r x = bit_xor r (x * 2 ^ 8)

abbrev step : ℕ → ℕ → ℕ
step r x = crc_rounds 8 (fed r x)

fed-lt : (r x : ℕ) → r < 65536 → x < 256 → fed r x < 65536
fed-lt r x h k = bit_xor-lt 16 r (x * 2 ^ 8) h (omega arith)

step-lt : (r x : ℕ) → r < 65536 → x < 256 → step r x < 65536
step-lt r x h k = crc_rounds-lt 8 (fed r x) (fed-lt r x h k)

step_injective :
    (r s x y : ℕ)
    → r < 65536
    → s < 65536
    → x < 256
    → y < 256
    → step r x ≡ step s y
    → fed r x ≡ fed s y
step_injective r s x y h k hx hy e =
    crc_rounds_injective 8 (fed r x) (fed s y) (fed-lt r x h hx) (fed-lt s y k hy) e

crc_from_injective :
    (b : Bytes) (r s : ℕ)
    → All IsByte b
    → r < 65536
    → s < 65536
    → crc_from r b ≡ crc_from s b
    → r ≡ s
unfolding crc_from
crc_from_injective [] r s a h k e = e
crc_from_injective (x ∷ b) r s a h k e =
    let inside =
      step_injective r s x x h k a.0 a.0 (
        crc_from_injective b (step r x) (step s x) a.1 (step-lt r x h a.0) (step-lt s x k a.0) e) in
    bit_xor_injective (x * 2 ^ 8) r s
      (bit_xor_comm (x * 2 ^ 8) r ∙ inside ∙ bit_xor_comm s (x * 2 ^ 8))

crc_from-one_byte :
    (pre post : Bytes) (r a b : ℕ)
    → r < 65536
    → All IsByte pre
    → All IsByte post
    → a < 256
    → b < 256
    → crc_from r (pre ++ (a ∷ post)) ≡ crc_from r (pre ++ (b ∷ post))
    → a ≡ b
unfolding crc_from
crc_from-one_byte [] post r a b h hpre hpost ha hb e =
    let inside = step_injective r r a b h h ha hb (
      crc_from_injective post (step r a) (step r b) hpost (step-lt r a h ha) (step-lt r b h hb)
        e) in
    omega (arith, bit_xor_injective r (a * 2 ^ 8) (b * 2 ^ 8) inside)
crc_from-one_byte (x ∷ pre) post r a b h hpre hpost ha hb e =
    crc_from-one_byte pre post (step r x) a b (step-lt r x h hpre.0) hpre.1 hpost ha hb e

crc16-one_byte :
    (pre post : Bytes) (a b : ℕ)
    → All IsByte pre
    → All IsByte post
    → a < 256
    → b < 256
    → crc16 (pre ++ (a ∷ post)) ≡ crc16 (pre ++ (b ∷ post))
    → a ≡ b
unfolding crc16
crc16-one_byte pre post a b hpre hpost ha hb e =
    let whole : ℕ → ℕ = λ x. crc_from 0 (pre ++ (x ∷ post)) in
    crc_from-one_byte pre post 0 a b (omega arith) hpre hpost ha hb (
      bit_xor_injective 0xFFFF (whole a) (whole b)
        (bit_xor_comm 0xFFFF (whole a) ∙ e ∙ bit_xor_comm (whole b) 0xFFFF))

-- A check that passes.
check_crc-eq_ok :
    (b : Bytes) (hi lo : ℕ) → check_crc b (hi ∷ lo ∷ []) ≡ ok tt → crc16 b ≡ hi * 2 ^ 8 + lo
unfolding check_crc at
check_crc-eq_ok b hi lo e = ground arith

check_crc-eq_err :
    (b : Bytes) (hi lo : ℕ)
    → crc16 b ≢ hi * 2 ^ 8 + lo
    → check_crc b (hi ∷ lo ∷ []) ≡ err (sentinel crc_mismatch)
unfolding check_crc at
check_crc-eq_err b hi lo e = ground arith

-- If the CRC of a block is right, it is refused once any one byte of the block is replaced by
-- another.
pub check_crc_detects :
    (pre post : Bytes) (a b hi lo : ℕ)
    → All IsByte pre
    → All IsByte post
    → a < 256
    → b < 256
    → a ≢ b
    → check_crc (pre ++ (a ∷ post)) (hi ∷ lo ∷ []) ≡ ok tt
    → check_crc (pre ++ (b ∷ post)) (hi ∷ lo ∷ []) ≡ err (sentinel crc_mismatch)
check_crc_detects pre post a b hi lo hpre hpost ha hb n e =
    check_crc-eq_err (pre ++ (b ∷ post)) hi lo λ d. n (
      crc16-one_byte pre post a b hpre hpost ha hb
        (check_crc-eq_ok (pre ++ (a ∷ post)) hi lo e ∙ sym d))
