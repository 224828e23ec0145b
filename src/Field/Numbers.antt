-- ===== src/Field/Numbers.antt =====
-- The storage number, tariff and device of field.go: the digits that the DIFE chain spells.
use native.Mathlib.Nat.{mul-le-mul_right}
use native.Mathlib.Numerals.{towards_suc}
use gombus.Prelude.{
  ℕ, suc, ◌+◌, ◌*◌, ◌/◌, ◌%◌, ◌^◌, ◌<◌, ◌≤◌, ◌≡◌, refl, ap, ◌∙◌, [], ◌∷◌, arith, All, bit_and,
}
use gombus.Prelude.Bits.{agree, agree_sound, bit_or_disjoint}
use gombus.Result.{Bytes, IsByte}
use gombus.Field.{
  storage_number_loop, decode_storage_number, tariff_loop, decode_tariff, device_loop,
  decode_device,
}

-- The number with the given digits in a base, lowest first.
abbrev pub number : ℕ → (ℕ → ℕ) → Bytes → ℕ
number base digit [] = 0
number base digit (d ∷ dife) = digit d + base * number base digit dife

storage_bits : (d : ℕ) → d < 256 → bit_and d 0x0F ≡ d % 16
unfolding agree
storage_bits d h = agree_sound 256 (λ x. bit_and x 0x0F) (λ x. x % 16) d refl h

tariff_bits : (d : ℕ) → d < 256 → bit_and d 0x30 / 2 ^ 4 ≡ d / 16 % 4
unfolding agree
tariff_bits d h = agree_sound 256 (λ x. bit_and x 0x30 / 2 ^ 4) (λ x. x / 16 % 4) d refl h

device_bits : (d : ℕ) → d < 256 → bit_and d 0x40 / 2 ^ 6 ≡ d / 64 % 2
unfolding agree
device_bits d h = agree_sound 256 (λ x. bit_and x 0x40 / 2 ^ 6) (λ x. x / 64 % 2) d refl h

-- A digit below 2 ^ w at bit i leaves the bits from i + w on free.
digit_fits : (w i r d : ℕ) → r < 2 ^ i → d < w → r + d * 2 ^ i < w * 2 ^ i
digit_fits w i r d h k =
    let m : suc d * 2 ^ i ≤ w * 2 ^ i = mul-le-mul_right (2 ^ i) k in omega (arith, m)

power_four : (i : ℕ) → 2 ^ (i + 4) ≡ 16 * 2 ^ i
power_four i = simp towards_suc (omega arith)

power_two : (i : ℕ) → 2 ^ (i + 2) ≡ 4 * 2 ^ i
power_two i = simp towards_suc (omega arith)

power_one : (i : ℕ) → 2 ^ (i + 1) ≡ 2 * 2 ^ i
power_one i = simp towards_suc (omega arith)

storage_number_loop-number :
    (dife : Bytes) (r i : ℕ)
    → All IsByte dife
    → r < 2 ^ i
    → storage_number_loop r i dife ≡ r + 2 ^ i * number 16 (λ d. d % 16) dife
unfolding storage_number_loop
storage_number_loop-number [] r i a h = omega arith
storage_number_loop-number (d ∷ dife) r i (hd, a) h =
    let n = number 16 (λ d. d % 16) dife in
    rw (storage_bits d hd, bit_or_disjoint i r (d % 16) h)
      (storage_number_loop-number dife (r + d % 16 * 2 ^ i) (i + 4) a
          (omega (arith, digit_fits 16 i r (d % 16) h (omega arith), power_four i))
        ∙ omega (arith, ap (λ (t : ℕ). t * n) (power_four i)))

tariff_loop-number :
    (dife : Bytes) (r i : ℕ)
    → All IsByte dife
    → r < 2 ^ i
    → tariff_loop r i dife ≡ r + 2 ^ i * number 4 (λ d. d / 16 % 4) dife
unfolding tariff_loop
tariff_loop-number [] r i a h = omega arith
tariff_loop-number (d ∷ dife) r i (hd, a) h =
    let n = number 4 (λ d. d / 16 % 4) dife in
    rw (tariff_bits d hd, bit_or_disjoint i r (d / 16 % 4) h)
      (tariff_loop-number dife (r + d / 16 % 4 * 2 ^ i) (i + 2) a
          (omega (arith, digit_fits 4 i r (d / 16 % 4) h (omega arith), power_two i))
        ∙ omega (arith, ap (λ (t : ℕ). t * n) (power_two i)))

device_loop-number :
    (dife : Bytes) (r i : ℕ)
    → All IsByte dife
    → r < 2 ^ i
    → device_loop r i dife ≡ r + 2 ^ i * number 2 (λ d. d / 64 % 2) dife
unfolding device_loop
device_loop-number [] r i a h = omega arith
device_loop-number (d ∷ dife) r i (hd, a) h =
    let n = number 2 (λ d. d / 64 % 2) dife in
    rw (device_bits d hd, bit_or_disjoint i r (d / 64 % 2) h)
      (device_loop-number dife (r + d / 64 % 2 * 2 ^ i) (i + 1) a
          (omega (arith, digit_fits 2 i r (d / 64 % 2) h (omega arith), power_one i))
        ∙ omega (arith, ap (λ (t : ℕ). t * n) (power_one i)))

-- The storage number, the tariff and the device are the numbers whose digits the DIFE chain
-- spells, lowest first; the storage number begins with a bit of the DIF.
pub decode_numbers-number :
    (dif : ℕ) (dife : Bytes)
    → dif < 256
    → All IsByte dife
    → (decode_storage_number dif dife ≡ dif / 64 % 2 + 2 * number 16 (λ d. d % 16) dife)
      × (decode_tariff dife ≡ number 4 (λ d. d / 16 % 4) dife)
      × (decode_device dife ≡ number 2 (λ d. d / 64 % 2) dife)
unfolding decode_storage_number decode_tariff decode_device
decode_numbers-number dif dife h a = (
  rw (device_bits dif h)
      (storage_number_loop-number dife (dif / 64 % 2) 1 a (omega arith) ∙ omega arith),
  tariff_loop-number dife 0 0 a (omega arith) ∙ omega arith,
  device_loop-number dife 0 0 a (omega arith) ∙ omega arith,
)
