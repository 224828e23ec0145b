-- ===== src/Prelude/Flags.antt =====
-- A bit of the high byte of a word of 16 bits.
use Prim.Native.Nat.{
  ℕ, zero, suc, ◌*◌, ◌/◌, ◌<◌, ◌^◌, min, bit_and, bit_or, digits, bit_and-bitwise,
}
use mathlib.Core.Path.{◌≡◌, refl, ◌∙◌, ap}
use native.Mathlib.Omega.{arith}
use gombus.Prelude.Bits.{rounds_enough, bit_or_disjoint}

-- A mask whose lowest bit is clear.
bit_and-even : (a m : ℕ) → bit_and a (m * 2) ≡ bit_and (a / 2) m * 2
bit_and-even zero m = omega (arith, bit_and-bitwise 0 (m * 2), bit_and-bitwise 0 m)
bit_and-even (suc a) m =
    let half : m * 2 / 2 ≡ m = omega arith in
    let top = bit_and-bitwise (suc a) (m * 2) in
    let rest = bit_and-bitwise (suc a / 2) m in
    let enough = rounds_enough (λ x. 0) min a (suc a / 2) m (omega arith) in
    omega (arith, half, ap (digits (λ x. 0) min a (suc a / 2)) half, top, rest, enough)

abbrev doubled : ℕ → ℕ → ℕ
doubled zero m = m
doubled (suc k) m = doubled k m * 2

abbrev halved : ℕ → ℕ → ℕ
halved zero a = a
halved (suc k) a = halved k (a / 2)

bit_and-doubled : (k a m : ℕ) → bit_and a (doubled k m) ≡ doubled k (bit_and (halved k a) m)
bit_and-doubled zero a m = refl
bit_and-doubled (suc k) a m =
    bit_and-even a (doubled k m) ∙ ap (λ (n : ℕ). n * 2) (bit_and-doubled k (a / 2) m)

-- A mask of the high byte of a word.
pub high_mask :
    (low high m : ℕ)
    → low < 256
    → bit_and (bit_or low (high * 2 ^ 8)) (m * 256) ≡ bit_and high m * 256
high_mask low high m h =
    let word = bit_or_disjoint 8 low high h in
    let mask : m * 256 ≡ doubled 8 m = omega arith in
    let byte : halved 8 (bit_or low (high * 2 ^ 8)) ≡ high = omega (arith, word) in
    ap (bit_and (bit_or low (high * 2 ^ 8))) mask
    ∙ bit_and-doubled 8 (bit_or low (high * 2 ^ 8)) m
    ∙ ap (λ (n : ℕ). doubled 8 (bit_and n m)) byte
    ∙ omega arith
