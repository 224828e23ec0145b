-- ===== src/Prelude/Masks.antt =====
-- Bit operations on numbers of any width: the low bits, and the order of a disjunction.
use Prim.Native.Nat.{
  ℕ, zero, suc, ◌+◌, ◌*◌, ◌/◌, ◌%◌, ◌≤◌, min, bit_and, bit_or, digits, bit_and-bitwise,
}
use mathlib.Core.Path.{◌≡◌, refl, ◌∙◌, ap}
use native.Mathlib.Omega.{arith}
use gombus.Prelude.Bits.{bit_or-half, rounds_enough}

-- The mask of k ones, and the number of the low k bits.
abbrev ones : ℕ → ℕ
ones zero = 0
ones (suc k) = ones k * 2 + 1

abbrev low : ℕ → ℕ → ℕ
low zero a = 0
low (suc k) a = low k (a / 2) * 2 + a % 2

pub masked_away : (n a : ℕ) → digits (λ x. 0) min n a 0 ≡ 0
masked_away zero a = refl
masked_away (suc n) zero = refl
masked_away (suc n) (suc a) = omega (arith, masked_away n (suc a / 2))

bit_and-ones : (k a : ℕ) → bit_and a (ones k) ≡ low k a
bit_and-ones zero a = bit_and-bitwise a 0 ∙ masked_away a a
bit_and-ones (suc k) zero =
    omega (arith, bit_and-bitwise 0 (ones k * 2 + 1), bit_and-bitwise 0 (ones k), bit_and-ones k 0)
bit_and-ones (suc k) (suc a) =
    let half : (ones k * 2 + 1) / 2 ≡ ones k = omega arith in
    let top = bit_and-bitwise (suc a) (ones k * 2 + 1) in
    let rest = bit_and-bitwise (suc a / 2) (ones k) in
    let enough = rounds_enough (λ x. 0) min a (suc a / 2) (ones k) (omega arith) in
    let more = bit_and-ones k (suc a / 2) in
    omega (arith, half, ap (digits (λ x. 0) min a (suc a / 2)) half, top, rest, enough, more)

-- `a & 0Fh`
pub low_four_bits : (a : ℕ) → bit_and a 15 ≡ a % 16
low_four_bits a = bit_and-ones 4 a ∙ omega arith

-- `a & 1Fh`
pub low_five_bits : (a : ℕ) → bit_and a 31 ≡ a % 32
low_five_bits a = bit_and-ones 5 a ∙ omega arith

bit_or_comm_to : (n a b : ℕ) → a + b ≤ n → bit_or a b ≡ bit_or b a
bit_or_comm_to zero zero zero h = refl
bit_or_comm_to zero zero (suc b) h = absurd (omega arith)
bit_or_comm_to zero (suc a) b h = absurd (omega arith)
bit_or_comm_to (suc n) zero zero h = refl
bit_or_comm_to (suc n) (suc a) b h = omega (
  arith,
  bit_or-half (suc a) b,
  bit_or-half b (suc a),
  bit_or_comm_to n (suc a / 2) (b / 2) (omega arith),
)
bit_or_comm_to (suc n) zero (suc b) h = omega (
  arith,
  bit_or-half 0 (suc b),
  bit_or-half (suc b) 0,
  bit_or_comm_to n 0 (suc b / 2) (omega arith),
)

pub bit_or_comm : (a b : ℕ) → bit_or a b ≡ bit_or b a
bit_or_comm a b = bit_or_comm_to (a + b) a b (omega arith)
