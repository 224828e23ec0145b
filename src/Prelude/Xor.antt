-- ===== src/Prelude/Xor.antt =====
-- Exclusive or of numbers of any width, and one bit of a number.
use Prim.Native.Nat.{
  ℕ, zero, suc, ◌+◌, ◌*◌, ◌/◌, ◌%◌, ◌^◌, ◌≤◌, ◌<◌, min, bit_and, bit_xor, differ, bit_xor-bitwise,
  bit_and-bitwise,
}
use mathlib.Core.Path.{◌≡◌, refl, sym, ap, ◌∙◌}
use native.Mathlib.Omega.{arith}
use native.Mathlib.Nat.{pow-suc}
use gombus.Prelude.Bits.{rounds_enough}
use gombus.Prelude.Masks.{masked_away}

differ_digits : (x y : ℕ) → x < 2 → y < 2 → differ x y ≡ (x + y) % 2
differ_digits zero y hx hy = omega arith
differ_digits (suc zero) zero hx hy = refl
differ_digits (suc zero) (suc zero) hx hy = refl
differ_digits (suc zero) (suc (suc y)) hx hy = absurd (omega arith)
differ_digits (suc (suc x)) y hx hy = absurd (omega arith)

-- The lowest bit, and the rest.
pub bit_xor-half : (a b : ℕ) → bit_xor a b ≡ bit_xor (a / 2) (b / 2) * 2 + (a + b) % 2
bit_xor-half zero b = omega (arith, bit_xor-bitwise 0 b, bit_xor-bitwise 0 (b / 2))
bit_xor-half (suc a) b =
    let enough = rounds_enough (λ x. x) differ a (suc a / 2) (b / 2) (omega arith) in
    let rest = bit_xor-bitwise (suc a / 2) (b / 2) in
    let lowest = differ_digits (suc a % 2) (b % 2) (omega arith) (omega arith) in
    omega (arith, enough, rest, lowest, bit_xor-bitwise (suc a) b)

cancel_to : (n a b : ℕ) → a + b ≤ n → bit_xor (bit_xor a b) b ≡ a
cancel_to zero zero zero h = refl
cancel_to zero zero (suc b) h = absurd (omega arith)
cancel_to zero (suc a) b h = absurd (omega arith)
cancel_to (suc n) a b h =
    let outer = bit_xor-half (bit_xor a b) b in
    let inner = bit_xor-half a b in
    let half : bit_xor a b / 2 ≡ bit_xor (a / 2) (b / 2) = omega (arith, inner) in
    let under = ap (λ t. bit_xor t (b / 2)) half in
    omega (arith, outer, inner, under, cancel_to n (a / 2) (b / 2) (omega arith))

-- `a ^ b ^ b`
pub bit_xor_cancel : (a b : ℕ) → bit_xor (bit_xor a b) b ≡ a
bit_xor_cancel a b = cancel_to (a + b) a b (omega arith)

comm_to : (n a b : ℕ) → a + b ≤ n → bit_xor a b ≡ bit_xor b a
comm_to zero zero zero h = refl
comm_to zero zero (suc b) h = absurd (omega arith)
comm_to zero (suc a) b h = absurd (omega arith)
comm_to (suc n) a b h =
    omega (arith, bit_xor-half a b, bit_xor-half b a, comm_to n (a / 2) (b / 2) (omega arith))

pub bit_xor_comm : (a b : ℕ) → bit_xor a b ≡ bit_xor b a
bit_xor_comm a b = comm_to (a + b) a b (omega arith)

pub bit_xor_injective : (s a b : ℕ) → bit_xor s a ≡ bit_xor s b → a ≡ b
bit_xor_injective s a b e =
    sym (bit_xor_cancel a s)
    ∙ ap (λ t. bit_xor t s) (bit_xor_comm a s ∙ e ∙ bit_xor_comm s b)
    ∙ bit_xor_cancel b s

pub bit_xor-lt : (k a b : ℕ) → a < 2 ^ k → b < 2 ^ k → bit_xor a b < 2 ^ k
bit_xor-lt zero zero zero ha hb = omega arith
bit_xor-lt zero zero (suc b) ha hb = absurd (omega arith)
bit_xor-lt zero (suc a) b ha hb = absurd (omega arith)
bit_xor-lt (suc k) a b ha hb =
    let p = pow-suc 2 k in
    omega (
      arith,
      p,
      bit_xor-half a b,
      bit_xor-lt k (a / 2) (b / 2) (omega (arith, p)) (omega (arith, p)),
    )

and_half : (a b : ℕ) → bit_and a b ≡ bit_and (a / 2) (b / 2) * 2 + min (a % 2) (b % 2)
and_half zero b = omega (arith, bit_and-bitwise 0 b, bit_and-bitwise 0 (b / 2))
and_half (suc a) b =
    let enough = rounds_enough (λ x. 0) min a (suc a / 2) (b / 2) (omega arith) in
    let rest = bit_and-bitwise (suc a / 2) (b / 2) in
    omega (arith, enough, rest, bit_and-bitwise (suc a) b)

-- Bit `k` of a number.
abbrev pub bit : ℕ → ℕ → ℕ
bit zero a = a % 2
bit (suc k) a = bit k (a / 2)

nothing_left : (n a : ℕ) → a ≤ n → bit_and a 0 ≡ 0
nothing_left n a h = bit_and-bitwise a 0 ∙ masked_away a a

pub bit_and-bit : (k a : ℕ) → bit_and a (2 ^ k) ≡ bit k a * 2 ^ k
bit_and-bit zero a = omega (arith, and_half a 1, nothing_left (a / 2) (a / 2) (omega arith))
bit_and-bit (suc k) a =
    let p = pow-suc 2 k in
    let half : 2 ^ suc k / 2 ≡ 2 ^ k = omega (arith, p) in
    let under = ap (bit_and (a / 2)) half in
    omega (
      arith,
      p,
      and_half a (2 ^ suc k),
      under,
      bit_and-bit k (a / 2),
      ap (λ (t : ℕ). bit k (a / 2) * t) p,
    )

pub bit_fifteen : (a : ℕ) → a < 65536 → bit 15 a ≡ a / 32768
bit_fifteen a h = omega arith
