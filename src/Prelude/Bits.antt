-- ===== src/Prelude/Bits.antt =====
-- Bit operations as arithmetic. Masks of a byte are tables checked by evaluation; `bit_or` of two
-- numbers whose bits do not overlap is their sum, at every width.
use Prim.Native.Nat.{
  ℕ, zero, suc, ◌+◌, ◌*◌, ◌/◌, ◌%◌, ◌^◌, ◌≤◌, ◌<◌, max, bit_or, digits, bit_or-bitwise,
}
use mathlib.Core.Path.{◌≡◌, refl, sym, ap, ◌∙◌}
use mathlib.Core.Logic.{inl, inr}
use mathlib.Core.Bool.{Bool, true, ◌&&◌}
use native.Mathlib.Omega.{arith}
use native.Mathlib.Nat.{pow-suc}
use gombus.Prelude.Tests.{◌==◌, leb, Bool-cases}

-- Two functions agree below a bound.
unfoldable pub agree : ℕ → (ℕ → ℕ) → (ℕ → ℕ) → Bool
agree zero f g = true
agree (suc n) f g = f n == g n && agree n f g

pub agree_sound : (n : ℕ) (f g : ℕ → ℕ) (x : ℕ) → agree n f g ≡ true → x < n → f x ≡ g x
unfolding agree
agree_sound zero f g x h lt = absurd (omega arith)
agree_sound (suc n) f g x h lt = ground (arith, agree_sound n f g x)

-- The digits of a bitwise operation: rounds beyond the size of the left operand change nothing.
module _ (base : ℕ → ℕ) (op : ℕ → ℕ → ℕ) where
  one_round_more : (n a b : ℕ) → a ≤ n → digits base op (suc n) a b ≡ digits base op n a b
  one_round_more zero zero b le = refl
  one_round_more (suc n) zero b le = refl
  one_round_more zero (suc a) b le = absurd (omega arith)
  one_round_more (suc n) (suc a) b le =
      omega (arith, one_round_more n (suc a / 2) (b / 2) (omega arith))

  pub rounds_enough : (n a b : ℕ) → a ≤ n → digits base op n a b ≡ digits base op a a b
  rounds_enough zero zero b le = refl
  rounds_enough zero (suc a) b le = absurd (omega arith)
  rounds_enough (suc n) a b le = elim (Bool-cases (leb a n)) [
    | inl t ↦ one_round_more n a b (ground arith) ∙ rounds_enough n a b (ground arith)
    | inr t ↦
        let whole : a ≡ suc n = ground arith in ap (λ rounds. digits base op rounds a b) (sym whole)
  ]

pub zero-bit_or : (b : ℕ) → bit_or 0 b ≡ b
zero-bit_or b = bit_or-bitwise 0 b

-- The lowest bit of a disjunction, and the rest of it.
pub bit_or-half : (a b : ℕ) → bit_or a b ≡ bit_or (a / 2) (b / 2) * 2 + max (a % 2) (b % 2)
bit_or-half zero b = omega (arith, zero-bit_or b, zero-bit_or (b / 2))
bit_or-half (suc a) b =
    let enough = rounds_enough (λ x. x) max a (suc a / 2) (b / 2) (omega arith) in
    let rest = bit_or-bitwise (suc a / 2) (b / 2) in
    omega (arith, enough, rest, bit_or-bitwise (suc a) b)

-- `a | b << k` for `a` of at most `k` bits is a sum.
pub bit_or_disjoint : (k a b : ℕ) → a < 2 ^ k → bit_or a (b * 2 ^ k) ≡ a + b * 2 ^ k
bit_or_disjoint zero zero b h = omega (arith, zero-bit_or (b * 2 ^ 0))
bit_or_disjoint zero (suc a) b h = absurd (omega arith)
bit_or_disjoint (suc k) a b h =
    let p = pow-suc 2 k in
    let shifted : b * 2 ^ suc k ≡ b * 2 ^ k * 2 = omega (arith, ap (λ (t : ℕ). b * t) p) in
    let halved : b * 2 ^ suc k / 2 ≡ b * 2 ^ k = omega (arith, shifted) in
    omega (
      arith,
      bit_or-half a (b * 2 ^ suc k),
      ap (bit_or (a / 2)) halved,
      bit_or_disjoint k (a / 2) b (omega (arith, p)),
      shifted,
    )
