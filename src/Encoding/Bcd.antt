-- ===== src/Encoding/Bcd.antt =====
-- The BCD conversions of encoding.go against the decimal value that the digits spell.
use gombus.Prelude.{
  ℕ, zero, suc, ◌+◌, ◌*◌, ◌/◌, ◌%◌, ◌^◌, ◌<◌, ◌≤◌, ◌≡◌, ◌≢◌, refl, false, [], ◌∷◌, arith, length,
  All, bit_and, bit_or, ap, ◌∙◌,
}
use gombus.Prelude.Bits.{agree, agree_sound}
use gombus.Result.{Bytes, IsByte, ok, err, message, bcd_digits_exceeded, >>=-eq-ok}
use gombus.Encoding.{uint_to_bcd_loop, uint_to_bcd, bcd_step, bcd_digits_loop, bcd_magnitude}
use native.Mathlib.Nat.{pow-suc}

low_nibble_table : (b : ℕ) → b < 256 → bit_and b 0x0F ≡ b % 16
unfolding agree
low_nibble_table b h = agree_sound 256 (λ x. bit_and x 0x0F) (λ x. x % 16) b refl h

pub digits_table : (t : ℕ) → t < 100 → bit_or (t / 10 * 16) (t % 10) ≡ t / 10 * 16 + t % 10
unfolding agree
digits_table t h =
    agree_sound 100 (λ x. bit_or (x / 10 * 16) (x % 10)) (λ x. x / 10 * 16 + x % 10) t refl h

-- One byte of two decimal digits, and the number that a field of them spells.
abbrev pub IsBcd : ℕ → Type 0
IsBcd b = (b / 16 ≤ 9) × (b % 16 ≤ 9)

abbrev pub decimal : Bytes → ℕ
decimal [] = 0
decimal (b ∷ rest) = decimal rest * 100 + (b / 16 * 10 + b % 16)

bcd_step-IsBcd :
    (v b : ℕ)
    → b < 256
    → IsBcd b
    → v * 100 + (b / 16 * 10 + b % 16) < 2 ^ 64
    → bcd_step false v b ≡ ok (v * 100 + (b / 16 * 10 + b % 16))
unfolding bcd_step
bcd_step-IsBcd v b h d fits = ground (arith, low_nibble_table b h)

bcd_step_sound :
    (v b w : ℕ)
    → b < 256
    → bcd_step false v b ≡ ok w
    → IsBcd b × (w ≡ v * 100 + (b / 16 * 10 + b % 16)) × (w < 2 ^ 64)
unfolding bcd_step
bcd_step_sound v b w h e = ground (arith, low_nibble_table b h)

decimal-lt : (b : Bytes) → All IsBcd b → decimal b < 100 ^ length b
decimal-lt [] d = omega arith
decimal-lt (x ∷ b) (h, t) = omega (arith, decimal-lt b t, pow-suc 100 (length b))

bcd_digits_loop-decimal :
    (b : Bytes)
    → All IsByte b
    → All IsBcd b
    → decimal b < 2 ^ 64
    → bcd_digits_loop b false ≡ ok (decimal b)
unfolding bcd_digits_loop
bcd_digits_loop-decimal [] a d h = refl
bcd_digits_loop-decimal (x ∷ b) (ax, a) (dx, d) h =
    rw (bcd_digits_loop-decimal b a d (omega arith)) (bcd_step-IsBcd (decimal b) x ax dx h)

bcd_digits_loop_sound :
    (b : Bytes) (v : ℕ)
    → All IsByte b
    → bcd_digits_loop b false ≡ ok v
    → All IsBcd b × (v ≡ decimal b) × (v < 2 ^ 64)
unfolding bcd_digits_loop
bcd_digits_loop_sound [] v a e = ground arith
bcd_digits_loop_sound (x ∷ b) v (ax, a) e =
    let (w, ew, es) = >>=-eq-ok (bcd_digits_loop b false) _ e in
    let (d, q, _) = bcd_digits_loop_sound b w a ew in
    let (dx, p, r) = bcd_step_sound w x v ax es in ((dx, d), omega arith, r)

-- A field of BCD bytes that is not empty and whose decimal value is a uint64 decodes to that
-- value.
pub bcd_magnitude-decimal :
    (b : Bytes)
    → b ≢ []
    → All IsByte b
    → All IsBcd b
    → decimal b < 2 ^ 64
    → bcd_magnitude b ≡ ok (decimal b)
unfolding bcd_magnitude
bcd_magnitude-decimal [] ne a d h = absurd (ne refl)
bcd_magnitude-decimal (x ∷ b) ne a d h = bcd_digits_loop-decimal (x ∷ b) a d h

-- What decodes is a field of BCD bytes, and the result is its decimal value, which fits its digits
-- and a uint64.
pub bcd_magnitude_sound :
    (b : Bytes) (v : ℕ)
    → All IsByte b
    → bcd_magnitude b ≡ ok v
    → All IsBcd b × (v ≡ decimal b) × (v < 100 ^ length b) × (v < 2 ^ 64)
unfolding bcd_magnitude
bcd_magnitude_sound [] v a e = cc
bcd_magnitude_sound (x ∷ b) v a e =
    let (d, p, r) = bcd_digits_loop_sound (x ∷ b) v a e in
    (d, p, omega (arith, decimal-lt (x ∷ b) d), r)

uint_to_bcd_loop_lem :
    (n r : ℕ)
    → r < 100 ^ n
    → ((uint_to_bcd_loop n r).1 ≡ 0)
      × (length (uint_to_bcd_loop n r).0 ≡ n)
      × All IsByte (uint_to_bcd_loop n r).0
      × All IsBcd (uint_to_bcd_loop n r).0
      × (decimal (uint_to_bcd_loop n r).0 ≡ r)
unfolding uint_to_bcd_loop
uint_to_bcd_loop_lem zero r h = (omega arith, refl, tt, tt, omega arith)
uint_to_bcd_loop_lem (suc n) r h =
    let (z, l, a, d, v) = uint_to_bcd_loop_lem n (r / 100) (omega (arith, pow-suc 100 n)) in
    let t = digits_table (r % 100) (omega arith) in
    (z, ap suc l, (omega (arith, t), a), (omega (arith, t), d), omega (arith, t))

uint_to_bcd_loop-left : (n r : ℕ) → 100 ^ n ≤ r → (uint_to_bcd_loop n r).1 ≢ 0
unfolding uint_to_bcd_loop
uint_to_bcd_loop-left zero r h = omega arith
uint_to_bcd_loop-left (suc n) r h = uint_to_bcd_loop-left n (r / 100) (omega (arith, pow-suc 100 n))

-- A number below 100 ^ size that is a uint64 is written to size BCD bytes, and those read back as
-- the number.
pub bcd_magnitude-uint_to_bcd :
    (value size : ℕ)
    → 0 < size
    → value < 100 ^ size
    → value < 2 ^ 64
    → (b : Bytes) × (uint_to_bcd value size ≡ ok b)
      × (length b ≡ size)
      × All IsByte b
      × (bcd_magnitude b ≡ ok value)
unfolding uint_to_bcd
bcd_magnitude-uint_to_bcd value size p h k =
    let (z, l, a, d, v) = uint_to_bcd_loop_lem size value h in
    let buf = (uint_to_bcd_loop size value).0 in
    (
      buf,
      ground arith,
      l,
      a,
      bcd_magnitude-decimal buf (λ e. omega (arith, ap length e)) a d (omega arith) ∙ ap ok v,
    )

-- A number of more digits than the field holds is refused.
pub uint_to_bcd_refuses :
    (value size : ℕ)
    → 0 < size
    → 100 ^ size ≤ value
    → uint_to_bcd value size ≡ err (message bcd_digits_exceeded)
unfolding uint_to_bcd
uint_to_bcd_refuses value size p h = ground (arith, uint_to_bcd_loop-left size value h)
