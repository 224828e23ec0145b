-- ===== src/Encoding/LittleEndian.antt =====
-- `uintLE`, `intLE` and `calcCheckSum` of encoding.go against plain sums.
use native.Mathlib.Nat.{pow-suc, pow-le-pow_right, mod-eq_of_lt, mul-le-mul_right}
use native.Mathlib.Numerals.{towards_suc}
use gombus.Prelude.{
  ℕ, zero, suc, ◌+◌, ◌-◌, ◌*◌, ◌%◌, ◌^◌, ◌<◌, ◌≤◌, ◌≡◌, sym, tests, [], ◌∷◌, arith, ltb,
  if◌then◌else◌, length, take, length-take, take_all, All, All-take, bit_or, ap, ◌∙◌, Bool-cases,
  inl, inr,
}
use gombus.Prelude.Bits.{bit_or_disjoint}
use gombus.Prelude.Int.{ℤ, pos, neg}
use gombus.Result.{Bytes, IsByte}
use gombus.Encoding.{
  uint_le_loop, uint_le, clip_le, sign_extend, int_le, check_sum_from, calc_check_sum,
}

-- The number that a little-endian field spells, lowest byte first.
abbrev pub unsigned : Bytes → ℕ
unsigned [] = 0
unsigned (b ∷ rest) = b + 256 * unsigned rest

-- Two's complement: the number that `n` bytes with the unsigned value `v` stand for.
abbrev pub signed : ℕ → ℕ → ℤ
signed n v = if ltb (2 * v) (256 ^ n) then pos v else neg (256 ^ n - v)

-- The sum of the bytes, which does not wrap.
abbrev pub total : Bytes → ℕ
total [] = 0
total (b ∷ rest) = b + total rest

pub unsigned-lt : (b : Bytes) → All IsByte b → unsigned b < 256 ^ length b
unsigned-lt [] a = omega arith
unsigned-lt (x ∷ b) (h, a) = omega (arith, unsigned-lt b a, pow-suc 256 (length b))

power_eight : (i : ℕ) → 2 ^ (8 * (i + 1)) ≡ 256 * 2 ^ (8 * i)
power_eight i =
    let e : 8 * (i + 1) ≡ 8 * i + 8 = omega arith in
    ap (λ (n : ℕ). 2 ^ n) e ∙ simp towards_suc (omega arith)

-- One round of the loop adds the byte at its place, and nothing wraps.
or_byte :
    (x i v : ℕ)
    → x < 256
    → i < 8
    → v < 2 ^ (8 * i)
    → (bit_or v (x * 2 ^ (8 * i) % 2 ^ 64) ≡ v + x * 2 ^ (8 * i))
      × (v + x * 2 ^ (8 * i) < 2 ^ (8 * (i + 1)))
or_byte x i v hx hi h =
    let room : x * 2 ^ (8 * i) ≤ 255 * 2 ^ (8 * i) = mul-le-mul_right (2 ^ (8 * i)) (omega arith) in
    let top = pow-le-pow_right {n = 2} (omega arith) {i = 8 * (i + 1)} {j = 64} (omega arith) in
    let e = power_eight i in
    (
      rw (mod-eq_of_lt {n = x * 2 ^ (8 * i)} {m = 2 ^ 64} (omega (arith, room, top, e)))
          (bit_or_disjoint (8 * i) v x h),
      omega (arith, room, e),
    )

uint_le_loop-unsigned :
    (b : Bytes) (i v : ℕ)
    → All IsByte b
    → i + length b ≤ 8
    → v < 2 ^ (8 * i)
    → uint_le_loop i v b ≡ v + 2 ^ (8 * i) * unsigned b
unfolding uint_le_loop
uint_le_loop-unsigned [] i v a l h = omega arith
uint_le_loop-unsigned (x ∷ b) i v (hx, a) l h =
    let (e, k) = or_byte x i v hx (omega arith) h in
    rw e (
      uint_le_loop-unsigned b (i + 1) (v + x * 2 ^ (8 * i)) a (omega arith) k
      ∙ omega (arith, ap (λ (t : ℕ). t * unsigned b) (power_eight i)))

clip_le-take : (b : Bytes) → clip_le b ≡ take 8 b
clip_le-take b = elim (Bool-cases (ltb 8 (length b))) [
  | inl long ↦ rw long
  | inr short ↦ rw short (sym (take_all 8 b (omega tests)))
]

-- A bit field is the number that its first eight bytes spell, lowest byte first.
pub uint_le-unsigned : (b : Bytes) → All IsByte b → uint_le b ≡ unsigned (take 8 b)
unfolding uint_le
uint_le-unsigned b a =
    let a' = All-take IsByte 8 b a in
    rw clip_le-take (
      uint_le_loop-unsigned (take 8 b) 0 0 a' (omega (arith, length-take {0} 8 b)) (omega arith)
      ∙ omega arith)

sign_extend-signed : (n v : ℕ) → n ≤ 8 → v < 256 ^ n → sign_extend n v ≡ signed n v
unfolding sign_extend
sign_extend-signed zero v h l = ground arith
sign_extend-signed (suc zero) v h l = ground arith
sign_extend-signed (suc (suc zero)) v h l = ground arith
sign_extend-signed (suc (suc (suc zero))) v h l = ground arith
sign_extend-signed (suc (suc (suc (suc zero)))) v h l = ground arith
sign_extend-signed (suc (suc (suc (suc (suc zero))))) v h l = ground arith
sign_extend-signed (suc (suc (suc (suc (suc (suc zero)))))) v h l = ground arith
sign_extend-signed (suc (suc (suc (suc (suc (suc (suc zero))))))) v h l = ground arith
sign_extend-signed (suc (suc (suc (suc (suc (suc (suc (suc n)))))))) v h l =
    let e : n ≡ 0 = omega arith in rw e (ground arith)

-- An integer field is the two's complement number that its first eight bytes spell, for every
-- width.
pub int_le-signed :
    (b : Bytes) → All IsByte b → int_le b ≡ signed (length (take 8 b)) (unsigned (take 8 b))
unfolding int_le
int_le-signed b a =
    let a' = All-take IsByte 8 b a in
    let l : length (take 8 b) ≤ 8 = omega (arith, length-take {0} 8 b) in
    rw (clip_le-take b, uint_le-unsigned (take 8 b) a', take_all 8 (take 8 b) l)
      (sign_extend-signed _ _ l (unsigned-lt (take 8 b) a'))

check_sum_from-sum :
    (b : Bytes) (sum : ℕ) → sum < 256 → check_sum_from sum b ≡ (sum + total b) % 256
unfolding check_sum_from
check_sum_from-sum [] sum h = omega arith
check_sum_from-sum (x ∷ b) sum h =
    check_sum_from-sum b ((sum + x) % 256) (omega arith) ∙ omega arith

-- The checksum is the sum of the bytes, reduced modulo 256 once at the end.
pub calc_check_sum-total : (b : Bytes) → calc_check_sum b ≡ total b % 256
unfolding calc_check_sum
calc_check_sum-total b = check_sum_from-sum b 0 (omega arith) ∙ omega arith
