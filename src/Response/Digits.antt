-- ===== src/Response/Digits.antt =====
-- Texts of decimal digits, as fmt writes them and strconv reads them, and the numbers that they
-- spell.
use gombus.Prelude.{
  ℕ, zero, suc, ◌+◌, ◌-◌, ◌*◌, ◌/◌, ◌%◌, ◌^◌, ◌≤◌, ◌<◌, ◌≡◌, refl, sym, ap, ◌∙◌, [], ◌∷◌, ◌++◌,
  arith, All, All-append, length, replicate, ◌==◌, Bool-cases, inl, inr, length-append,
}
use gombus.Result.{Bytes}
use gombus.Response.Text.{digits_before}
use native.Mathlib.Nat.{pow-suc}

abbrev pub IsDigit : ℕ → Type 0
IsDigit c = (0x30 ≤ c) × (c ≤ 0x39)

-- The loop of `strconv.ParseUint`: the number that digits spell, behind those of `n`.
unfoldable pub digits_value : ℕ → Bytes → ℕ
digits_value n [] = n
digits_value n (c ∷ s) = digits_value (n * 10 + (c - 0x30)) s

-- The number that the digits of a text spell, the first one the highest.
unfoldable pub number_of : Bytes → ℕ
number_of [] = 0
number_of (c ∷ s) = (c - 0x30) * 10 ^ length s + number_of s

shifted : (n d p r : ℕ) → (n * 10 + d) * p + r ≡ n * (p * 10) + (d * p + r)
shifted n d p r = grind arith

digits_value-number_of : (n : ℕ) (s : Bytes) → digits_value n s ≡ n * 10 ^ length s + number_of s
unfolding digits_value number_of
digits_value-number_of n [] = omega arith
digits_value-number_of n (c ∷ s) =
    digits_value-number_of (n * 10 + (c - 0x30)) s
    ∙ shifted n (c - 0x30) (10 ^ length s) (number_of s)
    ∙ ap (λ (p : ℕ). n * p + number_of (c ∷ s)) (sym (pow-suc 10 (length s)))

pub digits_value_lem : (s : Bytes) → digits_value 0 s ≡ number_of s
digits_value_lem s = digits_value-number_of 0 s ∙ omega arith

-- A number below a power of ten.
abbrev pub pow_ten : ℕ → ℕ
pow_ten zero = 1
pow_ten (suc k) = 10 * pow_ten k

shown_value :
    (n d : ℕ) (text : Bytes)
    → d < 10
    → digits_value n ((d + 0x30) ∷ text) ≡ digits_value (n * 10 + d) text
unfolding digits_value
shown_value n d text h = ap (λ (m : ℕ). digits_value m text) (omega arith)

-- The digits of a number are read back as it.
pub digits_value-digits_before :
    (k n : ℕ) (text : Bytes)
    → n < pow_ten (suc k)
    → digits_value 0 (digits_before (suc k) n text) ≡ digits_value n text
unfolding digits_before
digits_value-digits_before zero n text h =
    let last : n / 10 ≡ 0 = omega arith in
    let same : 0 * 10 + n % 10 ≡ n = omega arith in
    rw last (shown_value 0 (n % 10) text (omega arith) ∙ ap (λ (m : ℕ). digits_value m text) same)
digits_value-digits_before (suc k) n text h = elim (Bool-cases (n / 10 == 0)) [
  | inl last ↦
      let same : 0 * 10 + n % 10 ≡ n = ground arith in
      rw last (shown_value 0 (n % 10) text (omega arith) ∙ ap (λ (m : ℕ). digits_value m text) same)
  | inr more ↦
      let same : n / 10 * 10 + n % 10 ≡ n = omega arith in
      rw more (
        digits_value-digits_before k (n / 10) ((n % 10 + 0x30) ∷ text) (omega arith)
        ∙ shown_value (n / 10) (n % 10) text (omega arith)
        ∙ ap (λ (m : ℕ). digits_value m text) same)
]

-- What the digits of a number in front of a text are: digits, as many as the number needs.
pub digits_before-All :
    (k n : ℕ) (text : Bytes) → All IsDigit text → All IsDigit (digits_before k n text)
unfolding digits_before
digits_before-All zero n text a = a
digits_before-All (suc k) n text a = elim (Bool-cases (n / 10 == 0)) [
  | inl last ↦ rw last (omega arith, a)
  | inr more ↦ rw more (digits_before-All k (n / 10) ((n % 10 + 0x30) ∷ text) (omega arith, a))
]

pub length-digits_before :
    (m k n : ℕ) (text : Bytes)
    → n < pow_ten (suc m)
    → (length text ≤ length (digits_before k n text))
      × (length (digits_before k n text) ≤ suc m + length text)
unfolding digits_before
length-digits_before m zero n text h = (omega arith, omega arith)
length-digits_before zero (suc k) n text h =
    let last : n / 10 ≡ 0 = omega arith in rw last (omega arith, omega arith)
length-digits_before (suc m) (suc k) n text h = elim (Bool-cases (n / 10 == 0)) [
  | inl last ↦ rw last (omega arith, omega arith)
  | inr more ↦ rw more (
      let (low, high) = length-digits_before m k (n / 10) ((n % 10 + 0x30) ∷ text) (omega arith) in
      (omega arith, omega arith))
]

-- `%08d` of a uint64, which has twenty digits at most.
abbrev pub eight_digits : ℕ → Bytes
eight_digits n = let digits = digits_before 20 n [] in replicate (8 - length digits) 0x30 ++ digits

replicate_zeros-All : (n : ℕ) → All IsDigit (replicate n 0x30)
replicate_zeros-All zero = tt
replicate_zeros-All (suc n) = (omega arith, replicate_zeros-All n)

digits_value-zeros : (n : ℕ) (s : Bytes) → digits_value 0 (replicate n 0x30 ++ s) ≡ digits_value 0 s
unfolding digits_value
digits_value-zeros zero s = refl
digits_value-zeros (suc n) s = digits_value-zeros n s

length-replicate : (n : ℕ) → length {A = ℕ} (replicate n 0x30) ≡ n
length-replicate zero = refl
length-replicate (suc n) = ap suc (length-replicate n)

pub eight_digits_lem :
    (id : ℕ)
    → id < 10 ^ 8
    → All IsDigit (eight_digits id)
      × (length (eight_digits id) ≡ 8)
      × (number_of (eight_digits id) ≡ id)
eight_digits_lem id h =
    let digits = digits_before 20 id [] in
    let (low, high) = length-digits_before 7 20 id [] (omega arith) in
    let n = 8 - length digits in
    (
      All-append IsDigit (replicate n 0x30) digits (replicate_zeros-All n)
          (digits_before-All 20 id [] tt),
      length-append (replicate n 0x30) digits ∙ omega (arith, length-replicate n),
      sym (digits_value_lem (replicate n 0x30 ++ digits))
          ∙ digits_value-zeros n digits
          ∙ digits_value-digits_before 19 id [] (omega arith)
          ∙ unfold digits_value in refl,
    )
