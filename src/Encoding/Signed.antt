-- ===== src/Encoding/Signed.antt =====
-- `bcdSigned` of encoding.go: the sign nibble on top of the magnitude that the other digits spell.
use gombus.Prelude.{
  ℕ, ◌+◌, ◌-◌, ◌/◌, ◌^◌, ◌<◌, ◌≤◌, ◌≡◌, refl, Bool, true, false, Bool-cases, inl, inr, le→not_ltb,
  [], ◌∷◌, ◌++◌, arith, ltb, leb, ◌==◌, if◌then◌else◌, length, length-append, All, All-append,
  bit_and, ap, ◌∙◌, get_or,
}
use gombus.Prelude.Bits.{agree, agree_sound}
use gombus.Prelude.Int.{ℤ, pos, neg}
use gombus.Result.{
  Bytes, IsByte, Result, ok, err, fault, message, bcd_overflow_signed, ◌>>=◌, ◌>>◌, refuse, at,
  at-eq_ok,
}
use gombus.Encoding.{bcd_step, bcd_digits_loop, bcd_magnitude, bcd_signed, max_int64}
use native.Mathlib.Nat.{pow-le-pow_right}
use gombus.Encoding.Bcd.{bcd_magnitude_sound}

high_nibble_table : (n : ℕ) → n < 16 → bit_and (0xF0 + n) 0x0F ≡ bit_and n 0x0F
unfolding agree
high_nibble_table n h = agree_sound 16 (λ x. bit_and (0xF0 + x) 0x0F) (λ x. bit_and x 0x0F) n refl h

-- The top byte of a negative field reads as its low nibble alone.
bcd_step_skip : (v n : ℕ) → n < 16 → bcd_step true v (0xF0 + n) ≡ bcd_step false v n
unfolding bcd_step
bcd_step_skip v n h = ground (arith, high_nibble_table n h)

bcd_digits_loop_skip :
    (rest : Bytes) (n : ℕ)
    → n < 16
    → bcd_digits_loop (rest ++ (0xF0 + n) ∷ []) true ≡ bcd_digits_loop (rest ++ n ∷ []) false
unfolding bcd_digits_loop
bcd_digits_loop_skip [] n h = bcd_step_skip 0 n h
bcd_digits_loop_skip (x ∷ []) n h = rw (bcd_step_skip 0 n h)
bcd_digits_loop_skip (x ∷ y ∷ rest) n h =
    ap (λ (r : Result ℕ). r >>= (λ v. bcd_step false v x)) (bcd_digits_loop_skip (y ∷ rest) n h)

get_or_last : (rest : Bytes) (t : ℕ) → get_or (rest ++ t ∷ []) (length rest) 0 ≡ t
get_or_last [] t = refl
get_or_last (x ∷ rest) t = get_or_last rest t

at_last : (rest : Bytes) (t : ℕ) → at (rest ++ t ∷ []) (length (rest ++ t ∷ []) - 1) ≡ ok t
at_last rest t =
    let e = length-append rest (t ∷ []) in
    at-eq_ok (rest ++ t ∷ []) (length (rest ++ t ∷ []) - 1) (omega (arith, e))
    ∙ ap (λ (i : ℕ). ok (get_or (rest ++ t ∷ []) i 0)) (omega (arith, e))
    ∙ ap ok (get_or_last rest t)

-- The int64 check on a magnitude `r`, and the sign.
signed_result : (ℕ → ℤ) → Result ℕ → Result ℤ
signed_result g r = do
  value ← r
  refuse (ltb max_int64 value) (message bcd_overflow_signed)
  ok (g value)

signed_result_small :
    (g : ℕ → ℤ) (r : Result ℕ)
    → ((v : ℕ) → r ≡ ok v → v < 2 ^ 63)
    → signed_result g r ≡ (r >>= λ v. ok (g v))
unfolding signed_result
signed_result_small g (ok v) h = rw (le→not_ltb max_int64 v (omega (arith, h v refl)))
signed_result_small g (err e) h = refl
signed_result_small g (fault x) h = refl

bcd_signed_lem :
    (rest : Bytes) (t : ℕ) (negative : Bool)
    → (t / 16 == 15) ≡ negative
    → bcd_signed (rest ++ t ∷ [])
      ≡ signed_result
          (λ v. if negative then neg v else pos v)
          (bcd_digits_loop (rest ++ t ∷ []) negative)
unfolding bcd_signed signed_result
bcd_signed_lem [] t negative e = rw (at_last [] t, e)
bcd_signed_lem (x ∷ rest) t negative e = rw (at_last (x ∷ rest) t, e)

bcd_magnitude-concat :
    (rest : Bytes) (t : ℕ) → bcd_magnitude (rest ++ t ∷ []) ≡ bcd_digits_loop (rest ++ t ∷ []) false
unfolding bcd_magnitude
bcd_magnitude-concat [] t = refl
bcd_magnitude-concat (x ∷ rest) t = refl

magnitude-lt :
    (rest : Bytes) (t : ℕ) (v : ℕ)
    → t < 256
    → All IsByte rest
    → length rest ≤ 8
    → bcd_digits_loop (rest ++ t ∷ []) false ≡ ok v
    → v < 2 ^ 63
magnitude-lt rest t v h a l e =
    let b = rest ++ t ∷ [] in
    let (_, _, k, _) =
      bcd_magnitude_sound b v (All-append IsByte rest (t ∷ []) a (h, tt))
        (bcd_magnitude-concat rest t ∙ e) in
    let m =
      pow-le-pow_right {n = 100} (omega arith) {i = length b} {j = 9}
        (omega (arith, length-append rest (t ∷ []))) in
    omega (arith, k, m)

-- A signed BCD field of up to nine bytes is the unsigned field with the high nibble of its last
-- byte read as a sign: Fh there stands for minus with a zero digit, and any other nibble is a
-- digit of a positive number.
pub bcd_signed-bcd_magnitude :
    (rest : Bytes) (t : ℕ)
    → t < 256
    → All IsByte rest
    → length rest ≤ 8
    → bcd_signed (rest ++ t ∷ []) ≡ (
        if leb 0xF0 t
        then (bcd_magnitude (rest ++ (t - 0xF0) ∷ []) >>= λ v. ok (neg v))
        else (bcd_magnitude (rest ++ t ∷ []) >>= λ v. ok (pos v)))
bcd_signed-bcd_magnitude rest t h a l = elim (Bool-cases (leb 0xF0 t)) [
  | inl high ↦ rw high (
      let e : t ≡ 0xF0 + (t - 0xF0) = ground arith in
      bcd_signed_lem rest t true (ground arith)
      ∙ ap (signed_result neg) (
          ap (λ (u : ℕ). bcd_digits_loop (rest ++ u ∷ []) true) e
          ∙ bcd_digits_loop_skip rest (t - 0xF0) (omega arith))
      ∙ signed_result_small neg _ (λ v. magnitude-lt rest (t - 0xF0) v (omega arith) a l)
      ∙ rw bcd_magnitude-concat)
  | inr low ↦ rw low (
      bcd_signed_lem rest t false (ground arith)
      ∙ signed_result_small pos _ (λ v. magnitude-lt rest t v h a l)
      ∙ rw bcd_magnitude-concat)
]
