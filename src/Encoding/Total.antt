-- ===== src/Encoding/Total.antt =====
-- encoding.go: the decoders index only bytes that are there.
use gombus.Prelude.{ℕ, ◌-◌, ◌≢◌, Bool, false, [], ◌∷◌, arith, length, ltb, ◌&&◌}
use gombus.Result.{
  Bytes, fault, Fault, message, bcd_overflow_signed, returns, fails, to_Ensures, Ensures-bind,
  Ensures-refuse, IsSafe, at-eq_ok,
}
use gombus.Encoding.{
  bcd_step, bcd_digits_loop, bcd_digits, bcd_magnitude, bcd_signed, bytes_to_float32, is_empty,
  max_int64,
}

bcd_step-ne-fault : (skip : Bool) (v b : ℕ) (x : Fault) → bcd_step skip v b ≢ fault x
unfolding bcd_step
bcd_step-ne-fault skip v b x = λ e. ground arith

bcd_digits_loop-IsSafe : (b : Bytes) (skip : Bool) → IsSafe (bcd_digits_loop b skip)
unfolding bcd_digits_loop
bcd_digits_loop-IsSafe [] skip = returns tt
bcd_digits_loop-IsSafe (x ∷ b) skip = Ensures-bind (bcd_digits_loop-IsSafe b skip) λ v _.
    to_Ensures (bcd_step (skip && is_empty b) v x) (λ _ _. tt)
      (bcd_step-ne-fault (skip && is_empty b) v x)

bcd_digits-IsSafe : (b : Bytes) (skip : Bool) → IsSafe (bcd_digits b skip)
unfolding bcd_digits
bcd_digits-IsSafe [] skip = fails
bcd_digits-IsSafe (x ∷ b) skip = bcd_digits_loop-IsSafe (x ∷ b) skip

pub bcd_magnitude-IsSafe : (b : Bytes) → IsSafe (bcd_magnitude b)
unfolding bcd_magnitude
bcd_magnitude-IsSafe b = bcd_digits-IsSafe b false

pub bcd_signed-IsSafe : (b : Bytes) → IsSafe (bcd_signed b)
unfolding bcd_signed
bcd_signed-IsSafe [] = fails
bcd_signed-IsSafe (x ∷ b) = rw (at-eq_ok (x ∷ b) (length (x ∷ b) - 1) (omega arith)) (
    Ensures-bind (bcd_digits-IsSafe (x ∷ b) _)
      λ v _. Ensures-refuse (ltb max_int64 v) (message bcd_overflow_signed) λ _. returns tt)

pub bytes_to_float32-IsSafe : (b : Bytes) → IsSafe (bytes_to_float32 b)
unfolding bytes_to_float32
bytes_to_float32-IsSafe b = to_Ensures _ (λ _ _. tt) (λ x e. ground arith)
