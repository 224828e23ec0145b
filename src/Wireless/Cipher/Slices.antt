-- ===== src/Wireless/Cipher/Slices.antt =====
-- wmbus/crypto.go and wmbus/cmac.go: the sizes of the blocks that the key derivation works on.
use gombus.Prelude.{
  ℕ, zero, suc, ◌+◌, ◌-◌, ◌*◌, ◌/◌, ◌%◌, ◌^◌, ◌≤◌, ◌<◌, ◌≡◌, refl, true, ◌&&◌, [], ◌∷◌, ◌++◌, arith,
  not, ◌==◌, if-holds, bit_and, bit_or, bit_xor, length, take, drop, replicate, length-append,
  length-take, length-drop, length-set, All, All-append, All-take, All-drop, All-set,
}
use gombus.Prelude.Bits.{bit_or_disjoint}
use gombus.Prelude.Masks.{bit_or_comm}
use gombus.Prelude.Xor.{bit_xor-lt}
use gombus.Encoding.{is_empty}
use gombus.Result.{
  Bytes, IsByte, at-Ensures, IsSlice, set_at, index_from_end, Ensures, returns, Ensures-if,
  Ensures-bind,
}
use gombus.Wireless.Cipher.{aes_block_size, xor_bytes, shifted_left, shift_left_one, cmac_split}

pub xor_bytes-IsSlice :
    (n : ℕ) (xs ys : Bytes) → IsSlice n xs → IsSlice n ys → IsSlice n (xor_bytes xs ys)
unfolding xor_bytes
xor_bytes-IsSlice n [] ys (l, a) (m, b) = (l, tt)
xor_bytes-IsSlice n (x ∷ xs) [] (l, a) (m, b) = absurd (omega arith)
xor_bytes-IsSlice zero (x ∷ xs) (y ∷ ys) (l, a) (m, b) = absurd (omega arith)
xor_bytes-IsSlice (suc n) (x ∷ xs) (y ∷ ys) (l, a) (m, b) =
    let (k, c) = xor_bytes-IsSlice n xs ys (omega arith, a.1) (omega arith, b.1) in
    (omega (arith, k), (bit_xor-lt 8 x y a.0 b.0, c))

carried-IsByte : (b c : ℕ) → IsByte c → bit_or (b * 2 % 256) (c / 2 ^ 7) < 256
carried-IsByte b c h =
    let e = bit_or_disjoint 1 (c / 2 ^ 7) (b % 128) (omega arith) in
    let f : b * 2 % 256 ≡ b % 128 * 2 ^ 1 = omega arith in
    rw f (omega (arith, e, bit_or_comm (b % 128 * 2 ^ 1) (c / 2 ^ 7)))

shifted_left-IsSlice : (n : ℕ) (b : Bytes) → IsSlice n b → IsSlice n (shifted_left b)
unfolding shifted_left
shifted_left-IsSlice n [] s = s
shifted_left-IsSlice n (b ∷ []) (l, a) = (l, (omega arith, tt))
shifted_left-IsSlice zero (b ∷ c ∷ rest) (l, a) = absurd (omega arith)
shifted_left-IsSlice (suc n) (b ∷ c ∷ rest) (l, a) =
    let (k, d) = shifted_left-IsSlice n (c ∷ rest) (omega arith, a.1) in
    (omega (arith, k), (carried-IsByte b c a.1.0, d))

pub shift_left_one-Ensures : (b : Bytes) → IsSlice 16 b → Ensures (IsSlice 16) (shift_left_one b)
unfolding shift_left_one set_at index_from_end
shift_left_one-Ensures b (l, a) =
    let (k, c) = shifted_left-IsSlice 16 b (l, a) in
    Ensures-bind (at-Ensures b 0 (omega (arith, l)) a) λ first _. rw k (
      Ensures-bind (at-Ensures (shifted_left b) 15 (omega (arith, k)) c) λ last p.
        Ensures-if (not (bit_and first 0x80 == 0))
          (λ _. returns (
            omega (arith, length-set (shifted_left b) 15 (bit_xor last 0x87), k),
            All-set IsByte (shifted_left b) 15 (bit_xor last 0x87) c
                (bit_xor-lt 8 last 0x87 p (omega arith)),
          ))
          λ _. returns (k, c))

pub replicate-IsSlice : (n x : ℕ) → IsByte x → IsSlice n (replicate n x)
replicate-IsSlice zero x h = (refl, tt)
replicate-IsSlice (suc n) x h = let (l, a) = replicate-IsSlice n x h in (omega (arith, l), (h, a))

pub append-IsSlice :
    (n m : ℕ) (xs ys : Bytes) → IsSlice n xs → IsSlice m ys → IsSlice (n + m) (xs ++ ys)
append-IsSlice n m xs ys (l, a) (k, b) =
    (omega (arith, length-append xs ys, l, k), All-append IsByte xs ys a b)

pub take-IsSlice : (n : ℕ) (b : Bytes) → n ≤ length b → All IsByte b → IsSlice n (take n b)
take-IsSlice n b h a = (omega (arith, length-take {0} n b), All-take IsByte n b a)

drop-IsSlice : (n : ℕ) (b : Bytes) → All IsByte b → IsSlice (length b - n) (drop n b)
drop-IsSlice n b a = (length-drop n b, All-drop IsByte n b a)

whole_blocks :
    (msg : Bytes)
    → (not (is_empty msg) && length msg % aes_block_size == 0) ≡ true
    → 16 ≤ length msg
whole_blocks [] e = cc
whole_blocks (x ∷ msg) e = ground arith

padded-IsSlice :
    (n : ℕ) (msg : Bytes)
    → All IsByte msg
    → n ≡ length msg - length msg % aes_block_size
    → IsSlice 16 (drop n msg ++ (0x80 ∷ replicate (aes_block_size - 1 - (length msg - n)) 0))
padded-IsSlice n msg a e =
    let (l, b) = replicate-IsSlice (aes_block_size - 1 - (length msg - n)) 0 (omega arith) in
    let (k, c) = drop-IsSlice n msg a in
    let (m, d) =
      append-IsSlice _ _ (drop n msg) (0x80 ∷ replicate (aes_block_size - 1 - (length msg - n)) 0)
        (refl, c) (refl, (omega arith, b)) in
    (omega (arith, m, l, k), d)

pub cmac_split-IsSlice :
    (msg k1 k2 : Bytes)
    → All IsByte msg
    → IsSlice 16 k1
    → IsSlice 16 k2
    → All IsByte (cmac_split msg k1 k2).0 × IsSlice 16 (cmac_split msg k1 k2).1
unfolding cmac_split
cmac_split-IsSlice msg k1 k2 a s1 s2 =
    if-holds (λ (p : Bytes × Bytes). All IsByte p.0 × IsSlice 16 p.1)
      (not (is_empty msg) && length msg % aes_block_size == 0)
      (λ e. (
        All-take IsByte _ msg a,
        xor_bytes-IsSlice 16 _ k1
            (
              omega (arith, length-drop {0} (length msg - 16) msg, whole_blocks msg e),
              All-drop IsByte _ msg a,
            )
            s1,
      ))
      λ e. (All-take IsByte _ msg a, xor_bytes-IsSlice 16 _ k2 (padded-IsSlice _ msg a refl) s2)
