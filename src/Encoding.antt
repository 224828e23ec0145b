-- ===== src/Encoding.antt =====
-- encoding.go: binary-coded decimals, little-endian integers, text and the checksum.
-- A uint64 is a number with its wrap-around written out; an int64 is an integer.
pub mod Bcd
pub mod Signed
pub mod LittleEndian
pub mod Total
use mathlib.Core.List.{reverse}
use gombus.Prelude.{
  ℕ, zero, suc, ◌+◌, ◌-◌, ◌*◌, ◌/◌, ◌%◌, ◌^◌, Bool, true, false, not, ◌&&◌, ◌||◌, List, [], ◌∷◌,
  ltb, leb, ◌==◌, if◌then◌else◌, length, take, bit_and, bit_or,
}
use gombus.Prelude.Int.{ℤ, pos, negsuc, neg}
use gombus.Result.{
  Bytes, Result, ok, err, message, bcd_size, bcd_digits_exceeded, bcd_empty, bcd_byte, bcd_overflow,
  bcd_overflow_signed, float_width, ◌>>=◌, ◌>>◌, refuse, at,
}

abbrev pub max_uint64 : ℕ
max_uint64 = 2 ^ 64 - 1

abbrev pub max_int64 : ℕ
max_int64 = 2 ^ 63 - 1

-- The loop of `uintToBCD` over the rest of the buffer: the bytes written, and the final remainder.
unfoldable pub uint_to_bcd_loop : ℕ → ℕ → Bytes × ℕ
uint_to_bcd_loop zero remainder = ([], remainder)
uint_to_bcd_loop (suc n) remainder =
    let tail = remainder % 100 in
    let (rest, left) = uint_to_bcd_loop n (remainder / 100) in
    (bit_or (tail / 10 * 16) (tail % 10) ∷ rest, left)

unfoldable pub uint_to_bcd : ℕ → ℕ → Result Bytes
uint_to_bcd value size = do
  refuse (size == 0) (message bcd_size)
  let (buf, remainder) = uint_to_bcd_loop size value
  refuse (not (remainder == 0)) (message bcd_digits_exceeded)
  ok buf

-- One round of `bcdDigits`; the flag is `k == 0 && skipSignNibble`.
unfoldable pub bcd_step : Bool → ℕ → ℕ → Result ℕ
bcd_step skip value by =
    let hi = if skip then 0 else by / 16 in
    let lo = bit_and by 0x0F in
    let digit = hi * 10 + lo in
    if ltb 9 hi || ltb 9 lo
    then err (message bcd_byte)
    else if ltb ((max_uint64 - digit) / 100) value
    then err (message bcd_overflow)
    else ok ((value * 100 + digit) % 2 ^ 64)

abbrev pub is_empty : Bytes → Bool
is_empty [] = true
is_empty (_ ∷ _) = false

-- The loop starts at the last byte of the field, so the bytes behind the first one come before it.
unfoldable pub bcd_digits_loop : Bytes → Bool → Result ℕ
unfolding bcd_step
bcd_digits_loop [] skip = ok 0
bcd_digits_loop (by ∷ more) skip = do
  value ← bcd_digits_loop more skip
  bcd_step (skip && is_empty more) value by

unfoldable pub bcd_digits : Bytes → Bool → Result ℕ
bcd_digits b skip = do refuse (is_empty b) (message bcd_empty); bcd_digits_loop b skip

unfoldable pub bcd_magnitude : Bytes → Result ℕ
unfolding bcd_digits
bcd_magnitude b = bcd_digits b false

abbrev pub bcd_sign_nibble : ℕ
bcd_sign_nibble = 0xF

unfoldable pub bcd_signed : Bytes → Result ℤ
unfolding bcd_digits
bcd_signed b = do
  refuse (is_empty b) (message bcd_empty)
  top ← at b (length b - 1)
  let negative = top / 16 == bcd_sign_nibble
  value ← bcd_digits b negative
  refuse (ltb max_int64 value) (message bcd_overflow_signed)
  ok (if negative then neg value else pos value)

abbrev pub max_le_bytes : ℕ
max_le_bytes = 8

-- `v |= uint64(by) << (8 * i)` for the bytes from index `i` on.
unfoldable pub uint_le_loop : ℕ → ℕ → Bytes → ℕ
uint_le_loop i v [] = v
uint_le_loop i v (by ∷ rest) = uint_le_loop (i + 1) (bit_or v (by * 2 ^ (8 * i) % 2 ^ 64)) rest

-- `if len(b) > maxLEBytes { b = b[:maxLEBytes] }`
abbrev pub clip_le : Bytes → Bytes
clip_le b = if ltb max_le_bytes (length b) then take max_le_bytes b else b

unfoldable pub uint_le : Bytes → ℕ
unfolding uint_le_loop
uint_le b = uint_le_loop 0 0 (clip_le b)

-- `int64(v)` of a uint64
unfoldable pub to_int64 : ℕ → ℤ
to_int64 v = if ltb v (2 ^ 63) then pos v else negsuc (2 ^ 64 - v - 1)

-- `v >> k` of an int64
unfoldable pub shift_right : ℤ → ℕ → ℤ
shift_right (pos n) k = pos (n / 2 ^ k)
shift_right (negsuc n) k = negsuc (n / 2 ^ k)

-- The end of `intLE`, for a field of `width` bytes whose bits are `v`.
unfoldable pub sign_extend : ℕ → ℕ → ℤ
unfolding to_int64 shift_right
sign_extend width v =
    if width == 0 || width == max_le_bytes
    then to_int64 v
    else shift_right (to_int64 (v * 2 ^ (64 - 8 * width) % 2 ^ 64)) (64 - 8 * width)

unfoldable pub int_le : Bytes → ℤ
unfolding sign_extend uint_le
int_le b = let b' = clip_le b in sign_extend (length b') (uint_le b')

-- The bit pattern of the float32; `math.Float32frombits` reads it.
unfoldable pub bytes_to_float32 : Bytes → Result ℕ
unfolding uint_le
bytes_to_float32 b = do refuse (not (length b == 4)) (message float_width); ok (uint_le b)

unfoldable pub decode_ascii : Bytes → Bytes
decode_ascii b = reverse b

-- The loop of `calcCheckSum`: `sum` is a byte, so it wraps.
unfoldable pub check_sum_from : ℕ → Bytes → ℕ
check_sum_from sum [] = sum
check_sum_from sum (v ∷ rest) = check_sum_from ((sum + v) % 256) rest

unfoldable pub calc_check_sum : Bytes → ℕ
unfolding check_sum_from
calc_check_sum b = check_sum_from 0 b

unfoldable pub check_kth_bit_set : ℕ → ℕ → Bool
check_kth_bit_set n k = not (bit_and n (2 ^ k) == 0)
