-- ===== src/Commands/Build.antt =====
-- Every long frame that commands.go builds is well formed, so the parser of read.go takes it whole.
use gombus.Prelude.{
  ℕ, ◌+◌, ◌-◌, ◌%◌, ◌≤◌, ◌≡◌, ◌≢◌, sym, ap, ◌∙◌, arith, length, get_or, set, take, drop, length-set,
  get_or-set_self, get_or-set_ne, take-set, drop-set, drop-set_below,
}
use gombus.Result.{Bytes, ok, set_at, slice-eq_ok, index_from_end}
use gombus.Encoding.{calc_check_sum}
use gombus.Frame.LongFrame
use gombus.Read.LongFrames.{IsLongFrame}
use gombus.Commands.{seal}

-- What a frame literal of the builders must have before its length and checksum are filled in.
pub record IsDraft (lf : Bytes) : Type 0 where
  pub longest : length lf ≤ 261
  pub shortest : 9 ≤ length lf
  pub start : get_or lf 0 0 ≡ 0x68
  pub start_again : get_or lf 3 0 ≡ 0x68
  pub stop : get_or lf (length lf - 1) 0 ≡ 0x16

unfoldable pub with_length : Bytes → Bytes
with_length lf = set (set lf 1 (length lf - 6)) 2 (length lf - 6)

abbrev user_data : Bytes → Bytes
user_data lf = take (length lf - 6) (drop 4 lf)

-- The frame that `seal` makes of a draft.
unfoldable pub sealed : Bytes → Bytes
sealed lf = set (with_length lf) (length lf - 2) (calc_check_sum (user_data lf))

set_length-eq_ok : (lf : Bytes) → IsDraft lf → LongFrame.set_length lf ≡ ok (with_length lf)
unfolding LongFrame.set_length set_at with_length
set_length-eq_ok lf d =
    let e : (length lf + 256 - 6) % 256 ≡ length lf - 6 = omega arith in
    rw e (ground (arith, length-set lf 1 (length lf - 6)))

length-with_length : (lf : Bytes) → length (with_length lf) ≡ length lf
unfolding with_length
length-with_length lf = rw (length-set, length-set)

drop-with_length : (lf : Bytes) → drop 4 (with_length lf) ≡ drop 4 lf
unfolding with_length
drop-with_length lf =
    drop-set_below 4 (set lf 1 (length lf - 6)) 2 (length lf - 6) (omega arith)
    ∙ drop-set_below 4 lf 1 (length lf - 6) (omega arith)

set_checksum-eq_ok :
    (lf : Bytes) → IsDraft lf → LongFrame.set_checksum (with_length lf) ≡ ok (sealed lf)
unfolding LongFrame.set_checksum set_at index_from_end sealed
set_checksum-eq_ok lf d =
    let n = length-with_length lf in
    let e : length lf - 2 - 4 ≡ length lf - 6 = omega arith in
    let s = slice-eq_ok (with_length lf) 4 (length lf - 2) (omega arith) (omega arith) in
    rw n (ground (arith, n, s, e, drop-with_length lf))

pub seal-eq_ok : (lf : Bytes) → IsDraft lf → seal lf ≡ ok (sealed lf)
unfolding seal
seal-eq_ok lf d = rw (set_length-eq_ok lf d) (set_checksum-eq_ok lf d)

-- The other bytes of a draft stay.
pub get_or-sealed :
    (lf : Bytes) (i : ℕ)
    → i ≢ 1
    → i ≢ 2
    → i ≢ length lf - 2
    → get_or (sealed lf) i 0 ≡ get_or lf i 0
unfolding sealed with_length
get_or-sealed lf i p q r =
    get_or-set_ne (with_length lf) (length lf - 2) i _ 0 (λ e. r (sym e))
    ∙ get_or-set_ne (set lf 1 (length lf - 6)) 2 i _ 0 (λ e. q (sym e))
    ∙ get_or-set_ne lf 1 i _ 0 (λ e. p (sym e))

length-sealed : (lf : Bytes) → length (sealed lf) ≡ length lf
unfolding sealed
length-sealed lf = rw (length-set, length-with_length)

sealed_lengths :
    (lf : Bytes)
    → IsDraft lf
    → (get_or (sealed lf) 1 0 ≡ length lf - 6) × (get_or (sealed lf) 2 0 ≡ length lf - 6)
unfolding sealed with_length
sealed_lengths lf d =
    let l = length lf - 6 in
    let n = length-set lf 1 l in
    (
      get_or-set_ne (set (set lf 1 l) 2 l) (length lf - 2) 1 _ 0 (omega arith)
          ∙ get_or-set_ne (set lf 1 l) 2 1 l 0 (omega arith)
          ∙ get_or-set_self lf 1 l 0 (omega arith),
      get_or-set_ne (set (set lf 1 l) 2 l) (length lf - 2) 2 _ 0 (omega arith)
          ∙ get_or-set_self (set lf 1 l) 2 l 0 (omega (arith, n)),
    )

user_data-sealed :
    (lf : Bytes) → IsDraft lf → take (length lf - 6) (drop 4 (sealed lf)) ≡ user_data lf
unfolding sealed
user_data-sealed lf d =
    let e : length lf - 2 ≡ 4 + (length lf - 6) = omega arith in
    let v = calc_check_sum (user_data lf) in
    ap (λ (i : ℕ). take (length lf - 6) (drop 4 (set (with_length lf) i v))) e
    ∙ ap (take (length lf - 6)) (drop-set 4 (with_length lf) (length lf - 6) v)
    ∙ take-set (length lf - 6) (drop 4 (with_length lf)) (length lf - 6) v (omega arith)
    ∙ ap (take (length lf - 6)) (drop-with_length lf)

checksum-sealed :
    (lf : Bytes) → IsDraft lf → get_or (sealed lf) (length lf - 2) 0 ≡ calc_check_sum (user_data lf)
unfolding sealed
checksum-sealed lf d =
    get_or-set_self (with_length lf) (length lf - 2) _ 0 (omega (arith, length-with_length lf))

-- `SetLength` and `SetChecksum` complete a draft to a long frame.
pub sealed-IsLongFrame : (lf : Bytes) → IsDraft lf → IsLongFrame (sealed lf)
sealed-IsLongFrame lf d =
    let (one, two) = sealed_lengths lf d in
    let n = length-sealed lf in
    let last : length lf - 6 + 5 ≡ length lf - 1 = omega arith in
    let check : length lf - 6 + 4 ≡ length lf - 2 = omega arith in
    record {
      sized = omega (arith, one, n);
      shortest = omega (arith, one);
      start = get_or-sealed lf 0 (omega arith) (omega arith) (omega arith) ∙ d.start;
      start_again = get_or-sealed lf 3 (omega arith) (omega arith) (omega arith) ∙ d.start_again;
      length_again = two ∙ sym one;
      stop =
          rw (one, last)
            (get_or-sealed lf (length lf - 1) (omega arith) (omega arith) (omega arith) ∙ d.stop);
      checksum =
          rw (one, check) (checksum-sealed lf d ∙ ap calc_check_sum (sym (user_data-sealed lf d)));
    }
