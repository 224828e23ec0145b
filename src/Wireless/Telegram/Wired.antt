-- ===== src/Wireless/Telegram/Wired.antt =====
-- wmbus/telegram.go: the synthetic wired response holds the payload and the fields of the transport.
use gombus.Prelude.{
  ℕ, ◌+◌, ◌-◌, ◌%◌, ◌≤◌, ◌<◌, ◌≡◌, refl, sym, ap, ◌∙◌, [], ◌∷◌, ◌++◌, arith, length, get_or, set,
  take, drop, length-set, length-append, get_or-set_ne, take-set, append_assoc, drop_prefix,
  drop-set, drop-set_below, All, All-set,
}
use gombus.Result.{Bytes, IsByte, ok, set_at, slice-eq_ok, index_from_end}
use gombus.Encoding.{calc_check_sum, check_sum_from}
use gombus.Frame.LongFrame
use gombus.Commands.{seal}

-- `byte(len(lf) - 6)`
abbrev length_byte : Bytes → ℕ
length_byte lf = (length lf + 256 - 6) % 256

abbrev with_wrapped : Bytes → Bytes
with_wrapped lf = set (set lf 1 (length_byte lf)) 2 (length_byte lf)

abbrev body_of : Bytes → Bytes
body_of lf = take (length lf - 6) (drop 4 lf)

-- The sealed frame, of any length.
unfoldable pub wide_sealed : Bytes → Bytes
wide_sealed lf = set (with_wrapped lf) (length lf - 2) (calc_check_sum (body_of lf))

drop-with_wrapped : (k : ℕ) (lf : Bytes) → 2 < k → drop k (with_wrapped lf) ≡ drop k lf
drop-with_wrapped k lf h =
    drop-set_below k (set lf 1 (length_byte lf)) 2 (length_byte lf) h
    ∙ drop-set_below k lf 1 (length_byte lf) (omega arith)

length-with_wrapped : (lf : Bytes) → length (with_wrapped lf) ≡ length lf
length-with_wrapped lf = rw (length-set, length-set) refl

set_length_wide : (lf : Bytes) → 9 ≤ length lf → LongFrame.set_length lf ≡ ok (with_wrapped lf)
unfolding LongFrame.set_length set_at
set_length_wide lf h = ground (arith, length-set lf 1 (length_byte lf))

pub seal_wide : (lf : Bytes) → 9 ≤ length lf → seal lf ≡ ok (wide_sealed lf)
unfolding seal LongFrame.set_checksum set_at index_from_end wide_sealed
seal_wide lf h =
    let n = length-with_wrapped lf in
    let e : length lf - 2 - 4 ≡ length lf - 6 = omega arith in
    let s = slice-eq_ok (with_wrapped lf) 4 (length lf - 2) (omega arith) (omega arith) in
    rw (set_length_wide lf h) (rw n (ground (arith, n, s, e, drop-with_wrapped 4 lf (omega arith))))

pub length-wide_sealed : (lf : Bytes) → length (wide_sealed lf) ≡ length lf
unfolding wide_sealed
length-wide_sealed lf = rw (length-set, length-set, length-set) refl

-- The bytes of the frame between its header and its checksum stay.
pub wide_sealed-middle :
    (lf : Bytes) (k n : ℕ)
    → 2 < k
    → k + n ≤ length lf - 2
    → take n (drop k (wide_sealed lf)) ≡ take n (drop k lf)
unfolding wide_sealed
wide_sealed-middle lf k n h m =
    let e : k + (length lf - 2 - k) ≡ length lf - 2 = omega arith in
    let c = calc_check_sum (body_of lf) in
    ap (λ (j : ℕ). take n (drop k (set (with_wrapped lf) j c))) (sym e)
    ∙ ap (take n) (drop-set k (with_wrapped lf) (length lf - 2 - k) c)
    ∙ take-set n (drop k (with_wrapped lf)) (length lf - 2 - k) c (omega arith)
    ∙ ap (take n) (drop-with_wrapped k lf h)

check_sum_from-lt : (sum : ℕ) (b : Bytes) → sum < 256 → check_sum_from sum b < 256
unfolding check_sum_from
check_sum_from-lt sum [] h = h
check_sum_from-lt sum (v ∷ b) h = check_sum_from-lt ((sum + v) % 256) b (omega arith)

pub wide_sealed-All : (lf : Bytes) → All IsByte lf → All IsByte (wide_sealed lf)
unfolding wide_sealed calc_check_sum
wide_sealed-All lf a =
    let l : length_byte lf < 256 = omega arith in
    All-set IsByte (with_wrapped lf) _ _
      (All-set IsByte (set lf 1 (length_byte lf)) 2 (length_byte lf)
        (All-set IsByte lf 1 (length_byte lf) a l) l)
      (check_sum_from-lt 0 (body_of lf) (omega arith))

-- The draft with its manufacturer and the four fields after the manufacturer.
abbrev pub draft_of : Bytes → Bytes → Bytes → Bytes → Bytes
draft_of man ident fields payload =
    (0x68 ∷ 0x00 ∷ 0x00 ∷ 0x68 ∷ 0x08 ∷ 0x00 ∷ 0x72 ∷ ident)
    ++ (man ++ ((fields ++ (0x00 ∷ 0x00 ∷ payload)) ++ (0x00 ∷ 0x16 ∷ [])))

-- What stands behind the header of the draft, and its bytes.
pub draft_of-payload :
    (man ident fields payload : Bytes)
    → length man ≡ 2
    → length ident ≡ 4
    → length fields ≡ 4
    → (length (draft_of man ident fields payload) ≡ 21 + length payload)
      × (drop 19 (draft_of man ident fields payload) ≡ payload ++ (0x00 ∷ 0x16 ∷ []))
draft_of-payload man ident fields payload h k m =
    let rest = (fields ++ (0x00 ∷ 0x00 ∷ payload)) ++ (0x00 ∷ 0x16 ∷ []) in
    (
      omega (
        arith,
        h,
        k,
        m,
        length-append ident (man ++ rest),
        length-append man rest,
        length-append (fields ++ (0x00 ∷ 0x00 ∷ payload)) (0x00 ∷ 0x16 ∷ []),
        length-append fields (0x00 ∷ 0x00 ∷ payload),
      ),
      drop_prefix 4 8 ident (man ++ rest) k
          ∙ drop_prefix 2 6 man rest h
          ∙ ap (drop 6) (append_assoc fields (0x00 ∷ 0x00 ∷ payload) (0x00 ∷ 0x16 ∷ []))
          ∙ drop_prefix 4 2 fields (0x00 ∷ 0x00 ∷ (payload ++ (0x00 ∷ 0x16 ∷ []))) m,
    )

-- The CI field of the sealed draft.
pub wide_sealed-ci :
    (man ident fields payload : Bytes)
    → 9 ≤ length (draft_of man ident fields payload)
    → get_or (wide_sealed (draft_of man ident fields payload)) 6 0 ≡ 0x72
unfolding wide_sealed
wide_sealed-ci man ident fields payload h =
    let lf = draft_of man ident fields payload in
    get_or-set_ne (with_wrapped lf) (length lf - 2) 6 (calc_check_sum (body_of lf)) 0
      (λ e. omega arith)
    ∙ get_or-set_ne (set lf 1 (length_byte lf)) 2 6 (length_byte lf) 0 (λ e. omega arith)
    ∙ get_or-set_ne lf 1 6 (length_byte lf) 0 (λ e. omega arith)
