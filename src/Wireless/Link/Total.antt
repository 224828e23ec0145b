-- ===== src/Wireless/Link/Total.antt =====
-- wmbus/link.go: parsing any bytes ends in a link-layer frame or an error.
use gombus.Prelude.{
  ℕ, zero, suc, ◌+◌, ◌-◌, ◌*◌, ◌^◌, ◌≤◌, ◌<◌, ◌≡◌, ◌++◌, arith, ltb, leb, not, ◌==◌, length,
  length-append, min, All, All-append,
}
use gombus.Prelude.Bits.{bit_or_disjoint}
use gombus.Result.{
  Bytes, IsByte, Result, ok, err, fault, sentinel, wireless_invalid_frame, crc_mismatch, at-Ensures,
  IsSlice, slice-Ensures, Ensures, returns, fails, Ensures-if, Ensures-bind, Ensures-map,
  Ensures-refuse, refuse-Ensures, IsSafe,
}
use gombus.Response.{uint16_le}
use gombus.Wireless.Crc.{crc16, check_crc}
use gombus.Wireless.Link.{
  Frame, new_frame, block_error, dll_header_len, block_len, strip_blocks, strip_format_a_blocks,
  parse_format_a, format_b_first_crc_end, parse_one_block, parse_two_blocks, parse_format_b,
  parse_without_crc, either_format, parse,
}

-- The fields of a frame are bytes, and the payload is not longer than the telegram allows.
unfoldable pub IsFrame : ℕ → Frame → Type 0
IsFrame n f =
    IsSlice 4 f.ident
    × (f.manufacturer_code < 2 ^ 16)
    × IsByte f.version
    × IsByte f.device_type
    × All IsByte f.payload
    × (length f.payload ≤ n)

pub uint16_le-eq : (lo hi : ℕ) → IsByte lo → uint16_le lo hi ≡ lo + hi * 2 ^ 8
uint16_le-eq lo hi p = bit_or_disjoint 8 lo hi p

new_frame-Ensures :
    (n : ℕ) (format : _) (raw payload : Bytes)
    → 10 ≤ length raw
    → All IsByte raw
    → All IsByte payload
    → length payload ≤ n
    → Ensures (IsFrame n) (new_frame format raw payload)
unfolding IsFrame new_frame
new_frame-Ensures n format raw payload h a b l =
    Ensures-bind (at-Ensures raw 1 (omega arith) a) λ _ _.
      Ensures-bind (at-Ensures raw 2 (omega arith) a) λ m0 p0.
        Ensures-bind (at-Ensures raw 3 (omega arith) a) λ m1 p1.
          Ensures-bind (at-Ensures raw 8 (omega arith) a) λ _ v.
            Ensures-bind (at-Ensures raw 9 (omega arith) a) λ _ d.
              Ensures-bind (slice-Ensures raw 4 8 (omega arith) (omega arith) a)
                λ _ i. returns (i, omega (arith, uint16_le-eq m0 m1 p0, p0, p1), v, d, b, l)

block_error-IsSafe : (r : Result (Unit {0})) → IsSafe r → IsSafe (block_error r)
unfolding block_error
block_error-IsSafe (ok u) s = returns tt
block_error-IsSafe (err e) s = fails
block_error-IsSafe (fault x) s = elim s [ ]

-- The check of a block against two bytes.
block_check-IsSafe :
    (n : ℕ) (b crc : Bytes) → 2 ≤ n → IsSlice n crc → IsSafe (block_error (check_crc b crc))
unfolding check_crc
block_check-IsSafe n b crc h (l, a) = block_error-IsSafe _ (
    Ensures-bind (at-Ensures crc 0 (omega arith) a) λ b0 _.
      Ensures-bind (at-Ensures crc 1 (omega arith) a) λ b1 _.
        Ensures-map (refuse-Ensures (not (crc16 b == b0 * 2 ^ 8 + b1)) (sentinel crc_mismatch))
          λ _ _. tt)

strip_blocks-Ensures :
    (fuel : ℕ) (raw : Bytes) (offset remaining : ℕ)
    → remaining ≤ fuel
    → All IsByte raw
    → Ensures
        (λ p. IsSlice remaining p × (offset ≤ length raw → offset + remaining ≤ length raw))
        (strip_blocks fuel raw offset remaining)
unfolding strip_blocks
strip_blocks-Ensures zero raw offset remaining h a =
    Ensures-if (remaining == 0) (λ e. returns ((ground arith, tt), λ k. ground arith))
      λ e. absurd (ground arith)
strip_blocks-Ensures (suc fuel) raw offset remaining h a =
    Ensures-if (remaining == 0) (λ e. returns ((ground arith, tt), λ k. ground arith))
      λ e.
        let n = min remaining block_len in
        let some_left : 0 < remaining = ground arith in
        Ensures-refuse (ltb (length raw) (offset + n + 2)) (sentinel wireless_invalid_frame) λ k.
          let room : offset + n + 2 ≤ length raw = ground arith in
          Ensures-bind (slice-Ensures raw offset (offset + n) (omega arith) (omega arith) a)
            λ body p.
              Ensures-bind
                (slice-Ensures raw (offset + n) (offset + n + 2) (omega arith) (omega arith) a)
                λ crc q.
                  Ensures-bind
                    (block_check-IsSafe (offset + n + 2 - (offset + n)) body crc (omega arith) q)
                    λ _ _.
                      Ensures-bind
                        (strip_blocks-Ensures fuel raw (offset + n + 2) (remaining - n)
                          (omega arith) a)
                        λ more (r, f). returns (
                          (
                            omega (arith, length-append body more, p.0, r.0),
                            All-append IsByte body more p.1 r.1,
                          ),
                          λ _. omega (arith, f room),
                        )

parse_format_a-Ensures :
    (raw : Bytes) → All IsByte raw → Ensures (IsFrame (length raw - 12)) (parse_format_a raw)
unfolding parse_format_a strip_format_a_blocks
parse_format_a-Ensures raw a =
    Ensures-refuse (ltb (length raw) (dll_header_len + 2)) (sentinel wireless_invalid_frame) λ h.
      let long : 12 ≤ length raw = ground arith in
      Ensures-bind (at-Ensures raw 0 (omega arith) a) λ l _.
        Ensures-refuse (ltb l (dll_header_len - 1)) (sentinel wireless_invalid_frame) λ _.
          Ensures-bind (slice-Ensures raw 0 dll_header_len (omega arith) (omega arith) a)
            λ header _.
              Ensures-bind
                (slice-Ensures raw dll_header_len (dll_header_len + 2) (omega arith) (omega arith)
                  a)
                λ crc q. Ensures-bind (block_check-IsSafe 2 header crc (omega arith) q) λ _ _.
                  Ensures-bind
                    (strip_blocks-Ensures (l - (dll_header_len - 1)) raw 12
                      (l - (dll_header_len - 1)) (omega arith) a)
                    λ payload (p, f).
                      new_frame-Ensures _ _ raw payload (omega arith) a p.1
                        (omega (arith, p.0, f long))

parse_one_block-Ensures :
    (raw : Bytes) (total : ℕ)
    → All IsByte raw
    → 12 ≤ total
    → total ≤ length raw
    → Ensures (IsFrame (length raw - 12)) (parse_one_block raw total)
unfolding parse_one_block
parse_one_block-Ensures raw total a h k =
    Ensures-bind (slice-Ensures raw 0 (total - 2) (omega arith) (omega arith) a) λ body _.
      Ensures-bind (slice-Ensures raw (total - 2) total (omega arith) (omega arith) a) λ crc q.
        Ensures-bind (block_check-IsSafe (total - (total - 2)) body crc (omega arith) q) λ _ _.
          Ensures-bind (slice-Ensures raw dll_header_len (total - 2) (omega arith) (omega arith) a)
            λ payload p. new_frame-Ensures _ _ raw payload (omega arith) a p.1 (omega (arith, p.0))

parse_two_blocks-Ensures :
    (raw : Bytes) (total : ℕ)
    → All IsByte raw
    → total ≤ length raw
    → Ensures (IsFrame (length raw - 12)) (parse_two_blocks raw total)
unfolding parse_two_blocks
parse_two_blocks-Ensures raw total a k =
    Ensures-refuse (ltb total (format_b_first_crc_end + 3)) (sentinel wireless_invalid_frame) λ h.
      let long : 131 ≤ total = ground arith in
      Ensures-bind (slice-Ensures raw 0 126 (omega arith) (omega arith) a) λ body1 _.
        Ensures-bind (slice-Ensures raw 126 128 (omega arith) (omega arith) a) λ crc1 q.
          Ensures-bind (block_check-IsSafe 2 body1 crc1 (omega arith) q) λ _ _.
            Ensures-bind (slice-Ensures raw 128 (total - 2) (omega arith) (omega arith) a)
              λ body2 _.
                Ensures-bind (slice-Ensures raw (total - 2) total (omega arith) (omega arith) a)
                  λ crc2 r.
                    Ensures-bind
                      (block_check-IsSafe (total - (total - 2)) body2 crc2 (omega arith) r)
                      λ _ _.
                        Ensures-bind (slice-Ensures raw 10 126 (omega arith) (omega arith) a)
                          λ payload1 p.
                            Ensures-bind
                              (slice-Ensures raw 128 (total - 2) (omega arith) (omega arith) a)
                              λ payload2 s.
                                new_frame-Ensures _ _ raw (payload1 ++ payload2) (omega arith) a
                                  (All-append IsByte payload1 payload2 p.1 s.1)
                                  (omega (arith, length-append payload1 payload2, p.0, s.0))

parse_format_b-Ensures :
    (raw : Bytes) → All IsByte raw → Ensures (IsFrame (length raw - 12)) (parse_format_b raw)
unfolding parse_format_b
parse_format_b-Ensures raw a =
    Ensures-refuse (ltb (length raw) (dll_header_len + 2)) (sentinel wireless_invalid_frame) λ h.
      Ensures-bind (at-Ensures raw 0 (ground arith) a) λ l _.
        Ensures-refuse (ltb (l + 1) (dll_header_len + 2)) (sentinel wireless_invalid_frame) λ k.
          Ensures-refuse (ltb (length raw) (l + 1)) (sentinel wireless_invalid_frame) λ m.
            Ensures-if (leb (l + 1) format_b_first_crc_end)
              (λ _. parse_one_block-Ensures raw (l + 1) a (ground arith) (ground arith))
              λ _. parse_two_blocks-Ensures raw (l + 1) a (ground arith)

either_format-Ensures :
    {P : Frame → Type 0} {r s : Result Frame}
    → Ensures P r
    → Ensures P s
    → Ensures P (either_format r s)
unfolding either_format
either_format-Ensures (returns p) q = returns p
either_format-Ensures fails (returns q) = returns q
either_format-Ensures fails fails = fails

pub parse-Ensures : (raw : Bytes) → All IsByte raw → Ensures (IsFrame (length raw - 12)) (parse raw)
unfolding parse
parse-Ensures raw a =
    either_format-Ensures (parse_format_a-Ensures raw a) (parse_format_b-Ensures raw a)

pub parse_without_crc-Ensures :
    (raw : Bytes) → All IsByte raw → Ensures (IsFrame (length raw - 10)) (parse_without_crc raw)
unfolding parse_without_crc
parse_without_crc-Ensures raw a =
    Ensures-refuse (ltb (length raw) dll_header_len) (sentinel wireless_invalid_frame) λ h.
      Ensures-bind (at-Ensures raw 0 (ground arith) a) λ l _.
        Ensures-refuse (ltb (l + 1) dll_header_len) (sentinel wireless_invalid_frame) λ k.
          Ensures-refuse (ltb (length raw) (l + 1)) (sentinel wireless_invalid_frame) λ m.
            let room : l + 1 ≤ length raw = ground arith in
            let header : 10 ≤ l + 1 = ground arith in
            Ensures-bind (slice-Ensures raw dll_header_len (l + 1) header room a) λ payload p.
              new_frame-Ensures _ _ raw payload (omega arith) a p.1 (omega (arith, p.0))
