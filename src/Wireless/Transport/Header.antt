-- ===== src/Wireless/Transport/Header.antt =====
-- wmbus/tpl.go: what a transport header in range is, and that the header parser gives one.
use gombus.Prelude.{
  ℕ, ◌-◌, ◌*◌, ◌/◌, ◌%◌, ◌^◌, ◌≤◌, ◌≡◌, ◌⊎◌, inl, false, ◌&&◌, ◌||◌, [], ◌∷◌, ◌++◌, arith, ltb, not,
  ◌==◌, if◌then◌else◌, bit_and, length, length-append, All, All-append,
}
use gombus.Result.{
  Bytes, IsByte, sentinel, wireless_invalid_frame, unsupported_mode, at-Ensures, IsSlice,
  slice-Ensures, Ensures, returns, Ensures-if, Ensures-bind, Ensures-map, Ensures-refuse,
}
use gombus.Response.{uint16_le}
use gombus.Wireless.Transport.{
  Transport, mode_none, mode_aes_cbc_iv, mode_aes_cbc_derived, encryption_block_len, ci_no_header,
  ci_long_header, from_index, parse_mode, parse_long, parse_header,
}

-- A transport whose address and counter have their sizes and whose fields are bytes.
unfoldable pub IsAddressed : Transport → Type 0
IsAddressed tr =
    IsSlice 8 tr.address × IsSlice 4 tr.counter × IsByte tr.access_number × IsByte tr.status

-- A mode that the package decrypts, and whole encrypted blocks that the body holds.
unfoldable pub IsTransport : ℕ → Transport → Type 0
IsTransport n tr =
    IsAddressed tr
    × ((tr.mode ≡ mode_none) ⊎ ((tr.mode ≡ mode_aes_cbc_iv) ⊎ (tr.mode ≡ mode_aes_cbc_derived)))
    × (tr.encrypted_bytes % 16 ≡ 0)
    × (tr.encrypted_bytes ≤ length tr.body)
    × (length tr.body ≤ n)
    × All IsByte tr.body

pub wider : (n m : ℕ) (tr : Transport) → n ≤ m → IsTransport n tr → IsTransport m tr
unfolding IsTransport
wider n m tr h (t, mode, whole, held, l, a) = (t, mode, whole, held, omega arith, a)

-- What the layers before the header leave: nothing is encrypted so far.
unfoldable pub IsDraft : Transport → Type 0
IsDraft tr = IsAddressed tr × (tr.mode ≡ mode_none) × (tr.encrypted_bytes ≡ 0)

pub from_index-Ensures :
    (b : Bytes) (i : ℕ)
    → i ≤ length b
    → All IsByte b
    → Ensures (IsSlice (length b - i)) (from_index b i)
from_index-Ensures b i h a = slice-Ensures b i (length b) h (omega arith) a

known_mode :
    (m : ℕ)
    → not (m == mode_none || (m == mode_aes_cbc_iv || m == mode_aes_cbc_derived)) ≡ false
    → (m ≡ mode_none) ⊎ ((m ≡ mode_aes_cbc_iv) ⊎ (m ≡ mode_aes_cbc_derived))
known_mode m e = ground arith

parse_mode-Ensures :
    (tr : Transport) (rest : Bytes)
    → IsAddressed tr
    → All IsByte rest
    → Ensures (IsTransport (length rest - 4)) (parse_mode tr rest)
unfolding parse_mode IsTransport IsAddressed
parse_mode-Ensures tr rest t a =
    Ensures-refuse (ltb (length rest) 4) (sentinel wireless_invalid_frame) λ h.
      let long : 4 ≤ length rest = ground arith in
      Ensures-bind (at-Ensures rest 0 (omega arith) a) λ _ u.
        Ensures-bind (at-Ensures rest 1 (omega arith) a) λ _ v.
          Ensures-bind (at-Ensures rest 2 (omega arith) a) λ c0 _.
            Ensures-bind (at-Ensures rest 3 (omega arith) a) λ c1 _.
              Ensures-bind (from_index-Ensures rest 4 long a) λ rest' (l, b).
                let mode = bit_and (uint16_le c0 c1 / 2 ^ 8) 0x1F in
                let encrypted = bit_and (uint16_le c0 c1 / 2 ^ 4) 0x0F * encryption_block_len in
                Ensures-refuse _ (sentinel unsupported_mode) λ known.
                  Ensures-refuse (mode == mode_aes_cbc_derived && ltb (length rest') 1)
                    (sentinel wireless_invalid_frame)
                    λ k.
                      Ensures-bind
                        (from_index-Ensures rest' (if mode == mode_aes_cbc_derived then 1 else 0)
                          (ground arith) b)
                        λ body (m, d).
                          Ensures-refuse (ltb (length body) encrypted)
                            (sentinel wireless_invalid_frame)
                            λ f. returns (
                              (t.0, t.1, u, v),
                              known_mode mode known,
                              omega arith,
                              ground arith,
                              omega (arith, l, m),
                              d,
                            )

parse_long-Ensures :
    (tr : Transport) (rest : Bytes)
    → IsAddressed tr
    → All IsByte rest
    → Ensures (IsTransport (length rest - 12)) (parse_long tr rest)
unfolding parse_long IsAddressed
parse_long-Ensures tr rest t a =
    Ensures-refuse (ltb (length rest) 8) (sentinel wireless_invalid_frame) λ h.
      let long : 8 ≤ length rest = ground arith in
      Ensures-bind (slice-Ensures rest 4 6 (omega arith) (omega arith) a) λ man (lm, am).
        Ensures-bind (slice-Ensures rest 0 4 (omega arith) (omega arith) a) λ id (li, ai).
          Ensures-bind (at-Ensures rest 6 (omega arith) a) λ v av.
            Ensures-bind (at-Ensures rest 7 (omega arith) a) λ d ad.
              Ensures-bind (from_index-Ensures rest 8 long a) λ rest' (l, b).
                let address = man ++ (id ++ (v ∷ d ∷ [])) in
                let size : length address ≡ 8 = omega (
                  arith,
                  length-append man (id ++ (v ∷ d ∷ [])),
                  length-append id (v ∷ d ∷ []),
                  lm,
                  li,
                ) in
                let bytes : All IsByte address =
                  All-append IsByte man _ am (All-append IsByte id _ ai (av, (ad, tt))) in
                Ensures-map
                  (parse_mode-Ensures (record tr { address = address }) rest'
                    ((size, bytes), t.1, t.2, t.3) b)
                  λ _ p. wider _ _ _ (omega (arith, l)) p

pub parse_header-Ensures :
    (tr : Transport) (ci : ℕ) (rest : Bytes)
    → IsDraft tr
    → All IsByte rest
    → Ensures (IsTransport (length rest)) (parse_header tr ci rest)
unfolding parse_header IsDraft IsTransport IsAddressed
parse_header-Ensures tr ci rest (t, mode, none_encrypted) a =
    Ensures-if (ci == ci_no_header)
      (λ _.
        returns (
          t,
          inl mode,
          omega (arith, none_encrypted),
          omega (arith, none_encrypted),
          omega arith,
          a,
        ))
      λ _.
        Ensures-if (ci == ci_long_header)
          (λ _.
            Ensures-map (parse_long-Ensures (record tr { ci = ci }) rest t a)
              λ x p. wider _ _ x (omega arith) p)
          λ _.
            Ensures-map (parse_mode-Ensures (record tr { ci = ci }) rest t a)
              λ x p. wider _ _ x (omega arith) p
