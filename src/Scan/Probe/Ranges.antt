-- ===== src/Scan/Probe/Ranges.antt =====
-- scan.go: the addresses that ScanPrimary returns.
use gombus.Prelude.{
  ℕ, zero, suc, ◌+◌, ◌-◌, ◌≤◌, ◌<◌, ◌≡◌, refl, ap, subst, Bool, true, false, List, [], ◌∷◌, ◌++◌,
  arith, ltb, if◌then◌else◌,
}
use gombus.Result.{
  Message, Result, ok, err, fault, sentinel, scan_start, scan_end, invalid_scan_range, refuse,
}
use gombus.Commands.{validate_assignable_addr}
use gombus.Client.{Client, lift, check_context}
use gombus.Client.Walk.Requests.{and_then-eq-ok}
use gombus.Scan.Probe.{probe_primary, note_probe, scan_addresses, bound_error, scan_primary}

-- Ascending addresses from `low` on and below `high`.
unfoldable pub Ascends : ℕ → ℕ → List ℕ → Type 0
Ascends low high [] = low ≤ high
Ascends low high (x ∷ rest) = (low ≤ x) × (x < high) × Ascends (x + 1) high rest

Ascends-wider :
    (low high : ℕ) (found : List ℕ) → Ascends low high found → Ascends low (high + 1) found
unfolding Ascends
Ascends-wider low high [] a = omega arith
Ascends-wider low high (x ∷ found) (l, h, a) = (l, omega arith, Ascends-wider (x + 1) high found a)

Ascends-append :
    (low high : ℕ) (found : List ℕ)
    → Ascends low high found
    → Ascends low (high + 1) (found ++ (high ∷ []))
unfolding Ascends
Ascends-append low high [] a = (a, omega arith, omega arith)
Ascends-append low high (x ∷ found) (l, h, a) =
    (l, omega arith, Ascends-append (x + 1) high found a)

Ascends-round :
    (present : Bool) (low addr : ℕ) (found : List ℕ)
    → Ascends low addr found
    → Ascends low (addr + 1) (if present then found ++ (addr ∷ []) else found)
Ascends-round true low addr found a = Ascends-append low addr found a
Ascends-round false low addr found a = Ascends-wider low addr found a

abbrev addresses_or_none : Result (List ℕ) → List ℕ
addresses_or_none (ok found) = found
addresses_or_none (err e) = []
addresses_or_none (fault x) = []

scan_addresses-Ascends :
    (n low addr : ℕ) (found r : List ℕ) (c c' : Client)
    → Ascends low addr found
    → scan_addresses n addr found c ≡ (ok r, c')
    → Ascends low (addr + n) r
unfolding scan_addresses
scan_addresses-Ascends zero low addr found r c c' a e =
    let same : found ≡ r = ap (λ p. addresses_or_none p.0) e in
    let size : addr ≡ addr + 0 = omega arith in
    subst (Ascends low (addr + 0)) same (subst (λ (h : ℕ). Ascends low h found) size a)
scan_addresses-Ascends (suc n) low addr found r c c' a e =
    let (_, c1, _, e1) = and_then-eq-ok (check_context c) _ e in
    let (present, c2, _, e2) = and_then-eq-ok (note_probe (probe_primary addr c1)) _ e1 in
    let ih =
      scan_addresses-Ascends n low (addr + 1) _ r c2 c' (Ascends-round present low addr found a)
        e2 in
    let size : addr + 1 + n ≡ addr + suc n = omega arith in
    subst (λ (h : ℕ). Ascends low h r) size ih

bound_error-eq-ok :
    (text : Message) (r : Result (Unit {0})) {u : Unit {0}} → bound_error text r ≡ ok u → r ≡ ok u
unfolding bound_error
bound_error-eq-ok text (ok v) e = e
bound_error-eq-ok text (err x) e = cc
bound_error-eq-ok text (fault x) e = cc

assignable :
    (addr : ℕ) {u : Unit {0}} → validate_assignable_addr addr ≡ ok u → (1 ≤ addr) × (addr ≤ 250)
unfolding validate_assignable_addr
assignable addr e = (ground arith, ground arith)

not_reversed :
    (start end : ℕ) {u : Unit {0}}
    → refuse (ltb end start) (sentinel invalid_scan_range) ≡ ok u
    → start ≤ end
not_reversed start end e = ground arith

-- A sweep that succeeds.
unfoldable pub IsSweep : ℕ → ℕ → Result (List ℕ) × Client → Type 0
IsSweep start end (ok found, c) =
    (1 ≤ start) × (start ≤ end) × (end ≤ 250) × Ascends start (end + 1) found
IsSweep start end (err e, c) = Unit {0}
IsSweep start end (fault x, c) = Unit {0}

scan_primary-eq-ok :
    (start end : ℕ) (c : Client) (p : Result (List ℕ) × Client)
    → scan_primary start end c ≡ p
    → IsSweep start end p
unfolding scan_primary IsSweep Ascends
scan_primary-eq-ok start end c (err x, c') e = tt
scan_primary-eq-ok start end c (fault x, c') e = tt
scan_primary-eq-ok start end c (ok r, c') e =
    let (_, c1, q1, e1) =
      and_then-eq-ok (lift (bound_error scan_start (validate_assignable_addr start)) c) _ e in
    let (_, c2, q2, e2) =
      and_then-eq-ok (lift (bound_error scan_end (validate_assignable_addr end)) c1) _ e1 in
    let (_, c3, q3, e3) =
      and_then-eq-ok (lift (refuse (ltb end start) (sentinel invalid_scan_range)) c2) _ e2 in
    let low =
      assignable start
        (bound_error-eq-ok scan_start (validate_assignable_addr start) (ap (λ p. p.0) q1)) in
    let high =
      assignable end
        (bound_error-eq-ok scan_end (validate_assignable_addr end) (ap (λ p. p.0) q2)) in
    let order = not_reversed start end (ap (λ p. p.0) q3) in
    let size : start + (end + 1 - start) ≡ end + 1 = omega (arith, order) in
    let all = scan_addresses-Ascends (end + 1 - start) start start [] r c3 c' (omega arith) e3 in
    (low.0, order, high.1, subst (λ (h : ℕ). Ascends start h r) size all)

-- A primary scan that succeeds was given assignable addresses in order, and returns addresses in
-- ascending order, none of them twice, and all of them in the range.
pub scan_primary-IsSweep :
    (start end : ℕ) (c : Client) → IsSweep start end (scan_primary start end c)
scan_primary-IsSweep start end c = scan_primary-eq-ok start end c (scan_primary start end c) refl
