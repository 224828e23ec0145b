-- ===== src/Scan/Search/Restores.antt =====
-- scan.go: the search leaves the mask as it found it and only adds to the addresses.
use gombus.Prelude.{
  ℕ, zero, suc, ◌+◌, ◌≡◌, refl, sym, ap, ◌∙◌, subst, Bool, true, false, List, [], ◌∷◌, ◌++◌,
  append_assoc, append-nil, arith, All, set, drop, drop-set_below, if◌then◌else◌,
}
use gombus.Result.{Bytes, Result, ok, err, fault}
use gombus.Client.{Client, Session, check_context}
use gombus.Client.Walk.Requests.{and_then-eq-ok}
use gombus.Scan.{SecondaryAddress, mask_wildcard, is_bus_noise}
use gombus.Scan.Probe.{
  Selection, silence, responded, collision, select_mask, read_secondary_address,
}
use gombus.Scan.Search.{Search, take_address, after_select, scan_digits, scan_secondary_digit}

-- The digits from `pos` on are wildcards.
unfoldable pub IsWild : ℕ → Bytes → Type 0
IsWild pos mask = All (λ d. d ≡ mask_wildcard) (drop pos mask)

set_wildcard : (pos : ℕ) (mask : Bytes) → IsWild pos mask → set mask pos mask_wildcard ≡ mask
unfolding IsWild
set_wildcard zero [] w = refl
set_wildcard (suc pos) [] w = refl
set_wildcard zero (d ∷ mask) w = ap (λ (x : ℕ). x ∷ mask) (sym w.0)
set_wildcard (suc pos) (d ∷ mask) w = ap (◌∷◌ d) (set_wildcard pos mask w)

IsWild-next : (pos : ℕ) (mask : Bytes) → IsWild pos mask → IsWild (suc pos) mask
unfolding IsWild
IsWild-next zero [] w = tt
IsWild-next (suc pos) [] w = tt
IsWild-next zero (d ∷ mask) w = w.1
IsWild-next (suc pos) (d ∷ mask) w = IsWild-next pos mask w

set-set : (mask : Bytes) (pos d e : ℕ) → set (set mask pos d) pos e ≡ set mask pos e
set-set [] pos d e = refl
set-set (x ∷ mask) zero d e = refl
set-set (x ∷ mask) (suc pos) d e = ap (◌∷◌ x) (set-set mask pos d e)

-- The mask after a search, and the addresses before it with those that it found.
unfoldable pub Restored : Search → Search → Type 0
Restored s s' = (s'.0 ≡ s.0) × ((more : List SecondaryAddress) × (s'.1 ≡ s.1 ++ more))

unchanged : (s : Search) → Restored s s
unfolding Restored
unchanged s = (refl, ([], sym (append-nil s.1)))

-- A search of the digits behind `pos` that restores what it is given.
abbrev Restoring : ℕ → (Search → Session Search) → Type 0
Restoring pos narrow =
    (s s' : Search) (c c' : Client) → IsWild pos s.0 → narrow s c ≡ (ok s', c') → Restored s s'

abbrev search_or_empty : Result Search → Search
search_or_empty (ok s) = s
search_or_empty (err e) = ([], [])
search_or_empty (fault x) = ([], [])

if_eq :
    {A : Type 0} (P : Type 0) (t : Bool) {x y z : A}
    → (if t then x else y) ≡ z
    → (x ≡ z → P)
    → (y ≡ z → P)
    → P
if_eq P true e p q = p e
if_eq P false e p q = q e

take_address-Restored :
    (pos : ℕ) (narrow : Search → Session Search) (s s' : Search) (c' : Client)
    (r : Result SecondaryAddress × Client)
    → Restoring pos narrow
    → IsWild pos s.0
    → take_address narrow s r ≡ (ok s', c')
    → Restored s s'
unfolding take_address Restored
take_address-Restored pos narrow s s' c' (ok addr, c) h w e =
    let same : ◌≡◌ {A = Search} (s.0, s.1 ++ (addr ∷ [])) s' = ap (λ p. search_or_empty p.0) e in
    subst (Restored s) same (refl, (addr ∷ [], refl))
take_address-Restored pos narrow s s' c' (err x, c) h w e =
    if_eq (Restored s s') (is_bus_noise x) e (λ q. h s s' c c' w q) λ q. cc
take_address-Restored pos narrow s s' c' (fault x, c) h w e = cc

after_select-Restored :
    (pos : ℕ) (narrow : Search → Session Search) (s s' : Search) (o : Selection) (c c' : Client)
    → Restoring pos narrow
    → IsWild pos s.0
    → after_select narrow s o c ≡ (ok s', c')
    → Restored s s'
unfolding after_select
after_select-Restored pos narrow s s' silence c c' h w e =
    let same : s ≡ s' = ap (λ p. search_or_empty p.0) e in subst (Restored s) same (unchanged s)
after_select-Restored pos narrow s s' collision c c' h w e = h s s' c c' w e
after_select-Restored pos narrow s s' responded c c' h w e =
    take_address-Restored pos narrow s s' c' (read_secondary_address c) h w e

-- The digits behind `pos` of a mask whose digit at `pos` is set.
IsWild-set :
    (pos d : ℕ) (mask base : Bytes)
    → IsWild pos base
    → set mask pos mask_wildcard ≡ base
    → IsWild (suc pos) (set mask pos d)
unfolding IsWild
IsWild-set pos d mask base w e =
    let behind : drop (suc pos) (set mask pos d) ≡ drop (suc pos) base =
      drop-set_below (suc pos) mask pos d (omega arith)
      ∙ sym (drop-set_below (suc pos) mask pos mask_wildcard (omega arith))
      ∙ ap (drop (suc pos)) e in
    subst (λ ds. All (λ x. x ≡ mask_wildcard) ds) (sym behind) (IsWild-next pos base w)

scan_digits-Restored :
    (narrow : Search → Session Search) (pos n digit : ℕ) (base : Bytes) (s s' : Search)
    (c c' : Client)
    → Restoring (suc pos) narrow
    → IsWild pos base
    → set s.0 pos mask_wildcard ≡ base
    → scan_digits narrow pos n digit s c ≡ (ok s', c')
    → Restored (base, s.1) s'
unfolding scan_digits Restored
scan_digits-Restored narrow pos zero digit base s s' c c' h w k e =
    let same : ◌≡◌ {A = Search} (set s.0 pos mask_wildcard, s.1) s' =
      ap (λ p. search_or_empty p.0) e in
    subst (Restored (base, s.1)) same (k, ([], sym (append-nil s.1)))
scan_digits-Restored narrow pos (suc n) digit base s s' c c' h w k e =
    let tried : Search = (set s.0 pos digit, s.1) in
    let (_, c1, _, e1) = and_then-eq-ok (check_context c) _ e in
    let (o, c2, _, e2) = and_then-eq-ok (select_mask (set s.0 pos digit) c1) _ e1 in
    let (s'', c3, q, e3) = and_then-eq-ok (after_select narrow tried o c2) _ e2 in
    let (m, (more, f)) =
      after_select-Restored (suc pos) narrow tried s'' o c2 c3 h (IsWild-set pos digit s.0 base w k)
        q in
    let back = ap (λ t. set t pos mask_wildcard) m ∙ set-set s.0 pos digit mask_wildcard ∙ k in
    let (m', (more', f')) =
      scan_digits-Restored narrow pos n (digit + 1) base s'' s' c3 c' h w back e3 in
    (m', (more ++ more', f' ∙ ap (λ t. t ++ more') f ∙ append_assoc s.1 more more'))

scan_secondary_digit-Restored :
    (depth pos : ℕ) (s s' : Search) (c c' : Client)
    → IsWild pos s.0
    → scan_secondary_digit depth pos s c ≡ (ok s', c')
    → Restored s s'
unfolding scan_secondary_digit
scan_secondary_digit-Restored zero pos s s' c c' w e =
    let same : s ≡ s' = ap (λ p. search_or_empty p.0) e in subst (Restored s) same (unchanged s)
scan_secondary_digit-Restored (suc depth) pos s s' c c' w e =
    let next : pos + 1 ≡ suc pos = omega arith in
    let narrow = scan_secondary_digit depth (pos + 1) in
    scan_digits-Restored narrow pos 10 0x30 s.0 s s' c c'
      (λ t t' d d' v q.
        scan_secondary_digit-Restored depth (pos + 1) t t' d d'
          (subst (λ (k : ℕ). IsWild k t.0) (sym next) v) q)
      w (set_wildcard pos s.0 w) e

-- What a search that succeeds leaves.
unfoldable pub Leaves : Search → Result Search × Client → Type 0
Leaves s (ok s', c') = Restored s s'
Leaves s (err e, c') = Unit {0}
Leaves s (fault x, c') = Unit {0}

to_Leaves :
    (depth pos : ℕ) (s : Search) (c : Client) (p : Result Search × Client)
    → IsWild pos s.0
    → scan_secondary_digit depth pos s c ≡ p
    → Leaves s p
unfolding Leaves
to_Leaves depth pos s c (ok s', c') w e = scan_secondary_digit-Restored depth pos s s' c c' w e
to_Leaves depth pos s c (err x, c') w e = tt
to_Leaves depth pos s c (fault x, c') w e = tt

-- On a mask whose digits from the position on are wildcards, a search of these digits that
-- succeeds leaves the mask as it was, and adds addresses behind those found before it.
pub scan_secondary_digit-Leaves :
    (depth pos : ℕ) (s : Search) (c : Client)
    → IsWild pos s.0
    → Leaves s (scan_secondary_digit depth pos s c)
scan_secondary_digit-Leaves depth pos s c w =
    to_Leaves depth pos s c (scan_secondary_digit depth pos s c) w refl
