-- ===== src/Scan/Search/Bus/Everyone.antt =====
-- scan.go: the slaves of a bus under the masks of a search.
use gombus.Prelude.{
  ℕ, zero, suc, ◌+◌, ◌≤◌, ◌<◌, ◌≡◌, refl, subst, true, List, [], ◌∷◌, arith, All, length, replicate,
  get_or, if-holds,
}
use gombus.Result.{Bytes}
use gombus.Response.Digits.{IsDigit}
use gombus.Scan.{mask, mask_wildcard}
use gombus.Scan.Search.Bus.{Slave, IsSlave, fits, selected, under}
use gombus.Scan.Search.Bus.Alone.{IsSlave-IsNumbered}

pub All-selected :
    (m : Bytes) (slaves : List Slave) → All IsSlave slaves → All IsSlave (selected m slaves)
unfolding selected
All-selected m [] h = tt
All-selected m (s ∷ slaves) h =
    if-holds (All IsSlave) (fits m (mask s.address)) (λ _. (h.0, All-selected m slaves h.1))
      λ _. All-selected m slaves h.1

get_or-IsDigit : (a : Bytes) (i : ℕ) → All IsDigit a → i < length a → IsDigit (get_or a i 0)
get_or-IsDigit [] i h l = absurd (omega arith)
get_or-IsDigit (x ∷ a) zero h l = h.0
get_or-IsDigit (x ∷ a) (suc i) h l = get_or-IsDigit a i h.1 (omega arith)

pub digits_in_range :
    (ds : Bytes) (k : ℕ) (slaves : List Slave)
    → All IsSlave slaves
    → length ds + suc k ≡ 8
    → All
        (λ (s : Slave).
          (0x30 ≤ get_or (mask s.address) (length ds) 0)
          × (get_or (mask s.address) (length ds) 0 < 0x30 + 10))
        slaves
digits_in_range ds k [] h l = tt
digits_in_range ds k (s ∷ slaves) h l =
    let w = IsSlave-IsNumbered s h.0 in
    let d = get_or-IsDigit (mask s.address) (length ds) w.digits (omega (arith, w.sized)) in
    ((d.0, omega (arith, d.1)), digits_in_range ds k slaves h.1 l)

fits_wildcards : (a : Bytes) → fits (replicate (length a) mask_wildcard) a ≡ true
fits_wildcards [] = refl
fits_wildcards (x ∷ a) = fits_wildcards a

pub selected_everyone :
    (slaves : List Slave) → All IsSlave slaves → selected (under [] 8) slaves ≡ slaves
unfolding selected
selected_everyone [] h = refl
selected_everyone (s ∷ slaves) h =
    let e = (IsSlave-IsNumbered s h.0).sized in
    let f : fits (under [] 8) (mask s.address) ≡ true =
      subst (λ (n : ℕ). fits (replicate n mask_wildcard) (mask s.address) ≡ true) e
        (fits_wildcards (mask s.address)) in
    rw (f, selected_everyone slaves h.1) refl
