-- ===== src/Scan/Search/Bus/Buckets.antt =====
-- scan.go: the values of a digit part the slaves that a mask with a wildcard there selects.
use mathlib.Core.List.Perm
use mathlib.Core.List.{Perm, perm_middle}
use gombus.Prelude.{
  ℕ, zero, suc, ◌+◌, ◌≤◌, ◌<◌, ◌≡◌, ◌≢◌, refl, Bool, true, false, ◌&&◌, List, [], ◌∷◌, ◌++◌, arith,
  All, length, get_or, ◌==◌, Bool-cases, inl, inr,
}
use gombus.Result.{Bytes}
use gombus.Scan.{mask, mask_wildcard}
use gombus.Scan.Search.Bus.{Slave, fits, selected}

-- A digit behind `ds` fits where a wildcard does, if it is that of the number.
fits_behind :
    (ds r a : Bytes) (d : ℕ)
    → d ≢ mask_wildcard
    → fits (ds ++ (d ∷ r)) a ≡ (fits (ds ++ (mask_wildcard ∷ r)) a && (d == get_or a (length ds) 0))
fits_behind [] r [] d h = refl
fits_behind [] r (x ∷ a) d h = ground arith
fits_behind (e ∷ ds) r [] d h = refl
fits_behind (e ∷ ds) r (x ∷ a) d h = ground (arith, fits_behind ds r a d h)

module _ (ds r : Bytes) where
  -- The slaves whose digit behind `ds` is `d`.
  abbrev pub bucket : ℕ → List Slave → List Slave
  bucket d slaves = selected (ds ++ (d ∷ r)) slaves

  abbrev pub buckets : ℕ → ℕ → List Slave → List Slave
  buckets zero d slaves = []
  buckets (suc n) d slaves = bucket d slaves ++ buckets n (d + 1) slaves

  abbrev pub digit_of : Slave → ℕ
  digit_of s = get_or (mask s.address) (length ds) 0

  abbrev is_selected : Slave → Bool
  is_selected s = fits (ds ++ (mask_wildcard ∷ r)) (mask s.address)

  bucket_unfit :
      (d : ℕ) (s : Slave) (slaves : List Slave)
      → d < mask_wildcard
      → is_selected s ≡ false
      → bucket d (s ∷ slaves) ≡ bucket d slaves
  unfolding selected
  bucket_unfit d s slaves h e =
      let f = fits_behind ds r (mask s.address) d (λ q. omega arith) in rw (f, e) refl

  bucket_other :
      (d : ℕ) (s : Slave) (slaves : List Slave)
      → d < mask_wildcard
      → d ≢ digit_of s
      → bucket d (s ∷ slaves) ≡ bucket d slaves
  unfolding selected
  bucket_other d s slaves h n =
      let f = fits_behind ds r (mask s.address) d (λ q. omega arith) in ground (arith, f)

  bucket_own :
      (d : ℕ) (s : Slave) (slaves : List Slave)
      → d < mask_wildcard
      → is_selected s ≡ true
      → d ≡ digit_of s
      → bucket d (s ∷ slaves) ≡ s ∷ bucket d slaves
  unfolding selected
  bucket_own d s slaves h e k =
      let f = fits_behind ds r (mask s.address) d (λ q. omega arith) in ground (arith, f)

  buckets_unfit :
      (n d : ℕ) (s : Slave) (slaves : List Slave)
      → d + n ≤ mask_wildcard
      → is_selected s ≡ false
      → buckets n d (s ∷ slaves) ≡ buckets n d slaves
  buckets_unfit zero d s slaves h e = refl
  buckets_unfit (suc n) d s slaves h e =
      rw (bucket_unfit d s slaves (omega arith) e, buckets_unfit n (d + 1) s slaves (omega arith) e)

  buckets_above :
      (n d : ℕ) (s : Slave) (slaves : List Slave)
      → d + n ≤ mask_wildcard
      → digit_of s < d
      → buckets n d (s ∷ slaves) ≡ buckets n d slaves
  buckets_above zero d s slaves h l = refl
  buckets_above (suc n) d s slaves h l = rw (
    bucket_other d s slaves (omega arith) (λ e. omega arith),
    buckets_above n (d + 1) s slaves (omega arith) (omega arith),
  )

  buckets_own :
      (n d : ℕ) (s : Slave) (slaves : List Slave)
      → d + n ≤ mask_wildcard
      → is_selected s ≡ true
      → d ≤ digit_of s
      → digit_of s < d + n
      → Perm (buckets n d (s ∷ slaves)) (s ∷ buckets n d slaves)
  buckets_own zero d s slaves h e l g = absurd (omega arith)
  buckets_own (suc n) d s slaves h e l g = elim (Bool-cases (d == digit_of s)) [
    | inl own ↦
        let k : d ≡ digit_of s = ground arith in
        rw
          (
            bucket_own d s slaves (omega arith) e k,
            buckets_above n (d + 1) s slaves (omega arith) (omega arith),
          )
          (Perm.refl _)
    | inr other ↦
        let k : d ≢ digit_of s = ground arith in
        rw (bucket_other d s slaves (omega arith) k) (
          Perm.trans
            (Perm.append_left (bucket d slaves)
              (buckets_own n (d + 1) s slaves (omega arith) e (omega arith) (omega arith)))
            (perm_middle (bucket d slaves) (buckets n (d + 1) slaves)))
  ]

  buckets_nil : (n d : ℕ) → buckets n d [] ≡ []
  unfolding selected
  buckets_nil zero d = refl
  buckets_nil (suc n) d = buckets_nil n (d + 1)

  -- All that a wildcard behind `ds` selects are in the buckets of the digits, and in one each.
  pub buckets-perm :
      (n d : ℕ) (slaves : List Slave)
      → d + n ≤ mask_wildcard
      → All (λ (s : Slave). (d ≤ digit_of s) × (digit_of s < d + n)) slaves
      → Perm (buckets n d slaves) (selected (ds ++ (mask_wildcard ∷ r)) slaves)
  unfolding selected
  buckets-perm n d [] h a = rw (buckets_nil n d) (Perm.refl [])
  buckets-perm n d (s ∷ slaves) h a = elim (Bool-cases (is_selected s)) [
    | inl own ↦ rw own (
        Perm.trans (buckets_own n d s slaves h own a.0.0 a.0.1)
          (Perm.cons s (buckets-perm n d slaves h a.1)))
    | inr other ↦ rw (other, buckets_unfit n d s slaves h other) (buckets-perm n d slaves h a.1)
  ]
