-- ===== src/Scan/Search/Bus/Alone.antt =====
-- scan.go: a mask without wildcards selects at most one of the slaves of a bus.
use gombus.Prelude.{
  ◌≤◌, ◌≡◌, ◌≢◌, refl, sym, ap, ◌∙◌, subst, true, List, [], ◌∷◌, ◌++◌, arith, All, length,
  Bool-cases, inl, inr,
}
use gombus.Result.{Bytes}
use gombus.Response.Digits.{IsDigit, number_of, eight_digits_lem}
use gombus.Scan.{mask}
use gombus.Scan.Selects.{mask-eight_digits}
use gombus.Scan.Search.Bus.{Slave, IsSlave, Distinct, fits, selected}

-- The number of a slave, as the digits of its mask.
pub record IsNumbered (s : Slave) : Type 0 where
  pub digits : All IsDigit (mask s.address)
  pub sized : length (mask s.address) ≡ 8
  pub number : number_of (mask s.address) ≡ s.address.id

pub IsSlave-IsNumbered : (s : Slave) → IsSlave s → IsNumbered s
IsSlave-IsNumbered s w =
    let e = sym (mask-eight_digits s.address) in
    let (d, l, n) = eight_digits_lem s.address.id w.number in
    record {
      digits = subst (λ (t : Bytes). All IsDigit t) e d;
      sized = subst (λ (t : Bytes). length t ≡ 8) e l;
      number = subst (λ (t : Bytes). number_of t ≡ s.address.id) e n;
    }

fits_full : (ds a : Bytes) → All IsDigit ds → fits (ds ++ []) a ≡ true → ds ≡ a
fits_full [] [] h e = refl
fits_full [] (x ∷ a) h e = cc
fits_full (d ∷ ds) [] h e = cc
fits_full (d ∷ ds) (x ∷ a) h e =
    let same : d ≡ x = ground (arith, h.0) in
    let rest : fits (ds ++ []) a ≡ true = ground (arith, h.0) in
    rw (same, fits_full ds a h.1 rest) refl

-- Nobody else has the number of a slave that fits.
others :
    (ds : Bytes) (s : Slave) (slaves : List Slave)
    → All IsDigit ds
    → ds ≡ mask s.address
    → IsSlave s
    → All IsSlave slaves
    → All (λ (t : Slave). s.address.id ≢ t.address.id) slaves
    → selected (ds ++ []) slaves ≡ []
unfolding selected
others ds s [] h e w ws n = refl
others ds s (t ∷ slaves) h e w ws n = elim (Bool-cases (fits (ds ++ []) (mask t.address))) [
  | inl fit ↦
      let same : mask s.address ≡ mask t.address = sym e ∙ fits_full ds (mask t.address) h fit in
      absurd (
        n.0 (
          sym (IsSlave-IsNumbered s w).number
          ∙ ap number_of same
          ∙ (IsSlave-IsNumbered t ws.0).number))
  | inr unfit ↦ rw unfit (others ds s slaves h e w ws.1 n.1)
]

pub selected_alone :
    (ds : Bytes) (slaves : List Slave)
    → All IsDigit ds
    → All IsSlave slaves
    → Distinct slaves
    → length (selected (ds ++ []) slaves) ≤ 1
unfolding selected
selected_alone ds [] h ws n = omega arith
selected_alone ds (s ∷ slaves) h ws n = elim (Bool-cases (fits (ds ++ []) (mask s.address))) [
  | inl fit ↦
      rw (fit, others ds s slaves h (fits_full ds (mask s.address) h fit) ws.0 ws.1 n.0)
        (omega arith)
  | inr unfit ↦ rw unfit (selected_alone ds slaves h ws.1 n.1)
]
