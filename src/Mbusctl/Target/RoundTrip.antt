-- ===== src/Mbusctl/Target/RoundTrip.antt =====
-- cmd/mbusctl/addr.go: the number that a target is shown with names it.
use gombus.Prelude.{
  ℕ, ◌^◌, ◌≤◌, ◌<◌, ◌≡◌, ◌≢◌, refl, sym, ap, ◌∙◌, Bool, false, [], arith, All, length, subst,
}
use gombus.Result.{Bytes, Result, ok, err, fault}
use gombus.Commands.Addressing.{IsDestination}
use gombus.Response.Text.{digits_before}
use gombus.Mbusctl.Target.{Target, secondary_target, primary_target, number_text, parse_target}
use gombus.Response.Digits.{
  IsDigit, number_of, digits_value, digits_value_lem, digits_value-digits_before, digits_before-All,
  length-digits_before, eight_digits_lem,
}
use gombus.Mbusctl.Target.Parses.{Denotes, by_secondary, by_primary, Parses, parse_target-Parses}

-- The meters that a target of the tool stands for.
pub data IsTarget : Target → Type 0 where
  has_number : (id : ℕ) → id < 10 ^ 8 → IsTarget (secondary_target id)
  has_address : (addr : ℕ) → IsDestination addr → IsTarget (primary_target addr)

number_text-secondary :
    (id : ℕ)
    → id < 10 ^ 8
    → All IsDigit (number_text (secondary_target id))
      × (length (number_text (secondary_target id)) ≡ 8)
      × (number_of (number_text (secondary_target id)) ≡ id)
unfolding number_text
number_text-secondary id h = eight_digits_lem id h

number_text-primary :
    (addr : ℕ)
    → IsDestination addr
    → All IsDigit (number_text (primary_target addr))
      × (length (number_text (primary_target addr)) ≤ 3)
      × (number_of (number_text (primary_target addr)) ≡ addr)
unfolding number_text
number_text-primary addr h =
    let digits = digits_before 20 addr [] in
    let (low, high) = length-digits_before 2 20 addr [] (omega arith) in
    (
      digits_before-All 20 addr [] tt,
      omega arith,
      sym (digits_value_lem digits)
          ∙ digits_value-digits_before 19 addr [] (omega arith)
          ∙ unfold digits_value in refl,
    )

-- A text that denotes a target is parsed to it.
Parses-Denotes :
    (arg : Bytes) (f : Bool) (t : Target) (r : Result Target)
    → Parses arg f r
    → Denotes arg f t
    → (s : Target) × (r ≡ ok s) × Denotes arg f s
unfolding Parses
Parses-Denotes arg f t (ok s) p d = (s, refl, p)
Parses-Denotes arg f t (err e) p d = absurd (p.1 t d)
Parses-Denotes arg f t (fault x) p d = absurd p

is_nonempty : (s : Bytes) → number_of s ≢ 0 → s ≢ []
unfolding number_of
is_nonempty s h e = h (rw e)

Denotes-unique : (arg : Bytes) (f : Bool) (s t : Target) → Denotes arg f s → Denotes arg f t → s ≡ t
Denotes-unique arg f _ _ (by_secondary g d l h) (by_secondary g' d' l' h') = refl
Denotes-unique arg f _ _ (by_secondary g d l h) (by_primary g' d' l' h') = cc
Denotes-unique arg f _ _ (by_primary g d l h) (by_secondary g' d' l' h') = cc
Denotes-unique arg f _ _ (by_primary g d l h) (by_primary g' d' l' h') = refl

number_text-Denotes : (t : Target) → IsTarget t → Denotes (number_text t) false t
number_text-Denotes _ (has_number id h) =
    let (d, l, n) = number_text-secondary id h in
    let text = number_text (secondary_target id) in
    subst (λ (i : ℕ). Denotes text false (secondary_target i)) n
      (by_secondary (λ e. omega (arith, ap length e)) d (ground arith) (omega (arith, n)))
number_text-Denotes _ (has_address addr h) =
    let (d, l, n) = number_text-primary addr h in
    let text = number_text (primary_target addr) in
    subst (λ (i : ℕ). Denotes text false (primary_target i)) n
      (by_primary (is_nonempty text (omega (arith, n, h))) d (ground arith)
        (subst IsDestination (sym n) h))

-- The number that a target is shown with, padded to eight digits for an identification number, is
-- parsed to the same target.
pub parse_target-number_text : (t : Target) → IsTarget t → parse_target (number_text t) false ≡ ok t
parse_target-number_text t h =
    let d = number_text-Denotes t h in
    let (s, e, p) =
      Parses-Denotes (number_text t) false t (parse_target (number_text t) false)
        (parse_target-Parses (number_text t) false) d in
    e ∙ ap ok (Denotes-unique (number_text t) false s t p d)
