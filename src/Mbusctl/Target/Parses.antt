-- ===== src/Mbusctl/Target/Parses.antt =====
-- cmd/mbusctl/addr.go: what the text of an address denotes.
use gombus.Prelude.{
  ℕ, ◌^◌, ◌≤◌, ◌<◌, ◌≡◌, ◌≢◌, ◌⊎◌, inl, inr, refl, Bool, true, false, not, ◌||◌, [], ◌∷◌, arith,
  All, leb, length, ◌==◌, if◌then◌else◌, Bool-cases, if-holds,
}
use gombus.Prelude.Int.{pos}
use native.Mathlib.Decide.{dec_lt}
use gombus.Result.{
  Bytes, Message, Result, ok, err, fault, refuse, ◌>>◌, message, number_range, bad_primary,
  bad_secondary, too_many_digits, not_digits, missing_address,
}
use gombus.Commands.Addressing.{IsDestination}
use gombus.Mbusctl.{errors_as_usage, usagef}
use gombus.Mbusctl.Target.{
  Target, secondary_target, primary_target, destination_addr, is_digits, parse_uint, signed_digits,
  atoi, or_usage, parse_secondary, parse_primary, parse_target,
}
use gombus.Response.Digits.{IsDigit, number_of, digits_value_lem}

is_digits-All : (s : Bytes) → is_digits s ≡ true → All IsDigit s
unfolding is_digits
is_digits-All [] e = tt
is_digits-All (c ∷ s) e = (ground arith, is_digits-All s (ground arith))

All-is_digits : (s : Bytes) → All IsDigit s → is_digits s ≡ true
unfolding is_digits
All-is_digits [] a = refl
All-is_digits (c ∷ s) (h, a) = ground (arith, All-is_digits s a)

-- Whether a text is read as an identification number.
abbrev pub is_long : Bytes → Bool → Bool
is_long arg force_secondary = force_secondary || length arg == 8

-- The meter that a text names: one digit or more, for an identification number of eight digits or
-- a destination.
pub data Denotes (arg : Bytes) (force_secondary : Bool) : Target → Type 0 where
  by_secondary :
      arg ≢ []
      → All IsDigit arg
      → is_long arg force_secondary ≡ true
      → number_of arg < 10 ^ 8
      → Denotes arg force_secondary (secondary_target (number_of arg))
  by_primary :
      arg ≢ []
      → All IsDigit arg
      → is_long arg force_secondary ≡ false
      → IsDestination (number_of arg)
      → Denotes arg force_secondary (primary_target (number_of arg))

-- What a text of an address is parsed to.
unfoldable pub Parses : Bytes → Bool → Result Target → Type 0
Parses arg force_secondary (ok t) = Denotes arg force_secondary t
Parses arg force_secondary (err e) =
    (errors_as_usage e ≡ true) × ((t : Target) → ¬ Denotes arg force_secondary t)
Parses arg force_secondary (fault x) = ⊥

IsDestination-decided : (n : ℕ) → IsDestination n ⊎ (¬ IsDestination n)
IsDestination-decided n = elim (dec_lt n 1) [
  | yes h ↦ inr (λ d. omega arith)
  | no h ↦ elim (dec_lt n 251) [
    | yes k ↦ inl (inl (omega arith, omega arith))
    | no k ↦ elim (dec_lt n 253) [
      | yes l ↦ inr (λ d. omega arith)
      | no l ↦ elim (dec_lt n 255) [
        | yes m ↦ inl (inr (omega arith))
        | no m ↦ inr (λ d. omega arith)
      ]
    ]
  ]
]

-- The three things that a text must be to denote a meter.
record IsNamed (arg : Bytes) (force_secondary : Bool) : Type 0 where
  given : arg ≢ []
  digits : All IsDigit arg
  fits :
      ((is_long arg force_secondary ≡ true) × (number_of arg < 10 ^ 8))
      ⊎ ((is_long arg force_secondary ≡ false) × IsDestination (number_of arg))

Denotes-IsNamed : (arg : Bytes) (f : Bool) (t : Target) → Denotes arg f t → IsNamed arg f
Denotes-IsNamed arg f _ (by_secondary g d l h) = record { given = g; digits = d; fits = inl (l, h) }
Denotes-IsNamed arg f _ (by_primary g d l h) = record { given = g; digits = d; fits = inr (l, h) }

abbrev Refused : Result Target → Type 0
Refused r = (m : Message) × (r ≡ err (usagef m))

-- A parser that takes a text exactly where it names the meter.
to_Parses :
    (arg : Bytes) (f : Bool) (r : Result Target)
    → ((t : Target) × (r ≡ ok t) × Denotes arg f t) ⊎ (Refused r × (¬ IsNamed arg f))
    → Parses arg f r
unfolding Parses errors_as_usage
to_Parses arg f r (inl (t, e, d)) = rw e d
to_Parses arg f r (inr ((m, e), n)) = rw e (refl, λ t d. n (Denotes-IsNamed arg f t d))

parse_uint-eq :
    (c : ℕ) (s : Bytes)
    → is_digits (c ∷ s) ≡ true
    → parse_uint (c ∷ s) ≡ (
        if leb (2 ^ 64) (number_of (c ∷ s))
        then err (message number_range)
        else ok (number_of (c ∷ s)))
unfolding parse_uint
parse_uint-eq c s d = rw (d, digits_value_lem (c ∷ s)) (ground arith)

secondary_decided :
    (c : ℕ) (s : Bytes)
    → is_digits (c ∷ s) ≡ true
    → ((number_of (c ∷ s) < 10 ^ 8)
        × (parse_secondary (c ∷ s) ≡ ok (secondary_target (number_of (c ∷ s)))))
      ⊎ ((10 ^ 8 ≤ number_of (c ∷ s)) × Refused (parse_secondary (c ∷ s)))
unfolding parse_secondary or_usage
secondary_decided c s d = elim (dec_lt (number_of (c ∷ s)) (10 ^ 8)) [
  | yes h ↦ inl (h, ground (arith, parse_uint-eq c s d))
  | no h ↦ elim (dec_lt (number_of (c ∷ s)) (2 ^ 64)) [
    | yes k ↦ inr (omega arith, (too_many_digits, ground (arith, parse_uint-eq c s d)))
    | no k ↦ inr (omega arith, (bad_secondary, ground (arith, parse_uint-eq c s d)))
  ]
]

parse_secondary-Parses :
    (arg : Bytes) (f : Bool)
    → arg ≢ []
    → is_digits arg ≡ true
    → is_long arg f ≡ true
    → Parses arg f (parse_secondary arg)
parse_secondary-Parses [] f g d l = absurd (g refl)
parse_secondary-Parses (c ∷ s) f g d l =
    to_Parses (c ∷ s) f (parse_secondary (c ∷ s)) (elim (secondary_decided c s d) [
      | inl (h, e) ↦ inl (_, e, by_secondary g (is_digits-All (c ∷ s) d) l h)
      | inr (h, e) ↦ inr (e, λ n. elim n.fits [ inl (_, k) ↦ omega arith | inr (k, _) ↦ cc ])
    ])

atoi-eq :
    (c : ℕ) (s : Bytes)
    → is_digits (c ∷ s) ≡ true
    → atoi (c ∷ s) ≡ (
        if leb (2 ^ 63) (number_of (c ∷ s))
        then err (message number_range)
        else ok (pos (number_of (c ∷ s))))
unfolding atoi signed_digits
atoi-eq c s d =
    let (low, high) = (is_digits-All (c ∷ s) d).0 in
    let plus : (c == 0x2B) ≡ false = ground arith in
    let minus : (c == 0x2D) ≡ false = ground arith in
    rw (plus, minus, d, digits_value_lem (c ∷ s)) (ground arith)

primary_decided :
    (c : ℕ) (s : Bytes)
    → is_digits (c ∷ s) ≡ true
    → (IsDestination (number_of (c ∷ s))
        × (parse_primary (c ∷ s) ≡ ok (primary_target (number_of (c ∷ s)))))
      ⊎ ((¬ IsDestination (number_of (c ∷ s))) × Refused (parse_primary (c ∷ s)))
unfolding parse_primary or_usage destination_addr
primary_decided c s d = elim (IsDestination-decided (number_of (c ∷ s))) [
  | inl h ↦ inl (h, ground (arith, atoi-eq c s d))
  | inr h ↦ inr (h, (bad_primary, ground (arith, atoi-eq c s d)))
]

parse_primary-Parses :
    (arg : Bytes) (f : Bool)
    → arg ≢ []
    → is_digits arg ≡ true
    → is_long arg f ≡ false
    → Parses arg f (parse_primary arg)
parse_primary-Parses [] f g d l = absurd (g refl)
parse_primary-Parses (c ∷ s) f g d l =
    to_Parses (c ∷ s) f (parse_primary (c ∷ s)) (elim (primary_decided c s d) [
      | inl (h, e) ↦ inl (_, e, by_primary g (is_digits-All (c ∷ s) d) l h)
      | inr (h, e) ↦ inr (e, λ n. elim n.fits [ inl (k, _) ↦ cc | inr (_, k) ↦ h k ])
    ])

parse_target-eq :
    (c : ℕ) (s : Bytes) (f : Bool)
    → parse_target (c ∷ s) f ≡ (
        refuse (not (is_digits (c ∷ s))) (usagef not_digits)
        >> (if is_long (c ∷ s) f then parse_secondary (c ∷ s) else parse_primary (c ∷ s)))
unfolding parse_target
parse_target-eq c s f = refl

parse_target_nothing : (f : Bool) → parse_target [] f ≡ err (usagef missing_address)
unfolding parse_target
parse_target_nothing f = refl

-- The address argument of the tool is parsed to the meter that it denotes: one digit or more, of
-- which eight, or any with the flag -secondary, spell an identification number below 10 ^ 8, and
-- others a destination. Every other text is refused with a usage error.
pub parse_target-Parses :
    (arg : Bytes) (force_secondary : Bool)
    → Parses arg force_secondary (parse_target arg force_secondary)
parse_target-Parses [] f = rw (parse_target_nothing f) (
    to_Parses [] f (err (usagef missing_address))
      (inr ((missing_address, refl), λ n. n.given refl)))
parse_target-Parses (c ∷ s) f = elim (Bool-cases (is_digits (c ∷ s))) [
  | inl d ↦
      rw (parse_target-eq c s f, d)
        (if-holds (Parses (c ∷ s) f) (is_long (c ∷ s) f)
          (λ l. parse_secondary-Parses (c ∷ s) f (λ e. cc) d l)
          (λ l. parse_primary-Parses (c ∷ s) f (λ e. cc) d l))
  | inr d ↦
      rw (parse_target-eq c s f, d)
        (to_Parses (c ∷ s) f (err (usagef not_digits))
          (inr ((not_digits, refl), λ n. cc (All-is_digits (c ∷ s) n.digits))))
]
