-- ===== src/Mbusctl/Run/Refusals.antt =====
-- cmd/mbusctl/main.go: a check that a command line does not pass ends the tool with 2.
use gombus.Prelude.{
  ℕ, ◌≡◌, inl, inr, refl, Bool, true, false, not, ◌&&◌, List, [], ◌∷◌, ltb, length, if-holds,
  Bool-cases,
}
use gombus.Units.{codes}
use gombus.Encoding.{is_empty}
use gombus.Result.{
  Bytes, Error, Message, Result, ok, err, fault, usage, flag_help, errors_is, refuse, ◌>>=◌,
}
use gombus.Response.Text.{contains}
use gombus.Mbusctl.{usagef, errors_as_usage, main_code, exit_usage}
use gombus.Mbusctl.Target.{
  atoi, assignable_addr, or_usage, parse_assignable_addr, parse_target, parse_new_primary, Target,
}
use gombus.Mbusctl.Target.Parses.{Parses, parse_target-Parses}
use gombus.Mbusctl.Bus.{BusFlags, ScanFlags, is_positive, validate, parse_flags, transport_of}
use gombus.Mbusctl.ReadCommand.{one_arg}
use gombus.Mbusctl.SetAddress.{two_args}
use gombus.Mbusctl.ScanCommand.{as_usage, sweep_plan, scan_plan}

-- What a check returns in place of a value ends the tool with 2.
unfoldable pub Refuses {ℓ} : {A : Type ℓ} → Result A → Type 0
Refuses (ok a) = Unit {0}
Refuses (err e) = main_code (err e) ≡ exit_usage
Refuses (fault x) = Unit {0}

pub main_code-usage : (e : Error) → errors_as_usage e ≡ true → main_code (err e) ≡ exit_usage
unfolding main_code
main_code-usage e h =
    if-holds (λ (n : ℕ). n ≡ exit_usage) (errors_is e flag_help) (λ _. refl) λ _. rw h

Refuses-bind {ℓ μ} :
    {A : Type ℓ} {B : Type μ} (r : Result A) (next : A → Result B)
    → Refuses r
    → ((a : A) → Refuses (next a))
    → Refuses (r >>= next)
unfolding Refuses
Refuses-bind (ok a) next h k = k a
Refuses-bind (err e) next h k = h
Refuses-bind (fault x) next h k = tt

pub refuse-Refuses : (t : Bool) (m : Message) → Refuses (refuse t (usagef m))
unfolding Refuses errors_as_usage
refuse-Refuses true m = main_code-usage (usagef m) refl
refuse-Refuses false m = tt

pub or_usage-Refuses {ℓ} : {A : Type ℓ} (m : Message) (r : Result A) → Refuses (or_usage m r)
unfolding or_usage Refuses errors_as_usage
or_usage-Refuses m (ok a) = tt
or_usage-Refuses m (err e) = main_code-usage (usagef m) refl
or_usage-Refuses m (fault x) = tt

pub as_usage-Refuses : (r : Result ℕ) → Refuses (as_usage r)
unfolding as_usage Refuses errors_as_usage
as_usage-Refuses (ok a) = tt
as_usage-Refuses (err e) = main_code-usage (usage e) refl
as_usage-Refuses (fault x) = tt

pub Parses-Refuses : (arg : Bytes) (f : Bool) (r : Result Target) → Parses arg f r → Refuses r
unfolding Parses Refuses
Parses-Refuses arg f (ok t) p = tt
Parses-Refuses arg f (err e) p = main_code-usage e p.0
Parses-Refuses arg f (fault x) p = tt

pub parse_target-Refuses : (arg : Bytes) (f : Bool) → Refuses (parse_target arg f)
parse_target-Refuses arg f = Parses-Refuses arg f (parse_target arg f) (parse_target-Parses arg f)

pub parse_new_primary-Refuses : (arg : Bytes) → Refuses (parse_new_primary arg)
unfolding parse_new_primary
parse_new_primary-Refuses arg =
    Refuses-bind (or_usage _ (atoi arg)) _ (or_usage-Refuses _ (atoi arg))
      λ v. or_usage-Refuses _ (assignable_addr v)

pub validate-Refuses : (bf : BusFlags) → Refuses (validate bf)
unfolding validate
validate-Refuses bf =
    Refuses-bind (refuse (is_empty bf.device) _) _ (refuse-Refuses (is_empty bf.device) _)
      λ _. refuse-Refuses (not (is_positive bf.timeout)) _

accepts {ℓ} : {A : Type ℓ} (a : A) → Refuses (ok a)
unfolding Refuses
accepts a = tt

pub usagef-Refuses {ℓ} : (A : Type ℓ) (m : Message) → Refuses {A = A} (err (usagef m))
unfolding Refuses errors_as_usage
usagef-Refuses A m = main_code-usage (usagef m) refl

pub one_arg-Refuses :
    (secondary : Bool) (bf : BusFlags) (args : List Bytes) → Refuses (one_arg secondary bf args)
unfolding one_arg
one_arg-Refuses secondary bf [] = usagef-Refuses _ _
one_arg-Refuses secondary bf (arg ∷ []) =
    Refuses-bind (parse_target arg secondary) _ (parse_target-Refuses arg secondary)
      λ t. Refuses-bind (validate bf) _ (validate-Refuses bf) λ _. accepts t
one_arg-Refuses secondary bf (arg ∷ other ∷ more) = usagef-Refuses _ _

pub two_args-Refuses :
    (secondary : Bool) (bf : BusFlags) (args : List Bytes) → Refuses (two_args secondary bf args)
unfolding two_args
two_args-Refuses secondary bf [] = usagef-Refuses _ _
two_args-Refuses secondary bf (current ∷ []) = usagef-Refuses _ _
two_args-Refuses secondary bf (current ∷ new ∷ []) =
    Refuses-bind (parse_target current secondary) _ (parse_target-Refuses current secondary) λ t.
      Refuses-bind (parse_new_primary new) _ (parse_new_primary-Refuses new)
        λ a. Refuses-bind (validate bf) _ (validate-Refuses bf) λ _. accepts (t, a)
two_args-Refuses secondary bf (current ∷ new ∷ other ∷ more) = usagef-Refuses _ _

pub sweep_plan-Refuses : (flags : ScanFlags) → Refuses (sweep_plan flags)
unfolding sweep_plan
sweep_plan-Refuses flags =
    Refuses-bind (as_usage (parse_assignable_addr flags.from)) _ (as_usage-Refuses _) λ start.
      Refuses-bind (as_usage (parse_assignable_addr flags.to)) _ (as_usage-Refuses _) λ stop.
        Refuses-bind (refuse (ltb stop start) _) _ (refuse-Refuses (ltb stop start) _)
          λ _. accepts _

pub scan_plan-Refuses : (flags : ScanFlags) → Refuses (scan_plan flags)
unfolding scan_plan
scan_plan-Refuses flags =
    Refuses-bind (refuse (ltb 0 (length flags.args)) _) _ (refuse-Refuses _ _) λ _.
      Refuses-bind (refuse (flags.primary && flags.secondary) _) _ (refuse-Refuses _ _) λ _.
        Refuses-bind (validate flags.bus) _ (validate-Refuses flags.bus)
          λ _. if-holds Refuses flags.secondary (λ _. accepts _) λ _. sweep_plan-Refuses flags

pub transport_of-Refuses : (device : Bytes) → Refuses (transport_of device)
unfolding transport_of
transport_of-Refuses device =
    if-holds Refuses (contains device (codes "/")) (λ _. accepts _)
      λ _.
        if-holds Refuses (not (contains device (codes ":"))) (λ _. usagef-Refuses _ _)
          λ _. accepts _

pub parse_flags-Refuses {ℓ} : {A : Type ℓ} (r : Result A) → Refuses (parse_flags r)
unfolding parse_flags Refuses errors_as_usage
parse_flags-Refuses (ok a) = tt
parse_flags-Refuses (err e) = elim (Bool-cases (errors_is e flag_help)) [
  | inl h ↦ rw h (unfold main_code in rw h)
  | inr h ↦ rw h (main_code-usage (usage e) refl)
]
parse_flags-Refuses (fault x) = tt
