-- ===== src/Mbusctl/SetAddress/Guarded.antt =====
-- cmd/mbusctl/setaddr.go: what a set-address command line lets through to the bus.
use gombus.Prelude.{ℕ, ◌≡◌, ◌⊎◌, inl, inr, refl, sym, ap, ◌∙◌, subst, Bool, if-holds, List, [], ◌∷◌}
use gombus.Result.{
  Bytes, Message, Result, ok, err, fault, setting_target, bad_new_address, flag_help, errors_is,
  >>=-eq-ok,
}
use gombus.Commands.Addressing.{IsAssignable, validate_addr_lem}
use gombus.Client.{Client, new_client, close}
use gombus.Client.Sends.{Begins, to_Begins}
use gombus.Mbusctl.{Writer}
use gombus.Mbusctl.Target.{Target, assignable_addr, atoi, or_usage, parse_target, parse_new_primary}
use gombus.Mbusctl.Target.Agrees.{addr-validate}
use gombus.Mbusctl.Target.Parses.{Denotes, by_secondary, by_primary, Parses, parse_target-Parses}
use gombus.Mbusctl.Target.RoundTrip.{IsTarget, has_number, has_address}
use gombus.Mbusctl.Bus.{
  Environment, SetAddressFlags, BusFlags, Body, Outcome, Transport, Connection, validate,
  parse_flags, transport_of, open_transport, on_connection, on_transport, with_client, report,
  checked,
}
use gombus.Mbusctl.SetAddress.{
  set_address, print_set, two_args, set_address_args, set_address_body, run_set_address,
}
use gombus.Mbusctl.SetAddress.Exchange.{IsExchange, set_address-Sends}

-- Nothing was sent, or what the body of the command sent on a new client.
abbrev SentBy : Body → Writer → Outcome → Type 0
SentBy body w o = (o.sent ≡ []) ⊎ ((c : Client) × (c.sent ≡ []) × (o.sent ≡ (body c w).client.sent))

on_connection-SentBy :
    (body : Body) (w : Writer) (t : Transport) (r : Result Connection)
    → SentBy body w (on_connection body w t r)
unfolding on_connection close
on_connection-SentBy body w t (ok conn) =
    inr (new_client conn.polls conn.sendings conn.contexts, refl, refl)
on_connection-SentBy body w t (err e) = inl refl
on_connection-SentBy body w t (fault x) = inl refl

on_transport-SentBy :
    (env : Environment) (body : Body) (w : Writer) (r : Result Transport)
    → SentBy body w (on_transport env body w r)
unfolding on_transport
on_transport-SentBy env body w (ok t) = on_connection-SentBy body w t (open_transport env t)
on_transport-SentBy env body w (err e) = inl refl
on_transport-SentBy env body w (fault x) = inl refl

report-client :
    {A : Type 0} (m : Message) (print : A → Writer → Result (Unit {0}) × Writer) (w : Writer)
    (p : Result A × Client)
    → (report m print w p).client ≡ p.1
unfolding report
report-client m print w (ok a, c) = refl
report-client m print w (err e, c) = refl
report-client m print w (fault x, c) = refl

Denotes-IsTarget : (arg : Bytes) (f : Bool) (t : Target) → Denotes arg f t → IsTarget t
Denotes-IsTarget arg f _ (by_secondary g d l h) = has_number _ h
Denotes-IsTarget arg f _ (by_primary g d l h) = has_address _ h

Parses-ok :
    (arg : Bytes) (f : Bool) (r : Result Target) (t : Target)
    → r ≡ ok t
    → Parses arg f r
    → IsTarget t
unfolding Parses
Parses-ok arg f (ok s) t e p = Denotes-IsTarget arg f t (subst (Denotes arg f) (cc) p)
Parses-ok arg f (err x) t e p = cc
Parses-ok arg f (fault x) t e p = cc

or_usage-eq-ok {ℓ} :
    {A : Type ℓ} (m : Message) (r : Result A) (a : A) → or_usage m r ≡ ok a → r ≡ ok a
unfolding or_usage
or_usage-eq-ok m (ok b) a e = e
or_usage-eq-ok m (err x) a e = cc
or_usage-eq-ok m (fault x) a e = cc

parse_new_primary-IsAssignable :
    (arg : Bytes) (a : ℕ) → parse_new_primary arg ≡ ok a → IsAssignable a
unfolding parse_new_primary
parse_new_primary-IsAssignable arg a e =
    let (value, _, q) = >>=-eq-ok (or_usage bad_new_address (atoi arg)) _ e in
    let v =
      ((addr-validate value a).1.0
        (or_usage-eq-ok bad_new_address (assignable_addr value) a q)).1 in
    (validate_addr_lem a).0.0 v

-- What the arguments of a set-address command are.
pub record Names (secondary : Bool) (args : List Bytes) (t : Target) (new_addr : ℕ) : Type 0 where
  pub current : Bytes
  pub new : Bytes
  pub both : args ≡ current ∷ new ∷ []
  pub target : parse_target current secondary ≡ ok t
  pub address : parse_new_primary new ≡ ok new_addr

two_args-Names :
    (secondary : Bool) (bf : BusFlags) (args : List Bytes) (t : Target) (a : ℕ)
    → two_args secondary bf args ≡ ok (t, a)
    → Names secondary args t a
unfolding two_args
two_args-Names secondary bf [] t a e = cc
two_args-Names secondary bf (current ∷ []) t a e = cc
two_args-Names secondary bf (current ∷ new ∷ []) t a e =
    let (t', p, e1) = >>=-eq-ok (parse_target current secondary) _ e in
    let (a', q, e2) = >>=-eq-ok (parse_new_primary new) _ e1 in
    let (u, v, e3) = >>=-eq-ok (validate bf) _ e2 in
    record { current = current; new = new; both = refl; target = cc; address = cc }
two_args-Names secondary bf (current ∷ new ∷ other ∷ more) t a e = cc

-- The command line of a set-address command that sent something, and what it sent.
pub record Changes (env : Environment) (args : List Bytes) (sent : List Bytes) : Type 0 where
  pub flags : SetAddressFlags
  pub meter : Target
  pub new_addr : ℕ
  pub plan : List Bytes
  pub parsed : env.parse_set_address args ≡ ok flags
  pub names : Names flags.secondary flags.args meter new_addr
  pub reachable : IsTarget meter
  pub assignable : IsAssignable new_addr
  pub exchange : IsExchange new_addr meter plan
  pub begins : Begins plan [] sent

-- Nothing was sent, or an address change.
abbrev ChangesOnly : Environment → List Bytes → Outcome → Type 0
ChangesOnly env args o = (o.sent ≡ []) ⊎ Changes env args o.sent

-- The command behind its flags, and behind its arguments.
abbrev on_args : Environment → SetAddressFlags → Target × ℕ → Writer → Outcome
on_args env flags p = with_client env flags.bus (set_address_body env flags p.0 p.1)

abbrev on_flags : Environment → SetAddressFlags → Writer → Outcome
on_flags env flags = checked (set_address_args flags) (on_args env flags)

client_run :
    (env : Environment) (args : List Bytes) (w : Writer) (flags : SetAddressFlags) (t : Target)
    (a : ℕ)
    → env.parse_set_address args ≡ ok flags
    → set_address_args flags ≡ ok (t, a)
    → (o : Outcome) → SentBy (set_address_body env flags t a) w o
    → ChangesOnly env args o
unfolding set_address_args set_address_body
client_run env args w flags t a p q o (inl e) = inl e
client_run env args w flags t a p q o (inr (c, fresh, e)) =
    let n = two_args-Names flags.secondary flags.bus flags.args t a q in
    let reach =
      Parses-ok n.current flags.secondary (parse_target n.current flags.secondary) t n.target
        (parse_target-Parses n.current flags.secondary) in
    let able = parse_new_primary-IsAssignable n.new a n.address in
    let (plan, x, s) = set_address-Sends t a c reach able in
    let same : o.sent ≡ (set_address t a c).1.sent =
      e
      ∙ ap (λ (d : Client). d.sent)
          (report-client setting_target (print_set env flags.bus.json t a) w (set_address t a c)) in
    inr (record {
      flags = flags;
      meter = t;
      new_addr = a;
      plan = plan;
      parsed = p;
      names = n;
      reachable = reach;
      assignable = able;
      exchange = x;
      begins =
          subst (λ b. Begins plan b o.sent) fresh
            (subst (Begins plan c.sent) (sym same) (to_Begins plan c (set_address t a c) s));
    })

args_run :
    (env : Environment) (args : List Bytes) (w : Writer) (flags : SetAddressFlags)
    (r : Result (Target × ℕ))
    → env.parse_set_address args ≡ ok flags
    → set_address_args flags ≡ r
    → ChangesOnly env args (checked r (on_args env flags) w)
unfolding checked with_client
args_run env args w flags (ok (t, a)) p q =
    client_run env args w flags t a p q
      (on_transport env (set_address_body env flags t a) w (transport_of flags.bus.device))
      (on_transport-SentBy env (set_address_body env flags t a) w (transport_of flags.bus.device))
args_run env args w flags (err e) p q = inl refl
args_run env args w flags (fault x) p q = inl refl

flags_run :
    (env : Environment) (args : List Bytes) (w : Writer) (r : Result SetAddressFlags)
    → env.parse_set_address args ≡ r
    → ChangesOnly env args (checked (parse_flags r) (on_flags env) w)
unfolding checked parse_flags
flags_run env args w (ok flags) p = args_run env args w flags (set_address_args flags) p refl
flags_run env args w (err e) p =
    if-holds (λ r. ChangesOnly env args (checked r (on_flags env) w)) (errors_is e flag_help)
      (λ _. inl refl) λ _. inl refl
flags_run env args w (fault x) p = inl refl

-- Whatever the connection, the flag parser and the output do: a set-address command that sends
-- anything was given two arguments that parse, the first as a destination or a number of eight
-- digits and the second as an address from 1 to 250, and it has sent the frames of that address
-- change in their order, or a first part of them.
pub run_set_address-Changes :
    (env : Environment) (args : List Bytes) (w : Writer)
    → ((run_set_address env args w).sent ≡ []) ⊎ Changes env args (run_set_address env args w).sent
unfolding run_set_address
run_set_address-Changes env args w = flags_run env args w (env.parse_set_address args) refl
