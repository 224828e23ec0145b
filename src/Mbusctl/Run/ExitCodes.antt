-- ===== src/Mbusctl/Run/ExitCodes.antt =====
-- cmd/mbusctl/main.go: the exit code of a command line that does not get to the bus.
use gombus.Prelude.{◌≡◌, refl, true, Option, none, some, List, [], ◌∷◌, if-holds, if◌then◌else◌}
use gombus.Units.{codes}
use gombus.Result.{
  Bytes, Error, Message, Result, ok, err, fault, message, usage, flag_help, errors_is, refuse,
  ◌>>=◌, ◌>>◌,
}
use gombus.Response.Text.{same_bytes}
use gombus.Mbusctl.{Writer, usagef, errors_as_usage, main_code, exit_usage, usage_text, write_text}
use gombus.Mbusctl.Bus.{
  Environment, BusFlags, Body, Outcome, Transport, Connection, parse_flags, transport_of,
  open_transport, on_connection, on_transport, with_client, unopened, checked,
}
use gombus.Mbusctl.ReadCommand.{one_arg, read_args, read_body, run_read}
use gombus.Mbusctl.SetAddress.{two_args, set_address_args, set_address_body, run_set_address}
use gombus.Mbusctl.ScanCommand.{scan_plan, scan_body, run_scan}
use gombus.Mbusctl.Run.{is_help, run}
use gombus.Mbusctl.Run.Refusals.{
  Refuses, main_code-usage, one_arg-Refuses, two_args-Refuses, scan_plan-Refuses,
  transport_of-Refuses, parse_flags-Refuses,
}

abbrev IsHelp : List Bytes → Type 0
IsHelp [] = ⊥
IsHelp (name ∷ args) = is_help name ≡ true

-- How a run ends that opened no transport: it is help, or its error ends the tool with 2. Either
-- way it has sent nothing.
unfoldable pub Ends : List Bytes → Option Transport → Result (Unit {0}) → List Bytes → Type 0
Ends args (some t) r sent = Unit {0}
Ends args none (ok u) sent = IsHelp args × (sent ≡ [])
Ends args none (err e) sent = (main_code (err e) ≡ exit_usage) × (sent ≡ [])
Ends args none (fault x) sent = sent ≡ []

abbrev pub Unopened : List Bytes → Outcome → Type 0
Unopened args o = Ends args o.opened o.result o.sent

on_connection-Unopened :
    (args : List Bytes) (body : Body) (w : Writer) (t : Transport) (r : Result Connection)
    → Unopened args (on_connection body w t r)
unfolding on_connection Ends
on_connection-Unopened args body w t (ok c) = tt
on_connection-Unopened args body w t (err e) = tt
on_connection-Unopened args body w t (fault x) = tt

on_transport-Unopened :
    (args : List Bytes) (env : Environment) (body : Body) (w : Writer) (r : Result Transport)
    → Refuses r
    → Unopened args (on_transport env body w r)
unfolding on_transport Refuses Ends
on_transport-Unopened args env body w (ok t) h =
    on_connection-Unopened args body w t (open_transport env t)
on_transport-Unopened args env body w (err e) h = (h, refl)
on_transport-Unopened args env body w (fault x) h = refl

with_client-Unopened :
    (args : List Bytes) (env : Environment) (bf : BusFlags) (body : Body) (w : Writer)
    → Unopened args (with_client env bf body w)
unfolding with_client
with_client-Unopened args env bf body w =
    on_transport-Unopened args env body w (transport_of bf.device) (transport_of-Refuses bf.device)

checked-Unopened {ℓ} :
    {A : Type ℓ} (args : List Bytes) (r : Result A) (next : A → Writer → Outcome) (w : Writer)
    → Refuses r
    → ((a : A) → Unopened args (next a w))
    → Unopened args (checked r next w)
unfolding checked Refuses Ends
checked-Unopened args (ok a) next w h k = k a
checked-Unopened args (err e) next w h k = (h, refl)
checked-Unopened args (fault x) next w h k = refl

run_read-Unopened :
    (env : Environment) (all args : List Bytes) (w : Writer) → Unopened all (run_read env args w)
unfolding run_read read_args
run_read-Unopened env all args w =
    checked-Unopened all (parse_flags (env.parse_read args)) _ w (parse_flags-Refuses _) λ flags.
      checked-Unopened all (one_arg flags.secondary flags.bus flags.args) _ w
        (one_arg-Refuses flags.secondary flags.bus flags.args)
        λ t. with_client-Unopened all env flags.bus (read_body env flags t) w

run_set_address-Unopened :
    (env : Environment) (all args : List Bytes) (w : Writer)
    → Unopened all (run_set_address env args w)
unfolding run_set_address set_address_args
run_set_address-Unopened env all args w =
    checked-Unopened all (parse_flags (env.parse_set_address args)) _ w (parse_flags-Refuses _)
      λ flags.
        checked-Unopened all (two_args flags.secondary flags.bus flags.args) _ w
          (two_args-Refuses flags.secondary flags.bus flags.args)
          λ p. with_client-Unopened all env flags.bus (set_address_body env flags p.0 p.1) w

run_scan-Unopened :
    (env : Environment) (all args : List Bytes) (w : Writer) → Unopened all (run_scan env args w)
unfolding run_scan
run_scan-Unopened env all args w =
    checked-Unopened all (parse_flags (env.parse_scan args)) _ w (parse_flags-Refuses _) λ flags.
      checked-Unopened all (scan_plan flags) _ w (scan_plan-Refuses flags)
        λ plan. with_client-Unopened all env flags.bus (scan_body env flags.bus.json plan) w

unknown-Ends : (args : List Bytes) (m : Message) → Ends args none (err (usagef m)) []
unfolding Ends errors_as_usage
unknown-Ends args m = (main_code-usage (usagef m) refl, refl)

help-Ends :
    (name : Bytes) (args : List Bytes) → is_help name ≡ true → Ends (name ∷ args) none (ok tt) []
unfolding Ends
help-Ends name args h = (h, refl)

run-eq :
    (env : Environment) (name : Bytes) (args : List Bytes) (w : Writer)
    → run env (name ∷ args) w ≡ (
        if same_bytes name (codes "scan")
        then run_scan env args w
        else if same_bytes name (codes "read")
        then run_read env args w
        else if same_bytes name (codes "set-address")
        then run_set_address env args w
        else if is_help name
        then unopened (ok tt) (write_text usage_text w)
        else unopened (err (usagef gombus.Result.unknown_command)) w)
unfolding run
run-eq env name args w = refl

-- A run of the tool that tries to open no transport has sent nothing, and it is help and succeeds,
-- or it panics, or its error ends the tool with exit code 2.
pub run-Unopened :
    (env : Environment) (args : List Bytes) (w : Writer) → Unopened args (run env args w)
run-Unopened env [] w = unfold run in unknown-Ends [] gombus.Result.no_command
run-Unopened env (name ∷ args) w = rw (run-eq env name args w) (
    if-holds (Unopened (name ∷ args)) (same_bytes name (codes "scan"))
      (λ _. run_scan-Unopened env (name ∷ args) args w)
      λ _.
        if-holds (Unopened (name ∷ args)) (same_bytes name (codes "read"))
          (λ _. run_read-Unopened env (name ∷ args) args w)
          λ _.
            if-holds (Unopened (name ∷ args)) (same_bytes name (codes "set-address"))
              (λ _. run_set_address-Unopened env (name ∷ args) args w)
              λ _.
                if-holds (Unopened (name ∷ args)) (is_help name) (λ h. help-Ends name args h)
                  λ _. unknown-Ends (name ∷ args) gombus.Result.unknown_command)
