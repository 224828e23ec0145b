-- ===== src/Mbusctl/SetAddress.antt =====
-- cmd/mbusctl/setaddr.go: writing a primary address into a meter.
pub mod Exchange
pub mod Guarded
use gombus.Prelude.{ℕ, Bool, true, false, List, [], ◌∷◌, ◌++◌, if◌then◌else◌, some, none}
use gombus.Units.{codes}
use gombus.Result.{
  Bytes, Error, Message, Result, ok, err, fault, noted, setting_target, building_frame,
  no_write_answer, no_reset_answer, argument_count, ◌>>=◌ as ◌>>=ʳ◌,
}
use gombus.Response.Text.{digits_before}
use gombus.Commands.{snd_nke, set_primary_using_primary}
use gombus.Client.{Client, Session, pure, lift, and_then, ◌>>=◌, ◌>>◌, write_frame}
use gombus.Client.Fill.{read_single_char_frame}
use gombus.Scan.{SecondaryAddress}
use gombus.Scan.Probe.{select_secondary}
use gombus.Mbusctl.{usagef, Writer, new_printer, printf, finished}
use gombus.Mbusctl.Target.{
  Target, addr_secondary_select, target_string, parse_target, parse_new_primary,
}
use gombus.Mbusctl.Json.{write_json, set_address_object}
use gombus.Mbusctl.Bus.{
  Environment, SetAddressFlags, BusFlags, Body, Outcome, validate, parse_flags, with_client, report,
  checked, note_error,
}

-- The error of a step of a session with a text in front.
unfoldable pub note_step {ℓ} : {A : Type ℓ} → Message → Result A × Client → Result A × Client
unfolding note_error
note_step m (r, c) = (note_error m r, c)

-- The context of the acknowledgement is part of the script.
unfoldable pub link_reset : ℕ → Session (Unit {0})
unfolding note_step
link_reset addr = do
  reset ← lift (snd_nke addr)
  write_frame reset
  _ ← λ c. note_step no_reset_answer (read_single_char_frame c)
  pure tt

-- `gombus.SecondaryAddress{ID: id}`
abbrev pub secondary_of : ℕ → SecondaryAddress
secondary_of id = record { id = id; manufacturer = []; version = 0; medium = 0 }

-- The first step of `setAddress`: the address to write to.
unfoldable pub reach_target : Target → Session ℕ
unfolding link_reset
reach_target t =
    if t.secondary
    then (do select_secondary (secondary_of t.id); pure addr_secondary_select)
    else (do link_reset t.primary; pure t.primary)

unfoldable pub set_address : Target → ℕ → Session (Unit {0})
unfolding reach_target note_step note_error
set_address t new_addr = do
  addr ← reach_target t
  frame ← lift (note_error building_frame (set_primary_using_primary addr new_addr))
  write_frame frame
  _ ← λ c. note_step no_write_answer (read_single_char_frame c)
  pure tt

-- What is printed once the address is set.
unfoldable pub print_set :
    Environment → Bool → Target → ℕ → Unit {0} → Writer → Result (Unit {0}) × Writer
unfolding write_json target_string printf
print_set env json t new_addr u w =
    if json
    then write_json env.encode_json (set_address_object new_addr) w
    else finished (
        printf
          (target_string t
            ++ (codes " now answers at primary " ++ (digits_before 20 new_addr [] ++ codes "\n")))
          (new_printer w))

-- The arguments, checked in the order of `runSetAddress`.
unfoldable pub two_args : Bool → BusFlags → List Bytes → Result (Target × ℕ)
unfolding parse_target parse_new_primary validate
two_args secondary bf [] = err (usagef argument_count)
two_args secondary bf (current ∷ []) = err (usagef argument_count)
two_args secondary bf (current ∷ new ∷ []) = parse_target current secondary >>=ʳ λ t.
    parse_new_primary new >>=ʳ λ a. validate bf >>=ʳ λ _. ok (t, a)
two_args secondary bf (current ∷ new ∷ other ∷ more) = err (usagef argument_count)

unfoldable pub set_address_args : SetAddressFlags → Result (Target × ℕ)
unfolding two_args
set_address_args flags = two_args flags.secondary flags.bus flags.args

unfoldable pub set_address_body : Environment → SetAddressFlags → Target → ℕ → Body
unfolding set_address print_set report
set_address_body env flags t new_addr c w =
    report setting_target (print_set env flags.bus.json t new_addr) w (set_address t new_addr c)

unfoldable pub run_set_address : Environment → List Bytes → Writer → Outcome
unfolding parse_flags checked set_address_args with_client set_address_body
run_set_address env args = checked (parse_flags (env.parse_set_address args)) (λ flags.
    checked (set_address_args flags)
      (λ p. with_client env flags.bus (set_address_body env flags p.0 p.1)))
