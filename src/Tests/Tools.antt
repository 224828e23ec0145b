-- ===== src/Tests/Tools.antt =====
-- The command line tool cmd/mbusctl on concrete command lines.
use gombus.Prelude.{◌≡◌, ◌⊎◌, refl, false, none, List, [], ◌∷◌, arith}
use gombus.Prelude.Int.{pos}
use gombus.Units.{codes}
use gombus.Result.{Bytes, ok, err, sentinel, eof, ◌>>=◌}
use gombus.Client.{Client, read}
use gombus.Client.Sends.{Sends}
use gombus.Scan.{SecondaryAddress, new_secondary_filter, selection_frame}
use gombus.Scan.Probe.Garbled.{sending_ok}
use gombus.Scan.Selects.{by_maker, Selects, selection_frame-Selects}
use gombus.Mbusctl.{Writer}
use gombus.Mbusctl.Target.{secondary_target, parse_target, number_text, target_string}
use gombus.Mbusctl.Target.Parses.{Parses, parse_target-Parses}
use gombus.Mbusctl.Target.RoundTrip.{has_number, parse_target-number_text}
use gombus.Mbusctl.Bus.{Environment, Connection, BusFlags, ReadFlags}
use gombus.Mbusctl.SetAddress.{set_address, run_set_address}
use gombus.Mbusctl.SetAddress.Exchange.{IsExchange, set_address-Sends}
use gombus.Mbusctl.SetAddress.Guarded.{Changes, run_set_address-Changes}
use gombus.Mbusctl.Run.{run}
use gombus.Mbusctl.Run.ExitCodes.{Unopened, run-Unopened}
use gombus.Tests.{symbols}

abbrev bus : BusFlags
bus = record { device = codes "/dev/ttyUSB0"; timeout = pos 30; json = false }

-- A bus on which one meter acknowledges twice.
abbrev acknowledging : Connection
acknowledging = record {
  polls = read (0xE5 ∷ []) none ∷ read (0xE5 ∷ []) none ∷ [];
  sendings = sending_ok ∷ sending_ok ∷ [];
  contexts = none ∷ [];
  close_error = none;
}

-- A tool whose commands have no flags but the device.
abbrev workshop : Environment
workshop = record {
  floats = symbols;
  parse_read = λ args. ok (record { bus = bus; all = false; secondary = false; args = args });
  parse_set_address = λ args. ok (record { bus = bus; secondary = false; args = args });
  parse_scan = λ args. ok (record {
    bus = bus;
    primary = false;
    secondary = false;
    from = pos 1;
    to = pos 250;
    args = args;
  });
  dial_serial = λ device. ok acknowledging;
  dial_tcp = λ device. err (sentinel eof);
  encode_json = λ v. ok (codes "{}\n");
  format_value = λ v. codes "0";
  rfc3339 = λ t. codes "2023-11-06T08:30:00Z";
  error_text = λ e. codes "error";
}

abbrev stdout : Writer
stdout = record { written = []; error_at = λ n. none }

abbrev change_of_seven : List Bytes
change_of_seven = codes "7" ∷ codes "5" ∷ []

run_set_address-Changes_example :
    ((run_set_address workshop change_of_seven stdout).sent ≡ [])
    ⊎ Changes workshop change_of_seven (run_set_address workshop change_of_seven stdout).sent
run_set_address-Changes_example = run_set_address-Changes workshop change_of_seven stdout

abbrev on_bus : Client
on_bus = record {
  buf = [];
  polls = acknowledging.polls;
  sendings = acknowledging.sendings;
  contexts = acknowledging.contexts;
  sent = [];
}

set_address-Sends_example :
    (plan : List Bytes) × IsExchange 5 (secondary_target 12345678) plan
    × Sends plan on_bus (set_address (secondary_target 12345678) 5 on_bus)
set_address-Sends_example =
    set_address-Sends (secondary_target 12345678) 5 on_bus (has_number 12345678 (omega arith))
      (omega arith, omega arith)

-- A command line with a bad address.
abbrev bad_read : List Bytes
bad_read = codes "read" ∷ codes "300" ∷ []

run-Unopened_example : Unopened bad_read (run workshop bad_read stdout)
run-Unopened_example = run-Unopened workshop bad_read stdout

parse_target-Parses_example :
    Parses (codes "00001234") false (parse_target (codes "00001234") false)
parse_target-Parses_example = parse_target-Parses (codes "00001234") false

parse_target-number_text_example :
    parse_target (number_text (secondary_target 1234)) false ≡ ok (secondary_target 1234)
parse_target-number_text_example =
    parse_target-number_text (secondary_target 1234) (has_number 1234 (omega arith))

abbrev read_flags : ReadFlags
read_flags = record { bus = bus; all = false; secondary = false; args = codes "7" ∷ [] }

abbrev kam : SecondaryAddress
kam = record { id = 12345678; manufacturer = codes "KAM"; version = 0; medium = 0 }

selection_frame-Selects_example :
    (frame : Bytes) × ((new_secondary_filter kam >>= selection_frame) ≡ ok frame)
    × Selects kam frame
selection_frame-Selects_example = selection_frame-Selects kam (
    by_maker kam 0x4B 0x41 0x4D (omega arith) (omega arith, omega arith) (omega arith, omega arith)
      (omega arith, omega arith) refl)

target_shown : target_string (secondary_target 1234) ≡ codes "secondary 00001234"
unfolding target_string
target_shown = refl
