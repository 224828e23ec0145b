-- ===== src/Mbusctl/Run.antt =====
-- cmd/mbusctl/main.go: the choice of the command.
pub mod Refusals
pub mod ExitCodes
use gombus.Prelude.{ℕ, Bool, true, false, ◌||◌, List, [], ◌∷◌, if◌then◌else◌}
use gombus.Units.{codes}
use gombus.Result.{Bytes, Result, ok, err, no_command, unknown_command}
use gombus.Response.Text.{same_bytes}
use gombus.Mbusctl.{usagef, Writer, write_text, usage_text, main_code}
use gombus.Mbusctl.Bus.{Environment, Outcome, unopened}
use gombus.Mbusctl.ReadCommand.{run_read}
use gombus.Mbusctl.SetAddress.{run_set_address}
use gombus.Mbusctl.ScanCommand.{run_scan}

abbrev pub is_help : Bytes → Bool
is_help name =
    same_bytes name (codes "help")
    || (same_bytes name (codes "-h")
        || (same_bytes name (codes "-help") || same_bytes name (codes "--help")))

-- `run`; the usage text of a bad command line goes to stderr.
unfoldable pub run : Environment → List Bytes → Writer → Outcome
unfolding same_bytes write_text run_scan run_read run_set_address
run env [] w = unopened (err (usagef no_command)) w
run env (name ∷ args) w =
    if same_bytes name (codes "scan")
    then run_scan env args w
    else if same_bytes name (codes "read")
    then run_read env args w
    else if same_bytes name (codes "set-address")
    then run_set_address env args w
    else if is_help name
    then unopened (ok tt) (write_text usage_text w)
    else unopened (err (usagef unknown_command)) w

-- `mainCode`
unfoldable pub exit_code : Environment → List Bytes → Writer → ℕ
unfolding run main_code
exit_code env args w = main_code (run env args w).result
