-- ===== src/Mbusctl/ScanCommand.antt =====
-- cmd/mbusctl/scan.go: scanning the bus and printing what answered.
use gombus.Prelude.{ℕ, Bool, ◌&&◌, List, [], ◌∷◌, ◌++◌, map, ltb, if◌then◌else◌, length}
use gombus.Units.{codes}
use gombus.Result.{
  Bytes, Result, ok, err, fault, usage, argument_count, both_scans, reversed_range, primary_scan,
  secondary_scan, ◌>>=◌, ◌>>◌, refuse,
}
use gombus.Response.Text.{hex_encode}
use gombus.Scan.{SecondaryAddress, mask}
use gombus.Scan.Probe.{scan_primary}
use gombus.Scan.Search.{scan_secondary}
use gombus.Mbusctl.{usagef, Writer, new_printer, print_all, finished}
use gombus.Mbusctl.Target.{parse_assignable_addr}
use gombus.Mbusctl.Json.{primary_scan_object, secondary_scan_object, new_json_secondary, write_json}
use gombus.Mbusctl.Bus.{
  Environment, ScanFlags, Body, Outcome, validate, parse_flags, with_client, report, checked,
}
use gombus.Mbusctl.ReadCommand.{decimal_text}

-- What is left of the flags of a scan once they are checked.
pub data ScanPlan : Type 0 where
  secondary_search : ScanPlan
  primary_sweep : ℕ → ℕ → ScanPlan

-- `return &usageError{err: err}`
unfoldable pub as_usage : Result ℕ → Result ℕ
as_usage (ok a) = ok a
as_usage (err e) = err (usage e)
as_usage (fault x) = fault x

unfoldable pub sweep_plan : ScanFlags → Result ScanPlan
unfolding as_usage parse_assignable_addr
sweep_plan flags = do
  start ← as_usage (parse_assignable_addr flags.from)
  stop ← as_usage (parse_assignable_addr flags.to)
  refuse (ltb stop start) (usagef reversed_range)
  ok (primary_sweep start stop)

-- The checks of `runScan` in their order.
unfoldable pub scan_plan : ScanFlags → Result ScanPlan
unfolding validate sweep_plan
scan_plan flags = do
  refuse (ltb 0 (length flags.args)) (usagef argument_count)
  refuse (flags.primary && flags.secondary) (usagef both_scans)
  validate flags.bus
  if flags.secondary then ok secondary_search else sweep_plan flags

abbrev pub primary_line : ℕ → Bytes
primary_line a = codes "primary " ++ (decimal_text a ++ codes "\n")

unfoldable pub secondary_line : SecondaryAddress → Bytes
unfolding mask hex_encode
secondary_line sec =
    mask sec
    ++ (codes " manufacturer "
        ++ (sec.manufacturer
            ++ (codes " version "
                ++ (decimal_text sec.version
                    ++ (codes " medium 0x" ++ (hex_encode (sec.medium ∷ []) ++ codes "\n"))))))

-- The lines for what was found, or one line where nothing was.
unfoldable pub found_lines {ℓ} : {A : Type ℓ} → Bytes → (A → Bytes) → List A → List Bytes
found_lines nothing line [] = nothing ∷ []
found_lines nothing line (a ∷ rest) = line a ∷ map line rest

module _ (env : Environment) where
  unfoldable pub print_primary : Bool → ℕ → ℕ → List ℕ → Writer → Result (Unit {0}) × Writer
  unfolding write_json found_lines print_all
  print_primary as_json from to found w =
      if as_json
      then write_json env.encode_json (primary_scan_object found) w
      else (let nothing =
            codes "no meter answered on "
            ++ (decimal_text from ++ (codes ".." ++ (decimal_text to ++ codes "\n"))) in
          finished (print_all (found_lines nothing primary_line found) (new_printer w)))

  unfoldable pub print_secondary :
      Bool → List SecondaryAddress → Writer → Result (Unit {0}) × Writer
  unfolding write_json new_json_secondary found_lines secondary_line print_all
  print_secondary as_json found w =
      if as_json
      then write_json env.encode_json (secondary_scan_object (map new_json_secondary found)) w
      else (let nothing = codes "no meter answered the secondary search\n" in
          finished (print_all (found_lines nothing secondary_line found) (new_printer w)))

  unfoldable pub scan_body : Bool → ScanPlan → Body
  unfolding print_primary print_secondary report
  scan_body as_json secondary_search c w =
      report secondary_scan (print_secondary as_json) w (scan_secondary c)
  scan_body as_json (primary_sweep from to) c w =
      report primary_scan (print_primary as_json from to) w (scan_primary from to c)

  unfoldable pub run_scan : List Bytes → Writer → Outcome
  unfolding parse_flags checked scan_plan with_client scan_body
  run_scan args = checked (parse_flags (env.parse_scan args)) (λ flags.
      checked (scan_plan flags) (λ plan. with_client env flags.bus (scan_body flags.bus.json plan)))
