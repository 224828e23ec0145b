-- ===== src/Mbusctl/ReadCommand.antt =====
-- cmd/mbusctl/read.go: reading a meter and printing its frames.
pub mod Fits
pub mod Safe
use gombus.Prelude.{
  ℕ, ◌-◌, Bool, true, false, not, ◌&&◌, List, [], ◌∷◌, ◌++◌, String, Option, none, some, ◌==◌,
  if◌then◌else◌, length, replicate,
}
use gombus.Units.{codes}
use gombus.Encoding.{is_empty}
use gombus.Result.{
  Bytes, Error, Message, Result, ok, err, fault, out_of_range, reading_target, argument_count,
  ◌>>=◌ as ◌>>=ʳ◌,
}
use gombus.Record.{DecodedDataRecord}
use gombus.Response.{DecodedFrame}
use gombus.Response.Text.{digits_before, hex_encode, readable_status, secondary_address_string}
use gombus.Client.{Session, pure, ◌>>=◌, ◌>>◌}
use gombus.Client.Walk.{read_all_frames, read_single_frame}
use gombus.Scan.Probe.{select_secondary, read_by_secondary}
use gombus.Mbusctl.{usagef, Writer, new_printer, print_all, finished}
use gombus.Mbusctl.Target.{Target, addr_secondary_select, parse_target}
use gombus.Mbusctl.Json.{
  is_zero_time, frame_object, frame_array, new_json_frame, new_json_frames, write_json,
}
use gombus.Mbusctl.Bus.{
  Environment, BusFlags, ReadFlags, Body, Outcome, validate, parse_flags, with_client, report,
  checked,
}
use gombus.Mbusctl.SetAddress.{link_reset, secondary_of}

-- `%d` of a number that is not negative.
abbrev pub decimal_text : ℕ → Bytes
decimal_text n = digits_before 20 n []

-- `%-28s`
abbrev pub padded : Bytes → Bytes
padded s = s ++ replicate (28 - length s) 0x20

-- The argument, checked in the order of `runRead`.
unfoldable pub one_arg : Bool → BusFlags → List Bytes → Result Target
unfolding parse_target validate
one_arg secondary bf [] = err (usagef argument_count)
one_arg secondary bf (arg ∷ []) = parse_target arg secondary >>=ʳ λ t. validate bf >>=ʳ λ _. ok t
one_arg secondary bf (arg ∷ other ∷ more) = err (usagef argument_count)

unfoldable pub read_args : ReadFlags → Result Target
unfolding one_arg
read_args flags = one_arg flags.secondary flags.bus flags.args

module _ (env : Environment) where
  unfoldable pub read_once : ℕ → Session (DecodedFrame env.floats.Float)
  unfolding link_reset
  read_once addr = do link_reset addr; read_single_frame env.floats addr

  -- The part of `readFrames` behind the selection.
  unfoldable pub read_from : Bool → ℕ → Session (List (DecodedFrame env.floats.Float))
  unfolding read_once
  read_from all addr =
      if all
      then read_all_frames env.floats addr
      else (do frame ← read_once addr; pure (frame ∷ []))

  unfoldable pub read_frames : Target → Bool → Session (List (DecodedFrame env.floats.Float))
  unfolding read_from
  read_frames t all =
      if t.secondary
      then (if all
          then (do select_secondary (secondary_of t.id); read_from true addr_secondary_select)
          else (do frame ← read_by_secondary env.floats (secondary_of t.id); pure (frame ∷ [])))
      else read_from all t.primary

  unfoldable pub record_qualifiers : DecodedDataRecord env.floats.Float → Bytes
  record_qualifiers r =
      if r.storage_number == 0 && (r.tariff == 0 && r.device == 0)
      then []
      else codes " [storage "
        ++ (decimal_text r.storage_number
            ++ (codes " tariff "
                ++ (decimal_text r.tariff
                    ++ (codes " device " ++ (decimal_text r.device ++ codes "]")))))

  -- `recordValue` behind its first case, of a record with this error.
  unfoldable pub record_value_of : Option Error → DecodedDataRecord env.floats.Float → Bytes
  unfolding is_zero_time
  record_value_of (some e) r = codes "undecodable: " ++ env.error_text e
  record_value_of none r =
      if not (is_zero_time r.time)
      then env.rfc3339 r.time
      else if not (is_empty r.value_string)
      then r.value_string
      else if is_empty r.unit.unit
      then env.format_value r.value
      else env.format_value r.value ++ (0x20 ∷ r.unit.unit)

  unfoldable pub record_value : DecodedDataRecord env.floats.Float → Bytes
  unfolding record_value_of
  record_value r = record_value_of r.value_err r

  unfoldable pub record_line : DecodedDataRecord env.floats.Float → Bytes
  unfolding record_value record_qualifiers
  record_line r =
      codes "  "
      ++ (padded (codes r.function)
          ++ (0x20 ∷ (record_value r ++ (record_qualifiers r ++ codes "\n"))))

  unfoldable pub record_lines : List (DecodedDataRecord env.floats.Float) → List Bytes
  unfolding record_line
  record_lines [] = []
  record_lines (r ∷ rest) = record_line r ∷ record_lines rest

  -- The texts that `printFrame` prints, in their order.
  unfoldable pub frame_lines : DecodedFrame env.floats.Float → List Bytes
  unfolding record_lines secondary_address_string readable_status
  frame_lines f =
      (codes "meter "
        ++ (secondary_address_string f
            ++ (0x20
                ∷ (f.manufacturer
                    ++ (codes " version "
                        ++ (decimal_text f.version
                            ++ (0x20 ∷ (codes f.device_type ++ codes "\n"))))))))
      ∷ ((if is_empty f.product_name
            then []
            else (codes "product " ++ (f.product_name ++ codes "\n")) ∷ [])
          ++ ((codes "access "
                ++ (decimal_text f.access_number
                    ++ (codes " status 0x"
                        ++ (hex_encode (f.status ∷ [])
                            ++ (0x20 ∷ (readable_status f ++ codes "\n"))))))
              ∷ record_lines f.data_records))

  -- The loop of `printFrames`: an empty line in front of each frame but the first.
  unfoldable pub later_lines : List (DecodedFrame env.floats.Float) → List Bytes
  unfolding frame_lines
  later_lines [] = []
  later_lines (f ∷ rest) = codes "\n" ∷ (frame_lines f ++ later_lines rest)

  unfoldable pub frames_lines : List (DecodedFrame env.floats.Float) → List Bytes
  unfolding later_lines frame_lines
  frames_lines [] = []
  frames_lines (f ∷ rest) = frame_lines f ++ later_lines rest

  -- `writeJSON(out, newJSONFrame(frames[0]))`
  unfoldable pub print_first :
      List (DecodedFrame env.floats.Float) → Writer → Result (Unit {0}) × Writer
  unfolding new_json_frame write_json
  print_first [] w = (fault out_of_range, w)
  print_first (f ∷ rest) w =
      write_json env.encode_json (frame_object (new_json_frame env.error_text env.rfc3339 f)) w

  unfoldable pub print_frames :
      Bool → Bool → List (DecodedFrame env.floats.Float) → Writer → Result (Unit {0}) × Writer
  unfolding print_first new_json_frames write_json frames_lines print_all
  print_frames as_json all frames w =
      if as_json
      then (if all
          then write_json env.encode_json
              (frame_array (new_json_frames env.error_text env.rfc3339 frames)) w
          else print_first frames w)
      else finished (print_all (frames_lines frames) (new_printer w))

  unfoldable pub read_body : ReadFlags → Target → Body
  unfolding read_frames print_frames report
  read_body flags t c w =
      report reading_target (print_frames flags.bus.json flags.all) w (read_frames t flags.all c)

  unfoldable pub run_read : List Bytes → Writer → Outcome
  unfolding parse_flags checked read_args with_client read_body
  run_read args =
      checked (parse_flags (env.parse_read args))
        (λ flags. checked (read_args flags) (λ t. with_client env flags.bus (read_body flags t)))
