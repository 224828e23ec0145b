-- ===== src/Tests/Scans.antt =====
-- The scans of scan.go on concrete scripts.
use gombus.Prelude.{◌≡◌, refl, none, [], ◌∷◌, arith}
use gombus.Result.{Bytes, ok, slice, index_from_end}
use gombus.Encoding.{calc_check_sum}
use gombus.Client.{Client, read, deadline_passed}
use gombus.Scan.{SecondaryFilter, selection_frame, mask_to_bcd}
use gombus.Scan.Probe.{silence, send_select, scan_primary}
use gombus.Scan.Probe.Ranges.{IsSweep, scan_primary-IsSweep}
use gombus.Scan.Probe.Garbled.{sending_ok, answered, buffering, send_select_cut_short}

-- The mask of the test of maskToBCD.
mask_to_bcd_of_digits :
    mask_to_bcd (0x31 ∷ 0x32 ∷ 0x33 ∷ 0x34 ∷ 0x35 ∷ 0x36 ∷ 0x46 ∷ 0x46 ∷ [])
    ≡ ok (0xFF ∷ 0x56 ∷ 0x34 ∷ 0x12 ∷ [])
unfolding mask_to_bcd
mask_to_bcd_of_digits = refl

-- The selection of every slave.
abbrev everyone : SecondaryFilter
everyone = record {
  id = 0xFF ∷ 0xFF ∷ 0xFF ∷ 0xFF ∷ [];
  manufacturer = 0xFF ∷ 0xFF ∷ [];
  version = 0xFF;
  medium = 0xFF;
}

abbrev everyone_frame : Bytes
everyone_frame =
    0x68 ∷ 0x0B ∷ 0x0B ∷ 0x68 ∷ 0x53 ∷ 0xFD ∷ 0x52 ∷ 0xFF ∷ 0xFF ∷ 0xFF ∷ 0xFF ∷ 0xFF ∷ 0xFF ∷ 0xFF
    ∷ 0xFF ∷ 0x9A ∷ 0x16 ∷ []

everyone_selected : selection_frame everyone ≡ ok everyone_frame
unfolding selection_frame gombus.Commands.seal gombus.Frame.LongFrame.set_length
    gombus.Frame.LongFrame.set_checksum index_from_end slice calc_check_sum
everyone_selected = refl

-- Two acknowledgements that overlap.
send_select_cut_short_example :
    send_select everyone (answered (0xE4 ∷ []) [] [] [] [])
    ≡ (ok silence, buffering (0xE4 ∷ []) [] [] [] (everyone_frame ∷ []))
send_select_cut_short_example =
    send_select_cut_short everyone everyone_frame 0xE4 [] [] [] [] [] everyone_selected
      (λ e. omega arith) (omega arith)

-- Of the slaves 1 and 2, the second one acknowledges its reset and its request.
abbrev two_addresses : Client
two_addresses = record {
  buf = [];
  polls = deadline_passed ∷ deadline_passed ∷ read (0xE5 ∷ []) none ∷ read (0xE5 ∷ []) none ∷ [];
  sendings = sending_ok ∷ sending_ok ∷ sending_ok ∷ sending_ok ∷ [];
  contexts = none ∷ none ∷ [];
  sent = [];
}

scan_primary-IsSweep_example : IsSweep 1 2 (scan_primary 1 2 two_addresses)
scan_primary-IsSweep_example = scan_primary-IsSweep 1 2 two_addresses
