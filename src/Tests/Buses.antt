-- ===== src/Tests/Buses.antt =====
-- The search of scan.go on a bus of two slaves.
use mathlib.Core.List.{Perm}
use gombus.Prelude.{◌≡◌, inl, refl, none, List, [], ◌∷◌, ◌++◌, arith}
use gombus.Result.{Bytes, ok}
use gombus.Frame.{single_character_frame}
use gombus.Encoding.{calc_check_sum}
use gombus.Read.LongFrames.{IsLongFrame}
use gombus.Client.{Client, Poll, read, deadline_passed}
use gombus.Scan.{SecondaryAddress, secondary_digits, secondary_from_header}
use gombus.Scan.Search.{Search, scan_secondary_digit, scan_secondary}
use gombus.Scan.Search.Restores.{IsWild, Leaves, scan_secondary_digit-Leaves}
use gombus.Scan.Search.Bus.{Slave, IsSlave, IsHeard, selected, Puts, visits, on_line}
use gombus.Scan.Search.Bus.Steps.{addresses}
use gombus.Scan.Search.Bus.Finds.{scan_secondary-Finds}
use gombus.Tests.Sessions.{response, response-IsLongFrame}

-- Meter 12345678 of KAM, and meter 12345671.
abbrev first_meter : Slave
first_meter = record {
  address = record {
    id = 12345678;
    manufacturer = 0x4B ∷ 0x41 ∷ 0x4D ∷ [];
    version = 0x01;
    medium = 0x07;
  };
  response = response;
}

abbrev second_response : Bytes
second_response =
    0x68 ∷ 0x13 ∷ 0x13 ∷ 0x68 ∷ 0x08 ∷ 0x05 ∷ 0x72 ∷ 0x71 ∷ 0x56 ∷ 0x34 ∷ 0x12 ∷ 0x2D ∷ 0x2C ∷ 0x01
    ∷ 0x07 ∷ 0x55 ∷ 0x00 ∷ 0x00 ∷ 0x00 ∷ 0x02 ∷ 0x13 ∷ 0x05 ∷ 0x00 ∷ 0x5C ∷ 0x16 ∷ []

abbrev second_meter : Slave
second_meter = record {
  address = record {
    id = 12345671;
    manufacturer = 0x4B ∷ 0x41 ∷ 0x4D ∷ [];
    version = 0x01;
    medium = 0x07;
  };
  response = second_response;
}

second_response-IsLongFrame : IsLongFrame second_response
unfolding calc_check_sum
second_response-IsLongFrame = record {
  sized = refl;
  shortest = omega arith;
  start = refl;
  start_again = refl;
  length_again = refl;
  stop = refl;
  checksum = refl;
}

first_header : secondary_from_header response ≡ ok first_meter.address
unfolding secondary_from_header gombus.Response.decode_manufacturer gombus.Result.at
    gombus.Result.slice gombus.Response.serial_of gombus.Encoding.bcd_magnitude
    gombus.Encoding.bcd_digits_loop
first_header = refl

second_header : secondary_from_header second_response ≡ ok second_meter.address
unfolding secondary_from_header gombus.Response.decode_manufacturer gombus.Result.at
    gombus.Result.slice gombus.Response.serial_of gombus.Encoding.bcd_magnitude
    gombus.Encoding.bcd_digits_loop
second_header = refl

first_meter-IsSlave : IsSlave first_meter
first_meter-IsSlave = record {
  number = omega arith;
  whole = response-IsLongFrame;
  header = first_header;
}

second_meter-IsSlave : IsSlave second_meter
second_meter-IsSlave = record {
  number = omega arith;
  whole = second_response-IsLongFrame;
  header = second_header;
}

abbrev two_meters : List Slave
two_meters = first_meter ∷ second_meter ∷ []

-- Two acknowledgements are read as two bytes.
abbrev acknowledged : List Slave → List Poll
acknowledged [] = deadline_passed ∷ []
acknowledged (s ∷ []) = read (single_character_frame ∷ []) none ∷ []
acknowledged (s ∷ (t ∷ slaves)) =
    read (single_character_frame ∷ (single_character_frame ∷ [])) none ∷ []

acknowledged-IsHeard : (slaves : List Slave) → IsHeard slaves (acknowledged slaves)
acknowledged-IsHeard [] = refl
acknowledged-IsHeard (s ∷ []) = refl
acknowledged-IsHeard (s ∷ (t ∷ slaves)) =
    (single_character_frame ∷ (single_character_frame ∷ []), inl (refl, omega arith), refl)

abbrev line_of_meters : Bytes → List Poll
line_of_meters m = acknowledged (selected m two_meters)

scan_secondary-Finds_example :
    (found : List SecondaryAddress) × (frames : List Bytes) × Perm found (addresses two_meters)
    × Puts (visits two_meters secondary_digits []) frames
    × (scan_secondary (on_line line_of_meters (visits two_meters secondary_digits []) [])
        ≡ (ok found, on_line line_of_meters [] ([] ++ frames)))
scan_secondary-Finds_example =
    scan_secondary-Finds two_meters line_of_meters
      (λ m. acknowledged-IsHeard (selected m two_meters))
      (first_meter-IsSlave, (second_meter-IsSlave, tt)) ((λ e. omega (arith, e), tt), (tt, tt)) []

-- The search of the last digit below 1234567: the two meters have 1 and 8 there.
abbrev last_digit : Search
last_digit = (0x31 ∷ 0x32 ∷ 0x33 ∷ 0x34 ∷ 0x35 ∷ 0x36 ∷ 0x37 ∷ 0x46 ∷ [], [])

abbrev asked_meters : Client
asked_meters =
    on_line line_of_meters
      (visits two_meters 1 (0x31 ∷ 0x32 ∷ 0x33 ∷ 0x34 ∷ 0x35 ∷ 0x36 ∷ 0x37 ∷ [])) []

scan_secondary_digit-Leaves_example :
    Leaves last_digit (scan_secondary_digit 1 7 last_digit asked_meters)
unfolding IsWild
scan_secondary_digit-Leaves_example =
    scan_secondary_digit-Leaves 1 7 last_digit asked_meters (refl, tt)

-- It succeeds, with the two addresses.
last_digit_run :
    (scan_secondary_digit 1 7 last_digit asked_meters).0
    ≡ ok (last_digit.0, second_meter.address ∷ (first_meter.address ∷ []))
unfolding scan_secondary_digit visits gombus.Client.check_context gombus.Scan.Probe.select_mask
    gombus.Scan.mask_to_bcd gombus.Scan.selection_frame gombus.Commands.seal
    gombus.Frame.LongFrame.set_length gombus.Frame.LongFrame.set_checksum
    gombus.Result.index_from_end gombus.Result.slice gombus.Client.write_frame gombus.Scan.mask
    gombus.Response.Text.digits_before gombus.Result.errors_is mathlib.Core.Bool.decide
    gombus.Scan.Probe.read_secondary_address gombus.Commands.request_ud2
    gombus.Frame.ShortFrame.set_checksum gombus.Client.Fill.after_fill gombus.Client.Fill.fill
    gombus.Client.Fill.fill_from gombus.Client.Fill.filled gombus.Client.Fill.wrap_fill_err
    gombus.Client.take_context gombus.Client.take_sending gombus.Client.write_outcome
    gombus.Encoding.bcd_digits gombus.Encoding.bcd_digits_loop gombus.Encoding.bcd_magnitude
    gombus.Encoding.bcd_step calc_check_sum gombus.Encoding.check_sum_from
    gombus.Read.parse_long_frame gombus.Response.decode_manufacturer gombus.Response.serial_of
    gombus.Result.at gombus.Result.set_at gombus.Scan.Probe.after_take gombus.Scan.Probe.answer_loop
    gombus.Scan.Probe.classify gombus.Scan.Probe.probe_response gombus.Scan.Probe.send_select
    gombus.Scan.Probe.take_buffered_frame gombus.Scan.Probe.take_from gombus.Scan.Probe.take_parsed
    selected gombus.Scan.Search.Bus.visits_from gombus.Scan.Search.after_select
    gombus.Scan.Search.scan_digits gombus.Scan.Search.take_address gombus.Scan.is_bus_noise
    gombus.Scan.mask_nibble gombus.Scan.mask_pairs secondary_from_header
last_digit_run = refl
