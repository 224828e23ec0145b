-- ===== src/Tests/Frames.antt =====
-- read.go and commands.go on concrete frames.
use gombus.Prelude.{◌≡◌, refl, [], ◌∷◌, ◌++◌, length, take, drop, arith}
use gombus.Result.{at, slice, Bytes, ok}
use gombus.Read.{parse_long_frame}
use gombus.Read.LongFrames.{IsLongFrame, parse_long_frame_sound}
use gombus.Encoding.{bcd_magnitude, calc_check_sum}
use gombus.Commands.{set_primary_using_secondary}
use gombus.Commands.Addressing.{set_primary_using_secondary_lem}

-- A control frame to slave 1.
abbrev control_frame : Bytes
control_frame = 0x68 ∷ 0x03 ∷ 0x03 ∷ 0x68 ∷ 0x53 ∷ 0x01 ∷ 0x51 ∷ 0xA5 ∷ 0x16 ∷ []

control_frame_parsed : parse_long_frame control_frame ≡ ok (control_frame, 9)
unfolding parse_long_frame at slice calc_check_sum
control_frame_parsed = refl

control_frame-IsLongFrame : IsLongFrame control_frame
unfolding calc_check_sum
control_frame-IsLongFrame = record {
  sized = refl;
  shortest = omega arith;
  start = refl;
  start_again = refl;
  length_again = refl;
  stop = refl;
  checksum = refl;
}

parse_long_frame_sound_example :
    IsLongFrame control_frame
    × (control_frame ++ drop 9 control_frame ≡ control_frame)
    × (9 ≡ length control_frame)
parse_long_frame_sound_example =
    parse_long_frame_sound control_frame control_frame 9 control_frame_parsed

set_primary_using_secondary_lem_example :
    (f : Bytes) × (set_primary_using_secondary 12345678 5 ≡ ok f)
    × IsLongFrame f
    × (length f ≡ 20)
    × (take 3 (drop 4 f) ≡ 0x73 ∷ 0xFD ∷ 0x51 ∷ [])
    × (bcd_magnitude (take 4 (drop 7 f)) ≡ ok 12345678)
    × (take 4 (drop 11 f) ≡ 0xFF ∷ 0xFF ∷ 0xFF ∷ 0xFF ∷ [])
    × (take 3 (drop 15 f) ≡ 0x01 ∷ 0x7A ∷ 5 ∷ [])
set_primary_using_secondary_lem_example =
    set_primary_using_secondary_lem 12345678 5 (omega arith) (omega arith, omega arith)
