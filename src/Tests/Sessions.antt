-- ===== src/Tests/Sessions.antt =====
-- The client of gombus.go and read.go on concrete scripts.
use gombus.Prelude.{ℕ, length, ◌≡◌, refl, none, some, inl, inr, List, [], ◌∷◌, arith}
use gombus.Result.{Bytes, ok, IsSafe}
use gombus.Encoding.{calc_check_sum}
use gombus.Read.LongFrames.{IsLongFrame}
use gombus.Client.{Client, read, timed_out}
use gombus.Client.Fill.{read_long_frame, read_single_char_frame}
use gombus.Client.Fill.Accounts.{ahead, Accounted, delivered, read_long_frame-Accounted}
use gombus.Client.Fill.Streams.{AllReads, read_long_frame-stream}
use gombus.Client.Clock.{Round, frame_deadline, polls_of}
use gombus.Client.Clock.Deadlines.{timed_reads-IsSafe}
use gombus.Client.Walk.{read_all_frames}
use gombus.Client.Walk.Answers.{Answers, read_all_frames-Answers}
use gombus.Prelude.Int.{ℤ, pos, negsuc}
use gombus.Units.{codes}
use gombus.Transports.{Port, SerialDriver, serial_conn, dial_serial}
use gombus.Transports.Armed.{Arms, dial_serial-Arms}
use gombus.Tests.{symbols}

-- The response of meter 12345678 of KAM with a volume of 5 litres.
abbrev pub response : Bytes
response =
    0x68 ∷ 0x13 ∷ 0x13 ∷ 0x68 ∷ 0x08 ∷ 0x05 ∷ 0x72 ∷ 0x78 ∷ 0x56 ∷ 0x34 ∷ 0x12 ∷ 0x2D ∷ 0x2C ∷ 0x01
    ∷ 0x07 ∷ 0x55 ∷ 0x00 ∷ 0x00 ∷ 0x00 ∷ 0x02 ∷ 0x13 ∷ 0x05 ∷ 0x00 ∷ 0x63 ∷ 0x16 ∷ []

pub response-IsLongFrame : IsLongFrame response
unfolding calc_check_sum
response-IsLongFrame = record {
  sized = refl;
  shortest = omega arith;
  start = refl;
  start_again = refl;
  length_again = refl;
  stop = refl;
  checksum = refl;
}

-- The response in two reads, with a silent round between them and an acknowledgement behind it.
abbrev in_two_reads : Client
in_two_reads = record {
  buf = 0x68 ∷ [];
  polls =
      read (0x13 ∷ 0x13 ∷ 0x68 ∷ 0x08 ∷ []) none
      ∷ read [] (some timed_out)
      ∷ read
          (0x05 ∷ 0x72 ∷ 0x78 ∷ 0x56 ∷ 0x34 ∷ 0x12 ∷ 0x2D ∷ 0x2C ∷ 0x01 ∷ 0x07 ∷ 0x55 ∷ 0x00 ∷ 0x00
            ∷ 0x00 ∷ 0x02 ∷ 0x13 ∷ 0x05 ∷ 0x00 ∷ 0x63 ∷ 0x16 ∷ 0xE5 ∷ [])
          none
      ∷ [];
  sendings = [];
  contexts = [];
  sent = [];
}

read_long_frame-stream_example :
    ((read_long_frame in_two_reads).0 ≡ ok response)
    × (ahead (read_long_frame in_two_reads).1 ≡ 0xE5 ∷ [])
unfolding AllReads delivered
read_long_frame-stream_example =
    read_long_frame-stream in_two_reads response (0xE5 ∷ []) response-IsLongFrame tt refl

read_long_frame-Accounted_example : Accounted in_two_reads (read_long_frame in_two_reads)
read_long_frame-Accounted_example = read_long_frame-Accounted in_two_reads

-- A silent round, and one that finds the two seconds of the read over.
abbrev late_rounds : List Round
late_rounds =
    record {
      context = none;
      now = 100;
      now_again = 100;
      set_deadline = λ until. none;
      bytes = [];
      error = none;
    }
    ∷ record {
      context = none;
      now = 2100;
      now_again = 2100;
      set_deadline = λ until. none;
      bytes = [];
      error = none;
    }
    ∷ []

abbrev late_client : Client
late_client = record {
  buf = 0x68 ∷ [];
  polls = polls_of (frame_deadline 100 none) late_rounds;
  sendings = [];
  contexts = [];
  sent = [];
}

timed_reads-IsSafe_example :
    IsSafe (read_long_frame late_client).0 × IsSafe (read_single_char_frame late_client).0
timed_reads-IsSafe_example =
    timed_reads-IsSafe 100 none late_rounds late_client refl (inr (inl (omega arith)))

-- A client whose slave acknowledges the reset and answers with one frame.
abbrev one_frame : Client
one_frame = record {
  buf = [];
  polls = read (0xE5 ∷ []) none ∷ read response none ∷ [];
  sendings =
      record { context_error = none; deadline_error = none; write_error = none }
      ∷ record { context_error = none; deadline_error = none; write_error = none }
      ∷ [];
  contexts = none ∷ [];
  sent = [];
}

read_all_frames-Answers_example : Answers symbols 5 one_frame (read_all_frames symbols 5 one_frame)
read_all_frames-Answers_example = read_all_frames-Answers symbols 5 one_frame

-- A driver whose port keeps the timeouts it was given.
abbrev log_port : Port (List ℤ)
log_port = record {
  read = λ size s. (([], none), s);
  write = λ b s. ((length b, none), s);
  set_read_timeout = λ timeout s. (none, timeout ∷ s);
  close = λ s. (none, s);
}

abbrev log_driver : SerialDriver
log_driver = record {
  State = List ℤ;
  Parity = ℕ;
  StopBits = ℕ;
  even_parity = 2;
  one_stop_bit = 0;
  no_timeout = negsuc 0;
  open_port = λ device mode. ok log_port;
}

dial_serial-Arms_example :
    (port : Port (List ℤ)) × (ok log_port ≡ ok port)
    × Arms log_driver port (serial_conn log_driver log_port)
unfolding dial_serial
dial_serial-Arms_example =
    dial_serial-Arms log_driver (codes "/dev/ttyUSB0") (serial_conn log_driver log_port) refl

-- The read of `late_client` has 30 ms left in this round.
armed_timeout_of :
    ((serial_conn log_driver log_port).set_read_deadline 2070 (some 2100) []).1 ≡ pos 30 ∷ []
unfolding serial_conn
armed_timeout_of = refl

-- Past the deadline the port only polls.
armed_timeout_past :
    ((serial_conn log_driver log_port).set_read_deadline 2170 (some 2100) []).1 ≡ pos 0 ∷ []
unfolding serial_conn
armed_timeout_past = refl
