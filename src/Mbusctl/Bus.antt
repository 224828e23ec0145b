-- ===== src/Mbusctl/Bus.antt =====
-- cmd/mbusctl/main.go: the flags that the commands share, and the transport and the client that a
-- command runs on.
--
-- What the tool gets from other code is a parameter, the record `Environment`: the flag package,
-- opening a port or a connection, the JSON encoder, and the texts of floats, times and errors.
use gombus.Prelude.{ℕ, suc, Bool, true, false, not, Option, none, some, List, [], if◌then◌else◌}
use gombus.Prelude.Int.{ℤ, pos, negsuc}
use gombus.Units.{codes}
use gombus.Encoding.{is_empty}
use gombus.Result.{
  Bytes, Error, Message, Result, ok, err, fault, noted, joined, usage, missing_device, bad_timeout,
  bad_device, opening_serial, connecting, closing_transport, flag_help, errors_is, ◌>>◌, refuse,
}
use gombus.Floats.{Floats}
use gombus.DateTime.{DateTime}
use gombus.Client.{Client, Poll, Sending, new_client, close}
use gombus.Response.Text.{contains}
use gombus.Mbusctl.{usagef, Writer}
use gombus.Mbusctl.Json.{JsonValue}

-- The type busFlags; a timeout is a time.Duration.
pub record BusFlags : Type 0 where
  pub device : Bytes
  pub timeout : ℤ
  pub json : Bool

-- The flags of a command, and the arguments behind them.
pub record ReadFlags : Type 0 where
  pub bus : BusFlags
  pub all : Bool
  pub secondary : Bool
  pub args : List Bytes

pub record SetAddressFlags : Type 0 where
  pub bus : BusFlags
  pub secondary : Bool
  pub args : List Bytes

pub record ScanFlags : Type 0 where
  pub bus : BusFlags
  pub primary : Bool
  pub secondary : Bool
  pub from : ℤ
  pub to : ℤ
  pub args : List Bytes

-- A transport that was opened: the script of its client, and what closing it returns.
pub record Connection : Type 0 where
  pub polls : List Poll
  pub sendings : List Sending
  pub contexts : List (Option Error)
  pub close_error : Option Error

pub record Environment : Type 1 where
  pub floats : Floats
  -- The method Parse of each command's flag set.
  pub parse_read : List Bytes → Result ReadFlags
  pub parse_set_address : List Bytes → Result SetAddressFlags
  pub parse_scan : List Bytes → Result ScanFlags
  -- `gombus.DialSerial` and `gombus.DialTCP`
  pub dial_serial : Bytes → Result Connection
  pub dial_tcp : Bytes → Result Connection
  -- `json.Encoder` with its indentation.
  pub encode_json : JsonValue floats.Float → Result Bytes
  -- `strconv.FormatFloat(v, 'g', 6, 64)`
  pub format_value : floats.Float → Bytes
  -- `t.Format(time.RFC3339)`
  pub rfc3339 : DateTime → Bytes
  -- The method Error.
  pub error_text : Error → Bytes

-- `d <= 0`
abbrev pub is_positive : ℤ → Bool
is_positive (pos ℕ.zero) = false
is_positive (pos (suc n)) = true
is_positive (negsuc n) = false

unfoldable pub validate : BusFlags → Result (Unit {0})
validate bf = do
  refuse (is_empty bf.device) (usagef missing_device)
  refuse (not (is_positive bf.timeout)) (usagef bad_timeout)

-- `parseFlags`, on what `Parse` returns; the usage text of -h goes to stderr.
unfoldable pub parse_flags {ℓ} : {A : Type ℓ} → Result A → Result A
parse_flags (ok flags) = ok flags
parse_flags (err e) = if errors_is e flag_help then err e else err (usage e)
parse_flags (fault x) = fault x

-- What `dial` opens.
pub data Transport : Type 0 where
  serial_port : Bytes → Transport
  tcp_address : Bytes → Transport

-- The tests of `dial`.
unfoldable pub transport_of : Bytes → Result Transport
unfolding contains
transport_of device =
    if contains device (codes "/")
    then ok (serial_port device)
    else if not (contains device (codes ":"))
    then err (usagef bad_device)
    else ok (tcp_address device)

unfoldable pub note_error {ℓ} : {A : Type ℓ} → Message → Result A → Result A
note_error m (ok a) = ok a
note_error m (err e) = err (noted m e)
note_error m (fault x) = fault x

unfoldable pub open_transport : Environment → Transport → Result Connection
unfolding note_error
open_transport env (serial_port device) = note_error opening_serial (env.dial_serial device)
open_transport env (tcp_address device) = note_error connecting (env.dial_tcp device)

-- What a command does with its client and with stdout.
pub record Done : Type 0 where
  pub result : Result (Unit {0})
  pub client : Client
  pub out : Writer

abbrev pub Body : Type 0
Body = Client → Writer → Done

-- A command: its error, the transport that it tried to open, the frames handed to that, and stdout.
pub record Outcome : Type 0 where
  pub result : Result (Unit {0})
  pub opened : Option Transport
  pub sent : List Bytes
  pub out : Writer

-- A command that returns before it opens a transport.
abbrev pub unopened : Result (Unit {0}) → Writer → Outcome
unopened r w = record { result = r; opened = none; sent = []; out = w }

-- `errors.Join(err, fmt.Errorf("closing transport: %w", closeErr))`, where `Close` fails.
unfoldable pub join_close : Result (Unit {0}) → Result (Unit {0}) → Result (Unit {0})
join_close r (ok u) = r
join_close (ok u) (err e) = err (noted closing_transport e)
join_close (err d) (err e) = err (joined d (noted closing_transport e))
join_close (fault x) (err e) = fault x
join_close r (fault x) = fault x

unfoldable pub on_connection : Body → Writer → Transport → Result Connection → Outcome
unfolding join_close close
on_connection body w t (ok conn) =
    let done = body (new_client conn.polls conn.sendings conn.contexts) w in
    let closed = close conn.close_error done.client in
    record {
      result = join_close done.result closed.0;
      opened = some t;
      sent = closed.1.sent;
      out = done.out;
    }
on_connection body w t (err e) = record { result = err e; opened = some t; sent = []; out = w }
on_connection body w t (fault x) = record { result = fault x; opened = some t; sent = []; out = w }

unfoldable pub on_transport : Environment → Body → Writer → Result Transport → Outcome
unfolding on_connection open_transport
on_transport env body w (ok t) = on_connection body w t (open_transport env t)
on_transport env body w (err e) = unopened (err e) w
on_transport env body w (fault x) = unopened (fault x) w

unfoldable pub with_client : Environment → BusFlags → Body → Writer → Outcome
unfolding on_transport transport_of
with_client env bf body w = on_transport env body w (transport_of bf.device)

-- The body of every command: an exchange with the bus, then output. An error of the exchange is
-- returned with a text in front.
unfoldable pub report :
    {A : Type 0}
    → Message
    → (A → Writer → Result (Unit {0}) × Writer)
    → Writer
    → Result A × Client
    → Done
report m print w (ok a, c) = let r = print a w in record { result = r.0; client = c; out = r.1 }
report m print w (err e, c) = record { result = err (noted m e); client = c; out = w }
report m print w (fault x, c) = record { result = fault x; client = c; out = w }

-- The checks in front of a command end it, or go on with what they leave.
unfoldable pub checked {ℓ} : {A : Type ℓ} → Result A → (A → Writer → Outcome) → Writer → Outcome
checked (ok a) next w = next a w
checked (err e) next w = unopened (err e) w
checked (fault x) next w = unopened (fault x) w
