-- ===== src/Client/Clock.antt =====
-- read.go: the deadlines of a read, and what a round of fill meets by the clock.
--
-- A time is a number of milliseconds from a fixed start.
pub mod Deadlines
use gombus.Prelude.{
  ℕ, ◌+◌, Bool, true, false, ◌||◌, Option, none, some, List, [], ◌∷◌, ltb, if◌then◌else◌,
}
use gombus.Result.{Bytes, Error}
use gombus.Client.{
  ReadError, timed_out, failed, Poll, context_ended, deadline_passed, deadline_refused, read,
}

abbrev pub frame_read_timeout : ℕ
frame_read_timeout = 2000

abbrev pub read_poll_interval : ℕ
read_poll_interval = 50

-- At the time `now`, for the deadline of the context, if it has one.
unfoldable pub frame_deadline : ℕ → Option ℕ → ℕ
frame_deadline now none = now + frame_read_timeout
frame_deadline now (some context_deadline) =
    if ltb context_deadline (now + frame_read_timeout)
    then context_deadline
    else now + frame_read_timeout

-- An error of a transport: whether it is os.ErrDeadlineExceeded, and what `Timeout` says where it
-- is a net.Error.
pub record TransportError : Type 0 where
  pub is_deadline_exceeded : Bool
  pub net_timeout : Option Bool
  pub error : Error

abbrev pub or_false : Option Bool → Bool
or_false none = false
or_false (some timeout) = timeout

unfoldable pub is_timeout : TransportError → Bool
is_timeout e = if e.is_deadline_exceeded then true else or_false e.net_timeout

-- What the world gives to one round of the loop of `fill`, should it come to ask: the error of the
-- context, the clock at its two readings, the answer of `SetReadDeadline`, and what `Read` returns.
pub record Round : Type 0 where
  pub context : Option Error
  pub now : ℕ
  pub now_again : ℕ
  pub set_deadline : ℕ → Option Error
  pub bytes : Bytes
  pub error : Option TransportError

-- The deadline that the read of a round is armed with.
unfoldable pub armed_until : ℕ → Round → ℕ
armed_until deadline r =
    if ltb deadline (r.now_again + read_poll_interval)
    then deadline
    else r.now_again + read_poll_interval

unfoldable pub read_error_of : Option TransportError → Option ReadError
unfolding is_timeout
read_error_of none = none
read_error_of (some e) = some (if is_timeout e then timed_out else failed e.error)

unfoldable pub armed_poll : Option Error → Round → Poll
unfolding read_error_of
armed_poll (some e) r = deadline_refused e
armed_poll none r = read r.bytes (read_error_of r.error)

unfoldable pub timed_poll : Option Error → ℕ → Round → Poll
unfolding armed_until armed_poll
timed_poll (some e) deadline r = context_ended e
timed_poll none deadline r =
    if ltb r.now deadline
    then armed_poll (r.set_deadline (armed_until deadline r)) r
    else deadline_passed

-- What a round of `fill` with this deadline meets.
unfoldable pub poll_of : ℕ → Round → Poll
unfolding timed_poll
poll_of deadline r = timed_poll r.context deadline r

unfoldable pub polls_of : ℕ → List Round → List Poll
unfolding poll_of
polls_of deadline [] = []
polls_of deadline (r ∷ rounds) = poll_of deadline r ∷ polls_of deadline rounds
