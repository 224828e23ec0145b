-- ===== src/Scan/Probe/Garbled.antt =====
-- scan.go: what a selection makes of an answer that is cut short.
use gombus.Prelude.{
  ℕ, suc, ◌<◌, ◌≡◌, ◌≢◌, refl, true, Option, none, List, [], ◌∷◌, ◌++◌, arith, length,
}
use gombus.Result.{Bytes, Error, ok, err, sentinel, need_more, read_timeout, errors_is}
use gombus.Read.{parse_long_frame}
use gombus.Read.LongFrames.{errors_is_need_more}
use gombus.Client.{
  Client, Poll, read, deadline_passed, Sending, check_context, take_context, take_sending,
  write_outcome, write_frame,
}
use gombus.Frame.{single_character_frame}
use gombus.Client.Fill.{fill_from, filled, fill, wrap_fill_err, after_fill}
use gombus.Scan.{SecondaryFilter, selection_frame}
use gombus.Scan.Probe.{
  take_parsed, take_from, take_buffered_frame, after_take, answer_loop, probe_response, silence,
  classify, send_select,
}

-- A write that succeeds.
abbrev pub sending_ok : Sending
sending_ok = record { context_error = none; deadline_error = none; write_error = none }

-- A client with nothing buffered whose next poll delivers `answer`, after which the deadline passes.
abbrev pub answered : Bytes → List Poll → List Sending → List (Option Error) → List Bytes → Client
answered answer polls sendings contexts sent = record {
  buf = [];
  polls = read answer none ∷ deadline_passed ∷ polls;
  sendings = sending_ok ∷ sendings;
  contexts = none ∷ contexts;
  sent = sent;
}

parse_long_frame-short :
    (buf : Bytes) → length buf < 4 → parse_long_frame buf ≡ err (sentinel need_more)
unfolding parse_long_frame
parse_long_frame-short buf h = ground arith

pub errors_is_read_timeout : errors_is (sentinel read_timeout) read_timeout ≡ true
unfolding errors_is mathlib.Core.Bool.decide
errors_is_read_timeout = refl

take_from-short :
    (b : ℕ) (more : Bytes) (c : Client)
    → b ≢ single_character_frame
    → length (b ∷ more) < 4
    → take_from (b ∷ more) c ≡ (err (sentinel need_more), c)
unfolding take_from take_parsed
take_from-short b more c n h = ground (arith, parse_long_frame-short (b ∷ more) h)

-- The client once the bytes of the answer are buffered.
abbrev pub buffering : Bytes → List Poll → List Sending → List (Option Error) → List Bytes → Client
buffering answer polls sendings contexts sent = record {
  buf = answer;
  polls = polls;
  sendings = sendings;
  contexts = contexts;
  sent = sent;
}

answer_loop_cut_short :
    (fuel b : ℕ) (more : Bytes) (polls : List Poll) (ss : List Sending) (cs : List (Option Error))
    (sent : List Bytes)
    → b ≢ single_character_frame
    → length (b ∷ more) < 4
    → answer_loop (suc fuel) (buffering (b ∷ more) (deadline_passed ∷ polls) ss cs sent)
      ≡ (err (sentinel read_timeout), buffering (b ∷ more) polls ss cs sent)
unfolding answer_loop take_buffered_frame after_take after_fill fill fill_from filled wrap_fill_err
answer_loop_cut_short fuel b more polls ss cs sent n h =
    rw (take_from-short b more (buffering (b ∷ more) (deadline_passed ∷ polls) ss cs sent) n h)
      (rw (errors_is_need_more) (rw (errors_is_read_timeout) refl))

-- If the answer to a selection that was sent is one to three bytes of which the first is no
-- acknowledgement, and then nothing until the deadline passes, the selection is reported as met by
-- silence, and these bytes stay in the buffer.
pub send_select_cut_short :
    (filter : SecondaryFilter) (frame : Bytes) (b : ℕ) (more : Bytes) (polls : List Poll)
    (ss : List Sending) (cs : List (Option Error)) (sent : List Bytes)
    → selection_frame filter ≡ ok frame
    → b ≢ single_character_frame
    → length (b ∷ more) < 4
    → send_select filter (answered (b ∷ more) polls ss cs sent)
      ≡ (ok silence, buffering (b ∷ more) polls ss cs (sent ++ (frame ∷ [])))
unfolding send_select check_context take_context write_frame take_sending write_outcome
    probe_response after_fill fill fill_from filled classify
send_select_cut_short filter frame b more polls ss cs sent e n h = rw e (
    rw
      (answer_loop_cut_short (suc (suc (length polls))) b more polls ss cs (sent ++ (frame ∷ [])) n
        h)
      (rw (errors_is_read_timeout) refl))
