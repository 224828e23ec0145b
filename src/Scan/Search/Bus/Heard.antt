-- ===== src/Scan/Search/Bus/Heard.antt =====
-- scan.go: what a selection and a request make of what is heard on the line.
use gombus.Prelude.{
  ℕ, suc, ◌≤◌, ◌≡◌, ◌≢◌, inl, inr, refl, sym, ap, ◌∙◌, subst, Option, none, List, [], ◌∷◌, ◌++◌,
  append-nil, arith, length, drop, drop_all, false,
}
use gombus.Result.{
  Bytes, Error, Result, ok, err, sentinel, need_more, no_long_frame_found, read_timeout, errors_is,
  set_at,
}
use gombus.Frame.{single_character_frame}
use gombus.Commands.{request_ud2, addr_secondary_select}
use gombus.Read.{parse_long_frame}
use gombus.Read.LongFrames.{IsLongFrame, parse_long_frame-IsLongFrame, parse_long_frame-garbled}
use gombus.Client.{
  lift, and_then, Client, Poll, read, deadline_passed, Sending, check_context, take_context,
  take_sending, write_outcome, write_frame,
}
use gombus.Client.Fill.{fill_from, filled, fill, wrap_fill_err, after_fill}
use gombus.Scan.{SecondaryAddress, secondary_from_header, is_bus_noise}
use gombus.Scan.Probe.{
  take_parsed, take_from, take_buffered_frame, after_take, answer_loop, probe_response, silence,
  responded, collision, classify, select_mask, read_secondary_address,
}
use gombus.Scan.Probe.Garbled.{sending_ok, buffering, errors_is_read_timeout}
use gombus.Scan.Search.Bus.{Slave, IsSlave, IsClash, IsHeard, outcome_of}
use gombus.Scan.Search.Bus.Masks.{IsSent}

-- A client that has met `polls` next, with nothing buffered.
abbrev pub meeting : List Poll → List Sending → List (Option Error) → List Bytes → Client
meeting polls sendings contexts sent = record {
  buf = [];
  polls = polls;
  sendings = sendings;
  contexts = contexts;
  sent = sent;
}

take_from-garbled :
    (b : ℕ) (more : Bytes) (c : Client)
    → b ≢ single_character_frame
    → b ≢ 0x68
    → 3 ≤ length more
    → take_from (b ∷ more) c ≡ (err (sentinel no_long_frame_found), c)
unfolding take_from take_parsed
take_from-garbled b more c n k l = ground (arith, parse_long_frame-garbled b more k l)

settled_no_frame : errors_is (sentinel no_long_frame_found) need_more ≡ false
unfolding errors_is mathlib.Core.Bool.decide
settled_no_frame = refl

take_from-whole :
    (f : Bytes) (c : Client)
    → IsLongFrame f
    → take_from f c ≡ (ok f, record c { buf = drop (length f) c.buf })
unfolding take_from take_parsed
take_from-whole [] c w = absurd (omega (arith, w.start))
take_from-whole (b ∷ more) c w =
    let p : parse_long_frame (b ∷ more) ≡ ok (b ∷ more, length (b ∷ more)) =
      ap parse_long_frame (sym (append-nil (b ∷ more)))
      ∙ parse_long_frame-IsLongFrame (b ∷ more) [] w in
    let s : b ≡ 0x68 = w.start in
    let q = subst (λ (x : ℕ). parse_long_frame (x ∷ more) ≡ ok (x ∷ more, length (b ∷ more))) s p in
    rw (s, q) refl

module _ (ps : List Poll) (ss : List Sending) (cs : List (Option Error)) (sent : List Bytes) where
  silence_heard :
      classify (probe_response (meeting (deadline_passed ∷ ps) ss cs sent))
      ≡ (ok silence, meeting ps ss cs sent)
  unfolding classify probe_response after_fill fill fill_from filled wrap_fill_err
  silence_heard = rw (errors_is_read_timeout) (rw (errors_is_read_timeout) refl)

  acknowledgement_heard :
      classify (probe_response (meeting (read (single_character_frame ∷ []) none ∷ ps) ss cs sent))
      ≡ (ok responded, meeting ps ss cs sent)
  unfolding classify probe_response after_fill fill fill_from filled answer_loop take_buffered_frame
      take_from after_take
  acknowledgement_heard = refl

  acknowledgements_heard :
      (b : ℕ) (more : Bytes)
      → classify (
          probe_response
            (meeting (read (single_character_frame ∷ (b ∷ more)) none ∷ ps) ss cs sent))
        ≡ (ok collision, meeting ps ss cs sent)
  unfolding classify probe_response after_fill fill fill_from filled answer_loop take_buffered_frame
      take_from after_take
  acknowledgements_heard b more =
      ap (λ (rest : Bytes). (ok collision, buffering rest ps ss cs sent))
        (drop_all (length more) more (omega arith))

  -- Bytes that come in one read are taken from the buffer.
  probe_answered :
      (b : ℕ) (more : Bytes)
      → probe_response (meeting (read (b ∷ more) none ∷ ps) ss cs sent)
        ≡ after_take
            (answer_loop (suc (length ps)))
            (take_from (b ∷ more) (buffering (b ∷ more) ps ss cs sent))
  unfolding probe_response after_fill fill fill_from filled answer_loop take_buffered_frame
  probe_answered b more = refl

  discarded :
      (b : ℕ) (more : Bytes) (next : Client → Result Bytes × Client)
      → classify
          (after_take next (err (sentinel no_long_frame_found), buffering (b ∷ more) ps ss cs sent))
        ≡ (ok collision, meeting ps ss cs sent)
  unfolding classify after_take is_bus_noise errors_is mathlib.Core.Bool.decide
  discarded b more next =
      ap (λ (rest : Bytes). (ok collision, buffering (drop (length rest) rest) ps ss cs sent))
        (drop_all (length more) more (omega arith))

  garbled_heard :
      (b : ℕ) (more : Bytes)
      → b ≢ single_character_frame
      → b ≢ 0x68
      → 3 ≤ length more
      → classify (probe_response (meeting (read (b ∷ more) none ∷ ps) ss cs sent))
        ≡ (ok collision, meeting ps ss cs sent)
  garbled_heard b more n k l =
      ap classify (
        probe_answered b more
        ∙ ap (after_take (answer_loop (suc (length ps))))
            (take_from-garbled b more (buffering (b ∷ more) ps ss cs sent) n k l))
      ∙ discarded b more (answer_loop (suc (length ps)))

  clash_heard :
      (clash : Bytes)
      → IsClash clash
      → classify (probe_response (meeting (read clash none ∷ ps) ss cs sent))
        ≡ (ok collision, meeting ps ss cs sent)
  clash_heard [] k = absurd k
  clash_heard (b ∷ []) (inl (e, l)) = absurd (omega arith)
  clash_heard (b ∷ (x ∷ more)) (inl (e, l)) = rw e (acknowledgements_heard x more)
  clash_heard (b ∷ more) (inr (n, k, l)) = garbled_heard b more n k l

  pub heard :
      (slaves : List Slave) (polls : List Poll)
      → IsHeard slaves polls
      → classify (probe_response (meeting (polls ++ ps) ss cs sent))
        ≡ (ok (outcome_of slaves), meeting ps ss cs sent)
  heard [] polls h = rw h silence_heard
  heard (s ∷ []) polls h = rw h acknowledgement_heard
  heard (s ∷ (t ∷ slaves)) polls (clash, k, h) = rw h (clash_heard clash k)

  response_heard :
      (f : Bytes)
      → IsLongFrame f
      → probe_response (meeting (read f none ∷ ps) ss cs sent) ≡ (ok f, meeting ps ss cs sent)
  unfolding after_take
  response_heard [] w = absurd (omega (arith, w.start))
  response_heard (b ∷ more) w =
      probe_answered b more
      ∙ ap (after_take (answer_loop (suc (length ps))))
          (take_from-whole (b ∷ more) (buffering (b ∷ more) ps ss cs sent) w)
      ∙ ap (λ (rest : Bytes). (ok (b ∷ more), buffering rest ps ss cs sent))
          (drop_all (length (b ∷ more)) (b ∷ more) (omega arith))

  -- A selection, as what it makes of the answer.
  pub select_mask-IsSent :
      (m : Bytes) (w : IsSent m) (polls : List Poll)
      → select_mask m (meeting polls (sending_ok ∷ ss) (none ∷ cs) sent)
        ≡ classify (probe_response (meeting polls ss cs (sent ++ (w.frame ∷ []))))
  unfolding select_mask check_context take_context write_frame take_sending write_outcome
  select_mask-IsSent m w polls = rw (w.packed, w.sealed) refl

-- The request to the slave that is selected.
abbrev pub request_selected : Bytes
request_selected = 0x10 ∷ 0x5B ∷ 0xFD ∷ 0x58 ∷ 0x16 ∷ []

request_ud2_selected : request_ud2 addr_secondary_select ≡ ok request_selected
unfolding request_ud2 set_at gombus.Frame.ShortFrame.set_checksum gombus.Result.index_from_end
    gombus.Result.slice gombus.Encoding.calc_check_sum
request_ud2_selected = refl

read_secondary_address-eq :
    (polls : List Poll) (ss : List Sending) (cs : List (Option Error)) (sent : List Bytes)
    → read_secondary_address (meeting polls (sending_ok ∷ ss) cs sent)
      ≡ and_then
          (probe_response (meeting polls ss cs (sent ++ (request_selected ∷ []))))
          (λ frame. lift (secondary_from_header frame))
unfolding read_secondary_address write_frame take_sending write_outcome
read_secondary_address-eq polls ss cs sent = rw (request_ud2_selected) refl

pub asked :
    (ps : List Poll) (ss : List Sending) (cs : List (Option Error)) (sent : List Bytes) (s : Slave)
    → IsSlave s
    → read_secondary_address (meeting (read s.response none ∷ ps) (sending_ok ∷ ss) cs sent)
      ≡ (ok s.address, meeting ps ss cs (sent ++ (request_selected ∷ [])))
asked ps ss cs sent s w =
    let sent' : List Bytes = sent ++ (request_selected ∷ []) in
    read_secondary_address-eq (read s.response none ∷ ps) ss cs sent
    ∙ ap (λ p. and_then p (λ frame. lift (secondary_from_header frame)))
        (response_heard ps ss cs sent' s.response w.whole)
    ∙ ap (λ (r : Result SecondaryAddress). (r, meeting ps ss cs sent')) w.header
