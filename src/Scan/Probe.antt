-- ===== src/Scan/Probe.antt =====
-- scan.go: probes, selections, and the primary scan, as methods of a client.
pub mod Ranges
pub mod Garbled
pub mod Quiet
use gombus.Prelude.{
  ℕ, zero, suc, ◌+◌, ◌-◌, Bool, false, true, not, ◌&&◌, ◌||◌, List, [], ◌∷◌, ◌++◌, ltb, ◌==◌,
  if◌then◌else◌, length,
}
use gombus.Encoding.{is_empty}
use gombus.Result.{
  Bytes, Error, Message, Result, ok, err, fault, out_of_fuel, sentinel, noted, need_more,
  invalid_scan_range, read_timeout, select_collision, select_no_answer, wrapped, probing,
  scan_start, scan_end, errors_is, refuse,
}
use gombus.Read.{parse_long_frame}
use gombus.Floats.{Floats}
use gombus.Commands.{addr_secondary_select, validate_assignable_addr, request_ud2, snd_nke}
use gombus.Response.{DecodedFrame}
use gombus.Client.{
  Client, Session, pure, lift, and_then, ◌>>=◌, ◌>>◌, consume, check_context, write_frame,
}
use gombus.Frame.{single_character_frame}
use gombus.Client.Fill.{fill, after_fill, wrap_fill_err}
use gombus.Client.Walk.{read_single_frame}
use gombus.Scan.{
  SecondaryAddress, SecondaryFilter, mask_to_bcd, new_secondary_filter, selection_frame,
  secondary_from_header, is_bus_noise,
}

abbrev pub discard_buffered : Client → Client
discard_buffered c = consume (length c.buf) c

-- `takeBufferedFrame` behind the parser.
unfoldable pub take_parsed : Result (Bytes × ℕ) → Session Bytes
take_parsed (ok (frame, n)) c = (ok frame, consume n c)
take_parsed (err e) c = (err e, c)
take_parsed (fault x) c = (fault x, c)

unfoldable pub take_from : Bytes → Session Bytes
unfolding take_parsed
take_from [] c = (err (sentinel need_more), c)
take_from (b ∷ rest) c =
    if b == single_character_frame
    then (ok (single_character_frame ∷ []), consume 1 c)
    else take_parsed (parse_long_frame (b ∷ rest)) c

unfoldable pub take_buffered_frame : Session Bytes
unfolding take_from
take_buffered_frame c = take_from c.buf c

-- One round of the second loop of `probeResponse`, behind `takeBufferedFrame`.
unfoldable pub after_take : Session Bytes → Result Bytes × Client → Result Bytes × Client
unfolding fill after_fill wrap_fill_err
after_take next (ok frame, c) = (ok frame, c)
after_take next (err e, c) =
    if errors_is e need_more
    then after_fill wrap_fill_err next (fill c)
    else (err e, discard_buffered c)
after_take next (fault x, c) = (fault x, c)

unfoldable pub answer_loop : ℕ → Session Bytes
unfolding after_take take_buffered_frame
answer_loop zero c = (fault out_of_fuel, c)
answer_loop (suc fuel) c = after_take (answer_loop fuel) (take_buffered_frame c)

-- The first loop of `probeResponse`, which a fill that succeeds ends.
unfoldable pub probe_response : Session Bytes
unfolding answer_loop fill after_fill wrap_fill_err
probe_response c =
    let rounds = answer_loop (suc (length c.polls)) in
    if is_empty c.buf then after_fill wrap_fill_err rounds (fill c) else rounds c

-- An error of a probe that is noise is passed over.
unfoldable pub unless_noise : {A : Type 0} → A → Result A × Client → Result A × Client
unfolding is_bus_noise
unless_noise a (ok b, c) = (ok b, c)
unless_noise a (err e, c) = if is_bus_noise e then (ok a, c) else (err e, c)
unless_noise a (fault x, c) = (fault x, c)

-- Whether a slave answers.
unfoldable pub probe_primary : ℕ → Session Bool
unfolding probe_response unless_noise
probe_primary addr = do
  reset ← lift (snd_nke addr)
  write_frame reset
  _ ← λ c. unless_noise [] (probe_response c)
  request ← lift (request_ud2 addr)
  write_frame request
  λ c. unless_noise false (and_then (probe_response c) (λ frame. pure true))

unfoldable pub note_probe {ℓ} : {A : Type ℓ} → Result A × Client → Result A × Client
note_probe (ok a, c) = (ok a, c)
note_probe (err e, c) = (err (noted probing e), c)
note_probe (fault x, c) = (fault x, c)

-- The loop of `ScanPrimary` over the `n` addresses from `addr` on.
unfoldable pub scan_addresses : ℕ → ℕ → List ℕ → Session (List ℕ)
unfolding probe_primary note_probe
scan_addresses zero addr found = pure found
scan_addresses (suc n) addr found = do
  check_context
  present ← λ c. note_probe (probe_primary addr c)
  scan_addresses n (addr + 1) (if present then found ++ (addr ∷ []) else found)

unfoldable pub bound_error : Message → Result (Unit {0}) → Result (Unit {0})
bound_error text (ok u) = ok u
bound_error text (err e) = err (noted text e)
bound_error text (fault x) = fault x

unfoldable pub scan_primary : ℕ → ℕ → Session (List ℕ)
unfolding bound_error scan_addresses
scan_primary start end = do
  lift (bound_error scan_start (validate_assignable_addr start))
  lift (bound_error scan_end (validate_assignable_addr end))
  lift (refuse (ltb end start) (sentinel invalid_scan_range))
  scan_addresses (end + 1 - start) start []

-- What the bus did at a selection: `responded` and `collision` of the source, never both.
pub data Selection : Type 0 where
  silence responded collision : Selection

-- `resp[0] == SingleCharacterFrame`
abbrev pub is_acknowledgement : Bytes → Bool
is_acknowledgement [] = false
is_acknowledgement (b ∷ rest) = b == single_character_frame

-- `sendSelect` behind the probe.
unfoldable pub classify : Result Bytes × Client → Result Selection × Client
unfolding is_bus_noise
classify (ok resp, c) =
    if not (length resp == 1) || (not (is_acknowledgement resp) || not (is_empty c.buf))
    then (ok collision, discard_buffered c)
    else (ok responded, c)
classify (err e, c) =
    if errors_is e read_timeout
    then (ok silence, c)
    else if is_bus_noise e
    then (ok collision, discard_buffered c)
    else (err e, c)
classify (fault x, c) = (fault x, c)

unfoldable pub send_select : SecondaryFilter → Session Selection
unfolding probe_response classify
send_select filter = do
  check_context
  frame ← lift (selection_frame filter)
  write_frame frame
  λ c. classify (probe_response c)

unfoldable pub select_mask : Bytes → Session Selection
unfolding send_select
select_mask mask = do
  id ← lift (mask_to_bcd mask)
  send_select (record { id = id; manufacturer = 0xFF ∷ 0xFF ∷ []; version = 0xFF; medium = 0xFF })

-- The errors of a selection by address; the identification number in their texts is left out.
unfoldable pub selected_one : Selection → Result (Unit {0})
selected_one silence = err (sentinel select_no_answer)
selected_one responded = ok tt
selected_one collision = err (sentinel select_collision)

unfoldable pub select_secondary : SecondaryAddress → Session (Unit {0})
unfolding send_select selected_one
select_secondary sec = do
  filter ← lift (new_secondary_filter sec)
  outcome ← send_select filter
  lift (selected_one outcome)

unfoldable pub read_by_secondary : (F : Floats) → SecondaryAddress → Session (DecodedFrame F.Float)
unfolding select_secondary
read_by_secondary F sec = do select_secondary sec; read_single_frame F addr_secondary_select

unfoldable pub read_secondary_address : Session SecondaryAddress
unfolding probe_response
read_secondary_address = do
  request ← lift (request_ud2 addr_secondary_select)
  write_frame request
  frame ← probe_response
  lift (secondary_from_header frame)
