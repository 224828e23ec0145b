-- ===== src/Scan/Probe/Quiet.antt =====
-- scan.go: reading an answer sends nothing, and a selection sends its frame only.
use gombus.Prelude.{
  ℕ, zero, suc, ◌≡◌, refl, sym, ap, ◌∙◌, not, ◌||◌, [], ◌∷◌, length, if-holds, ◌==◌,
}
use gombus.Encoding.{is_empty}
use gombus.Result.{Bytes, Result, ok, err, fault, need_more, read_timeout, errors_is, ◌>>=◌}
use gombus.Read.{parse_long_frame}
use gombus.Client.{Client, Session, lift, check_context, write_frame}
use gombus.Frame.{single_character_frame}
use gombus.Client.Fill.{fill_from, fill, wrap_fill_err, after_fill}
use gombus.Client.Walk.Requests.{after_fill-Quiet, check_context-Quiet}
use gombus.Client.Sends.{Sends, quiet-Sends, and_then-Sends, lift-Sends, write_frame-Sends}
use gombus.Scan.{
  SecondaryAddress, SecondaryFilter, selection_frame, new_secondary_filter, is_bus_noise,
}
use gombus.Scan.Probe.{
  take_parsed, take_from, take_buffered_frame, after_take, answer_loop, probe_response, Selection,
  is_acknowledgement, classify, send_select, selected_one, select_secondary,
}

take_parsed-Quiet : (r : Result (Bytes × ℕ)) (c : Client) → (take_parsed r c).1.sent ≡ c.sent
unfolding take_parsed
take_parsed-Quiet (ok (frame, n)) c = refl
take_parsed-Quiet (err e) c = refl
take_parsed-Quiet (fault x) c = refl

take_from-Quiet : (buf : Bytes) (c : Client) → (take_from buf c).1.sent ≡ c.sent
unfolding take_from
take_from-Quiet [] c = refl
take_from-Quiet (b ∷ rest) c =
    if-holds (λ (p : Result Bytes × Client). p.1.sent ≡ c.sent) (b == single_character_frame)
      (λ _. refl) λ _. take_parsed-Quiet (parse_long_frame (b ∷ rest)) c

fill-Quiet :
    (next : Session Bytes) (c : Client)
    → ((d : Client) → (next d).1.sent ≡ d.sent)
    → (after_fill wrap_fill_err next (fill c)).1.sent ≡ c.sent
unfolding fill
fill-Quiet next c h = after_fill-Quiet c wrap_fill_err next (fill_from c.polls c.buf) h

after_take-Quiet :
    (next : Session Bytes) (p : Result Bytes × Client)
    → ((d : Client) → (next d).1.sent ≡ d.sent)
    → (after_take next p).1.sent ≡ p.1.sent
unfolding after_take
after_take-Quiet next (ok frame, c) h = refl
after_take-Quiet next (err e, c) h =
    if-holds (λ (p : Result Bytes × Client). p.1.sent ≡ c.sent) (errors_is e need_more)
      (λ _. fill-Quiet next c h) λ _. refl
after_take-Quiet next (fault x, c) h = refl

answer_loop-Quiet : (fuel : ℕ) (c : Client) → (answer_loop fuel c).1.sent ≡ c.sent
unfolding answer_loop take_buffered_frame
answer_loop-Quiet zero c = refl
answer_loop-Quiet (suc fuel) c =
    after_take-Quiet (answer_loop fuel) (take_from c.buf c) (answer_loop-Quiet fuel)
    ∙ take_from-Quiet c.buf c

pub probe_response-Quiet : (c : Client) → (probe_response c).1.sent ≡ c.sent
unfolding probe_response
probe_response-Quiet c =
    let fuel = suc (length c.polls) in
    if-holds (λ (p : Result Bytes × Client). p.1.sent ≡ c.sent) (is_empty c.buf)
      (λ _. fill-Quiet (answer_loop fuel) c (answer_loop-Quiet fuel)) λ _. answer_loop-Quiet fuel c

classify-Quiet : (p : Result Bytes × Client) → (classify p).1.sent ≡ p.1.sent
unfolding classify
classify-Quiet (ok resp, c) =
    if-holds (λ (p : Result Selection × Client). p.1.sent ≡ c.sent)
      (not (length resp == 1) || (not (is_acknowledgement resp) || not (is_empty c.buf)))
      (λ _. refl) λ _. refl
classify-Quiet (err e, c) =
    if-holds (λ (p : Result Selection × Client). p.1.sent ≡ c.sent) (errors_is e read_timeout)
      (λ _. refl)
      λ _.
        if-holds (λ (p : Result Selection × Client). p.1.sent ≡ c.sent) (is_bus_noise e) (λ _. refl)
          λ _. refl
classify-Quiet (fault x, c) = refl

send_select-Sends :
    (filter : SecondaryFilter) (frame : Bytes) (c : Client)
    → selection_frame filter ≡ ok frame
    → Sends (frame ∷ []) c (send_select filter c)
unfolding send_select
send_select-Sends filter frame c e =
    and_then-Sends [] (frame ∷ []) c (check_context c) _
      (quiet-Sends c (check_context c) (check_context-Quiet c))
      λ u d _. lift-Sends (frame ∷ []) d (selection_frame filter) _ λ g q.
        let same : g ≡ frame = cc in
        rw same (
          and_then-Sends (frame ∷ []) [] d (write_frame frame d) _ (write_frame-Sends frame d)
            λ v d' _.
              quiet-Sends d' (classify (probe_response d'))
                (classify-Quiet (probe_response d') ∙ probe_response-Quiet d'))

pub select_secondary-Sends :
    (sec : SecondaryAddress) (frame : Bytes) (c : Client)
    → (new_secondary_filter sec >>= selection_frame) ≡ ok frame
    → Sends (frame ∷ []) c (select_secondary sec c)
unfolding select_secondary
select_secondary-Sends sec frame c e =
    lift-Sends (frame ∷ []) c (new_secondary_filter sec) _ λ filter q.
      let built : selection_frame filter ≡ ok frame = sym (ap (λ r. r >>= selection_frame) q) ∙ e in
      and_then-Sends (frame ∷ []) [] c (send_select filter c) _
        (send_select-Sends filter frame c built)
        λ outcome d _. quiet-Sends d (lift (selected_one outcome) d) refl
