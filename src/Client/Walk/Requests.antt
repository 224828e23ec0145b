-- ===== src/Client/Walk/Requests.antt =====
-- gombus.go: what one round of ReadAllFrames sends and takes.
use gombus.Prelude.{
  ℕ, zero, suc, ◌+◌, ◌<◌, ◌≡◌, refl, sym, ap, ◌∙◌, Bool, true, false, not, Option, none, some, List,
  [], ◌∷◌, ◌++◌, arith, leb, length, if◌then◌else◌, if-holds,
}
use gombus.Result.{
  Bytes, Error, Result, ok, err, fault, sentinel, need_more, too_many_frames, refuse, errors_is,
  set_at, at, index_from_end, slice,
}
use gombus.Encoding.{calc_check_sum}
use gombus.Floats.{Floats}
use gombus.Frame.{fcb, update_at, single_character_frame}
use gombus.Frame.ShortFrame
use gombus.Frame.ShortFrame.{new_short_frame}
use gombus.Commands.{request_ud2}
use gombus.Read.{parse_long_frame}
use gombus.Response.{DecodedFrame, has_more_records}
use gombus.Response.Decode.{decode}
use gombus.Client.{
  Client, Poll, Sending, Session, take_context, take_sending, lift, and_then, consume,
  check_context, write_outcome, write_frame,
}
use gombus.Client.Fill.{
  fill_from, filled, fill, wrap_fill_err, after_fill, after_parse, read_long_loop, read_long_frame,
  after_search, read_single_loop, read_single_char_frame, noted_single, index_byte,
}
use gombus.Client.Walk.{max_frames_per_read, request_for, Progress, started, read_next}

-- A step that succeeds goes on from the value and the client of the first one.
pub and_then-eq-ok {ℓ μ} :
    {A : Type ℓ} {B : Type μ} (first : Result A × Client) (next : A → Session B) {b : B}
    {c' : Client}
    → and_then first next ≡ (ok b, c')
    → (a : A) × (d : Client) × (first ≡ (ok a, d)) × (next a d ≡ (ok b, c'))
and_then-eq-ok (ok a, d) next e = (a, d, refl, e)
and_then-eq-ok (err x, d) next e = cc
and_then-eq-ok (fault x, d) next e = cc

-- REQ_UD2 on the wire, with the FCB of the request.
abbrev pub wire_request : ℕ → Bool → Bytes
wire_request primary_id set =
    let c = if set then 0x7B else 0x5B in
    0x10 ∷ c ∷ primary_id ∷ calc_check_sum (c ∷ primary_id ∷ []) ∷ 0x16 ∷ []

request_for-eq :
    (primary_id : ℕ) (last : Bool) (c : Client)
    → request_for primary_id last c ≡ (ok (wire_request primary_id (not last)), c)
unfolding request_for request_ud2 ShortFrame.set_fcb ShortFrame.set_checksum update_at set_at at
    index_from_end slice
request_for-eq primary_id true c = refl
request_for-eq primary_id false c = refl

fcb-wire_request :
    (primary_id : ℕ) (set : Bool) (c : ℕ)
    → ShortFrame.c_field (wire_request primary_id set) ≡ ok c
    → fcb c ≡ set
unfolding ShortFrame.c_field fcb at
fcb-wire_request primary_id true c e = let same : c ≡ 0x7B = cc in ap fcb same
fcb-wire_request primary_id false c e = let same : c ≡ 0x5B = cc in ap fcb same

pub after_fill-Quiet :
    (c : Client) (wrap : Bytes → Error → Error) (next : Session Bytes)
    (r : Result Bytes × List Poll)
    → ((d : Client) → (next d).1.sent ≡ d.sent)
    → (after_fill wrap next (filled c r)).1.sent ≡ c.sent
unfolding after_fill filled
after_fill-Quiet c wrap next (ok buf, rest) h = h (record c { buf = buf; polls = rest })
after_fill-Quiet c wrap next (err e, rest) h = refl
after_fill-Quiet c wrap next (fault x, rest) h = refl

after_parse-Quiet :
    (c : Client) (next : Session Bytes) (r : Result (Bytes × ℕ))
    → ((d : Client) → (next d).1.sent ≡ d.sent)
    → (after_parse next r c).1.sent ≡ c.sent
unfolding after_parse fill
after_parse-Quiet c next (ok (frame, n)) h = refl
after_parse-Quiet c next (err x) h =
    if-holds (λ (p : Result Bytes × Client). p.1.sent ≡ c.sent) (errors_is x need_more)
      (λ _. after_fill-Quiet c wrap_fill_err next (fill_from c.polls c.buf) h) λ _. refl
after_parse-Quiet c next (fault x) h = refl

read_long_loop-Quiet : (fuel : ℕ) (c : Client) → (read_long_loop fuel c).1.sent ≡ c.sent
unfolding read_long_loop
read_long_loop-Quiet zero c = refl
read_long_loop-Quiet (suc fuel) c =
    after_parse-Quiet c (read_long_loop fuel) (parse_long_frame c.buf) (read_long_loop-Quiet fuel)

pub read_long_frame-Quiet : (c : Client) → (read_long_frame c).1.sent ≡ c.sent
unfolding read_long_frame
read_long_frame-Quiet c = read_long_loop-Quiet (suc (length c.polls)) c

after_search-Quiet :
    (c : Client) (next : Session Bytes) (r : Option ℕ)
    → ((d : Client) → (next d).1.sent ≡ d.sent)
    → (after_search next r c).1.sent ≡ c.sent
unfolding after_search fill
after_search-Quiet c next (some i) h = refl
after_search-Quiet c next none h =
    let d : Client = consume (length c.buf) c in
    after_fill-Quiet d noted_single next (fill_from d.polls d.buf) h

read_single_loop-Quiet : (fuel : ℕ) (c : Client) → (read_single_loop fuel c).1.sent ≡ c.sent
unfolding read_single_loop
read_single_loop-Quiet zero c = refl
read_single_loop-Quiet (suc fuel) c =
    after_search-Quiet c (read_single_loop fuel) (index_byte c.buf single_character_frame)
      (read_single_loop-Quiet fuel)

pub read_single_char_frame-Quiet : (c : Client) → (read_single_char_frame c).1.sent ≡ c.sent
unfolding read_single_char_frame
read_single_char_frame-Quiet c = read_single_loop-Quiet (suc (length c.polls)) c

-- A step that succeeds has sent what the step sends.
abbrev pub after {ℓ} : {A : Type ℓ} → Result A × Client → List Bytes
after p = p.1.sent

take_context-Quiet :
    (contexts : List (Option Error)) (c : Client) → after (take_context contexts c) ≡ c.sent
unfolding take_context
take_context-Quiet [] c = refl
take_context-Quiet (e ∷ rest) c = refl

pub check_context-Quiet : (c : Client) → after (check_context c) ≡ c.sent
unfolding check_context
check_context-Quiet c = take_context-Quiet c.contexts c

pub outcome-called :
    (d e f : Option Error) (u : Unit {0})
    → (write_outcome d e f).0 ≡ ok u
    → (write_outcome d e f).1 ≡ true
unfolding write_outcome
outcome-called (some x) e f u h = cc
outcome-called none (some x) f u h = cc
outcome-called none none f u h = refl

take_sending-sent :
    (sendings : List Sending) (frame : Bytes) (c d : Client) (u : Unit {0})
    → take_sending sendings frame c ≡ (ok u, d)
    → d.sent ≡ c.sent ++ (frame ∷ [])
unfolding take_sending
take_sending-sent [] frame c d u h = cc
take_sending-sent (s ∷ rest) frame c d u h =
    let called =
      outcome-called s.context_error s.deadline_error s.write_error u (ap (λ p. p.0) h) in
    sym (ap (λ p. p.1.sent) h)
    ∙ ap (λ (t : Bool). if t then c.sent ++ (frame ∷ []) else c.sent) called

pub write_frame-sent :
    (frame : Bytes) (c d : Client) (u : Unit {0})
    → write_frame frame c ≡ (ok u, d)
    → d.sent ≡ c.sent ++ (frame ∷ [])
unfolding write_frame
write_frame-sent frame c d u h = take_sending-sent c.sendings frame c d u h

abbrev progress_or_start : {Float : Type 0} → Result (Progress Float) → Progress Float
progress_or_start (ok p) = p
progress_or_start (err e) = started
progress_or_start (fault x) = started

abbrev pub bytes_or_none : Result Bytes → Bytes
bytes_or_none (ok b) = b
bytes_or_none (err e) = []
bytes_or_none (fault x) = []

not_refused :
    (n : ℕ) {u : Unit {0}}
    → refuse (leb max_frames_per_read n) (sentinel too_many_frames) ≡ ok u
    → n < max_frames_per_read
not_refused n e = ground arith

-- What a round that succeeds did.
pub record IsRound {Float : Type 0} (primary_id : ℕ) (p p' : Progress Float) (c c' : Client)
    : Type 0 where
  pub response : DecodedFrame Float
  pub within : p.frame_count < max_frames_per_read
  pub counted : p'.frame_count ≡ p.frame_count + 1
  pub alternates : p'.last_fcb ≡ not p.last_fcb
  pub reports : p'.more ≡ has_more_records response
  pub grows : p'.frames ≡ p.frames ++ (response ∷ [])
  pub sends : c'.sent ≡ c.sent ++ (wire_request primary_id (not p.last_fcb) ∷ [])

pub read_next-IsRound :
    (F : Floats) (primary_id : ℕ) (p p' : Progress F.Float) (c c' : Client)
    → read_next F primary_id p c ≡ (ok p', c')
    → IsRound primary_id p p' c c'
unfolding read_next
read_next-IsRound F primary_id p p' c c' e =
    let (_, c1, q1, e1) = and_then-eq-ok (check_context c) _ e in
    let (_, c2, q2, e2) =
      and_then-eq-ok
        (lift (refuse (leb max_frames_per_read p.frame_count) (sentinel too_many_frames)) c1) _
        e1 in
    let (frame, c3, q3, e3) = and_then-eq-ok (request_for primary_id p.last_fcb c2) _ e2 in
    let (ctl, c4, q4, e4) = and_then-eq-ok (lift (ShortFrame.c_field frame) c3) _ e3 in
    let (u, c5, q5, e5) = and_then-eq-ok (write_frame frame c4) _ e4 in
    let (resp, c6, q6, e6) = and_then-eq-ok (read_long_frame c5) _ e5 in
    let (f, c7, q7, e7) = and_then-eq-ok (lift (decode F resp) c6) _ e6 in
    let made = ap (λ r. progress_or_start r.0) e7 in
    let request = request_for-eq primary_id p.last_fcb c2 in
    let framed : frame ≡ wire_request primary_id (not p.last_fcb) =
      ap (λ r. bytes_or_none r.0) (sym q3) ∙ ap (λ r. bytes_or_none r.0) request in
    let field : ShortFrame.c_field (wire_request primary_id (not p.last_fcb)) ≡ ok ctl =
      ap (λ b. ShortFrame.c_field b) (sym framed) ∙ ap (λ r. r.0) q4 in
    let to_c4 : c4.sent ≡ c.sent =
      sym (ap after q4)
      ∙ sym (ap after q3)
      ∙ ap after request
      ∙ sym (ap after q2)
      ∙ sym (ap after q1)
      ∙ check_context-Quiet c in
    let to_c' : c'.sent ≡ c5.sent =
      sym (ap after e7) ∙ sym (ap after q7) ∙ sym (ap after q6) ∙ read_long_frame-Quiet c5 in
    record {
      response = f;
      within = not_refused p.frame_count (ap (λ r. r.0) q2);
      counted = sym (ap (λ (t : Progress F.Float). t.frame_count) made);
      alternates =
          sym (ap (λ (t : Progress F.Float). t.last_fcb) made)
          ∙ fcb-wire_request primary_id (not p.last_fcb) ctl field;
      reports = sym (ap (λ (t : Progress F.Float). t.more) made);
      grows = sym (ap (λ (t : Progress F.Float). t.frames) made);
      sends =
          to_c'
          ∙ write_frame-sent frame c4 c5 u q5
          ∙ ap (λ t. t ++ (frame ∷ [])) to_c4
          ∙ ap (λ (t : Bytes). c.sent ++ (t ∷ [])) framed;
    }
