-- ===== src/Client/Fill/Streams.antt =====
-- read.go: the frame that a client reads does not depend on how the bytes of the connection are split
-- into reads.
use gombus.Prelude.{
  ℕ, zero, suc, ◌<◌, ◌≡◌, ◌≢◌, ◌⊎◌, inl, inr, refl, sym, ap, ◌∙◌, none, some, List, [], ◌∷◌, ◌++◌,
  append_assoc, append-nil, arith, subst, length, drop, if-holds,
}
use gombus.Result.{Bytes, Result, ok, err, fault, sentinel, need_more, errors_is}
use gombus.Read.{parse_long_frame}
use gombus.Read.LongFrames.{
  IsLongFrame, errors_is_need_more, parse_long_frame_sound, parse_long_frame-append,
  parse_long_frame-IsLongFrame,
}
use gombus.Client.{
  Poll, context_ended, deadline_passed, deadline_refused, read, timed_out, failed, Client, Session,
}
use gombus.Client.Fill.{
  fill_from, filled, fill, wrap_fill_err, after_fill, after_parse, read_long_loop, read_long_frame,
}
use gombus.Client.Fill.Accounts.{delivered, ahead, Kept, fill_from-Kept}

-- Reads that deliver bytes or nothing, without an error and before the deadline.
unfoldable pub AllReads : List Poll → Type 0
AllReads [] = Unit {0}
AllReads (read b none ∷ rest) = AllReads rest
AllReads (read b (some timed_out) ∷ rest) = AllReads rest
AllReads (read b (some (failed e)) ∷ rest) = ⊥
AllReads (context_ended e ∷ rest) = ⊥
AllReads (deadline_passed ∷ rest) = ⊥
AllReads (deadline_refused e ∷ rest) = ⊥

-- Reads fill the buffer unless they deliver nothing more.
Fills : List Poll → Bytes → Type 0
Fills polls buf =
    (delivered polls ≡ [])
    ⊎ ((buf' : Bytes) × (rest : List Poll) × (fill_from polls buf ≡ (ok buf', rest))
        × AllReads rest)

fill_from-Fills : (polls : List Poll) (buf : Bytes) → AllReads polls → Fills polls buf
unfolding Fills fill_from AllReads delivered
fill_from-Fills [] buf a = inl refl
fill_from-Fills (read (b ∷ more) none ∷ rest) buf a = inr (buf ++ (b ∷ more), rest, refl, a)
fill_from-Fills (read (b ∷ more) (some timed_out) ∷ rest) buf a =
    inr (buf ++ (b ∷ more), rest, refl, a)
fill_from-Fills (read (b ∷ more) (some (failed e)) ∷ rest) buf a = absurd a
fill_from-Fills (read [] none ∷ rest) buf a = fill_from-Fills rest buf a
fill_from-Fills (read [] (some timed_out) ∷ rest) buf a = fill_from-Fills rest buf a
fill_from-Fills (read [] (some (failed e)) ∷ rest) buf a = absurd a
fill_from-Fills (context_ended e ∷ rest) buf a = absurd a
fill_from-Fills (deadline_passed ∷ rest) buf a = absurd a
fill_from-Fills (deadline_refused e ∷ rest) buf a = absurd a

append_cancel {ℓ} : {A : Type ℓ} (a : List A) {b c : List A} → a ++ b ≡ a ++ c → b ≡ c
append_cancel [] e = e
append_cancel (x ∷ a) {b} {c} e = let rest : a ++ b ≡ a ++ c = cc in append_cancel a rest

-- The outcome that every split of the bytes into reads gives.
unfoldable pub Framed : Bytes → Bytes → Result Bytes × Client → Type 0
Framed frame rest p = (p.0 ≡ ok frame) × (ahead p.1 ≡ rest)

-- Once the parser settles, it has the frame that is ahead.
settled :
    (c : Client) (frame rest : Bytes)
    → IsLongFrame frame
    → ahead c ≡ frame ++ rest
    → parse_long_frame c.buf ≢ err (sentinel need_more)
    → parse_long_frame c.buf ≡ ok (frame, length frame)
settled c frame rest w h n =
    sym (parse_long_frame-append c.buf (delivered c.polls) n)
    ∙ ap parse_long_frame h
    ∙ parse_long_frame-IsLongFrame frame rest w

-- With nothing more to come the parser has settled.
at_the_end :
    (c : Client) (frame rest : Bytes)
    → IsLongFrame frame
    → ahead c ≡ frame ++ rest
    → delivered c.polls ≡ []
    → parse_long_frame c.buf ≡ ok (frame, length frame)
at_the_end c frame rest w h d =
    ap parse_long_frame (sym (append-nil c.buf) ∙ ap (λ t. c.buf ++ t) (sym d) ∙ h)
    ∙ parse_long_frame-IsLongFrame frame rest w

-- What the rounds after a fill have to give.
abbrev Continues : Client → Bytes → Bytes → Session Bytes → Type 0
Continues c frame rest next =
    (d : Client)
    → length d.polls < length c.polls
    → AllReads d.polls
    → ahead d ≡ frame ++ rest
    → Framed frame rest (next d)

after_fill-Framed :
    (c : Client) (frame rest : Bytes) (next : Session Bytes)
    → AllReads c.polls
    → ahead c ≡ frame ++ rest
    → delivered c.polls ≢ []
    → Continues c frame rest next
    → Framed frame rest (after_fill wrap_fill_err next (fill c))
unfolding after_fill fill filled Fills
after_fill-Framed c frame rest next a h n k = elim (fill_from-Fills c.polls c.buf a) [
  | inl d ↦ absurd (n d)
  | inr (buf, polls, q, b) ↦
      let (same, fewer) = subst (λ t. Kept c.polls c.buf t) q (fill_from-Kept c.polls c.buf) in
      rw q (k (record c { buf = buf; polls = polls }) fewer b (same ∙ h))
]

after_parse-Framed :
    (c : Client) (frame rest : Bytes) (next : Session Bytes) (r : Result (Bytes × ℕ))
    → parse_long_frame c.buf ≡ r
    → IsLongFrame frame
    → AllReads c.polls
    → ahead c ≡ frame ++ rest
    → Continues c frame rest next
    → Framed frame rest (after_parse next r c)
unfolding after_parse Framed
after_parse-Framed c frame rest next (ok (f, n)) e w a h k =
    let known = settled c frame rest w h (λ x. cc (e, x)) in
    let same : f ≡ frame = cc in
    let (_, whole, _) = parse_long_frame_sound c.buf f n e in
    let left : frame ++ (drop n c.buf ++ delivered c.polls) ≡ frame ++ rest =
      sym (append_assoc frame (drop n c.buf) (delivered c.polls))
      ∙ ap (λ t. (t ++ drop n c.buf) ++ delivered c.polls) (sym same)
      ∙ ap (λ t. t ++ delivered c.polls) whole
      ∙ h in
    (ap ok same, append_cancel frame left)
after_parse-Framed c frame rest next (err x) e w a h k =
    if-holds (Framed frame rest) (errors_is x need_more)
      (λ t. after_fill-Framed c frame rest next a h (λ d. cc (e, at_the_end c frame rest w h d)) k)
      λ t.
        let known = settled c frame rest w h (λ y.
          let same : errors_is x need_more ≡ errors_is (sentinel need_more) need_more = cc in
          cc (same, t, errors_is_need_more)) in
        cc (e, known)
after_parse-Framed c frame rest next (fault x) e w a h k =
    let known = settled c frame rest w h (λ y. cc (e, y)) in absurd (cc (e, known))

read_long_loop-Framed :
    (fuel : ℕ) (c : Client) (frame rest : Bytes)
    → length c.polls < fuel
    → IsLongFrame frame
    → AllReads c.polls
    → ahead c ≡ frame ++ rest
    → Framed frame rest (read_long_loop fuel c)
unfolding read_long_loop
read_long_loop-Framed zero c frame rest l w a h = absurd (omega arith)
read_long_loop-Framed (suc fuel) c frame rest l w a h =
    after_parse-Framed c frame rest (read_long_loop fuel) (parse_long_frame c.buf) refl w a h
      λ d less b g. read_long_loop-Framed fuel d frame rest (omega arith) w b g

-- Whenever what is buffered and what the reads deliver begins with a well-formed long frame, and
-- every round is a read that delivers bytes or nothing, a client reads that frame and has ahead of
-- it what follows, however the bytes are split into reads and whatever silent rounds lie between
-- them.
pub read_long_frame-stream :
    (c : Client) (frame rest : Bytes)
    → IsLongFrame frame
    → AllReads c.polls
    → ahead c ≡ frame ++ rest
    → ((read_long_frame c).0 ≡ ok frame) × (ahead (read_long_frame c).1 ≡ rest)
unfolding read_long_frame Framed
read_long_frame-stream c frame rest w a h =
    read_long_loop-Framed (suc (length c.polls)) c frame rest (omega arith) w a h
