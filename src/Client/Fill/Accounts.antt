-- ===== src/Client/Fill/Accounts.antt =====
-- read.go: reading a frame loses no byte of the connection and reads none twice.
use gombus.Prelude.{
  ℕ, zero, suc, ◌<◌, ◌≡◌, refl, sym, ap, ◌∙◌, none, some, List, [], ◌∷◌, ◌++◌, append_assoc, arith,
  length, drop, if-holds,
}
use gombus.Result.{Bytes, Error, Result, ok, err, fault, need_more, errors_is}
use gombus.Read.{parse_long_frame}
use gombus.Read.LongFrames.{IsLongFrame, parse_long_frame_sound}
use gombus.Client.{
  Poll, context_ended, deadline_passed, deadline_refused, read, timed_out, failed, Client, Session,
}
use gombus.Client.Fill.{
  fill_from, filled, fill, wrap_fill_err, after_fill, after_parse, read_long_loop, read_long_frame,
}

-- The bytes that the rest of a script delivers.
unfoldable pub delivered : List Poll → Bytes
delivered [] = []
delivered (read b e ∷ rest) = b ++ delivered rest
delivered (context_ended e ∷ rest) = delivered rest
delivered (deadline_passed ∷ rest) = delivered rest
delivered (deadline_refused e ∷ rest) = delivered rest

-- The bytes that a client has ahead of it: those in its buffer, and those of its script.
abbrev pub ahead : Client → Bytes
ahead c = c.buf ++ delivered c.polls

-- The rounds that are left deliver what the buffer did not take.
abbrev pub Kept : List Poll → Bytes → Result Bytes × List Poll → Type 0
Kept polls buf (ok buf', rest) =
    (buf' ++ delivered rest ≡ buf ++ delivered polls) × (length rest < length polls)
Kept polls buf (err e, rest) = delivered rest ≡ delivered polls
Kept polls buf (fault x, rest) = delivered rest ≡ delivered polls

Kept-from :
    (polls : List Poll) (p : Poll) (buf : Bytes) (r : Result Bytes × List Poll)
    → delivered (p ∷ polls) ≡ delivered polls
    → Kept polls buf r
    → Kept (p ∷ polls) buf r
Kept-from polls p buf (ok buf', rest) e (k, l) = (k ∙ ap (λ t. buf ++ t) (sym e), omega arith)
Kept-from polls p buf (err x, rest) e k = k ∙ sym e
Kept-from polls p buf (fault x, rest) e k = k ∙ sym e

pub fill_from-Kept : (polls : List Poll) (buf : Bytes) → Kept polls buf (fill_from polls buf)
unfolding fill_from delivered
fill_from-Kept [] buf = refl
fill_from-Kept (context_ended e ∷ rest) buf = refl
fill_from-Kept (deadline_passed ∷ rest) buf = refl
fill_from-Kept (deadline_refused e ∷ rest) buf = refl
fill_from-Kept (read (b ∷ more) e ∷ rest) buf =
    (append_assoc buf (b ∷ more) (delivered rest), omega arith)
fill_from-Kept (read [] (some timed_out) ∷ rest) buf =
    Kept-from rest (read [] (some timed_out)) buf (fill_from rest buf) refl
      (fill_from-Kept rest buf)
fill_from-Kept (read [] (some (failed e)) ∷ rest) buf = refl
fill_from-Kept (read [] none ∷ rest) buf =
    Kept-from rest (read [] none) buf (fill_from rest buf) refl (fill_from-Kept rest buf)

-- A long frame and what follows it are what was ahead; an error leaves all of it.
unfoldable pub Accounted : Client → Result Bytes × Client → Type 0
Accounted c (ok frame, c') = IsLongFrame frame × (frame ++ ahead c' ≡ ahead c)
Accounted c (err e, c') = ahead c' ≡ ahead c
Accounted c (fault x, c') = ahead c' ≡ ahead c

Accounted-from :
    (c d : Client) (r : Result Bytes × Client) → ahead d ≡ ahead c → Accounted d r → Accounted c r
unfolding Accounted
Accounted-from c d (ok frame, c') e (w, k) = (w, k ∙ e)
Accounted-from c d (err x, c') e k = k ∙ e
Accounted-from c d (fault x, c') e k = k ∙ e

after_fill-Accounted :
    (c : Client) (wrap : Bytes → Error → Error) (next : Session Bytes)
    (r : Result Bytes × List Poll)
    → Kept c.polls c.buf r
    → ((d : Client) → Accounted d (next d))
    → Accounted c (after_fill wrap next (filled c r))
unfolding after_fill filled Accounted
after_fill-Accounted c wrap next (ok buf, rest) (k, _) h =
    let d : Client = record c { buf = buf; polls = rest } in Accounted-from c d (next d) k (h d)
after_fill-Accounted c wrap next (err e, rest) k h = ap (λ t. c.buf ++ t) k
after_fill-Accounted c wrap next (fault x, rest) k h = ap (λ t. c.buf ++ t) k

after_parse-Accounted :
    (c : Client) (next : Session Bytes) (r : Result (Bytes × ℕ))
    → parse_long_frame c.buf ≡ r
    → ((d : Client) → Accounted d (next d))
    → Accounted c (after_parse next r c)
unfolding after_parse fill Accounted
after_parse-Accounted c next (ok (frame, n)) e h =
    let (w, k, _) = parse_long_frame_sound c.buf frame n e in
    (
      w,
      sym (append_assoc frame (drop n c.buf) (delivered c.polls))
          ∙ ap (λ t. t ++ delivered c.polls) k,
    )
after_parse-Accounted c next (err x) e h =
    if-holds (Accounted c) (errors_is x need_more)
      (λ _.
        after_fill-Accounted c wrap_fill_err next (fill_from c.polls c.buf)
          (fill_from-Kept c.polls c.buf) h)
      λ _. refl
after_parse-Accounted c next (fault x) e h = refl

read_long_loop-Accounted : (fuel : ℕ) (c : Client) → Accounted c (read_long_loop fuel c)
unfolding read_long_loop Accounted
read_long_loop-Accounted zero c = refl
read_long_loop-Accounted (suc fuel) c =
    after_parse-Accounted c (read_long_loop fuel) (parse_long_frame c.buf) refl
      (read_long_loop-Accounted fuel)

-- Whatever the rounds of the connection meet, a read loses no byte and reads none twice: a frame
-- that is returned is well formed and, with what is then ahead, is what was ahead before; an error
-- leaves all of it ahead.
pub read_long_frame-Accounted : (c : Client) → Accounted c (read_long_frame c)
unfolding read_long_frame
read_long_frame-Accounted c = read_long_loop-Accounted (suc (length c.polls)) c
