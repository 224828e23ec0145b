-- ===== src/Client/Fill/Ends.antt =====
-- read.go: a read ends once the context, the deadline or the connection does.
use gombus.Prelude.{
  ℕ, zero, suc, ◌<◌, ◌≡◌, refl, Option, none, some, List, [], ◌∷◌, arith, length, if-holds,
}
use gombus.Result.{
  Bytes, Error, Result, ok, err, fault, need_more, errors_is, IsSafe, returns, fails,
}
use gombus.Read.{parse_long_frame}
use gombus.Read.LongFrames.{parse_long_frame_total}
use gombus.Client.{
  Poll, context_ended, deadline_passed, deadline_refused, read, timed_out, failed, Client, Session,
  consume,
}
use gombus.Frame.{single_character_frame}
use gombus.Client.Fill.{
  fill_from, filled, fill, wrap_fill_err, after_fill, after_parse, read_long_loop, read_long_frame,
  after_search, noted_single, index_byte, read_single_loop, read_single_char_frame,
}

-- A script with a round that ends `fill` if no bytes come before it.
unfoldable pub Ends : List Poll → Type 0
Ends [] = ⊥
Ends (read b none ∷ rest) = Ends rest
Ends (read b (some timed_out) ∷ rest) = Ends rest
Ends (read [] (some (failed e)) ∷ rest) = Unit {0}
Ends (read (b ∷ more) (some (failed e)) ∷ rest) = Ends rest
Ends (context_ended e ∷ rest) = Unit {0}
Ends (deadline_passed ∷ rest) = Unit {0}
Ends (deadline_refused e ∷ rest) = Unit {0}

-- The fill is an error, or bytes before the end of the script.
abbrev Goes : List Poll → Result Bytes × List Poll → Type 0
Goes polls (ok buf, rest) = Ends rest × (length rest < length polls)
Goes polls (err e, rest) = Unit {0}
Goes polls (fault x, rest) = ⊥

later :
    (p : Poll) (polls : List Poll) (r : Result Bytes × List Poll)
    → Goes polls r
    → Goes (p ∷ polls) r
later p polls (ok buf, rest) (e, l) = (e, omega arith)
later p polls (err x, rest) g = tt
later p polls (fault x, rest) g = g

fill_from-Goes : (polls : List Poll) (buf : Bytes) → Ends polls → Goes polls (fill_from polls buf)
unfolding fill_from Ends
fill_from-Goes [] buf a = a
fill_from-Goes (read (b ∷ more) none ∷ rest) buf a = (a, omega arith)
fill_from-Goes (read (b ∷ more) (some timed_out) ∷ rest) buf a = (a, omega arith)
fill_from-Goes (read (b ∷ more) (some (failed e)) ∷ rest) buf a = (a, omega arith)
fill_from-Goes (read [] none ∷ rest) buf a =
    later (read [] none) rest (fill_from rest buf) (fill_from-Goes rest buf a)
fill_from-Goes (read [] (some timed_out) ∷ rest) buf a =
    later (read [] (some timed_out)) rest (fill_from rest buf) (fill_from-Goes rest buf a)
fill_from-Goes (read [] (some (failed e)) ∷ rest) buf a = tt
fill_from-Goes (context_ended e ∷ rest) buf a = tt
fill_from-Goes (deadline_passed ∷ rest) buf a = tt
fill_from-Goes (deadline_refused e ∷ rest) buf a = tt

after_fill-IsSafe :
    (c : Client) (wrap : Bytes → Error → Error) (next : Session Bytes)
    (r : Result Bytes × List Poll)
    → Goes c.polls r
    → ((d : Client) → length d.polls < length c.polls → Ends d.polls → IsSafe (next d).0)
    → IsSafe (after_fill wrap next (filled c r)).0
unfolding after_fill filled
after_fill-IsSafe c wrap next (ok buf, rest) (e, l) h = h (record c { buf = buf; polls = rest }) l e
after_fill-IsSafe c wrap next (err x, rest) g h = fails
after_fill-IsSafe c wrap next (fault x, rest) g h = absurd g

after_parse-IsSafe :
    (c : Client) (next : Session Bytes) (r : Result (Bytes × ℕ))
    → parse_long_frame c.buf ≡ r
    → Ends c.polls
    → ((d : Client) → length d.polls < length c.polls → Ends d.polls → IsSafe (next d).0)
    → IsSafe (after_parse next r c).0
unfolding after_parse fill
after_parse-IsSafe c next (ok (frame, n)) e a h = returns tt
after_parse-IsSafe c next (err x) e a h =
    if-holds (λ (p : Result Bytes × Client). IsSafe p.0) (errors_is x need_more)
      (λ _.
        after_fill-IsSafe c wrap_fill_err next (fill_from c.polls c.buf)
          (fill_from-Goes c.polls c.buf a) h)
      λ _. fails
after_parse-IsSafe c next (fault x) e a h = absurd (parse_long_frame_total c.buf x e)

read_long_loop-IsSafe :
    (fuel : ℕ) (c : Client)
    → length c.polls < fuel
    → Ends c.polls
    → IsSafe (read_long_loop fuel c).0
unfolding read_long_loop
read_long_loop-IsSafe zero c l a = absurd (omega arith)
read_long_loop-IsSafe (suc fuel) c l a =
    after_parse-IsSafe c (read_long_loop fuel) (parse_long_frame c.buf) refl a
      λ d less b. read_long_loop-IsSafe fuel d (omega arith) b

read_long_frame-IsSafe : (c : Client) → Ends c.polls → IsSafe (read_long_frame c).0
unfolding read_long_frame
read_long_frame-IsSafe c a = read_long_loop-IsSafe (suc (length c.polls)) c (omega arith) a

after_search-IsSafe :
    (c : Client) (next : Session Bytes) (r : Option ℕ)
    → Ends c.polls
    → ((d : Client) → length d.polls < length c.polls → Ends d.polls → IsSafe (next d).0)
    → IsSafe (after_search next r c).0
unfolding after_search fill
after_search-IsSafe c next (some i) a h = returns tt
after_search-IsSafe c next none a h =
    let d : Client = consume (length c.buf) c in
    after_fill-IsSafe d noted_single next (fill_from d.polls d.buf) (fill_from-Goes d.polls d.buf a)
      h

read_single_loop-IsSafe :
    (fuel : ℕ) (c : Client)
    → length c.polls < fuel
    → Ends c.polls
    → IsSafe (read_single_loop fuel c).0
unfolding read_single_loop
read_single_loop-IsSafe zero c l a = absurd (omega arith)
read_single_loop-IsSafe (suc fuel) c l a =
    after_search-IsSafe c (read_single_loop fuel) (index_byte c.buf single_character_frame) a
      λ d less b. read_single_loop-IsSafe fuel d (omega arith) b

-- Once the script has a round in which the context has ended, the deadline has passed or cannot be
-- set, or the connection fails without delivering a byte, reading a long frame and reading an
-- acknowledgement both end in a frame or an error.
pub reads-IsSafe :
    (c : Client) → Ends c.polls → IsSafe (read_long_frame c).0 × IsSafe (read_single_char_frame c).0
unfolding read_single_char_frame
reads-IsSafe c a =
    (read_long_frame-IsSafe c a, read_single_loop-IsSafe (suc (length c.polls)) c (omega arith) a)
