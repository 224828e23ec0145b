-- ===== src/Client/Clock/Deadlines.antt =====
-- read.go: a read ends once the clock has got to its deadline.
use gombus.Prelude.{
  ℕ, ◌+◌, ◌≤◌, ◌≡◌, ◌⊎◌, inl, inr, subst, sym, arith, Option, none, some, List, [], ◌∷◌, le→not_ltb,
}
use gombus.Result.{Error, IsSafe}
use gombus.Client.{
  Poll, context_ended, deadline_passed, deadline_refused, read, timed_out, failed, Client,
}
use gombus.Client.Fill.{read_long_frame, read_single_char_frame}
use gombus.Client.Fill.Ends.{Ends, reads-IsSafe}
use gombus.Client.Clock.{Round, frame_read_timeout, frame_deadline, timed_poll, poll_of, polls_of}

-- A round at which the clock has got to a time.
abbrev pub Reaches : ℕ → List Round → Type 0
Reaches time [] = ⊥
Reaches time (r ∷ rounds) = (time ≤ r.now) ⊎ Reaches time rounds

Ends-later : (p : Poll) (polls : List Poll) → Ends polls → Ends (p ∷ polls)
unfolding Ends
Ends-later (context_ended e) polls h = tt
Ends-later deadline_passed polls h = tt
Ends-later (deadline_refused e) polls h = tt
Ends-later (read b none) polls h = h
Ends-later (read b (some timed_out)) polls h = h
Ends-later (read [] (some (failed e))) polls h = tt
Ends-later (read (x ∷ more) (some (failed e))) polls h = h

timed_poll-late :
    (context : Option Error) (deadline : ℕ) (r : Round) (polls : List Poll)
    → deadline ≤ r.now
    → Ends (timed_poll context deadline r ∷ polls)
unfolding timed_poll Ends
timed_poll-late (some e) deadline r polls h = tt
timed_poll-late none deadline r polls h = rw (le→not_ltb r.now deadline h) tt

polls_of-Ends :
    (deadline time : ℕ) (rounds : List Round)
    → deadline ≤ time
    → Reaches time rounds
    → Ends (polls_of deadline rounds)
unfolding polls_of poll_of
polls_of-Ends deadline time [] h e = elim e [ ]
polls_of-Ends deadline time (r ∷ rounds) h (inl e) =
    timed_poll-late r.context deadline r (polls_of deadline rounds) (omega arith)
polls_of-Ends deadline time (r ∷ rounds) h (inr e) =
    Ends-later (poll_of deadline r) (polls_of deadline rounds)
      (polls_of-Ends deadline time rounds h e)

-- The deadline of the context only tightens the one of the frame.
frame_deadline-le :
    (now : ℕ) (context : Option ℕ) → frame_deadline now context ≤ now + frame_read_timeout
unfolding frame_deadline
frame_deadline-le now none = omega arith
frame_deadline-le now (some d) = ground arith

-- Whatever the transport and the context do: if the polls of a client are what the rounds of fill
-- meet under the deadline of a read that begins at `now`, and the clock of some round has got to
-- two seconds after that, reading a long frame and reading an acknowledgement both end in a frame
-- or an error.
pub timed_reads-IsSafe :
    (now : ℕ) (context : Option ℕ) (rounds : List Round) (c : Client)
    → c.polls ≡ polls_of (frame_deadline now context) rounds
    → Reaches (now + frame_read_timeout) rounds
    → IsSafe (read_long_frame c).0 × IsSafe (read_single_char_frame c).0
timed_reads-IsSafe now context rounds c e h = reads-IsSafe c (
    subst Ends (sym e) (
      polls_of-Ends (frame_deadline now context) (now + frame_read_timeout) rounds
        (frame_deadline-le now context) h))
