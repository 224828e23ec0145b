-- ===== src/Client/Debug/Ends.antt =====
-- read.go: readAnyAndPrint ends.
use gombus.Prelude.{
  ◌<◌, ◌⊎◌, inl, inr, Bool, true, false, Option, none, some, List, [], ◌∷◌, ltb, arith, if-holds,
}
use gombus.Result.{Bytes, Error, eof, IsSafe, fails, returns, errors_is}
use gombus.Client.Debug.{
  DebugRound, max_duration, Printed, after_read, after_deadline, debug_round, read_any_and_print,
}

-- The half minute is over at some round.
abbrev pub TimesOut : List DebugRound → Type 0
TimesOut [] = ⊥
TimesOut (r ∷ rounds) = (max_duration < r.elapsed) ⊎ TimesOut rounds

after_read-IsSafe :
    (next : Printed) (b : Bytes) (e : Option Error) → IsSafe next.0 → IsSafe (after_read next b e).0
unfolding after_read
after_read-IsSafe next b none h = h
after_read-IsSafe next b (some e) h =
    if-holds (λ (p : Printed). IsSafe p.0) (errors_is e eof) (λ _. returns tt) λ _. fails

after_deadline-IsSafe :
    (next : Printed) (has_deadline : Bool) (r : DebugRound) (e : Option Error)
    → IsSafe next.0
    → IsSafe (after_deadline next has_deadline r e).0
unfolding after_deadline
after_deadline-IsSafe next false r e h = after_read-IsSafe next r.bytes r.error h
after_deadline-IsSafe next true r none h = after_read-IsSafe next r.bytes r.error h
after_deadline-IsSafe next true r (some e) h = fails

-- Once a round finds the half minute over, the loop ends without a fault.
pub read_any_and_print-IsSafe :
    (has_deadline : Bool) (rounds : List DebugRound)
    → TimesOut rounds
    → IsSafe (read_any_and_print has_deadline rounds).0
unfolding read_any_and_print debug_round
read_any_and_print-IsSafe has_deadline [] h = absurd h
read_any_and_print-IsSafe has_deadline (r ∷ rounds) (inl late) =
    if-holds (λ (p : Printed). IsSafe p.0) (ltb max_duration r.elapsed) (λ _. fails)
      λ e. ground arith
read_any_and_print-IsSafe has_deadline (r ∷ rounds) (inr later) =
    if-holds (λ (p : Printed). IsSafe p.0) (ltb max_duration r.elapsed) (λ _. fails)
      λ _.
        after_deadline-IsSafe (read_any_and_print has_deadline rounds) has_deadline r
          r.deadline_error (read_any_and_print-IsSafe has_deadline rounds later)
