-- ===== src/Client/Debug.antt =====
-- read.go: readAnyAndPrint, the debugging loop that prints what a reader delivers.
pub mod Ends
use gombus.Prelude.{
  ℕ, ◌/◌, ◌%◌, Bool, true, false, Option, none, some, List, [], ◌∷◌, ◌++◌, ltb, if◌then◌else◌,
}
use gombus.Encoding.{is_empty}
use gombus.Response.Text.{hex_digit}
use gombus.Result.{
  Bytes, Error, Result, ok, err, fault, out_of_fuel, message, noted, debug_timeout,
  set_read_deadline, read_failed, eof, errors_is,
}

-- In milliseconds.
abbrev pub max_duration : ℕ
max_duration = 30000

-- What the world gives to one round of the loop: the time since the start, the answer of
-- `SetReadDeadline`, and what `Read` returns.
pub record DebugRound : Type 0 where
  pub elapsed : ℕ
  pub deadline_error : Option Error
  pub bytes : Bytes
  pub error : Option Error

-- `fmt.Sprintf("% x", b)`
unfoldable pub spaced_hex : Bytes → Bytes
spaced_hex [] = []
spaced_hex (b ∷ []) = hex_digit (b / 16) ∷ hex_digit (b % 16) ∷ []
spaced_hex (b ∷ (c ∷ rest)) = hex_digit (b / 16) ∷ hex_digit (b % 16) ∷ 0x20 ∷ spaced_hex (c ∷ rest)

unfoldable pub hex_line : Bytes → Bytes
unfolding spaced_hex
hex_line b = if is_empty b then [] else spaced_hex b ++ (0x0A ∷ [])

-- The error of the loop, and what it has printed; `next` is the rest of the loop.
abbrev pub Printed : Type 0
Printed = Result (Unit {0}) × Bytes

unfoldable pub after_read : Printed → Bytes → Option Error → Printed
unfolding hex_line
after_read next b none = (next.0, hex_line b ++ next.1)
after_read next b (some e) =
    if errors_is e eof then (ok tt, []) else (err (noted read_failed e), [])

-- The deadline of a round is set only on a reader that has one.
unfoldable pub after_deadline : Printed → Bool → DebugRound → Option Error → Printed
unfolding after_read
after_deadline next false r e = after_read next r.bytes r.error
after_deadline next true r none = after_read next r.bytes r.error
after_deadline next true r (some e) = (err (noted set_read_deadline e), [])

unfoldable pub debug_round : Printed → Bool → DebugRound → Printed
unfolding after_deadline
debug_round next has_deadline r =
    if ltb max_duration r.elapsed
    then (err (message debug_timeout), [])
    else after_deadline next has_deadline r r.deadline_error

unfoldable pub read_any_and_print : Bool → List DebugRound → Printed
unfolding debug_round
read_any_and_print has_deadline [] = (fault out_of_fuel, [])
read_any_and_print has_deadline (r ∷ rounds) =
    let next : Printed = read_any_and_print has_deadline rounds in debug_round next has_deadline r
