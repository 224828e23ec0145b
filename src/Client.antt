-- ===== src/Client.antt =====
-- The type Client of gombus.go, and the transport it owns as a script of what the calls on it meet.
--
-- The clock, the context and the connection are the script: one element for each round of the loop
-- of `fill`, for each `WriteFrame`, and for each test of the context outside those two. A script
-- that is used up is a fault, out of fuel. Clearing the read deadline has no effect here.
pub mod Fill
pub mod Walk
pub mod Sends
pub mod Clock
pub mod Debug
use gombus.Prelude.{
  ℕ, Bool, true, false, if◌then◌else◌, Option, none, some, List, [], ◌∷◌, ◌++◌, drop,
}
use gombus.Result.{Bytes, Error, Result, ok, err, fault, out_of_fuel, noted, set_write_deadline}

-- What `conn.Read` returns beside no byte: an error for which `isTimeout` holds, or another.
pub data ReadError : Type 0 where
  timed_out : ReadError
  failed : Error → ReadError

-- One round of the loop of `fill`, at the call that it gets to: the context has ended, the deadline
-- has passed, `SetReadDeadline` fails, or `Read` returns these bytes with this error.
pub data Poll : Type 0 where
  context_ended : Error → Poll
  deadline_passed : Poll
  deadline_refused : Error → Poll
  read : Bytes → Option ReadError → Poll

-- One `WriteFrame`: the errors of the context, of `SetWriteDeadline` and of `Write`.
pub record Sending : Type 0 where
  pub context_error : Option Error
  pub deadline_error : Option Error
  pub write_error : Option Error

-- `sent` holds the frames handed to `Write`, the first one first.
pub record Client : Type 0 where
  pub buf : Bytes
  pub polls : List Poll
  pub sendings : List Sending
  pub contexts : List (Option Error)
  pub sent : List Bytes

-- `NewClient`, on a connection with this script.
abbrev pub new_client : List Poll → List Sending → List (Option Error) → Client
new_client polls sendings contexts = record {
  buf = [];
  polls = polls;
  sendings = sendings;
  contexts = contexts;
  sent = [];
}

-- A method of Client: its result, and the client after it.
abbrev pub Session {ℓ} : Type ℓ → Type ℓ
Session A = Client → Result A × Client

abbrev pub pure {ℓ} : {A : Type ℓ} → A → Session A
pure a c = (ok a, c)

abbrev pub lift {ℓ} : {A : Type ℓ} → Result A → Session A
lift r c = (r, c)

abbrev pub and_then {ℓ μ} :
    {A : Type ℓ} {B : Type μ} → Result A × Client → (A → Session B) → Result B × Client
and_then (ok a, c) next = next a c
and_then (err e, c) next = (err e, c)
and_then (fault x, c) next = (fault x, c)

infixl 5 ◌>>=◌ ◌>>◌
abbrev pub ◌>>=◌ {ℓ μ} : {A : Type ℓ} {B : Type μ} → Session A → (A → Session B) → Session B
(first >>= next) c = and_then (first c) next

abbrev pub ◌>>◌ {ℓ} : {B : Type ℓ} → Session (Unit {0}) → Session B → Session B
first >> next = first >>= λ _. next

-- `c.consume(n)`
abbrev pub consume : ℕ → Client → Client
consume n c = record c { buf = drop n c.buf }

-- `if err != nil { return err }`
abbrev pub unless_error : Option Error → Result (Unit {0})
unless_error none = ok tt
unless_error (some e) = err e

-- `ctx.Err()` outside `fill` and `WriteFrame`.
unfoldable pub take_context : List (Option Error) → Session (Unit {0})
take_context [] c = (fault out_of_fuel, c)
take_context (e ∷ rest) c = (unless_error e, record c { contexts = rest })

unfoldable pub check_context : Session (Unit {0})
unfolding take_context
check_context c = take_context c.contexts c

-- The outcome of a `WriteFrame` by its three errors, and whether `Write` was called.
unfoldable pub write_outcome : Option Error → Option Error → Option Error → Result (Unit {0}) × Bool
write_outcome (some e) deadline_error write_error = (err e, false)
write_outcome none (some e) write_error = (err (noted set_write_deadline e), false)
write_outcome none none write_error = (unless_error write_error, true)

unfoldable pub take_sending : List Sending → Bytes → Session (Unit {0})
unfolding write_outcome
take_sending [] frame c = (fault out_of_fuel, c)
take_sending (s ∷ rest) frame c =
    let outcome = write_outcome s.context_error s.deadline_error s.write_error in
    (
      outcome.0,
      record c { sendings = rest; sent = if outcome.1 then c.sent ++ (frame ∷ []) else c.sent },
    )

unfoldable pub write_frame : Bytes → Session (Unit {0})
unfolding take_sending
write_frame frame c = take_sending c.sendings frame c

-- `Close`, with the error of the connection.
unfoldable pub close : Option Error → Session (Unit {0})
close e c = (unless_error e, record c { buf = [] })
