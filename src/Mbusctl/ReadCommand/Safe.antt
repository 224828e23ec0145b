-- ===== src/Mbusctl/ReadCommand/Safe.antt =====
-- cmd/mbusctl/read.go: printing what was read never indexes out of range.
use gombus.Prelude.{
  ◌≤◌, ◌≡◌, ◌⊎◌, inl, inr, refl, Bool, true, false, Option, none, some, List, [], ◌∷◌, arith,
  length,
}
use gombus.Result.{
  Bytes, Fault, Message, Result, ok, err, fault, reading_target, IsSafe, returns, fails,
}
use gombus.Response.{DecodedFrame}
use gombus.Client.{Client}
use gombus.Mbusctl.{Writer, new_printer, print_all, unless_failed, write}
use gombus.Mbusctl.Target.{Target}
use gombus.Mbusctl.Json.{JsonValue, write_encoded, write_json}
use gombus.Mbusctl.Bus.{Environment, ReadFlags, report}
use gombus.Mbusctl.ReadCommand.{read_frames, frames_lines, print_first, print_frames, read_body}
use gombus.Mbusctl.ReadCommand.Fits.{Fits, read_frames-Fits}

unless_failed-IsSafe : (e : Option gombus.Result.Error) → IsSafe (unless_failed e)
unless_failed-IsSafe none = returns tt
unless_failed-IsSafe (some e) = fails

write_encoded-IsSafe : (r : Result Bytes) (w : Writer) → IsSafe r → IsSafe (write_encoded r w).0
unfolding write_encoded
write_encoded-IsSafe (ok text) w h = unless_failed-IsSafe (write text w).0
write_encoded-IsSafe (err e) w h = fails
write_encoded-IsSafe (fault x) w h = elim h [ ]

module _ (env : Environment) where
  print_frames-IsSafe :
      (json all : Bool) (frames : List (DecodedFrame env.floats.Float)) (w : Writer)
      → ((v : JsonValue env.floats.Float) → IsSafe (env.encode_json v))
      → 1 ≤ length frames
      → IsSafe (print_frames env json all frames w).0
  unfolding print_frames print_first write_json
  print_frames-IsSafe json all [] w h n = absurd (omega arith)
  print_frames-IsSafe false all (f ∷ rest) w h n =
      unless_failed-IsSafe (print_all (frames_lines env (f ∷ rest)) (new_printer w)).error
  print_frames-IsSafe true true (f ∷ rest) w h n = write_encoded-IsSafe _ w (h _)
  print_frames-IsSafe true false (f ∷ rest) w h n = write_encoded-IsSafe _ w (h _)

  report-IsSafe :
      (json all : Bool) (w : Writer) (p : Result (List (DecodedFrame env.floats.Float)) × Client)
      → ((v : JsonValue env.floats.Float) → IsSafe (env.encode_json v))
      → Fits all p
      → IsSafe (report reading_target (print_frames env json all) w p).result
        ⊎ ((x : Fault) × (p.0 ≡ fault x))
  unfolding report Fits
  report-IsSafe json all w (ok frames, c) h f = inl (print_frames-IsSafe json all frames w h f.0)
  report-IsSafe json all w (err e, c) h f = inl fails
  report-IsSafe json all w (fault x, c) h f = inr (x, refl)

  -- Given a JSON encoder that does not panic: the body of the read command panics only where the
  -- read itself does, since a read that succeeds returns the frame that is printed.
  pub read_body-IsSafe :
      (flags : ReadFlags) (t : Target) (c : Client) (w : Writer)
      → ((v : JsonValue env.floats.Float) → IsSafe (env.encode_json v))
      → IsSafe (read_body env flags t c w).result
        ⊎ ((x : Fault) × ((read_frames env t flags.all c).0 ≡ fault x))
  unfolding read_body
  read_body-IsSafe flags t c w h =
      report-IsSafe flags.bus.json flags.all w (read_frames env t flags.all c) h
        (read_frames-Fits env t flags.all c)
