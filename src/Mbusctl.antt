-- ===== src/Mbusctl.antt =====
-- cmd/mbusctl/main.go: the errors, exit codes and output of the command line tool.
--
-- A writer is any: `error_at n` is the error of its n-th write. What goes to stderr is left out.
pub mod Printing
pub mod Target
pub mod Json
pub mod Bus
pub mod ReadCommand
pub mod SetAddress
pub mod ScanCommand
pub mod Run
use gombus.Prelude.{
  ℕ, Bool, true, false, ◌||◌, Option, none, some, List, [], ◌∷◌, ◌++◌, String, if◌then◌else◌,
  length,
}
use gombus.Units.{codes}
use gombus.Result.{
  Bytes, Error, Message, Result, ok, err, fault, message, sentinel, wrapped, noted, joined, usage,
  flag_help, errors_is,
}

abbrev pub exit_ok : ℕ
exit_ok = 0

abbrev pub exit_error : ℕ
exit_error = 1

abbrev pub exit_usage : ℕ
exit_usage = 2

-- `usagef`
abbrev pub usagef : Message → Error
usagef m = usage (message m)

-- `errors.As(err, &ue)` for a usageError.
unfoldable pub errors_as_usage : Error → Bool
errors_as_usage (message m) = false
errors_as_usage (sentinel t) = false
errors_as_usage (wrapped t e) = errors_as_usage e
errors_as_usage (noted m e) = errors_as_usage e
errors_as_usage (joined d e) = errors_as_usage d || errors_as_usage e
errors_as_usage (usage e) = true

-- The switch of `mainCode` over what `run` returns. A panic ends a Go program with 2.
unfoldable pub main_code : Result (Unit {0}) → ℕ
unfolding errors_as_usage errors_is
main_code (ok u) = exit_ok
main_code (err e) =
    if errors_is e flag_help
    then exit_usage
    else if errors_as_usage e
    then exit_usage
    else exit_error
main_code (fault x) = 2

-- An io.Writer; `written` holds the texts handed to `Write`, the first one first.
pub record Writer : Type 0 where
  pub written : List Bytes
  pub error_at : ℕ → Option Error

unfoldable pub write : Bytes → Writer → Option Error × Writer
write text w = (w.error_at (length w.written), record w { written = w.written ++ (text ∷ []) })

-- The type printer.
pub record Printer : Type 0 where
  pub out : Writer
  pub error : Option Error

abbrev pub new_printer : Writer → Printer
new_printer w = record { out = w; error = none }

unfoldable pub print_after : Option Error → Bytes → Printer → Printer
unfolding write
print_after (some e) text p = p
print_after none text p = let r = write text p.out in record { out = r.1; error = r.0 }

-- The method printf, of a text already formatted.
unfoldable pub printf : Bytes → Printer → Printer
unfolding print_after
printf text p = print_after p.error text p

-- One printf after the other.
unfoldable pub print_all : List Bytes → Printer → Printer
unfolding printf
print_all [] p = p
print_all (text ∷ rest) p = print_all rest (printf text p)

-- `return p.Err()`, with the writer as it is left.
abbrev pub unless_failed : Option Error → Result (Unit {0})
unless_failed none = ok tt
unless_failed (some e) = err e

abbrev pub finished : Printer → Result (Unit {0}) × Writer
finished p = (unless_failed p.error, p.out)

-- `writeText`, which drops the error.
unfoldable pub write_text : Bytes → Writer → Writer
unfolding write
write_text text w = (write text w).1

-- The text of `printUsage`.
abbrev pub usage_text : Bytes
usage_text =
    codes
      "mbusctl reads wired M-Bus meters over TCP or serial.\n\nusage: mbusctl <command> [flags] [arguments]\n\ncommands:\n  scan         find meters by primary or secondary address\n  read         read one meter by primary or secondary address\n  set-address  write a new primary address into a meter\n  help         show this text\n\nFlags come after the command: mbusctl read -device /dev/ttyUSB0 1\nRun 'mbusctl <command> -h' for the flags of one command.\n"
