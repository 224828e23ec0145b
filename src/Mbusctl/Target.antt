-- ===== src/Mbusctl/Target.antt =====
-- cmd/mbusctl/addr.go, and parseNewPrimary of setaddr.go: the addresses of a command line.
--
-- An int is an integer that fits 64 bits. strconv.ParseUint and strconv.Atoi are modelled in base
-- 10, where they take digits only, and a sign in front of them for Atoi.
pub mod Agrees
pub mod Parses
pub mod RoundTrip
use gombus.Prelude.{
  ℕ, ◌+◌, ◌-◌, ◌*◌, ◌^◌, ◌%◌, Bool, true, false, not, ◌&&◌, ◌||◌, List, [], ◌∷◌, ◌++◌, ltb, leb,
  ◌==◌, if◌then◌else◌, length, replicate,
}
use gombus.Prelude.Int.{ℤ, pos, negsuc, neg}
use gombus.Units.{codes}
use gombus.Encoding.{is_empty}
use gombus.Result.{
  Bytes, Error, Message, Result, ok, err, fault, message, usage, noted, number_syntax, number_range,
  bad_destination, bad_assignable, invalid_flag, missing_address, not_digits, bad_secondary,
  too_many_digits, bad_primary, bad_new_address, ◌>>=◌, ◌>>◌, refuse,
}
use gombus.Response.Text.{digits_before}
use gombus.Response.Digits.{digits_value}
use gombus.Mbusctl.{usagef}

abbrev pub min_primary_addr : ℕ
min_primary_addr = 1

abbrev pub max_primary_addr : ℕ
max_primary_addr = 250

abbrev pub addr_secondary_select : ℕ
addr_secondary_select = 253

abbrev pub addr_broadcast_reply : ℕ
addr_broadcast_reply = 254

abbrev pub secondary_digits : ℕ
secondary_digits = 8

abbrev pub max_secondary_id : ℕ
max_secondary_id = 99999999

-- `uint8(value)`, two's complement.
abbrev pub to_uint8 : ℤ → ℕ
to_uint8 (pos n) = n % 2 ^ 8
to_uint8 (negsuc n) = (2 ^ 8 - 1) - n % 2 ^ 8

-- `value < bound` and `value > bound`
abbrev pub is_below : ℤ → ℕ → Bool
is_below (pos n) bound = ltb n bound
is_below (negsuc n) bound = true

abbrev pub is_above : ℤ → ℕ → Bool
is_above (pos n) bound = ltb bound n
is_above (negsuc n) bound = false

unfoldable pub destination_addr : ℤ → Result ℕ
destination_addr value = do
  refuse (is_below value 0 || is_above value 255) (message bad_destination)
  let addr = to_uint8 value
  let valid =
      (leb min_primary_addr addr && leb addr max_primary_addr)
      || (addr == addr_secondary_select || addr == addr_broadcast_reply)
  refuse (not valid) (message bad_destination)
  ok addr

unfoldable pub assignable_addr : ℤ → Result ℕ
assignable_addr value = do
  refuse (is_below value min_primary_addr || is_above value max_primary_addr)
      (message bad_assignable)
  ok (to_uint8 value)

-- The error with the flag; its name is left out.
unfoldable pub flag_error : Result ℕ → Result ℕ
flag_error (ok addr) = ok addr
flag_error (err e) = err (noted invalid_flag e)
flag_error (fault x) = fault x

unfoldable pub parse_destination_addr : ℤ → Result ℕ
unfolding flag_error destination_addr
parse_destination_addr value = flag_error (destination_addr value)

unfoldable pub parse_assignable_addr : ℤ → Result ℕ
unfolding flag_error assignable_addr
parse_assignable_addr value = flag_error (assignable_addr value)

-- The type target.
pub record Target : Type 0 where
  pub secondary : Bool
  pub primary : ℕ
  pub id : ℕ

abbrev pub secondary_target : ℕ → Target
secondary_target id = record { secondary = true; primary = 0; id = id }

abbrev pub primary_target : ℕ → Target
primary_target addr = record { secondary = false; primary = addr; id = 0 }

-- `%0*d` with secondaryDigits of a uint64, and `%d` of a uint8.
unfoldable pub number_text : Target → Bytes
unfolding digits_before
number_text t =
    let digits = digits_before 20 t.id [] in
    if t.secondary
    then replicate (secondary_digits - length digits) 0x30 ++ digits
    else digits_before 20 t.primary []

-- The method String.
unfoldable pub target_string : Target → Bytes
unfolding number_text
target_string t = (if t.secondary then codes "secondary " else codes "primary ") ++ number_text t

unfoldable pub is_digits : Bytes → Bool
is_digits [] = true
is_digits (r ∷ s) = not (ltb r 0x30 || ltb 0x39 r) && is_digits s

-- `strconv.ParseUint(s, 10, 64)`
unfoldable pub parse_uint : Bytes → Result ℕ
unfolding is_digits digits_value
parse_uint s = do
  refuse (is_empty s || not (is_digits s)) (message number_syntax)
  refuse (leb (2 ^ 64) (digits_value 0 s)) (message number_range)
  ok (digits_value 0 s)

-- `strconv.Atoi`
unfoldable pub signed_digits : Bool → Bytes → Result ℤ
unfolding is_digits digits_value
signed_digits negative s = do
  refuse (is_empty s || not (is_digits s)) (message number_syntax)
  let n = digits_value 0 s
  refuse (if negative then ltb (2 ^ 63) n else leb (2 ^ 63) n) (message number_range)
  ok (if negative then neg n else pos n)

unfoldable pub atoi : Bytes → Result ℤ
unfolding signed_digits
atoi [] = err (message number_syntax)
atoi (c ∷ s) =
    if c == 0x2B
    then signed_digits false s
    else if c == 0x2D
    then signed_digits true s
    else signed_digits false (c ∷ s)

-- `usagef("…: %v", err)` for an error of `r`.
unfoldable pub or_usage {ℓ} : {A : Type ℓ} → Message → Result A → Result A
or_usage m (ok a) = ok a
or_usage m (err e) = err (usagef m)
or_usage m (fault x) = fault x

unfoldable pub parse_secondary : Bytes → Result Target
unfolding parse_uint or_usage
parse_secondary arg = do
  id ← or_usage bad_secondary (parse_uint arg)
  refuse (ltb max_secondary_id id) (usagef too_many_digits)
  ok (secondary_target id)

unfoldable pub parse_primary : Bytes → Result Target
unfolding atoi destination_addr or_usage
parse_primary arg = do
  value ← or_usage bad_primary (atoi arg)
  addr ← or_usage bad_primary (destination_addr value)
  ok (primary_target addr)

unfoldable pub parse_target : Bytes → Bool → Result Target
unfolding is_digits parse_secondary parse_primary
parse_target arg force_secondary = do
  refuse (is_empty arg) (usagef missing_address)
  refuse (not (is_digits arg)) (usagef not_digits)
  if force_secondary || length arg == secondary_digits
      then parse_secondary arg
      else parse_primary arg

-- parseNewPrimary of setaddr.go.
unfoldable pub parse_new_primary : Bytes → Result ℕ
unfolding atoi assignable_addr or_usage
parse_new_primary arg = do
  value ← or_usage bad_new_address (atoi arg)
  or_usage bad_new_address (assignable_addr value)
