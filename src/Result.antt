-- ===== src/Result.antt =====
-- Go's (value, error) results, the errors of package gombus (errors.New values of gombus.go,
-- read.go, decode.go, datetime.go, records.go and scan.go) and of package wmbus (wmbus/errors.go),
-- those of cmd/mbusctl, and checked access to a byte slice.
--
-- A byte slice is a list of numbers. An index or a slice expression out of range is a fault, as it
-- is a panic in Go; so is a loop that has used up the fuel that its definition is given.
use mathlib.Core.Bool.{decide}
use gombus.Prelude.{
  ℕ, zero, suc, ◌-◌, ◌≤◌, ◌<◌, ◌≡◌, ◌≢◌, refl, subst, Bool, true, false, ◌&&◌, ◌||◌, List, [], ◌∷◌,
  arith, ltb, leb, if◌then◌else◌, length, take, drop, get_or, set, All, All-take, All-drop,
  length-take, length-drop,
}

abbrev pub Bytes : Type 0
Bytes = List ℕ

abbrev pub IsByte : ℕ → Type 0
IsByte b = b < 256

-- The values that `errors.Is` looks for: the package's own, and those of the standard library that
-- the package tests for.
pub data Sentinel : Type 0 where
  invalid_frame unsupported_ci short_data_record checksum_mismatch no_long_frame_found : Sentinel
  read_timeout need_more invalid_primary_id too_many_frames no_record : Sentinel
  invalid_date_time unsupported_date_time : Sentinel
  invalid_scan_range invalid_secondary_mask invalid_manufacturer : Sentinel
  select_no_answer select_collision : Sentinel
  canceled deadline_exceeded eof unexpected_eof : Sentinel
  wireless_invalid_frame crc_mismatch wireless_unsupported_ci unsupported_mode : Sentinel
  decrypt_failed key_required invalid_key : Sentinel
  flag_help : Sentinel

-- The texts of `fmt.Errorf` that name no error of the package, one for each message.
pub data Message : Type 0 where
  bcd_size bcd_digits_exceeded bcd_empty bcd_byte bcd_overflow bcd_overflow_signed : Message
  float_width too_many_extensions dif_field binary_size float_size reserved_lvar : Message
  bcd_data_field lvar_bcd_data_field fixed_counter : Message
  crc_block probing scan_start scan_end : Message
  set_read_deadline set_write_deadline read_failed single_char_frame : Message
  number_syntax number_range bad_destination bad_assignable invalid_flag : Message
  missing_address not_digits bad_secondary too_many_digits bad_primary bad_new_address : Message
  no_command unknown_command missing_device bad_timeout bad_device argument_count : Message
  both_scans reversed_range opening_serial connecting closing_transport : Message
  reading_target setting_target building_frame no_write_answer no_reset_answer : Message
  primary_scan secondary_scan debug_timeout failed_to_dial : Message

-- `wrapped s e` is `fmt.Errorf("%w: …: %w", s, e)`, and `noted m e` is `fmt.Errorf("…: %w", e)`;
-- `joined` is `errors.Join`, and `usage e` the usageError of cmd/mbusctl around e.
pub data Error : Type 0 where
  message : Message → Error
  sentinel : Sentinel → Error
  wrapped : Sentinel → Error → Error
  noted : Message → Error → Error
  joined : Error → Error → Error
  usage : Error → Error

pub data Fault : Type 0 where
  out_of_range out_of_fuel : Fault

pub data Result {ℓ} (A : Type ℓ) : Type ℓ where
  ok : A → Result A
  err : Error → Result A
  fault : Fault → Result A

infixl 5 ◌>>=◌ ◌>>◌
abbrev pub ◌>>=◌ {ℓ μ} : {S : Type ℓ} {T : Type μ} → Result S → (S → Result T) → Result T
fault x >>= next = fault x
err e >>= next = err e
ok v >>= next = next v

abbrev pub ◌>>◌ {ℓ} : {T : Type ℓ} → Result (Unit {0}) → Result T → Result T
first >> next = first >>= λ _. next

-- A bind that returns a value had one to go on with.
pub >>=-eq-ok {ℓ μ} :
    {S : Type ℓ} {T : Type μ} (first : Result S) (next : S → Result T) {t : T}
    → (first >>= next) ≡ ok t
    → (s : S) × (first ≡ ok s) × (next s ≡ ok t)
>>=-eq-ok (fault x) next e = cc
>>=-eq-ok (err x) next e = cc
>>=-eq-ok (ok s) next e = (s, refl, e)

-- `if bad { return …, e }`
abbrev pub refuse : Bool → Error → Result (Unit {0})
refuse true e = err e
refuse false e = ok tt

-- `b[i]`
unfoldable pub at : Bytes → ℕ → Result ℕ
at b i = if ltb i (length b) then ok (get_or b i 0) else fault out_of_range

-- `b[i:j]`. Go lets a slice expression reach into the capacity behind the length; here that is a
-- fault too.
unfoldable pub slice : Bytes → ℕ → ℕ → Result Bytes
slice b i j =
    if leb i j && leb j (length b) then ok (take (j - i) (drop i b)) else fault out_of_range

-- `b[i] = v`
unfoldable pub set_at : Bytes → ℕ → ℕ → Result Bytes
set_at b i v = if ltb i (length b) then ok (set b i v) else fault out_of_range

-- `len(b) - k` as an index: below 0 it is out of every range.
unfoldable pub index_from_end : Bytes → ℕ → Result ℕ
index_from_end b k = if leb k (length b) then ok (length b - k) else fault out_of_range

-- The result is a value with a property, or an error; it is no fault.
pub data Ensures {ℓ κ} {A : Type ℓ} (P : A → Type κ) : Result A → Type (ℓ ⊔ κ) where
  returns : {a : A} → P a → Ensures P (ok a)
  fails : {e : Error} → Ensures P (err e)

pub Ensures-ok {ℓ κ} :
    {A : Type ℓ} {P : A → Type κ} {r : Result A} {a : A} → Ensures P r → r ≡ ok a → P a
Ensures-ok {P} (returns p) e = subst P (cc) p
Ensures-ok fails e = cc

pub Ensures-ne-fault {ℓ κ} :
    {A : Type ℓ} {P : A → Type κ} {r : Result A} (x : Fault) → Ensures P r → r ≢ fault x
Ensures-ne-fault x (returns p) e = cc
Ensures-ne-fault x fails e = cc

-- A result that is no fault, and a value with the property if it is one.
pub to_Ensures {ℓ κ} :
    {A : Type ℓ} {P : A → Type κ} (r : Result A)
    → ((a : A) → r ≡ ok a → P a)
    → ((x : Fault) → r ≢ fault x)
    → Ensures P r
to_Ensures (ok a) p f = returns (p a refl)
to_Ensures (err e) p f = fails
to_Ensures (fault x) p f = absurd (f x refl)

pub Ensures-map {ℓ κ μ} :
    {A : Type ℓ} {P : A → Type κ} {Q : A → Type μ} {r : Result A}
    → Ensures P r
    → ((a : A) → P a → Q a)
    → Ensures Q r
Ensures-map (returns {a} p) k = returns (k a p)
Ensures-map fails k = fails

pub Ensures-bind {ℓ κ μ ν} :
    {A : Type ℓ} {B : Type κ} {P : A → Type μ} {Q : B → Type ν} {m : Result A} {f : A → Result B}
    → Ensures P m
    → ((a : A) → P a → Ensures Q (f a))
    → Ensures Q (m >>= f)
Ensures-bind (returns {a} p) k = k a p
Ensures-bind fails k = fails

pub refuse-Ensures : (t : Bool) (e : Error) → Ensures (λ _. t ≡ false) (refuse t e)
refuse-Ensures true e = fails
refuse-Ensures false e = returns refl

-- An early return: what follows it knows that the test failed.
pub Ensures-refuse {ℓ κ} :
    {B : Type ℓ} {Q : B → Type κ} (t : Bool) (e : Error) {m : Result B}
    → (t ≡ false → Ensures Q m)
    → Ensures Q (refuse t e >> m)
Ensures-refuse true e k = fails
Ensures-refuse false e k = k refl

pub Ensures-if {ℓ κ} :
    {A : Type ℓ} {P : A → Type κ} (t : Bool) {m n : Result A}
    → (t ≡ true → Ensures P m)
    → (t ≡ false → Ensures P n)
    → Ensures P (if t then m else n)
Ensures-if true p q = p refl
Ensures-if false p q = q refl

-- The result is no fault.
abbrev pub IsSafe {ℓ} : {A : Type ℓ} → Result A → Type ℓ
IsSafe r = Ensures (λ _. Unit {0}) r

pub get_or-IsByte : (b : Bytes) (i : ℕ) → i < length b → All IsByte b → get_or b i 0 < 256
get_or-IsByte [] i h a = absurd (omega arith)
get_or-IsByte (x ∷ b) zero h a = a.0
get_or-IsByte (x ∷ b) (suc i) h a = get_or-IsByte b i (omega arith) a.1

pub at-eq_ok : (b : Bytes) (i : ℕ) → i < length b → at b i ≡ ok (get_or b i 0)
unfolding at
at-eq_ok b i h = ground arith

pub at-Ensures : (b : Bytes) (i : ℕ) → i < length b → All IsByte b → Ensures IsByte (at b i)
at-Ensures b i h a = rw (at-eq_ok b i h) (returns (get_or-IsByte b i h a))

pub slice-eq_ok :
    (b : Bytes) (i j : ℕ) → i ≤ j → j ≤ length b → slice b i j ≡ ok (take (j - i) (drop i b))
unfolding slice
slice-eq_ok b i j h k = ground arith

-- What a slice expression in range returns.
abbrev pub IsSlice : ℕ → Bytes → Type 0
IsSlice n s = (length s ≡ n) × All IsByte s

pub slice-Ensures :
    (b : Bytes) (i j : ℕ)
    → i ≤ j
    → j ≤ length b
    → All IsByte b
    → Ensures (IsSlice (j - i)) (slice b i j)
slice-Ensures b i j h k a = rw (slice-eq_ok b i j h k) (
    returns (
      omega (arith, length-take {0} (j - i) (drop i b), length-drop {0} i b),
      All-take IsByte (j - i) (drop i b) (All-drop IsByte i b a),
    ))

Sentinel-discrete : Discrete Sentinel
Sentinel-discrete = hlevel

-- `errors.Is(e, s)`
unfoldable pub errors_is : Error → Sentinel → Bool
unfolding Sentinel-discrete
errors_is (message m) s = false
errors_is (sentinel t) s = decide (Sentinel-discrete t s)
errors_is (wrapped t e) s = decide (Sentinel-discrete t s) || errors_is e s
errors_is (noted m e) s = errors_is e s
errors_is (joined d e) s = errors_is d s || errors_is e s
errors_is (usage e) s = errors_is e s
