-- ===== src/Response/Text.antt =====
-- decode.go: the texts that a response is shown with, and the product name that its records give.
--
-- `strings.ToLower` is modelled on ASCII letters; other bytes are kept.
use gombus.Prelude.{
  ℕ, zero, suc, ◌+◌, ◌/◌, ◌%◌, Bool, true, false, ◌&&◌, ◌||◌, not, List, [], ◌∷◌, ◌++◌, String,
  Option, none, some, map, ltb, leb, ◌==◌, if◌then◌else◌, bit_and, length, drop, take,
}
use gombus.Prelude.Int.{ℤ, pos, negsuc}
use gombus.Result.{Bytes}
use gombus.Encoding.{is_empty}
use gombus.Units.{codes}
use gombus.Floats.{Floats}
use gombus.Record.{DecodedDataRecord}
use gombus.Response.{DecodedFrame}

-- `a == b` of two strings.
unfoldable pub same_bytes : Bytes → Bytes → Bool
same_bytes [] [] = true
same_bytes [] (y ∷ ys) = false
same_bytes (x ∷ xs) [] = false
same_bytes (x ∷ xs) (y ∷ ys) = x == y && same_bytes xs ys

-- `strings.HasPrefix` and `strings.Contains`
unfoldable pub has_prefix : Bytes → Bytes → Bool
has_prefix xs [] = true
has_prefix [] (p ∷ ps) = false
has_prefix (x ∷ xs) (p ∷ ps) = x == p && has_prefix xs ps

unfoldable pub contains : Bytes → Bytes → Bool
unfolding has_prefix
contains [] p = has_prefix [] p
contains (x ∷ xs) p = has_prefix (x ∷ xs) p || contains xs p

abbrev pub to_lower : Bytes → Bytes
to_lower xs = map (λ c. if leb 0x41 c && leb c 0x5A then c + 32 else c) xs

-- The decimal digits of a number in front of a text: an int has 19 digits at most.
unfoldable pub digits_before : ℕ → ℕ → Bytes → Bytes
digits_before zero n text = text
digits_before (suc k) n text =
    let shown = (n % 10 + 0x30) ∷ text in
    let more = digits_before k (n / 10) shown in if n / 10 == 0 then shown else more

-- `strconv.Itoa`
unfoldable pub itoa : ℤ → Bytes
unfolding digits_before
itoa (pos n) = digits_before 19 n []
itoa (negsuc n) = 0x2D ∷ digits_before 19 (n + 1) []

-- `hex.EncodeToString`
abbrev pub hex_digit : ℕ → ℕ
hex_digit n = if ltb n 10 then 0x30 + n else 0x57 + n

unfoldable pub hex_encode : Bytes → Bytes
hex_encode [] = []
hex_encode (b ∷ rest) = hex_digit (b / 16) ∷ hex_digit (b % 16) ∷ hex_encode rest

-- The bits of the status byte with their texts, lowest bit first.
abbrev pub status_bit_descriptions : List (ℕ × String)
status_bit_descriptions =
    (0x01, "Application busy")
    ∷ (0x02, "Application error")
    ∷ (0x04, "Power low")
    ∷ (0x08, "Permanent error")
    ∷ (0x10, "Temporary error")
    ∷ (0x20, "Specific to manufacturer")
    ∷ (0x40, "Specific to manufacturer")
    ∷ (0x80, "Specific to manufacturer")
    ∷ []

unfoldable pub status_texts : ℕ → List (ℕ × String) → List Bytes
status_texts status [] = []
status_texts status ((bit, name) ∷ rest) =
    let on = status_texts status rest in if bit_and status bit == 0 then on else codes name ∷ on

-- `strings.Join(on, ", ")`
unfoldable pub join : List Bytes → Bytes
join [] = []
join (x ∷ []) = x
join (x ∷ y ∷ rest) = x ++ (codes ", " ++ join (y ∷ rest))

abbrev pub or_normal : List Bytes → Bytes
or_normal [] = codes "Normal operation"
or_normal (x ∷ on) = join (x ∷ on)

module _ {Float : Type 0} where
  unfoldable pub readable_status : DecodedFrame Float → Bytes
  unfolding status_texts join
  readable_status df = or_normal (status_texts df.status status_bit_descriptions)

  unfoldable pub secondary_address_string : DecodedFrame Float → Bytes
  unfolding itoa hex_encode
  secondary_address_string df =
      if ltb (length df.raw) 14
      then itoa (pos df.serial_number)
      else itoa (pos df.serial_number) ++ hex_encode (take 3 (drop 11 df.raw))

module _ (F : Floats) where
  unfoldable pub names_product : DecodedDataRecord F.Float → Bool
  unfolding same_bytes contains
  names_product r =
      let u = to_lower r.unit.unit in
      not (is_empty r.value_string)
      && (same_bytes u (codes "cust. id")
          || contains u (codes "product")
          || contains u (codes "model"))

  unfoldable pub is_multical : DecodedDataRecord F.Float → Bool
  unfolding same_bytes
  is_multical r =
      same_bytes r.unit.unit (codes "none") && F.at_least 2100000 r.value && F.below 2200000 r.value

  -- The two loops of `extractProductName`: the first record that fits, if there is one.
  unfoldable pub named_product : List (DecodedDataRecord F.Float) → Option Bytes
  unfolding names_product
  named_product [] = none
  named_product (r ∷ rest) =
      let more = named_product rest in if names_product r then some r.value_string else more

  unfoldable pub multical : List (DecodedDataRecord F.Float) → Bytes
  unfolding is_multical itoa
  multical [] = []
  multical (r ∷ rest) =
      let more = multical rest in
      if is_multical r then codes "Multical " ++ itoa (F.to_int r.value) else more

  abbrev pub product_or : Option Bytes → Bytes → List (DecodedDataRecord F.Float) → Bytes
  product_or (some name) manufacturer records = name
  product_or none manufacturer records =
      if same_bytes manufacturer (codes "KAM") then multical records else []

  unfoldable pub extract_product_name : Bytes → List (DecodedDataRecord F.Float) → Bytes
  unfolding named_product multical same_bytes
  extract_product_name manufacturer records =
      product_or (named_product records) manufacturer records
