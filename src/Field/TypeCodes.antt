-- ===== src/Field/TypeCodes.antt =====
-- vif.go: the constants name the types of the units that decodeUnit returns.
use gombus.Prelude.{
  ℕ, ◌+◌, ◌%◌, ◌<◌, ◌≤◌, ◌≡◌, refl, arith, Bool, true, false, ◌&&◌, ◌||◌, List, [], ◌∷◌, leb,
  if◌then◌else◌, bit_and, bit_or,
}
use gombus.Prelude.Bits.{agree, agree_sound}
use gombus.Result.{Bytes}
use gombus.Units.Codes.{primary_codes, extension_codes, vif_pressure}
use gombus.Units.Table.{unit_table, lookup_code}
use gombus.Field.{decode_unit, unit_for}
use gombus.Field.UnitLaws.{type_of, unit_for-type, low_bits, extension_code}

-- The first code of a list in order that is not below a number, and 0 behind the last.
abbrev pub first_from : ℕ → List ℕ → ℕ
first_from n [] = 0
first_from n (code ∷ codes) = let rest = first_from n codes in if leb n code then code else rest

-- The codes of the table behind FDh that the constants are about: one for each but the last two,
-- which have 16 each.
abbrev pub is_named : ℕ → Bool
is_named c =
    (leb 0x08 c && leb c 0x0F)
    || (leb 0x17 c && leb c 0x18)
    || (leb 0x1A c && leb c 0x1C)
    || (leb 0x40 c && leb c 0x5F)

primary_entries :
    (c : ℕ) → c < 0x6C → type_of (lookup_code c unit_table) ≡ first_from c primary_codes
unfolding agree type_of unit_table lookup_code
primary_entries c h =
    agree_sound 0x6C (λ c. type_of (lookup_code c unit_table)) (λ c. first_from c primary_codes) c
      refl h

-- The type of an entry behind FDh, where the constants are about it.
named_type : ℕ → ℕ
named_type c = if is_named c then type_of (lookup_code (0x100 + c) unit_table) else 0

named_code : ℕ → ℕ
named_code c = if is_named c then first_from (0x100 + c) extension_codes else 0

extension_entries : (c : ℕ) → c < 128 → named_type c ≡ named_code c
unfolding agree type_of unit_table lookup_code named_type named_code
extension_entries c h = agree_sound 128 named_type named_code c refl h

chosen : (t : Bool) {x y : ℕ} → t ≡ true → (if t then x else 0) ≡ (if t then y else 0) → x ≡ y
chosen true h e = e
chosen false h e = cc

extension_entry :
    (c : ℕ)
    → c < 128
    → is_named c ≡ true
    → type_of (lookup_code (0x100 + c) unit_table) ≡ first_from (0x100 + c) extension_codes
unfolding named_type named_code
extension_entry c h k = chosen (is_named c) k (extension_entries c h)

primary_type :
    (vif : ℕ) (vife : Bytes)
    → vif < 256
    → vif % 128 ≤ vif_pressure
    → (unit_for (bit_and vif 0x7F) vif vife).type ≡ first_from (vif % 128) primary_codes
primary_type vif vife h k =
    rw (unit_for-type (bit_and vif 0x7F) vif vife, low_bits vif h)
      (primary_entries (vif % 128) (omega arith))

primary :
    (vif : ℕ) (vife : Bytes)
    → vif < 256
    → vif % 128 ≤ vif_pressure
    → (decode_unit vif vife).type ≡ first_from (vif % 128) primary_codes
unfolding decode_unit
primary vif [] h k = ground (arith, primary_type vif [] h k)
primary vif (v ∷ vife) h k = ground (arith, primary_type vif (v ∷ vife) h k)

extension :
    (v : ℕ) (rest : Bytes)
    → v < 256
    → is_named (v % 128) ≡ true
    → (decode_unit 0xFD (v ∷ rest)).type ≡ first_from (0x100 + v % 128) extension_codes
unfolding decode_unit
extension v rest h k =
    rw (unit_for-type (bit_or (bit_and v 0x7F) 0x100) 0xFD (v ∷ rest), extension_code v h)
      (extension_entry (v % 128) (omega arith) k)

-- A unit under a VIF up to that of the pressure, bit 7 aside, has the first of the primary type
-- codes that is not below the VIF; one under VIF FDh and a VIFE that the constants are about has
-- the first of the extension codes that is not below 100h and the VIFE.
pub decode_unit-code :
    (vif v : ℕ) (vife rest : Bytes)
    → vif < 256
    → vif % 128 ≤ vif_pressure
    → v < 256
    → is_named (v % 128) ≡ true
    → ((decode_unit vif vife).type ≡ first_from (vif % 128) primary_codes)
      × ((decode_unit 0xFD (v ∷ rest)).type ≡ first_from (0x100 + v % 128) extension_codes)
decode_unit-code vif v vife rest h p k q = (primary vif vife h p, extension v rest k q)
