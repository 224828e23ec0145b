-- ===== src/Field/UnitLaws.antt =====
-- What the unit tables promise: where a type code comes from, and the scale of a reading.
use gombus.Prelude.{
  ℕ, ◌+◌, ◌%◌, ◌<◌, ◌≤◌, ltb→lt, leb→le, ◌≡◌, refl, [], ◌∷◌, arith, bit_and, bit_or, Bool, true,
  Option, none, some, leb, ltb, ◌==◌, if◌then◌else◌, Option-cases, inl, inr, ◌≢◌,
}
use gombus.Prelude.Bits.{agree, agree_sound}
use gombus.Result.{Bytes}
use gombus.Units.{ValueUnit}
use gombus.Units.Table.{unit_table, lookup_code}
use gombus.Field.{decode_unit, unit_for, combinable_vifes, unit_of_code, duration_of_limit_exceed}

-- The type code of an entry of the table, 0 where there is none.
unfoldable pub type_of : Option ValueUnit → ℕ
type_of none = 0
type_of (some u) = u.type

-- A test of every entry of the table under the codes `base` to `base + 7Fh`.
module _ (test : Option ValueUnit → Bool) where
  passes : ℕ → ℕ → ℕ
  passes base c = if test (lookup_code (base + c) unit_table) then 1 else 0

  passes_below :
      (base : ℕ) (c : ℕ)
      → agree 128 (passes base) (λ c. 1) ≡ true
      → c < 128
      → test (lookup_code (base + c) unit_table) ≡ true
  unfolding passes
  passes_below base c h k =
      let e = agree_sound 128 (passes base) (λ c. 1) c h k in ground (arith, e)

pub low_bits : (v : ℕ) → v < 256 → bit_and v 0x7F ≡ v % 128
unfolding agree
low_bits v h = agree_sound 256 (λ x. bit_and x 0x7F) (λ x. x % 128) v refl h

pub extension_code : (v : ℕ) → v < 256 → bit_or (bit_and v 0x7F) 0x100 ≡ 0x100 + v % 128
unfolding agree
extension_code v h =
    agree_sound 256 (λ x. bit_or (bit_and x 0x7F) 0x100) (λ x. 0x100 + x % 128) v refl h

alternate_code : (v : ℕ) → v < 256 → bit_or (bit_and v 0x7F) 0x200 ≡ 0x200 + v % 128
unfolding agree
alternate_code v h =
    agree_sound 256 (λ x. bit_or (bit_and x 0x7F) 0x200) (λ x. 0x200 + x % 128) v refl h

unit_of_code-type :
    (code : ℕ) (vifes : Bytes) (entry : Option ValueUnit)
    → (unit_of_code code vifes entry).type ≡ type_of entry
unfolding unit_of_code type_of
unit_of_code-type code vifes none = refl
unit_of_code-type code vifes (some u) = elim (Option-cases (duration_of_limit_exceed vifes)) [
  | inl e ↦ rw e
  | inr (base, e) ↦ rw e
]

primary_test : Option ValueUnit → Bool
unfolding type_of
primary_test o = ltb (type_of o) 0x100

extension_test : Option ValueUnit → Bool
unfolding type_of
extension_test o = leb 0x100 (type_of o)

-- The one entry behind FBh that has a type is that of the relative humidity.
abbrev pub alternate_type : ℕ → ℕ
alternate_type c = if c == 0x1A then 0x21A else 0

primary_types : (c : ℕ) → c < 128 → primary_test (lookup_code (0 + c) unit_table) ≡ true
unfolding agree passes primary_test unit_table lookup_code
primary_types c = passes_below primary_test 0 c refl

extension_types : (c : ℕ) → c < 128 → extension_test (lookup_code (0x100 + c) unit_table) ≡ true
unfolding agree passes extension_test unit_table lookup_code
extension_types c = passes_below extension_test 0x100 c refl

alternate_types :
    (c : ℕ) → c < 128 → type_of (lookup_code (0x200 + c) unit_table) ≡ alternate_type c
unfolding agree type_of unit_table lookup_code
alternate_types c h =
    agree_sound 128 (λ c. type_of (lookup_code (0x200 + c) unit_table)) alternate_type c refl h

pub unit_for-type :
    (code vif : ℕ) (vife : Bytes)
    → (unit_for code vif vife).type ≡ type_of (lookup_code code unit_table)
unit_for-type code vif vife =
    unit_of_code-type code (combinable_vifes vif vife) (lookup_code code unit_table)

primary_type :
    (vif : ℕ) (vife : Bytes) → vif < 256 → (unit_for (bit_and vif 0x7F) vif vife).type < 0x100
unfolding primary_test
primary_type vif vife h =
    let t = unit_for-type (bit_and vif 0x7F) vif vife in
    let e : bit_and vif 0x7F ≡ 0 + vif % 128 = omega (arith, low_bits vif h) in
    rw (t, e) (ltb→lt _ _ (primary_types (vif % 128) (omega arith)))

primary :
    (vif : ℕ) (vife : Bytes)
    → vif < 256
    → vif ≢ 0xFB
    → vif ≢ 0xFD
    → (decode_unit vif vife).type < 0x100
unfolding decode_unit
primary vif [] h p q = ground (arith, primary_type vif [] h)
primary vif (v ∷ vife) h p q = ground (arith, primary_type vif (v ∷ vife) h)

extension : (v : ℕ) (vife : Bytes) → v < 256 → 0x100 ≤ (decode_unit 0xFD (v ∷ vife)).type
unfolding decode_unit extension_test
extension v vife h =
    rw (unit_for-type (bit_or (bit_and v 0x7F) 0x100) 0xFD (v ∷ vife), extension_code v h)
      (leb→le _ _ (extension_types (v % 128) (omega arith)))

alternate :
    (v : ℕ) (vife : Bytes) → v < 256 → (decode_unit 0xFB (v ∷ vife)).type ≡ alternate_type (v % 128)
unfolding decode_unit
alternate v vife h =
    rw (unit_for-type (bit_or (bit_and v 0x7F) 0x200) 0xFB (v ∷ vife), alternate_code v h)
      (alternate_types (v % 128) (omega arith))

-- A unit of the primary table has a type below 100h and one behind VIF FDh a type from 100h on;
-- one behind VIF FBh has type 21Ah if the low seven bits of its VIFE are 1Ah, and type 0 for every
-- other VIFE.
pub decode_unit-type :
    (vif v : ℕ) (vife rest : Bytes)
    → vif < 256
    → vif ≢ 0xFB
    → vif ≢ 0xFD
    → v < 256
    → ((decode_unit vif vife).type < 0x100)
      × (0x100 ≤ (decode_unit 0xFD (v ∷ rest)).type)
      × ((decode_unit 0xFB (v ∷ rest)).type ≡ (if v % 128 == 0x1A then 0x21A else 0))
decode_unit-type vif v vife rest h p q k =
    (primary vif vife h p q, extension v rest k, alternate v rest k)
