-- ===== src/Record/Confined/Value.antt =====
-- decode.go: the value of a record that ends within a part of the bytes is read of that part alone.
use gombus.Prelude.{
  ℕ, ◌+◌, ◌-◌, ◌≡◌, Bool, ◌||◌, Option, none, some, arith, length, ltb, leb, ◌==◌, bit_and,
}
use gombus.Prelude.Int.{ℤ}
use gombus.Result.{Bytes, Result, ok, err, fault}
use gombus.Encoding.{bcd_magnitude, bcd_signed, bytes_to_float32}
use gombus.Units.Table.{lookup_code}
use gombus.Field.{dif_mask_data}
use gombus.Floats.{Floats}
use gombus.Record.{DecodedDataRecord}
use gombus.Record.Lvar.{signed_magnitude, lvar_text, lvar_bcd, lvar_binary, lvar_float, decode_lvar}
use gombus.Record.Value.{
  dif_integer_widths, dif_bcd_widths, bcd_value, decode_integer_field, decode_bcd_field,
  decode_other_field, decode_field, decode_record_value,
}
use gombus.Record.Embedded.{whole}
use gombus.Record.Confined.{
  Confined, errs, Confined-then, Confined-if, Confined-refl, need-Confined, at-Confined,
  field-Confined,
}

-- The number beside a value that is read of a field of `n` bytes.
abbrev Takes : {A : Type 0} → ℕ → Result (A × ℕ) → Type 0
Takes {A} n x = (p : A × ℕ) → x ≡ ok p → p.1 ≡ n

module _ (F : Floats) (pre bytes post : Bytes) (r : DecodedDataRecord F.Float) where
  bcd_value-Takes : (v : Result ℤ) (n : ℕ) → Takes n (bcd_value F v n r)
  unfolding bcd_value
  bcd_value-Takes (ok v) n p e = cc
  bcd_value-Takes (err x) n p e = cc
  bcd_value-Takes (fault x) n p e = cc

  signed_magnitude-Takes :
      (negative : Bool) (v : Result ℕ) (n : ℕ) → Takes n (signed_magnitude F negative v n r)
  unfolding signed_magnitude
  signed_magnitude-Takes negative (ok v) n p e = cc
  signed_magnitude-Takes negative (err x) n p e = cc
  signed_magnitude-Takes negative (fault x) n p e = cc

  -- A value that ends at `i` and the bytes that it takes, of the bytes alone and inside others.
  abbrev Parted :
      ℕ
      → ℕ
      → Result (DecodedDataRecord F.Float × ℕ)
      → Result (DecodedDataRecord F.Float × ℕ)
      → Type 0
  Parted low i x y = Confined (length bytes) ◌≡◌ low (λ p. i + p.1) x y

  finished :
      (i n : ℕ) (x : Result (DecodedDataRecord F.Float × ℕ)) → Takes n x → Parted (i + n) i x x
  finished i n x t = Confined-refl x λ p e. omega (arith, t p e)

  decode_lvar-Confined :
      (i j : ℕ)
      → j ≡ length pre + i
      → Parted i (i + 1) (decode_lvar F bytes i r) (decode_lvar F (whole pre bytes post) j r)
  unfolding decode_lvar lvar_text lvar_bcd lvar_binary lvar_float
  decode_lvar-Confined i j e =
      Confined-then (need-Confined pre bytes post i j 1 e (omega arith)) λ _.
        Confined-then (at-Confined pre bytes post i j e (omega arith)) λ lvar.
          let k = i + 1 in
          let size = bit_and lvar 0x0F in
          Confined-if (leb lvar 0xBF)
            (field-Confined pre bytes post k (j + 1) lvar (omega arith) (omega arith)
              λ s. finished k lvar _ λ p e. cc)
            (Confined-if (leb lvar 0xDF)
              (field-Confined pre bytes post k (j + 1) size (omega arith) (omega arith) λ s.
                finished k size _ (signed_magnitude-Takes (ltb 0xCF lvar) (bcd_magnitude s) size))
              (Confined-if (leb lvar 0xEF)
                (Confined-then {end = λ _. k} (Confined-refl _ λ _ _. omega arith) λ _.
                  field-Confined pre bytes post k (j + 1) (lvar - 0xE0) (omega arith) (omega arith)
                    λ s. finished k (lvar - 0xE0) _ λ p e. cc)
                (Confined-if (leb lvar 0xFA)
                  (Confined-then {end = λ _. k} (Confined-refl _ λ _ _. omega arith) λ _.
                    field-Confined pre bytes post k (j + 1) (lvar - 0xF0) (omega arith)
                      (omega arith)
                      λ s.
                        Confined-then {end = λ _. k + (lvar - 0xF0)}
                          (Confined-refl (bytes_to_float32 s) λ _ _. omega arith)
                          λ v. finished k (lvar - 0xF0) _ λ p e. cc)
                  errs)))

  decode_other_field-Confined :
      (i j field : ℕ)
      → j ≡ length pre + i
      → Parted i i
          (decode_other_field F bytes i field r)
          (decode_other_field F (whole pre bytes post) j field r)
  unfolding decode_other_field
  decode_other_field-Confined i j field e =
      Confined-if (field == 0x00 || field == 0x08) (Confined-refl _ λ _ _. omega arith) (
        Confined-if (field == 0x05)
          (field-Confined pre bytes post i j 4 e (omega arith) λ s.
            Confined-then {end = λ _. i + 4} (Confined-refl (bytes_to_float32 s) λ _ _. omega arith)
              λ v. finished i 4 _ λ p e. cc)
          (Confined-if (field == 0x0D)
            (Confined-then (decode_lvar-Confined i j e)
              λ p. Confined-refl _ λ q f. let k : 1 + p.1 ≡ q.1 = cc in omega (arith, k))
            (Confined-refl _ λ _ _. omega arith)))

  decode_field-Confined :
      (integer bcd : Option ℕ) (i j field : ℕ)
      → j ≡ length pre + i
      → Parted i i
          (decode_field F integer bcd bytes i field r)
          (decode_field F integer bcd (whole pre bytes post) j field r)
  unfolding decode_field decode_integer_field decode_bcd_field
  decode_field-Confined (some width) bcd i j field e =
      field-Confined pre bytes post i j width e (omega arith) λ s.
        Confined-then {end = λ _. i + width} (Confined-refl _ λ _ _. omega arith)
          λ (r' : DecodedDataRecord F.Float). finished i width (ok (r', width)) λ p e. cc
  decode_field-Confined none (some width) i j field e =
      field-Confined pre bytes post i j width e (omega arith)
        λ s. finished i width _ (bcd_value-Takes (bcd_signed s) width)
  decode_field-Confined none none i j field e = decode_other_field-Confined i j field e

  pub decode_record_value-Confined :
      (i j dif : ℕ)
      → j ≡ length pre + i
      → Parted i i
          (decode_record_value F bytes i dif r)
          (decode_record_value F (whole pre bytes post) j dif r)
  unfolding decode_record_value
  decode_record_value-Confined i j dif e =
      let field = bit_and dif dif_mask_data in
      decode_field-Confined (lookup_code field dif_integer_widths)
        (lookup_code field dif_bcd_widths) i j field e
