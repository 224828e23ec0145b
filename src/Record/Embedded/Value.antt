-- ===== src/Record/Embedded/Value.antt =====
-- decode.go: the value of a record is read of its bytes alone, wherever they stand.
use gombus.Prelude.{
  ℕ, ◌+◌, ◌-◌, ◌≡◌, refl, ◌||◌, Option, none, some, arith, length, leb, ◌==◌, bit_and,
}
use gombus.Result.{Bytes}
use gombus.Units.Table.{lookup_code}
use gombus.Field.{dif_mask_data}
use gombus.Floats.{Floats}
use gombus.Record.{DecodedDataRecord}
use gombus.Record.Lvar.{lvar_text, lvar_bcd, lvar_binary, lvar_float, decode_lvar}
use gombus.Record.Value.{
  dif_integer_widths, dif_bcd_widths, decode_integer_field, decode_bcd_field, decode_other_field,
  decode_field, decode_record_value,
}
use gombus.Record.Embedded.{
  agrees, errs, Stays, Stays-bind, Stays-refl, Follows-if, need-Stays, at-Stays, field-Stays, whole,
}

module _ (F : Floats) (pre bytes post : Bytes) (r : DecodedDataRecord F.Float) where
  decode_lvar-Stays :
      (i j : ℕ)
      → j ≡ length pre + i
      → Stays (decode_lvar F bytes i r) (decode_lvar F (whole pre bytes post) j r)
  unfolding decode_lvar lvar_text lvar_bcd lvar_binary lvar_float
  decode_lvar-Stays i j e = Stays-bind (need-Stays pre bytes post i j 1 e) λ _.
      Stays-bind (at-Stays pre bytes post i j e) λ lvar.
        Follows-if (leb lvar 0xBF)
          (field-Stays pre bytes post (i + 1) (j + 1) lvar (omega arith) λ s. agrees refl)
          (Follows-if (leb lvar 0xDF)
            (field-Stays pre bytes post (i + 1) (j + 1) (bit_and lvar 0x0F) (omega arith)
              λ s. Stays-refl _)
            (Follows-if (leb lvar 0xEF)
              (Stays-bind (Stays-refl _) λ _.
                field-Stays pre bytes post (i + 1) (j + 1) (lvar - 0xE0) (omega arith)
                  λ s. agrees refl)
              (Follows-if (leb lvar 0xFA)
                (Stays-bind (Stays-refl _) λ _.
                  field-Stays pre bytes post (i + 1) (j + 1) (lvar - 0xF0) (omega arith)
                    λ s. Stays-refl _)
                errs)))

  decode_other_field-Stays :
      (i j field : ℕ)
      → j ≡ length pre + i
      → Stays
          (decode_other_field F bytes i field r)
          (decode_other_field F (whole pre bytes post) j field r)
  unfolding decode_other_field
  decode_other_field-Stays i j field e = Follows-if (field == 0x00 || field == 0x08) (agrees refl) (
      Follows-if (field == 0x05) (field-Stays pre bytes post i j 4 e λ s. Stays-refl _) (
        Follows-if (field == 0x0D) (Stays-bind (decode_lvar-Stays i j e) λ p. agrees refl)
          (Stays-refl _)))

  decode_field-Stays :
      (integer bcd : Option ℕ) (i j field : ℕ)
      → j ≡ length pre + i
      → Stays
          (decode_field F integer bcd bytes i field r)
          (decode_field F integer bcd (whole pre bytes post) j field r)
  unfolding decode_field decode_integer_field decode_bcd_field
  decode_field-Stays (some width) bcd i j field e =
      field-Stays pre bytes post i j width e λ s. Stays-refl _
  decode_field-Stays none (some width) i j field e =
      field-Stays pre bytes post i j width e λ s. Stays-refl _
  decode_field-Stays none none i j field e = decode_other_field-Stays i j field e

  pub decode_record_value-Stays :
      (i j dif : ℕ)
      → j ≡ length pre + i
      → Stays
          (decode_record_value F bytes i dif r)
          (decode_record_value F (whole pre bytes post) j dif r)
  unfolding decode_record_value
  decode_record_value-Stays i j dif e =
      let field = bit_and dif dif_mask_data in
      decode_field-Stays (lookup_code field dif_integer_widths) (lookup_code field dif_bcd_widths) i
        j field e
