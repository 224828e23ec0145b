-- ===== src/Record/Within.antt =====
-- decode.go: reading the value of a record stays within the bytes, and no read faults.
use gombus.Prelude.{
  ℕ, ◌+◌, ◌-◌, ◌≤◌, ◌≡◌, refl, Bool, not, ◌||◌, Option, none, some, arith, length, All, ltb, leb,
  ◌==◌, bit_and,
}
use gombus.Prelude.Int.{ℤ}
use gombus.Result.{
  Bytes, IsByte, Result, ok, err, fault, message, binary_size, float_size, at-Ensures, Ensures,
  returns, fails, Ensures-if, Ensures-bind, Ensures-map, Ensures-refuse, IsSafe,
}
use gombus.Encoding.{bcd_magnitude, bcd_signed, max_le_bytes}
use gombus.Encoding.Total.{bcd_magnitude-IsSafe, bcd_signed-IsSafe, bytes_to_float32-IsSafe}
use gombus.Units.Table.{lookup_code}
use gombus.DateTime.{zero_time}
use gombus.Floats.{Floats}
use gombus.Record.{DecodedDataRecord}
use gombus.Record.Lvar.{signed_magnitude, lvar_text, lvar_bcd, lvar_binary, lvar_float, decode_lvar}
use gombus.Field.{dif_mask_data}
use gombus.Record.Value.{
  dif_integer_widths, dif_bcd_widths, bcd_value, decode_integer_field, decode_bcd_field,
  decode_other_field, decode_field, decode_record_value,
}
use gombus.Record.Bounds.{
  need-Ensures, field-Ensures, IsFresh, Reads, Leaves, Leaves-Reads, decode_record_time-Keeps,
}

module _ (F : Floats) (bytes : Bytes) (all : All IsByte bytes) (r : DecodedDataRecord F.Float)
    (fresh : IsFresh r) where
  bcd_value-Leaves :
      (v : Result ℤ) (i width : ℕ)
      → i + width ≤ length bytes
      → IsSafe v
      → Ensures (Leaves bytes i r) (bcd_value F v width r)
  unfolding bcd_value
  bcd_value-Leaves (ok v) i width h s = returns (h, (fresh.0, refl, refl))
  bcd_value-Leaves (fault x) i width h s = elim s [ ]
  bcd_value-Leaves (err e) i width h s = returns (h, (fresh.0, refl, refl))

  signed_magnitude-Leaves :
      (negative : Bool) (v : Result ℕ) (i size : ℕ)
      → i + size ≤ length bytes
      → IsSafe v
      → Ensures (Leaves bytes i r) (signed_magnitude F negative v size r)
  unfolding signed_magnitude
  signed_magnitude-Leaves negative (ok v) i size h s = returns (h, (fresh.0, refl, refl))
  signed_magnitude-Leaves negative (fault x) i size h s = elim s [ ]
  signed_magnitude-Leaves negative (err e) i size h s = returns (h, (fresh.0, refl, refl))

  lvar_text-Leaves : (i size : ℕ) → Ensures (Leaves bytes i r) (lvar_text F bytes i size r)
  unfolding lvar_text
  lvar_text-Leaves i size =
      field-Ensures bytes i size all λ s _ h. returns (h, (fresh.0, refl, refl))

  lvar_bcd-Leaves :
      (i size : ℕ) (negative : Bool)
      → Ensures (Leaves bytes i r) (lvar_bcd F bytes i negative size r)
  unfolding lvar_bcd
  lvar_bcd-Leaves i size negative =
      field-Ensures bytes i size all λ s _ h.
        signed_magnitude-Leaves negative (bcd_magnitude s) i size h (bcd_magnitude-IsSafe s)

  lvar_binary-Leaves : (i size : ℕ) → Ensures (Leaves bytes i r) (lvar_binary F bytes i size r)
  unfolding lvar_binary
  lvar_binary-Leaves i size =
      Ensures-refuse (ltb size 1 || ltb max_le_bytes size) (message binary_size)
        λ _. field-Ensures bytes i size all λ s _ h. returns (h, (fresh.0, refl, refl))

  lvar_float-Leaves : (i size : ℕ) → Ensures (Leaves bytes i r) (lvar_float F bytes i size r)
  unfolding lvar_float
  lvar_float-Leaves i size = Ensures-refuse (not (size == 4)) (message float_size) λ _.
      field-Ensures bytes i size all
        λ s _ h. Ensures-bind (bytes_to_float32-IsSafe s) λ _ _. returns (h, (fresh.0, refl, refl))

  -- The payload starts behind the length byte.
  decode_lvar-Leaves : (i : ℕ) → Ensures (Leaves bytes (i + 1) r) (decode_lvar F bytes i r)
  unfolding decode_lvar
  decode_lvar-Leaves i = Ensures-bind (need-Ensures bytes i 1) λ _ h.
      Ensures-bind (at-Ensures bytes i (omega arith) all) λ lvar _.
        Ensures-if (leb lvar 0xBF) (λ _. lvar_text-Leaves (i + 1) lvar)
          λ _.
            Ensures-if (leb lvar 0xDF)
              (λ _. lvar_bcd-Leaves (i + 1) (bit_and lvar 0x0F) (ltb 0xCF lvar))
              λ _.
                Ensures-if (leb lvar 0xEF) (λ _. lvar_binary-Leaves (i + 1) (lvar - 0xE0))
                  λ _.
                    Ensures-if (leb lvar 0xFA) (λ _. lvar_float-Leaves (i + 1) (lvar - 0xF0))
                      λ _. fails

  decode_integer_field-Reads :
      (i width : ℕ) → Ensures (Reads bytes i r) (decode_integer_field F bytes i width r)
  unfolding decode_integer_field
  decode_integer_field-Reads i width = field-Ensures bytes i width all λ s _ h.
      Ensures-bind (decode_record_time-Keeps F r.unit.date s _ fresh) λ r' k. returns (h, k)

  decode_bcd_field-Leaves :
      (i width : ℕ) → Ensures (Leaves bytes i r) (decode_bcd_field F bytes i width r)
  unfolding decode_bcd_field
  decode_bcd_field-Leaves i width =
      field-Ensures bytes i width all
        λ s _ h. bcd_value-Leaves (bcd_signed s) i width h (bcd_signed-IsSafe s)

  decode_other_field-Leaves :
      (i field : ℕ)
      → i ≤ length bytes
      → Ensures (Leaves bytes i r) (decode_other_field F bytes i field r)
  unfolding decode_other_field
  decode_other_field-Leaves i field h =
      Ensures-if (field == 0x00 || field == 0x08)
        (λ _. returns (omega arith, (fresh.0, refl, refl)))
        λ _.
          Ensures-if (field == 0x05)
            (λ _. field-Ensures bytes i 4 all λ s _ k.
              Ensures-bind (bytes_to_float32-IsSafe s) λ _ _. returns (k, (fresh.0, refl, refl)))
            λ _.
              Ensures-if (field == 0x0D)
                (λ _. Ensures-bind (decode_lvar-Leaves i) λ p (k, t). returns (omega arith, t))
                λ _.
                  Ensures-if (field == 0x0F) (λ _. returns (omega arith, (fresh.0, refl, refl)))
                    λ _. fails

  decode_field-Reads :
      (integer bcd : Option ℕ) (i field : ℕ)
      → i ≤ length bytes
      → Ensures (Reads bytes i r) (decode_field F integer bcd bytes i field r)
  unfolding decode_field
  decode_field-Reads (some width) bcd i field h = decode_integer_field-Reads i width
  decode_field-Reads none (some width) i field h =
      Ensures-map (decode_bcd_field-Leaves i width) (Leaves-Reads bytes i r)
  decode_field-Reads none none i field h =
      Ensures-map (decode_other_field-Leaves i field h) (Leaves-Reads bytes i r)

  pub decode_record_value-Reads :
      (i dif : ℕ)
      → i ≤ length bytes
      → Ensures (Reads bytes i r) (decode_record_value F bytes i dif r)
  unfolding decode_record_value
  decode_record_value-Reads i dif h =
      let field = bit_and dif dif_mask_data in
      decode_field-Reads (lookup_code field dif_integer_widths) (lookup_code field dif_bcd_widths) i
        field h

  decode_field-Leaves :
      (bcd : Option ℕ) (i field : ℕ)
      → i ≤ length bytes
      → Ensures (Leaves bytes i r) (decode_field F none bcd bytes i field r)
  unfolding decode_field
  decode_field-Leaves (some width) i field h = decode_bcd_field-Leaves i width
  decode_field-Leaves none i field h = decode_other_field-Leaves i field h

  -- A data field that is no binary integer never sets the time of a record, also under a VIF that
  -- names a date: such a record is an error of the frame, or keeps the zero time.
  pub decode_record_value-untimed :
      (i dif : ℕ)
      → i ≤ length bytes
      → lookup_code (bit_and dif 0x0F) dif_integer_widths ≡ none
      → Ensures (λ p. p.0.time ≡ zero_time) (decode_record_value F bytes i dif r)
  unfolding decode_record_value
  decode_record_value-untimed i dif h e =
      let field = bit_and dif 0x0F in
      rw e (
        Ensures-map (decode_field-Leaves (lookup_code field dif_bcd_widths) i field h)
          λ p (_, (z, _, _)). z)
