-- ===== src/Response/Total.antt =====
-- decode.go and decode_fixed.go: decoding any bytes ends in a frame or an error.
use gombus.Prelude.{
  ℕ, ◌+◌, ◌-◌, ◌*◌, ◌^◌, ◌≤◌, ◌<◌, ◌≡◌, ap, refl, arith, length, All, ltb, ◌==◌, bit_and,
}
use gombus.Prelude.Int.{ℤ}
use gombus.Result.{
  Bytes, IsByte, Result, sentinel, invalid_frame, at-Ensures, IsSlice, slice-Ensures, Ensures,
  returns, fails, to_Ensures, Ensures-if, Ensures-bind, Ensures-map, Ensures-refuse,
  Ensures-ne-fault, IsSafe,
}
use gombus.Encoding.{bcd_magnitude}
use gombus.Encoding.Bcd.{bcd_magnitude_sound}
use gombus.Encoding.Total.{bcd_magnitude-IsSafe, bcd_signed-IsSafe}
use gombus.Floats.{Floats}
use gombus.Frame.LongFrame
use gombus.Record.{DecodedDataRecord}
use gombus.Record.Walk.{IsWalk, decode_data_total}
use gombus.Response.{decode_manufacturer, serial_of}
use gombus.Response.Fixed.{counted, fixed_record, decode_fixed, fixed_min_frame_len}
use gombus.Response.Decode.{decode_variable, decode, ci_variable_data_mode1, ci_fixed_data_mode1}

wrapped_serial : {P : ℕ → Type 0} {r : Result ℕ} → Ensures P r → Ensures P (serial_of r)
unfolding serial_of
wrapped_serial (returns p) = returns p
wrapped_serial fails = fails

serial_of-Ensures :
    (id : Bytes) → IsSlice 4 id → Ensures (λ v. v < 10 ^ 8) (serial_of (bcd_magnitude id))
serial_of-Ensures id (l, a) = wrapped_serial (
    to_Ensures (bcd_magnitude id)
      (λ v e.
        let (_, _, p, _) = bcd_magnitude_sound id v a e in
        let q : 100 ^ length id ≡ 10 ^ 8 = ap (λ n. 100 ^ n) l in omega arith)
      (λ x e. Ensures-ne-fault x (bcd_magnitude-IsSafe id) e))

decode_manufacturer-IsSafe : (lf : Bytes) → All IsByte lf → IsSafe (decode_manufacturer lf)
unfolding decode_manufacturer
decode_manufacturer-IsSafe lf a = Ensures-refuse (ltb (length lf) 13) (sentinel invalid_frame) λ h.
    Ensures-bind (at-Ensures lf 11 (ground arith) a)
      λ _ _. Ensures-bind (at-Ensures lf 12 (ground arith) a) λ _ _. returns tt

module _ (F : Floats) where
  -- A frame of at least 21 bytes read as the variable structure is an error, or a serial number of
  -- eight digits with the records of a walk, two bytes or more each behind the header but for the
  -- last.
  pub decode_variable_total :
      (lf : Bytes)
      → All IsByte lf
      → 21 ≤ length lf
      → Ensures
          (λ f.
            (f.serial_number < 10 ^ 8)
            × IsWalk F f.data_records
            × (2 * length f.data_records + 20 ≤ length lf))
          (decode_variable F lf)
  unfolding decode_variable
  decode_variable_total lf a n = Ensures-bind (decode_manufacturer-IsSafe lf a) λ man _.
      Ensures-bind (slice-Ensures lf 19 (length lf - 2) (omega arith) (omega arith) a)
        λ area (l, b). Ensures-bind (decode_data_total F area b) λ dr (w, k).
          Ensures-bind (slice-Ensures lf 7 11 (omega arith) (omega arith) a) λ id s.
            Ensures-bind (serial_of-Ensures id s) λ serial d.
              Ensures-bind (at-Ensures lf 13 (omega arith) a) λ _ _.
                Ensures-bind (at-Ensures lf 14 (omega arith) a) λ _ _.
                  Ensures-bind (at-Ensures lf 15 (omega arith) a) λ _ _.
                    Ensures-bind (at-Ensures lf 16 (omega arith) a) λ _ _.
                      Ensures-bind (at-Ensures lf 17 (omega arith) a) λ _ _.
                        Ensures-bind (at-Ensures lf 18 (omega arith) a)
                          λ _ _. returns (d, w, omega arith)

  counted-IsSafe :
      (v : Result ℤ) (r : DecodedDataRecord F.Float) → IsSafe v → IsSafe (counted F v r)
  unfolding counted
  counted-IsSafe v r (returns p) = returns tt
  counted-IsSafe v r fails = returns tt

  fixed_record-IsSafe :
      (counter : Bytes) (own other status storage : ℕ)
      → IsSafe (fixed_record F counter own other status storage)
  unfolding fixed_record
  fixed_record-IsSafe counter own other status storage =
      counted-IsSafe _ _
        (Ensures-if (bit_and status 0x01 == 0) (λ _. bcd_signed-IsSafe counter) λ _. returns tt)

  decode_fixed_total :
      (lf : Bytes)
      → All IsByte lf
      → Ensures (λ f. (f.serial_number < 10 ^ 8) × (length f.data_records ≡ 2)) (decode_fixed F lf)
  unfolding decode_fixed
  decode_fixed_total lf a =
      Ensures-refuse (ltb (length lf) fixed_min_frame_len) (sentinel invalid_frame) λ h.
        let n : 25 ≤ length lf = ground arith in
        Ensures-bind (slice-Ensures lf 7 11 (omega arith) (omega arith) a) λ id s.
          Ensures-bind (serial_of-Ensures id s) λ serial d.
            Ensures-bind (at-Ensures lf 12 (omega arith) a) λ status _.
              Ensures-bind (at-Ensures lf 13 (omega arith) a) λ unit1 _.
                Ensures-bind (at-Ensures lf 14 (omega arith) a) λ unit2 _.
                  Ensures-bind (slice-Ensures lf 15 19 (omega arith) (omega arith) a) λ counter1 _.
                    Ensures-bind (slice-Ensures lf 19 23 (omega arith) (omega arith) a)
                      λ counter2 _. Ensures-bind (at-Ensures lf 11 (omega arith) a) λ _ _.
                        Ensures-bind (fixed_record-IsSafe counter1 unit1 unit2 status 0) λ _ _.
                          Ensures-bind (fixed_record-IsSafe counter2 unit2 unit1 status 1)
                            λ _ _. returns (d, refl)

  -- Decoding any bytes never indexes out of range and never runs out of fuel: it is an error, or a
  -- frame whose serial number has eight digits at most.
  pub decode_total :
      (lf : Bytes) → All IsByte lf → Ensures (λ f. f.serial_number < 10 ^ 8) (decode F lf)
  unfolding decode LongFrame.ci_field
  decode_total lf a = Ensures-refuse (ltb (length lf) 21) (sentinel invalid_frame) λ h.
      let n : 21 ≤ length lf = ground arith in
      Ensures-bind (at-Ensures lf 6 (omega arith) a) λ ci _.
        Ensures-if (ci == ci_variable_data_mode1)
          (λ _. Ensures-map (decode_variable_total lf a n) λ f (s, _, _). s)
          λ _.
            Ensures-if (ci == ci_fixed_data_mode1)
              (λ _. Ensures-map (decode_fixed_total lf a) λ f (s, _). s) λ _. fails
