-- ===== src/Record/Bounds.antt =====
-- decode.go and datetime.go: what reading the data bytes of a record keeps of it, and how far it reads.
use gombus.Prelude.{
  ℕ, ◌+◌, ◌≤◌, ◌≡◌, ◌⊎◌, inl, inr, refl, Bool, not, none, arith, length, All, ltb, ◌==◌, ==→eq,
}
use gombus.Result.{
  Bytes, IsByte, Result, sentinel, short_data_record, ◌>>=◌, ◌>>◌, slice, IsSlice, slice-Ensures,
  Ensures, returns, fails, Ensures-if, Ensures-bind, Ensures-map, refuse-Ensures,
}
use gombus.Units.{DateFormat, date_none, date_type_g, date_type_f, date_type_i}
use gombus.DateTime.{DateTime, zero_time}
use gombus.DateTime.Calendar.{IsReal}
use gombus.DateTime.Total.{
  IsStamp, decode_type_g-Ensures, decode_type_f-Ensures, decode_type_i-Ensures,
}
use gombus.Floats.{Floats}
use gombus.Record.{DecodedDataRecord, need}
use gombus.Record.Time.{stamp, stamp_flagged, decode_record_date_time, decode_record_time}

-- What is behind a bounds check has its bytes.
pub need-Ensures : (bytes : Bytes) (i n : ℕ) → Ensures (λ _. i + n ≤ length bytes) (need bytes i n)
unfolding need
need-Ensures bytes i n =
    Ensures-map (refuse-Ensures (ltb (length bytes) (i + n)) (sentinel short_data_record))
      λ _ h. ground arith

-- A checked slice of `n` bytes.
pub field-Ensures {ℓ κ} :
    {A : Type ℓ} {P : A → Type κ} (bytes : Bytes) (i n : ℕ) {f : Bytes → Result A}
    → All IsByte bytes
    → ((s : Bytes) → IsSlice n s → i + n ≤ length bytes → Ensures P (f s))
    → Ensures P (need bytes i n >> (slice bytes i (i + n) >>= f))
field-Ensures bytes i n a k = Ensures-bind (need-Ensures bytes i n) λ _ h.
    Ensures-bind (slice-Ensures bytes i (i + n) (omega arith) h a)
      λ s (l, b). k s (omega (arith, l), b) h

module _ {Float : Type 0} where
  -- A record that has no time and no error yet.
  abbrev pub IsFresh : DecodedDataRecord Float → Type 0
  IsFresh r = (r.time ≡ zero_time) × (r.value_err ≡ none)

  -- A time stands in a record only if it is a real date, and then the value is no error.
  abbrev pub IsTimed : DecodedDataRecord Float → Type 0
  IsTimed r = (r.time ≡ zero_time) ⊎ (IsReal r.time × (r.value_err ≡ none))

  -- What reading a value keeps: the record may gain a time, and keeps its unit and its flag.
  abbrev pub Keeps : DecodedDataRecord Float → DecodedDataRecord Float → Type 0
  Keeps r r' = IsTimed r' × (r'.unit ≡ r.unit) × (r'.has_more_records ≡ r.has_more_records)

  -- It also stays within the bytes, from index `i` on.
  abbrev pub Reads : Bytes → ℕ → DecodedDataRecord Float → DecodedDataRecord Float × ℕ → Type 0
  Reads bytes i r p = (i + p.1 ≤ length bytes) × Keeps r p.0

  -- The same of a value that has no time.
  abbrev pub Leaves : Bytes → ℕ → DecodedDataRecord Float → DecodedDataRecord Float × ℕ → Type 0
  Leaves bytes i r p =
      (i + p.1 ≤ length bytes)
      × ((p.0.time ≡ zero_time) × (p.0.unit ≡ r.unit) × (p.0.has_more_records ≡ r.has_more_records))

  pub Leaves-Reads :
      (bytes : Bytes) (i : ℕ) (r : DecodedDataRecord Float) (p : DecodedDataRecord Float × ℕ)
      → Leaves bytes i r p
      → Reads bytes i r p
  Leaves-Reads bytes i r p (h, (z, u, f)) = (h, (inl z, u, f))

module _ (F : Floats) where
  stamp-Keeps :
      (r : DecodedDataRecord F.Float) {t : Result DateTime}
      → IsFresh r
      → Ensures IsReal t
      → Ensures (Keeps r) (stamp F t r)
  unfolding stamp
  stamp-Keeps r (z, n) (returns p) = returns (inr (p, n), refl, refl)
  stamp-Keeps r (z, n) fails = returns (inl z, refl, refl)

  stamp_flagged-Keeps :
      (r : DecodedDataRecord F.Float) (p : Bool × Result DateTime)
      → IsFresh r
      → IsStamp p
      → Ensures (Keeps r) (stamp_flagged F p r)
  unfolding stamp_flagged
  stamp_flagged-Keeps r (su, t) f h =
      Ensures-map (stamp-Keeps (record r { summer_time_flag = su }) f h) λ _ k. k

  decode_record_date_time-Keeps :
      (b : Bytes) (r : DecodedDataRecord F.Float)
      → IsFresh r
      → Ensures (Keeps r) (decode_record_date_time F b r)
  unfolding decode_record_date_time
  decode_record_date_time-Keeps b r f =
      Ensures-if (length b == 4)
        (λ h.
          Ensures-bind (decode_type_f-Ensures b (==→eq _ _ h)) λ p k. stamp_flagged-Keeps r p f k)
        λ _.
          Ensures-if (length b == 6)
            (λ h.
              Ensures-bind (decode_type_i-Ensures b (==→eq _ _ h))
                λ p k. stamp_flagged-Keeps r p f k)
            λ _. returns (inl f.0, refl, refl)

  pub decode_record_time-Keeps :
      (d : DateFormat) (b : Bytes) (r : DecodedDataRecord F.Float)
      → IsFresh r
      → Ensures (Keeps r) (decode_record_time F d b r)
  unfolding decode_record_time
  decode_record_time-Keeps date_type_g b r f =
      Ensures-if (not (length b == 2)) (λ _. returns (inl f.0, refl, refl))
        λ h. stamp-Keeps r f (decode_type_g-Ensures b (ground arith))
  decode_record_time-Keeps date_type_f b r f = decode_record_date_time-Keeps b r f
  decode_record_time-Keeps date_type_i b r (z, n) = returns (inl z, refl, refl)
  decode_record_time-Keeps date_none b r (z, n) = returns (inl z, refl, refl)
