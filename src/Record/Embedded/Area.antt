-- ===== src/Record/Embedded/Area.antt =====
-- decode.go: the data area of a response as a grammar, and the walk over it.
use gombus.Prelude.{
  ℕ, zero, suc, ◌+◌, ◌≤◌, ◌<◌, ◌≡◌, ◌≢◌, refl, sym, ap, ◌∙◌, List, [], ◌∷◌, ◌++◌, arith, length,
  length-append, append_assoc, get_or_prefix, lt→ltb, le→not_ltb, append-nil, get_or, true,
}
use gombus.Result.{Bytes, Result, ok, ◌>>=◌, at, at-eq_ok}
use gombus.Floats.{Floats}
use gombus.Field.{decode_record_function}
use gombus.Record.{DecodedDataRecord, empty_record, unit_value}
use gombus.Record.Decode.{
  unit_of_text, record_head, decode_record, last_record, Marker, final, idle, start, marker_of,
  decode_data_loop, decode_data,
}
use gombus.Record.Embedded.{
  agrees, Stays, Stays-ok, Stays-bind, Follows-bind, need-Stays, at-Stays, extensions_of-Stays,
  custom_text-Moved, whole,
}
use gombus.Record.Embedded.Value.{decode_record_value-Stays}

module _ (F : Floats) where
  -- A record that decodes decodes alike with other bytes before and behind it.
  pub decode_record-Stays :
      (pre bytes post : Bytes) (i j : ℕ)
      → j ≡ length pre + i
      → Stays (decode_record F bytes i) (decode_record F (whole pre bytes post) j)
  unfolding decode_record
  decode_record-Stays pre bytes post i j e = Stays-bind (at-Stays pre bytes post i j e) λ dif.
      Stays-bind (extensions_of-Stays pre bytes post dif (i + 1) (j + 1) (omega arith)) λ dife.
        let k = i + 1 + length dife in
        let l = j + 1 + length dife in
        Stays-bind (need-Stays pre bytes post k l 1 (omega arith)) λ _.
          Stays-bind (at-Stays pre bytes post k l (omega arith)) λ vif.
            Follows-bind (custom_text-Moved pre bytes post vif (k + 1) (l + 1) (omega arith))
              λ (t, m) (t', m') (f, g). rw (sym f) (
                Stays-bind (extensions_of-Stays pre bytes post vif m m' g) λ vife.
                  Stays-bind
                    (decode_record_value-Stays F pre bytes post
                      (record_head F dif dife (unit_of_text vif vife t)) (m + length vife)
                      (m' + length vife) dif (omega arith))
                    λ p. agrees (
                      ap
                        (λ (n : ℕ). (record p.0 { value = unit_value F p.0.unit p.0.raw_value }, n))
                        (omega arith)))

  -- The marks at the end of an area: one for 0Fh, and one for 1Fh, which says that records follow in
  -- another frame.
  abbrev pub manufacturer_mark : DecodedDataRecord F.Float
  manufacturer_mark = record (empty_record F) { function = "Manufacturer specific" }

  abbrev pub more_mark : DecodedDataRecord F.Float
  more_mark = record (empty_record F) { function = "More records follow"; has_more_records = true }

  -- A data area: records, each of which starts with a byte other than 0Fh, 1Fh and 2Fh, decodes by
  -- itself and is as long as its bytes, with idle fillers 2Fh between them, and at the end what a
  -- manufacturer has put behind 0Fh or 1Fh.
  pub data IsArea : Bytes → List (DecodedDataRecord F.Float) → Type 0 where
    nothing : IsArea [] []
    filler :
        {rest : Bytes} {rs : List (DecodedDataRecord F.Float)}
        → IsArea rest rs
        → IsArea (0x2F ∷ rest) rs
    one :
        (b : ℕ) (xs : Bytes) {rest : Bytes} {r : DecodedDataRecord F.Float}
        {rs : List (DecodedDataRecord F.Float)}
        → b ≢ 0x0F
        → b ≢ 0x1F
        → b ≢ 0x2F
        → decode_record F (b ∷ xs) 0 ≡ ok (r, suc (length xs))
        → IsArea rest rs
        → IsArea (b ∷ (xs ++ rest)) (r ∷ rs)
    manufacturer : (rest : Bytes) → IsArea (0x0F ∷ rest) (manufacturer_mark ∷ [])
    more : (rest : Bytes) → IsArea (0x1F ∷ rest) (more_mark ∷ [])

  is_start : (b : ℕ) → b ≢ 0x0F → b ≢ 0x1F → b ≢ 0x2F → marker_of b ≡ start
  unfolding marker_of
  is_start b p q r = ground arith

  -- The record that stands for a marker byte.
  pub last-manufacturer : last_record F 0x0F ≡ manufacturer_mark
  unfolding last_record decode_record_function
  last-manufacturer = refl

  pub last-more : last_record F 0x1F ≡ more_mark
  unfolding last_record decode_record_function
  last-more = refl

  inside : (pre : Bytes) (b : ℕ) (rest : Bytes) → length pre < length (pre ++ (b ∷ rest))
  inside pre b rest = omega (arith, length-append {0} pre (b ∷ rest))

  at_here : (pre : Bytes) (b : ℕ) (rest : Bytes) → at (pre ++ (b ∷ rest)) (length pre) ≡ ok b
  at_here pre b rest =
      let e : get_or (pre ++ (b ∷ rest)) (length pre) 0 ≡ b =
        ap (λ (n : ℕ). get_or (pre ++ (b ∷ rest)) n 0) (omega arith)
        ∙ get_or_prefix {0} pre (b ∷ rest) 0 0 in
      at-eq_ok (pre ++ (b ∷ rest)) (length pre) (inside pre b rest) ∙ ap ok e

  -- The same bytes, with a part of what was ahead now behind.
  pub decode_data_loop-moved :
      (fuel : ℕ) (pre xs rest : Bytes) (n : ℕ)
      → n ≡ length pre + length xs
      → decode_data_loop F fuel (pre ++ (xs ++ rest)) n
        ≡ decode_data_loop F fuel ((pre ++ xs) ++ rest) (length (pre ++ xs))
  decode_data_loop-moved fuel pre xs rest n e =
      let k : n ≡ length (pre ++ xs) = omega (arith, length-append {0} pre xs) in
      ap (decode_data_loop F fuel (pre ++ (xs ++ rest))) k
      ∙ ap (λ (b : Bytes). decode_data_loop F fuel b (length (pre ++ xs)))
          (sym (append_assoc pre xs rest))

  pub decode_data_loop_end :
      (fuel : ℕ) (bytes : Bytes) (i : ℕ)
      → length bytes ≤ i
      → decode_data_loop F fuel bytes i ≡ ok []
  unfolding decode_data_loop
  decode_data_loop_end zero bytes i h = rw (le→not_ltb i (length bytes) h) refl
  decode_data_loop_end (suc fuel) bytes i h =
      rw (decode_data_loop, le→not_ltb i (length bytes) h) refl

  -- A round of the walk that stands on the byte `b`.
  abbrev pub round_of : Marker → ℕ → ℕ → Bytes → ℕ → Result (List (DecodedDataRecord F.Float))
  round_of m b fuel bytes i = elim m [
    | final ↦ ok (last_record F b ∷ [])
    | idle ↦ decode_data_loop F fuel bytes (i + 1)
    | start ↦ (do
      p ← decode_record F bytes i
      rest ← decode_data_loop F fuel bytes (i + p.1)
      ok (p.0 ∷ rest))
  ]

  pub decode_data_loop_round :
      (pre rest : Bytes) (b fuel : ℕ) (m : Marker)
      → marker_of b ≡ m
      → decode_data_loop F (suc fuel) (pre ++ (b ∷ rest)) (length pre)
        ≡ round_of m b fuel (pre ++ (b ∷ rest)) (length pre)
  unfolding decode_data_loop
  decode_data_loop_round pre rest b fuel m e =
      let opened : decode_data_loop F (suc fuel) (pre ++ (b ∷ rest)) (length pre)
          ≡ round_of (marker_of b) b fuel (pre ++ (b ∷ rest)) (length pre) =
        rw (decode_data_loop, lt→ltb _ _ (inside pre b rest), at_here pre b rest) refl in
      opened ∙ ap (λ n. round_of n b fuel (pre ++ (b ∷ rest)) (length pre)) e

  decode_data_loop-IsArea :
      (pre area : Bytes) (rs : List (DecodedDataRecord F.Float)) (fuel : ℕ)
      → IsArea area rs
      → length area ≤ fuel
      → decode_data_loop F fuel (pre ++ area) (length pre) ≡ ok rs
  unfolding decode_data_loop
  decode_data_loop-IsArea pre area rs fuel nothing h =
      rw (append-nil pre) (decode_data_loop_end fuel pre (length pre) (omega arith))
  decode_data_loop-IsArea pre area rs zero (filler a) h = absurd (omega arith)
  decode_data_loop-IsArea pre area rs (suc fuel) (filler {rest} a) h =
      decode_data_loop_round pre rest 0x2F fuel idle (ground arith)
      ∙ decode_data_loop-moved fuel pre (0x2F ∷ []) rest (length pre + 1) refl
      ∙ decode_data_loop-IsArea (pre ++ (0x2F ∷ [])) rest rs fuel a (omega arith)
  decode_data_loop-IsArea pre area rs zero (one b xs n m k d a) h = absurd (omega arith)
  decode_data_loop-IsArea pre area rs (suc fuel) (one b xs {rest} {r} {rs = others} n m k d a) h =
      let whole_record =
        Stays-ok _ (decode_record-Stays pre (b ∷ xs) rest 0 (length pre) (omega arith)) d in
      let tail =
        decode_data_loop-moved fuel pre (b ∷ xs) rest (length pre + suc (length xs)) refl
        ∙ decode_data_loop-IsArea (pre ++ (b ∷ xs)) rest others fuel a
            (omega (arith, length-append {0} xs rest)) in
      decode_data_loop_round pre (xs ++ rest) b fuel start (is_start b n m k)
      ∙ rw whole_record (rw tail refl)
  decode_data_loop-IsArea pre area rs zero (manufacturer rest) h = absurd (omega arith)
  decode_data_loop-IsArea pre area rs (suc fuel) (manufacturer rest) h =
      decode_data_loop_round pre rest 0x0F fuel final (ground arith)
      ∙ ap (λ r. ok (r ∷ [])) last-manufacturer
  decode_data_loop-IsArea pre area rs zero (more rest) h = absurd (omega arith)
  decode_data_loop-IsArea pre area rs (suc fuel) (more rest) h =
      decode_data_loop_round pre rest 0x1F fuel final (ground arith)
      ∙ ap (λ r. ok (r ∷ [])) last-more

  -- The walk returns the records of a data area.
  pub decode_data_of_IsArea :
      (area : Bytes) (rs : List (DecodedDataRecord F.Float))
      → IsArea area rs
      → decode_data F area ≡ ok rs
  unfolding decode_data
  decode_data_of_IsArea area rs a = decode_data_loop-IsArea [] area rs (length area) a (omega arith)
