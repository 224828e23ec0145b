-- ===== src/Record/Confined/Area.antt =====
-- decode.go: what the walk takes for records is a data area, and only what is one.
use gombus.Prelude.{
  ℕ, zero, suc, ◌+◌, ◌-◌, ◌≤◌, ◌≡◌, ◌≢◌, ◌↔◌, ◌⊎◌, inl, inr, refl, subst, sym, ap, ◌∙◌, List, [],
  ◌∷◌, ◌++◌, arith, length, All, All-append, All-take, All-drop, length-drop, take, drop,
  take-append-drop, length-append, length-take, append-nil,
}
use gombus.Result.{Bytes, IsByte, ok, >>=-eq-ok, Ensures-ok}
use gombus.Floats.{Floats}
use gombus.Record.{DecodedDataRecord, unit_value}
use gombus.Record.Decode.{
  unit_of_text, record_head, decode_record, last_record, Marker, final, idle, start, marker_of,
  decode_data_loop, decode_data,
}
use gombus.Record.Walk.{decode_record_total}
use gombus.Record.Embedded.{whole}
use gombus.Record.Embedded.Area.{
  IsArea, nothing, filler, one, manufacturer, more, last-manufacturer, last-more, round_of,
  decode_data_loop-moved, decode_data_loop_end, decode_data_loop_round, decode_data_of_IsArea,
}
use gombus.Record.Confined.{
  Confined, reads, Confined-ok, Confined-bind, Confined-then, need-Confined, at-Confined,
  extensions_of-Confined, custom_text-Confined,
}
use gombus.Record.Confined.Value.{decode_record_value-Confined}

module _ (F : Floats) where
  decode_record-Confined :
      (pre bytes post : Bytes) (i j : ℕ)
      → j ≡ length pre + i
      → Confined
          (length bytes)
          ◌≡◌
          i
          (λ p. i + p.1)
          (decode_record F bytes i)
          (decode_record F (whole pre bytes post) j)
  unfolding decode_record
  decode_record-Confined pre bytes post i j e =
      Confined-then (at-Confined pre bytes post i j e (omega arith)) λ dif.
        Confined-then (extensions_of-Confined pre bytes post dif (i + 1) (j + 1) (omega arith))
          λ dife.
            let k = i + 1 + length dife in
            let l = j + 1 + length dife in
            Confined-then (need-Confined pre bytes post k l 1 (omega arith) (omega arith)) λ _.
              Confined-then (at-Confined pre bytes post k l (omega arith) (omega arith)) λ vif.
                Confined-bind
                  (custom_text-Confined pre bytes post vif (k + 1) (l + 1) (omega arith))
                  λ (t, m) (t', m') (f, g). rw (sym f) (
                    Confined-then (extensions_of-Confined pre bytes post vif m m' g) λ vife.
                      Confined-then
                        (decode_record_value-Confined F pre bytes post
                          (record_head F dif dife (unit_of_text vif vife t)) (m + length vife)
                          (m' + length vife) dif (omega arith))
                        λ p.
                          reads _
                            (ap
                              (λ (n : ℕ).
                                (record p.0 { value = unit_value F p.0.unit p.0.raw_value }, n))
                              (omega arith))
                            (omega arith) λ _. refl)

  started :
      (pre : Bytes) (b : ℕ) (ys zs : Bytes) (p : DecodedDataRecord F.Float × ℕ)
      (others : List (DecodedDataRecord F.Float))
      → (b ≢ 0x0F) × (b ≢ 0x1F) × (b ≢ 0x2F)
      → p.1 ≡ suc (length ys)
      → decode_record F (pre ++ (b ∷ (ys ++ zs))) (length pre) ≡ ok p
      → IsArea F zs others
      → IsArea F (b ∷ (ys ++ zs)) (p.0 ∷ others)
  started pre b ys zs (r, n) others m e d a =
      let alone : decode_record F (b ∷ ys) 0 ≡ ok (r, n) =
        Confined-ok _ (decode_record-Confined pre (b ∷ ys) zs 0 (length pre) (omega arith)) d
          (omega (arith, e)) in
      one b ys m.0 m.1 m.2 (alone ∙ ap (λ (k : ℕ). ok (r, k)) e) a

  -- The same with the bytes behind the first one cut behind the record.
  started_at :
      (pre : Bytes) (b n : ℕ) (rest : Bytes) (p : DecodedDataRecord F.Float × ℕ)
      (others : List (DecodedDataRecord F.Float))
      → (b ≢ 0x0F) × (b ≢ 0x1F) × (b ≢ 0x2F)
      → p.1 ≡ suc n
      → n ≤ length rest
      → decode_record F (pre ++ (b ∷ rest)) (length pre) ≡ ok p
      → IsArea F (drop n rest) others
      → IsArea F (b ∷ rest) (p.0 ∷ others)
  started_at pre b n rest p others m e h d a =
      let cut = take-append-drop {0} n rest in
      let k : p.1 ≡ suc (length (take n rest)) = omega (arith, e, length-take {0} n rest) in
      subst (λ (c : Bytes). IsArea F (b ∷ c) (p.0 ∷ others)) cut
        (started pre b (take n rest) (drop n rest) p others m k
          (ap (λ (c : Bytes). decode_record F (pre ++ (b ∷ c)) (length pre)) cut ∙ d) a)

  idle_byte : (b : ℕ) → marker_of b ≡ idle → b ≡ 0x2F
  unfolding marker_of
  idle_byte b m = ground arith

  final_byte : (b : ℕ) → marker_of b ≡ final → (b ≡ 0x0F) ⊎ (b ≡ 0x1F)
  unfolding marker_of
  final_byte b m = ground arith

  start_byte : (b : ℕ) → marker_of b ≡ start → (b ≢ 0x0F) × (b ≢ 0x1F) × (b ≢ 0x2F)
  unfolding marker_of
  start_byte b m = (λ e. ground arith, λ e. ground arith, λ e. ground arith)

  -- The mark of a byte that ends the walk.
  ended :
      (b : ℕ) (rest : Bytes) → (b ≡ 0x0F) ⊎ (b ≡ 0x1F) → IsArea F (b ∷ rest) (last_record F b ∷ [])
  ended b rest (inl e) = rw (e, last-manufacturer F) (manufacturer rest)
  ended b rest (inr e) = rw (e, last-more F) (more rest)

  -- What a walk with this fuel takes for records is a data area.
  abbrev Accepts : ℕ → Type 0
  Accepts fuel =
      (pre area : Bytes) (rs : List (DecodedDataRecord F.Float))
      → All IsByte pre
      → All IsByte area
      → length area ≤ fuel
      → decode_data_loop F fuel (pre ++ area) (length pre) ≡ ok rs
      → IsArea F area rs

  accepted_start :
      (fuel : ℕ) (pre rest : Bytes) (b : ℕ) (p : DecodedDataRecord F.Float × ℕ)
      (others : List (DecodedDataRecord F.Float))
      → Accepts fuel
      → marker_of b ≡ start
      → All IsByte pre
      → All IsByte (b ∷ rest)
      → length rest ≤ fuel
      → decode_record F (pre ++ (b ∷ rest)) (length pre) ≡ ok p
      → decode_data_loop F fuel (pre ++ (b ∷ rest)) (length pre + p.1) ≡ ok others
      → IsArea F (b ∷ rest) (p.0 ∷ others)
  accepted_start fuel pre rest b p others next e all_pre all_rest l d t =
      let n = p.1 - 1 in
      let size : length (pre ++ (b ∷ rest)) ≡ length pre + suc (length rest) =
        length-append {0} pre (b ∷ rest) in
      let total =
        Ensures-ok
          (decode_record_total F (pre ++ (b ∷ rest)) (length pre)
            (All-append IsByte pre (b ∷ rest) all_pre all_rest) (omega (arith, size)))
          d in
      let two : 2 ≤ p.1 = total.0 in
      let fits : n ≤ length rest = omega (arith, size, total.1, two) in
      let cut = take-append-drop {0} n rest in
      let ahead : length (take n rest) ≡ n = omega (arith, length-take {0} n rest) in
      let behind : length (drop n rest) ≡ length rest - n = length-drop {0} n rest in
      started_at pre b n rest p others (start_byte b e) (omega arith) fits d (
        next (pre ++ (b ∷ take n rest)) (drop n rest) others
          (All-append IsByte pre (b ∷ take n rest) all_pre
            (all_rest.0, All-take IsByte n rest all_rest.1))
          (All-drop IsByte n rest all_rest.1) (omega arith)
          (sym (
              decode_data_loop-moved F fuel pre (b ∷ take n rest) (drop n rest) (length pre + p.1)
                (omega arith))
            ∙ ap (λ (c : Bytes). decode_data_loop F fuel (pre ++ (b ∷ c)) (length pre + p.1)) cut
            ∙ t))

  accepted_round :
      (m : Marker) (fuel : ℕ) (pre rest : Bytes) (b : ℕ) (rs : List (DecodedDataRecord F.Float))
      → Accepts fuel
      → marker_of b ≡ m
      → All IsByte pre
      → All IsByte (b ∷ rest)
      → length rest ≤ fuel
      → round_of F m b fuel (pre ++ (b ∷ rest)) (length pre) ≡ ok rs
      → IsArea F (b ∷ rest) rs
  accepted_round final fuel pre rest b rs next e p a l h =
      let k : last_record F b ∷ [] ≡ rs = cc in
      subst (IsArea F (b ∷ rest)) k (ended b rest (final_byte b e))
  accepted_round idle fuel pre rest b rs next e p a l h =
      subst (λ (c : ℕ). IsArea F (c ∷ rest) rs) (sym (idle_byte b e))
        (filler (
          next (pre ++ (b ∷ [])) rest rs (All-append IsByte pre (b ∷ []) p (a.0, tt)) a.1 l
            (sym (decode_data_loop-moved F fuel pre (b ∷ []) rest (length pre + 1) refl) ∙ h)))
  accepted_round start fuel pre rest b rs next e p a l h =
      let (q, d, g) = >>=-eq-ok (decode_record F (pre ++ (b ∷ rest)) (length pre)) _ h in
      let (others, t, k) =
        >>=-eq-ok (decode_data_loop F fuel (pre ++ (b ∷ rest)) (length pre + q.1)) _ g in
      let whole_list : q.0 ∷ others ≡ rs = cc in
      subst (IsArea F (b ∷ rest)) whole_list
        (accepted_start fuel pre rest b q others next e p a l d t)

  accepted : (fuel : ℕ) → Accepts fuel
  accepted fuel pre [] rs p a l h =
      let k : ok [] ≡ ok rs =
        sym (decode_data_loop_end F fuel pre (length pre) (omega arith))
        ∙ sym (ap (λ (c : Bytes). decode_data_loop F fuel c (length pre)) (append-nil pre))
        ∙ h in
      let none_left : [] ≡ rs = cc in subst (IsArea F []) none_left nothing
  accepted zero pre (b ∷ rest) rs p a l h = absurd (omega arith)
  accepted (suc fuel) pre (b ∷ rest) rs p a l h =
      accepted_round (marker_of b) fuel pre rest b rs (accepted fuel) refl p a (omega arith)
        (sym (decode_data_loop_round F pre rest b fuel (marker_of b) refl) ∙ h)

  -- The walk over any bytes returns a list of records exactly if the bytes are a data area with
  -- these records: records one after the other, each of which starts with a byte other than 0Fh,
  -- 1Fh and 2Fh and is decoded from its own bytes alone, as many as there are, with idle fillers
  -- 2Fh before, between and behind them, and at the end nothing, or 0Fh or 1Fh with any bytes
  -- behind it and its mark: an empty record with the function "Manufacturer specific" or "More
  -- records follow", in which only the mark of 1Fh says that there are more records.
  pub decode_data-IsArea :
      (area : Bytes) (rs : List (DecodedDataRecord F.Float))
      → All IsByte area
      → (decode_data F area ≡ ok rs) ↔ IsArea F area rs
  unfolding decode_data
  decode_data-IsArea area rs a =
      (accepted (length area) [] area rs tt a (omega arith), decode_data_of_IsArea F area rs)
