-- ===== src/Record/Walk.antt =====
-- decode.go: a record takes two bytes or more, all of them there, and the walk over the records ends.
use gombus.Prelude.{
  ℕ, zero, suc, ◌+◌, ◌*◌, ◌≤◌, ◌<◌, ◌≡◌, ◌⊎◌, inl, inr, refl, Bool, true, false, List, [], ◌∷◌,
  arith, length, All, ltb, ◌==◌, bit_and, ltb→lt,
}
use gombus.Result.{
  Bytes, IsByte, Result, at-Ensures, Ensures, returns, fails, Ensures-if, Ensures-bind, Ensures-map,
}
use gombus.Encoding.{check_kth_bit_set}
use gombus.Field.{vif_without_extension}
use gombus.Floats.{Floats}
use gombus.Record.{
  DecodedDataRecord, unit_value, max_extensions, read_extensions_loop, read_extensions,
}
use gombus.Record.Decode.{
  extensions_of, custom_text, unit_of_text, record_head, decode_record, last_record, Marker, final,
  idle, start, marker_of, decode_data_loop, decode_data,
}
use gombus.Record.Bounds.{need-Ensures, field-Ensures, IsTimed}
use gombus.Record.Within.{decode_record_value-Reads}

-- A chain stays within the bytes.
abbrev IsChain : Bytes → ℕ → Bytes → Type 0
IsChain bytes i s = i + length s ≤ length bytes

read_extensions_loop-IsChain :
    (left : ℕ) (bytes : Bytes) (i : ℕ)
    → All IsByte bytes
    → Ensures
        (λ s. IsChain bytes i s × (1 ≤ length s) × (length s ≤ left))
        (read_extensions_loop left bytes i)
unfolding read_extensions_loop
read_extensions_loop-IsChain zero bytes i a = fails
read_extensions_loop-IsChain (suc left) bytes i a = Ensures-bind (need-Ensures bytes i 1) λ _ h.
    Ensures-bind (at-Ensures bytes i (omega arith) a) λ b _.
      Ensures-if (check_kth_bit_set b 7)
        (λ _.
          Ensures-bind (read_extensions_loop-IsChain left bytes (i + 1) a)
            λ s (k, l, m). returns (omega arith, omega arith, omega arith))
        λ _. returns (omega arith, omega arith, omega arith)

-- The chain of the extensions behind a byte stays within the bytes, and has ten bytes or fewer.
pub extensions_of-IsChain :
    (b : ℕ) (bytes : Bytes) (i : ℕ)
    → All IsByte bytes
    → i ≤ length bytes
    → Ensures (λ s. (i + length s ≤ length bytes) × (length s ≤ 10)) (extensions_of b bytes i)
unfolding extensions_of read_extensions
extensions_of-IsChain b bytes i a h =
    Ensures-if (check_kth_bit_set b 7)
      (λ _.
        Ensures-map (read_extensions_loop-IsChain max_extensions bytes i a) λ s (k, l, m). (k, m))
      λ _. returns (omega arith, omega arith)

custom_text-within :
    (vif : ℕ) (bytes : Bytes) (i : ℕ)
    → All IsByte bytes
    → i ≤ length bytes
    → Ensures (λ p. (i ≤ p.1) × (p.1 ≤ length bytes)) (custom_text vif bytes i)
unfolding custom_text
custom_text-within vif bytes i a h =
    Ensures-if (bit_and vif vif_without_extension == 0x7C)
      (λ _. Ensures-bind (need-Ensures bytes i 1) λ _ k.
        Ensures-bind (at-Ensures bytes i (omega arith) a)
          λ size _. field-Ensures bytes (i + 1) size a λ s _ m. returns (omega arith, omega arith))
      λ _. returns (omega arith, h)

module _ (F : Floats) where
  -- What a record of the walk is: its value is its raw value by its scale, and its time is a real
  -- date if it is set.
  pub record IsRecord (r : DecodedDataRecord F.Float) : Type 0 where
    pub scaled : r.value ≡ unit_value F r.unit r.raw_value
    pub timed : IsTimed r
    pub not_last : r.has_more_records ≡ false

  -- At any index of any bytes, a record either is an error or takes two bytes or more of those
  -- that are there. Its value is its raw value by the exponent of its unit, also where the value
  -- is an error; its time is zero, or a real date beside no error; and it is not marked as the
  -- last one.
  pub decode_record_total :
      (bytes : Bytes) (i : ℕ)
      → All IsByte bytes
      → i < length bytes
      → Ensures (λ p. (2 ≤ p.1) × (i + p.1 ≤ length bytes) × IsRecord p.0) (decode_record F bytes i)
  unfolding decode_record
  decode_record_total bytes i a h = Ensures-bind (at-Ensures bytes i h a) λ dif _.
      Ensures-bind (extensions_of-IsChain dif bytes (i + 1) a (omega arith)) λ dife (k, _).
        Ensures-bind (need-Ensures bytes (i + 1 + length dife) 1) λ _ l.
          Ensures-bind (at-Ensures bytes (i + 1 + length dife) (omega arith) a) λ vif _.
            Ensures-bind (custom_text-within vif bytes (i + 1 + length dife + 1) a (omega arith))
              λ named (m, n).
                Ensures-bind (extensions_of-IsChain vif bytes named.1 a n) λ vife (o, _).
                  Ensures-bind
                    (decode_record_value-Reads F bytes a
                      (record_head F dif dife (unit_of_text vif vife named.0)) (refl, refl)
                      (named.1 + length vife) dif o)
                    λ p (q, (t, u, f)).
                      returns (
                        omega arith,
                        omega arith,
                        record { scaled = refl; timed = t; not_last = f },
                      )

  -- The record that ends a walk: manufacturer data from here on.
  abbrev pub IsLast : DecodedDataRecord F.Float → Type 0
  IsLast r = (r ≡ last_record F 0x0F) ⊎ (r ≡ last_record F 0x1F)

  -- Records of the walk, the last of which may be one that ends it.
  abbrev pub IsWalk : List (DecodedDataRecord F.Float) → Type 0
  IsWalk [] = Unit {0}
  IsWalk (r ∷ []) = IsRecord r ⊎ IsLast r
  IsWalk (r ∷ s ∷ rest) = IsRecord r × IsWalk (s ∷ rest)

  IsWalk-cons :
      (r : DecodedDataRecord F.Float) (rest : List (DecodedDataRecord F.Float))
      → IsRecord r
      → IsWalk rest
      → IsWalk (r ∷ rest)
  IsWalk-cons r [] p w = inl p
  IsWalk-cons r (s ∷ rest) p w = (p, w)

  Ensures-marker :
      {P : List (DecodedDataRecord F.Float) → Type 0} (m : Marker)
      {x y z : Result (List (DecodedDataRecord F.Float))}
      → (m ≡ final → Ensures P x)
      → Ensures P y
      → Ensures P z
      → Ensures P (elim m [ final ↦ x | idle ↦ y | start ↦ z ])
  Ensures-marker final p q r = p refl
  Ensures-marker idle p q r = q
  Ensures-marker start p q r = r

  Ensures-test :
      {P : List (DecodedDataRecord F.Float) → Type 0} (t : Bool)
      {x y : Result (List (DecodedDataRecord F.Float))}
      → (t ≡ true → Ensures P x)
      → (t ≡ false → Ensures P y)
      → Ensures P (elim t [ true ↦ x | false ↦ y ])
  Ensures-test true p q = p refl
  Ensures-test false p q = q refl

  last_record-IsLast : (b : ℕ) → marker_of b ≡ final → IsLast (last_record F b)
  unfolding marker_of
  last_record-IsLast b h = ground arith

  decode_data_loop_total :
      (fuel : ℕ) (bytes : Bytes) (i : ℕ)
      → All IsByte bytes
      → i ≤ length bytes
      → length bytes ≤ fuel + i
      → Ensures
          (λ rs. IsWalk rs × (2 * length rs + i ≤ length bytes + 1))
          (decode_data_loop F fuel bytes i)
  unfolding decode_data_loop
  decode_data_loop_total zero bytes i a h f =
      Ensures-if (ltb i (length bytes)) (λ e. absurd (ground arith)) λ _. returns (tt, omega arith)
  decode_data_loop_total (suc fuel) bytes i a h f =
      Ensures-test (ltb i (length bytes))
        (λ e.
          let k = ltb→lt _ _ e in
          Ensures-bind (at-Ensures bytes i k a) λ b _.
            Ensures-marker (marker_of b) (λ m. returns (inr (last_record-IsLast b m), omega arith))
              (Ensures-map (decode_data_loop_total fuel bytes (i + 1) a (omega arith) (omega arith))
                λ rs (w, n). (w, omega arith))
              (Ensures-bind (decode_record_total bytes i a k) λ p (two, l, r).
                Ensures-bind (decode_data_loop_total fuel bytes (i + p.1) a l (omega arith))
                  λ rest (w, n). returns (IsWalk-cons p.0 rest r w, omega arith)))
        (λ _. returns (tt, omega arith))

  -- The walk over any bytes ends within its fuel and reads nothing out of range: it is an error,
  -- or records of two bytes or more each, of which only the last can be a mark of manufacturer
  -- data.
  pub decode_data_total :
      (bytes : Bytes)
      → All IsByte bytes
      → Ensures (λ rs. IsWalk rs × (2 * length rs ≤ length bytes + 1)) (decode_data F bytes)
  unfolding decode_data
  decode_data_total bytes a =
      Ensures-map (decode_data_loop_total (length bytes) bytes 0 a (omega arith) (omega arith))
        λ rs (w, n). (w, omega arith)
