-- ===== src/Query/Selection.antt =====
-- records.go: which records the queries select, and when they have a value.
use gombus.Prelude.{
  ℕ, ◌≡◌, ◌⊎◌, inl, inr, refl, ap, true, ◌&&◌, List, [], ◌∷◌, ◌++◌, none, some, String, arith,
  Bool-cases, Option-cases, All, subst,
}
use gombus.Units.{codes}
use gombus.Response.Text.{same_bytes}
use gombus.Result.{Bytes, Error, ok, err, sentinel, no_record}
use gombus.Record.{DecodedDataRecord}
use gombus.Response.{DecodedFrame}
use gombus.Query.{
  RecordMatch, match_type, match_function, match_current, match_all, find_in, find_all_in, find,
  find_all, record_of, value_or_error, value,
}

-- The three matchers of `Record`.
abbrev current_matches : {Float : Type 0} → ℕ → String → List (RecordMatch Float)
current_matches unit_type function =
    match_type unit_type ∷ match_function function ∷ match_current ∷ []

same_bytes_sound : (xs ys : Bytes) → same_bytes xs ys ≡ true → xs ≡ ys
unfolding same_bytes
same_bytes_sound [] [] e = refl
same_bytes_sound [] (y ∷ ys) e = cc
same_bytes_sound (x ∷ xs) [] e = cc
same_bytes_sound (x ∷ xs) (y ∷ ys) e = ground (arith, same_bytes_sound xs ys)

same_bytes_refl : (xs : Bytes) → same_bytes xs xs ≡ true
unfolding same_bytes
same_bytes_refl [] = refl
same_bytes_refl (x ∷ xs) = ground (arith, same_bytes_refl xs)

same_bytes_complete : (xs ys : Bytes) → xs ≡ ys → same_bytes xs ys ≡ true
same_bytes_complete xs ys e = subst (λ zs. same_bytes xs zs ≡ true) e (same_bytes_refl xs)

module _ {Float : Type 0} where
  match_all-append :
      (r : DecodedDataRecord Float) (ms ns : List (RecordMatch Float))
      → match_all r (ms ++ ns) ≡ (match_all r ms && match_all r ns)
  unfolding match_all
  match_all-append r [] ns = refl
  match_all-append r (m ∷ ms) ns = ground (arith, match_all-append r ms ns)

  find_in_sound :
      (rs : List (DecodedDataRecord Float)) (matches : List (RecordMatch Float))
      (r : DecodedDataRecord Float)
      → find_in rs matches ≡ some r
      → (before after : List (DecodedDataRecord Float)) × (rs ≡ before ++ r ∷ after)
        × (match_all r matches ≡ true)
        × (find_all_in before matches ≡ [])
  unfolding find_in find_all_in
  find_in_sound [] matches r e = cc
  find_in_sound (x ∷ rs) matches r e = elim (Bool-cases (match_all x matches)) [
    | inl t ↦ ([], rs, ground arith, ground arith, refl)
    | inr t ↦
        let (before, after, p, q, n) = find_in_sound rs matches r (ground arith) in
        (x ∷ before, after, ap (λ l. x ∷ l) p, q, ground arith)
  ]

  -- A record that Find returns matches, and no record before it does.
  pub find_sound :
      (df : DecodedFrame Float) (matches : List (RecordMatch Float)) (r : DecodedDataRecord Float)
      → find df matches ≡ some r
      → (before after : List (DecodedDataRecord Float)) × (df.data_records ≡ before ++ r ∷ after)
        × (match_all r matches ≡ true)
        × (find_all_in before matches ≡ [])
  unfolding find
  find_sound df matches r e = find_in_sound df.data_records matches r e

  find_all_in-append :
      (rs : List (DecodedDataRecord Float)) (ms ns : List (RecordMatch Float))
      → find_all_in rs (ms ++ ns) ≡ find_all_in (find_all_in rs ms) ns
  unfolding find_all_in
  find_all_in-append [] ms ns = refl
  find_all_in-append (r ∷ rs) ms ns = elim (Bool-cases (match_all r ms)) [
    | inl t ↦ ground (arith, match_all-append r ms ns, find_all_in-append rs ms ns)
    | inr t ↦ ground (arith, match_all-append r ms ns, find_all_in-append rs ms ns)
  ]

  -- Selecting by the matchers of two lists is selecting by those of the second among the records
  -- that the first selects.
  pub find_all-append :
      (df : DecodedFrame Float) (ms ns : List (RecordMatch Float))
      → find_all df (ms ++ ns) ≡ find_all (record df { data_records = find_all df ms }) ns
  unfolding find_all
  find_all-append df ms ns = find_all_in-append df.data_records ms ns

  find_in-find_all_in :
      (rs : List (DecodedDataRecord Float)) (matches : List (RecordMatch Float))
      → ((find_in rs matches ≡ none) × (find_all_in rs matches ≡ []))
        ⊎ ((r : DecodedDataRecord Float) × (rest : List (DecodedDataRecord Float)) × (find_in rs
                matches
              ≡ some r)
            × (find_all_in rs matches ≡ r ∷ rest))
  unfolding find_in find_all_in
  find_in-find_all_in [] matches = inl (refl, refl)
  find_in-find_all_in (x ∷ rs) matches = elim (Bool-cases (match_all x matches)) [
    | inl t ↦ inr (x, find_all_in rs matches, ground arith, ground arith)
    | inr t ↦ elim (find_in-find_all_in rs matches) [
      | inl (p, q) ↦ inl (ground arith, ground arith)
      | inr (r, rest, p, q) ↦ inr (r, rest, ground arith, ground arith)
    ]
  ]

  -- Find returns the first record of FindAll, and fails where that is empty.
  pub find-find_all :
      (df : DecodedFrame Float) (matches : List (RecordMatch Float))
      → ((find df matches ≡ none) × (find_all df matches ≡ []))
        ⊎ ((r : DecodedDataRecord Float) × (rest : List (DecodedDataRecord Float)) × (find df
                matches
              ≡ some r)
            × (find_all df matches ≡ r ∷ rest))
  unfolding find find_all
  find-find_all df matches = find_in-find_all_in df.data_records matches

  find_in-none :
      (rs : List (DecodedDataRecord Float)) (matches : List (RecordMatch Float))
      → find_in rs matches ≡ none
      → find_all_in rs matches ≡ []
  unfolding find_in find_all_in
  find_in-none [] matches e = refl
  find_in-none (r ∷ rs) matches e = elim (Bool-cases (match_all r matches)) [
    | inl t ↦ ground arith
    | inr t ↦ ground (arith, find_in-none rs matches)
  ]

  -- A current record of the type and function: storage number, tariff and device are 0.
  pub record IsCurrent (unit_type : ℕ) (function : String) (r : DecodedDataRecord Float)
      : Type 0 where
    pub type : r.unit.type ≡ unit_type
    pub function_text : codes r.function ≡ codes function
    pub storage : r.storage_number ≡ 0
    pub tariff : r.tariff ≡ 0
    pub device : r.device ≡ 0

  matches_sound :
      (unit_type : ℕ) (function : String) (r : DecodedDataRecord Float)
      → match_all r (current_matches unit_type function) ≡ true
      → IsCurrent unit_type function r
  unfolding match_all match_type match_function match_current
  matches_sound unit_type function r e =
      ground (arith, same_bytes_sound (codes r.function) (codes function))

  matches_complete :
      (unit_type : ℕ) (function : String) (r : DecodedDataRecord Float)
      → IsCurrent unit_type function r
      → match_all r (current_matches unit_type function) ≡ true
  unfolding match_all match_type match_function match_current
  matches_complete unit_type function r c =
      ground (arith, same_bytes_complete (codes r.function) (codes function) c.function_text)

  -- No record that the three matchers refuse is current.
  none-IsCurrent :
      (unit_type : ℕ) (function : String) (rs : List (DecodedDataRecord Float))
      → find_all_in rs (current_matches unit_type function) ≡ []
      → All (λ r. ¬ IsCurrent unit_type function r) rs
  unfolding find_all_in
  none-IsCurrent unit_type function [] e = tt
  none-IsCurrent unit_type function (r ∷ rs) e =
      elim (Bool-cases (match_all r (current_matches unit_type function))) [
        | inl t ↦ absurd (ground arith)
        | inr t ↦ (
          λ c. cc (matches_complete unit_type function r c),
          none-IsCurrent unit_type function rs (ground arith),
        )
      ]

  -- What `Value` returns of a record.
  abbrev pub Read : DecodedFrame Float → ℕ → String → DecodedDataRecord Float → Type 0
  Read df unit_type function r =
      ((r.value_err ≡ none) × (value df unit_type function ≡ ok r.value))
      ⊎ ((e : Error) × (r.value_err ≡ some e) × (value df unit_type function ≡ err e))

  value-found :
      (df : DecodedFrame Float) (unit_type : ℕ) (function : String) (r : DecodedDataRecord Float)
      → find df (current_matches unit_type function) ≡ some r
      → Read df unit_type function r
  unfolding value record_of value_or_error
  value-found df unit_type function r p = elim (Option-cases r.value_err) [
    | inl n ↦ inl (n, rw (p, n) refl)
    | inr (e, n) ↦ inr (e, n, rw (p, n) refl)
  ]

  value-missing :
      (df : DecodedFrame Float) (unit_type : ℕ) (function : String)
      → find df (current_matches unit_type function) ≡ none
      → value df unit_type function ≡ err (sentinel no_record)
  unfolding value record_of value_or_error
  value-missing df unit_type function p = rw p refl

  -- Value reads the first record of the frame with this type and function whose storage number,
  -- tariff and device are 0: it returns the value of that record if it decoded, the error of that
  -- record if it did not, and ErrNoRecord if there is none.
  pub value_lem :
      (df : DecodedFrame Float) (unit_type : ℕ) (function : String)
      → (All (λ r. ¬ IsCurrent unit_type function r) df.data_records
          × (value df unit_type function ≡ err (sentinel no_record)))
        ⊎ ((before : List (DecodedDataRecord Float)) × (r : DecodedDataRecord Float) × (after : List
              (DecodedDataRecord Float))
            × (df.data_records ≡ before ++ r ∷ after)
            × All (λ r. ¬ IsCurrent unit_type function r) before
            × IsCurrent unit_type function r
            × Read df unit_type function r)
  value_lem df unit_type function =
      let matches = current_matches unit_type function in
      elim (Option-cases (find df matches)) [
        | inl p ↦ inl (
          none-IsCurrent unit_type function df.data_records
              (find_in-none df.data_records matches (unfold find in p)),
          value-missing df unit_type function p,
        )
        | inr (r, p) ↦
            let (before, after, split, m, skipped) = find_sound df matches r p in
            inr (
              before,
              r,
              after,
              split,
              none-IsCurrent unit_type function before skipped,
              matches_sound unit_type function r m,
              value-found df unit_type function r p,
            )
      ]
