-- ===== src/Query.antt =====
-- records.go: selecting the records of a frame.
pub mod Selection
use gombus.Prelude.{
  ℕ, Bool, true, false, ◌&&◌, ◌||◌, not, List, [], ◌∷◌, Option, none, some, String, ◌==◌,
  if◌then◌else◌,
}
use mathlib.Core.Bool.{decide}
use gombus.Result.{Bytes, Error, Result, ok, err, sentinel, no_record}
use gombus.Units.{DateFormat, date_none, date_type_g, date_type_f, date_type_i, codes}
use gombus.DateTime.{DateTime, zero_time}
use gombus.Record.{DecodedDataRecord}
use gombus.Response.{DecodedFrame}
use gombus.Response.Text.{same_bytes}

abbrev pub is_date : DateFormat → Bool
is_date date_none = false
is_date date_type_g = true
is_date date_type_f = true
is_date date_type_i = true

abbrev pub no_error : Option Error → Bool
no_error none = true
no_error (some e) = false

abbrev pub RecordMatch : Type 0 → Type 0
RecordMatch Float = DecodedDataRecord Float → Bool

module _ {Float : Type 0} where
  unfoldable pub match_type : ℕ → RecordMatch Float
  match_type unit_type r = r.unit.type == unit_type

  unfoldable pub match_function : String → RecordMatch Float
  match_function function r = same_bytes (codes r.function) (codes function)

  unfoldable pub match_storage : ℕ → RecordMatch Float
  match_storage n r = r.storage_number == n

  unfoldable pub match_tariff : ℕ → RecordMatch Float
  match_tariff n r = r.tariff == n

  unfoldable pub match_device : ℕ → RecordMatch Float
  match_device n r = r.device == n

  unfoldable pub match_current : RecordMatch Float
  match_current r = r.storage_number == 0 && (r.tariff == 0 && r.device == 0)

  unfoldable pub match_timestamp : RecordMatch Float
  match_timestamp r = is_date r.unit.date

  unfoldable pub match_all : DecodedDataRecord Float → List (RecordMatch Float) → Bool
  match_all r [] = true
  match_all r (m ∷ matches) = m r && match_all r matches

  -- The loops of `Find` and `FindAll` over the records.
  unfoldable pub find_in :
      List (DecodedDataRecord Float) → List (RecordMatch Float) → Option (DecodedDataRecord Float)
  unfolding match_all
  find_in [] matches = none
  find_in (r ∷ rest) matches =
      let found = find_in rest matches in if match_all r matches then some r else found

  unfoldable pub find_all_in :
      List (DecodedDataRecord Float) → List (RecordMatch Float) → List (DecodedDataRecord Float)
  unfolding match_all
  find_all_in [] matches = []
  find_all_in (r ∷ rest) matches =
      let found = find_all_in rest matches in if match_all r matches then r ∷ found else found

  unfoldable pub find :
      DecodedFrame Float → List (RecordMatch Float) → Option (DecodedDataRecord Float)
  unfolding find_in
  find df matches = find_in df.data_records matches

  unfoldable pub find_all :
      DecodedFrame Float → List (RecordMatch Float) → List (DecodedDataRecord Float)
  unfolding find_all_in
  find_all df matches = find_all_in df.data_records matches

  unfoldable pub record_of : DecodedFrame Float → ℕ → String → Option (DecodedDataRecord Float)
  unfolding find match_type match_function match_current
  record_of df unit_type function =
      find df (match_type unit_type ∷ match_function function ∷ match_current ∷ [])

  unfoldable pub records_of : DecodedFrame Float → ℕ → List (DecodedDataRecord Float)
  unfolding find_all match_type
  records_of df unit_type = find_all df (match_type unit_type ∷ [])

  -- What `Value` makes of the record that was found.
  unfoldable pub value_or_error : Option (DecodedDataRecord Float) → Result Float
  value_or_error none = err (sentinel no_record)
  value_or_error (some r) = elim r.value_err [ none ↦ ok r.value | some e ↦ err e ]

  unfoldable pub value : DecodedFrame Float → ℕ → String → Result Float
  unfolding value_or_error record_of
  value df unit_type function = value_or_error (record_of df unit_type function)

  -- `none` is the result with `false`.
  unfoldable pub timestamp : DecodedFrame Float → Option DateTime
  unfolding find match_timestamp match_current
  timestamp df =
      elim (find df (match_timestamp ∷ match_current ∷ (λ r. no_error r.value_err) ∷ [])) [
        | none ↦ none
        | some r ↦ some r.time
      ]
