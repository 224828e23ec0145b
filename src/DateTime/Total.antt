-- ===== src/DateTime/Total.antt =====
-- datetime.go: on a field of its width each decoder returns a real date or an error.
use gombus.Prelude.{ℕ, ◌≡◌, Bool, true, false, arith, length, if◌then◌else◌}
use gombus.Result.{Bytes, Result, Error, err, Ensures, returns, fails, to_Ensures, at-eq_ok}
use gombus.DateTime.{DateTime, assemble_date_time, decode_type_g, decode_type_f, decode_type_i}
use gombus.DateTime.Calendar.{IsReal, assemble_date_time_sound, assemble_date_time-ne-fault}

assemble_date_time-Ensures :
    (year month day hour minute second : ℕ)
    → Ensures IsReal (assemble_date_time year month day hour minute second)
assemble_date_time-Ensures y mo d h mi s =
    to_Ensures (assemble_date_time y mo d h mi s)
      (λ t e. (assemble_date_time_sound y mo d h mi s t e).0)
      (assemble_date_time-ne-fault y mo d h mi s)

pub decode_type_g-Ensures : (b : Bytes) → length b ≡ 2 → Ensures IsReal (decode_type_g b)
unfolding decode_type_g
decode_type_g-Ensures b h =
    rw (at-eq_ok b 0 (omega arith), at-eq_ok b 1 (omega arith))
      (assemble_date_time-Ensures _ _ _ _ _ _)

abbrev pub IsStamp : Bool × Result DateTime → Type 0
IsStamp p = Ensures IsReal p.1

-- A time that the invalid bit may turn into an error.
flagged :
    (iv : Bool) (e : Error) {t : Result DateTime}
    → Ensures IsReal t
    → Ensures IsReal (if iv then err e else t)
flagged true e p = fails
flagged false e p = p

pub decode_type_f-Ensures : (b : Bytes) → length b ≡ 4 → Ensures IsStamp (decode_type_f b)
unfolding decode_type_f
decode_type_f-Ensures b h =
    rw
      (
        at-eq_ok b 0 (omega arith),
        at-eq_ok b 1 (omega arith),
        at-eq_ok b 2 (omega arith),
        at-eq_ok b 3 (omega arith),
      )
      (returns (flagged _ _ (assemble_date_time-Ensures _ _ _ _ _ _)))

pub decode_type_i-Ensures : (b : Bytes) → length b ≡ 6 → Ensures IsStamp (decode_type_i b)
unfolding decode_type_i
decode_type_i-Ensures b h =
    rw
      (
        at-eq_ok b 0 (omega arith),
        at-eq_ok b 1 (omega arith),
        at-eq_ok b 2 (omega arith),
        at-eq_ok b 3 (omega arith),
        at-eq_ok b 4 (omega arith),
      )
      (returns (assemble_date_time-Ensures _ _ _ _ _ _))
