-- ===== src/Tests/Times.antt =====
-- datetime.go on concrete timestamps.
use gombus.Prelude.{◌≤◌, ◌≡◌, refl, true, [], ◌∷◌, arith}
use gombus.Result.{ok}
use gombus.DateTime.{DateTime, days_in_month, decode_type_f}
use gombus.DateTime.Calendar.{IsReal, assemble_date_time-IsReal, assemble_date_time_sound}
use gombus.DateTime.RoundTrip.{decode_type_f-encode}

-- 29 February 2024, at midnight, at half past eight, and ten seconds later.
abbrev leap_day : DateTime
leap_day = record { year = 2024; month = 2; day = 29; hour = 0; minute = 0; second = 0 }

abbrev morning : DateTime
morning = record { year = 2024; month = 2; day = 29; hour = 8; minute = 30; second = 0 }

abbrev later : DateTime
later = record { year = 2024; month = 2; day = 29; hour = 8; minute = 30; second = 10 }

leap_day_fits : 29 ≤ days_in_month 2024 2
unfolding days_in_month
leap_day_fits = omega arith

leap_day-IsReal : IsReal leap_day
leap_day-IsReal = record {
  year_from = omega arith;
  month_from = omega arith;
  month_to = omega arith;
  day_from = omega arith;
  day_to = leap_day_fits;
  hour_to = omega arith;
  minute_to = omega arith;
  second_to = omega arith;
}

morning-IsReal : IsReal morning
morning-IsReal = record {
  year_from = omega arith;
  month_from = omega arith;
  month_to = omega arith;
  day_from = omega arith;
  day_to = leap_day_fits;
  hour_to = omega arith;
  minute_to = omega arith;
  second_to = omega arith;
}

later-IsReal : IsReal later
later-IsReal = record {
  year_from = omega arith;
  month_from = omega arith;
  month_to = omega arith;
  day_from = omega arith;
  day_to = leap_day_fits;
  hour_to = omega arith;
  minute_to = omega arith;
  second_to = omega arith;
}

assemble_date_time_sound_example : IsReal later × (later ≡ later)
assemble_date_time_sound_example =
    assemble_date_time_sound 24 2 29 8 30 10 later (assemble_date_time-IsReal later later-IsReal)

decode_type_f-encode_example : decode_type_f (30 ∷ 0x88 ∷ 0x1D ∷ 0x32 ∷ []) ≡ ok (true, ok morning)
decode_type_f-encode_example = decode_type_f-encode true morning morning-IsReal (omega arith) refl
