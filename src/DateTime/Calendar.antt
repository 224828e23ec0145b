-- ===== src/DateTime/Calendar.antt =====
-- datetime.go: `assembleDateTime` returns real dates only, and every one of them.
use gombus.Prelude.{ℕ, ◌+◌, ◌-◌, ◌≤◌, ◌≡◌, ◌≢◌, arith}
use gombus.Result.{ok, fault, Fault}
use gombus.DateTime.{DateTime, days_in_month, time_date, assemble_date_time}

-- A date and time that a clock can show, in a year that seven bits count from 2000.
pub record IsReal (t : DateTime) : Type 0 where
  pub year_from : 2000 ≤ t.year
  pub month_from : 1 ≤ t.month
  pub month_to : t.month ≤ 12
  pub day_from : 1 ≤ t.day
  pub day_to : t.day ≤ days_in_month t.year t.month
  pub hour_to : t.hour ≤ 23
  pub minute_to : t.minute ≤ 59
  pub second_to : t.second ≤ 59

-- Every real date from 2000 on is accepted as it is.
pub assemble_date_time-IsReal :
    (t : DateTime)
    → IsReal t
    → assemble_date_time (t.year - 2000) t.month t.day t.hour t.minute t.second ≡ ok t
unfolding assemble_date_time time_date
assemble_date_time-IsReal t r =
    let e : 2000 + (t.year - 2000) ≡ t.year = omega (arith, r.year_from) in rw e (ground arith)

-- What is accepted is a real date in the years from 2000 on, and its fields are the ones that were
-- read: nothing is normalised.
pub assemble_date_time_sound :
    (year month day hour minute second : ℕ) (t : DateTime)
    → assemble_date_time year month day hour minute second ≡ ok t
    → IsReal t
      × (t ≡ record {
        year = 2000 + year;
        month = month;
        day = day;
        hour = hour;
        minute = minute;
        second = second;
      })
unfolding assemble_date_time time_date
assemble_date_time_sound year month day hour minute second t e = (ground arith, ground arith)

-- It never faults.
pub assemble_date_time-ne-fault :
    (year month day hour minute second : ℕ) (x : Fault)
    → assemble_date_time year month day hour minute second ≢ fault x
unfolding assemble_date_time
assemble_date_time-ne-fault year month day hour minute second x = λ e. ground arith
