-- ===== src/DateTime.antt =====
-- datetime.go: the date and time encodings of EN 13757-3, types G, F and I.
-- A time.Time is its calendar fields; the location is always UTC.
pub mod Calendar
pub mod RoundTrip
pub mod Total
use gombus.Prelude.{
  ℕ, ◌+◌, ◌-◌, ◌*◌, ◌/◌, ◌%◌, Bool, true, false, not, ◌&&◌, ◌||◌, List, [], ◌∷◌, ltb, leb, ◌==◌,
  if◌then◌else◌, bit_and, bit_or,
}
use gombus.Result.{Bytes, Result, ok, err, sentinel, invalid_date_time, ◌>>=◌, ◌>>◌, refuse, at}

pub record DateTime : Type 0 where
  pub year : ℕ
  pub month : ℕ
  pub day : ℕ
  pub hour : ℕ
  pub minute : ℕ
  pub second : ℕ

-- `time.Time{}`
abbrev pub zero_time : DateTime
zero_time = record { year = 1; month = 1; day = 1; hour = 0; minute = 0; second = 0 }

abbrev pub date_epoch_year : ℕ
date_epoch_year = 2000

abbrev pub date_type_g_width : ℕ
date_type_g_width = 2

abbrev pub date_type_j_width : ℕ
date_type_j_width = 3

abbrev pub date_type_f_width : ℕ
date_type_f_width = 4

abbrev pub date_type_i_width : ℕ
date_type_i_width = 6

abbrev pub is_leap : ℕ → Bool
is_leap year = year % 4 == 0 && (not (year % 100 == 0) || year % 400 == 0)

unfoldable pub days_in_month : ℕ → ℕ → ℕ
days_in_month year month =
    if month == 2
    then (if is_leap year then 29 else 28)
    else if month == 4 || month == 6 || month == 9 || month == 11
    then 30
    else 31

-- `time.Date` of the standard library, for a month of 1 to 12, a day of 1 to 31 and a time of day
-- in range: a day past the end of its month is one of the next month. (December has 31 days, so
-- the year stays.)
unfoldable pub time_date : ℕ → ℕ → ℕ → ℕ → ℕ → ℕ → DateTime
time_date year month day hour minute second =
    let days = days_in_month year month in
    if leb day days
    then record {
      year = year;
      month = month;
      day = day;
      hour = hour;
      minute = minute;
      second = second;
    }
    else record {
      year = year;
      month = month + 1;
      day = day - days;
      hour = hour;
      minute = minute;
      second = second;
    }

-- `year` is the raw field of seven bits.
unfoldable pub assemble_date_time : ℕ → ℕ → ℕ → ℕ → ℕ → ℕ → Result DateTime
assemble_date_time year month day hour minute second = do
  refuse (ltb month 1 || ltb 12 month) (sentinel invalid_date_time)
  refuse (ltb day 1) (sentinel invalid_date_time)
  refuse (ltb 23 hour) (sentinel invalid_date_time)
  refuse (ltb 59 minute) (sentinel invalid_date_time)
  refuse (ltb 59 second) (sentinel invalid_date_time)
  let t = time_date (date_epoch_year + year) month day hour minute second
  refuse (not (t.day == day) || not (t.month == month)) (sentinel invalid_date_time)
  ok t

-- The year that the types split over two bytes: `(lo&0xE0)>>5 | (hi&0xF0)>>1`.
unfoldable pub year_field : ℕ → ℕ → ℕ
year_field lo hi = bit_or (bit_and lo 0xE0 / 32) (bit_and hi 0xF0 / 2)

unfoldable pub decode_type_g : Bytes → Result DateTime
decode_type_g b = do
  b0 ← at b 0
  b1 ← at b 1
  assemble_date_time (year_field b0 b1) (bit_and b1 0x0F) (bit_and b0 0x1F) 0 0 0

-- The flag comes with a value and with an error alike, so a result stands beside it.
unfoldable pub decode_type_f : Bytes → Result (Bool × Result DateTime)
decode_type_f b = do
  b0 ← at b 0
  b1 ← at b 1
  b2 ← at b 2
  b3 ← at b 3
  let summer_time = not (bit_and b1 0x80 == 0)
  ok (
    summer_time,
    if not (bit_and b0 0x80 == 0)
        then err (sentinel invalid_date_time)
        else assemble_date_time (year_field b2 b3) (bit_and b3 0x0F) (bit_and b2 0x1F)
            (bit_and b1 0x1F) (bit_and b0 0x3F) 0,
  )

unfoldable pub decode_type_i : Bytes → Result (Bool × Result DateTime)
decode_type_i b = do
  b0 ← at b 0
  b1 ← at b 1
  b2 ← at b 2
  b3 ← at b 3
  b4 ← at b 4
  let summer_time = not (bit_and b1 0x40 == 0)
  ok (
    summer_time,
    assemble_date_time (year_field b3 b4) (bit_and b4 0x0F) (bit_and b3 0x1F) (bit_and b2 0x1F)
        (bit_and b1 0x3F) (bit_and b0 0x3F),
  )
