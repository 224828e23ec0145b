-- ===== src/DateTime/RoundTrip.antt =====
-- datetime.go: the decoders of types G, F and I read what the encodings of EN 13757-3 write.
use gombus.Prelude.{
  ℕ, ◌+◌, ◌-◌, ◌*◌, ◌/◌, ◌%◌, ◌^◌, ◌≤◌, ◌<◌, ◌≡◌, refl, [], ◌∷◌, arith, Bool, true, false, not,
  ◌==◌, if◌then◌else◌, bit_and,
}
use gombus.Prelude.Bits.{agree, agree_sound, bit_or_disjoint}
use gombus.Result.{Bytes, ok, at}
use gombus.DateTime.{
  DateTime, days_in_month, year_field, decode_type_g, decode_type_f, decode_type_i,
}
use gombus.DateTime.Calendar.{IsReal, assemble_date_time-IsReal}

-- The encodings: each field in its bits, the year split in three low and four high bits.
abbrev day_byte : DateTime → ℕ
day_byte t = t.day + (t.year - 2000) % 8 * 32

abbrev month_byte : DateTime → ℕ
month_byte t = t.month + (t.year - 2000) / 8 * 16

abbrev pub encode_type_g : DateTime → Bytes
encode_type_g t = day_byte t ∷ month_byte t ∷ []

abbrev pub encode_type_f : Bool → DateTime → Bytes
encode_type_f summer t =
    t.minute ∷ (t.hour + (if summer then 128 else 0)) ∷ day_byte t ∷ month_byte t ∷ []

-- The last byte holds the day of the week and the week number, which are not part of the timestamp.
abbrev pub encode_type_i : Bool → ℕ → DateTime → Bytes
encode_type_i summer week t =
    t.second
    ∷ (t.minute + (if summer then 64 else 0))
    ∷ t.hour
    ∷ day_byte t
    ∷ month_byte t
    ∷ week
    ∷ []

low_five : (x : ℕ) → x < 256 → bit_and x 0x1F ≡ x % 32
unfolding agree
low_five x h = agree_sound 256 (λ x. bit_and x 0x1F) (λ x. x % 32) x refl h

low_four : (x : ℕ) → x < 256 → bit_and x 0x0F ≡ x % 16
unfolding agree
low_four x h = agree_sound 256 (λ x. bit_and x 0x0F) (λ x. x % 16) x refl h

low_six : (x : ℕ) → x < 256 → bit_and x 0x3F ≡ x % 64
unfolding agree
low_six x h = agree_sound 256 (λ x. bit_and x 0x3F) (λ x. x % 64) x refl h

bit_seven : (x : ℕ) → x < 256 → bit_and x 0x80 ≡ x / 128 * 128
unfolding agree
bit_seven x h = agree_sound 256 (λ x. bit_and x 0x80) (λ x. x / 128 * 128) x refl h

bit_six : (x : ℕ) → x < 256 → bit_and x 0x40 ≡ x / 64 % 2 * 64
unfolding agree
bit_six x h = agree_sound 256 (λ x. bit_and x 0x40) (λ x. x / 64 % 2 * 64) x refl h

year_low : (x : ℕ) → x < 256 → bit_and x 0xE0 / 32 ≡ x / 32
unfolding agree
year_low x h = agree_sound 256 (λ x. bit_and x 0xE0 / 32) (λ x. x / 32) x refl h

year_high : (x : ℕ) → x < 256 → bit_and x 0xF0 / 2 ≡ x / 16 * 2 ^ 3
unfolding agree
year_high x h = agree_sound 256 (λ x. bit_and x 0xF0 / 2) (λ x. x / 16 * 2 ^ 3) x refl h

pub year_field_lem : (lo hi : ℕ) → lo < 256 → hi < 256 → year_field lo hi ≡ lo / 32 + hi / 16 * 8
unfolding year_field
year_field_lem lo hi h k =
    rw (year_low lo h, year_high hi k) (bit_or_disjoint 3 (lo / 32) (hi / 16) (omega arith))

record Split (t : DateTime) : Type 0 where
  day_fits : day_byte t < 256
  month_fits : month_byte t < 256
  year : year_field (day_byte t) (month_byte t) ≡ t.year - 2000
  month : bit_and (month_byte t) 0x0F ≡ t.month
  day : bit_and (day_byte t) 0x1F ≡ t.day

days-le : (year month : ℕ) → days_in_month year month ≤ 31
unfolding days_in_month
days-le year month = ground arith

split : (t : DateTime) → IsReal t → t.year < 2128 → Split t
split t r h =
    let d : t.day ≤ 31 = omega (arith, days-le t.year t.month, r.day_to) in
    record {
      day_fits = omega arith;
      month_fits = omega (arith, r.month_to);
      year = omega (arith, year_field_lem (day_byte t) (month_byte t), r.month_to);
      month = omega (arith, low_four (month_byte t), r.month_to);
      day = omega (arith, low_five (day_byte t));
    }

-- A real date in the years 2000 to 2127, at midnight, reads back from type G.
pub decode_type_g-encode :
    (t : DateTime)
    → IsReal t
    → t.year < 2128
    → t.hour ≡ 0
    → t.minute ≡ 0
    → t.second ≡ 0
    → decode_type_g (encode_type_g t) ≡ ok t
unfolding decode_type_g at
decode_type_g-encode t r h p q s =
    let w = split t r h in rw (w.year, w.month, w.day) (cc (assemble_date_time-IsReal t r))

time_bits :
    (minute hour : ℕ) (summer : Bool)
    → minute < 64
    → hour < 32
    → (bit_and minute 0x80 ≡ 0)
      × (bit_and minute 0x3F ≡ minute)
      × (bit_and (hour + (if summer then 128 else 0)) 0x1F ≡ hour)
      × (not (bit_and (hour + (if summer then 128 else 0)) 0x80 == 0) ≡ summer)
time_bits minute hour true p q =
    ground (arith, bit_seven minute, low_six minute, low_five (hour + 128), bit_seven (hour + 128))
time_bits minute hour false p q =
    ground (arith, bit_seven minute, low_six minute, low_five (hour + 0), bit_seven (hour + 0))

-- A real date and time in the years 2000 to 2127, to the minute, reads back from type F with its
-- summer-time flag.
pub decode_type_f-encode :
    (summer : Bool) (t : DateTime)
    → IsReal t
    → t.year < 2128
    → t.second ≡ 0
    → decode_type_f (encode_type_f summer t) ≡ ok (summer, ok t)
unfolding decode_type_f at
decode_type_f-encode summer t r h s =
    let w = split t r h in
    let (iv, minute, hour, su) =
      time_bits t.minute t.hour summer (omega (arith, r.minute_to)) (omega (arith, r.hour_to)) in
    rw (w.year, w.month, w.day, iv, minute, hour, su) (cc (assemble_date_time-IsReal t r))

second_bits :
    (second minute hour : ℕ) (summer : Bool)
    → second < 64
    → minute < 64
    → hour < 32
    → (bit_and second 0x3F ≡ second)
      × (bit_and hour 0x1F ≡ hour)
      × (bit_and (minute + (if summer then 64 else 0)) 0x3F ≡ minute)
      × (not (bit_and (minute + (if summer then 64 else 0)) 0x40 == 0) ≡ summer)
second_bits second minute hour true p q r =
    ground (arith, low_six second, low_five hour, low_six (minute + 64), bit_six (minute + 64))
second_bits second minute hour false p q r =
    ground (arith, low_six second, low_five hour, low_six (minute + 0), bit_six (minute + 0))

-- A real date and time in the years 2000 to 2127, to the second, reads back from type I with its
-- summer-time flag, whatever the byte of the week is.
pub decode_type_i-encode :
    (summer : Bool) (week : ℕ) (t : DateTime)
    → IsReal t
    → t.year < 2128
    → decode_type_i (encode_type_i summer week t) ≡ ok (summer, ok t)
unfolding decode_type_i at
decode_type_i-encode summer week t r h =
    let w = split t r h in
    let (second, hour, minute, su) =
      second_bits t.second t.minute t.hour summer (omega (arith, r.second_to))
        (omega (arith, r.minute_to)) (omega (arith, r.hour_to)) in
    rw (w.year, w.month, w.day, second, hour, minute, su) (cc (assemble_date_time-IsReal t r))
