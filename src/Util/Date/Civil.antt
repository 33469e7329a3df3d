-- ===== src/Util/Date/Civil.antt =====
-- `gmtime` loses nothing: the seconds can be counted back.
use network_learn.Base.{
  ℕ, zero, suc, ◌+◌, ◌-◌, ◌*◌, ◌/◌, ◌≤◌, ◌<◌, ◌≡◌, refl, arith, ltb, Bool-cases, inl, inr,
}
use network_learn.Util.Date.{
  Tm, is_leap, days_in_year, days_in_month, find_year, find_month, gmtime,
}

-- The days before a year, counted from 1970, and before a month of a year.
abbrev pub year_start : ℕ → ℕ
year_start zero = 0
year_start (suc n) = year_start n + days_in_year (1970 + n)

abbrev pub month_start : ℕ → ℕ → ℕ
month_start y zero = 0
month_start y (suc m) = month_start y m + days_in_month y m

-- The time of the fields, where the weekday is not read.
abbrev pub seconds_of : Tm → ℕ
seconds_of tm =
    (year_start (tm.year - 1970) + month_start tm.year tm.month + (tm.day - 1)) * 86400
    + tm.hour * 3600
    + tm.minute * 60
    + tm.second

pub record IsClock (tm : Tm) : Type 0 where
  pub since : 1970 ≤ tm.year
  pub month_in : tm.month < 12
  pub day_in : (1 ≤ tm.day) × (tm.day ≤ 31)
  pub hour_in : tm.hour < 24
  pub minute_in : tm.minute < 60
  pub second_in : tm.second < 60

pub long_year : (y : ℕ) → (365 ≤ days_in_year y) × (days_in_year y ≤ 366)
unfolding days_in_year
long_year y = ground arith

find_year_lem :
    (fuel n d : ℕ)
    → d < fuel
    → (year_start (find_year fuel n d).0 + (find_year fuel n d).1 ≡ year_start n + d)
      × ((find_year fuel n d).1 < days_in_year (1970 + (find_year fuel n d).0))
unfolding find_year
find_year_lem zero n d h = absurd (omega (arith, h))
find_year_lem (suc fuel) n d h = elim (Bool-cases (ltb d (days_in_year (1970 + n)))) [
  | inl inside ↦ rw (find_year, inside) (refl, ground (arith, inside))
  | inr later ↦
      let at_least : days_in_year (1970 + n) ≤ d = ground (arith, later) in
      let next : n + 1 ≡ suc n = omega arith in
      let (adds, inside) =
        find_year_lem fuel (suc n) (d - days_in_year (1970 + n))
          (omega (arith, h, at_least, long_year (1970 + n))) in
      rw (find_year, later, next) (omega (arith, adds, at_least), inside)
]

twelve_months : (y : ℕ) → month_start y 12 ≡ days_in_year y
unfolding days_in_month days_in_year
twelve_months y = elim (Bool-cases (is_leap y)) [
  | inl leap ↦ rw leap refl
  | inr common ↦ rw common refl
]

short_month : (y m : ℕ) → (28 ≤ days_in_month y m) × (days_in_month y m ≤ 31)
unfolding days_in_month
short_month y m = ground arith

find_month_lem :
    (y fuel m d : ℕ)
    → m + fuel ≡ 11
    → month_start y m + d < month_start y 12
    → (month_start y (find_month y fuel m d).0 + (find_month y fuel m d).1 ≡ month_start y m + d)
      × ((find_month y fuel m d).1 < days_in_month y (find_month y fuel m d).0)
      × ((find_month y fuel m d).0 < 12)
unfolding find_month
find_month_lem y zero m d h k =
    let last : m ≡ 11 = omega (arith, h) in
    (refl, rw last (omega (arith, rw last at k)), omega (arith, last))
find_month_lem y (suc fuel) m d h k = elim (Bool-cases (ltb d (days_in_month y m))) [
  | inl inside ↦ rw (find_month, inside) (refl, ground (arith, inside), omega (arith, h))
  | inr later ↦
      let at_least : days_in_month y m ≤ d = ground (arith, later) in
      let next : m + 1 ≡ suc m = omega arith in
      let (adds, inside, within) =
        find_month_lem y fuel (suc m) (d - days_in_month y m) (omega (arith, h))
          (omega (arith, k, at_least)) in
      rw (find_month, later, next) (omega (arith, adds, at_least), inside, within)
]

-- The fields that `gmtime` returns are in range, and stand for the time that it is given.
pub seconds_of-gmtime : (t : ℕ) → IsClock (gmtime t) × (seconds_of (gmtime t) ≡ t)
unfolding gmtime
seconds_of-gmtime t =
    let days = t / 86400 in
    let (adds, inside) = find_year_lem (suc days) 0 days (omega arith) in
    let n = (find_year (suc days) 0 days).0 in
    let rest = (find_year (suc days) 0 days).1 in
    let (adds', inside', within) =
      find_month_lem (1970 + n) 11 0 rest refl (omega (arith, inside, twelve_months (1970 + n))) in
    let m = (find_month (1970 + n) 11 0 rest).0 in
    let short = short_month (1970 + n) m in
    let back : 1970 + n - 1970 ≡ n = omega arith in
    (
      record {
        since = omega arith;
        month_in = within;
        day_in = (omega arith, omega (arith, inside', short));
        hour_in = omega arith;
        minute_in = omega arith;
        second_in = omega arith;
      },
      rw back (omega (arith, adds, adds')),
    )
