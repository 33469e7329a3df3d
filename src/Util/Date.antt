-- ===== src/Util/Date.antt =====
-- `toGmtFormat` of util/util.h, with `gmtime` and `std::put_time` of the standard library. A time is a
-- number of seconds since 1970, not before it.
pub mod Civil
pub mod Text
use network_learn.Base.{
  ℕ, zero, suc, ◌+◌, ◌-◌, ◌*◌, ◌/◌, ◌%◌, Bool, true, false, not, List, [], ◌∷◌, ◌++◌, ltb, leb,
  ◌==◌, if◌then◌else◌, get_or, Bytes, codes,
}
use network_learn.Util.Decimal.{to_string}

-- `month` is 0 in January, `weekday` is 0 on Sunday.
pub record Tm : Type 0 where
  pub year : ℕ
  pub month : ℕ
  pub day : ℕ
  pub hour : ℕ
  pub minute : ℕ
  pub second : ℕ
  pub weekday : ℕ

pub is_leap : ℕ → Bool
is_leap y = if not (y % 4 == 0) then false else if not (y % 100 == 0) then true else y % 400 == 0

pub days_in_year : ℕ → ℕ
unfolding is_leap
days_in_year y = if is_leap y then 366 else 365

pub days_in_month : ℕ → ℕ → ℕ
unfolding is_leap
days_in_month y m =
    if m == 1
    then (if is_leap y then 29 else 28)
    else (if leb 7 m then 31 - (m + 1) % 2 else 31 - m % 2)

-- The year, counted from 1970, and the day in it; each year takes a day at least, so the days are
-- fuel enough.
pub find_year : ℕ → ℕ → ℕ → ℕ × ℕ
find_year zero n d = (n, d)
find_year (suc fuel) n d = elim (ltb d (days_in_year (1970 + n))) [
  | true ↦ (n, d)
  | false ↦ find_year fuel (n + 1) (d - days_in_year (1970 + n))
]

-- The month and the day in it, from 0, in a year of at most 12 months.
pub find_month : ℕ → ℕ → ℕ → ℕ → ℕ × ℕ
find_month y zero m d = (m, d)
find_month y (suc fuel) m d = elim (ltb d (days_in_month y m)) [
  | true ↦ (m, d)
  | false ↦ find_month y fuel (m + 1) (d - days_in_month y m)
]

unfoldable pub gmtime : ℕ → Tm
unfolding find_year find_month days_in_year days_in_month
gmtime t =
    let days = t / 86400 in
    let seconds = t % 86400 in
    let (n, rest) = find_year (suc days) 0 days in
    let (m, d) = find_month (1970 + n) 11 0 rest in
    record {
      year = 1970 + n;
      month = m;
      day = d + 1;
      hour = seconds / 3600;
      minute = seconds % 3600 / 60;
      second = seconds % 60;
      weekday = (days + 4) % 7;
    }

abbrev pub day_names : List Bytes
day_names =
    codes "Sun"
    ∷ codes "Mon"
    ∷ codes "Tue"
    ∷ codes "Wed"
    ∷ codes "Thu"
    ∷ codes "Fri"
    ∷ codes "Sat"
    ∷ []

abbrev pub month_names : List Bytes
month_names =
    codes "Jan"
    ∷ codes "Feb"
    ∷ codes "Mar"
    ∷ codes "Apr"
    ∷ codes "May"
    ∷ codes "Jun"
    ∷ codes "Jul"
    ∷ codes "Aug"
    ∷ codes "Sep"
    ∷ codes "Oct"
    ∷ codes "Nov"
    ∷ codes "Dec"
    ∷ []

-- A number below 100 with two digits.
abbrev pub two : ℕ → Bytes
two n = (48 + n / 10) ∷ (48 + n % 10) ∷ []

abbrev pub clock_text : Tm → Bytes
clock_text tm =
    codes " "
    ++ two tm.hour
    ++ codes ":"
    ++ two tm.minute
    ++ codes ":"
    ++ two tm.second
    ++ codes " GMT"

abbrev pub date_text : Tm → Bytes
date_text tm =
    codes ", "
    ++ (two tm.day
        ++ (codes " "
            ++ (get_or month_names tm.month []
                ++ (codes " " ++ (to_string tm.year ++ clock_text tm)))))

-- "%a, %d %b %Y %H:%M:%S GMT".
abbrev pub put_time : Tm → Bytes
put_time tm = get_or day_names tm.weekday [] ++ date_text tm

unfoldable pub to_gmt_format : ℕ → Bytes
unfolding gmtime
to_gmt_format t = put_time (gmtime t)
