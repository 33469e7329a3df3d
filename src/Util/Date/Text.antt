-- ===== src/Util/Date/Text.antt =====
-- The text of a time names it: no two times have the same.
use network_learn.Base.{
  ℕ, zero, suc, ◌+◌, ◌-◌, ◌/◌, ◌%◌, ◌^◌, ◌≤◌, ◌<◌, ◌≡◌, refl, ap, ◌∙◌, sym, List, [], ◌∷◌, ◌++◌,
  arith, if◌then◌else◌, All, length, get_or, drop, length-append, Bytes, codes, bytes_eq,
}
use network_learn.Util.Decimal.{to_string, to_string_injective}
use network_learn.Util.Date.{
  Tm, day_names, month_names, two, clock_text, date_text, put_time, gmtime, to_gmt_format,
}
use network_learn.Util.Date.Civil.{year_start, seconds_of, seconds_of-gmtime, long_year}

seconds_of_eq :
    (a b : Tm)
    → a.year ≡ b.year
    → a.month ≡ b.month
    → a.day ≡ b.day
    → a.hour ≡ b.hour
    → a.minute ≡ b.minute
    → a.second ≡ b.second
    → seconds_of a ≡ seconds_of b
seconds_of_eq a b year month day hour minute second =
    rw (year, month, day, hour, minute, second) refl

split_eq : (a b x y : Bytes) → length a ≡ length b → a ++ x ≡ b ++ y → (a ≡ b) × (x ≡ y)
split_eq [] [] x y h e = (refl, e)
split_eq [] (d ∷ b) x y h e = absurd (omega (arith, h))
split_eq (c ∷ a) [] x y h e = absurd (omega (arith, h))
split_eq (c ∷ a) (d ∷ b) x y h e =
    let same : c ≡ d = ap (λ s. get_or s 0 0) e in
    let (front, back) = split_eq a b x y (omega (arith, h)) (ap (λ s. drop 1 s) e) in
    (rw (same, front) refl, back)

two_injective : (a b : ℕ) → two a ≡ two b → a ≡ b
two_injective a b e =
    let tens : 48 + a / 10 ≡ 48 + b / 10 = ap (λ s. get_or s 0 0) e in
    let ones : 48 + a % 10 ≡ 48 + b % 10 = ap (λ s. get_or s 1 0) e in omega (arith, tens, ones)

index_of : Bytes → List Bytes → ℕ
index_of name [] = 0
index_of name (n ∷ ns) = if bytes_eq name n then 0 else suc (index_of name ns)

get_or-All :
    (P : Bytes → Type 0) (xs : List Bytes) (m : ℕ) → m < length xs → All P xs → P (get_or xs m [])
get_or-All P [] m h k = absurd (omega (arith, h))
get_or-All P (x ∷ xs) zero h k = k.0
get_or-All P (x ∷ xs) (suc m) h k = get_or-All P xs m (omega (arith, h)) k.1

-- The names from `k` on stand at their places among those of the months.
Indexed : ℕ → List Bytes → Type 0
Indexed k [] = Unit
Indexed k (x ∷ xs) = (index_of x month_names ≡ k) × Indexed (suc k) xs

Indexed-get_or :
    (k : ℕ) (xs : List Bytes) (m : ℕ)
    → m < length xs
    → Indexed k xs
    → index_of (get_or xs m []) month_names ≡ k + m
unfolding Indexed
Indexed-get_or k [] m h v = absurd (omega (arith, h))
Indexed-get_or k (x ∷ xs) zero h v = v.0 ∙ omega arith
Indexed-get_or k (x ∷ xs) (suc m) h v =
    Indexed-get_or (suc k) xs m (omega (arith, h)) v.1 ∙ omega arith

day_name-length : (w : ℕ) → w < 7 → length (get_or day_names w []) ≡ 3
day_name-length w h =
    get_or-All (λ s. length s ≡ 3) day_names w h
      (refl, (refl, (refl, (refl, (refl, (refl, (refl, tt)))))))

month_name-length : (m : ℕ) → m < 12 → length (get_or month_names m []) ≡ 3
month_name-length m h =
    get_or-All (λ s. length s ≡ 3) month_names m h
      (
        refl,
        (refl, (refl, (refl, (refl, (refl, (refl, (refl, (refl, (refl, (refl, (refl, tt))))))))))),
      )

month_name-index_of : (m : ℕ) → m < 12 → index_of (get_or month_names m []) month_names ≡ m
unfolding index_of bytes_eq Indexed
month_name-index_of m h =
    Indexed-get_or 0 month_names m h (
      refl,
      (refl, (refl, (refl, (refl, (refl, (refl, (refl, (refl, (refl, (refl, (refl, tt))))))))))),
    )
    ∙ omega arith

clock_text_eq :
    (a b : Tm)
    → clock_text a ≡ clock_text b
    → (a.hour ≡ b.hour) × (a.minute ≡ b.minute) × (a.second ≡ b.second)
clock_text_eq a b e =
    let (s1, e1) = split_eq (codes " ") (codes " ") _ _ refl e in
    let (hours, e2) = split_eq (two a.hour) (two b.hour) _ _ refl e1 in
    let (s3, e3) = split_eq (codes ":") (codes ":") _ _ refl e2 in
    let (minutes, e4) = split_eq (two a.minute) (two b.minute) _ _ refl e3 in
    let (s5, e5) = split_eq (codes ":") (codes ":") _ _ refl e4 in
    let (seconds, e6) = split_eq (two a.second) (two b.second) _ _ refl e5 in
    (
      two_injective a.hour b.hour hours,
      two_injective a.minute b.minute minutes,
      two_injective a.second b.second seconds,
    )

-- The texts of two years, with the clock behind them.
year_text_eq :
    (a b : Tm)
    → to_string a.year ++ clock_text a ≡ to_string b.year ++ clock_text b
    → (to_string a.year ≡ to_string b.year) × (clock_text a ≡ clock_text b)
year_text_eq a b e =
    let front = length-append (to_string a.year) (clock_text a) in
    let front' = length-append (to_string b.year) (clock_text b) in
    let same = ap (λ s. length s) e in
    split_eq (to_string a.year) (to_string b.year) (clock_text a) (clock_text b)
      (omega (arith, front, front', same)) e

-- What stands behind the name of the month.
abbrev year_text : Tm → Bytes
year_text tm = codes " " ++ (to_string tm.year ++ clock_text tm)

put_time_eq :
    (a b : Tm)
    → a.weekday < 7
    → b.weekday < 7
    → a.month < 12
    → b.month < 12
    → put_time a ≡ put_time b
    → (a.day ≡ b.day)
      × (get_or month_names a.month [] ≡ get_or month_names b.month [])
      × (to_string a.year ++ clock_text a ≡ to_string b.year ++ clock_text b)
put_time_eq a b wa wb ma mb e =
    let days = day_name-length a.weekday wa ∙ sym (day_name-length b.weekday wb) in
    let months = month_name-length a.month ma ∙ sym (month_name-length b.month mb) in
    let (s1, e1) =
      split_eq (get_or day_names a.weekday []) (get_or day_names b.weekday []) (date_text a)
        (date_text b) days e in
    let (s2, e2) = split_eq (codes ", ") (codes ", ") _ _ refl e1 in
    let (day, e3) = split_eq (two a.day) (two b.day) _ _ refl e2 in
    let (s4, e4) = split_eq (codes " ") (codes " ") _ _ refl e3 in
    let (month, e5) =
      split_eq (get_or month_names a.month []) (get_or month_names b.month []) (year_text a)
        (year_text b) months e4 in
    let (s6, e6) =
      split_eq (codes " ") (codes " ") (to_string a.year ++ clock_text a)
        (to_string b.year ++ clock_text b) refl e5 in
    (two_injective a.day b.day day, month, e6)

weekday_in : (t : ℕ) → (gmtime t).weekday < 7
unfolding gmtime
weekday_in t = omega arith

start-le : (n : ℕ) → n ≤ year_start n
start-le zero = omega arith
start-le (suc n) = omega (arith, start-le n, long_year (1970 + n))

small_year : (t : ℕ) → t < 2 ^ 55 → (gmtime t).year < 2 ^ 64
small_year t h =
    let (v, back) = seconds_of-gmtime t in
    omega (arith, h, back, v.since, start-le ((gmtime t).year - 1970))

-- Two times since 1970 whose years are an `int` have the same text only if they are the same second.
pub to_gmt_format_injective :
    (t t' : ℕ) → t < 2 ^ 55 → t' < 2 ^ 55 → to_gmt_format t ≡ to_gmt_format t' → t ≡ t'
unfolding to_gmt_format
to_gmt_format_injective t t' small small' e =
    let a = gmtime t in
    let b = gmtime t' in
    let (v, back) = seconds_of-gmtime t in
    let (v', back') = seconds_of-gmtime t' in
    let (day, month, e1) =
      put_time_eq a b (weekday_in t) (weekday_in t') v.month_in v'.month_in e in
    let (year, clock) = year_text_eq a b e1 in
    let (hour, minute, second) = clock_text_eq a b clock in
    let same_year =
      to_string_injective a.year b.year (small_year t small) (small_year t' small') year in
    let same_month : a.month ≡ b.month =
      sym (month_name-index_of a.month v.month_in)
      ∙ ap (λ s. index_of s month_names) month
      ∙ month_name-index_of b.month v'.month_in in
    sym back ∙ seconds_of_eq a b same_year same_month day hour minute second ∙ back'
