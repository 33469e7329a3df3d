-- ===== src/Http/Range/RoundTrip.antt =====
-- What `parseRange` makes of a range that a client prints.
use mathlib.Core.Option
use network_learn.Base.{
  ℕ, ◌^◌, ◌≡◌, refl, ap, ◌∙◌, true, false, [], ◌∷◌, ◌++◌, Option, none, some, ltb, if◌then◌else◌,
  All, Bytes, codes,
}
use network_learn.Util.Decimal.{to_string, is_digit, stoul, to_string-IsNumeral}
use network_learn.Http.Range.{span_digits, match_range, read_group, read_groups, parse_range}

span_digits-append :
    (digits : Bytes) (stop : ℕ) (rest : Bytes)
    → All (λ c. is_digit c ≡ true) digits
    → is_digit stop ≡ false
    → span_digits (digits ++ stop ∷ rest) ≡ (digits, stop ∷ rest)
unfolding span_digits
span_digits-append [] stop rest h k = rw k
span_digits-append (d ∷ ds) stop rest h k = rw (h.0, span_digits-append ds stop rest h.1 k)

span_digits-nil :
    (digits : Bytes) → All (λ c. is_digit c ≡ true) digits → span_digits digits ≡ (digits, [])
unfolding span_digits
span_digits-nil [] h = refl
span_digits-nil (d ∷ ds) h = rw (h.0, span_digits-nil ds h.1)

-- The `Range` header for bytes `start` to `end`, and that for all bytes from `start` on.
abbrev pub range_request : ℕ → ℕ → Bytes
range_request start end = codes "bytes=" ++ (to_string start ++ (codes "-" ++ to_string end))

abbrev pub open_request : ℕ → Bytes
open_request start = codes "bytes=" ++ (to_string start ++ codes "-")

abbrev pub in_64_bits : ℕ → Option ℕ
in_64_bits n = if ltb n (2 ^ 64) then some n else none

-- Any texts of digits around the dash.
match_range_lem :
    (d : ℕ) (ds second : Bytes)
    → All (λ c. is_digit c ≡ true) (d ∷ ds)
    → All (λ c. is_digit c ≡ true) second
    → match_range (codes "bytes=" ++ ((d ∷ ds) ++ b'-' ∷ second)) ≡ some (d ∷ ds, second)
unfolding match_range
match_range_lem d ds second h k =
    rw (h.0, span_digits-append ds b'-' second h.1 refl, span_digits-nil second k)

parse_range-match :
    (d : ℕ) (ds second : Bytes) (s e : Option ℕ)
    → All (λ c. is_digit c ≡ true) (d ∷ ds)
    → All (λ c. is_digit c ≡ true) second
    → stoul (d ∷ ds) ≡ s
    → read_group second ≡ e
    → parse_range (codes "bytes=" ++ ((d ∷ ds) ++ b'-' ∷ second))
      ≡ Option.bind s (λ start. Option.map (λ end. (start, end)) e)
unfolding parse_range
parse_range-match d ds second s e h k p q =
    ap read_groups (match_range_lem d ds second h k) ∙ rw (p, q)

-- Reading back a printed range gives its two numbers, and 0 for an end that is left out; a number
-- of more than 64 bits makes `parseRange` throw.
pub parse_range-range_request :
    (start end : ℕ)
    → (parse_range (range_request start end)
        ≡ Option.bind (in_64_bits start) (λ s. Option.map (λ e. (s, e)) (in_64_bits end)))
      × (parse_range (open_request start) ≡ Option.bind (in_64_bits start) (λ s. some (s, 0)))
unfolding read_group
parse_range-range_request start end =
    let s = to_string-IsNumeral start in
    let e = to_string-IsNumeral end in
    let ds = rw s.shape at s.are_digits in
    let first : stoul (s.first ∷ s.others) ≡ in_64_bits start = rw s.shape at s.reads_back in
    let second : stoul (e.first ∷ e.others) ≡ in_64_bits end = rw e.shape at e.reads_back in
    (
      rw (s.shape, e.shape)
          (parse_range-match s.first s.others (e.first ∷ e.others) (in_64_bits start)
            (in_64_bits end) ds (rw e.shape at e.are_digits) first second),
      rw s.shape
          (parse_range-match s.first s.others [] (in_64_bits start) (some 0) ds tt first refl),
    )
