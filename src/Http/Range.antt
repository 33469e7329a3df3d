-- ===== src/Http/Range.antt =====
-- Byte ranges: `HttpRequest::parseRange` of http/httprequest.cpp and `HttpResponse::replyRange` of
-- http/httpresponse.cpp, on a 64-bit `size_t`.
pub mod Bounds
pub mod RoundTrip
use mathlib.Core.Option
use network_learn.Base.{
  ℕ, zero, suc, ◌+◌, ◌-◌, ◌%◌, ◌^◌, Bool, ◌||◌, List, [], ◌∷◌, ◌++◌, Option, none, some, ltb, leb,
  ◌==◌, if◌then◌else◌, Bytes, codes,
}
use network_learn.Util.Decimal.{to_string, is_digit, stoul}

-- The longest run of digits, and what follows it.
pub span_digits : Bytes → Bytes × Bytes
span_digits [] = ([], [])
span_digits (c ∷ cs) =
    let (digits, rest) = span_digits cs in if is_digit c then (c ∷ digits, rest) else ([], c ∷ cs)

-- What follows a literal text.
pub strip : Bytes → Bytes → Option Bytes
strip [] text = some text
strip (p ∷ ps) [] = none
strip (p ∷ ps) (c ∷ cs) = let rest = strip ps cs in if p == c then rest else none

-- Both groups of `bytes=(\d+)-(\d*)` where the whole text matches: a run of digits ends at `-` and at
-- the end of the text, so there is one way to match.
match_second : Bytes → Bytes × Bytes → Option (Bytes × Bytes)
match_second first (second, []) = some (first, second)
match_second first (second, c ∷ cs) = none

match_first : Bytes × Bytes → Option (Bytes × Bytes)
match_first ([], rest) = none
match_first (d ∷ digits, rest) = elim (strip (codes "-") rest) [
  | none ↦ none
  | some tail ↦ match_second (d ∷ digits) (span_digits tail)
]

pub match_range : Bytes → Option (Bytes × Bytes)
unfolding span_digits strip match_second match_first
match_range range = elim (strip (codes "bytes=") range) [
  | none ↦ none
  | some tail ↦ match_first (span_digits tail)
]

-- A group that is not empty is read; `none`: `std::stoul` throws.
pub read_group : Bytes → Option ℕ
read_group [] = some 0
read_group (c ∷ cs) = stoul (c ∷ cs)

-- What `parseRange` returns for the groups of a match, or for no match.
pub read_groups : Option (Bytes × Bytes) → Option (ℕ × ℕ)
unfolding read_group
read_groups none = some (0, 0)
read_groups (some (first, second)) =
    Option.bind (read_group first) (λ start. Option.map (λ end. (start, end)) (read_group second))

-- `none`: `std::out_of_range` is thrown.
unfoldable pub parse_range : Bytes → Option (ℕ × ℕ)
unfolding match_range read_groups
parse_range range = read_groups (match_range range)

-- The text, and what the reference arguments `offset` and `count` hold after the call.
pub record Reply : Type 0 where
  pub text : Bytes
  pub offset : ℕ
  pub count : ℕ

-- "To valid range": the two members of `range` after the tests.
pub valid_range : ℕ → ℕ → ℕ → ℕ × ℕ
valid_range first second total =
    if leb total first || leb total second
    then (0, (total + 2 ^ 64 - 1) % 2 ^ 64)
    else if leb second first
    then (first, (total + 2 ^ 64 - 1) % 2 ^ 64)
    else (first, second)

unfoldable pub reply_range : ℕ → ℕ → ℕ → Reply
unfolding valid_range
reply_range first second total =
    let (from, to) = valid_range first second total in
    record {
      text =
          codes "bytes "
          ++ (to_string from ++ (codes "-" ++ (to_string to ++ (codes "/" ++ to_string total))));
      offset = from;
      count = (to + 2 ^ 64 - from + 1) % 2 ^ 64;
    }
