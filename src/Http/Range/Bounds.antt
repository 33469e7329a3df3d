-- ===== src/Http/Range/Bounds.antt =====
-- The part of a file that `replyRange` chooses.
use network_learn.Base.{
  ℕ, ◌+◌, ◌-◌, ◌%◌, ◌^◌, ◌<◌, ◌≤◌, ◌≡◌, ◌++◌, arith, leb, ◌||◌, if◌then◌else◌, codes, Bytes,
}
use network_learn.Util.Decimal.{to_string}
use network_learn.Http.Range.{valid_range, reply_range}

-- The header value that names bytes `from` to `to` of `total`.
abbrev pub range_text : ℕ → ℕ → ℕ → Bytes
range_text from to total =
    codes "bytes "
    ++ (to_string from ++ (codes "-" ++ (to_string to ++ (codes "/" ++ to_string total))))

valid_range_lem :
    (first second total : ℕ)
    → 0 < total
    → total < 2 ^ 64
    → ((valid_range first second total).0 ≤ (valid_range first second total).1)
      × ((valid_range first second total).1 < total)
unfolding valid_range
valid_range_lem first second total p q = ground arith

-- On a file that is not empty, of a size below 2^64, the chosen part is not empty and lies inside the file, and the header
-- names its first and its last byte.
pub reply_range_bounds :
    (first second total : ℕ)
    → 0 < total
    → total < 2 ^ 64
    → let r = reply_range first second total in
      (0 < r.count)
      × (r.offset + r.count ≤ total)
      × (r.text ≡ range_text r.offset (r.offset + r.count - 1) total)
unfolding reply_range
reply_range_bounds first second total p q =
    let v = valid_range_lem first second total p q in
    let (from, to) = valid_range first second total in
    let count : (to + 2 ^ 64 - from + 1) % 2 ^ 64 ≡ to - from + 1 = omega arith in
    let last : from + (to - from + 1) - 1 ≡ to = omega arith in
    rw count (omega arith, omega arith, rw last)

-- The first byte and the size of the part that a request for bytes `first` to `second` is given:
-- the whole file where an end lies outside it, the rest of the file where `second` is left out (0)
-- or not behind `first`, and else those bytes.
abbrev pub granted : ℕ → ℕ → ℕ → ℕ × ℕ
granted first second total =
    if leb total first || leb total second
    then (0, total)
    else if leb second first
    then (first, total - first)
    else (first, second - first + 1)

-- For every size below 2^64, 0 included, the part is that of the table `granted`: the whole file for a
-- range that touches its end or lies behind it, the rest of the file from the first byte on where the
-- last byte is not behind the first, and the range itself else.
pub reply_range-granted :
    (first second total : ℕ)
    → total < 2 ^ 64
    → ((reply_range first second total).offset, (reply_range first second total).count)
      ≡ granted first second total
unfolding reply_range
reply_range-granted first second total q = ground arith
