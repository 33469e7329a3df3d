-- ===== src/Util/Refer.antt =====
-- `Util::referTil` of util/util.h, and the `std::string_view`s that it hands out: pointers into
-- a string, kept here as a start and a count within that string.
use native.Mathlib.Nat.{add-zero, add-suc}
use network_learn.Base.{
  ℕ, zero, suc, Option, none, some, ◌+◌, ◌-◌, ◌≤◌, ◌<◌, ◌≡◌, ◌≢◌, refl, ap, ◌∙◌, sym, ◌⊎◌, Bool,
  true, false, ◌&&◌, [], ◌∷◌, ◌++◌, inl, inr, arith, ltb, leb, if◌then◌else◌, Bool-cases, length,
  get_or, All, Bytes, take, drop, is_empty, length-drop, length-append,
}

pub record View : Type 0 where
  pub start : ℕ
  pub count : ℕ

-- What a view shows of the string that it points into.
abbrev pub view_text : Bytes → View → Bytes
view_text raw v = take v.count (drop v.start raw)

-- A view that reads nothing outside its string.
abbrev pub InBounds : Bytes → View → Type 0
InBounds raw v = v.start + v.count ≤ length raw

abbrev pub empty_view : View
empty_view = record { start = 0; count = 0 }

-- The result, and what the reference arguments `offset` and `dst` hold after the call.
pub record Refer : Type 0 where
  pub found : Bool
  pub offset : ℕ
  pub dst : View

-- The loop, over what is left of the string: `count` at its end, and whether `limit` stopped it.
-- `max` is `maxCount`; 0 is no maximum.
scan : ℕ → (ℕ → Bool) → Bytes → ℕ → ℕ × Bool
scan max limit [] count = (count, false)
scan max limit (c ∷ cs) count =
    let rest = scan max limit cs (count + 1) in
    if ltb 0 max && leb max count then (count, false) else if limit c then (count, true) else rest

unfoldable pub refer_til : ℕ → (ℕ → Bool) → Bytes → ℕ → View → Refer
unfolding scan
refer_til max limit src offset dst =
    if is_empty src
    then record { found = false; offset = offset; dst = dst }
    else (let r = scan max limit (drop offset src) 0 in
        record { found = r.1; offset = offset + r.0; dst = record { start = offset; count = r.0 } })

scan_bounds :
    (max : ℕ) (limit : ℕ → Bool) (cs : Bytes) (k : ℕ)
    → (k ≤ (scan max limit cs k).0) × ((scan max limit cs k).0 ≤ k + length cs)
unfolding scan
scan_bounds max limit [] k = (omega arith, omega arith)
scan_bounds max limit (c ∷ cs) k = ground (arith, scan_bounds max limit cs (k + 1))

-- Where the loop was stopped by `limit`: the bytes before, the byte, the bytes behind.
pub record Found (max : ℕ) (limit : ℕ → Bool) (cs : Bytes) (n : ℕ) : Type 0 where
  pub before : Bytes
  pub stop : ℕ
  pub behind : Bytes
  pub splits : cs ≡ before ++ stop ∷ behind
  pub size : length before ≡ n
  pub clear : All (λ c. limit c ≡ false) before
  pub stops : limit stop ≡ true

scan-Found :
    (max : ℕ) (limit : ℕ → Bool) (cs : Bytes) (k n : ℕ)
    → scan max limit cs k ≡ (n, true)
    → Found max limit cs (n - k)
unfolding scan
scan-Found max limit [] k n e = absurd (ground arith)
scan-Found max limit (c ∷ cs) k n e = elim (Bool-cases (ltb 0 max && leb max k)) [
  | inl full ↦ absurd (ground arith)
  | inr room ↦ elim (Bool-cases (limit c)) [
    | inl hit ↦ record {
      before = [];
      stop = c;
      behind = cs;
      splits = refl;
      size = ground arith;
      clear = tt;
      stops = hit;
    }
    | inr miss ↦
        let later = scan-Found max limit cs (k + 1) n (ground arith) in
        let bounds = scan_bounds max limit cs (k + 1) in
        record {
          before = c ∷ later.before;
          stop = later.stop;
          behind = later.behind;
          splits = ap (◌∷◌ c) later.splits;
          size = ground arith;
          clear = (miss, later.clear);
          stops = later.stops;
        }
  ]
]

scan_complete :
    (max : ℕ) (limit : ℕ → Bool) (before : Bytes) (stop : ℕ) (behind : Bytes) (k : ℕ)
    → (max ≡ 0) ⊎ (k + length before < max)
    → All (λ c. limit c ≡ false) before
    → limit stop ≡ true
    → scan max limit (before ++ stop ∷ behind) k ≡ (k + length before, true)
unfolding scan
scan_complete max limit [] stop behind k room clear stops = ground arith
scan_complete max limit (c ∷ cs) stop behind k room clear stops =
    ground (arith, clear.0, scan_complete max limit cs stop behind (k + 1))

-- The byte at a position; a `std::string` has a NUL behind its last byte.
abbrev pub byte_at : Bytes → ℕ → ℕ
byte_at src i = get_or src i 0

-- `std::string::at`. `none`: it throws, outside the string.
unfoldable pub char_at : Bytes → ℕ → Option ℕ
char_at [] i = none
char_at (c ∷ cs) zero = some c
char_at (c ∷ cs) (suc i) = char_at cs i

pub char_at_inside : (cs : Bytes) (i : ℕ) → i < length cs → char_at cs i ≡ some (byte_at cs i)
unfolding char_at
char_at_inside [] i h = absurd (omega (arith, h))
char_at_inside (c ∷ cs) zero h = refl
char_at_inside (c ∷ cs) (suc i) h = char_at_inside cs i (omega (arith, h))

byte_at-drop : (n : ℕ) (cs : Bytes) (k : ℕ) → byte_at (drop n cs) k ≡ byte_at cs (k + n)
byte_at-drop zero cs k = ground (arith, add-zero k)
byte_at-drop (suc n) [] k = refl
byte_at-drop (suc n) (c ∷ cs) k = rw (add-suc k n) (byte_at-drop n cs k)

pub byte_at-drop_zero : (n : ℕ) (cs : Bytes) → byte_at (drop n cs) 0 ≡ byte_at cs n
byte_at-drop_zero zero cs = refl
byte_at-drop_zero (suc n) [] = refl
byte_at-drop_zero (suc n) (c ∷ cs) = byte_at-drop_zero n cs

byte_at-append :
    (before : Bytes) (stop : ℕ) (behind : Bytes)
    → byte_at (before ++ stop ∷ behind) (length before) ≡ stop
byte_at-append [] stop behind = refl
byte_at-append (c ∷ cs) stop behind = byte_at-append cs stop behind

-- The facts that a caller has after a call that returns true.
pub record Stopped (max : ℕ) (limit : ℕ → Bool) (src : Bytes) (offset : ℕ) (r : Refer)
    : Type 0 where
  pub start : r.dst.start ≡ offset
  pub reached : r.offset ≡ offset + r.dst.count
  pub inside : r.offset < length src
  pub stops : limit (byte_at src r.offset) ≡ true
  pub found_at : Found max limit (drop offset src) r.dst.count

module _ (max : ℕ) (limit : ℕ → Bool) (src : Bytes) (offset : ℕ) (dst : View) where
  -- With a start inside the string the call leaves a view that reads nothing outside it.
  pub refer_til-InBounds :
      offset ≤ length src → InBounds src dst → InBounds src (refer_til max limit src offset dst).dst
  unfolding refer_til
  refer_til-InBounds h k =
      ground (arith, scan_bounds max limit (drop offset src) 0, length-drop offset src)

  pub refer_til_progress : offset ≤ (refer_til max limit src offset dst).offset
  unfolding refer_til
  refer_til_progress = ground arith

  scan-Stopped :
      (n : ℕ)
      → scan max limit (drop offset src) 0 ≡ (n, true)
      → Stopped max limit src offset
          (record { found = true; offset = offset + n; dst = record { start = offset; count = n } })
  scan-Stopped n e =
      let f = scan-Found max limit (drop offset src) 0 n e in
      let same : n - 0 ≡ n = omega arith in
      let total : length (drop offset src) ≡ length f.before + suc (length f.behind) =
        ap length f.splits ∙ length-append f.before (f.stop ∷ f.behind) in
      let at_stop : byte_at (drop offset src) (length f.before) ≡ f.stop =
        ap (λ cs. byte_at cs (length f.before)) f.splits
        ∙ byte_at-append f.before f.stop f.behind in
      record {
        start = refl;
        reached = refl;
        inside = omega (arith, f.size, total, length-drop offset src);
        stops = ground (arith, byte_at-drop offset src n, f.size, at_stop, f.stops);
        found_at = rw same at f;
      }

  result-Stopped :
      (r : ℕ × Bool)
      → scan max limit (drop offset src) 0 ≡ r
      → r.1 ≡ true
      → Stopped max limit src offset (record {
        found = r.1;
        offset = offset + r.0;
        dst = record { start = offset; count = r.0 };
      })
  result-Stopped (n, true) e h = scan-Stopped n e
  result-Stopped (n, false) e h = absurd (ground arith)

  pub refer_til-Stopped :
      (refer_til max limit src offset dst).found ≡ true
      → Stopped max limit src offset (refer_til max limit src offset dst)
  unfolding refer_til
  refer_til-Stopped e = elim (Bool-cases (is_empty src)) [
    | inl none_left ↦ absurd (ground arith)
    | inr some_left ↦ rw some_left (result-Stopped _ refl (ground arith))
  ]

append-ne-nil : (before : Bytes) (stop : ℕ) (behind : Bytes) → before ++ stop ∷ behind ≢ []
append-ne-nil [] stop behind e = cc
append-ne-nil (c ∷ cs) stop behind e = cc

drop-ne-nil : (n : ℕ) (src : Bytes) → drop n src ≢ [] → is_empty src ≡ false
drop-ne-nil zero [] h = absurd (h refl)
drop-ne-nil (suc n) [] h = absurd (h refl)
drop-ne-nil n (c ∷ cs) h = refl

-- Where the string goes on with `before`, clear of the limit and short enough, and then a byte of
-- the limit, the call finds that byte.
pub refer_til_complete :
    (max : ℕ) (limit : ℕ → Bool) (src : Bytes) (offset : ℕ) (before : Bytes) (stop : ℕ)
    (behind : Bytes) (dst : View)
    → drop offset src ≡ before ++ stop ∷ behind
    → (max ≡ 0) ⊎ (length before < max)
    → All (λ c. limit c ≡ false) before
    → limit stop ≡ true
    → refer_til max limit src offset dst ≡ record {
      found = true;
      offset = offset + length before;
      dst = record { start = offset; count = length before };
    }
unfolding refer_til
refer_til_complete max limit src offset before stop behind dst reads room clear stops =
    let some_left =
      drop-ne-nil offset src (λ e. append-ne-nil before stop behind (sym reads ∙ e)) in
    let zero_add : 0 + length before ≡ length before = omega arith in
    let hit = scan_complete max limit before stop behind 0 (rw zero_add room) clear stops in
    rw (some_left, reads, hit, zero_add)
