-- ===== src/Util/Decimal.antt =====
-- Decimal numbers as the standard library prints and reads them: `std::to_string` of an unsigned
-- number, and `std::stoul` of a text of digits, which throws where the value has more than 64 bits.
use mathlib.Core.List.{append_assoc, append-nil}
use network_learn.Base.{
  ℕ, zero, suc, ◌+◌, ◌-◌, ◌*◌, ◌/◌, ◌%◌, ◌^◌, ◌<◌, ◌≡◌, refl, ap, ◌∙◌, sym, Bool, true, ◌&&◌, [],
  ◌∷◌, ◌++◌, Option, none, some, arith, ltb, leb, if◌then◌else◌, Bool-cases, inl, inr, All,
  All-append, Bytes,
}

-- The digits of `n` in front of `rest`; the fuel bounds the number of digits.
print : ℕ → ℕ → Bytes → Bytes
print zero n rest = rest
print (suc fuel) n rest =
    let more = print fuel (n / 10) ((b'0' + n % 10) ∷ rest) in
    if ltb n 10 then (b'0' + n) ∷ rest else more

unfoldable pub to_string : ℕ → Bytes
unfolding print
to_string n = print (n + 1) n []

abbrev pub is_digit : ℕ → Bool
is_digit c = leb b'0' c && leb c b'9'

-- The value of a text of digits.
abbrev pub value_from : ℕ → Bytes → ℕ
value_from acc [] = acc
value_from acc (c ∷ cs) = value_from (acc * 10 + (c - b'0')) cs

-- `none`: `std::out_of_range` is thrown.
unfoldable pub stoul : Bytes → Option ℕ
stoul digits = let value = value_from 0 digits in if ltb value (2 ^ 64) then some value else none

value_from-append :
    (acc : ℕ) (xs ys : Bytes) → value_from acc (xs ++ ys) ≡ value_from (value_from acc xs) ys
value_from-append acc [] ys = refl
value_from-append acc (x ∷ xs) ys = value_from-append (acc * 10 + (x - b'0')) xs ys

-- The digits that `print` puts in front of `rest`.
record Prints (n : ℕ) (rest out : Bytes) : Type 0 where
  first : ℕ
  others : Bytes
  splits : out ≡ (first ∷ others) ++ rest
  are_digits : All (λ c. is_digit c ≡ true) (first ∷ others)
  value : value_from 0 (first ∷ others) ≡ n

print-Prints : (fuel n : ℕ) (rest : Bytes) → n < fuel → Prints n rest (print fuel n rest)
unfolding print
print-Prints zero n rest h = absurd (omega arith)
print-Prints (suc fuel) n rest h = elim (Bool-cases (ltb n 10)) [
  | inl small ↦ rw small (record {
    first = b'0' + n;
    others = [];
    splits = refl;
    are_digits = (ground arith, tt);
    value = omega arith;
  })
  | inr large ↦
      let last = b'0' + n % 10 in
      let more = print-Prints fuel (n / 10) (last ∷ rest) (ground arith) in
      rw large (record {
        first = more.first;
        others = more.others ++ last ∷ [];
        splits = more.splits ∙ sym (append_assoc (more.first ∷ more.others) (last ∷ []) rest);
        are_digits =
            All-append (λ c. is_digit c ≡ true) (more.first ∷ more.others) (last ∷ [])
              more.are_digits (ground arith, tt);
        value =
            value_from-append 0 (more.first ∷ more.others) (last ∷ [])
            ∙ ap (λ v. v * 10 + (last - b'0')) more.value
            ∙ omega arith;
      })
]

-- A printed number is a text of one digit or more, and `stoul` reads it back if it has 64 bits.
pub record IsNumeral (n : ℕ) (text : Bytes) : Type 0 where
  pub first : ℕ
  pub others : Bytes
  pub shape : text ≡ first ∷ others
  pub are_digits : All (λ c. is_digit c ≡ true) text
  pub reads_back : stoul text ≡ (if ltb n (2 ^ 64) then some n else none)

pub to_string-IsNumeral : (n : ℕ) → IsNumeral n (to_string n)
unfolding to_string stoul
to_string-IsNumeral n =
    let p = print-Prints (n + 1) n [] (omega arith) in
    let shape = p.splits ∙ append-nil (p.first ∷ p.others) in
    record {
      first = p.first;
      others = p.others;
      shape = shape;
      are_digits = rw shape p.are_digits;
      reads_back = rw (shape, p.value);
    }

pub to_string_injective : (a b : ℕ) → a < 2 ^ 64 → b < 2 ^ 64 → to_string a ≡ to_string b → a ≡ b
to_string_injective a b p q e =
    let x = (to_string-IsNumeral a).reads_back in
    let y = (to_string-IsNumeral b).reads_back in ground (arith, x, y, ap stoul e)
