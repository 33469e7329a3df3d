-- ===== src/Util/Hex.antt =====
-- `toHex` of util/util.h, on a number that is not negative.
use network_learn.Base.{
  ℕ, zero, suc, ◌+◌, ◌-◌, ◌*◌, ◌/◌, ◌%◌, ◌≤◌, ◌<◌, ◌≡◌, ap, ◌∙◌, [], ◌∷◌, ◌++◌, arith, ltb,
  if◌then◌else◌, Bool-cases, inl, inr, Bytes, true, false,
}

abbrev pub hex_digit : ℕ → ℕ
hex_digit d = if ltb d 10 then 48 + d else 87 + d

-- The digits of a number, in front of `rest`; a number has fewer digits than the fuel that it is given.
pub hex_digits : ℕ → ℕ → Bytes → Bytes
hex_digits zero n rest = rest
hex_digits (suc fuel) n rest = elim (ltb n 16) [
  | true ↦ hex_digit n ∷ rest
  | false ↦ hex_digits fuel (n / 16) (hex_digit (n % 16) ∷ rest)
]

unfoldable pub to_hex : Bytes → ℕ → Bytes
unfolding hex_digits
to_hex buf num = buf ++ hex_digits (suc num) num []

abbrev digit_value : ℕ → ℕ
digit_value c = if ltb c 58 then c - 48 else c - 87

-- The number that digits stand for, behind `v`.
abbrev read_hex : ℕ → Bytes → ℕ
read_hex v [] = v
read_hex v (c ∷ cs) = read_hex (v * 16 + digit_value c) cs

digit_value-hex_digit : (d : ℕ) → d < 16 → digit_value (hex_digit d) ≡ d
digit_value-hex_digit d h = ground arith

read_hex-hex_digits :
    (fuel n : ℕ) (rest : Bytes) → n < fuel → read_hex 0 (hex_digits fuel n rest) ≡ read_hex n rest
unfolding hex_digits
read_hex-hex_digits zero n rest h = absurd (omega (arith, h))
read_hex-hex_digits (suc fuel) n rest h = elim (Bool-cases (ltb n 16)) [
  | inl last ↦
      let value : digit_value (hex_digit n) ≡ n = digit_value-hex_digit n (ground (arith, last)) in
      rw (hex_digits, last) (ap (λ v. read_hex v rest) (omega (arith, value)))
  | inr more ↦
      let large : 16 ≤ n = ground (arith, more) in
      let value = digit_value-hex_digit (n % 16) (omega arith) in
      let back =
        read_hex-hex_digits fuel (n / 16) (hex_digit (n % 16) ∷ rest) (omega (arith, h, large)) in
      rw (hex_digits, more) (back ∙ ap (λ v. read_hex v rest) (omega (arith, value)))
]

to_hex_lem : (num : ℕ) → read_hex 0 (to_hex [] num) ≡ num
unfolding to_hex
to_hex_lem num = read_hex-hex_digits (suc num) num [] (omega arith)
