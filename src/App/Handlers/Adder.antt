-- ===== src/App/Handlers/Adder.antt =====
-- "/adder" adds the numbers of its arguments.
use mathlib.Core.Option
use mathlib.Core.Option.{some-injective}
use network_learn.Base.{
  ℕ, ◌+◌, ◌^◌, ◌≡◌, ◌<◌, refl, ap, sym, ◌∙◌, true, false, List, [], ◌∷◌, ◌++◌, map, some, ◌==◌, ltb,
  arith, Bool-cases, inl, inr, All, Bytes, codes, pos, checked,
}
use network_learn.Util.Decimal.{to_string, is_digit, value_from, stoul, to_string-IsNumeral}
use network_learn.Http.Request.{HttpRequest}
use network_learn.Http.Response.{HttpResponse, set_raw_header, set_text_body}
use network_learn.App.{html}
use network_learn.App.Handlers.{
  is_space, leading_digits, atoi_number, atoi, add_arguments, adder_head, adder_tail, on_adder,
}

leading_digits_all : (cs : Bytes) → All (λ c. is_digit c ≡ true) cs → leading_digits cs ≡ cs
unfolding leading_digits
leading_digits_all [] h = refl
leading_digits_all (c ∷ cs) h = rw (h.0, leading_digits_all cs h.1) refl

atoi_digits :
    (c : ℕ) (cs : Bytes)
    → All (λ c. is_digit c ≡ true) (c ∷ cs)
    → atoi (c ∷ cs) ≡ checked (pos (value_from 0 (c ∷ cs)))
unfolding atoi is_space atoi_number
atoi_digits c cs h =
    let no_space : is_space c ≡ false = ground (arith, h.0) in
    let no_minus : (c == b'-') ≡ false = ground (arith, h.0) in
    let no_plus : (c == b'+') ≡ false = ground (arith, h.0) in
    rw (atoi, no_space, no_minus, no_plus, leading_digits_all (c ∷ cs) h) refl

stoul-value : (cs : Bytes) (n : ℕ) → stoul cs ≡ some n → value_from 0 cs ≡ n
unfolding stoul
stoul-value cs n e = elim (Bool-cases (ltb (value_from 0 cs) (2 ^ 64))) [
  | inl fits ↦ some-injective (value_from 0 cs) n (rw fits at e)
  | inr huge ↦ absurd (ground (arith, e, huge))
]

atoi-to_string : (n : ℕ) → n < 2 ^ 31 → atoi (to_string n) ≡ some (pos n)
atoi-to_string n h =
    let p = to_string-IsNumeral n in
    let digits : All (λ c. is_digit c ≡ true) (p.first ∷ p.others) = rw p.shape at p.are_digits in
    let fits : ltb n (2 ^ 64) ≡ true = ground arith in
    let small : ltb n (2 ^ 31) ≡ true = ground arith in
    let value = stoul-value (to_string n) n (p.reads_back ∙ rw fits refl) in
    rw p.shape (
      atoi_digits p.first p.others digits
      ∙ ap checked (ap pos (ap (value_from 0) (sym p.shape) ∙ value))
      ∙ rw small refl)

abbrev pub total : List ℕ → ℕ
total [] = 0
total (n ∷ ns) = n + total ns

add_arguments-total :
    (sum : ℕ) (ns : List ℕ)
    → sum + total ns < 2 ^ 31
    → add_arguments (pos sum) (map to_string ns) ≡ some (pos (sum + total ns))
unfolding add_arguments Option.bind
add_arguments-total sum [] h = ap (λ n. some (pos n)) (omega arith)
add_arguments-total sum (n ∷ ns) h =
    let number = atoi-to_string n (omega (arith, h)) in
    let fits : ltb (sum + n) (2 ^ 31) ≡ true = ground (arith, h) in
    let rest = add_arguments-total (sum + n) ns (omega (arith, h)) in
    rw (number, fits) (rest ∙ ap (λ n. some (pos n)) (omega arith))

-- Where the arguments of a request are printed numbers whose sum is below 2^31, the handler of "/adder"
-- succeeds, and sets as the body the page with that sum, as HTML.
pub on_adder-total :
    (ns : List ℕ) (req : HttpRequest) (resp : HttpResponse)
    → req.url_arguments ≡ map to_string ns
    → total ns < 2 ^ 31
    → on_adder req resp
      ≡ some (
        req,
        set_text_body
            ((adder_head ++ to_string (total ns)) ++ adder_tail)
            (set_raw_header (codes "Content-Type") html resp),
      )
unfolding on_adder
on_adder-total ns req resp e h =
    let sum : 0 + total ns ≡ total ns = omega arith in
    rw (e, add_arguments-total 0 ns (omega (arith, h)), sum) refl
