-- ===== src/Http/Request/Position.antt =====
-- Positions in the data of a request: what stands at an offset, and what `referTil` finds there.
use native.Mathlib.Nat.{zero-add}
use network_learn.Base.{
  ltb, ◌==◌, ◌&&◌, ◌≤◌, some, inl, inr, Bool-cases, if◌then◌else◌, ℕ, zero, suc, ◌+◌, ◌<◌, ◌≡◌,
  refl, ap, ◌∙◌, sym, ◌⊎◌, Bool, true, false, [], ◌∷◌, ◌++◌, arith, length, take, drop,
  length-append, take-append, drop-append, All, Bytes,
}
use network_learn.Util.Refer.{
  View, view_text, refer_til, refer_til_complete, byte_at, byte_at-drop_zero, char_at_inside,
}
use network_learn.Http.Request.{is_space, is_at, skip_spaces}

-- `rest` is what the data hold from `offset` on.
pub record At (raw : Bytes) (offset : ℕ) (rest : Bytes) : Type 0 where
  pub reads : drop offset raw ≡ rest
  pub size : offset + length rest ≡ length raw

pub At-start : (raw : Bytes) → At raw 0 raw
At-start raw = record { reads = refl; size = omega arith }

drop-nil : (n : ℕ) → drop {A = ℕ} n [] ≡ []
drop-nil zero = refl
drop-nil (suc n) = refl

drop-add : (m n : ℕ) (xs : Bytes) → drop (m + n) xs ≡ drop n (drop m xs)
drop-add zero n xs = rw zero-add
drop-add (suc m) n [] = drop-nil (suc m + n) ∙ sym (drop-nil n)
drop-add (suc m) n (x ∷ xs) =
    let e : suc m + n ≡ suc (m + n) = omega arith in rw e (drop-add m n xs)

module _ {raw : Bytes} {offset : ℕ} where
  pub At-append : (xs ys : Bytes) → At raw offset (xs ++ ys) → At raw (offset + length xs) ys
  At-append xs ys a = record {
    reads = drop-add offset (length xs) raw ∙ ap (drop (length xs)) a.reads ∙ drop-append xs ys;
    size = omega (arith, a.size, length-append xs ys);
  }

  pub At-cons : (c : ℕ) (cs : Bytes) → At raw offset (c ∷ cs) → At raw (offset + 1) cs
  At-cons c cs a = At-append (c ∷ []) cs a

  pub At-byte : (c : ℕ) (cs : Bytes) → At raw offset (c ∷ cs) → byte_at raw offset ≡ c
  At-byte c cs a = sym (byte_at-drop_zero offset raw) ∙ ap (λ xs. byte_at xs 0) a.reads

  pub At-view :
      (xs ys : Bytes)
      → At raw offset (xs ++ ys)
      → view_text raw (record { start = offset; count = length xs }) ≡ xs
  At-view xs ys a = ap (take (length xs)) a.reads ∙ take-append xs ys

  -- `referTil` at a text that a byte of the limit ends.
  pub At-refer_til :
      (max : ℕ) (limit : ℕ → Bool) (before : Bytes) (stop : ℕ) (behind : Bytes) (dst : View)
      → At raw offset (before ++ stop ∷ behind)
      → (max ≡ 0) ⊎ (length before < max)
      → All (λ c. limit c ≡ false) before
      → limit stop ≡ true
      → refer_til max limit raw offset dst ≡ record {
        found = true;
        offset = offset + length before;
        dst = record { start = offset; count = length before };
      }
  At-refer_til max limit before stop behind dst a =
      refer_til_complete max limit raw offset before stop behind dst a.reads

pub is_at_lem :
    (test : ℕ → Bool) (raw : Bytes) (offset : ℕ)
    → is_at test raw offset ≡ some (ltb offset (length raw) && test (byte_at raw offset))
unfolding is_at
is_at_lem test raw offset = elim (Bool-cases (ltb offset (length raw))) [
  | inl inside ↦ rw (inside, char_at_inside raw offset (ground arith)) refl
  | inr outside ↦ rw outside refl
]

-- Where the spaces end, over what is left of the data.
unfoldable pub skipped : Bytes → ℕ → ℕ
skipped [] offset = offset
skipped (c ∷ cs) offset = if c == b' ' then skipped cs (offset + 1) else offset

drop-step :
    (raw : Bytes) (offset : ℕ)
    → offset < length raw
    → drop offset raw ≡ byte_at raw offset ∷ drop (offset + 1) raw
drop-step [] offset h = absurd (omega (arith, h))
drop-step (c ∷ cs) zero h = refl
drop-step (c ∷ cs) (suc n) h =
    let e : suc n + 1 ≡ suc (n + 1) = omega arith in rw e (drop-step cs n (omega (arith, h)))

drop-over : (raw : Bytes) (offset : ℕ) → length raw ≤ offset → drop offset raw ≡ []
drop-over [] offset h = drop-nil offset
drop-over (c ∷ cs) zero h = absurd (omega (arith, h))
drop-over (c ∷ cs) (suc n) h = drop-over cs n (omega (arith, h))

pub skip_spaces-skipped :
    (fuel : ℕ) (raw : Bytes) (offset : ℕ)
    → 0 < fuel
    → length raw + 1 ≤ offset + fuel
    → skip_spaces fuel raw offset ≡ some (skipped (drop offset raw) offset)
unfolding skip_spaces skipped
skip_spaces-skipped zero raw offset f k = absurd (omega (arith, f))
skip_spaces-skipped (suc fuel) raw offset f k = elim (Bool-cases (ltb offset (length raw))) [
  | inr outside ↦
      rw (skip_spaces, is_at_lem is_space raw offset, outside, drop-over raw offset (ground arith))
        refl
  | inl inside ↦
      let step = drop-step raw offset (ground arith) in
      elim (Bool-cases (byte_at raw offset == b' ')) [
        | inl space ↦
            rw (skip_spaces, is_at_lem is_space raw offset, inside, space, step, space)
              (skip_spaces-skipped fuel raw (offset + 1) (ground arith) (omega (arith, k)))
        | inr other ↦
            rw (skip_spaces, is_at_lem is_space raw offset, inside, other, step, other) refl
      ]
]
