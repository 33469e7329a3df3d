-- ===== src/Timer/Expiry.antt =====
-- `checkout` on timers in the order of their deadlines.
use network_learn.Base.{
  ℕ, ◌<◌, ◌≡◌, refl, List, [], ◌∷◌, ◌++◌, map, arith, leb, if◌then◌else◌, Bool-cases, inl, inr, All,
  All-mono,
}
use network_learn.Timer.{Timer, TimerManager, take_expired, checkout}
use network_learn.Timer.Order.{AfterOrAt, IsSorted}

module _ {T : Type 0} where
  -- The timers of a list that are due at `now`, and the others.
  abbrev pub due : ℕ → List (Timer T) → List (Timer T)
  due now [] = []
  due now (x ∷ xs) = if leb x.deadline now then x ∷ due now xs else due now xs

  abbrev pub pending : ℕ → List (Timer T) → List (Timer T)
  pending now [] = []
  pending now (x ∷ xs) = if leb x.deadline now then pending now xs else x ∷ pending now xs

  none_due :
      (now d : ℕ) (xs : List (Timer T))
      → now < d
      → All (AfterOrAt d) xs
      → (due now xs ≡ []) × (pending now xs ≡ xs)
  none_due now d [] h k = (refl, refl)
  none_due now d (x ∷ xs) h k = ground (arith, k.0, none_due now d xs h k.1)

  take_expired_lem :
      (now : ℕ) (xs : List (Timer T))
      → IsSorted xs
      → take_expired now xs ≡ (map (λ t. t.user_data) (due now xs), pending now xs)
  unfolding take_expired
  take_expired_lem now [] h = refl
  take_expired_lem now (x ∷ xs) h = elim (Bool-cases (leb x.deadline now)) [
    | inl over ↦ rw (over, take_expired_lem now xs h.1)
    | inr later ↦ let (d, p) = none_due now x.deadline xs (ground arith) h.0 in rw (later, d, p)
  ]

  -- On timers in order `checkout` hands over the data of exactly the timers that are due, in order,
  -- behind what the vector holds, and leaves exactly the others.
  pub checkout-due :
      (now : ℕ) (out : List T) (m : TimerManager T)
      → IsSorted m.list
      → checkout now out m
        ≡ (out ++ map (λ t. t.user_data) (due now m.list), record m { list = pending now m.list })
  unfolding checkout
  checkout-due now out m h = rw (take_expired_lem now m.list h)

  -- What `checkout` leaves is due later.
  pub left_later :
      (now : ℕ) (xs : List (Timer T))
      → IsSorted xs
      → All (λ t. now < t.deadline) (take_expired now xs).1
  unfolding take_expired
  left_later now [] h = tt
  left_later now (x ∷ xs) h = elim (Bool-cases (leb x.deadline now)) [
    | inl over ↦ rw over (left_later now xs h.1)
    | inr later ↦
        let ahead : now < x.deadline = ground arith in
        rw later (
          ahead,
          All-mono (AfterOrAt x.deadline) (λ t. now < t.deadline) xs
              (λ t k. omega (arith, ahead, k)) h.0,
        )
  ]

  -- What is left was there.
  pub take_expired-All :
      (P : Timer T → Type 0) (now : ℕ) (xs : List (Timer T))
      → All P xs
      → All P (take_expired now xs).1
  unfolding take_expired
  take_expired-All P now [] h = tt
  take_expired-All P now (x ∷ xs) h = elim (Bool-cases (leb x.deadline now)) [
    | inl over ↦ rw over (take_expired-All P now xs h.1)
    | inr later ↦ rw later h
  ]
