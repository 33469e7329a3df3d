-- ===== src/Timer/Unmoved.antt =====
-- What the calls for one timer leave of another.
use mathlib.Core.Option
use mathlib.Core.Option.{some-injective}
use network_learn.Base.{
  ℕ, ◌+◌, ◌≡◌, refl, sym, ap, ◌∙◌, false, List, [], ◌∷◌, some, arith, ◌==◌, Bool-cases,
  Option-cases, inl, inr, is_empty, leb, ◌<◌,
}
use network_learn.Timer.{
  Timer, TimerManager, reset, place, start, find, remove, update, restart_list, restart, destory,
  take_expired,
}
use network_learn.Timer.Order.{place_cases}
use network_learn.Timer.Tally.{find-node}

module _ (n : ℕ) where
  find-place :
      (t : Timer ℕ) (xs ys : List (Timer ℕ))
      → (t.node == n) ≡ false
      → place t xs ≡ some ys
      → find n ys ≡ find n xs
  unfolding find place
  find-place t [] ys differs e = cc
  find-place t (x ∷ xs) ys differs e = elim (place_cases t x xs ys e) [
    | inl (l, found, same) ↦ rw same (ground (arith, find-place t xs l differs found))
    | inr (missed, before, same) ↦ rw (same, differs) refl
  ]

  find-remove :
      (node : ℕ) (xs : List (Timer ℕ)) → (node == n) ≡ false → find n (remove node xs) ≡ find n xs
  unfolding find remove
  find-remove node [] differs = refl
  find-remove node (x ∷ xs) differs = ground (arith, find-remove node xs differs)

  find-update :
      (node : ℕ) (t : Timer ℕ) (xs : List (Timer ℕ))
      → (node == n) ≡ false
      → t.node ≡ node
      → find n (update node t xs) ≡ find n xs
  unfolding find update
  find-update node t [] differs own = refl
  find-update node t (x ∷ xs) differs own = ground (arith, find-update node t xs differs own)

  -- The timer that `start` makes is another one.
  pub find-start :
      (memory : ℕ → ℕ) (now timeout user_data : ℕ) (m : TimerManager ℕ)
      → (m.next_node == n) ≡ false
      → find n (start memory now timeout user_data m).0.list ≡ find n m.list
  unfolding start find
  find-start memory now timeout user_data m differs =
      let t : Timer ℕ = record {
        node = m.next_node;
        user_data = user_data;
        timeout = timeout;
        deadline = now + memory timeout;
      } in
      elim (Option-cases (place t m.list)) [
        | inl first ↦
            let shape : (start memory now timeout user_data m).0.list ≡ t ∷ m.list =
              rw (start, first) refl in
            ap (λ xs. find n xs) shape ∙ rw differs refl
        | inr (l, behind) ↦
            let shape : (start memory now timeout user_data m).0.list ≡ l =
              rw (start, behind) refl in
            ap (λ xs. find n xs) shape ∙ find-place t m.list l differs behind
      ]

  pub find-restart :
      (memory : ℕ → ℕ) (now node : ℕ) (m m' : TimerManager ℕ)
      → (node == n) ≡ false
      → restart memory now node m ≡ some m'
      → find n m'.list ≡ find n m.list
  unfolding restart restart_list
  find-restart memory now node m m' differs e = elim (Option-cases (find node m.list)) [
    | inl missed ↦ absurd (ground (arith, rw (restart, missed) at e))
    | inr (t, found) ↦
        let own = find-node node m.list t found in
        let t' = reset memory now t in
        let apart : (t'.node == n) ≡ false = rw own differs in
        let left : m' ≡ record m { list = restart_list node t' m.list } =
          sym (ap (λ o. Option.get_or o m) (rw (restart, found) at e)) in
        rw left (elim (Option-cases (place t' (remove node m.list))) [
          | inl stays ↦ rw (restart_list, stays) (find-update node t' m.list differs own)
          | inr (l, moves) ↦
              rw (restart_list, moves)
                (find-place t' (remove node m.list) l apart moves ∙ find-remove node m.list differs)
        ])
  ]

  pub find-destory :
      (node : ℕ) (m m' : TimerManager ℕ)
      → (node == n) ≡ false
      → destory node m ≡ some m'
      → find n m'.list ≡ find n m.list
  unfolding destory
  find-destory node m m' differs e = elim (Bool-cases (is_empty m.list)) [
    | inl nothing ↦
        let same : m ≡ m' = ap (λ o. Option.get_or o m) (rw nothing at e) in
        ap (λ (m : TimerManager ℕ). find n m.list) (sym same)
    | inr something ↦ elim (Option-cases (find node m.list)) [
      | inl missed ↦ absurd (ground (arith, rw (something, missed) at e))
      | inr (t, found) ↦
          let left : m' ≡ record m { list = remove node m.list } =
            sym (ap (λ o. Option.get_or o m) (rw (something, found) at e)) in
          rw left (find-remove node m.list differs)
    ]
  ]

-- A timer that is not over is left where it is.
pub find-take_expired :
    (n now : ℕ) (xs : List (Timer ℕ)) (t : Timer ℕ)
    → find n xs ≡ some t
    → now < t.deadline
    → find n (take_expired now xs).1 ≡ some t
unfolding find take_expired
find-take_expired n now [] t e h = absurd (ground (arith, e))
find-take_expired n now (x ∷ xs) t e h = elim (Bool-cases (leb x.deadline now)) [
  | inr later ↦ rw later e
  | inl over ↦ rw over (elim (Bool-cases (x.node == n)) [
    | inl hit ↦
        let same : x ≡ t = some-injective x t (rw hit at e) in
        absurd (ground (arith, over, h, ap (λ y. y.deadline) same))
    | inr miss ↦ find-take_expired n now xs t (rw miss at e) h
  ])
]
