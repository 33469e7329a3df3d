-- ===== src/Timer/Order.antt =====
-- The timers stand in the order of their deadlines.
use network_learn.Base.{
  ℕ, ◌+◌, ◌≤◌, ◌<◌, ◌≡◌, ◌⊎◌, inl, inr, List, [], ◌∷◌, none, some, arith, ◌==◌, Bool-cases,
  Option-cases, All,
}
use network_learn.Timer.{Timer, TimerManager, place, start, remove, update, restart_list}

module _ {T : Type 0} where
  abbrev pub AfterOrAt : ℕ → Timer T → Type 0
  AfterOrAt d t = d ≤ t.deadline

  abbrev pub NotAfter : ℕ → Timer T → Type 0
  NotAfter d t = t.deadline ≤ d

  abbrev pub IsSorted : List (Timer T) → Type 0
  IsSorted [] = Unit
  IsSorted (x ∷ xs) = All (AfterOrAt x.deadline) xs × IsSorted xs

  -- Where the loop stops.
  pub place_cases :
      (t x : Timer T) (xs ys : List (Timer T))
      → place t (x ∷ xs) ≡ some ys
      → ((l : List (Timer T)) × (place t xs ≡ some l) × (ys ≡ x ∷ l))
        ⊎ ((place t xs ≡ none) × (x.deadline < t.deadline) × (ys ≡ x ∷ t ∷ xs))
  unfolding place
  place_cases t x xs ys e = elim (Option-cases (place t xs)) [
    | inr (l, found) ↦ inl (l, found, ground arith)
    | inl missed ↦ inr (missed, ground arith, ground arith)
  ]

  -- The new list has the new timer and the old ones: a property of all is one of these.
  pub place-All {ℓ} :
      (P : Timer T → Type ℓ) (t : Timer T) (xs ys : List (Timer T))
      → place t xs ≡ some ys
      → P t
      → All P xs
      → All P ys
  unfolding place
  place-All P t [] ys e p h = cc
  place-All P t (x ∷ xs) ys e p h = elim (place_cases t x xs ys e) [
    | inl (l, found, same) ↦ rw same (h.0, place-All P t xs l found p h.1)
    | inr (missed, before, same) ↦ rw same (h.0, (p, h.1))
  ]

  -- A bound from below passes on: the place is behind a timer that is due before `t`.
  place-AfterOrAt :
      (d : ℕ) (t : Timer T) (xs ys : List (Timer T))
      → place t xs ≡ some ys
      → All (AfterOrAt d) xs
      → All (AfterOrAt d) ys
  unfolding place
  place-AfterOrAt d t [] ys e h = cc
  place-AfterOrAt d t (x ∷ xs) ys e h = elim (place_cases t x xs ys e) [
    | inl (l, found, same) ↦ rw same (h.0, place-AfterOrAt d t xs l found h.1)
    | inr (missed, before, same) ↦ rw same (h.0, (omega arith, h.1))
  ]

  -- Where the loop ends at `begin()` no timer is due before `t`.
  place-none :
      (t : Timer T) (xs : List (Timer T)) → place t xs ≡ none → All (AfterOrAt t.deadline) xs
  unfolding place
  place-none t [] e = tt
  place-none t (x ∷ xs) e = elim (Option-cases (place t xs)) [
    | inr (l, found) ↦ absurd (ground arith)
    | inl missed ↦ (ground arith, place-none t xs missed)
  ]

  place-IsSorted :
      (t : Timer T) (xs ys : List (Timer T)) → place t xs ≡ some ys → IsSorted xs → IsSorted ys
  unfolding place
  place-IsSorted t [] ys e h = cc
  place-IsSorted t (x ∷ xs) ys e h = elim (place_cases t x xs ys e) [
    | inl (l, found, same) ↦
        rw same (place-AfterOrAt x.deadline t xs l found h.0, place-IsSorted t xs l found h.1)
    | inr (missed, before, same) ↦ rw same ((omega arith, h.0), (place-none t xs missed, h.1))
  ]

  -- `start` keeps the timers in order, whatever the clock and the timeout are.
  pub start-IsSorted :
      (memory : ℕ → ℕ) (now timeout : ℕ) (user_data : T) (m : TimerManager T)
      → IsSorted m.list
      → IsSorted (start memory now timeout user_data m).0.list
  unfolding start
  start-IsSorted memory now timeout user_data m h =
      let t : Timer T = record {
        node = m.next_node;
        user_data = user_data;
        timeout = timeout;
        deadline = now + memory timeout;
      } in
      elim (Option-cases (place t m.list)) [
        | inl missed ↦ rw (missed, start) (place-none t m.list missed, h)
        | inr (l, found) ↦ rw (found, start) (place-IsSorted t m.list l found h)
      ]

  pub remove-All {ℓ} :
      (P : Timer T → Type ℓ) (node : ℕ) (xs : List (Timer T)) → All P xs → All P (remove node xs)
  unfolding remove
  remove-All P node [] h = tt
  remove-All P node (x ∷ xs) h = elim (Bool-cases (x.node == node)) [
    | inl hit ↦ rw hit h.1
    | inr miss ↦ rw miss (h.0, remove-All P node xs h.1)
  ]

  pub remove-IsSorted : (node : ℕ) (xs : List (Timer T)) → IsSorted xs → IsSorted (remove node xs)
  unfolding remove
  remove-IsSorted node [] h = tt
  remove-IsSorted node (x ∷ xs) h = elim (Bool-cases (x.node == node)) [
    | inl hit ↦ rw hit h.1
    | inr miss ↦
        rw miss (remove-All (AfterOrAt x.deadline) node xs h.0, remove-IsSorted node xs h.1)
  ]

  pub update-All {ℓ} :
      (P : Timer T → Type ℓ) (node : ℕ) (t : Timer T) (xs : List (Timer T))
      → P t
      → All P xs
      → All P (update node t xs)
  unfolding update
  update-All P node t [] p h = tt
  update-All P node t (x ∷ xs) p h = elim (Bool-cases (x.node == node)) [
    | inl hit ↦ rw hit (p, h.1)
    | inr miss ↦ rw miss (h.0, update-All P node t xs p h.1)
  ]

  -- A sorted list of timers due at `d` or before stays sorted when one is put off to `d` in its
  -- place, if all others are due at `d`.
  update-IsSorted :
      (node : ℕ) (t : Timer T) (xs : List (Timer T))
      → IsSorted xs
      → All (NotAfter t.deadline) xs
      → All (AfterOrAt t.deadline) (remove node xs)
      → IsSorted (update node t xs)
  unfolding update remove
  update-IsSorted node t [] h k r = tt
  update-IsSorted node t (x ∷ xs) h k r = elim (Bool-cases (x.node == node)) [
    | inl hit ↦ rw hit (rw hit at r, h.1)
    | inr miss ↦
        let r' = rw miss at r in
        rw miss (
          update-All (AfterOrAt x.deadline) node t xs k.0 h.0,
          update-IsSorted node t xs h.1 k.1 r'.1,
        )
  ]

  pub restart_list-IsSorted :
      (node : ℕ) (t : Timer T) (xs : List (Timer T))
      → IsSorted xs
      → All (NotAfter t.deadline) xs
      → IsSorted (restart_list node t xs)
  unfolding restart_list
  restart_list-IsSorted node t xs h k =
      let rest = remove-IsSorted node xs h in
      elim (Option-cases (place t (remove node xs))) [
        | inl missed ↦
            rw (missed, restart_list)
              (update-IsSorted node t xs h k (place-none t (remove node xs) missed))
        | inr (l, found) ↦ rw (found, restart_list) (place-IsSorted t (remove node xs) l found rest)
      ]
