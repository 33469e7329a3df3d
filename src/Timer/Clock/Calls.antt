-- ===== src/Timer/Clock/Calls.antt =====
-- Each call on the timers keeps their invariant.
use network_learn.Base.{
  ℕ, ◌+◌, ◌≤◌, ◌≡◌, refl, sym, subst, List, [], ◌∷◌, some, arith, leb, ◌==◌, Bool-cases,
  Option-cases, inl, inr, All, All-mono, is_empty,
}
use network_learn.Timer.{
  Timer, TimerManager, place, start, find, remove, restart_list, restart, destory, checkout,
  take_expired, take_first, take_head,
}
use network_learn.Timer.Order.{
  NotAfter, IsSorted, place-All, start-IsSorted, remove-All, remove-IsSorted, update-All,
  restart_list-IsSorted,
}
use network_learn.Timer.Clock.{Inv}

module _ {T : Type 0} (memory : ℕ → ℕ) (timeout : ℕ) where
  start-All {ℓ} :
      (P : Timer T → Type ℓ) (now : ℕ) (user_data : T) (m : TimerManager T)
      → P (record {
        node = m.next_node;
        user_data = user_data;
        timeout = timeout;
        deadline = now + memory timeout;
      })
      → All P m.list
      → All P (start memory now timeout user_data m).0.list
  unfolding start
  start-All P now user_data m p h =
      let t : Timer T = record {
        node = m.next_node;
        user_data = user_data;
        timeout = timeout;
        deadline = now + memory timeout;
      } in
      elim (Option-cases (place t m.list)) [
        | inl missed ↦ rw (missed, start) (p, h)
        | inr (l, found) ↦ rw (found, start) (place-All P t m.list l found p h)
      ]

  restart_list-All {ℓ} :
      (P : Timer T → Type ℓ) (node : ℕ) (t : Timer T) (xs : List (Timer T))
      → P t
      → All P xs
      → All P (restart_list node t xs)
  unfolding restart_list
  restart_list-All P node t xs p h = elim (Option-cases (place t (remove node xs))) [
    | inl missed ↦ rw (missed, restart_list) (update-All P node t xs p h)
    | inr (l, found) ↦
        rw (found, restart_list) (place-All P t (remove node xs) l found p (remove-All P node xs h))
  ]

  pub find-All {ℓ} :
      (P : Timer T → Type ℓ) (node : ℕ) (xs : List (Timer T)) (t : Timer T)
      → find node xs ≡ some t
      → All P xs
      → P t
  unfolding find
  find-All P node [] t e h = cc
  find-All P node (x ∷ xs) t e h = elim (Bool-cases (x.node == node)) [
    | inl hit ↦ let same : x ≡ t = ground arith in subst P same h.0
    | inr miss ↦ find-All P node xs t (ground arith) h.1
  ]

  pub later_bounded :
      (now now' : ℕ) (xs : List (Timer T))
      → now ≤ now'
      → All (NotAfter (now + memory timeout)) xs
      → All (NotAfter (now' + memory timeout)) xs
  later_bounded now now' xs h =
      All-mono (NotAfter (now + memory timeout)) (NotAfter (now' + memory timeout)) xs
        (λ t k. omega arith)

  left-All {ℓ} :
      (P : Timer T → Type ℓ) (now : ℕ) (xs : List (Timer T))
      → All P xs
      → All P (take_expired now xs).1
  unfolding take_expired
  left-All P now [] h = tt
  left-All P now (x ∷ xs) h = elim (Bool-cases (leb x.deadline now)) [
    | inl over ↦ rw over (left-All P now xs h.1)
    | inr later ↦ rw later h
  ]

  left-IsSorted : (now : ℕ) (xs : List (Timer T)) → IsSorted xs → IsSorted (take_expired now xs).1
  unfolding take_expired
  left-IsSorted now [] h = tt
  left-IsSorted now (x ∷ xs) h = elim (Bool-cases (leb x.deadline now)) [
    | inl over ↦ rw over (left-IsSorted now xs h.1)
    | inr later ↦ rw later h
  ]

  pub starts-Inv :
      (now : ℕ) (user_data : T) (m : TimerManager T)
      → Inv memory timeout now m
      → Inv memory timeout now (start memory now timeout user_data m).0
  starts-Inv now user_data m v = record {
    sorted = start-IsSorted memory now timeout user_data m v.sorted;
    bounded = start-All (NotAfter (now + memory timeout)) now user_data m (omega arith) v.bounded;
    shared = start-All (λ t. t.timeout ≡ timeout) now user_data m refl v.shared;
  }

  pub restarts-Inv :
      (now node : ℕ) (m m' : TimerManager T)
      → restart memory now node m ≡ some m'
      → Inv memory timeout now m
      → Inv memory timeout now m'
  unfolding restart
  restarts-Inv now node m m' e v = elim (Option-cases (find node m.list)) [
    | inl missed ↦ absurd (ground arith)
    | inr (t, found) ↦
        let own = find-All (λ t. t.timeout ≡ timeout) node m.list t found v.shared in
        let t' : Timer T = record t { deadline = now + memory timeout } in
        let same : m' ≡ record m { list = restart_list node t' m.list } =
          rw (← own) (ground (arith, found)) in
        subst (Inv memory timeout now) (sym same) (record {
          sorted = restart_list-IsSorted node t' m.list v.sorted v.bounded;
          bounded =
              restart_list-All (NotAfter (now + memory timeout)) node t' m.list (omega arith)
                v.bounded;
          shared = restart_list-All (λ t. t.timeout ≡ timeout) node t' m.list own v.shared;
        })
  ]

  removed-Inv :
      (now node : ℕ) (m : TimerManager T)
      → Inv memory timeout now m
      → Inv memory timeout now (record m { list = remove node m.list })
  removed-Inv now node m v = record {
    sorted = remove-IsSorted node m.list v.sorted;
    bounded = remove-All (NotAfter (now + memory timeout)) node m.list v.bounded;
    shared = remove-All (λ t. t.timeout ≡ timeout) node m.list v.shared;
  }

  pub destroys-Inv :
      (now node : ℕ) (m m' : TimerManager T)
      → destory node m ≡ some m'
      → Inv memory timeout now m
      → Inv memory timeout now m'
  unfolding destory
  destroys-Inv now node m m' e v = elim (Bool-cases (is_empty m.list)) [
    | inl none_left ↦
        let same : m' ≡ m = ground arith in subst (Inv memory timeout now) (sym same) v
    | inr some_left ↦ elim (Option-cases (find node m.list)) [
      | inl missed ↦ absurd (ground arith)
      | inr (t, found) ↦
          let same : m' ≡ record m { list = remove node m.list } = ground arith in
          subst (Inv memory timeout now) (sym same) (removed-Inv now node m v)
    ]
  ]

  pub checks_out-Inv :
      (now : ℕ) (m : TimerManager T)
      → Inv memory timeout now m
      → Inv memory timeout now (checkout now [] m).1
  unfolding checkout
  checks_out-Inv now m v = record {
    sorted = left-IsSorted now m.list v.sorted;
    bounded = left-All (NotAfter (now + memory timeout)) now m.list v.bounded;
    shared = left-All (λ t. t.timeout ≡ timeout) now m.list v.shared;
  }

  take_head-Inv :
      (now : ℕ) (m : TimerManager T) (xs : List (Timer T))
      → m.list ≡ xs
      → Inv memory timeout now m
      → Inv memory timeout now (take_head m xs).1
  unfolding take_head
  take_head-Inv now m [] e v = v
  take_head-Inv now m (x ∷ xs) e v = record {
    sorted = (rw e at v.sorted).1;
    bounded = (rw e at v.bounded).1;
    shared = (rw e at v.shared).1;
  }

  pub takes_first-Inv :
      (now : ℕ) (m : TimerManager T)
      → Inv memory timeout now m
      → Inv memory timeout now (take_first m).1
  unfolding take_first
  takes_first-Inv now m v = take_head-Inv now m m.list refl v
