-- ===== src/Timer/Clock/History.antt =====
-- The timers after any history of calls, on a clock that does not go back.
use network_learn.Base.{
  ℕ, ◌+◌, ◌<◌, ◌≡◌, ◌≢◌, refl, subst, true, false, List, [], ◌∷◌, map, some, arith, ltb, ◌==◌,
  Option-cases, inl, inr,
}
use network_learn.Timer.{
  Timer, TimerManager, empty_manager, reset, place, start, find, remove, update, restart_list,
  restart, checkout, take_first,
}
use network_learn.Timer.Order.{IsSorted}
use network_learn.Timer.Expiry.{due, pending, checkout-due}
use network_learn.Timer.Clock.{
  Call, starts, restarts, destroys, checks_out, takes_first, step, run, Inv,
}
use mathlib.Core.Path.{subst₂}
use network_learn.Timer.Clock.Calls.{
  starts-Inv, restarts-Inv, destroys-Inv, checks_out-Inv, takes_first-Inv, later_bounded,
}

module _ {T : Type 0} (memory : ℕ → ℕ) (timeout : ℕ) where
  step-Inv :
      (now : ℕ) (call : Call T) (m m' : TimerManager T)
      → step memory timeout now call m ≡ some m'
      → Inv memory timeout now m
      → Inv memory timeout now m'
  unfolding step
  step-Inv now (starts user_data) m m' e v =
      let same : (start memory now timeout user_data m).0 ≡ m' = cc in
      subst (Inv memory timeout now) same (starts-Inv memory timeout now user_data m v)
  step-Inv now (restarts node) m m' e v = restarts-Inv memory timeout now node m m' e v
  step-Inv now (destroys node) m m' e v = destroys-Inv memory timeout now node m m' e v
  step-Inv now checks_out m m' e v =
      let same : (checkout now [] m).1 ≡ m' = cc in
      subst (Inv memory timeout now) same (checks_out-Inv memory timeout now m v)
  step-Inv now takes_first m m' e v =
      let same : (take_first m).1 ≡ m' = cc in
      subst (Inv memory timeout now) same (takes_first-Inv memory timeout now m v)

  later-Inv :
      (now gap : ℕ) (m : TimerManager T)
      → Inv memory timeout now m
      → Inv memory timeout (now + gap) m
  later-Inv now gap m v = record {
    sorted = v.sorted;
    bounded = later_bounded memory timeout now (now + gap) m.list (omega arith) v.bounded;
    shared = v.shared;
  }

  run-Inv :
      (now : ℕ) (calls : List (ℕ × Call T)) (m : TimerManager T) (end : ℕ) (m' : TimerManager T)
      → run memory timeout now calls m ≡ some (end, m')
      → Inv memory timeout now m
      → Inv memory timeout end m'
  unfolding run
  run-Inv now [] m end m' e v =
      let times : now ≡ end = ground arith in
      let same : m ≡ m' = ground arith in subst₂ (Inv memory timeout) times same v
  run-Inv now ((gap, call) ∷ calls) m end m' e v =
      elim (Option-cases (step memory timeout (now + gap) call m)) [
        | inl fails ↦ absurd (ground arith)
        | inr (next, went) ↦
            run-Inv (now + gap) calls next end m' (rw (run, went) at e)
              (step-Inv (now + gap) call m next went (later-Inv now gap m v))
      ]

  -- After any history of calls for timers of one timeout, on a clock that does not go back, that
  -- never uses an iterator of a timer that is gone, the timers stand in the order of their
  -- deadlines, and `checkout`, at any time, hands over the data of exactly the timers that are
  -- due, in that order, and leaves exactly the others.
  pub run-checkout :
      (now : ℕ) (calls : List (ℕ × Call T)) (end : ℕ) (m : TimerManager T) (later : ℕ)
      → run memory timeout now calls empty_manager ≡ some (end, m)
      → (checkout later [] m
          ≡ (map (λ t. t.user_data) (due later m.list), record m { list = pending later m.list }))
        × IsSorted m.list
  run-checkout now calls end m later e =
      let v =
        run-Inv now calls empty_manager end m e
          (record { sorted = tt; bounded = tt; shared = tt }) in
      (checkout-due later [] m v.sorted, v.sorted)

behind_head :
    {T : Type 0} (x old t : Timer T)
    → (x.node == old.node) ≡ false
    → (old.node == old.node) ≡ true
    → ltb x.deadline t.deadline ≡ false
    → restart_list old.node t (x ∷ old ∷ []) ≡ x ∷ t ∷ []
unfolding restart_list place remove update
behind_head x old t other same late = ground arith

found_second :
    {T : Type 0} (x t : Timer T)
    → (x.node == t.node) ≡ false
    → (t.node == t.node) ≡ true
    → find t.node (x ∷ t ∷ []) ≡ some t
unfolding find
found_second x t other same = ground arith

-- Where the clock has gone back so far that the second of two timers, restarted, is due before
-- the first, `restart` leaves it behind the first, and the timers are out of order.
pub restart_unordered :
    {T : Type 0} (memory : ℕ → ℕ) (now : ℕ) (x t : Timer T) (next : ℕ)
    → x.node ≢ t.node
    → now + memory t.timeout < x.deadline
    → (m : TimerManager T) × (restart memory now t.node
          (record { list = x ∷ t ∷ []; next_node = next })
        ≡ some m)
      × (¬ IsSorted m.list)
unfolding restart
restart_unordered memory now x t next ne before =
    let other : (x.node == t.node) ≡ false = ground arith in
    let same : (t.node == t.node) ≡ true = ground arith in
    let late : ltb x.deadline (now + memory t.timeout) ≡ false = ground arith in
    (
      record { list = x ∷ reset memory now t ∷ []; next_node = next },
      rw
          (
            found_second x t other same,
            restart,
            behind_head x t (reset memory now t) other same late,
          )
          refl,
      λ sorted. omega (arith, sorted.0.0),
    )
