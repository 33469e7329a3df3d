-- ===== src/Timer/Clock.antt =====
-- The timers over a history of calls. The server gives all timers one timeout, by reference.
pub mod Calls
pub mod History
use network_learn.Base.{
  ℕ, zero, suc, ◌+◌, ◌≤◌, ◌<◌, ◌≡◌, ◌≢◌, refl, ap, ◌∙◌, sym, subst, Bool, true, false, List, [],
  ◌∷◌, ◌++◌, map, Option, none, some, arith, ltb, leb, ◌==◌, if◌then◌else◌, Bool-cases,
  Option-cases, inl, inr, All, All-mono, is_empty,
}
use network_learn.Timer.{
  Timer, TimerManager, empty_manager, reset, place, start, find, remove, update, restart_list,
  restart, destory, checkout, take_expired, take_first,
}
use network_learn.Timer.Order.{
  AfterOrAt, NotAfter, IsSorted, place-All, start-IsSorted, remove-All, remove-IsSorted, update-All,
  restart_list-IsSorted,
}
use network_learn.Timer.Expiry.{due, pending, checkout-due}

pub data Call (T : Type 0) : Type 0 where
  starts : T → Call T
  restarts destroys : ℕ → Call T
  checks_out takes_first : Call T

module _ {T : Type 0} (memory : ℕ → ℕ) (timeout : ℕ) where
  -- A call when the clock says `now`; `none` for an iterator that does not point into the list.
  unfoldable pub step : ℕ → Call T → TimerManager T → Option (TimerManager T)
  unfolding start restart destory checkout take_first
  step now (starts user_data) m = some (start memory now timeout user_data m).0
  step now (restarts node) m = restart memory now node m
  step now (destroys node) m = destory node m
  step now checks_out m = some (checkout now [] m).1
  step now takes_first m = some (take_first m).1

  -- A history: each call with the ticks since the call before it. The result has the time of the
  -- last call.
  unfoldable pub run : ℕ → List (ℕ × Call T) → TimerManager T → Option (ℕ × TimerManager T)
  unfolding step
  run now [] m = some (now, m)
  run now ((gap, call) ∷ calls) m = elim (step (now + gap) call m) [
    | none ↦ none
    | some m' ↦ run (now + gap) calls m'
  ]

  pub record Inv (now : ℕ) (m : TimerManager T) : Type 0 where
    pub sorted : IsSorted m.list
    pub bounded : All (NotAfter (now + memory timeout)) m.list
    pub shared : All (λ t. t.timeout ≡ timeout) m.list
