-- ===== src/Tests/Timers.antt =====
-- Timers.
use network_learn.Base.{ℕ, ◌≡◌, refl, List, [], ◌∷◌, ◌++◌, map, some, arith}
use network_learn.Timer.{Timer, TimerManager, empty_manager, start, restart, destory, checkout}
use network_learn.Timer.Order.{IsSorted}
use network_learn.Timer.Expiry.{due, pending, checkout-due}
use network_learn.Timer.Clock.{Call, starts, restarts, destroys, run}
use network_learn.Timer.Clock.History.{run-checkout, restart_unordered}

-- All timers have the timeout at address 0, which is 500 ticks.
abbrev memory : ℕ → ℕ
memory address = 500

abbrev first : Timer ℕ
first = record { node = 0; user_data = 7; timeout = 0; deadline = 600 }

abbrev second : Timer ℕ
second = record { node = 1; user_data = 8; timeout = 0; deadline = 610 }

abbrev two : TimerManager ℕ
two = record { list = first ∷ second ∷ []; next_node = 2 }

two-IsSorted : IsSorted two.list
two-IsSorted = ((omega arith, tt), (tt, tt))

checkout-due_example :
    checkout 605 [] two
    ≡ ([] ++ map (λ t. t.user_data) (due 605 two.list), record two { list = pending 605 two.list })
checkout-due_example = checkout-due 605 [] two two-IsSorted

-- Two timers start, the first one is restarted, and a third one starts and is destroyed.
abbrev calls : List (ℕ × Call ℕ)
calls = (0, starts 7) ∷ (10, starts 8) ∷ (10, restarts 0) ∷ (1, starts 9) ∷ (1, destroys 2) ∷ []

abbrev ended : TimerManager ℕ
ended = record { list = second ∷ record first { deadline = 620 } ∷ []; next_node = 3 }

history_lem : run memory 0 100 calls empty_manager ≡ some (122, ended)
unfolding run start restart destory
history_lem = refl

run-checkout_example :
    (checkout 615 [] ended ≡ (
      map (λ t. t.user_data) (due 615 ended.list),
      record ended { list = pending 615 ended.list },
    ))
    × IsSorted ended.list
run-checkout_example = run-checkout memory 0 100 calls 122 ended 615 history_lem

-- Restarted when the clock says 20, after it has said 110.
restart_unordered_example :
    (m : TimerManager ℕ) × (restart memory 20 1 two ≡ some m) × (¬ IsSorted m.list)
restart_unordered_example = restart_unordered memory 20 first second 2 (λ e. cc) (omega arith)
