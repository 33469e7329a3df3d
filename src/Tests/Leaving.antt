-- ===== src/Tests/Leaving.antt =====
-- A loop that is asked to leave while it has two clients.
use mathlib.Core.Option
use network_learn.Base.{All, ℕ, ◌≡◌, refl, false, List, [], ◌∷◌, some, arith, length}
use network_learn.Timer as Timer
use network_learn.Timer.{restart, checkout}
use network_learn.Epoll.{insert, sort_items}
use network_learn.Loop.{EventLoop, process_error_queue, close_expired, register, unregister}
use network_learn.Loop.Exec.{round, exec}
use network_learn.Loop.Clients.{opened, closed}
use network_learn.Loop.Invariant.{Inv}
use network_learn.Loop.Closing.{Distinct}
use network_learn.Loop.Count.{failed}
use network_learn.Loop.SlowClose.{exec-unregister}
use network_learn.Server.{Listener, WebServer, ids_of, request_quit, join_all, wait_for_finished}
use network_learn.Server.Life.{IsOver}
use network_learn.Server.SlowClose.{IsServing, IsDeserted, wait_for_finished-request_quit}
use network_learn.Tests.Servers.{two_loops}
use network_learn.Tests.Loops.{
  memory, keeps_10, keeps_10-Answers, listeners-Distinct, accepted_loop, accepted_loop-Inv,
  accepted_loop-Timed, idle,
}

accepted_loop-listeners :
    Distinct accepted_loop.listeners
    × (failed accepted_loop.epoll.watched accepted_loop.listeners ≡ 0)
unfolding round process_error_queue close_expired register insert sort_items Timer.start checkout
    Option.bind
accepted_loop-listeners = (listeners-Distinct, refl)

exec-unregister_example :
    (l' : EventLoop ℕ) × (exec memory 0 keeps_10
        (idle ∷ [])
        (unregister accepted_loop.listeners accepted_loop)
      ≡ some l')
    × Inv [] l'
    × (l'.sockets ≡ [])
    × (l'.epoll.count ≡ 0)
    × ((i : ℕ) → opened i l'.reports ≡ closed i l'.reports)
unfolding round process_error_queue close_expired register insert sort_items Timer.start checkout
    Option.bind
exec-unregister_example =
    exec-unregister memory 0 keeps_10 idle [] 4 accepted_loop keeps_10-Answers accepted_loop-Inv
      accepted_loop-listeners.0 accepted_loop-listeners.1 accepted_loop-Timed (omega arith)
      (refl, omega arith, tt) (omega arith)

-- A server with two such loops.
abbrev busy : WebServer ℕ
busy = record two_loops { loops = accepted_loop ∷ accepted_loop ∷ [] }

busy-IsServing : IsServing memory 0 4 (ids_of busy.listeners) accepted_loop
unfolding round process_error_queue close_expired register insert sort_items Timer.start checkout
    Option.bind
busy-IsServing =
    ((accepted_loop-Inv, refl, accepted_loop-listeners.1), accepted_loop-Timed, omega arith)

wait_for_finished-request_quit_example :
    (ls : List (EventLoop ℕ)) × (join_all memory 0 keeps_10
        (λ k. idle ∷ [])
        0
        (request_quit busy).loops
      ≡ some ls)
    × All IsDeserted ls
    × (ls' : List (EventLoop ℕ)) × (wait_for_finished memory 0 keeps_10
          (λ k. idle ∷ [])
          false
          (request_quit busy)
        ≡ some (ls', record busy { listeners = []; loops = [] }))
    × (length ls' ≡ 2)
    × All IsOver ls'
    × All (λ (x : Listener). x.is_open ≡ false) (request_quit busy).listeners
wait_for_finished-request_quit_example =
    wait_for_finished-request_quit memory 0 keeps_10 (λ k. idle ∷ []) 4 busy keeps_10-Answers
      listeners-Distinct (omega arith) (λ k. ((refl, omega arith, tt), omega arith))
      (busy-IsServing, (busy-IsServing, tt))
