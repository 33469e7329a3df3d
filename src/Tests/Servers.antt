-- ===== src/Tests/Servers.antt =====
-- Servers, and event loops with services.
use mathlib.Core.Option
use mathlib.Core.Option.{some-injective}
use network_learn.Base.{
  if◌then◌else◌, pos, ℕ, zero, suc, ◌≡◌, refl, sym, ap, subst, Bool, true, false, ◌&&◌, List, [],
  ◌∷◌, ◌++◌, Option, some, arith, ◌==◌, leb, length, All, codes,
}
use network_learn.Timer as Timer
use network_learn.Timer.{checkout}
use network_learn.Epoll.{has, insert, sort_items}
use network_learn.Loop.{EventLoop, Round, process_error_queue, close_expired, register}
use network_learn.Loop.Exec.{round, new_loop, process_one}
use network_learn.Loop.Invariant.{Inv}
use network_learn.Loop.Closing.{IsWatched}
use network_learn.Loop.Rounds.{AreReady, new_loop-Inv, round-Inv}
use network_learn.Server.{WebServer, exec_server}
use network_learn.Server.Life.{IsOver, exec_server_lem}
use network_learn.Http.Response.{to_raw_data}
use network_learn.Http.Services.Process.{new_local}
use network_learn.Http.Services.Process.Exchange.{IsClean, times_after, completes, streamed}
use network_learn.Serving.{Thread, process_socket, process_one-Responds}
use network_learn.Loop.Queue.{Answers}
use network_learn.Loop.Ready.{IsReady}
use network_learn.Loop.Effect.{IsKept}
use network_learn.Tests.Requests.{message, message-IsWellFormed}
use network_learn.Tests.Wire.{Wire, wire, wire_delivers}
use network_learn.Tests.Services.{
  services, ready, same_order, req, resp, new_local-IsClean, handled, resp_valid, resp-IsSendable,
}
use network_learn.Tests.Loops.{
  memory, keeps_10, listeners, fresh_loop, accepting, talking, idle, listeners-Distinct,
  listeners_older, keeps_10-Answers, rounds_ready,
}

abbrev pub two_loops : WebServer ℕ
two_loops = record {
  runnable = true;
  loop_count = 2;
  loops = [];
  listeners = record { id = 1; is_open = true } ∷ record { id = 2; is_open = true } ∷ [];
  has_services = true;
}

abbrev pub turns : ℕ → List Round
turns zero = accepting ∷ talking ∷ idle ∷ []
turns (suc k) = []

pub turns_ready : (k : ℕ) → AreReady memory 0 keeps_10 (turns k) fresh_loop
turns_ready zero = rounds_ready
turns_ready (suc k) = tt

exec_server_lem_example :
    (ls : List (EventLoop ℕ)) × (exec_server memory 0 keeps_10 turns true 10 0 two_loops
      ≡ some (pos 0, ls, record two_loops { runnable = false; listeners = []; loops = [] }))
    × (length ls ≡ 2)
    × All IsOver ls
exec_server_lem_example =
    exec_server_lem memory 0 keeps_10 turns 10 0 true two_loops refl refl refl refl
      listeners-Distinct listeners_older keeps_10-Answers turns_ready

-- A loop with two clients that have sent a request.
abbrev thread : Thread Wire
thread = record { local = new_local; connections = λ j. ready }

abbrev lenient : ℕ → Thread Wire → Option (Bool × Thread Wire)
lenient i w = some (true, w)

lenient-Answers : Answers lenient
lenient-Answers i w = (true, w, refl)

abbrev waiting : EventLoop (Thread Wire)
waiting = new_loop listeners 10 thread

waiting-IsReady : IsReady waiting accepting.items
unfolding register insert
waiting-IsReady = ((tt, tt), (omega arith, tt))

abbrev serving : EventLoop (Thread Wire)
serving = Option.get_or (round memory 0 lenient accepting waiting) waiting

serving-Inv : Inv [] serving
serving-Inv =
    let (l, done, v) =
      round-Inv memory 0 lenient accepting waiting lenient-Answers waiting-IsReady
        (new_loop-Inv listeners 10 thread listeners-Distinct listeners_older) in
    subst (Inv []) (sym (ap (λ o. Option.get_or o waiting) done)) v

serving-IsWatched :
    (serving.world ≡ thread) × (has 10 serving.listeners ≡ false) × IsWatched serving 10
unfolding round process_error_queue close_expired register insert sort_items Timer.start checkout
    Option.bind
serving-IsWatched = (refl, refl, omega arith)

process_one-Responds_example :
    (l' : EventLoop (Thread Wire)) × (process_one memory 0
        (process_socket wire services (codes "now") same_order 200)
        talking
        10
        serving
      ≡ some l')
    × Inv [] l'
    × IsClean l'.world.local
    × ((l'.world.connections 10).channel.output
        ≡ ((serving.world.connections 10).channel.output
            ++ to_raw_data (codes "now") same_order resp [])
          ++ streamed resp.body)
    × ((l'.world.connections 10).channel.input ≡ [])
    × ((j : ℕ)
        → l'.world.connections j
          ≡ (if j == 10 then l'.world.connections 10 else serving.world.connections j))
    × IsKept 10
        (completes resp.body
          && (resp.is_keep_alive
              && leb
                  (times_after services (serving.world.connections 10).times)
                  services.max_times))
        serving
        l'
unfolding round process_error_queue close_expired register insert sort_items Timer.start checkout
    Option.bind
process_one-Responds_example =
    process_one-Responds wire wire_delivers services (codes "now") same_order 200 memory 0 talking
      10 serving message req resp serving-Inv serving-IsWatched.1 serving-IsWatched.2
      new_local-IsClean message-IsWellFormed refl (omega arith) handled resp_valid resp-IsSendable
