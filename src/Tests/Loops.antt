-- ===== src/Tests/Loops.antt =====
-- Event loops and servers.
use mathlib.Core.Option
use mathlib.Core.Option.{some-injective}
use network_learn.Base.{
  All, ℕ, suc, ◌+◌, ◌-◌, ◌*◌, ◌%◌, ◌^◌, ◌≤◌, ◌<◌, ◌≡◌, refl, sym, ap, subst, Bool, true, false,
  List, [], ◌∷◌, Option, some, arith, ◌==◌, length,
}
use network_learn.Timer as Timer
use network_learn.Timer.{Timer, find, restart, destory, checkout}
use network_learn.Epoll.{has, insert, erase, sort_items}
use network_learn.Loop.{
  Client, find_client, EventLoop, process_error_queue, close_expired, Round, register, unregister,
}
use network_learn.Loop.Exec.{round, exec, new_loop, destroy}
use network_learn.Loop.Clients.{opened, closed}
use network_learn.Loop.Invariant.{Inv}
use network_learn.Loop.Closing.{Distinct}
use network_learn.Loop.Queue.{Answers}
use network_learn.Loop.Ready.{IsReady}
use network_learn.Loop.Rounds.{AreReady, new_loop-Inv, round-Inv, destroy-exec}
use network_learn.Loop.Paced.{IsPaced, Timed}
use network_learn.Loop.Living.{IsTimed, round_living}
use network_learn.Loop.Timely.{IsTimely, round-IsTimely}
use network_learn.Loop.Count.{failed, unregister_lem}

-- The timeout is 5; the loop has the listeners 1 and 2; a client is kept while its number is 10.
abbrev pub memory : ℕ → ℕ
memory a = 5

abbrev pub keeps_10 : ℕ → ℕ → Option (Bool × ℕ)
keeps_10 i w = some (i == 10, suc w)

abbrev pub listeners : List ℕ
listeners = 1 ∷ 2 ∷ []

abbrev pub fresh_loop : EventLoop ℕ
fresh_loop = new_loop listeners 10 0

-- The listener 1 accepts three clients, the second of which is not valid.
abbrev pub accepting : Round
accepting = record {
  items = record { socket = 1; is_error = false; is_readable = true } ∷ [];
  accepted = λ id.
      record { is_valid = true; time = 1 }
      ∷ record { is_valid = false; time = 2 }
      ∷ record { is_valid = true; time = 3 }
      ∷ [];
  times = λ id. 3;
  end_time = 4;
}

-- The listener 2 fails, and both clients write; the second of them is closed.
abbrev pub talking : Round
talking = record {
  items =
      record { socket = 12; is_error = false; is_readable = true }
      ∷ record { socket = 2; is_error = true; is_readable = true }
      ∷ record { socket = 10; is_error = false; is_readable = true }
      ∷ [];
  accepted = λ id. [];
  times = λ id. 5;
  end_time = 6;
}

-- Nothing happens until the timer of the first client is over.
abbrev pub idle : Round
idle = record { items = []; accepted = λ id. []; times = λ id. 7; end_time = 20 }

pub listeners-Distinct : Distinct listeners
listeners-Distinct = ((omega arith, tt), (tt, tt))

pub listeners_older : (i : ℕ) → has i listeners ≡ true → i < 10
unfolding has
listeners_older i h = ground arith

pub keeps_10-Answers : Answers keeps_10
keeps_10-Answers i w = (i == 10, suc w, refl)

accepting-IsReady : IsReady fresh_loop accepting.items
unfolding register insert
accepting-IsReady = ((tt, tt), (omega arith, tt))

pub rounds_ready : AreReady memory 0 keeps_10 (accepting ∷ talking ∷ idle ∷ []) fresh_loop
unfolding round process_error_queue close_expired register insert erase sort_items Timer.start
    restart destory checkout Option.bind
rounds_ready = (
  accepting-IsReady,
  λ l e. subst (AreReady memory 0 keeps_10 (talking ∷ idle ∷ [])) (some-injective _ _ e) (
    (
      ((omega arith, (omega arith, tt)), ((omega arith, tt), (tt, tt))),
      (omega arith, (omega arith, (omega arith, tt))),
    ),
    λ l' e'. ((tt, tt), λ l'' e''. tt),
  ),
)

pub fresh_loop-Inv : Inv [] fresh_loop
fresh_loop-Inv = new_loop-Inv listeners 10 0 listeners-Distinct listeners_older

destroy-exec_example :
    (l : EventLoop ℕ) × (exec memory 0 keeps_10 (accepting ∷ talking ∷ idle ∷ []) fresh_loop
      ≡ some l)
    × (l' : EventLoop ℕ) × (destroy l ≡ some l')
    × (l'.sockets ≡ [])
    × ((i : ℕ)
        → (opened i l'.reports ≡ opened i l.reports)
          × (opened i l'.reports ≤ 1)
          × (opened i l'.reports ≡ closed i l'.reports))
destroy-exec_example =
    destroy-exec memory 0 keeps_10 listeners 10 0 (accepting ∷ talking ∷ idle ∷ [])
      listeners-Distinct listeners_older keeps_10-Answers rounds_ready

-- The loop with its two clients.
abbrev pub accepted_loop : EventLoop ℕ
accepted_loop = Option.get_or (round memory 0 keeps_10 accepting fresh_loop) fresh_loop

pub accepted_loop-Inv : Inv [] accepted_loop
accepted_loop-Inv =
    let (l, done, v) =
      round-Inv memory 0 keeps_10 accepting fresh_loop keeps_10-Answers accepting-IsReady
        fresh_loop-Inv in
    subst (Inv []) (sym (ap (λ o. Option.get_or o fresh_loop) done)) v

pub accepted_loop-Timed : Timed memory 0 4 accepted_loop
unfolding round process_error_queue close_expired register insert sort_items Timer.start checkout
    Option.bind
accepted_loop-Timed = record {
  sorted = ((omega arith, tt), (tt, tt));
  bounded = (omega arith, (omega arith, tt));
  shared = (refl, (refl, tt));
}

talking-IsReady : IsReady accepted_loop talking.items
unfolding round process_error_queue close_expired register insert sort_items Timer.start checkout
    Option.bind
talking-IsReady = (
  ((omega arith, (omega arith, tt)), ((omega arith, tt), (tt, tt))),
  (omega arith, (omega arith, (omega arith, tt))),
)

talking-IsPaced : IsPaced talking 4 (sort_items talking.items).0
unfolding sort_items
talking-IsPaced = (omega arith, (omega arith, omega arith))

round_living_example :
    (l' : EventLoop ℕ) × (round memory 0 keeps_10 talking accepted_loop ≡ some l')
    × Inv [] l'
    × Timed memory 0 6 l'
    × All (IsTimed memory 0 l' 6) l'.sockets
round_living_example =
    round_living memory 0 keeps_10 talking 4 accepted_loop keeps_10-Answers talking-IsReady
      talking-IsPaced accepted_loop-Inv accepted_loop-Timed

abbrev client_10 : Client
client_10 = record { id = 10; timer = 0 }

abbrev timer_10 : Timer ℕ
timer_10 = record { node = 0; user_data = 10; timeout = 0; deadline = 6 }

client_10-timer :
    (find_client 10 accepted_loop.sockets ≡ some client_10)
    × (find 0 accepted_loop.manager.list ≡ some timer_10)
unfolding round process_error_queue close_expired register insert sort_items Timer.start checkout
    Option.bind find_client find
client_10-timer = (refl, refl)

-- The client 12 writes while the timer of the client 10 runs out.
abbrev other_talks : Round
other_talks = record {
  items = record { socket = 12; is_error = false; is_readable = true } ∷ [];
  accepted = λ id. [];
  times = λ id. 5;
  end_time = 6;
}

other_talks-IsReady : IsReady accepted_loop other_talks.items
unfolding round process_error_queue close_expired register insert sort_items Timer.start checkout
    Option.bind
other_talks-IsReady = ((tt, tt), (omega arith, tt))

other_talks-IsPaced : IsPaced other_talks 4 (sort_items other_talks.items).0
unfolding sort_items
other_talks-IsPaced = (omega arith, omega arith)

round-IsTimely_example :
    (l' : EventLoop ℕ) × (round memory 0 keeps_10 other_talks accepted_loop ≡ some l')
    × Inv [] l'
    × IsTimely 6 10 client_10 timer_10 l'
round-IsTimely_example =
    round-IsTimely memory 0 keeps_10 other_talks 4 10 accepted_loop client_10 timer_10
      keeps_10-Answers other_talks-IsReady other_talks-IsPaced (refl, tt) accepted_loop-Inv
      accepted_loop-Timed client_10-timer.0 client_10-timer.1

-- The loop with the client 10, and without the listener 2.
abbrev talked_loop : EventLoop ℕ
talked_loop = Option.get_or (round memory 0 keeps_10 talking accepted_loop) accepted_loop

talked_loop-Inv : Inv [] talked_loop
talked_loop-Inv =
    let (l, done, v) =
      round-Inv memory 0 keeps_10 talking accepted_loop keeps_10-Answers talking-IsReady
        accepted_loop-Inv in
    subst (Inv []) (sym (ap (λ o. Option.get_or o accepted_loop) done)) v

talked_loop-Distinct : Distinct talked_loop.listeners
unfolding round process_error_queue close_expired register insert erase sort_items Timer.start
    restart destory checkout Option.bind
talked_loop-Distinct = listeners-Distinct

-- One client is there, and the loop ends.
talked_loop-unregister :
    (length talked_loop.sockets ≡ 1)
    × ((unregister talked_loop.listeners talked_loop).epoll.count ≡ 0)
unfolding round process_error_queue close_expired register unregister insert erase sort_items
    Timer.start restart destory checkout Option.bind
talked_loop-unregister = (refl, refl)

unregister_lem_example :
    (talked_loop.epoll.count
      ≡ (length talked_loop.sockets
          + length talked_loop.listeners
          + failed talked_loop.epoll.watched talked_loop.listeners * (2 ^ 32 - 1))
        % 2 ^ 32)
    × ((unregister talked_loop.listeners talked_loop).epoll.count
        ≡ (length talked_loop.sockets
            + failed talked_loop.epoll.watched talked_loop.listeners * (2 ^ 32 - 1))
          % 2 ^ 32)
unregister_lem_example = unregister_lem talked_loop talked_loop-Inv talked_loop-Distinct
