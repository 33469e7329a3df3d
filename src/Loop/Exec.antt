-- ===== src/Loop/Exec.antt =====
-- `processQueue`, `exec` and the destructor of core/eventloop.cpp.
use mathlib.Core.Option
use network_learn.Base.{
  ℕ, zero, suc, Bool, true, false, List, [], ◌∷◌, ◌++◌, Option, none, some, ◌==◌, if◌then◌else◌,
  length,
}
use network_learn.Timer as Timer
use network_learn.Timer.{TimerManager, empty_manager, restart, take_first}
use network_learn.Epoll.{new_epoll, has, insert, sort_items}
use network_learn.Loop.{
  Client, accepts, closes, EventLoop, Accepted, Round, find_client, delete, close_client,
  process_error_queue, close_expired, register,
}

-- `memory` and `timeout` are those of the timers.
module _ {W : Type 0} (memory : ℕ → ℕ) (timeout : ℕ) where
  -- The loop over `accept`, for the descriptors that it gives before an invalid one. A client that is
  -- not valid is deleted at once.
  unfoldable pub accept_one : Accepted → EventLoop W → EventLoop W
  accept_one a l =
      let (m, node) = Timer.start memory a.time timeout l.next_id l.manager in
      if a.is_valid
      then record l {
        sockets = record { id = l.next_id; timer = node } ∷ l.sockets;
        next_id = suc l.next_id;
        epoll = insert l.next_id l.epoll;
        manager = m;
        reports = l.reports ++ accepts l.next_id ∷ [];
      }
      else record l { next_id = suc l.next_id }

  unfoldable pub accept_all : List Accepted → EventLoop W → EventLoop W
  unfolding accept_one
  accept_all [] l = l
  accept_all (a ∷ as') l = accept_all as' (accept_one a l)

-- `process` is `m_services->process`, and `none` where it throws.
module _ {W : Type 0} (memory : ℕ → ℕ) (timeout : ℕ) (process : ℕ → W → Option (Bool × W)) where
  -- What follows `process`: `restart` for a client that is kept.
  unfoldable pub after_process : ℕ → Client → EventLoop W → Option (Bool × W) → Option (EventLoop W)
  after_process now c l none = none
  after_process now c l (some (true, w)) =
      Option.map (λ m. record l { manager = m; world = w }) (restart memory now c.timer l.manager)
  after_process now c l (some (false, w)) = close_client c (record l { world = w })

  unfoldable pub process_one : Round → ℕ → EventLoop W → Option (EventLoop W)
  unfolding accept_all after_process
  process_one r id l =
      if has id l.listeners
      then some (accept_all memory timeout (r.accepted id) l)
      else Option.bind (find_client id l.sockets)
          (λ c. after_process (r.times id) c l (process id l.world))

  unfoldable pub process_queue : Round → List ℕ → EventLoop W → Option (EventLoop W)
  unfolding process_one
  process_queue r [] l = some l
  process_queue r (id ∷ ids) l = Option.bind (process_one r id l) (process_queue r ids)

  -- One round of the loop of `exec`.
  unfoldable pub round : Round → EventLoop W → Option (EventLoop W)
  unfolding process_queue
  round r l =
      let (events, error_events) = sort_items r.items in
      Option.bind (process_queue r events l)
        (λ l1. Option.bind (process_error_queue error_events l1) (close_expired r.end_time))

  -- `exec`, until `m_runnable` is cleared behind the last round of the list.
  unfoldable pub exec : List Round → EventLoop W → Option (EventLoop W)
  unfolding round
  exec [] l = some l
  exec (r ∷ rs) l = elim (l.epoll.count == 0) [
    | true ↦ some l
    | false ↦ Option.bind (round r l) (exec rs)
  ]

module _ {W : Type 0} where
  -- A new loop with its listeners.
  abbrev pub new_loop : List ℕ → ℕ → W → EventLoop W
  new_loop listeners next_id w = register listeners (record {
    listeners = listeners;
    sockets = [];
    next_id = next_id;
    epoll = new_epoll;
    manager = empty_manager;
    reports = [];
    world = w;
  })

  -- The loop of the destructor; each round takes a timer, so the fuel is enough.
  unfoldable pub drain : ℕ → EventLoop W → Option (EventLoop W)
  drain zero l = none
  drain (suc fuel) l =
      let (first, m) = take_first l.manager in
      elim first [
        | none ↦ some l
        | some id ↦ Option.bind (find_client id l.sockets) (λ (c : Client). drain fuel (record l {
          manager = m;
          reports = l.reports ++ closes c.id ∷ [];
          sockets = delete c.id l.sockets;
        }))
      ]

  unfoldable pub destroy : EventLoop W → Option (EventLoop W)
  unfolding drain
  destroy l = drain (suc (length l.manager.list)) l
