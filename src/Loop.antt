-- ===== src/Loop.antt =====
-- `EventLoop` of core/eventloop.h and core/eventloop.cpp. A socket is an
-- object with a number of its own; `sockets` are the clients that are allocated and not deleted. A call
-- that follows a pointer to a deleted socket, or an iterator of a timer that is gone, is `none`.
pub mod Exec
pub mod Clients
pub mod Invariant
pub mod Closing
pub mod Timeouts
pub mod Accepting
pub mod Queue
pub mod Ready
pub mod Rounds
pub mod Paced
pub mod Living
pub mod Idle
pub mod Unheard
pub mod Timely
pub mod Count
pub mod Effect
pub mod Leaving
pub mod SlowClose
use mathlib.Core.Option
use network_learn.Base.{
  ℕ, zero, suc, Bool, true, false, List, [], ◌∷◌, ◌++◌, Option, none, some, ◌==◌, if◌then◌else◌,
  length,
}
use network_learn.Timer as Timer
use network_learn.Timer.{TimerManager, empty_manager, restart, destory, checkout, take_first}
use network_learn.Epoll.{Epoll, new_epoll, Item, has, insert, erase, sort_items}

-- A client, with the iterator that `setTimer` keeps.
pub record Client : Type 0 where
  pub id : ℕ
  pub timer : ℕ

-- What `m_handler` is called with: the states of a `ConnectEvent`, and the error of an
-- `ExceptionEvent` that the loop reports.
pub data Report : Type 0 where
  accepts closes : ℕ → Report
  listener_error : Report

-- `next_id` is what the allocator gives next; `world` is what `process` reads and changes.
pub record EventLoop (W : Type 0) : Type 0 where
  pub listeners : List ℕ
  pub sockets : List Client
  pub next_id : ℕ
  pub epoll : Epoll
  pub manager : TimerManager ℕ
  pub reports : List Report
  pub world : W

-- A descriptor that `accept` gives: whether the new client is valid, and the time when its timer
-- starts.
pub record Accepted : Type 0 where
  pub is_valid : Bool
  pub time : ℕ

-- What the system answers in one round: the events, the descriptors that a listener accepts before
-- there is none, the time when a client's timer restarts, and that of the end of the round.
pub record Round : Type 0 where
  pub items : List Item
  pub accepted : ℕ → List Accepted
  pub times : ℕ → ℕ
  pub end_time : ℕ

unfoldable pub find_client : ℕ → List Client → Option Client
find_client id [] = none
find_client id (c ∷ cs) = if c.id == id then some c else find_client id cs

-- `delete`.
pub delete : ℕ → List Client → List Client
delete id [] = []
delete id (c ∷ cs) = if c.id == id then cs else c ∷ delete id cs

module _ {W : Type 0} where
  abbrev pub report : Report → EventLoop W → EventLoop W
  report r l = record l { reports = l.reports ++ r ∷ [] }

  -- `registerListeners`, and `unregisterListeners`, over the listeners.
  unfoldable pub register : List ℕ → EventLoop W → EventLoop W
  register [] l = l
  register (x ∷ xs) l = register xs (record l { epoll = insert x l.epoll })

  unfoldable pub unregister : List ℕ → EventLoop W → EventLoop W
  unregister [] l = l
  unregister (x ∷ xs) l = unregister xs (record l { epoll = erase x l.epoll })

  -- What both `processQueue` and `processErrorQueue` do with a client that is over.
  pub close_client : Client → EventLoop W → Option (EventLoop W)
  unfolding delete
  close_client c l =
      Option.map
        (λ m. record l {
          reports = l.reports ++ closes c.id ∷ [];
          epoll = erase c.id l.epoll;
          manager = m;
          sockets = delete c.id l.sockets;
        })
        (destory c.timer l.manager)

  -- `processErrorQueue`.
  pub error_one : ℕ → EventLoop W → Option (EventLoop W)
  unfolding close_client find_client
  error_one id l =
      if has id l.listeners
      then some (report listener_error (record l { epoll = erase id l.epoll }))
      else Option.bind (find_client id l.sockets) (λ c. close_client c l)

  unfoldable pub process_error_queue : List ℕ → EventLoop W → Option (EventLoop W)
  unfolding error_one
  process_error_queue [] l = some l
  process_error_queue (id ∷ ids) l = Option.bind (error_one id l) (process_error_queue ids)

  -- `processTimeoutQueue`, and the destructor: the timer of the client is gone already.
  pub timeout_one : ℕ → EventLoop W → Option (EventLoop W)
  unfolding find_client delete
  timeout_one id l =
      Option.map
        (λ (c : Client). record l {
          epoll = erase c.id l.epoll;
          reports = l.reports ++ closes c.id ∷ [];
          sockets = delete c.id l.sockets;
        })
        (find_client id l.sockets)

  pub process_timeout_queue : List ℕ → EventLoop W → Option (EventLoop W)
  unfolding timeout_one
  process_timeout_queue [] l = some l
  process_timeout_queue (id ∷ ids) l = Option.bind (timeout_one id l) (process_timeout_queue ids)

  -- `m_manager.checkout(m_errorQueue)` and what follows it.
  unfoldable pub close_expired : ℕ → EventLoop W → Option (EventLoop W)
  unfolding process_timeout_queue
  close_expired now l =
      let (ids, m) = checkout now [] l.manager in
      process_timeout_queue ids (record l { manager = m })
