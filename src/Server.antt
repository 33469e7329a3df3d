-- ===== src/Server.antt =====
-- `WebServer` of webserver.h and webserver.cpp. Each event loop has a thread of its own, and shares with
-- the others only the listeners; so the loops are run one after the other.
pub mod Life
pub mod SlowClose
use mathlib.Core.Option
use network_learn.Base.{
  ℤ, pos, negsuc, ℕ, zero, suc, Bool, true, false, not, ◌&&◌, ◌||◌, List, [], ◌∷◌, ◌++◌, map,
  Option, none, some, ◌==◌, ltb, if◌then◌else◌, length, is_empty,
}
use network_learn.Loop.{EventLoop, Round, register, unregister}
use network_learn.Loop.Exec.{exec, new_loop, destroy}

pub record Listener : Type 0 where
  pub id : ℕ
  pub is_open : Bool

-- `has_services`: whether `m_services` is set.
pub record WebServer (W : Type 0) : Type 0 where
  pub runnable : Bool
  pub loop_count : ℕ
  pub loops : List (EventLoop W)
  pub listeners : List Listener
  pub has_services : Bool

abbrev pub ids_of : List Listener → List ℕ
ids_of ls = map (λ x. x.id) ls

-- `setLoopCount`, on a machine with `hardware` threads.
unfoldable pub set_loop_count : {W : Type 0} → ℕ → ℕ → WebServer W → WebServer W
set_loop_count hardware count s = record s { loop_count = if ltb 0 count then count else hardware }

-- `setServices`, with a pointer that may be null.
abbrev pub set_services : {W : Type 0} → Bool → WebServer W → WebServer W
set_services is_set s = record s { has_services = is_set }

-- `listen`: whether there is SSL, and whether the socket that is made listens.
unfoldable pub listen : {W : Type 0} → Bool → Bool → Bool → ℕ → WebServer W → Bool × WebServer W
listen is_ssl_available ssl_enable listens id s =
    if ssl_enable && not is_ssl_available
    then (false, s)
    else if listens
    then (true, record s { listeners = s.listeners ++ record { id = id; is_open = true } ∷ [] })
    else (false, s)

-- `next_id` is what the allocator gives a loop first, and `world` what `process` finds there.
module _ {W : Type 0} (next_id : ℕ) (world : W) where
  pub new_loops : ℕ → List ℕ → List (EventLoop W)
  new_loops zero ids = []
  new_loops (suc n) ids = new_loop ids next_id world ∷ new_loops n ids

  unfoldable pub start : WebServer W → ℤ × WebServer W
  unfolding new_loops
  start s =
      if is_empty s.listeners || not s.has_services || not (is_empty s.loops) || s.loop_count == 0
      then (negsuc 0, s)
      else (
        pos 0,
        record s { runnable = true; loops = new_loops s.loop_count (ids_of s.listeners) },
      )

module _ {W : Type 0} where
  abbrev pub quit : WebServer W → WebServer W
  quit s = record s { runnable = false }

  unfoldable pub request_quit : WebServer W → WebServer W
  request_quit s = record s {
    loops = map (unregister (ids_of s.listeners)) s.loops;
    listeners = map (λ x. record { id = x.id; is_open = false }) s.listeners;
  }

  -- `m_loops.clear()`.
  pub destroy_all : List (EventLoop W) → Option (List (EventLoop W))
  destroy_all [] = some []
  destroy_all (l ∷ ls) =
      Option.bind (destroy l) (λ l'. Option.map (λ ls'. l' ∷ ls') (destroy_all ls))

-- `rounds k` is what the system answers the loop `k`, to its end or until `m_runnable` is cleared; `quits`:
-- whether it is cleared.
module _ {W : Type 0} (memory : ℕ → ℕ) (timeout : ℕ) (process : ℕ → W → Option (Bool × W))
    (rounds : ℕ → List Round) where
  pub join_all : ℕ → List (EventLoop W) → Option (List (EventLoop W))
  join_all k [] = some []
  join_all k (l ∷ ls) =
      Option.bind (exec memory timeout process (rounds k) l)
        (λ l'. Option.map (λ ls'. l' ∷ ls') (join_all (suc k) ls))

  -- What is left of the loops is their reports.
  unfoldable pub wait_for_finished : Bool → WebServer W → Option (List (EventLoop W) × WebServer W)
  unfolding join_all destroy_all
  wait_for_finished quits s =
      Option.map
        (λ ls. (ls, record s { runnable = s.runnable && not quits; listeners = []; loops = [] }))
        (Option.bind (join_all 0 s.loops) destroy_all)

  -- What `exec` does with the result of `start`.
  pub after_start : Bool → ℤ × WebServer W → Option (ℤ × List (EventLoop W) × WebServer W)
  unfolding wait_for_finished
  after_start quits (pos zero, s) =
      Option.map (λ (p : List (EventLoop W) × WebServer W). (pos 0, p.0, p.1))
        (wait_for_finished quits s)
  after_start quits (ret, s) = some (ret, [], s)

  unfoldable pub exec_server :
      Bool → ℕ → W → WebServer W → Option (ℤ × List (EventLoop W) × WebServer W)
  unfolding start after_start
  exec_server quits next_id world s = after_start quits (start next_id world s)
