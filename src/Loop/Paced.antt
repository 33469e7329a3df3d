-- ===== src/Loop/Paced.antt =====
-- The timers of an event loop through a round, on a clock that does not go back.
use mathlib.Core.Option
use network_learn.Base.{
  ℕ, ◌≤◌, ◌≡◌, ap, subst, Bool, true, false, List, [], ◌∷◌, Option, none, some, arith,
  if◌then◌else◌, Bool-cases, Option-cases, inl, inr,
}
use network_learn.Timer.{TimerManager, restart, destory}
use network_learn.Timer.Clock as Clock
use network_learn.Timer.Clock.Calls.{starts-Inv, restarts-Inv, destroys-Inv, later_bounded}
use network_learn.Epoll.{has}
use network_learn.Loop.{
  Client, EventLoop, Accepted, Round, find_client, close_client, error_one, process_error_queue,
}
use network_learn.Loop.Exec.{accept_one, accept_all, after_process, process_one, process_queue}

-- The times at which a listener accepts, between two others.
abbrev pub Chain : ℕ → List Accepted → ℕ → Type 0
Chain now [] end = now ≤ end
Chain now (a ∷ as') end = (now ≤ a.time) × Chain a.time as' end

-- The times of a round, in the order of its events.
abbrev pub IsPaced : Round → ℕ → List ℕ → Type 0
IsPaced r now [] = now ≤ r.end_time
IsPaced r now (i ∷ is) = Chain now (r.accepted i) (r.times i) × IsPaced r (r.times i) is

Chain-le : (now : ℕ) (as' : List Accepted) (end : ℕ) → Chain now as' end → now ≤ end
Chain-le now [] end h = h
Chain-le now (a ∷ as') end h = omega (arith, h.0, Chain-le a.time as' end h.1)

module _ {W : Type 0} where
  abbrev pub manager_of : EventLoop W → Option (EventLoop W) → TimerManager ℕ
  manager_of l o = (Option.get_or o l).manager

module _ {W : Type 0} (memory : ℕ → ℕ) (timeout : ℕ) where
  abbrev pub Timed : ℕ → EventLoop W → Type 0
  Timed now l = Clock.Inv memory timeout now l.manager

  pub later-Timed : (now now' : ℕ) (l : EventLoop W) → now ≤ now' → Timed now l → Timed now' l
  later-Timed now now' l h v = record {
    sorted = v.sorted;
    bounded = later_bounded memory timeout now now' l.manager.list h v.bounded;
    shared = v.shared;
  }

  accept_one-Timed :
      (a : Accepted) (now : ℕ) (l : EventLoop W)
      → now ≤ a.time
      → Timed now l
      → Timed a.time (accept_one memory timeout a l)
  unfolding accept_one
  accept_one-Timed a now l h v =
      let v1 = later-Timed now a.time l h v in
      elim (Bool-cases a.is_valid) [
        | inl valid ↦
            rw (valid, if◌then◌else◌) (starts-Inv memory timeout a.time l.next_id l.manager v1)
        | inr invalid ↦ rw (invalid, if◌then◌else◌) v1
      ]

  accept_all-Timed :
      (as' : List Accepted) (now end : ℕ) (l : EventLoop W)
      → Chain now as' end
      → Timed now l
      → Timed end (accept_all memory timeout as' l)
  unfolding accept_all
  accept_all-Timed [] now end l h v = later-Timed now end l h v
  accept_all-Timed (a ∷ as') now end l h v =
      accept_all-Timed as' a.time end (accept_one memory timeout a l) h.1
        (accept_one-Timed a now l h.0 v)

  close_client-Timed :
      (now : ℕ) (c : Client) (l l' : EventLoop W)
      → close_client c l ≡ some l'
      → Timed now l
      → Timed now l'
  unfolding close_client
  close_client-Timed now c l l' e v = elim (Option-cases (destory c.timer l.manager)) [
    | inl missed ↦ absurd (ground arith)
    | inr (m, done) ↦
        let same : m ≡ l'.manager = ap (manager_of l) (rw done at e) in
        subst (Clock.Inv memory timeout now) same
          (destroys-Inv memory timeout now c.timer l.manager m done v)
  ]

  error_one-Timed :
      (now i : ℕ) (l l' : EventLoop W) → error_one i l ≡ some l' → Timed now l → Timed now l'
  unfolding error_one Option.bind
  error_one-Timed now i l l' e v = elim (Bool-cases (has i l.listeners)) [
    | inl listener ↦
        let same : l.manager ≡ l'.manager = ap (manager_of l) (rw listener at e) in
        subst (Clock.Inv memory timeout now) same v
    | inr client ↦ elim (Option-cases (find_client i l.sockets)) [
      | inl missed ↦ absurd (ground arith)
      | inr (c, found) ↦ close_client-Timed now c l l' (rw (client, found) at e) v
    ]
  ]

  pub process_error_queue-Timed :
      (now : ℕ) (is : List ℕ) (l l' : EventLoop W)
      → process_error_queue is l ≡ some l'
      → Timed now l
      → Timed now l'
  unfolding process_error_queue Option.bind
  process_error_queue-Timed now [] l l' e v =
      subst (Clock.Inv memory timeout now) (ap (manager_of l) e) v
  process_error_queue-Timed now (i ∷ is) l l' e v = elim (Option-cases (error_one i l)) [
    | inl missed ↦ absurd (ground arith)
    | inr (l1, done) ↦
        process_error_queue-Timed now is l1 l' (rw done at e) (error_one-Timed now i l l1 done v)
  ]

module _ {W : Type 0} (memory : ℕ → ℕ) (timeout : ℕ) (process : ℕ → W → Option (Bool × W)) where
  after_process-Timed :
      (now : ℕ) (c : Client) (l l' : EventLoop W) (answer : Option (Bool × W))
      → after_process memory timeout process now c l answer ≡ some l'
      → Timed memory timeout now l
      → Timed memory timeout now l'
  unfolding after_process
  after_process-Timed now c l l' none e v = absurd (ground arith)
  after_process-Timed now c l l' (some (false, w)) e v =
      close_client-Timed memory timeout now c (record l { world = w }) l' e v
  after_process-Timed now c l l' (some (true, w)) e v =
      elim (Option-cases (restart memory now c.timer l.manager)) [
        | inl missed ↦ absurd (ground arith)
        | inr (m, done) ↦
            let same : m ≡ l'.manager = ap (manager_of l) (rw done at e) in
            subst (Clock.Inv memory timeout now) same
              (restarts-Inv memory timeout now c.timer l.manager m done v)
      ]

  process_one-Timed :
      (r : Round) (now i : ℕ) (l l' : EventLoop W)
      → process_one memory timeout process r i l ≡ some l'
      → Chain now (r.accepted i) (r.times i)
      → Timed memory timeout now l
      → Timed memory timeout (r.times i) l'
  unfolding process_one Option.bind
  process_one-Timed r now i l l' e h v = elim (Bool-cases (has i l.listeners)) [
    | inl listener ↦
        let same : (accept_all memory timeout (r.accepted i) l).manager ≡ l'.manager =
          ap (manager_of l) (rw listener at e) in
        subst (Clock.Inv memory timeout (r.times i)) same
          (accept_all-Timed memory timeout (r.accepted i) now (r.times i) l h v)
    | inr client ↦ elim (Option-cases (find_client i l.sockets)) [
      | inl missed ↦ absurd (ground arith)
      | inr (c, found) ↦
          after_process-Timed (r.times i) c l l' (process i l.world) (rw (client, found) at e) (
            later-Timed memory timeout now (r.times i) l (Chain-le now (r.accepted i) (r.times i) h)
              v)
    ]
  ]

  pub process_queue-Timed :
      (r : Round) (is : List ℕ) (now : ℕ) (l l' : EventLoop W)
      → process_queue memory timeout process r is l ≡ some l'
      → IsPaced r now is
      → Timed memory timeout now l
      → Timed memory timeout r.end_time l'
  unfolding process_queue Option.bind
  process_queue-Timed r [] now l l' e h v =
      subst (Clock.Inv memory timeout r.end_time) (ap (manager_of l) e)
        (later-Timed memory timeout now r.end_time l h v)
  process_queue-Timed r (i ∷ is) now l l' e h v =
      elim (Option-cases (process_one memory timeout process r i l)) [
        | inl missed ↦ absurd (ground arith)
        | inr (l1, done) ↦
            process_queue-Timed r is (r.times i) l1 l' (rw done at e) h.1
              (process_one-Timed r now i l l1 done h.0 v)
      ]
