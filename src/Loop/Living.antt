-- ===== src/Loop/Living.antt =====
-- The clients that a round leaves.
use mathlib.Core.Option
use network_learn.Base.{
  ℕ, ◌+◌, ◌≤◌, ◌<◌, ◌≡◌, ap, subst, ◌∙◌, Bool, List, [], ◌∷◌, Option, some, arith, Option-cases,
  inl, inr, All, All-mono,
}
use network_learn.Timer.{Timer, TimerManager, checkout, find}
use network_learn.Timer.Order.{NotAfter}
use network_learn.Timer.Expiry.{left_later}
use network_learn.Timer.Clock as Clock
use network_learn.Timer.Clock.Calls.{checks_out-Inv, find-All}
use network_learn.Timer.Tally.{find-tally}
use network_learn.Epoll.{sort_items}
use network_learn.Loop.{
  Client, EventLoop, Round, find_client, timeout_one, process_timeout_queue, close_expired,
  process_error_queue,
}
use network_learn.Loop.Exec.{process_queue, round}
use network_learn.Loop.Clients.{owned}
use network_learn.Loop.Invariant.{Inv}
use network_learn.Loop.Paced.{
  IsPaced, Timed, process_error_queue-Timed, process_queue-Timed, manager_of,
}
use network_learn.Loop.Queue.{Answers}
use network_learn.Loop.Ready.{IsReady}
use network_learn.Loop.Rounds.{round-Inv}

owned_within :
    (all_of cs : List Client)
    → ((n i : ℕ) → owned n i cs ≤ owned n i all_of)
    → All (λ c. 1 ≤ owned c.timer c.id all_of) cs
owned_within all_of [] h = tt
owned_within all_of (c ∷ cs) h =
    (ground (arith, h c.timer c.id), owned_within all_of cs (λ n i. omega (arith, h n i)))

module _ {W : Type 0} where
  timeout_one-manager :
      (i : ℕ) (l l' : EventLoop W) → timeout_one i l ≡ some l' → l.manager ≡ l'.manager
  unfolding timeout_one
  timeout_one-manager i l l' e = elim (Option-cases (find_client i l.sockets)) [
    | inl missed ↦ absurd (ground arith)
    | inr (c, found) ↦ ap (manager_of l) (rw found at e)
  ]

  pub process_timeout_queue-manager :
      (is : List ℕ) (l l' : EventLoop W)
      → process_timeout_queue is l ≡ some l'
      → l.manager ≡ l'.manager
  unfolding process_timeout_queue Option.bind
  process_timeout_queue-manager [] l l' e = ap (manager_of l) e
  process_timeout_queue-manager (i ∷ is) l l' e = elim (Option-cases (timeout_one i l)) [
    | inl missed ↦ absurd (ground arith)
    | inr (l1, done) ↦
        timeout_one-manager i l l1 done ∙ process_timeout_queue-manager is l1 l' (rw done at e)
  ]

module _ {W : Type 0} (memory : ℕ → ℕ) (timeout : ℕ) where
  -- The timer of a client is due after the time and within the timeout.
  abbrev pub IsTimed : EventLoop W → ℕ → Client → Type 0
  IsTimed l now c =
      (t : Timer ℕ) × (find c.timer l.manager.list ≡ some t)
      × (now < t.deadline)
      × (t.deadline ≤ now + memory timeout)

  pub close_expired-Timed :
      (now : ℕ) (l l' : EventLoop W)
      → close_expired now l ≡ some l'
      → Timed memory timeout now l
      → Timed memory timeout now l' × All (λ t. now < t.deadline) l'.manager.list
  unfolding close_expired checkout
  close_expired-Timed now l l' e v =
      let (ids, m) = checkout now [] l.manager in
      let same : m ≡ l'.manager =
        process_timeout_queue-manager ids (record l { manager = m }) l' e in
      (
        subst (Clock.Inv memory timeout now) same (checks_out-Inv memory timeout now l.manager v),
        subst (λ (m : TimerManager ℕ). All (λ t. now < t.deadline) m.list) same
            (left_later now l.manager.list v.sorted),
      )

module _ {W : Type 0} (memory : ℕ → ℕ) (timeout : ℕ) (process : ℕ → W → Option (Bool × W)) where
  pub round-Timed :
      (r : Round) (now : ℕ) (l l' : EventLoop W)
      → round memory timeout process r l ≡ some l'
      → IsPaced r now (sort_items r.items).0
      → Timed memory timeout now l
      → Timed memory timeout r.end_time l' × All (λ t. r.end_time < t.deadline) l'.manager.list
  unfolding round Option.bind
  round-Timed r now l l' e h v =
      let (events, errors) = sort_items r.items in
      elim (Option-cases (process_queue memory timeout process r events l)) [
        | inl missed ↦ absurd (ground arith)
        | inr (l1, done) ↦ elim (Option-cases (process_error_queue errors l1)) [
          | inl missed ↦ absurd (ground arith)
          | inr (l2, done') ↦
              close_expired-Timed memory timeout r.end_time l2 l' (rw (done, done') at e) (
                process_error_queue-Timed memory timeout r.end_time errors l1 l2 done'
                  (process_queue-Timed memory timeout process r events now l l1 done h v))
        ]
      ]

  -- Where `process` always returns, a round that answers sockets that are watched, each once, at times
  -- that do not go back, on a loop that keeps its invariants and those of its timers, returns and keeps
  -- them. Each client that is left then has a timer, which is due after the end of the round and no
  -- later than the timeout after it: whoever was not heard of for longer is closed.
  pub round_living :
      (r : Round) (now : ℕ) (l : EventLoop W)
      → Answers process
      → IsReady l r.items
      → IsPaced r now (sort_items r.items).0
      → Inv [] l
      → Timed memory timeout now l
      → (l' : EventLoop W) × (round memory timeout process r l ≡ some l')
        × Inv [] l'
        × Timed memory timeout r.end_time l'
        × All (IsTimed memory timeout l' r.end_time) l'.sockets
  round_living r now l answers ready paced v timed =
      let (l', done, v') = round-Inv memory timeout process r l answers ready v in
      let (timed', left) = round-Timed r now l l' done paced timed in
      (
        l',
        done,
        v',
        timed',
        All-mono (λ c. 1 ≤ owned c.timer c.id l'.sockets) (IsTimed memory timeout l' r.end_time)
            l'.sockets
            (λ c counted.
              let (t, is_there) =
                find-tally c.timer c.id l'.manager.list
                  (omega (arith, counted, v'.owns.matched c.timer c.id)) in
              (
                t,
                is_there,
                find-All memory timeout (λ t. r.end_time < t.deadline) c.timer l'.manager.list t
                    is_there left,
                find-All memory timeout (NotAfter (r.end_time + memory timeout)) c.timer
                    l'.manager.list t is_there timed'.bounded,
              ))
            (owned_within l'.sockets l'.sockets (λ n i. omega arith)),
      )
