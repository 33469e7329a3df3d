-- ===== src/Loop/Timely.antt =====
-- When a client of which no event comes is closed.
use mathlib.Core.Option
use mathlib.Core.Option.{some-injective}
use network_learn.Base.{
  ℕ, ◌≤◌, ◌<◌, ◌≡◌, ◌≢◌, ap, subst, Bool, false, List, [], ◌∷◌, map, Option, some, arith, ◌==◌, leb,
  if◌then◌else◌, Bool-cases, inl, inr, All,
}
use network_learn.Timer.{Timer, TimerManager, find, checkout}
use network_learn.Timer.Tally.{tally}
use network_learn.Timer.Unmoved.{find-take_expired}
use network_learn.Epoll.{Item, sort_items}
use network_learn.Loop.{Client, EventLoop, Round, find_client, close_expired}
use network_learn.Loop.Exec.{round}
use network_learn.Loop.Clients.{owned, ids, closed, same_id}
use network_learn.Loop.Invariant.{Inv}
use network_learn.Loop.Closing.{IsWatched, still-IsWatched, process_error_queue-Inv}
use network_learn.Loop.Timeouts.{close_expired-Inv}
use network_learn.Loop.Paced.{IsPaced, Timed, process_queue-Timed, process_error_queue-Timed}
use network_learn.Loop.Queue.{Answers, process_queue-Inv}
use network_learn.Loop.Ready.{IsReady, sort_items-All, sort_items-Distinct}
use network_learn.Loop.Living.{process_timeout_queue-manager}
use network_learn.Loop.Idle.{found-owned, close_expired-closed}
use network_learn.Loop.Unheard.{Waits, process_queue-Waits, process_error_queue-Waits}

found-tally :
    (n : ℕ) (xs : List (Timer ℕ)) (t : Timer ℕ) → find n xs ≡ some t → 1 ≤ tally n t.user_data xs
unfolding find
found-tally n [] t e = absurd (ground (arith, e))
found-tally n (x ∷ xs) t e = elim (Bool-cases (x.node == n)) [
  | inl hit ↦
      let same : x ≡ t = some-injective x t (rw hit at e) in
      ground (arith, hit, ap (λ y. y.user_data) same)
  | inr miss ↦ omega (arith, found-tally n xs t (rw miss at e))
]

module _ {W : Type 0} where
  close_expired-find :
      (now n : ℕ) (l l' : EventLoop W) (t : Timer ℕ)
      → close_expired now l ≡ some l'
      → find n l.manager.list ≡ some t
      → now < t.deadline
      → find n l'.manager.list ≡ some t
  unfolding close_expired checkout
  close_expired-find now n l l' t e found later =
      let (is, m) = checkout now [] l.manager in
      let same : m ≡ l'.manager =
        process_timeout_queue-manager is (record l { manager = m }) l' e in
      subst (λ (m : TimerManager ℕ). find n m.list ≡ some t) same
        (find-take_expired n now l.manager.list t found later)

  -- What becomes of a client with this timer by the time `now`.
  abbrev pub IsTimely : ℕ → ℕ → Client → Timer ℕ → EventLoop W → Type 0
  IsTimely now i c t l' =
      if leb t.deadline now
      then (ids i l'.sockets ≡ 0) × (closed i l'.reports ≡ 1)
      else (1 ≤ owned c.timer i l'.sockets) × (find c.timer l'.manager.list ≡ some t)

  close_expired-IsTimely :
      (memory : ℕ → ℕ) (timeout now i : ℕ) (c : Client) (t : Timer ℕ) (l l' : EventLoop W)
      → close_expired now l ≡ some l'
      → Inv [] l
      → Inv [] l'
      → Timed memory timeout now l
      → Waits i c t l
      → IsTimely now i c t l'
  close_expired-IsTimely memory timeout now i c t l l' e v v' timed w =
      let mine = found-owned i l.sockets c w.found in
      let here = found-tally c.timer l.manager.list t w.timer in
      let data_is : t.user_data ≡ i =
        same_id c.timer i t.user_data l.sockets (v.owns.one_node c.timer) mine
          (omega (arith, here, v.owns.matched c.timer t.user_data)) in
      elim (Bool-cases (leb t.deadline now)) [
        | inl over ↦
            let due : t.deadline ≤ now = ground (arith, over) in
            let (gone, told) =
              close_expired-closed memory timeout now i l l' c t e v v' timed.sorted w.found w.timer
                due in
            rw over (
              gone,
              omega
                  (arith, told, gone, mine, v'.owns.balanced i, v.owns.balanced i, v'.told.once i),
            )
        | inr waits ↦
            let later : now < t.deadline = ground (arith, waits) in
            let left = close_expired-find now c.timer l l' t e w.timer later in
            let there : 1 ≤ tally c.timer i l'.manager.list =
              rw data_is at (found-tally c.timer l'.manager.list t left) in
            rw waits (omega (arith, there, v'.owns.matched c.timer i), left)
      ]

module _ {W : Type 0} (memory : ℕ → ℕ) (timeout : ℕ) (process : ℕ → W → Option (Bool × W)) where
  -- On a loop that keeps its invariants and those of its timers, where `process` always returns: a round
  -- that answers sockets that are watched, each once, at times that do not go back, and that has no event
  -- of the client `i`, returns and keeps the invariants of the loop, whatever it does for the others. If
  -- the timer of `i` is over by the end of the round, `i` is deleted then, and the handler was told once
  -- that it is closed; and if not, `i` is still there with the same timer.
  pub round-IsTimely :
      (r : Round) (now i : ℕ) (l : EventLoop W) (c : Client) (t : Timer ℕ)
      → Answers process
      → IsReady l r.items
      → IsPaced r now (sort_items r.items).0
      → All (λ j. (j == i) ≡ false) (map (λ (x : Item). x.socket) r.items)
      → Inv [] l
      → Timed memory timeout now l
      → find_client i l.sockets ≡ some c
      → find c.timer l.manager.list ≡ some t
      → (l' : EventLoop W) × (round memory timeout process r l ≡ some l')
        × Inv [] l'
        × IsTimely r.end_time i c t l'
  unfolding round Option.bind
  round-IsTimely r now i l c t answers ready paced unheard v timed found timer =
      let (events, errors) = sort_items r.items in
      let (once_events, once_errors, apart) = sort_items-Distinct r.items ready.0 in
      let (watched_events, watched_errors) = sort_items-All (IsWatched l) r.items ready.1 in
      let (others, others') = sort_items-All (λ j. (j == i) ≡ false) r.items unheard in
      let (l1, done, v1, keeps) =
        process_queue-Inv memory timeout process r events l answers v once_events watched_events in
      let still =
        still-IsWatched (λ j. All (λ k. k ≢ j) events) l l1 errors keeps apart watched_errors in
      let (l2, done', v2, keeps') = process_error_queue-Inv errors l1 v1 once_errors still in
      let (l3, done'', v3, left) = close_expired-Inv r.end_time l2 v2 in
      let w1 =
        process_queue-Waits memory timeout process i c t r events l l1 answers v once_events
          watched_events others done (record { found = found; timer = timer }) in
      let w2 = process_error_queue-Waits i c t errors l1 l2 v1 once_errors still others' done' w1 in
      let timed1 = process_queue-Timed memory timeout process r events now l l1 done paced timed in
      let timed2 = process_error_queue-Timed memory timeout r.end_time errors l1 l2 done' timed1 in
      (
        l3,
        rw (done, done') done'',
        v3,
        close_expired-IsTimely memory timeout r.end_time i c t l2 l3 done'' v2 v3 timed2 w2,
      )
