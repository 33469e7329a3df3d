-- ===== src/Loop/Idle.antt =====
-- A client that is not heard of.
use mathlib.Core.Option
use mathlib.Core.Option.{some-injective}
use network_learn.Base.{
  ℕ, ◌+◌, ◌≤◌, ◌≡◌, ap, sym, subst, ◌∙◌, Bool, true, List, [], ◌∷◌, Option, some, arith, ◌==◌, leb,
  Bool-cases, Option-cases, inl, inr,
}
use network_learn.Timer.{Timer, TimerManager, take_expired, checkout, find}
use network_learn.Timer.Order.{AfterOrAt, IsSorted}
use network_learn.Timer.Clock.Calls.{find-All}
use network_learn.Timer.Tally.{tally, expired, take_expired-expired}
use network_learn.Epoll.{sort_items}
use network_learn.Loop.{
  Client, EventLoop, Round, closes, find_client, timeout_one, process_timeout_queue, close_expired,
  process_error_queue,
}
use network_learn.Loop.Exec.{process_queue, round}
use network_learn.Loop.Clients.{
  owned, ids, opened, closed, opened-append, owned-le-ids, find_client-ids, same_id, same_node,
}
use network_learn.Loop.Invariant.{Inv}
use network_learn.Loop.Paced.{Timed}
use network_learn.Loop.Queue.{Answers}
use network_learn.Loop.Ready.{IsReady}
use network_learn.Loop.Rounds.{round-Inv}
use network_learn.Loop.Living.{process_timeout_queue-manager}

-- A timer that is over is among those that `checkout` takes, if they are in order.
find-expired :
    (memory : ℕ → ℕ) (timeout now n : ℕ) (xs : List (Timer ℕ)) (t : Timer ℕ)
    → find n xs ≡ some t
    → t.deadline ≤ now
    → IsSorted xs
    → 1 ≤ tally n t.user_data (expired now xs)
unfolding find expired
find-expired memory timeout now n [] t e h s = absurd (ground (arith, e))
find-expired memory timeout now n (x ∷ xs) t e h s = elim (Bool-cases (x.node == n)) [
  | inl hit ↦
      let same : x ≡ t = some-injective x t (rw hit at e) in
      let data_is : x.user_data ≡ t.user_data = ap (λ y. y.user_data) same in
      let over : leb x.deadline now ≡ true = ground (arith, h, ap (λ y. y.deadline) same) in
      rw over (ground (arith, hit, data_is))
  | inr miss ↦
      let behind : x.deadline ≤ t.deadline =
        find-All memory timeout (AfterOrAt x.deadline) n xs t (rw miss at e) s.0 in
      let over : leb x.deadline now ≡ true = ground (arith, h, behind) in
      let rest = find-expired memory timeout now n xs t (rw miss at e) h s.1 in
      rw over (omega (arith, rest))
]

pub found-owned :
    (i : ℕ) (cs : List Client) (c : Client) → find_client i cs ≡ some c → 1 ≤ owned c.timer i cs
unfolding find_client
found-owned i [] c e = absurd (ground (arith, e))
found-owned i (x ∷ cs) c e = elim (Bool-cases (x.id == i)) [
  | inl hit ↦ ground (arith, hit, e)
  | inr miss ↦ omega (arith, found-owned i cs c (rw miss at e))
]

module _ {W : Type 0} where
  timeout_one-opened :
      (j i : ℕ) (l l' : EventLoop W)
      → timeout_one i l ≡ some l'
      → opened j l'.reports ≡ opened j l.reports
  unfolding timeout_one
  timeout_one-opened j i l l' e = elim (Option-cases (find_client i l.sockets)) [
    | inl missed ↦ absurd (ground arith)
    | inr (c, found) ↦
        ap (λ o. opened j (Option.get_or o l).reports) (sym (rw found at e))
        ∙ opened-append j l.reports (closes c.id ∷ [])
        ∙ omega arith
  ]

  process_timeout_queue-opened :
      (j : ℕ) (is : List ℕ) (l l' : EventLoop W)
      → process_timeout_queue is l ≡ some l'
      → opened j l'.reports ≡ opened j l.reports
  unfolding process_timeout_queue Option.bind
  process_timeout_queue-opened j [] l l' e = ap (λ o. opened j (Option.get_or o l).reports) (sym e)
  process_timeout_queue-opened j (i ∷ is) l l' e = elim (Option-cases (timeout_one i l)) [
    | inl missed ↦ absurd (ground arith)
    | inr (l1, done) ↦
        process_timeout_queue-opened j is l1 l' (rw done at e) ∙ timeout_one-opened j i l l1 done
  ]

  -- What `checkout` and `processTimeoutQueue` do to a client whose timer is over.
  pub close_expired-closed :
      (memory : ℕ → ℕ) (timeout now i : ℕ) (l l' : EventLoop W) (c : Client) (t : Timer ℕ)
      → close_expired now l ≡ some l'
      → Inv [] l
      → Inv [] l'
      → IsSorted l.manager.list
      → find_client i l.sockets ≡ some c
      → find c.timer l.manager.list ≡ some t
      → t.deadline ≤ now
      → (ids i l'.sockets ≡ 0) × (closed i l'.reports ≡ closed i l.reports + 1)
  unfolding close_expired checkout
  close_expired-closed memory timeout now i l l' c t e v v' sorted found timer over =
      let xs = l.manager.list in
      let (data_are, counts) = take_expired-expired now xs in
      let m : TimerManager ℕ = record l.manager { list = (take_expired now xs).1 } in
      let l1 : EventLoop W = record l { manager = m } in
      let is = (take_expired now xs).0 in
      let left : m ≡ l'.manager = process_timeout_queue-manager is l1 l' e in
      let same_opened = process_timeout_queue-opened i is l1 l' e in
      let gone = find-expired memory timeout now c.timer xs t timer over sorted in
      let mine : 1 ≤ owned c.timer i l.sockets = found-owned i l.sockets c found in
      let data_is : t.user_data ≡ i =
        same_id c.timer i t.user_data l.sockets (v.owns.one_node c.timer) mine
          (omega (arith, gone, counts c.timer t.user_data, v.owns.matched c.timer t.user_data)) in
      let none_is : ids i l'.sockets ≡ 0 = elim (Bool-cases (ids i l'.sockets == 0)) [
        | inl none_left ↦ ground (arith, none_left)
        | inr some_left ↦
            let (c', found', own, counted) =
              find_client-ids i l'.sockets (ground (arith, some_left)) in
            let is_left : 1 ≤ tally c'.timer i (take_expired now xs).1 =
              subst (λ (m : TimerManager ℕ). 1 ≤ tally c'.timer i m.list) (sym left)
                (omega (arith, counted, v'.owns.matched c'.timer i)) in
            let same : c'.timer ≡ c.timer =
              same_node c.timer c'.timer i l.sockets (v.owns.one_id i) mine
                (omega (arith, is_left, counts c'.timer i, v.owns.matched c'.timer i)) in
            absurd (
              omega (
                arith,
                rw same at is_left,
                rw data_is at gone,
                counts c.timer i,
                v.owns.matched c.timer i,
                owned-le-ids c.timer i l.sockets,
                v.owns.one_id i,
              ))
      ] in
      (
        none_is,
        omega (
          arith,
          none_is,
          same_opened,
          v.owns.balanced i,
          v'.owns.balanced i,
          mine,
          owned-le-ids c.timer i l.sockets,
          v.owns.one_id i,
        ),
      )

module _ {W : Type 0} (memory : ℕ → ℕ) (timeout : ℕ) (process : ℕ → W → Option (Bool × W)) where
  -- On a loop that keeps its invariants, and those of its timers, where `process` always returns: a round
  -- in which nothing happens returns and keeps the invariants of the loop. A client whose timer is over
  -- by the end of the round is then deleted, and the handler was told once more that it is closed.
  round_idle :
      (r : Round) (now i : ℕ) (l : EventLoop W) (c : Client) (t : Timer ℕ)
      → Answers process
      → r.items ≡ []
      → Inv [] l
      → Timed memory timeout now l
      → find_client i l.sockets ≡ some c
      → find c.timer l.manager.list ≡ some t
      → t.deadline ≤ r.end_time
      → (l' : EventLoop W) × (round memory timeout process r l ≡ some l')
        × Inv [] l'
        × (ids i l'.sockets ≡ 0)
        × (closed i l'.reports ≡ closed i l.reports + 1)
  unfolding round sort_items process_queue process_error_queue Option.bind
  round_idle r now i l c t answers quiet v timed found timer over =
      let ready : IsReady l r.items = rw quiet (tt, tt) in
      let (l', done, v') = round-Inv memory timeout process r l answers ready v in
      let (gone, told) =
        close_expired-closed memory timeout r.end_time i l l' c t (rw quiet at done) v v'
          timed.sorted found timer over in
      (l', done, v', gone, told)
