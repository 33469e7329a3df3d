-- ===== src/Loop/Effect.antt =====
-- What `process` answers, and what becomes of the client.
use mathlib.Core.Option
use network_learn.Base.{
  ℕ, ◌+◌, ◌≡◌, ap, sym, ◌∙◌, Bool, true, false, [], ◌∷◌, ◌++◌, Option, some, arith, if◌then◌else◌,
  Option-cases, inl, inr,
}
use network_learn.Timer.{restart, destory}
use network_learn.Epoll.{has}
use network_learn.Loop.{Client, closes, EventLoop, Round, find_client, delete, close_client}
use network_learn.Loop.Exec.{after_process, process_one}
use network_learn.Loop.Clients.{ids, closed, closed-append, ids-delete}
use network_learn.Loop.Invariant.{Inv}
use network_learn.Loop.Closing.{IsWatched, watched_client}
use network_learn.Loop.Queue.{process_client-Inv}

module _ {W : Type 0} where
  closed_effect :
      (c : Client) (l l' : EventLoop W)
      → close_client c l ≡ some l'
      → (l'.world ≡ l.world)
        × (l'.sockets ≡ delete c.id l.sockets)
        × (l'.reports ≡ l.reports ++ closes c.id ∷ [])
  unfolding close_client
  closed_effect c l l' e = elim (Option-cases (destory c.timer l.manager)) [
    | inl missed ↦ absurd (ground arith)
    | inr (m, done) ↦
        let same = rw done at e in
        (
          sym (ap (λ o. (Option.get_or o l).world) same),
          sym (ap (λ o. (Option.get_or o l).sockets) same),
          sym (ap (λ o. (Option.get_or o l).reports) same),
        )
  ]

  -- The client is kept, or it is gone and was reported once more.
  abbrev pub IsKept : ℕ → Bool → EventLoop W → EventLoop W → Type 0
  IsKept i b l l' =
      (ids i l'.sockets ≡ (if b then 1 else 0))
      × (closed i l'.reports ≡ closed i l.reports + (if b then 0 else 1))

module _ {W : Type 0} (memory : ℕ → ℕ) (timeout : ℕ) (process : ℕ → W → Option (Bool × W)) where
  after_process_effect :
      (now : ℕ) (b : Bool) (w : W) (c : Client) (l l' : EventLoop W)
      → find_client c.id l.sockets ≡ some c
      → ids c.id l.sockets ≡ 1
      → after_process memory timeout process now c l (some (b, w)) ≡ some l'
      → (l'.world ≡ w) × IsKept c.id b l l'
  unfolding after_process
  after_process_effect now false w c l l' found counted e =
      let (same, sockets, reports) = closed_effect c (record l { world = w }) l' e in
      (
        same,
        (
          rw sockets (ground (arith, counted, ids-delete c.id c.id l.sockets c found)),
          rw reports (ground (arith, closed-append c.id l.reports (closes c.id ∷ []))),
        ),
      )
  after_process_effect now true w c l l' found counted e =
      elim (Option-cases (restart memory now c.timer l.manager)) [
        | inl missed ↦ absurd (ground arith)
        | inr (m, done) ↦
            let same = rw done at e in
            (
              sym (ap (λ o. (Option.get_or o l).world) same),
              (
                ap (λ o. ids c.id (Option.get_or o l).sockets) (sym same) ∙ counted,
                ap (λ o. closed c.id (Option.get_or o l).reports) (sym same) ∙ omega arith,
              ),
            )
      ]

  pub process_client_effect :
      (r : Round) (i : ℕ) (l : EventLoop W) (b : Bool) (w : W)
      → process i l.world ≡ some (b, w)
      → Inv [] l
      → has i l.listeners ≡ false
      → IsWatched l i
      → (l' : EventLoop W) × (process_one memory timeout process r i l ≡ some l')
        × Inv [] l'
        × (l'.world ≡ w)
        × IsKept i b l l'
  unfolding process_one Option.bind
  process_client_effect r i l b w answer v client h =
      let (c, found, own, found', client', counts) = watched_client [] i l v client h in
      let (l', done, v', keeps) =
        process_client-Inv memory timeout process r i l b w answer v client h in
      let counted : ids i l.sockets ≡ 1 =
        omega (arith, h, v.watches.clients i client, v.owns.one_id i) in
      let (same, kept) =
        after_process_effect (r.times i) b w c l l' found' (rw own counted)
          (rw (client, found, answer) at done) in
      (l', done, v', same, rw own at kept)
