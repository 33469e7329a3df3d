-- ===== src/Loop/Leaving.antt =====
-- A loop that does not watch its listeners any more, and what closing clients leaves of it.
use mathlib.Core.Option
use network_learn.Base.{
  All, ℕ, ◌^◌, ◌≤◌, ◌<◌, ◌≡◌, refl, subst, ◌∙◌, List, [], ◌∷◌, some, arith, ◌==◌, Bool-cases,
  Option-cases, inl, inr, length,
}
use network_learn.Timer.{Timer, TimerManager, checkout}
use network_learn.Timer.Order.{NotAfter}
use network_learn.Timer.Expiry.{take_expired-All}
use network_learn.Epoll.Watched.{occurs, has-occurs, occurs-erase}
use network_learn.Loop.{
  Client, EventLoop, find_client, delete, timeout_one, process_timeout_queue, close_expired,
}
use network_learn.Loop.Invariant.{Inv}
use network_learn.Loop.Closing.{Distinct}
use network_learn.Loop.Living.{process_timeout_queue-manager}
use network_learn.Loop.Count.{failed, unregister_lem}

length-delete : (i : ℕ) (cs : List Client) → length (delete i cs) ≤ length cs
unfolding delete
length-delete i [] = omega arith
length-delete i (c ∷ cs) = elim (Bool-cases (c.id == i)) [
  | inl hit ↦ rw hit (omega arith)
  | inr miss ↦ rw miss (omega (arith, length-delete i cs))
]

-- No timer is left between two bounds that have met.
pub none_between :
    (now last : ℕ) (xs : List (Timer ℕ))
    → last ≤ now
    → All (NotAfter last) xs
    → All (λ t. now < t.deadline) xs
    → xs ≡ []
none_between now last [] h b a = refl
none_between now last (x ∷ xs) h b a = absurd (omega (arith, h, b.0, a.0))

all_failed :
    (watched xs : List ℕ) → All (λ x. occurs x watched ≡ 0) xs → failed watched xs ≡ length xs
all_failed watched [] h = refl
all_failed watched (x ∷ xs) h =
    rw (has-occurs x watched h.0) (omega (arith, all_failed watched xs h.1))

module _ {W : Type 0} where
  -- No new client, and no new socket that is watched.
  pub record Shrinks (l l' : EventLoop W) : Type 0 where
    pub listeners : l'.listeners ≡ l.listeners
    pub fewer : length l'.sockets ≤ length l.sockets
    pub watched : (i : ℕ) → occurs i l'.epoll.watched ≤ occurs i l.epoll.watched

  timeout_one-Shrinks : (i : ℕ) (l l' : EventLoop W) → timeout_one i l ≡ some l' → Shrinks l l'
  unfolding timeout_one
  timeout_one-Shrinks i l l' e = elim (Option-cases (find_client i l.sockets)) [
    | inl missed ↦ absurd (ground arith)
    | inr (c, found) ↦
        subst (λ o. Shrinks l (Option.get_or o l)) (rw found at e)
          (record {
            listeners = refl;
            fewer = length-delete c.id l.sockets;
            watched = λ j. omega (arith, occurs-erase c.id j l.epoll);
          })
  ]

  process_timeout_queue-Shrinks :
      (is : List ℕ) (l l' : EventLoop W) → process_timeout_queue is l ≡ some l' → Shrinks l l'
  unfolding process_timeout_queue Option.bind
  process_timeout_queue-Shrinks [] l l' e =
      subst (λ o. Shrinks l (Option.get_or o l)) e
        (record { listeners = refl; fewer = omega arith; watched = λ i. omega arith })
  process_timeout_queue-Shrinks (i ∷ is) l l' e = elim (Option-cases (timeout_one i l)) [
    | inl missed ↦ absurd (ground arith)
    | inr (l1, done) ↦
        let first = timeout_one-Shrinks i l l1 done in
        let rest = process_timeout_queue-Shrinks is l1 l' (rw done at e) in
        record {
          listeners = rest.listeners ∙ first.listeners;
          fewer = omega (arith, rest.fewer, first.fewer);
          watched = λ j. omega (arith, rest.watched j, first.watched j);
        }
  ]

  pub close_expired-Shrinks :
      (now : ℕ) (l l' : EventLoop W) → close_expired now l ≡ some l' → Shrinks l l'
  unfolding close_expired checkout
  close_expired-Shrinks now l l' e =
      let (ids, m) = checkout now [] l.manager in
      let s = process_timeout_queue-Shrinks ids (record l { manager = m }) l' e in
      record { listeners = s.listeners; fewer = s.fewer; watched = s.watched }

  pub close_expired-All :
      (P : Timer ℕ → Type 0) (now : ℕ) (l l' : EventLoop W)
      → close_expired now l ≡ some l'
      → All P l.manager.list
      → All P l'.manager.list
  unfolding close_expired checkout
  close_expired-All P now l l' e h =
      let (ids, m) = checkout now [] l.manager in
      let same : m ≡ l'.manager =
        process_timeout_queue-manager ids (record l { manager = m }) l' e in
      subst (λ (m : TimerManager ℕ). All P m.list) same (take_expired-All P now l.manager.list h)

  -- The listeners are all different, and none of them is watched.
  pub record IsClosed (l : EventLoop W) : Type 0 where
    pub distinct : Distinct l.listeners
    pub unwatched : All (λ x. occurs x l.epoll.watched ≡ 0) l.listeners

  -- Without its listeners a loop counts its clients.
  pub IsClosed-count :
      (l : EventLoop W)
      → Inv [] l
      → IsClosed l
      → length l.sockets < 2 ^ 32
      → l.epoll.count ≡ length l.sockets
  IsClosed-count l v c few = omega (
    arith,
    (unregister_lem l v c.distinct).0,
    few,
    all_failed l.epoll.watched l.listeners c.unwatched,
  )

  unwatched_still :
      (l l' : EventLoop W) (xs : List ℕ)
      → Shrinks l l'
      → All (λ x. occurs x l.epoll.watched ≡ 0) xs
      → All (λ x. occurs x l'.epoll.watched ≡ 0) xs
  unwatched_still l l' [] s h = tt
  unwatched_still l l' (x ∷ xs) s h =
      (omega (arith, s.watched x, h.0), unwatched_still l l' xs s h.1)

  pub IsClosed-Shrinks : (l l' : EventLoop W) → Shrinks l l' → IsClosed l → IsClosed l'
  IsClosed-Shrinks l l' s c = record {
    distinct = rw s.listeners c.distinct;
    unwatched = rw s.listeners (unwatched_still l l' l.listeners s c.unwatched);
  }
