-- ===== src/Loop/SlowClose.antt =====
-- A loop that is asked to leave: `unregisterListeners` between two rounds, and the rounds behind it.
use mathlib.Core.Option
use network_learn.Base.{
  All, ℕ, ◌+◌, ◌-◌, ◌^◌, ◌≤◌, ◌<◌, ◌≡◌, refl, ap, subst, ◌∙◌, Bool, true, List, [], ◌∷◌, Option,
  some, arith, ◌==◌, Bool-cases, inl, inr, length,
}
use network_learn.Timer.Order.{NotAfter}
use network_learn.Timer.Tally.{tally}
use network_learn.Epoll.{Epoll, erase, sort_items}
use network_learn.Epoll.Watched.{occurs, occurs-erase}
use network_learn.Loop.{EventLoop, Round, close_expired, process_error_queue, unregister}
use network_learn.Loop.Exec.{process_queue, round, exec}
use network_learn.Loop.Clients.{ids, opened, closed}
use network_learn.Loop.Invariant.{Inv}
use network_learn.Loop.Closing.{Distinct}
use network_learn.Loop.Timeouts.{no_client}
use network_learn.Loop.Paced.{Timed, later-Timed}
use network_learn.Loop.Queue.{Answers}
use network_learn.Loop.Ready.{IsReady}
use network_learn.Loop.Rounds.{round-Inv}
use network_learn.Loop.Living.{close_expired-Timed}
use network_learn.Loop.Count.{failed, unregister-Inv}
use network_learn.Loop.Leaving.{
  none_between, IsClosed, IsClosed-count, IsClosed-Shrinks, close_expired-Shrinks,
  close_expired-All,
}

-- Rounds in which no socket has an event, at times that do not go back.
abbrev pub AreQuiet : ℕ → List Round → Type 0
AreQuiet now [] = Unit
AreQuiet now (r ∷ rs) = (r.items ≡ []) × (now ≤ r.end_time) × AreQuiet r.end_time rs

abbrev pub last_time : ℕ → List Round → ℕ
last_time now [] = now
last_time now (r ∷ rs) = last_time r.end_time rs

no_sockets : {A : Type 0} (xs : List A) → length xs ≡ 0 → xs ≡ []
no_sockets [] h = refl
no_sockets (x ∷ xs) h = absurd (omega (arith, h))

module _ {W : Type 0} (memory : ℕ → ℕ) (timeout : ℕ) (process : ℕ → W → Option (Bool × W)) where
  -- A loop that is leaving, whose timers are due by `last`.
  record Leaving (now last : ℕ) (l : EventLoop W) : Type 0 where
    inv : Inv [] l
    is_closed : IsClosed l
    timed : Timed memory timeout now l
    all_due : All (NotAfter last) l.manager.list
    few : length l.sockets < 2 ^ 32

  quiet_round :
      (r : Round) (now last : ℕ) (l : EventLoop W)
      → Answers process
      → r.items ≡ []
      → now ≤ r.end_time
      → Leaving now last l
      → (l' : EventLoop W) × (round memory timeout process r l ≡ some l')
        × Leaving r.end_time last l'
        × All (λ t. r.end_time < t.deadline) l'.manager.list
  unfolding round sort_items process_queue process_error_queue Option.bind
  quiet_round r now last l answers quiet later v =
      let ready : IsReady l r.items = rw quiet (tt, tt) in
      let (l', done, v') = round-Inv memory timeout process r l answers ready v.inv in
      let closes : close_expired r.end_time l ≡ some l' = rw quiet at done in
      let s = close_expired-Shrinks r.end_time l l' closes in
      let (timed', left) =
        close_expired-Timed memory timeout r.end_time l l' closes
          (later-Timed memory timeout now r.end_time l later v.timed) in
      (
        l',
        done,
        record {
          inv = v';
          is_closed = IsClosed-Shrinks l l' s v.is_closed;
          timed = timed';
          all_due = close_expired-All (NotAfter last) r.end_time l l' closes v.all_due;
          few = omega (arith, s.fewer, v.few);
        },
        left,
      )

  -- Where the time has come, no client is left.
  all_gone :
      (now last : ℕ) (l : EventLoop W)
      → Leaving now last l
      → last ≤ now
      → All (λ t. now < t.deadline) l.manager.list
      → l.sockets ≡ []
  all_gone now last l v h left =
      let none_left = none_between now last l.manager.list h v.all_due left in
      no_client l.sockets
        (λ n i. omega (arith, v.inv.owns.matched n i, ap (λ ts. tally n i ts) none_left))

  -- A loop with no client left, whose `exec` has returned.
  abbrev pub IsLeft : EventLoop W → Type 0
  IsLeft l = Inv [] l × (l.sockets ≡ []) × (l.epoll.count ≡ 0)

  left_over : (now last : ℕ) (l : EventLoop W) → Leaving now last l → l.sockets ≡ [] → IsLeft l
  left_over now last l v none_left =
      let counts = IsClosed-count l v.inv v.is_closed v.few in
      (v.inv, none_left, counts ∙ ap (λ xs. length xs) none_left)

  stopped :
      (now last : ℕ) (l : EventLoop W) → Leaving now last l → (l.epoll.count == 0) ≡ true → IsLeft l
  stopped now last l v over =
      let counts = IsClosed-count l v.inv v.is_closed v.few in
      left_over now last l v (no_sockets l.sockets (ground (arith, over, counts)))

  exec-IsLeft :
      (r : Round) (rs : List Round) (now last : ℕ) (l : EventLoop W)
      → Answers process
      → AreQuiet now (r ∷ rs)
      → Leaving now last l
      → last ≤ last_time now (r ∷ rs)
      → (l' : EventLoop W) × (exec memory timeout process (r ∷ rs) l ≡ some l') × IsLeft l'
  unfolding exec Option.bind
  exec-IsLeft r [] now last l answers quiet v h = elim (Bool-cases (l.epoll.count == 0)) [
    | inl over ↦ (l, rw (exec, over) refl, stopped now last l v over)
    | inr runs ↦
        let (l1, done, v1, left) = quiet_round r now last l answers quiet.0 quiet.1 v in
        (
          l1,
          rw (exec, runs, done) refl,
          left_over r.end_time last l1 v1 (all_gone r.end_time last l1 v1 h left),
        )
  ]
  exec-IsLeft r (r' ∷ rs) now last l answers quiet v h = elim (Bool-cases (l.epoll.count == 0)) [
    | inl over ↦ (l, rw (exec, over) refl, stopped now last l v over)
    | inr runs ↦
        let (l1, done, v1, left) = quiet_round r now last l answers quiet.0 quiet.1 v in
        let (l2, done', is_left) = exec-IsLeft r' rs r.end_time last l1 answers quiet.2 v1 h in
        (l2, rw (exec, runs, done) done', is_left)
  ]

unwatch_all :
    (watched watched' all_of xs : List ℕ)
    → ((i : ℕ) → occurs i watched ≤ 1)
    → ((i : ℕ) → occurs i watched' ≡ occurs i watched - occurs i all_of)
    → ((i : ℕ) → occurs i xs ≤ occurs i all_of)
    → All (λ x. occurs x watched' ≡ 0) xs
unwatch_all watched watched' all_of [] once counts within = tt
unwatch_all watched watched' all_of (x ∷ xs) once counts within = (
  ground (arith, once x, counts x, within x),
  unwatch_all watched watched' all_of xs once counts (λ i. omega (arith, within i)),
)

module _ {W : Type 0} where
  -- What `unregisterListeners` changes.
  pub unregister_only :
      (xs : List ℕ) (l : EventLoop W)
      → (e : Epoll) × (unregister xs l ≡ record l { epoll = e })
        × ((i : ℕ) → occurs i e.watched ≡ occurs i l.epoll.watched - occurs i xs)
  unfolding unregister
  unregister_only [] l = (l.epoll, refl, λ i. omega arith)
  unregister_only (x ∷ xs) l =
      let (e, done, counts) = unregister_only xs (record l { epoll = erase x l.epoll }) in
      (e, done, λ i. omega (arith, counts i, occurs-erase x i l.epoll))

module _ {W : Type 0} (memory : ℕ → ℕ) (timeout : ℕ) (process : ℕ → W → Option (Bool × W)) where
  -- A loop keeps its invariants and those of its timers, its listeners are all different and none of
  -- them has failed, it has fewer than 2^32 clients, and `process` always returns. It is asked to
  -- unregister its listeners between two rounds, and behind that come one round or more in which no
  -- socket has an event, at times that do not go back, up to the timeout or later. Then `exec` returns,
  -- with no client left, `m_count` 0 and the invariants of the loop; the handler was told of each number
  -- as often that it was closed as that it was accepted.
  pub exec-unregister :
      (r : Round) (rs : List Round) (now : ℕ) (l : EventLoop W)
      → Answers process
      → Inv [] l
      → Distinct l.listeners
      → failed l.epoll.watched l.listeners ≡ 0
      → Timed memory timeout now l
      → length l.sockets < 2 ^ 32
      → AreQuiet now (r ∷ rs)
      → now + memory timeout ≤ last_time now (r ∷ rs)
      → (l' : EventLoop W) × (exec memory timeout process (r ∷ rs) (unregister l.listeners l)
          ≡ some l')
        × Inv [] l'
        × (l'.sockets ≡ [])
        × (l'.epoll.count ≡ 0)
        × ((i : ℕ) → opened i l'.reports ≡ closed i l'.reports)
  exec-unregister r rs now l answers v d none_failed timed few quiet h =
      let (e, done, counts) = unregister_only l.listeners l in
      let l0 : EventLoop W = record l { epoll = e } in
      let leaving : Leaving memory timeout process now (now + memory timeout) l0 = record {
        inv = subst (Inv []) done (unregister-Inv l v d none_failed);
        is_closed = record {
          distinct = d;
          unwatched =
              unwatch_all l.epoll.watched e.watched l.listeners l.listeners v.watches.once counts
                (λ i. omega arith);
        };
        timed = timed;
        all_due = timed.bounded;
        few = few;
      } in
      let (l', ends, is_left) =
        exec-IsLeft memory timeout process r rs now (now + memory timeout) l0 answers quiet leaving
          h in
      let (v', none_left, zero_left) = is_left in
      (
        l',
        rw done ends,
        v',
        none_left,
        zero_left,
        λ i. omega (arith, v'.owns.balanced i, ap (λ cs. ids i cs) none_left),
      )
