-- ===== src/Loop/Rounds.antt =====
-- Rounds of `exec`, and the whole life of an event loop.
use mathlib.Core.Option
use network_learn.Base.{
  ℕ, ◌+◌, ◌≤◌, ◌<◌, ◌≡◌, ◌≢◌, refl, sym, subst, ◌∙◌, Bool, true, List, [], ◌∷◌, Option, some, arith,
  ◌==◌, Bool-cases, inl, inr, All,
}
use network_learn.Timer.{empty_manager}
use network_learn.Epoll.{Epoll, new_epoll, has, insert, sort_items}
use network_learn.Epoll.Watched.{occurs, occurs-has, IsCounted, insert_lem}
use network_learn.Loop.{EventLoop, Round, register}
use network_learn.Loop.Exec.{round, exec, new_loop, destroy}
use network_learn.Loop.Clients.{opened, closed}
use network_learn.Loop.Invariant.{Inv}
use network_learn.Loop.Closing.{Distinct, IsWatched, still-IsWatched, process_error_queue-Inv}
use network_learn.Loop.Timeouts.{close_expired-Inv, destroy-Inv}
use network_learn.Loop.Queue.{Answers, process_queue-Inv}
use network_learn.Loop.Ready.{IsReady, sort_items-All, sort_items-Distinct}

absent : (x : ℕ) (xs : List ℕ) → All (λ y. x ≢ y) xs → occurs x xs ≡ 0
absent x [] h = refl
absent x (y ∷ ys) h = ground (arith, h.0, absent x ys h.1)

pub Distinct-occurs : (i : ℕ) (xs : List ℕ) → Distinct xs → occurs i xs ≤ 1
Distinct-occurs i [] d = omega arith
Distinct-occurs i (x ∷ xs) d = elim (Bool-cases (x == i)) [
  | inl same ↦ ground (arith, same, absent x xs d.0)
  | inr differs ↦ ground (arith, differs, Distinct-occurs i xs d.1)
]

module _ {W : Type 0} where
  -- `registerListeners`, for listeners that are not watched yet.
  register_watched :
      (xs : List ℕ) (l : EventLoop W)
      → ((i : ℕ) → occurs i xs + occurs i l.epoll.watched ≤ 1)
      → IsCounted l.epoll
      → (e : Epoll) × (register xs l ≡ record l { epoll = e })
        × IsCounted e
        × ((i : ℕ) → occurs i e.watched ≡ occurs i xs + occurs i l.epoll.watched)
  unfolding register
  register_watched [] l h k = (l.epoll, refl, k, λ i. omega arith)
  register_watched (x ∷ xs) l h k =
      let (added, counts) = insert_lem x l.epoll (ground (arith, h x)) k in
      let (e, done, counts', same) =
        register_watched xs (record l { epoll = insert x l.epoll })
          (λ i. rw added (omega (arith, h i))) counts in
      (e, done, counts', λ i. same i ∙ rw added (omega arith))

  -- A new loop, whose listeners are older than what the allocator gives next.
  pub new_loop-Inv :
      (listeners : List ℕ) (next_id : ℕ) (w : W)
      → Distinct listeners
      → ((i : ℕ) → has i listeners ≡ true → i < next_id)
      → Inv [] (new_loop listeners next_id w)
  new_loop-Inv listeners next_id w d older =
      let (e, done, counts, same) =
        register_watched listeners
          (record {
            listeners = listeners;
            sockets = [];
            next_id = next_id;
            epoll = new_epoll;
            manager = empty_manager;
            reports = [];
            world = w;
          })
          (λ i. omega (arith, Distinct-occurs i listeners d)) refl in
      subst (Inv []) (sym done) (record {
        owns = record {
          matched = λ n i. refl;
          one_node = λ n. omega arith;
          one_id = λ i. omega arith;
          balanced = λ i. refl;
        };
        watches = record {
          clients = λ i client. same i ∙ omega (arith, occurs-has i listeners client);
          once = λ i. omega (arith, same i, Distinct-occurs i listeners d);
          counted = counts;
        };
        fresh = record {
          fresh_id = λ i h. refl;
          fresh_node = λ n h. refl;
          apart = λ i h. (refl, older i h);
        };
        told = record { once = λ i. omega arith; later = λ i h. refl };
      })

module _ {W : Type 0} (memory : ℕ → ℕ) (timeout : ℕ) (process : ℕ → W → Option (Bool × W)) where
  pub round-Inv :
      (r : Round) (l : EventLoop W)
      → Answers process
      → IsReady l r.items
      → Inv [] l
      → (l' : EventLoop W) × (round memory timeout process r l ≡ some l') × Inv [] l'
  unfolding round Option.bind
  round-Inv r l answers ready v =
      let (events, errors) = sort_items r.items in
      let (once_events, once_errors, apart) = sort_items-Distinct r.items ready.0 in
      let (watched_events, watched_errors) = sort_items-All (IsWatched l) r.items ready.1 in
      let (l1, done, v1, keeps) =
        process_queue-Inv memory timeout process r events l answers v once_events watched_events in
      let (l2, done', v2, keeps') =
        process_error_queue-Inv errors l1 v1 once_errors
          (still-IsWatched (λ j. All (λ i. i ≢ j) events) l l1 errors keeps apart watched_errors) in
      let (l3, done'', v3, left) = close_expired-Inv r.end_time l2 v2 in
      (l3, rw (done, done') done'', v3)

  -- Each round is one that the system may answer in the state that the rounds before it leave.
  abbrev pub AreReady : List Round → EventLoop W → Type 0
  AreReady [] l = Unit
  AreReady (r ∷ rs) l =
      IsReady l r.items
      × ((l' : EventLoop W) → round memory timeout process r l ≡ some l' → AreReady rs l')

  pub exec-Inv :
      (rs : List Round) (l : EventLoop W)
      → Answers process
      → AreReady rs l
      → Inv [] l
      → (l' : EventLoop W) × (exec memory timeout process rs l ≡ some l') × Inv [] l'
  unfolding exec Option.bind
  exec-Inv [] l answers ready v = (l, refl, v)
  exec-Inv (r ∷ rs) l answers ready v = elim (Bool-cases (l.epoll.count == 0)) [
    | inl over ↦ (l, rw (exec, over) refl, v)
    | inr runs ↦
        let (l1, done, v1) = round-Inv r l answers ready.0 v in
        let (l2, done', v2) = exec-Inv rs l1 answers (ready.1 l1 done) v1 in
        (l2, rw (exec, runs, done) done', v2)
  ]

  -- A new loop has listeners that are all different and are older than what the allocator gives next;
  -- `process` always returns; and each round answers sockets that are watched when it begins, each
  -- once. Then `exec` returns, and so does the destructor behind it: no call meets a socket or a timer
  -- that is gone. After the destructor no client is left, and the handler was told of each number at
  -- most once that it was accepted, only before the destructor, and just as often that it was closed.
  pub destroy-exec :
      (listeners : List ℕ) (next_id : ℕ) (w : W) (rs : List Round)
      → Distinct listeners
      → ((i : ℕ) → has i listeners ≡ true → i < next_id)
      → Answers process
      → AreReady rs (new_loop listeners next_id w)
      → (l : EventLoop W) × (exec memory timeout process rs (new_loop listeners next_id w) ≡ some l)
        × (l' : EventLoop W) × (destroy l ≡ some l')
        × (l'.sockets ≡ [])
        × ((i : ℕ)
            → (opened i l'.reports ≡ opened i l.reports)
              × (opened i l'.reports ≤ 1)
              × (opened i l'.reports ≡ closed i l'.reports))
  destroy-exec listeners next_id w rs d older answers ready =
      let (l, done, v) =
        exec-Inv rs (new_loop listeners next_id w) answers ready
          (new_loop-Inv listeners next_id w d older) in
      let (l', done', no_client, no_timer, balanced, same) = destroy-Inv l v in
      (
        l,
        done,
        l',
        done',
        no_client,
        λ i. (same i, omega (arith, same i, v.told.once i), balanced i),
      )
