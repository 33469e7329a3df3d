-- ===== src/Loop/Closing.antt =====
-- The error queue, the timeouts and the destructor: no call of them meets a pointer to a socket that
-- is gone.
use mathlib.Core.Option
use network_learn.Base.{
  ℕ, ◌≤◌, ◌≡◌, ◌≢◌, refl, true, false, List, [], ◌∷◌, ◌++◌, some, arith, ◌==◌, Bool-cases, inl, inr,
  All,
}
use network_learn.Timer.{Timer}
use network_learn.Timer.Tally.{destory-tally}
use network_learn.Epoll.{Epoll, has, erase}
use network_learn.Epoll.Watched.{occurs, erase-IsCounted, occurs-erase}
use network_learn.Loop.{
  Client, closes, listener_error, EventLoop, find_client, delete, close_client, report, error_one,
  process_error_queue,
}
use network_learn.Loop.Clients.{owned, opened-append, closed-append, same_id, find_client-ids}
use network_learn.Loop.Invariant.{
  Watching, Inv, delete-Matched, delete-Watching, delete-Fresh, unopened-Told,
}

-- A listener that is not watched any more; the clients are.
pub erase-Watching :
    (i : ℕ) (listeners : List ℕ) (epoll : Epoll) (sockets : List Client)
    → has i listeners ≡ true
    → 1 ≤ occurs i epoll.watched
    → Watching listeners epoll sockets
    → Watching listeners (erase i epoll) sockets
erase-Watching i listeners epoll sockets listener h v = record {
  clients = λ j client. elim (Bool-cases (i == j)) [
    | inl same ↦ ground (arith, same, client, listener)
    | inr differs ↦ ground (arith, v.clients j client, occurs-erase i j epoll, differs)
  ];
  once = λ j. omega (arith, v.once j, occurs-erase i j epoll);
  counted = erase-IsCounted i epoll h v.counted;
}

-- The numbers of a list are different from each other.
abbrev pub Distinct : List ℕ → Type 0
Distinct [] = Unit
Distinct (x ∷ xs) = All (λ y. x ≢ y) xs × Distinct xs

module _ {W : Type 0} where
  abbrev pub IsWatched : EventLoop W → ℕ → Type 0
  IsWatched l i = 1 ≤ occurs i l.epoll.watched

  -- The sockets other than those of the list are still watched.
  abbrev pub Keeps : List ℕ → EventLoop W → EventLoop W → Type 0
  Keeps is l l' = (j : ℕ) → All (λ i. i ≢ j) is → IsWatched l j → IsWatched l' j

  pub still-IsWatched :
      (P : ℕ → Type 0) (l l' : EventLoop W) (is : List ℕ)
      → ((j : ℕ) → P j → IsWatched l j → IsWatched l' j)
      → All P is
      → All (IsWatched l) is
      → All (IsWatched l') is
  still-IsWatched P l l' [] f p h = tt
  still-IsWatched P l l' (i ∷ is) f p h = (f i p.0 h.0, still-IsWatched P l l' is f p.1 h.1)

  -- A socket that is watched and no listener is a client.
  pub watched_client :
      (pending : List (Timer ℕ)) (i : ℕ) (l : EventLoop W)
      → Inv pending l
      → has i l.listeners ≡ false
      → IsWatched l i
      → (c : Client) × (find_client i l.sockets ≡ some c)
        × (c.id ≡ i)
        × (find_client c.id l.sockets ≡ some c)
        × (has c.id l.listeners ≡ false)
        × (1 ≤ owned c.timer c.id l.sockets)
  watched_client pending i l v client h =
      let (c, found, own, counted) =
        find_client-ids i l.sockets (omega (arith, h, v.watches.clients i client)) in
      (c, found, own, rw own found, rw own client, rw own counted)

  pub close_client-Inv :
      (c : Client) (l : EventLoop W)
      → Inv [] l
      → find_client c.id l.sockets ≡ some c
      → has c.id l.listeners ≡ false
      → 1 ≤ owned c.timer c.id l.sockets
      → (l' : EventLoop W) × (close_client c l ≡ some l') × Inv [] l' × Keeps (c.id ∷ []) l l'
  unfolding close_client
  close_client-Inv c l v found client counted =
      let owns = v.owns in
      let (m, done, counts, next) =
        destory-tally c.timer c.id l.manager (omega (arith, counted, owns.matched c.timer c.id))
          (λ j h.
            same_id c.timer c.id j l.sockets (owns.one_node c.timer) counted
              (omega (arith, h, owns.matched c.timer j))) in
      (
        record l {
          reports = l.reports ++ closes c.id ∷ [];
          epoll = erase c.id l.epoll;
          manager = m;
          sockets = delete c.id l.sockets;
        },
        rw (done, close_client) refl,
        record {
          owns =
              delete-Matched c.id c [] [] l.manager.list m.list l.sockets l.reports found
                (λ n j. omega (arith, counts n j)) owns;
          watches =
              delete-Watching c.id c l.listeners l.epoll l.sockets found refl client v.watches;
          fresh = rw next (
              delete-Fresh c.id c l.listeners l.next_id l.manager.next_node l.sockets found
                v.fresh);
          told = unopened-Told (closes c.id) l.next_id l.reports (λ i. refl) v.told;
        },
        λ j h w. ground (arith, h.0, occurs-erase c.id j l.epoll),
      )

  error_listener-Inv :
      (i : ℕ) (l : EventLoop W)
      → Inv [] l
      → has i l.listeners ≡ true
      → IsWatched l i
      → Inv [] (report listener_error (record l { epoll = erase i l.epoll }))
        × Keeps (i ∷ []) l (report listener_error (record l { epoll = erase i l.epoll }))
  error_listener-Inv i l v listener h =
      let owns = v.owns in
      (
        record {
          owns = record {
            matched = owns.matched;
            one_node = owns.one_node;
            one_id = owns.one_id;
            balanced = λ j. omega (
              arith,
              owns.balanced j,
              opened-append j l.reports (listener_error ∷ []),
              closed-append j l.reports (listener_error ∷ []),
            );
          };
          watches = erase-Watching i l.listeners l.epoll l.sockets listener h v.watches;
          fresh = v.fresh;
          told = unopened-Told listener_error l.next_id l.reports (λ i. refl) v.told;
        },
        λ j apart w. ground (arith, apart.0, occurs-erase i j l.epoll),
      )

  pub error_one-Inv :
      (i : ℕ) (l : EventLoop W)
      → Inv [] l
      → IsWatched l i
      → (l' : EventLoop W) × (error_one i l ≡ some l') × Inv [] l' × Keeps (i ∷ []) l l'
  unfolding error_one Option.bind
  error_one-Inv i l v h = elim (Bool-cases (has i l.listeners)) [
    | inl listener ↦
        let (v', keeps) = error_listener-Inv i l v listener h in
        (report listener_error (record l { epoll = erase i l.epoll }), rw listener refl, v', keeps)
    | inr client ↦
        let (c, found, own, found', client', counted) = watched_client [] i l v client h in
        let (l', done, v', keeps) = close_client-Inv c l v found' client' counted in
        (l', rw (client, found, done) refl, v', λ j apart. keeps j (rw own apart.0, tt))
  ]

  -- The error queue runs to its end.
  pub process_error_queue-Inv :
      (is : List ℕ) (l : EventLoop W)
      → Inv [] l
      → Distinct is
      → All (IsWatched l) is
      → (l' : EventLoop W) × (process_error_queue is l ≡ some l') × Inv [] l' × Keeps is l l'
  unfolding process_error_queue Option.bind
  process_error_queue-Inv [] l v d h = (l, refl, v, λ j apart w. w)
  process_error_queue-Inv (i ∷ is) l v d h =
      let (l1, done, v1, keeps) = error_one-Inv i l v h.0 in
      let (l2, done', v2, keeps') =
        process_error_queue-Inv is l1 v1 d.1
          (still-IsWatched (λ j. i ≢ j) l l1 is (λ j differs. keeps j (differs, tt)) d.0 h.1) in
      (l2, rw (done, done') refl, v2, λ j apart w. keeps' j apart.1 (keeps j (apart.0, tt) w))
