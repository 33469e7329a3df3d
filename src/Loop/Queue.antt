-- ===== src/Loop/Queue.antt =====
-- `processQueue`: what `process` answers, each client that is kept has a timer that is restarted.
use mathlib.Core.Option
use network_learn.Base.{
  ℕ, ◌≤◌, ◌≡◌, ◌≢◌, refl, Bool, true, false, List, [], ◌∷◌, Option, some, arith, Bool-cases, inl,
  inr, All,
}
use network_learn.Timer.Tally.{restart-tally}
use network_learn.Epoll.{has}
use network_learn.Loop.{Client, EventLoop, Round, find_client}
use network_learn.Loop.Exec.{accept_all, after_process, process_one, process_queue}
use network_learn.Loop.Clients.{owned}
use network_learn.Loop.Invariant.{Inv}
use network_learn.Loop.Closing.{
  Distinct, IsWatched, Keeps, still-IsWatched, watched_client, close_client-Inv,
}
use network_learn.Loop.Accepting.{accept_all-Inv}

-- `process` returns, whatever it answers.
abbrev pub Answers : {W : Type 0} → (ℕ → W → Option (Bool × W)) → Type 0
Answers {W} process = (i : ℕ) (w : W) → (b : Bool) × (w' : W) × (process i w ≡ some (b, w'))

module _ {W : Type 0} (memory : ℕ → ℕ) (timeout : ℕ) (process : ℕ → W → Option (Bool × W)) where
  after_process-Inv :
      (now : ℕ) (b : Bool) (w : W) (c : Client) (l : EventLoop W)
      → Inv [] l
      → find_client c.id l.sockets ≡ some c
      → has c.id l.listeners ≡ false
      → 1 ≤ owned c.timer c.id l.sockets
      → (l' : EventLoop W) × (after_process memory timeout process now c l (some (b, w)) ≡ some l')
        × Inv [] l'
        × Keeps (c.id ∷ []) l l'
  unfolding after_process
  after_process-Inv now false w c l v found client counted =
      let v1 : Inv [] (record l { world = w }) = record {
        owns = v.owns;
        watches = v.watches;
        fresh = v.fresh;
        told = v.told;
      } in
      close_client-Inv c (record l { world = w }) v1 found client counted
  after_process-Inv now true w c l v found client counted =
      let (m, done, counts, next) =
        restart-tally memory now c.timer c.id l.manager
          (omega (arith, counted, v.owns.matched c.timer c.id)) in
      (
        record l { manager = m; world = w },
        rw done refl,
        record {
          owns = record {
            matched = λ n i. omega (arith, counts n i, v.owns.matched n i);
            one_node = v.owns.one_node;
            one_id = v.owns.one_id;
            balanced = v.owns.balanced;
          };
          watches = v.watches;
          fresh = rw next v.fresh;
          told = v.told;
        },
        λ j apart x. x,
      )

  pub process_client-Inv :
      (r : Round) (i : ℕ) (l : EventLoop W) (b : Bool) (w : W)
      → process i l.world ≡ some (b, w)
      → Inv [] l
      → has i l.listeners ≡ false
      → IsWatched l i
      → (l' : EventLoop W) × (process_one memory timeout process r i l ≡ some l')
        × Inv [] l'
        × Keeps (i ∷ []) l l'
  unfolding process_one Option.bind
  process_client-Inv r i l b w answer v client h =
      let (c, found, own, found', client', counted) = watched_client [] i l v client h in
      let (l', done, v', keeps) = after_process-Inv (r.times i) b w c l v found' client' counted in
      (l', rw (client, found, answer) done, v', λ j apart. keeps j (rw own apart.0, tt))

  pub process_one-Inv :
      (r : Round) (i : ℕ) (l : EventLoop W)
      → Answers process
      → Inv [] l
      → IsWatched l i
      → (l' : EventLoop W) × (process_one memory timeout process r i l ≡ some l')
        × Inv [] l'
        × Keeps (i ∷ []) l l'
  unfolding process_one Option.bind
  process_one-Inv r i l answers v h = elim (Bool-cases (has i l.listeners)) [
    | inl listener ↦
        let (v', keeps) = accept_all-Inv memory timeout (r.accepted i) l v in
        (
          accept_all memory timeout (r.accepted i) l,
          rw listener refl,
          v',
          λ j apart w. keeps j tt w,
        )
    | inr client ↦
        let (b, w, answer) = answers i l.world in process_client-Inv r i l b w answer v client h
  ]

  -- The queue runs to its end: no client is met that an earlier one has deleted.
  pub process_queue-Inv :
      (r : Round) (is : List ℕ) (l : EventLoop W)
      → Answers process
      → Inv [] l
      → Distinct is
      → All (IsWatched l) is
      → (l' : EventLoop W) × (process_queue memory timeout process r is l ≡ some l')
        × Inv [] l'
        × Keeps is l l'
  unfolding process_queue Option.bind
  process_queue-Inv r [] l answers v d h = (l, refl, v, λ j apart w. w)
  process_queue-Inv r (i ∷ is) l answers v d h =
      let (l1, done, v1, keeps) = process_one-Inv r i l answers v h.0 in
      let (l2, done', v2, keeps') =
        process_queue-Inv r is l1 answers v1 d.1
          (still-IsWatched (λ j. i ≢ j) l l1 is (λ j differs. keeps j (differs, tt)) d.0 h.1) in
      (l2, rw (done, done') refl, v2, λ j apart w. keeps' j apart.1 (keeps j (apart.0, tt) w))
