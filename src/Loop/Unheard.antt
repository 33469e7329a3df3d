-- ===== src/Loop/Unheard.antt =====
-- A client of which no event comes, while the loop serves others.
use mathlib.Core.Option
use mathlib.Core.Option.{some-injective}
use network_learn.Base.{
  ℕ, ◌≤◌, ◌≡◌, ◌≢◌, refl, ap, subst, ◌∙◌, Bool, true, false, List, [], ◌∷◌, Option, none, some,
  arith, ◌==◌, if◌then◌else◌, Bool-cases, Option-cases, inl, inr, All,
}
use network_learn.Timer.{Timer, find, restart, destory}
use network_learn.Timer.Unmoved.{find-start, find-restart, find-destory}
use network_learn.Epoll.{has}
use network_learn.Loop.{
  Client, EventLoop, Accepted, Round, find_client, delete, close_client, error_one,
  process_error_queue,
}
use network_learn.Loop.Exec.{accept_one, accept_all, after_process, process_one, process_queue}
use network_learn.Loop.Clients.{owned, owned-le-ids, owned-le-nodes, same_id}
use network_learn.Loop.Invariant.{Inv}
use network_learn.Loop.Closing.{Distinct, IsWatched, still-IsWatched, error_one-Inv}
use network_learn.Loop.Accepting.{accept_one-Inv}
use network_learn.Loop.Queue.{Answers, process_one-Inv}
use network_learn.Loop.Idle.{found-owned}

find_client-own : (i : ℕ) (cs : List Client) (c : Client) → find_client i cs ≡ some c → c.id ≡ i
unfolding find_client
find_client-own i [] c e = absurd (ground (arith, e))
find_client-own i (x ∷ cs) c e = elim (Bool-cases (x.id == i)) [
  | inl hit ↦
      let same : x ≡ c = some-injective x c (rw hit at e) in
      ground (arith, hit, ap (λ y. y.id) same)
  | inr miss ↦ find_client-own i cs c (rw miss at e)
]

find_client-delete :
    (i j : ℕ) (cs : List Client) → (j == i) ≡ false → find_client i (delete j cs) ≡ find_client i cs
unfolding find_client delete
find_client-delete i j [] differs = refl
find_client-delete i j (c ∷ cs) differs = ground (arith, find_client-delete i j cs differs)

module _ {W : Type 0} (i : ℕ) (c : Client) (t : Timer ℕ) where
  -- The client `i` is there, and its timer is `t`.
  pub record Waits (l : EventLoop W) : Type 0 where
    pub found : find_client i l.sockets ≡ some c
    pub timer : find c.timer l.manager.list ≡ some t

  -- Another client has another timer.
  other_timer :
      (j : ℕ) (c' : Client) (l : EventLoop W)
      → Inv [] l
      → Waits l
      → (j == i) ≡ false
      → find_client j l.sockets ≡ some c'
      → (c'.timer == c.timer) ≡ false
  other_timer j c' l v w differs found' = elim (Bool-cases (c'.timer == c.timer)) [
    | inr apart ↦ apart
    | inl same ↦
        let equal : c'.timer ≡ c.timer = ground (arith, same) in
        let mine = found-owned i l.sockets c w.found in
        let other : 1 ≤ owned c.timer j l.sockets =
          rw equal at (found-owned j l.sockets c' found') in
        let one_client : j ≡ i =
          same_id c.timer i j l.sockets (v.owns.one_node c.timer) mine other in
        absurd (ground (arith, differs, one_client))
  ]

  close_client-Waits :
      (j : ℕ) (c' : Client) (l l' : EventLoop W)
      → Inv [] l
      → (j == i) ≡ false
      → find_client j l.sockets ≡ some c'
      → close_client c' l ≡ some l'
      → Waits l
      → Waits l'
  unfolding close_client
  close_client-Waits j c' l l' v differs found' e w =
      let apart = other_timer j c' l v w differs found' in
      let own = find_client-own j l.sockets c' found' in
      elim (Option-cases (destory c'.timer l.manager)) [
        | inl missed ↦ absurd (ground arith)
        | inr (m, done) ↦
            subst (λ o. Waits (Option.get_or o l)) (rw done at e)
              (record {
                found = rw own (find_client-delete i j l.sockets differs ∙ w.found);
                timer = find-destory c.timer c'.timer l.manager m apart done ∙ w.timer;
              })
      ]

  error_one-Waits :
      (j : ℕ) (l l' : EventLoop W)
      → Inv [] l
      → (j == i) ≡ false
      → error_one j l ≡ some l'
      → Waits l
      → Waits l'
  unfolding error_one Option.bind
  error_one-Waits j l l' v differs e w = elim (Bool-cases (has j l.listeners)) [
    | inl listener ↦
        subst (λ o. Waits (Option.get_or o l)) (rw listener at e)
          (record { found = w.found; timer = w.timer })
    | inr client ↦ elim (Option-cases (find_client j l.sockets)) [
      | inl missed ↦ absurd (ground arith)
      | inr (c', found') ↦
          close_client-Waits j c' l l' v differs found' (rw (client, found') at e) w
    ]
  ]

  pub process_error_queue-Waits :
      (js : List ℕ) (l l' : EventLoop W)
      → Inv [] l
      → Distinct js
      → All (IsWatched l) js
      → All (λ j. (j == i) ≡ false) js
      → process_error_queue js l ≡ some l'
      → Waits l
      → Waits l'
  unfolding process_error_queue Option.bind
  process_error_queue-Waits [] l l' v d h others e w = subst (λ o. Waits (Option.get_or o l)) e w
  process_error_queue-Waits (j ∷ js) l l' v d h others e w =
      let (l1, done, v1, keeps) = error_one-Inv j l v h.0 in
      process_error_queue-Waits js l1 l' v1 d.1
        (still-IsWatched (λ k. j ≢ k) l l1 js (λ k differs. keeps k (differs, tt)) d.0 h.1) others.1
        (rw done at e) (error_one-Waits j l l1 v others.0 done w)

  accept_one-Waits :
      (memory : ℕ → ℕ) (timeout : ℕ) (a : Accepted) (l : EventLoop W)
      → Inv [] l
      → Waits l
      → Waits (accept_one memory timeout a l)
  unfolding accept_one find_client
  accept_one-Waits memory timeout a l v w =
      let mine = found-owned i l.sockets c w.found in
      let old_id : (l.next_id == i) ≡ false =
        ground (arith, mine, owned-le-ids c.timer i l.sockets, v.fresh.fresh_id i) in
      let old_node : (l.manager.next_node == c.timer) ≡ false =
        ground (arith, mine, owned-le-nodes c.timer i l.sockets, v.fresh.fresh_node c.timer) in
      elim (Bool-cases a.is_valid) [
        | inl valid ↦
            rw (valid, if◌then◌else◌)
              (record {
                found = rw old_id w.found;
                timer =
                    find-start c.timer memory a.time timeout l.next_id l.manager old_node ∙ w.timer;
              })
        | inr invalid ↦ rw (invalid, if◌then◌else◌) (record { found = w.found; timer = w.timer })
      ]

  accept_all-Waits :
      (memory : ℕ → ℕ) (timeout : ℕ) (as' : List Accepted) (l : EventLoop W)
      → Inv [] l
      → Waits l
      → Waits (accept_all memory timeout as' l)
  unfolding accept_all
  accept_all-Waits memory timeout [] l v w = w
  accept_all-Waits memory timeout (a ∷ as') l v w =
      accept_all-Waits memory timeout as' (accept_one memory timeout a l)
        (accept_one-Inv memory timeout a l v).0 (accept_one-Waits memory timeout a l v w)

module _ {W : Type 0} (memory : ℕ → ℕ) (timeout : ℕ) (process : ℕ → W → Option (Bool × W)) (i : ℕ)
    (c : Client) (t : Timer ℕ) where
  after_process-Waits :
      (now j : ℕ) (c' : Client) (l l' : EventLoop W) (answer : Option (Bool × W))
      → Inv [] l
      → (j == i) ≡ false
      → find_client j l.sockets ≡ some c'
      → after_process memory timeout process now c' l answer ≡ some l'
      → Waits i c t l
      → Waits i c t l'
  unfolding after_process
  after_process-Waits now j c' l l' none v differs found' e w = absurd (ground arith)
  after_process-Waits now j c' l l' (some (false, world)) v differs found' e w =
      close_client-Waits i c t j c' (record l { world = world }) l'
        (record { owns = v.owns; watches = v.watches; fresh = v.fresh; told = v.told }) differs
        found' e (record { found = w.found; timer = w.timer })
  after_process-Waits now j c' l l' (some (true, world)) v differs found' e w =
      let apart = other_timer i c t j c' l v w differs found' in
      elim (Option-cases (restart memory now c'.timer l.manager)) [
        | inl missed ↦ absurd (ground arith)
        | inr (m, done) ↦
            subst (λ o. Waits i c t (Option.get_or o l)) (rw done at e)
              (record {
                found = w.found;
                timer = find-restart c.timer memory now c'.timer l.manager m apart done ∙ w.timer;
              })
      ]

  process_one-Waits :
      (r : Round) (j : ℕ) (l l' : EventLoop W)
      → Inv [] l
      → (j == i) ≡ false
      → process_one memory timeout process r j l ≡ some l'
      → Waits i c t l
      → Waits i c t l'
  unfolding process_one Option.bind
  process_one-Waits r j l l' v differs e w = elim (Bool-cases (has j l.listeners)) [
    | inl listener ↦
        subst (λ o. Waits i c t (Option.get_or o l)) (rw listener at e)
          (accept_all-Waits i c t memory timeout (r.accepted j) l v w)
    | inr client ↦ elim (Option-cases (find_client j l.sockets)) [
      | inl missed ↦ absurd (ground arith)
      | inr (c', found') ↦
          after_process-Waits (r.times j) j c' l l' (process j l.world) v differs found'
            (rw (client, found') at e) w
    ]
  ]

  pub process_queue-Waits :
      (r : Round) (js : List ℕ) (l l' : EventLoop W)
      → Answers process
      → Inv [] l
      → Distinct js
      → All (IsWatched l) js
      → All (λ j. (j == i) ≡ false) js
      → process_queue memory timeout process r js l ≡ some l'
      → Waits i c t l
      → Waits i c t l'
  unfolding process_queue Option.bind
  process_queue-Waits r [] l l' answers v d h others e w =
      subst (λ o. Waits i c t (Option.get_or o l)) e w
  process_queue-Waits r (j ∷ js) l l' answers v d h others e w =
      let (l1, done, v1, keeps) = process_one-Inv memory timeout process r j l answers v h.0 in
      process_queue-Waits r js l1 l' answers v1 d.1
        (still-IsWatched (λ k. j ≢ k) l l1 js (λ k differs. keeps k (differs, tt)) d.0 h.1) others.1
        (rw done at e) (process_one-Waits r j l l1 v others.0 done w)
