-- ===== src/Loop/Timeouts.antt =====
-- The timeouts and the destructor: each timer that is over has its client.
use mathlib.Core.Option
use network_learn.Base.{
  ℕ, zero, suc, ◌+◌, ◌≤◌, ◌<◌, ◌≡◌, refl, ap, ◌∙◌, false, ◌&&◌, List, [], ◌∷◌, ◌++◌, map, some,
  arith, ◌==◌, if◌then◌else◌, Bool-cases, inl, inr, length,
}
use network_learn.Timer.{Timer, take_expired, checkout, take_first, take_head}
use network_learn.Timer.Tally.{one, tally, expired, take_expired-expired}
use network_learn.Epoll.{has, erase}
use network_learn.Loop.{
  Client, Report, closes, EventLoop, find_client, delete, timeout_one, process_timeout_queue,
  close_expired,
}
use network_learn.Loop.Exec.{drain, destroy}
use network_learn.Loop.Clients.{
  owned, ids, opened, closed, opened-append, owned-le-ids, same_node, find_client-ids, ids-delete,
}
use network_learn.Loop.Invariant.{
  Matched, Inv, delete-Matched, delete-Watching, delete-Fresh, unopened-Told,
}

-- The first of the timers that are over has a client, whose timer it is.
owner :
    (t : Timer ℕ) (pending timers : List (Timer ℕ)) (sockets : List Client) (reports : List Report)
    → Matched (t ∷ pending) timers sockets reports
    → (c : Client) × (find_client t.user_data sockets ≡ some c)
      × (c.id ≡ t.user_data)
      × ((n j : ℕ)
          → tally n j (t ∷ pending) + tally n j timers
            ≡ (if c.timer == n && c.id == j then 1 else 0) + (tally n j pending + tally n j timers))
owner t pending timers sockets reports v =
    let i = t.user_data in
    let here : 1 ≤ one t.node i t = ground arith in
    let is_owned : 1 ≤ owned t.node i sockets = omega (arith, here, v.matched t.node i) in
    let (c, found, own, counted) =
      find_client-ids i sockets (omega (arith, is_owned, owned-le-ids t.node i sockets)) in
    let same : c.timer ≡ t.node =
      same_node t.node c.timer i sockets (v.one_id i) is_owned counted in
    (c, found, own, λ n j. rw (same, own) (omega arith))

pub no_client : (sockets : List Client) → ((n i : ℕ) → owned n i sockets ≡ 0) → sockets ≡ []
no_client [] h = refl
no_client (c ∷ cs) h = absurd (ground (arith, h c.timer c.id))

first_pending :
    (t : Timer ℕ) (ts : List (Timer ℕ)) (sockets : List Client) (reports : List Report)
    → Matched [] (t ∷ ts) sockets reports
    → Matched (t ∷ []) ts sockets reports
first_pending t ts sockets reports v = record {
  matched = λ n i. omega (arith, v.matched n i);
  one_node = v.one_node;
  one_id = v.one_id;
  balanced = v.balanced;
}

module _ {W : Type 0} where
  timeout_one-Inv :
      (t : Timer ℕ) (pending : List (Timer ℕ)) (l : EventLoop W)
      → Inv (t ∷ pending) l
      → (l' : EventLoop W) × (timeout_one t.user_data l ≡ some l')
        × Inv pending l'
        × (l'.manager ≡ l.manager)
  unfolding timeout_one
  timeout_one-Inv t pending l v =
      let (c, found, own, counts) = owner t pending l.manager.list l.sockets l.reports v.owns in
      let found' : find_client c.id l.sockets ≡ some c = rw own found in
      let counted : 1 ≤ ids c.id l.sockets =
        ground (arith, ids-delete c.id c.id l.sockets c found') in
      let client : has c.id l.listeners ≡ false = elim (Bool-cases (has c.id l.listeners)) [
        | inl listener ↦ absurd (omega (arith, counted, (v.fresh.apart c.id listener).0))
        | inr client ↦ client
      ] in
      (
        record l {
          epoll = erase c.id l.epoll;
          reports = l.reports ++ closes c.id ∷ [];
          sockets = delete c.id l.sockets;
        },
        rw found refl,
        record {
          owns =
              delete-Matched c.id c (t ∷ pending) pending l.manager.list l.manager.list l.sockets
                l.reports found' counts v.owns;
          watches =
              delete-Watching c.id c l.listeners l.epoll l.sockets found' refl client v.watches;
          fresh =
              delete-Fresh c.id c l.listeners l.next_id l.manager.next_node l.sockets found'
                v.fresh;
          told = unopened-Told (closes c.id) l.next_id l.reports (λ i. refl) v.told;
        },
        refl,
      )

  pub process_timeout_queue-Inv :
      (pending : List (Timer ℕ)) (l : EventLoop W)
      → Inv pending l
      → (l' : EventLoop W) × (process_timeout_queue (map (λ t. t.user_data) pending) l ≡ some l')
        × Inv [] l'
        × (l'.manager ≡ l.manager)
  unfolding process_timeout_queue Option.bind
  process_timeout_queue-Inv [] l v = (l, refl, v, refl)
  process_timeout_queue-Inv (t ∷ pending) l v =
      let (l1, done, v1, same) = timeout_one-Inv t pending l v in
      let (l2, done', v2, same') = process_timeout_queue-Inv pending l1 v1 in
      (l2, rw (done, done') refl, v2, same' ∙ same)

  -- The end of a round: every client whose timer is over is closed.
  pub close_expired-Inv :
      (now : ℕ) (l : EventLoop W)
      → Inv [] l
      → (l' : EventLoop W) × (close_expired now l ≡ some l')
        × Inv [] l'
        × (l'.manager.list ≡ (take_expired now l.manager.list).1)
  unfolding close_expired checkout
  close_expired-Inv now l v =
      let (data_are, counts) = take_expired-expired now l.manager.list in
      let left = (take_expired now l.manager.list).1 in
      let l1 : EventLoop W = record l { manager = record l.manager { list = left } } in
      let over = expired now l.manager.list in
      let v1 : Inv over l1 = record {
        owns = record {
          matched = λ n i. omega (arith, v.owns.matched n i, counts n i);
          one_node = v.owns.one_node;
          one_id = v.owns.one_id;
          balanced = v.owns.balanced;
        };
        watches = v.watches;
        fresh = v.fresh;
        told = v.told;
      } in
      let (l2, done, v2, same) = process_timeout_queue-Inv over l1 v1 in
      (l2, rw data_are done, v2, ap (λ m. m.list) same)

  drain_list :
      (fuel : ℕ) (l : EventLoop W) (timers : List (Timer ℕ))
      → l.manager.list ≡ timers
      → Matched [] timers l.sockets l.reports
      → length timers < fuel
      → (l' : EventLoop W) × (drain fuel l ≡ some l')
        × (l'.sockets ≡ [])
        × (l'.manager.list ≡ [])
        × ((i : ℕ) → opened i l'.reports ≡ closed i l'.reports)
        × ((i : ℕ) → opened i l'.reports ≡ opened i l.reports)
  unfolding drain take_first take_head Option.bind
  drain_list zero l timers e v h = absurd (omega (arith, h))
  drain_list (suc fuel) l [] e v h =
      let none_left = no_client l.sockets (λ n i. omega (arith, v.matched n i)) in
      (l, rw e refl, none_left, e, λ i. v.balanced i ∙ (rw none_left (omega arith)), λ i. refl)
  drain_list (suc fuel) l (t ∷ ts) e v h =
      let (c, found, own, counts) =
        owner t [] ts l.sockets l.reports (first_pending t ts l.sockets l.reports v) in
      let found' : find_client c.id l.sockets ≡ some c = rw own found in
      let l1 : EventLoop W = record l {
        manager = record l.manager { list = ts };
        reports = l.reports ++ closes c.id ∷ [];
        sockets = delete c.id l.sockets;
      } in
      let v1 =
        delete-Matched c.id c (t ∷ []) [] ts ts l.sockets l.reports found' counts
          (first_pending t ts l.sockets l.reports v) in
      let (l2, done, no_sockets, no_timers, balanced, same) =
        drain_list fuel l1 ts refl v1 (omega (arith, h)) in
      (
        l2,
        rw (e, found) done,
        no_sockets,
        no_timers,
        balanced,
        λ i. same i ∙ omega (arith, opened-append i l.reports (closes c.id ∷ [])),
      )

  -- The destructor, whatever the system still watches.
  pub destroy-Inv :
      (l : EventLoop W)
      → Inv [] l
      → (l' : EventLoop W) × (destroy l ≡ some l')
        × (l'.sockets ≡ [])
        × (l'.manager.list ≡ [])
        × ((i : ℕ) → opened i l'.reports ≡ closed i l'.reports)
        × ((i : ℕ) → opened i l'.reports ≡ opened i l.reports)
  unfolding destroy
  destroy-Inv l v =
      drain_list (suc (length l.manager.list)) l l.manager.list refl v.owns (omega arith)
