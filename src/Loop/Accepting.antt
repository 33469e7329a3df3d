-- ===== src/Loop/Accepting.antt =====
-- The loop over `accept`: each client that is kept has a timer and is watched.
use network_learn.Base.{
  ℕ, suc, ◌+◌, ◌≡◌, ◌∙◌, ◌&&◌, List, [], ◌∷◌, ◌++◌, arith, ◌==◌, if◌then◌else◌, Bool-cases, inl,
  inr,
}
use network_learn.Timer as Timer
use network_learn.Timer.{TimerManager, restart}
use network_learn.Timer.Tally.{tally, tally-start}
use network_learn.Epoll.{Epoll, has, insert}
use network_learn.Epoll.Watched.{occurs, insert_lem}
use network_learn.Loop.{Client, Report, accepts, EventLoop, Accepted}
use network_learn.Loop.Exec.{accept_one, accept_all}
use network_learn.Loop.Clients.{nodes, ids, opened-append, closed-append}
use network_learn.Loop.Invariant.{Matched, Watching, Fresh, Inv, accept-Told}
use network_learn.Loop.Closing.{Keeps}

accept-Matched :
    (i n : ℕ) (timers timers' : List (Timer.Timer ℕ)) (sockets : List Client)
    (reports : List Report)
    → nodes n sockets ≡ 0
    → ids i sockets ≡ 0
    → ((k j : ℕ) → tally k j timers' ≡ (if n == k && i == j then 1 else 0) + tally k j timers)
    → Matched [] timers sockets reports
    → Matched [] timers' (record { id = i; timer = n } ∷ sockets) (reports ++ accepts i ∷ [])
accept-Matched i n timers timers' sockets reports new_node new_id counts v = record {
  matched = λ k j. omega (arith, counts k j, v.matched k j);
  one_node = λ k. elim (Bool-cases (n == k)) [
    | inl same ↦ ground (arith, same, new_node)
    | inr differs ↦ ground (arith, differs, v.one_node k)
  ];
  one_id = λ j. elim (Bool-cases (i == j)) [
    | inl same ↦ ground (arith, same, new_id)
    | inr differs ↦ ground (arith, differs, v.one_id j)
  ];
  balanced = λ j. omega (
    arith,
    v.balanced j,
    opened-append j reports (accepts i ∷ []),
    closed-append j reports (accepts i ∷ []),
  );
}

accept-Watching :
    (i n : ℕ) (listeners : List ℕ) (epoll : Epoll) (sockets : List Client)
    → occurs i epoll.watched ≡ 0
    → Watching listeners epoll sockets
    → Watching listeners (insert i epoll) (record { id = i; timer = n } ∷ sockets)
accept-Watching i n listeners epoll sockets absent v =
    let (added, counts) = insert_lem i epoll absent v.counted in
    record {
      clients = λ j h. rw added (omega (arith, v.clients j h));
      once = λ j. rw added (elim (Bool-cases (i == j)) [
        | inl same ↦ ground (arith, same, absent)
        | inr differs ↦ ground (arith, differs, v.once j)
      ]);
      counted = counts;
    }

accept-Fresh :
    (i n : ℕ) (listeners : List ℕ) (sockets : List Client)
    → Fresh listeners i n sockets
    → Fresh listeners (suc i) (suc n) (record { id = i; timer = n } ∷ sockets)
accept-Fresh i n listeners sockets v = record {
  fresh_id = λ j h. ground (arith, h, v.fresh_id j);
  fresh_node = λ k h. ground (arith, h, v.fresh_node k);
  apart = λ j h.
      let (no_client, below) = v.apart j h in
      (ground (arith, no_client, below), omega (arith, below));
}

module _ {W : Type 0} where
  new_unwatched : (l : EventLoop W) → Inv [] l → occurs l.next_id l.epoll.watched ≡ 0
  new_unwatched l v = elim (Bool-cases (has l.next_id l.listeners)) [
    | inl listener ↦ absurd (omega (arith, (v.fresh.apart l.next_id listener).1))
    | inr client ↦ v.watches.clients l.next_id client ∙ v.fresh.fresh_id l.next_id (omega arith)
  ]

module _ {W : Type 0} (memory : ℕ → ℕ) (timeout : ℕ) where
  pub accept_one-Inv :
      (a : Accepted) (l : EventLoop W)
      → Inv [] l
      → Inv [] (accept_one memory timeout a l) × Keeps [] l (accept_one memory timeout a l)
  unfolding accept_one Timer.start
  accept_one-Inv a l v = elim (Bool-cases a.is_valid) [
    | inl valid ↦
        let i = l.next_id in
        let n = l.manager.next_node in
        let m' = (Timer.start memory a.time timeout i l.manager).0 in
        let absent = new_unwatched l v in
        let added = (insert_lem i l.epoll absent v.watches.counted).0 in
        rw (valid, if◌then◌else◌)
          (
            record {
              owns =
                  accept-Matched i n l.manager.list m'.list l.sockets l.reports
                    (v.fresh.fresh_node n (omega arith)) (v.fresh.fresh_id i (omega arith))
                    (λ k j. tally-start k j memory a.time timeout i l.manager) v.owns;
              watches = accept-Watching i n l.listeners l.epoll l.sockets absent v.watches;
              fresh = accept-Fresh i n l.listeners l.sockets v.fresh;
              told = accept-Told i l.reports v.told;
            },
            λ j apart w. rw added (omega (arith, w)),
          )
    | inr invalid ↦
        rw (invalid, if◌then◌else◌)
          (
            record {
              owns = v.owns;
              watches = v.watches;
              fresh = record {
                fresh_id = λ j h. v.fresh.fresh_id j (omega (arith, h));
                fresh_node = v.fresh.fresh_node;
                apart = λ j h.
                    let (none_is, below) = v.fresh.apart j h in (none_is, omega (arith, below));
              };
              told = record {
                once = v.told.once;
                later = λ j h. v.told.later j (omega (arith, h));
              };
            },
            λ j apart w. w,
          )
  ]

  pub accept_all-Inv :
      (as' : List Accepted) (l : EventLoop W)
      → Inv [] l
      → Inv [] (accept_all memory timeout as' l) × Keeps [] l (accept_all memory timeout as' l)
  unfolding accept_all
  accept_all-Inv [] l v = (v, λ j apart w. w)
  accept_all-Inv (a ∷ as') l v =
      let (v1, keeps) = accept_one-Inv a l v in
      let (v2, keeps') = accept_all-Inv as' (accept_one memory timeout a l) v1 in
      (v2, λ j apart w. keeps' j tt (keeps j tt w))
