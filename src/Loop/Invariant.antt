-- ===== src/Loop/Invariant.antt =====
-- What an event loop keeps between its calls, and what closing a client does to it.
use network_learn.Base.{
  ℕ, suc, ◌+◌, ◌≤◌, ◌<◌, ◌≡◌, true, false, ◌&&◌, List, [], ◌∷◌, ◌++◌, some, arith, ◌==◌,
  if◌then◌else◌, Bool-cases, inl, inr,
}
use network_learn.Timer.{Timer}
use network_learn.Timer.Tally.{tally}
use network_learn.Epoll.{Epoll, has, erase}
use network_learn.Epoll.Watched.{occurs, IsCounted, erase-IsCounted, occurs-erase}
use network_learn.Loop.{Client, Report, accepts, closes, EventLoop, find_client, delete}
use network_learn.Loop.Clients.{
  owned, nodes, ids, opened, closed, opened-append, closed-append, owned-delete, nodes-delete,
  ids-delete,
}

-- Each client has one timer, and each timer, and each of those in `pending`, one client; every client
-- that was reported as accepted is a client now, or was reported as closed.
pub record Matched (pending : List (Timer ℕ)) (timers : List (Timer ℕ)) (sockets : List Client)
    (reports : List Report) : Type 0 where
  pub matched : (n i : ℕ) → tally n i pending + tally n i timers ≡ owned n i sockets
  pub one_node : (n : ℕ) → nodes n sockets ≤ 1
  pub one_id : (i : ℕ) → ids i sockets ≤ 1
  pub balanced : (i : ℕ) → opened i reports ≡ closed i reports + ids i sockets

-- The system watches every client, and no socket twice.
pub record Watching (listeners : List ℕ) (epoll : Epoll) (sockets : List Client) : Type 0 where
  pub clients : (i : ℕ) → has i listeners ≡ false → occurs i epoll.watched ≡ ids i sockets
  pub once : (i : ℕ) → occurs i epoll.watched ≤ 1
  pub counted : IsCounted epoll

-- What the allocators give next is not in use, and a listener is no client.
pub record Fresh (listeners : List ℕ) (next_id next_node : ℕ) (sockets : List Client) : Type 0 where
  pub fresh_id : (i : ℕ) → next_id ≤ i → ids i sockets ≡ 0
  pub fresh_node : (n : ℕ) → next_node ≤ n → nodes n sockets ≡ 0
  pub apart : (i : ℕ) → has i listeners ≡ true → (ids i sockets ≡ 0) × (i < next_id)

-- No number is given twice to a client that is accepted.
pub record Told (next_id : ℕ) (reports : List Report) : Type 0 where
  pub once : (i : ℕ) → opened i reports ≤ 1
  pub later : (i : ℕ) → next_id ≤ i → opened i reports ≡ 0

pub unopened-Told :
    (r : Report) (next_id : ℕ) (reports : List Report)
    → ((i : ℕ) → opened i (r ∷ []) ≡ 0)
    → Told next_id reports
    → Told next_id (reports ++ r ∷ [])
unopened-Told r next_id reports none_is v = record {
  once = λ i. omega (arith, v.once i, none_is i, opened-append i reports (r ∷ []));
  later = λ i h. omega (arith, v.later i h, none_is i, opened-append i reports (r ∷ []));
}

pub accept-Told :
    (i : ℕ) (reports : List Report) → Told i reports → Told (suc i) (reports ++ accepts i ∷ [])
accept-Told i reports v = record {
  once = λ j. elim (Bool-cases (i == j)) [
    | inl same ↦ ground (arith, same, v.later i, opened-append j reports (accepts i ∷ []))
    | inr differs ↦ ground (arith, differs, v.once j, opened-append j reports (accepts i ∷ []))
  ];
  later = λ j h. ground (arith, h, v.later j, opened-append j reports (accepts i ∷ []));
}

module _ {W : Type 0} where
  pub record Inv (pending : List (Timer ℕ)) (l : EventLoop W) : Type 0 where
    pub owns : Matched pending l.manager.list l.sockets l.reports
    pub watches : Watching l.listeners l.epoll l.sockets
    pub fresh : Fresh l.listeners l.next_id l.manager.next_node l.sockets
    pub told : Told l.next_id l.reports

-- Deleting a client whose pair is taken from the timers.
pub delete-Matched :
    (i : ℕ) (c : Client) (pending pending' timers timers' : List (Timer ℕ)) (sockets : List Client)
    (reports : List Report)
    → find_client i sockets ≡ some c
    → ((n j : ℕ)
        → tally n j pending + tally n j timers
          ≡ (if c.timer == n && c.id == j then 1 else 0) + (tally n j pending' + tally n j timers'))
    → Matched pending timers sockets reports
    → Matched pending' timers' (delete i sockets) (reports ++ closes c.id ∷ [])
delete-Matched i c pending pending' timers timers' sockets reports found taken v = record {
  matched = λ n j. omega (arith, taken n j, v.matched n j, owned-delete i n j sockets c found);
  one_node = λ n. omega (arith, v.one_node n, nodes-delete i n sockets c found);
  one_id = λ j. omega (arith, v.one_id j, ids-delete i j sockets c found);
  balanced = λ j. omega (
    arith,
    v.balanced j,
    ids-delete i j sockets c found,
    opened-append j reports (closes c.id ∷ []),
    closed-append j reports (closes c.id ∷ []),
  );
}

pub delete-Watching :
    (i : ℕ) (c : Client) (listeners : List ℕ) (epoll : Epoll) (sockets : List Client)
    → find_client i sockets ≡ some c
    → c.id ≡ i
    → has i listeners ≡ false
    → Watching listeners epoll sockets
    → Watching listeners (erase c.id epoll) (delete i sockets)
delete-Watching i c listeners epoll sockets found own client v = record {
  clients = λ j h.
      omega (arith, v.clients j h, ids-delete i j sockets c found, occurs-erase c.id j epoll);
  once = λ j. omega (arith, v.once j, occurs-erase c.id j epoll);
  counted =
      erase-IsCounted c.id epoll
        (rw own (ground (arith, own, v.clients i client, ids-delete i i sockets c found)))
        v.counted;
}

pub delete-Fresh :
    (i : ℕ) (c : Client) (listeners : List ℕ) (next_id next_node : ℕ) (sockets : List Client)
    → find_client i sockets ≡ some c
    → Fresh listeners next_id next_node sockets
    → Fresh listeners next_id next_node (delete i sockets)
delete-Fresh i c listeners next_id next_node sockets found v = record {
  fresh_id = λ j h. omega (arith, v.fresh_id j h, ids-delete i j sockets c found);
  fresh_node = λ n h. omega (arith, v.fresh_node n h, nodes-delete i n sockets c found);
  apart = λ j h. (omega (arith, (v.apart j h).0, ids-delete i j sockets c found), (v.apart j h).1);
}
