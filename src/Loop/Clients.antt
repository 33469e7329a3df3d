-- ===== src/Loop/Clients.antt =====
-- The clients of an event loop as a multiset of pairs, and what their timers, the reports and the
-- epoll set have to do with them.
use network_learn.Base.{
  ℕ, ◌+◌, ◌≤◌, ◌≡◌, ◌&&◌, List, [], ◌∷◌, ◌++◌, some, arith, ◌==◌, if◌then◌else◌, Bool-cases, inl,
  inr,
}
use network_learn.Loop.{Client, Report, accepts, closes, listener_error, find_client, delete}

abbrev pub owned : ℕ → ℕ → List Client → ℕ
owned n i [] = 0
owned n i (c ∷ cs) = (if c.timer == n && c.id == i then 1 else 0) + owned n i cs

abbrev pub nodes : ℕ → List Client → ℕ
nodes n [] = 0
nodes n (c ∷ cs) = (if c.timer == n then 1 else 0) + nodes n cs

abbrev pub ids : ℕ → List Client → ℕ
ids i [] = 0
ids i (c ∷ cs) = (if c.id == i then 1 else 0) + ids i cs

-- How often the handler was told that a socket was accepted, and closed.
abbrev pub opened : ℕ → List Report → ℕ
opened i [] = 0
opened i (accepts j ∷ rs) = (if j == i then 1 else 0) + opened i rs
opened i (closes j ∷ rs) = opened i rs
opened i (listener_error ∷ rs) = opened i rs

abbrev pub closed : ℕ → List Report → ℕ
closed i [] = 0
closed i (accepts j ∷ rs) = closed i rs
closed i (closes j ∷ rs) = (if j == i then 1 else 0) + closed i rs
closed i (listener_error ∷ rs) = closed i rs

pub opened-append : (i : ℕ) (rs qs : List Report) → opened i (rs ++ qs) ≡ opened i rs + opened i qs
opened-append i [] qs = omega arith
opened-append i (accepts j ∷ rs) qs = omega (arith, opened-append i rs qs)
opened-append i (closes j ∷ rs) qs = opened-append i rs qs
opened-append i (listener_error ∷ rs) qs = opened-append i rs qs

pub closed-append : (i : ℕ) (rs qs : List Report) → closed i (rs ++ qs) ≡ closed i rs + closed i qs
closed-append i [] qs = omega arith
closed-append i (accepts j ∷ rs) qs = closed-append i rs qs
closed-append i (closes j ∷ rs) qs = omega (arith, closed-append i rs qs)
closed-append i (listener_error ∷ rs) qs = closed-append i rs qs

pub owned-le-ids : (n i : ℕ) (cs : List Client) → owned n i cs ≤ ids i cs
owned-le-ids n i [] = omega arith
owned-le-ids n i (c ∷ cs) = ground (arith, owned-le-ids n i cs)

pub owned-le-nodes : (n i : ℕ) (cs : List Client) → owned n i cs ≤ nodes n cs
owned-le-nodes n i [] = omega arith
owned-le-nodes n i (c ∷ cs) = ground (arith, owned-le-nodes n i cs)

-- One client has a node, and one node a client.
pub same_id :
    (n i j : ℕ) (cs : List Client) → nodes n cs ≤ 1 → 1 ≤ owned n i cs → 1 ≤ owned n j cs → j ≡ i
same_id n i j [] h a b = absurd (omega (arith, a))
same_id n i j (c ∷ cs) h a b =
    ground (arith, same_id n i j cs, owned-le-nodes n i cs, owned-le-nodes n j cs)

pub same_node :
    (n m i : ℕ) (cs : List Client) → ids i cs ≤ 1 → 1 ≤ owned n i cs → 1 ≤ owned m i cs → m ≡ n
same_node n m i [] h a b = absurd (omega (arith, a))
same_node n m i (c ∷ cs) h a b =
    ground (arith, same_node n m i cs, owned-le-ids n i cs, owned-le-ids m i cs)

-- A client that is counted is found, under its own number.
pub find_client-ids :
    (i : ℕ) (cs : List Client)
    → 1 ≤ ids i cs
    → (c : Client) × (find_client i cs ≡ some c) × (c.id ≡ i) × (1 ≤ owned c.timer i cs)
unfolding find_client
find_client-ids i [] h = absurd (omega (arith, h))
find_client-ids i (c ∷ cs) h = elim (Bool-cases (c.id == i)) [
  | inl hit ↦ (c, ground arith, ground arith, ground arith)
  | inr miss ↦
      let (d, found, own, counted) = find_client-ids i cs (ground arith) in
      (d, ground arith, own, omega (arith, counted))
]

module _ (i : ℕ) where
  pub owned-delete :
      (n j : ℕ) (cs : List Client) (c : Client)
      → find_client i cs ≡ some c
      → owned n j cs ≡ (if c.timer == n && c.id == j then 1 else 0) + owned n j (delete i cs)
  unfolding find_client delete
  owned-delete n j [] c e = cc
  owned-delete n j (x ∷ cs) c e = elim (Bool-cases (x.id == i)) [
    | inl hit ↦ ground arith
    | inr miss ↦ ground (arith, owned-delete n j cs c)
  ]

  pub nodes-delete :
      (n : ℕ) (cs : List Client) (c : Client)
      → find_client i cs ≡ some c
      → nodes n cs ≡ (if c.timer == n then 1 else 0) + nodes n (delete i cs)
  unfolding find_client delete
  nodes-delete n [] c e = cc
  nodes-delete n (x ∷ cs) c e = elim (Bool-cases (x.id == i)) [
    | inl hit ↦ ground arith
    | inr miss ↦ ground (arith, nodes-delete n cs c)
  ]

  pub ids-delete :
      (j : ℕ) (cs : List Client) (c : Client)
      → find_client i cs ≡ some c
      → ids j cs ≡ (if c.id == j then 1 else 0) + ids j (delete i cs)
  unfolding find_client delete
  ids-delete j [] c e = cc
  ids-delete j (x ∷ cs) c e = elim (Bool-cases (x.id == i)) [
    | inl hit ↦ ground arith
    | inr miss ↦ ground (arith, ids-delete j cs c)
  ]
