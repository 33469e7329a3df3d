-- ===== src/Timer/Tally.antt =====
-- The timers as a multiset of pairs: how often a node belongs to a number as its user data.
use network_learn.Base.{
  ℕ, ◌+◌, ◌≤◌, ◌≡◌, refl, sym, ◌∙◌, false, ◌&&◌, List, [], ◌∷◌, ◌++◌, map, some, arith, ◌==◌,
  if◌then◌else◌, Bool-cases, Option-cases, inl, inr, leb, is_empty,
}
use network_learn.Timer.{
  Timer, TimerManager, place, start, find, remove, update, restart_list, restart, destory,
  take_expired,
}

-- 1 if the node and the user data are those of the timer.
abbrev pub one : ℕ → ℕ → Timer ℕ → ℕ
one n i t = if t.node == n && t.user_data == i then 1 else 0

abbrev pub tally : ℕ → ℕ → List (Timer ℕ) → ℕ
tally n i [] = 0
tally n i (t ∷ ts) = one n i t + tally n i ts

module _ (n i : ℕ) where
  tally-place :
      (t : Timer ℕ) (xs ys : List (Timer ℕ))
      → place t xs ≡ some ys
      → tally n i ys ≡ one n i t + tally n i xs
  unfolding place
  tally-place t [] ys e = cc
  tally-place t (x ∷ xs) ys e = elim (Option-cases (place t xs)) [
    | inl missed ↦ ground arith
    | inr (l, found) ↦ ground (arith, tally-place t xs l found)
  ]

  pub tally-remove :
      (node : ℕ) (xs : List (Timer ℕ)) (t : Timer ℕ)
      → find node xs ≡ some t
      → tally n i xs ≡ one n i t + tally n i (remove node xs)
  unfolding find remove
  tally-remove node [] t e = cc
  tally-remove node (x ∷ xs) t e = elim (Bool-cases (x.node == node)) [
    | inl hit ↦ ground arith
    | inr miss ↦ ground (arith, tally-remove node xs t)
  ]

  pub tally-update :
      (node : ℕ) (t' : Timer ℕ) (xs : List (Timer ℕ)) (t : Timer ℕ)
      → find node xs ≡ some t
      → t'.node ≡ t.node
      → t'.user_data ≡ t.user_data
      → tally n i (update node t' xs) ≡ tally n i xs
  unfolding find update
  tally-update node t' [] t e p q = cc
  tally-update node t' (x ∷ xs) t e p q = elim (Bool-cases (x.node == node)) [
    | inl hit ↦ ground arith
    | inr miss ↦ ground (arith, tally-update node t' xs t)
  ]

  pub tally-start :
      (memory : ℕ → ℕ) (now timeout : ℕ) (user_data : ℕ) (m : TimerManager ℕ)
      → tally n i (start memory now timeout user_data m).0.list
        ≡ (if m.next_node == n && user_data == i then 1 else 0) + tally n i m.list
  unfolding start
  tally-start memory now timeout user_data m =
      let t : Timer ℕ = record {
        node = m.next_node;
        user_data = user_data;
        timeout = timeout;
        deadline = now + memory timeout;
      } in
      elim (Option-cases (place t m.list)) [
        | inl missed ↦ rw (missed, start) refl
        | inr (l, found) ↦ rw (found, start) (tally-place t m.list l found)
      ]

  tally-restart_list :
      (node : ℕ) (t' : Timer ℕ) (xs : List (Timer ℕ)) (t : Timer ℕ)
      → find node xs ≡ some t
      → t'.node ≡ t.node
      → t'.user_data ≡ t.user_data
      → tally n i (restart_list node t' xs) ≡ tally n i xs
  unfolding restart_list
  tally-restart_list node t' xs t e p q = elim (Option-cases (place t' (remove node xs))) [
    | inl missed ↦ rw (missed, restart_list) (tally-update node t' xs t e p q)
    | inr (l, found) ↦
        let same : one n i t' ≡ one n i t = rw (p, q) refl in
        rw (found, restart_list)
          (tally-place t' (remove node xs) l found ∙ rw same (sym (tally-remove node xs t e)))
  ]

  pub tally-append : (xs ys : List (Timer ℕ)) → tally n i (xs ++ ys) ≡ tally n i xs + tally n i ys
  tally-append [] ys = omega arith
  tally-append (x ∷ xs) ys = omega (arith, tally-append xs ys)

pub find-node :
    (node : ℕ) (xs : List (Timer ℕ)) (t : Timer ℕ) → find node xs ≡ some t → t.node ≡ node
unfolding find
find-node node [] t e = cc
find-node node (x ∷ xs) t e = elim (Bool-cases (x.node == node)) [
  | inl hit ↦ ground arith
  | inr miss ↦ find-node node xs t (ground arith)
]

-- A timer that is counted is found.
pub find-tally :
    (n i : ℕ) (xs : List (Timer ℕ)) → 1 ≤ tally n i xs → (t : Timer ℕ) × (find n xs ≡ some t)
unfolding find
find-tally n i [] h = absurd (omega (arith, h))
find-tally n i (x ∷ xs) h = elim (Bool-cases (x.node == n)) [
  | inl hit ↦ (x, ground arith)
  | inr miss ↦ let (t, found) = find-tally n i xs (ground arith) in (t, ground arith)
]

tally-is_empty : (n i : ℕ) (xs : List (Timer ℕ)) → 1 ≤ tally n i xs → is_empty xs ≡ false
tally-is_empty n i [] h = absurd (omega (arith, h))
tally-is_empty n i (x ∷ xs) h = refl

-- `restart` at a node that is counted succeeds, and changes no pair.
pub restart-tally :
    (memory : ℕ → ℕ) (now n i : ℕ) (m : TimerManager ℕ)
    → 1 ≤ tally n i m.list
    → (m' : TimerManager ℕ) × (restart memory now n m ≡ some m')
      × ((k j : ℕ) → tally k j m'.list ≡ tally k j m.list)
      × (m'.next_node ≡ m.next_node)
unfolding restart
restart-tally memory now n i m h =
    let (t, found) = find-tally n i m.list h in
    (
      record m { list = restart_list n (record t { deadline = now + memory t.timeout }) m.list },
      rw (restart, found) refl,
      λ k j.
          tally-restart_list k j n (record t { deadline = now + memory t.timeout }) m.list t found
            refl refl,
      refl,
    )

-- `destory` at a node that is counted for one number only succeeds, and takes one pair.
pub destory-tally :
    (n i : ℕ) (m : TimerManager ℕ)
    → 1 ≤ tally n i m.list
    → ((j : ℕ) → 1 ≤ tally n j m.list → j ≡ i)
    → (m' : TimerManager ℕ) × (destory n m ≡ some m')
      × ((k j : ℕ) → tally k j m.list ≡ (if n == k && i == j then 1 else 0) + tally k j m'.list)
      × (m'.next_node ≡ m.next_node)
unfolding destory
destory-tally n i m h only =
    let (t, found) = find-tally n i m.list h in
    let own = find-node n m.list t found in
    let counted : 1 ≤ tally n t.user_data m.list =
      ground (arith, own, tally-remove n t.user_data n m.list t found) in
    let data_is : t.user_data ≡ i = only t.user_data counted in
    let some_left : is_empty m.list ≡ false = tally-is_empty n i m.list h in
    (
      record m { list = remove n m.list },
      rw (destory, some_left, found) refl,
      λ k j. tally-remove k j n m.list t found ∙ rw (own, data_is) refl,
      refl,
    )

-- What `checkout` takes off the list.
unfoldable pub expired : ℕ → List (Timer ℕ) → List (Timer ℕ)
expired now [] = []
expired now (x ∷ xs) = let rest = expired now xs in if leb x.deadline now then x ∷ rest else []

pub take_expired-expired :
    (now : ℕ) (xs : List (Timer ℕ))
    → ((take_expired now xs).0 ≡ map (λ t. t.user_data) (expired now xs))
      × ((n i : ℕ) → tally n i xs ≡ tally n i (expired now xs) + tally n i (take_expired now xs).1)
unfolding take_expired expired
take_expired-expired now [] = (refl, λ n i. omega arith)
take_expired-expired now (x ∷ xs) = elim (Bool-cases (leb x.deadline now)) [
  | inl over ↦
      let (data_are, counts) = take_expired-expired now xs in
      (rw (over, data_are) refl, λ n i. rw over (omega (arith, counts n i)))
  | inr later ↦ (rw later refl, λ n i. rw later (omega arith))
]
