-- ===== src/Loop/Count.antt =====
-- `m_count` against the sockets that there are, and `unregisterListeners`.
use network_learn.Base.{
  All, ◌≢◌, ℕ, ◌+◌, ◌-◌, ◌*◌, ◌%◌, ◌^◌, ◌≤◌, ◌<◌, ◌≡◌, refl, ◌∙◌, true, List, [], ◌∷◌, ◌++◌, map,
  arith, ◌==◌, if◌then◌else◌, Bool-cases, inl, inr, length,
}
use network_learn.Epoll.{has, unwatch, erase}
use network_learn.Epoll.Watched.{
  occurs, has-occurs, occurs-has, occurs-unwatch, occurs-erase, length-unwatch,
}
use network_learn.Loop.{Client, EventLoop, unregister}
use network_learn.Loop.Clients.{ids}
use network_learn.Loop.Invariant.{Inv}
use network_learn.Loop.Closing.{Distinct, erase-Watching, still-IsWatched}
use network_learn.Loop.Rounds.{Distinct-occurs}

-- The listeners that are watched, and those that are not since an error.
abbrev pub live : List ℕ → List ℕ → List ℕ
live watched [] = []
live watched (x ∷ xs) = if has x watched then x ∷ live watched xs else live watched xs

abbrev pub failed : List ℕ → List ℕ → ℕ
failed watched [] = 0
failed watched (x ∷ xs) = (if has x watched then 0 else 1) + failed watched xs

length-live : (watched xs : List ℕ) → length xs ≡ length (live watched xs) + failed watched xs
length-live watched [] = omega arith
length-live watched (x ∷ xs) = ground (arith, length-live watched xs)

occurs-append : (i : ℕ) (xs ys : List ℕ) → occurs i (xs ++ ys) ≡ occurs i xs + occurs i ys
occurs-append i [] ys = omega arith
occurs-append i (x ∷ xs) ys = omega (arith, occurs-append i xs ys)

length-append : (xs ys : List ℕ) → length (xs ++ ys) ≡ length xs + length ys
length-append [] ys = omega arith
length-append (x ∷ xs) ys = omega (arith, length-append xs ys)

counted-once : (i : ℕ) (xs : List ℕ) → has i xs ≡ true → occurs i xs ≤ 1 → occurs i xs ≡ 1
counted-once i xs h k = ground (arith, h, k, has-occurs i xs)

-- Lists with the same members, counted, have the same length.
same-length : (xs ys : List ℕ) → ((i : ℕ) → occurs i xs ≡ occurs i ys) → length xs ≡ length ys
same-length [] [] h = refl
same-length [] (y ∷ ys) h = absurd (ground (arith, h y))
same-length (x ∷ xs) ys h =
    let here : 1 ≤ occurs x ys = ground (arith, h x) in
    let rest = same-length xs (unwatch x ys) (λ i. ground (arith, h i, occurs-unwatch x i ys)) in
    omega (arith, rest, length-unwatch x ys here)

occurs-live :
    (watched : List ℕ) (i : ℕ) (xs : List ℕ)
    → occurs i (live watched xs) ≡ (if has i watched then occurs i xs else 0)
occurs-live watched i [] = ground arith
occurs-live watched i (x ∷ xs) = elim (Bool-cases (x == i)) [
  | inl same ↦
      let equal : x ≡ i = ground (arith, same) in
      rw equal (elim (Bool-cases (has i watched)) [
        | inl is_live ↦ ground (arith, is_live, occurs-live watched i xs)
        | inr is_gone ↦ ground (arith, is_gone, occurs-live watched i xs)
      ])
  | inr differs ↦ elim (Bool-cases (has x watched)) [
    | inl is_live ↦ ground (arith, is_live, differs, occurs-live watched i xs)
    | inr is_gone ↦ ground (arith, is_gone, differs, occurs-live watched i xs)
  ]
]

occurs-ids : (i : ℕ) (cs : List Client) → occurs i (map (λ c. c.id) cs) ≡ ids i cs
occurs-ids i [] = refl
occurs-ids i (c ∷ cs) = omega (arith, occurs-ids i cs)

length-map : (cs : List Client) → length (map (λ c. c.id) cs) ≡ length cs
length-map [] = refl
length-map (c ∷ cs) = omega (arith, length-map cs)

module _ {W : Type 0} where
  -- What is watched are the clients and the listeners that have not failed.
  watched_members :
      (l : EventLoop W)
      → Inv [] l
      → Distinct l.listeners
      → (i : ℕ)
      → occurs i l.epoll.watched
        ≡ occurs i (map (λ c. c.id) l.sockets ++ live l.epoll.watched l.listeners)
  watched_members l v d i =
      let watched = l.epoll.watched in
      let split = occurs-append i (map (λ c. c.id) l.sockets) (live watched l.listeners) in
      let clients = occurs-ids i l.sockets in
      let listeners = occurs-live watched i l.listeners in
      elim (Bool-cases (has i l.listeners)) [
        | inl listener ↦
            let none_is = (v.fresh.apart i listener).0 in
            let once = counted-once i l.listeners listener (Distinct-occurs i l.listeners d) in
            elim (Bool-cases (has i watched)) [
              | inl is_live ↦ omega (
                arith,
                split,
                clients,
                none_is,
                (rw is_live at listeners),
                once,
                counted-once i watched is_live (v.watches.once i),
              )
              | inr is_gone ↦ omega (
                arith,
                split,
                clients,
                none_is,
                (rw is_gone at listeners),
                occurs-has i watched is_gone,
              )
            ]
        | inr client ↦
            let none_is = occurs-has i l.listeners client in
            let no_listener : occurs i (live watched l.listeners) ≡ 0 =
              listeners ∙ ground (arith, none_is) in
            omega (arith, split, clients, no_listener, v.watches.clients i client)
      ]

  unregister-count :
      (xs : List ℕ) (l : EventLoop W)
      → l.epoll.count < 2 ^ 32
      → (unregister xs l).epoll.count ≡ (l.epoll.count + length xs * (2 ^ 32 - 1)) % 2 ^ 32
  unfolding unregister erase
  unregister-count [] l h = omega (arith, h)
  unregister-count (x ∷ xs) l h =
      omega (arith, unregister-count xs (record l { epoll = erase x l.epoll }) (omega arith))

  -- On a loop that keeps its invariants, with listeners that are all different, `m_count` is the number
  -- of clients and of listeners, less 1 for each listener that has failed, on 32 bits; and after
  -- `unregisterListeners` it is the number of clients, less 1 for each listener that has failed.
  pub unregister_lem :
      (l : EventLoop W)
      → Inv [] l
      → Distinct l.listeners
      → (l.epoll.count
          ≡ (length l.sockets
              + length l.listeners
              + failed l.epoll.watched l.listeners * (2 ^ 32 - 1))
            % 2 ^ 32)
        × ((unregister l.listeners l).epoll.count
            ≡ (length l.sockets + failed l.epoll.watched l.listeners * (2 ^ 32 - 1)) % 2 ^ 32)
  unregister_lem l v d =
      let watched = l.epoll.watched in
      let members = map (λ c. c.id) l.sockets in
      let total =
        same-length watched (members ++ live watched l.listeners) (watched_members l v d) in
      let parts = length-append members (live watched l.listeners) in
      let listeners = length-live watched l.listeners in
      let clients = length-map l.sockets in
      let counts = v.watches.counted in
      (
        omega (arith, counts, total, parts, listeners, clients),
        omega (
          arith,
          counts,
          total,
          parts,
          listeners,
          clients,
          unregister-count l.listeners l (omega (arith, counts)),
        ),
      )

live-watched : (watched xs : List ℕ) → failed watched xs ≡ 0 → All (λ x. 1 ≤ occurs x watched) xs
live-watched watched [] h = tt
live-watched watched (x ∷ xs) h =
    (ground (arith, h, has-occurs x watched), live-watched watched xs (omega (arith, h)))

has_own : (xs : List ℕ) → All (λ x. has x xs ≡ true) xs
has_own xs = within xs xs (λ i h. h)
  where
    within :
        (all_of xs : List ℕ)
        → ((i : ℕ) → 1 ≤ occurs i xs → 1 ≤ occurs i all_of)
        → All (λ x. has x all_of ≡ true) xs
    within all_of [] h = tt
    within all_of (x ∷ xs) h = (
      ground (arith, h x (ground arith), occurs-has x all_of),
      within all_of xs (λ i k. h i (omega (arith, k))),
    )

module _ {W : Type 0} where
  -- `unregisterListeners` keeps the invariants, where each of the listeners is watched.
  unregister_listeners :
      (xs : List ℕ) (l : EventLoop W)
      → Inv [] l
      → Distinct xs
      → All (λ x. has x l.listeners ≡ true) xs
      → All (λ x. 1 ≤ occurs x l.epoll.watched) xs
      → Inv [] (unregister xs l)
  unfolding unregister
  unregister_listeners [] l v d h w = v
  unregister_listeners (x ∷ xs) l v d h w =
      unregister_listeners xs (record l { epoll = erase x l.epoll })
        (record {
          owns = v.owns;
          watches = erase-Watching x l.listeners l.epoll l.sockets h.0 w.0 v.watches;
          fresh = v.fresh;
          told = v.told;
        })
        d.1 h.1
        (still-IsWatched (λ y. x ≢ y) l (record l { epoll = erase x l.epoll }) xs
          (λ y differs k. ground (arith, differs, k, occurs-erase x y l.epoll)) d.0 w.1)

  pub unregister-Inv :
      (l : EventLoop W)
      → Inv [] l
      → Distinct l.listeners
      → failed l.epoll.watched l.listeners ≡ 0
      → Inv [] (unregister l.listeners l)
  unregister-Inv l v d none_failed =
      unregister_listeners l.listeners l v d (has_own l.listeners)
        (live-watched l.epoll.watched l.listeners none_failed)
