-- ===== src/Loop/Ready.antt =====
-- What `epoll_wait` answers: sockets that are watched, each once; and how the loop of `epoll` sorts
-- them.
use network_learn.Base.{
  ℕ, ◌≢◌, sym, List, [], ◌∷◌, map, if◌then◌else◌, Bool-cases, inl, inr, All, All-mono,
}
use network_learn.Epoll.{Item, sort_items}
use network_learn.Loop.{EventLoop}
use network_learn.Loop.Closing.{Distinct, IsWatched}

abbrev sockets_of : List Item → List ℕ
sockets_of xs = map (λ x. x.socket) xs

module _ {W : Type 0} where
  abbrev pub IsReady : EventLoop W → List Item → Type 0
  IsReady l items = Distinct (sockets_of items) × All (IsWatched l) (sockets_of items)

module _ {κ} (P : ℕ → Type κ) where
  pub sort_items-All :
      (xs : List Item) → All P (sockets_of xs) → All P (sort_items xs).0 × All P (sort_items xs).1
  unfolding sort_items
  sort_items-All [] h = (tt, tt)
  sort_items-All (x ∷ xs) h =
      let (events, errors) = sort_items-All xs h.1 in
      elim (Bool-cases x.is_error) [
        | inl error ↦ rw (error, if◌then◌else◌) (events, (h.0, errors))
        | inr fine ↦ elim (Bool-cases x.is_readable) [
          | inl readable ↦ rw (fine, readable, if◌then◌else◌) ((h.0, events), errors)
          | inr quiet ↦ rw (fine, quiet, if◌then◌else◌) (events, errors)
        ]
      ]

  -- A member put in front.
  All-cons :
      (Q : ℕ → ℕ → Type κ) (x : ℕ) (xs ys : List ℕ)
      → All (Q x) ys
      → All (λ y. All (λ x'. Q x' y) xs) ys
      → All (λ y. All (λ x'. Q x' y) (x ∷ xs)) ys
  All-cons Q x xs [] p h = tt
  All-cons Q x xs (y ∷ ys) p h = ((p.0, h.0), All-cons Q x xs ys p.1 h.1)

-- Both queues have each socket once, and no socket is in both.
pub sort_items-Distinct :
    (xs : List Item)
    → Distinct (sockets_of xs)
    → Distinct (sort_items xs).0
      × Distinct (sort_items xs).1
      × All (λ j. All (λ i. i ≢ j) (sort_items xs).0) (sort_items xs).1
unfolding sort_items
sort_items-Distinct [] d = (tt, tt, tt)
sort_items-Distinct (x ∷ xs) d =
    let (events, errors, apart) = sort_items-Distinct xs d.1 in
    let (new_events, new_errors) = sort_items-All (λ y. x.socket ≢ y) xs d.0 in
    elim (Bool-cases x.is_error) [
      | inl error ↦
          rw (error, if◌then◌else◌)
            (
              events,
              (new_errors, errors),
              (
                All-mono (λ y. x.socket ≢ y) (λ i. i ≢ x.socket) (sort_items xs).0
                    (λ i h e. h (sym e)) new_events,
                apart,
              ),
            )
      | inr fine ↦ elim (Bool-cases x.is_readable) [
        | inl readable ↦
            rw (fine, readable, if◌then◌else◌)
              (
                (new_events, events),
                errors,
                All-cons (λ i. i ≢ x.socket) (λ i j. i ≢ j) x.socket (sort_items xs).0
                    (sort_items xs).1 new_errors apart,
              )
        | inr quiet ↦ rw (fine, quiet, if◌then◌else◌) (events, errors, apart)
      ]
    ]
