-- ===== src/Epoll.antt =====
-- `Epoll` of core/epoll.h and core/epoll.cpp, as it is built for Linux. What the system holds for its
-- descriptor is the set of sockets that it watches; a socket has a number of its own.
pub mod Watched
use network_learn.Base.{
  ℕ, ◌+◌, ◌-◌, ◌%◌, ◌^◌, Bool, true, false, ◌||◌, List, [], ◌∷◌, ◌==◌, if◌then◌else◌,
}

-- `count` is `m_count`, an `unsigned int`.
pub record Epoll : Type 0 where
  pub watched : List ℕ
  pub count : ℕ

abbrev pub new_epoll : Epoll
new_epoll = record { watched = []; count = 0 }

unfoldable pub has : ℕ → List ℕ → Bool
has socket [] = false
has socket (x ∷ xs) = x == socket || has socket xs

-- `EPOLL_CTL_ADD` and `EPOLL_CTL_DEL`, which do nothing for a socket that is there or is not there.
pub watch : ℕ → List ℕ → List ℕ
unfolding has
watch socket xs = if has socket xs then xs else socket ∷ xs

unfoldable pub unwatch : ℕ → List ℕ → List ℕ
unwatch socket [] = []
unwatch socket (x ∷ xs) = if x == socket then xs else x ∷ unwatch socket xs

-- `m_count` changes whatever the system answers.
unfoldable pub insert : ℕ → Epoll → Epoll
unfolding watch
insert socket e = record { watched = watch socket e.watched; count = (e.count + 1) % 2 ^ 32 }

unfoldable pub erase : ℕ → Epoll → Epoll
unfolding unwatch
erase socket e = record {
  watched = unwatch socket e.watched;
  count = (e.count + 2 ^ 32 - 1) % 2 ^ 32;
}

-- An event of `epoll_wait`: whether one of EPOLLERR, EPOLLHUP and EPOLLRDHUP is set, and EPOLLIN.
pub record Item : Type 0 where
  pub socket : ℕ
  pub is_error : Bool
  pub is_readable : Bool

-- The loop of `epoll` over what `epoll_wait` has written: `events` and `errorEvents`.
unfoldable pub sort_items : List Item → List ℕ × List ℕ
sort_items [] = ([], [])
sort_items (x ∷ xs) =
    let (events, error_events) = sort_items xs in
    if x.is_error
    then (events, x.socket ∷ error_events)
    else if x.is_readable
    then (x.socket ∷ events, error_events)
    else (events, error_events)
