-- ===== src/Timer.antt =====
-- `Timer` and `TimerManager` of util/timermanager.h, built without TIMER_THREAD_SAFE. A node of the
-- `std::list` has a number of its own, which stands for its iterators. `m_timeout` is a reference:
-- a timer keeps the address, and each call that reads it takes the memory. Times are numbers of ticks
-- of the system clock; `now` is what the clock says in the call.
pub mod Order
pub mod Expiry
pub mod Clock
pub mod Tally
pub mod Unmoved
use network_learn.Base.{
  ℕ, suc, ◌+◌, ◌≡◌, Bool, true, false, List, [], ◌∷◌, ◌++◌, Option, none, some, ltb, leb, ◌==◌,
  if◌then◌else◌, is_empty, length,
}

pub record Timer (T : Type 0) : Type 0 where
  pub node : ℕ
  pub user_data : T
  pub timeout : ℕ
  pub deadline : ℕ

pub record TimerManager (T : Type 0) : Type 0 where
  pub list : List (Timer T)
  pub next_node : ℕ

module _ {T : Type 0} where
  abbrev pub empty_manager : TimerManager T
  empty_manager = record { list = []; next_node = 0 }

  -- `Timer::reset`.
  abbrev pub reset : (ℕ → ℕ) → ℕ → Timer T → Timer T
  reset memory now t = record t { deadline = now + memory t.timeout }

  -- The loop from `end()` down to `begin()`: where an element is found whose successor is the place
  -- for `t`, the list with `t` there. `none`: the loop ends at `begin()`.
  pub place : Timer T → List (Timer T) → Option (List (Timer T))
  place t [] = none
  place t (x ∷ xs) = elim (place t xs) [
    | some ys ↦ some (x ∷ ys)
    | none ↦ if ltb x.deadline t.deadline then some (x ∷ t ∷ xs) else none
  ]

  -- `start` returns the iterator of the new node.
  unfoldable pub start : (ℕ → ℕ) → ℕ → ℕ → T → TimerManager T → TimerManager T × ℕ
  unfolding place
  start memory now timeout user_data m =
      let timer : Timer T = record {
        node = m.next_node;
        user_data = user_data;
        timeout = timeout;
        deadline = now + memory timeout;
      } in
      (
        record {
          list = elim (place timer m.list) [ some l ↦ l | none ↦ timer ∷ m.list ];
          next_node = suc m.next_node;
        },
        m.next_node,
      )

  unfoldable pub find : ℕ → List (Timer T) → Option (Timer T)
  find node [] = none
  find node (x ∷ xs) = if x.node == node then some x else find node xs

  pub remove : ℕ → List (Timer T) → List (Timer T)
  remove node [] = []
  remove node (x ∷ xs) = if x.node == node then xs else x ∷ remove node xs

  -- The new deadline, written through the iterator.
  pub update : ℕ → Timer T → List (Timer T) → List (Timer T)
  update node t [] = []
  update node t (x ∷ xs) = if x.node == node then t ∷ xs else x ∷ update node t xs

  -- `restart` at the node that the iterator points to. The node itself is never before its own
  -- deadline, so the loop finds the place among the others; `splice` moves the node there, and where
  -- the loop finds none the node stays.
  pub restart_list : ℕ → Timer T → List (Timer T) → List (Timer T)
  unfolding place remove update
  restart_list node t l = elim (place t (remove node l)) [ some l' ↦ l' | none ↦ update node t l ]

  -- `none`: the iterator does not point into the list.
  unfoldable pub restart : (ℕ → ℕ) → ℕ → ℕ → TimerManager T → Option (TimerManager T)
  unfolding find restart_list
  restart memory now node m = elim (find node m.list) [
    | none ↦ none
    | some t ↦ some (record m { list = restart_list node (reset memory now t) m.list })
  ]

  unfoldable pub destory : ℕ → TimerManager T → Option (TimerManager T)
  unfolding find remove
  destory node m = if is_empty m.list then some m else elim (find node m.list) [
    | none ↦ none
    | some _ ↦ some (record m { list = remove node m.list })
  ]

  -- The loop of `checkout`: what it appends to the vector, and the list that is left.
  pub take_expired : ℕ → List (Timer T) → List T × List (Timer T)
  take_expired now [] = ([], [])
  take_expired now (x ∷ xs) =
      let (taken, left) = take_expired now xs in
      if leb x.deadline now then (x.user_data ∷ taken, left) else ([], x ∷ xs)

  unfoldable pub checkout : ℕ → List T → TimerManager T → List T × TimerManager T
  unfolding take_expired
  checkout now out m =
      let (taken, left) = take_expired now m.list in (out ++ taken, record m { list = left })

  -- `none` is the value `{}`.
  unfoldable pub take_head : TimerManager T → List (Timer T) → Option T × TimerManager T
  take_head m [] = (none, m)
  take_head m (x ∷ xs) = (some x.user_data, record m { list = xs })

  unfoldable pub take_first : TimerManager T → Option T × TimerManager T
  unfolding take_head
  take_first m = take_head m m.list
