-- ===== src/Epoll/Watched.antt =====
-- The set that `Epoll` watches, counted.
use network_learn.Base.{
  ℕ, suc, ◌+◌, ◌-◌, ◌%◌, ◌^◌, ◌≤◌, ◌≡◌, refl, false, List, [], ◌∷◌, arith, ◌==◌, if◌then◌else◌,
  length,
}
use network_learn.Epoll.{Epoll, has, watch, unwatch, insert, erase}

abbrev pub occurs : ℕ → List ℕ → ℕ
occurs i [] = 0
occurs i (x ∷ xs) = (if x == i then 1 else 0) + occurs i xs

pub has-occurs : (i : ℕ) (xs : List ℕ) → occurs i xs ≡ 0 → has i xs ≡ false
unfolding has
has-occurs i [] e = refl
has-occurs i (x ∷ xs) e = ground (arith, has-occurs i xs)

pub occurs-has : (i : ℕ) (xs : List ℕ) → has i xs ≡ false → occurs i xs ≡ 0
unfolding has
occurs-has i [] e = refl
occurs-has i (x ∷ xs) e = ground (arith, occurs-has i xs)

pub occurs-unwatch :
    (i j : ℕ) (xs : List ℕ) → occurs j (unwatch i xs) ≡ occurs j xs - (if i == j then 1 else 0)
unfolding unwatch
occurs-unwatch i j [] = ground arith
occurs-unwatch i j (x ∷ xs) = ground (arith, occurs-unwatch i j xs)

pub length-unwatch :
    (i : ℕ) (xs : List ℕ) → 1 ≤ occurs i xs → length xs ≡ suc (length (unwatch i xs))
unfolding unwatch
length-unwatch i [] h = absurd (omega (arith, h))
length-unwatch i (x ∷ xs) h = ground (arith, length-unwatch i xs)

-- `m_count` is the number of sockets that are watched, on 32 bits.
abbrev pub IsCounted : Epoll → Type 0
IsCounted e = e.count ≡ length e.watched % 2 ^ 32

pub insert_lem :
    (i : ℕ) (e : Epoll)
    → occurs i e.watched ≡ 0
    → IsCounted e
    → ((insert i e).watched ≡ i ∷ e.watched) × IsCounted (insert i e)
unfolding insert watch
insert_lem i e h k =
    let absent = has-occurs i e.watched h in (rw absent refl, rw absent (omega (arith, k)))

pub erase-IsCounted :
    (i : ℕ) (e : Epoll) → 1 ≤ occurs i e.watched → IsCounted e → IsCounted (erase i e)
unfolding erase
erase-IsCounted i e h k = omega (arith, k, length-unwatch i e.watched h)

pub occurs-erase :
    (i j : ℕ) (e : Epoll)
    → occurs j (erase i e).watched ≡ occurs j e.watched - (if i == j then 1 else 0)
unfolding erase
occurs-erase i j e = occurs-unwatch i j e.watched
