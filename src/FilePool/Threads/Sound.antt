-- ===== src/FilePool/Threads/Sound.antt =====
-- The invariant of the pool and of the threads that use it, and the tables under a step.
use network_learn.Base.{
  ℕ, zero, suc, ◌+◌, ◌≤◌, ◌<◌, ◌≡◌, refl, List, [], ◌∷◌, Option, none, some, arith, ◌==◌,
  if◌then◌else◌, leb, Bool-cases, inl, inr, length, Bytes, bytes_eq, bytes_eq_iff,
}
use network_learn.Util.StringMap.{lookup}
use network_learn.Epoll.{unwatch}
use network_learn.Epoll.Watched.{occurs, occurs-unwatch, length-unwatch}
use network_learn.FilePool.{FileInfo, max_shared_file, make_room, put_at}
use network_learn.FilePool.Cache.{IsBounded}
use network_learn.FilePool.Threads.{
  Shared, Pc, idle, dangling, looked, unknown, tried, answered, files_of,
}

-- A list whose members are among those of another, counted, is no longer.
pub length-occurs : (xs ys : List ℕ) → ((d : ℕ) → occurs d xs ≤ occurs d ys) → length xs ≤ length ys
length-occurs [] ys h = omega arith
length-occurs (x ∷ xs) ys h =
    let here : 1 ≤ occurs x ys = ground (arith, h x) in
    let rest = length-occurs xs (unwatch x ys) (λ d. ground (arith, h d, occurs-unwatch x d ys)) in
    omega (arith, rest, length-unwatch x ys here)

pub length-files_of : (pool : List (Bytes × FileInfo)) → length (files_of pool) ≡ length pool
length-files_of [] = refl
length-files_of (e ∷ es) = omega (arith, length-files_of es)

pub occurs-put_at :
    (place d : ℕ) (e : Bytes × FileInfo) (pool : List (Bytes × FileInfo))
    → occurs d (files_of (put_at place e pool))
      ≡ (if e.1.file == d then 1 else 0) + occurs d (files_of pool)
unfolding put_at
occurs-put_at zero d e pool = refl
occurs-put_at (suc place) d e [] = refl
occurs-put_at (suc place) d e (x ∷ xs) = omega (arith, occurs-put_at place d e xs)

pub occurs-make_room :
    (d : ℕ) (pool : List (Bytes × FileInfo))
    → occurs d (files_of (make_room pool)) ≤ occurs d (files_of pool)
unfolding make_room
occurs-make_room d [] = omega arith
occurs-make_room d (x ∷ xs) = elim (Bool-cases (leb max_shared_file (length (x ∷ xs)))) [
  | inl full ↦ rw full (omega arith)
  | inr room ↦ rw room (omega arith)
]

pub make_room_idle : {A : Type 0} (xs : List A) → length xs < max_shared_file → make_room xs ≡ xs
unfolding make_room
make_room_idle [] h = refl
make_room_idle (x ∷ xs) h = ground arith

pub length-make_room :
    {A : Type 0} (xs : List A)
    → length xs ≤ max_shared_file
    → length (make_room xs) < max_shared_file
unfolding make_room
length-make_room [] h = omega arith
length-make_room (x ∷ xs) h = elim (Bool-cases (leb max_shared_file (length (x ∷ xs)))) [
  | inl full ↦ rw full (omega (arith, h))
  | inr room ↦ rw room (ground (arith, room))
]

pub lookup-occurs :
    (name : Bytes) (info : FileInfo) (pool : List (Bytes × FileInfo))
    → lookup name pool ≡ some info
    → 1 ≤ occurs info.file (files_of pool)
unfolding lookup
lookup-occurs name info [] e = absurd (ground (arith, e))
lookup-occurs name info ((k, x) ∷ pool) e = ground (arith, e, lookup-occurs name info pool)

-- A new element leaves what was there to be found.
pub lookup-put_at_other :
    (place : ℕ) (name key : Bytes) (info value : FileInfo) (pool : List (Bytes × FileInfo))
    → lookup name pool ≡ some info
    → lookup key pool ≡ none
    → lookup name (put_at place (key, value) pool) ≡ some info
unfolding lookup put_at
lookup-put_at_other zero name key info value pool e k = elim (Bool-cases (bytes_eq name key)) [
  | inl same ↦
      let equal : name ≡ key = (bytes_eq_iff name key).0 same in
      absurd (ground (arith, rw equal at e, k))
  | inr other ↦ rw other e
]
lookup-put_at_other (suc place) name key info value [] e k = absurd (ground (arith, e))
lookup-put_at_other (suc place) name key info value ((x, y) ∷ pool) e k =
    elim (Bool-cases (bytes_eq key x)) [
      | inl hit ↦ absurd (ground (arith, rw hit at k))
      | inr miss ↦ elim (Bool-cases (bytes_eq name x)) [
        | inl hit ↦ rw hit (rw hit at e)
        | inr miss' ↦
            rw miss'
              (lookup-put_at_other place name key info value pool (rw miss' at e) (rw miss at k))
      ]
    ]

-- The descriptor of a file that the thread has opened and not put into the pool yet.
abbrev pub holds : Pc → Option ℕ
holds (tried name (some d)) = some d
holds p = none

-- What the locals of a thread say about the pool.
abbrev pub Fits : Shared → Pc → Type 0
Fits m (looked name (some info)) =
    (1 ≤ occurs info.file m.opens)
    × (length m.opens ≤ max_shared_file → lookup name m.files.pool ≡ some info)
Fits m (tried name (some d)) = (1 ≤ occurs d m.opens) × (occurs d (files_of m.files.pool) ≡ 0)
Fits m (answered name (some info)) =
    (1 ≤ occurs info.file m.opens)
    × (length m.opens ≤ max_shared_file → lookup name m.files.pool ≡ some info)
Fits m dangling = max_shared_file < length m.opens
Fits m p = Unit

pub record IsSound (m : Shared) (pc : ℕ → Pc) : Type 0 where
  pub bounded : IsBounded m.files
  pub once : (d : ℕ) → occurs d m.opens ≤ 1
  pub pooled : (d : ℕ) → occurs d (files_of m.files.pool) ≤ occurs d m.opens
  pub fits : (i : ℕ) → Fits m (pc i)
  pub apart : (i j d : ℕ) → holds (pc i) ≡ some d → holds (pc j) ≡ some d → i ≡ j

-- A step from `m` to `m'`, for a thread at `p` that does not take it: nothing is closed, no element is
-- erased before the pool is full, and what the thread has opened is left alone.
pub record Leaves (m m' : Shared) (p : Pc) : Type 0 where
  pub grows : (d : ℕ) → occurs d m.opens ≤ occurs d m'.opens
  pub longer : length m.opens ≤ length m'.opens
  pub keeps :
      length m'.opens ≤ max_shared_file
      → (name : Bytes) (info : FileInfo) → lookup name m.files.pool ≡ some info
      → lookup name m'.files.pool ≡ some info
  pub alone :
      (d : ℕ)
      → holds p ≡ some d
      → occurs d (files_of m'.files.pool) ≤ occurs d (files_of m.files.pool)

pub Fits-Leaves : (m m' : Shared) (p : Pc) → Leaves m m' p → Fits m p → Fits m' p
Fits-Leaves m m' (looked name (some info)) l f = (
  omega (arith, l.grows info.file, f.0),
  λ few. l.keeps few name info (f.1 (omega (arith, few, l.longer))),
)
Fits-Leaves m m' (looked name none) l f = tt
Fits-Leaves m m' (tried name (some d)) l f =
    (omega (arith, l.grows d, f.0), omega (arith, l.alone d refl, f.1))
Fits-Leaves m m' (tried name none) l f = tt
Fits-Leaves m m' (answered name (some info)) l f = (
  omega (arith, l.grows info.file, f.0),
  λ few. l.keeps few name info (f.1 (omega (arith, few, l.longer))),
)
Fits-Leaves m m' (answered name none) l f = tt
Fits-Leaves m m' dangling l f = omega (arith, l.longer, f)
Fits-Leaves m m' idle l f = tt
Fits-Leaves m m' (unknown name) l f = tt

pub Leaves-refl : (m : Shared) (p : Pc) → Leaves m m p
Leaves-refl m p = record {
  grows = λ d. omega arith;
  longer = omega arith;
  keeps = λ few name info e. e;
  alone = λ d h. omega arith;
}
