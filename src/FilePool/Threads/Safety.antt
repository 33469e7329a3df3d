-- ===== src/FilePool/Threads/Safety.antt =====
-- What holds whatever the threads do, in any order.
use mathlib.Core.Option.{some-injective}
use network_learn.Base.{
  ℕ, ◌≤◌, ◌≡◌, ◌+◌, refl, sym, true, false, List, [], ◌∷◌, none, some, arith, if◌then◌else◌,
  Bool-cases, inl, inr, length, Bytes, bytes_eq, bytes_eq_iff, Bool, ◌∙◌,
}
use network_learn.Epoll.{has, unwatch}
use network_learn.Epoll.Watched.{occurs, occurs-has, occurs-unwatch, length-unwatch}
use network_learn.FilePool.{FileInfo, max_shared_file}
use network_learn.FilePool.Cache.{IsBounded}
use network_learn.FilePool.Threads.{
  Shared, Turn, Pc, idle, dangling, looked, answered, files_of, run, new_pool, close_files,
}
use network_learn.FilePool.Threads.Sound.{IsSound, Fits}
use network_learn.FilePool.Threads.Runs.{new_pool-IsSound, run-IsSound}

-- What has been opened.
abbrev pub IsOpenAnswer : Shared → Pc → Type 0
IsOpenAnswer m (answered name (some info)) = occurs info.file m.opens ≡ 1
IsOpenAnswer m p = Unit

abbrev pub is_dangling : Pc → Bool
is_dangling dangling = true
is_dangling p = false

-- Two calls for one name that both have a file have the same.
abbrev pub IsSameAnswer : Pc → Pc → Type 0
IsSameAnswer (answered name (some info)) (answered name' (some info')) =
    if bytes_eq name name' then info ≡ info' else Unit
IsSameAnswer p q = Unit

answer_open : (m : Shared) (p : Pc) → ((d : ℕ) → occurs d m.opens ≤ 1) → Fits m p → IsOpenAnswer m p
answer_open m (answered name (some info)) h f = omega (arith, h info.file, f.0)
answer_open m (answered name none) h f = tt
answer_open m idle h f = tt
answer_open m dangling h f = tt
answer_open m (looked name a) h f = tt
answer_open m (Pc.unknown name) h f = tt
answer_open m (Pc.tried name a) h f = tt

not_dangling :
    (m : Shared) (p : Pc) → length m.opens ≤ max_shared_file → Fits m p → is_dangling p ≡ false
not_dangling m dangling few f = absurd (omega (arith, few, f))
not_dangling m (answered name a) few f = refl
not_dangling m idle few f = refl
not_dangling m (looked name a) few f = refl
not_dangling m (Pc.unknown name) few f = refl
not_dangling m (Pc.tried name a) few f = refl

same_answer :
    (m : Shared) (p q : Pc)
    → length m.opens ≤ max_shared_file
    → Fits m p
    → Fits m q
    → IsSameAnswer p q
same_answer m (answered name (some info)) (answered name' (some info')) few f g =
    elim (Bool-cases (bytes_eq name name')) [
      | inl same ↦
          let equal : name ≡ name' = (bytes_eq_iff name name').0 same in
          rw same (some-injective info info' (sym (rw equal at (f.1 few)) ∙ g.1 few))
      | inr other ↦ rw other tt
    ]
same_answer m (answered name (some info)) (answered name' none) few f g = tt
same_answer m (answered name (some info)) idle few f g = tt
same_answer m (answered name (some info)) dangling few f g = tt
same_answer m (answered name (some info)) (looked name' a) few f g = tt
same_answer m (answered name (some info)) (Pc.unknown name') few f g = tt
same_answer m (answered name (some info)) (Pc.tried name' a) few f g = tt
same_answer m (answered name none) q few f g = tt
same_answer m idle q few f g = tt
same_answer m dangling q few f g = tt
same_answer m (looked name a) q few f g = tt
same_answer m (Pc.unknown name) q few f g = tt
same_answer m (Pc.tried name a) q few f g = tt

close_files_lem :
    (es : List (Bytes × FileInfo)) (opens : List ℕ)
    → ((d : ℕ) → occurs d (files_of es) ≤ occurs d opens)
    → (os : List ℕ) × (close_files es opens ≡ some os)
      × (length os + length es ≡ length opens)
      × ((d : ℕ) → occurs d os + occurs d (files_of es) ≡ occurs d opens)
unfolding close_files
close_files_lem [] opens h = (opens, refl, omega arith, λ d. omega arith)
close_files_lem ((name, x) ∷ es) opens h =
    let here : 1 ≤ occurs x.file opens = ground (arith, h x.file) in
    let is_in : has x.file opens ≡ true = ground (arith, here, occurs-has x.file opens) in
    let (os, done, lengths, counts) =
      close_files_lem es (unwatch x.file opens)
        (λ d. ground (arith, h d, occurs-unwatch x.file d opens)) in
    (
      os,
      rw is_in done,
      omega (arith, lengths, length-unwatch x.file opens here),
      λ d. ground (arith, counts d, h d, occurs-unwatch x.file d opens),
    )

module _ (descriptor : List ℕ → ℕ) (fresh : (os : List ℕ) → occurs (descriptor os) os ≡ 0) where
  -- What the system opens is not open yet. Then whatever the threads do, in any order: both tables have at
  -- most `MAX_SHARED_FILE` elements, each descriptor in the pool is open, and so is the one that a call
  -- has answered.
  pub run_safe :
      (root : Bytes) (ts : List Turn)
      → IsBounded (run descriptor ts (new_pool root)).mem.files
        × ((d : ℕ)
            → occurs d (files_of (run descriptor ts (new_pool root)).mem.files.pool)
              ≤ occurs d (run descriptor ts (new_pool root)).mem.opens)
        × ((i : ℕ)
            → IsOpenAnswer
                (run descriptor ts (new_pool root)).mem
                ((run descriptor ts (new_pool root)).pc i))
  run_safe root ts =
      let s = run descriptor ts (new_pool root) in
      let v : IsSound s.mem s.pc =
        run-IsSound descriptor fresh ts (new_pool root) (new_pool-IsSound root) in
      (v.bounded, v.pooled, λ i. answer_open s.mem (s.pc i) v.once (v.fits i))

  -- What the system opens is not open yet, and no more than `MAX_SHARED_FILE` files have been opened. Then
  -- whatever the threads do, in any order: no call has read through an iterator whose element is gone,
  -- and two calls for one name that have answered with a file have the same descriptor, size, extension
  -- and time.
  pub run_shared :
      (root : Bytes) (ts : List Turn)
      → length (run descriptor ts (new_pool root)).mem.opens ≤ max_shared_file
      → (i j : ℕ)
      → (is_dangling ((run descriptor ts (new_pool root)).pc i) ≡ false)
        × IsSameAnswer
            ((run descriptor ts (new_pool root)).pc i)
            ((run descriptor ts (new_pool root)).pc j)
  run_shared root ts few i j =
      let s = run descriptor ts (new_pool root) in
      let v : IsSound s.mem s.pc =
        run-IsSound descriptor fresh ts (new_pool root) (new_pool-IsSound root) in
      (
        not_dangling s.mem (s.pc i) few (v.fits i),
        same_answer s.mem (s.pc i) (s.pc j) few (v.fits i) (v.fits j),
      )

  -- What the system opens is not open yet. Then whatever the threads have done before it, the destructor
  -- closes only what is open, each descriptor of the pool once, and what the pool has opened and does not
  -- have any more stays open.
  pub close_files-run :
      (root : Bytes) (ts : List Turn)
      → (os : List ℕ) × (close_files
            (run descriptor ts (new_pool root)).mem.files.pool
            (run descriptor ts (new_pool root)).mem.opens
          ≡ some os)
        × (length os + length (run descriptor ts (new_pool root)).mem.files.pool
            ≡ length (run descriptor ts (new_pool root)).mem.opens)
        × ((d : ℕ)
            → occurs d os + occurs d (files_of (run descriptor ts (new_pool root)).mem.files.pool)
              ≡ occurs d (run descriptor ts (new_pool root)).mem.opens)
  close_files-run root ts =
      let s = run descriptor ts (new_pool root) in
      let v : IsSound s.mem s.pc =
        run-IsSound descriptor fresh ts (new_pool root) (new_pool-IsSound root) in
      close_files_lem s.mem.files.pool s.mem.opens v.pooled
