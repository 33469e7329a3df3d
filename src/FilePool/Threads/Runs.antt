-- ===== src/FilePool/Threads/Runs.antt =====
-- A run keeps what Sound says of the pool and of what the threads hold.
use mathlib.Core.Option.{some-injective}
use network_learn.Base.{
  ℕ, ◌≤◌, ◌≡◌, refl, false, List, [], ◌∷◌, Option, none, some, arith, ◌==◌, Bool-cases, inl, inr,
  Bytes,
}
use network_learn.Util.StringMap.{lookup}
use network_learn.Epoll.Watched.{occurs}
use network_learn.FilePool.{FileInfo}
use network_learn.FilePool.Threads.{
  Shared, System, Turn, begin, next, Pc, idle, dangling, looked, answered, files_of, go, step, run,
  is_busy, update, new_pool,
}
use network_learn.FilePool.Threads.Sound.{IsSound, Fits, holds, lookup-occurs, Fits-Leaves}
use network_learn.FilePool.Threads.Moves.{IsTidy, IsMove, reads, go-IsMove}

pub new_pool-IsSound : (root : Bytes) → IsSound (new_pool root).mem (new_pool root).pc
new_pool-IsSound root = record {
  bounded = (omega arith, omega arith);
  once = λ d. omega arith;
  pooled = λ d. omega arith;
  fits = λ i. tt;
  apart = λ i j d h k. absurd (ground (arith, h));
}

find-Fits :
    (m : Shared) (name : Bytes) (o : Option FileInfo)
    → lookup name m.files.pool ≡ o
    → ((d : ℕ) → occurs d (files_of m.files.pool) ≤ occurs d m.opens)
    → Fits m (looked name o)
find-Fits m name none e h = tt
find-Fits m name (some info) e h =
    let there = lookup-occurs name info m.files.pool e in
    (omega (arith, there, h info.file), λ few. e)

module _ (m m' : Shared) (pc : ℕ → Pc) (i : ℕ) (p : Pc) (v : IsSound m pc)
    (move : IsMove m (pc i) (m', p)) where
  differs : (j : ℕ) → (i == j) ≡ false → (d : ℕ) → holds (pc i) ≡ some d → holds (pc j) ≡ some d → ⊥
  differs j other d h k = let same = v.apart i j d h k in ground (arith, other)

  open_of : (j d : ℕ) → holds (pc j) ≡ some d → 1 ≤ occurs d m.opens
  open_of j d h = held (pc j) (v.fits j) h
    where
      held : (q : Pc) → Fits m q → holds q ≡ some d → 1 ≤ occurs d m.opens
      held (Pc.tried name (some e)) f k = let same : e ≡ d = some-injective e d k in rw same at f.0
      held (Pc.tried name none) f k = absurd (ground (arith, k))
      held (looked name a) f k = absurd (ground (arith, k))
      held (Pc.unknown name) f k = absurd (ground (arith, k))
      held (answered name a) f k = absurd (ground (arith, k))
      held idle f k = absurd (ground (arith, k))
      held dangling f k = absurd (ground (arith, k))

  not_own : (j d : ℕ) → (i == j) ≡ false → holds p ≡ some d → holds (pc j) ≡ some d → ⊥
  not_own j d other h k = elim (move.own d h) [
    | inl was ↦ differs j other d was k
    | inr is_new ↦ omega (arith, is_new, open_of j d k)
  ]

  moved-apart :
      (j k d : ℕ) → holds (update pc i p j) ≡ some d → holds (update pc i p k) ≡ some d → j ≡ k
  moved-apart j k d h h' = elim (Bool-cases (i == j)) [
    | inl mine ↦ elim (Bool-cases (i == k)) [
      | inl mine' ↦ ground (arith, mine, mine')
      | inr other' ↦ absurd (not_own k d other' (rw mine at h) (rw other' at h'))
    ]
    | inr other ↦ elim (Bool-cases (i == k)) [
      | inl mine' ↦ absurd (not_own j d other (rw mine' at h') (rw other at h))
      | inr other' ↦ v.apart j k d (rw other at h) (rw other' at h')
    ]
  ]

  moved-IsSound : IsSound m' (update pc i p)
  moved-IsSound = record {
    bounded = move.tidy.bounded;
    once = move.tidy.once;
    pooled = move.tidy.pooled;
    fits = λ j. elim (Bool-cases (i == j)) [
      | inl mine ↦ rw mine move.fits
      | inr other ↦
          rw other (Fits-Leaves m m' (pc j) (move.others (pc j) (differs j other)) (v.fits j))
    ];
    apart = moved-apart;
  }

IsSound-IsTidy : (m : Shared) (pc : ℕ → Pc) → IsSound m pc → IsTidy m
IsSound-IsTidy m pc v = record { bounded = v.bounded; once = v.once; pooled = v.pooled }

module _ (descriptor : List ℕ → ℕ) (fresh : (os : List ℕ) → occurs (descriptor os) os ≡ 0) where
  step-IsSound :
      (t : Turn) (s : System)
      → IsSound s.mem s.pc
      → IsSound (step descriptor t s).mem (step descriptor t s).pc
  unfolding step
  step-IsSound (begin i name) s v = elim (Bool-cases (is_busy (s.pc i))) [
    | inl busy ↦ rw busy v
    | inr free ↦ rw free (
        moved-IsSound s.mem s.mem s.pc i (looked name (lookup name s.mem.files.pool)) v (
          reads s.mem (s.pc i) (looked name (lookup name s.mem.files.pool))
            (IsSound-IsTidy s.mem s.pc v)
            (find-Fits s.mem name (lookup name s.mem.files.pool) refl v.pooled) refl))
  ]
  step-IsSound (next i o) s v =
      moved-IsSound s.mem (go descriptor o s.mem (s.pc i)).0 s.pc i
        (go descriptor o s.mem (s.pc i)).1 v
        (go-IsMove descriptor fresh o s.mem (s.pc i) (IsSound-IsTidy s.mem s.pc v) (v.fits i))

  pub run-IsSound :
      (ts : List Turn) (s : System)
      → IsSound s.mem s.pc
      → IsSound (run descriptor ts s).mem (run descriptor ts s).pc
  unfolding run
  run-IsSound [] s v = v
  run-IsSound (t ∷ ts) s v = run-IsSound ts (step descriptor t s) (step-IsSound t s v)
