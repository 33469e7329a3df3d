-- ===== src/FilePool/Threads/Moves.antt =====
-- What one step of a thread does to the pool, and what it leaves the other threads.
use mathlib.Core.Option.{some-injective}
use network_learn.Base.{
  ℕ, ◌≤◌, ◌<◌, ◌≡◌, ◌⊎◌, refl, ap, false, List, ◌∷◌, ◌++◌, none, some, arith, ◌==◌, Bool-cases,
  Option-cases, inl, inr, length, Bytes, leb,
}
use network_learn.Util.StringMap.{lookup}
use network_learn.Epoll.{has}
use network_learn.Epoll.Watched.{occurs, occurs-has}
use network_learn.FilePool.{FileInfo, max_shared_file, contains, make_room}
use network_learn.FilePool.Cache.{IsBounded, put_at-make_room, lookup-put_at}
use network_learn.FilePool.Threads.{
  Shared, Outcome, Pc, idle, dangling, looked, unknown, tried, answered, files_of, note_invalid,
  emplace, share, go,
}
use network_learn.FilePool.Threads.Sound.{
  length-occurs, length-files_of, occurs-put_at, occurs-make_room, make_room_idle, length-make_room,
  lookup-occurs, lookup-put_at_other, holds, Fits, Leaves, Leaves-refl,
}

-- What is known of the pool at any time.
pub record IsTidy (m : Shared) : Type 0 where
  pub bounded : IsBounded m.files
  pub once : (d : ℕ) → occurs d m.opens ≤ 1
  pub pooled : (d : ℕ) → occurs d (files_of m.files.pool) ≤ occurs d m.opens

-- The step of a thread at `p`: the pool stays tidy, the thread fits it, a descriptor that the thread
-- holds was its own or is new, and the others are left alone.
pub record IsMove (m : Shared) (p : Pc) (r : Shared × Pc) : Type 0 where
  pub tidy : IsTidy r.0
  pub fits : Fits r.0 r.1
  pub own : (d : ℕ) → holds r.1 ≡ some d → (holds p ≡ some d) ⊎ (occurs d m.opens ≡ 0)
  pub others : (q : Pc) → ((d : ℕ) → holds p ≡ some d → holds q ≡ some d → ⊥) → Leaves m r.0 q

-- A step that only reads.
pub reads : (m : Shared) (p q : Pc) → IsTidy m → Fits m q → holds q ≡ none → IsMove m p (m, q)
reads m p q t f e = record {
  tidy = t;
  fits = f;
  own = λ d h. absurd (ground (arith, e, h));
  others = λ q' differs. Leaves-refl m q';
}

note_invalid-bounded :
    (place : ℕ) (path : Bytes) (ps : List Bytes)
    → length ps ≤ max_shared_file
    → length (note_invalid place path (make_room ps)) ≤ max_shared_file
unfolding note_invalid
note_invalid-bounded place path ps h = elim (Bool-cases (contains path (make_room ps))) [
  | inl there ↦ rw there (omega (arith, length-make_room ps h))
  | inr absent ↦ rw absent (put_at-make_room place path ps h)
]

-- Before the pool is full, there is room for what a thread has opened.
has_room :
    (m : Shared) (d : ℕ)
    → IsTidy m
    → 1 ≤ occurs d m.opens
    → occurs d (files_of m.files.pool) ≡ 0
    → length m.opens ≤ max_shared_file
    → length m.files.pool < max_shared_file
has_room m d t is_open not_there few =
    let fewer = length-occurs (d ∷ files_of m.files.pool) m.opens (λ e. elim (Bool-cases (d == e)) [
      | inl same ↦
          let equal : d ≡ e = ground (arith, same) in
          rw same (omega (arith, rw equal at is_open, rw equal at not_there))
      | inr differs ↦ rw differs (omega (arith, t.pooled e))
    ]) in
    omega (arith, fewer, few, length-files_of m.files.pool)

share-IsMove :
    (o : Outcome) (name : Bytes) (info : FileInfo) (m : Shared)
    → IsTidy m
    → Fits m (tried name (some info.file))
    → IsMove m (tried name (some info.file)) (share o name info m)
unfolding share emplace
share-IsMove o name info m t f =
    let pool = m.files.pool in
    let room = make_room pool in
    let same : length m.opens ≤ max_shared_file → room ≡ pool =
      λ few. make_room_idle pool (has_room m info.file t f.0 f.1 few) in
    elim (Option-cases (lookup name room)) [
      | inr (old, found) ↦ rw found (record {
        tidy = record {
          bounded = (omega (arith, length-make_room pool t.bounded.0), t.bounded.1);
          once = t.once;
          pooled = λ d. omega (arith, occurs-make_room d pool, t.pooled d);
        };
        fits = (
          omega (
            arith,
            lookup-occurs name old room found,
            occurs-make_room old.file pool,
            t.pooled old.file,
          ),
          λ few. found,
        );
        own = λ d h. absurd (ground (arith, h));
        others = λ q differs. record {
          grows = λ d. omega arith;
          longer = omega arith;
          keeps = λ few key value e. rw (same few) e;
          alone = λ d h. occurs-make_room d pool;
        };
      })
      | inl missed ↦ rw missed (record {
        tidy = record {
          bounded = (put_at-make_room o.place (name, info) pool t.bounded.0, t.bounded.1);
          once = t.once;
          pooled = λ d. elim (Bool-cases (info.file == d)) [
            | inl hit ↦
                let equal : info.file ≡ d = ground (arith, hit) in
                omega (
                  arith,
                  rw hit at (occurs-put_at o.place d (name, info) room),
                  occurs-make_room d pool,
                  rw equal at f.0,
                  rw equal at f.1,
                )
            | inr miss ↦ omega (
              arith,
              rw miss at (occurs-put_at o.place d (name, info) room),
              occurs-make_room d pool,
              t.pooled d,
            )
          ];
        };
        fits = (f.0, λ few. lookup-put_at o.place name info room missed);
        own = λ d h. absurd (ground (arith, h));
        others = λ q differs. record {
          grows = λ d. omega arith;
          longer = omega arith;
          keeps = λ few key value e.
              lookup-put_at_other o.place key name value info room (rw (same few) e) missed;
          alone = λ d h. elim (Bool-cases (info.file == d)) [
            | inl hit ↦
                let equal : info.file ≡ d = ground (arith, hit) in
                absurd (differs d (ap some equal) h)
            | inr miss ↦ omega (
              arith,
              rw miss at (occurs-put_at o.place d (name, info) room),
              occurs-make_room d pool,
            )
          ];
        };
      })
    ]

-- An iterator whose element is gone shows that the pool has been full.
gone_full :
    (m : Shared) (name : Bytes) (info : FileInfo)
    → has info.file (files_of m.files.pool) ≡ false
    → (length m.opens ≤ max_shared_file → lookup name m.files.pool ≡ some info)
    → max_shared_file < length m.opens
gone_full m name info gone there = elim (Bool-cases (leb (length m.opens) max_shared_file)) [
  | inl few ↦
      let is_in = lookup-occurs name info m.files.pool (there (ground (arith, few))) in
      absurd (omega (arith, is_in, occurs-has info.file (files_of m.files.pool) gone))
  | inr many ↦ ground (arith, many)
]

module _ (descriptor : List ℕ → ℕ) (fresh : (os : List ℕ) → occurs (descriptor os) os ≡ 0) where
  opens_one :
      (m : Shared) (name : Bytes)
      → IsTidy m
      → IsMove m (unknown name) (
        record { files = m.files; opens = descriptor m.opens ∷ m.opens },
        tried name (some (descriptor m.opens)),
      )
  opens_one m name t =
      let d = descriptor m.opens in
      let is_new = fresh m.opens in
      record {
        tidy = record {
          bounded = t.bounded;
          once = λ e. elim (Bool-cases (d == e)) [
            | inl hit ↦
                let equal : d ≡ e = ground (arith, hit) in
                rw hit (omega (arith, rw equal at is_new))
            | inr miss ↦ rw miss (omega (arith, t.once e))
          ];
          pooled = λ e. omega (arith, t.pooled e);
        };
        fits = (ground arith, omega (arith, t.pooled d, is_new));
        own = λ e h. let equal : d ≡ e = some-injective d e h in inr (rw equal at is_new);
        others = λ q differs. record {
          grows = λ e. omega arith;
          longer = omega arith;
          keeps = λ few key value e. e;
          alone = λ e h. omega arith;
        };
      }

  pub go-IsMove :
      (o : Outcome) (m : Shared) (p : Pc) → IsTidy m → Fits m p → IsMove m p (go descriptor o m p)
  unfolding go
  go-IsMove o m (looked name (some info)) t f =
      elim (Bool-cases (has info.file (files_of m.files.pool))) [
        | inl there ↦ rw there (reads m _ (answered name (some info)) t f refl)
        | inr gone ↦ rw gone (reads m _ dangling t (gone_full m name info gone f.1) refl)
      ]
  go-IsMove o m (looked name none) t f =
      elim (Bool-cases (contains (m.files.root ++ name) m.files.invalid_paths)) [
        | inl invalid ↦ rw invalid (reads m _ (answered name none) t tt refl)
        | inr new ↦ rw new (reads m _ (unknown name) t tt refl)
      ]
  go-IsMove o m (unknown name) t f = elim (Bool-cases o.can_open) [
    | inl opens ↦ rw opens (opens_one m name t)
    | inr fails ↦ rw fails (reads m _ (tried name none) t tt refl)
  ]
  go-IsMove o m (tried name none) t f = record {
    tidy = record {
      bounded = (
        t.bounded.0,
        note_invalid-bounded o.place (m.files.root ++ name) m.files.invalid_paths t.bounded.1,
      );
      once = t.once;
      pooled = t.pooled;
    };
    fits = tt;
    own = λ d h. absurd (ground (arith, h));
    others = λ q differs. record {
      grows = λ e. omega arith;
      longer = omega arith;
      keeps = λ few key value e. e;
      alone = λ e h. omega arith;
    };
  }
  go-IsMove o m (tried name (some d)) t f = share-IsMove o name (record o.info { file = d }) m t f
  go-IsMove o m idle t f = reads m _ idle t f refl
  go-IsMove o m dangling t f = reads m _ dangling t f refl
  go-IsMove o m (answered name (some info)) t f = reads m _ (answered name (some info)) t f refl
  go-IsMove o m (answered name none) t f = reads m _ (answered name none) t f refl
