-- ===== src/FilePool/Threads.antt =====
-- `SharedFilePool` of util/sharedfilepool.cpp in several threads. What a call of `get` does under one lock,
-- or between two locks, is one step; a schedule says which thread goes next.
pub mod Sound
pub mod Moves
pub mod Runs
pub mod Safety
pub mod Alone
use network_learn.Base.{
  ℕ, Bool, true, false, List, [], ◌∷◌, ◌++◌, map, Option, none, some, ◌==◌, if◌then◌else◌, Bytes,
}
use network_learn.Util.StringMap.{lookup}
use network_learn.Epoll.{has, unwatch}
use network_learn.FilePool.{FileInfo, SharedFilePool, contains, make_room, put_at}

-- `opens`: the descriptors that the pool has opened and not closed.
pub record Shared : Type 0 where
  pub files : SharedFilePool
  pub opens : List ℕ

-- Where a thread is in `get`: it has the iterator of `find`, which is `end()` for `none`; it has not found
-- the path among the invalid ones; it has tried to open the file; it has returned. A thread that reads
-- through an iterator whose element is gone is `dangling`.
pub data Pc : Type 0 where
  idle dangling : Pc
  looked : Bytes → Option FileInfo → Pc
  unknown : Bytes → Pc
  tried : Bytes → Option ℕ → Pc
  answered : Bytes → Option FileInfo → Pc

-- What the system and the tables do in a step: whether the file can be opened, what it is like, and where
-- a table puts a new element.
pub record Outcome : Type 0 where
  pub place : ℕ
  pub can_open : Bool
  pub info : FileInfo

abbrev pub files_of : List (Bytes × FileInfo) → List ℕ
files_of pool = map (λ e. e.1.file) pool

abbrev pub with_files : Shared → SharedFilePool → Shared
with_files m files = record { files = files; opens = m.opens }

-- `insert` of a set.
unfoldable pub note_invalid : ℕ → Bytes → List Bytes → List Bytes
unfolding contains put_at
note_invalid place path ps = if contains path ps then ps else put_at place path ps

-- `emplace` of a map, and what it returns the element of.
unfoldable pub emplace :
    ℕ
    → Bytes
    → FileInfo
    → Option FileInfo
    → List (Bytes × FileInfo)
    → FileInfo × List (Bytes × FileInfo)
unfolding put_at
emplace place file_name info (some old) pool = (old, pool)
emplace place file_name info none pool = (info, put_at place (file_name, info) pool)

unfoldable pub share : Outcome → Bytes → FileInfo → Shared → Shared × Pc
unfolding make_room emplace
share o file_name info m =
    let room = make_room m.files.pool in
    let (shown, pool) = emplace o.place file_name info (lookup file_name room) room in
    (with_files m (record m.files { pool = pool }), answered file_name (some shown))

-- Any number of threads.
pub record System : Type 0 where
  pub mem : Shared
  pub pc : ℕ → Pc

-- `begin`: the thread calls `get`. `next`: it takes its next step.
pub data Turn : Type 0 where
  begin : ℕ → Bytes → Turn
  next : ℕ → Outcome → Turn

abbrev pub update : (ℕ → Pc) → ℕ → Pc → ℕ → Pc
update pc i p j = if i == j then p else pc j

abbrev pub is_busy : Pc → Bool
is_busy idle = false
is_busy (answered file_name a) = false
is_busy p = true

abbrev pub new_pool : Bytes → System
new_pool root = record {
  mem = record { files = record { root = root; pool = []; invalid_paths = [] }; opens = [] };
  pc = λ _. idle;
}

-- The loop of the destructor; `none` where it closes what is not open.
unfoldable pub close_files : List (Bytes × FileInfo) → List ℕ → Option (List ℕ)
unfolding has unwatch
close_files [] opens = some opens
close_files (e ∷ es) opens =
    if has e.1.file opens then close_files es (unwatch e.1.file opens) else none

-- `descriptor`: what the system calls the next file that it opens, when these are open.
module _ (descriptor : List ℕ → ℕ) where
  unfoldable pub go : Outcome → Shared → Pc → Shared × Pc
  unfolding contains make_room note_invalid share
  go o m (looked file_name (some info)) =
      if has info.file (files_of m.files.pool)
      then (m, answered file_name (some info))
      else (m, dangling)
  go o m (looked file_name none) =
      if contains (m.files.root ++ file_name) m.files.invalid_paths
      then (m, answered file_name none)
      else (m, unknown file_name)
  go o m (unknown file_name) =
      if o.can_open
      then (
        record { files = m.files; opens = descriptor m.opens ∷ m.opens },
        tried file_name (some (descriptor m.opens)),
      )
      else (m, tried file_name none)
  go o m (tried file_name none) = (
    with_files m (record m.files {
      invalid_paths =
          note_invalid o.place (m.files.root ++ file_name) (make_room m.files.invalid_paths);
    }),
    answered file_name none,
  )
  go o m (tried file_name (some d)) = share o file_name (record o.info { file = d }) m
  go o m p = (m, p)

  unfoldable pub step : Turn → System → System
  unfolding go
  step (begin i file_name) s =
      if is_busy (s.pc i)
      then s
      else record s { pc = update s.pc i (looked file_name (lookup file_name s.mem.files.pool)) }
  step (next i o) s = let (m, p) = go o s.mem (s.pc i) in record { mem = m; pc = update s.pc i p }

  unfoldable pub run : List Turn → System → System
  unfolding step
  run [] s = s
  run (t ∷ ts) s = run ts (step t s)
