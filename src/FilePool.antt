-- ===== src/FilePool.antt =====
-- `SharedFilePool` of util/sharedfilepool.h and util/sharedfilepool.cpp, one call at a time; in
-- Threads, the calls of several threads and the destructor.
pub mod Cache
pub mod Threads
use network_learn.Base.{
  ℕ, zero, suc, Bool, true, false, ◌||◌, List, [], ◌∷◌, ◌++◌, Option, none, some, leb,
  if◌then◌else◌, length, Bytes, bytes_eq,
}
use network_learn.Util.StringMap.{lookup}

pub record FileInfo : Type 0 where
  pub file : ℕ
  pub file_size : ℕ
  pub extension : Bytes
  pub last_modified : Bytes

abbrev pub max_shared_file : ℕ
max_shared_file = 128

-- The two tables are lists in the order in which they are walked.
pub record SharedFilePool : Type 0 where
  pub root : Bytes
  pub pool : List (Bytes × FileInfo)
  pub invalid_paths : List Bytes

pub contains : Bytes → List Bytes → Bool
contains path [] = false
contains path (p ∷ ps) = bytes_eq path p || contains path ps

-- `if(size() >= MAX_SHARED_FILE) erase(begin())`.
pub make_room : {A : Type 0} → List A → List A
make_room [] = []
make_room (x ∷ xs) = if leb max_shared_file (length (x ∷ xs)) then xs else x ∷ xs

-- A table puts a new element anywhere: `place` says where.
pub put_at : {A : Type 0} → ℕ → A → List A → List A
put_at zero a xs = a ∷ xs
put_at (suc place) a [] = a ∷ []
put_at (suc place) a (x ∷ xs) = x ∷ put_at place a xs

-- `get` behind the attempt to open the file.
pub after_open : ℕ → Bytes → Option FileInfo → SharedFilePool → Option FileInfo × SharedFilePool
unfolding make_room put_at
after_open place file_name none p = (
  none,
  record p { invalid_paths = put_at place (p.root ++ file_name) (make_room p.invalid_paths) },
)
after_open place file_name (some info) p =
    (some info, record p { pool = put_at place (file_name, info) (make_room p.pool) })

-- `get` behind the lookup in the pool. `open_file`: what the file system has at a path in the call, where
-- `none` is no regular file, or one that cannot be opened.
pub after_find :
    ℕ
    → (Bytes → Option FileInfo)
    → Bytes
    → Option FileInfo
    → SharedFilePool
    → Option FileInfo × SharedFilePool
unfolding contains after_open
after_find place open_file file_name (some info) p = (some info, p)
after_find place open_file file_name none p =
    if contains (p.root ++ file_name) p.invalid_paths
    then (none, p)
    else after_open place file_name (open_file (p.root ++ file_name)) p

unfoldable pub get :
    ℕ → (Bytes → Option FileInfo) → Bytes → SharedFilePool → Option FileInfo × SharedFilePool
unfolding after_find
get place open_file file_name p = after_find place open_file file_name (lookup file_name p.pool) p
