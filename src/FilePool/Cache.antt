-- ===== src/FilePool/Cache.antt =====
-- What the two tables of the file pool remember.
use network_learn.Base.{
  ℕ, zero, suc, ◌≤◌, ◌≡◌, refl, ap, true, false, List, [], ◌∷◌, ◌++◌, Option, none, some, inl, inr,
  arith, leb, Bool-cases, Option-cases, length, Bytes, bytes_eq, bytes_eq_refl,
}
use network_learn.Util.StringMap.{lookup}
use network_learn.FilePool.{
  FileInfo, SharedFilePool, max_shared_file, contains, make_room, put_at, after_open, after_find,
  get,
}

length-put_at :
    {A : Type 0} (place : ℕ) (a : A) (xs : List A) → length (put_at place a xs) ≡ suc (length xs)
unfolding put_at
length-put_at zero a xs = refl
length-put_at (suc place) a [] = refl
length-put_at (suc place) a (x ∷ xs) = ap suc (length-put_at place a xs)

pub put_at-make_room :
    {A : Type 0} (place : ℕ) (a : A) (xs : List A)
    → length xs ≤ max_shared_file
    → length (put_at place a (make_room xs)) ≤ max_shared_file
unfolding make_room
put_at-make_room place a [] h = omega (arith, length-put_at place a [])
put_at-make_room place a (x ∷ xs) h = elim (Bool-cases (leb max_shared_file (length (x ∷ xs)))) [
  | inl full ↦ rw full (omega (arith, length-put_at place a xs))
  | inr room ↦ rw room (ground (arith, length-put_at place a (x ∷ xs)))
]

abbrev pub IsBounded : SharedFilePool → Type 0
IsBounded p = (length p.pool ≤ max_shared_file) × (length p.invalid_paths ≤ max_shared_file)

after_open-IsBounded :
    (place : ℕ) (file_name : Bytes) (o : Option FileInfo) (p : SharedFilePool)
    → IsBounded p
    → IsBounded (after_open place file_name o p).1
unfolding after_open
after_open-IsBounded place file_name none p h =
    (h.0, put_at-make_room place (p.root ++ file_name) p.invalid_paths h.1)
after_open-IsBounded place file_name (some info) p h =
    (put_at-make_room place (file_name, info) p.pool h.0, h.1)

-- `get` keeps both tables within `MAX_SHARED_FILE` elements, whatever the file system says.
get-IsBounded :
    (place : ℕ) (open_file : Bytes → Option FileInfo) (file_name : Bytes) (p : SharedFilePool)
    → IsBounded p
    → IsBounded (get place open_file file_name p).1
unfolding get after_find
get-IsBounded place open_file file_name p h = elim (Option-cases (lookup file_name p.pool)) [
  | inr (info, found) ↦ rw found h
  | inl missed ↦ elim (Bool-cases (contains (p.root ++ file_name) p.invalid_paths)) [
    | inl invalid ↦ rw (missed, after_find, invalid) h
    | inr unknown ↦
        rw (missed, after_find, unknown)
          (after_open-IsBounded place file_name (open_file (p.root ++ file_name)) p h)
  ]
]

pub lookup-make_room :
    {A : Type 0} (key : Bytes) (m : List (Bytes × A))
    → lookup key m ≡ none
    → lookup key (make_room m) ≡ none
unfolding lookup make_room
lookup-make_room key [] e = e
lookup-make_room key ((k, v) ∷ m) e = ground arith

pub lookup-put_at :
    {A : Type 0} (place : ℕ) (key : Bytes) (value : A) (m : List (Bytes × A))
    → lookup key m ≡ none
    → lookup key (put_at place (key, value) m) ≡ some value
unfolding lookup put_at
lookup-put_at zero key value m e = rw (bytes_eq_refl key) refl
lookup-put_at (suc place) key value [] e = rw (bytes_eq_refl key) refl
lookup-put_at (suc place) key value ((k, v) ∷ m) e = elim (Bool-cases (bytes_eq key k)) [
  | inl same ↦ absurd (ground arith)
  | inr other ↦ rw other (lookup-put_at place key value m (rw other at e))
]

pub contains-put_at :
    (place : ℕ) (path : Bytes) (ps : List Bytes) → contains path (put_at place path ps) ≡ true
unfolding contains put_at
contains-put_at zero path ps = rw (bytes_eq_refl path) refl
contains-put_at (suc place) path [] = rw (bytes_eq_refl path) refl
contains-put_at (suc place) path (p ∷ ps) = ground (arith, contains-put_at place path ps)

-- The second call, as the case that answers it.
pub get_found :
    (place : ℕ) (open_file : Bytes → Option FileInfo) (file_name : Bytes) (p : SharedFilePool)
    (info : FileInfo)
    → lookup file_name p.pool ≡ some info
    → get place open_file file_name p ≡ (some info, p)
unfolding get after_find
get_found place open_file file_name p info found = rw found refl

pub get_invalid :
    (place : ℕ) (open_file : Bytes → Option FileInfo) (file_name : Bytes) (p : SharedFilePool)
    → lookup file_name p.pool ≡ none
    → contains (p.root ++ file_name) p.invalid_paths ≡ true
    → get place open_file file_name p ≡ (none, p)
unfolding get after_find
get_invalid place open_file file_name p missed invalid = rw (missed, after_find, invalid) refl

pub get_unknown :
    (place : ℕ) (open_file : Bytes → Option FileInfo) (file_name : Bytes) (p : SharedFilePool)
    → lookup file_name p.pool ≡ none
    → contains (p.root ++ file_name) p.invalid_paths ≡ false
    → get place open_file file_name p
      ≡ after_open place file_name (open_file (p.root ++ file_name)) p
unfolding get after_find
get_unknown place open_file file_name p missed unknown = rw (missed, after_find, unknown) refl

abbrev Remembers : Bytes → Option FileInfo × SharedFilePool → Type 0
Remembers file_name r =
    (place : ℕ) (open_file : Bytes → Option FileInfo)
    → get place open_file file_name r.1 ≡ (r.0, r.1)

after_open-Remembers :
    (place : ℕ) (file_name : Bytes) (o : Option FileInfo) (p : SharedFilePool)
    → lookup file_name p.pool ≡ none
    → Remembers file_name (after_open place file_name o p)
unfolding after_open
after_open-Remembers place file_name none p missed = λ place' open_file'.
    get_invalid place' open_file' file_name (after_open place file_name none p).1 missed
      (contains-put_at place (p.root ++ file_name) (make_room p.invalid_paths))
after_open-Remembers place file_name (some info) p missed = λ place' open_file'.
    get_found place' open_file' file_name (after_open place file_name (some info) p).1 info (
      lookup-put_at place file_name info (make_room p.pool)
        (lookup-make_room file_name p.pool missed))

-- A call of `get` right after one for the same name gives the same answer and changes nothing, whatever
-- has become of the file in between: a file that was opened stays what it was, and one that was
-- missing stays missing.
get-again :
    (place place' : ℕ) (open_file open_file' : Bytes → Option FileInfo) (file_name : Bytes)
    (p : SharedFilePool)
    → get place' open_file' file_name (get place open_file file_name p).1
      ≡ ((get place open_file file_name p).0, (get place open_file file_name p).1)
get-again place place' open_file open_file' file_name p =
    elim (Option-cases (lookup file_name p.pool)) [
      | inr (info, found) ↦
          rw (get_found place open_file file_name p info found)
            (get_found place' open_file' file_name p info found)
      | inl missed ↦ elim (Bool-cases (contains (p.root ++ file_name) p.invalid_paths)) [
        | inl invalid ↦
            rw (get_invalid place open_file file_name p missed invalid)
              (get_invalid place' open_file' file_name p missed invalid)
        | inr unknown ↦ rw (get_unknown place open_file file_name p missed unknown) (
            after_open-Remembers place file_name (open_file (p.root ++ file_name)) p missed place'
              open_file')
      ]
    ]
