-- ===== src/FilePool/Threads/Alone.antt =====
-- One thread by itself against `get` as one call.
use network_learn.Base.{
  ℕ, ◌≡◌, refl, true, false, List, [], ◌∷◌, ◌++◌, Option, none, some, arith, ◌==◌, if◌then◌else◌,
  Bool-cases, Option-cases, inl, inr, Bytes,
}
use network_learn.Util.StringMap.{lookup}
use network_learn.Epoll.{has}
use network_learn.Epoll.Watched.{occurs-has}
use network_learn.FilePool.{FileInfo, contains, make_room, after_open, get}
use network_learn.FilePool.Cache.{get_found, get_invalid, get_unknown, lookup-make_room}
use network_learn.FilePool.Threads.{
  Shared, Outcome, System, begin, next, Pc, looked, answered, files_of, note_invalid, emplace,
  share, go, step, run, is_busy,
}
use network_learn.FilePool.Threads.Sound.{lookup-occurs}

contains-make_room :
    (path : Bytes) (ps : List Bytes)
    → contains path ps ≡ false
    → contains path (make_room ps) ≡ false
unfolding contains make_room
contains-make_room path [] e = e
contains-make_room path (p ∷ ps) e = ground arith

module _ (descriptor : List ℕ → ℕ) where
  -- What the file system has at any path, when the outcome is `o`.
  abbrev opening : Outcome → List ℕ → Bytes → Option FileInfo
  opening o opens path =
      if o.can_open then some (record o.info { file = descriptor opens }) else none

  abbrev thrice : Outcome → Shared → Pc → Shared × Pc
  thrice o m p =
      let (m1, p1) = go descriptor o m p in
      let (m2, p2) = go descriptor o m1 p1 in go descriptor o m2 p2

  thrice-get :
      (o : Outcome) (name : Bytes) (m : Shared)
      → let r = thrice o m (looked name (lookup name m.files.pool)) in
        let g = get o.place (opening o m.opens) name m.files in
        (r.1 ≡ answered name g.0) × (r.0.files ≡ g.1)
  unfolding go note_invalid share emplace after_open
  thrice-get o name m = elim (Option-cases (lookup name m.files.pool)) [
    | inr (info, found) ↦
        let there = lookup-occurs name info m.files.pool found in
        let is_in : has info.file (files_of m.files.pool) ≡ true =
          ground (arith, there, occurs-has info.file (files_of m.files.pool)) in
        rw (found, is_in, get_found o.place (opening o m.opens) name m.files info found)
          (refl, refl)
    | inl missed ↦ elim (Bool-cases (contains (m.files.root ++ name) m.files.invalid_paths)) [
      | inl invalid ↦
          rw (missed, invalid, get_invalid o.place (opening o m.opens) name m.files missed invalid)
            (refl, refl)
      | inr new ↦ elim (Bool-cases o.can_open) [
        | inl opens ↦
            rw
              (
                missed,
                new,
                get_unknown o.place (opening o m.opens) name m.files missed new,
                opens,
                lookup-make_room name m.files.pool missed,
              )
              (refl, refl)
        | inr fails ↦
            rw
              (
                missed,
                new,
                get_unknown o.place (opening o m.opens) name m.files missed new,
                fails,
                contains-make_room (m.files.root ++ name) m.files.invalid_paths new,
              )
              (refl, refl)
      ]
    ]
  ]

  -- A thread that is not in a call, and that no other thread interrupts: a call of it and three steps
  -- answer what `get` as one call returns, and leave the two tables as it leaves them.
  run_alone :
      (i : ℕ) (o : Outcome) (name : Bytes) (s : System)
      → is_busy (s.pc i) ≡ false
      → ((run descriptor (begin i name ∷ next i o ∷ next i o ∷ next i o ∷ []) s).pc i
          ≡ answered name (get o.place (opening o s.mem.opens) name s.mem.files).0)
        × ((run descriptor (begin i name ∷ next i o ∷ next i o ∷ next i o ∷ []) s).mem.files
            ≡ (get o.place (opening o s.mem.opens) name s.mem.files).1)
  unfolding run step
  run_alone i o name s free =
      let same : (i == i) ≡ true = ground arith in rw (free, same) (thrice-get o name s.mem)
