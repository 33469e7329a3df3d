-- ===== src/Tests/Sharing.antt =====
-- Threads that share a file pool.
use network_learn.Base.{
  ℕ, ◌+◌, ◌≤◌, ◌≡◌, refl, true, false, List, [], ◌∷◌, some, arith, length, codes, bytes_eq,
}
use network_learn.Util.StringMap.{lookup}
use network_learn.Epoll.Watched.{occurs}
use network_learn.FilePool.{FileInfo}
use network_learn.FilePool.Cache.{IsBounded}
use network_learn.FilePool.Threads.{
  Outcome, Turn, begin, next, answered, files_of, run, new_pool, close_files,
}
use network_learn.FilePool.Threads.Safety.{
  IsOpenAnswer, is_dangling, IsSameAnswer, run_safe, run_shared, close_files-run,
}

-- A descriptor that is larger than all that are open.
abbrev above : List ℕ → ℕ
above [] = 1
above (x ∷ xs) = x + above xs

positive : (os : List ℕ) → 1 ≤ above os
positive [] = omega arith
positive (x ∷ xs) = omega (arith, positive xs)

larger : (d : ℕ) (os : List ℕ) → above os ≤ d → occurs d os ≡ 0
larger d [] h = refl
larger d (x ∷ xs) h = ground (arith, positive xs, larger d xs, h)

above_fresh : (os : List ℕ) → occurs (above os) os ≡ 0
above_fresh os = larger (above os) os (omega arith)

abbrev text : FileInfo
text = record {
  file = 0;
  file_size = 10;
  extension = codes ".txt";
  last_modified = codes "Thu, 01 Jan 1970 00:00:00 GMT";
}

abbrev finds : Outcome
finds = record { place = 0; can_open = true; info = text }

-- Two threads ask for one file, and both open it before either puts it into the pool.
abbrev race : List Turn
race =
    begin 0 (codes "/a")
    ∷ begin 1 (codes "/a")
    ∷ next 0 finds
    ∷ next 1 finds
    ∷ next 0 finds
    ∷ next 1 finds
    ∷ next 1 finds
    ∷ next 0 finds
    ∷ []

-- Both have the descriptor of the second thread; that of the first is left open by the destructor.
race_result :
    ((run above race (new_pool [])).pc 0 ≡ answered (codes "/a") (some (record text { file = 2 })))
    × ((run above race (new_pool [])).pc 1
        ≡ answered (codes "/a") (some (record text { file = 2 })))
    × (close_files
          (run above race (new_pool [])).mem.files.pool
          (run above race (new_pool [])).mem.opens
        ≡ some (1 ∷ []))
unfolding run close_files lookup bytes_eq
race_result = (refl, refl, refl)

run_safe_example :
    IsBounded (run above race (new_pool [])).mem.files
    × ((d : ℕ)
        → occurs d (files_of (run above race (new_pool [])).mem.files.pool)
          ≤ occurs d (run above race (new_pool [])).mem.opens)
    × ((i : ℕ)
        → IsOpenAnswer (run above race (new_pool [])).mem ((run above race (new_pool [])).pc i))
run_safe_example = run_safe above above_fresh [] race

few_open : length (run above race (new_pool [])).mem.opens ≤ 128
unfolding run lookup bytes_eq
few_open = omega arith

run_shared_example :
    (is_dangling ((run above race (new_pool [])).pc 0) ≡ false)
    × IsSameAnswer ((run above race (new_pool [])).pc 0) ((run above race (new_pool [])).pc 1)
run_shared_example = run_shared above above_fresh [] race few_open 0 1

close_files-run_example :
    (os : List ℕ) × (close_files
        (run above race (new_pool [])).mem.files.pool
        (run above race (new_pool [])).mem.opens
      ≡ some os)
    × (length os + length (run above race (new_pool [])).mem.files.pool
        ≡ length (run above race (new_pool [])).mem.opens)
    × ((d : ℕ)
        → occurs d os + occurs d (files_of (run above race (new_pool [])).mem.files.pool)
          ≡ occurs d (run above race (new_pool [])).mem.opens)
close_files-run_example = close_files-run above above_fresh [] race

-- The turns of `race` behind its first.
abbrev others : List Turn
others =
    begin 1 (codes "/a")
    ∷ next 0 finds
    ∷ next 1 finds
    ∷ next 0 finds
    ∷ next 1 finds
    ∷ next 1 finds
    ∷ next 0 finds
    ∷ []
