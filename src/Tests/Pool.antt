-- ===== src/Tests/Pool.antt =====
-- A run of a thread pool.
use network_learn.Base.{◌≡◌, refl, ◌⊎◌, true, false, [], ◌∷◌, ◌++◌}
use network_learn.Workers.{
  waiting, running, exited, ThreadPool, enqueues, takes, ends, returns, stops, Run, stay, go,
}
use network_learn.Workers.Served.{has_exited, new_pool, all_served}

-- One worker gets task 7, and the pool is stopped while it runs.
abbrev filled : ThreadPool
filled = record (new_pool 1) { tasks = 7 ∷ []; enqueued = 7 ∷ [] }

abbrev busy : ThreadPool
busy = record filled { workers = running 7 ∷ []; tasks = []; started = 7 ∷ [] }

abbrev stopped : ThreadPool
stopped = record busy { stop = true }

abbrev ended : ThreadPool
ended = record stopped { workers = waiting ∷ [] }

abbrev joined : ThreadPool
joined = record ended { workers = exited ∷ [] }

joins : Run (new_pool 1) joined
joins =
    go (new_pool 1) ended joined
      (go (new_pool 1) stopped ended
        (go (new_pool 1) busy stopped
          (go (new_pool 1) filled busy
            (go (new_pool 1) (new_pool 1) filled (stay (new_pool 1)) (enqueues (new_pool 1) 7 refl))
            (takes filled [] [] 7 [] refl refl))
          (stops busy))
        (ends stopped [] [] 7 refl))
      (returns ended [] [] refl refl refl)

all_served_example :
    (joined.enqueued ≡ joined.started ++ joined.tasks)
    × ((has_exited joined.workers ≡ false) ⊎ (joined.started ≡ joined.enqueued))
all_served_example = all_served 1 joined joins
