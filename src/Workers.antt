-- ===== src/Workers.antt =====
-- `ThreadPool` of util/threadpool.h: its threads as a step relation. A step is what one thread does
-- while it holds the mutex, or the run of a task; the logs `enqueued` and `started` record it.
pub mod Served
use network_learn.Base.{ℕ, ◌≡◌, Bool, true, false, List, [], ◌∷◌, ◌++◌}

-- A worker in `wait`, in `task()`, or behind its `return`.
pub data Worker : Type 0 where
  waiting : Worker
  running : ℕ → Worker
  exited : Worker

pub record ThreadPool : Type 0 where
  pub workers : List Worker
  pub tasks : List ℕ
  pub stop : Bool
  pub enqueued : List ℕ
  pub started : List ℕ

pub data Step : ThreadPool → ThreadPool → Type 0 where
  -- `enqueue`, which throws on a stopped pool.
  enqueues :
      (p : ThreadPool) (task : ℕ)
      → p.stop ≡ false
      → Step p (record p { tasks = p.tasks ++ task ∷ []; enqueued = p.enqueued ++ task ∷ [] })
  -- A worker takes the front of the queue.
  takes :
      (p : ThreadPool) (before after : List Worker) (task : ℕ) (rest : List ℕ)
      → p.workers ≡ before ++ waiting ∷ after
      → p.tasks ≡ task ∷ rest
      → Step p (record p {
        workers = before ++ running task ∷ after;
        tasks = rest;
        started = p.started ++ task ∷ [];
      })
  -- Its task ends.
  ends :
      (p : ThreadPool) (before after : List Worker) (task : ℕ)
      → p.workers ≡ before ++ running task ∷ after
      → Step p (record p { workers = before ++ waiting ∷ after })
  -- A worker returns.
  returns :
      (p : ThreadPool) (before after : List Worker)
      → p.workers ≡ before ++ waiting ∷ after
      → p.stop ≡ true
      → p.tasks ≡ []
      → Step p (record p { workers = before ++ exited ∷ after })
  -- The destructor, up to the joins.
  stops : (p : ThreadPool) → Step p (record p { stop = true })

pub data Run : ThreadPool → ThreadPool → Type 0 where
  stay : (p : ThreadPool) → Run p p
  go : (p q r : ThreadPool) → Run p q → Step q r → Run p r
