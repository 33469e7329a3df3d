-- ===== src/Workers/Served.antt =====
-- Every task that is enqueued is served.
use mathlib.Core.List.{append_assoc, append-nil}
use network_learn.Base.{
  ℕ, zero, suc, ◌≡◌, refl, sym, ap, ◌∙◌, ◌⊎◌, inl, inr, Bool, true, false, List, [], ◌∷◌, ◌++◌,
  arith,
}
use network_learn.Workers.{
  Worker, waiting, running, exited, ThreadPool, Step, enqueues, takes, ends, returns, stops, Run,
  stay, go,
}

abbrev pub has_exited : List Worker → Bool
has_exited [] = false
has_exited (waiting ∷ ws) = has_exited ws
has_exited (running task ∷ ws) = has_exited ws
has_exited (exited ∷ ws) = true

-- The workers of a new pool.
abbrev pub idle : ℕ → List Worker
idle zero = []
idle (suc n) = waiting ∷ idle n

abbrev pub new_pool : ℕ → ThreadPool
new_pool n = record { workers = idle n; tasks = []; stop = false; enqueued = []; started = [] }

idle-has_exited : (n : ℕ) → has_exited (idle n) ≡ false
idle-has_exited zero = refl
idle-has_exited (suc n) = idle-has_exited n

-- A task does not change who has exited.
has_exited_running :
    (before after : List Worker) (task : ℕ)
    → has_exited (before ++ running task ∷ after) ≡ has_exited (before ++ waiting ∷ after)
has_exited_running [] after task = refl
has_exited_running (waiting ∷ before) after task = has_exited_running before after task
has_exited_running (running t ∷ before) after task = has_exited_running before after task
has_exited_running (exited ∷ before) after task = refl

record Inv (p : ThreadPool) : Type 0 where
  pub logged : p.enqueued ≡ p.started ++ p.tasks
  pub emptied : (has_exited p.workers ≡ false) ⊎ ((p.stop ≡ true) × (p.tasks ≡ []))

Step-Inv : {p q : ThreadPool} → Step p q → Inv p → Inv q
Step-Inv (enqueues p task unstopped) v = record {
  logged = ap (λ l. l ++ task ∷ []) v.logged ∙ append_assoc p.started p.tasks (task ∷ []);
  emptied = elim v.emptied [
    | inl none_exited ↦ inl none_exited
    | inr (stopped, none_left) ↦ absurd (ground arith)
  ];
}
Step-Inv (takes p before after task rest here next) v = record {
  logged = v.logged ∙ ap (λ l. p.started ++ l) next ∙ sym (append_assoc p.started (task ∷ []) rest);
  emptied = elim v.emptied [
    | inl none_exited ↦ inl (has_exited_running before after task ∙ rw here at none_exited)
    | inr (stopped, none_left) ↦ absurd (ground arith)
  ];
}
Step-Inv (ends p before after task here) v = record {
  logged = v.logged;
  emptied = elim v.emptied [
    | inl none_exited ↦ inl (sym (has_exited_running before after task) ∙ rw here at none_exited)
    | inr over ↦ inr over
  ];
}
Step-Inv (returns p before after here stopped none_left) v = record {
  logged = v.logged;
  emptied = inr (stopped, none_left);
}
Step-Inv (stops p) v = record {
  logged = v.logged;
  emptied = elim v.emptied [
    | inl none_exited ↦ inl none_exited
    | inr (stopped, none_left) ↦ inr (refl, none_left)
  ];
}

Run-Inv : {p q : ThreadPool} → Run p q → Inv p → Inv q
Run-Inv (stay p) v = v
Run-Inv (go p r q before last) v = Step-Inv last (Run-Inv before v)

-- In every run of a pool with any number of workers, the tasks are started in the order in which they
-- were enqueued, each once, and what is not started is still in the queue; from the moment that a worker
-- has exited, as the destructor waits for, every task that was enqueued has been started.
pub all_served :
    (n : ℕ) (p : ThreadPool)
    → Run (new_pool n) p
    → (p.enqueued ≡ p.started ++ p.tasks)
      × ((has_exited p.workers ≡ false) ⊎ (p.started ≡ p.enqueued))
all_served n p steps =
    let v = Run-Inv steps (record { logged = refl; emptied = inl (idle-has_exited n) }) in
    (
      v.logged,
      elim v.emptied [
        | inl none_exited ↦ inl none_exited
        | inr (stopped, none_left) ↦
            inr (sym (v.logged ∙ ap (λ l. p.started ++ l) none_left ∙ append-nil p.started))
      ],
    )
