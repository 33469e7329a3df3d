-- ===== src/Server/SlowClose.antt =====
-- `requestQuit`, and then `waitForFinished`, while the loops have clients.
use mathlib.Core.Option
use network_learn.Base.{
  ℕ, suc, ◌+◌, ◌^◌, ◌≤◌, ◌<◌, ◌≡◌, refl, subst, ◌∙◌, Bool, true, false, ◌&&◌, List, [], ◌∷◌, map,
  Option, some, arith, length, All,
}
use network_learn.Loop.{EventLoop, Round, unregister}
use network_learn.Loop.Exec.{exec}
use network_learn.Loop.Invariant.{Inv}
use network_learn.Loop.Closing.{Distinct}
use network_learn.Loop.Queue.{Answers}
use network_learn.Loop.Paced.{Timed}
use network_learn.Loop.SlowClose.{AreQuiet, last_time, exec-unregister}
use network_learn.Server.{Listener, WebServer, ids_of, request_quit, join_all, wait_for_finished}
use network_learn.Server.Life.{IsOver, IsRunning, destroy_all-IsOver, none_left_open}

-- A loop that has ended by itself.
abbrev pub IsDeserted : {W : Type 0} → EventLoop W → Type 0
IsDeserted l = (l.sockets ≡ []) × (l.epoll.count ≡ 0)

and_true : (b : Bool) → (b && true) ≡ b
and_true true = refl
and_true false = refl

-- The rounds of a loop in which no socket has an event, from `now` up to the timeout.
abbrev pub AreIdle : (ℕ → ℕ) → ℕ → ℕ → List Round → Type 0
AreIdle memory timeout now rs = AreQuiet now rs × (now + memory timeout ≤ last_time now rs)

-- A loop with these listeners, none of which has failed, at the time `now`.
abbrev pub IsServing : {W : Type 0} → (ℕ → ℕ) → ℕ → ℕ → List ℕ → EventLoop W → Type 0
IsServing memory timeout now ids l =
    IsRunning ids l × Timed memory timeout now l × (length l.sockets < 2 ^ 32)

module _ {W : Type 0} (memory : ℕ → ℕ) (timeout : ℕ) (process : ℕ → W → Option (Bool × W))
    (rounds : ℕ → List Round) (now : ℕ) where
  leaves_one :
      (ids : List ℕ) (rs : List Round) (l : EventLoop W)
      → Answers process
      → Distinct ids
      → 0 < memory timeout
      → AreIdle memory timeout now rs
      → IsServing memory timeout now ids l
      → (l' : EventLoop W) × (exec memory timeout process rs (unregister ids l) ≡ some l')
        × Inv [] l'
        × IsDeserted l'
  leaves_one ids [] l answers d positive idle v = absurd (omega (arith, positive, idle.1))
  leaves_one ids (r ∷ rs) l answers d positive idle v =
      let ((inv, same, none_failed), timed, few) = v in
      let (l', done, v', none_left, zero_left, told) =
        exec-unregister memory timeout process r rs now l answers inv (rw same d)
          (rw same none_failed) timed few idle.0 idle.1 in
      (
        l',
        subst (λ xs. exec memory timeout process (r ∷ rs) (unregister xs l) ≡ some l') same done,
        v',
        (none_left, zero_left),
      )

  join_all-leaves :
      (ids : List ℕ) (k : ℕ) (ls : List (EventLoop W))
      → Answers process
      → Distinct ids
      → 0 < memory timeout
      → ((k : ℕ) → AreIdle memory timeout now (rounds k))
      → All (IsServing memory timeout now ids) ls
      → (ls' : List (EventLoop W)) × (join_all memory timeout process rounds k
            (map (unregister ids) ls)
          ≡ some ls')
        × (length ls' ≡ length ls)
        × All (Inv []) ls'
        × All IsDeserted ls'
  unfolding join_all Option.bind
  join_all-leaves ids k [] answers d positive idle v = ([], refl, refl, tt, tt)
  join_all-leaves ids k (l ∷ ls) answers d positive idle v =
      let (l', done, v', gone) = leaves_one ids (rounds k) l answers d positive (idle k) v.0 in
      let (ls', done', lengths, vs, deserted) =
        join_all-leaves ids (suc k) ls answers d positive idle v.1 in
      (l' ∷ ls', rw (done, done') refl, omega (arith, lengths), (v', vs), (gone, deserted))

  -- The listeners of a server are all different; each of its loops keeps its invariants and those of its
  -- timers, has these listeners, none of which has failed, and fewer than 2^32 clients; the timeout is not
  -- 0, and `process` always returns. After `requestQuit` no socket of any loop has an event, in rounds at
  -- times that do not go back, up to the timeout or later. Then the threads of all loops end, each with no
  -- client left and `m_count` 0, and `waitForFinished` returns; each loop told the handler of each number
  -- at most once that it was accepted, and just as often that it was closed; every listener was closed,
  -- and the server has no loop and no listener any more.
  pub wait_for_finished-request_quit :
      (s : WebServer W)
      → Answers process
      → Distinct (ids_of s.listeners)
      → 0 < memory timeout
      → ((k : ℕ) → AreIdle memory timeout now (rounds k))
      → All (IsServing memory timeout now (ids_of s.listeners)) s.loops
      → (ls : List (EventLoop W)) × (join_all memory timeout process rounds 0 (request_quit s).loops
          ≡ some ls)
        × All IsDeserted ls
        × (ls' : List (EventLoop W)) × (wait_for_finished memory timeout process rounds false
              (request_quit s)
            ≡ some (ls', record s { listeners = []; loops = [] }))
        × (length ls' ≡ length s.loops)
        × All IsOver ls'
        × All (λ (x : Listener). x.is_open ≡ false) (request_quit s).listeners
  unfolding wait_for_finished request_quit Option.bind
  wait_for_finished-request_quit s answers d positive idle v =
      let (ls, done, lengths, vs, deserted) =
        join_all-leaves (ids_of s.listeners) 0 s.loops answers d positive idle v in
      let (ls', done', lengths', over) = destroy_all-IsOver ls vs in
      (
        ls,
        done,
        deserted,
        ls',
        rw (done, done', and_true s.runnable) refl,
        lengths' ∙ lengths,
        over,
        none_left_open s.listeners,
      )
