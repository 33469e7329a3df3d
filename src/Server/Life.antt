-- ===== src/Server/Life.antt =====
-- The whole life of a server: `start`, its loops, and `waitForFinished`; and `requestQuit`.
use mathlib.Core.Option
use network_learn.Base.{
  not, pos, ℕ, zero, suc, ◌%◌, ◌^◌, ◌≤◌, ◌<◌, ◌≡◌, refl, subst, ◌∙◌, Bool, true, false, List, [],
  ◌∷◌, map, Option, some, ◌==◌, arith, length, is_empty, All,
}
use network_learn.Epoll.{has}
use network_learn.Loop.{EventLoop, Round, unregister}
use network_learn.Loop.Exec.{new_loop}
use network_learn.Loop.Clients.{opened, closed}
use network_learn.Loop.Invariant.{Inv}
use network_learn.Loop.Closing.{Distinct}
use network_learn.Loop.Queue.{Answers}
use network_learn.Loop.Rounds.{AreReady, new_loop-Inv, exec-Inv}
use network_learn.Loop.Timeouts.{destroy-Inv}
use network_learn.Loop.Count.{failed, unregister_lem, unregister-Inv}
use network_learn.Server.{
  Listener, WebServer, ids_of, new_loops, start, request_quit, join_all, destroy_all,
  wait_for_finished, after_start, exec_server,
}

-- What a loop leaves: no client, and each client that was accepted was closed, both once.
abbrev pub IsOver : {W : Type 0} → EventLoop W → Type 0
IsOver l =
    (l.sockets ≡ [])
    × ((i : ℕ) → (opened i l.reports ≤ 1) × (opened i l.reports ≡ closed i l.reports))

module _ {W : Type 0} where
  pub destroy_all-IsOver :
      (ls : List (EventLoop W))
      → All (Inv []) ls
      → (ls' : List (EventLoop W)) × (destroy_all ls ≡ some ls')
        × (length ls' ≡ length ls)
        × All IsOver ls'
  unfolding destroy_all Option.bind
  destroy_all-IsOver [] v = ([], refl, refl, tt)
  destroy_all-IsOver (l ∷ ls) v =
      let (l', done, no_client, no_timer, balanced, same) = destroy-Inv l v.0 in
      let (ls', done', lengths, over) = destroy_all-IsOver ls v.1 in
      let is_over : IsOver l' =
        (no_client, λ i. (omega (arith, same i, v.0.told.once i), balanced i)) in
      (l' ∷ ls', rw (done, done') refl, omega (arith, lengths), (is_over, over))

module _ {W : Type 0} (memory : ℕ → ℕ) (timeout : ℕ) (process : ℕ → W → Option (Bool × W))
    (rounds : ℕ → List Round) (next_id : ℕ) (world : W) where
  join_all-Inv :
      (n k : ℕ) (ids : List ℕ)
      → Answers process
      → Inv [] (new_loop ids next_id world)
      → ((i : ℕ) → AreReady memory timeout process (rounds i) (new_loop ids next_id world))
      → (ls : List (EventLoop W)) × (join_all memory timeout process rounds k
            (new_loops next_id world n ids)
          ≡ some ls)
        × (length ls ≡ n)
        × All (Inv []) ls
  unfolding join_all new_loops Option.bind
  join_all-Inv zero k ids answers v ready = ([], refl, refl, tt)
  join_all-Inv (suc n) k ids answers v ready =
      let (l, done, v1) =
        exec-Inv memory timeout process (rounds k) (new_loop ids next_id world) answers (ready k)
          v in
      let (ls, done', lengths, vs) = join_all-Inv n (suc k) ids answers v ready in
      (l ∷ ls, rw (done, done') refl, omega (arith, lengths), (v1, vs))

  -- A server has listeners, which are all different and older than what the allocators give next,
  -- services, no loop yet, and a number of loops that is not 0; `process` always returns, and each round
  -- answers a loop sockets that it watches then, each once. Then `exec` returns 0, as many loops as it is
  -- asked for have run, and the server has no loop and no listener any more. No loop leaves a client,
  -- and each told the handler of each number at most once that it was accepted, and just as often that
  -- it was closed.
  pub exec_server_lem :
      (quits : Bool) (s : WebServer W)
      → is_empty s.listeners ≡ false
      → s.has_services ≡ true
      → s.loops ≡ []
      → (s.loop_count == 0) ≡ false
      → Distinct (ids_of s.listeners)
      → ((i : ℕ) → has i (ids_of s.listeners) ≡ true → i < next_id)
      → Answers process
      → ((k : ℕ)
          → AreReady memory timeout process
              (rounds k)
              (new_loop (ids_of s.listeners) next_id world))
      → (ls : List (EventLoop W)) × (exec_server memory timeout process rounds quits next_id world s
          ≡ some (pos 0, ls, record s { runnable = not quits; listeners = []; loops = [] }))
        × (length ls ≡ s.loop_count)
        × All IsOver ls
  unfolding exec_server start after_start wait_for_finished Option.bind
  exec_server_lem quits s listens serves idle counts distinct older answers ready =
      let ids = ids_of s.listeners in
      let v = new_loop-Inv ids next_id world distinct older in
      let (ls, done, lengths, vs) = join_all-Inv s.loop_count 0 ids answers v ready in
      let (ls', done', lengths', over) = destroy_all-IsOver ls vs in
      (ls', rw (listens, serves, idle, counts, done, done') refl, lengths' ∙ lengths, over)

pub none_left_open :
    (xs : List Listener)
    → All
        (λ (x : Listener). x.is_open ≡ false)
        (map (λ (x : Listener). record { id = x.id; is_open = false }) xs)
none_left_open [] = tt
none_left_open (x ∷ xs) = (refl, none_left_open xs)

module _ {W : Type 0} where
  unregister-sockets : (xs : List ℕ) (l : EventLoop W) → (unregister xs l).sockets ≡ l.sockets
  unfolding unregister
  unregister-sockets [] l = refl
  unregister-sockets (x ∷ xs) l = unregister-sockets xs _

  -- The loop still runs, and `m_count` is the number of its clients.
  abbrev pub IsLeaving : EventLoop W → Type 0
  IsLeaving l = Inv [] l × (l.epoll.count ≡ length l.sockets % 2 ^ 32)

  -- A loop with these listeners, none of which has failed.
  abbrev pub IsRunning : List ℕ → EventLoop W → Type 0
  IsRunning ids l = Inv [] l × (l.listeners ≡ ids) × (failed l.epoll.watched ids ≡ 0)

  unregister-IsLeaving :
      (l : EventLoop W)
      → Inv [] l
      → Distinct l.listeners
      → failed l.epoll.watched l.listeners ≡ 0
      → IsLeaving (unregister l.listeners l)
  unregister-IsLeaving l v d none_failed = (
    unregister-Inv l v d none_failed,
    rw (unregister-sockets l.listeners l) (omega (arith, (unregister_lem l v d).1, none_failed)),
  )

  unregister-each :
      (ids : List ℕ) (ls : List (EventLoop W))
      → Distinct ids
      → All (IsRunning ids) ls
      → All IsLeaving (map (unregister ids) ls)
  unregister-each ids [] d h = tt
  unregister-each ids (l ∷ ls) d h =
      let (v, same, none_failed) = h.0 in
      (
        subst (λ xs. IsLeaving (unregister xs l)) same
            (unregister-IsLeaving l v (rw same d) (rw same none_failed)),
        unregister-each ids ls d h.1,
      )

  -- On loops that keep their invariants, that have the listeners of the server, which are all
  -- different, and where no listener has failed, `requestQuit` keeps the invariants of each loop, so that
  -- it runs on, with the number of its clients as `m_count`, on 32 bits, so that it stops when there
  -- are none; and it closes each listener.
  request_quit-IsLeaving :
      (s : WebServer W)
      → Distinct (ids_of s.listeners)
      → All (IsRunning (ids_of s.listeners)) s.loops
      → All IsLeaving (request_quit s).loops
        × All (λ (x : Listener). x.is_open ≡ false) (request_quit s).listeners
  unfolding request_quit
  request_quit-IsLeaving s d h =
      (unregister-each (ids_of s.listeners) s.loops d h, none_left_open s.listeners)
