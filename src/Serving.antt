-- ===== src/Serving.antt =====
-- An event loop whose services are those of http/httpservices.cpp: each thread has its own objects, and
-- each client a socket.
use mathlib.Core.Option
use network_learn.Base.{
  Bool-cases, inl, inr, ℕ, ◌<◌, ◌≡◌, refl, ap, Bool, true, false, ◌&&◌, [], ◌++◌, Option, some,
  ◌==◌, arith, if◌then◌else◌, length, leb, Bytes,
}
use network_learn.Util.HeaderMap.{HeaderMap}
use network_learn.Socket.{Socket, Delivers}
use network_learn.Http.Request.{HttpRequest, parse}
use network_learn.Http.Request.Message.{Message, IsWellFormed, render}
use network_learn.Http.Response.{HttpResponse, is_valid, to_raw_data}
use network_learn.Http.Services.{HttpServices, pick}
use network_learn.Http.Services.Process.{Local, Connection, Outcome, process}
use network_learn.Http.Services.Process.Exchange.{
  IsClean, response_for, times_after, streamed, completes, IsSendable, process-Responds,
}
use network_learn.Http.Services.Process.Reuse.{clean-IsClean}
use network_learn.Epoll.{has}
use network_learn.Loop.{EventLoop, Round}
use network_learn.Loop.Exec.{process_one}
use network_learn.Loop.Invariant.{Inv}
use network_learn.Loop.Closing.{IsWatched}
use network_learn.Loop.Effect.{IsKept, process_client_effect}

-- The objects of the thread of the loop, and the sockets of its clients.
pub record Thread (S : Type 0) : Type 0 where
  pub local : Local
  pub connections : ℕ → Connection S

abbrev pub after_call : {S : Type 0} → ℕ → Thread S → Outcome S → Bool × Thread S
after_call i w o = (
  o.result,
  record { local = o.local; connections = λ j. if j == i then o.connection else w.connections j },
)

-- `m_services->process(socket)`.
module _ {S : Type 0} (socket : Socket S) (services : HttpServices) (date : Bytes)
    (order : HeaderMap Bytes Bytes → HeaderMap Bytes Bytes) (fuel : ℕ) where
  unfoldable pub process_socket : ℕ → Thread S → Option (Bool × Thread S)
  process_socket i w =
      Option.map (after_call i w)
        (process socket services date order fuel w.local (w.connections i))

module _ {S : Type 0} (socket : Socket S) (d : Delivers socket) (services : HttpServices)
    (date : Bytes) (order : HeaderMap Bytes Bytes → HeaderMap Bytes Bytes) (fuel : ℕ)
    (memory : ℕ → ℕ) (timeout : ℕ) where
  -- On a loop that keeps its invariants, for a client that the system watches, whose socket delivers
  -- and has received a well-formed request, on clean objects of the thread, with fuel above its length,
  -- where the handler that is found returns a valid response with a body that can be sent:
  -- `processQueue` sends that response on the socket of the client, behind what was sent, and takes
  -- all that has arrived; it leaves the objects clean, and no other socket changes. The loop keeps its
  -- invariants. It keeps the client exactly where the body is sent whole, the response is
  -- keep-alive and the times are not used up; any other client is deleted and reported as closed.
  pub process_one-Responds :
      (r : Round) (i : ℕ) (l : EventLoop (Thread S)) (m : Message) (req' : HttpRequest)
      (resp' : HttpResponse)
      → Inv [] l
      → has i l.listeners ≡ false
      → IsWatched l i
      → IsClean l.world.local
      → IsWellFormed m
      → d.arrived (l.world.connections i).channel ≡ render m
      → length (render m) < fuel
      → (let req = (parse (record l.world.local.request { raw_data = render m })).request in
          pick services m.method m.uri req (response_for services req) ≡ some (req', resp'))
      → is_valid resp' ≡ true
      → IsSendable fuel resp'.body
      → (l' : EventLoop (Thread S)) × (process_one memory timeout
            (process_socket socket services date order fuel)
            r
            i
            l
          ≡ some l')
        × Inv [] l'
        × IsClean l'.world.local
        × (d.sent (l'.world.connections i).channel
            ≡ (d.sent (l.world.connections i).channel ++ to_raw_data date order resp' [])
              ++ streamed resp'.body)
        × (d.arrived (l'.world.connections i).channel ≡ [])
        × ((j : ℕ)
            → l'.world.connections j
              ≡ (if j == i then l'.world.connections i else l.world.connections j))
        × IsKept i
            (completes resp'.body
              && (resp'.is_keep_alive
                  && leb (times_after services (l.world.connections i).times) services.max_times))
            l
            l'
  unfolding process_socket
  process_one-Responds r i l m req' resp' v client h clean_local well arrived enough handled valid
        sendable =
      let w = l.world in
      let c = w.connections i in
      let (reads, responds) =
        process-Responds socket d services date order fuel m w.local c req' resp' clean_local well
          arrived enough handled valid sendable in
      let (end, outcome, sent, left) = responds in
      let answered = ap (Option.map (after_call i w)) outcome in
      let own : (i == i) ≡ true = ground arith in
      let (l', done, v', same, kept) =
        process_client_effect memory timeout (process_socket socket services date order fuel) r i l
          _ _ answered v client h in
      (
        l',
        done,
        v',
        rw same (clean-IsClean _),
        rw (same, own) sent,
        rw (same, own) left,
        λ j. elim (Bool-cases (j == i)) [
          | inl here ↦ rw (same, here, own) refl
          | inr other ↦ rw (same, other) refl
        ],
        kept,
      )
