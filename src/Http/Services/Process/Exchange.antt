-- ===== src/Http/Services/Process/Exchange.antt =====
-- One exchange: what `process` sends for what it has read.
use mathlib.Core.List.{append-nil}
use network_learn.Base.{
  ℕ, ◌+◌, ◌%◌, ◌<◌, ◌≡◌, refl, sym, ap, ◌∙◌, Bool, true, not, ◌&&◌, [], ◌++◌, Option, some, arith,
  leb, ◌==◌, if◌then◌else◌, length, Bytes,
}
use network_learn.Util.HeaderMap.{HeaderMap}
use network_learn.Util.Stream.{rest, IsGood}
use network_learn.Socket.{Socket, Delivers, equals_size, socket_buf_size}
use network_learn.Socket.Transfer.{read_all-arrived, send_stream-rest, write_some}
use network_learn.Http.Request.{HttpRequest, parse, Parsed, ok}
use network_learn.Http.Request.Message.{Message, render, IsWellFormed}
use network_learn.Http.Request.RoundTrip.{ReadsBack, parse-render}
use network_learn.Http.Response.{
  HttpResponse, Body, text, stream, file, new_response, is_valid, set_keep_alive, to_raw_data,
}
use network_learn.Http.Response.Framing.{to_raw_data_lem}
use network_learn.Http.Services.{HttpServices, call_handler, pick}
use network_learn.Http.Services.Process.{
  Local, Connection, Outcome, clean, send_body, after_body, respond, after_handler, serve,
  by_status, after_parse, after_read, process,
}

-- What follows the head on the wire, and whether the visitor of the body answers true.
abbrev pub streamed : Body → Bytes
streamed (stream s) = rest s
streamed _ = []

abbrev pub completes : Body → Bool
completes (stream s) = not (length (rest s) % socket_buf_size == 0)
completes _ = true

-- A text, or a stream that has not failed and is below the fuel.
abbrev pub IsSendable : ℕ → Body → Type 0
IsSendable fuel (text _) = Unit
IsSendable fuel (stream s) = IsGood s × (length (rest s) < fuel)
IsSendable fuel (file _) = ⊥

-- The objects of a thread before a call: those of `new_local`, up to what a call writes before it
-- reads.
pub record IsClean (local : Local) : Type 0 where
  pub raw_empty : local.request.raw_data ≡ []
  pub headers_empty : local.request.headers ≡ []
  pub arguments_empty : local.request.url_arguments ≡ []
  pub response_new : local.response ≡ new_response
  pub buffer_empty : local.buffer ≡ []

-- The response that a handler gets for a request.
abbrev pub response_for : HttpServices → HttpRequest → HttpResponse
response_for services req =
    if services.is_auto_keep_alive
    then set_keep_alive req.is_keep_alive new_response
    else new_response

abbrev pub times_after : HttpServices → ℕ → ℕ
times_after services times = if services.max_times == 0 then times else times + 1

module _ {S : Type 0} (socket : Socket S) (d : Delivers socket) (services : HttpServices)
    (date : Bytes) (order : HeaderMap Bytes Bytes → HeaderMap Bytes Bytes) (fuel : ℕ) where
  send_body-sent :
      (body : Body) (s : S)
      → IsSendable fuel body
      → (s' : S) × (send_body socket services date order fuel body s ≡ some (completes body, s'))
        × (d.sent s' ≡ d.sent s ++ streamed body)
        × (d.arrived s' ≡ d.arrived s)
  unfolding send_body
  send_body-sent (text t) s h = (s, refl, sym (append-nil (d.sent s)), refl)
  send_body-sent (stream st) s h =
      let (end, s', result, sent, kept) = send_stream-rest socket d fuel st s h.0 h.1 in
      (s', rw (send_body, result) refl, sent, kept)
  send_body-sent (file f) s h = absurd h

  head_size : (resp : HttpResponse) → 0 < length (to_raw_data date order resp [])
  head_size resp = rw (to_raw_data_lem date order resp []) (omega arith)

  equals_own : (n : ℕ) → equals_size (some n) n ≡ true
  unfolding equals_size
  equals_own n = ground arith

  -- What is sent for a response, what is left to read, and the outcome.
  abbrev pub Responds :
      Connection S → Bytes → HttpRequest → HttpResponse → Option (Outcome S) → Type 0
  Responds c left req resp o =
      (end : S) × (o
        ≡ some (record {
          result = completes resp.body && (resp.is_keep_alive && leb c.times services.max_times);
          local =
              clean (record {
                request = req;
                response = resp;
                buffer = to_raw_data date order resp [];
              });
          connection = record { times = c.times; channel = end };
        }))
      × (d.sent end ≡ (d.sent c.channel ++ to_raw_data date order resp []) ++ streamed resp.body)
      × (d.arrived end ≡ left)

  respond-Responds :
      (req : HttpRequest) (resp : HttpResponse) (c : Connection S)
      → IsSendable fuel resp.body
      → Responds c (d.arrived c.channel) req resp (
          respond socket services date order fuel
            (record { request = req; response = resp; buffer = [] })
            c)
  unfolding respond after_body
  respond-Responds req resp c h =
      let buffer = to_raw_data date order resp [] in
      let s = (socket.write buffer c.channel).1 in
      let (end, result, sent, kept) = send_body-sent resp.body s h in
      (
        end,
        rw
            (
              write_some socket d buffer c.channel (head_size resp),
              equals_own (length buffer),
              result,
            )
            refl,
        sent ∙ ap (λ t. t ++ streamed resp.body) (d.write_sent buffer c.channel),
        kept ∙ d.write_arrived buffer c.channel,
      )

  respond_after_handler :
      (local : Local) (req : HttpRequest) (resp : HttpResponse) (c : Connection S)
      → local.buffer ≡ []
      → is_valid resp ≡ true
      → IsSendable fuel resp.body
      → Responds c
          (d.arrived c.channel)
          req
          resp
          (after_handler socket services date order fuel local c (some (req, resp)))
  unfolding after_handler
  respond_after_handler local req resp c e v h = rw (v, e) (respond-Responds req resp c h)

  -- The handler that `process` calls, on the request that `parse` leaves.
  serve_lem :
      (m : Message) (local : Local) (c : Connection S)
      → ReadsBack m local.request
      → local.response ≡ new_response
      → serve socket services date order fuel local c
        ≡ after_handler socket services date order fuel local
            (record c { times = times_after services c.times })
            (pick services m.method m.uri local.request (response_for services local.request))
  unfolding serve call_handler
  serve_lem m local c r e = rw (call_handler, r.method_is, r.uri_is, e, r.valid) refl

  process_lem :
      (m : Message) (local : Local) (c : Connection S)
      → IsClean local
      → IsWellFormed m
      → d.arrived c.channel ≡ render m
      → length (render m) < fuel
      → (s : S) × (process socket services date order fuel local c
          ≡ after_parse socket services date order fuel local
              (record c { channel = s })
              (parse (record local.request { raw_data = render m })))
        × (d.sent s ≡ d.sent c.channel)
        × (d.arrived s ≡ [])
  unfolding process after_read
  process_lem m local c l w e enough =
      let (s, result, empty, quiet) = read_all-arrived socket d fuel [] c.channel (rw e enough) in
      (s, rw (l.raw_empty, result, e) refl, quiet, empty)

  after_parse_ok :
      (local : Local) (c : Connection S) (p : Parsed)
      → p.status ≡ ok
      → after_parse socket services date order fuel local c p
        ≡ serve socket services date order fuel (record local { request = p.request }) c
  unfolding after_parse by_status
  after_parse_ok local c p e = rw e refl

  -- On a clean thread and a connection that delivers, when a client's text for a well-formed
  -- message has arrived and nothing else, and the fuel is above its size: `process` calls the
  -- handler that is picked for the method and the URI of the message, on a request that reads
  -- back the message. Where the handler leaves a valid response with a text, or with a stream
  -- that has not failed and is below the fuel, exactly the text of the response and what is left
  -- of the stream are sent; the result is true exactly if the body was sent to its end, the
  -- response keeps the connection and the connection is not over its maximum of requests; the
  -- thread is cleaned.
  pub process-Responds :
      (m : Message) (local : Local) (c : Connection S) (req' : HttpRequest) (resp' : HttpResponse)
      → IsClean local
      → IsWellFormed m
      → d.arrived c.channel ≡ render m
      → length (render m) < fuel
      → (let req = (parse (record local.request { raw_data = render m })).request in
          pick services m.method m.uri req (response_for services req) ≡ some (req', resp'))
      → is_valid resp' ≡ true
      → IsSendable fuel resp'.body
      → ReadsBack m (parse (record local.request { raw_data = render m })).request
        × Responds
            (record c { times = times_after services c.times })
            []
            req'
            resp'
            (process socket services date order fuel local c)
  process-Responds m local c req' resp' l w e enough handled v h =
      let p = parse (record local.request { raw_data = render m }) in
      let (accepted, reads) =
        parse-render m (record local.request { raw_data = render m }) w refl l.headers_empty
          l.arguments_empty in
      let (s, result, quiet, empty) = process_lem m local c l w e enough in
      let local' : Local = record local { request = p.request } in
      let c' : Connection S = record { times = times_after services c.times; channel = s } in
      let (end, outcome, sent, left) =
        respond_after_handler local' req' resp' c' l.buffer_empty v h in
      (
        reads,
        (
          end,
          result
              ∙ after_parse_ok local (record c { channel = s }) p accepted
              ∙ serve_lem m local' (record c { channel = s }) reads l.response_new
              ∙ ap (after_handler socket services date order fuel local' c') handled
              ∙ outcome,
          sent ∙ rw quiet refl,
          left ∙ empty,
        ),
      )
