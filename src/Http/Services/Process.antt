-- ===== src/Http/Services/Process.antt =====
-- `HttpServices::process` of http/httpservices.cpp. The `static thread_local` objects of the function
-- live as long as their thread: they are a state that the calls on one thread hand on.
pub mod Exchange
pub mod Reuse
use network_learn.Base.{
  ℕ, ◌+◌, Bool, true, false, not, ◌&&◌, List, [], ◌∷◌, Option, none, some, leb, ◌==◌, if◌then◌else◌,
  length, Bytes,
}
use network_learn.Socket.{Socket, equals_size, read_all, send_stream}
use network_learn.Http.Request as Request
use network_learn.Http.Request.{
  HttpRequest, Status, ok, refused, fault, unfinished, Parsed, new_request, parse,
}
use network_learn.Http.Response as Response
use network_learn.Http.Response.{
  HttpResponse, Body, text, stream, file, new_response, is_valid, set_keep_alive, to_raw_data,
}
use network_learn.Util.HeaderMap.{HeaderMap}
use network_learn.Http.Services.{HttpServices, call_handler}

pub record Local : Type 0 where
  pub request : HttpRequest
  pub response : HttpResponse
  pub buffer : Bytes

abbrev pub new_local : Local
new_local = record { request = new_request; response = new_response; buffer = [] }

-- A socket, with `m_times` of `AbstractSocket`.
pub record Connection (S : Type 0) : Type 0 where
  pub times : ℕ
  pub channel : S

-- What a call leaves: its result, the objects of the thread, and the socket.
pub record Outcome (S : Type 0) : Type 0 where
  pub result : Bool
  pub local : Local
  pub connection : Connection S

-- The function that `ScopeFunction` runs at the end of the scope.
unfoldable pub clean : Local → Local
clean local = record {
  request = Request.reset local.request;
  response = Response.reset local.response;
  buffer = [];
}

-- `date`: the text of the date in the call. `order`: the order in which the header table is walked.
-- `fuel`: for the loops of the socket.
module _ {S : Type 0} (socket : Socket S) (services : HttpServices) (date : Bytes)
    (order : HeaderMap Bytes Bytes → HeaderMap Bytes Bytes) (fuel : ℕ) where
  -- The visitor of the body.
  pub send_body : Body → S → Option (Bool × S)
  send_body (text _) s = some (true, s)
  send_body (stream body) s = elim (send_stream socket fuel false body s) [
    | none ↦ none
    | some (result, (_, s')) ↦ some (result, s')
  ]
  send_body (file body) s =
      let (result, s') = socket.send_file body.file body.offset body.count s in
      some (equals_size result body.count, s')

  -- The function from `response->visitBody` on.
  pub after_body : Local → ℕ → Option (Bool × S) → Option (Outcome S)
  after_body local times none = none
  after_body local times (some (sent, s)) = some (record {
    result = sent && (local.response.is_keep_alive && leb times services.max_times);
    local = clean local;
    connection = record { times = times; channel = s };
  })

  -- The function from `response->toRawData` on.
  pub respond : Local → Connection S → Option (Outcome S)
  unfolding send_body after_body
  respond local c =
      let buffer = to_raw_data date order local.response local.buffer in
      let (result, s) = socket.write buffer c.channel in
      if equals_size result (length buffer)
      then after_body (record local { buffer = buffer }) c.times (send_body local.response.body s)
      else some
          (record { result = false; local = clean local; connection = record c { channel = s } })

  -- The function behind `callHandler`; a handler that throws makes the call throw.
  pub after_handler :
      Local → Connection S → Option (HttpRequest × HttpResponse) → Option (Outcome S)
  unfolding respond
  after_handler local c none = none
  after_handler local c (some (req, resp)) =
      let local' = record local { request = req; response = resp } in
      if is_valid resp
      then respond local' c
      else some (record { result = true; local = clean local'; connection = c })

  -- The function behind `parse`.
  pub serve : Local → Connection S → Option (Outcome S)
  unfolding after_handler
  serve local c =
      if local.request.is_valid
      then (let times = if services.max_times == 0 then c.times else c.times + 1 in
          let response =
            if services.is_auto_keep_alive
            then set_keep_alive local.request.is_keep_alive local.response
            else local.response in
          after_handler local (record c { times = times })
            (call_handler services local.request response))
      else some (record { result = false; local = local; connection = c })

  pub by_status : Status → Local → Connection S → Option (Outcome S)
  unfolding serve
  by_status ok local c = serve local c
  by_status refused local c = serve local c
  by_status _ local c = none

  pub after_parse : Local → Connection S → Parsed → Option (Outcome S)
  unfolding by_status
  after_parse local c p = by_status p.status (record local { request = p.request }) c

  -- The function behind `socket->read`.
  pub after_read : Local → Connection S → Option (Bytes × S) → Option (Outcome S)
  unfolding after_parse
  after_read local c none = none
  after_read local c (some (raw, s)) =
      after_parse local (record c { channel = s }) (parse (record local.request { raw_data = raw }))

  -- `none`: the call throws, or the fuel ran out.
  unfoldable pub process : Local → Connection S → Option (Outcome S)
  unfolding after_read
  process local c = after_read local c (read_all socket fuel local.request.raw_data c.channel)
