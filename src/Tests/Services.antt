-- ===== src/Tests/Services.antt =====
-- Sockets and services.
use network_learn.Base.{
  ◌%◌, ◌≡◌, ◌⊎◌, refl, true, false, not, List, [], ◌∷◌, ◌++◌, some, arith, ◌==◌, length, Bytes,
  codes, bytes_eq,
}
use network_learn.Util.Refer.{refer_til}
use network_learn.Util.Stream.{Stream, rest}
use network_learn.Socket.{read_all, send_stream, socket_buf_size}
use network_learn.Socket.Transfer.{read_all-arrived, send_stream-rest}
use network_learn.Http.Request.{HttpRequest, new_request, parse}
use network_learn.Http.Request.Message.{render}
use network_learn.Http.Request.RoundTrip.{ReadsBack}
use network_learn.Http.Response.{HttpResponse, set_text_body, set_keep_alive, is_valid}
use network_learn.Http.Services.{HttpServices, Handler, new_services, add_service, pick, not_found}
use network_learn.Http.Services.Routes.{
  Registration, service, default, build, promised, build-promised,
}
use network_learn.Http.Services.Process.{new_local, Connection, Outcome, process, after_parse}
use network_learn.Http.Services.Process.Exchange.{
  IsClean, response_for, times_after, IsSendable, Responds, process-Responds,
}
use network_learn.Http.Services.Process.Reuse.{IsReset, Keeps, process_cases, process-left_over}
use network_learn.Tests.Requests.{message, message-IsWellFormed}
use network_learn.Tests.Wire.{Wire, wire, wire_delivers}

abbrev quiet : Wire
quiet = record { input = codes "abc"; output = [] }

read_all-arrived_example :
    (s' : Wire) × (read_all wire 4 (codes "x") quiet ≡ some (codes "x" ++ codes "abc", s'))
    × (s'.input ≡ [])
    × (s'.output ≡ [])
read_all-arrived_example = read_all-arrived wire wire_delivers 4 (codes "x") quiet (omega arith)

abbrev begun : Stream
begun = record { content = codes "abc"; position = 1; is_bad = false; is_failed = false }

send_stream-rest_example :
    (stream' : Stream) × (s' : Wire) × (send_stream wire 3 false begun quiet
      ≡ some (not (length (rest begun) % socket_buf_size == 0), (stream', s')))
    × (s'.output ≡ [] ++ rest begun)
    × (s'.input ≡ codes "abc")
send_stream-rest_example =
    send_stream-rest wire wire_delivers 3 begun quiet (refl, refl) (omega arith)

abbrev hello : Handler
hello req resp = some (req, set_text_body (codes "hi") resp)

abbrev history : List Registration
history = service (codes "GET") (codes "/a b") hello ∷ default not_found ∷ []

build-promised_example :
    pick (build history) (codes "GET") (codes "/a b")
    ≡ promised history (codes "GET") (codes "/a b")
build-promised_example = build-promised history (codes "GET") (codes "/a b")

abbrev pub services : HttpServices
services = record (add_service (codes "GET") (codes "/a b") hello new_services) { max_times = 2 }

abbrev pub ready : Connection Wire
ready = record { times = 0; channel = record { input = render message; output = [] } }

abbrev pub same_order : List (Bytes × Bytes) → List (Bytes × Bytes)
same_order m = m

abbrev pub req : HttpRequest
req = (parse (record new_request { raw_data = render message })).request

abbrev pub resp : HttpResponse
resp = set_text_body (codes "hi") (response_for services req)

pub new_local-IsClean : IsClean new_local
new_local-IsClean = record {
  raw_empty = refl;
  headers_empty = refl;
  arguments_empty = refl;
  response_new = refl;
  buffer_empty = refl;
}

pub handled :
    pick services message.method message.uri req (response_for services req) ≡ some (req, resp)
unfolding pick add_service bytes_eq
handled = refl

pub resp_valid : is_valid resp ≡ true
unfolding is_valid set_text_body set_keep_alive add_service
resp_valid = refl

pub resp-IsSendable : IsSendable 200 resp.body
unfolding set_text_body
resp-IsSendable = tt

process-Responds_example :
    ReadsBack message req
    × Responds wire wire_delivers services
        (codes "now")
        same_order
        200
        (record { times = times_after services 0; channel = ready.channel })
        []
        req
        resp
        (process wire services (codes "now") same_order 200 new_local ready)
process-Responds_example =
    process-Responds wire wire_delivers services (codes "now") same_order 200 message new_local
      ready req resp new_local-IsClean message-IsWellFormed refl (omega arith) handled resp_valid
      resp-IsSendable

-- A client that sends no request line.
abbrev wrong : Connection Wire
wrong = record { times = 0; channel = record { input = codes "GE"; output = [] } }

abbrev left : Outcome Wire
left = record {
  result = false;
  local = record new_local {
    request = (parse (record new_request { raw_data = codes "GE" })).request;
  };
  connection = record { times = 0; channel = record { input = []; output = [] } };
}

wrong_run : process wire services (codes "now") same_order 3 new_local wrong ≡ some left
unfolding process read_all parse refer_til
wrong_run = refl

process_cases_example :
    IsReset left.local
    ⊎ ((raw : Bytes) × (s : Wire) × (read_all wire 3 [] wrong.channel ≡ some (raw, s))
        × Keeps wire services
            (codes "now")
            same_order
            3
            (record new_local { request = (parse (record new_request { raw_data = raw })).request })
            (record wrong { channel = s })
            left)
process_cases_example =
    process_cases wire services (codes "now") same_order 3 new_local wrong left wrong_run

process-left_over_example :
    (s : Wire) × (process wire services (codes "now") same_order 200 left.local ready
      ≡ after_parse wire services
          (codes "now")
          same_order
          200
          left.local
          (record ready { channel = s })
          (parse (record left.local.request {
            raw_data = left.local.request.raw_data ++ render message;
          })))
process-left_over_example =
    process-left_over wire services (codes "now") same_order 200 wire_delivers left.local ready
      (omega arith)
