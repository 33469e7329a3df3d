-- ===== src/Tests/Responses.antt =====
-- Ranges and responses.
use mathlib.Core.Option
use network_learn.Base.{
  ◌+◌, ◌-◌, ◌<◌, ◌≤◌, ◌≡◌, refl, ◌↔◌, false, [], ◌∷◌, ◌++◌, some, arith, codes,
}
use network_learn.Http.Request.Message.{render_lines}
use network_learn.Util.HeaderMap.{set}
use network_learn.Util.Decimal.{stoul, to_string}
use network_learn.Http.Range.{parse_range, reply_range}
use network_learn.Http.Range.Bounds.{reply_range_bounds, range_text}
use network_learn.Http.Range.RoundTrip.{
  range_request, open_request, in_64_bits, parse_range-range_request,
}
use network_learn.Util.Stream.{Stream}
use network_learn.Http.Response.{
  new_response, FileBody, set_text_body, set_stream_body, to_raw_data,
}
use network_learn.Http.Response.Framing.{to_raw_data_lem, IsFramed, set_stream_body-IsFramed_iff}

part_of_file : parse_range (codes "bytes=2-5") ≡ some (2, 5)
unfolding parse_range Option.bind stoul
part_of_file = refl

no_part : parse_range (codes "bytes=-5") ≡ some (0, 0)
unfolding parse_range Option.bind stoul
no_part = refl

parse_range-range_request_example :
    (parse_range (range_request 2 5)
      ≡ Option.bind (in_64_bits 2) (λ s. Option.map (λ e. (s, e)) (in_64_bits 5)))
    × (parse_range (open_request 2) ≡ Option.bind (in_64_bits 2) (λ s. some (s, 0)))
parse_range-range_request_example = parse_range-range_request 2 5

reply_range_bounds_example :
    let r = reply_range 2 5 10 in
    (0 < r.count)
    × (r.offset + r.count ≤ 10)
    × (r.text ≡ range_text r.offset (r.offset + r.count - 1) 10)
reply_range_bounds_example = reply_range_bounds 2 5 10 (omega arith) (omega arith)

abbrev half_file : FileBody
half_file = record { file = 7; offset = 5; count = 5 }

-- A stream of which one byte is read already.
abbrev begun : Stream
begun = record { content = codes "abc"; position = 1; is_bad = false; is_failed = false }

set_stream_body-IsFramed_iff_example :
    IsFramed (set_stream_body begun new_response) ↔ (begun.position ≡ 0)
set_stream_body-IsFramed_iff_example =
    set_stream_body-IsFramed_iff begun new_response refl refl (omega arith) (omega arith)
      (omega arith) tt

sent :
    to_raw_data (codes "now") (λ m. m) (set_text_body (codes "hi") new_response) []
    ≡ codes "HTTP/1.1 200 OK\r\nDate: now\r\nServer: TinyWebServer\r\nContent-Length: 2\r\n\r\nhi"
unfolding to_raw_data set_text_body set to_string
sent = refl

to_raw_data_lem_example :
    to_raw_data (codes "now") (λ m. m) (set_text_body (codes "hi") new_response) []
    ≡ []
      ++ (codes "HTTP/1.1 "
          ++ (to_string 200
              ++ (b' '
                  ∷ (codes "OK"
                      ++ (codes "\r\n"
                          ++ render_lines
                              ((codes "Date", codes "now")
                                ∷ (codes "Server", codes "TinyWebServer")
                                ∷ (set_text_body (codes "hi") new_response).headers)
                              (codes "hi"))))))
unfolding set_text_body
to_raw_data_lem_example =
    to_raw_data_lem (codes "now") (λ m. m) (set_text_body (codes "hi") new_response) []
