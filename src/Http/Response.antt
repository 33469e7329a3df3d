-- ===== src/Http/Response.antt =====
-- `HttpResponse` of http/httpresponse.h and http/httpresponse.cpp.
pub mod Framing
use network_learn.Base.{
  ℕ, zero, suc, ◌+◌, Bool, true, false, not, ◌&&◌, ◌||◌, List, [], ◌∷◌, ◌++◌, Option, none, some,
  leb, ltb, ◌==◌, if◌then◌else◌, length, is_empty, Bytes, codes, bytes_eq,
}
use network_learn.Util.Decimal.{to_string}
use network_learn.Util.Stream.{Stream, tellg, seek_end, seek_to}
use network_learn.Util.HeaderMap.{HeaderMap, find, emplace, set}

-- A status code and its text.
abbrev pub HttpState : Type 0
HttpState = ℕ × Bytes

pub record FileBody : Type 0 where
  pub file : ℕ
  pub offset : ℕ
  pub count : ℕ

pub data Body : Type 0 where
  text : Bytes → Body
  stream : Stream → Body
  file : FileBody → Body

pub record HttpResponse : Type 0 where
  pub http_state : HttpState
  pub headers : HeaderMap Bytes Bytes
  pub body : Body
  pub is_keep_alive : Bool

abbrev pub new_response : HttpResponse
new_response = record {
  http_state = (200, codes "OK");
  headers = [];
  body = text [];
  is_keep_alive = true;
}

-- `m_headers[name] = value` and `m_headers.insert({name, value})`.
abbrev pub assign : Bytes → Bytes → HttpResponse → HttpResponse
assign name value resp = record resp { headers = set (λ t. t) name value resp.headers }

unfoldable pub insert_raw_header : Bytes → Bytes → HttpResponse → HttpResponse
insert_raw_header name value resp = record resp {
  headers = emplace (λ t. t) name value resp.headers;
}

unfoldable pub set_raw_header : Bytes → Bytes → HttpResponse → HttpResponse
set_raw_header name value resp = assign name value resp

pub raw_header : Bytes → HttpResponse → Bytes
raw_header name resp = elim (find (λ t. t) name resp.headers) [ none ↦ [] | some value ↦ value ]

abbrev pub content_length : Bytes
content_length = codes "Content-Length"

-- `setBody` on a text.
unfoldable pub set_text_body : Bytes → HttpResponse → HttpResponse
set_text_body s resp =
    if is_empty s
    then resp
    else record (assign content_length (to_string (length s)) resp) { body = text s }

-- `if(const auto size = stream->tellg(); size)`, where -1 counts as true.
pub set_stream_length : Option ℕ → HttpResponse → HttpResponse
set_stream_length none resp = assign content_length (codes "-1") resp
set_stream_length (some zero) resp = resp
set_stream_length (some (suc n)) resp = assign content_length (to_string (suc n)) resp

-- `setBody` on a stream.
unfoldable pub set_stream_body : Stream → HttpResponse → HttpResponse
unfolding tellg seek_end seek_to set_stream_length
set_stream_body s resp =
    if s.is_bad then resp else record (set_stream_length (tellg (seek_end s)) resp) {
      body = stream (seek_to (tellg s) (seek_end s));
    }

-- `setBody` on a part of a file.
unfoldable pub set_file_body : FileBody → HttpResponse → HttpResponse
set_file_body f resp =
    if f.count == 0
    then resp
    else record (assign content_length (to_string f.count) resp) { body = file f }

unfoldable pub reset : HttpResponse → HttpResponse
reset resp = record {
  body = text [];
  headers = [];
  http_state = (200, codes "OK");
  is_keep_alive = true;
}

unfoldable pub is_valid : HttpResponse → Bool
is_valid resp =
    leb 200 resp.http_state.0 && leb resp.http_state.0 500 && not (is_empty resp.http_state.1)

unfoldable pub set_keep_alive : Bool → HttpResponse → HttpResponse
set_keep_alive alive resp =
    record (assign (codes "Connection") (if alive then codes "keep-alive" else codes "close")
      resp) { is_keep_alive = alive }

unfoldable pub set_http_state : HttpState → HttpResponse → HttpResponse
set_http_state state resp = if is_empty state.1 then resp else record resp { http_state = state }

mime_types : List (Bytes × Bytes)
mime_types =
    (codes ".js", codes "application/javascript")
    ∷ (codes ".json", codes "application/json")
    ∷ (codes ".pdf", codes "application/pdf")
    ∷ (codes ".swf", codes "application/x-shockwave-flash")
    ∷ (codes ".xml", codes "application/xml")
    ∷ (codes ".htm", codes "text/html")
    ∷ (codes ".html", codes "text/html")
    ∷ (codes ".css", codes "text/css")
    ∷ (codes ".txt", codes "text/plain")
    ∷ (codes ".png", codes "image/png")
    ∷ (codes ".jpg", codes "image/jpg")
    ∷ (codes ".jpeg", codes "image/jpeg")
    ∷ (codes ".gif", codes "image/gif")
    ∷ (codes ".svg", codes "image/svg+xml")
    ∷ (codes ".ico", codes "image/x-icon")
    ∷ []

pub lookup_type : Bytes → List (Bytes × Bytes) → Bytes
lookup_type extension [] = []
lookup_type extension ((key, value) ∷ types) =
    if bytes_eq key extension then value else lookup_type extension types

unfoldable pub match_content_type : Bytes → Bytes
unfolding mime_types lookup_type
match_content_type extension = lookup_type extension mime_types

abbrev crlf : Bytes
crlf = codes "\r\n"

-- The header loop of `toRawData`, over the entries in the order of the table.
pub append_headers : Bytes → HeaderMap Bytes Bytes → Bytes
append_headers response [] = response
append_headers response ((key, value) ∷ m) =
    append_headers ((((response ++ key) ++ codes ": ") ++ value) ++ crlf) m

append_body : Bytes → Body → Bytes
append_body response (text s) = (response ++ crlf) ++ s
append_body response _ = response ++ crlf

-- `toRawData`: the date of the call, and the order in which the table is walked, are arguments.
unfoldable pub to_raw_data :
    Bytes → (HeaderMap Bytes Bytes → HeaderMap Bytes Bytes) → HttpResponse → Bytes → Bytes
unfolding append_headers append_body
to_raw_data date order resp response =
    let line =
      (((response ++ codes "HTTP/1.1 ") ++ to_string resp.http_state.0) ++ codes " ")
      ++ resp.http_state.1
      ++ crlf in
    let dated = ((line ++ codes "Date: ") ++ date) ++ crlf in
    let served = dated ++ codes "Server: TinyWebServer\r\n" in
    append_body (append_headers served (order resp.headers)) resp.body
