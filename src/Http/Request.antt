-- ===== src/Http/Request.antt =====
-- `HttpRequest` of http/httprequest.h and http/httprequest.cpp. The members that are
-- `std::string_view`s point into `m_rawData` and are kept as views of it.
pub mod Position
pub mod Safety
pub mod Message
pub mod RoundTrip
use mathlib.Core.Option
use network_learn.Base.{
  ℕ, zero, suc, ◌+◌, ◌-◌, Bool, true, false, not, ◌&&◌, ◌||◌, List, [], ◌∷◌, ◌++◌, Option, none,
  some, ltb, leb, ◌==◌, if◌then◌else◌, length, drop, is_empty, Bytes, codes,
}
use network_learn.Util.Nocase.{strcasecmp}
use network_learn.Util.Refer.{View, view_text, empty_view, Refer, refer_til, byte_at, char_at}
use network_learn.Util.HeaderMap.{HeaderMap, find, emplace}
use network_learn.Http.Url.{uri_unescape}

pub record HttpRequest : Type 0 where
  pub is_valid : Bool
  pub raw_data : Bytes
  pub method : View
  pub uri : Bytes
  pub http_version : View
  pub body : View
  pub url_arguments : List Bytes
  pub headers : HeaderMap View View
  pub is_keep_alive : Bool

abbrev pub new_request : HttpRequest
new_request = record {
  is_valid = false;
  raw_data = [];
  method = empty_view;
  uri = [];
  http_version = empty_view;
  body = empty_view;
  url_arguments = [];
  headers = [];
  is_keep_alive = true;
}

-- `ok` and `refused` are the results true and false. `fault`: the call is undefined or throws.
-- `unfinished`: the fuel ran out.
pub data Status : Type 0 where
  ok refused fault unfinished : Status

-- The result of a parsing step, the reference argument `offset` behind it, and the request, which
-- keeps what the step wrote also where it fails.
pub record Parsed : Type 0 where
  pub status : Status
  pub offset : ℕ
  pub request : HttpRequest

abbrev pub is_space : ℕ → Bool
is_space ch = ch == b' '

abbrev pub is_uri_end : ℕ → Bool
is_uri_end ch = ch == b'?' || ch == b' '

abbrev pub is_argument_end : ℕ → Bool
is_argument_end ch = ch == b'&' || ch == b' '

abbrev pub is_return : ℕ → Bool
is_return ch = ch == b'\r'

abbrev pub is_colon : ℕ → Bool
is_colon ch = ch == b':'

-- The part of `parseRequestLine` under "Version".
pub parse_version : ℕ → HttpRequest → Parsed
parse_version offset req =
    let r = refer_til 10 is_return req.raw_data offset req.http_version in
    let req' = record req { http_version = r.dst } in
    if r.found
    then record { status = ok; offset = r.offset + 2; request = req' }
    else record { status = refused; offset = r.offset; request = req' }

-- The `do … while(data[offset] == '&')` loop.
pub parse_arguments : ℕ → ℕ → HttpRequest → Parsed
parse_arguments zero offset req = record { status = unfinished; offset = offset; request = req }
parse_arguments (suc fuel) offset req =
    let r = refer_til 0 is_argument_end req.raw_data (offset + 1) empty_view in
    let req' = record req {
      url_arguments = req.url_arguments ++ view_text req.raw_data r.dst ∷ [];
    } in
    let rest = parse_arguments fuel r.offset req' in
    if not r.found
    then record { status = refused; offset = r.offset; request = req }
    else if byte_at req.raw_data r.offset == b'&'
    then rest
    else record { status = ok; offset = r.offset; request = req' }

-- `++offset` and the version, after the loop.
pub after_arguments : Parsed → Parsed
after_arguments args = elim args.status [
  | ok ↦ parse_version (args.offset + 1) args.request
  | _ ↦ args
]

-- `data.at(offset) == '?'`, which throws outside the data, and what follows it. Each round of the
-- loop moves the offset, so the fuel is enough.
pub parse_query : ℕ → HttpRequest → Parsed
parse_query offset req =
    if leb (length req.raw_data) offset
    then record { status = fault; offset = offset; request = req }
    else if byte_at req.raw_data offset == b'?'
    then after_arguments (parse_arguments (length req.raw_data) offset req)
    else parse_version (offset + 1) req

pub after_uri : ℕ → HttpRequest → Option Bytes → Parsed
after_uri offset req none = record { status = fault; offset = offset; request = req }
after_uri offset req (some uri) = parse_query offset (record req { uri = uri })

-- The part under "URI".
pub parse_uri : ℕ → HttpRequest → Parsed
parse_uri offset req =
    let r = refer_til 0 is_uri_end req.raw_data offset empty_view in
    if r.found
    then after_uri r.offset req
        (uri_unescape (drop r.offset req.raw_data) (view_text req.raw_data r.dst))
    else record { status = refused; offset = r.offset; request = req }

pub parse_request_line : ℕ → HttpRequest → Parsed
parse_request_line offset req =
    let r = refer_til 8 is_space req.raw_data offset req.method in
    let req' = record req { method = r.dst } in
    if r.found
    then parse_uri (r.offset + 1) req'
    else record { status = refused; offset = r.offset; request = req' }

-- `offset < size && test(m_rawData.at(offset))`. `none`: `at` throws.
pub is_at : (ℕ → Bool) → Bytes → ℕ → Option Bool
unfolding char_at
is_at test raw offset =
    if ltb offset (length raw) then Option.map test (char_at raw offset) else some false

-- "Ignore spaces". `none`: `at` throws, or the fuel ran out.
pub skip_spaces : ℕ → Bytes → ℕ → Option ℕ
unfolding is_at
skip_spaces zero raw offset = none
skip_spaces (suc fuel) raw offset = elim (is_at is_space raw offset) [
  | none ↦ none
  | some true ↦ skip_spaces fuel raw (offset + 1)
  | some false ↦ some offset
]

abbrev pub is_line_byte : ℕ → Bool
is_line_byte ch = not (ch == b'\r')

pub parse_request_headers : ℕ → ℕ → HttpRequest → Parsed
unfolding is_at skip_spaces
parse_request_headers zero offset req = record {
  status = unfinished;
  offset = offset;
  request = req;
}
parse_request_headers (suc fuel) offset req =
    let raw = req.raw_data in
    let name = refer_til 0 is_colon raw offset empty_view in
    elim (is_at is_line_byte raw offset) [
      | none ↦ record { status = fault; offset = offset; request = req }
      | some false ↦ record { status = ok; offset = offset + 2; request = req }
      | some true ↦
          if not name.found
          then record { status = refused; offset = name.offset; request = req }
          else elim (skip_spaces (length raw + 1) raw (name.offset + 1)) [
            | none ↦ record { status = fault; offset = name.offset + 1; request = req }
            | some start ↦
                let value = refer_til 0 is_return raw start empty_view in
                let rest = parse_request_headers fuel (value.offset + 2) (record req {
                  headers = emplace (view_text raw) name.dst value.dst req.headers;
                }) in
                if not value.found
                then record { status = refused; offset = value.offset; request = req }
                else rest
          ]
    ]

-- The end of `parse`, under "Body" and "Parse keep-alive".
pub finish : ℕ → HttpRequest → HttpRequest
finish offset req = record req {
  body =
      if ltb offset (length req.raw_data)
      then record { start = offset; count = length req.raw_data - offset }
      else req.body;
  is_valid = true;
  is_keep_alive = elim (find (view_text req.raw_data) (codes "Connection") req.headers) [
    | none ↦ true
    | some value ↦ not (strcasecmp (view_text req.raw_data value) (codes "close") == 0)
  ];
}

-- `if(!this->parseRequestHeaders(offset, m_rawData)) return;` and what follows it.
pub after_headers : Parsed → Parsed
after_headers head = elim head.status [
  | ok ↦ record head { request = finish head.offset head.request }
  | _ ↦ head
]

-- The same for `parseRequestLine`. Each round of the header loop moves the offset by three or more,
-- so the fuel is enough.
pub after_line : Parsed → Parsed
after_line line = elim line.status [
  | ok ↦
      after_headers
        (parse_request_headers (length line.request.raw_data + 2) line.offset line.request)
  | _ ↦ line
]

unfoldable pub parse : HttpRequest → Parsed
unfolding parse_request_line parse_uri after_uri parse_query after_arguments parse_arguments
    parse_version after_line after_headers parse_request_headers skip_spaces is_at finish
parse req =
    if is_empty req.raw_data
    then record { status = refused; offset = 0; request = req }
    else after_line (parse_request_line 0 req)

unfoldable pub reset : HttpRequest → HttpRequest
reset req = record req { is_valid = false; headers = []; url_arguments = []; raw_data = [] }

-- The accessors of the class that do more than return a member.
pub method_text : HttpRequest → Bytes
method_text req = if req.is_valid then view_text req.raw_data req.method else []

unfoldable pub uri_text : HttpRequest → Bytes
uri_text req = if req.is_valid then req.uri else []

pub http_version_text : HttpRequest → Bytes
http_version_text req = if req.is_valid then view_text req.raw_data req.http_version else []

unfoldable pub raw_header : Bytes → HttpRequest → Bytes
raw_header name req = elim (find (view_text req.raw_data) name req.headers) [
  | none ↦ []
  | some value ↦ view_text req.raw_data value
]
