-- ===== src/Tests/Files.antt =====
-- The shared file pool.
use network_learn.Base.{
  refl, true, ◌∷◌, ◌++◌, ◌==◌, if◌then◌else◌, ◌≡◌, [], Option, none, some, arith, Bytes, codes,
}
use network_learn.Util.Nocase.{nocase_equal}
use network_learn.Util.Decimal.{to_string}
use network_learn.Util.HeaderMap.{find}
use network_learn.Util.StringMap.{lookup}
use network_learn.Http.Request as Request
use network_learn.Http.Request.{HttpRequest, new_request, uri_text}
use network_learn.Http.Range.Bounds.{granted}
use network_learn.Http.Range.RoundTrip.{range_request}
use network_learn.Http.Response.{HttpResponse, new_response, file}
use network_learn.App.{back, on_get}
use network_learn.App.Parts.{on_get-part}
use network_learn.FilePool.{FileInfo, SharedFilePool, get}

abbrev pub page : FileInfo
page = record {
  file = 5;
  file_size = 10;
  extension = codes ".html";
  last_modified = codes "Thu, 01 Jan 1970 00:00:00 GMT";
}

abbrev no_file : Bytes → Option FileInfo
no_file path = none

abbrev pub one_file : Bytes → Option FileInfo
one_file path = some page

abbrev pub empty_pool : SharedFilePool
empty_pool = record { root = codes "/srv"; pool = []; invalid_paths = [] }

abbrev pub held : SharedFilePool
held = record empty_pool { pool = (codes "/a.html", page) ∷ [] }

-- A request for bytes 2 to 5, and one for the whole file.
abbrev ranged : HttpRequest
ranged = record new_request {
  is_valid = true;
  uri = codes "/a.html";
  raw_data = codes "Range: bytes=2-5";
  headers = (record { start = 0; count = 5 }, record { start = 7; count = 9 }) ∷ [];
}

abbrev plain : HttpRequest
plain = record new_request { is_valid = true; uri = codes "/a.html" }

ranged_last : back (uri_text ranged) ≡ some b'l'
unfolding back uri_text
ranged_last = refl

plain_last : back (uri_text plain) ≡ some b'l'
unfolding back uri_text
plain_last = refl

ranged_found :
    get 0 one_file
      (if b'l' == b'/' then uri_text ranged ++ codes "index.html" else uri_text ranged)
      empty_pool
    ≡ (some page, held)
unfolding get uri_text lookup
ranged_found = refl

plain_found :
    get 0 one_file
      (if b'l' == b'/' then uri_text plain ++ codes "index.html" else uri_text plain)
      empty_pool
    ≡ (some page, held)
unfolding get uri_text lookup
plain_found = refl

ranged_asked : Request.raw_header (codes "Range") ranged ≡ range_request 2 5
unfolding Request.raw_header find nocase_equal to_string
ranged_asked = refl

plain_asked : Request.raw_header (codes "Range") plain ≡ []
unfolding Request.raw_header find
plain_asked = refl

on_get-part_example :
    (resp' : HttpResponse) × (on_get 0 one_file empty_pool ranged new_response ≡ some (resp', held))
    × (resp'.http_state ≡ (206, codes "Partial Content"))
    × (resp'.body
        ≡ file (record { file = 5; offset = (granted 2 5 10).0; count = (granted 2 5 10).1 }))
on_get-part_example =
    on_get-part 0 one_file empty_pool held ranged new_response page b'l' 2 5 ranged_last
      ranged_found ranged_asked (omega arith) (omega arith) (omega arith) (omega arith)
