-- ===== src/Tests/Dates.antt =====
-- Dates, and what hangs on them.
use network_learn.Base.{◌≡◌, refl, true, [], ◌∷◌, ◌++◌, some, ◌==◌, if◌then◌else◌, arith, codes}
use network_learn.Util.Nocase.{nocase_equal}
use network_learn.Util.HeaderMap.{find}
use network_learn.Util.Decimal.{to_string}
use network_learn.Util.StringMap.{lookup}
use network_learn.Util.Date.{to_gmt_format}
use network_learn.Http.Request as Request
use network_learn.Http.Request.{HttpRequest, new_request, uri_text}
use network_learn.Http.Response.{HttpResponse, new_response}
use network_learn.FilePool.{get}
use network_learn.App.{back, on_get}
use network_learn.App.Dated.{AnswersDated, on_get-dated}
use network_learn.Tests.Files.{page, one_file, empty_pool, held}

dates :
    (to_gmt_format 0 ≡ codes "Thu, 01 Jan 1970 00:00:00 GMT")
    × (to_gmt_format 784111777 ≡ codes "Sun, 06 Nov 1994 08:49:37 GMT")
    × (to_gmt_format 951825599 ≡ codes "Tue, 29 Feb 2000 11:59:59 GMT")
    × (to_gmt_format 1735689599 ≡ codes "Tue, 31 Dec 2024 23:59:59 GMT")
unfolding to_gmt_format to_string
dates = (refl, refl, refl, refl)

-- A client with a copy of 1970.
abbrev revisit : HttpRequest
revisit = record new_request {
  is_valid = true;
  uri = codes "/a.html";
  raw_data = codes "If-Modified-Since: Thu, 01 Jan 1970 00:00:00 GMT";
  headers = (record { start = 0; count = 17 }, record { start = 19; count = 29 }) ∷ [];
}

revisit_last : back (uri_text revisit) ≡ some b'l'
unfolding back uri_text
revisit_last = refl

revisit_found :
    get 0 one_file
      (if b'l' == b'/' then uri_text revisit ++ codes "index.html" else uri_text revisit)
      empty_pool
    ≡ (some page, held)
unfolding get uri_text lookup
revisit_found = refl

revisit_asked :
    (Request.raw_header (codes "Range") revisit ≡ [])
    × (Request.raw_header (codes "If-Modified-Since") revisit ≡ to_gmt_format 0)
    × (page.last_modified ≡ to_gmt_format 0)
unfolding Request.raw_header find nocase_equal to_gmt_format to_string
revisit_asked = (refl, refl, refl)

on_get-dated_example :
    (resp' : HttpResponse) × (on_get 0 one_file empty_pool revisit new_response
      ≡ some (resp', held))
    × AnswersDated 0 0 page new_response resp'
on_get-dated_example =
    on_get-dated 0 one_file empty_pool held revisit new_response page b'l' 0 0 revisit_last
      revisit_found revisit_asked.0 (omega arith) (omega arith) (omega arith) revisit_asked.2
      revisit_asked.1
