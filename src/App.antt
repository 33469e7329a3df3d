-- ===== src/App.antt =====
-- The handlers that main.cpp registers for a shared directory, over the pool of files.
pub mod Parts
pub mod Handlers
pub mod Dated
pub mod Main
use mathlib.Core.Option
use network_learn.Base.{
  ℕ, Bool, true, false, List, [], ◌∷◌, ◌++◌, Option, none, some, ◌==◌, if◌then◌else◌, is_empty,
  Bytes, codes, bytes_eq,
}
use network_learn.Util.Decimal.{to_string}
use network_learn.Http.Request as Request
use network_learn.Http.Request.{HttpRequest, uri_text}
use network_learn.Http.Range.{parse_range, reply_range}
use network_learn.Http.Response.{
  HttpResponse, set_raw_header, insert_raw_header, set_text_body, set_file_body, set_http_state,
  match_content_type,
}
use network_learn.FilePool.{FileInfo, SharedFilePool, get}

abbrev pub html : Bytes
html = codes "text/html; charset=utf-8"

-- `build404Response`, with the bytes of its text in UTF-8.
unfoldable pub build_404_response : HttpResponse → HttpResponse
build_404_response resp =
    set_http_state (404, codes "Not Found")
      (set_text_body
        (codes "<h2>Tiny Web Server</h2><h1>404 Not Found<br>"
          ++ ((226 ∷ 136 ∷ 145 ∷ b'(' ∷ 227 ∷ 129 ∷ 163 ∷ 194 ∷ 176 ∷ 208 ∷ 148 ∷ 194 ∷ 176 ∷ b';'
                ∷ b')' ∷ 227 ∷ 129 ∷ 163 ∷ [])
              ++ codes "<h1>\n"))
        (set_raw_header (codes "Content-Type") html resp))

-- The header with the type of the file, where the extension has one.
pub insert_type : FileInfo → HttpResponse → HttpResponse
insert_type file resp =
    let type = match_content_type file.extension in
    if is_empty type then resp else insert_raw_header (codes "Content-Type") type resp

-- `uri.back()`, which is undefined on an empty text.
unfoldable pub back : Bytes → Option ℕ
back [] = none
back (c ∷ []) = some c
back (c ∷ d ∷ cs) = back (d ∷ cs)

-- The branch without a range, under "Cache control".
pub whole_file : FileInfo → HttpRequest → HttpResponse → HttpResponse
whole_file file req resp =
    let dated = insert_raw_header (codes "Last-Modified") file.last_modified resp in
    if bytes_eq (Request.raw_header (codes "If-Modified-Since") req) file.last_modified
    then set_http_state (304, codes "Not Modified")
        (insert_raw_header (codes "Cache-Control") (codes "max-age=0, public") dated)
    else set_file_body (record { file = file.file; offset = 0; count = file.file_size })
        (insert_raw_header (codes "Cache-Control") (codes "public") dated)

-- The branch under "Range".
pub part_of_file : FileInfo → HttpResponse → ℕ × ℕ → HttpResponse
part_of_file file resp (first, second) =
    let r = reply_range first second file.file_size in
    set_file_body (record { file = file.file; offset = r.offset; count = r.count })
      (set_http_state (206, codes "Partial Content")
        (insert_raw_header (codes "Content-Range") r.text resp))

-- What the handler does with a file of the pool. `none`: it throws.
pub answer_file : FileInfo → HttpRequest → HttpResponse → Option HttpResponse
unfolding insert_type whole_file part_of_file
answer_file file req resp =
    let resp' = insert_raw_header (codes "Accept-Ranges") (codes "bytes") (insert_type file resp) in
    let value = Request.raw_header (codes "Range") req in
    if is_empty value
    then some (whole_file file req resp')
    else Option.map (part_of_file file resp') (parse_range value)

pub answer :
    Option FileInfo × SharedFilePool
    → HttpRequest
    → HttpResponse
    → Option (HttpResponse × SharedFilePool)
unfolding answer_file
answer (none, p) req resp = some (build_404_response resp, p)
answer (some file, p) req resp = Option.map (λ r. (r, p)) (answer_file file req resp)

-- The handler of GET. `place` and `open_file` are those of `get`.
unfoldable pub on_get :
    ℕ
    → (Bytes → Option FileInfo)
    → SharedFilePool
    → HttpRequest
    → HttpResponse
    → Option (HttpResponse × SharedFilePool)
unfolding back answer
on_get place open_file p req resp =
    let uri = uri_text req in
    elim (back uri) [
      | none ↦ none
      | some c ↦
          answer (get place open_file (if c == b'/' then uri ++ codes "index.html" else uri) p) req
            resp
    ]

-- The handler of HEAD.
pub head_of : Option FileInfo → HttpResponse → HttpResponse
unfolding insert_type
head_of none resp = set_http_state (404, codes "Not Found") resp
head_of (some file) resp =
    insert_type file (insert_raw_header (codes "Content-Length") (to_string file.file_size) resp)

unfoldable pub on_head :
    ℕ
    → (Bytes → Option FileInfo)
    → SharedFilePool
    → HttpRequest
    → HttpResponse
    → HttpResponse × SharedFilePool
unfolding head_of
on_head place open_file p req resp =
    let (found, p') = get place open_file (uri_text req) p in (head_of found resp, p')
