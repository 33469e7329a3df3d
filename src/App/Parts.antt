-- ===== src/App/Parts.antt =====
-- Which part of a file the handler of GET sends.
use mathlib.Core.Option
use network_learn.Base.{
  ℕ, ◌^◌, ◌<◌, ◌≡◌, refl, ap, ◌∙◌, false, [], ◌++◌, Option, some, inl, inr, arith, ◌==◌,
  if◌then◌else◌, Bool-cases, is_empty, Bytes, codes, bytes_eq, bytes_eq_iff, ◌⊎◌, ◌≢◌,
}
use network_learn.Http.Request as Request
use network_learn.Http.Request.{HttpRequest, uri_text}
use network_learn.Http.Range.{parse_range, reply_range}
use network_learn.Http.Range.Bounds.{granted, reply_range_bounds, reply_range-granted}
use network_learn.Http.Range.RoundTrip.{range_request, in_64_bits, parse_range-range_request}
use network_learn.Http.Response.{
  HttpResponse, file, insert_raw_header, set_file_body, set_http_state, match_content_type,
}
use network_learn.FilePool.{FileInfo, SharedFilePool, get}
use network_learn.App.{insert_type, back, whole_file, part_of_file, answer_file, answer, on_get}

set_file_body_lem :
    (f : FileInfo) (offset count : ℕ) (resp : HttpResponse)
    → 0 < count
    → ((set_file_body (record { file = f.file; offset = offset; count = count }) resp).body
        ≡ file (record { file = f.file; offset = offset; count = count }))
      × ((set_file_body (record { file = f.file; offset = offset; count = count }) resp).http_state
          ≡ resp.http_state)
unfolding set_file_body
set_file_body_lem f offset count resp more =
    let some_left : (count == 0) ≡ false = ground arith in (rw some_left refl, rw some_left refl)

part_of_file_lem :
    (f : FileInfo) (resp : HttpResponse) (first second : ℕ)
    → 0 < f.file_size
    → f.file_size < 2 ^ 64
    → let r = part_of_file f resp (first, second) in
      (r.http_state ≡ (206, codes "Partial Content"))
      × (r.body
          ≡ file (record {
            file = f.file;
            offset = (granted first second f.file_size).0;
            count = (granted first second f.file_size).1;
          }))
unfolding part_of_file set_http_state
part_of_file_lem f resp first second some_left size =
    let bounds = reply_range_bounds first second f.file_size some_left size in
    let r = reply_range first second f.file_size in
    let same = reply_range-granted first second f.file_size size in
    let (body, state) =
      set_file_body_lem f r.offset r.count
        (set_http_state (206, codes "Partial Content")
          (insert_raw_header (codes "Content-Range") r.text resp))
        bounds.0 in
    (state, body ∙ ap (λ g. file (record { file = f.file; offset = g.0; count = g.1 })) same)

parsed_range :
    (first second : ℕ)
    → first < 2 ^ 64
    → second < 2 ^ 64
    → parse_range (range_request first second) ≡ some (first, second)
unfolding Option.bind
parsed_range first second a b =
    let fits_first : in_64_bits first ≡ some first = ground arith in
    let fits_second : in_64_bits second ≡ some second = ground arith in
    (parse_range-range_request first second).0 ∙ rw (fits_first, Option.bind, fits_second) refl

-- The handler of GET, on a request with the range that a client prints for two numbers of 64 bits, and a
-- file of the pool that is not empty and of a size below 2^64: the response is 206, and its body is the
-- part of the file that `granted` says.
pub on_get-part :
    (place : ℕ) (open_file : Bytes → Option FileInfo) (p p' : SharedFilePool) (req : HttpRequest)
    (resp : HttpResponse) (f : FileInfo) (c first second : ℕ)
    → back (uri_text req) ≡ some c
    → get place open_file (if c == b'/' then uri_text req ++ codes "index.html" else uri_text req) p
      ≡ (some f, p')
    → Request.raw_header (codes "Range") req ≡ range_request first second
    → first < 2 ^ 64
    → second < 2 ^ 64
    → 0 < f.file_size
    → f.file_size < 2 ^ 64
    → (resp' : HttpResponse) × (on_get place open_file p req resp ≡ some (resp', p'))
      × (resp'.http_state ≡ (206, codes "Partial Content"))
      × (resp'.body
          ≡ file (record {
            file = f.file;
            offset = (granted first second f.file_size).0;
            count = (granted first second f.file_size).1;
          }))
unfolding on_get answer answer_file
on_get-part place open_file p p' req resp f c first second named found asked a b some_left size =
    let given = insert_raw_header (codes "Accept-Ranges") (codes "bytes") (insert_type f resp) in
    let parsed = parsed_range first second a b in
    let (state, body) = part_of_file_lem f given first second some_left size in
    (
      part_of_file f given (first, second),
      rw (on_get, named, found, answer, answer_file, asked, parsed) refl,
      state,
      body,
    )

insert_type_lem :
    (f : FileInfo) (resp : HttpResponse)
    → ((insert_type f resp).http_state ≡ resp.http_state) × ((insert_type f resp).body ≡ resp.body)
unfolding insert_type insert_raw_header
insert_type_lem f resp = elim (Bool-cases (is_empty (match_content_type f.extension))) [
  | inl unknown ↦ (rw unknown refl, rw unknown refl)
  | inr known ↦ (rw known refl, rw known refl)
]

-- What the handler of GET answers where no range is asked for: nothing new for a client that has the
-- file as it is, and else the whole file.
abbrev pub AnswersWhole : FileInfo → HttpRequest → HttpResponse → HttpResponse → Type 0
AnswersWhole f req resp resp' =
    ((Request.raw_header (codes "If-Modified-Since") req ≡ f.last_modified)
      × (resp'.http_state ≡ (304, codes "Not Modified"))
      × (resp'.body ≡ resp.body))
    ⊎ ((Request.raw_header (codes "If-Modified-Since") req ≢ f.last_modified)
        × (resp'.http_state ≡ resp.http_state)
        × (resp'.body ≡ file (record { file = f.file; offset = 0; count = f.file_size })))

whole_file-AnswersWhole :
    (f : FileInfo) (req : HttpRequest) (resp : HttpResponse)
    → 0 < f.file_size
    → AnswersWhole f req resp (
        whole_file f req
          (insert_raw_header (codes "Accept-Ranges") (codes "bytes") (insert_type f resp)))
unfolding whole_file insert_raw_header set_http_state
whole_file-AnswersWhole f req resp some_left =
    let since = Request.raw_header (codes "If-Modified-Since") req in
    let (state, body) = insert_type_lem f resp in
    let given = insert_raw_header (codes "Accept-Ranges") (codes "bytes") (insert_type f resp) in
    let dated = insert_raw_header (codes "Last-Modified") f.last_modified given in
    let fresh = insert_raw_header (codes "Cache-Control") (codes "public") dated in
    let (sent, kept) = set_file_body_lem f 0 f.file_size fresh some_left in
    elim (Bool-cases (bytes_eq since f.last_modified)) [
      | inl same ↦ inl ((bytes_eq_iff since f.last_modified).0 same, rw same refl, rw same body)
      | inr other ↦ inr (
        (λ e. ground (arith, (bytes_eq_iff since f.last_modified).1 e)),
        rw other (kept ∙ state),
        rw other sent,
      )
    ]

-- The handler of GET, on a request without a range, and a file of the pool that is not empty: where the
-- date of the client is that of the file, the response is 304 and gets no body; else its state stays,
-- and its body is the whole file.
pub on_get-whole :
    (place : ℕ) (open_file : Bytes → Option FileInfo) (p p' : SharedFilePool) (req : HttpRequest)
    (resp : HttpResponse) (f : FileInfo) (c : ℕ)
    → back (uri_text req) ≡ some c
    → get place open_file (if c == b'/' then uri_text req ++ codes "index.html" else uri_text req) p
      ≡ (some f, p')
    → Request.raw_header (codes "Range") req ≡ []
    → 0 < f.file_size
    → (resp' : HttpResponse) × (on_get place open_file p req resp ≡ some (resp', p'))
      × AnswersWhole f req resp resp'
unfolding on_get answer answer_file
on_get-whole place open_file p p' req resp f c named found none_asked some_left =
    let given = insert_raw_header (codes "Accept-Ranges") (codes "bytes") (insert_type f resp) in
    (
      whole_file f req given,
      rw (on_get, named, found, answer, answer_file, none_asked) refl,
      whole_file-AnswersWhole f req resp some_left,
    )
