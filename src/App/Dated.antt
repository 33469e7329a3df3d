-- ===== src/App/Dated.antt =====
-- What a client that names the date of its copy of a file gets, by the time at which the file was written.
use network_learn.Base.{
  ℕ, ◌^◌, ◌<◌, ◌≡◌, ap, sym, ◌∙◌, true, [], ◌++◌, Option, some, ◌==◌, if◌then◌else◌, Bool-cases,
  inl, inr, arith, Bytes, codes,
}
use network_learn.Util.Date.{to_gmt_format}
use network_learn.Util.Date.Text.{to_gmt_format_injective}
use network_learn.Http.Request as Request
use network_learn.Http.Request.{HttpRequest, uri_text}
use network_learn.Http.Response.{HttpResponse, file}
use network_learn.FilePool.{FileInfo, SharedFilePool, get}
use network_learn.App.{back, on_get}
use network_learn.App.Parts.{AnswersWhole, on_get-whole}

-- The answer to a client whose copy is of the time `since`, for a file that was written at `t`.
abbrev pub AnswersDated : ℕ → ℕ → FileInfo → HttpResponse → HttpResponse → Type 0
AnswersDated since t f resp resp' =
    if since == t
    then (resp'.http_state ≡ (304, codes "Not Modified")) × (resp'.body ≡ resp.body)
    else (resp'.http_state ≡ resp.http_state)
      × (resp'.body ≡ file (record { file = f.file; offset = 0; count = f.file_size }))

whole-dated :
    (since t : ℕ) (f : FileInfo) (req : HttpRequest) (resp resp' : HttpResponse)
    → since < 2 ^ 55
    → t < 2 ^ 55
    → f.last_modified ≡ to_gmt_format t
    → Request.raw_header (codes "If-Modified-Since") req ≡ to_gmt_format since
    → AnswersWhole f req resp resp'
    → AnswersDated since t f resp resp'
whole-dated since t f req resp resp' small small' written asked (inl (same, state, body)) =
    let equal = to_gmt_format_injective since t small small' (sym asked ∙ same ∙ written) in
    let hit : (since == t) ≡ true = ground (arith, equal) in rw hit (state, body)
whole-dated since t f req resp resp' small small' written asked (inr (differs, state, body)) =
    elim (Bool-cases (since == t)) [
      | inl hit ↦
          let equal : since ≡ t = ground (arith, hit) in
          absurd (differs (asked ∙ ap to_gmt_format equal ∙ sym written))
      | inr miss ↦ rw miss (state, body)
    ]

-- The handler of GET, on a request without a range, and a file of the pool that is not empty, where the date
-- of the file is the text of the time `t`, and that of the client the text of the time `since`, both since
-- 1970 and below 2^55 seconds: where they are the same second the response is 304 and gets no body;
-- else its state stays, and its body is the whole file.
pub on_get-dated :
    (place : ℕ) (open_file : Bytes → Option FileInfo) (p p' : SharedFilePool) (req : HttpRequest)
    (resp : HttpResponse) (f : FileInfo) (c since t : ℕ)
    → back (uri_text req) ≡ some c
    → get place open_file (if c == b'/' then uri_text req ++ codes "index.html" else uri_text req) p
      ≡ (some f, p')
    → Request.raw_header (codes "Range") req ≡ []
    → 0 < f.file_size
    → since < 2 ^ 55
    → t < 2 ^ 55
    → f.last_modified ≡ to_gmt_format t
    → Request.raw_header (codes "If-Modified-Since") req ≡ to_gmt_format since
    → (resp' : HttpResponse) × (on_get place open_file p req resp ≡ some (resp', p'))
      × AnswersDated since t f resp resp'
on_get-dated place open_file p p' req resp f c since t named found none_asked some_left small small'
      written asked =
    let (resp', done, whole) =
      on_get-whole place open_file p p' req resp f c named found none_asked some_left in
    (resp', done, whole-dated since t f req resp resp' small small' written asked whole)
