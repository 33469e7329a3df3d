-- ===== src/Http/Request/Safety/RequestLine.antt =====
-- The request line of `HttpRequest::parse`: it is refused or accepted, and its views lie inside the
-- data.
use network_learn.Base.{
  ℕ, zero, suc, ◌+◌, ◌≤◌, ◌<◌, ◌≡◌, refl, ◌⊎◌, false, [], ◌∷◌, ◌++◌, inl, inr, arith, leb, ◌==◌,
  Bool-cases, length, drop, Bytes,
}
use network_learn.Util.Refer.{
  View, view_text, empty_view, InBounds, refer_til, byte_at, byte_at-drop_zero, refer_til-Stopped,
  refer_til_progress,
}
use network_learn.Util.HeaderMap.{HeaderMap}
use network_learn.Http.Url.{is_hex}
use network_learn.Http.Url.Inside.{uri_unescape_total}
use network_learn.Http.Request.{
  HttpRequest, ok, refused, Parsed, is_space, is_uri_end, is_argument_end, is_return, parse_version,
  parse_arguments, parse_query, after_arguments, after_uri, parse_uri, parse_request_line,
}

-- A step of the request line that returns: it refuses, or it accepts and keeps the data and the
-- headers, with the method and the version inside the data.
pub record Line (raw : Bytes) (headers : HeaderMap View View) (body : View) (p : Parsed)
    : Type 0 where
  pub accepts : p.status ≡ ok
  pub raw_kept : p.request.raw_data ≡ raw
  pub headers_kept : p.request.headers ≡ headers
  pub body_kept : p.request.body ≡ body
  pub method_in : InBounds raw p.request.method
  pub version_in : InBounds raw p.request.http_version

abbrev pub LineResult : HttpRequest → Parsed → Type 0
LineResult req p = (p.status ≡ refused) ⊎ Line req.raw_data req.headers req.body p

parse_version-LineResult :
    (offset : ℕ) (req : HttpRequest)
    → InBounds req.raw_data req.method
    → LineResult req (parse_version offset req)
unfolding parse_version
parse_version-LineResult offset req h =
    elim (Bool-cases (refer_til 10 is_return req.raw_data offset req.http_version).found) [
      | inl hit ↦
          let s = refer_til-Stopped 10 is_return req.raw_data offset req.http_version hit in
          rw hit (
            inr (record {
              accepts = refl;
              raw_kept = refl;
              headers_kept = refl;
              body_kept = refl;
              method_in = h;
              version_in = omega (arith, s.start, s.reached, s.inside);
            }))
      | inr miss ↦ rw miss (inl refl)
    ]

record Arguments (req : HttpRequest) (p : Parsed) : Type 0 where
  accepts : p.status ≡ ok
  raw_kept : p.request.raw_data ≡ req.raw_data
  headers_kept : p.request.headers ≡ req.headers
  body_kept : p.request.body ≡ req.body
  method_kept : p.request.method ≡ req.method

parse_arguments-Arguments :
    (fuel offset : ℕ) (req : HttpRequest)
    → offset < length req.raw_data
    → length req.raw_data ≤ offset + fuel
    → ((parse_arguments fuel offset req).status ≡ refused)
      ⊎ Arguments req (parse_arguments fuel offset req)
unfolding parse_arguments
parse_arguments-Arguments zero offset req h k = absurd (omega arith)
parse_arguments-Arguments (suc fuel) offset req h k =
    let r = refer_til 0 is_argument_end req.raw_data (offset + 1) empty_view in
    elim (Bool-cases r.found) [
      | inr miss ↦ rw miss (inl refl)
      | inl hit ↦
          let s = refer_til-Stopped 0 is_argument_end req.raw_data (offset + 1) empty_view hit in
          let p = refer_til_progress 0 is_argument_end req.raw_data (offset + 1) empty_view in
          let req' = record req {
            url_arguments = req.url_arguments ++ view_text req.raw_data r.dst ∷ [];
          } in
          elim (Bool-cases (byte_at req.raw_data r.offset == b'&')) [
            | inl more ↦
                rw (hit, more)
                  (elim (parse_arguments-Arguments fuel r.offset req' s.inside (omega (arith, p))) [
                    | inl e ↦ inl e
                    | inr a ↦ inr (record {
                      accepts = a.accepts;
                      raw_kept = a.raw_kept;
                      headers_kept = a.headers_kept;
                      body_kept = a.body_kept;
                      method_kept = a.method_kept;
                    })
                  ])
            | inr last ↦
                rw (hit, last)
                  (inr (record {
                    accepts = refl;
                    raw_kept = refl;
                    headers_kept = refl;
                    body_kept = refl;
                    method_kept = refl;
                  }))
          ]
    ]

after_arguments-LineResult :
    (req : HttpRequest) (args : Parsed)
    → InBounds req.raw_data req.method
    → (args.status ≡ refused) ⊎ Arguments req args
    → LineResult req (after_arguments args)
unfolding after_arguments
after_arguments-LineResult req args k (inl e) = inl (rw e refl)
after_arguments-LineResult req args k (inr a) =
    rw (a.accepts, ← a.raw_kept, ← a.headers_kept, ← a.body_kept)
      (parse_version-LineResult (args.offset + 1) args.request (rw (a.method_kept, a.raw_kept) k))

parse_query-LineResult :
    (offset : ℕ) (req : HttpRequest)
    → offset < length req.raw_data
    → InBounds req.raw_data req.method
    → LineResult req (parse_query offset req)
unfolding parse_query
parse_query-LineResult offset req h k =
    let inside : leb (length req.raw_data) offset ≡ false = ground arith in
    elim (Bool-cases (byte_at req.raw_data offset == b'?')) [
      | inr path ↦ rw (inside, path) (parse_version-LineResult (offset + 1) req k)
      | inl query ↦
          rw (inside, query)
            (after_arguments-LineResult req (parse_arguments (length req.raw_data) offset req) k
              (parse_arguments-Arguments (length req.raw_data) offset req h (omega arith)))
    ]

parse_uri-LineResult :
    (offset : ℕ) (req : HttpRequest)
    → InBounds req.raw_data req.method
    → LineResult req (parse_uri offset req)
unfolding parse_uri after_uri
parse_uri-LineResult offset req k =
    let r = refer_til 0 is_uri_end req.raw_data offset empty_view in
    elim (Bool-cases r.found) [
      | inr miss ↦ rw miss (inl refl)
      | inl hit ↦
          let s = refer_til-Stopped 0 is_uri_end req.raw_data offset empty_view hit in
          let after = drop r.offset req.raw_data in
          let stop : is_hex (byte_at after 0) ≡ false =
            ground (arith, byte_at-drop_zero r.offset req.raw_data, s.stops) in
          let (uri, unescaped, _) = uri_unescape_total after (view_text req.raw_data r.dst) stop in
          rw (hit, unescaped)
            (parse_query-LineResult r.offset (record req { uri = uri }) s.inside k)
    ]

-- The request line of any data is accepted or refused; accepted, its views lie inside the data.
pub parse_request_line-LineResult :
    (offset : ℕ) (req : HttpRequest) → LineResult req (parse_request_line offset req)
unfolding parse_request_line
parse_request_line-LineResult offset req =
    let r = refer_til 8 is_space req.raw_data offset req.method in
    elim (Bool-cases r.found) [
      | inr miss ↦ rw miss (inl refl)
      | inl hit ↦
          let s = refer_til-Stopped 8 is_space req.raw_data offset req.method hit in
          rw hit (
            parse_uri-LineResult (r.offset + 1) (record req { method = r.dst })
              (omega (arith, s.start, s.reached, s.inside)))
    ]
