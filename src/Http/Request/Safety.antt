-- ===== src/Http/Request/Safety.antt =====
-- The loops of `HttpRequest::parse` and the views that it leaves.
mod RequestLine
use network_learn.Base.{
  ℕ, zero, suc, ◌+◌, ◌-◌, ◌≤◌, ◌<◌, ◌≡◌, refl, ap, ◌∙◌, sym, ◌⊎◌, Bool, true, false, not, ◌&&◌,
  List, [], ◌∷◌, ◌++◌, Option, none, some, inl, inr, arith, ltb, leb, ◌==◌, if◌then◌else◌,
  Bool-cases, length, drop, is_empty, length-drop, All, Bytes, Option-cases, codes,
}
use network_learn.Util.Refer.{
  View, view_text, empty_view, InBounds, Refer, refer_til, byte_at, byte_at-drop_zero, Stopped,
  refer_til-Stopped, refer_til_progress,
}
use network_learn.Util.HeaderMap.{HeaderMap, find, emplace, All-emplace}
use network_learn.Http.Request.Position.{is_at_lem, skipped, skip_spaces-skipped}
use network_learn.Http.Url.{is_hex, uri_unescape}
use network_learn.Http.Url.Inside.{uri_unescape_total}
use network_learn.Http.Request.{
  HttpRequest, Status, ok, refused, fault, unfinished, Parsed, is_space, is_uri_end,
  is_argument_end, is_return, is_colon, parse_version, parse_arguments, parse_query, parse_uri,
  parse_request_line, is_at, is_line_byte, skip_spaces, parse_request_headers, finish,
  after_headers, after_line, parse,
}
use RequestLine.{Line, LineResult, parse_request_line-LineResult}

skipped-further : (cs : Bytes) (offset : ℕ) → offset ≤ skipped cs offset
unfolding skipped
skipped-further [] offset = omega arith
skipped-further (c ∷ cs) offset = ground (arith, skipped-further cs (offset + 1))

-- Both views of an entry.
abbrev pub EntryInBounds : Bytes → View × View → Type 0
EntryInBounds raw (key, value) = InBounds raw key × InBounds raw value

-- The header part returns: it refuses, or it accepts and leaves every view inside the data.
record Headers (raw : Bytes) (method version body : View) (p : Parsed) : Type 0 where
  accepts : p.status ≡ ok
  raw_kept : p.request.raw_data ≡ raw
  method_kept : p.request.method ≡ method
  version_kept : p.request.http_version ≡ version
  body_kept : p.request.body ≡ body
  entries_in : All (EntryInBounds raw) p.request.headers

abbrev HeadersResult : HttpRequest → Parsed → Type 0
HeadersResult req p =
    (p.status ≡ refused) ⊎ Headers req.raw_data req.method req.http_version req.body p

-- One line of the loop: the offset grows, and the new entry lies inside the data.
module _ (raw : Bytes) (offset : ℕ) where
  abbrev name_of : Refer
  name_of = refer_til 0 is_colon raw offset empty_view

  abbrev start_of : ℕ
  start_of = skipped (drop (name_of.offset + 1) raw) (name_of.offset + 1)

  abbrev value_of : Refer
  value_of = refer_til 0 is_return raw start_of empty_view

  skips : skip_spaces (length raw + 1) raw (name_of.offset + 1) ≡ some start_of
  skips = skip_spaces-skipped (length raw + 1) raw (name_of.offset + 1) (omega arith) (omega arith)

  header_line :
      name_of.found ≡ true
      → value_of.found ≡ true
      → (offset < value_of.offset) × EntryInBounds raw (name_of.dst, value_of.dst)
  header_line named valued =
      let s = refer_til-Stopped 0 is_colon raw offset empty_view named in
      let t = refer_til-Stopped 0 is_return raw start_of empty_view valued in
      let b = skipped-further (drop (name_of.offset + 1) raw) (name_of.offset + 1) in
      (
        omega (arith, s.reached, t.reached, b),
        (omega (arith, s.start, s.reached, s.inside), omega (arith, t.start, t.reached, t.inside)),
      )

parse_request_headers-HeadersResult :
    (fuel offset : ℕ) (req : HttpRequest)
    → 0 < fuel
    → length req.raw_data + 2 ≤ offset + fuel
    → All (EntryInBounds req.raw_data) req.headers
    → HeadersResult req (parse_request_headers fuel offset req)
unfolding parse_request_headers
parse_request_headers-HeadersResult zero offset req f k h = absurd (omega arith)
parse_request_headers-HeadersResult (suc fuel) offset req f k h =
    let raw = req.raw_data in
    elim (Bool-cases (ltb offset (length raw) && is_line_byte (byte_at raw offset))) [
      | inr over ↦
          rw (parse_request_headers, is_at_lem is_line_byte raw offset, over)
            (inr (record {
              accepts = refl;
              raw_kept = refl;
              method_kept = refl;
              version_kept = refl;
              body_kept = refl;
              entries_in = h;
            }))
      | inl more ↦
          let inside : offset < length raw = ground arith in
          elim (Bool-cases (name_of raw offset).found) [
            | inr miss ↦
                rw (parse_request_headers, is_at_lem is_line_byte raw offset, more, miss) (inl refl)
            | inl named ↦ elim (Bool-cases (value_of raw offset).found) [
              | inr miss ↦
                  rw
                    (
                      parse_request_headers,
                      is_at_lem is_line_byte raw offset,
                      more,
                      named,
                      skips raw offset,
                      miss,
                    )
                    (inl refl)
              | inl valued ↦
                  let line = header_line raw offset named valued in
                  let entries =
                    All-emplace (view_text raw) (EntryInBounds raw) (name_of raw offset).dst
                      (value_of raw offset).dst req.headers line.1 h in
                  rw
                    (
                      parse_request_headers,
                      is_at_lem is_line_byte raw offset,
                      more,
                      named,
                      skips raw offset,
                      valued,
                    )
                    (parse_request_headers-HeadersResult fuel ((value_of raw offset).offset + 2)
                      (record req {
                        headers =
                            emplace (view_text raw) (name_of raw offset).dst
                              (value_of raw offset).dst req.headers;
                      })
                      (omega arith) (omega (arith, line.0)) entries)
            ]
          ]
    ]

-- What a caller may rely on once `parse` has accepted.
pub record Accepted (req : HttpRequest) (p : Parsed) : Type 0 where
  pub accepts : p.status ≡ ok
  pub valid : p.request.is_valid ≡ true
  pub raw_kept : p.request.raw_data ≡ req.raw_data
  pub method_in : InBounds req.raw_data p.request.method
  pub version_in : InBounds req.raw_data p.request.http_version
  pub entries_in : All (EntryInBounds req.raw_data) p.request.headers
  pub body_in : InBounds req.raw_data p.request.body ⊎ (p.request.body ≡ req.body)

finish-Accepted :
    (req : HttpRequest) (p : Parsed)
    → InBounds req.raw_data p.request.method
    → InBounds req.raw_data p.request.http_version
    → p.request.raw_data ≡ req.raw_data
    → p.request.body ≡ req.body
    → All (EntryInBounds req.raw_data) p.request.headers
    → p.status ≡ ok
    → Accepted req (record p { request = finish p.offset p.request })
unfolding finish
finish-Accepted req p m v r b h e = record {
  accepts = e;
  valid = refl;
  raw_kept = r;
  method_in = m;
  version_in = v;
  entries_in = h;
  body_in = ground arith;
}

after_headers-Accepted :
    (req : HttpRequest) (line head : Parsed)
    → Line req.raw_data req.headers req.body line
    → HeadersResult line.request head
    → ((after_headers head).status ≡ refused) ⊎ Accepted req (after_headers head)
unfolding after_headers
after_headers-Accepted req line head l (inl e) = rw e (inl refl)
after_headers-Accepted req line head l (inr h) = rw h.accepts (
    inr (
      finish-Accepted req (record head { status = ok }) (rw h.method_kept l.method_in)
        (rw h.version_kept l.version_in) (h.raw_kept ∙ l.raw_kept) (h.body_kept ∙ l.body_kept)
        (rw l.raw_kept at h.entries_in) refl))

after_line-Accepted :
    (req : HttpRequest) (line : Parsed)
    → All (EntryInBounds req.raw_data) req.headers
    → LineResult req line
    → ((after_line line).status ≡ refused) ⊎ Accepted req (after_line line)
unfolding after_line
after_line-Accepted req line h (inl e) = rw e (inl refl)
after_line-Accepted req line h (inr l) =
    let raw = line.request.raw_data in
    rw l.accepts (
      after_headers-Accepted req line
        (parse_request_headers (length raw + 2) line.offset line.request) l
        (parse_request_headers-HeadersResult (length raw + 2) line.offset line.request (omega arith)
          (omega arith) (rw (l.raw_kept, l.headers_kept) h)))

-- On any data, and a request whose header views lie inside it, as those of a new or reset request
-- do, `parse` refuses or accepts: its loops end, no `at` throws, and `uriUnescape` does not run on
-- past the URI. A request that it accepts is valid, its views of the method, the version and the
-- headers lie inside the data, and so does that of the body, unless it is the one from before the
-- call.
pub parse_safe :
    (req : HttpRequest)
    → All (EntryInBounds req.raw_data) req.headers
    → ((parse req).status ≡ refused) ⊎ Accepted req (parse req)
unfolding parse
parse_safe req h = elim (Bool-cases (is_empty req.raw_data)) [
  | inl none_read ↦ rw none_read (inl refl)
  | inr some_read ↦
      rw some_read
        (after_line-Accepted req (parse_request_line 0 req) h (parse_request_line-LineResult 0 req))
]
