-- ===== src/Http/Request/RoundTrip.antt =====
-- `HttpRequest::parse` reads back what a client sends.
mod RequestLine
mod Headers
use mathlib.Core.List.{append-nil}
use mathlib.Core.Option
use network_learn.Base.{
  ℕ, zero, suc, ◌+◌, ◌-◌, ◌≤◌, ◌<◌, ◌≡◌, ◌≢◌, refl, ap, ◌∙◌, sym, ◌⊎◌, Bool, true, false, not, ◌&&◌,
  List, [], ◌∷◌, ◌++◌, map, Option, none, some, inl, inr, arith, ltb, leb, ◌==◌, if◌then◌else◌,
  Bool-cases, length, drop, take, is_empty, take-append, All, Bytes, codes, get_or,
}
use network_learn.Util.Refer.{View, view_text}
use network_learn.Util.Nocase.{nocase_equal, strcasecmp}
use network_learn.Util.HeaderMap.{HeaderMap, find}
use network_learn.Http.Request.{
  HttpRequest, ok, Parsed, parse_request_line, parse_request_headers, finish, after_headers,
  after_line, parse, method_text, uri_text, http_version_text, raw_header,
}
use network_learn.Http.Request.Position.{At, At-view}
use network_learn.Http.Request.Message.{
  Message, render, render_lines, render_version, render_target, IsWellFormed, collect,
}
use RequestLine.{Reads, line_request, parse_request_line-Reads}
use Headers.{texts, parse_request_headers-Reads}

find-texts :
    (raw name : Bytes) (m : HeaderMap View View)
    → Option.map (view_text raw) (find (view_text raw) name m) ≡ find (λ t. t) name (texts raw m)
unfolding find
find-texts raw name [] = refl
find-texts raw name ((key, value) ∷ m) = ground (arith, find-texts raw name m)

-- The value of a header among the lines of a message, if one has that name.
abbrev pub header_of : Message → Bytes → Option Bytes
header_of m name = find (λ t. t) name (collect m.lines [])

-- The server keeps the connection unless the client says that it closes it.
abbrev pub keeps_alive : Option Bytes → Bool
keeps_alive none = true
keeps_alive (some value) = not (strcasecmp value (codes "close") == 0)

-- The accessors of the request give the parts of the message.
pub record ReadsBack (m : Message) (req : HttpRequest) : Type 0 where
  pub valid : req.is_valid ≡ true
  pub method_is : method_text req ≡ m.method
  pub uri_is : uri_text req ≡ m.uri
  pub arguments_are : req.url_arguments ≡ m.arguments
  pub version_is : http_version_text req ≡ m.version
  pub headers_are : (name : Bytes) → raw_header name req ≡ Option.get_or (header_of m name) []
  pub keep_alive_is : req.is_keep_alive ≡ keeps_alive (header_of m (codes "Connection"))
  pub content_is : (m.content ≡ []) ⊎ (view_text req.raw_data req.body ≡ m.content)

raw_header_option :
    (raw : Bytes) (o : Option View)
    → ◌≡◌ {A = Bytes}
        (elim o [ none ↦ [] | some value ↦ view_text raw value ])
        (Option.get_or (Option.map (view_text raw) o) [])
raw_header_option raw none = refl
raw_header_option raw (some value) = refl

keep_alive_option :
    (raw : Bytes) (o : Option View)
    → ◌≡◌ {A = Bool}
        (elim o [
          | none ↦ true
          | some value ↦ not (strcasecmp (view_text raw value) (codes "close") == 0)
        ])
        (keeps_alive (Option.map (view_text raw) o))
keep_alive_option raw none = refl
keep_alive_option raw (some value) = refl

-- The rest of the data, where some are left.
rest_of_data :
    (raw content : Bytes) (end : ℕ) (old : View)
    → At raw end content
    → (content ≡ [])
      ⊎ (view_text raw
            (if ltb end (length raw) then record { start = end; count = length raw - end } else old)
          ≡ content)
rest_of_data raw [] end old r = inl refl
rest_of_data raw (c ∷ cs) end old r =
    let inside : ltb end (length raw) ≡ true = ground (arith, r.size) in
    let count : length raw - end ≡ length (c ∷ cs) = omega (arith, r.size) in
    rw (inside, count, r.reads)
      (inr (ap (take (length (c ∷ cs))) (sym (append-nil (c ∷ cs))) ∙ take-append (c ∷ cs) []))

finish-ReadsBack :
    (m : Message) (req : HttpRequest) (start end : ℕ) (entries : HeaderMap View View)
    → At req.raw_data 0 (render m)
    → At req.raw_data start (render_version m)
    → At req.raw_data end m.content
    → req.url_arguments ≡ []
    → texts req.raw_data entries ≡ collect m.lines []
    → ReadsBack m (finish end (record (line_request req m start) { headers = entries }))
unfolding finish method_text uri_text http_version_text raw_header
finish-ReadsBack m req start end entries p q r u t =
    let raw = req.raw_data in
    let found = λ (name : Bytes). find-texts raw name entries ∙ ap (find (λ t. t) name) t in
    record {
      valid = refl;
      method_is = At-view m.method (b' ' ∷ render_target m.path m.arguments (render_version m)) p;
      uri_is = refl;
      arguments_are = rw u;
      version_is = At-view m.version (b'\r' ∷ b'\n' ∷ render_lines m.lines m.content) q;
      headers_are = λ name.
          raw_header_option raw (find (view_text raw) name entries)
          ∙ ap (λ o. Option.get_or o []) (found name);
      keep_alive_is =
          keep_alive_option raw (find (view_text raw) (codes "Connection") entries)
          ∙ ap keeps_alive (found (codes "Connection"));
      content_is = rest_of_data raw m.content end req.body r;
    }

render-ne-nil : (m : Message) → is_empty (render m) ≡ false
render-ne-nil m = starts m.method
  where
    starts :
        (xs : Bytes)
        → is_empty (xs ++ b' ' ∷ render_target m.path m.arguments (render_version m)) ≡ false
    starts [] = refl
    starts (x ∷ xs) = refl

-- Whatever text a client sends for a well-formed message, `parse`, on a request without headers
-- and arguments, accepts it, and the accessors of the request give back the parts of the message:
-- the method, the unescaped URI, the arguments, the version, the value of each header, whether
-- the connection is kept, and the content, if any.
pub parse-render :
    (m : Message) (req : HttpRequest)
    → IsWellFormed m
    → req.raw_data ≡ render m
    → req.headers ≡ []
    → req.url_arguments ≡ []
    → ((parse req).status ≡ ok) × ReadsBack m (parse req).request
unfolding parse after_line after_headers
parse-render m req w e h u =
    let (start, version_at, line) = parse_request_line-Reads m w req e in
    let req' = line_request req m start in
    let (entries, same, head) =
      parse_request_headers-Reads m.lines m.content (length req.raw_data + 2) line.end req'
        w.lines_fit line.at_rest (omega arith) in
    let p : At req.raw_data 0 (render m) = record {
      reads = e;
      size = omega (arith, ap length e);
    } in
    let some_read : is_empty req.raw_data ≡ false = rw e (render-ne-nil m) in
    rw (some_read, line.result, head.result)
      (
        refl,
        finish-ReadsBack m req start head.end entries p version_at head.at_rest u
            (same ∙ ap (λ es. collect m.lines (texts req.raw_data es)) h),
      )
