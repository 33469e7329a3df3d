-- ===== src/Http/Request/RoundTrip/RequestLine.antt =====
-- `HttpRequest::parseRequestLine` on the request line that a client sends.
use mathlib.Core.List.{append_assoc, append-nil}
use network_learn.Base.{
  ℕ, zero, suc, ◌+◌, ◌≤◌, ◌<◌, ◌≡◌, refl, ap, true, false, List, [], ◌∷◌, ◌++◌, inl, inr, arith,
  leb, length, drop, All, Bytes,
}
use network_learn.Util.Refer.{empty_view}
use network_learn.Http.Url.{is_hex}
use network_learn.Http.Request.{
  HttpRequest, ok, Parsed, is_space, is_uri_end, is_argument_end, is_return, parse_version,
  parse_arguments, parse_query, after_arguments, after_uri, parse_uri, parse_request_line,
}
use network_learn.Http.Request.Position.{At, At-append, At-cons, At-byte, At-view, At-refer_til}
use network_learn.Http.Request.Message.{
  Message, render_arguments, render_target, render_lines, render, render_version, Clear,
  IsWellFormed,
}

-- The step accepts at `offset`, where `rest` stands, with this request.
pub record Reads (req : HttpRequest) (rest : Bytes) (p : Parsed) : Type 0 where
  pub end : ℕ
  pub result : p ≡ record { status = ok; offset = end; request = req }
  pub at_rest : At req.raw_data end rest

parse_version-Reads :
    (offset : ℕ) (req : HttpRequest) (version tail : Bytes)
    → At req.raw_data offset (version ++ b'\r' ∷ b'\n' ∷ tail)
    → Clear is_return version
    → length version < 10
    → Reads
        (record req { http_version = record { start = offset; count = length version } })
        tail
        (parse_version offset req)
unfolding parse_version
parse_version-Reads offset req version tail a clear size =
    rw
      (At-refer_til 10 is_return version b'\r' (b'\n' ∷ tail) req.http_version a (inr size) clear
        refl)
      (record {
        end = offset + length version + 2;
        result = refl;
        at_rest = At-append (b'\r' ∷ b'\n' ∷ []) tail (At-append version (b'\r' ∷ b'\n' ∷ tail) a);
      })

parse_arguments-Reads :
    (fuel offset : ℕ) (req : HttpRequest) (c : ℕ) (a : Bytes) (as' : List Bytes) (tail : Bytes)
    → At req.raw_data offset (c ∷ render_arguments a as' tail)
    → length req.raw_data ≤ offset + fuel
    → All (Clear is_argument_end) (a ∷ as')
    → Reads
        (record req { url_arguments = req.url_arguments ++ a ∷ as' })
        (b' ' ∷ tail)
        (parse_arguments fuel offset req)
unfolding parse_arguments
parse_arguments-Reads zero offset req c a as' tail p k clear = absurd (omega (arith, p.size))
parse_arguments-Reads (suc fuel) offset req c a [] tail p k clear =
    let q = At-cons c (a ++ b' ' ∷ tail) p in
    rw
      (
        At-refer_til 0 is_argument_end a b' ' tail empty_view q (inl refl) clear.0 refl,
        At-view a (b' ' ∷ tail) q,
        At-byte b' ' tail (At-append a (b' ' ∷ tail) q),
      )
      (record { end = offset + 1 + length a; result = refl; at_rest = At-append a (b' ' ∷ tail) q })
parse_arguments-Reads (suc fuel) offset req c a (b ∷ bs) tail p k clear =
    let q = At-cons c (a ++ b'&' ∷ render_arguments b bs tail) p in
    let q' = At-append a (b'&' ∷ render_arguments b bs tail) q in
    rw
      (
        At-refer_til 0 is_argument_end a b'&' (render_arguments b bs tail) empty_view q (inl refl)
            clear.0 refl,
        At-view a (b'&' ∷ render_arguments b bs tail) q,
        At-byte b'&' (render_arguments b bs tail) q',
      )
      (rw append_assoc at (
        parse_arguments-Reads fuel (offset + 1 + length a)
          (record req { url_arguments = req.url_arguments ++ a ∷ [] }) b'&' b bs tail q'
          (omega arith) clear.1))

-- The request after the request line of a message.
abbrev pub line_request : HttpRequest → Message → ℕ → HttpRequest
line_request req m version_start = record req {
  method = record { start = 0; count = length m.method };
  uri = m.uri;
  url_arguments = req.url_arguments ++ m.arguments;
  http_version = record { start = version_start; count = length m.version };
}

-- From the end of the path on.
parse_query-Reads :
    (offset : ℕ) (req : HttpRequest) (as' : List Bytes) (version tail : Bytes)
    → At req.raw_data offset (render_target [] as' (version ++ b'\r' ∷ b'\n' ∷ tail))
    → All (Clear is_argument_end) as'
    → Clear is_return version
    → length version < 10
    → (start : ℕ) × (At req.raw_data start (version ++ b'\r' ∷ b'\n' ∷ tail))
      × Reads
          (record req {
            url_arguments = req.url_arguments ++ as';
            http_version = record { start = start; count = length version };
          })
          tail
          (parse_query offset req)
unfolding parse_query after_arguments
parse_query-Reads offset req [] version tail p clears clear size =
    let q = At-cons b' ' (version ++ b'\r' ∷ b'\n' ∷ tail) p in
    let inside : leb (length req.raw_data) offset ≡ false = ground (arith, p.size) in
    (
      offset + 1,
      q,
      rw (inside, At-byte b' ' (version ++ b'\r' ∷ b'\n' ∷ tail) p, append-nil)
          (parse_version-Reads (offset + 1) req version tail q clear size),
    )
parse_query-Reads offset req (a ∷ as') version tail p clears clear size =
    let inside : leb (length req.raw_data) offset ≡ false = ground (arith, p.size) in
    let read =
      parse_arguments-Reads (length req.raw_data) offset req b'?' a as'
        (version ++ b'\r' ∷ b'\n' ∷ tail) p (omega arith) clears in
    let q = At-cons b' ' (version ++ b'\r' ∷ b'\n' ∷ tail) read.at_rest in
    (
      read.end + 1,
      q,
      rw
          (
            inside,
            At-byte b'?' (render_arguments a as' (version ++ b'\r' ∷ b'\n' ∷ tail)) p,
            read.result,
          )
          (parse_version-Reads (read.end + 1)
            (record req { url_arguments = req.url_arguments ++ a ∷ as' }) version tail q clear
            size),
    )

-- The target of any message is its path and what follows it.
render_target_split :
    (path : Bytes) (as' : List Bytes) (tail : Bytes)
    → render_target path as' tail ≡ path ++ render_target [] as' tail
render_target_split path [] tail = refl
render_target_split path (a ∷ as') tail = refl

-- What stands behind the path is its end, and no hexadecimal digit.
target_end :
    (as' : List Bytes) (tail : Bytes)
    → (stop : ℕ) × (behind : Bytes) × (render_target [] as' tail ≡ stop ∷ behind)
      × (is_uri_end stop ≡ true)
      × (is_hex stop ≡ false)
target_end [] tail = (b' ', tail, refl, refl, refl)
target_end (a ∷ as') tail = (b'?', render_arguments a as' tail, refl, refl, refl)

module _ (m : Message) (w : IsWellFormed m) where
  parse_uri-Reads :
      (offset : ℕ) (req : HttpRequest) (tail : Bytes)
      → At req.raw_data offset
          (render_target m.path m.arguments (m.version ++ b'\r' ∷ b'\n' ∷ tail))
      → (start : ℕ) × (At req.raw_data start (m.version ++ b'\r' ∷ b'\n' ∷ tail))
        × Reads
            (record req {
              uri = m.uri;
              url_arguments = req.url_arguments ++ m.arguments;
              http_version = record { start = start; count = length m.version };
            })
            tail
            (parse_uri offset req)
  unfolding parse_uri after_uri
  parse_uri-Reads offset req tail p =
      let version = m.version ++ b'\r' ∷ b'\n' ∷ tail in
      let p' = rw (render_target_split m.path m.arguments version) at p in
      let q = At-append m.path (render_target [] m.arguments version) p' in
      let (stop, behind, shape, ends, plain) = target_end m.arguments version in
      let hit =
        At-refer_til 0 is_uri_end m.path stop behind empty_view (rw shape at p') (inl refl)
          w.path_clear ends in
      let after =
        w.decodes (drop (offset + length m.path) req.raw_data) (rw (q.reads, shape) plain) in
      let (start, r, rest) =
        parse_query-Reads (offset + length m.path) (record req { uri = m.uri }) m.arguments
          m.version tail q w.arguments_clear w.version_clear w.version_size in
      (start, r, rw (hit, At-view m.path (render_target [] m.arguments version) p', after) rest)

  pub parse_request_line-Reads :
      (req : HttpRequest)
      → req.raw_data ≡ render m
      → (start : ℕ) × (At req.raw_data start (render_version m))
        × Reads
            (line_request req m start)
            (render_lines m.lines m.content)
            (parse_request_line 0 req)
  unfolding parse_request_line
  parse_request_line-Reads req e =
      let tail = render_lines m.lines m.content in
      let target = render_target m.path m.arguments (render_version m) in
      let p : At req.raw_data 0 (render m) = record {
        reads = e;
        size = omega (arith, ap length e);
      } in
      let hit =
        At-refer_til 8 is_space m.method b' ' target req.method p (inr w.method_size) w.method_clear
          refl in
      let q = At-cons b' ' target (At-append m.method (b' ' ∷ target) p) in
      let zero_add : 0 + length m.method ≡ length m.method = omega arith in
      let req' = record req { method = record { start = 0; count = length m.method } } in
      let (start, r, rest) = parse_uri-Reads (0 + length m.method + 1) req' tail q in
      (start, r, rw hit rest)
