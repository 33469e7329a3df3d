-- ===== src/Http/Response/Framing.antt =====
-- How a response is framed: its text on the wire, and the length that it announces.
use mathlib.Core.List.{append_assoc, append-nil}
use network_learn.Base.{
  ℕ, suc, ◌-◌, ◌<◌, ◌≤◌, ◌^◌, ◌↔◌, ◌≡◌, ◌≢◌, refl, ap, ◌∙◌, sym, true, false, [], ◌∷◌, ◌++◌, some,
  arith, length, Bytes, codes,
}
use network_learn.Util.Decimal.{to_string, to_string_injective}
use network_learn.Util.Nocase.{IsHeaderText, nocase_equal}
use network_learn.Util.HeaderMap.{HeaderMap, find, set, HasTextKeys, find-set}
use network_learn.Http.Request.Message.{render_lines}
use network_learn.Util.Stream.{Stream}
use network_learn.Http.Response.{
  HttpResponse, FileBody, set_file_body, Body, text, stream, file, content_length, set_text_body,
  set_stream_body, append_headers, append_body, to_raw_data,
}

-- The bytes of the body that are written with the head.
abbrev pub text_of : Body → Bytes
text_of (text s) = s
text_of _ = []

append_headers-render_lines :
    (response : Bytes) (m : HeaderMap Bytes Bytes) (tail : Bytes)
    → append_headers response m ++ (codes "\r\n" ++ tail) ≡ response ++ render_lines m tail
unfolding append_headers
append_headers-render_lines response [] tail = refl
append_headers-render_lines response ((key, value) ∷ m) tail =
    append_headers-render_lines ((((response ++ key) ++ codes ": ") ++ value) ++ codes "\r\n") m
      tail
    ∙ simp append_assoc

append_body_lem :
    (response : Bytes) (b : Body) → append_body response b ≡ response ++ (codes "\r\n" ++ text_of b)
unfolding append_body
append_body_lem response (text s) = append_assoc response (codes "\r\n") s
append_body_lem response _ = ap (◌++◌ response) (sym (append-nil (codes "\r\n")))

-- What `toRawData` appends: the status line, then the header lines and the text as a client of the
-- same grammar writes them, whatever the order of the table.
pub to_raw_data_lem :
    (date : Bytes) (order : HeaderMap Bytes Bytes → HeaderMap Bytes Bytes) (resp : HttpResponse)
    (response : Bytes)
    → to_raw_data date order resp response
      ≡ response
        ++ (codes "HTTP/1.1 "
            ++ (to_string resp.http_state.0
                ++ (b' '
                    ∷ (resp.http_state.1
                        ++ (codes "\r\n"
                            ++ render_lines
                                ((codes "Date", date)
                                  ∷ (codes "Server", codes "TinyWebServer")
                                  ∷ order resp.headers)
                                (text_of resp.body))))))
unfolding to_raw_data
to_raw_data_lem date order resp response =
    append_body_lem _ resp.body
    ∙ append_headers-render_lines _ (order resp.headers) (text_of resp.body)
    ∙ simp append_assoc

-- How many bytes follow the head of the response.
abbrev pub body_size : Body → ℕ
body_size (text s) = length s
body_size (stream s) = length s.content - s.position
body_size (file f) = f.count

-- The header announces the number of bytes that follow.
abbrev pub IsFramed : HttpResponse → Type 0
IsFramed resp = find (λ t. t) content_length resp.headers ≡ some (to_string (body_size resp.body))

content_length-IsHeaderText : IsHeaderText content_length
content_length-IsHeaderText = record { bytes = omega arith; size = omega arith }

same_name : nocase_equal content_length content_length ≡ true
unfolding nocase_equal
same_name = refl

content_length_found :
    (value : Bytes) (m : HeaderMap Bytes Bytes)
    → HasTextKeys (λ t. t) m
    → find (λ t. t) content_length (set (λ t. t) content_length value m) ≡ some value
content_length_found value m h =
    find-set (λ t. t) content_length content_length value m content_length-IsHeaderText
      content_length-IsHeaderText h
    ∙ rw same_name

-- After `setBody` with a text that is not empty, on headers whose names are header text, the response
-- announces the number of bytes of the text.
set_text_body-IsFramed :
    (s : Bytes) (resp : HttpResponse)
    → s ≢ []
    → HasTextKeys (λ t. t) resp.headers
    → IsFramed (set_text_body s resp)
unfolding set_text_body
set_text_body-IsFramed [] resp ne h = absurd (ne refl)
set_text_body-IsFramed (c ∷ s) resp ne h = content_length_found _ resp.headers h

set_stream_body-length :
    (s : Stream) (n : ℕ) (resp : HttpResponse)
    → s.is_bad ≡ false
    → s.is_failed ≡ false
    → length s.content ≡ suc n
    → HasTextKeys (λ t. t) resp.headers
    → (find (λ t. t) content_length (set_stream_body s resp).headers ≡ some (to_string (suc n)))
      × ((set_stream_body s resp).body ≡ stream s)
unfolding set_stream_body
set_stream_body-length s n resp good unfailed size h =
    ground (arith, content_length_found (to_string (suc n)) resp.headers h)

-- After `setBody` with a stream that has not failed, holds between 1 and 2^64 - 1 bytes and does not
-- stand behind its end, on headers whose names are header text, the response announces the number of
-- bytes that follow exactly if the stream stands at its start.
pub set_stream_body-IsFramed_iff :
    (s : Stream) (resp : HttpResponse)
    → s.is_bad ≡ false
    → s.is_failed ≡ false
    → 0 < length s.content
    → length s.content < 2 ^ 64
    → s.position ≤ length s.content
    → HasTextKeys (λ t. t) resp.headers
    → IsFramed (set_stream_body s resp) ↔ (s.position ≡ 0)
set_stream_body-IsFramed_iff s resp good unfailed some_left size inside h =
    let e : length s.content ≡ suc (length s.content - 1) = omega arith in
    let (found, body) = set_stream_body-length s (length s.content - 1) resp good unfailed e h in
    let found' = rw (← e) at found in
    let announced = λ (b : Body). some (to_string (body_size b)) in
    let rest = length s.content - s.position in
    (
      λ framed.
          let joined = sym found' ∙ framed ∙ ap announced body in
          let same : to_string (length s.content) ≡ to_string rest = cc in
          let sizes = to_string_injective (length s.content) rest size (omega arith) same in
          omega arith,
      λ start.
          let sizes : length s.content ≡ rest = omega arith in
          found' ∙ ap (λ n. some (to_string n)) sizes ∙ sym (ap announced body),
    )

-- After `setBody` with a part of a file that is not empty, on headers whose names are header text, the
-- response announces the number of bytes of the part.
set_file_body-IsFramed :
    (f : FileBody) (resp : HttpResponse)
    → 0 < f.count
    → HasTextKeys (λ t. t) resp.headers
    → IsFramed (set_file_body f resp)
unfolding set_file_body
set_file_body-IsFramed f resp p h =
    ground (arith, content_length_found (to_string f.count) resp.headers h)
