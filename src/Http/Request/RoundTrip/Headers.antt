-- ===== src/Http/Request/RoundTrip/Headers.antt =====
-- `HttpRequest::parseRequestHeaders` on the header lines that a client sends.
use network_learn.Base.{
  ℕ, zero, suc, ◌+◌, ◌≤◌, ◌≡◌, refl, ap, ◌∙◌, sym, true, false, ◌&&◌, List, [], ◌∷◌, ◌++◌, some,
  inl, inr, arith, ltb, Bool-cases, length, length-append, All, Bytes, get_or,
}
use network_learn.Util.Refer.{View, view_text, empty_view, refer_til, byte_at, byte_at-drop_zero}
use network_learn.Util.Nocase.{nocase_equal}
use network_learn.Util.HeaderMap.{HeaderMap, emplace}
use network_learn.Http.Request.{
  HttpRequest, is_space, is_return, is_colon, is_at, is_line_byte, skip_spaces,
  parse_request_headers,
}
use network_learn.Http.Request.Position.{
  At, At-append, At-cons, At-byte, At-view, At-refer_til, is_at_lem, skipped, skip_spaces-skipped,
}
use network_learn.Http.Request.Message.{render_lines, IsLine, collect}
use network_learn.Http.Request.RoundTrip.RequestLine.{Reads}

-- The entries with the texts that their views show.
abbrev pub texts : Bytes → HeaderMap View View → HeaderMap Bytes Bytes
texts raw [] = []
texts raw ((key, value) ∷ m) = (view_text raw key, view_text raw value) ∷ texts raw m

texts-emplace :
    (raw : Bytes) (key value : View) (m : HeaderMap View View)
    → texts raw (emplace (view_text raw) key value m)
      ≡ emplace (λ t. t) (view_text raw key) (view_text raw value) (texts raw m)
unfolding emplace
texts-emplace raw key value [] = refl
texts-emplace raw key value ((k, v) ∷ m) =
    elim (Bool-cases (nocase_equal (view_text raw key) (view_text raw k))) [
      | inl same ↦ rw same
      | inr other ↦ rw (other, texts-emplace raw key value m)
    ]

skipped_text :
    (cs : Bytes) (offset : ℕ) → is_space (get_or cs 0 b'\r') ≡ false → skipped cs offset ≡ offset
unfolding skipped
skipped_text [] offset h = refl
skipped_text (c ∷ cs) offset h = rw h

skipped_space :
    (cs : Bytes) (offset : ℕ)
    → is_space (get_or cs 0 b'\r') ≡ false
    → skipped (b' ' ∷ cs) offset ≡ offset + 1
unfolding skipped
skipped_space cs offset h = skipped_text cs (offset + 1) h

get_or-append_zero :
    (xs : Bytes) (stop : ℕ) (behind : Bytes) (d : ℕ)
    → get_or (xs ++ stop ∷ behind) 0 d ≡ get_or xs 0 stop
get_or-append_zero [] stop behind d = refl
get_or-append_zero (x ∷ xs) stop behind d = refl

-- What the loop does with one header line that stands at `offset`.
module _ (raw : Bytes) (offset : ℕ) (key value behind : Bytes)
    (p : At raw offset (key ++ b':' ∷ b' ' ∷ (value ++ b'\r' ∷ b'\n' ∷ behind)))
    (h : IsLine (key, value)) where
  abbrev start_of : ℕ
  start_of = offset + length key + 1 + 1

  key_view : View
  key_view = record { start = offset; count = length key }

  value_view : View
  value_view = record { start = start_of; count = length value }

  At-space : At raw (offset + length key + 1) (b' ' ∷ (value ++ b'\r' ∷ b'\n' ∷ behind))
  At-space =
      At-cons b':' (b' ' ∷ (value ++ b'\r' ∷ b'\n' ∷ behind))
        (At-append key (b':' ∷ b' ' ∷ (value ++ b'\r' ∷ b'\n' ∷ behind)) p)

  At-value : At raw start_of (value ++ b'\r' ∷ b'\n' ∷ behind)
  At-value = At-cons b' ' (value ++ b'\r' ∷ b'\n' ∷ behind) At-space

  At-behind : At raw (start_of + length value + 2) behind
  At-behind =
      At-append (b'\r' ∷ b'\n' ∷ []) behind (At-append value (b'\r' ∷ b'\n' ∷ behind) At-value)

  goes_on : is_at is_line_byte raw offset ≡ some true
  goes_on =
      let after = b' ' ∷ (value ++ b'\r' ∷ b'\n' ∷ behind) in
      let first : byte_at raw offset ≡ get_or key 0 b':' =
        sym (byte_at-drop_zero offset raw)
        ∙ ap (λ xs. get_or xs 0 0) p.reads
        ∙ get_or-append_zero key b':' after 0 in
      let more : ltb offset (length raw) && is_line_byte (byte_at raw offset) ≡ true =
        ground (arith, first, h.key_start, p.size, length-append key (b':' ∷ after)) in
      is_at_lem is_line_byte raw offset ∙ ap some more

  skips : skip_spaces (length raw + 1) raw (offset + length key + 1) ≡ some start_of
  skips =
      skip_spaces-skipped (length raw + 1) raw (offset + length key + 1) (omega arith) (omega arith)
      ∙ ap some (
          rw At-space.reads (
            skipped_space (value ++ b'\r' ∷ b'\n' ∷ behind) (offset + length key + 1)
              (rw (get_or-append_zero value b'\r' (b'\n' ∷ behind) b'\r') h.value_start)))

  named :
      (dst : View)
      → refer_til 0 is_colon raw offset dst
        ≡ record { found = true; offset = offset + length key; dst = key_view }
  unfolding key_view
  named dst =
      At-refer_til 0 is_colon key b':' (b' ' ∷ (value ++ b'\r' ∷ b'\n' ∷ behind)) dst p (inl refl)
        h.key_clear refl

  valued :
      (dst : View)
      → refer_til 0 is_return raw start_of dst
        ≡ record { found = true; offset = start_of + length value; dst = value_view }
  unfolding value_view
  valued dst =
      At-refer_til 0 is_return value b'\r' (b'\n' ∷ behind) dst At-value (inl refl) h.value_clear
        refl

  entry_texts :
      (m : HeaderMap View View)
      → texts raw (emplace (view_text raw) key_view value_view m)
        ≡ emplace (λ t. t) key value (texts raw m)
  unfolding key_view value_view
  entry_texts m = rw (
    texts-emplace raw key_view value_view m,
    At-view key (b':' ∷ b' ' ∷ (value ++ b'\r' ∷ b'\n' ∷ behind)) p,
    At-view value (b'\r' ∷ b'\n' ∷ behind) At-value,
  )

pub parse_request_headers-Reads :
    (lines : List (Bytes × Bytes)) (tail : Bytes) (fuel offset : ℕ) (req : HttpRequest)
    → All IsLine lines
    → At req.raw_data offset (render_lines lines tail)
    → length req.raw_data + 2 ≤ offset + fuel
    → (m : HeaderMap View View) × (texts req.raw_data m
        ≡ collect lines (texts req.raw_data req.headers))
      × Reads (record req { headers = m }) tail (parse_request_headers fuel offset req)
unfolding parse_request_headers
parse_request_headers-Reads lines tail zero offset req h p k = absurd (omega (arith, p.size))
parse_request_headers-Reads [] tail (suc fuel) offset req h p k = (
  req.headers,
  refl,
  let inside : ltb offset (length req.raw_data) ≡ true = ground (arith, p.size) in
      rw
        (
          parse_request_headers,
          is_at_lem is_line_byte req.raw_data offset,
          inside,
          At-byte b'\r' (b'\n' ∷ tail) p,
        )
        (record {
          end = offset + 2;
          result = refl;
          at_rest = At-append (b'\r' ∷ b'\n' ∷ []) tail p;
        }),
)
parse_request_headers-Reads ((key, value) ∷ ls) tail (suc fuel) offset req h p k =
    let raw = req.raw_data in
    let after = render_lines ls tail in
    let entry =
      emplace (view_text raw) (key_view raw offset key value after p h.0)
        (value_view raw offset key value after p h.0) req.headers in
    let (m, same, read) =
      parse_request_headers-Reads ls tail fuel
        (start_of raw offset key value after p h.0 + length value + 2)
        (record req { headers = entry }) h.1 (At-behind raw offset key value after p h.0)
        (omega arith) in
    (
      m,
      same ∙ ap (collect ls) (entry_texts raw offset key value after p h.0 req.headers),
      rw
          (
            parse_request_headers,
            goes_on raw offset key value after p h.0,
            named raw offset key value after p h.0 empty_view,
            skips raw offset key value after p h.0,
            named raw offset key value after p h.0 empty_view,
            valued raw offset key value after p h.0 empty_view,
          )
          read,
    )
