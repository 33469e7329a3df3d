-- ===== src/Http/Url/Inside.antt =====
-- Where the loop of `uriUnescape` reads.
use network_learn.Base.{
  ◌≤◌, ◌≡◌, refl, false, [], ◌∷◌, some, arith, Bool-cases, inl, inr, length, Bytes,
}
use network_learn.Util.Refer.{byte_at}
use network_learn.Http.Url.{is_hex, hex_pair, is_escape, uri_unescape}

-- The loop of `uriUnescape` stays inside the text if the byte behind it is no hexadecimal digit, and the result is
-- no longer than the text.
pub uri_unescape_total :
    (after s : Bytes)
    → is_hex (byte_at after 0) ≡ false
    → (t : Bytes) × (uri_unescape after s ≡ some t) × (length t ≤ length s)
unfolding uri_unescape
uri_unescape_total after [] h = ([], refl, omega arith)
uri_unescape_total after (c ∷ []) h = (c ∷ [], ground arith, omega arith)
uri_unescape_total after (c ∷ d ∷ []) h = (c ∷ d ∷ [], ground arith, omega arith)
uri_unescape_total after (c ∷ d ∷ e ∷ cs) h =
    let (t, found, size) = uri_unescape_total after cs h in
    let (u, found', size') = uri_unescape_total after (d ∷ e ∷ cs) h in
    elim (Bool-cases (is_escape c d e)) [
      | inl hit ↦ (hex_pair d e ∷ t, ground arith, omega arith)
      | inr miss ↦ (c ∷ u, ground arith, omega arith)
    ]
