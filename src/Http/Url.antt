-- ===== src/Http/Url.antt =====
-- `uriUnescape` of http/url.h.
pub mod Inside
use Prim.Native.Nat.{bit_and, bit_or}
use mathlib.Core.Option
use network_learn.Base.{
  ℕ, ◌+◌, ◌-◌, ◌*◌, ◌/◌, ◌%◌, Bool, ◌&&◌, ◌||◌, List, [], ◌∷◌, ◌++◌, Option, none, some, leb, ◌==◌,
  if◌then◌else◌, get_or, Bytes, codes,
}
use network_learn.Util.Refer.{byte_at}

-- IS_NUM, IS_HEX.
abbrev is_num : ℕ → Bool
is_num c = leb b'0' c && leb c b'9'

abbrev pub is_hex : ℕ → Bool
is_hex c = is_num c || leb b'a' c && leb c b'f' || leb b'A' c && leb c b'F'

-- On `uint8_t`.
hex2i : ℕ → ℕ
hex2i hex =
    if leb hex b'9'
    then (hex + 256 - b'0') % 256
    else if leb hex b'F'
    then (hex + 256 - b'A' + 10) % 256
    else (hex + 256 - b'a' + 10) % 256

-- `char((hex2i(it[1]) << 4) | hex2i(it[2]))`.
pub hex_pair : ℕ → ℕ → ℕ
unfolding hex2i
hex_pair d e = bit_or (hex2i d * 16) (hex2i e) % 256

-- The test of `uriUnescape`, on `it[0]`, `it[1]` and `it[2]`.
pub is_escape : ℕ → ℕ → ℕ → Bool
is_escape c d e = c == b'%' && is_hex d && is_hex e

-- The text, and what stands behind it in memory, which `it[1]` and `it[2]` may read. `none`: the
-- iterator is moved past the end of the text, and the loop runs on outside it.
unfoldable pub uri_unescape : Bytes → Bytes → Option Bytes
unfolding is_escape hex_pair
uri_unescape after [] = some []
uri_unescape after (c ∷ []) =
    if is_escape c (byte_at after 0) (byte_at after 1) then none else some (c ∷ [])
uri_unescape after (c ∷ d ∷ []) =
    let plain = Option.map (◌∷◌ c) (uri_unescape after (d ∷ [])) in
    if is_escape c d (byte_at after 0) then none else plain
uri_unescape after (c ∷ d ∷ e ∷ cs) =
    let escaped = Option.map (◌∷◌ (hex_pair d e)) (uri_unescape after cs) in
    let plain = Option.map (◌∷◌ c) (uri_unescape after (d ∷ e ∷ cs)) in
    if is_escape c d e then escaped else plain
