-- ===== src/Http/Request/Message.antt =====
-- An independent description of HTTP/1.1 requests: their parts, the text that a client sends for
-- them, and when the parts fit that text.
use network_learn.Base.{
  ℕ, ◌<◌, ◌≡◌, Bool, false, List, [], ◌∷◌, ◌++◌, some, length, get_or, All, Bytes,
}
use network_learn.Util.Refer.{byte_at}
use network_learn.Util.HeaderMap.{HeaderMap, emplace}
use network_learn.Http.Url.{is_hex, uri_unescape}
use network_learn.Http.Request.{is_space, is_uri_end, is_argument_end, is_return, is_colon}

pub record Message : Type 0 where
  pub method : Bytes
  pub path : Bytes
  pub uri : Bytes
  pub arguments : List Bytes
  pub version : Bytes
  pub lines : List (Bytes × Bytes)
  pub content : Bytes

-- The arguments, each closed by `&` or by the last space, in front of `tail`.
abbrev pub render_arguments : Bytes → List Bytes → Bytes → Bytes
render_arguments a [] tail = a ++ b' ' ∷ tail
render_arguments a (b ∷ bs) tail = a ++ b'&' ∷ render_arguments b bs tail

abbrev pub render_target : Bytes → List Bytes → Bytes → Bytes
render_target path [] tail = path ++ b' ' ∷ tail
render_target path (a ∷ as') tail = path ++ b'?' ∷ render_arguments a as' tail

abbrev pub render_lines : List (Bytes × Bytes) → Bytes → Bytes
render_lines [] tail = b'\r' ∷ b'\n' ∷ tail
render_lines ((key, value) ∷ ls) tail =
    key ++ b':' ∷ b' ' ∷ (value ++ b'\r' ∷ b'\n' ∷ render_lines ls tail)

abbrev pub render_version : Message → Bytes
render_version m = m.version ++ b'\r' ∷ b'\n' ∷ render_lines m.lines m.content

abbrev pub render : Message → Bytes
render m = m.method ++ b' ' ∷ render_target m.path m.arguments (render_version m)

-- No byte of the text stops at `limit`.
abbrev pub Clear : (ℕ → Bool) → Bytes → Type 0
Clear limit = All (λ c. limit c ≡ false)

-- A header line that the text keeps: a name with no colon that does not begin like the empty line,
-- and a value with no carriage return that does not begin with a space.
pub record IsLine (line : Bytes × Bytes) : Type 0 where
  pub key_clear : Clear is_colon line.0
  pub key_start : is_return (get_or line.0 0 b':') ≡ false
  pub value_clear : Clear is_return line.1
  pub value_start : is_space (get_or line.1 0 b'\r') ≡ false

pub record IsWellFormed (m : Message) : Type 0 where
  pub method_clear : Clear is_space m.method
  pub method_size : length m.method < 8
  pub path_clear : Clear is_uri_end m.path
  pub decodes :
      (after : Bytes) → is_hex (byte_at after 0) ≡ false → uri_unescape after m.path ≡ some m.uri
  pub arguments_clear : All (Clear is_argument_end) m.arguments
  pub version_clear : Clear is_return m.version
  pub version_size : length m.version < 10
  pub lines_fit : All IsLine m.lines

-- The header table that the lines stand for: the first line of a name counts.
abbrev pub collect : List (Bytes × Bytes) → HeaderMap Bytes Bytes → HeaderMap Bytes Bytes
collect [] m = m
collect ((key, value) ∷ ls) m = collect ls (emplace (λ t. t) key value m)
