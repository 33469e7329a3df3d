-- ===== src/Util/Stream.antt =====
-- The `std::istream`s that http/httpresponse.cpp and abstract/abstractsocket.cpp use, as the
-- language's library documents them. A stream comes with `eofbit` clear.
use network_learn.Base.{
  ℕ, ◌+◌, ◌≡◌, Bool, true, false, ◌||◌, [], Option, none, some, ltb, if◌then◌else◌, length, take,
  drop, Bytes,
}

-- A `std::istream`: what it holds, the position, and the bits `badbit` and `failbit`.
pub record Stream : Type 0 where
  pub content : Bytes
  pub position : ℕ
  pub is_bad : Bool
  pub is_failed : Bool

-- `tellg`: `none` is the position -1 of a failed stream.
unfoldable pub tellg : Stream → Option ℕ
tellg s = if s.is_bad || s.is_failed then none else some s.position

-- `seekg(0, std::ios::end)` and `seekg(start)`, which do nothing on a failed stream.
unfoldable pub seek_end : Stream → Stream
seek_end s = if s.is_bad || s.is_failed then s else record s { position = length s.content }

unfoldable pub seek_to : Option ℕ → Stream → Stream
seek_to none s = s
seek_to (some start) s = if s.is_bad || s.is_failed then s else record s { position = start }

-- `read(buffer, n)`: the bytes, `gcount()` of them, the stream, and `eofbit`. Fewer bytes than asked
-- set `eofbit` and `failbit`. On a stream that has failed nothing is read.
unfoldable pub read_chunk : ℕ → Stream → Bytes × (Stream × Bool)
read_chunk n s =
    let rest = drop s.position s.content in
    if s.is_bad || s.is_failed
    then ([], (record s { is_failed = true }, false))
    else if ltb (length rest) n
    then (rest, (record s { position = length s.content; is_failed = true }, true))
    else (take n rest, (record s { position = s.position + n }, false))

-- What is left of a stream.
abbrev pub rest : Stream → Bytes
rest s = drop s.position s.content

abbrev pub IsGood : Stream → Type 0
IsGood s = (s.is_bad ≡ false) × (s.is_failed ≡ false)
