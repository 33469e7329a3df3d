-- ===== src/Socket.antt =====
-- `AbstractSocket` of abstract/abstractsocket.h and abstract/abstractsocket.cpp: its virtual
-- functions as an interface, and the two loops over them. `S` is the state of the socket behind them.
pub mod Transfer
pub mod Tcp
pub mod Ssl
pub mod Descriptor
use network_learn.Base.{
  ℕ, zero, suc, ◌-◌, ◌^◌, ◌+◌, ◌≡◌, ◌<◌, Bool, true, false, List, [], ◌∷◌, ◌++◌, Option, none, some,
  ◌==◌, if◌then◌else◌, length, take, drop, Bytes,
}
use network_learn.Util.Stream.{Stream, read_chunk}

-- A result is `none` for -1. `read` has the bytes that it put into the buffer. `send_file` takes the
-- file, the offset and the count.
pub record Socket (S : Type 0) : Type 0 where
  pub read : ℕ → S → Option Bytes × S
  pub write : Bytes → S → Option ℕ × S
  pub send_file : ℕ → ℕ → ℕ → S → Option ℕ × S

-- What a connection promises while the peer and the system keep up: `read` gives the bytes that
-- have arrived, up to the size of the buffer; `write` takes all of its bytes, and refuses an empty
-- buffer.
pub record Delivers {S : Type 0} (socket : Socket S) : Type 0 where
  pub arrived : S → Bytes
  pub sent : S → Bytes
  pub read_result : (n : ℕ) (s : S) → (socket.read n s).0 ≡ some (take n (arrived s))
  pub read_left : (n : ℕ) (s : S) → arrived (socket.read n s).1 ≡ drop n (arrived s)
  pub read_sent : (n : ℕ) (s : S) → sent (socket.read n s).1 ≡ sent s
  pub write_result :
      (b : ℕ) (bs : Bytes) (s : S) → (socket.write (b ∷ bs) s).0 ≡ some (length (b ∷ bs))
  pub write_sent : (bs : Bytes) (s : S) → sent (socket.write bs s).1 ≡ sent s ++ bs
  pub write_arrived : (bs : Bytes) (s : S) → arrived (socket.write bs s).1 ≡ arrived s
  pub write_none : (s : S) → (socket.write [] s).0 ≡ none

abbrev pub socket_buf_size : ℕ
socket_buf_size = 4096

-- The comparison of a `ssize_t` with a `size_t`, where -1 is the largest.
unfoldable pub equals_size : Option ℕ → ℕ → Bool
equals_size none count = count == 2 ^ 64 - 1
equals_size (some n) count = n == count

module _ {S : Type 0} (socket : Socket S) where
  -- `read(std::string &)`; `none`: the fuel ran out.
  unfoldable pub read_all : ℕ → Bytes → S → Option (Bytes × S)
  read_all zero buffer s = none
  read_all (suc fuel) buffer s =
      let (result, s') = socket.read socket_buf_size s in
      elim result [
        | none ↦ some (buffer, s')
        | some bytes ↦
            let more = read_all fuel (buffer ++ bytes) s' in
            if length bytes == socket_buf_size then more else some (buffer ++ bytes, s')
      ]

  -- The loop of `sendStream` with `eof()`, and the stream and the socket that it leaves; `gcount()`
  -- is never negative, so -1 differs from it.
  unfoldable pub send_stream : ℕ → Bool → Stream → S → Option (Bool × (Stream × S))
  unfolding read_chunk
  send_stream fuel true stream s = some (true, (stream, s))
  send_stream zero false stream s = none
  send_stream (suc fuel) false stream s =
      let (chunk, (stream', eof)) = read_chunk socket_buf_size stream in
      let (result, s') = socket.write chunk s in
      elim result [
        | none ↦ some (false, (stream', s'))
        | some n ↦
            let more = send_stream fuel eof stream' s' in
            if n == length chunk then more else some (false, (stream', s'))
      ]
