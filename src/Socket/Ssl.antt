-- ===== src/Socket/Ssl.antt =====
-- `read`, `write` and `sendFile` of `SslSocket` of core/sslsocket.cpp, on a connection whose handshake is
-- done. The library answers from a script; where it has no more, it asks to be called again later.
pub mod Context
pub mod Loops
pub mod Sending
use network_learn.Base.{
  ℕ, min, ◌-◌, ◌+◌, ◌^◌, ◌%◌, ltb, Bool, true, false, ◌||◌, List, [], ◌∷◌, ◌++◌, Option, none, some,
  ◌==◌, if◌then◌else◌, length, take, drop, Bytes,
}
use network_learn.Socket.{Socket}
use network_learn.Socket.Tcp.{WriteAnswer, takes, write_fails, sub_size}

-- `count > INT32_MAX ? INT32_MAX : int(count)`.
abbrev pub int_size : ℕ → ℕ
int_size count = min (2 ^ 31 - 1) count

-- An answer of `SSL_read`: the bytes that it has, of which it writes no more than it is asked for; or a
-- result of 0 or, where `is_error`, -1.
pub data SslAnswer : Type 0 where
  decrypts : Bytes → SslAnswer
  stops : Bool → SslAnswer

-- `ret <= 0` as the result of `read`.
pub stopped : Bool → Option Bytes
stopped true = none
stopped false = some []

-- What a call leaves: its result, with the bytes in the buffer for a count, the bytes that were
-- written from `buf` on, and the answers that it has not taken.
pub record SslLeft : Type 0 where
  pub result : Option Bytes
  pub written : Bytes
  pub script : List SslAnswer

-- The loop of `read`, with the bytes from `buf` on; each call of the library asks for `count` bytes.
pub ssl_read_loop : ℕ → List SslAnswer → Bytes → ℕ → SslLeft
unfolding stopped sub_size
ssl_read_loop count [] got left_size = record { result = none; written = got; script = [] }
ssl_read_loop count (stops is_error ∷ script) got left_size = record {
  result = stopped is_error;
  written = got;
  script = script;
}
ssl_read_loop count (decrypts [] ∷ script) got left_size = record {
  result = some [];
  written = got;
  script = script;
}
ssl_read_loop count (decrypts (b ∷ bs) ∷ script) got left_size =
    let part = take (int_size count) (b ∷ bs) in
    let rest_size = sub_size left_size (length part) in
    let more = ssl_read_loop count script (got ++ part) rest_size in
    if rest_size == 0
    then record { result = some (got ++ part); written = got ++ part; script = script }
    else more

-- `read`, on a buffer that is not null.
unfoldable pub ssl_read : Bool → ℕ → List SslAnswer → SslLeft
unfolding ssl_read_loop
ssl_read is_listener count script =
    if is_listener || count == 0
    then record { result = none; written = []; script = script }
    else ssl_read_loop count script [] count

-- What `write` leaves: its result, where `none` is a negative one, the bytes that the library has taken,
-- and the answers that it has not given. An answer of `SSL_write` is how many bytes it has room for: it takes no more than it is asked to.
pub record SslSent : Type 0 where
  pub result : Option ℕ
  pub bytes : Bytes
  pub script : List WriteAnswer

-- `memory` begins at `buf` and goes on behind the buffer, as the loop asks for `count` bytes each time.
pub ssl_write_loop : Bytes → ℕ → List WriteAnswer → Bytes → ℕ → SslSent
unfolding sub_size
ssl_write_loop memory count [] sent left_size = record { result = none; bytes = sent; script = [] }
ssl_write_loop memory count (write_fails e ∷ script) sent left_size = record {
  result = none;
  bytes = sent;
  script = script;
}
ssl_write_loop memory count (takes room ∷ script) sent left_size =
    let n = min room (int_size count) in
    let rest_size = sub_size left_size n in
    let sent' = sent ++ take n memory in
    let more = ssl_write_loop (drop n memory) count script sent' rest_size in
    if n == 0
    then record { result = some 0; bytes = sent; script = script }
    else if rest_size == 0
    then record { result = some count; bytes = sent'; script = script }
    else more

unfoldable pub ssl_write : Bool → Bytes → ℕ → List WriteAnswer → SslSent
unfolding ssl_write_loop
ssl_write is_listener memory count script =
    if is_listener || count == 0
    then record { result = none; bytes = []; script = script }
    else ssl_write_loop memory count script [] count

-- A `ssize_t` as an `int`.
unfoldable pub int_of : Option ℕ → Option ℕ
int_of none = none
int_of (some n) = if ltb (n % 2 ^ 32) (2 ^ 31) then some (n % 2 ^ 32) else none

-- `sendFile`: `mmap` gives what the file holds from `offset` on, or fails. Its result is not looked at, so
-- the library is called with what is no address of the process: that is `none`, unless `write` returns
-- before.
unfoldable pub ssl_send_file : Bool → Option Bytes → ℕ → List WriteAnswer → Option SslSent
unfolding ssl_write int_of
ssl_send_file is_listener none count script =
    if is_listener || count == 0
    then some (record { result = none; bytes = []; script = script })
    else none
ssl_send_file is_listener (some content) count script =
    let r = ssl_write is_listener content count script in
    some (record r { result = int_of r.result })
