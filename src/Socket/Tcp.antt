-- ===== src/Socket/Tcp.antt =====
-- `TcpSocket` of core/tcpsocket.cpp, as it is built for Linux. The system answers its calls from a
-- script: each loop takes the answers one by one. `errno` is a state, which only a failing call sets.
pub mod Reading
pub mod Writing
pub mod Sending
use network_learn.Base.{
  ℕ, min, ◌+◌, ◌-◌, ◌≡◌, ◌≤◌, ◌<◌, arith, ◌%◌, ◌^◌, Bool, true, ◌||◌, List, [], ◌∷◌, ◌++◌, Option,
  none, some, ◌==◌, if◌then◌else◌, length, take, drop, Bytes,
}

abbrev pub eintr : ℕ
eintr = 4

-- An answer of `::read`: the bytes that it has, none at the end of the stream. It puts no more of them
-- into the buffer than it is asked for.
pub data ReadAnswer : Type 0 where
  gives : Bytes → ReadAnswer
  read_fails : ℕ → ReadAnswer

-- An answer of `::write` or `sendfile64`: how many bytes it has room for. It takes no more of them than
-- it is asked to.
pub data WriteAnswer : Type 0 where
  takes : ℕ → WriteAnswer
  write_fails : ℕ → WriteAnswer

-- A subtraction on `size_t`.
unfoldable pub sub_size : ℕ → ℕ → ℕ
sub_size a b = (a + 2 ^ 64 - b) % 2 ^ 64

pub sub_size_lem : (a b : ℕ) → b ≤ a → a < 2 ^ 64 → sub_size a b ≡ a - b
unfolding sub_size
sub_size_lem a b h k = omega (arith, h, k)

pub sub_size_wraps : (a b : ℕ) → a < b → b < 2 ^ 64 → sub_size a b ≡ a + 2 ^ 64 - b
unfolding sub_size
sub_size_wraps a b h k = omega (arith, h, k)

-- What a call leaves: its result, where `none` is -1, `errno`, the bytes that it has put into the
-- buffer or sent, and the answers that it has not taken.
pub record Left (A : Type 0) : Type 0 where
  pub result : Option ℕ
  pub errno : ℕ
  pub bytes : Bytes
  pub script : List A

-- The loop of `read`, with the bytes in the buffer and `leftSize`. `none`: no answer is left.
pub read_loop : ℕ → List ReadAnswer → ℕ → Bytes → ℕ → Option (Left ReadAnswer)
unfolding sub_size
read_loop count [] errno got left_size = none
read_loop count (read_fails e ∷ script) errno got left_size =
    let again = read_loop count script e got left_size in
    if e == eintr
    then again
    else some (record {
      result = some (sub_size count left_size);
      errno = e;
      bytes = got;
      script = script;
    })
read_loop count (gives [] ∷ script) errno got left_size =
    let again = read_loop count script errno got left_size in
    if errno == eintr
    then again
    else some (record {
      result = some (sub_size count left_size);
      errno = errno;
      bytes = got;
      script = script;
    })
read_loop count (gives (b ∷ bs) ∷ script) errno got left_size =
    let part = take left_size (b ∷ bs) in
    let rest_size = sub_size left_size (length part) in
    let more = read_loop count script errno (got ++ part) rest_size in
    if rest_size == 0
    then some (record { result = some count; errno = errno; bytes = got ++ part; script = script })
    else more

-- `read`, on a buffer that is not null.
unfoldable pub tcp_read : Bool → ℕ → List ReadAnswer → ℕ → Option (Left ReadAnswer)
unfolding read_loop
tcp_read is_listener count script errno =
    if is_listener || count == 0
    then some (record { result = none; errno = errno; bytes = []; script = script })
    else read_loop count script errno [] count

-- The loop of `write`. `memory` begins at `buf` and goes on behind the buffer; each call of the system
-- asks for `count` bytes from the place that the loop has reached.
pub write_loop : Bytes → ℕ → List WriteAnswer → ℕ → Bytes → ℕ → Option (Left WriteAnswer)
unfolding sub_size
write_loop memory count [] errno sent left_size = none
write_loop memory count (write_fails e ∷ script) errno sent left_size =
    let again = write_loop memory count script e sent left_size in
    if e == eintr
    then again
    else some (record {
      result = some (sub_size count left_size);
      errno = e;
      bytes = sent;
      script = script;
    })
write_loop memory count (takes room ∷ script) errno sent left_size =
    let n = min room count in
    let again = write_loop memory count script errno sent left_size in
    let rest_size = sub_size left_size n in
    let sent' = sent ++ take n memory in
    let more = write_loop (drop n memory) count script errno sent' rest_size in
    if n == 0
    then (if errno == eintr
        then again
        else some (record {
          result = some (sub_size count left_size);
          errno = errno;
          bytes = sent;
          script = script;
        }))
    else if rest_size == 0
    then some (record { result = some count; errno = errno; bytes = sent'; script = script })
    else more

unfoldable pub tcp_write : Bool → Bytes → ℕ → List WriteAnswer → ℕ → Option (Left WriteAnswer)
unfolding write_loop
tcp_write is_listener memory count script errno =
    if is_listener || count == 0
    then some (record { result = none; errno = errno; bytes = []; script = script })
    else write_loop memory count script errno [] count

-- The loop of `sendFile`: `content` is what the file holds from `offset` on, and each call of the
-- system asks for `leftSize` bytes.
pub send_file_loop : Bytes → ℕ → List WriteAnswer → ℕ → Bytes → ℕ → Option (Left WriteAnswer)
unfolding sub_size
send_file_loop content count [] errno sent left_size = none
send_file_loop content count (write_fails e ∷ script) errno sent left_size =
    some (record {
      result = some (sub_size count left_size);
      errno = e;
      bytes = sent;
      script = script;
    })
send_file_loop content count (takes room ∷ script) errno sent left_size =
    let n = min room left_size in
    let rest_size = sub_size left_size n in
    let sent' = sent ++ take n content in
    let more = send_file_loop (drop n content) count script errno sent' rest_size in
    if n == 0
    then some (record {
      result = some (sub_size count left_size);
      errno = errno;
      bytes = sent;
      script = script;
    })
    else if rest_size == 0
    then some (record { result = some count; errno = errno; bytes = sent'; script = script })
    else more

unfoldable pub tcp_send_file : Bytes → ℕ → List WriteAnswer → ℕ → Option (Left WriteAnswer)
unfolding send_file_loop
tcp_send_file content count script errno = send_file_loop content count script errno [] count
