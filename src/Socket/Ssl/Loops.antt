-- ===== src/Socket/Ssl/Loops.antt =====
-- What becomes of the bytes that the library decrypts.
use network_learn.Base.{
  ℕ, take_all, take, suc, ◌+◌, ◌-◌, ◌^◌, ◌≡◌, ◌<◌, ◌≤◌, refl, ap, ◌∙◌, Bool, true, false, List, [],
  ◌∷◌, ◌++◌, some, arith, ◌==◌, length, length-append, Bytes,
}
use network_learn.Socket.{Socket, socket_buf_size, read_all}
use network_learn.Socket.Tcp.{sub_size, sub_size_lem, sub_size_wraps}
use network_learn.Socket.Ssl.{
  SslAnswer, decrypts, stops, stopped, int_size, ssl_read_loop, ssl_read,
}

ssl_read_begins :
    (count : ℕ) (script : List SslAnswer)
    → (count == 0) ≡ false
    → ssl_read false count script ≡ ssl_read_loop count script [] count
unfolding ssl_read
ssl_read_begins count script room = rw room refl

-- A call that asks for `count` bytes, on a buffer below 2^31 bytes, and has no more to give.
all_given :
    (count : ℕ) (bs : Bytes) → length bs ≤ count → count < 2 ^ 31 → take (int_size count) bs ≡ bs
all_given count bs fits size = take_all (int_size count) bs (omega (arith, fits, size))

-- Bytes that fill the buffer exactly are the result.
pub ssl_read-full :
    (count b : ℕ) (bs : Bytes) (script : List SslAnswer)
    → length (b ∷ bs) ≡ count
    → count < 2 ^ 31
    → ssl_read false count (decrypts (b ∷ bs) ∷ script)
      ≡ record { result = some (b ∷ bs); written = b ∷ bs; script = script }
unfolding ssl_read_loop
ssl_read-full count b bs script fills size =
    let room : (count == 0) ≡ false = ground arith in
    let none_left : sub_size count (length (b ∷ bs)) ≡ 0 =
      sub_size_lem count (length (b ∷ bs)) (omega (arith, fills)) (omega (arith, size))
      ∙ omega (arith, fills) in
    ssl_read_begins count (decrypts (b ∷ bs) ∷ script) room
    ∙ rw (ssl_read_loop, all_given count (b ∷ bs) (omega (arith, fills)) size, none_left) refl

-- Fewer bytes are written to the buffer, and then dropped: the loop calls the library again, and its
-- answer that there is no more is the result.
pub ssl_read-dropped :
    (count b : ℕ) (bs : Bytes) (is_error : Bool) (script : List SslAnswer)
    → length (b ∷ bs) < count
    → count < 2 ^ 31
    → ssl_read false count (decrypts (b ∷ bs) ∷ stops is_error ∷ script)
      ≡ record { result = stopped is_error; written = b ∷ bs; script = script }
unfolding ssl_read_loop
ssl_read-dropped count b bs is_error script short size =
    let room : (count == 0) ≡ false = ground arith in
    let less = sub_size_lem count (length (b ∷ bs)) (omega (arith, short)) (omega (arith, size)) in
    let more : (count - length (b ∷ bs) == 0) ≡ false = ground arith in
    ssl_read_begins count (decrypts (b ∷ bs) ∷ stops is_error ∷ script) room
    ∙ rw (ssl_read_loop, all_given count (b ∷ bs) (omega (arith, short)) size, less, more) refl

-- On a socket whose `read` is `SslSocket::read`, `AbstractSocket::read` loses whatever the client has
-- sent, if it is less than a whole buffer and nothing more has arrived.
read_all-lost :
    (socket : Socket (List SslAnswer)) (fuel : ℕ) (buffer : Bytes) (b : ℕ) (bs : Bytes)
    (script : List SslAnswer)
    → ((count : ℕ) (s : List SslAnswer)
        → socket.read count s ≡ ((ssl_read false count s).result, (ssl_read false count s).script))
    → length (b ∷ bs) < socket_buf_size
    → read_all socket (suc fuel) buffer (decrypts (b ∷ bs) ∷ stops true ∷ script)
      ≡ some (buffer, script)
unfolding read_all stopped
read_all-lost socket fuel buffer b bs script reads short =
    let dropped = ssl_read-dropped socket_buf_size b bs true script short (omega arith) in
    let e = reads socket_buf_size (decrypts (b ∷ bs) ∷ stops true ∷ script) in
    rw (read_all, e, dropped, stopped, e, dropped) refl

-- After a part of a buffer below 2^31 bytes the loop of `SslSocket::read` still asks the library for
-- `count` bytes: where the library has more than the buffer has room for, up to `count`, it is written
-- over the end of the buffer.
pub ssl_read_overflow :
    (count b : ℕ) (bs : Bytes) (c : ℕ) (cs : Bytes) (is_error : Bool) (script : List SslAnswer)
    → count < 2 ^ 31
    → length (b ∷ bs) < count
    → length (c ∷ cs) ≤ count
    → count < length (b ∷ bs) + length (c ∷ cs)
    → let r =
        ssl_read false count (decrypts (b ∷ bs) ∷ decrypts (c ∷ cs) ∷ stops is_error ∷ script) in
      (count < length r.written) × (r.written ≡ (b ∷ bs) ++ c ∷ cs)
unfolding ssl_read_loop
ssl_read_overflow count b bs c cs is_error script size short fits over =
    let room : (count == 0) ≡ false = ground arith in
    let less = sub_size_lem count (length (b ∷ bs)) (omega (arith, short)) (omega (arith, size)) in
    let more : (count - length (b ∷ bs) == 0) ≡ false = ground arith in
    let left_size = count - length (b ∷ bs) in
    let huge =
      sub_size_wraps left_size (length (c ∷ cs)) (omega (arith, over, short))
        (omega (arith, fits, size)) in
    let still : (left_size + 2 ^ 64 - length (c ∷ cs) == 0) ≡ false = ground arith in
    let written : (ssl_read false count
          (decrypts (b ∷ bs) ∷ decrypts (c ∷ cs) ∷ stops is_error ∷ script)).written
        ≡ (b ∷ bs) ++ c ∷ cs =
      ap (λ r. r.written)
        (ssl_read_begins count (decrypts (b ∷ bs) ∷ decrypts (c ∷ cs) ∷ stops is_error ∷ script)
          room)
      ∙ rw
          (
            ssl_read_loop,
            all_given count (b ∷ bs) (omega (arith, short)) size,
            all_given count (c ∷ cs) fits size,
            less,
            more,
            huge,
            still,
          )
          refl in
    (rw (written, length-append (b ∷ bs) (c ∷ cs)) over, written)
