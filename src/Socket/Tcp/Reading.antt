-- ===== src/Socket/Tcp/Reading.antt =====
-- What `TcpSocket::read` makes of the answers of the system.
use mathlib.Core.List.{append_assoc, append-nil}
use network_learn.Base.{
  ℕ, take_all, ◌+◌, ◌-◌, ◌^◌, ◌≡◌, ◌≢◌, ◌<◌, ◌≤◌, refl, ◌∙◌, false, List, [], ◌∷◌, ◌++◌, some,
  arith, ◌==◌, if◌then◌else◌, length, length-append, All, Bytes,
}
use network_learn.Socket.Tcp.{
  ReadAnswer, gives, read_fails, eintr, sub_size, sub_size_lem, read_loop, tcp_read,
}

-- The bytes of a script, and the answers that let the loop go on.
abbrev pub pieces : List ReadAnswer → Bytes
pieces [] = []
pieces (gives bytes ∷ script) = bytes ++ pieces script
pieces (read_fails e ∷ script) = pieces script

abbrev pub IsGoing : ReadAnswer → Type 0
IsGoing (gives []) = ⊥
IsGoing (gives (b ∷ bs)) = Unit
IsGoing (read_fails e) = e ≡ eintr

-- One answer with bytes that do not fill the buffer.
read_some :
    (count : ℕ) (b : ℕ) (bs : Bytes) (script : List ReadAnswer) (errno : ℕ) (got : Bytes)
    (left_size : ℕ)
    → length (b ∷ bs) < left_size
    → left_size < 2 ^ 64
    → read_loop count (gives (b ∷ bs) ∷ script) errno got left_size
      ≡ read_loop count script errno (got ++ b ∷ bs) (left_size - length (b ∷ bs))
unfolding read_loop
read_some count b bs script errno got left_size short size =
    let less = sub_size_lem left_size (length (b ∷ bs)) (omega (arith, short)) size in
    let more : (left_size - length (b ∷ bs) == 0) ≡ false = ground arith in
    let all = take_all left_size (b ∷ bs) (omega (arith, short)) in
    rw (read_loop, all, less, more) refl

-- Where the answers go on and do not fill the buffer, the loop comes to what follows them with their
-- bytes in the buffer.
read_going :
    (count : ℕ) (script rest : List ReadAnswer) (errno : ℕ) (got : Bytes) (left_size : ℕ)
    → All IsGoing script
    → length (pieces script) < left_size
    → left_size < 2 ^ 64
    → (errno' : ℕ) × (read_loop count (script ++ rest) errno got left_size
        ≡ read_loop count rest errno' (got ++ pieces script) (left_size - length (pieces script)))
unfolding read_loop
read_going count [] rest errno got left_size h short size =
    let all : left_size - 0 ≡ left_size = omega arith in (errno, rw (append-nil got, all) refl)
read_going count (read_fails e ∷ script) rest errno got left_size h short size =
    let (errno', again) = read_going count script rest e got left_size h.1 short size in
    (errno', rw (read_loop, h.0) (rw h.0 at again))
read_going count (gives [] ∷ script) rest errno got left_size h short size = absurd h.0
read_going count (gives (b ∷ bs) ∷ script) rest errno got left_size h short size =
    let total = length-append (b ∷ bs) (pieces script) in
    let (errno', more) =
      read_going count script rest errno (got ++ b ∷ bs) (left_size - length (b ∷ bs)) h.1
        (omega (arith, total, short)) (omega (arith, size)) in
    let sizes : left_size - length (b ∷ bs) - length (pieces script)
        ≡ left_size - length ((b ∷ bs) ++ pieces script) =
      omega (arith, total) in
    (
      errno',
      read_some count b bs (script ++ rest) errno got left_size (omega (arith, total, short)) size
          ∙ more
          ∙ rw (append_assoc got (b ∷ bs) (pieces script), sizes) refl,
    )

-- On a socket that is no listener, and a buffer below 2^64 bytes: where the system gives fewer
-- bytes than the buffer has room for, in pieces of any size and with interrupted calls among
-- them, and then fails otherwise, `read` returns their number, has put exactly them into the
-- buffer, and has called the system no more.
pub tcp_read-pieces :
    (count : ℕ) (script rest : List ReadAnswer) (errno e : ℕ)
    → count < 2 ^ 64
    → All IsGoing script
    → length (pieces script) < count
    → e ≢ eintr
    → tcp_read false count (script ++ read_fails e ∷ rest) errno
      ≡ some (record {
        result = some (length (pieces script));
        errno = e;
        bytes = pieces script;
        script = rest;
      })
unfolding tcp_read read_loop
tcp_read-pieces count script rest errno e size h short stops =
    let (errno', going) =
      read_going count script (read_fails e ∷ rest) errno [] count h short size in
    let room : (count == 0) ≡ false = ground arith in
    let other : (e == eintr) ≡ false = ground arith in
    let some_left : count - length (pieces script) ≤ count = omega arith in
    let back : count - (count - length (pieces script)) ≡ length (pieces script) =
      omega (arith, short) in
    let number = sub_size_lem count (count - length (pieces script)) some_left size ∙ back in
    rw room (going ∙ rw (read_loop, other, number) refl)

-- On a socket that is no listener, and a buffer below 2^64 bytes: where pieces of any size, with
-- interrupted calls among them, fill the buffer exactly, `read` returns its size, has put exactly
-- them into it, and has called the system no more.
tcp_read-full :
    (count : ℕ) (script rest : List ReadAnswer) (b : ℕ) (bs : Bytes) (errno : ℕ)
    → count < 2 ^ 64
    → All IsGoing script
    → length (pieces script) + length (b ∷ bs) ≡ count
    → (errno' : ℕ) × (tcp_read false count (script ++ gives (b ∷ bs) ∷ rest) errno
        ≡ some (record {
          result = some count;
          errno = errno';
          bytes = pieces script ++ b ∷ bs;
          script = rest;
        }))
unfolding tcp_read read_loop
tcp_read-full count script rest b bs errno size h fills =
    let short : length (pieces script) < count = omega (arith, fills) in
    let (errno', going) =
      read_going count script (gives (b ∷ bs) ∷ rest) errno [] count h short size in
    let room : (count == 0) ≡ false = ground arith in
    let left_size = count - length (pieces script) in
    let exact : left_size - length (b ∷ bs) ≡ 0 = omega (arith, fills) in
    let none_left : sub_size left_size (length (b ∷ bs)) ≡ 0 =
      sub_size_lem left_size (length (b ∷ bs)) (omega (arith, fills)) (omega (arith, size))
      ∙ exact in
    let all = take_all left_size (b ∷ bs) (omega (arith, fills)) in
    (errno', rw room (going ∙ rw (read_loop, all, none_left) refl))

-- At the end of the stream, with room below 2^64 bytes, `read` returns 0, except where the last
-- call of the system that failed was interrupted: then it asks again, as often as the system says
-- that the stream has ended.
tcp_read-end :
    (count : ℕ) (errno : ℕ) (rest : List ReadAnswer)
    → 0 < count
    → count < 2 ^ 64
    → tcp_read false count (gives [] ∷ rest) errno ≡ (
        if errno == eintr
        then tcp_read false count rest errno
        else some (record { result = some 0; errno = errno; bytes = []; script = rest }))
unfolding tcp_read read_loop
tcp_read-end count errno rest h size =
    let room : (count == 0) ≡ false = ground arith in
    let none_read : sub_size count count ≡ 0 =
      sub_size_lem count count (omega arith) size ∙ omega arith in
    rw (room, read_loop, none_read) refl
