-- ===== src/Socket/Tcp/Writing.antt =====
-- What `TcpSocket::write` makes of the answers of the system.
use mathlib.Core.List.{append_assoc, append-nil}
use network_learn.Base.{
  ℕ, min, zero, suc, ◌+◌, ◌-◌, ◌^◌, ◌≡◌, ◌≢◌, ◌<◌, ◌≤◌, refl, ◌∙◌, false, List, [], ◌∷◌, ◌++◌, some,
  arith, ◌==◌, take, drop, take++take, drop-drop, All, Bytes,
}
use network_learn.Socket.Tcp.{
  WriteAnswer, takes, write_fails, eintr, sub_size, sub_size_lem, sub_size_wraps, write_loop,
  tcp_write,
}

-- How many bytes a script takes, and the answers that let the loop of `write` go on.
abbrev pub taken : List WriteAnswer → ℕ
taken [] = 0
taken (takes n ∷ script) = n + taken script
taken (write_fails e ∷ script) = taken script

abbrev pub IsTaking : WriteAnswer → Type 0
IsTaking (takes zero) = ⊥
IsTaking (takes (suc n)) = Unit
IsTaking (write_fails e) = e ≡ eintr

write_some :
    (memory : Bytes) (count n : ℕ) (script : List WriteAnswer) (errno : ℕ) (sent : Bytes)
    (left_size : ℕ)
    → suc n < left_size
    → left_size ≤ count
    → left_size < 2 ^ 64
    → write_loop memory count (takes (suc n) ∷ script) errno sent left_size
      ≡ write_loop
          (drop (suc n) memory)
          count
          script
          errno
          (sent ++ take (suc n) memory)
          (left_size - suc n)
unfolding write_loop
write_some memory count n script errno sent left_size short within size =
    let fits : min (suc n) count ≡ suc n = omega (arith, short, within) in
    let less = sub_size_lem left_size (suc n) (omega (arith, short)) size in
    let more : (left_size - suc n == 0) ≡ false = ground arith in
    let some_taken : (suc n == 0) ≡ false = ground arith in
    rw (write_loop, fits, less, some_taken, more) refl

write_going :
    (memory : Bytes) (count : ℕ) (script rest : List WriteAnswer) (errno : ℕ) (sent : Bytes)
    (left_size : ℕ)
    → All IsTaking script
    → taken script < left_size
    → left_size ≤ count
    → left_size < 2 ^ 64
    → (errno' : ℕ) × (write_loop memory count (script ++ rest) errno sent left_size
        ≡ write_loop
            (drop (taken script) memory)
            count
            rest
            errno'
            (sent ++ take (taken script) memory)
            (left_size - taken script))
unfolding write_loop
write_going memory count [] rest errno sent left_size h short within size =
    let all : left_size - 0 ≡ left_size = omega arith in (errno, rw (append-nil sent, all) refl)
write_going memory count (write_fails e ∷ script) rest errno sent left_size h short within size =
    let (errno', again) =
      write_going memory count script rest e sent left_size h.1 short within size in
    (errno', rw (write_loop, h.0) (rw h.0 at again))
write_going memory count (takes zero ∷ script) rest errno sent left_size h short within size =
    absurd h.0
write_going memory count (takes (suc n) ∷ script) rest errno sent left_size h short within size =
    let (errno', more) =
      write_going (drop (suc n) memory) count script rest errno (sent ++ take (suc n) memory)
        (left_size - suc n) h.1 (omega (arith, short)) (omega (arith, within))
        (omega (arith, size)) in
    let sizes : left_size - suc n - taken script ≡ left_size - (suc n + taken script) =
      omega arith in
    (
      errno',
      write_some memory count n (script ++ rest) errno sent left_size (omega (arith, short)) within
            size
          ∙ more
          ∙ rw
              (
                append_assoc sent (take (suc n) memory) (take (taken script) (drop (suc n) memory)),
                take++take (suc n) (taken script) memory,
                ← drop-drop (suc n) (taken script) memory,
                sizes,
              )
              refl,
    )

-- On a socket that is no listener, and a buffer below 2^64 bytes: where the system takes less
-- than the buffer in all, in parts of any size and with interrupted calls among them, and then
-- fails otherwise, `write` returns what was taken, and exactly that many bytes from the start of
-- the buffer were sent.
pub tcp_write-taken :
    (memory : Bytes) (count : ℕ) (script rest : List WriteAnswer) (errno e : ℕ)
    → count < 2 ^ 64
    → All IsTaking script
    → taken script < count
    → e ≢ eintr
    → tcp_write false memory count (script ++ write_fails e ∷ rest) errno
      ≡ some (record {
        result = some (taken script);
        errno = e;
        bytes = take (taken script) memory;
        script = rest;
      })
unfolding tcp_write write_loop
tcp_write-taken memory count script rest errno e size h short stops =
    let (errno', going) =
      write_going memory count script (write_fails e ∷ rest) errno [] count h short (omega arith)
        size in
    let room : (count == 0) ≡ false = ground arith in
    let other : (e == eintr) ≡ false = ground arith in
    let some_left : count - taken script ≤ count = omega arith in
    let back : count - (count - taken script) ≡ taken script = omega (arith, short) in
    let number = sub_size_lem count (count - taken script) some_left size ∙ back in
    rw room (going ∙ rw (write_loop, other, number) refl)

-- On a socket that is no listener, and a buffer below 2^64 bytes: where the system takes the
-- buffer to its last byte and no further, `write` returns its size, and exactly the buffer was
-- sent.
tcp_write-full :
    (memory : Bytes) (count : ℕ) (script rest : List WriteAnswer) (n errno : ℕ)
    → count < 2 ^ 64
    → All IsTaking script
    → taken script + suc n ≡ count
    → (errno' : ℕ) × (tcp_write false memory count (script ++ takes (suc n) ∷ rest) errno
        ≡ some (record {
          result = some count;
          errno = errno';
          bytes = take count memory;
          script = rest;
        }))
unfolding tcp_write write_loop
tcp_write-full memory count script rest n errno size h fills =
    let short : taken script < count = omega (arith, fills) in
    let (errno', going) =
      write_going memory count script (takes (suc n) ∷ rest) errno [] count h short (omega arith)
        size in
    let room : (count == 0) ≡ false = ground arith in
    let some_taken : (suc n == 0) ≡ false = ground arith in
    let left_size = count - taken script in
    let exact : left_size - suc n ≡ 0 = omega (arith, fills) in
    let none_left : sub_size left_size (suc n) ≡ 0 =
      sub_size_lem left_size (suc n) (omega (arith, fills)) (omega (arith, size)) ∙ exact in
    let all = take++take (taken script) (suc n) memory in
    let fits : min (suc n) count ≡ suc n = omega (arith, fills) in
    (errno', rw room (going ∙ rw (write_loop, fits, none_left, some_taken, all, fills) refl))

tcp_write_begins :
    (memory : Bytes) (count : ℕ) (script : List WriteAnswer) (errno : ℕ)
    → (count == 0) ≡ false
    → tcp_write false memory count script errno ≡ write_loop memory count script errno [] count
unfolding tcp_write
tcp_write_begins memory count script errno room = rw room refl

-- After a part of a buffer below 2^63 bytes the loop of `write` still asks the system for `count`
-- bytes. Where the system takes them and then fails, other than by an interrupt, as many bytes
-- from behind the buffer were sent too, and the result is larger than the buffer.
pub tcp_write_overrun :
    (memory : Bytes) (count k : ℕ) (rest : List WriteAnswer) (errno e : ℕ)
    → count < 2 ^ 63
    → suc k < count
    → e ≢ eintr
    → tcp_write false memory count (takes (suc k) ∷ takes count ∷ write_fails e ∷ rest) errno
      ≡ some (record {
        result = some (suc k + count);
        errno = e;
        bytes = take (suc k + count) memory;
        script = rest;
      })
unfolding write_loop
tcp_write_overrun memory count k rest errno e size part stops =
    let room : (count == 0) ≡ false = ground arith in
    let other : (e == eintr) ≡ false = ground arith in
    let wide : count < 2 ^ 64 = omega (arith, size) in
    let asked : min count count ≡ count = omega arith in
    let left_size = count - suc k in
    let huge : sub_size left_size count ≡ 2 ^ 64 - suc k =
      sub_size_wraps left_size count (omega (arith, part)) wide ∙ omega (arith, part) in
    let more : (2 ^ 64 - suc k == 0) ≡ false = ground arith in
    let beyond : sub_size count (2 ^ 64 - suc k) ≡ suc k + count =
      sub_size_wraps count (2 ^ 64 - suc k) (omega (arith, size, part)) (omega arith)
      ∙ omega (arith, size, part) in
    let all = take++take (suc k) count memory in
    tcp_write_begins memory count (takes (suc k) ∷ takes count ∷ write_fails e ∷ rest) errno room
    ∙ write_some memory count k (takes count ∷ write_fails e ∷ rest) errno [] count part
        (omega arith) wide
    ∙ rw (write_loop, asked, huge, room, more, other, beyond, all) refl
