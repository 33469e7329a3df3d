-- ===== src/Socket/Ssl/Sending.antt =====
-- What `SslSocket::write` and `SslSocket::sendFile` make of what the library takes.
use mathlib.Core.List.{append_assoc}
use network_learn.Base.{
  ℕ, min, zero, suc, ◌+◌, ◌-◌, ◌^◌, ◌%◌, ◌≡◌, ◌<◌, refl, ◌∙◌, false, List, [], ◌∷◌, ◌++◌, none,
  some, ltb, arith, ◌==◌, if◌then◌else◌, Bool-cases, inl, inr, take, drop, take++take, All, Bytes,
}
use network_learn.Socket.Tcp.{WriteAnswer, takes, write_fails, sub_size_lem}
use network_learn.Socket.Ssl.{int_size, ssl_write_loop, ssl_write, int_of, ssl_send_file}

-- An answer that takes some bytes.
abbrev pub IsPart : WriteAnswer → Type 0
IsPart (takes zero) = ⊥
IsPart (takes (suc n)) = Unit
IsPart (write_fails e) = ⊥

-- How many bytes the library takes where it is asked for `count` each time.
abbrev pub parts_taken : ℕ → List WriteAnswer → ℕ
parts_taken count [] = 0
parts_taken count (takes n ∷ script) = min n (int_size count) + parts_taken count script
parts_taken count (write_fails e ∷ script) = parts_taken count script

none_taken :
    (count : ℕ) (script : List WriteAnswer)
    → 0 < count
    → All IsPart script
    → parts_taken count script ≡ 0
    → script ≡ []
none_taken count [] room p e = refl
none_taken count (write_fails e' ∷ script) room p e = absurd p.0
none_taken count (takes zero ∷ script) room p e = absurd p.0
none_taken count (takes (suc n) ∷ script) room p e = absurd (omega (arith, e, room))

write_parts :
    (memory : Bytes) (count : ℕ) (script rest : List WriteAnswer) (sent : Bytes) (left_size : ℕ)
    → 0 < count
    → All IsPart script
    → parts_taken count script ≡ left_size
    → 0 < left_size
    → left_size < 2 ^ 64
    → ssl_write_loop memory count (script ++ rest) sent left_size
      ≡ record { result = some count; bytes = sent ++ take left_size memory; script = rest }
unfolding ssl_write_loop
write_parts memory count [] rest sent left_size room p e some_left size =
    absurd (omega (arith, e, some_left))
write_parts memory count (write_fails e' ∷ script) rest sent left_size room p e some_left size =
    absurd p.0
write_parts memory count (takes zero ∷ script) rest sent left_size room p e some_left size =
    absurd p.0
write_parts memory count (takes (suc n) ∷ script) rest sent left_size room p e some_left size =
    let part = min (suc n) (int_size count) in
    let positive : 0 < part = omega (arith, room) in
    let some_taken : (part == 0) ≡ false = ground (arith, positive) in
    let less = sub_size_lem left_size part (omega (arith, e)) size in
    elim (Bool-cases (left_size - part == 0)) [
      | inl over ↦
          let last : script ≡ [] = none_taken count script room p.1 (ground arith) in
          let size_is : left_size ≡ part = ground arith in
          rw (ssl_write_loop, some_taken, less, over, last, size_is) refl
      | inr goes_on ↦
          let back : part + (left_size - part) ≡ left_size = omega (arith, e) in
          let more =
            write_parts (drop part memory) count script rest (sent ++ take part memory)
              (left_size - part) room p.1 (omega (arith, e)) (ground arith) (omega (arith, size)) in
          rw (ssl_write_loop, less, some_taken, goes_on)
            (more
              ∙ rw
                  (
                    append_assoc sent (take part memory)
                        (take (left_size - part) (drop part memory)),
                    take++take part (left_size - part) memory,
                    back,
                  )
                  refl)
    ]

-- On a socket that is no listener, where `mmap` gives the file: where the library takes a part of it, of
-- less than 2^32 bytes, to its last byte and no further, in parts of any size, exactly the part was sent.
-- `sendFile` returns its size if that is below 2^31, and a negative number else.
pub ssl_send_file-taken :
    (content : Bytes) (count : ℕ) (script rest : List WriteAnswer)
    → All IsPart script
    → parts_taken count script ≡ count
    → 0 < count
    → count < 2 ^ 32
    → ssl_send_file false (some content) count (script ++ rest)
      ≡ some (record {
        result = if ltb count (2 ^ 31) then some count else none;
        bytes = take count content;
        script = rest;
      })
unfolding ssl_send_file ssl_write int_of
ssl_send_file-taken content count script rest p e some_left size =
    let room : (count == 0) ≡ false = ground arith in
    let whole =
      write_parts content count script rest [] count some_left p e some_left
        (omega (arith, size)) in
    let small : count % 2 ^ 32 ≡ count = omega (arith, size) in rw (room, whole, small) refl
