-- ===== src/Tests/Sockets.antt =====
-- The TCP socket.
use network_learn.Base.{
  ℕ, ◌+◌, ◌^◌, ltb, if◌then◌else◌, ◌<◌, ◌≡◌, refl, true, none, false, List, [], ◌∷◌, ◌++◌, some,
  arith, length, take, Bytes, codes,
}
use network_learn.Socket.Ssl.{decrypts, stops, ssl_read, ssl_send_file}
use network_learn.Socket.Ssl.Sending.{ssl_send_file-taken}
use network_learn.Socket.Descriptor.{Handle, Address, is_valid_socket, destruct, listen_on}
use network_learn.Socket.Descriptor.Owned.{held, listen_on-held}
use network_learn.Socket.Ssl.Loops.{ssl_read_overflow}
use network_learn.Socket.Tcp.{
  ReadAnswer, gives, read_fails, WriteAnswer, takes, write_fails, tcp_read, tcp_write,
}
use network_learn.Socket.Tcp.Reading.{pieces, tcp_read-pieces}
use network_learn.Socket.Tcp.Writing.{taken, tcp_write-taken, tcp_write_overrun}

-- Two bytes, a call that is interrupted, and one byte.
abbrev trickle : List ReadAnswer
trickle = gives (codes "ab") ∷ read_fails 4 ∷ gives (codes "c") ∷ []

tcp_read-pieces_example :
    tcp_read false 8 (trickle ++ read_fails 11 ∷ []) 0
    ≡ some (record {
      result = some (length (pieces trickle));
      errno = 11;
      bytes = pieces trickle;
      script = [];
    })
tcp_read-pieces_example =
    tcp_read-pieces 8 trickle [] 0 11 (omega arith) (tt, (refl, (tt, tt))) (omega arith)
      (λ e. omega (arith, e))

-- Four bytes, and those behind them in memory.
abbrev memory : Bytes
memory = codes "bodyand more"

abbrev parts : List WriteAnswer
parts = takes 1 ∷ write_fails 4 ∷ takes 2 ∷ []

tcp_write-taken_example :
    tcp_write false memory 4 (parts ++ write_fails 11 ∷ []) 0
    ≡ some (record {
      result = some (taken parts);
      errno = 11;
      bytes = take (taken parts) memory;
      script = [];
    })
tcp_write-taken_example =
    tcp_write-taken memory 4 parts [] 0 11 (omega arith) (tt, (refl, (tt, tt))) (omega arith)
      (λ e. omega (arith, e))

tcp_write_overrun_example :
    tcp_write false memory 4 (takes 1 ∷ takes 4 ∷ write_fails 11 ∷ []) 0
    ≡ some (record { result = some (1 + 4); errno = 11; bytes = take (1 + 4) memory; script = [] })
tcp_write_overrun_example =
    tcp_write_overrun memory 4 0 [] 0 11 (omega arith) (omega arith) (λ e. omega (arith, e))

ssl_read_overflow_example :
    let r = ssl_read false 4 (decrypts (codes "abc") ∷ decrypts (codes "def") ∷ stops true ∷ []) in
    (4 < length r.written) × (r.written ≡ codes "abc" ++ codes "def")
ssl_read_overflow_example =
    ssl_read_overflow 4 b'a' (codes "bc") b'd' (codes "ef") true [] (omega arith) (omega arith)
      (omega arith) (omega arith)

-- A file of four bytes in two parts.
ssl_send_file-taken_example :
    ssl_send_file false (some memory) 4 ((takes 1 ∷ takes 3 ∷ []) ++ write_fails 0 ∷ [])
    ≡ some (record {
      result = if ltb 4 (2 ^ 31) then some 4 else none;
      bytes = take 4 memory;
      script = write_fails 0 ∷ [];
    })
ssl_send_file-taken_example =
    ssl_send_file-taken memory 4 (takes 1 ∷ takes 3 ∷ []) (write_fails 0 ∷ []) (tt, (tt, tt)) refl
      (omega arith) (omega arith)

-- An address without a socket, one that cannot be bound, and one that can.
abbrev addresses : List Address
addresses =
    record { made = none; binds = true }
    ∷ record { made = some 5; binds = false }
    ∷ record { made = some 6; binds = true }
    ∷ []

abbrev plain : Handle
plain = record { descriptor = none; is_listener = false; ssl_enable = false; has_ssl = false }

listen_on-held_example :
    (h' : Handle) × (open_ones : List ℕ) × (listen_on false
        (some addresses)
        true
        true
        plain
        (3 ∷ [])
      ≡ some (h'.is_listener, (h', open_ones)))
    × (h'.is_listener ≡ true)
    × (open_ones ≡ held h'.descriptor (3 ∷ []))
    × (destruct h' open_ones ≡ 3 ∷ [])
unfolding is_valid_socket
listen_on-held_example =
    listen_on-held false addresses true true plain (3 ∷ []) refl refl refl
      (tt, (omega arith, (omega arith, tt)))
