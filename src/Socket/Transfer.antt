-- ===== src/Socket/Transfer.antt =====
-- The loops of `AbstractSocket` over a connection that delivers.
use network_learn.Base.{
  ℕ, zero, suc, ◌+◌, ◌-◌, ◌%◌, ◌≡◌, ◌<◌, ◌≤◌, refl, ap, ◌∙◌, Bool, true, false, not, [], ◌∷◌, ◌++◌,
  some, inl, inr, arith, ltb, ◌==◌, if◌then◌else◌, Bool-cases, length, take, drop, length-take,
  length-drop, take++drop, take_all, drop_all, drop-drop, length-nil, Bytes,
}
use mathlib.Core.List.{append_assoc}
use network_learn.Util.Stream.{Stream, rest, IsGood, read_chunk}
use network_learn.Socket.{Socket, Delivers, socket_buf_size, read_all, send_stream}

-- One chunk less leaves the remainder.
rem_chunk :
    (n : ℕ) → socket_buf_size ≤ n → (n - socket_buf_size) % socket_buf_size ≡ n % socket_buf_size
rem_chunk n h = omega (arith, h)

chunk_off :
    (n : ℕ)
    → socket_buf_size ≤ n
    → not ((n - socket_buf_size) % socket_buf_size == 0) ≡ not (n % socket_buf_size == 0)
chunk_off n h = ap (λ r. not (r == 0)) (rem_chunk n h)

module _ {S : Type 0} (socket : Socket S) (d : Delivers socket) where
  read_all_step :
      (fuel : ℕ) (buffer : Bytes) (s : S)
      → read_all socket (suc fuel) buffer s ≡ (
          if length (take socket_buf_size (d.arrived s)) == socket_buf_size
          then read_all socket fuel
              (buffer ++ take socket_buf_size (d.arrived s))
              (socket.read socket_buf_size s).1
          else some
              (buffer ++ take socket_buf_size (d.arrived s), (socket.read socket_buf_size s).1))
  unfolding read_all
  read_all_step fuel buffer s = rw (d.read_result socket_buf_size s, read_all) refl

  -- `read` on a connection that delivers appends all that has arrived to the buffer, whatever its
  -- size, and sends nothing. Fuel above the number of bytes is enough.
  pub read_all-arrived :
      (fuel : ℕ) (buffer : Bytes) (s : S)
      → length (d.arrived s) < fuel
      → (s' : S) × (read_all socket fuel buffer s ≡ some (buffer ++ d.arrived s, s'))
        × (d.arrived s' ≡ [])
        × (d.sent s' ≡ d.sent s)
  read_all-arrived zero buffer s enough = absurd (omega (arith, enough))
  read_all-arrived (suc fuel) buffer s enough =
      let input = d.arrived s in
      let chunk = take socket_buf_size input in
      let s' = (socket.read socket_buf_size s).1 in
      let left = d.read_left socket_buf_size s in
      elim (Bool-cases (length chunk == socket_buf_size)) [
        | inl full ↦
            let smaller : length (d.arrived s') < fuel =
              rw (left, length-drop socket_buf_size input)
                (ground (arith, length-take socket_buf_size input)) in
            let (end, result, empty, quiet) = read_all-arrived fuel (buffer ++ chunk) s' smaller in
            let same : (buffer ++ chunk) ++ d.arrived s' ≡ buffer ++ input =
              rw
                (
                  left,
                  append_assoc buffer chunk (drop socket_buf_size input),
                  take++drop socket_buf_size input,
                )
                refl in
            (
              end,
              rw (read_all_step fuel buffer s, full, result, same) refl,
              empty,
              quiet ∙ d.read_sent socket_buf_size s,
            )
        | inr part ↦
            let few : length input ≤ socket_buf_size =
              ground (arith, length-take socket_buf_size input) in
            (
              s',
              rw (read_all_step fuel buffer s, part, take_all socket_buf_size input few) refl,
              left ∙ drop_all socket_buf_size input few,
              d.read_sent socket_buf_size s,
            )
      ]

  pub write_some : (bs : Bytes) (s : S) → 0 < length bs → (socket.write bs s).0 ≡ some (length bs)
  write_some [] s more = absurd (omega (arith, more))
  write_some (b ∷ bs) s more = d.write_result b bs s

  last_chunk :
      (stream : Stream)
      → IsGood stream
      → ltb (length (rest stream)) socket_buf_size ≡ true
      → read_chunk socket_buf_size stream ≡ (
        rest stream,
        (record stream { position = length stream.content; is_failed = true }, true),
      )
  unfolding read_chunk
  last_chunk stream (b, f) short = rw (b, f, short) refl

  full_chunk :
      (stream : Stream)
      → IsGood stream
      → ltb (length (rest stream)) socket_buf_size ≡ false
      → read_chunk socket_buf_size stream ≡ (
        take socket_buf_size (rest stream),
        (record stream { position = stream.position + socket_buf_size }, false),
      )
  unfolding read_chunk
  full_chunk stream (b, f) long = rw (b, f, long) refl

  -- One round that writes all of a chunk.
  send_round :
      (fuel : ℕ) (stream stream' : Stream) (chunk : Bytes) (eof : Bool) (s : S)
      → read_chunk socket_buf_size stream ≡ (chunk, (stream', eof))
      → 0 < length chunk
      → send_stream socket (suc fuel) false stream s
        ≡ send_stream socket fuel eof stream' (socket.write chunk s).1
  unfolding send_stream
  send_round fuel stream stream' chunk eof s e more =
      let same : (length chunk == length chunk) ≡ true = ground arith in
      rw (send_stream, e, write_some chunk s more, e, same) refl

  send_nothing :
      (fuel : ℕ) (stream stream' : Stream) (eof : Bool) (s : S)
      → read_chunk socket_buf_size stream ≡ ([], (stream', eof))
      → send_stream socket (suc fuel) false stream s
        ≡ some (false, (stream', (socket.write [] s).1))
  unfolding send_stream
  send_nothing fuel stream stream' eof s e = rw (send_stream, e, d.write_none s, e) refl

  send_stream_over :
      (fuel : ℕ) (stream : Stream) (s : S)
      → send_stream socket fuel true stream s ≡ some (true, (stream, s))
  unfolding send_stream
  send_stream_over zero stream s = refl
  send_stream_over (suc fuel) stream s = refl

  abbrev Sends : ℕ → Stream → S → Type 0
  Sends fuel stream s =
      (stream' : Stream) × (s' : S) × (send_stream socket fuel false stream s
        ≡ some (not (length (rest stream) % socket_buf_size == 0), (stream', s')))
      × (d.sent s' ≡ d.sent s ++ rest stream)
      × (d.arrived s' ≡ d.arrived s)

  send_last :
      (fuel : ℕ) (stream : Stream) (s : S)
      → IsGood stream
      → ltb (length (rest stream)) socket_buf_size ≡ true
      → Sends (suc fuel) stream s
  send_last fuel stream s good short =
      let stream' : Stream = record stream { position = length stream.content; is_failed = true } in
      let e = last_chunk stream good short in
      let written = d.write_sent (rest stream) s in
      let kept = d.write_arrived (rest stream) s in
      elim (Bool-cases (length (rest stream) == 0)) [
        | inl over ↦
            let empty = length-nil (rest stream) (ground arith) in
            (
              stream',
              (socket.write [] s).1,
              rw empty (send_nothing fuel stream stream' true s (rw empty at e)),
              rw empty (d.write_sent [] s),
              d.write_arrived [] s,
            )
        | inr more ↦ (
          stream',
          (socket.write (rest stream) s).1,
          send_round fuel stream stream' (rest stream) true s e (ground arith)
              ∙ send_stream_over fuel stream' (socket.write (rest stream) s).1
              ∙ ap (λ b. some (b, (stream', (socket.write (rest stream) s).1))) (ground arith),
          written,
          kept,
        )
      ]

  send_more :
      (fuel : ℕ) (stream : Stream) (s : S)
      → IsGood stream
      → ltb (length (rest stream)) socket_buf_size ≡ false
      → Sends fuel
          (record stream { position = stream.position + socket_buf_size })
          (socket.write (take socket_buf_size (rest stream)) s).1
      → Sends (suc fuel) stream s
  send_more fuel stream s good long (end, end_s, result, sent, kept) =
      let stream' : Stream = record stream { position = stream.position + socket_buf_size } in
      let chunk = take socket_buf_size (rest stream) in
      let moved : rest stream' ≡ drop socket_buf_size (rest stream) =
        drop-drop stream.position socket_buf_size stream.content in
      let less = length-drop socket_buf_size (rest stream) in
      let same : not (length (rest stream') % socket_buf_size == 0)
          ≡ not (length (rest stream) % socket_buf_size == 0) =
        rw (moved, less) (chunk_off (length (rest stream)) (ground arith)) in
      (
        end,
        end_s,
        send_round fuel stream stream' chunk false s (full_chunk stream good long)
              (ground (arith, length-take socket_buf_size (rest stream)))
            ∙ result
            ∙ ap (λ b. some (b, (end, end_s))) same,
        sent
            ∙ rw (d.write_sent chunk s, moved)
                (append_assoc (d.sent s) chunk (drop socket_buf_size (rest stream))
                  ∙ ap (λ t. d.sent s ++ t) (take++drop socket_buf_size (rest stream))),
        kept ∙ d.write_arrived chunk s,
      )

  -- `sendStream` over a connection that delivers, on a stream that has not failed, sends all that
  -- is left of the stream. It answers true, except where the size of what is left is a multiple
  -- of the size of the buffer, 0 included: then the last chunk is empty, and `write` refuses
  -- that. Fuel above the number of bytes is enough.
  pub send_stream-rest :
      (fuel : ℕ) (stream : Stream) (s : S)
      → IsGood stream
      → length (rest stream) < fuel
      → (stream' : Stream) × (s' : S) × (send_stream socket fuel false stream s
          ≡ some (not (length (rest stream) % socket_buf_size == 0), (stream', s')))
        × (d.sent s' ≡ d.sent s ++ rest stream)
        × (d.arrived s' ≡ d.arrived s)
  send_stream-rest zero stream s good enough = absurd (omega (arith, enough))
  send_stream-rest (suc fuel) stream s good enough =
      elim (Bool-cases (ltb (length (rest stream)) socket_buf_size)) [
        | inl short ↦ send_last fuel stream s good short
        | inr long ↦
            let stream' : Stream = record stream { position = stream.position + socket_buf_size } in
            let chunk = take socket_buf_size (rest stream) in
            send_more fuel stream s good long (
              send_stream-rest fuel stream' (socket.write chunk s).1 good (
                rw
                  (
                    drop-drop stream.position socket_buf_size stream.content,
                    length-drop socket_buf_size (rest stream),
                  )
                  (ground (arith, enough))))
      ]
