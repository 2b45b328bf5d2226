-- ===== src/Protocol/Frames/Stream.antt =====
-- A stream of packed messages is taken apart into those messages, however TCP cuts it.
use qt_linux_im_project.Base.{
  ap, ==-refl, ℕ, ◌+◌, ◌≡◌, refl, sym, List, [], ◌∷◌, ◌++◌, Bytes, true, length, length-append,
  take-append_length, drop-append_length, arith, append_assoc, All, drop-drop,
}
use qt_linux_im_project.Base.FdMap.{FdMap}
use qt_linux_im_project.Wire.Message.{MessageHeader}
use qt_linux_im_project.Wire.Message.Header.{
  put_header, IsHeader, length-put_header, get_header-put_header,
}
use qt_linux_im_project.Protocol.{validate_header, packet}
use qt_linux_im_project.Protocol.Frames.{
  wait, frame, refused, parse_data, next_frame, parse_buffer, buffer_of,
}
use qt_linux_im_project.Protocol.Frames.Progress.{
  parse_buffer-frame, buffer_of-parse_data, parse_buffer-refused, parse_buffer-wait,
}
use qt_linux_im_project.Protocol.Frames.Chunks.{Clean, stop, more, join, feed, feed_lem}

-- A header that `validateHeader` accepts, before a body of the length that it states.
pub record IsFrame (m : MessageHeader × Bytes) : Type 0 where
  pub header : IsHeader m.0
  pub valid : validate_header m.0 ≡ true
  pub body_size : m.0.body_length ≡ length m.1

pub next_frame-packet :
    (h : MessageHeader) (body rest : Bytes)
    → IsFrame (h, body)
    → next_frame (packet h body ++ rest) ≡ frame h body rest
unfolding next_frame packet
next_frame-packet h body rest v =
    let shape = append_assoc (put_header h) body rest in
    let skip = drop-append_length 16 (put_header h) (body ++ rest) (length-put_header h) in
    rw (shape, get_header-put_header h (body ++ rest) v.header, skip)
      (ground (
        arith,
        v.valid,
        length-append (put_header h) (body ++ rest),
        length-append body rest,
        length-put_header h,
        take-append_length h.body_length body rest (sym v.body_size),
        drop-append_length h.body_length body rest (sym v.body_size),
        drop-drop 16 h.body_length (16 + h.body_length) (put_header h ++ (body ++ rest)) refl,
        skip,
      ))

-- The bytes of messages sent one behind the other.
abbrev pub stream : List (MessageHeader × Bytes) → Bytes
stream [] = []
stream ((h, body) ∷ ms) = packet h body ++ stream ms

abbrev pub deliver {ℓ} :
    {S : Type ℓ} → (MessageHeader → Bytes → S → S) → List (MessageHeader × Bytes) → S → S
deliver callback [] s = s
deliver callback ((h, body) ∷ ms) s = deliver callback ms (callback h body s)

pub stream-Clean :
    (ms : List (MessageHeader × Bytes)) (tail : Bytes)
    → All IsFrame ms
    → next_frame tail ≡ wait
    → Clean (stream ms ++ tail)
stream-Clean [] tail v h = stop h
stream-Clean ((hd, body) ∷ ms) tail (v, vs) h =
    rw (append_assoc (packet hd body) (stream ms) tail)
      (more (next_frame-packet hd body (stream ms ++ tail) v) (stream-Clean ms tail vs h))

module _ {ℓ} {S : Type ℓ} where
  pub parse_buffer-stream :
      (callback : MessageHeader → Bytes → S → S) (ms : List (MessageHeader × Bytes)) (tail : Bytes)
      (s : S)
      → All IsFrame ms
      → next_frame tail ≡ wait
      → parse_buffer callback (stream ms ++ tail) s ≡ (tail, deliver callback ms s)
  parse_buffer-stream callback [] tail s v h = parse_buffer-wait callback tail s h
  parse_buffer-stream callback ((hd, body) ∷ ms) tail s (v, vs) h =
      rw
        (
          append_assoc (packet hd body) (stream ms) tail,
          parse_buffer-frame callback _ s (next_frame-packet hd body (stream ms ++ tail) v),
        )
        (parse_buffer-stream callback ms tail (callback hd body s) vs h)

  parse_buffer-stream_refused :
      (callback : MessageHeader → Bytes → S → S) (ms : List (MessageHeader × Bytes)) (bad : Bytes)
      (s : S)
      → All IsFrame ms
      → next_frame bad ≡ refused
      → parse_buffer callback (stream ms ++ bad) s ≡ ([], deliver callback ms s)
  parse_buffer-stream_refused callback [] bad s v h = parse_buffer-refused callback bad s h
  parse_buffer-stream_refused callback ((hd, body) ∷ ms) bad s (v, vs) h =
      rw
        (
          append_assoc (packet hd body) (stream ms) bad,
          parse_buffer-frame callback _ s (next_frame-packet hd body (stream ms ++ bad) v),
        )
        (parse_buffer-stream_refused callback ms bad (callback hd body s) vs h)

module _ {ℓ} {S : Type ℓ} (callback : ℕ → MessageHeader → Bytes → S → S) where
  -- Valid messages and then the beginning of another one, in pieces of any sizes, on an empty
  -- buffer: the callback runs once on each message, header and body as they were sent and in the
  -- order of the stream, and the incomplete bytes are kept.
  pub feed-stream :
      (fd : ℕ) (ds : List Bytes) (ms : List (MessageHeader × Bytes)) (tail : Bytes)
      (buffers : FdMap Bytes) (s : S)
      → buffer_of fd buffers ≡ []
      → join ds ≡ stream ms ++ tail
      → All IsFrame ms
      → next_frame tail ≡ wait
      → (buffer_of fd (feed callback fd ds (buffers, s)).0 ≡ tail)
        × ((feed callback fd ds (buffers, s)).1 ≡ deliver (callback fd) ms s)
  feed-stream fd ds ms tail buffers s e j v h =
      rw (parse_buffer-stream (callback fd) ms tail s v h) at (
        feed_lem callback fd ds (buffers, s) (stream ms ++ tail) (rw (e, j) refl)
          (rw e (unfold next_frame in refl)) (stream-Clean ms tail v h))

  -- Valid messages and behind them, in the same call on an empty buffer, bytes that begin with a
  -- refused header: the callback runs on the valid messages only, and everything behind them is
  -- dropped, whatever it holds.
  pub parse_data-refused :
      (fd : ℕ) (ms : List (MessageHeader × Bytes)) (bad : Bytes) (buffers : FdMap Bytes) (s : S)
      → buffer_of fd buffers ≡ []
      → All IsFrame ms
      → next_frame bad ≡ refused
      → (buffer_of fd (parse_data callback fd (stream ms ++ bad) (buffers, s)).0 ≡ [])
        × ((parse_data callback fd (stream ms ++ bad) (buffers, s)).1 ≡ deliver (callback fd) ms s)
  unfolding parse_data
  parse_data-refused fd ms bad buffers s e v h =
      let lost = parse_buffer-stream_refused (callback fd) ms bad s v h in
      (
        rw (buffer_of-parse_data callback fd fd (stream ms ++ bad) buffers s, ==-refl fd, e)
            (ap (λ t. t.0) lost),
        rw e (ap (λ t. t.1) lost),
      )
