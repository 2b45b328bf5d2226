-- ===== src/Protocol/Frames/Progress.antt =====
-- The loop of `parseData` ends: its fuel suffices, and it stops only where it has to wait.
use qt_linux_im_project.Base.{
  ℕ, zero, suc, ◌+◌, ◌*◌, ◌≤◌, ◌<◌, ◌≡◌, refl, [], ◌∷◌, ◌++◌, Bytes, true, inl, inr, ◌⊎◌,
  if◌then◌else◌, length, length-drop, take, drop, arith, ◌==◌, ==-refl, ◌≢◌,
}
use qt_linux_im_project.Base.FdMap.{FdMap, lookup, lookup-insert}
use qt_linux_im_project.Wire.Message.{MessageHeader}
use qt_linux_im_project.Wire.Message.Header.{get_header}
use qt_linux_im_project.Protocol.{validate_header}
use qt_linux_im_project.Protocol.Frames.{
  Next, wait, refused, frame, next_frame, parse_loop, parse_buffer, buffer_of, parse_data, or_empty,
}

pub Next-cases :
    (n : Next)
    → (n ≡ wait)
      ⊎ ((n ≡ refused)
          ⊎ ((h : MessageHeader) × (body : Bytes) × (rest : Bytes) × (n ≡ frame h body rest)))
Next-cases wait = inl refl
Next-cases refused = inr (inl refl)
Next-cases (frame h body rest) = inr (inr (h, body, rest, refl))

-- A message that is cut off has a valid header, takes 16 bytes and its body, and leaves the rest.
pub next_frame-frame :
    (b : Bytes) {h : MessageHeader} {body rest : Bytes}
    → next_frame b ≡ frame h body rest
    → (h ≡ get_header b)
      × (validate_header h ≡ true)
      × (length b ≡ 16 + h.body_length + length rest)
      × (body ≡ take h.body_length (drop 16 b))
      × (rest ≡ drop (16 + h.body_length) b)
unfolding next_frame
next_frame-frame b e = ground (arith, length-drop (16 + (get_header b).body_length) b)

next_frame_shrinks :
    (b : Bytes) {h : MessageHeader} {body rest : Bytes}
    → next_frame b ≡ frame h body rest
    → length rest < length b
next_frame_shrinks b e = omega (arith, (next_frame-frame b e).2)

next_frame-nil : next_frame [] ≡ wait
unfolding next_frame
next_frame-nil = refl

-- A buffer that waits is shorter than the largest message.
pub next_frame-wait : (b : Bytes) → next_frame b ≡ wait → length b < 16 + 1024 * 1024
unfolding next_frame validate_header
next_frame-wait b e = ground arith

module _ {ℓ} {S : Type ℓ} (callback : MessageHeader → Bytes → S → S) where
  pub parse_loop-settles :
      (fuel : ℕ) (b : Bytes) (s : S)
      → length b ≤ fuel
      → next_frame (parse_loop callback fuel b s).0 ≡ wait
  unfolding parse_loop
  parse_loop-settles zero [] s h = next_frame-nil
  parse_loop-settles zero (x ∷ b) s h = absurd (omega arith)
  parse_loop-settles (suc fuel) b s h = elim (Next-cases (next_frame b)) [
    | inl e ↦ rw (e, parse_loop) e
    | inr (inl e) ↦ rw (e, parse_loop) next_frame-nil
    | inr (inr (hd, body, rest, e)) ↦
        rw (e, parse_loop)
          (parse_loop-settles fuel rest (callback hd body s)
            (omega (arith, next_frame_shrinks b e)))
  ]

  -- More fuel than there are bytes changes nothing.
  pub parse_loop-fuel :
      (f g : ℕ) (b : Bytes) (s : S)
      → length b ≤ f
      → length b ≤ g
      → parse_loop callback f b s ≡ parse_loop callback g b s
  unfolding parse_loop
  parse_loop-fuel zero zero b s p q = refl
  parse_loop-fuel zero (suc g) [] s p q = rw (next_frame-nil, parse_loop)
  parse_loop-fuel zero (suc g) (x ∷ b) s p q = absurd (omega arith)
  parse_loop-fuel (suc f) zero [] s p q = rw (next_frame-nil, parse_loop)
  parse_loop-fuel (suc f) zero (x ∷ b) s p q = absurd (omega arith)
  parse_loop-fuel (suc f) (suc g) b s p q = elim (Next-cases (next_frame b)) [
    | inl e ↦ rw (e, parse_loop)
    | inr (inl e) ↦ rw (e, parse_loop)
    | inr (inr (hd, body, rest, e)) ↦
        rw (e, parse_loop)
          (parse_loop-fuel f g rest (callback hd body s) (omega (arith, next_frame_shrinks b e))
            (omega (arith, next_frame_shrinks b e)))
  ]

  -- One round of the loop.
  pub parse_buffer-frame :
      (b : Bytes) (s : S) {h : MessageHeader} {body rest : Bytes}
      → next_frame b ≡ frame h body rest
      → parse_buffer callback b s ≡ parse_buffer callback rest (callback h body s)
  unfolding parse_buffer
  parse_buffer-frame [] s e = cc next_frame-nil
  parse_buffer-frame (x ∷ b) s {h} {body} {rest} e =
      unfold parse_loop in
      rw (e, parse_loop)
        (parse_loop-fuel (length b) (length rest) rest (callback h body s)
          (omega (arith, next_frame_shrinks (x ∷ b) e)) (omega arith))

  pub parse_buffer-wait :
      (b : Bytes) (s : S) → next_frame b ≡ wait → parse_buffer callback b s ≡ (b, s)
  unfolding parse_buffer parse_loop
  parse_buffer-wait [] s e = refl
  parse_buffer-wait (x ∷ b) s e = rw (e, parse_loop)

  pub parse_buffer-refused :
      (b : Bytes) (s : S) → next_frame b ≡ refused → parse_buffer callback b s ≡ ([], s)
  unfolding parse_buffer parse_loop
  parse_buffer-refused [] s e = cc
  parse_buffer-refused (x ∷ b) s e = rw (e, parse_loop)

module _ {ℓ} {S : Type ℓ} (callback : ℕ → MessageHeader → Bytes → S → S) where
  pub buffer_of-parse_data :
      (fd j : ℕ) (bytes : Bytes) (buffers : FdMap Bytes) (s : S)
      → buffer_of j (parse_data callback fd bytes (buffers, s)).0 ≡ (
          if fd == j
          then (parse_buffer (callback fd) (buffer_of fd buffers ++ bytes) s).0
          else buffer_of j buffers)
  unfolding parse_data buffer_of
  buffer_of-parse_data fd j bytes buffers s = ground (
    arith,
    lookup-insert fd j (parse_buffer (callback fd) (or_empty (lookup fd buffers) ++ bytes) s).0
        buffers,
  )

  -- After every call of `parseData`, whatever bytes came in and whatever the callback did, the
  -- descriptor's buffer holds no complete message and no refused header, and it is shorter than
  -- the largest message (16 bytes and a body of 1 MiB).
  pub parse_data-settles :
      (fd : ℕ) (bytes : Bytes) (buffers : FdMap Bytes) (s : S)
      → (next_frame (buffer_of fd (parse_data callback fd bytes (buffers, s)).0) ≡ wait)
        × (length (buffer_of fd (parse_data callback fd bytes (buffers, s)).0) < 16 + 1024 * 1024)
  parse_data-settles fd bytes buffers s = (settled, next_frame-wait _ settled)
    where
      settled : next_frame (buffer_of fd (parse_data callback fd bytes (buffers, s)).0) ≡ wait
      settled =
          rw (buffer_of-parse_data fd fd bytes buffers s, ==-refl fd)
            (unfold parse_buffer in parse_loop-settles (callback fd) _ _ s (omega arith))

  -- `parseData` on one descriptor leaves the buffers of the others as they were.
  pub parse_data_other :
      (fd j : ℕ) (bytes : Bytes) (buffers : FdMap Bytes) (s : S)
      → j ≢ fd
      → buffer_of j (parse_data callback fd bytes (buffers, s)).0 ≡ buffer_of j buffers
  parse_data_other fd j bytes buffers s ne =
      ground (arith, buffer_of-parse_data fd j bytes buffers s)
