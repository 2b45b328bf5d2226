-- ===== src/Protocol/Frames/Chunks.antt =====
-- TCP hands the byte stream over in pieces of any size; what `parseData` delivers does not depend
-- on them, as long as the stream holds no refused header.
use qt_linux_im_project.Base.{
  ℕ, ◌+◌, ◌≤◌, ◌≡◌, refl, sym, ◌∙◌, List, [], ◌∷◌, ◌++◌, Bytes, inl, inr, length, length-append,
  drop, take-append_le, drop-append_le, length-drop, arith, append-nil, append_assoc, ==-refl,
}
use qt_linux_im_project.Base.FdMap.{FdMap}
use qt_linux_im_project.Wire.Message.{MessageHeader}
use qt_linux_im_project.Wire.Message.Header.{get_header}
use qt_linux_im_project.Protocol.Frames.{
  wait, refused, frame, next_frame, parse_buffer, buffer_of, parse_data,
}
use qt_linux_im_project.Protocol.Frames.Progress.{
  Next-cases, next_frame-frame, parse_buffer-frame, parse_buffer-wait, buffer_of-parse_data,
  parse_data-settles,
}

-- Every header at a message boundary is valid, up to a last part that is cut short.
pub data Clean : Bytes → Type 0 where
  stop : {b : Bytes} → next_frame b ≡ wait → Clean b
  more :
      {b body rest : Bytes} {h : MessageHeader}
      → next_frame b ≡ frame h body rest
      → Clean rest
      → Clean b

-- A header is read from the first 16 bytes alone.
get_header-append : (b d : Bytes) → 16 ≤ length b → get_header (b ++ d) ≡ get_header b
unfolding get_header
get_header-append b d h = rw (
  drop-append_le 4 b d (omega arith),
  drop-append_le 2 (drop 4 b) d (omega (arith, length-drop 4 b)),
  drop-append_le 2 (drop 2 (drop 4 b)) d (omega (arith, length-drop 4 b, length-drop 2 (drop 4 b))),
  drop-append_le 4 (drop 2 (drop 2 (drop 4 b))) d
      (omega (arith, length-drop 4 b, length-drop 2 (drop 4 b), length-drop 2 (drop 2 (drop 4 b)))),
  take-append_le 4 b d (omega arith),
  take-append_le 2 (drop 4 b) d (omega (arith, length-drop 4 b)),
  take-append_le 2 (drop 2 (drop 4 b)) d (omega (arith, length-drop 4 b, length-drop 2 (drop 4 b))),
  take-append_le 4 (drop 2 (drop 2 (drop 4 b))) d
      (omega (arith, length-drop 4 b, length-drop 2 (drop 4 b), length-drop 2 (drop 2 (drop 4 b)))),
  take-append_le 4 (drop 4 (drop 2 (drop 2 (drop 4 b)))) d (
      omega (
        arith,
        length-drop 4 b,
        length-drop 2 (drop 4 b),
        length-drop 2 (drop 2 (drop 4 b)),
        length-drop 4 (drop 2 (drop 2 (drop 4 b))),
      )),
)

-- Bytes that come later do not change a message that is complete, nor a refusal.
next_frame-append :
    (b d : Bytes) {h : MessageHeader} {body rest : Bytes}
    → next_frame b ≡ frame h body rest
    → next_frame (b ++ d) ≡ frame h body (rest ++ d)
unfolding next_frame
next_frame-append b d e = ground (
  arith,
  next_frame-frame b e,
  get_header-append b d,
  length-append b d,
  drop-append_le 16 b d,
  drop-append_le (16 + (get_header b).body_length) b d,
  length-drop 16 b,
  take-append_le (get_header b).body_length (drop 16 b) d,
)

next_frame-append_refused : (b d : Bytes) → next_frame b ≡ refused → next_frame (b ++ d) ≡ refused
unfolding next_frame
next_frame-append_refused b d e = ground (arith, get_header-append b d, length-append b d)

module _ {ℓ} {S : Type ℓ} (callback : MessageHeader → Bytes → S → S) where
  -- What is left of `b`, and the state, are where the longer stream is taken up again.
  pub resume :
      (w : Bytes)
      → Clean w
      → (b d : Bytes) (s : S) → w ≡ b ++ d
      → Clean ((parse_buffer callback b s).0 ++ d)
        × (parse_buffer callback w s
            ≡ parse_buffer callback
                ((parse_buffer callback b s).0 ++ d)
                (parse_buffer callback b s).1)
  resume w (stop e) b d s q = elim (Next-cases (next_frame b)) [
    | inl x ↦ rw (parse_buffer-wait callback b s x, ← q) (stop e, refl)
    | inr (inl x) ↦ cc (next_frame-append_refused b d x)
    | inr (inr (h, body, rest, x)) ↦ cc (next_frame-append b d x)
  ]
  resume w (more {rest = left} e c) b d s q = elim (Next-cases (next_frame b)) [
    | inl x ↦ rw (parse_buffer-wait callback b s x, ← q) (more e c, refl)
    | inr (inl x) ↦ cc (next_frame-append_refused b d x)
    | inr (inr (h, body, rest, x)) ↦
        let long : next_frame w ≡ frame h body (rest ++ d) = rw q (next_frame-append b d x) in
        let same : left ≡ rest ++ d = cc in
        rw (parse_buffer-frame callback b s x, parse_buffer-frame callback w s long)
          (rw same at (resume left c rest d (callback h body s) same))
  ]

abbrev pub join : List Bytes → Bytes
join [] = []
join (d ∷ ds) = d ++ join ds

module _ {ℓ} {S : Type ℓ} (callback : ℕ → MessageHeader → Bytes → S → S) where
  -- The calls that the `recv` loop of `handleRead` makes for one descriptor, one for each piece.
  unfoldable pub feed : ℕ → List Bytes → FdMap Bytes × S → FdMap Bytes × S
  feed fd [] t = t
  feed fd (d ∷ ds) t = feed fd ds (parse_data callback fd d t)

  parse_data_state :
      (fd : ℕ) (d : Bytes) (t : FdMap Bytes × S)
      → (buffer_of fd (parse_data callback fd d t).0
          ≡ (parse_buffer (callback fd) (buffer_of fd t.0 ++ d) t.1).0)
        × ((parse_data callback fd d t).1
            ≡ (parse_buffer (callback fd) (buffer_of fd t.0 ++ d) t.1).1)
  parse_data_state fd d (buffers, s) =
      (rw (buffer_of-parse_data callback fd fd d buffers s, ==-refl fd), unfold parse_data in refl)

  pub feed_lem :
      (fd : ℕ) (ds : List Bytes) (t : FdMap Bytes × S) (w : Bytes)
      → w ≡ buffer_of fd t.0 ++ join ds
      → next_frame (buffer_of fd t.0) ≡ wait
      → Clean w
      → (buffer_of fd (feed fd ds t).0 ≡ (parse_buffer (callback fd) w t.1).0)
        × ((feed fd ds t).1 ≡ (parse_buffer (callback fd) w t.1).1)
  unfolding feed
  feed_lem fd [] t w q h c =
      rw (q, append-nil (buffer_of fd t.0), parse_buffer-wait (callback fd) _ t.1 h) (refl, refl)
  feed_lem fd (d ∷ ds) t w q h c =
      let state = parse_data_state fd d t in
      let split =
        resume (callback fd) w c (buffer_of fd t.0 ++ d) (join ds) t.1
          (q ∙ sym (append_assoc (buffer_of fd t.0) d (join ds))) in
      rw (split.1, ← state.0, ← state.1)
        (feed_lem fd ds (parse_data callback fd d t) _ refl
          (parse_data-settles callback fd d t.0 t.1).0 (rw state.0 split.0))

  -- Pieces of any sizes, one `parseData` call each, on a buffer that holds no complete message and
  -- no refused header: the callback runs on the same messages in the same order, and the same
  -- bytes are left over, as if the whole stream had come at once, provided that no header at a
  -- message boundary is refused.
  pub feed_chunks :
      (fd : ℕ) (ds : List Bytes) (buffers : FdMap Bytes) (s : S)
      → next_frame (buffer_of fd buffers) ≡ wait
      → Clean (buffer_of fd buffers ++ join ds)
      → (buffer_of fd (feed fd ds (buffers, s)).0
          ≡ buffer_of fd (parse_data callback fd (join ds) (buffers, s)).0)
        × ((feed fd ds (buffers, s)).1 ≡ (parse_data callback fd (join ds) (buffers, s)).1)
  feed_chunks fd ds buffers s h c =
      let state = parse_data_state fd (join ds) (buffers, s) in
      rw (state.0, state.1) (feed_lem fd ds (buffers, s) _ refl h c)
