-- ===== src/Server/Connection/Output.antt =====
-- No byte of the output is lost, repeated or reordered.
use qt_linux_im_project.Base.{
  ℕ, suc, ◌+◌, ◌≤◌, ◌≡◌, ◌⊎◌, refl, ap, ◌∙◌, min, Bool, true, false, List, [], ◌∷◌, ◌++◌, Bytes,
  ◌==◌, if◌then◌else◌, length, take, drop, arith, inl, inr, take-append-drop, drop-drop, drop_all,
  append_assoc,
}
use qt_linux_im_project.Server.Connection.{
  SendReply, sent, closed, interrupted, would_block, failed, Connection, Outcome, pending,
  request_close, advance, flush_out, Direct, unsent, lost, send_direct, after_flush, handle_write,
}

-- What the kernel has taken and what is still to be sent: all bytes of the connection in order.
unfoldable pub output : Connection → Bytes
output c = c.delivered ++ drop c.out_offset c.outbuf

-- The sent part lies inside the buffer.
pub record IsBuffer (c : Connection) : Type 0 where
  pub inside : c.out_offset ≤ length c.outbuf

-- The outcome keeps the output as it was and the buffer in order.
pub record Keeps (c : Connection) (o : Outcome) : Type 0 where
  pub same_output : output o.conn ≡ output c
  pub buffer : IsBuffer o.conn
  pub same_fd : o.conn.fd ≡ c.fd

request_close-Keeps :
    (c : Connection) (success : Bool) → IsBuffer c → Keeps c (request_close c success)
unfolding request_close output
request_close-Keeps c success v = ground arith

moved_output :
    (n : ℕ) (c : Connection)
    → (c.delivered ++ take n (drop c.out_offset c.outbuf)) ++ drop (c.out_offset + n) c.outbuf
      ≡ output c
unfolding output
moved_output n c =
    append_assoc c.delivered (take n (drop c.out_offset c.outbuf))
      (drop (c.out_offset + n) c.outbuf)
    ∙ rw (
      ← drop-drop c.out_offset n (c.out_offset + n) c.outbuf refl,
      take-append-drop n (drop c.out_offset c.outbuf),
    )

pub drop_zero : (xs : Bytes) → drop 0 xs ≡ xs
unfolding drop
drop_zero xs = refl

output-advance : (n : ℕ) (c : Connection) → output (advance n c) ≡ output c
unfolding advance output
output-advance n c = ground (
  arith,
  moved_output n c,
  drop_all (c.out_offset + n) c.outbuf,
  drop_zero (drop (c.out_offset + n) c.outbuf),
  drop_zero [],
)

advance-Keeps :
    (n : ℕ) (c : Connection)
    → IsBuffer c
    → n ≤ pending c
    → (output (advance n c) ≡ output c) × IsBuffer (advance n c) × ((advance n c).fd ≡ c.fd)
advance-Keeps n c v h =
    (output-advance n c, unfold advance pending in ground arith, unfold advance in ground arith)

stay-Keeps :
    (c : Connection) (rs : List SendReply) (queued : List ℕ) (success : Bool)
    → IsBuffer c
    → Keeps c (record { conn = record c { replies = rs }; queued = queued; success = success })
unfolding output
stay-Keeps c rs queued success v = record {
  same_output = refl;
  buffer = ground arith;
  same_fd = refl;
}

if-Keeps :
    {c : Connection} {o p : Outcome} (b : Bool)
    → Keeps c o
    → Keeps c p
    → Keeps c (if b then o else p)
if-Keeps true h k = h
if-Keeps false h k = k

close-Keeps :
    (c : Connection) (rs : List SendReply)
    → IsBuffer c
    → Keeps c (request_close (record c { replies = rs }) false)
close-Keeps c rs v =
    let k = request_close-Keeps (record c { replies = rs }) false (record { inside = v.inside }) in
    record {
      same_output = k.same_output ∙ (unfold output in refl);
      buffer = k.buffer;
      same_fd = k.same_fd;
    }

-- `flushOut`, whatever the kernel answers, keeps the output: what it sends leaves the buffer.
pub flush_out-Keeps : (rs : List SendReply) (c : Connection) → IsBuffer c → Keeps c (flush_out rs c)
unfolding flush_out
flush_out-Keeps [] c v = stay-Keeps c [] [] true v
flush_out-Keeps (sent k ∷ rs) c v =
    let n = min (suc k) (pending c) in
    let moved = advance-Keeps n c v (omega arith) in
    let rest = flush_out-Keeps rs (advance n c) moved.1 in
    if-Keeps (pending c == 0) (stay-Keeps c (sent k ∷ rs) [] true v) (record {
      same_output = rest.same_output ∙ moved.0;
      buffer = rest.buffer;
      same_fd = rest.same_fd ∙ moved.2;
    })
flush_out-Keeps (closed ∷ rs) c v =
    if-Keeps (pending c == 0) (stay-Keeps c (closed ∷ rs) [] true v) (close-Keeps c rs v)
flush_out-Keeps (interrupted ∷ rs) c v =
    if-Keeps (pending c == 0) (stay-Keeps c (interrupted ∷ rs) [] true v) (flush_out-Keeps rs c v)
flush_out-Keeps (would_block ∷ rs) c v =
    if-Keeps (pending c == 0) (stay-Keeps c (would_block ∷ rs) [] true v)
      (stay-Keeps c rs [] true v)
flush_out-Keeps (failed ∷ rs) c v =
    if-Keeps (pending c == 0) (stay-Keeps c (failed ∷ rs) [] true v) (close-Keeps c rs v)

after_flush-Keeps : (c : Connection) (o : Outcome) → Keeps c o → Keeps c (after_flush o)
unfolding after_flush output
after_flush-Keeps c o k = ground arith

-- `handleWrite`, on every answer of the kernel, keeps the output of a connection (the bytes that
-- the kernel has taken, and behind them those that wait), its descriptor, and the read position
-- inside the buffer.
pub handle_write-Keeps : (c : Connection) → IsBuffer c → Keeps c (handle_write c)
unfolding handle_write
handle_write-Keeps c v =
    if-Keeps c.closing (stay-Keeps c c.replies [] true v)
      (after_flush-Keeps c _ (flush_out-Keeps c.replies c v))

-- What the direct loop leaves unsent.
abbrev pub rest_of : Direct → Bytes
rest_of (unsent b) = b
rest_of lost = []

pub send_direct_lem :
    (rs : List SendReply) (b : Bytes) (c : Connection)
    → ((send_direct rs b c).0 ≡ lost)
      ⊎ ((send_direct rs b c).1.delivered ++ rest_of (send_direct rs b c).0 ≡ c.delivered ++ b)
unfolding send_direct
send_direct_lem rs [] c = inr refl
send_direct_lem [] (x ∷ b) c = inr refl
send_direct_lem (sent k ∷ rs) (x ∷ b) c =
    let n = min (suc k) (length (x ∷ b)) in
    let more = append_assoc c.delivered (take n (x ∷ b)) (drop n (x ∷ b)) in
    let whole = take-append-drop n (x ∷ b) in
    elim (send_direct_lem rs (drop n (x ∷ b))
      (record c { delivered = c.delivered ++ take n (x ∷ b) })) [
        | inl e ↦ inl e
        | inr e ↦ inr (e ∙ more ∙ ap (λ t. c.delivered ++ t) whole)
      ]
send_direct_lem (closed ∷ rs) (x ∷ b) c = inl refl
send_direct_lem (interrupted ∷ rs) (x ∷ b) c = send_direct_lem rs (x ∷ b) c
send_direct_lem (would_block ∷ rs) (x ∷ b) c = inr refl
send_direct_lem (failed ∷ rs) (x ∷ b) c = inl refl

-- The loop writes only `delivered` and the answers.
pub send_direct_rest :
    (rs : List SendReply) (b : Bytes) (c : Connection)
    → ((send_direct rs b c).1.outbuf ≡ c.outbuf)
      × ((send_direct rs b c).1.out_offset ≡ c.out_offset)
      × ((send_direct rs b c).1.closing ≡ c.closing)
      × ((send_direct rs b c).1.fd ≡ c.fd)
      × ((send_direct rs b c).1.interest ≡ c.interest)
unfolding send_direct
send_direct_rest rs [] c = (refl, refl, refl, refl, refl)
send_direct_rest [] (x ∷ b) c = (refl, refl, refl, refl, refl)
send_direct_rest (sent k ∷ rs) (x ∷ b) c = send_direct_rest rs _ _
send_direct_rest (closed ∷ rs) (x ∷ b) c = (refl, refl, refl, refl, refl)
send_direct_rest (interrupted ∷ rs) (x ∷ b) c = send_direct_rest rs (x ∷ b) c
send_direct_rest (would_block ∷ rs) (x ∷ b) c = (refl, refl, refl, refl, refl)
send_direct_rest (failed ∷ rs) (x ∷ b) c = (refl, refl, refl, refl, refl)
