-- ===== src/Server/Connection/Armed.antt =====
-- Bytes that wait are sent: the reactor watches for writing as long as any are left.
use qt_linux_im_project.Base.{
  ℕ, suc, ◌+◌, ◌≤◌, ◌≡◌, ◌⊎◌, refl, min, Bool, true, false, List, [], ◌∷◌, Bytes, ◌==◌,
  if◌then◌else◌, arith, inl, inr, length-drop,
}
use qt_linux_im_project.Server.Connection.{
  SendReply, sent, closed, interrupted, would_block, failed, event_read_write, Connection, Outcome,
  new_connection, pending, request_close, advance, flush_out, Direct, unsent, lost, send_direct,
  after_direct, queue_send, after_flush, handle_write,
}
use qt_linux_im_project.Server.Connection.Output.{send_direct_rest}

-- Closing, or nothing to send, or watched for writing.
abbrev pub IsArmed : Connection → Type 0
IsArmed c = (c.closing ≡ true) ⊎ ((pending c ≡ 0) ⊎ (c.interest ≡ event_read_write))

pub new_connection-IsArmed : (fd : ℕ) (rs : List SendReply) → IsArmed (new_connection fd rs)
unfolding new_connection pending
new_connection-IsArmed fd rs = inr (inl refl)

advance-pending : (n : ℕ) (c : Connection) → pending (advance n c) ≤ pending c
unfolding advance pending
advance-pending n c = ground (arith, length-drop (c.out_offset + n) c.outbuf)

-- `flushOut` does not add to what waits, and touches neither the interest nor, while it answers
-- `true`, the closing flag.
record Drains (c : Connection) (o : Outcome) : Type 0 where
  fewer : pending o.conn ≤ pending c
  same_interest : o.conn.interest ≡ c.interest
  close : (o.conn.closing ≡ true) ⊎ (o.conn.closing ≡ c.closing)

advance_rest :
    (n : ℕ) (c : Connection)
    → ((advance n c).interest ≡ c.interest) × ((advance n c).closing ≡ c.closing)
unfolding advance
advance_rest n c = ground arith

Drains-advance : (n : ℕ) (c : Connection) (o : Outcome) → Drains (advance n c) o → Drains c o
Drains-advance n c o d = record {
  fewer = omega (arith, d.fewer, advance-pending n c);
  same_interest = ground (arith, d.same_interest, advance_rest n c);
  close = ground (arith, d.close, advance_rest n c);
}

if-Drains :
    {c : Connection} {o p : Outcome} (b : Bool)
    → Drains c o
    → Drains c p
    → Drains c (if b then o else p)
if-Drains true h k = h
if-Drains false h k = k

stay-Drains :
    (c : Connection) (rs : List SendReply) (queued : List ℕ) (success : Bool)
    → Drains c (record { conn = record c { replies = rs }; queued = queued; success = success })
stay-Drains c rs queued success = record {
  fewer = unfold pending in omega arith;
  same_interest = refl;
  close = inr refl;
}

close-Drains :
    (c : Connection) (rs : List SendReply)
    → Drains c (request_close (record c { replies = rs }) false)
unfolding request_close pending
close-Drains c rs = ground arith

flush_out-Drains : (rs : List SendReply) (c : Connection) → Drains c (flush_out rs c)
unfolding flush_out
flush_out-Drains [] c = stay-Drains c [] [] true
flush_out-Drains (sent k ∷ rs) c =
    let n = min (suc k) (pending c) in
    if-Drains (pending c == 0) (stay-Drains c _ [] true)
      (Drains-advance n c _ (flush_out-Drains rs (advance n c)))
flush_out-Drains (closed ∷ rs) c =
    if-Drains (pending c == 0) (stay-Drains c _ [] true) (close-Drains c rs)
flush_out-Drains (interrupted ∷ rs) c =
    if-Drains (pending c == 0) (stay-Drains c _ [] true) (flush_out-Drains rs c)
flush_out-Drains (would_block ∷ rs) c =
    if-Drains (pending c == 0) (stay-Drains c _ [] true) (stay-Drains c rs [] true)
flush_out-Drains (failed ∷ rs) c =
    if-Drains (pending c == 0) (stay-Drains c _ [] true) (close-Drains c rs)

after_flush-IsArmed :
    (c : Connection) (o : Outcome) → IsArmed c → Drains c o → IsArmed (after_flush o).conn
unfolding after_flush
after_flush-IsArmed c o a d = ground (arith, d.fewer, d.same_interest, d.close)

-- `handleWrite` keeps every waiting byte watched for, on every answer of the kernel: from a
-- connection that is closing, has nothing to send or is watched for writing, it leads to such a
-- one.
pub handle_write-IsArmed : (c : Connection) → IsArmed c → IsArmed (handle_write c).conn
unfolding handle_write
handle_write-IsArmed c a =
    ground (arith, after_flush-IsArmed c (flush_out c.replies c) a (flush_out-Drains c.replies c))

after_direct-IsArmed :
    (c c' : Connection) (d : Direct)
    → (c'.outbuf ≡ c.outbuf) × (c'.out_offset ≡ c.out_offset)
    → pending c ≡ 0
    → IsArmed (after_direct (d, c')).conn
unfolding after_direct
after_direct-IsArmed c c' (unsent []) r z = inr (inl (unfold pending in rw (r.0, r.1) z))
after_direct-IsArmed c c' (unsent (x ∷ b)) r z = inr (inr refl)
after_direct-IsArmed c c' lost r z = unfold request_close in ground arith

-- `queueSend` keeps every waiting byte watched for, on every answer of the kernel: from a
-- connection that is closing, has nothing to send or is watched for writing, it leads to such a
-- one.
pub queue_send-IsArmed :
    (bytes : Bytes) (c : Connection) → IsArmed c → IsArmed (queue_send bytes c).conn
unfolding queue_send
queue_send-IsArmed bytes c a =
    let r = send_direct_rest c.replies bytes c in
    ground (
      arith,
      after_direct-IsArmed c (send_direct c.replies bytes c).1 (send_direct c.replies bytes c).0
          (r.0, r.1),
    )
