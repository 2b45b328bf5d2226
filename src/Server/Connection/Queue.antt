-- ===== src/Server/Connection/Queue.antt =====
-- `queueSend` puts its bytes behind all earlier ones, or closes the connection.
use qt_linux_im_project.Base.{
  ◌≡◌, ◌⊎◌, refl, sym, ◌∙◌, Bool, true, false, [], ◌∷◌, ◌++◌, Bytes, ◌==◌, if◌then◌else◌, drop,
  arith, inl, inr, length-append, drop_all, append-nil, append_assoc, drop-append_le,
}
use qt_linux_im_project.Server.Connection.{
  event_read_write, Connection, Outcome, pending, request_close, append_out, Direct, unsent, lost,
  send_direct, after_direct, queue_send,
}
use qt_linux_im_project.Server.Connection.Output.{
  output, IsBuffer, drop_zero, rest_of, send_direct_lem, send_direct_rest,
}

append_out_lem :
    (bytes : Bytes) (c : Connection)
    → IsBuffer c
    → (output (append_out bytes c) ≡ output c ++ bytes)
      × IsBuffer (append_out bytes c)
      × ((append_out bytes c).closing ≡ c.closing)
unfolding append_out output
append_out_lem [] c v = (sym (append-nil _), v, refl)
append_out_lem (x ∷ bytes) c v = ground (
  arith,
  drop_all c.out_offset c.outbuf,
  drop_zero (x ∷ bytes),
  append-nil c.delivered,
  append_assoc c.delivered (drop c.out_offset c.outbuf) (x ∷ bytes),
  drop-append_le c.out_offset c.outbuf (x ∷ bytes),
  length-append c.outbuf (x ∷ bytes),
)

-- The answer is `true` with the bytes put behind the output, or `false` with the connection closing and its
-- descriptor handed over for the disconnect, unless it was closing before.
pub record Queues (bytes : Bytes) (c : Connection) (o : Outcome) : Type 0 where
  pub buffer : IsBuffer o.conn
  pub result :
      ((o.success ≡ true)
        × (output o.conn ≡ output c ++ bytes)
        × (o.queued ≡ [])
        × (o.conn.closing ≡ false))
      ⊎ ((o.success ≡ false)
          × (o.conn.closing ≡ true)
          × (o.queued ≡ (if c.closing then [] else c.fd ∷ [])))

sent_output : (c : Connection) → (pending c == 0) ≡ true → output c ≡ c.delivered
unfolding output pending
sent_output c z = ground (arith, drop_all c.out_offset c.outbuf, append-nil c.delivered)

module _ (bytes : Bytes) (c : Connection) (v : IsBuffer c) (open_ : c.closing ≡ false) where
  after_direct-Queues :
      (d : Direct) (c' : Connection)
      → (d ≡ lost) ⊎ (c'.delivered ++ rest_of d ≡ c.delivered ++ bytes)
      → (c'.outbuf ≡ c.outbuf)
        × (c'.out_offset ≡ c.out_offset)
        × (c'.closing ≡ c.closing)
        × (c'.fd ≡ c.fd)
      → (pending c == 0) ≡ true
      → (pending c' == 0) ≡ true
      → Queues bytes c (after_direct (d, c'))
  unfolding after_direct output
  after_direct-Queues (unsent []) c' (inl e) r z z' = cc
  after_direct-Queues (unsent []) c' (inr e) (ro, rf, rc, rd) z z' = record {
    buffer = ground arith;
    result = inl (
      refl,
      cc (sent_output c z, sent_output c' z', append-nil c'.delivered),
      refl,
      ground arith,
    );
  }
  after_direct-Queues (unsent (x ∷ b)) c' (inl e) r z z' = cc
  after_direct-Queues (unsent (x ∷ b)) c' (inr e) (ro, rf, rc, rd) z z' =
      let k = append_out_lem (x ∷ b) c' (ground arith) in
      record {
        buffer = record { inside = k.1.inside };
        result = inl (refl, cc (k.0, sent_output c z, sent_output c' z'), refl, k.2 ∙ rc ∙ open_);
      }
  after_direct-Queues lost c' e (ro, rf, rc, rd) z z' = record {
    buffer = unfold request_close in ground arith;
    result = inr (unfold request_close in ground arith);
  }

if-Queues :
    {bytes : Bytes} {c : Connection} {o p : Outcome} (b : Bool)
    → (b ≡ true → Queues bytes c o)
    → (b ≡ false → Queues bytes c p)
    → Queues bytes c (if b then o else p)
if-Queues true h k = h refl
if-Queues false h k = k refl

append-Queues :
    (bytes : Bytes) (c : Connection)
    → IsBuffer c
    → c.closing ≡ false
    → Queues bytes c (record {
      conn = record (append_out bytes c) { interest = event_read_write };
      queued = [];
      success = true;
    })
append-Queues bytes c v e =
    let k = append_out_lem bytes c v in
    record {
      buffer = record { inside = k.1.inside };
      result = inl (refl, unfold output in k.0, refl, k.2 ∙ e);
    }

direct-Queues :
    (bytes : Bytes) (c : Connection)
    → IsBuffer c
    → c.closing ≡ false
    → (pending c == 0) ≡ true
    → Queues bytes c (after_direct (send_direct c.replies bytes c))
direct-Queues bytes c v e z =
    let r = send_direct_rest c.replies bytes c in
    after_direct-Queues bytes c v e (send_direct c.replies bytes c).0
      (send_direct c.replies bytes c).1 (send_direct_lem c.replies bytes c) (r.0, r.1, r.2, r.3) z
      (unfold pending in rw (r.0, r.1) z)

-- `queueSend`, on every answer of the kernel, on a connection whose read position is inside its
-- buffer, keeps it there; and either it answers `true`, and the output of the connection, the
-- bytes taken and the bytes waiting, is that of before with the new bytes behind it; or it answers
-- `false`, and the connection is closing, with its descriptor queued for the disconnect if it was
-- not closing before.
pub queue_send-Queues :
    (bytes : Bytes) (c : Connection) → IsBuffer c → Queues bytes c (queue_send bytes c)
unfolding queue_send
queue_send-Queues [] c v =
    if-Queues c.closing (λ e. record { buffer = v; result = inr (refl, e, rw e) })
      (λ e. record { buffer = v; result = inl (refl, sym (append-nil (output c)), refl, e) })
queue_send-Queues (x ∷ b) c v =
    if-Queues c.closing (λ e. record { buffer = v; result = inr (refl, e, rw e) })
      (λ e.
        if-Queues (pending c == 0) (λ z. direct-Queues (x ∷ b) c v e z)
          (λ z. append-Queues (x ∷ b) c v e))

append_out-fd : (bytes : Bytes) (c : Connection) → (append_out bytes c).fd ≡ c.fd
unfolding append_out
append_out-fd bytes c = ground arith

after_direct-fd : (d : Direct) (c : Connection) → (after_direct (d, c)).conn.fd ≡ c.fd
unfolding after_direct request_close
after_direct-fd (unsent []) c = refl
after_direct-fd (unsent (x ∷ b)) c = append_out-fd (x ∷ b) c
after_direct-fd lost c = ground arith

-- The handler stays the handler of its descriptor.
pub queue_send-fd : (bytes : Bytes) (c : Connection) → (queue_send bytes c).conn.fd ≡ c.fd
unfolding queue_send
queue_send-fd bytes c =
    let r = send_direct_rest c.replies bytes c in
    ground (
      arith,
      r.3,
      after_direct-fd (send_direct c.replies bytes c).0 (send_direct c.replies bytes c).1,
      append_out-fd bytes c,
    )
