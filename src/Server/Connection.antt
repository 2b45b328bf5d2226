-- ===== src/Server/Connection.antt =====
-- `ClientHandler` of server/src/server.cpp: one connection's output. What the kernel answers to
-- `send` is not the program's: each connection carries the answers still to come, and the bytes
-- that the kernel has taken so far.
pub mod Output
pub mod Queue
pub mod Armed
use qt_linux_im_project.Base.{
  ℕ, suc, ◌+◌, ◌-◌, min, Bool, true, false, not, ◌&&◌, List, [], ◌∷◌, ◌++◌, Bytes, leb, ◌==◌,
  if◌then◌else◌, length, take, drop, is_empty,
}

-- `sent k`: the kernel takes `k + 1` bytes, or all of them if there are fewer, so between 1 and the
-- length of the request, as `send` documents. `closed` is the answer 0, the others are `errno`.
pub data SendReply : Type 0 where
  sent : ℕ → SendReply
  closed interrupted would_block failed : SendReply

-- The events that the reactor keeps for the descriptor. `modifyHandler` sets them before it asks
-- the kernel, and the handler ignores its answer, so they do not depend on the kernel.
pub data Interest : Type 0 where
  event_read event_read_write : Interest

pub record Connection : Type 0 where
  pub fd : ℕ
  pub closing : Bool
  pub outbuf : Bytes
  pub out_offset : ℕ
  pub interest : Interest
  pub replies : List SendReply
  pub delivered : Bytes

-- The constructor, on a descriptor that the reactor watches for reading.
unfoldable pub new_connection : ℕ → List SendReply → Connection
new_connection fd replies = record {
  fd = fd;
  closing = false;
  outbuf = [];
  out_offset = 0;
  interest = event_read;
  replies = replies;
  delivered = [];
}

-- The handler after a call, the descriptors that it handed to `queueDisconnect`, and the answer.
pub record Outcome : Type 0 where
  pub conn : Connection
  pub queued : List ℕ
  pub success : Bool

abbrev pub write_trim_threshold : ℕ
write_trim_threshold = 4096

unfoldable pub pending : Connection → ℕ
pending c = length c.outbuf - c.out_offset

unfoldable pub request_close : Connection → Bool → Outcome
request_close c success =
    if c.closing
    then record { conn = c; queued = []; success = success }
    else record { conn = record c { closing = true }; queued = c.fd ∷ []; success = success }

unfoldable pub append_out : Bytes → Connection → Connection
unfolding pending
append_out bytes c =
    if length bytes == 0
    then c
    else if pending c == 0
    then record c { outbuf = [] ++ bytes; out_offset = 0 }
    else record c { outbuf = c.outbuf ++ bytes }

-- The bytes that `send` took are behind `outOffset_` now; a buffer that is sent is cleared, and
-- one with a long sent part is trimmed.
unfoldable pub advance : ℕ → Connection → Connection
unfolding pending
advance n c =
    let moved = record c {
      out_offset = c.out_offset + n;
      delivered = c.delivered ++ take n (drop c.out_offset c.outbuf);
    } in
    if pending moved == 0
    then record moved { outbuf = []; out_offset = 0 }
    else if leb write_trim_threshold moved.out_offset
    then record moved { outbuf = drop moved.out_offset moved.outbuf; out_offset = 0 }
    else moved

-- The loop of `flushOut` on the kernel's answers. Where they end, the socket takes no more.
unfoldable pub flush_out : List SendReply → Connection → Outcome
unfolding pending request_close advance
flush_out [] c = record { conn = record c { replies = [] }; queued = []; success = true }
flush_out (reply ∷ rs) c =
    let stop : Outcome = record {
      conn = record c { replies = reply ∷ rs };
      queued = [];
      success = true;
    } in
    let next : Outcome = elim reply [
      | sent k ↦ flush_out rs (advance (min (suc k) (pending c)) c)
      | closed ↦ request_close (record c { replies = rs }) false
      | interrupted ↦ flush_out rs c
      | would_block ↦ record { conn = record c { replies = rs }; queued = []; success = true }
      | failed ↦ request_close (record c { replies = rs }) false
    ] in
    if pending c == 0 then stop else next

-- How the direct `send` loop of `queueSend` ends: with bytes that are not sent (none when all are),
-- or with the connection lost.
pub data Direct : Type 0 where
  unsent : Bytes → Direct
  lost : Direct

unfoldable pub send_direct : List SendReply → Bytes → Connection → Direct × Connection
send_direct rs [] c = (unsent [], record c { replies = rs })
send_direct [] (x ∷ b) c = (unsent (x ∷ b), record c { replies = [] })
send_direct (sent k ∷ rs) (x ∷ b) c =
    send_direct rs (drop (min (suc k) (length (x ∷ b))) (x ∷ b))
      (record c { delivered = c.delivered ++ take (min (suc k) (length (x ∷ b))) (x ∷ b) })
send_direct (closed ∷ rs) (x ∷ b) c = (lost, record c { replies = rs })
send_direct (interrupted ∷ rs) (x ∷ b) c = send_direct rs (x ∷ b) c
send_direct (would_block ∷ rs) (x ∷ b) c = (unsent (x ∷ b), record c { replies = rs })
send_direct (failed ∷ rs) (x ∷ b) c = (lost, record c { replies = rs })

-- What `queueSend` does behind that loop.
unfoldable pub after_direct : Direct × Connection → Outcome
unfolding append_out request_close
after_direct (unsent [], c) = record { conn = c; queued = []; success = true }
after_direct (unsent (x ∷ b), c) = record {
  conn = record (append_out (x ∷ b) c) { interest = event_read_write };
  queued = [];
  success = true;
}
after_direct (lost, c) = request_close c false

unfoldable pub queue_send : Bytes → Connection → Outcome
unfolding pending append_out
queue_send bytes c =
    if c.closing
    then record { conn = c; queued = []; success = false }
    else if is_empty bytes
    then record { conn = c; queued = []; success = true }
    else if pending c == 0
    then after_direct (send_direct c.replies bytes c)
    else record {
      conn = record (append_out bytes c) { interest = event_read_write };
      queued = [];
      success = true;
    }

-- The end of `handleWrite`: when all is out, only reading is watched.
unfoldable pub after_flush : Outcome → Outcome
unfolding pending
after_flush o =
    if not o.success
    then o
    else if not o.conn.closing && (pending o.conn == 0)
    then record o { conn = record o.conn { interest = event_read } }
    else o

unfoldable pub handle_write : Connection → Outcome
unfolding after_flush
handle_write c =
    if c.closing
    then record { conn = c; queued = []; success = true }
    else after_flush (flush_out c.replies c)

unfoldable pub handle_error : Connection → Outcome
unfolding request_close
handle_error c =
    if c.closing then record { conn = c; queued = []; success = true } else request_close c true
