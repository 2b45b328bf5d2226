-- ===== src/TcpClient/Receive/Pieces.antt =====
-- What `onReadyRead` makes of a stream, in whatever pieces the socket hands it over.
use qt_linux_im_project.Base.{
  ◌≡◌, refl, sym, ◌∙◌, List, [], ◌∷◌, ◌++◌, Bytes, append-nil, append_assoc, All, arith,
}
use qt_linux_im_project.Wire.Message.{MessageHeader}
use qt_linux_im_project.Protocol.Frames.{parse_buffer, next_frame, wait}
use qt_linux_im_project.Protocol.Frames.Progress.{parse_buffer-wait, parse_loop-settles}
use qt_linux_im_project.Protocol.Frames.Chunks.{Clean, resume, join}
use qt_linux_im_project.Protocol.Frames.Stream.{
  IsFrame, stream, deliver, stream-Clean, parse_buffer-stream,
}
use qt_linux_im_project.TcpClient.{Qt, Disk, TcpClient}
use qt_linux_im_project.TcpClient.Receive.{process_message, on_ready_read}

module _ (qt : Qt) (disk : Disk) where
  -- One `readyRead` for each piece.
  unfoldable pub read_pieces : List Bytes → TcpClient → TcpClient
  unfolding on_ready_read
  read_pieces [] t = t
  read_pieces (d ∷ ds) t = read_pieces ds (on_ready_read qt disk d t)

  read_pieces_lem :
      (ds : List Bytes) (t : TcpClient) (w : Bytes)
      → w ≡ t.recv_buffer ++ join ds
      → next_frame t.recv_buffer ≡ wait
      → Clean w
      → ((read_pieces ds t).recv_buffer ≡ (parse_buffer (process_message qt disk) w t.members).0)
        × ((read_pieces ds t).members ≡ (parse_buffer (process_message qt disk) w t.members).1)
  unfolding read_pieces
  read_pieces_lem [] t w q h c =
      rw
        (
          q,
          append-nil t.recv_buffer,
          parse_buffer-wait (process_message qt disk) t.recv_buffer t.members h,
        )
        (refl, refl)
  read_pieces_lem (d ∷ ds) t w q h c =
      let split =
        resume (process_message qt disk) w c (t.recv_buffer ++ d) (join ds) t.members
          (q ∙ sym (append_assoc t.recv_buffer d (join ds))) in
      rw split.1 (
        read_pieces_lem ds (on_ready_read qt disk d t) _ refl
          (unfold parse_buffer in
            parse_loop-settles (process_message qt disk) _ (t.recv_buffer ++ d) t.members
              (omega arith))
          split.0)

  -- Valid packets in pieces of any sizes, on an empty buffer: `processMessage` runs once on each of
  -- them, in order, and the buffer is empty again.
  pub read_pieces-stream :
      (ds : List Bytes) (ms : List (MessageHeader × Bytes)) (t : TcpClient)
      → t.recv_buffer ≡ []
      → join ds ≡ stream ms
      → All IsFrame ms
      → ((read_pieces ds t).recv_buffer ≡ [])
        × ((read_pieces ds t).members ≡ deliver (process_message qt disk) ms t.members)
  read_pieces-stream ds ms t e j v =
      let whole =
        parse_buffer-stream (process_message qt disk) ms [] t.members v
          (unfold next_frame in refl) in
      rw whole at (
        read_pieces_lem ds t (stream ms ++ []) (rw (e, j) (append-nil (stream ms)))
          (rw e (unfold next_frame in refl)) (stream-Clean ms [] v (unfold next_frame in refl)))
