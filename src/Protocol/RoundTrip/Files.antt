-- ===== src/Protocol/RoundTrip/Files.antt =====
-- File offers, the answers to them, and the chunks of a file.
use qt_linux_im_project.Base.{
  ℕ, ◌+◌, ◌*◌, ◌^◌, ◌≤◌, ◌<◌, ◌≡◌, true, [], ◌++◌, Bytes, some, length, length-append, append-nil,
  arith, take-length, drop-append_length,
}
use qt_linux_im_project.Wire.Text.{text_of, no_nul, terminate}
use qt_linux_im_project.Wire.Text.Fields.{length-c_field, terminate-c_field, text_of-c_field_fits}
use qt_linux_im_project.Protocol.{header_of}
use qt_linux_im_project.Protocol.Frames.{frame, next_frame}
use qt_linux_im_project.Protocol.RoundTrip.{next_frame-pack_header}
use qt_linux_im_project.Wire.Message.File.{
  put_file_offer, IsFileOffer, length-put_file_offer, get_file_offer-put_file_offer,
  put_file_offer_response, IsFileOfferResponse, length-put_file_offer_response,
  get_file_offer_response-put_file_offer_response, put_file_data_header, IsFileDataHeader,
  length-put_file_data_header, get_file_data_header-put_file_data_header,
}
use qt_linux_im_project.Wire.Message.{
  FileOffer, FileOfferResponse, FileDataHeader, message_code, msg_file_offer, msg_file_offer_rsp,
  msg_file_data,
}
use qt_linux_im_project.Protocol.Server.Pack.{
  file_offer_of, pack_file_offer, file_offer_response_of, pack_file_offer_response,
}
use qt_linux_im_project.Protocol.Server.Parse.{
  parse_file_offer, terminate_file_offer, parse_file_offer_response, terminate_file_offer_response,
}
use qt_linux_im_project.Protocol.Client.Pack.{file_data_header_of, pack_file_data}
use qt_linux_im_project.Protocol.Client.Parse.{parse_file_data}

pub file_offer_of-IsFileOffer :
    (file_id file_name : Bytes) (file_size : ℕ) (from_id from_nick to_id : Bytes)
    → IsFileOffer (file_offer_of file_id file_name file_size from_id from_nick to_id)
unfolding file_offer_of
file_offer_of-IsFileOffer file_id file_name file_size from_id from_nick to_id = record {
  file_id_size = length-c_field 37 file_id (omega arith);
  from_id_size = length-c_field 32 from_id (omega arith);
  from_nick_size = length-c_field 64 from_nick (omega arith);
  to_id_size = length-c_field 32 to_id (omega arith);
  file_size_fits = omega arith;
  file_name_size = length-c_field 256 file_name (omega arith);
}

parse_file_offer-put :
    (file_id file_name : Bytes) (file_size : ℕ) (from_id from_nick to_id : Bytes) (more : Bytes)
    → parse_file_offer
        (put_file_offer (file_offer_of file_id file_name file_size from_id from_nick to_id) ++ more)
      ≡ some (file_offer_of file_id file_name file_size from_id from_nick to_id)
unfolding parse_file_offer
parse_file_offer-put file_id file_name file_size from_id from_nick to_id more =
    let shape = file_offer_of-IsFileOffer file_id file_name file_size from_id from_nick to_id in
    rw
      (get_file_offer-put_file_offer
        (file_offer_of file_id file_name file_size from_id from_nick to_id) more shape)
      (ground (
        arith,
        length-append
            (put_file_offer (file_offer_of file_id file_name file_size from_id from_nick to_id))
            more,
        length-put_file_offer _ shape,
        terminated,
      ))
  where
    terminated :
        terminate_file_offer (file_offer_of file_id file_name file_size from_id from_nick to_id)
        ≡ file_offer_of file_id file_name file_size from_id from_nick to_id
    terminated =
        unfold terminate_file_offer file_offer_of in
        rw (
          terminate-c_field 37 file_id,
          terminate-c_field 32 from_id,
          terminate-c_field 64 from_nick,
          terminate-c_field 32 to_id,
          terminate-c_field 256 file_name,
        )

-- A file offer packed by either side, from strings with no NUL that fit their fields and a 64-bit
-- size, is taken off the receiver's buffer and parses to the same strings and size.
pub file_offer_arrives :
    (sequence : ℕ) (file_id file_name : Bytes) (file_size : ℕ) (from_id from_nick to_id : Bytes)
    (rest : Bytes)
    → no_nul file_id ≡ true
    → length file_id < 37
    → no_nul file_name ≡ true
    → length file_name < 256
    → no_nul from_id ≡ true
    → length from_id < 32
    → no_nul from_nick ≡ true
    → length from_nick < 64
    → no_nul to_id ≡ true
    → length to_id < 32
    → file_size < 2 ^ 64
    → (r : FileOffer) × (body : Bytes) × (next_frame
          (pack_file_offer sequence file_id file_name file_size from_id from_nick to_id ++ rest)
        ≡ frame (header_of (message_code msg_file_offer) 429 sequence) body rest)
      × (parse_file_offer body ≡ some r)
      × (text_of 37 r.file_id ≡ file_id)
      × (text_of 256 r.file_name ≡ file_name)
      × (text_of 32 r.from_id ≡ from_id)
      × (text_of 64 r.from_nick ≡ from_nick)
      × (text_of 32 r.to_id ≡ to_id)
      × (r.file_size ≡ file_size)
unfolding pack_file_offer
file_offer_arrives sequence file_id file_name file_size from_id from_nick to_id rest z0 l0 z1 l1 z2
      l2 z3 l3 z4 l4 t =
    (
      file_offer_of file_id file_name file_size from_id from_nick to_id,
      put_file_offer (file_offer_of file_id file_name file_size from_id from_nick to_id),
      next_frame-pack_header msg_file_offer sequence 429 _ rest
          (length-put_file_offer _
            (file_offer_of-IsFileOffer file_id file_name file_size from_id from_nick to_id))
          (omega arith),
      rw
          (append-nil
            (put_file_offer (file_offer_of file_id file_name file_size from_id from_nick to_id)))
          at (parse_file_offer-put file_id file_name file_size from_id from_nick to_id []),
      unfold file_offer_of in text_of-c_field_fits 37 file_id z0 l0,
      unfold file_offer_of in text_of-c_field_fits 256 file_name z1 l1,
      unfold file_offer_of in text_of-c_field_fits 32 from_id z2 l2,
      unfold file_offer_of in text_of-c_field_fits 64 from_nick z3 l3,
      unfold file_offer_of in text_of-c_field_fits 32 to_id z4 l4,
      unfold file_offer_of in omega arith,
    )

pub file_offer_response_of-IsFileOfferResponse :
    (file_id : Bytes) (result : ℕ) (message : Bytes)
    → IsFileOfferResponse (file_offer_response_of file_id result message)
unfolding file_offer_response_of
file_offer_response_of-IsFileOfferResponse file_id result message = record {
  file_id_size = length-c_field 37 file_id (omega arith);
  result_fits = omega arith;
  message_size = length-c_field 64 message (omega arith);
}

parse_file_offer_response-put :
    (file_id : Bytes) (result : ℕ) (message : Bytes) (more : Bytes)
    → parse_file_offer_response
        (put_file_offer_response (file_offer_response_of file_id result message) ++ more)
      ≡ some (file_offer_response_of file_id result message)
unfolding parse_file_offer_response
parse_file_offer_response-put file_id result message more =
    let shape = file_offer_response_of-IsFileOfferResponse file_id result message in
    rw
      (get_file_offer_response-put_file_offer_response
        (file_offer_response_of file_id result message) more shape)
      (ground (
        arith,
        length-append (put_file_offer_response (file_offer_response_of file_id result message))
            more,
        length-put_file_offer_response _ shape,
        terminated,
      ))
  where
    terminated :
        terminate_file_offer_response (file_offer_response_of file_id result message)
        ≡ file_offer_response_of file_id result message
    terminated =
        unfold terminate_file_offer_response file_offer_response_of in
        rw (terminate-c_field 37 file_id, terminate-c_field 64 message)

-- An answer to a file offer packed by either side, with a 32-bit result and strings with no NUL that
-- fit their fields, is taken off the receiver's buffer and parses to the same id, result and message.
pub file_offer_response_arrives :
    (sequence : ℕ) (file_id : Bytes) (result : ℕ) (message : Bytes) (rest : Bytes)
    → no_nul file_id ≡ true
    → length file_id < 37
    → no_nul message ≡ true
    → length message < 64
    → result < 2 ^ 32
    → (r : FileOfferResponse) × (body : Bytes) × (next_frame
          (pack_file_offer_response sequence file_id result message ++ rest)
        ≡ frame (header_of (message_code msg_file_offer_rsp) 105 sequence) body rest)
      × (parse_file_offer_response body ≡ some r)
      × (text_of 37 r.file_id ≡ file_id)
      × (r.result ≡ result)
      × (text_of 64 r.message ≡ message)
unfolding pack_file_offer_response
file_offer_response_arrives sequence file_id result message rest z0 l0 z1 l1 t = (
  file_offer_response_of file_id result message,
  put_file_offer_response (file_offer_response_of file_id result message),
  next_frame-pack_header msg_file_offer_rsp sequence 105 _ rest
      (length-put_file_offer_response _
        (file_offer_response_of-IsFileOfferResponse file_id result message))
      (omega arith),
  rw (append-nil (put_file_offer_response (file_offer_response_of file_id result message))) at
      (parse_file_offer_response-put file_id result message []),
  unfold file_offer_response_of in text_of-c_field_fits 37 file_id z0 l0,
  unfold file_offer_response_of in omega arith,
  unfold file_offer_response_of in text_of-c_field_fits 64 message z1 l1,
)

pub file_data_header_of-IsFileDataHeader :
    (file_id : Bytes) (offset len : ℕ) → IsFileDataHeader (file_data_header_of file_id offset len)
unfolding file_data_header_of
file_data_header_of-IsFileDataHeader file_id offset len = record {
  file_id_size = length-c_field 37 file_id (omega arith);
  offset_fits = omega arith;
  chunk_size_fits = omega arith;
}

pub parse_file_data-put :
    (file_id : Bytes) (offset : ℕ) (chunk : Bytes)
    → length chunk < 2 ^ 32
    → parse_file_data
        (put_file_data_header (file_data_header_of file_id offset (length chunk)) ++ chunk)
      ≡ some (file_data_header_of file_id offset (length chunk), chunk)
unfolding parse_file_data
parse_file_data-put file_id offset chunk h =
    let r = file_data_header_of file_id offset (length chunk) in
    let shape = file_data_header_of-IsFileDataHeader file_id offset (length chunk) in
    let size : length (put_file_data_header r) ≡ 49 = length-put_file_data_header r shape in
    let whole : r.chunk_size ≡ length chunk = unfold file_data_header_of in omega arith in
    rw
      (
        get_file_data_header-put_file_data_header r chunk shape,
        drop-append_length 49 (put_file_data_header r) chunk size,
      )
      (ground (
        arith,
        whole,
        length-append (put_file_data_header r) chunk,
        size,
        terminated,
        take-length (length chunk) chunk,
      ))
  where
    terminated :
        record (file_data_header_of file_id offset (length chunk)) {
          file_id = terminate 37 (file_data_header_of file_id offset (length chunk)).file_id;
        }
        ≡ file_data_header_of file_id offset (length chunk)
    terminated = unfold file_data_header_of in rw (terminate-c_field 37 file_id)

-- A chunk of a file that the client packs, of at most 1 MiB less the 49 bytes of its header, with an
-- id that fits its field and a 64-bit offset, is taken off the buffer and parses to the same id,
-- offset and bytes.
pub file_data_arrives :
    (sequence : ℕ) (file_id : Bytes) (offset : ℕ) (chunk rest : Bytes)
    → no_nul file_id ≡ true
    → length file_id < 37
    → offset < 2 ^ 64
    → 49 + length chunk ≤ 1024 * 1024
    → (r : FileDataHeader) × (body : Bytes) × (next_frame
          (pack_file_data sequence file_id offset chunk ++ rest)
        ≡ frame (header_of (message_code msg_file_data) (49 + length chunk) sequence) body rest)
      × (parse_file_data body ≡ some (r, chunk))
      × (text_of 37 r.file_id ≡ file_id)
      × (r.offset ≡ offset)
unfolding pack_file_data
file_data_arrives sequence file_id offset chunk rest z l o h = (
  file_data_header_of file_id offset (length chunk),
  put_file_data_header (file_data_header_of file_id offset (length chunk)) ++ chunk,
  next_frame-pack_header msg_file_data sequence (49 + length chunk) _ rest
      (omega (
        arith,
        length-append (put_file_data_header (file_data_header_of file_id offset (length chunk)))
            chunk,
        length-put_file_data_header _
            (file_data_header_of-IsFileDataHeader file_id offset (length chunk)),
      ))
      h,
  parse_file_data-put file_id offset chunk (omega arith),
  unfold file_data_header_of in text_of-c_field_fits 37 file_id z l,
  unfold file_data_header_of in omega arith,
)
