-- ===== src/Tests/Frames.antt =====
-- A stream of two packets and the beginning of a third, in three pieces.
use qt_linux_im_project.Base.{
  ℕ, ◌≡◌, ◌<◌, ◌+◌, ◌*◌, refl, List, [], ◌∷◌, ◌++◌, Bytes, codes, length, take, drop, arith, All,
}
use qt_linux_im_project.Base.FdMap.{FdMap}
use qt_linux_im_project.Wire.Message.{MessageHeader}
use qt_linux_im_project.Wire.Message.Header.{put_header}
use qt_linux_im_project.Protocol.{header_of, packet, validate_header}
use qt_linux_im_project.Protocol.Frames.{next_frame, wait, refused, buffer_of, parse_data}
use qt_linux_im_project.Protocol.Frames.Progress.{parse_data-settles}
use qt_linux_im_project.Protocol.Frames.Chunks.{feed, feed_chunks, join, Clean, stop, more}
use qt_linux_im_project.Protocol.Frames.Stream.{
  IsFrame, stream, feed-stream, parse_data-refused, next_frame-packet,
}

-- The callback notes the bodies, the last one first.
abbrev note : ℕ → MessageHeader → Bytes → List Bytes → List Bytes
note fd h body bodies = body ∷ bodies

abbrev first : MessageHeader
first = header_of 16 2 1

abbrev second : MessageHeader
second = header_of 4 0 2

abbrev messages : List (MessageHeader × Bytes)
messages = (first, 7 ∷ 8 ∷ []) ∷ (second, []) ∷ []

abbrev tail : Bytes
tail = 77 ∷ 67 ∷ 80 ∷ []

first-IsFrame : IsFrame (first, 7 ∷ 8 ∷ [])
unfolding header_of validate_header
first-IsFrame = record {
  header = record {
    magic_fits = omega arith;
    version_fits = omega arith;
    type_fits = omega arith;
    length_fits = omega arith;
    sequence_fits = omega arith;
  };
  valid = refl;
  body_size = refl;
}

second-IsFrame : IsFrame (second, [])
unfolding header_of validate_header
second-IsFrame = record {
  header = record {
    magic_fits = omega arith;
    version_fits = omega arith;
    type_fits = omega arith;
    length_fits = omega arith;
    sequence_fits = omega arith;
  };
  valid = refl;
  body_size = refl;
}

abbrev pieces : List Bytes
pieces =
    take 5 (stream messages)
    ∷ take 18 (drop 5 (stream messages))
    ∷ (drop 23 (stream messages) ++ tail)
    ∷ []

pieces-stream : join pieces ≡ stream messages ++ tail
unfolding packet take put_header drop qt_linux_im_project.Wire.Word.put_u32
    qt_linux_im_project.Wire.Word.put_u16
pieces-stream = refl

tail_waits : next_frame tail ≡ wait
unfolding next_frame
tail_waits = refl

feed-stream_example :
    (buffer_of 5 (feed note 5 pieces ([], [])).0 ≡ tail)
    × ((feed note 5 pieces ([], [])).1 ≡ [] ∷ (7 ∷ 8 ∷ []) ∷ [])
unfolding buffer_of qt_linux_im_project.Base.FdMap.lookup
feed-stream_example =
    feed-stream note 5 pieces messages tail [] [] refl pieces-stream
      (first-IsFrame, (second-IsFrame, tt)) tail_waits

abbrev arrived : Bytes
arrived = packet first (7 ∷ 8 ∷ []) ++ tail

abbrev arrived_pieces : List Bytes
arrived_pieces = take 5 arrived ∷ drop 5 arrived ∷ []

arrived-Clean : Clean arrived
arrived-Clean = more (next_frame-packet first (7 ∷ 8 ∷ []) tail first-IsFrame) (stop tail_waits)

nothing_before : next_frame (buffer_of 5 []) ≡ wait
unfolding next_frame buffer_of qt_linux_im_project.Base.FdMap.lookup
nothing_before = refl

feed_chunks_example :
    (buffer_of 5 (feed note 5 arrived_pieces ([], [])).0
      ≡ buffer_of 5 (parse_data note 5 (join arrived_pieces) ([], [])).0)
    × ((feed note 5 arrived_pieces ([], [])).1
        ≡ (parse_data note 5 (join arrived_pieces) ([], [])).1)
unfolding buffer_of packet qt_linux_im_project.Base.FdMap.lookup put_header
    qt_linux_im_project.Wire.Word.put_u32 qt_linux_im_project.Wire.Word.put_u16 take drop
feed_chunks_example = feed_chunks note 5 arrived_pieces [] [] nothing_before arrived-Clean

parse_data-settles_example :
    (next_frame (buffer_of 5 (parse_data note 5 arrived ([], [])).0) ≡ wait)
    × (length (buffer_of 5 (parse_data note 5 arrived ([], [])).0) < 16 + 1024 * 1024)
parse_data-settles_example = parse_data-settles note 5 arrived [] []

-- A header with a wrong magic number, and a valid packet behind it.
abbrev bad : Bytes
bad = put_header (record second { magic = 1 }) ++ packet second []

bad_refused : next_frame bad ≡ refused
unfolding next_frame put_header qt_linux_im_project.Wire.Word.put_u32
    qt_linux_im_project.Wire.Word.put_u16 packet validate_header
    qt_linux_im_project.Wire.Message.Header.get_header qt_linux_im_project.Wire.Word.get_u32 take
bad_refused = refl

parse_data-refused_example :
    (buffer_of 5 (parse_data note 5 (stream messages ++ bad) ([], [])).0 ≡ [])
    × ((parse_data note 5 (stream messages ++ bad) ([], [])).1 ≡ [] ∷ (7 ∷ 8 ∷ []) ∷ [])
unfolding buffer_of qt_linux_im_project.Base.FdMap.lookup
parse_data-refused_example =
    parse_data-refused note 5 messages bad [] [] refl (first-IsFrame, (second-IsFrame, tt))
      bad_refused
