-- ===== src/Wire/Message/File.antt =====
-- The memory images of `FileOffer`, `FileOfferResponse` and `FileDataHeader`, numbers in network order: what a packer
-- copies after the conversions, and what a parser has after `memcpy` and the conversions back,
-- before it terminates the character arrays.
use qt_linux_im_project.Base.{
  ◌^◌, ◌<◌, ◌≡◌, ◌++◌, Bytes, length, length-append, append_assoc, take, take-append_length, drop,
  drop-append_length, arith,
}
use qt_linux_im_project.Wire.Word.{
  put_u32, put_u64, get_u32, get_u64, length-put_u32, length-put_u64, get_u32-put_u32,
  get_u64-put_u64,
}
use qt_linux_im_project.Wire.Message.{FileOffer, FileOfferResponse, FileDataHeader}

unfoldable pub put_file_offer : FileOffer → Bytes
put_file_offer r =
    r.file_id ++ (r.from_id ++ (r.from_nick ++ (r.to_id ++ (put_u64 r.file_size ++ (r.file_name)))))

unfoldable pub get_file_offer : Bytes → FileOffer
get_file_offer b0 =
    let b1 = drop 37 b0 in
    let b2 = drop 32 b1 in
    let b3 = drop 64 b2 in
    let b4 = drop 32 b3 in
    let b5 = drop 8 b4 in
    record {
      file_id = take 37 b0;
      from_id = take 32 b1;
      from_nick = take 64 b2;
      to_id = take 32 b3;
      file_size = get_u64 (take 8 b4);
      file_name = take 256 b5;
    }

-- Arrays of the declared sizes, and numbers of the declared widths.
pub record IsFileOffer (r : FileOffer) : Type 0 where
  pub file_id_size : length r.file_id ≡ 37
  pub from_id_size : length r.from_id ≡ 32
  pub from_nick_size : length r.from_nick ≡ 64
  pub to_id_size : length r.to_id ≡ 32
  pub file_size_fits : r.file_size < 2 ^ 64
  pub file_name_size : length r.file_name ≡ 256

pub length-put_file_offer : (r : FileOffer) → IsFileOffer r → length (put_file_offer r) ≡ 429
unfolding put_file_offer
length-put_file_offer r v = omega (
  arith,
  length-append r.file_id
      (r.from_id ++ (r.from_nick ++ (r.to_id ++ (put_u64 r.file_size ++ (r.file_name))))),
  length-append r.from_id (r.from_nick ++ (r.to_id ++ (put_u64 r.file_size ++ (r.file_name)))),
  length-append r.from_nick (r.to_id ++ (put_u64 r.file_size ++ (r.file_name))),
  length-append r.to_id (put_u64 r.file_size ++ (r.file_name)),
  length-append (put_u64 r.file_size) (r.file_name),
  length-put_u64 r.file_size,
)

pub get_file_offer-put_file_offer :
    (r : FileOffer) (rest : Bytes) → IsFileOffer r → get_file_offer (put_file_offer r ++ rest) ≡ r
unfolding get_file_offer put_file_offer
get_file_offer-put_file_offer r rest v = rw (
  append_assoc r.file_id _ rest,
  append_assoc r.from_id _ rest,
  append_assoc r.from_nick _ rest,
  append_assoc r.to_id _ rest,
  append_assoc (put_u64 r.file_size) _ rest,
  drop-append_length 37 r.file_id _ (v.file_id_size),
  drop-append_length 32 r.from_id _ (v.from_id_size),
  drop-append_length 64 r.from_nick _ (v.from_nick_size),
  drop-append_length 32 r.to_id _ (v.to_id_size),
  drop-append_length 8 (put_u64 r.file_size) _ (length-put_u64 r.file_size),
  take-append_length 37 r.file_id _ (v.file_id_size),
  take-append_length 32 r.from_id _ (v.from_id_size),
  take-append_length 64 r.from_nick _ (v.from_nick_size),
  take-append_length 32 r.to_id _ (v.to_id_size),
  take-append_length 8 (put_u64 r.file_size) _ (length-put_u64 r.file_size),
  take-append_length 256 r.file_name _ (v.file_name_size),
  get_u64-put_u64 r.file_size v.file_size_fits,
)

unfoldable pub put_file_offer_response : FileOfferResponse → Bytes
put_file_offer_response r = r.file_id ++ (put_u32 r.result ++ (r.message))

unfoldable pub get_file_offer_response : Bytes → FileOfferResponse
get_file_offer_response b0 =
    let b1 = drop 37 b0 in
    let b2 = drop 4 b1 in
    record { file_id = take 37 b0; result = get_u32 (take 4 b1); message = take 64 b2 }

-- Arrays of the declared sizes, and numbers of the declared widths.
pub record IsFileOfferResponse (r : FileOfferResponse) : Type 0 where
  pub file_id_size : length r.file_id ≡ 37
  pub result_fits : r.result < 2 ^ 32
  pub message_size : length r.message ≡ 64

pub length-put_file_offer_response :
    (r : FileOfferResponse) → IsFileOfferResponse r → length (put_file_offer_response r) ≡ 105
unfolding put_file_offer_response
length-put_file_offer_response r v = omega (
  arith,
  length-append r.file_id (put_u32 r.result ++ (r.message)),
  length-append (put_u32 r.result) (r.message),
  length-put_u32 r.result,
)

pub get_file_offer_response-put_file_offer_response :
    (r : FileOfferResponse) (rest : Bytes)
    → IsFileOfferResponse r
    → get_file_offer_response (put_file_offer_response r ++ rest) ≡ r
unfolding get_file_offer_response put_file_offer_response
get_file_offer_response-put_file_offer_response r rest v = rw (
  append_assoc r.file_id _ rest,
  append_assoc (put_u32 r.result) _ rest,
  drop-append_length 37 r.file_id _ (v.file_id_size),
  drop-append_length 4 (put_u32 r.result) _ (length-put_u32 r.result),
  take-append_length 37 r.file_id _ (v.file_id_size),
  take-append_length 4 (put_u32 r.result) _ (length-put_u32 r.result),
  take-append_length 64 r.message _ (v.message_size),
  get_u32-put_u32 r.result v.result_fits,
)

unfoldable pub put_file_data_header : FileDataHeader → Bytes
put_file_data_header r = r.file_id ++ (put_u64 r.offset ++ (put_u32 r.chunk_size))

unfoldable pub get_file_data_header : Bytes → FileDataHeader
get_file_data_header b0 =
    let b1 = drop 37 b0 in
    let b2 = drop 8 b1 in
    record { file_id = take 37 b0; offset = get_u64 (take 8 b1); chunk_size = get_u32 (take 4 b2) }

-- Arrays of the declared sizes, and numbers of the declared widths.
pub record IsFileDataHeader (r : FileDataHeader) : Type 0 where
  pub file_id_size : length r.file_id ≡ 37
  pub offset_fits : r.offset < 2 ^ 64
  pub chunk_size_fits : r.chunk_size < 2 ^ 32

pub length-put_file_data_header :
    (r : FileDataHeader) → IsFileDataHeader r → length (put_file_data_header r) ≡ 49
unfolding put_file_data_header
length-put_file_data_header r v = omega (
  arith,
  length-append r.file_id (put_u64 r.offset ++ (put_u32 r.chunk_size)),
  length-append (put_u64 r.offset) (put_u32 r.chunk_size),
  length-put_u64 r.offset,
  length-put_u32 r.chunk_size,
)

pub get_file_data_header-put_file_data_header :
    (r : FileDataHeader) (rest : Bytes)
    → IsFileDataHeader r
    → get_file_data_header (put_file_data_header r ++ rest) ≡ r
unfolding get_file_data_header put_file_data_header
get_file_data_header-put_file_data_header r rest v = rw (
  append_assoc r.file_id _ rest,
  append_assoc (put_u64 r.offset) _ rest,
  drop-append_length 37 r.file_id _ (v.file_id_size),
  drop-append_length 8 (put_u64 r.offset) _ (length-put_u64 r.offset),
  take-append_length 37 r.file_id _ (v.file_id_size),
  take-append_length 8 (put_u64 r.offset) _ (length-put_u64 r.offset),
  take-append_length 4 (put_u32 r.chunk_size) _ (length-put_u32 r.chunk_size),
  get_u64-put_u64 r.offset v.offset_fits,
  get_u32-put_u32 r.chunk_size v.chunk_size_fits,
)
