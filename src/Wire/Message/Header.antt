-- ===== src/Wire/Message/Header.antt =====
-- The memory image of `MessageHeader` with its numbers in network order: what a packer copies
-- after the conversions, and what a parser has after `memcpy` and the conversions back.
use qt_linux_im_project.Base.{
  ◌^◌, ◌<◌, ◌≡◌, ◌++◌, Bytes, length, length-append, append_assoc, take, take-append_length, drop,
  drop-append_length,
}
use qt_linux_im_project.Wire.Word.{
  put_u16, put_u32, get_u16, get_u32, length-put_u16, length-put_u32, get_u16-put_u16,
  get_u32-put_u32,
}
use qt_linux_im_project.Wire.Message.{MessageHeader}

unfoldable pub put_header : MessageHeader → Bytes
put_header h =
    put_u32 h.magic
    ++ (put_u16 h.version ++ (put_u16 h.msg_type ++ (put_u32 h.body_length ++ put_u32 h.sequence)))

unfoldable pub get_header : Bytes → MessageHeader
get_header b0 =
    let b1 = drop 4 b0 in
    let b2 = drop 2 b1 in
    let b3 = drop 2 b2 in
    let b4 = drop 4 b3 in
    record {
      magic = get_u32 (take 4 b0);
      version = get_u16 (take 2 b1);
      msg_type = get_u16 (take 2 b2);
      body_length = get_u32 (take 4 b3);
      sequence = get_u32 (take 4 b4);
    }

pub record IsHeader (h : MessageHeader) : Type 0 where
  pub magic_fits : h.magic < 2 ^ 32
  pub version_fits : h.version < 2 ^ 16
  pub type_fits : h.msg_type < 2 ^ 16
  pub length_fits : h.body_length < 2 ^ 32
  pub sequence_fits : h.sequence < 2 ^ 32

pub length-put_header : (h : MessageHeader) → length (put_header h) ≡ 16
unfolding put_header
length-put_header h = rw (
  length-append (put_u32 h.magic) _,
  length-append (put_u16 h.version) _,
  length-append (put_u16 h.msg_type) _,
  length-append (put_u32 h.body_length) _,
  length-put_u32 h.magic,
  length-put_u16 h.version,
  length-put_u16 h.msg_type,
  length-put_u32 h.body_length,
  length-put_u32 h.sequence,
)

pub get_header-put_header :
    (h : MessageHeader) (rest : Bytes) → IsHeader h → get_header (put_header h ++ rest) ≡ h
unfolding get_header put_header
get_header-put_header h rest v = rw (
  append_assoc (put_u32 h.magic) _ rest,
  append_assoc (put_u16 h.version) _ rest,
  append_assoc (put_u16 h.msg_type) _ rest,
  append_assoc (put_u32 h.body_length) _ rest,
  drop-append_length 4 (put_u32 h.magic) _ (length-put_u32 h.magic),
  drop-append_length 2 (put_u16 h.version) _ (length-put_u16 h.version),
  drop-append_length 2 (put_u16 h.msg_type) _ (length-put_u16 h.msg_type),
  drop-append_length 4 (put_u32 h.body_length) _ (length-put_u32 h.body_length),
  take-append_length 4 (put_u32 h.magic) _ (length-put_u32 h.magic),
  take-append_length 2 (put_u16 h.version) _ (length-put_u16 h.version),
  take-append_length 2 (put_u16 h.msg_type) _ (length-put_u16 h.msg_type),
  take-append_length 4 (put_u32 h.body_length) _ (length-put_u32 h.body_length),
  take-append_length 4 (put_u32 h.sequence) _ (length-put_u32 h.sequence),
  get_u32-put_u32 h.magic v.magic_fits,
  get_u16-put_u16 h.version v.version_fits,
  get_u16-put_u16 h.msg_type v.type_fits,
  get_u32-put_u32 h.body_length v.length_fits,
  get_u32-put_u32 h.sequence v.sequence_fits,
)
