-- ===== src/Wire/Endian.antt =====
-- Byte order: `swap64`, `hostToNetwork64` and `networkToHost64` of server/src/protocol.cpp, over
-- the documented meaning of `htonl`, `htons`, `ntohl` and `ntohs` on a host of either byte order.
-- `store` and `load` are what `memcpy` does between a word and its bytes in memory.
pub mod NetworkOrder
use qt_linux_im_project.Base.{ℕ, ◌+◌, ◌*◌, ◌/◌, ◌%◌, ◌^◌, [], ◌∷◌, Bytes, get_or}

pub data Endian : Type 0 where
  little big : Endian

abbrev pub byte : ℕ → ℕ → ℕ
byte v i = v / 256 ^ i % 256

-- `htons` and `ntohs`, `htonl` and `ntohl`: the same function both ways.
unfoldable pub htons : Endian → ℕ → ℕ
htons little v = byte v 0 * 256 + byte v 1
htons big v = v

unfoldable pub htonl : Endian → ℕ → ℕ
htonl little v = byte v 0 * 256 ^ 3 + byte v 1 * 256 ^ 2 + byte v 2 * 256 + byte v 3
htonl big v = v

-- `(htonl(low half) << 32) | htonl(high half)`: the halves share no bit, so `|` adds.
unfoldable pub swap64 : Endian → ℕ → ℕ
swap64 e v = htonl e (v % 2 ^ 32) * 2 ^ 32 + htonl e (v / 2 ^ 32)

-- The `#if` on `__BYTE_ORDER__`.
unfoldable pub host_to_network64 : Endian → ℕ → ℕ
host_to_network64 little v = swap64 little v
host_to_network64 big v = v

unfoldable pub network_to_host64 : Endian → ℕ → ℕ
network_to_host64 little v = swap64 little v
network_to_host64 big v = v

unfoldable pub store16 : Endian → ℕ → Bytes
store16 little v = byte v 0 ∷ byte v 1 ∷ []
store16 big v = byte v 1 ∷ byte v 0 ∷ []

unfoldable pub store32 : Endian → ℕ → Bytes
store32 little v = byte v 0 ∷ byte v 1 ∷ byte v 2 ∷ byte v 3 ∷ []
store32 big v = byte v 3 ∷ byte v 2 ∷ byte v 1 ∷ byte v 0 ∷ []

unfoldable pub store64 : Endian → ℕ → Bytes
store64 little v =
    byte v 0 ∷ byte v 1 ∷ byte v 2 ∷ byte v 3 ∷ byte v 4 ∷ byte v 5 ∷ byte v 6 ∷ byte v 7 ∷ []
store64 big v =
    byte v 7 ∷ byte v 6 ∷ byte v 5 ∷ byte v 4 ∷ byte v 3 ∷ byte v 2 ∷ byte v 1 ∷ byte v 0 ∷ []

abbrev pub at : Bytes → ℕ → ℕ
at bs i = get_or bs i 0

unfoldable pub load16 : Endian → Bytes → ℕ
load16 little bs = at bs 0 + at bs 1 * 256
load16 big bs = at bs 1 + at bs 0 * 256

unfoldable pub load32 : Endian → Bytes → ℕ
load32 little bs = at bs 0 + at bs 1 * 256 + at bs 2 * 256 ^ 2 + at bs 3 * 256 ^ 3
load32 big bs = at bs 3 + at bs 2 * 256 + at bs 1 * 256 ^ 2 + at bs 0 * 256 ^ 3

unfoldable pub load64 : Endian → Bytes → ℕ
load64 little bs =
    at bs 0
    + at bs 1 * 256
    + at bs 2 * 256 ^ 2
    + at bs 3 * 256 ^ 3
    + at bs 4 * 256 ^ 4
    + at bs 5 * 256 ^ 5
    + at bs 6 * 256 ^ 6
    + at bs 7 * 256 ^ 7
load64 big bs =
    at bs 7
    + at bs 6 * 256
    + at bs 5 * 256 ^ 2
    + at bs 4 * 256 ^ 3
    + at bs 3 * 256 ^ 4
    + at bs 2 * 256 ^ 5
    + at bs 1 * 256 ^ 6
    + at bs 0 * 256 ^ 7

-- Network byte order, said without a host: most significant byte first.
abbrev pub be16 : ℕ → Bytes
be16 v = byte v 1 ∷ byte v 0 ∷ []

abbrev pub be32 : ℕ → Bytes
be32 v = byte v 3 ∷ byte v 2 ∷ byte v 1 ∷ byte v 0 ∷ []

abbrev pub be64 : ℕ → Bytes
be64 v = byte v 7 ∷ byte v 6 ∷ byte v 5 ∷ byte v 4 ∷ byte v 3 ∷ byte v 2 ∷ byte v 1 ∷ byte v 0 ∷ []
