-- ===== src/Wire/Word.antt =====
-- Words in a packed struct: converted by `htons`, `htonl` or `hostToNetwork64` and copied by
-- `memcpy`, as server/src/protocol.cpp and client/network/protocol.cpp do for each number.
use qt_linux_im_project.Base.{ℕ, ◌^◌, ◌<◌, ◌≡◌, Bytes, length}
use qt_linux_im_project.Wire.Endian.{
  Endian, little, htons, htonl, host_to_network64, network_to_host64, store16, store32, store64,
  load16, load32, load64, be16, be32, be64,
}
use qt_linux_im_project.Wire.Endian.NetworkOrder.{
  store16-htons, store32-htonl, store64-host_to_network64, htons-load16, htonl-load32,
  network_to_host64-load64,
}

-- The build targets x86-64. The laws of Endian hold for the other order too.
abbrev pub host : Endian
host = little

unfoldable pub put_u16 : ℕ → Bytes
unfolding store16 htons
put_u16 v = store16 host (htons host v)

unfoldable pub put_u32 : ℕ → Bytes
unfolding store32 htonl
put_u32 v = store32 host (htonl host v)

unfoldable pub put_u64 : ℕ → Bytes
unfolding store64 host_to_network64
put_u64 v = store64 host (host_to_network64 host v)

unfoldable pub get_u16 : Bytes → ℕ
unfolding load16 htons
get_u16 bs = htons host (load16 host bs)

unfoldable pub get_u32 : Bytes → ℕ
unfolding load32 htonl
get_u32 bs = htonl host (load32 host bs)

unfoldable pub get_u64 : Bytes → ℕ
unfolding load64 network_to_host64
get_u64 bs = network_to_host64 host (load64 host bs)

put_u16-be : (v : ℕ) → put_u16 v ≡ be16 v
unfolding put_u16
put_u16-be v = store16-htons host v

put_u32-be : (v : ℕ) → put_u32 v ≡ be32 v
unfolding put_u32
put_u32-be v = store32-htonl host v

put_u64-be : (v : ℕ) → put_u64 v ≡ be64 v
unfolding put_u64
put_u64-be v = store64-host_to_network64 host v

pub length-put_u16 : (v : ℕ) → length (put_u16 v) ≡ 2
length-put_u16 v = rw (put_u16-be v)

pub length-put_u32 : (v : ℕ) → length (put_u32 v) ≡ 4
length-put_u32 v = rw (put_u32-be v)

pub length-put_u64 : (v : ℕ) → length (put_u64 v) ≡ 8
length-put_u64 v = rw (put_u64-be v)

pub get_u16-put_u16 : (v : ℕ) → v < 2 ^ 16 → get_u16 (put_u16 v) ≡ v
unfolding get_u16
get_u16-put_u16 v h = rw (put_u16-be v) (htons-load16 host v h)

pub get_u32-put_u32 : (v : ℕ) → v < 2 ^ 32 → get_u32 (put_u32 v) ≡ v
unfolding get_u32
get_u32-put_u32 v h = rw (put_u32-be v) (htonl-load32 host v h)

pub get_u64-put_u64 : (v : ℕ) → v < 2 ^ 64 → get_u64 (put_u64 v) ≡ v
unfolding get_u64
get_u64-put_u64 v h = rw (put_u64-be v) (network_to_host64-load64 host v h)
