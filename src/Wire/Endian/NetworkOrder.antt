-- ===== src/Wire/Endian/NetworkOrder.antt =====
-- On a host of either byte order, what a packer stores is the most significant byte first, and
-- what a parser loads is the number that was stored.
use qt_linux_im_project.Base.{ℕ, ◌/◌, ◌%◌, ◌^◌, ◌<◌, ◌≡◌, refl, ap₂, [], ◌∷◌, ◌++◌, arith}
use qt_linux_im_project.Wire.Endian.{
  Endian, little, big, htons, htonl, swap64, host_to_network64, network_to_host64, store16, store32,
  store64, load16, load32, load64, be16, be32, be64,
}

pub store16-htons : (e : Endian) (v : ℕ) → store16 e (htons e v) ≡ be16 v
unfolding store16 htons
store16-htons little v = ap₂ (λ a b. a ∷ b ∷ []) (omega arith) (omega arith)
store16-htons big v = refl

pub store32-htonl : (e : Endian) (v : ℕ) → store32 e (htonl e v) ≡ be32 v
unfolding store32 htonl
store32-htonl little v =
    ap₂ (◌++◌) (ap₂ (λ a b. a ∷ b ∷ []) (omega arith) (omega arith))
      (ap₂ (λ a b. a ∷ b ∷ []) (omega arith) (omega arith))
store32-htonl big v = refl

-- `swap64` halves are exchanged and each is in network order.
low_half : (e : Endian) (v : ℕ) → swap64 e v % 2 ^ 32 ≡ htonl e (v / 2 ^ 32) % 2 ^ 32
unfolding swap64
low_half e v = omega arith

high_half : (v : ℕ) → swap64 little v / 2 ^ 32 ≡ htonl little (v % 2 ^ 32)
unfolding swap64 htonl
high_half v = omega arith

low_bytes : (v : ℕ) → store64 little v ≡ store32 little (v % 2 ^ 32) ++ store32 little (v / 2 ^ 32)
unfolding store64 store32
low_bytes v =
    ap₂ (◌++◌)
      (ap₂ (◌++◌) (ap₂ (λ a b. a ∷ b ∷ []) (omega arith) (omega arith))
        (ap₂ (λ a b. a ∷ b ∷ []) (omega arith) (omega arith)))
      (ap₂ (◌++◌) (ap₂ (λ a b. a ∷ b ∷ []) (omega arith) (omega arith))
        (ap₂ (λ a b. a ∷ b ∷ []) (omega arith) (omega arith)))

store32-mod : (v : ℕ) → store32 little (v % 2 ^ 32) ≡ store32 little v
unfolding store32
store32-mod v =
    ap₂ (◌++◌) (ap₂ (λ a b. a ∷ b ∷ []) (omega arith) (omega arith))
      (ap₂ (λ a b. a ∷ b ∷ []) (omega arith) (omega arith))

be32-be64 : (v : ℕ) → be32 (v / 2 ^ 32) ++ be32 (v % 2 ^ 32) ≡ be64 v
be32-be64 v =
    ap₂ (◌++◌)
      (ap₂ (◌++◌) (ap₂ (λ a b. a ∷ b ∷ []) (omega arith) (omega arith))
        (ap₂ (λ a b. a ∷ b ∷ []) (omega arith) (omega arith)))
      (ap₂ (◌++◌) (ap₂ (λ a b. a ∷ b ∷ []) (omega arith) (omega arith))
        (ap₂ (λ a b. a ∷ b ∷ []) (omega arith) (omega arith)))

-- In the memory of a host of either byte order, the result of `hostToNetwork64` is the eight bytes
-- of the number with the most significant byte first.
pub store64-host_to_network64 : (e : Endian) (v : ℕ) → store64 e (host_to_network64 e v) ≡ be64 v
unfolding host_to_network64
store64-host_to_network64 little v =
    rw
      (
        low_bytes (swap64 little v),
        low_half little v,
        high_half v,
        store32-mod (htonl little (v / 2 ^ 32)),
        store32-htonl little (v / 2 ^ 32),
        store32-htonl little (v % 2 ^ 32),
      )
      (be32-be64 v)
store64-host_to_network64 big v = unfold store64 in refl

pub htons-load16 : (e : Endian) (v : ℕ) → v < 2 ^ 16 → htons e (load16 e (be16 v)) ≡ v
unfolding htons load16
htons-load16 little v h = omega arith
htons-load16 big v h = omega arith

pub htonl-load32 : (e : Endian) (v : ℕ) → v < 2 ^ 32 → htonl e (load32 e (be32 v)) ≡ v
unfolding htonl load32
htonl-load32 little v h = omega arith
htonl-load32 big v h = omega arith

load64-halves : (v : ℕ) → load64 little (be64 v) % 2 ^ 32 ≡ load32 little (be32 (v / 2 ^ 32))
unfolding load64 load32
load64-halves v = omega arith

load64_high : (v : ℕ) → load64 little (be64 v) / 2 ^ 32 ≡ load32 little (be32 (v % 2 ^ 32))
unfolding load64 load32
load64_high v = omega arith

-- `networkToHost64` on a host of either byte order gives back a 64-bit number from its eight bytes
-- with the most significant byte first.
pub network_to_host64-load64 :
    (e : Endian) (v : ℕ) → v < 2 ^ 64 → network_to_host64 e (load64 e (be64 v)) ≡ v
unfolding network_to_host64 swap64
network_to_host64-load64 little v h =
    rw
      (
        load64-halves v,
        load64_high v,
        htonl-load32 little (v / 2 ^ 32) (omega arith),
        htonl-load32 little (v % 2 ^ 32) (omega arith),
      )
      (omega arith)
network_to_host64-load64 big v h = unfold load64 in omega arith
