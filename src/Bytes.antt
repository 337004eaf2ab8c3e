-- ===== src/Bytes.antt =====
-- core/include/radio/bytes.hpp: big- and little-endian loads and stores over byte buffers.
-- A buffer is the list of its bytes, and a `std::byte*` into it is an offset. A store past the end
-- changes nothing; a load past the end gives `oob`, which every load takes as a parameter, so that
-- a result that does not depend on `oob` was computed without such a read.
pub mod Laws
pub mod Stores
mod Tests
use full_duplex_radio.Prelude.{ℕ, ◌+◌, ◌*◌, ◌/◌, ◌%◌, ◌^◌, ◌<◌, bit_and, bit_or, List, get_or, set}

abbrev pub IsByte : ℕ → Type 0
IsByte b = b < 256

-- `<<` on a uint32_t.
abbrev pub shl32 : ℕ → ℕ → ℕ
shl32 x k = x * 2 ^ k % 2 ^ 32

-- The low byte of `v >> k`, as the stores write it.
abbrev pub byte_at : ℕ → ℕ → ℕ
byte_at v k = bit_and (v / 2 ^ k) 0xFF

module _ (oob : ℕ) where
  unfoldable pub load_be16 : List ℕ → ℕ → ℕ
  load_be16 d p = bit_or (shl32 (get_or d p oob) 8) (get_or d (p + 1) oob) % 2 ^ 16

  unfoldable pub load_be32 : List ℕ → ℕ → ℕ
  load_be32 d p =
      bit_or
        (bit_or (bit_or (shl32 (get_or d p oob) 24) (shl32 (get_or d (p + 1) oob) 16))
          (shl32 (get_or d (p + 2) oob) 8))
        (get_or d (p + 3) oob)

  unfoldable pub load_be64 : List ℕ → ℕ → ℕ
  unfolding load_be32
  load_be64 d p = bit_or (load_be32 d p * 2 ^ 32 % 2 ^ 64) (load_be32 d (p + 4))

  unfoldable pub load_le16 : List ℕ → ℕ → ℕ
  load_le16 d p = bit_or (get_or d p oob) (shl32 (get_or d (p + 1) oob) 8) % 2 ^ 16

  unfoldable pub load_le32 : List ℕ → ℕ → ℕ
  load_le32 d p =
      bit_or
        (bit_or (bit_or (get_or d p oob) (shl32 (get_or d (p + 1) oob) 8))
          (shl32 (get_or d (p + 2) oob) 16))
        (shl32 (get_or d (p + 3) oob) 24)

unfoldable pub store_be16 : List ℕ → ℕ → ℕ → List ℕ
store_be16 d p v = set (set d p (byte_at v 8)) (p + 1) (byte_at v 0)

unfoldable pub store_be32 : List ℕ → ℕ → ℕ → List ℕ
store_be32 d p v =
    set (set (set (set d p (byte_at v 24)) (p + 1) (byte_at v 16)) (p + 2) (byte_at v 8)) (p + 3)
      (byte_at v 0)

unfoldable pub store_be64 : List ℕ → ℕ → ℕ → List ℕ
unfolding store_be32
store_be64 d p v =
    store_be32 (store_be32 d p (v / 2 ^ 32 % 2 ^ 32)) (p + 4) (bit_and v 0xFFFFFFFF % 2 ^ 32)

unfoldable pub store_le16 : List ℕ → ℕ → ℕ → List ℕ
store_le16 d p v = set (set d p (byte_at v 0)) (p + 1) (byte_at v 8)

unfoldable pub store_le32 : List ℕ → ℕ → ℕ → List ℕ
store_le32 d p v =
    set (set (set (set d p (byte_at v 0)) (p + 1) (byte_at v 8)) (p + 2) (byte_at v 16)) (p + 3)
      (byte_at v 24)
