-- ===== src/Word.antt =====
-- The little-endian accessors, the FourCC codes and the padding of include/shared/zbc_protocol.h,
-- on a target with a 32-bit `unsigned int` and 64-bit `size_t` and pointers.
pub mod Laws
pub mod Header
use semihost.Base.{ℕ, ◌+◌, ◌-◌, ◌*◌, ◌/◌, ◌%◌, ◌^◌, bit_and, bit_or, Option, some, List, [], ◌∷◌}
use semihost.Memory.{Bytes, load, write_bytes, ◌>>=◌}

-- The casts `(uint8_t)`, `(uint16_t)`, `(uint32_t)` and `(uintptr_t)`.
abbrev pub u8 : ℕ → ℕ
u8 n = n % 2 ^ 8

abbrev pub u16 : ℕ → ℕ
u16 n = n % 2 ^ 16

abbrev pub u32 : ℕ → ℕ
u32 n = n % 2 ^ 32

abbrev pub u64 : ℕ → ℕ
u64 n = n % 2 ^ 64

-- ZBC_MAKEFOURCC
unfoldable pub make_fourcc : ℕ → ℕ → ℕ → ℕ → ℕ
make_fourcc a b c d =
    bit_or (bit_or (bit_or a (u32 (b * 2 ^ 8))) (u32 (c * 2 ^ 16))) (u32 (d * 2 ^ 24))

-- The four bytes that ZBC_WRITE_U32_LE stores, at rising addresses.
unfoldable pub u32_le : ℕ → Bytes
u32_le val =
    let v = u32 val in
    bit_and v 0xff
    ∷ bit_and (v / 2 ^ 8) 0xff
    ∷ bit_and (v / 2 ^ 16) 0xff
    ∷ bit_and (v / 2 ^ 24) 0xff
    ∷ []

-- ZBC_WRITE_U32_LE, and ZBC_PATCH_U32 on a target that requires aligned access
unfoldable pub write_u32_le : Bytes → ℕ → ℕ → Option Bytes
write_u32_le buf off val = write_bytes buf off (u32_le val)

-- ZBC_READ_U32_LE
unfoldable pub read_u32_le : Bytes → ℕ → Option ℕ
read_u32_le buf off = do
  b0 ← load buf off
  b1 ← load buf (off + 1)
  b2 ← load buf (off + 2)
  b3 ← load buf (off + 3)
  some (make_fourcc b0 b1 b2 b3)

-- ZBC_WRITE_U16_LE
unfoldable pub u16_le : ℕ → Bytes
u16_le val = let v = u16 val in bit_and v 0xff ∷ bit_and (v / 2 ^ 8) 0xff ∷ []

-- ZBC_READ_U16_LE
unfoldable pub read_u16_le : Bytes → ℕ → Option ℕ
read_u16_le buf off = do
  b0 ← load buf off
  b1 ← load buf (off + 1)
  some (bit_or b0 (u16 (b1 * 2 ^ 8)))

-- ZBC_PAD_SIZE at a `uint32_t`: the sum is a 32-bit one, the mask a 64-bit one.
unfoldable pub pad_size_u32 : ℕ → ℕ
pad_size_u32 size = bit_and (u32 (size + 1)) (2 ^ 64 - 2)

-- ZBC_PAD_SIZE at a `size_t`
unfoldable pub pad_size : ℕ → ℕ
pad_size size = bit_and (u64 (size + 1)) (2 ^ 64 - 2)
