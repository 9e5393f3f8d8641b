-- ===== src/Native.antt =====
-- Integers in the guest's byte order: zbc_write_native_uint, zbc_read_native_uint and
-- zbc_read_native_int of src/shared/zbc_riff.c. A `uintptr_t` or `intptr_t` is its 64-bit pattern.
pub mod Laws
pub mod RoundTrip
pub mod Writes
pub mod Sign
use semihost.Base.{
  ℕ, zero, suc, ◌+◌, ◌-◌, ◌*◌, ◌/◌, ◌^◌, bit_and, bit_or, ltb, ◌==◌, ◌&&◌, if◌then◌else◌, Option,
  some,
}
use semihost.Memory.{Bytes, load, store, ◌>>=◌}
use semihost.Word.{u64}

abbrev pub endian_little : ℕ
endian_little = 0

-- `for (i = 0; i < size; i++) { buf[i] = value & 0xFF; value >>= 8; }`
unfoldable pub write_up : Bytes → ℕ → ℕ → ℕ → Option Bytes
write_up buf off value zero = some buf
write_up buf off value (suc n) = do
  b ← store buf off (bit_and value 0xff)
  write_up b (off + 1) (value / 2 ^ 8) n

-- `for (i = size - 1; i >= 0; i--) { buf[i] = value & 0xFF; value >>= 8; }`
unfoldable pub write_down : Bytes → ℕ → ℕ → ℕ → Option Bytes
write_down buf off value zero = some buf
write_down buf off value (suc n) = do
  b ← store buf (off + n) (bit_and value 0xff)
  write_down b off (value / 2 ^ 8) n

unfoldable pub write_native_uint : Bytes → ℕ → ℕ → ℕ → ℕ → Option Bytes
write_native_uint buf off value size endianness =
    if endianness == endian_little
    then write_up buf off value size
    else write_down buf off value size

-- `value = (value << 8) | byte`
abbrev pub shift_in : ℕ → ℕ → ℕ
shift_in value byte = bit_or (u64 (value * 2 ^ 8)) byte

-- `for (i = size - 1; i >= 0; i--) value = (value << 8) | buf[i];`
unfoldable pub read_down : Bytes → ℕ → ℕ → ℕ → Option ℕ
read_down buf off value zero = some value
read_down buf off value (suc n) = do b ← load buf (off + n); read_down buf off (shift_in value b) n

-- `for (i = 0; i < size; i++) value = (value << 8) | buf[i];`
unfoldable pub read_up : Bytes → ℕ → ℕ → ℕ → Option ℕ
read_up buf off value zero = some value
read_up buf off value (suc n) = do b ← load buf off; read_up buf (off + 1) (shift_in value b) n

unfoldable pub read_native_uint : Bytes → ℕ → ℕ → ℕ → Option ℕ
read_native_uint buf off size endianness =
    if endianness == endian_little then read_down buf off 0 size else read_up buf off 0 size

-- `~x` on 64 bits
abbrev complement : ℕ → ℕ
complement x = 2 ^ 64 - 1 - x

-- The sign extension at the end of zbc_read_native_int; `sizeof(intptr_t)` is 8.
unfoldable pub sign_extend : ℕ → ℕ → ℕ
sign_extend size value =
    if ltb 0 size && ltb size 8
    then (if bit_and value (u64 (2 ^ (size * 8 - 1))) == 0
        then value
        else bit_or value (complement (u64 (2 ^ (size * 8)) - 1)))
    else value

unfoldable pub read_native_int : Bytes → ℕ → ℕ → ℕ → Option ℕ
read_native_int buf off size endianness = do
  value ← if endianness == endian_little then read_down buf off 0 size else read_up buf off 0 size
  some (sign_extend size value)
