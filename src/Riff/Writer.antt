-- ===== src/Riff/Writer.antt =====
-- The offset-based chunk writers and readers of src/shared/zbc_riff.c. `*offset` is passed in and
-- out; a pointer to a size field is its offset, and `none` is NULL. `size_t` sums wrap at 2 ^ 64.
pub mod Laws
use semihost.Base.{
  ℕ, ◌+◌, Bool, true, false, ◌&&◌, ◌==◌, ltb, not, Option, none, some, if◌then◌else◌, bit_and, [],
}
use semihost.Memory.{Bytes, store, write_bytes, ◌>>=◌}
use semihost.Riff.{
  Rc, ok, header_overflow, buffer_full, bad_riff_magic, bad_form_type, chunk_hdr_size,
  riff_hdr_size, id_riff,
}
use semihost.Base.{length}
use semihost.Word.{u64, read_u32_le, write_u32_le, pad_size_u32}

-- zbc_riff_begin_chunk: the returned pointer, `*offset` and the buffer
unfoldable pub begin_chunk : Bytes → ℕ → ℕ → ℕ → Option (Option ℕ × ℕ × Bytes)
begin_chunk buf capacity offset fourcc =
    if ltb capacity (u64 (offset + chunk_hdr_size)) then some (none, offset, buf) else do
      b ← write_u32_le buf offset fourcc
      c ← write_u32_le b (offset + 4) 0
      some (some (offset + 4), offset + chunk_hdr_size, c)

-- zbc_riff_patch_size
unfoldable pub patch_size : Bytes → ℕ → ℕ → Option Bytes
patch_size buf size_ptr data_size = write_u32_le buf size_ptr data_size

-- zbc_riff_write_bytes: the code, `*offset` and the buffer
unfoldable pub riff_write_bytes : Bytes → ℕ → ℕ → Bytes → Option (Rc × ℕ × Bytes)
riff_write_bytes buf capacity offset src =
    if ltb capacity (u64 (offset + length src))
    then some (buffer_full, offset, buf)
    else do b ← write_bytes buf offset src; some (ok, offset + length src, b)

-- zbc_riff_pad: `*offset` and the buffer
unfoldable pub riff_pad : Bytes → ℕ → ℕ → Option (ℕ × Bytes)
riff_pad buf capacity offset =
    if not (bit_and offset 1 == 0) && ltb offset capacity
    then (store buf offset 0 >>= λ b. some (offset + 1, b))
    else some (offset, buf)

-- zbc_riff_read_header: the code, and `*fourcc` and `*size` when it is ZBC_OK
unfoldable pub read_header : Bytes → ℕ → ℕ → Option (Rc × Option (ℕ × ℕ))
read_header buf capacity offset =
    if ltb capacity (u64 (offset + chunk_hdr_size)) then some (header_overflow, none) else do
      fourcc ← read_u32_le buf offset
      size ← read_u32_le buf (offset + 4)
      some (ok, some (fourcc, size))

-- zbc_riff_skip_chunk
unfoldable pub skip_chunk : Bytes → ℕ → ℕ → Option ℕ
skip_chunk buf capacity offset = read_header buf capacity offset >>= λ r. elim r.1 [
  | none ↦ some 0
  | some (fourcc, size) ↦
      let next = u64 (offset + (chunk_hdr_size + pad_size_u32 size)) in
      some (if ltb capacity next then 0 else next)
]

-- zbc_riff_begin_container: the returned pointer, `*offset` and the buffer
unfoldable pub begin_container : Bytes → ℕ → ℕ → ℕ → Option (Option ℕ × ℕ × Bytes)
begin_container buf capacity offset form_type =
    if ltb capacity riff_hdr_size then some (none, offset, buf) else do
      b ← write_u32_le buf 0 id_riff
      c ← write_u32_le b 4 0
      d ← write_u32_le c 8 form_type
      some (some 4, riff_hdr_size, d)

-- zbc_riff_validate_container
unfoldable pub validate_container : Bytes → ℕ → ℕ → Option Rc
validate_container buf capacity expected_form_type =
    if ltb capacity riff_hdr_size then some header_overflow else do
      id ← read_u32_le buf 0
      form_type ← read_u32_le buf 8
      some (
          if not (id == id_riff)
          then bad_riff_magic
          else if not (form_type == expected_form_type)
          then bad_form_type
          else ok)
