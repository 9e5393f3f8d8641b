-- ===== src/Riff/Writer/Laws.antt =====
-- The chunk writers and readers by offset of src/shared/zbc_riff.c together.
use semihost.Base.{
  ℕ, ◌+◌, ◌%◌, ◌^◌, ◌<◌, ◌≤◌, false, Option, none, some, ◌≡◌, arith, length, ltb, if◌then◌else◌,
  ◌++◌,
}
use semihost.Memory.{Bytes, split_at, ◌>>=◌, >>=-eq-some}
use semihost.Riff.{ok}
use semihost.Riff.Writer.{begin_chunk, patch_size, read_header, skip_chunk}
use semihost.Word.{u32, u32_le, read_u32_le, write_u32_le}
use semihost.Word.Header.{write_both, write_second, read_first, read_second}
use semihost.Word.Laws.{pad_size_u32_lem, length-u32_le}

-- The size that a header holds is patched at the pointer that zbc_riff_begin_chunk returned.
unfoldable pub patch_begun : Option ℕ × ℕ × Bytes → ℕ → Option Bytes
patch_begun r n = elim r.0 [ none ↦ none | some p ↦ patch_size r.2 p n ]

begun :
    (pre old post buf : Bytes) (offset fourcc size : ℕ)
    → buf ≡ pre ++ (old ++ post)
    → length pre ≡ offset
    → length old ≡ 8
    → (write_u32_le buf offset fourcc >>= λ b.
          write_u32_le b (offset + 4) 0 >>= λ c. some (some (offset + 4), offset + 8, c))
        >>= (λ r. patch_begun r size)
      ≡ some (pre ++ (u32_le fourcc ++ (u32_le size ++ post)))
unfolding patch_begun patch_size
begun pre old post buf offset fourcc size e l n =
    let (x, ex, wx) =
      >>=-eq-some (write_u32_le (pre ++ (old ++ post)) (length pre) fourcc)
        (λ x. write_u32_le x (length pre + 4) 0) (write_both pre old post fourcc 0 n) in
    rw (e, ← l, ex, wx) (write_second pre (u32_le 0) post fourcc size (length-u32_le 0))

-- Where a header fits a buffer shorter than 2 ^ 64 bytes, starting a chunk and patching its size
-- leaves a header that reads back as the chunk's id and that size, both cut to 32 bits.
pub read_header-begin_chunk :
    (buf : Bytes) (offset fourcc size : ℕ)
    → offset + 8 ≤ length buf
    → length buf < 2 ^ 64
    → (b : Bytes) × ((begin_chunk buf (length buf) offset fourcc >>= λ r. patch_begun r size)
        ≡ some b)
      × (read_header b (length buf) offset ≡ some (ok, some (u32 fourcc, u32 size)))
unfolding begin_chunk patch_begun patch_size read_header
read_header-begin_chunk buf offset fourcc size room small =
    let (pre, old, post, e, l, n) = split_at buf offset 8 room in
    let fits : ltb (length buf) ((offset + 8) % 2 ^ 64) ≡ false = ground arith in
    (
      pre ++ (u32_le fourcc ++ (u32_le size ++ post)),
      rw fits (begun pre old post buf offset fourcc size e l n),
      rw (fits, ← l, read_first pre post fourcc size, read_second pre post fourcc size),
    )

-- Skipping a chunk whose header ends within a capacity below 2 ^ 63 and whose size is below 2 ^ 32
-- - 1 gives the offset behind its padded data, or 0 when that lies beyond the capacity.
skip_chunk_lem :
    (buf : Bytes) (capacity offset fourcc size : ℕ)
    → offset + 8 ≤ capacity
    → capacity < 2 ^ 63
    → read_u32_le buf offset ≡ some fourcc
    → read_u32_le buf (offset + 4) ≡ some size
    → size + 1 < 2 ^ 32
    → let next = offset + 8 + (size + size % 2) in
      skip_chunk buf capacity offset ≡ some (if ltb capacity next then 0 else next)
unfolding skip_chunk read_header
skip_chunk_lem buf capacity offset fourcc size room small e f h =
    ground (arith, pad_size_u32_lem size h)
