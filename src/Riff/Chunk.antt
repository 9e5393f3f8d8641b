-- ===== src/Riff/Chunk.antt =====
-- The struct-based chunk functions of src/shared/zbc_riff.c. A chunk pointer is the chunk's offset
-- in the buffer, and `none` is NULL; an out parameter is a flag that says whether it is not NULL.
pub mod Laws
use semihost.Base.{
  ℕ, zero, suc, ◌+◌, Bool, true, false, ◌==◌, ltb, Option, none, some, if◌then◌else◌,
}
use semihost.Memory.{Bytes, ◌>>=◌}
use semihost.Riff.{
  Rc, ok, is_ok, null_arg, header_overflow, data_overflow, not_found, chunk_hdr_size,
}
use semihost.Word.{read_u32_le, pad_size_u32}

-- zbc_chunk_validate
unfoldable pub chunk_validate : Bytes → Option ℕ → Option ℕ → Option Rc
chunk_validate buf none container_end = some null_arg
chunk_validate buf (some chunk) none = some null_arg
chunk_validate buf (some chunk) (some container_end) =
    if ltb container_end (chunk + chunk_hdr_size) then some header_overflow else do
      size ← read_u32_le buf (chunk + 4)
      some (
          if ltb container_end (chunk + chunk_hdr_size + pad_size_u32 size)
          then data_overflow
          else ok)

-- zbc_chunk_next
unfoldable pub chunk_next : Bytes → Bool → Option ℕ → Option (Rc × Option ℕ)
chunk_next buf false chunk = some (null_arg, none)
chunk_next buf true none = some (null_arg, none)
chunk_next buf true (some chunk) = do
  size ← read_u32_le buf (chunk + 4)
  some (ok, some (chunk + chunk_hdr_size + pad_size_u32 size))

-- zbc_chunk_first_sub
unfoldable pub chunk_first_sub : Bool → Option ℕ → ℕ → Rc × Option ℕ
chunk_first_sub false container header_size = (null_arg, none)
chunk_first_sub true none header_size = (null_arg, none)
chunk_first_sub true (some container) header_size = (ok, some (container + 8 + header_size))

-- zbc_chunk_end
unfoldable pub chunk_end : Bytes → Bool → Option ℕ → Option (Rc × Option ℕ)
chunk_end buf false chunk = some (null_arg, none)
chunk_end buf true none = some (null_arg, none)
chunk_end buf true (some chunk) = do
  size ← read_u32_le buf (chunk + 4)
  some (ok, some (chunk + 8 + size))

-- The loop of zbc_chunk_find, on fuel; the results are the code and what `*out` gets.
unfoldable pub find_loop : ℕ → Bytes → ℕ → ℕ → ℕ → Option (Rc × Option ℕ)
find_loop zero buf chunk end id = none
find_loop (suc fuel) buf chunk end id =
    if ltb chunk end
    then (chunk_validate buf (some chunk) (some end) >>= λ err.
        if is_ok err
        then (read_u32_le buf chunk >>= λ chunk_id.
            if chunk_id == id
            then some (ok, some chunk)
            else (chunk_next buf true (some chunk) >>= λ next. elim next.1 [
              | none ↦ some (next.0, none)
              | some c ↦ find_loop fuel buf c end id
            ]))
        else some (err, none))
    else some (not_found, none)

-- zbc_chunk_find
unfoldable pub chunk_find : Bytes → Bool → Option ℕ → Option ℕ → ℕ → Option (Rc × Option ℕ)
chunk_find buf false start end id = some (null_arg, none)
chunk_find buf true none end id = some (null_arg, none)
chunk_find buf true (some start) none id = some (null_arg, none)
chunk_find buf true (some start) (some end) id = find_loop (suc end) buf start end id
