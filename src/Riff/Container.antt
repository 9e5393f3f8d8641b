-- ===== src/Riff/Container.antt =====
-- zbc_riff_validate and zbc_riff_end of src/shared/zbc_riff.c. The container starts at offset 0.
pub mod Laws
use semihost.Base.{ℕ, ◌+◌, Bool, true, false, ◌==◌, ltb, not, Option, none, some, if◌then◌else◌}
use semihost.Memory.{Bytes, ◌>>=◌}
use semihost.Riff.{
  Rc, ok, null_arg, header_overflow, bad_riff_magic, bad_form_type, riff_overflow, riff_hdr_size,
  id_riff,
}
use semihost.Word.{u32, read_u32_le}

-- The tests of zbc_riff_validate on the header's fields. `4 + 4 + riff->size` is a sum of 32-bit
-- numbers.
unfoldable pub validate_fields : ℕ → ℕ → ℕ → ℕ → ℕ → Rc
validate_fields riff_id form_type expected_form size buf_size =
    if not (riff_id == id_riff)
    then bad_riff_magic
    else if not (form_type == expected_form)
    then bad_form_type
    else if ltb buf_size (u32 (4 + 4 + size))
    then riff_overflow
    else ok

-- zbc_riff_validate
unfoldable pub riff_validate : Option Bytes → ℕ → ℕ → Option Rc
riff_validate none buf_size expected_form = some null_arg
riff_validate (some buf) buf_size expected_form =
    if ltb buf_size riff_hdr_size then some header_overflow else do
      riff_id ← read_u32_le buf 0
      form_type ← read_u32_le buf 8
      size ← read_u32_le buf 4
      some (validate_fields riff_id form_type expected_form size buf_size)

-- zbc_riff_end. Here the size is added to a pointer.
unfoldable pub riff_end : Bool → Option Bytes → Option (Rc × Option ℕ)
riff_end false riff = some (null_arg, none)
riff_end true none = some (null_arg, none)
riff_end true (some buf) = do size ← read_u32_le buf 4; some (ok, some (4 + 4 + size))
