-- ===== src/Riff/Container/Laws.antt =====
-- Which containers zbc_riff_validate accepts, and where zbc_riff_end puts their ends.
use semihost.Base.{ℕ, ◌+◌, ◌^◌, ◌<◌, ◌≤◌, true, some, ◌≡◌, ◌↔◌, refl, arith}
use semihost.Memory.{Bytes}
use semihost.Riff.{ok, id_riff}
use semihost.Riff.Container.{riff_validate, riff_end, validate_fields}
use semihost.Word.{read_u32_le}

module _ (buf : Bytes) (id form size : ℕ) (e : read_u32_le buf 0 ≡ some id)
    (f : read_u32_le buf 8 ≡ some form) (g : read_u32_le buf 4 ≡ some size) where
  -- A container whose total size fits 32 bits is accepted exactly when it starts with `RIFF`, is of
  -- the expected form, and the buffer holds a header and the whole container.
  pub riff_validate-ok_iff :
      (buf_size expected : ℕ)
      → size + 8 < 2 ^ 32
      → (riff_validate (some buf) buf_size expected ≡ some ok)
        ↔ ((12 ≤ buf_size) × (id ≡ id_riff) × (form ≡ expected) × (size + 8 ≤ buf_size))
  unfolding riff_validate validate_fields
  riff_validate-ok_iff buf_size expected h = rw (e, f, g) (ground arith)

  -- A container of the expected form whose total size wraps the 32-bit sum is accepted in any
  -- buffer that holds its header, and its end is at least 2 ^ 32 bytes behind its start.
  pub riff_validate_wrap :
      (buf_size : ℕ)
      → id ≡ id_riff
      → size < 2 ^ 32
      → 2 ^ 32 ≤ size + 8
      → 12 ≤ buf_size
      → (riff_validate (some buf) buf_size form ≡ some ok)
        × (end : ℕ) × (riff_end true (some buf) ≡ some (ok, some end))
        × (2 ^ 32 ≤ end)
  unfolding riff_validate riff_end validate_fields
  riff_validate_wrap buf_size starts small wraps room =
      rw (e, f, g) (ground arith, 4 + 4 + size, refl, omega arith)
