-- ===== src/Tests/Formats.antt =====
-- The RIFF layer, the integers in the guest's byte order, and the opcode tables.
use semihost.Base.{
  ℕ, ◌-◌, ◌+◌, ◌<◌, ◌≤◌, ◌^◌, ◌⊎◌, ◌↔◌, inl, inr, true, some, [], ◌∷◌, replicate, ◌≡◌, refl, arith,
}
use semihost.Host.Dispatch.{dispatch_lookup}
use semihost.Memory.{Bytes, IsBytes, is_bytes-IsBytes, Yields, ◌>>=◌, load}
use semihost.Native.{write_native_uint, read_native_int}
use semihost.Native.Sign.{read_native_int-write_native_uint}
use semihost.Opcode.{opcode_lookup}
use semihost.Opcode.Agreement.Answers.{IsAgreed, opcode_lookup-dispatch_lookup}
use semihost.Riff.{ok, is_ok, id_riff, id_semi, id_call}
use semihost.Riff.Chunk.{chunk_validate, chunk_find}
use semihost.Riff.Chunk.Laws.{IsFind, chunk_find-IsFind, chunk_validate_wrap}
use semihost.Riff.Container.{riff_validate, riff_end}
use semihost.Riff.Container.Laws.{riff_validate-ok_iff, riff_validate_wrap}
use semihost.Riff.Parse.{parse_container}
use semihost.Riff.Parse.Safety.{IsParsed}
use semihost.Riff.Parse.Walk.{parse_container-Yields}
use semihost.Riff.Writer.{begin_chunk, read_header}
use semihost.Riff.Writer.Laws.{patch_begun, read_header-begin_chunk}
use semihost.Tests.{request}
use semihost.Word.{u32, make_fourcc, read_u32_le}

request-IsBytes : IsBytes request
request-IsBytes = is_bytes-IsBytes request refl

request_id : read_u32_le request 0 ≡ some id_riff
unfolding read_u32_le load make_fourcc
request_id = refl

request_form : read_u32_le request 8 ≡ some id_semi
unfolding read_u32_le load make_fourcc
request_form = refl

request_size : read_u32_le request 4 ≡ some 132
unfolding read_u32_le load make_fourcc
request_size = refl

request_no_wrap : (size : ℕ) → read_u32_le request 4 ≡ some size → size + 8 < 2 ^ 32 ⊎ 140 < 12
request_no_wrap size h = let e : size ≡ 132 = cc (h, request_size) in inl (omega arith)

parse_container-Yields_example :
    Yields (λ r. is_ok r.0 ≡ true → IsParsed 140 r.1) (parse_container request 140 4 0)
parse_container-Yields_example =
    parse_container-Yields request request-IsBytes 140 (omega arith) 4 0 request_no_wrap

opcode_lookup-dispatch_lookup_example : IsAgreed 6 (opcode_lookup 6) (dispatch_lookup 6)
opcode_lookup-dispatch_lookup_example = opcode_lookup-dispatch_lookup 6 (omega arith)

-- -2 in two bytes, most significant first
read_native_int-write_native_uint_example :
    (b : Bytes) × (write_native_uint (replicate 5 0) 1 (2 ^ 64 - 2) 2 1 ≡ some b)
    × (read_native_int b 1 2 1 ≡ some (2 ^ 64 - 2))
read_native_int-write_native_uint_example =
    read_native_int-write_native_uint (replicate 5 0) 1 (2 ^ 64 - 2) 2 1 (inr (inl refl))
      (inr (omega arith, omega arith)) (omega arith)

chunk_find-IsFind_example :
    Yields (IsFind request 12 140 id_call) (chunk_find request true (some 12) (some 140) id_call)
chunk_find-IsFind_example = chunk_find-IsFind request request-IsBytes 140 (omega arith) id_call 12

-- A chunk that announces 2 ^ 32 - 1 bytes in a container of eight
abbrev huge_chunk : Bytes
huge_chunk = 68 ∷ 65 ∷ 84 ∷ 65 ∷ 255 ∷ 255 ∷ 255 ∷ 255 ∷ []

huge_size : read_u32_le huge_chunk 4 ≡ some (2 ^ 32 - 1)
unfolding read_u32_le load make_fourcc
huge_size = refl

chunk_validate_wrap_example : chunk_validate huge_chunk (some 0) (some 8) ≡ some ok
chunk_validate_wrap_example = chunk_validate_wrap huge_chunk 0 8 huge_size (omega arith)

riff_validate-ok_iff_example :
    (riff_validate (some request) 140 id_semi ≡ some ok)
    ↔ ((12 ≤ 140) × (id_riff ≡ id_riff) × (id_semi ≡ id_semi) × (132 + 8 ≤ 140))
riff_validate-ok_iff_example =
    riff_validate-ok_iff request id_riff id_semi 132 request_id request_form request_size 140
      id_semi (omega arith)

-- A container of twelve bytes that announces 2 ^ 32 - 8 more
abbrev huge_riff : Bytes
huge_riff = 82 ∷ 73 ∷ 70 ∷ 70 ∷ 248 ∷ 255 ∷ 255 ∷ 255 ∷ 83 ∷ 69 ∷ 77 ∷ 73 ∷ []

riff_id : read_u32_le huge_riff 0 ≡ some id_riff
unfolding read_u32_le load make_fourcc
riff_id = refl

riff_form : read_u32_le huge_riff 8 ≡ some id_semi
unfolding read_u32_le load make_fourcc
riff_form = refl

riff_size : read_u32_le huge_riff 4 ≡ some (2 ^ 32 - 8)
unfolding read_u32_le load make_fourcc
riff_size = refl

riff_validate_wrap_example :
    (riff_validate (some huge_riff) 12 id_semi ≡ some ok)
    × (end : ℕ) × (riff_end true (some huge_riff) ≡ some (ok, some end))
    × (2 ^ 32 ≤ end)
riff_validate_wrap_example =
    riff_validate_wrap huge_riff id_riff id_semi (2 ^ 32 - 8) riff_id riff_form riff_size 12 refl
      (omega arith) (omega arith) (omega arith)

read_header-begin_chunk_example :
    (b : Bytes) × ((begin_chunk (replicate 20 255) 20 4 id_call >>= λ r. patch_begun r 9) ≡ some b)
    × (read_header b 20 4 ≡ some (ok, some (u32 id_call, u32 9)))
read_header-begin_chunk_example =
    read_header-begin_chunk (replicate 20 255) 4 id_call 9 (omega arith) (omega arith)
