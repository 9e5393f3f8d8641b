-- ===== src/Client/Response.antt =====
-- zbc_parse_response of src/c/zbc_client.c. `int` fields are their 32-bit patterns.
pub mod Safety
use semihost.Base.{
  ℕ, zero, suc, ◌+◌, ◌-◌, Bool, true, false, ◌&&◌, not, ◌==◌, ltb, leb, Option, none, some,
  if◌then◌else◌,
}
use semihost.Client.{ClientState}
use semihost.Memory.{Bytes, ◌>>=◌}
use semihost.Native.{read_native_int}
use semihost.Riff.{
  Rc, ok, is_ok, data_overflow, invalid_arg, parse_error, id_semi, id_data, id_retn, id_erro,
  riff_hdr_size, chunk_hdr_size, data_hdr_size, erro_payload_size, retn_errno_size,
}
use semihost.Riff.Container.{riff_validate, riff_end}
use semihost.Word.{u32, read_u32_le, read_u16_le, pad_size_u32}

-- zbc_response_t
pub record Response : Type 0 where
  pub result : ℕ
  pub error_code : ℕ
  pub data_ptr : Option ℕ
  pub data_size : ℕ
  pub is_error : Bool
  pub proto_error : ℕ

abbrev pub empty_response : Response
empty_response = record {
  result = 0;
  error_code = 0;
  data_ptr = none;
  data_size = 0;
  is_error = false;
  proto_error = 0;
}

-- The walk's variables besides the position
pub record Found : Type 0 where
  pub response : Response
  pub retn : Bool
  pub erro : Bool

-- The search for the first DATA sub-chunk of RETN, from `pos` up to `end`
unfoldable pub find_data : ℕ → Bytes → ℕ → ℕ → Response → Option Response
find_data zero buf pos end r = none
find_data (suc fuel) buf pos end r =
    if leb (pos + chunk_hdr_size) end
    then (read_u32_le buf pos >>= λ id. read_u32_le buf (pos + 4) >>= λ size.
        let rest = find_data fuel buf (pos + (chunk_hdr_size + pad_size_u32 size)) end r in
        if ltb end (pos + chunk_hdr_size + size)
        then some r
        else if id == id_data && leb data_hdr_size size
        then some (record r {
          data_ptr = some (pos + chunk_hdr_size + data_hdr_size);
          data_size = size - data_hdr_size;
        })
        else rest)
    else some r

-- The branch for ZBC_ID_RETN
unfoldable pub on_retn : Bytes → ClientState → ℕ → ℕ → Found → Option Found
on_retn buf state at size f =
    if leb (state.int_size + retn_errno_size) size
    then (read_native_int buf at state.int_size state.endianness >>= λ result.
        read_u32_le buf (at + state.int_size) >>= λ error_code.
        find_data (suc size) buf (at + state.int_size + retn_errno_size) (at + size)
          (record (f.response) { result = u32 result; error_code = error_code })
        >>= λ r. some (record f { response = r; retn = true }))
    else some (record f { retn = true })

-- The branch for ZBC_ID_ERRO
unfoldable pub on_erro : Bytes → ℕ → ℕ → Found → Option Found
on_erro buf at size f =
    if leb erro_payload_size size
    then (read_u16_le buf at >>= λ code.
        some (record f { response = record (f.response) { proto_error = code }; erro = true }))
    else some (record f { erro = true })

unfoldable pub on_chunk : Bytes → ClientState → ℕ → ℕ → ℕ → Found → Option Found
on_chunk buf state id at size f =
    if id == id_retn
    then on_retn buf state at size f
    else if id == id_erro
    then on_erro buf at size f
    else some f

-- The walk over the top-level chunks
unfoldable pub response_walk : ℕ → Bytes → ClientState → ℕ → ℕ → Found → Option (Rc × Found)
response_walk zero buf state pos end f = none
response_walk (suc fuel) buf state pos end f =
    if leb (pos + chunk_hdr_size) end
    then (read_u32_le buf pos >>= λ id. read_u32_le buf (pos + 4) >>= λ size.
        if ltb end (pos + chunk_hdr_size + size)
        then some (data_overflow, f)
        else (on_chunk buf state id (pos + chunk_hdr_size) size f >>= λ f'.
            response_walk fuel buf state (pos + (chunk_hdr_size + pad_size_u32 size)) end f'))
    else some (ok, f)

-- What zbc_parse_response returns after its walk
unfoldable pub conclude : Found → Rc × Response
conclude f =
    if f.erro && not (f.response.proto_error == 0)
    then (ok, record (f.response) { is_error = true })
    else if f.retn
    then (ok, f.response)
    else (parse_error, f.response)

abbrev response_from : Option ℕ → Bytes → ClientState → Option (Rc × Response)
response_from none buf state = some (invalid_arg, empty_response)
response_from (some end) buf state =
    response_walk (suc end) buf state riff_hdr_size end
      (record { response = empty_response; retn = false; erro = false })
    >>= λ r. some (if is_ok r.0 then conclude r.1 else (r.0, r.1.response))

-- zbc_parse_response behind its NULL tests
unfoldable pub parse_response : Bytes → ℕ → ClientState → Option (Rc × Response)
unfolding conclude
parse_response buf capacity state = riff_validate (some buf) capacity id_semi >>= λ rc.
    if is_ok rc
    then (riff_end true (some buf) >>= λ r. response_from r.1 buf state)
    else some (rc, empty_response)
