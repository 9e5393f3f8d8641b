-- ===== src/Riff/Parse.antt =====
-- The unified parser of src/shared/zbc_riff.c: parse_subchunks and zbc_riff_parse_request. Pointers
-- into the buffer are offsets; the loops run on fuel, and `none` is a read outside the buffer or
-- fuel that ran out.
pub mod Walk
pub mod Safety
use semihost.Base.{
  ℕ, zero, suc, ◌+◌, ◌-◌, Bool, true, false, ◌&&◌, ◌||◌, not, ◌==◌, ltb, leb, Option, none, some,
  List, if◌then◌else◌, set, replicate,
}
use semihost.Memory.{Bytes, load, ◌>>=◌}
use semihost.Native.{read_native_int}
use semihost.Riff.{
  Rc, ok, is_ok, null_arg, data_overflow, invalid_arg, id_semi, id_cnfg, id_call, id_parm, id_data,
  id_retn, id_erro, riff_hdr_size, chunk_hdr_size, cnfg_payload_size, call_hdr_payload_size,
  parm_hdr_size, data_hdr_size, erro_payload_size, retn_errno_size, parm_type_ptr, max_parms,
  max_data,
}
use semihost.Riff.Container.{riff_validate, riff_end}
use semihost.Word.{read_u32_le, read_u16_le, pad_size_u32}

-- An element of `zbc_parsed_t.data`.
pub record DataRef : Type 0 where
  pub ptr : Option ℕ
  pub size : ℕ

-- zbc_parsed_t. `intptr_t` is its 64-bit pattern, and `host_errno` its 32-bit one.
pub record Parsed : Type 0 where
  pub int_size : ℕ
  pub ptr_size : ℕ
  pub endianness : ℕ
  pub has_cnfg : Bool
  pub opcode : ℕ
  pub has_call : Bool
  pub parm_count : ℕ
  pub parms : List ℕ
  pub data_count : ℕ
  pub data_refs : List DataRef
  pub result : ℕ
  pub host_errno : ℕ
  pub has_retn : Bool
  pub proto_error : ℕ
  pub has_erro : Bool
  pub retn_payload_offset : ℕ
  pub retn_payload_capacity : ℕ
  pub erro_payload_offset : ℕ
  pub erro_payload_capacity : ℕ

-- The structure with every byte zero.
abbrev pub zeroed : Parsed
zeroed = record {
  int_size = 0;
  ptr_size = 0;
  endianness = 0;
  has_cnfg = false;
  opcode = 0;
  has_call = false;
  parm_count = 0;
  parms = replicate max_parms 0;
  data_count = 0;
  data_refs = replicate max_data (record { ptr = none; size = 0 });
  result = 0;
  host_errno = 0;
  has_retn = false;
  proto_error = 0;
  has_erro = false;
  retn_payload_offset = 0;
  retn_payload_capacity = 0;
  erro_payload_offset = 0;
  erro_payload_capacity = 0;
}

-- The integer layout that the parser assumes at some point of its walk.
pub record Layout : Type 0 where
  pub int_size : ℕ
  pub ptr_size : ℕ
  pub endian : ℕ

abbrev pub add_parm : Parsed → ℕ → Parsed
add_parm p v = record p { parms = set p.parms p.parm_count v; parm_count = p.parm_count + 1 }

abbrev pub add_data : Parsed → ℕ → ℕ → Parsed
add_data p ptr size = record p {
  data_refs = set p.data_refs p.data_count (record { ptr = some ptr; size = size });
  data_count = p.data_count + 1;
}

-- A PARM chunk whose payload of `size` bytes stands at `at`.
unfoldable pub sub_parm : Bytes → Layout → Parsed → ℕ → ℕ → Option Parsed
sub_parm buf l out at size =
    if leb parm_hdr_size size
    then (load buf at >>= λ parm_type.
        let value_size = if parm_type == parm_type_ptr then l.ptr_size else l.int_size in
        if leb (parm_hdr_size + value_size) size
        then (read_native_int buf (at + parm_hdr_size) value_size l.endian >>= λ v.
            some (add_parm out v))
        else some out)
    else some out

-- A DATA chunk likewise.
unfoldable pub sub_data : Parsed → ℕ → ℕ → Parsed
sub_data out at size =
    if leb data_hdr_size size then add_data out (at + data_hdr_size) (size - data_hdr_size) else out

-- The branches of parse_subchunks on a chunk's id.
unfoldable pub subchunk : Bytes → Layout → Parsed → ℕ → ℕ → ℕ → Option Parsed
subchunk buf l out id at size =
    if id == id_parm && ltb out.parm_count max_parms
    then sub_parm buf l out at size
    else if id == id_data && ltb out.data_count max_data
    then some (sub_data out at size)
    else some out

-- parse_subchunks, from `pos` up to `end`
unfoldable pub parse_subchunks : ℕ → Bytes → Layout → ℕ → ℕ → Parsed → Option Parsed
parse_subchunks zero buf l pos end out = none
parse_subchunks (suc fuel) buf l pos end out =
    if leb (pos + chunk_hdr_size) end
    then (read_u32_le buf pos >>= λ id. read_u32_le buf (pos + 4) >>= λ size.
        if ltb end (pos + chunk_hdr_size + size)
        then some out
        else (subchunk buf l out id (pos + chunk_hdr_size) size >>= λ out'.
            parse_subchunks fuel buf l (pos + (chunk_hdr_size + pad_size_u32 size)) end out'))
    else some out

-- What a top-level chunk leaves: a code other than `ok` ends the parse.
pub record Visit : Type 0 where
  pub code : Rc
  pub layout : Layout
  pub out : Parsed

abbrev is_size : ℕ → Bool
is_size n = n == 1 || n == 2 || n == 4 || n == 8

-- The codes of the two tests on a CNFG chunk's sizes; `sizeof(uintptr_t)` is 8.
unfoldable pub cnfg_code : ℕ → ℕ → Rc
cnfg_code int_size ptr_size =
    if not (is_size int_size) || not (is_size ptr_size)
    then invalid_arg
    else if ltb 8 int_size || ltb 8 ptr_size
    then invalid_arg
    else ok

-- The layout in force after a CNFG chunk: it changes only if the sizes pass.
abbrev cnfg_layout : Rc → Layout → Layout → Layout
cnfg_layout ok old new = new
cnfg_layout _ old new = old

-- The branch for ZBC_ID_CNFG
unfoldable pub visit_cnfg : Bytes → Layout → Parsed → ℕ → ℕ → Option Visit
unfolding cnfg_code
visit_cnfg buf l out at size =
    if leb cnfg_payload_size size
    then (load buf at >>= λ int_size. load buf (at + 1) >>= λ ptr_size.
        load buf (at + 2) >>= λ endian.
        let code = cnfg_code int_size ptr_size in
        some (record {
          code = code;
          layout =
              cnfg_layout code l
                (record { int_size = int_size; ptr_size = ptr_size; endian = endian });
          out = record out {
            int_size = int_size;
            ptr_size = ptr_size;
            endianness = endian;
            has_cnfg = true;
          };
        }))
    else some (record { code = ok; layout = l; out = out })

abbrev go_on : Layout → Option Parsed → Option Visit
go_on l m = m >>= λ out. some (record { code = ok; layout = l; out = out })

-- The branch for ZBC_ID_CALL
unfoldable pub visit_call : Bytes → Layout → Parsed → ℕ → ℕ → Option Parsed
visit_call buf l out at size =
    if leb call_hdr_payload_size size
    then (load buf at >>= λ opcode.
        parse_subchunks (suc size) buf l (at + call_hdr_payload_size) (at + size)
          (record out { opcode = opcode; has_call = true }))
    else some out

-- The branch for ZBC_ID_RETN
unfoldable pub visit_retn : Bytes → Layout → Parsed → ℕ → ℕ → Option Parsed
visit_retn buf l out at size =
    let marked = record out {
      has_retn = true;
      retn_payload_offset = at;
      retn_payload_capacity = size;
    } in
    if leb (l.int_size + retn_errno_size) size
    then (read_native_int buf at l.int_size l.endian >>= λ result.
        read_u32_le buf (at + l.int_size) >>= λ host_errno.
        parse_subchunks (suc size) buf l (at + l.int_size + retn_errno_size) (at + size)
          (record marked { result = result; host_errno = host_errno }))
    else some marked

-- The branch for ZBC_ID_ERRO
unfoldable pub visit_erro : Bytes → Parsed → ℕ → ℕ → Option Parsed
visit_erro buf out at size =
    let marked = record out {
      has_erro = true;
      erro_payload_offset = at;
      erro_payload_capacity = size;
    } in
    if leb erro_payload_size size
    then (read_u16_le buf at >>= λ proto_error. some (record marked { proto_error = proto_error }))
    else some marked

-- The branches of the walk on a chunk's id; other chunks are skipped.
unfoldable pub visit : Bytes → Layout → Parsed → ℕ → ℕ → ℕ → Option Visit
visit buf l out id at size =
    if id == id_cnfg
    then visit_cnfg buf l out at size
    else if id == id_call
    then go_on l (visit_call buf l out at size)
    else if id == id_retn
    then go_on l (visit_retn buf l out at size)
    else if id == id_erro
    then go_on l (visit_erro buf out at size)
    else some (record { code = ok; layout = l; out = out })

-- The walk over the top-level chunks in zbc_riff_parse_request
unfoldable pub walk : ℕ → Bytes → Layout → ℕ → ℕ → Parsed → Option (Rc × Parsed)
walk zero buf l pos end out = none
walk (suc fuel) buf l pos end out =
    if leb (pos + chunk_hdr_size) end
    then (read_u32_le buf pos >>= λ id. read_u32_le buf (pos + 4) >>= λ size.
        if ltb end (pos + chunk_hdr_size + size)
        then some (data_overflow, out)
        else (visit buf l out id (pos + chunk_hdr_size) size >>= λ v.
            let rest =
              walk fuel buf v.layout (pos + (chunk_hdr_size + pad_size_u32 size)) end v.out in
            if is_ok v.code then rest else some (v.code, v.out)))
    else some (ok, out)

-- The walk from the container's header up to the end that zbc_riff_end gives
abbrev walk_to : Option ℕ → Bytes → Layout → Option (Rc × Parsed)
walk_to none buf l = some (null_arg, zeroed)
walk_to (some end) buf l = walk (suc end) buf l riff_hdr_size end zeroed

-- zbc_riff_parse_request behind its NULL tests; `*out` starts zeroed
unfoldable pub parse_container : Bytes → ℕ → ℕ → ℕ → Option (Rc × Parsed)
parse_container buf buf_size int_size endian = riff_validate (some buf) buf_size id_semi >>= λ rc.
    if is_ok rc
    then (riff_end true (some buf) >>= λ r.
        walk_to r.1 buf (record { int_size = int_size; ptr_size = int_size; endian = endian }))
    else some (rc, zeroed)

-- zbc_riff_parse_request: the code and what `*out` holds afterwards
unfoldable pub parse_request :
    Option Parsed → Option Bytes → ℕ → ℕ → ℕ → Option (Rc × Option Parsed)
parse_request none buf buf_size int_size endian = some (null_arg, none)
parse_request (some out) none buf_size int_size endian = some (null_arg, some out)
parse_request (some out) (some buf) buf_size int_size endian =
    parse_container buf buf_size int_size endian >>= λ r. some (r.0, some r.1)
