-- ===== src/Riff.antt =====
-- The return codes, FourCC codes and wire sizes of include/shared/zbc_protocol.h that
-- src/shared/zbc_riff.c uses, and the RIFF modules below.
pub mod Chunk
pub mod Writer
pub mod Container
pub mod Parse
use semihost.Base.{ℕ, Bool, true, false}
use semihost.Word.{make_fourcc}

-- ZBC_OK and the ZBC_ERR_ codes
pub data Rc : Type 0 where
  ok : Rc
  null_arg header_overflow data_overflow bad_riff_magic bad_form_type riff_overflow : Rc
  not_found buffer_full unknown_opcode not_initialized device_error timeout : Rc
  invalid_arg parse_error again : Rc

-- `rc == ZBC_OK`
abbrev pub is_ok : Rc → Bool
is_ok ok = true
is_ok _ = false

abbrev pub id_riff : ℕ
unfolding make_fourcc
id_riff = make_fourcc b'R' b'I' b'F' b'F'

abbrev pub id_semi : ℕ
unfolding make_fourcc
id_semi = make_fourcc b'S' b'E' b'M' b'I'

abbrev pub id_cnfg : ℕ
unfolding make_fourcc
id_cnfg = make_fourcc b'C' b'N' b'F' b'G'

abbrev pub id_call : ℕ
unfolding make_fourcc
id_call = make_fourcc b'C' b'A' b'L' b'L'

abbrev pub id_parm : ℕ
unfolding make_fourcc
id_parm = make_fourcc b'P' b'A' b'R' b'M'

abbrev pub id_data : ℕ
unfolding make_fourcc
id_data = make_fourcc b'D' b'A' b'T' b'A'

abbrev pub id_retn : ℕ
unfolding make_fourcc
id_retn = make_fourcc b'R' b'E' b'T' b'N'

abbrev pub id_erro : ℕ
unfolding make_fourcc
id_erro = make_fourcc b'E' b'R' b'R' b'O'

abbrev pub riff_hdr_size : ℕ
riff_hdr_size = 12

abbrev pub chunk_hdr_size : ℕ
chunk_hdr_size = 8

abbrev pub cnfg_payload_size : ℕ
cnfg_payload_size = 4

abbrev pub call_hdr_payload_size : ℕ
call_hdr_payload_size = 4

abbrev pub parm_hdr_size : ℕ
parm_hdr_size = 4

abbrev pub data_hdr_size : ℕ
data_hdr_size = 4

abbrev pub erro_payload_size : ℕ
erro_payload_size = 4

abbrev pub retn_errno_size : ℕ
retn_errno_size = 4

abbrev pub erro_prealloc_size : ℕ
erro_prealloc_size = 64

abbrev pub parm_type_int : ℕ
parm_type_int = 1

abbrev pub parm_type_ptr : ℕ
parm_type_ptr = 2

abbrev pub data_type_binary : ℕ
data_type_binary = 1

abbrev pub data_type_string : ℕ
data_type_string = 2

abbrev pub max_parms : ℕ
max_parms = 8

abbrev pub max_data : ℕ
max_data = 4
