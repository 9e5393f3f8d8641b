-- ===== src/Host/Request.antt =====
-- parse_request of src/c/zbc_host.c.
pub mod Accepts
use semihost.Base.{
  ℕ, ◌+◌, Bool, true, false, not, ◌==◌, ltb, Option, none, some, length, if◌then◌else◌,
}
use semihost.Host.{
  HostState, guest_bytes, signal_proto_error, report_proto_error, err_invalid_chunk,
  err_malformed_riff, err_missing_cnfg,
}
use semihost.Memory.{Bytes, write_bytes, ◌>>=◌}
use semihost.Riff.{Rc, ok, is_ok, parse_error, buffer_full, id_riff, riff_hdr_size}
use semihost.Riff.Parse.{Parsed, zeroed, parse_container}
use semihost.Word.{u32, read_u32_le}

-- What parse_request leaves: its code, the host's state and `*parsed`
pub record Outcome : Type 0 where
  pub code : Rc
  pub host : HostState
  pub parsed : Parsed

-- "Update state from CNFG if present"
unfoldable pub adopt_cnfg : HostState → Parsed → HostState
adopt_cnfg s p =
    if p.has_cnfg
    then record s {
      guest_int_size = p.int_size;
      guest_ptr_size = p.ptr_size;
      guest_endianness = p.endianness;
      cnfg_received = true;
    }
    else s

-- The tests at the end of parse_request
unfoldable pub require_config : HostState → ℕ → Parsed → Outcome
require_config s riff_addr p =
    if not s.cnfg_received
    then record {
      code = parse_error;
      host = report_proto_error s riff_addr (some p) err_missing_cnfg;
      parsed = p;
    }
    else if not p.has_call
    then record {
      code = parse_error;
      host = report_proto_error s riff_addr (some p) err_invalid_chunk;
      parsed = p;
    }
    else record { code = ok; host = s; parsed = p }

abbrev malformed : HostState → Rc → Outcome
malformed s code = record {
  code = code;
  host = signal_proto_error s err_malformed_riff;
  parsed = zeroed;
}

-- From the copied container on
unfoldable pub parse_copied : HostState → ℕ → ℕ → Option Outcome
unfolding require_config adopt_cnfg
parse_copied s riff_addr total =
    parse_container s.work_buf total s.guest_int_size s.guest_endianness >>= λ r.
    some (
      if is_ok r.0
      then require_config (adopt_cnfg s r.1) riff_addr r.1
      else malformed s parse_error)

-- The tests on the container's header, then the copy of the whole container
unfoldable pub parse_header : (ℕ → ℕ) → HostState → ℕ → ℕ → ℕ → Option Outcome
parse_header guest s riff_addr id riff_size =
    let total = u32 (4 + 4 + riff_size) in
    if not (id == id_riff)
    then some (malformed s parse_error)
    else if ltb (length s.work_buf) total
    then some (malformed s buffer_full)
    else (write_bytes s.work_buf 0 (guest_bytes guest riff_addr total) >>= λ b.
        parse_copied (record s { work_buf = b }) riff_addr total)

-- parse_request
unfoldable pub parse_request : (ℕ → ℕ) → HostState → ℕ → Option Outcome
parse_request guest s riff_addr =
    write_bytes s.work_buf 0 (guest_bytes guest riff_addr riff_hdr_size) >>= λ b.
    read_u32_le b 0 >>= λ id. read_u32_le b 4 >>= λ riff_size.
    parse_header guest (record s { work_buf = b }) riff_addr id riff_size
