-- ===== src/Host.antt =====
-- The host library's state and responses, src/c/zbc_host.c. Guest memory is what the embedding's
-- callbacks read and write: a read is a function of the address, and the writes that the host issues
-- are recorded in order, as are the codes that it hands to the device's error callback.
pub mod Request
pub mod Backend
pub mod Callers
pub mod Dispatch
pub mod Confined
pub mod Wire
use semihost.Base.{
  ℕ, zero, suc, ◌+◌, ◌%◌, ◌^◌, Bool, true, false, ◌&&◌, ◌||◌, not, ◌==◌, ltb, bit_and, Option, none,
  some, List, [], ◌∷◌, ◌++◌, length, take, replicate, if◌then◌else◌,
}
use semihost.Memory.{Bytes, load, store, write_bytes, ◌>>=◌}
use semihost.Native.{write_native_uint}
use semihost.Riff.{
  chunk_hdr_size, data_hdr_size, erro_payload_size, retn_errno_size, id_data, data_type_binary,
}
use semihost.Riff.Parse.{Parsed}
use semihost.Word.{u32, u64, u16_le, u32_le, write_u32_le, pad_size}

-- A block that write_guest stores at a guest address.
pub record GuestWrite : Type 0 where
  pub addr : ℕ
  pub bytes : Bytes

-- zbc_host_state_t, and what the host has done so far. `notifies` says whether on_proto_error is set.
pub record HostState : Type 0 where
  pub work_buf : Bytes
  pub guest_int_size : ℕ
  pub guest_ptr_size : ℕ
  pub guest_endianness : ℕ
  pub cnfg_received : Bool
  pub notifies : Bool
  pub writes : List GuestWrite
  pub signals : List ℕ

-- The ZBC_PROTO_ERR_ codes that the host reports
abbrev pub err_invalid_chunk : ℕ
err_invalid_chunk = 1

abbrev pub err_malformed_riff : ℕ
err_malformed_riff = 2

abbrev pub err_missing_cnfg : ℕ
err_missing_cnfg = 3

abbrev pub err_unsupported_op : ℕ
err_unsupported_op = 4

abbrev pub err_missing_retn : ℕ
err_missing_retn = 6

abbrev pub err_retn_too_small : ℕ
err_retn_too_small = 8

-- zbc_host_set_platform_config
unfoldable pub set_platform_config : HostState → ℕ → ℕ → ℕ → HostState
set_platform_config s int_size ptr_size endianness = record s {
  guest_int_size = int_size % 2 ^ 8;
  guest_ptr_size = ptr_size % 2 ^ 8;
  guest_endianness = endianness % 2 ^ 8;
  cnfg_received = true;
}

-- read_guest: the bytes at `addr`, one after the other
unfoldable pub guest_bytes : (ℕ → ℕ) → ℕ → ℕ → Bytes
guest_bytes guest addr zero = []
guest_bytes guest addr (suc n) = guest (u64 addr) % 2 ^ 8 ∷ guest_bytes guest (addr + 1) n

-- write_guest
abbrev pub write_guest : HostState → ℕ → Bytes → HostState
write_guest s addr src = record s {
  writes = s.writes ++ (record { addr = addr; bytes = src } ∷ []);
}

-- signal_proto_error
unfoldable pub signal_proto_error : HostState → ℕ → HostState
signal_proto_error s code =
    if s.notifies then record s { signals = s.signals ++ (code ∷ []) } else s

-- The ERRO payload that report_proto_error stages
abbrev erro_payload : ℕ → Bytes
erro_payload code = u16_le code ++ (0 ∷ 0 ∷ [])

-- report_proto_error, once `parsed` is known not to be NULL
unfoldable pub report_parsed : HostState → ℕ → Parsed → ℕ → HostState
unfolding signal_proto_error
report_parsed s riff_addr p code =
    if not p.has_erro || ltb p.erro_payload_capacity erro_payload_size
    then signal_proto_error s code
    else write_guest s (u64 (riff_addr + p.erro_payload_offset)) (erro_payload code)

-- report_proto_error
unfoldable pub report_proto_error : HostState → ℕ → Option Parsed → ℕ → HostState
report_proto_error s riff_addr none code = signal_proto_error s code
report_proto_error s riff_addr (some p) code = report_parsed s riff_addr p code

-- A call's result: `intmax_t` by its pattern, and the data pointer with its length
pub record CallResult : Type 0 where
  pub result : ℕ
  pub payload : Option Bytes

-- `needed` in write_retn_payload
unfoldable pub needed : ℕ → Option Bytes → ℕ
needed int_size none = int_size + retn_errno_size
needed int_size (some d) =
    if ltb 0 (length d)
    then int_size + retn_errno_size + (chunk_hdr_size + pad_size (data_hdr_size + length d))
    else int_size + retn_errno_size

-- The result and errno that write_retn_payload stages in its 24-byte array, with their length
unfoldable pub stage_result : HostState → ℕ → ℕ → Option (Bytes × ℕ)
stage_result s result err =
    write_native_uint (replicate 24 0) 0 result s.guest_int_size s.guest_endianness >>= λ b.
    write_u32_le b s.guest_int_size (u32 err) >>= λ c. some (c, s.guest_int_size + retn_errno_size)

-- The DATA header that it stages behind them
unfoldable pub stage_data : Bytes → ℕ → Bytes → Option (Bytes × ℕ)
stage_data staged pos d = write_u32_le staged pos id_data >>= λ b.
    write_u32_le b (pos + 4) (data_hdr_size + length d) >>= λ c.
    write_bytes c (pos + 8) (data_type_binary ∷ 0 ∷ 0 ∷ 0 ∷ []) >>= λ e.
    some (e, pos + 8 + data_hdr_size)

-- The writes that follow the staged header: the data, and a pad byte where its size is odd
unfoldable pub write_data : HostState → ℕ → ℕ → Bytes → HostState
write_data s dest pos d =
    let written = write_guest s (u64 (dest + pos)) d in
    if not (bit_and (data_hdr_size + length d) 1 == 0)
    then write_guest written (u64 (dest + pos + length d)) (0 ∷ [])
    else written

-- The writes of write_retn_payload once the response is known to fit
unfoldable pub write_fitting : HostState → ℕ → ℕ → ℕ → Option Bytes → Option HostState
write_fitting s dest result err none =
    stage_result s result err >>= λ r. some (write_guest s dest (take r.1 r.0))
write_fitting s dest result err (some d) = stage_result s result err >>= λ r.
    if ltb 0 (length d)
    then (stage_data r.0 r.1 d >>= λ h.
        some (write_data (write_guest s dest (take h.1 h.0)) dest h.1 d))
    else some (write_guest s dest (take r.1 r.0))

-- write_retn_payload
unfoldable pub write_retn_payload : HostState → ℕ → Parsed → ℕ → ℕ → Option Bytes → Option HostState
write_retn_payload s riff_addr p result err payload =
    if not p.has_retn
    then some (report_proto_error s riff_addr (some p) err_missing_retn)
    else if ltb p.retn_payload_capacity (needed s.guest_int_size payload)
    then some (report_proto_error s riff_addr (some p) err_retn_too_small)
    else write_fitting s (u64 (riff_addr + p.retn_payload_offset)) result err payload
