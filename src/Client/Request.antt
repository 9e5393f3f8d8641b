-- ===== src/Client/Request.antt =====
-- The chunk writers and build_request of src/c/zbc_client.c.
use semihost.Base.{
  ℕ, ◌+◌, ◌-◌, Bool, true, false, ◌==◌, ltb, not, bit_and, Option, some, List, [], ◌∷◌, length,
  if◌then◌else◌, replicate,
}
use semihost.Client.{ClientState, arg, read_bytes, strlen, retn_capacity}
use semihost.Memory.{Bytes, load, store, write_bytes, ◌>>=◌}
use semihost.Native.{write_native_uint}
use semihost.Opcode.{
  OpcodeEntry, ChunkDesc, ChunkType, unused, parm_int, parm_uint, data_ptr, data_str, data_byte,
  other,
}
use semihost.Riff.{
  Rc, ok, is_ok, buffer_full, unknown_opcode, id_riff, id_semi, id_cnfg, id_call, id_parm, id_data,
  id_retn, id_erro, riff_hdr_size, chunk_hdr_size, cnfg_payload_size, call_hdr_payload_size,
  parm_hdr_size, data_hdr_size, erro_prealloc_size, parm_type_int, data_type_binary,
  data_type_string,
}
use semihost.Word.{u8, u64, write_u32_le, pad_size}

-- The request buffer while it is filled: its bytes, `*pos` and the client's state.
pub record Draft : Type 0 where
  pub buf : Bytes
  pub pos : ℕ
  pub state : ClientState

abbrev pub Step : Type 0
Step = Option (Rc × Draft)

-- `rc = m; if (rc != ZBC_OK) return rc;`
infixl 5 ◌on_ok◌
unfoldable pub ◌on_ok◌ : Step → (Draft → Step) → Step
m on_ok f = m >>= λ r. let rest = f r.1 in if is_ok r.0 then rest else some r

-- ZBC_CHUNK_WRITE_HDR
unfoldable pub chunk_write_hdr : Bytes → ℕ → ℕ → ℕ → Option Bytes
chunk_write_hdr buf at id size = write_u32_le buf at id >>= λ b. write_u32_le b (at + 4) size

-- ZBC_RIFF_WRITE_HDR, at the start of the buffer
unfoldable pub riff_write_hdr : Bytes → ℕ → ℕ → Option Bytes
riff_write_hdr buf size form =
    write_u32_le buf 0 id_riff >>= λ b. write_u32_le b 4 size >>= λ c. write_u32_le c 8 form

-- `pos` moves behind what was just written.
abbrev pub moved : Draft → Bytes → ℕ → Draft
moved d buf pos = record d { buf = buf; pos = pos }

-- write_cnfg_if_needed
unfoldable pub write_cnfg_if_needed : ℕ → Draft → Step
write_cnfg_if_needed capacity d =
    let total_size = chunk_hdr_size + cnfg_payload_size in
    if d.state.cnfg_sent
    then some (ok, d)
    else if ltb capacity (u64 (d.pos + total_size))
    then some (buffer_full, d)
    else (chunk_write_hdr d.buf d.pos id_cnfg cnfg_payload_size >>= λ b.
        write_bytes b (d.pos + chunk_hdr_size)
          (d.state.int_size ∷ d.state.ptr_size ∷ d.state.endianness ∷ 0 ∷ [])
        >>= λ c. some (
          ok,
          record {
            buf = c;
            pos = d.pos + total_size;
            state = record (d.state) { cnfg_sent = true };
          },
        ))

-- write_parm_chunk
unfoldable pub write_parm_chunk : ℕ → ℕ → Draft → Step
write_parm_chunk capacity value d =
    let payload_size = parm_hdr_size + d.state.int_size in
    let total_size = chunk_hdr_size + pad_size payload_size in
    if ltb capacity (u64 (d.pos + total_size))
    then some (buffer_full, d)
    else (chunk_write_hdr d.buf d.pos id_parm payload_size >>= λ b.
        write_bytes b (d.pos + chunk_hdr_size) (parm_type_int ∷ 0 ∷ 0 ∷ 0 ∷ []) >>= λ c.
        write_native_uint c (d.pos + chunk_hdr_size + 4) value d.state.int_size d.state.endianness
        >>= λ e. some (ok, moved d e (d.pos + total_size)))

-- write_data_chunk, on the bytes that `data` points to
unfoldable pub write_data_chunk : ℕ → Bytes → ℕ → Draft → Step
write_data_chunk capacity src data_type d =
    let payload_size = u64 (data_hdr_size + length src) in
    let total_size = u64 (chunk_hdr_size + pad_size payload_size) in
    if ltb capacity (u64 (d.pos + total_size))
    then some (buffer_full, d)
    else (chunk_write_hdr d.buf d.pos id_data payload_size >>= λ b.
        write_bytes b (d.pos + chunk_hdr_size) (u8 data_type ∷ 0 ∷ 0 ∷ 0 ∷ []) >>= λ c.
        write_bytes c (d.pos + chunk_hdr_size + 4) src >>= λ e.
        (if not (bit_and payload_size 1 == 0)
          then store e (d.pos + chunk_hdr_size + payload_size) 0
          else some e)
        >>= λ f. some (ok, moved d f (d.pos + total_size)))

-- The switch of build_request on one descriptor
unfoldable pub write_param : Bytes → ℕ → Option (List ℕ) → ChunkDesc → Draft → Step
write_param mem capacity args desc d = elim desc.type [
  | unused ↦ some (ok, d)
  | parm_int ↦ arg args desc.slot >>= λ v. write_parm_chunk capacity v d
  | parm_uint ↦ arg args desc.slot >>= λ v. write_parm_chunk capacity v d
  | data_ptr ↦ arg args desc.slot >>= λ p. arg args desc.len_slot >>= λ len.
      read_bytes mem p len >>= λ src. write_data_chunk capacity src data_type_binary d
  | data_str ↦ arg args desc.slot >>= λ p. strlen mem p >>= λ len.
      read_bytes mem p (len + 1) >>= λ src. write_data_chunk capacity src data_type_string d
  | data_byte ↦ arg args desc.slot >>= λ p.
      load mem p >>= λ b. write_data_chunk capacity (b ∷ []) data_type_binary d
  | other ↦ some (unknown_opcode, d)
]

abbrev pub is_unused : ChunkType → Bool
is_unused unused = true
is_unused _ = false

-- The loop of build_request over the descriptors; `unused` ends it.
unfoldable pub write_params : Bytes → ℕ → Option (List ℕ) → List ChunkDesc → Draft → Step
write_params mem capacity args [] d = some (ok, d)
write_params mem capacity args (p ∷ ps) d =
    if is_unused p.type
    then some (ok, d)
    else (write_param mem capacity args p d on_ok write_params mem capacity args ps)

-- The CALL chunk of build_request: header, opcode and sub-chunks, then the size patched
unfoldable pub write_call : Bytes → ℕ → OpcodeEntry → Option (List ℕ) → Draft → Step
write_call mem capacity entry args d =
    if ltb capacity (u64 (d.pos + chunk_hdr_size + call_hdr_payload_size))
    then some (buffer_full, d)
    else (chunk_write_hdr d.buf d.pos id_call 0 >>= λ b.
        write_bytes b (d.pos + chunk_hdr_size) (entry.opcode ∷ 0 ∷ 0 ∷ 0 ∷ []) >>= λ c.
        write_params mem capacity args entry.params
          (moved d c (d.pos + chunk_hdr_size + call_hdr_payload_size))
        on_ok λ e. write_u32_le e.buf (d.pos + 4) (e.pos - (d.pos + chunk_hdr_size)) >>= λ f.
            some (ok, moved e f e.pos))

-- A pre-allocated response chunk of build_request: its header and `padded` zero bytes
unfoldable pub write_prealloc : ℕ → ℕ → ℕ → ℕ → Draft → Step
write_prealloc capacity id size padded d =
    if ltb capacity (u64 (d.pos + u64 (chunk_hdr_size + padded)))
    then some (buffer_full, d)
    else (chunk_write_hdr d.buf d.pos id size >>= λ b.
        write_bytes b (d.pos + chunk_hdr_size) (replicate padded 0) >>= λ c.
        some (ok, moved d c (d.pos + u64 (chunk_hdr_size + padded))))

-- The patch of the container's size at the end of build_request
unfoldable pub finish_request : Draft → Step
finish_request d =
    write_u32_le d.buf 4 (d.pos - riff_hdr_size + 4) >>= λ b. some (ok, moved d b d.pos)

-- build_request; on ZBC_OK the final `pos` is `*out_size`
unfoldable pub build_request :
    Bytes → Bytes → ℕ → ClientState → OpcodeEntry → Option (List ℕ) → Step
build_request mem buf capacity state entry args =
    if ltb capacity riff_hdr_size
    then some (buffer_full, record { buf = buf; pos = 0; state = state })
    else (riff_write_hdr buf 0 id_semi >>= λ b.
        write_cnfg_if_needed capacity (record { buf = b; pos = riff_hdr_size; state = state })
        on_ok write_call mem capacity entry args
        on_ok λ d. retn_capacity entry d.state args >>= λ size.
            write_prealloc capacity id_retn size (pad_size size) d
            on_ok write_prealloc capacity id_erro erro_prealloc_size erro_prealloc_size
            on_ok finish_request)
