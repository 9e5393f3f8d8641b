-- ===== src/Client.antt =====
-- The client's state and request builder, src/c/zbc_client.c. Argument pointers are addresses in
-- the client's memory, which the request buffer does not overlap; a read outside it is a fault.
pub mod Request
pub mod Response
pub mod Capacity
pub mod Build
pub mod Reads
pub mod Cnfg
pub mod Safety
use semihost.Base.{
  ℕ, zero, suc, ◌+◌, ◌*◌, length, Bool, true, false, ◌==◌, ltb, Option, none, some, List, [], ◌∷◌,
  if◌then◌else◌, get_elem?,
}
use semihost.Memory.{Bytes, load, ◌>>=◌}
use semihost.Opcode.{OpcodeEntry, int, data_bytes, heapinfo, elapsed}
use semihost.Riff.{chunk_hdr_size, data_hdr_size, retn_errno_size}
use semihost.Word.{u64, pad_size}

-- The fields of zbc_client_state_t that requests are built from.
pub record ClientState : Type 0 where
  pub cnfg_sent : Bool
  pub int_size : ℕ
  pub ptr_size : ℕ
  pub endianness : ℕ

-- zbc_client_reset_cnfg
unfoldable pub reset_cnfg : Option ClientState → Option ClientState
reset_cnfg none = none
reset_cnfg (some s) = some (record s { cnfg_sent = false })

-- `args[slot]`: a read through NULL, or past the caller's array, is a fault.
abbrev pub arg : Option (List ℕ) → ℕ → Option ℕ
arg none slot = none
arg (some args) slot = get_elem? args slot

-- `src[0]` to `src[n - 1]`
unfoldable pub read_bytes : Bytes → ℕ → ℕ → Option Bytes
read_bytes mem addr zero = some []
read_bytes mem addr (suc n) =
    load mem addr >>= λ b. read_bytes mem (addr + 1) n >>= λ bs. some (b ∷ bs)

-- The loop of zbc_strlen; `fuel` is the memory's length, past which it runs off the memory.
unfoldable pub strlen_loop : ℕ → Bytes → ℕ → ℕ → Option ℕ
strlen_loop zero mem s len = none
strlen_loop (suc fuel) mem s len = load mem s >>= λ c.
    let rest = strlen_loop fuel mem (s + 1) (len + 1) in if c == 0 then some len else rest

-- zbc_strlen; address 0 is NULL
unfoldable pub strlen : Bytes → ℕ → Option ℕ
unfolding strlen_loop
strlen mem s = if s == 0 then some 0 else strlen_loop (suc (length mem)) mem s 0

abbrev data_capacity : ℕ → ℕ → ℕ
data_capacity base len = u64 (base + chunk_hdr_size + data_hdr_size + pad_size len)

-- calculate_retn_capacity
unfoldable pub retn_capacity : OpcodeEntry → ClientState → Option (List ℕ) → Option ℕ
retn_capacity entry state args =
    let base = state.int_size + retn_errno_size in
    elim entry.resp_type [
      | int ↦ some base
      | data_bytes ↦ elim args [
        | none ↦ some (data_capacity base 256)
        | some slots ↦ get_elem? slots entry.resp_len_slot >>= λ len. some (data_capacity base len)
      ]
      | heapinfo ↦ some (data_capacity base (4 * state.ptr_size))
      | elapsed ↦ some (data_capacity base 8)
    ]
