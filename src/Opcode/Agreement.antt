-- ===== src/Opcode/Agreement.antt =====
-- The client's opcode table against the host's dispatch table.
pub mod Reads
pub mod Answers
use semihost.Base.{
  ℕ, zero, suc, ◌<◌, Bool, true, false, ◌&&◌, ◌==◌, leb, Option, none, some, List, [], ◌∷◌, ◌≡◌,
  refl, arith, Bool-cases, inl, inr, if◌then◌else◌,
}
use semihost.Host.Callers.{
  Caller, call_fd, call_fd_flen, call_fd_int, call_fd_read, call_fd_write, call_path,
  call_path_mode, call_mkdir, call_path_path, call_path_buf, call_fd_buf_sz, call_fd_stat,
  call_fd_len64, call_path_buf_sz, call_tmpnam, call_writec, call_write0, call_uint, call_exit,
  call_elapsed, call_iserror, call_cmdline, call_heapinfo,
}
use semihost.Host.Dispatch.{DispatchEntry, dispatch_lookup}
use semihost.Opcode.{
  ChunkType, ChunkDesc, RespType, OpcodeEntry, opcode_lookup, parm_int, parm_uint, data_ptr,
  data_str, data_byte, int,
}

-- How many PARM and DATA chunks the client sends for an entry
abbrev pub is_parm : ChunkType → Bool
is_parm parm_int = true
is_parm parm_uint = true
is_parm _ = false

abbrev pub is_data : ChunkType → Bool
is_data data_ptr = true
is_data data_str = true
is_data data_byte = true
is_data _ = false

abbrev pub sent : (ChunkType → Bool) → List ChunkDesc → ℕ
sent is [] = 0
sent is (c ∷ cs) = let n = sent is cs in if is c.type then suc n else n

-- The number of PARM values that a wrapper reads (call_exit reads its second one only if it came)
abbrev pub parms_read : Caller → ℕ
parms_read call_fd = 1
parms_read call_fd_flen = 1
parms_read call_fd_int = 2
parms_read call_fd_read = 2
parms_read call_fd_write = 1
parms_read call_path_mode = 1
parms_read call_mkdir = 2
parms_read call_fd_buf_sz = 2
parms_read call_fd_stat = 1
parms_read call_fd_len64 = 1
parms_read call_path_buf_sz = 2
parms_read call_tmpnam = 2
parms_read call_uint = 1
parms_read call_exit = 1
parms_read call_iserror = 1
parms_read call_cmdline = 1
parms_read _ = 0

-- The number of DATA references that it reads
abbrev pub data_read : Caller → ℕ
data_read call_fd_write = 1
data_read call_path = 1
data_read call_path_mode = 1
data_read call_mkdir = 1
data_read call_path_path = 2
data_read call_path_buf = 1
data_read call_fd_len64 = 1
data_read call_path_buf_sz = 1
data_read call_writec = 1
data_read call_write0 = 1
data_read _ = 0

-- Whether it may answer with data
abbrev pub answers_data : Caller → Bool
answers_data call_fd_read = true
answers_data call_path_buf = true
answers_data call_fd_buf_sz = true
answers_data call_fd_stat = true
answers_data call_path_buf_sz = true
answers_data call_tmpnam = true
answers_data call_elapsed = true
answers_data call_cmdline = true
answers_data call_heapinfo = true
answers_data _ = false

abbrev pub expects_data : RespType → Bool
expects_data int = false
expects_data _ = true

abbrev pub same : Bool → Bool → Bool
same true b = b
same false true = false
same false false = true

abbrev pub agree : ℕ → OpcodeEntry → DispatchEntry → Bool
agree op e d =
    (e.opcode == op)
    && (d.opcode == op)
    && leb (parms_read d.caller) (sent is_parm e.params)
    && leb (data_read d.caller) (sent is_data e.params)
    && same (answers_data d.caller) (expects_data e.resp_type)

abbrev pub agrees : ℕ → Option OpcodeEntry → Option DispatchEntry → Bool
agrees op none none = true
agrees op (some e) (some d) = agree op e d
agrees op _ _ = false

pub both : (a b : Bool) → (a && b) ≡ true → (a ≡ true) × (b ≡ true)
both true b h = (refl, h)
both false b h = cc

abbrev all_agree : ℕ → Bool
all_agree zero = true
all_agree (suc n) = agrees n (opcode_lookup n) (dispatch_lookup n) && all_agree n

all_agree_below : all_agree 256 ≡ true
unfolding opcode_lookup dispatch_lookup
all_agree_below = refl

agrees_below :
    (n op : ℕ)
    → all_agree n ≡ true
    → op < n
    → agrees op (opcode_lookup op) (dispatch_lookup op) ≡ true
agrees_below zero op h l = absurd (omega arith)
agrees_below (suc n) op h l = elim (Bool-cases (op == n)) [
  | inl last ↦ let e : op ≡ n = ground arith in rw e (both _ _ h).0
  | inr before ↦ agrees_below n op (both _ _ h).1 (ground arith)
]

pub tables_agree : (op : ℕ) → op < 256 → agrees op (opcode_lookup op) (dispatch_lookup op) ≡ true
tables_agree op h = agrees_below 256 op all_agree_below h
