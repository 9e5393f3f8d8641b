-- ===== src/Host/Callers.antt =====
-- The typed caller wrappers of src/c/zbc_host.c, one for each backend signature.
pub mod Total
use semihost.Base.{
  ℕ, zero, suc, ◌+◌, ◌-◌, ◌*◌, ◌/◌, ◌^◌, Bool, true, false, ◌&&◌, not, ◌==◌, ltb, leb, bit_or, min,
  Option, none, some, List, [], ◌∷◌, ◌++◌, length, get_or, if◌then◌else◌, replicate,
}
use semihost.Client.{read_bytes, strlen_loop}
use semihost.Host.{CallResult}
use semihost.Host.Backend.{
  Field, Call, Answer, Backend, flen, heapinfo, ctx, fd, fd_int, fd_buf, fd_cbuf, path, path_mode,
  path_path, path_buf, fd_stat, fd_len64, path_buf_sz, tmp_name, put_char, put_string, uint, exit,
  elapsed_ticks, cmdline, heap_info,
}
use semihost.Memory.{Bytes, load, ◌>>=◌}
use semihost.Native.{write_native_uint}
use semihost.Riff.Parse.{Parsed, DataRef}
use semihost.Word.{u32, u64, u32_le}

abbrev pub stat_buf_size : ℕ
stat_buf_size = 48

-- `x < 0` on a 64-bit pattern
abbrev pub is_negative : ℕ → Bool
is_negative x = leb (2 ^ 63) x

-- -1
abbrev pub minus_one : ℕ
minus_one = 2 ^ 64 - 1

abbrev pub parm : Parsed → ℕ → ℕ
parm p i = get_or p.parms i 0

-- `(int)p->parms[i]` and `(unsigned int)p->parms[i]`
abbrev pub parm32 : Parsed → ℕ → ℕ
parm32 p i = u32 (parm p i)

abbrev pub data_at : Parsed → ℕ → DataRef
data_at p i = get_or p.data_refs i (record { ptr = none; size = 0 })

-- The cap of a guest's length at the output buffer's size
abbrev pub capped : ℕ → ℕ → ℕ
capped n size = if ltb size n then size else n

-- The wrappers below, by the function that the table entry names
pub data Caller : Type 0 where
  call_ctx call_fd call_fd_flen call_fd_int call_fd_read call_fd_write call_path : Caller
  call_path_mode call_mkdir call_path_path call_path_buf call_fd_buf_sz call_fd_stat : Caller
  call_fd_len64 call_path_buf_sz call_tmpnam call_writec call_write0 call_uint call_exit : Caller
  call_elapsed call_iserror call_cmdline call_heapinfo : Caller

-- The loop of call_fd_len64: `length |= bytes[i] << (i * 8)`
unfoldable pub length_loop : ℕ → Bytes → ℕ → ℕ → ℕ → Option ℕ
length_loop zero buf at i acc = some acc
length_loop (suc n) buf at i acc =
    load buf (at + i) >>= λ b. length_loop n buf at (i + 1) (bit_or acc (u64 (b * 2 ^ (i * 8))))

-- `bytes` of call_fd_len64; a NULL pointer has size 0, and is not read
unfoldable pub wire_length : Bytes → DataRef → Option ℕ
unfolding length_loop
wire_length buf d = elim d.ptr [
  | none ↦ if d.size == 0 then some 0 else none
  | some at ↦ length_loop (capped d.size 8) buf at 0 0
]

module _ {S : Type 0} (be : Backend S) (buf : Bytes) (size : ℕ) where
  abbrev plain : Call → S → Option (CallResult × S)
  plain c s =
      let (a, s') = be.run c buf size s in some (record { result = a.result; payload = none }, s')

  -- The answer's output, when `wanted` says so
  abbrev pub with_output : (Answer → Option (Option ℕ)) → Call → S → Option (CallResult × S)
  with_output wanted c s =
      let (a, s') = be.run c buf size s in
      wanted a >>= elim [
        | none ↦ some (record { result = a.result; payload = none }, s')
        | some n ↦
            read_bytes a.out 0 n >>= λ d. some (record { result = a.result; payload = some d }, s')
      ]

  abbrev pub failed : S → Option (CallResult × S)
  failed s = some (record { result = minus_one; payload = none }, s)

  -- `r.result == 0` hands over `n` bytes
  abbrev pub on_zero : ℕ → Answer → Option (Option ℕ)
  on_zero n a = some (if a.result == 0 then some n else none)

  -- A positive result is the number of bytes
  abbrev pub on_positive : Answer → Option (Option ℕ)
  on_positive a =
      some (if ltb 0 a.result && not (is_negative a.result) then some a.result else none)

  -- A read hands over the bytes actually read: `count - (size_t)r.result`
  abbrev pub on_read : ℕ → Answer → Option (Option ℕ)
  on_read count a =
      some (if is_negative a.result then none else some (u64 (count + 2 ^ 64 - a.result)))

  -- A string hands over its bytes and the terminator
  abbrev pub on_string : Answer → Option (Option ℕ)
  on_string a =
      if a.result == 0
      then (strlen_loop (suc (length a.out)) a.out 0 0 >>= λ n. some (some (n + 1)))
      else some none

  -- call_writec: nothing is called without a byte
  abbrev pub write_char : Field → Parsed → S → Option (CallResult × S)
  write_char f p s =
      if ltb 0 p.data_count && ltb 0 (data_at p 0).size
      then elim (data_at p 0).ptr [
        | none ↦ none
        | some at ↦ load buf at >>= λ c.
            some (record { result = 0; payload = none }, (be.run (put_char f c) buf size s).1)
      ]
      else some (record { result = 0; payload = none }, s)

  abbrev write_string : Field → Parsed → S → Option (CallResult × S)
  write_string f p s =
      if ltb 0 p.data_count
      then some (
        record { result = 0; payload = none },
        (be.run (put_string f (data_at p 0).ptr) buf size s).1,
      )
      else some (record { result = 0; payload = none }, s)

  abbrev elapsed_result : Call → S → Option (CallResult × S)
  elapsed_result c s =
      let (a, s') = be.run c buf size s in
      some (
        record {
          result = a.result;
          payload =
              if a.result == 0
              then some (u32_le (get_or a.values 0 0) ++ u32_le (get_or a.values 1 0))
              else none;
        },
        s',
      )

  -- Four pointers in the guest's size and byte order
  abbrev heap_bytes : ℕ → ℕ → List ℕ → Option Bytes
  heap_bytes ps endian vs =
      write_native_uint (replicate (4 * ps) 0) 0 (get_or vs 0 0) ps endian >>= λ b.
      write_native_uint b ps (get_or vs 1 0) ps endian >>= λ c.
      write_native_uint c (2 * ps) (get_or vs 2 0) ps endian >>= λ d.
      write_native_uint d (3 * ps) (get_or vs 3 0) ps endian

  abbrev pub heap_result : ℕ → ℕ → Call → S → Option (CallResult × S)
  heap_result ps endian c s =
      let (a, s') = be.run c buf size s in
      let filled = heap_bytes ps endian a.values >>= λ d.
      some (record { result = a.result; payload = some d }, s') in
      if a.result == 0 then filled else some (record { result = a.result; payload = none }, s')

  -- The wrapper `c` on the backend function `f`
  unfoldable pub call : Caller → Field → Parsed → S → Option (CallResult × S)
  unfolding wire_length
  call call_ctx f p s = plain (ctx f) s
  call call_fd f p s = plain (fd f (parm32 p 0)) s
  call call_fd_flen f p s = plain (fd f (parm32 p 0)) s
  call call_fd_int f p s = plain (fd_int f (parm32 p 0) (parm32 p 1)) s
  call call_fd_read f p s =
      let count = capped (parm p 1) size in
      with_output (on_read count) (fd_buf f (parm32 p 0) count) s
  call call_fd_write f p s = plain (fd_cbuf f (parm32 p 0) (data_at p 0)) s
  call call_path f p s = plain (path f (data_at p 0)) s
  call call_path_mode f p s = plain (path_mode f (data_at p 0) (parm32 p 0)) s
  call call_mkdir f p s = plain (path_mode f (data_at p 0) (parm32 p 1)) s
  call call_path_path f p s = plain (path_path f (data_at p 0) (data_at p 1)) s
  call call_path_buf f p s =
      if ltb size stat_buf_size
      then failed s
      else with_output (on_zero stat_buf_size) (path_buf f (data_at p 0)) s
  call call_fd_buf_sz f p s =
      with_output on_positive (fd_buf f (parm32 p 0) (capped (parm p 1) size)) s
  call call_fd_stat f p s =
      if ltb size stat_buf_size
      then failed s
      else with_output (on_zero stat_buf_size) (fd_stat f (parm32 p 0)) s
  call call_fd_len64 f p s =
      wire_length buf (data_at p 0) >>= λ n. plain (fd_len64 f (parm32 p 0) n) s
  call call_path_buf_sz f p s =
      with_output on_positive (path_buf_sz f (data_at p 0) (capped (parm p 1) size)) s
  call call_tmpnam f p s =
      with_output on_string (tmp_name f (capped (parm p 1) size) (parm32 p 0)) s
  call call_writec f p s = write_char f p s
  call call_write0 f p s = write_string f p s
  call call_uint f p s = plain (uint f (parm32 p 0)) s
  call call_exit f p s =
      let subcode = if leb 2 p.parm_count then parm32 p 1 else 0 in
      let (a, s') = be.run (exit f (parm32 p 0) subcode) buf size s in
      some (record { result = 0; payload = none }, s')
  call call_elapsed f p s = if ltb size 8 then failed s else elapsed_result (elapsed_ticks f) s
  call call_iserror f p s = some (
    record {
      result = if leb 1 p.parm_count && is_negative (parm p 0) then 1 else 0;
      payload = none;
    },
    s,
  )
  call call_cmdline f p s = with_output on_string (cmdline f (capped (parm p 0) size)) s
  call call_heapinfo f p s =
      if ltb size (4 * p.ptr_size)
      then failed s
      else heap_result p.ptr_size p.endianness (heap_info f) s
