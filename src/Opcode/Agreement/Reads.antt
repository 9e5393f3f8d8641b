-- ===== src/Opcode/Agreement/Reads.antt =====
-- The counts of PARM values and DATA references that a caller wrapper reads, against the wrappers.
use semihost.Base.{
  ℕ, ◌<◌, ◌≤◌, ◌≡◌, ◌*◌, ltb, leb, if◌then◌else◌, none, some, ap, ap₂, refl, arith, Bool-cases, inl,
  inr,
}
use semihost.Host.Backend.{
  Field, Backend, fd_buf, path_buf_sz, tmp_name, cmdline, path_buf, fd_stat, heap_info, exit,
}
use semihost.Host.Callers.{
  Caller, call_ctx, call_fd, call_fd_flen, call_fd_int, call_fd_read, call_fd_write, call_path,
  call_path_mode, call_mkdir, call_path_path, call_path_buf, call_fd_buf_sz, call_fd_stat,
  call_fd_len64, call_path_buf_sz, call_tmpnam, call_writec, call_write0, call_uint, call_exit,
  call_elapsed, call_iserror, call_cmdline, call_heapinfo, call, parm, parm32, data_at, with_output,
  on_read, on_positive, on_string, on_zero, failed, heap_result, capped, stat_buf_size,
}
use semihost.Memory.{Bytes}
use semihost.Opcode.Agreement.{parms_read, data_read}
use semihost.Riff.Parse.{Parsed, DataRef}
use semihost.Word.{u32}

-- Two requests with `parms` PARM values, which are the same, and the same DATA references below
-- `refs`, counts of DATA chunks and layout of integers.
pub record Alike (parms refs : ℕ) (p q : Parsed) : Type 0 where
  pub same_parms : (i : ℕ) → i < parms → parm p i ≡ parm q i
  pub same_data : (i : ℕ) → i < refs → data_at p i ≡ data_at q i
  pub first_count : p.parm_count ≡ parms
  pub second_count : q.parm_count ≡ parms
  pub same_data_count : p.data_count ≡ q.data_count
  pub same_ptr_size : p.ptr_size ≡ q.ptr_size
  pub same_endianness : p.endianness ≡ q.endianness

module _ {S : Type 0} (be : Backend S) (buf : Bytes) (size : ℕ) (f : Field) (p q : Parsed) (s : S)
    (parms refs : ℕ) where
  subcode_eq :
      Alike parms refs p q
      → (if leb 2 p.parm_count then parm32 p 1 else 0)
        ≡ (if leb 2 q.parm_count then parm32 q 1 else 0)
  subcode_eq a = elim (Bool-cases (leb 2 parms)) [
    | inl two ↦ rw (a.first_count, a.second_count, two) (ap u32 (a.same_parms 1 (ground arith)))
    | inr few ↦ rw (a.first_count, a.second_count, few) refl
  ]

  -- Every wrapper does the same for two requests of `parms` PARM values, at least as many as are
  -- counted for it, that are alike in these values, in as many DATA references as are counted for
  -- it at least, in their numbers of DATA chunks and in the layout of integers.
  pub call-Alike :
      (c : Caller)
      → parms_read c ≤ parms
      → data_read c ≤ refs
      → Alike parms refs p q
      → call be buf size c f p s ≡ call be buf size c f q s
  unfolding call
  call-Alike call_ctx l m a = refl
  call-Alike call_fd l m a = rw (a.same_parms 0 (omega arith)) refl
  call-Alike call_fd_flen l m a = rw (a.same_parms 0 (omega arith)) refl
  call-Alike call_fd_int l m a =
      rw (a.same_parms 0 (omega arith), a.same_parms 1 (omega arith)) refl
  call-Alike call_fd_read l m a =
      ap₂
        (λ (x y : ℕ).
          with_output be buf size (on_read be buf size (capped y size))
            (fd_buf f (u32 x) (capped y size)) s)
        (a.same_parms 0 (omega arith)) (a.same_parms 1 (omega arith))
  call-Alike call_fd_write l m a =
      rw (a.same_parms 0 (omega arith), a.same_data 0 (omega arith)) refl
  call-Alike call_path l m a = rw (a.same_data 0 (omega arith)) refl
  call-Alike call_path_mode l m a =
      rw (a.same_parms 0 (omega arith), a.same_data 0 (omega arith)) refl
  call-Alike call_mkdir l m a = rw (a.same_parms 1 (omega arith), a.same_data 0 (omega arith)) refl
  call-Alike call_path_path l m a =
      rw (a.same_data 0 (omega arith), a.same_data 1 (omega arith)) refl
  call-Alike call_path_buf l m a =
      ap
        (λ (d : DataRef).
          if ltb size stat_buf_size
          then failed be buf size s
          else with_output be buf size (on_zero be buf size stat_buf_size) (path_buf f d) s)
        (a.same_data 0 (omega arith))
  call-Alike call_fd_buf_sz l m a =
      ap₂
        (λ (x y : ℕ).
          with_output be buf size (on_positive be buf size) (fd_buf f (u32 x) (capped y size)) s)
        (a.same_parms 0 (omega arith)) (a.same_parms 1 (omega arith))
  call-Alike call_fd_stat l m a =
      ap
        (λ (x : ℕ).
          if ltb size stat_buf_size
          then failed be buf size s
          else with_output be buf size (on_zero be buf size stat_buf_size) (fd_stat f (u32 x)) s)
        (a.same_parms 0 (omega arith))
  call-Alike call_fd_len64 l m a =
      rw (a.same_parms 0 (omega arith), a.same_data 0 (omega arith)) refl
  call-Alike call_path_buf_sz l m a =
      ap₂
        (λ (x : ℕ) (d : DataRef).
          with_output be buf size (on_positive be buf size) (path_buf_sz f d (capped x size)) s)
        (a.same_parms 1 (omega arith)) (a.same_data 0 (omega arith))
  call-Alike call_tmpnam l m a =
      ap₂
        (λ (x y : ℕ).
          with_output be buf size (on_string be buf size) (tmp_name f (capped y size) (u32 x)) s)
        (a.same_parms 0 (omega arith)) (a.same_parms 1 (omega arith))
  call-Alike call_writec l m a = rw (a.same_data 0 (omega arith), a.same_data_count) refl
  call-Alike call_write0 l m a = rw (a.same_data 0 (omega arith), a.same_data_count) refl
  call-Alike call_uint l m a = rw (a.same_parms 0 (omega arith)) refl
  call-Alike call_exit l m a =
      ap₂
        (λ (x y : ℕ).
          let (r, s') = be.run (exit f (u32 x) y) buf size s in
          some (record { result = 0; payload = none }, s'))
        (a.same_parms 0 (omega arith)) (subcode_eq a)
  call-Alike call_elapsed l m a = refl
  call-Alike call_iserror l m a =
      rw (a.same_parms 0 (omega arith), a.first_count, a.second_count) refl
  call-Alike call_cmdline l m a =
      ap (λ (x : ℕ). with_output be buf size (on_string be buf size) (cmdline f (capped x size)) s)
        (a.same_parms 0 (omega arith))
  call-Alike call_heapinfo l m a =
      ap₂
        (λ (x y : ℕ).
          if ltb size (4 * x)
          then failed be buf size s
          else heap_result be buf size x y (heap_info f) s)
        a.same_ptr_size a.same_endianness
