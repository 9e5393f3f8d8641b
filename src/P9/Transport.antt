-- ===== src/P9/Transport.antt =====
-- zbc_9p_mount and p9_transport_call of src/c/zbc_transport_9p.c.
use semihost.Base.{
  ℕ, zero, suc, ◌+◌, ◌*◌, ◌/◌, ◌^◌, Bool, true, false, not, ◌==◌, ltb, leb, ◌&&◌, ◌||◌,
  if◌then◌else◌, Option, none, some, List, [], ◌∷◌, length, min, bit_or,
}
use semihost.Memory.{Bytes, load, load_bytes}
use semihost.Opcode.{
  sys_open, sys_close, sys_read, sys_write, sys_seek, sys_flen, sys_remove, sys_rename, sys_tmpnam,
  sys_istty, sys_iserror, sys_errno, sys_stat, sys_opendir, sys_readdir, sys_closedir, sys_fstat,
  sys_mkdir, sys_rmdir, sys_ftruncate, sys_fsync, sys_link, sys_symlink, sys_readlink, sys_lstat,
}
use semihost.P9.Dirs.{do_opendir, do_readdir, do_closedir}
use semihost.P9.Files.{
  do_open, do_close, do_read, do_write, do_seek, do_flen, do_fstat, do_ftruncate, do_fsync, succeed,
}
use semihost.P9.Message.{Field, word32, str, Reader, rd_u16, rd_u32, rd_bytes}
use semihost.P9.Paths.{
  do_stat, do_mkdir, do_link, do_symlink, do_readlink, do_remove, do_rename, do_tmpnam,
}
use semihost.P9.Rpc.{Device, Reply, request, check}
use semihost.P9.Session.{
  Session, Flow, P9, next, returned, ◌>>=◌, ◌>>◌, pure, return, gets, modify, access, when,
  fail_errno,
}
use semihost.P9.Wire.{
  notag, nofid, fid_root, p9_tag, tversion, rversion, tattach, rattach, version_str, msgbuf_min,
  enosys,
}
pub mod Safe
pub mod Mount
use semihost.Riff.{Rc, ok, is_ok, not_initialized, device_error}
use semihost.Word.{u32, u64}

abbrev same_bytes : Bytes → Bytes → Bool
same_bytes [] [] = true
same_bytes (a ∷ xs) (b ∷ ys) = a == b && same_bytes xs ys
same_bytes [] (b ∷ ys) = false
same_bytes (a ∷ xs) [] = false

-- if (server_msize < s->msize) s->msize = server_msize;
abbrev pub lower_msize : ℕ → Session → Session
lower_msize server_msize s = record s {
  msize = if ltb server_msize s.msize then server_msize else s.msize;
}

-- A transport error ends the mount, and an Rlerror is a device error.
unfoldable pub mount_check : Reply → P9 Reader
mount_check r = do
  when (not (is_ok r.rc)) (return r.rc)
  when (not (r.p9err == 0)) (return device_error)
  pure (r.reader)

unfoldable pub version_bytes : Option ℕ → ℕ → P9 Bytes
version_bytes none len = pure []
version_bytes (some p) len = access (λ s. load_bytes s.rx p len)

module _ (dev : Device) where
  -- Tversion, and the checks of its reply, with the server's size
  unfoldable pub negotiate : P9 ℕ
  negotiate = do
    msize ← gets (λ s. s.msize)
    r ← request dev tversion notag rversion (word32 msize ∷ str version_str ∷ [])
    reader ← mount_check r
    server_msize ← rd_u32 reader
    vlen ← rd_u16 server_msize.1
    vstr ← rd_bytes vlen.1 vlen.0
    when (vstr.1).truncated (return device_error)
    when (ltb server_msize.0 (msgbuf_min / 2)) (return device_error)
    when (not (vlen.0 == length version_str)) (return device_error)
    text ← version_bytes vstr.0 vlen.0
    when (not (same_bytes text version_str)) (return device_error)
    pure server_msize.0

  -- Tattach
  unfoldable pub attach : P9 Rc
  attach = do
    r ←
        request dev tattach p9_tag rattach
          (word32 fid_root ∷ word32 nofid ∷ str (b'z' ∷ b'b' ∷ b'c' ∷ []) ∷ str [] ∷ word32 0 ∷ [])
    mount_check r
    pure ok

  -- zbc_9p_mount of a session that is set up
  unfoldable pub zbc_9p_mount : P9 Rc
  zbc_9p_mount = do server_msize ← negotiate; modify (lower_msize server_msize); attach

-- args: the words, and the bytes that those which are pointers for input point to
pub record Args : Type 0 where
  pub word : ℕ → ℕ
  pub text : ℕ → Bytes

-- The bytes of the argument `i` that the length covers
unfoldable pub input : Args → ℕ → ℕ → P9 Bytes
input args i len = access (λ _. load_bytes (args.text i) 0 len)

-- length |= (uint64_t)bytes[i] << (i * 8), from the byte `i` on
unfoldable pub gather : ℕ → ℕ → Bytes → ℕ
gather i acc [] = acc
gather i acc (b ∷ bs) = gather (i + 1) (bit_or acc (u64 (b * 2 ^ (8 * i)))) bs

abbrev pub as_int : Bool → ℕ
as_int b = if b then 1 else 0

-- switch (opcode)
unfoldable pub switch : ℕ → List (ℕ × P9 Rc) → P9 Rc → P9 Rc
switch opcode [] other = other
switch opcode ((label, body) ∷ cases) other =
    if opcode == label then body else switch opcode cases other

-- The cases of p9_transport_call; `fuel` bounds the rounds of a read or write.
module _ (dev : Device) (fuel : ℕ) (args : Args) where
  abbrev pub int_arg : ℕ → ℕ
  int_arg i = u32 (args.word i)

  -- The path at the argument `i`, with its length at `j`
  unfoldable pub on_path : ℕ → ℕ → (Bytes → P9 Rc) → P9 Rc
  on_path i j f = do path ← input args i (args.word j); f path

  unfoldable pub on_paths : (Bytes → Bytes → P9 Rc) → P9 Rc
  on_paths f = do a ← input args 0 (args.word 1); b ← input args 2 (args.word 3); f a b

  unfoldable pub ftruncate_case : P9 Rc
  ftruncate_case = do
    bytes ← input args 1 (min (args.word 2) 8)
    do_ftruncate dev (int_arg 0) (gather 0 0 bytes)

  unfoldable pub file_cases : List (ℕ × P9 Rc)
  file_cases =
      (sys_open, on_path 0 2 (λ path. do_open dev path (int_arg 1)))
      ∷ (sys_close, do_close dev (int_arg 0))
      ∷ (sys_read, do_read dev fuel (int_arg 0) (args.word 2))
      ∷ (sys_write, on_path 1 2 (λ src. do_write dev fuel (int_arg 0) src (args.word 2)))
      ∷ (sys_seek, do_seek dev (int_arg 0) (args.word 1))
      ∷ (sys_flen, do_flen dev (int_arg 0))
      ∷ (sys_fstat, do_fstat dev (int_arg 0))
      ∷ (sys_ftruncate, ftruncate_case)
      ∷ (sys_fsync, do_fsync dev (int_arg 0))
      ∷ []

  unfoldable pub path_cases : List (ℕ × P9 Rc)
  path_cases =
      (sys_remove, on_path 0 1 (do_remove dev))
      ∷ (sys_rename, on_paths (do_rename dev))
      ∷ (sys_tmpnam, do_tmpnam (int_arg 1) (args.word 2))
      ∷ (sys_stat, on_path 0 1 (do_stat dev))
      ∷ (sys_mkdir, on_path 0 1 (λ path. do_mkdir dev path (int_arg 2)))
      ∷ (sys_rmdir, on_path 0 1 (do_remove dev))
      ∷ (sys_link, on_paths (do_link dev))
      ∷ (sys_symlink, on_paths (do_symlink dev))
      ∷ (sys_readlink, on_path 0 1 (λ path. do_readlink dev path (args.word 3)))
      ∷ (sys_lstat, on_path 0 1 (do_stat dev))
      ∷ []

  -- status < 0 of an intptr_t
  unfoldable pub other_cases : List (ℕ × P9 Rc)
  other_cases =
      (sys_opendir, on_path 0 1 (do_opendir dev))
      ∷ (sys_readdir, do_readdir dev (int_arg 0) (args.word 2))
      ∷ (sys_closedir, do_closedir dev (int_arg 0))
      ∷ (sys_istty, succeed (as_int (leb (int_arg 0) 2)))
      ∷ (sys_iserror, succeed (as_int (leb (2 ^ 63) (args.word 0))))
      ∷ (sys_errno, (gets (λ s. s.last_errno) >>= succeed))
      ∷ []

  unfoldable pub dispatch : ℕ → P9 Rc
  dispatch opcode =
      switch opcode file_cases
        (switch opcode path_cases (switch opcode other_cases (fail_errno enosys)))

-- The code that a C function returns
abbrev pub return_code : Flow Rc → Rc
return_code (next rc) = rc
return_code (returned rc) = rc

abbrev pub finish : Option (Flow Rc × Session) → Option (Rc × Option Session)
finish none = none
finish (some r) = some (return_code r.0, some r.1)

-- A missing context is `none`.
unfoldable pub p9_transport_call :
    Device → ℕ → Option Session → ℕ → Args → Option (Rc × Option Session)
p9_transport_call dev fuel none opcode args = some (not_initialized, none)
p9_transport_call dev fuel (some s) opcode args = finish (dispatch dev fuel args opcode s)
