-- ===== src/P9/Dirs.antt =====
-- The operations of src/c/zbc_transport_9p.c on open directories.
use semihost.Base.{
  ℕ, ◌+◌, ◌-◌, ◌^◌, true, false, ◌==◌, ltb, leb, ◌&&◌, if◌then◌else◌, Option, none, some, List, [],
  ◌∷◌, ◌++◌, get_or, set,
}
use semihost.Memory.{Bytes, load_bytes}
use semihost.P9.Files.{
  no_handle, free_slot, at_offset, used, found, succeed, stat_u64, put_out, check_or_clunk,
  copy_data,
}
use semihost.P9.Message.{Field, word32, word64, Reader, rd_u32, rd_bytes, rd_sizes}
use semihost.P9.Rpc.{Device, request, p9_clunk, check}
use semihost.P9.Session.{
  Session, Handle, P9, ◌>>=◌, ◌>>◌, pure, return, gets, modify, when, p9_fill_response, give_data,
  fail_errno,
}
use semihost.P9.Walk.{p9_walk}
use semihost.P9.Wire.{
  max_dirs, first_dir_handle, fid_root, fid_dir, p9_tag, tlopen, rlopen, treaddir, rreaddir, ebadf,
  emfile, einval, dirent_hdr_size,
}
pub mod Safe
use semihost.Riff.{Rc, ok, parse_error}
use semihost.Word.{u8, u32}

abbrev pub with_dir : ℕ → (Handle → Handle) → Session → Session
with_dir slot f s = record s { dirs = set s.dirs slot (f (get_or s.dirs slot no_handle)) }

-- dir_slot, where none stands for -1
unfoldable pub dir_slot : ℕ → Session → Option ℕ
dir_slot handle s =
    if leb first_dir_handle handle
      && (ltb (handle - first_dir_handle) max_dirs
          && (get_or s.dirs (handle - first_dir_handle) no_handle).in_use)
    then some (handle - first_dir_handle)
    else none

unfoldable pub open_dir_slot : ℕ → P9 ℕ
open_dir_slot handle = do slot ← gets (dir_slot handle); found ebadf slot

-- The fields of a directory entry in front of its name, by their sizes
abbrev pub dirent_sizes : List ℕ
dirent_sizes = 1 ∷ 4 ∷ 8 ∷ 8 ∷ 1 ∷ 2 ∷ []

-- What do_readdir writes in front of the name, and after it
unfoldable pub pack_dirent : List ℕ → Option ℕ → P9 (Unit {0})
pack_dirent v name = do
  put_out 0 (stat_u64 (get_or v 2 0))
  put_out 8 (get_or v 4 0 ∷ u8 (get_or v 5 0) ∷ [])
  copy_data name 10 (get_or v 5 0)
  put_out (10 + get_or v 5 0) (0 ∷ [])

-- The first entry of an Rreaddir
unfoldable pub take_dirent : ℕ → ℕ → Reader → P9 Rc
take_dirent slot out_size reader = do
  v ← rd_sizes dirent_sizes reader
  when ((v.1).truncated) (return parse_error)
  let name_len = get_or v.0 5 0
  when (ltb 255 name_len) (return parse_error)
  name ← rd_bytes v.1 name_len
  when ((name.1).truncated) (return parse_error)
  let need = dirent_hdr_size + name_len + 1
  when (ltb out_size need) (fail_errno einval)
  pack_dirent v.0 name.0
  modify (with_dir slot (at_offset (get_or v.0 3 0)))
  p9_fill_response need 0
  give_data need
  pure ok

module _ (dev : Device) where
  unfoldable pub do_opendir : Bytes → P9 Rc
  do_opendir path = do
    free ← gets (λ s. free_slot s.dirs 0)
    slot ← found emfile free
    w ← p9_walk dev fid_root (fid_dir slot) path false
    check w.0
    r ← request dev tlopen p9_tag rlopen (word32 (fid_dir slot) ∷ word32 0 ∷ [])
    check_or_clunk dev (fid_dir slot) r
    modify (with_dir slot (used true))
    modify (with_dir slot (at_offset 0))
    succeed (first_dir_handle + slot)

  unfoldable pub do_readdir : ℕ → ℕ → P9 Rc
  do_readdir handle out_size = do
    slot ← open_dir_slot handle
    offset ← gets (λ s. (get_or s.dirs slot no_handle).offset)
    r ←
        request dev treaddir p9_tag rreaddir
          (word32 (fid_dir slot) ∷ word64 offset ∷ word32 512 ∷ [])
    reader ← check r
    count ← rd_u32 reader
    when ((count.1).truncated) (return parse_error)
    if count.0 == 0 then succeed 0 else take_dirent slot out_size count.1

  unfoldable pub do_closedir : ℕ → P9 Rc
  do_closedir handle = do
    slot ← open_dir_slot handle
    p9_clunk dev (fid_dir slot)
    modify (with_dir slot (used false))
    modify (with_dir slot (at_offset 0))
    succeed 0
