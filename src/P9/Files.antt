-- ===== src/P9/Files.antt =====
-- The operations of src/c/zbc_transport_9p.c on open files. An `int` is its 32-bit pattern.
use semihost.Base.{
  ℕ, zero, suc, ◌+◌, ◌-◌, ◌*◌, ◌/◌, ◌%◌, ◌^◌, Bool, true, false, not, ◌==◌, ltb, leb, ◌&&◌,
  if◌then◌else◌, Option, none, some, List, [], ◌∷◌, ◌++◌, min, get_or, set, bit_and, bit_or, take,
  drop,
}
use semihost.Memory.{Bytes, load_bytes, write_bytes}
use semihost.P9.Message.{Field, word32, word64, bytes, str, Reader, rd_u32, rd_bytes, rd_sizes}
use semihost.P9.Rpc.{Device, Reply, request, p9_clunk, check}
use semihost.P9.Session.{
  Session, Handle, P9, ◌>>=◌, ◌>>◌, pure, return, gets, modify, access, when, p9_fill_response,
  give_data, fail_errno,
}
use semihost.P9.Walk.{p9_walk, p9_getattr_size}
use semihost.P9.Wire.{
  max_files, fid_root, fid_file, p9_tag, io_overhead, sh_open_flags, o_creat, o_append, tlopen,
  rlopen, tlcreate, rlcreate, tread, rread, twrite, rwrite, tgetattr, rgetattr, getattr_basic,
  tsetattr, rsetattr, setattr_size, tfsync, rfsync, einval, emfile, ebadf, stat_buf_size,
}
use semihost.Riff.{Rc, ok, is_ok, parse_error}
pub mod Safe
pub mod Loops
pub mod Operations
pub mod Handles
pub mod Endless
pub mod Moves
pub mod Counts
use semihost.Word.{u8, u32, u64}

abbrev pub no_handle : Handle
no_handle = record { offset = 0; in_use = false }

-- The first handle that is not in use, counted from `slot`
unfoldable pub free_slot : List Handle → ℕ → Option ℕ
free_slot [] slot = none
free_slot (h ∷ hs) slot = if h.in_use then free_slot hs (slot + 1) else some slot

abbrev pub with_file : ℕ → (Handle → Handle) → Session → Session
with_file slot f s = record s { files = set s.files slot (f (get_or s.files slot no_handle)) }

abbrev pub file_offset : ℕ → Session → ℕ
file_offset slot s = (get_or s.files slot no_handle).offset

-- s->files[slot].offset = offset;
abbrev pub at_offset : ℕ → Handle → Handle
at_offset offset h = record h { offset = offset }

-- s->files[slot].offset += count;
abbrev pub advance : ℕ → Handle → Handle
advance count h = record h { offset = u64 (h.offset + count) }

abbrev pub used : Bool → Handle → Handle
used b h = record h { in_use = b }

-- flags & ~ZBC_9P_O_CREAT
abbrev pub without_creat : ℕ → ℕ
without_creat flags = bit_and flags (2 ^ 32 - 1 - o_creat)

-- fd_slot, where none stands for -1
unfoldable pub fd_slot : ℕ → Session → Option ℕ
fd_slot fd s =
    if leb 3 fd && (ltb (fd - 3) max_files && (get_or s.files (fd - 3) no_handle).in_use)
    then some (fd - 3)
    else none

-- if (slot < 0) { fail_errno(...); return ZBC_OK; }
unfoldable pub found : {A : Type 0} → ℕ → Option A → P9 A
found err none = fail_errno err
found err (some a) = pure a

-- p9_fill_response(response, result, 0); return ZBC_OK;
unfoldable pub succeed : ℕ → P9 Rc
succeed result = do p9_fill_response result 0; pure ok

unfoldable pub open_slot : ℕ → P9 ℕ
open_slot fd = do slot ← gets (fd_slot fd); found ebadf slot

-- stat_pack_u32 and stat_pack_u64
abbrev pub stat_u32 : ℕ → Bytes
stat_u32 v = u8 v ∷ u8 (v / 2 ^ 8) ∷ u8 (v / 2 ^ 16) ∷ u8 (v / 2 ^ 24) ∷ []

abbrev pub stat_u64 : ℕ → Bytes
stat_u64 v = stat_u32 (u32 v) ++ stat_u32 (u32 (v / 2 ^ 16 / 2 ^ 16))

abbrev pub with_out : Bytes → Session → Session
with_out out s = record s { out = out }

-- A write to the caller's buffer
unfoldable pub put_out : ℕ → Bytes → P9 (Unit {0})
put_out off bs = do out ← access (λ s. write_bytes s.out off bs); modify (with_out out)

-- The fields of an Rgetattr, by their sizes
abbrev pub rgetattr_sizes : List ℕ
rgetattr_sizes = 8 ∷ 1 ∷ 4 ∷ 8 ∷ 4 ∷ 4 ∷ 4 ∷ 8 ∷ 8 ∷ 8 ∷ 8 ∷ 8 ∷ 8 ∷ 8 ∷ 8 ∷ 8 ∷ 8 ∷ 8 ∷ []

-- ino, mode, nlink, size, mtime, atime and ctime as the response has them
abbrev pub stat_layout : List ℕ → Bytes
stat_layout v =
    let at = λ (i : ℕ). get_or v i 0 in
    stat_u64 (at 3)
    ++ (stat_u32 (at 4)
        ++ (stat_u32 (u32 (at 7))
            ++ (stat_u64 (at 9) ++ (stat_u64 (at 14) ++ (stat_u64 (at 12) ++ stat_u64 (at 16))))))

unfoldable pub parse_rgetattr : Reader → P9 (Unit {0})
parse_rgetattr r = do
  v ← rd_sizes rgetattr_sizes r
  when ((v.1).truncated) (return parse_error)
  put_out 0 (stat_layout v.0)

-- The response to a successful stat
unfoldable pub stat_response : Reader → P9 Rc
stat_response r = do parse_rgetattr r; p9_fill_response 0 0; give_data stat_buf_size; pure ok

-- chunk, as computed from msize
abbrev pub chunk_of : ℕ → ℕ
chunk_of msize = if ltb io_overhead msize then msize - io_overhead else 16

-- n = (uint32_t)(count - got); if (n > chunk) n = chunk;
abbrev pub round_size : ℕ → ℕ → ℕ
round_size msize left = min (u32 left) (chunk_of msize)

-- for (i = 0; i < cnt; i++) dest[got + i] = data[i];
unfoldable pub copy_data : Option ℕ → ℕ → ℕ → P9 (Unit {0})
copy_data none got cnt = access (λ _. none)
copy_data (some p) got cnt = do bs ← access (λ s. load_bytes s.rx p cnt); put_out got bs

module _ (dev : Device) where
  -- As `check`, but the fid is clunked first.
  unfoldable pub check_or_clunk : ℕ → Reply → P9 Reader
  check_or_clunk fid r = do when (not (is_ok r.rc && r.p9err == 0)) (p9_clunk dev fid); check r

  -- Existing file: Tlopen
  unfoldable pub open_existing : ℕ → ℕ → P9 Reader
  open_existing fid flags = do
    r ← request dev tlopen p9_tag rlopen (word32 fid ∷ word32 (without_creat flags) ∷ [])
    check_or_clunk fid r

  -- Missing file in a create mode: a walk to the parent, and Tlcreate
  unfoldable pub create_file : ℕ → ℕ → Bytes → P9 Reader
  create_file fid flags path = do
    w ← p9_walk dev fid_root fid path true
    check w.0
    r ←
        request dev tlcreate p9_tag rlcreate
          (word32 fid ∷ str w.1 ∷ word32 (without_creat flags) ∷ word32 420 ∷ word32 0 ∷ [])
    check_or_clunk fid r

  -- Append modes start at the end of the file.
  unfoldable pub start_offset : ℕ → ℕ → P9 ℕ
  start_offset fid flags =
      if bit_and flags o_append == 0
      then pure 0
      else (do x ← p9_getattr_size dev fid; check_or_clunk fid x.0; pure x.1)

  unfoldable pub do_open : Bytes → ℕ → P9 Rc
  do_open path mode = do
    when (ltb 11 mode) (fail_errno einval)
    let flags = get_or sh_open_flags mode 0
    free ← gets (λ s. free_slot s.files 0)
    slot ← found emfile free
    w ← p9_walk dev fid_root (fid_file slot) path false
    when (not (is_ok (w.0).rc)) (return (w.0).rc)
    if (w.0).p9err == 0
        then open_existing (fid_file slot) flags
        else if not (bit_and flags o_creat == 0)
        then create_file (fid_file slot) flags path
        else fail_errno (w.0).p9err
    modify (with_file slot (at_offset 0))
    offset ← start_offset (fid_file slot) flags
    modify (with_file slot (at_offset offset))
    modify (with_file slot (used true))
    succeed (slot + 3)

  unfoldable pub do_close : ℕ → P9 Rc
  do_close fd = do
    slot ← open_slot fd
    p9_clunk dev (fid_file slot)
    modify (with_file slot (used false))
    succeed 0

  -- One Tread: the number of bytes asked for and of those that came
  unfoldable pub read_round : ℕ → ℕ → ℕ → P9 ℕ
  read_round slot n got = do
    offset ← gets (file_offset slot)
    r ← request dev tread p9_tag rread (word32 (fid_file slot) ∷ word64 offset ∷ word32 n ∷ [])
    reader ← check r
    cnt ← rd_u32 reader
    when (ltb n cnt.0) (return parse_error)
    p ← rd_bytes cnt.1 cnt.0
    when ((p.1).truncated) (return parse_error)
    copy_data p.0 got cnt.0
    modify (with_file slot (advance cnt.0))
    pure cnt.0

  -- The loop of do_read, with the bytes read so far
  unfoldable pub read_loop : ℕ → ℕ → ℕ → ℕ → P9 ℕ
  read_loop zero slot count got = access (λ _. none)
  read_loop (suc fuel) slot count got = if not (ltb got count) then pure got else (do
    n ← gets (λ s. round_size s.msize (count - got))
    cnt ← read_round slot n got
    let rest = read_loop fuel slot count (got + cnt)
    if ltb cnt n then pure (got + cnt) else rest)

  unfoldable pub do_read : ℕ → ℕ → ℕ → P9 Rc
  do_read fuel fd count = do
    slot ← open_slot fd
    got ← read_loop fuel slot count 0
    p9_fill_response (u32 (count - got)) 0
    give_data got
    pure ok

  -- One Twrite
  unfoldable pub write_round : ℕ → ℕ → Bytes → P9 ℕ
  write_round slot n src = do
    offset ← gets (file_offset slot)
    payload ← access (λ _. load_bytes src 0 n)
    r ←
        request dev twrite p9_tag rwrite
          (word32 (fid_file slot) ∷ word64 offset ∷ word32 n ∷ bytes payload ∷ [])
    reader ← check r
    cnt ← rd_u32 reader
    when ((cnt.1).truncated) (return parse_error)
    when (ltb n cnt.0) (return parse_error)
    modify (with_file slot (advance cnt.0))
    pure cnt.0

  unfoldable pub write_loop : ℕ → ℕ → ℕ → Bytes → ℕ → P9 ℕ
  write_loop zero slot count src written = access (λ _. none)
  write_loop (suc fuel) slot count src written =
      if not (ltb written count) then pure written else (do
        n ← gets (λ s. round_size s.msize (count - written))
        cnt ← write_round slot n (drop written src)
        let rest = write_loop fuel slot count src (written + cnt)
        if ltb cnt n then pure (written + cnt) else rest)

  unfoldable pub do_write : ℕ → ℕ → Bytes → ℕ → P9 Rc
  do_write fuel fd src count = do
    slot ← open_slot fd
    written ← write_loop fuel slot count src 0
    succeed (u32 (count - written))

  unfoldable pub do_seek : ℕ → ℕ → P9 Rc
  do_seek fd offset = do slot ← open_slot fd; modify (with_file slot (at_offset offset)); succeed 0

  unfoldable pub do_flen : ℕ → P9 Rc
  do_flen fd = do
    slot ← open_slot fd
    x ← p9_getattr_size dev (fid_file slot)
    check x.0
    succeed (u32 x.1)

  unfoldable pub do_fstat : ℕ → P9 Rc
  do_fstat fd = do
    slot ← open_slot fd
    r ← request dev tgetattr p9_tag rgetattr (word32 (fid_file slot) ∷ word64 getattr_basic ∷ [])
    reader ← check r
    stat_response reader

  unfoldable pub do_ftruncate : ℕ → ℕ → P9 Rc
  do_ftruncate fd length = do
    slot ← open_slot fd
    r ← request dev tsetattr p9_tag rsetattr (
        word32 (fid_file slot)
        ∷ word32 setattr_size
        ∷ word32 0
        ∷ word32 0
        ∷ word32 0
        ∷ word64 length
        ∷ word64 0
        ∷ word64 0
        ∷ word64 0
        ∷ word64 0
        ∷ [])
    check r
    succeed 0

  unfoldable pub do_fsync : ℕ → P9 Rc
  do_fsync fd = do
    slot ← open_slot fd
    r ← request dev tfsync p9_tag rfsync (word32 (fid_file slot) ∷ word32 0 ∷ [])
    check r
    succeed 0
