-- ===== src/P9/Paths.antt =====
-- The operations of src/c/zbc_transport_9p.c on paths.
use semihost.Base.{
  ℕ, ◌+◌, ◌/◌, ◌%◌, ◌^◌, true, false, not, ◌==◌, ltb, ◌||◌, if◌then◌else◌, Option, none, some, [],
  ◌∷◌, min, length,
}
use semihost.Memory.{Bytes}
use semihost.P9.Files.{found, succeed, stat_response, copy_data}
use semihost.P9.Message.{Field, word32, word64, str, Reader, rd_u16, rd_bytes}
use semihost.P9.Rpc.{Device, Reply, request, p9_clunk, check}
use semihost.P9.Files.{check_or_clunk, put_out}
use semihost.P9.Session.{
  Session, P9, ◌>>=◌, ◌>>◌, pure, return, gets, modify, when, p9_fill_response, give_data,
  fail_errno,
}
use semihost.P9.Walk.{p9_walk}
use semihost.P9.Wire.{
  fid_root, fid_scratch_a, fid_scratch_b, p9_tag, tgetattr, rgetattr, getattr_basic, tmkdir, rmkdir,
  tlink, rlink, tsymlink, rsymlink, treadlink, rreadlink, tremove, rremove, trenameat, rrenameat,
  einval,
}
pub mod Safe
use semihost.Riff.{Rc, ok, parse_error}
use semihost.Word.{u32}

-- The thirteen bytes of "tmpNNNNN_III"
abbrev pub tmpnam_text : ℕ → ℕ → Bytes
tmpnam_text counter ident =
    b't'
    ∷ b'm'
    ∷ b'p'
    ∷ (48 + counter / 10 ^ 4 % 10)
    ∷ (48 + counter / 10 ^ 3 % 10)
    ∷ (48 + counter / 10 ^ 2 % 10)
    ∷ (48 + counter / 10 % 10)
    ∷ (48 + counter % 10)
    ∷ b'_'
    ∷ (48 + ident / 10 ^ 2 % 10)
    ∷ (48 + ident / 10 % 10)
    ∷ (48 + ident % 10)
    ∷ 0
    ∷ []

abbrev pub counted : Session → Session
counted s = record s { tmpnam_counter = u32 (s.tmpnam_counter + 1) }

unfoldable pub do_tmpnam : ℕ → ℕ → P9 Rc
do_tmpnam id maxlen = do
  counter ← gets (λ s. s.tmpnam_counter)
  modify counted
  let name = tmpnam_text counter (id % 256)
  when (ltb maxlen 13) (fail_errno einval)
  put_out 0 name
  p9_fill_response 0 0
  give_data 13
  pure ok

module _ (dev : Device) where
  unfoldable pub do_stat : Bytes → P9 Rc
  do_stat path = do
    w ← p9_walk dev fid_root fid_scratch_a path false
    check w.0
    r ← request dev tgetattr p9_tag rgetattr (word32 fid_scratch_a ∷ word64 getattr_basic ∷ [])
    p9_clunk dev fid_scratch_a
    reader ← check r
    stat_response reader

  unfoldable pub do_mkdir : Bytes → ℕ → P9 Rc
  do_mkdir path mode = do
    w ← p9_walk dev fid_root fid_scratch_a path true
    check w.0
    r ←
        request dev tmkdir p9_tag rmkdir
          (word32 fid_scratch_a ∷ str w.1 ∷ word32 mode ∷ word32 0 ∷ [])
    p9_clunk dev fid_scratch_a
    check r
    succeed 0

  unfoldable pub do_link : Bytes → Bytes → P9 Rc
  do_link old_path new_path = do
    w ← p9_walk dev fid_root fid_scratch_a old_path false
    check w.0
    v ← p9_walk dev fid_root fid_scratch_b new_path true
    check_or_clunk dev fid_scratch_a v.0
    r ← request dev tlink p9_tag rlink (word32 fid_scratch_b ∷ word32 fid_scratch_a ∷ str v.1 ∷ [])
    p9_clunk dev fid_scratch_a
    p9_clunk dev fid_scratch_b
    check r
    succeed 0

  unfoldable pub do_symlink : Bytes → Bytes → P9 Rc
  do_symlink target linkpath = do
    w ← p9_walk dev fid_root fid_scratch_a linkpath true
    check w.0
    r ←
        request dev tsymlink p9_tag rsymlink
          (word32 fid_scratch_a ∷ str w.1 ∷ str target ∷ word32 0 ∷ [])
    p9_clunk dev fid_scratch_a
    check r
    succeed 0

  unfoldable pub do_readlink : Bytes → ℕ → P9 Rc
  do_readlink path out_size = do
    w ← p9_walk dev fid_root fid_scratch_a path false
    check w.0
    r ← request dev treadlink p9_tag rreadlink (word32 fid_scratch_a ∷ [])
    p9_clunk dev fid_scratch_a
    reader ← check r
    len ← rd_u16 reader
    target ← rd_bytes len.1 len.0
    when ((target.1).truncated) (return parse_error)
    let copied = min len.0 out_size
    copy_data target.0 0 copied
    p9_fill_response (u32 copied) 0
    give_data copied
    pure ok

  -- Tremove clunks the fid itself.
  unfoldable pub do_remove : Bytes → P9 Rc
  do_remove path = do
    w ← p9_walk dev fid_root fid_scratch_a path false
    check w.0
    r ← request dev tremove p9_tag rremove (word32 fid_scratch_a ∷ [])
    check r
    succeed 0

  unfoldable pub do_rename : Bytes → Bytes → P9 Rc
  do_rename old_path new_path = do
    w ← p9_walk dev fid_root fid_scratch_a old_path true
    check w.0
    v ← p9_walk dev fid_root fid_scratch_b new_path true
    check_or_clunk dev fid_scratch_a v.0
    r ←
        request dev trenameat p9_tag rrenameat
          (word32 fid_scratch_a ∷ str w.1 ∷ word32 fid_scratch_b ∷ str v.1 ∷ [])
    p9_clunk dev fid_scratch_a
    p9_clunk dev fid_scratch_b
    check r
    succeed 0
