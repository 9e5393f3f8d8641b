-- ===== src/P9/Files/Operations.antt =====
-- The operations on open files of src/c/zbc_transport_9p.c keep a session in order.
use semihost.Base.{
  ℕ, ◌≤◌, ◌<◌, ◌^◌, true, false, not, ◌==◌, ltb, ◌&&◌, get_or, length, bit_and, arith,
}
use semihost.Memory.{Bytes, IsBytes}
use semihost.P9.Files.{
  at_offset, used, check_or_clunk, open_existing, create_file, start_offset, do_open, do_close,
  do_read, do_write, do_seek, do_flen, do_fstat, do_ftruncate, do_fsync,
}
use semihost.P9.Files.Loops.{read_loop-Safe, write_loop-Safe}
use semihost.P9.Files.Safe.{
  with_file-Safe, found-Safe, succeed-Safe, open_slot-Safe, stat_response-Safe,
}
use semihost.P9.Message.Safe.{IsReader}
use semihost.P9.Rpc.{Device, Reply, p9_clunk}
use semihost.P9.Rpc.Safe.{Serves, IsReply, request-Safe, p9_clunk-Safe, check-Safe}
use semihost.P9.Session.{return, fail_errno}
use semihost.P9.Session.Safe.{
  Any, Safe, Safe-pure, Safe-return, Safe-gets, Safe-if, Safe-bind, Safe-when, Safe-guard,
  fill_response-Safe, give_data-Safe, fail_errno-Safe,
}
use semihost.P9.Walk.Safe.{p9_walk-Safe, p9_getattr_size-Safe}
use semihost.P9.Wire.{einval, emfile, stat_buf_size, fid_file, sh_open_flags, o_creat, o_append}
use semihost.Riff.{ok, is_ok}

module _ (n k : ℕ) (large : 128 ≤ n) (dev : Device) (serves : Serves dev) where
  pub check_or_clunk-Safe :
      (fid : ℕ) (r : Reply) → IsReply n r → Safe n k (IsReader n) (check_or_clunk dev fid r)
  unfolding check_or_clunk
  check_or_clunk-Safe fid r h =
      Safe-bind n k _ _
        (Safe-when n k (not (is_ok r.rc && r.p9err == 0)) (p9_clunk dev fid)
          (p9_clunk-Safe n k large dev serves fid))
        λ _ _. check-Safe n k r h

  open_existing-Safe : (fid flags : ℕ) → Safe n k (IsReader n) (open_existing dev fid flags)
  unfolding open_existing
  open_existing-Safe fid flags =
      Safe-bind n k _ _ (request-Safe n k large dev serves _ _ _ _)
        λ r h. check_or_clunk-Safe fid r h

  create_file-Safe :
      (fid flags : ℕ) (path : Bytes) → Safe n k (IsReader n) (create_file dev fid flags path)
  unfolding create_file
  create_file-Safe fid flags path =
      Safe-bind n k _ _ (p9_walk-Safe n k large dev serves _ _ _ _) λ w h.
        Safe-bind n k _ _ (check-Safe n k w.0 h) λ _ _.
          Safe-bind n k _ _ (request-Safe n k large dev serves _ _ _ _)
            λ r l. check_or_clunk-Safe fid r l

  start_offset-Safe : (fid flags : ℕ) → Safe n k Any (start_offset dev fid flags)
  unfolding start_offset
  start_offset-Safe fid flags =
      Safe-if n k (bit_and flags o_append == 0) _ _ (λ _. Safe-pure n k 0 tt)
        λ _.
          Safe-bind n k _ _ (p9_getattr_size-Safe n k large dev serves fid)
            λ x h. Safe-bind n k _ _ (check_or_clunk-Safe fid x.0 h) λ _ _. Safe-pure n k x.1 tt

  pub do_open-Safe : (path : Bytes) (mode : ℕ) → Safe n k Any (do_open dev path mode)
  unfolding do_open
  do_open-Safe path mode =
      Safe-guard n k (ltb 11 mode) (fail_errno einval) _ (fail_errno-Safe n k _ einval) λ _.
        Safe-bind n k {P = Any} _ _ (Safe-gets n k _ λ _ _. tt) λ free _.
          Safe-bind n k _ _ (found-Safe n k emfile free) λ slot _.
            Safe-bind n k _ _ (p9_walk-Safe n k large dev serves _ _ _ _) λ w h.
              Safe-guard n k (not (is_ok (w.0).rc)) (return (w.0).rc) _ (Safe-return n k (w.0).rc)
                λ _.
                  let flags = get_or sh_open_flags mode 0 in
                  Safe-bind n k {P = IsReader n} _ _
                    (Safe-if n k ((w.0).p9err == 0) _ _
                      (λ _. open_existing-Safe (fid_file slot) flags)
                      λ _.
                        Safe-if n k (not (bit_and flags o_creat == 0)) _ _
                          (λ _. create_file-Safe (fid_file slot) flags path)
                          λ _. fail_errno-Safe n k _ _)
                    λ _ _. Safe-bind n k _ _ (with_file-Safe n k slot (at_offset 0)) λ _ _.
                      Safe-bind n k _ _ (start_offset-Safe (fid_file slot) flags) λ offset _.
                        Safe-bind n k _ _ (with_file-Safe n k slot (at_offset offset)) λ _ _.
                          Safe-bind n k _ _ (with_file-Safe n k slot (used true))
                            λ _ _. succeed-Safe n k _

  pub do_close-Safe : (fd : ℕ) → Safe n k Any (do_close dev fd)
  unfolding do_close
  do_close-Safe fd = Safe-bind n k _ _ (open_slot-Safe n k fd) λ slot _.
      Safe-bind n k _ _ (p9_clunk-Safe n k large dev serves _)
        λ _ _. Safe-bind n k _ _ (with_file-Safe n k slot (used false)) λ _ _. succeed-Safe n k _

  pub do_read-Safe :
      (fuel fd count : ℕ)
      → count ≤ k
      → count < 2 ^ 32
      → count < fuel
      → Safe n k Any (do_read dev fuel fd count)
  unfolding do_read
  do_read-Safe fuel fd count h small f = Safe-bind n k _ _ (open_slot-Safe n k fd) λ slot _.
      Safe-bind n k _ _
        (read_loop-Safe n k large dev serves fuel slot count 0 h small (omega arith) (omega arith))
        λ got _.
          Safe-bind n k _ _ (fill_response-Safe n k _ 0)
            λ _ _. Safe-bind n k _ _ (give_data-Safe n k got) λ _ _. Safe-pure n k ok tt

  pub do_write-Safe :
      (fuel fd : ℕ) (src : Bytes) (count : ℕ)
      → count ≤ length src
      → IsBytes src
      → count < 2 ^ 32
      → count < fuel
      → Safe n k Any (do_write dev fuel fd src count)
  unfolding do_write
  do_write-Safe fuel fd src count h bytes small f =
      Safe-bind n k _ _ (open_slot-Safe n k fd) λ slot _.
        Safe-bind n k _ _
          (write_loop-Safe n k large dev serves fuel slot count src 0 h bytes small (omega arith)
            (omega arith))
          λ written _. succeed-Safe n k _

  pub do_seek-Safe : (fd offset : ℕ) → Safe n k Any (do_seek dev fd offset)
  unfolding do_seek
  do_seek-Safe fd offset = Safe-bind n k _ _ (open_slot-Safe n k fd) λ slot _.
      Safe-bind n k _ _ (with_file-Safe n k slot (at_offset offset)) λ _ _. succeed-Safe n k _

  pub do_flen-Safe : (fd : ℕ) → Safe n k Any (do_flen dev fd)
  unfolding do_flen
  do_flen-Safe fd = Safe-bind n k _ _ (open_slot-Safe n k fd) λ slot _.
      Safe-bind n k _ _ (p9_getattr_size-Safe n k large dev serves _)
        λ x h. Safe-bind n k _ _ (check-Safe n k x.0 h) λ _ _. succeed-Safe n k _

  pub do_fstat-Safe : (fd : ℕ) → stat_buf_size ≤ k → Safe n k Any (do_fstat dev fd)
  unfolding do_fstat
  do_fstat-Safe fd room = Safe-bind n k _ _ (open_slot-Safe n k fd) λ slot _.
      Safe-bind n k _ _ (request-Safe n k large dev serves _ _ _ _) λ r h.
        Safe-bind n k _ _ (check-Safe n k r h) λ reader l. stat_response-Safe n k reader l room

  pub do_ftruncate-Safe : (fd size : ℕ) → Safe n k Any (do_ftruncate dev fd size)
  unfolding do_ftruncate
  do_ftruncate-Safe fd size = Safe-bind n k _ _ (open_slot-Safe n k fd) λ slot _.
      Safe-bind n k _ _ (request-Safe n k large dev serves _ _ _ _)
        λ r h. Safe-bind n k _ _ (check-Safe n k r h) λ _ _. succeed-Safe n k _

  pub do_fsync-Safe : (fd : ℕ) → Safe n k Any (do_fsync dev fd)
  unfolding do_fsync
  do_fsync-Safe fd = Safe-bind n k _ _ (open_slot-Safe n k fd) λ slot _.
      Safe-bind n k _ _ (request-Safe n k large dev serves _ _ _ _)
        λ r h. Safe-bind n k _ _ (check-Safe n k r h) λ _ _. succeed-Safe n k _
