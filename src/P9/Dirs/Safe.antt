-- ===== src/P9/Dirs/Safe.antt =====
-- The operations on open directories of src/c/zbc_transport_9p.c keep a session in order.
use semihost.Base.{ℕ, ◌+◌, ◌≤◌, true, false, ◌==◌, ltb, get_or, length-set, arith}
use semihost.Memory.{Bytes}
use semihost.P9.Dirs.{
  with_dir, dir_slot, open_dir_slot, dirent_sizes, pack_dirent, take_dirent, do_opendir, do_readdir,
  do_closedir,
}
use semihost.P9.Files.{no_handle, at_offset, used}
use semihost.P9.Files.Operations.{check_or_clunk-Safe}
use semihost.P9.Files.Safe.{found-Safe, succeed-Safe, put_out-Safe, copy_data-Safe}
use semihost.P9.Message.{Reader}
use semihost.P9.Message.Safe.{IsReader, rd_u32-Safe, rd_bytes-Safe, rd_sizes-Safe}
use semihost.P9.Rpc.{Device}
use semihost.P9.Rpc.Safe.{Serves, request-Safe, p9_clunk-Safe, check-Safe}
use semihost.P9.Session.{Handle, return, modify, fail_errno}
use semihost.P9.Session.Safe.{
  Any, Safe, Safe-pure, Safe-return, Safe-gets, Safe-if, Safe-modify, Safe-bind, Safe-guard,
  fill_response-Safe, give_data-Safe, fail_errno-Safe,
}
use semihost.P9.Walk.Safe.{p9_walk-Safe}
use semihost.P9.Wire.{ebadf, emfile, einval, dirent_hdr_size}
use semihost.Riff.{ok, parse_error}

module _ (n k : ℕ) where
  with_dir-Safe : (slot : ℕ) (f : Handle → Handle) → Safe n k Any (modify (with_dir slot f))
  with_dir-Safe slot f =
      Safe-modify n k (with_dir slot f)
        λ s v. let kept = length-set s.dirs slot (f (get_or s.dirs slot no_handle)) in ground arith

  open_dir_slot-Safe : (handle : ℕ) → Safe n k Any (open_dir_slot handle)
  unfolding open_dir_slot
  open_dir_slot-Safe handle =
      Safe-bind n k {P = Any} _ _ (Safe-gets n k (dir_slot handle) λ _ _. tt)
        λ slot _. found-Safe n k ebadf slot

  take_dirent-Safe :
      (slot out_size : ℕ) (r : Reader)
      → IsReader n r
      → out_size ≤ k
      → Safe n k Any (take_dirent slot out_size r)
  unfolding take_dirent pack_dirent
  take_dirent-Safe slot out_size r h room =
      Safe-bind n k _ _ (rd_sizes-Safe n k dirent_sizes r h) λ v l.
        Safe-guard n k ((v.1).truncated) (return parse_error) _ (Safe-return n k parse_error) λ _.
          let name_len = get_or v.0 5 0 in
          Safe-guard n k (ltb 255 name_len) (return parse_error) _ (Safe-return n k parse_error)
            λ _. Safe-bind n k _ _ (rd_bytes-Safe n k v.1 name_len l) λ name block.
              Safe-guard n k ((name.1).truncated) (return parse_error) _
                (Safe-return n k parse_error)
                λ whole.
                  Safe-guard n k (ltb out_size (dirent_hdr_size + name_len + 1)) (fail_errno einval)
                    _ (fail_errno-Safe n k _ einval)
                    λ e.
                      let fits : 10 + name_len + 1 ≤ k = ground arith in
                      Safe-bind n k {P = Any} _ _
                        (Safe-bind n k _ _ (put_out-Safe n k 0 _ (omega arith)) λ _ _.
                          Safe-bind n k _ _ (put_out-Safe n k 8 _ (omega arith)) λ _ _.
                            Safe-bind n k _ _
                              (copy_data-Safe n k name name_len 10 name_len block whole
                                (omega arith) (omega arith))
                              λ _ _. put_out-Safe n k (10 + name_len) _ (omega arith))
                        λ _ _.
                          Safe-bind n k _ _ (with_dir-Safe slot (at_offset (get_or v.0 3 0))) λ _ _.
                            Safe-bind n k _ _ (fill_response-Safe n k _ 0) λ _ _.
                              Safe-bind n k _ _ (give_data-Safe n k _) λ _ _. Safe-pure n k ok tt

module _ (n k : ℕ) (large : 128 ≤ n) (dev : Device) (serves : Serves dev) where
  pub do_opendir-Safe : (path : Bytes) → Safe n k Any (do_opendir dev path)
  unfolding do_opendir
  do_opendir-Safe path = Safe-bind n k {P = Any} _ _ (Safe-gets n k _ λ _ _. tt) λ free _.
      Safe-bind n k _ _ (found-Safe n k emfile free) λ slot _.
        Safe-bind n k _ _ (p9_walk-Safe n k large dev serves _ _ _ _) λ w h.
          Safe-bind n k _ _ (check-Safe n k w.0 h) λ _ _.
            Safe-bind n k _ _ (request-Safe n k large dev serves _ _ _ _) λ r l.
              Safe-bind n k _ _ (check_or_clunk-Safe n k large dev serves _ r l) λ _ _.
                Safe-bind n k _ _ (with_dir-Safe n k slot (used true)) λ _ _.
                  Safe-bind n k _ _ (with_dir-Safe n k slot (at_offset 0)) λ _ _. succeed-Safe n k _

  pub do_readdir-Safe :
      (handle out_size : ℕ) → out_size ≤ k → Safe n k Any (do_readdir dev handle out_size)
  unfolding do_readdir
  do_readdir-Safe handle out_size room = Safe-bind n k _ _ (open_dir_slot-Safe n k handle) λ slot _.
      Safe-bind n k {P = Any} _ _ (Safe-gets n k _ λ _ _. tt) λ offset _.
        Safe-bind n k _ _ (request-Safe n k large dev serves _ _ _ _) λ r h.
          Safe-bind n k _ _ (check-Safe n k r h) λ reader l.
            Safe-bind n k _ _ (rd_u32-Safe n k reader l) λ count l1.
              Safe-guard n k ((count.1).truncated) (return parse_error) _
                (Safe-return n k parse_error)
                λ _.
                  Safe-if n k (count.0 == 0) _ _ (λ _. succeed-Safe n k 0)
                    λ _. take_dirent-Safe n k slot out_size count.1 l1 room

  pub do_closedir-Safe : (handle : ℕ) → Safe n k Any (do_closedir dev handle)
  unfolding do_closedir
  do_closedir-Safe handle = Safe-bind n k _ _ (open_dir_slot-Safe n k handle) λ slot _.
      Safe-bind n k _ _ (p9_clunk-Safe n k large dev serves _) λ _ _.
        Safe-bind n k _ _ (with_dir-Safe n k slot (used false))
          λ _ _. Safe-bind n k _ _ (with_dir-Safe n k slot (at_offset 0)) λ _ _. succeed-Safe n k _
