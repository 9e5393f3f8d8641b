-- ===== src/P9/Paths/Safe.antt =====
-- The operations on paths of src/c/zbc_transport_9p.c keep a session in order.
use semihost.Base.{ℕ, ◌%◌, ◌≤◌, ltb, min, arith}
use semihost.Memory.{Bytes}
use semihost.P9.Files.Operations.{check_or_clunk-Safe}
use semihost.P9.Files.Safe.{succeed-Safe, stat_response-Safe, put_out-Safe, copy_data-Safe}
use semihost.P9.Message.Safe.{rd_u16-Safe, rd_bytes-Safe}
use semihost.P9.Paths.{
  counted, tmpnam_text, do_tmpnam, do_stat, do_mkdir, do_link, do_symlink, do_readlink, do_remove,
  do_rename,
}
use semihost.P9.Rpc.{Device}
use semihost.P9.Rpc.Safe.{Serves, request-Safe, p9_clunk-Safe, check-Safe}
use semihost.P9.Session.{return, fail_errno}
use semihost.P9.Session.Safe.{
  Any, Safe, Safe-pure, Safe-return, Safe-gets, Safe-modify, Safe-bind, Safe-guard,
  fill_response-Safe, give_data-Safe, fail_errno-Safe,
}
use semihost.P9.Walk.Safe.{p9_walk-Safe}
use semihost.P9.Wire.{einval, stat_buf_size}
use semihost.Riff.{ok, parse_error}

pub do_tmpnam-Safe : (n k id maxlen : ℕ) → maxlen ≤ k → Safe n k Any (do_tmpnam id maxlen)
unfolding do_tmpnam
do_tmpnam-Safe n k id maxlen room =
    Safe-bind n k {P = Any} _ _ (Safe-gets n k _ λ _ _. tt) λ counter _.
      Safe-bind n k _ _ (Safe-modify n k counted λ s v. ground arith) λ _ _.
        Safe-guard n k (ltb maxlen 13) (fail_errno einval) _ (fail_errno-Safe n k _ einval) λ e.
          let fits : 13 ≤ maxlen = ground arith in
          Safe-bind n k _ _ (put_out-Safe n k 0 (tmpnam_text counter (id % 256)) (omega arith))
            λ _ _.
              Safe-bind n k _ _ (fill_response-Safe n k 0 0)
                λ _ _. Safe-bind n k _ _ (give_data-Safe n k 13) λ _ _. Safe-pure n k ok tt

module _ (n k : ℕ) (large : 128 ≤ n) (dev : Device) (serves : Serves dev) where
  pub do_stat-Safe : (path : Bytes) → stat_buf_size ≤ k → Safe n k Any (do_stat dev path)
  unfolding do_stat
  do_stat-Safe path room = Safe-bind n k _ _ (p9_walk-Safe n k large dev serves _ _ _ _) λ w h.
      Safe-bind n k _ _ (check-Safe n k w.0 h) λ _ _.
        Safe-bind n k _ _ (request-Safe n k large dev serves _ _ _ _) λ r l.
          Safe-bind n k _ _ (p9_clunk-Safe n k large dev serves _) λ _ _.
            Safe-bind n k _ _ (check-Safe n k r l)
              λ reader l1. stat_response-Safe n k reader l1 room

  pub do_mkdir-Safe : (path : Bytes) (mode : ℕ) → Safe n k Any (do_mkdir dev path mode)
  unfolding do_mkdir
  do_mkdir-Safe path mode = Safe-bind n k _ _ (p9_walk-Safe n k large dev serves _ _ _ _) λ w h.
      Safe-bind n k _ _ (check-Safe n k w.0 h) λ _ _.
        Safe-bind n k _ _ (request-Safe n k large dev serves _ _ _ _) λ r l.
          Safe-bind n k _ _ (p9_clunk-Safe n k large dev serves _)
            λ _ _. Safe-bind n k _ _ (check-Safe n k r l) λ _ _. succeed-Safe n k 0

  pub do_link-Safe : (old_path new_path : Bytes) → Safe n k Any (do_link dev old_path new_path)
  unfolding do_link
  do_link-Safe old_path new_path =
      Safe-bind n k _ _ (p9_walk-Safe n k large dev serves _ _ _ _) λ w h.
        Safe-bind n k _ _ (check-Safe n k w.0 h) λ _ _.
          Safe-bind n k _ _ (p9_walk-Safe n k large dev serves _ _ _ _) λ v l.
            Safe-bind n k _ _ (check_or_clunk-Safe n k large dev serves _ v.0 l) λ _ _.
              Safe-bind n k _ _ (request-Safe n k large dev serves _ _ _ _) λ r m.
                Safe-bind n k _ _ (p9_clunk-Safe n k large dev serves _) λ _ _.
                  Safe-bind n k _ _ (p9_clunk-Safe n k large dev serves _)
                    λ _ _. Safe-bind n k _ _ (check-Safe n k r m) λ _ _. succeed-Safe n k 0

  pub do_symlink-Safe : (target linkpath : Bytes) → Safe n k Any (do_symlink dev target linkpath)
  unfolding do_symlink
  do_symlink-Safe target linkpath =
      Safe-bind n k _ _ (p9_walk-Safe n k large dev serves _ _ _ _) λ w h.
        Safe-bind n k _ _ (check-Safe n k w.0 h) λ _ _.
          Safe-bind n k _ _ (request-Safe n k large dev serves _ _ _ _) λ r l.
            Safe-bind n k _ _ (p9_clunk-Safe n k large dev serves _)
              λ _ _. Safe-bind n k _ _ (check-Safe n k r l) λ _ _. succeed-Safe n k 0

  pub do_readlink-Safe :
      (path : Bytes) (out_size : ℕ) → out_size ≤ k → Safe n k Any (do_readlink dev path out_size)
  unfolding do_readlink
  do_readlink-Safe path out_size room =
      Safe-bind n k _ _ (p9_walk-Safe n k large dev serves _ _ _ _) λ w h.
        Safe-bind n k _ _ (check-Safe n k w.0 h) λ _ _.
          Safe-bind n k _ _ (request-Safe n k large dev serves _ _ _ _) λ r l.
            Safe-bind n k _ _ (p9_clunk-Safe n k large dev serves _) λ _ _.
              Safe-bind n k _ _ (check-Safe n k r l) λ reader l1.
                Safe-bind n k _ _ (rd_u16-Safe n k reader l1) λ len l2.
                  Safe-bind n k _ _ (rd_bytes-Safe n k len.1 len.0 l2) λ target block.
                    Safe-guard n k ((target.1).truncated) (return parse_error) _
                      (Safe-return n k parse_error)
                      λ whole.
                        Safe-bind n k _ _
                          (copy_data-Safe n k target len.0 0 (min len.0 out_size) block whole
                            (omega arith) (omega arith))
                          λ _ _. Safe-bind n k _ _ (fill_response-Safe n k _ 0) λ _ _.
                            Safe-bind n k _ _ (give_data-Safe n k (min len.0 out_size))
                              λ _ _. Safe-pure n k ok tt

  pub do_remove-Safe : (path : Bytes) → Safe n k Any (do_remove dev path)
  unfolding do_remove
  do_remove-Safe path = Safe-bind n k _ _ (p9_walk-Safe n k large dev serves _ _ _ _) λ w h.
      Safe-bind n k _ _ (check-Safe n k w.0 h) λ _ _.
        Safe-bind n k _ _ (request-Safe n k large dev serves _ _ _ _)
          λ r l. Safe-bind n k _ _ (check-Safe n k r l) λ _ _. succeed-Safe n k 0

  pub do_rename-Safe : (old_path new_path : Bytes) → Safe n k Any (do_rename dev old_path new_path)
  unfolding do_rename
  do_rename-Safe old_path new_path =
      Safe-bind n k _ _ (p9_walk-Safe n k large dev serves _ _ _ _) λ w h.
        Safe-bind n k _ _ (check-Safe n k w.0 h) λ _ _.
          Safe-bind n k _ _ (p9_walk-Safe n k large dev serves _ _ _ _) λ v l.
            Safe-bind n k _ _ (check_or_clunk-Safe n k large dev serves _ v.0 l) λ _ _.
              Safe-bind n k _ _ (request-Safe n k large dev serves _ _ _ _) λ r m.
                Safe-bind n k _ _ (p9_clunk-Safe n k large dev serves _) λ _ _.
                  Safe-bind n k _ _ (p9_clunk-Safe n k large dev serves _)
                    λ _ _. Safe-bind n k _ _ (check-Safe n k r m) λ _ _. succeed-Safe n k 0
