-- ===== src/P9/Transport/Mount.antt =====
-- zbc_9p_mount of src/c/zbc_transport_9p.c.
use semihost.Base.{
  ℕ, ◌≤◌, false, not, ◌==◌, ltb, if◌then◌else◌, Option, none, some, length, ◌≡◌, ap, arith,
}
use semihost.Memory.{Yields, Yields-weaken, load_bytes, load_bytes-Yields}
use semihost.P9.Message.{Reader}
use semihost.P9.Message.Safe.{IsReader, IsBlock, rd_u16-Safe, rd_u32-Safe, rd_bytes-Safe}
use semihost.P9.Rpc.{Device, Reply}
use semihost.P9.Rpc.Safe.{Serves, IsReply, request-Safe}
use semihost.P9.Session.{Session, Flow, next, returned, ◌>>=◌, return, run_on, modify}
use semihost.P9.Session.Safe.{
  InOrder, Any, Kept, Safe, Safe-pure, Safe-return, Safe-gets, Safe-access, Safe-bind, Safe-guard,
}
use semihost.P9.Transport.{
  same_bytes, lower_msize, mount_check, version_bytes, negotiate, attach, zbc_9p_mount,
}
use semihost.P9.Wire.{version_str}
use semihost.Riff.{ok, is_ok, device_error}

module _ (n k : ℕ) where
  mount_check-Safe : (r : Reply) → IsReply n r → Safe n k (IsReader n) (mount_check r)
  unfolding mount_check
  mount_check-Safe r h =
      Safe-guard n k (not (is_ok r.rc)) (return r.rc) _ (Safe-return n k r.rc) λ _.
        Safe-guard n k (not (r.p9err == 0)) (return device_error) _ (Safe-return n k device_error)
          λ _. Safe-pure n k _ h

  version_bytes-Safe :
      (x : Option ℕ × Reader) (len : ℕ)
      → IsBlock n len x
      → (x.1).truncated ≡ false
      → Safe n k Any (version_bytes x.0 len)
  version_bytes-Safe x len (_, block) whole =
      let (p, e, inside) = block whole in
      rw e (
        unfold version_bytes in
        Safe-access n k _ λ s v.
          let room = v.rx_room in
          Yields-weaken _ _ (load_bytes s.rx p len)
            (load_bytes-Yields s.rx p len v.rx_bytes (omega arith)) λ _ _. tt)

module _ (n k : ℕ) (large : 128 ≤ n) (dev : Device) (serves : Serves dev) where
  negotiate-Safe : Safe n k (λ size. 128 ≤ size) (negotiate dev)
  unfolding negotiate
  negotiate-Safe = Safe-bind n k {P = Any} _ _ (Safe-gets n k _ λ _ _. tt) λ msize _.
      Safe-bind n k _ _ (request-Safe n k large dev serves _ _ _ _) λ r h.
        Safe-bind n k _ _ (mount_check-Safe n k r h) λ reader l.
          Safe-bind n k _ _ (rd_u32-Safe n k reader l) λ size l1.
            Safe-bind n k _ _ (rd_u16-Safe n k size.1 l1) λ vlen l2.
              Safe-bind n k _ _ (rd_bytes-Safe n k vlen.1 vlen.0 l2) λ vstr block.
                Safe-guard n k ((vstr.1).truncated) _ _ (Safe-return n k device_error) λ whole.
                  Safe-guard n k (ltb size.0 128) _ _ (Safe-return n k device_error) λ enough.
                    Safe-guard n k (not (vlen.0 == length version_str)) _ _
                      (Safe-return n k device_error)
                      λ _.
                        Safe-bind n k _ _ (version_bytes-Safe n k vstr vlen.0 block whole) λ text _.
                          Safe-guard n k (not (same_bytes text version_str)) _ _
                            (Safe-return n k device_error) λ _. Safe-pure n k size.0 (ground arith)

  attach-Safe : Safe n k Any (attach dev)
  unfolding attach
  attach-Safe =
      Safe-bind n k _ _ (request-Safe n k large dev serves _ _ _ _)
        λ r h. Safe-bind n k _ _ (mount_check-Safe n k r h) λ _ _. Safe-pure n k ok tt

-- The size that the two sides agree on
abbrev pub agreed : ℕ → ℕ → ℕ
agreed size n = if ltb size n then size else n

lower_msize-InOrder :
    (n k size : ℕ) (s : Session) → InOrder n k s → InOrder (agreed size n) k (lower_msize size s)
lower_msize-InOrder n k size s v =
    let lower : agreed size n ≤ n = ground arith in
    let tx_room = v.tx_room in
    let rx_room = v.rx_room in
    record {
      queue = v.queue;
      idle = v.idle;
      msize_is = ap (agreed size) v.msize_is;
      tx_room = omega arith;
      rx_room = omega arith;
      rx_bytes = v.rx_bytes;
      files_len = v.files_len;
      dirs_len = v.dirs_len;
      out_len = v.out_len;
    }

-- On a session that is set up with room for messages of `n` bytes, at least 128, and with a device
-- that keeps to the virtio protocol but may answer anything, zbc_9p_mount ends, makes no access
-- outside its buffers and rings, and leaves a session in order, for messages of a size between 128
-- and `n`.
pub zbc_9p_mount-Yields :
    (n k : ℕ) (dev : Device) (s : Session)
    → 128 ≤ n
    → Serves dev
    → InOrder n k s
    → Yields (λ r. (m : ℕ) × (128 ≤ m) × (m ≤ n) × InOrder m k r.1) (zbc_9p_mount dev s)
unfolding zbc_9p_mount ◌>>=◌ modify
zbc_9p_mount-Yields n k dev s large serves v =
    goes (negotiate dev s) ((negotiate-Safe n k large dev serves).at s v)
  where
    goes :
        (o : Option (Flow ℕ × Session))
        → Yields (Kept n k (λ size. 128 ≤ size)) o
        → Yields
            (λ r. (m : ℕ) × (128 ≤ m) × (m ≤ n) × InOrder m k r.1)
            (run_on o λ size t. attach dev (lower_msize size t))
    goes none h = h
    goes (some (returned rc, t)) (w, _) = (n, large, omega arith, w)
    goes (some (next size, t)) (w, enough) =
        let m : ℕ = agreed size n in
        let low : 128 ≤ agreed size n = ground arith in
        Yields-weaken _ _ (attach dev (lower_msize size t))
          ((attach-Safe (agreed size n) k low dev serves).at (lower_msize size t)
            (lower_msize-InOrder n k size t w))
          λ r (after, _). (agreed size n, low, ground arith, after)
