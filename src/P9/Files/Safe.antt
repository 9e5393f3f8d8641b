-- ===== src/P9/Files/Safe.antt =====
-- The operations on open files of src/c/zbc_transport_9p.c keep a session in order.
use semihost.Base.{ℕ, ◌+◌, ◌≤◌, false, Option, none, some, get_or, length, length-set, ◌≡◌, arith}
use semihost.Memory.{Bytes, Yields-weaken, load_bytes, load_bytes-Yields, write_bytes}
use semihost.Native.Writes.{HasLength, write_bytes-Yields}
use semihost.P9.Files
use semihost.P9.Files.{
  with_file, file_offset, at_offset, advance, used, with_out, put_out, found, succeed, open_slot,
  rgetattr_sizes, stat_layout, parse_rgetattr, stat_response, copy_data, round_size, check_or_clunk,
  open_existing, create_file, start_offset, do_open, do_close, read_round, read_loop, do_read,
  write_round, write_loop, do_write, do_seek, do_flen, do_fstat, do_ftruncate, do_fsync, fd_slot,
  free_slot, without_creat,
}
use semihost.P9.Message.{Reader}
use semihost.P9.Message.Safe.{IsReader, IsBlock, rd_sizes-Safe}
use semihost.P9.Session.{Handle, return, modify}
use semihost.P9.Session.Safe.{
  Any, Safe, Safe-pure, Safe-return, Safe-gets, Safe-access, Safe-modify, Safe-bind, Safe-guard,
  fill_response-Safe, give_data-Safe, fail_errno-Safe,
}
use semihost.P9.Wire.{ebadf, stat_buf_size}
use semihost.Riff.{ok, parse_error}

module _ (n k : ℕ) where
  pub with_file-Safe : (slot : ℕ) (f : Handle → Handle) → Safe n k Any (modify (with_file slot f))
  with_file-Safe slot f = Safe-modify n k (with_file slot f) λ s v.
      let kept = length-set s.files slot (f (get_or s.files slot Files.no_handle)) in ground arith

  pub found-Safe : {A : Type 0} (err : ℕ) (o : Option A) → Safe n k Any (found err o)
  unfolding found
  found-Safe err none = fail_errno-Safe n k Any err
  found-Safe err (some a) = Safe-pure n k a tt

  pub succeed-Safe : (result : ℕ) → Safe n k Any (succeed result)
  unfolding succeed
  succeed-Safe result =
      Safe-bind n k _ _ (fill_response-Safe n k result 0) λ _ _. Safe-pure n k ok tt

  pub open_slot-Safe : (fd : ℕ) → Safe n k Any (open_slot fd)
  unfolding open_slot
  open_slot-Safe fd =
      Safe-bind n k {P = Any} _ _ (Safe-gets n k (fd_slot fd) λ _ _. tt)
        λ slot _. found-Safe ebadf slot

  pub put_out-Safe : (off : ℕ) (bs : Bytes) → off + length bs ≤ k → Safe n k Any (put_out off bs)
  unfolding put_out
  put_out-Safe off bs h =
      Safe-bind n k {P = λ out. length out ≡ k} _ _
        (Safe-access n k _ λ s v.
          let size = v.out_len in
          Yields-weaken (HasLength (length s.out)) _ (write_bytes s.out off bs)
            (write_bytes-Yields s.out off bs (omega arith)) λ b l. omega arith)
        λ out l. Safe-modify n k (with_out out) λ s v. ground arith

  pub copy_data-Safe :
      (x : Option ℕ × Reader) (len got cnt : ℕ)
      → IsBlock n len x
      → (x.1).truncated ≡ false
      → cnt ≤ len
      → got + cnt ≤ k
      → Safe n k Any (copy_data x.0 got cnt)
  copy_data-Safe x len got cnt (_, block) whole h l =
      let (p, e, inside) = block whole in
      rw e (
        unfold copy_data in
        Safe-bind n k {P = λ bs. length bs ≡ cnt} _ _
          (Safe-access n k _ λ s v.
            let room = v.rx_room in
            Yields-weaken _ _ (load_bytes s.rx p cnt)
              (load_bytes-Yields s.rx p cnt v.rx_bytes (omega arith)) λ bs (size, _). size)
          λ bs size. put_out-Safe got bs (omega arith))

  pub stat_response-Safe :
      (r : Reader) → IsReader n r → stat_buf_size ≤ k → Safe n k Any (stat_response r)
  unfolding stat_response parse_rgetattr
  stat_response-Safe r h l =
      Safe-bind n k {P = Any} _ _
        (Safe-bind n k _ _ (rd_sizes-Safe n k rgetattr_sizes r h) λ v _.
          Safe-guard n k ((v.1).truncated) (return parse_error) _ (Safe-return n k parse_error)
            λ _. put_out-Safe 0 (stat_layout v.0) l)
        λ _ _.
          Safe-bind n k _ _ (fill_response-Safe n k 0 0)
            λ _ _. Safe-bind n k _ _ (give_data-Safe n k stat_buf_size) λ _ _. Safe-pure n k ok tt
