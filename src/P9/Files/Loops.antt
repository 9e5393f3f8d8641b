-- ===== src/P9/Files/Loops.antt =====
-- The loops of do_read and do_write of src/c/zbc_transport_9p.c end and stay in the caller's buffer.
use semihost.Base.{
  ℕ, zero, suc, ◌+◌, ◌-◌, ◌^◌, ◌≤◌, ◌<◌, not, ltb, length, length-drop, drop, arith,
}
use semihost.Memory.{Bytes, IsBytes, Yields-weaken, load_bytes, load_bytes-Yields}
use semihost.P9.Files.{
  file_offset, advance, round_size, read_round, read_loop, write_round, write_loop,
}
use semihost.P9.Files.Safe.{with_file-Safe, copy_data-Safe}
use semihost.P9.Message.Safe.{rd_u32-Safe, rd_bytes-Safe}
use semihost.P9.Rpc.{Device}
use semihost.P9.Rpc.Safe.{Serves, IsBytes-drop, request-Safe, check-Safe}
use semihost.P9.Session.{return}
use semihost.P9.Session.Safe.{
  Any, Safe, Safe-pure, Safe-return, Safe-gets, Safe-access, Safe-if, Safe-bind, Safe-guard,
}
use semihost.P9.Wire.{p9_tag, tread, rread, twrite, rwrite}
use semihost.Riff.{parse_error}

-- A round asks for no more than is left, and for something where less than 2 ^ 32 bytes are left.
round_bounds :
    (msize left : ℕ)
    → (round_size msize left ≤ left) × (0 < left → left < 2 ^ 32 → 0 < round_size msize left)
round_bounds msize left = (omega arith, λ some_left small. ground arith)

module _ (n k : ℕ) (large : 128 ≤ n) (dev : Device) (serves : Serves dev) where
  -- No more came than was asked for.
  read_round-Safe :
      (slot asked got : ℕ)
      → got + asked ≤ k
      → Safe n k (λ cnt. cnt ≤ asked) (read_round dev slot asked got)
  unfolding read_round
  read_round-Safe slot asked got h =
      Safe-bind n k {P = Any} _ _ (Safe-gets n k (file_offset slot) λ _ _. tt) λ offset _.
        Safe-bind n k _ _ (request-Safe n k large dev serves tread p9_tag rread _) λ r l.
          Safe-bind n k _ _ (check-Safe n k r l) λ reader l1.
            Safe-bind n k _ _ (rd_u32-Safe n k reader l1) λ cnt l2.
              Safe-guard n k (ltb asked cnt.0) (return parse_error) _ (Safe-return n k parse_error)
                λ few. Safe-bind n k _ _ (rd_bytes-Safe n k cnt.1 cnt.0 l2) λ p block.
                  Safe-guard n k ((p.1).truncated) (return parse_error) _
                    (Safe-return n k parse_error)
                    λ whole.
                      let less : cnt.0 ≤ asked = ground arith in
                      Safe-bind n k _ _
                        (copy_data-Safe n k p cnt.0 got cnt.0 block whole (omega arith)
                          (omega arith))
                        λ _ _.
                          Safe-bind n k _ _ (with_file-Safe n k slot (advance cnt.0))
                            λ _ _. Safe-pure n k cnt.0 less

  pub read_loop-Safe :
      (fuel slot count got : ℕ)
      → count ≤ k
      → count < 2 ^ 32
      → got ≤ count
      → count < got + fuel
      → Safe n k (λ total. total ≤ count) (read_loop dev fuel slot count got)
  unfolding read_loop
  read_loop-Safe zero slot count got h small l f = absurd (omega arith)
  read_loop-Safe (suc fuel) slot count got h small l f =
      Safe-if n k (not (ltb got count)) _ _ (λ _. Safe-pure n k got l)
        λ e.
          let more : got < count = ground arith in
          Safe-bind n k {P = λ asked. (asked ≤ count - got) × (0 < asked)} _ _
            (Safe-gets n k _ λ s v.
              let (upper, lower) = round_bounds s.msize (count - got) in
              (upper, lower (omega arith) (omega arith)))
            λ asked (upper, lower).
              Safe-bind n k _ _ (read_round-Safe slot asked got (omega arith)) λ cnt less.
                Safe-if n k (ltb cnt asked) _ _ (λ _. Safe-pure n k _ (omega arith))
                  λ full.
                    let all : asked ≤ cnt = ground arith in
                    read_loop-Safe fuel slot count (got + cnt) h small (omega arith) (omega arith)

  write_round-Safe :
      (slot asked : ℕ) (src : Bytes)
      → asked ≤ length src
      → IsBytes src
      → Safe n k (λ cnt. cnt ≤ asked) (write_round dev slot asked src)
  unfolding write_round
  write_round-Safe slot asked src h bytes =
      Safe-bind n k {P = Any} _ _ (Safe-gets n k (file_offset slot) λ _ _. tt) λ offset _.
        Safe-bind n k {P = Any} _ _
          (Safe-access n k _ λ s v.
            Yields-weaken _ _ (load_bytes src 0 asked)
              (load_bytes-Yields src 0 asked bytes (omega arith)) λ _ _. tt)
          λ payload _.
            Safe-bind n k _ _ (request-Safe n k large dev serves twrite p9_tag rwrite _) λ r l.
              Safe-bind n k _ _ (check-Safe n k r l) λ reader l1.
                Safe-bind n k _ _ (rd_u32-Safe n k reader l1) λ cnt l2.
                  Safe-guard n k ((cnt.1).truncated) (return parse_error) _
                    (Safe-return n k parse_error)
                    λ _.
                      Safe-guard n k (ltb asked cnt.0) (return parse_error) _
                        (Safe-return n k parse_error)
                        λ few.
                          let less : cnt.0 ≤ asked = ground arith in
                          Safe-bind n k _ _ (with_file-Safe n k slot (advance cnt.0))
                            λ _ _. Safe-pure n k cnt.0 less

  pub write_loop-Safe :
      (fuel slot count : ℕ) (src : Bytes) (written : ℕ)
      → count ≤ length src
      → IsBytes src
      → count < 2 ^ 32
      → written ≤ count
      → count < written + fuel
      → Safe n k (λ total. total ≤ count) (write_loop dev fuel slot count src written)
  unfolding write_loop
  write_loop-Safe zero slot count src written h bytes small l f = absurd (omega arith)
  write_loop-Safe (suc fuel) slot count src written h bytes small l f =
      Safe-if n k (not (ltb written count)) _ _ (λ _. Safe-pure n k written l)
        λ e.
          let more : written < count = ground arith in
          Safe-bind n k {P = λ asked. (asked ≤ count - written) × (0 < asked)} _ _
            (Safe-gets n k _ λ s v.
              let (upper, lower) = round_bounds s.msize (count - written) in
              (upper, lower (omega arith) (omega arith)))
            λ asked (upper, lower).
              Safe-bind n k _ _
                (write_round-Safe slot asked (drop written src)
                  (omega (arith, length-drop written src)) (IsBytes-drop written src bytes))
                λ cnt less.
                  Safe-if n k (ltb cnt asked) _ _ (λ _. Safe-pure n k _ (omega arith))
                    λ full.
                      let all : asked ≤ cnt = ground arith in
                      write_loop-Safe fuel slot count src (written + cnt) h bytes small
                        (omega arith) (omega arith)
