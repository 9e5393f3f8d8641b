-- ===== src/P9/Rpc/Leaves.antt =====
-- The round trips and walks of src/c/zbc_transport_9p.c leave the table of open files alone.
use semihost.Base.{ℕ, Option, none, some, List, [], ◌∷◌, ◌≡◌, refl, Bool-cases, inl, inr}
use semihost.Memory.{Bytes, load}
use semihost.P9.Message.{
  Writer, Reader, Field, word16, word32, word64, bytes, str, with_tx, wr_bytes, wr_raw_u8, wr_u16,
  wr_u32, wr_u64, wr_str, wr_begin, wr_field, wr_fields, rd_num, rd_u16, rd_u32, rd_bytes,
}
use semihost.P9.Rpc.{
  Turn, Device, Reply, read_error, accept_reply, exchanged, xfer, p9_rpc, request, p9_clunk, check,
}
use semihost.P9.Session.{Session, next, modify}
use semihost.P9.Session.Ends.{IfEnds}
use semihost.P9.Session.Leaves.{Leaves, Leaves-modify, Leaves-bind, Leaves-pure, leaving}
use semihost.Riff.{Rc, is_ok}
use semihost.Virtio.{Virtq}

with_tx-Leaves : (tx : Bytes) → Leaves (modify (with_tx tx))
with_tx-Leaves tx = Leaves-modify _ λ s. refl

wr_bytes-Leaves : (w : Writer) (bs : Bytes) → Leaves (wr_bytes w bs)
unfolding wr_bytes
wr_bytes-Leaves w bs = search (leaving, with_tx-Leaves)

wr_field-Leaves : (w : Writer) (f : Field) → Leaves (wr_field w f)
unfolding wr_field wr_u64 wr_u32 wr_u16 wr_str
wr_field-Leaves w (word16 v) = wr_bytes-Leaves w _
wr_field-Leaves w (word32 v) = wr_bytes-Leaves w _
wr_field-Leaves w (word64 v) = Leaves-bind _ _ (wr_bytes-Leaves w _) λ w'. wr_bytes-Leaves w' _
wr_field-Leaves w (bytes bs) = wr_bytes-Leaves w bs
wr_field-Leaves w (str text) = Leaves-bind _ _ (wr_bytes-Leaves w _) λ w'. wr_bytes-Leaves w' text

wr_fields-Leaves : (w : Writer) (fs : List Field) → Leaves (wr_fields w fs)
unfolding wr_fields
wr_fields-Leaves w [] = Leaves-pure w
wr_fields-Leaves w (f ∷ fs) = Leaves-bind _ _ (wr_field-Leaves w f) λ w'. wr_fields-Leaves w' fs

wr_begin-Leaves : (type tag : ℕ) → Leaves (wr_begin type tag)
unfolding wr_begin wr_u32 wr_raw_u8 wr_u16
wr_begin-Leaves type tag = search (leaving, wr_bytes-Leaves)

rd_num-Leaves : (n : ℕ) (get : Bytes → ℕ → Option ℕ) (r : Reader) → Leaves (rd_num n get r)
unfolding rd_num
rd_num-Leaves n get r = search leaving

pub rd_u16-Leaves : (r : Reader) → Leaves (rd_u16 r)
unfolding rd_u16
rd_u16-Leaves r = rd_num-Leaves _ _ r

pub rd_u32-Leaves : (r : Reader) → Leaves (rd_u32 r)
unfolding rd_u32
rd_u32-Leaves r = rd_num-Leaves _ _ r

pub rd_bytes-Leaves : (r : Reader) (len : ℕ) → Leaves (rd_bytes r len)
unfolding rd_bytes
rd_bytes-Leaves r len = search leaving

read_error-Leaves : (r : Reader) → Leaves (read_error r)
unfolding read_error
read_error-Leaves r = search (leaving, rd_u32-Leaves)

accept_reply-Leaves : (rtype used : ℕ) → Leaves (accept_reply rtype used)
unfolding accept_reply
accept_reply-Leaves rtype used = search (leaving, read_error-Leaves) depth 12

exchanged-files :
    (turn : Turn) (w : Writer) (x : Rc × Virtq × Option ℕ) (s : Session)
    → (exchanged turn w x s).files ≡ s.files
unfolding exchanged
exchanged-files turn w x s = elim (Bool-cases (is_ok x.0)) [ inl e ↦ rw e refl | inr e ↦ rw e refl ]

pub check-Leaves : (r : Reply) → Leaves (check r)
unfolding check
check-Leaves r = search leaving

module _ (dev : Device) where
  xfer-Leaves : (w : Writer) → Leaves (xfer dev w)
  unfolding xfer
  xfer-Leaves w = record { at = λ s. sent s (semihost.P9.Rpc.turn_of dev w s) _ }
    where
      sent :
          (s : Session) (turn : Turn) (o : Option (Rc × Virtq × Option ℕ))
          → IfEnds {A = Rc × ℕ}
              (λ _ t. t.files ≡ s.files)
              (semihost.Memory.◌>>=◌ o
                (λ x. some (next (x.0, semihost.P9.Rpc.used_or x.2), exchanged turn w x s)))
      sent s turn none = tt
      sent s turn (some x) = exchanged-files turn w x s

  p9_rpc-Leaves : (w : Writer) (rtype : ℕ) → Leaves (p9_rpc dev w rtype)
  unfolding p9_rpc
  p9_rpc-Leaves w rtype =
      search (leaving, with_tx-Leaves, xfer-Leaves, accept_reply-Leaves) depth 10

  pub request-Leaves :
      (type tag rtype : ℕ) (fields : List Field) → Leaves (request dev type tag rtype fields)
  unfolding request
  request-Leaves type tag rtype fields =
      search (leaving, wr_begin-Leaves, wr_fields-Leaves, p9_rpc-Leaves)

  pub p9_clunk-Leaves : (fid : ℕ) → Leaves (p9_clunk dev fid)
  unfolding p9_clunk
  p9_clunk-Leaves fid = search (leaving, request-Leaves)
