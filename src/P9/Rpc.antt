-- ===== src/P9/Rpc.antt =====
-- One round trip of src/c/zbc_transport_9p.c: p9_rpc over the virtqueue, and p9_clunk. The device
-- and its server are a parameter.
use semihost.Base.{
  ℕ, ◌+◌, ◌-◌, ◌^◌, Bool, true, false, not, ◌==◌, ltb, leb, ◌||◌, if◌then◌else◌, Option, none, some,
  List, [], ◌∷◌, ◌++◌, length, take, drop,
}
use semihost.Memory.{Bytes, load}
use semihost.P9.Message.{Field, word32, Writer, Reader, with_tx, wr_begin, wr_fields, rd_u32}
use semihost.P9.Session.{
  Session, Flow, P9, next, ◌>>=◌, ◌>>◌, pure, return, gets, modify, access, fail_errno, when,
}
use semihost.P9.Wire.{hdr_size, rlerror, p9_tag, tclunk, rclunk}
use semihost.Riff.{Rc, ok, is_ok, buffer_full, parse_error}
pub mod Safe
pub mod Leaves
use semihost.Virtio.{Virtq, Span, virtq_xfer}
use semihost.Word.{u32, write_u32_le, read_u32_le}

-- What the device does from one post on: its used ring before each poll, for fewer polls than
-- `fuel`, and what it writes to the reply's buffer.
pub record Turn : Type 0 where
  pub fuel : ℕ
  pub rings : ℕ → Bytes
  pub received : Bytes

-- The device at the round trip with that number, by the queue, the T-message and the room for the
-- reply
abbrev pub Device : Type 0
Device = ℕ → Virtq → Bytes → ℕ → Turn

-- The device writes no further than the descriptor says.
abbrev pub receive : ℕ → Bytes → Bytes → Bytes
receive room received rx = let got = take room received in got ++ drop (length got) rx

abbrev pub out_span : Session → Writer → Span
out_span s w = record { ptr = some s.tx_at; len = w.pos }

abbrev pub in_span : Session → Span
in_span s = record { ptr = some s.rx_at; len = s.msize }

-- *used_len, which starts as 0
abbrev pub used_or : Option ℕ → ℕ
used_or none = 0
used_or (some n) = n

-- A return code, *p9err and *reply
pub record Reply : Type 0 where
  pub rc : Rc
  pub p9err : ℕ
  pub reader : Reader

abbrev pub no_reader : Reader
no_reader = record { len = 0; pos = 0; truncated = false }

abbrev pub answer : Rc → ℕ → Reader → Reply
answer rc p9err reader = record { rc = rc; p9err = p9err; reader = reader }

-- The Rlerror case
unfoldable pub read_error : Reader → P9 Reply
read_error r = do
  e ← rd_u32 r
  pure (
      if (e.1).truncated || (e.0 == 0 || leb (2 ^ 31) e.0)
      then answer parse_error e.0 e.1
      else answer ok e.0 e.1)

-- p9_rpc from the check of `used` on
unfoldable pub accept_reply : ℕ → ℕ → P9 Reply
accept_reply rtype used = if ltb used hdr_size then pure (answer parse_error 0 no_reader) else (do
  rsize ← access (λ s. read_u32_le s.rx 0)
  if ltb rsize hdr_size || ltb used rsize then pure (answer parse_error 0 no_reader) else (do
    type ← access (λ s. load s.rx 4)
    let r : Reader = record { len = rsize; pos = hdr_size; truncated = false }
    if type == rlerror
        then read_error r
        else if not (type == rtype)
        then pure (answer parse_error 0 r)
        else pure (answer ok 0 r)))

-- The queue after the exchange, and where it was made, the T-message and the reply's bytes
unfoldable pub exchanged : Turn → Writer → Rc × Virtq × Option ℕ → Session → Session
exchanged turn w x s =
    if is_ok x.0
    then record s {
      vq = x.1;
      rx = receive s.msize turn.received s.rx;
      turns = s.turns + 1;
      sent = s.sent ++ (take w.pos s.tx ∷ []);
    }
    else record s { vq = x.1 }

module _ (dev : Device) where
  abbrev pub turn_of : Writer → Session → Turn
  turn_of w s = dev s.turns s.vq (take w.pos s.tx) s.msize

  -- zbc_virtq_xfer, with the device's part
  unfoldable pub xfer : Writer → P9 (Rc × ℕ)
  xfer w s =
      semihost.Memory.◌>>=◌
        (virtq_xfer (turn_of w s).fuel (turn_of w s).rings s.vq (out_span s w) (in_span s))
        (λ x. some (next (x.0, used_or x.2), exchanged (turn_of w s) w x s))

  unfoldable pub p9_rpc : Writer → ℕ → P9 Reply
  p9_rpc w rtype = if ltb w.cap w.pos then pure (answer buffer_full 0 no_reader) else (do
    tx ← access (λ s. write_u32_le s.tx 0 (u32 w.pos))
    modify (with_tx tx)
    x ← xfer w
    if is_ok x.0 then accept_reply rtype x.1 else pure (answer x.0 0 no_reader))

  -- wr_begin, the fields and p9_rpc
  unfoldable pub request : ℕ → ℕ → ℕ → List Field → P9 Reply
  request type tag rtype fields = do w ← wr_begin type tag; w ← wr_fields w fields; p9_rpc w rtype

  unfoldable pub p9_clunk : ℕ → P9 (Unit {0})
  p9_clunk fid = do request tclunk p9_tag rclunk (word32 fid ∷ []); pure tt

-- if (rc != ZBC_OK) return rc; if (p9err != 0) { fail_errno(...); return ZBC_OK; }
unfoldable pub check : Reply → P9 Reader
check r = do
  when (not (is_ok r.rc)) (return r.rc)
  when (not (r.p9err == 0)) (fail_errno r.p9err)
  pure (r.reader)
