-- ===== src/P9/Rpc/Safe.antt =====
-- A round trip of src/c/zbc_transport_9p.c with a device that keeps to the virtio protocol.
use semihost.Base.{
  ℕ, zero, suc, ◌^◌, ◌≤◌, ◌<◌, Bool, true, false, not, ◌==◌, ltb, leb, ◌||◌, if◌then◌else◌, Option,
  some, List, [], ◌∷◌, length, length-append, length-drop, take, drop, All-append, ◌≡◌, ◌⊎◌, inl,
  inr, arith, Bool-cases,
}
use semihost.Memory.{Bytes, IsByte, IsBytes, Yields-bind, Yields-weaken, load, load-Yields}
use semihost.Native.Writes.{HasLength, write_u32_le-Yields}
use semihost.P9.Message.{Writer, Reader, Field, word32}
use semihost.P9.Message.Safe.{
  IsWriter, IsReader, with_tx-InOrder, wr_begin-Safe, wr_fields-Safe, rd_u32-Safe,
}
use semihost.P9.Rpc.{
  Turn, Device, receive, out_span, in_span, used_or, Reply, read_error, accept_reply, exchanged,
  turn_of, xfer, p9_rpc, request, p9_clunk, check,
}
use semihost.P9.Session.{Session, return, fail_errno}
use semihost.P9.Session.Safe.{
  InOrder, Any, Safe, Safe-pure, Safe-access, Safe-if, Safe-modify, Safe-bind, Safe-return,
  Safe-guard, fail_errno-Safe,
}
use semihost.P9.Wire.{p9_tag, tclunk, rclunk, rlerror, hdr_size}
use semihost.Riff.{Rc, ok, is_ok, invalid_arg}
use semihost.Virtio.{Virtq, virtq_xfer}
use semihost.Virtio.Exchange.{IsDoneAfter, IsExchanged, IsLength, length_at, virtq_xfer-IsExchanged}
use semihost.Virtio.Invariant.{IsQueue}
use semihost.Word.{u32, write_u32_le, read_u32_le}
use semihost.Word.Laws.{read_u32_le-Yields}

-- One turn of a device that finishes after some polls, writes bytes, and tells no greater length
-- than there was room for.
pub record IsTurn (q : Virtq) (room : ℕ) (turn : Turn) : Type 0 where
  pub polls : ℕ
  pub enough : polls < turn.fuel
  pub done : IsDoneAfter polls q turn.rings
  pub bytes : IsBytes turn.received
  pub within : (len : ℕ) → read_u32_le (turn.rings polls) (length_at q) ≡ some len → len ≤ room

-- A device that takes every such turn, whatever it is sent and whatever it answers.
pub record Serves (dev : Device) : Type 0 where
  pub turns :
      (i : ℕ) (q : Virtq) (message : Bytes) (room : ℕ)
      → IsQueue q
      → q.inflight ≡ false
      → IsTurn q room (dev i q message room)

IsBytes-take : (n : ℕ) (xs : Bytes) → IsBytes xs → IsBytes (take n xs)
IsBytes-take zero xs h = tt
IsBytes-take (suc n) [] h = tt
IsBytes-take (suc n) (x ∷ xs) h = (h.0, IsBytes-take n xs h.1)

pub IsBytes-drop : (n : ℕ) (xs : Bytes) → IsBytes xs → IsBytes (drop n xs)
IsBytes-drop zero xs h = h
IsBytes-drop (suc n) [] h = tt
IsBytes-drop (suc n) (x ∷ xs) h = IsBytes-drop n xs h.1

receive-IsBytes :
    (room : ℕ) (received rx : Bytes)
    → IsBytes received
    → IsBytes rx
    → IsBytes (receive room received rx)
receive-IsBytes room received rx h l =
    All-append IsByte (take room received) _ (IsBytes-take room received h) (IsBytes-drop _ rx l)

receive-le : (room : ℕ) (received rx : Bytes) → length rx ≤ length (receive room received rx)
receive-le room received rx = omega (
  arith,
  length-append (take room received) (drop (length (take room received)) rx),
  length-drop (length (take room received)) rx,
)

-- A reply whose reader stays in the message buffer
abbrev pub IsReply : ℕ → Reply → Type 0
IsReply n r = IsReader n r.reader

module _ (n k : ℕ) where
  read_error-Safe : (r : Reader) → IsReader n r → Safe n k (IsReply n) (read_error r)
  unfolding read_error
  read_error-Safe r h =
      Safe-bind n k _ _ (rd_u32-Safe n k r h)
        λ e l. Safe-pure n k _ (chosen ((e.1).truncated || (e.0 == 0 || leb (2 ^ 31) e.0)) _ _ l l)
    where
      chosen : (b : Bool) (x y : Reply) → IsReply n x → IsReply n y → IsReply n (if b then x else y)
      chosen true x y h l = h
      chosen false x y h l = l

  accept_reply-Safe :
      (rtype used : ℕ) → 128 ≤ n → used ≤ n → Safe n k (IsReply n) (accept_reply rtype used)
  unfolding accept_reply
  accept_reply-Safe rtype used large h =
      Safe-if n k (ltb used hdr_size) _ _ (λ _. Safe-pure n k _ (omega arith))
        λ _.
          Safe-bind n k {P = Any} _ _
            (Safe-access n k _ λ s v.
              let room = v.rx_room in
              Yields-weaken _ _ (read_u32_le s.rx 0)
                (read_u32_le-Yields s.rx 0 v.rx_bytes (omega arith)) λ _ _. tt)
            λ rsize _.
              Safe-if n k (ltb rsize hdr_size || ltb used rsize) _ _
                (λ _. Safe-pure n k _ (omega arith))
                λ e.
                  let fits : rsize ≤ used = ground arith in
                  Safe-bind n k {P = Any} _ _
                    (Safe-access n k _ λ s v.
                      let room = v.rx_room in
                      Yields-weaken _ _ (load s.rx 4) (load-Yields s.rx 4 v.rx_bytes (omega arith))
                        λ _ _. tt)
                    λ type _.
                      Safe-if n k (type == rlerror) _ _ (λ _. read_error-Safe _ (omega arith))
                        λ _.
                          Safe-if n k (not (type == rtype)) _ _ (λ _. Safe-pure n k _ (omega arith))
                            λ _. Safe-pure n k _ (omega arith)

  pub check-Safe : (r : Reply) → IsReply n r → Safe n k (IsReader n) (check r)
  unfolding check
  check-Safe r h = Safe-guard n k (not (is_ok r.rc)) (return r.rc) _ (Safe-return n k r.rc) λ _.
      Safe-guard n k (not (r.p9err == 0)) (fail_errno r.p9err) _ (fail_errno-Safe n k _ r.p9err)
        λ _. Safe-pure n k _ h

module _ (n k : ℕ) (large : 128 ≤ n) (dev : Device) (serves : Serves dev) where
  -- A return code and a length that the reply's buffer has
  abbrev IsSent : Rc × ℕ → Type 0
  IsSent x = x.1 ≤ n

  exchanged-InOrder :
      (turn : Turn) (w : Writer) (x : Rc × Virtq × Option ℕ) (s : Session)
      → InOrder n k s
      → IsTurn s.vq s.msize turn
      → IsQueue x.1
      → x.1.inflight ≡ false
      → InOrder n k (exchanged turn w x s)
  unfolding exchanged
  exchanged-InOrder turn w x s v t order free =
      let bytes = receive-IsBytes s.msize turn.received s.rx t.bytes v.rx_bytes in
      let longer = receive-le s.msize turn.received s.rx in
      elim (Bool-cases (is_ok x.0)) [
        | inl e ↦ rw e record {
          queue = order;
          idle = free;
          msize_is = v.msize_is;
          tx_room = v.tx_room;
          rx_room = omega (arith, v.rx_room);
          rx_bytes = bytes;
          files_len = v.files_len;
          dirs_len = v.dirs_len;
          out_len = v.out_len;
        }
        | inr e ↦ rw e record {
          queue = order;
          idle = free;
          msize_is = v.msize_is;
          tx_room = v.tx_room;
          rx_room = v.rx_room;
          rx_bytes = v.rx_bytes;
          files_len = v.files_len;
          dirs_len = v.dirs_len;
          out_len = v.out_len;
        }
      ]

  used_le :
      (room : ℕ) (turn : Turn) (q : Virtq) (x : Rc × Virtq × Option ℕ)
      → room ≡ n
      → (t : IsTurn q room turn)
      → ((x.0 ≡ ok) × IsLength q (turn.rings t.polls) x.2) ⊎ (x.0 ≡ invalid_arg)
      → is_ok x.0 ≡ true
      → used_or x.2 ≤ n
  used_le room turn q x same t (inl (_, (len, e, read))) good =
      rw e (omega (arith, t.within len read))
  used_le room turn q x same t (inr e) good =
      let bad : is_ok invalid_arg ≡ true = rw e at good in cc

  -- After an exchange that succeeded, the length is one that the reply's buffer has.
  xfer-Safe : (w : Writer) → Safe n k (λ x. is_ok x.0 ≡ true → x.1 ≤ n) (xfer dev w)
  unfolding xfer
  xfer-Safe w = record {
    at = λ s v.
        let t : IsTurn s.vq s.msize (turn_of dev w s) =
          serves.turns _ s.vq _ s.msize v.queue v.idle in
        Yields-bind (IsExchanged s.vq ((turn_of dev w s).rings t.polls)) _
          (virtq_xfer (turn_of dev w s).fuel (turn_of dev w s).rings s.vq (out_span s w)
            (in_span s))
          _ (virtq_xfer-IsExchanged _ t.polls _ s.vq _ _ v.queue v.idle t.done t.enough)
          λ x (told, free, order). (
            exchanged-InOrder (turn_of dev w s) w x s v t order free,
            used_le s.msize (turn_of dev w s) s.vq x v.msize_is t told,
          );
  }

  p9_rpc-Safe : (w : Writer) (rtype : ℕ) → IsWriter n w → Safe n k (IsReply n) (p9_rpc dev w rtype)
  unfolding p9_rpc
  p9_rpc-Safe w rtype h =
      Safe-if n k (ltb w.cap w.pos) _ _ (λ _. Safe-pure n k _ (omega arith))
        λ e.
          Safe-bind n k {P = λ tx. n ≤ length tx} _ _
            (Safe-access n k _ λ s v.
              let room = v.tx_room in
              Yields-weaken (HasLength (length s.tx)) _ (write_u32_le s.tx 0 (u32 w.pos))
                (write_u32_le-Yields s.tx 0 (u32 w.pos) (omega arith)) λ b l. omega arith)
            λ tx l.
              Safe-bind n k {P = Any} _ _ (Safe-modify n k _ λ s v. with_tx-InOrder n k tx s l v)
                λ _ _. Safe-bind n k _ _ (xfer-Safe w) λ x fits.
                  Safe-if n k (is_ok x.0) _ _
                    (λ good. accept_reply-Safe n k rtype x.1 large (fits good))
                    λ _. Safe-pure n k _ (omega arith)

  pub request-Safe :
      (type tag rtype : ℕ) (fields : List Field)
      → Safe n k (IsReply n) (request dev type tag rtype fields)
  unfolding request
  request-Safe type tag rtype fields =
      Safe-bind n k _ _ (wr_begin-Safe n k type tag)
        λ w h. Safe-bind n k _ _ (wr_fields-Safe n k w fields h) λ w' h'. p9_rpc-Safe w' rtype h'

  pub p9_clunk-Safe : (fid : ℕ) → Safe n k Any (p9_clunk dev fid)
  unfolding p9_clunk
  p9_clunk-Safe fid =
      Safe-bind n k _ _ (request-Safe tclunk p9_tag rclunk (word32 fid ∷ []))
        λ _ _. Safe-pure n k tt tt
