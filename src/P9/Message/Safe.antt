-- ===== src/P9/Message/Safe.antt =====
-- The writer and the reader of src/c/zbc_transport_9p.c stay inside the message buffer.
use semihost.Base.{
  ℕ, ◌+◌, ◌≤◌, false, ◌==◌, ltb, Option, some, List, [], ◌∷◌, length, ◌≡◌, refl, arith,
}
use semihost.Memory.{Bytes, IsBytes, Yields, Yields-weaken, load, load-Yields, write_bytes}
use semihost.Native.Writes.{HasLength, write_bytes-Yields}
use semihost.P9.Message.{
  Writer, with_tx, Field, word16, word32, word64, bytes, str, Reader, wr_bytes, wr_raw_u8, wr_u16,
  wr_u32, wr_u64, wr_str, wr_begin, wr_field, wr_fields, rd_num, rd_u8, rd_u16, rd_u32, rd_u64,
  rd_bytes, rd_size, rd_sizes,
}
use semihost.P9.Session.{Session}
use semihost.P9.Session.Safe.{
  InOrder, Any, Safe, Safe-pure, Safe-gets, Safe-access, Safe-if, Safe-modify, Safe-bind,
}
use semihost.Word.{u16, u32, read_u16_le, read_u32_le}
use semihost.Word.Laws.{read_u16_le-Yields, read_u32_le-Yields}

module _ (n : ℕ) where
  -- A writer in a buffer of `n` bytes
  abbrev pub IsWriter : Writer → Type 0
  IsWriter w = (w.cap ≡ n) × (w.pos ≤ n + 1)

  -- A reader of a reply of `n` bytes at most
  abbrev pub IsReader : Reader → Type 0
  IsReader r = r.len ≤ n

  -- What a read leaves
  abbrev pub IsRead : ℕ × Reader → Type 0
  IsRead x = IsReader x.1

  abbrev pub AllRead : List ℕ × Reader → Type 0
  AllRead x = IsReader x.1

  -- A block of the reply: where it was not cut, it lies in the reply.
  abbrev pub IsBlock : ℕ → Option ℕ × Reader → Type 0
  IsBlock len x =
      IsReader x.1 × ((x.1).truncated ≡ false → (p : ℕ) × (x.0 ≡ some p) × (p + len ≤ n))

module _ (n k : ℕ) where
  pub with_tx-InOrder :
      (tx : Bytes) (s : Session) → n ≤ length tx → InOrder n k s → InOrder n k (with_tx tx s)
  with_tx-InOrder tx s e w = ground arith

  pub wr_bytes-Safe :
      (w : Writer) (bs : Bytes) → IsWriter n w → Safe n k (IsWriter n) (wr_bytes w bs)
  unfolding wr_bytes
  wr_bytes-Safe w bs h =
      Safe-if n k (ltb w.cap (w.pos + length bs)) _ _ (λ e. Safe-pure n k _ (omega arith))
        λ e.
          let fits : w.pos + length bs ≤ n = ground arith in
          Safe-bind n k {P = λ tx. n ≤ length tx} _ _
            (Safe-access n k _ λ s v.
              let room = v.tx_room in
              Yields-weaken (HasLength (length s.tx)) _ (write_bytes s.tx w.pos bs)
                (write_bytes-Yields s.tx w.pos bs (omega arith)) λ b l. omega arith)
            λ tx l.
              Safe-bind n k {P = Any} _ _ (Safe-modify n k _ λ s v. with_tx-InOrder tx s l v)
                λ _ _. Safe-pure n k _ (omega arith)

  pub wr_u16-Safe : (w : Writer) (v : ℕ) → IsWriter n w → Safe n k (IsWriter n) (wr_u16 w v)
  unfolding wr_u16
  wr_u16-Safe w v h = wr_bytes-Safe w _ h

  pub wr_u32-Safe : (w : Writer) (v : ℕ) → IsWriter n w → Safe n k (IsWriter n) (wr_u32 w v)
  unfolding wr_u32
  wr_u32-Safe w v h = wr_bytes-Safe w _ h

  pub wr_field-Safe : (w : Writer) (f : Field) → IsWriter n w → Safe n k (IsWriter n) (wr_field w f)
  unfolding wr_field wr_u64 wr_str
  wr_field-Safe w (word16 v) h = wr_u16-Safe w v h
  wr_field-Safe w (word32 v) h = wr_u32-Safe w v h
  wr_field-Safe w (word64 v) h =
      Safe-bind n k _ _ (wr_u32-Safe w (u32 v) h) λ w' h'. wr_u32-Safe w' _ h'
  wr_field-Safe w (bytes bs) h = wr_bytes-Safe w bs h
  wr_field-Safe w (str text) h =
      Safe-bind n k _ _ (wr_u16-Safe w (u16 (length text)) h) λ w' h'. wr_bytes-Safe w' text h'

  pub wr_fields-Safe :
      (w : Writer) (fs : List Field) → IsWriter n w → Safe n k (IsWriter n) (wr_fields w fs)
  unfolding wr_fields
  wr_fields-Safe w [] h = Safe-pure n k w h
  wr_fields-Safe w (f ∷ fs) h =
      Safe-bind n k _ _ (wr_field-Safe w f h) λ w' h'. wr_fields-Safe w' fs h'

  pub wr_begin-Safe : (type tag : ℕ) → Safe n k (IsWriter n) (wr_begin type tag)
  unfolding wr_begin wr_raw_u8
  wr_begin-Safe type tag =
      Safe-bind n k {P = λ cap. cap ≡ n} _ _ (Safe-gets n k _ λ s v. v.msize_is) λ cap e.
        Safe-bind n k _ _ (wr_u32-Safe _ 0 (e, omega arith))
          λ w h. Safe-bind n k _ _ (wr_bytes-Safe w _ h) λ w' h'. wr_u16-Safe w' tag h'

  rd_num-Safe :
      (size : ℕ) (get : Bytes → ℕ → Option ℕ) (r : Reader)
      → ((buf : Bytes) (off : ℕ) → IsBytes buf → off + size ≤ length buf → Yields Any (get buf off))
      → IsReader n r
      → Safe n k (IsRead n) (rd_num size get r)
  unfolding rd_num
  rd_num-Safe size get r inside h =
      Safe-if n k (ltb r.len (r.pos + size)) _ _ (λ e. Safe-pure n k _ h)
        λ e.
          let fits : r.pos + size ≤ r.len = ground arith in
          Safe-bind n k {P = Any} _ _
            (Safe-access n k _
              λ s v. let room = v.rx_room in inside s.rx r.pos v.rx_bytes (omega arith))
            λ v _. Safe-pure n k _ h

  pub rd_u8-Safe : (r : Reader) → IsReader n r → Safe n k (IsRead n) (rd_u8 r)
  unfolding rd_u8
  rd_u8-Safe r h =
      rd_num-Safe 1 load r
        (λ buf off bytes f.
          Yields-weaken _ _ (load buf off) (load-Yields buf off bytes (omega arith)) λ v l. tt)
        h

  pub rd_u16-Safe : (r : Reader) → IsReader n r → Safe n k (IsRead n) (rd_u16 r)
  unfolding rd_u16
  rd_u16-Safe r h =
      rd_num-Safe 2 read_u16_le r
        (λ buf off bytes f.
          Yields-weaken _ _ (read_u16_le buf off) (read_u16_le-Yields buf off bytes f) λ v l. tt)
        h

  pub rd_u32-Safe : (r : Reader) → IsReader n r → Safe n k (IsRead n) (rd_u32 r)
  unfolding rd_u32
  rd_u32-Safe r h =
      rd_num-Safe 4 read_u32_le r
        (λ buf off bytes f.
          Yields-weaken _ _ (read_u32_le buf off) (read_u32_le-Yields buf off bytes f) λ v l. tt)
        h

  rd_u64-Safe : (r : Reader) → IsReader n r → Safe n k (IsRead n) (rd_u64 r)
  unfolding rd_u64
  rd_u64-Safe r h =
      Safe-bind n k _ _ (rd_u32-Safe r h)
        λ lo h'. Safe-bind n k _ _ (rd_u32-Safe lo.1 h') λ hi h''. Safe-pure n k _ h''

  rd_size-Safe : (size : ℕ) (r : Reader) → IsReader n r → Safe n k (IsRead n) (rd_size size r)
  unfolding rd_size
  rd_size-Safe size r h =
      Safe-if n k (size == 8) _ _ (λ _. rd_u64-Safe r h)
        λ _.
          Safe-if n k (size == 4) _ _ (λ _. rd_u32-Safe r h)
            λ _. Safe-if n k (size == 2) _ _ (λ _. rd_u16-Safe r h) λ _. rd_u8-Safe r h

  pub rd_sizes-Safe :
      (sizes : List ℕ) (r : Reader) → IsReader n r → Safe n k (AllRead n) (rd_sizes sizes r)
  unfolding rd_sizes
  rd_sizes-Safe [] r h = Safe-pure n k _ h
  rd_sizes-Safe (size ∷ sizes) r h =
      Safe-bind n k _ _ (rd_size-Safe size r h)
        λ v h'. Safe-bind n k _ _ (rd_sizes-Safe sizes v.1 h') λ vs h''. Safe-pure n k _ h''

  pub rd_bytes-Safe :
      (r : Reader) (len : ℕ) → IsReader n r → Safe n k (IsBlock n len) (rd_bytes r len)
  unfolding rd_bytes
  rd_bytes-Safe r len h =
      Safe-if n k (ltb r.len (r.pos + len)) _ _ (λ e. Safe-pure n k _ (h, λ c. cc))
        λ e.
          let fits : r.pos + len ≤ r.len = ground arith in
          Safe-pure n k _ (h, λ c. (r.pos, refl, omega arith))
