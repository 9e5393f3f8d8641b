-- ===== src/P9/Message.antt =====
-- The writer of T-messages and the reader of R-messages of src/c/zbc_transport_9p.c. The writer's
-- buffer is the session's `tx`, the reader's is its `rx` at the time of the read.
use semihost.Base.{
  ℕ, zero, suc, ◌+◌, ◌*◌, ◌/◌, ◌^◌, Bool, true, false, ◌==◌, ltb, if◌then◌else◌, Option, none, some,
  List, [], ◌∷◌, length, bit_or,
}
use semihost.Memory.{Bytes, load, write_bytes}
use semihost.P9.Session.{Session, P9, ◌>>=◌, ◌>>◌, pure, gets, modify, access}
pub mod Safe
use semihost.Word.{u8, u16, u32, u16_le, u32_le, read_u16_le, read_u32_le}

-- p9_wr_t, without its buffer
pub record Writer : Type 0 where
  pub cap : ℕ
  pub pos : ℕ

-- w->pos = w->cap + 1;
abbrev overflowed : Writer → Writer
overflowed w = record w { pos = w.cap + 1 }

abbrev pub with_tx : Bytes → Session → Session
with_tx tx s = record s { tx = tx }

-- wr_bytes
unfoldable pub wr_bytes : Writer → Bytes → P9 Writer
wr_bytes w bytes = if ltb w.cap (w.pos + length bytes) then pure (overflowed w) else (do
  tx ← access (λ s. write_bytes s.tx w.pos bytes)
  modify (with_tx tx)
  pure (record w { pos = w.pos + length bytes }))

unfoldable pub wr_raw_u8 : Writer → ℕ → P9 Writer
wr_raw_u8 w v = wr_bytes w (u8 v ∷ [])

unfoldable pub wr_u16 : Writer → ℕ → P9 Writer
wr_u16 w v = wr_bytes w (u16_le v)

unfoldable pub wr_u32 : Writer → ℕ → P9 Writer
wr_u32 w v = wr_bytes w (u32_le v)

unfoldable pub wr_u64 : Writer → ℕ → P9 Writer
wr_u64 w v = do w ← wr_u32 w (u32 v); wr_u32 w (u32 (v / 2 ^ 32))

unfoldable pub wr_str : Writer → Bytes → P9 Writer
wr_str w text = do w ← wr_u16 w (u16 (length text)); wr_bytes w text

unfoldable pub wr_begin : ℕ → ℕ → P9 Writer
wr_begin type tag = do
  cap ← gets (λ s. s.msize)
  let w : Writer = record { cap = cap; pos = 0 }
  w ← wr_u32 w 0
  w ← wr_raw_u8 w type
  wr_u16 w tag

-- A call of a writer's function
pub data Field : Type 0 where
  word16 : ℕ → Field
  word32 : ℕ → Field
  word64 : ℕ → Field
  bytes : Bytes → Field
  str : Bytes → Field

unfoldable pub wr_field : Writer → Field → P9 Writer
wr_field w (word16 v) = wr_u16 w v
wr_field w (word32 v) = wr_u32 w v
wr_field w (word64 v) = wr_u64 w v
wr_field w (bytes bs) = wr_bytes w bs
wr_field w (str text) = wr_str w text

-- The calls that build a message, one after the other
unfoldable pub wr_fields : Writer → List Field → P9 Writer
wr_fields w [] = pure w
wr_fields w (f ∷ fs) = wr_field w f >>= λ w'. wr_fields w' fs

-- p9_rd_t, without its buffer
pub record Reader : Type 0 where
  pub len : ℕ
  pub pos : ℕ
  pub truncated : Bool

abbrev cut : Reader → Reader
cut r = record r { truncated = true }

-- A read of `n` bytes by `get`
unfoldable pub rd_num : ℕ → (Bytes → ℕ → Option ℕ) → Reader → P9 (ℕ × Reader)
rd_num n get r =
    if ltb r.len (r.pos + n)
    then pure (0, cut r)
    else (do v ← access (λ s. get s.rx r.pos); pure (v, record r { pos = r.pos + n }))

unfoldable pub rd_u8 : Reader → P9 (ℕ × Reader)
rd_u8 r = rd_num 1 load r

unfoldable pub rd_u16 : Reader → P9 (ℕ × Reader)
rd_u16 r = rd_num 2 read_u16_le r

unfoldable pub rd_u32 : Reader → P9 (ℕ × Reader)
rd_u32 r = rd_num 4 read_u32_le r

unfoldable pub rd_u64 : Reader → P9 (ℕ × Reader)
rd_u64 r = do lo ← rd_u32 r; hi ← rd_u32 lo.1; pure (bit_or lo.0 (hi.0 * 2 ^ 32), hi.1)

-- The place of the bytes, or none where the pointer is null
unfoldable pub rd_bytes : Reader → ℕ → P9 (Option ℕ × Reader)
rd_bytes r len =
    if ltb r.len (r.pos + len)
    then pure (none, cut r)
    else pure (some (r.pos), record r { pos = r.pos + len })

-- The fields of a reply, by their sizes: 8, 4, 2 and, for any other number, 1
unfoldable pub rd_size : ℕ → Reader → P9 (ℕ × Reader)
rd_size n r =
    if n == 8 then rd_u64 r else if n == 4 then rd_u32 r else if n == 2 then rd_u16 r else rd_u8 r

unfoldable pub rd_sizes : List ℕ → Reader → P9 (List ℕ × Reader)
rd_sizes [] r = pure ([], r)
rd_sizes (n ∷ ns) r = do v ← rd_size n r; vs ← rd_sizes ns v.1; pure (v.0 ∷ vs.0, vs.1)
