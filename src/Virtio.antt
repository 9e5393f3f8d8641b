-- ===== src/Virtio.antt =====
-- The polled virtqueue of src/c/zbc_virtio.c, from its set-up on. The rings are byte buffers of the
-- queue's own; a buffer to transfer is its address and length. Addresses are 64-bit.
use semihost.Base.{
  ℕ, zero, suc, ◌+◌, ◌-◌, ◌*◌, ◌/◌, ◌%◌, ◌^◌, Bool, true, false, not, ◌==◌, ltb, ◌&&◌,
  if◌then◌else◌, Option, none, some, List, [], ◌∷◌, ◌++◌,
}
use semihost.Memory.{Bytes, ◌>>=◌, write_bytes}
use semihost.Riff.{Rc, ok, null_arg, invalid_arg, again}
use semihost.Word.{u16, u32, u16_le, write_u32_le, read_u16_le, read_u32_le}
pub mod Invariant
pub mod Chain
pub mod Laws
pub mod Exchange
pub mod Overrun

abbrev pub desc_entry_size : ℕ
desc_entry_size = 16

abbrev pub avail_hdr_size : ℕ
avail_hdr_size = 4

abbrev pub used_hdr_size : ℕ
used_hdr_size = 4

abbrev pub used_entry_size : ℕ
used_entry_size = 8

abbrev pub desc_f_next : ℕ
desc_f_next = 1

abbrev pub desc_f_write : ℕ
desc_f_write = 2

-- zbc_virtq_t; `mmio` says whether the window's pointer is set. The values written to the register
-- QueueNotify are kept in order.
pub record Virtq : Type 0 where
  pub mmio : Bool
  pub queue_index : ℕ
  pub size : ℕ
  pub avail_idx : ℕ
  pub last_used_idx : ℕ
  pub inflight : Bool
  pub desc : Bytes
  pub avail : Bytes
  pub used : Bytes
  pub notified : List ℕ

-- A buffer that the caller passes, and its length
pub record Span : Type 0 where
  pub ptr : Option ℕ
  pub len : ℕ

-- addr_hi: (addr >> 16) >> 16
abbrev addr_hi : ℕ → ℕ
addr_hi addr = u32 (addr / 2 ^ 16 / 2 ^ 16)

abbrev write_u16 : Bytes → ℕ → ℕ → Option Bytes
write_u16 buf off v = write_bytes buf off (u16_le v)

unfoldable pub write_desc : Bytes → ℕ → ℕ → ℕ → ℕ → ℕ → Option Bytes
write_desc desc index addr len flags next = do
  let d = desc_entry_size * index
  desc ← write_u32_le desc d (u32 addr)
  desc ← write_u32_le desc (d + 4) (addr_hi addr)
  desc ← write_u32_le desc (d + 8) len
  desc ← write_u16 desc (d + 12) flags
  write_u16 desc (d + 14) next

-- p && len > 0
abbrev pub given : Span → Option ℕ
given s = if ltb 0 s.len then s.ptr else none

-- The descriptors of a chain, or `none` inside when there is nothing to transfer
unfoldable pub write_chain : Bytes → Option ℕ → ℕ → Option ℕ → ℕ → Option (Option Bytes)
write_chain desc (some out) out_len (some in_addr) in_len = do
  desc ← write_desc desc 0 out (u32 out_len) desc_f_next 1
  desc ← write_desc desc 1 in_addr (u32 in_len) desc_f_write 0
  some (some desc)
write_chain desc (some out) out_len none in_len = do
  desc ← write_desc desc 0 out (u32 out_len) 0 0
  some (some desc)
write_chain desc none out_len (some in_addr) in_len = do
  desc ← write_desc desc 0 in_addr (u32 in_len) desc_f_write 0
  some (some desc)
write_chain desc none out_len none in_len = some none

-- The head goes into the available ring, then the index, then the device is told.
unfoldable pub publish : Virtq → Bytes → Option Virtq
publish q desc = do
  avail ← write_u16 q.avail (avail_hdr_size + 2 * (q.avail_idx % q.size)) 0
  let avail_idx = u16 (q.avail_idx + 1)
  avail ← write_u16 avail 2 avail_idx
  some (record q {
    desc = desc;
    avail = avail;
    avail_idx = avail_idx;
    inflight = true;
    notified = q.notified ++ (q.queue_index ∷ []);
  })

unfoldable pub post_chain : Virtq → Option Bytes → Option (Rc × Virtq)
post_chain q none = some (invalid_arg, q)
post_chain q (some desc) = do q ← publish q desc; some (ok, q)

unfoldable pub virtq_post : Virtq → Span → Span → Option (Rc × Virtq)
virtq_post q out in_span =
    if not q.mmio
    then some (null_arg, q)
    else if q.inflight
    then some (invalid_arg, q)
    else (write_chain q.desc (given out) out.len (given in_span) in_span.len >>= post_chain q)

-- The code, the queue, and *used_len where it is stored
unfoldable pub virtq_poll : Virtq → Option (Rc × Virtq × Option ℕ)
virtq_poll q = do
  device_idx ← read_u16_le q.used 2
  if device_idx == q.last_used_idx then some (again, q, none) else (do
    let entry = used_hdr_size + used_entry_size * (q.last_used_idx % q.size)
    used_len ← read_u32_le q.used (entry + 4)
    some (
      ok,
      record q { last_used_idx = u16 (q.last_used_idx + 1); inflight = false },
      some used_len,
    ))

-- do rc = zbc_virtq_poll(q, used_len); while (rc == ZBC_ERR_AGAIN); before the i-th poll the device
-- has made the used ring `device i`.
unfoldable pub poll_loop : ℕ → (ℕ → Bytes) → ℕ → Virtq → Option (Rc × Virtq × Option ℕ)
poll_loop zero device i q = none
poll_loop (suc fuel) device i q = do
  r ← virtq_poll (record q { used = device i })
  elim r.0 [ again ↦ poll_loop fuel device (i + 1) r.1 | _ ↦ some r ]

unfoldable pub virtq_xfer : ℕ → (ℕ → Bytes) → Virtq → Span → Span → Option (Rc × Virtq × Option ℕ)
unfolding poll_loop
virtq_xfer fuel device q out in_span = do
  r ← virtq_post q out in_span
  elim r.0 [ ok ↦ poll_loop fuel device 0 r.1 | rc ↦ some (rc, r.1, none) ]
