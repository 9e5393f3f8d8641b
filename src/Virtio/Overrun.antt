-- ===== src/Virtio/Overrun.antt =====
-- zbc_virtq_post of src/c/zbc_virtio.c on a queue of one descriptor.
use semihost.Base.{
  ℕ, zero, suc, ◌≤◌, ◌<◌, true, false, not, none, some, [], ◌∷◌, length, ◌≡◌, refl, ap, arith,
  lt→ltb, bit_and,
}
use semihost.Memory.{Bytes, Yields-result, store, write_bytes}
use semihost.Virtio.{Virtq, desc_entry_size, write_desc, write_chain, virtq_post}
use semihost.Virtio.Invariant.{write_desc-Yields}
use semihost.Native.Writes.{HasLength}
use semihost.Word.{u32, u32_le, write_u32_le}

store_outside : (buf : Bytes) (i v : ℕ) → length buf ≤ i → store buf i v ≡ none
unfolding store
store_outside [] i v h = refl
store_outside (x ∷ buf) zero v h = absurd (omega arith)
store_outside (x ∷ buf) (suc i) v h = rw (store_outside buf i v (omega arith)) refl

write_outside :
    (desc : Bytes) (addr len flags next : ℕ)
    → length desc ≡ 16
    → write_desc desc 1 addr len flags next ≡ none
unfolding write_desc write_u32_le write_bytes u32_le
write_outside desc addr len flags next h =
    let first = store_outside desc 16 (bit_and (u32 (u32 addr)) 0xff) (omega arith) in rw first refl

-- On a queue of one descriptor with nothing outstanding, which zbc_virtq_init sets up when the
-- device offers no more, a post of a buffer in each direction writes behind the descriptor table.
pub virtq_post-outside :
    (q : Virtq) (out in_addr out_len in_len : ℕ)
    → q.mmio ≡ true
    → q.inflight ≡ false
    → length q.desc ≡ desc_entry_size
    → 0 < out_len
    → 0 < in_len
    → virtq_post q
        (record { ptr = some out; len = out_len })
        (record { ptr = some in_addr; len = in_len })
      ≡ none
unfolding virtq_post write_chain
virtq_post-outside q out in_addr out_len in_len mmio idle one more also =
    let present : not q.mmio ≡ false = ap not mmio in
    let a = lt→ltb 0 out_len more in
    let b = lt→ltb 0 in_len also in
    let (d, wrote, size) =
      Yields-result (HasLength 16) (write_desc q.desc 0 out (u32 out_len) 1 1)
        (write_desc-Yields 16 q.desc 0 out (u32 out_len) 1 1 one (omega arith)) in
    simp (present, idle, a, b, wrote, write_outside d in_addr (u32 in_len) 2 0 size) refl
