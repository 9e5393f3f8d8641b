-- ===== src/Virtio/Laws.antt =====
-- The operations of the virtqueue of src/c/zbc_virtio.c.
use native.Mathlib.Nat.{mod-lt}
use semihost.Base.{
  ℕ, ◌+◌, ◌*◌, ◌%◌, ◌^◌, ◌≤◌, ◌<◌, Bool, true, false, not, ◌==◌, if◌then◌else◌, Option, none, some,
  [], ◌∷◌, ◌++◌, length, ◌≡◌, refl, sym, ap, ◌∙◌, Bool-cases, inl, inr, ◌⊎◌, arith,
}
use semihost.Memory.{Bytes, Yields, Yields-bind, Yields-bind_eq, write_bytes}
use semihost.Memory.Writes.{Holds, write_bytes-Holds, write_bytes-keeps}
use semihost.Native.Writes.{HasLength}
use semihost.Riff.{Rc, ok, invalid_arg, again}
use semihost.Virtio.{
  Virtq, Span, desc_entry_size, avail_hdr_size, used_hdr_size, used_entry_size, write_chain, given,
  publish, post_chain, virtq_post, virtq_poll,
}
use semihost.Virtio.Chain.{IsBuffer, IsChain, IsWritten, given-IsBuffer, write_chain-IsWritten}
use semihost.Virtio.Invariant.{
  IsQueue, IsTable, length-u16_le, write_u16-Yields, write_chain-Yields,
}
use semihost.Word.{u16, u16_le, read_u16_le}
use semihost.Word.Laws.{read_u16_le_inside, read_u32_le_inside}

-- A place of a ring of `size` entries
slot_inside : (i size : ℕ) → 2 ≤ size → 2 * (i % size) + 2 ≤ 2 * size
slot_inside i size h = omega (arith, mod-lt i {m = size} (omega arith))

entry_inside : (i size : ℕ) → 2 ≤ size → 8 * (i % size) + 8 ≤ 8 * size
entry_inside i size h = omega (arith, mod-lt i {m = size} (omega arith))

-- What a post of the chain leaves: it is outstanding, and published in the available ring with its
-- head at the place of the index before, and the device was told.
pub record IsPublished (q : Virtq) (desc : Bytes) (after : Virtq) : Type 0 where
  pub busy : after.inflight ≡ true
  pub table : after.desc ≡ desc
  pub index : after.avail_idx ≡ (q.avail_idx + 1) % 2 ^ 16
  pub index_told : Holds after.avail 2 (u16_le ((q.avail_idx + 1) % 2 ^ 16))
  pub head : Holds after.avail (4 + 2 * (q.avail_idx % q.size)) (u16_le 0)
  pub last : after.last_used_idx ≡ q.last_used_idx
  pub size : after.size ≡ q.size
  pub used : after.used ≡ q.used
  pub told : after.notified ≡ q.notified ++ (q.queue_index ∷ [])

-- The outcome of a post when the queue was idle, for the buffers that hold something
abbrev pub IsPosted : Virtq → Span → Span → Rc → Virtq → Type 0
IsPosted q out in_span rc after =
    (o : Option ℕ) × (i : Option ℕ) × IsBuffer out o
    × IsBuffer in_span i
    × (((rc ≡ ok)
          × (desc : Bytes) × IsChain desc o out.len i in_span.len
          × IsPublished q desc after)
        ⊎ ((rc ≡ invalid_arg) × (o ≡ none) × (i ≡ none) × (after ≡ q)))

-- The facts of a queue with nothing outstanding
idle_avail :
    (b : Bool) (avail last : ℕ)
    → b ≡ false
    → avail ≡ (last + (if b then 1 else 0)) % 2 ^ 16
    → last < 2 ^ 16
    → avail ≡ last
idle_avail true avail last e h l = cc
idle_avail false avail last e h l = omega arith

idle_device :
    (b : Bool) (r : Option ℕ) (avail last : ℕ)
    → b ≡ false
    → (r ≡ some last) ⊎ ((b ≡ true) × (r ≡ some avail))
    → r ≡ some last
idle_device b r avail last e (inl d) = d
idle_device b r avail last e (inr (t, d)) = absurd (cc (e, t))

publish-IsQueue :
    (q : Virtq) (desc : Bytes)
    → IsQueue q
    → q.inflight ≡ false
    → length desc ≡ desc_entry_size * q.size
    → Yields (λ after. IsQueue after × IsPublished q desc after) (publish q desc)
unfolding publish
publish-IsQueue q desc w idle table =
    let n = avail_hdr_size + 2 * q.size in
    let size_low = w.size_low in
    let last_low = w.last_low in
    let avail_len = w.avail_len in
    let at = avail_hdr_size + 2 * (q.avail_idx % q.size) in
    let next = u16 (q.avail_idx + 1) in
    let place = slot_inside q.avail_idx q.size w.size_low in
    let two = length-u16_le next in
    let zero_two = length-u16_le 0 in
    let level = idle_avail q.inflight q.avail_idx q.last_used_idx idle w.outstanding w.last_low in
    Yields-bind_eq (HasLength (length q.avail)) _ (write_bytes q.avail at (u16_le 0)) _
      (write_u16-Yields q.avail at 0 (omega arith))
      λ a ea la.
        Yields-bind_eq (HasLength (length a)) _ (write_bytes a 2 (u16_le next)) _
          (write_u16-Yields a 2 next (omega arith))
          λ b eb lb. (
            record {
              present = w.present;
              size_low = w.size_low;
              desc_len = table;
              avail_len = lb ∙ la ∙ w.avail_len;
              used_len = w.used_len;
              used_bytes = w.used_bytes;
              avail_low = omega arith;
              outstanding = omega arith;
              last_low = w.last_low;
              device = inl (idle_device q.inflight _ q.avail_idx q.last_used_idx idle w.device);
            },
            record {
              busy = refl;
              table = refl;
              index = refl;
              index_told = write_bytes-Holds a b 2 (u16_le next) eb;
              head =
                  write_bytes-keeps a b 2 (u16_le next) at (u16_le 0) eb (inr (omega arith))
                    (write_bytes-Holds q.avail a at (u16_le 0) ea);
              last = refl;
              size = refl;
              used = refl;
              told = refl;
            },
          )

-- On a queue that is set up, with at least two descriptors and nothing outstanding, zbc_virtq_post
-- makes no access outside its rings, ends, and leaves a queue in order. If a buffer is not NULL and
-- not empty, it returns ZBC_OK: the descriptors of those buffers form the chain, its head stands in
-- the available ring at the place of the index before, the index in the ring has advanced by one,
-- modulo 2 ^ 16, and the device has been told once. If there is no such buffer, it returns
-- ZBC_ERR_INVALID_ARG and nothing has changed.
pub virtq_post-IsQueue :
    (q : Virtq) (out in_span : Span)
    → IsQueue q
    → q.inflight ≡ false
    → Yields (λ r. IsQueue r.1 × IsPosted q out in_span r.0 r.1) (virtq_post q out in_span)
unfolding virtq_post post_chain
virtq_post-IsQueue q out in_span w idle =
    let size_low = w.size_low in
    let present : not q.mmio ≡ false = ap not w.present in
    simp (present, idle)
      (Yields-bind_eq (IsTable (desc_entry_size * q.size)) _
        (write_chain q.desc (given out) out.len (given in_span) in_span.len) _
        (write_chain-Yields (desc_entry_size * q.size) q.desc (given out) out.len (given in_span)
          in_span.len w.desc_len (omega arith))
        λ chain wrote fits. posted chain fits (
          write_chain-IsWritten q.desc (given out) out.len (given in_span) in_span.len chain wrote))
  where
    posted :
        (chain : Option Bytes)
        → IsTable (desc_entry_size * q.size) chain
        → IsWritten (given out) out.len (given in_span) in_span.len chain
        → Yields (λ r. IsQueue r.1 × IsPosted q out in_span r.0 r.1) (post_chain q chain)
    posted none fits (no_out, no_in) = (
      w,
      (
        given out,
        given in_span,
        given-IsBuffer out,
        given-IsBuffer in_span,
        inr (refl, no_out, no_in, refl),
      ),
    )
    posted (some desc) fits chain =
        Yields-bind (λ after. IsQueue after × IsPublished q desc after) _ (publish q desc) _
          (publish-IsQueue q desc w idle fits)
          λ after (order, held). (
            order,
            (
              given out,
              given in_span,
              given-IsBuffer out,
              given-IsBuffer in_span,
              inl (refl, desc, chain, held),
            ),
          )

-- What a poll tells: nothing yet, and nothing changed; or the chain that was outstanding is done.
abbrev pub IsPolled : Virtq → Rc × Virtq × Option ℕ → Type 0
IsPolled q r =
    ((r.0 ≡ again) × (r.1 ≡ q) × (read_u16_le q.used 2 ≡ some q.last_used_idx))
    ⊎ ((r.0 ≡ ok)
        × (q.inflight ≡ true)
        × (r.1.inflight ≡ false)
        × (r.1.last_used_idx ≡ q.avail_idx)
        × (r.1.used ≡ q.used)
        × (read_u16_le q.used 2 ≡ some q.avail_idx))

pub busy_next :
    (b : Bool) (avail last : ℕ)
    → b ≡ true
    → avail ≡ (last + (if b then 1 else 0)) % 2 ^ 16
    → avail ≡ (last + 1) % 2 ^ 16
busy_next true avail last e h = h
busy_next false avail last e h = cc

-- On a queue in order, zbc_virtq_poll reads only inside the used ring, ends, and leaves a queue in
-- order. Either it returns ZBC_ERR_AGAIN, the device has not finished, and nothing has changed; or
-- it returns ZBC_OK, a chain was outstanding, none is now, and the chain is the one that was posted
-- last.
pub virtq_poll-IsQueue :
    (q : Virtq) → IsQueue q → Yields (λ r. IsQueue r.1 × IsPolled q r) (virtq_poll q)
unfolding virtq_poll
virtq_poll-IsQueue q w =
    let size_low = w.size_low in
    let used_len = w.used_len in
    let (d, got, low) = read_u16_le_inside q.used 2 w.used_bytes (omega arith) in
    let place = entry_inside q.last_used_idx q.size w.size_low in
    let (len, read, _) =
      read_u32_le_inside q.used (used_hdr_size + used_entry_size * (q.last_used_idx % q.size) + 4)
        w.used_bytes (omega arith) in
    elim (Bool-cases (d == q.last_used_idx)) [
      | inl same ↦
          let level : d ≡ q.last_used_idx = ground arith in
          simp (got, same) (w, inl (refl, refl, ap some level))
      | inr moved ↦
          let (busy, at) =
            finished q.inflight d q.last_used_idx q.avail_idx q.used got moved w.device in
          let next = busy_next q.inflight q.avail_idx q.last_used_idx busy w.outstanding in
          simp (got, moved, read)
            (
              record {
                present = w.present;
                size_low = w.size_low;
                desc_len = w.desc_len;
                avail_len = w.avail_len;
                used_len = w.used_len;
                used_bytes = w.used_bytes;
                avail_low = w.avail_low;
                outstanding = omega arith;
                last_low = omega arith;
                device = inl (at ∙ ap some next);
              },
              inr (refl, busy, refl, sym next, refl, sym got ∙ at),
            )
    ]
  where
    finished :
        (b : Bool) (d last avail : ℕ) (used : Bytes)
        → read_u16_le used 2 ≡ some d
        → (d == last) ≡ false
        → (read_u16_le used 2 ≡ some last) ⊎ ((b ≡ true) × (read_u16_le used 2 ≡ some avail))
        → (b ≡ true) × (read_u16_le used 2 ≡ some avail)
    finished b d last avail used got moved (inl h) =
        let same : d ≡ last = cc in absurd (ground arith)
    finished b d last avail used got moved (inr h) = h
