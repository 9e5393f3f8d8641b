-- ===== src/Virtio/Exchange.antt =====
-- The driver and the device at the virtqueue of src/c/zbc_virtio.c.
use semihost.Base.{
  ℕ, zero, suc, ◌+◌, ◌*◌, ◌%◌, ◌^◌, ◌≤◌, ◌<◌, true, false, not, ◌==◌, Option, none, some, length,
  ◌≡◌, refl, sym, ap, ap₂, ◌∙◌, subst, Bool-cases, inl, inr, ◌⊎◌, arith, dec_lt,
}
use semihost.Memory.{
  Bytes, IsBytes, Yields, Yields-bind, Yields-bind_eq, Yields-weaken, >>=-eq-some,
}
use semihost.Riff.{Rc, ok, invalid_arg, again}
use semihost.Virtio.{
  Virtq, Span, used_hdr_size, used_entry_size, virtq_post, virtq_poll, poll_loop, virtq_xfer,
}
use semihost.Virtio.Chain.{Offers, IsEmpty, IsBuffer, IsChain}
use semihost.Virtio.Invariant.{IsQueue}
use semihost.Virtio.Laws.{busy_next, virtq_post-IsQueue, virtq_poll-IsQueue}
use semihost.Word.{read_u16_le, read_u32_le}

-- A used ring of the queue in which the device's index is `idx`
abbrev pub IsRing : Virtq → ℕ → Bytes → Type 0
IsRing q idx used =
    (length used ≡ used_hdr_size + used_entry_size * q.size)
    × IsBytes used
    × (read_u16_le used 2 ≡ some idx)

-- A step of the driver, or of the device, which finishes the chain that is outstanding
pub data Step : Virtq → Virtq → Type 0 where
  posts :
      (q after : Virtq) (out in_span : Span) (rc : Rc)
      → virtq_post q out in_span ≡ some (rc, after)
      → Step q after
  polls :
      (q after : Virtq) (rc : Rc) (len : Option ℕ)
      → virtq_poll q ≡ some (rc, after, len)
      → Step q after
  completes :
      (q after : Virtq) (used : Bytes)
      → q.inflight ≡ true
      → IsRing q q.avail_idx used
      → after ≡ record q { used = used }
      → Step q after

-- The queues that steps lead to from `q`
pub data Steps (q : Virtq) : Virtq → Type 0 where
  stays : Steps q q
  goes : (mid after : Virtq) → Steps q mid → Step mid after → Steps q after

-- A second chain is refused.
busy_post :
    (q : Virtq) (out in_span : Span)
    → IsQueue q
    → q.inflight ≡ true
    → virtq_post q out in_span ≡ some (invalid_arg, q)
unfolding virtq_post
busy_post q out in_span w busy =
    let present : not q.mmio ≡ false = ap not w.present in simp (present, busy) refl

post-IsQueue :
    (q after : Virtq) (out in_span : Span) (rc : Rc)
    → IsQueue q
    → virtq_post q out in_span ≡ some (rc, after)
    → IsQueue after
post-IsQueue q after out in_span rc w e = elim (Bool-cases q.inflight) [
  | inr idle ↦ (rw e at (virtq_post-IsQueue q out in_span w idle)).0
  | inl busy ↦
      let same : after ≡ q = cc (sym e ∙ busy_post q out in_span w busy) in
      subst IsQueue (sym same) w
]

-- The device's ring in place of the one before
with_ring :
    (q : Virtq) (idx : ℕ) (used : Bytes)
    → IsQueue q
    → IsRing q idx used
    → (idx ≡ q.last_used_idx) ⊎ ((q.inflight ≡ true) × (idx ≡ q.avail_idx))
    → IsQueue (record q { used = used })
with_ring q idx used w (len, bytes, read) at = record {
  present = w.present;
  size_low = w.size_low;
  desc_len = w.desc_len;
  avail_len = w.avail_len;
  used_len = len;
  used_bytes = bytes;
  avail_low = w.avail_low;
  outstanding = w.outstanding;
  last_low = w.last_low;
  device = elim at [
    | inl e ↦ inl (read ∙ ap some e)
    | inr (busy, e) ↦ inr (busy, read ∙ ap some e)
  ];
}

step-IsQueue : (q after : Virtq) → IsQueue q → Step q after → IsQueue after
step-IsQueue _ _ w (posts q after out in_span rc e) = post-IsQueue q after out in_span rc w e
step-IsQueue _ _ w (polls q after rc len e) = (rw e at (virtq_poll-IsQueue q w)).0
step-IsQueue _ _ w (completes q after used busy ring e) =
    subst IsQueue (sym e) (with_ring q q.avail_idx used w ring (inr (busy, refl)))

-- Whatever order the driver's posts and polls and the device's completions come in, a queue that
-- was in order stays in order: its rings keep their sizes, and its two indices differ by the one
-- chain that is outstanding, or by nothing, modulo 2 ^ 16.
pub Steps-IsQueue : (q after : Virtq) → IsQueue q → Steps q after → IsQueue after
Steps-IsQueue q _ w stays = w
Steps-IsQueue q _ w (goes mid after before s) =
    step-IsQueue mid after (Steps-IsQueue q mid w before) s

-- The device lets `k` polls pass and has then finished.
abbrev pub IsDoneAfter : ℕ → Virtq → (ℕ → Bytes) → Type 0
IsDoneAfter k q device =
    ((i : ℕ) → i < k → IsRing q q.last_used_idx (device i))
    × IsRing q ((q.last_used_idx + 1) % 2 ^ 16) (device k)

-- Where a poll reads the length that the device used
abbrev pub length_at : Virtq → ℕ
length_at q = used_hdr_size + used_entry_size * (q.last_used_idx % q.size) + 4

-- The length is the one that stands in the ring.
abbrev pub IsLength : Virtq → Bytes → Option ℕ → Type 0
IsLength q ring used_len =
    (len : ℕ) × (used_len ≡ some len) × (read_u32_le ring (length_at q) ≡ some len)

abbrev pub IsDone : Virtq → Bytes → Rc × Virtq × Option ℕ → Type 0
IsDone q ring r = (r.0 ≡ ok) × (r.1.inflight ≡ false) × IsQueue r.1 × IsLength q ring r.2

virtq_poll-IsLength :
    (q : Virtq) (r : Rc × Virtq × Option ℕ)
    → virtq_poll q ≡ some r
    → r.0 ≡ ok
    → IsLength q q.used r.2
unfolding virtq_poll
virtq_poll-IsLength q r e done =
    let (d, got, rest) = >>=-eq-some (read_u16_le q.used 2) _ e in
    elim (Bool-cases (d == q.last_used_idx)) [
      | inl same ↦ let again_r : some (again, q, none) ≡ some r = (rw same at rest) in cc
      | inr moved ↦
          let (len, read, result) =
            >>=-eq-some (read_u32_le q.used (length_at q)) _ (rw moved at rest) in
          (len, cc, read)
    ]

poll_loop-IsDone :
    (fuel i k : ℕ) (device : ℕ → Bytes) (q : Virtq)
    → IsQueue q
    → q.inflight ≡ true
    → IsDoneAfter k q device
    → i ≤ k
    → k < i + fuel
    → Yields (IsDone q (device k)) (poll_loop fuel device i q)
unfolding poll_loop
poll_loop-IsDone zero i k device q w busy done h l = absurd (omega arith)
poll_loop-IsDone (suc fuel) i k device q w busy (quiet, finished) h l =
    let apart = busy_next q.inflight q.avail_idx q.last_used_idx busy w.outstanding in
    let last_low = w.last_low in
    elim (dec_lt i k) [
      | yes before ↦
          let now = record q { used = device i } in
          let ring = quiet i before in
          let held = with_ring q q.last_used_idx (device i) w ring (inl refl) in
          Yields-bind _ (IsDone q (device k)) (virtq_poll now) _ (virtq_poll-IsQueue now held)
            λ r (kept, told). elim told [
              | inl (e, same, _) ↦
                  rw (e, same)
                    (poll_loop-IsDone fuel (i + 1) k device now held busy (quiet, finished)
                      (omega arith) (omega arith))
              | inr (e, _, _, _, _, at) ↦
                  let level : q.last_used_idx ≡ q.avail_idx = cc (ring.2, at) in
                  absurd (omega arith)
            ]
      | no after ↦
          let at_k : i ≡ k = omega arith in
          let now = record q { used = device i } in
          let ring : IsRing q ((q.last_used_idx + 1) % 2 ^ 16) (device i) = rw at_k finished in
          let held =
            with_ring q ((q.last_used_idx + 1) % 2 ^ 16) (device i) w ring
              (inr (busy, sym apart)) in
          Yields-bind_eq _ (IsDone q (device k)) (virtq_poll now) _ (virtq_poll-IsQueue now held)
            λ r polled (kept, told). elim told [
              | inl (e, same, at) ↦
                  let level : q.last_used_idx ≡ (q.last_used_idx + 1) % 2 ^ 16 = cc (ring.2, at) in
                  absurd (omega arith)
              | inr (e, _, idle, _, _, _) ↦
                  let (len, told_len, read) = virtq_poll-IsLength now r polled e in
                  rw e (
                    e,
                    idle,
                    kept,
                    (
                      len,
                      told_len,
                      ap (λ (j : ℕ). read_u32_le (device j) (length_at q)) (sym at_k) ∙ read,
                    ),
                  )
            ]
    ]

-- The device's ring is for the queue that was posted too.
after_post :
    (k : ℕ) (q after : Virtq) (device : ℕ → Bytes)
    → after.size ≡ q.size
    → after.last_used_idx ≡ q.last_used_idx
    → IsDoneAfter k q device
    → IsDoneAfter k after device
after_post k q after device size last (quiet, (len, bytes, read)) = (
  λ i h.
      let (l, b, r) = quiet i h in
      (omega (arith, ap (λ (n : ℕ). 8 * n) size), b, r ∙ ap some (sym last)),
  (omega (arith, ap (λ (n : ℕ). 8 * n) size), bytes, read ∙ ap some (omega arith)),
)

-- What an exchange leaves: a chain that is done, with the length that stands in the ring; or there
-- was nothing to transfer.
abbrev pub IsExchanged : Virtq → Bytes → Rc × Virtq × Option ℕ → Type 0
IsExchanged q ring r =
    (((r.0 ≡ ok) × IsLength q ring r.2) ⊎ (r.0 ≡ invalid_arg))
    × (r.1.inflight ≡ false)
    × IsQueue r.1

-- The code of an exchange: whether a buffer held something to transfer
abbrev pub IsTold : Span → Span → Rc → Type 0
IsTold out in_span rc =
    ((rc ≡ ok) × ((addr : ℕ) × (Offers out addr ⊎ Offers in_span addr)))
    ⊎ ((rc ≡ invalid_arg) × IsEmpty out × IsEmpty in_span)

something :
    (desc : Bytes) (out in_span : Span) (o i : Option ℕ)
    → IsBuffer out o
    → IsBuffer in_span i
    → IsChain desc o out.len i in_span.len
    → (addr : ℕ) × (Offers out addr ⊎ Offers in_span addr)
something desc out in_span (some a) i b c chain = (a, inl b)
something desc out in_span none (some a) b c chain = (a, inr c)
something desc out in_span none none b c chain = absurd chain

nothing : (s : Span) (o : Option ℕ) → IsBuffer s o → o ≡ none → IsEmpty s
nothing s none b e = b
nothing s (some a) b e = cc

exchange :
    (fuel k : ℕ) (device : ℕ → Bytes) (q : Virtq) (out in_span : Span)
    → IsQueue q
    → q.inflight ≡ false
    → IsDoneAfter k q device
    → k < fuel
    → Yields
        (λ r. IsTold out in_span r.0 × IsExchanged q (device k) r)
        (virtq_xfer fuel device q out in_span)
unfolding virtq_xfer
exchange fuel k device q out in_span w idle done h =
    Yields-bind _ _ (virtq_post q out in_span) _ (virtq_post-IsQueue q out in_span w idle)
      λ r (kept, (o, i, b, c, told)). elim told [
        | inl (e, desc, chain, held) ↦ rw e (
            Yields-weaken (IsDone r.1 (device k)) _ (poll_loop fuel device 0 r.1)
              (poll_loop-IsDone fuel 0 k device r.1 kept held.busy
                (after_post k q r.1 device held.size held.last done) (omega arith) (omega arith))
              λ a (fine, free, order, (len, told_len, read)). (
                inl (fine, something desc out in_span o i b c chain),
                (
                  inl (
                    fine,
                    (
                      len,
                      told_len,
                      ap₂
                            (λ (l s : ℕ).
                              read_u32_le (device k)
                                (used_hdr_size + used_entry_size * (l % s) + 4))
                            (sym held.last) (sym held.size)
                          ∙ read,
                    ),
                  ),
                  free,
                  order,
                ),
              ))
        | inr (e, no_out, no_in, same) ↦
            rw (e, same)
              (inr (refl, nothing out o b no_out, nothing in_span i c no_in), (inr refl, idle, w))
      ]

pub virtq_xfer-IsExchanged :
    (fuel k : ℕ) (device : ℕ → Bytes) (q : Virtq) (out in_span : Span)
    → IsQueue q
    → q.inflight ≡ false
    → IsDoneAfter k q device
    → k < fuel
    → Yields (IsExchanged q (device k)) (virtq_xfer fuel device q out in_span)
virtq_xfer-IsExchanged fuel k device q out in_span w idle done h =
    Yields-weaken _ (IsExchanged q (device k)) (virtq_xfer fuel device q out in_span)
      (exchange fuel k device q out in_span w idle done h) λ r (told, rest). rest

-- On a queue in order with nothing outstanding, if the device has finished the chain before the
-- poll number `k`, counted from 0, and not before that, then zbc_virtq_xfer makes no access outside
-- its rings and ends after `k` + 1 polls at most. The queue is in order, with nothing outstanding.
-- The result is ZBC_OK, and then a buffer was neither NULL nor empty, or ZBC_ERR_INVALID_ARG, and then
-- both were NULL or empty.
pub virtq_xfer-done :
    (fuel k : ℕ) (device : ℕ → Bytes) (q : Virtq) (out in_span : Span)
    → IsQueue q
    → q.inflight ≡ false
    → IsDoneAfter k q device
    → k < fuel
    → Yields
        (λ r. IsTold out in_span r.0 × (r.1.inflight ≡ false) × IsQueue r.1)
        (virtq_xfer fuel device q out in_span)
virtq_xfer-done fuel k device q out in_span w idle done h =
    Yields-weaken _ _ (virtq_xfer fuel device q out in_span)
      (exchange fuel k device q out in_span w idle done h)
      λ r (code, (told, free, order)). (code, free, order)
