-- ===== src/Tests/Queues.antt =====
-- The virtqueue at concrete rings.
use semihost.Base.{
  ℕ, true, false, some, none, [], ◌∷◌, replicate, ◌≡◌, refl, inl, arith, ltb, lt→ltb, if◌then◌else◌,
}
use semihost.Memory.{Bytes, Yields, Yields-result, load, is_bytes-IsBytes}
use semihost.Riff.{Rc}
use semihost.Virtio.{Virtq, Span, virtq_post, virtq_poll, virtq_xfer}
use semihost.Virtio.Exchange.{
  IsTold, IsDoneAfter, stays, goes, posts, polls, Steps-IsQueue, virtq_xfer-done,
}
use semihost.Virtio.Overrun.{virtq_post-outside}
use semihost.Virtio.Invariant.{IsQueue}
use semihost.Virtio.Laws.{IsPosted, IsPolled, virtq_post-IsQueue, virtq_poll-IsQueue}
use semihost.Word.{read_u16_le}

-- A queue of two descriptors, just set up
abbrev pub fresh_queue : Virtq
fresh_queue = record {
  mmio = true;
  queue_index = 0;
  size = 2;
  avail_idx = 0;
  last_used_idx = 0;
  inflight = false;
  desc = replicate 32 0;
  avail = replicate 8 0;
  used = replicate 20 0;
  notified = [];
}

pub fresh_queue-IsQueue : IsQueue fresh_queue
unfolding read_u16_le load
fresh_queue-IsQueue = record {
  present = refl;
  size_low = omega arith;
  desc_len = refl;
  avail_len = refl;
  used_len = refl;
  used_bytes = is_bytes-IsBytes (replicate 20 0) refl;
  avail_low = omega arith;
  outstanding = refl;
  last_low = omega arith;
  device = inl refl;
}

abbrev request_span : Span
request_span = record { ptr = some 4096; len = 10 }

abbrev reply_span : Span
reply_span = record { ptr = some 8192; len = 20 }

virtq_post-IsQueue_example :
    Yields
      (λ r. IsQueue r.1 × IsPosted fresh_queue request_span reply_span r.0 r.1)
      (virtq_post fresh_queue request_span reply_span)
virtq_post-IsQueue_example =
    virtq_post-IsQueue fresh_queue request_span reply_span fresh_queue-IsQueue refl

virtq_poll-IsQueue_example :
    Yields (λ r. IsQueue r.1 × IsPolled fresh_queue r) (virtq_poll fresh_queue)
virtq_poll-IsQueue_example = virtq_poll-IsQueue fresh_queue fresh_queue-IsQueue

one_poll : virtq_poll fresh_queue ≡ some (Rc.again, fresh_queue, none)
unfolding virtq_poll read_u16_le load
one_poll = refl

-- A chain posted to it
posted : (r : Rc × Virtq) × (virtq_post fresh_queue request_span reply_span ≡ some r)
posted =
    let (r, e, held) =
      Yields-result _ (virtq_post fresh_queue request_span reply_span)
        (virtq_post-IsQueue fresh_queue request_span reply_span fresh_queue-IsQueue refl) in
    (r, e)

Steps-IsQueue_example : IsQueue posted.0.1
Steps-IsQueue_example = Steps-IsQueue fresh_queue posted.0.1 fresh_queue-IsQueue (
    goes fresh_queue posted.0.1
      (goes fresh_queue fresh_queue stays (polls fresh_queue fresh_queue Rc.again none one_poll))
      (posts fresh_queue posted.0.1 request_span reply_span posted.0.0 posted.1))

-- A device that finishes before the poll number 1, with 20 bytes
abbrev finishing : ℕ → Bytes
finishing i =
    if ltb i 1 then replicate 20 0 else 0 ∷ 0 ∷ 1 ∷ 0 ∷ 0 ∷ 0 ∷ 0 ∷ 0 ∷ 20 ∷ replicate 11 0

finishing-IsDoneAfter : IsDoneAfter 1 fresh_queue finishing
unfolding read_u16_le load
finishing-IsDoneAfter = (
  λ i h. rw (lt→ltb i 1 h) (refl, is_bytes-IsBytes (replicate 20 0) refl, refl),
  (refl, is_bytes-IsBytes (finishing 1) refl, refl),
)

virtq_xfer-done_example :
    Yields
      (λ r. IsTold request_span reply_span r.0 × (r.1.inflight ≡ false) × IsQueue r.1)
      (virtq_xfer 2 finishing fresh_queue request_span reply_span)
virtq_xfer-done_example =
    virtq_xfer-done 2 1 finishing fresh_queue request_span reply_span fresh_queue-IsQueue refl
      finishing-IsDoneAfter (omega arith)

-- The queue with a table of one descriptor
abbrev one_descriptor : Virtq
one_descriptor = record fresh_queue { size = 1; desc = replicate 16 0 }

virtq_post-outside_example : virtq_post one_descriptor request_span reply_span ≡ none
virtq_post-outside_example =
    virtq_post-outside one_descriptor 4096 8192 10 20 refl refl refl (omega arith) (omega arith)
