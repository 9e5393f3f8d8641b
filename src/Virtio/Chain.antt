-- ===== src/Virtio/Chain.antt =====
-- The descriptors that zbc_virtq_post of src/c/zbc_virtio.c writes for the two buffers.
use semihost.Base.{
  ℕ, ◌+◌, ◌*◌, ◌/◌, ◌^◌, ◌≤◌, ◌<◌, ltb, Option, none, some, length, ◌≡◌, refl, arith, ◌⊎◌, inl, inr,
  Bool-cases, Option-cases,
}
use semihost.Memory.{Bytes, >>=-eq-some, write_bytes}
use semihost.Memory.Writes.{Holds, write_bytes-Holds, write_bytes-keeps}
use semihost.Virtio.{Span, write_desc, write_chain, given}
use semihost.Virtio.Invariant.{length-u16_le}
use semihost.Word.{u32, u16_le, u32_le, write_u32_le}
use semihost.Word.Laws.{length-u32_le}

-- The descriptor at the index: the address in two words, the length, the flags and the next index
pub record IsDescriptor (desc : Bytes) (index addr len flags next : ℕ) : Type 0 where
  pub low : Holds desc (16 * index) (u32_le (u32 addr))
  pub high : Holds desc (16 * index + 4) (u32_le (u32 (addr / 2 ^ 16 / 2 ^ 16)))
  pub size : Holds desc (16 * index + 8) (u32_le len)
  pub flag : Holds desc (16 * index + 12) (u16_le flags)
  pub link : Holds desc (16 * index + 14) (u16_le next)

-- A buffer of at least one byte, and one that there is nothing of
abbrev pub Offers : Span → ℕ → Type 0
Offers s addr = (s.ptr ≡ some addr) × (0 < s.len)

abbrev pub IsEmpty : Span → Type 0
IsEmpty s = (s.ptr ≡ none) ⊎ (s.len ≡ 0)

abbrev pub IsBuffer : Span → Option ℕ → Type 0
IsBuffer s none = IsEmpty s
IsBuffer s (some addr) = Offers s addr

-- The chain of the buffers: the one to the device with the flag for a next one where there is one,
-- behind it the one from the device, with the flag for a writable one
abbrev pub IsChain : Bytes → Option ℕ → ℕ → Option ℕ → ℕ → Type 0
IsChain desc (some out) out_len (some in_addr) in_len =
    IsDescriptor desc 0 out (u32 out_len) 1 1 × IsDescriptor desc 1 in_addr (u32 in_len) 2 0
IsChain desc (some out) out_len none in_len = IsDescriptor desc 0 out (u32 out_len) 0 0
IsChain desc none out_len (some in_addr) in_len = IsDescriptor desc 0 in_addr (u32 in_len) 2 0
IsChain desc none out_len none in_len = ⊥

pub given-IsBuffer : (s : Span) → IsBuffer s (given s)
given-IsBuffer s = elim (Bool-cases (ltb 0 s.len)) [
  | inr none_left ↦ rw none_left (inr (ground arith))
  | inl more ↦ elim (Option-cases s.ptr) [
    | inl null ↦ rw (more, null) (inl refl)
    | inr (addr, at) ↦ rw (more, at) (refl, ground arith)
  ]
]

write_desc-IsDescriptor :
    (desc after : Bytes) (index addr len flags next : ℕ)
    → write_desc desc index addr len flags next ≡ some after
    → IsDescriptor after index addr len flags next
unfolding write_desc write_u32_le
write_desc-IsDescriptor desc after index addr len flags next e =
    let d = 16 * index in
    let (a, ea, ra) = >>=-eq-some (write_bytes desc d (u32_le (u32 addr))) _ e in
    let (b, eb, rb) =
      >>=-eq-some (write_bytes a (d + 4) (u32_le (u32 (addr / 2 ^ 16 / 2 ^ 16)))) _ ra in
    let (c, ec, rc) = >>=-eq-some (write_bytes b (d + 8) (u32_le len)) _ rb in
    let (f, ef, rf) = >>=-eq-some (write_bytes c (d + 12) (u16_le flags)) _ rc in
    let hi = u32 (addr / 2 ^ 16 / 2 ^ 16) in
    let four = length-u32_le (u32 addr) in
    let four_hi = length-u32_le hi in
    let four_len = length-u32_le len in
    let two = length-u16_le flags in
    let past_len = λ (o : ℕ) (cs : Bytes) (h : o + length cs ≤ d + 12) (x : Holds c o cs).
      write_bytes-keeps f after (d + 14) (u16_le next) o cs rf (inl (omega arith))
        (write_bytes-keeps c f (d + 12) (u16_le flags) o cs ef (inl h) x) in
    let past_hi = λ (o : ℕ) (cs : Bytes) (h : o + length cs ≤ d + 8) (x : Holds b o cs).
      past_len o cs (omega arith) (write_bytes-keeps b c (d + 8) (u32_le len) o cs ec (inl h) x) in
    record {
      low = past_hi d (u32_le (u32 addr)) (omega arith) (
          write_bytes-keeps a b (d + 4) (u32_le hi) d (u32_le (u32 addr)) eb (inl (omega arith))
            (write_bytes-Holds desc a d (u32_le (u32 addr)) ea));
      high =
          past_hi (d + 4) (u32_le hi) (omega arith) (write_bytes-Holds a b (d + 4) (u32_le hi) eb);
      size =
          past_len (d + 8) (u32_le len) (omega arith)
            (write_bytes-Holds b c (d + 8) (u32_le len) ec);
      flag =
          write_bytes-keeps f after (d + 14) (u16_le next) (d + 12) (u16_le flags) rf
            (inl (omega arith)) (write_bytes-Holds c f (d + 12) (u16_le flags) ef);
      link = write_bytes-Holds f after (d + 14) (u16_le next) rf;
    }

write_desc-keeps :
    (desc after : Bytes) (index addr len flags next o : ℕ) (cs : Bytes)
    → write_desc desc index addr len flags next ≡ some after
    → o + length cs ≤ 16 * index
    → Holds desc o cs
    → Holds after o cs
unfolding write_desc write_u32_le
write_desc-keeps desc after index addr len flags next o cs e h x =
    let d = 16 * index in
    let hi = u32 (addr / 2 ^ 16 / 2 ^ 16) in
    let (a, ea, ra) = >>=-eq-some (write_bytes desc d (u32_le (u32 addr))) _ e in
    let (b, eb, rb) = >>=-eq-some (write_bytes a (d + 4) (u32_le hi)) _ ra in
    let (c, ec, rc) = >>=-eq-some (write_bytes b (d + 8) (u32_le len)) _ rb in
    let (f, ef, rf) = >>=-eq-some (write_bytes c (d + 12) (u16_le flags)) _ rc in
    write_bytes-keeps f after (d + 14) (u16_le next) o cs rf (inl (omega arith)) (
      write_bytes-keeps c f (d + 12) (u16_le flags) o cs ef (inl (omega arith)) (
        write_bytes-keeps b c (d + 8) (u32_le len) o cs ec (inl (omega arith)) (
          write_bytes-keeps a b (d + 4) (u32_le hi) o cs eb (inl (omega arith))
            (write_bytes-keeps desc a d (u32_le (u32 addr)) o cs ea (inl h) x))))

-- What write_chain tells: the table with the chain, or that there was nothing to transfer
abbrev pub IsWritten : Option ℕ → ℕ → Option ℕ → ℕ → Option Bytes → Type 0
IsWritten out out_len in_addr in_len none = (out ≡ none) × (in_addr ≡ none)
IsWritten out out_len in_addr in_len (some desc) = IsChain desc out out_len in_addr in_len

pub write_chain-IsWritten :
    (desc : Bytes) (out : Option ℕ) (out_len : ℕ) (in_addr : Option ℕ) (in_len : ℕ)
    (c : Option Bytes)
    → write_chain desc out out_len in_addr in_len ≡ some c
    → IsWritten out out_len in_addr in_len c
unfolding write_chain
write_chain-IsWritten desc (some out) out_len (some in_addr) in_len c e =
    let (a, ea, ra) = >>=-eq-some (write_desc desc 0 out (u32 out_len) 1 1) _ e in
    let (b, eb, rb) = >>=-eq-some (write_desc a 1 in_addr (u32 in_len) 2 0) _ ra in
    let same : c ≡ some b = cc in
    let first = write_desc-IsDescriptor desc a 0 out (u32 out_len) 1 1 ea in
    rw same (
      kept_first a b out (u32 out_len) in_addr (u32 in_len) eb first,
      write_desc-IsDescriptor a b 1 in_addr (u32 in_len) 2 0 eb,
    )
  where
    kept_first :
        (a b : Bytes) (out out_size in_at in_size : ℕ)
        → write_desc a 1 in_at in_size 2 0 ≡ some b
        → IsDescriptor a 0 out out_size 1 1
        → IsDescriptor b 0 out out_size 1 1
    kept_first a b out out_size in_at in_size e d =
        let four = length-u32_le (u32 out) in
        let four_hi = length-u32_le (u32 (out / 2 ^ 16 / 2 ^ 16)) in
        let four_len = length-u32_le out_size in
        let two = length-u16_le 1 in
        let keep = λ (o : ℕ) (cs : Bytes) (h : o + length cs ≤ 16) (x : Holds a o cs).
          write_desc-keeps a b 1 in_at in_size 2 0 o cs e h x in
        record {
          low = keep 0 _ (omega arith) d.low;
          high = keep 4 _ (omega arith) d.high;
          size = keep 8 _ (omega arith) d.size;
          flag = keep 12 _ (omega arith) d.flag;
          link = keep 14 _ (omega arith) d.link;
        }
write_chain-IsWritten desc (some out) out_len none in_len c e =
    let (a, ea, ra) = >>=-eq-some (write_desc desc 0 out (u32 out_len) 0 0) _ e in
    let same : c ≡ some a = cc in
    rw same (write_desc-IsDescriptor desc a 0 out (u32 out_len) 0 0 ea)
write_chain-IsWritten desc none out_len (some in_addr) in_len c e =
    let (a, ea, ra) = >>=-eq-some (write_desc desc 0 in_addr (u32 in_len) 2 0) _ e in
    let same : c ≡ some a = cc in
    rw same (write_desc-IsDescriptor desc a 0 in_addr (u32 in_len) 2 0 ea)
write_chain-IsWritten desc none out_len none in_len c e =
    let same : c ≡ none = cc in rw same (refl, refl)
