-- ===== src/Virtio/Invariant.antt =====
-- The state of the virtqueue of src/c/zbc_virtio.c between its operations.
use semihost.Base.{
  ℕ, ◌+◌, ◌*◌, ◌%◌, ◌^◌, ◌≤◌, ◌<◌, true, if◌then◌else◌, Option, none, some, length, ◌≡◌, refl, ◌∙◌,
  ◌⊎◌, arith,
}
use semihost.Memory.{Bytes, IsBytes, ◌>>=◌, write_bytes, Yields, Yields-bind, Yields-weaken}
use semihost.Native.Writes.{HasLength, write_u32_le-Yields, write_bytes-Yields}
use semihost.Virtio.{
  Virtq, desc_entry_size, avail_hdr_size, used_hdr_size, used_entry_size, write_desc, write_chain,
}
use semihost.Word.{u16, u32, u16_le, read_u16_le, read_u32_le}

-- A queue that is set up, of two descriptors at least. The device's index in the used ring is the
-- driver's, or one further while a chain is outstanding.
pub record IsQueue (q : Virtq) : Type 0 where
  pub present : q.mmio ≡ true
  pub size_low : 2 ≤ q.size
  pub desc_len : length q.desc ≡ desc_entry_size * q.size
  pub avail_len : length q.avail ≡ avail_hdr_size + 2 * q.size
  pub used_len : length q.used ≡ used_hdr_size + used_entry_size * q.size
  pub used_bytes : IsBytes q.used
  pub avail_low : q.avail_idx < 2 ^ 16
  pub outstanding : q.avail_idx ≡ (q.last_used_idx + (if q.inflight then 1 else 0)) % 2 ^ 16
  pub last_low : q.last_used_idx < 2 ^ 16
  pub device :
      read_u16_le q.used 2 ≡ some q.last_used_idx
      ⊎ ((q.inflight ≡ true) × (read_u16_le q.used 2 ≡ some q.avail_idx))

pub length-u16_le : (v : ℕ) → length (u16_le v) ≡ 2
unfolding u16_le
length-u16_le v = refl

pub write_u16-Yields :
    (buf : Bytes) (off v : ℕ)
    → off + 2 ≤ length buf
    → Yields (HasLength (length buf)) (write_bytes buf off (u16_le v))
write_u16-Yields buf off v h =
    write_bytes-Yields buf off (u16_le v) (omega (arith, length-u16_le v))

module _ (n : ℕ) where
  -- A write into a buffer of `n` bytes, and the next one
  then_u32 :
      {A : Type 0} (Q : A → Type 0) (buf : Bytes) (off v : ℕ) (f : Bytes → Option A)
      → length buf ≡ n
      → off + 4 ≤ n
      → ((b : Bytes) → length b ≡ n → Yields Q (f b))
      → Yields Q (semihost.Word.write_u32_le buf off v >>= f)
  then_u32 Q buf off v f l h k =
      Yields-bind (HasLength (length buf)) Q _ f (write_u32_le-Yields buf off v (omega arith))
        λ b m. k b (m ∙ l)

  then_u16 :
      {A : Type 0} (Q : A → Type 0) (buf : Bytes) (off v : ℕ) (f : Bytes → Option A)
      → length buf ≡ n
      → off + 2 ≤ n
      → ((b : Bytes) → length b ≡ n → Yields Q (f b))
      → Yields Q (write_bytes buf off (u16_le v) >>= f)
  then_u16 Q buf off v f l h k =
      Yields-bind (HasLength (length buf)) Q _ f (write_u16-Yields buf off v (omega arith))
        λ b m. k b (m ∙ l)

  pub write_desc-Yields :
      (desc : Bytes) (index addr len flags next : ℕ)
      → length desc ≡ n
      → desc_entry_size * index + desc_entry_size ≤ n
      → Yields (HasLength n) (write_desc desc index addr len flags next)
  unfolding write_desc
  write_desc-Yields desc index addr len flags next l h =
      then_u32 (HasLength n) desc _ _ _ l (omega arith) λ a la.
        then_u32 (HasLength n) a _ _ _ la (omega arith) λ b lb.
          then_u32 (HasLength n) b _ _ _ lb (omega arith) λ c lc.
            then_u16 (HasLength n) c _ _ _ lc (omega arith) λ d ld.
              Yields-weaken (HasLength (length d)) (HasLength n) _
                (write_u16-Yields d (desc_entry_size * index + 14) next (omega arith))
                λ e le. le ∙ ld

  -- The table keeps its size.
  abbrev pub IsTable : Option Bytes → Type 0
  IsTable none = Unit
  IsTable (some desc) = length desc ≡ n

  pub write_chain-Yields :
      (desc : Bytes) (out : Option ℕ) (out_len : ℕ) (in_addr : Option ℕ) (in_len : ℕ)
      → length desc ≡ n
      → 2 * desc_entry_size ≤ n
      → Yields IsTable (write_chain desc out out_len in_addr in_len)
  unfolding write_chain
  write_chain-Yields desc (some out) out_len (some in_addr) in_len l h =
      Yields-bind (HasLength n) IsTable _ _
        (write_desc-Yields desc 0 out (u32 out_len) 1 1 l (omega arith))
        λ d m.
          Yields-bind (HasLength n) IsTable _ _
            (write_desc-Yields d 1 in_addr (u32 in_len) 2 0 m (omega arith)) λ e k. k
  write_chain-Yields desc (some out) out_len none in_len l h =
      Yields-bind (HasLength n) IsTable _ _
        (write_desc-Yields desc 0 out (u32 out_len) 0 0 l (omega arith)) λ d m. m
  write_chain-Yields desc none out_len (some in_addr) in_len l h =
      Yields-bind (HasLength n) IsTable _ _
        (write_desc-Yields desc 0 in_addr (u32 in_len) 2 0 l (omega arith)) λ d m. m
  write_chain-Yields desc none out_len none in_len l h = tt
