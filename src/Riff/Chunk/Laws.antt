-- ===== src/Riff/Chunk/Laws.antt =====
-- What the chunk functions accept, find and step to.
use semihost.Base.{
  ℕ, zero, suc, ◌+◌, ◌-◌, ◌%◌, ◌^◌, ◌<◌, ◌≤◌, true, false, Option, none, some, ◌≡◌, ◌≢◌, ◌↔◌,
  ==_iff, ◌∙◌, ◌⊎◌, refl, arith, length, Bool-cases, inl, inr, leb, ltb, ◌==◌, ap,
}
use semihost.Memory.{Bytes, IsBytes, Yields, Yields-weaken}
use semihost.Riff.{Rc, ok, not_found, header_overflow, data_overflow}
use semihost.Riff.Chunk.{chunk_validate, chunk_next, chunk_find, find_loop}
use semihost.Word.{read_u32_le, pad_size_u32}
use semihost.Word.Laws.{read_u32_le_inside, pad_size_u32_lem}

-- A chunk whose size is below 2 ^ 32 - 1 is accepted exactly when its header and its data, padded to
-- an even size, end within the container.
chunk_validate-ok_iff :
    (buf : Bytes) (chunk end size : ℕ)
    → read_u32_le buf (chunk + 4) ≡ some size
    → size + 1 < 2 ^ 32
    → (chunk_validate buf (some chunk) (some end) ≡ some ok) ↔ (chunk + 8 + (size + size % 2) ≤ end)
unfolding chunk_validate
chunk_validate-ok_iff buf chunk end size e h = ground (arith, pad_size_u32_lem size h)

-- A chunk that announces 2 ^ 32 - 1 bytes of data is accepted wherever its header fits, since its
-- padded size wraps to 0.
pub chunk_validate_wrap :
    (buf : Bytes) (chunk end : ℕ)
    → read_u32_le buf (chunk + 4) ≡ some (2 ^ 32 - 1)
    → chunk + 8 ≤ end
    → chunk_validate buf (some chunk) (some end) ≡ some ok
unfolding chunk_validate pad_size_u32
chunk_validate_wrap buf chunk end e h = rw e (ground arith)

-- From `chunk` on, valid chunks with other ids follow one another, up to the place `at`.
pub data Passes (buf : Bytes) (end id : ℕ) : ℕ → ℕ → Type 0 where
  stops : (chunk : ℕ) → Passes buf end id chunk chunk
  passes :
      (chunk size other at : ℕ)
      → read_u32_le buf (chunk + 4) ≡ some size
      → chunk + 8 + pad_size_u32 size ≤ end
      → read_u32_le buf chunk ≡ some other
      → other ≢ id
      → Passes buf end id (chunk + 8 + pad_size_u32 size) at
      → Passes buf end id chunk at

-- Why a search ends at a place without a chunk: the container's end is reached, or the header or
-- the data of the chunk there leave the container.
abbrev pub IsReason : Bytes → ℕ → ℕ → Rc → Type 0
IsReason buf end at rc =
    ((rc ≡ not_found) × (end ≤ at))
    ⊎ ((rc ≡ header_overflow) × (at < end) × (end < at + 8))
    ⊎ ((rc ≡ data_overflow)
        × (at + 8 ≤ end)
        × (size : ℕ) × (read_u32_le buf (at + 4) ≡ some size)
        × (end < at + 8 + pad_size_u32 size))

-- The result of a search from `start`: the first chunk with the id, which is valid, or the place at
-- which the search ended without one, and why.
abbrev pub IsFind : Bytes → ℕ → ℕ → ℕ → Rc × Option ℕ → Type 0
IsFind buf start end id (rc, some c) =
    (rc ≡ ok)
    × Passes buf end id start c
    × (read_u32_le buf c ≡ some id)
    × (size : ℕ) × (read_u32_le buf (c + 4) ≡ some size)
    × (c + 8 + pad_size_u32 size ≤ end)
IsFind buf start end id (rc, none) = (at : ℕ) × Passes buf end id start at × IsReason buf end at rc

IsFind-passes :
    (buf : Bytes) (chunk size other end id : ℕ) (r : Rc × Option ℕ)
    → read_u32_le buf (chunk + 4) ≡ some size
    → chunk + 8 + pad_size_u32 size ≤ end
    → read_u32_le buf chunk ≡ some other
    → other ≢ id
    → IsFind buf (chunk + 8 + pad_size_u32 size) end id r
    → IsFind buf chunk end id r
IsFind-passes buf chunk size other end id (rc, some c) e fits f differs (a, way, g, s, h, k) =
    (a, passes chunk size other c e fits f differs way, g, s, h, k)
IsFind-passes buf chunk size other end id (rc, none) e fits f differs (at, way, why) =
    (at, passes chunk size other at e fits f differs way, why)

module _ (buf : Bytes) (bytes : IsBytes buf) (end : ℕ) (fits : end ≤ length buf) (id : ℕ) where
  -- What chunk_validate says of a chunk whose header ends before the end
  validate_code :
      (chunk size : ℕ)
      → read_u32_le buf (chunk + 4) ≡ some size
      → chunk + 8 ≤ end
      → ((chunk_validate buf (some chunk) (some end) ≡ some data_overflow)
          × (end < chunk + 8 + pad_size_u32 size))
        ⊎ ((chunk_validate buf (some chunk) (some end) ≡ some ok)
            × (chunk + 8 + pad_size_u32 size ≤ end))
  unfolding chunk_validate
  validate_code chunk size e room = ground arith

  short_header :
      (chunk : ℕ)
      → end < chunk + 8
      → chunk_validate buf (some chunk) (some end) ≡ some header_overflow
  unfolding chunk_validate
  short_header chunk h = ground arith

  next_code :
      (chunk size : ℕ)
      → read_u32_le buf (chunk + 4) ≡ some size
      → chunk_next buf true (some chunk) ≡ some (ok, some (chunk + 8 + pad_size_u32 size))
  unfolding chunk_next
  next_code chunk size e = rw e

  other_id : (cid : ℕ) → (cid == id) ≡ false → cid ≢ id
  other_id cid e same = ground arith

  find_loop-IsFind :
      (fuel chunk : ℕ)
      → 0 < fuel
      → end < chunk + fuel
      → Yields (IsFind buf chunk end id) (find_loop fuel buf chunk end id)
  unfolding find_loop
  find_loop-IsFind zero chunk some_fuel enough = absurd (omega arith)
  find_loop-IsFind (suc fuel) chunk some_fuel enough = elim (Bool-cases (ltb chunk end)) [
    | inr last ↦ rw last (chunk, stops chunk, inl (refl, ground arith))
    | inl more ↦ elim (Bool-cases (leb (chunk + 8) end)) [
      | inr short ↦
          rw (more, short_header chunk (ground arith))
            (chunk, stops chunk, inr (inl (refl, ground arith, ground arith)))
      | inl room ↦
          let (size, e, _) = read_u32_le_inside buf (chunk + 4) bytes (ground arith) in
          let (cid, f, _) = read_u32_le_inside buf chunk bytes (ground arith) in
          elim (validate_code chunk size e (ground arith)) [
            | inl (over, far) ↦
                rw (more, over) (chunk, stops chunk, inr (inr (refl, ground arith, size, e, far)))
            | inr (good, near) ↦ elim (Bool-cases (cid == id)) [
              | inl same ↦
                  rw (more, good, f, same)
                    (refl, stops chunk, f ∙ ap some ((==_iff cid id).0 same), size, e, near)
              | inr differs ↦
                  rw (more, good, f, differs, next_code chunk size e)
                    (Yields-weaken (IsFind buf (chunk + 8 + pad_size_u32 size) end id)
                      (IsFind buf chunk end id) _
                      (find_loop-IsFind fuel _ (ground arith) (ground arith))
                      (λ r.
                        IsFind-passes buf chunk size cid end id r e near f (other_id cid differs)))
            ]
          ]
    ]
  ]

  -- In a buffer of bytes that holds the container, the search makes no access outside the buffer and
  -- ends. It returns ZBC_OK and the first chunk with the id, behind valid chunks with other ids only,
  -- with its header and padded data before the end; or, behind valid chunks with other ids only, the
  -- code for not found at or behind the container's end, for a header that leaves the container, or
  -- for data that leave it. Padded sizes are those of 32-bit sums.
  pub chunk_find-IsFind :
      (start : ℕ)
      → Yields (IsFind buf start end id) (chunk_find buf true (some start) (some end) id)
  unfolding chunk_find
  chunk_find-IsFind start = find_loop-IsFind (suc end) start (omega arith) (omega arith)
