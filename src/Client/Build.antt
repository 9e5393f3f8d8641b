-- ===== src/Client/Build.antt =====
-- Accesses of the chunk writers of src/c/zbc_client.c.
use semihost.Base.{
  ℕ, ◌+◌, ◌%◌, ◌^◌, ◌<◌, ◌≤◌, not, ◌==◌, some, ◌≡◌, refl, ◌∙◌, arith, length, Bool-cases, inl, inr,
  ltb, if◌then◌else◌, replicate, length-replicate, bit_and, bit_and_mask,
}
use semihost.Client.Request.{
  Draft, Step, ◌on_ok◌, chunk_write_hdr, write_cnfg_if_needed, write_parm_chunk, write_data_chunk,
  write_prealloc,
}
use semihost.Memory.{Bytes, Yields, Yields-bind, Yields-weaken, store, write_bytes}
use semihost.Native.{write_native_uint}
use semihost.Native.Writes.{
  HasLength, write_native_uint-Yields, write_u32_le-Yields, write_bytes-Yields, store-Yields,
}
use semihost.Riff.{
  Rc, is_ok, id_cnfg, id_parm, id_data, chunk_hdr_size, cnfg_payload_size, parm_hdr_size,
  data_hdr_size,
}
use semihost.Word.{u64, write_u32_le, pad_size}
use semihost.Word.Laws.{pad_size_lem}

-- The request so far lies in the first `capacity` bytes of a buffer that keeps its length, behind
-- the container's header, and the client's integers are narrow.
abbrev pub IsDraft : ℕ → ℕ → Draft → Type 0
IsDraft capacity size d =
    (d.pos ≤ capacity)
    × (length d.buf ≡ size)
    × (12 ≤ d.pos)
    × (d.state.int_size ≤ 8)
    × (d.state.ptr_size ≤ 8)

abbrev pub IsStep : ℕ → ℕ → Rc × Draft → Type 0
IsStep capacity size r = IsDraft capacity size r.1

pub chunk_write_hdr-Yields :
    (buf : Bytes) (at id n : ℕ)
    → at + 8 ≤ length buf
    → Yields (HasLength (length buf)) (chunk_write_hdr buf at id n)
unfolding chunk_write_hdr
chunk_write_hdr-Yields buf at id n h =
    Yields-bind (HasLength (length buf)) (HasLength (length buf)) (write_u32_le buf at id) _
      (write_u32_le-Yields buf at id (omega arith))
      λ b l.
        Yields-weaken (HasLength (length b)) (HasLength (length buf)) (write_u32_le b (at + 4) n)
          (write_u32_le-Yields b (at + 4) n (omega arith)) λ c m. m ∙ l

module _ (capacity size : ℕ) (fits : capacity ≤ size) (small : capacity < 2 ^ 62) where
  abbrev pub Good : Rc × Draft → Type 0
  Good r = IsStep capacity size r

  pub on_ok-Yields :
      (m : Step) (f : Draft → Step)
      → Yields Good m
      → ((d : Draft) → IsDraft capacity size d → Yields Good (f d))
      → Yields Good (m on_ok f)
  unfolding ◌on_ok◌
  on_ok-Yields m f h k =
      Yields-bind Good Good m _ h
        λ r w. elim (Bool-cases (is_ok r.0)) [ inl good ↦ rw good (k r.1 w) | inr bad ↦ rw bad w ]

  pub write_cnfg_if_needed-Yields :
      (d : Draft) → IsDraft capacity size d → Yields Good (write_cnfg_if_needed capacity d)
  unfolding write_cnfg_if_needed
  write_cnfg_if_needed-Yields d (p, l, a, i, j) = elim (Bool-cases d.state.cnfg_sent) [
    | inl e ↦ rw e (p, l, a, i, j)
    | inr e ↦ elim (Bool-cases (ltb capacity (u64 (d.pos + 12)))) [
      | inl f ↦ rw (e, f) (p, l, a, i, j)
      | inr f ↦
          let room : d.pos + 12 ≤ capacity = ground arith in
          rw (e, f)
            (Yields-bind (HasLength (length d.buf)) Good
              (chunk_write_hdr d.buf d.pos id_cnfg cnfg_payload_size) _
              (chunk_write_hdr-Yields d.buf d.pos id_cnfg cnfg_payload_size (omega arith))
              λ b m.
                Yields-bind (HasLength (length b)) Good (write_bytes b (d.pos + 8) _) _
                  (write_bytes-Yields b (d.pos + 8) _ (omega arith))
                  λ c k. (room, k ∙ m ∙ l, omega arith, i, j))
    ]
  ]

  pub write_parm_chunk-Yields :
      (value : ℕ) (d : Draft)
      → IsDraft capacity size d
      → Yields Good (write_parm_chunk capacity value d)
  unfolding write_parm_chunk
  write_parm_chunk-Yields value d (p, l, a, i, j) =
      let n = parm_hdr_size + d.state.int_size in
      let pad = pad_size_lem n (omega arith) in
      elim (Bool-cases (ltb capacity (u64 (d.pos + (chunk_hdr_size + pad_size n))))) [
        | inl f ↦ rw f (p, l, a, i, j)
        | inr f ↦
            let room : d.pos + (8 + pad_size n) ≤ capacity = ground arith in
            rw f (
              Yields-bind (HasLength (length d.buf)) Good (chunk_write_hdr d.buf d.pos id_parm n) _
                (chunk_write_hdr-Yields d.buf d.pos id_parm n (omega arith))
                λ b m.
                  Yields-bind (HasLength (length b)) Good (write_bytes b (d.pos + 8) _) _
                    (write_bytes-Yields b (d.pos + 8) _ (omega arith))
                    λ c k.
                      Yields-bind (HasLength (length c)) Good
                        (write_native_uint c (d.pos + 8 + 4) value d.state.int_size
                          d.state.endianness)
                        _
                        (write_native_uint-Yields c (d.pos + 8 + 4) value d.state.int_size
                          d.state.endianness (omega arith))
                        λ e q. (room, q ∙ k ∙ m ∙ l, omega arith, i, j))
      ]

  -- The pad byte behind a payload of odd size
  pad-Yields :
      (b : Bytes) (at n : ℕ)
      → at + (n + n % 2) ≤ length b
      → Yields
          (HasLength (length b))
          (if not (bit_and n 1 == 0) then store b (at + n) 0 else some b)
  pad-Yields b at n h = elim (Bool-cases (not (bit_and n 1 == 0))) [
    | inl odd ↦ rw odd (store-Yields b (at + n) 0 (ground (arith, bit_and_mask 1 n)))
    | inr even ↦ rw even refl
  ]

  pub write_data_chunk-Yields :
      (src : Bytes) (type : ℕ) (d : Draft)
      → length src < 2 ^ 62
      → IsDraft capacity size d
      → Yields Good (write_data_chunk capacity src type d)
  unfolding write_data_chunk
  write_data_chunk-Yields src type d short (p, l, a, i, j) =
      let n = u64 (data_hdr_size + length src) in
      let pad = pad_size_lem n (omega arith) in
      let total = u64 (chunk_hdr_size + pad_size n) in
      elim (Bool-cases (ltb capacity (u64 (d.pos + total)))) [
        | inl f ↦ rw f (p, l, a, i, j)
        | inr f ↦
            let room : d.pos + total ≤ capacity = ground arith in
            rw f (
              Yields-bind (HasLength (length d.buf)) Good (chunk_write_hdr d.buf d.pos id_data n) _
                (chunk_write_hdr-Yields d.buf d.pos id_data n (omega arith))
                λ b m.
                  Yields-bind (HasLength (length b)) Good (write_bytes b (d.pos + 8) _) _
                    (write_bytes-Yields b (d.pos + 8) _ (omega arith))
                    λ c k.
                      Yields-bind (HasLength (length c)) Good (write_bytes c (d.pos + 8 + 4) src) _
                        (write_bytes-Yields c (d.pos + 8 + 4) src (omega arith))
                        λ e q.
                          Yields-bind (HasLength (length e)) Good _ _
                            (pad-Yields e (d.pos + 8) n (omega arith))
                            λ g o. (room, o ∙ q ∙ k ∙ m ∙ l, omega arith, i, j))
      ]

  pub write_prealloc-Yields :
      (id n padded : ℕ) (d : Draft)
      → padded < 2 ^ 63
      → IsDraft capacity size d
      → Yields Good (write_prealloc capacity id n padded d)
  unfolding write_prealloc
  write_prealloc-Yields id n padded d short (p, l, a, i, j) =
      elim (Bool-cases (ltb capacity (u64 (d.pos + u64 (chunk_hdr_size + padded))))) [
        | inl f ↦ rw f (p, l, a, i, j)
        | inr f ↦
            let room : d.pos + u64 (8 + padded) ≤ capacity = ground arith in
            let wide = length-replicate {A = ℕ} padded 0 in
            rw f (
              Yields-bind (HasLength (length d.buf)) Good (chunk_write_hdr d.buf d.pos id n) _
                (chunk_write_hdr-Yields d.buf d.pos id n (omega arith))
                λ b m.
                  Yields-bind (HasLength (length b)) Good
                    (write_bytes b (d.pos + 8) (replicate padded 0)) _
                    (write_bytes-Yields b (d.pos + 8) (replicate padded 0) (omega arith))
                    λ c k. (room, k ∙ m ∙ l, omega arith, i, j))
      ]
