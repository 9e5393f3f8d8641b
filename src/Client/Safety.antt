-- ===== src/Client/Safety.antt =====
-- Accesses of build_request, src/c/zbc_client.c.
use semihost.Base.{
  ℕ, ◌+◌, ◌-◌, ◌*◌, ◌^◌, ◌<◌, ◌≤◌, Option, none, some, List, [], ◌∷◌, ◌≡◌, refl, ◌∙◌, arith, length,
  get_elem?, Bool-cases, inl, inr, ltb, All,
}
use semihost.Client.{ClientState, retn_capacity, arg, read_bytes, strlen}
use semihost.Client.Build.{
  IsDraft, Good, on_ok-Yields, chunk_write_hdr-Yields, write_cnfg_if_needed-Yields,
  write_parm_chunk-Yields, write_data_chunk-Yields, write_prealloc-Yields,
}
use semihost.Client.Capacity.{RespType-cases}
use semihost.Client.Reads.{read_bytes-Yields, strlen-Yields}
use semihost.Client.Request.{
  Draft, chunk_write_hdr, riff_write_hdr, write_param, write_params, write_call, finish_request,
  build_request, moved, is_unused,
}
use semihost.Memory.{
  Bytes, Yields, Yields-bind, Yields-weaken, Yields-result, load, load_inside, write_bytes,
}
use semihost.Native.Writes.{HasLength, write_u32_le-Yields, write_bytes-Yields}
use semihost.Opcode.{
  OpcodeEntry, ChunkDesc, ChunkType, data_bytes, unused, parm_int, parm_uint, data_ptr, data_str,
  data_byte, other,
}
use semihost.Riff.{
  Rc, id_call, id_semi, id_riff, id_retn, id_erro, erro_prealloc_size, chunk_hdr_size,
  call_hdr_payload_size, riff_hdr_size, data_type_binary, data_type_string,
}
use semihost.Word.{u64, write_u32_le, pad_size}
use semihost.Word.Laws.{pad_size_lem}

-- The caller's string at `p` has its terminator in memory, and `p` is not NULL.
abbrev IsString : Bytes → ℕ → Type 0
IsString mem p = (0 < p) × (i : ℕ) × (p ≤ i) × (i < length mem) × (load mem i ≡ some 0)

-- The argument slots that a chunk is made from exist, and what they point to is in memory.
abbrev pub IsReadable : Bytes → Option (List ℕ) → ChunkDesc → Type 0
IsReadable mem args c = elim c.type [
  | unused ↦ Unit
  | parm_int ↦ Yields (λ _. Unit) (arg args c.slot)
  | parm_uint ↦ Yields (λ _. Unit) (arg args c.slot)
  | data_ptr ↦
      Yields (λ p. Yields (λ n. p + n ≤ length mem) (arg args c.len_slot)) (arg args c.slot)
  | data_str ↦ Yields (IsString mem) (arg args c.slot)
  | data_byte ↦ Yields (λ p. p < length mem) (arg args c.slot)
  | other ↦ Unit
]

module _ (capacity size : ℕ) (fits : capacity ≤ size) (small : capacity < 2 ^ 62) (mem : Bytes)
    (addressable : length mem < 2 ^ 62) (args : Option (List ℕ)) where
  param-Yields :
      (type : ChunkType) (slot len_slot : ℕ) (d : Draft)
      → IsReadable mem args (record { type = type; slot = slot; len_slot = len_slot })
      → IsDraft capacity size d
      → Yields (Good capacity size fits small) (
          write_param mem capacity args
            (record { type = type; slot = slot; len_slot = len_slot })
            d)
  unfolding write_param
  param-Yields unused slot len_slot d r w = w
  param-Yields parm_int slot len_slot d r w =
      Yields-bind _ _ (arg args slot) _ r
        λ v _. write_parm_chunk-Yields capacity size fits small v d w
  param-Yields parm_uint slot len_slot d r w =
      Yields-bind _ _ (arg args slot) _ r
        λ v _. write_parm_chunk-Yields capacity size fits small v d w
  param-Yields data_ptr slot len_slot d r w = Yields-bind _ _ (arg args slot) _ r λ p q.
      Yields-bind _ _ (arg args len_slot) _ q λ n h.
        Yields-bind (HasLength n) _ (read_bytes mem p n) _ (read_bytes-Yields mem p n h) λ src l.
          write_data_chunk-Yields capacity size fits small src data_type_binary d (omega arith) w
  param-Yields data_str slot len_slot d r w =
      Yields-bind (IsString mem) _ (arg args slot) _ r λ p (pos, i, le, lt, e).
        Yields-bind _ _ (strlen mem p) _ (strlen-Yields mem p i lt e le pos) λ n h.
          Yields-bind (HasLength (n + 1)) _ (read_bytes mem p (n + 1)) _
            (read_bytes-Yields mem p (n + 1) (omega arith))
            λ src l.
              write_data_chunk-Yields capacity size fits small src data_type_string d (omega arith)
                w
  param-Yields data_byte slot len_slot d r w = Yields-bind _ _ (arg args slot) _ r λ p h.
      let (b, e) = load_inside mem p h in
      rw e (
        write_data_chunk-Yields capacity size fits small (b ∷ []) data_type_binary d (omega arith)
          w)
  param-Yields other slot len_slot d r w = w

  write_params-Yields :
      (ps : List ChunkDesc) (d : Draft)
      → All (IsReadable mem args) ps
      → IsDraft capacity size d
      → Yields (Good capacity size fits small) (write_params mem capacity args ps d)
  unfolding write_params
  write_params-Yields [] d r w = w
  write_params-Yields (p ∷ ps) d r w = elim (Bool-cases (is_unused p.type)) [
    | inl end ↦ rw end w
    | inr more ↦ rw more (
        on_ok-Yields capacity size fits small (write_param mem capacity args p d) _
          (param-Yields p.type p.slot p.len_slot d r.0 w) λ e w'. write_params-Yields ps e r.1 w')
  ]

  write_call-Yields :
      (entry : OpcodeEntry) (d : Draft)
      → All (IsReadable mem args) entry.params
      → IsDraft capacity size d
      → Yields (Good capacity size fits small) (write_call mem capacity entry args d)
  unfolding write_call
  write_call-Yields entry d r (p, l, a, i, j) =
      let room = Good capacity size fits small in
      elim (Bool-cases (ltb capacity (u64 (d.pos + chunk_hdr_size + call_hdr_payload_size)))) [
        | inl f ↦ rw f (p, l, a, i, j)
        | inr f ↦
            let inside : d.pos + 12 ≤ capacity = ground arith in
            rw f (
              Yields-bind (HasLength (length d.buf)) room (chunk_write_hdr d.buf d.pos id_call 0) _
                (chunk_write_hdr-Yields d.buf d.pos id_call 0 (omega arith))
                λ b m.
                  Yields-bind (HasLength (length b)) room (write_bytes b (d.pos + 8) _) _
                    (write_bytes-Yields b (d.pos + 8) _ (omega arith))
                    λ c k.
                      on_ok-Yields capacity size fits small _ _
                        (write_params-Yields entry.params (moved d c (d.pos + 8 + 4)) r
                          (omega arith, k ∙ m ∙ l, omega arith, i, j))
                        λ e (q, n, t, u, v).
                          Yields-bind (HasLength (length e.buf)) room
                            (write_u32_le e.buf (d.pos + 4) (e.pos - (d.pos + chunk_hdr_size))) _
                            (write_u32_le-Yields e.buf (d.pos + 4) _ (omega arith))
                            λ g o. (q, o ∙ n, t, u, v))
      ]

-- The caller's buffer for a response's data is named by a slot that exists, and is not absurdly long.
abbrev pub IsReceivable : OpcodeEntry → Option (List ℕ) → Type 0
IsReceivable entry none = Unit
IsReceivable entry (some slots) =
    (entry.resp_type ≡ data_bytes) → Yields (λ n. n < 2 ^ 61) (get_elem? slots entry.resp_len_slot)

received :
    (entry : OpcodeEntry) (st : ClientState) (args : Option (List ℕ))
    → st.int_size ≤ 8
    → IsReceivable entry args
    → entry.resp_type ≡ data_bytes
    → Yields (λ n. n < 2 ^ 62) (retn_capacity entry st args)
unfolding retn_capacity
received entry st none narrow r t = rw t (omega (arith, pad_size_lem 256 (omega arith)))
received entry st (some slots) narrow r t =
    let (n, e, h) = Yields-result (λ n. n < 2 ^ 61) (get_elem? slots entry.resp_len_slot) (r t) in
    rw (t, e) (omega (arith, pad_size_lem n (omega arith)))

retn_capacity-Yields :
    (entry : OpcodeEntry) (st : ClientState) (args : Option (List ℕ))
    → st.int_size ≤ 8
    → st.ptr_size ≤ 8
    → IsReceivable entry args
    → Yields (λ n. n < 2 ^ 62) (retn_capacity entry st args)
unfolding retn_capacity
retn_capacity-Yields entry st args narrow thin r = elim (RespType-cases entry.resp_type) [
  | inl t ↦ rw t (omega arith)
  | inr (inl t) ↦ received entry st args narrow r t
  | inr (inr (inl t)) ↦ rw t (omega (arith, pad_size_lem (4 * st.ptr_size) (omega arith)))
  | inr (inr (inr t)) ↦ rw t (omega (arith, pad_size_lem 8 (omega arith)))
]

pub riff_write_hdr-Yields :
    (buf : Bytes) (n form : ℕ)
    → 12 ≤ length buf
    → Yields (HasLength (length buf)) (riff_write_hdr buf n form)
unfolding riff_write_hdr
riff_write_hdr-Yields buf n form h =
    Yields-bind (HasLength (length buf)) (HasLength (length buf)) (write_u32_le buf 0 id_riff) _
      (write_u32_le-Yields buf 0 id_riff (omega arith))
      λ b l.
        Yields-bind (HasLength (length b)) (HasLength (length buf)) (write_u32_le b 4 n) _
          (write_u32_le-Yields b 4 n (omega arith))
          λ c m.
            Yields-weaken (HasLength (length c)) (HasLength (length buf)) (write_u32_le c 8 form)
              (write_u32_le-Yields c 8 form (omega arith)) λ e k. k ∙ m ∙ l

-- The request that build_request leaves: within the capacity, in a buffer of the same length
abbrev pub IsBuilt : ℕ → ℕ → Rc × Draft → Type 0
IsBuilt capacity size r = (r.1.pos ≤ capacity) × (length r.1.buf ≡ size)

-- For every entry and capacity, if the argument slots that the entry names exist and point to
-- memory of the caller, build_request returns, without an access outside the request buffer or the
-- caller's memory; the buffer keeps its length, and what is written ends within the capacity. The
-- capacity is at most the buffer's length, it and the caller's memory are below 2 ^ 62 bytes, the
-- client's integers and pointers have at most 8 bytes, and for a response with data the slot of
-- its length exists and holds less than 2 ^ 61.
pub build_request-Yields :
    (mem buf : Bytes) (capacity : ℕ) (state : ClientState) (entry : OpcodeEntry)
    (args : Option (List ℕ))
    → capacity ≤ length buf
    → capacity < 2 ^ 62
    → length mem < 2 ^ 62
    → state.int_size ≤ 8
    → state.ptr_size ≤ 8
    → All (IsReadable mem args) entry.params
    → IsReceivable entry args
    → Yields (IsBuilt capacity (length buf)) (build_request mem buf capacity state entry args)
unfolding build_request finish_request
build_request-Yields mem buf capacity state entry args fits small addressable narrow thin readable
      receivable =
    elim (Bool-cases (ltb capacity riff_hdr_size)) [
      | inl short ↦ rw short (omega arith, refl)
      | inr room ↦
          let size = length buf in
          let good = Good capacity size fits small in
          let go_on = on_ok-Yields capacity size fits small in
          rw room (
            Yields-bind (HasLength size) (IsBuilt capacity size) (riff_write_hdr buf 0 id_semi) _
              (riff_write_hdr-Yields buf 0 id_semi (ground arith))
              λ b l.
                Yields-weaken good (IsBuilt capacity size) _
                  (go_on _ _
                    (go_on _ _
                      (write_cnfg_if_needed-Yields capacity size fits small
                        (record { buf = b; pos = riff_hdr_size; state = state })
                        (ground arith, l, omega arith, narrow, thin))
                      λ d w.
                        write_call-Yields capacity size fits small mem addressable args entry d
                          readable w)
                    λ d (p, l, a, i, j).
                      Yields-bind (λ n. n < 2 ^ 62) good (retn_capacity entry d.state args) _
                        (retn_capacity-Yields entry d.state args i j receivable)
                        λ n lt.
                          go_on _ _
                            (go_on _ _
                              (write_prealloc-Yields capacity size fits small id_retn n (pad_size n)
                                d (omega (arith, pad_size_lem n (omega arith))) (p, l, a, i, j))
                              λ e w.
                                write_prealloc-Yields capacity size fits small id_erro
                                  erro_prealloc_size erro_prealloc_size e (omega arith) w)
                            λ e (q, m, t, u, v).
                              Yields-bind (HasLength (length e.buf)) good (write_u32_le e.buf 4 _) _
                                (write_u32_le-Yields e.buf 4 _ (omega arith))
                                λ c k. (q, k ∙ m, t, u, v))
                  λ r w. (w.0, w.1))
    ]
