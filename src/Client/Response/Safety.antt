-- ===== src/Client/Response/Safety.antt =====
-- Accesses of zbc_parse_response, src/c/zbc_client.c.
use semihost.Base.{
  ℕ, zero, suc, ◌+◌, ◌<◌, ◌≤◌, ◌^◌, ◌&&◌, not, ◌==◌, none, some, ◌≡◌, ◌⊎◌, refl, arith, length,
  Bool-cases, inl, inr, leb, ltb,
}
use semihost.Client.{ClientState}
use semihost.Client.Response.{
  Response, Found, find_data, on_retn, on_erro, on_chunk, response_walk, conclude, parse_response,
}
use semihost.Memory.{Bytes, IsBytes, Yields, Yields-bind}
use semihost.Native.Laws.{read_native_int_inside}
use semihost.Riff.{
  is_ok, id_semi, id_data, id_retn, id_erro, riff_hdr_size, chunk_hdr_size, data_hdr_size,
  erro_payload_size, retn_errno_size,
}
use semihost.Riff.Container.{riff_validate, riff_end, validate_fields}
use semihost.Riff.Parse.Walk.{validate_fields-ok}
use semihost.Word.{read_u32_le, pad_size_u32}
use semihost.Word.Laws.{read_u32_le_inside, read_u16_le_inside}

-- The response's data, if any, lies in the first `n` bytes.
abbrev pub IsResponse : ℕ → Response → Type 0
IsResponse n r = elim r.data_ptr [ none ↦ r.data_size ≡ 0 | some p ↦ p + r.data_size ≤ n ]

module _ (buf : Bytes) (bytes : IsBytes buf) (n : ℕ) (n_le : n ≤ length buf) where
  find_data-Yields :
      (fuel pos end : ℕ) (r : Response)
      → 0 < fuel
      → end < pos + fuel
      → end ≤ n
      → IsResponse n r
      → Yields (IsResponse n) (find_data fuel buf pos end r)
  unfolding find_data
  find_data-Yields zero pos end r some_fuel enough le w = absurd (omega arith)
  find_data-Yields (suc fuel) pos end r some_fuel enough le w =
      elim (Bool-cases (leb (pos + chunk_hdr_size) end)) [
        | inl more ↦
            let (id, e, _) = read_u32_le_inside buf pos bytes (ground arith) in
            let (size, f, _) = read_u32_le_inside buf (pos + 4) bytes (ground arith) in
            elim (Bool-cases (ltb end (pos + chunk_hdr_size + size))) [
              | inl cut ↦ rw (more, e, f, cut) w
              | inr whole ↦ elim (Bool-cases (id == id_data && leb data_hdr_size size)) [
                | inl here ↦ rw (more, e, f, whole, here) (ground arith)
                | inr other ↦
                    rw (more, e, f, whole, other)
                      (find_data-Yields fuel (pos + (chunk_hdr_size + pad_size_u32 size)) end r
                        (ground arith) (ground arith) le w)
              ]
            ]
        | inr last ↦ rw last w
      ]

  abbrev IsFound : Found → Type 0
  IsFound f = IsResponse n f.response

  module _ (state : ClientState) (f : Found) (w : IsFound f) (at size : ℕ)
      (inside : at + size ≤ n) where
    on_retn-Yields : Yields IsFound (on_retn buf state at size f)
    unfolding on_retn
    on_retn-Yields = elim (Bool-cases (leb (state.int_size + retn_errno_size) size)) [
      | inl full ↦
          let (r, er) =
            read_native_int_inside buf at state.int_size state.endianness bytes (ground arith) in
          let (h, eh, _) = read_u32_le_inside buf (at + state.int_size) bytes (ground arith) in
          rw (full, er, eh)
            (Yields-bind (IsResponse n) IsFound
              (find_data (suc size) buf (at + state.int_size + 4) (at + size) _) _
              (find_data-Yields (suc size) (at + state.int_size + 4) (at + size) _ (omega arith)
                (omega arith) inside w)
              λ r' w'. w')
      | inr short ↦ rw short w
    ]

    on_erro-Yields : Yields IsFound (on_erro buf at size f)
    unfolding on_erro
    on_erro-Yields = elim (Bool-cases (leb erro_payload_size size)) [
      | inl full ↦ let (c, e, _) = read_u16_le_inside buf at bytes (ground arith) in rw (full, e) w
      | inr short ↦ rw short w
    ]

    on_chunk-Yields : (id : ℕ) → Yields IsFound (on_chunk buf state id at size f)
    unfolding on_chunk
    on_chunk-Yields id = elim (Bool-cases (id == id_retn)) [
      | inl retn ↦ rw retn on_retn-Yields
      | inr a ↦ elim (Bool-cases (id == id_erro)) [
        | inl erro ↦ rw (a, erro) on_erro-Yields
        | inr b ↦ rw (a, b) w
      ]
    ]

  response_walk-Yields :
      (fuel : ℕ) (state : ClientState) (pos end : ℕ) (f : Found)
      → 0 < fuel
      → end < pos + fuel
      → end ≤ n
      → IsFound f
      → Yields (λ r. IsFound r.1) (response_walk fuel buf state pos end f)
  unfolding response_walk
  response_walk-Yields zero state pos end f some_fuel enough le w = absurd (omega arith)
  response_walk-Yields (suc fuel) state pos end f some_fuel enough le w =
      elim (Bool-cases (leb (pos + chunk_hdr_size) end)) [
        | inl more ↦
            let (id, e, _) = read_u32_le_inside buf pos bytes (ground arith) in
            let (size, g, _) = read_u32_le_inside buf (pos + 4) bytes (ground arith) in
            elim (Bool-cases (ltb end (pos + chunk_hdr_size + size))) [
              | inl cut ↦ rw (more, e, g, cut) w
              | inr whole ↦
                  rw (more, e, g, whole)
                    (Yields-bind IsFound (λ r. IsFound r.1) (on_chunk buf state id (pos + 8) size f)
                      _ (on_chunk-Yields state f w (pos + 8) size (ground arith) id)
                      λ f' w'.
                        response_walk-Yields fuel state _ end f' (ground arith) (ground arith) le
                          w')
            ]
        | inr last ↦ rw last w
      ]

  conclude-IsResponse : (f : Found) → IsFound f → IsResponse n (conclude f).1
  unfolding conclude
  conclude-IsResponse f w = elim (Bool-cases (f.erro && not (f.response.proto_error == 0))) [
    | inl e ↦ rw e w
    | inr e ↦ elim (Bool-cases f.retn) [ inl r ↦ rw (e, r) w | inr r ↦ rw (e, r) w ]
  ]

-- On a buffer of bytes that is at least `capacity` long, and whose size field does not wrap the
-- 32-bit total (or with `capacity` below 12), the client's response parser makes no access outside
-- and ends, and the data that its result points to lies in the first `capacity` bytes.
pub parse_response-Yields :
    (buf : Bytes) (capacity : ℕ) (state : ClientState)
    → IsBytes buf
    → capacity ≤ length buf
    → ((size : ℕ) → read_u32_le buf 4 ≡ some size → size + 8 < 2 ^ 32 ⊎ capacity < 12)
    → Yields (λ r. IsResponse capacity r.1) (parse_response buf capacity state)
unfolding parse_response riff_validate riff_end
parse_response-Yields buf capacity state bytes fits no_wrap =
    elim (Bool-cases (ltb capacity riff_hdr_size)) [
      | inl short ↦ rw short refl
      | inr header ↦
          let (id, e, _) = read_u32_le_inside buf 0 bytes (ground arith) in
          let (form, f, _) = read_u32_le_inside buf 8 bytes (ground arith) in
          let (size, g, _) = read_u32_le_inside buf 4 bytes (ground arith) in
          elim (Bool-cases (is_ok (validate_fields id form id_semi size capacity))) [
            | inl valid ↦
                rw (header, e, f, g, valid)
                  (Yields-bind (λ r. IsResponse capacity r.1.response) _
                    (response_walk (suc (8 + size)) buf state 12 (8 + size) _) _
                    (response_walk-Yields buf bytes capacity fits (suc (8 + size)) state 12
                      (8 + size) _ (omega arith) (omega arith)
                      (ground (
                        arith,
                        no_wrap size g,
                        validate_fields-ok id form id_semi size capacity valid,
                      ))
                      refl)
                    λ r w. elim (Bool-cases (is_ok r.0)) [
                      | inl good ↦ rw good (conclude-IsResponse buf bytes capacity fits r.1 w)
                      | inr bad ↦ rw bad w
                    ])
            | inr bad ↦ rw (header, e, f, g, bad) refl
          ]
    ]
