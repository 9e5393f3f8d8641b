-- ===== src/Riff/Parse/Walk.antt =====
-- Accesses of zbc_riff_parse_request, src/shared/zbc_riff.c.
use semihost.Base.{
  ℕ, zero, suc, ◌+◌, ◌<◌, ◌≤◌, ◌^◌, true, Option, some, ◌≡◌, ◌%◌, ◌⊎◌, arith, length, Bool-cases,
  inl, inr, leb, ltb, ◌==◌,
}
use semihost.Memory.{Bytes, IsBytes, Yields, Yields-bind, load_byte}
use semihost.Native.Laws.{read_native_int_inside}
use semihost.Riff.{
  Rc, is_ok, id_semi, id_cnfg, id_call, id_retn, id_erro, chunk_hdr_size, retn_errno_size,
  riff_hdr_size,
}
use semihost.Riff.Container.{riff_validate, riff_end, validate_fields}
use semihost.Riff.Parse.Safety.{IsParsed, zeroed-IsParsed, parse_subchunks-Yields}
use semihost.Riff.Parse.{
  Parsed, zeroed, Layout, Visit, visit_cnfg, visit_call, visit_retn, visit_erro, visit, go_on, walk,
  parse_container, cnfg_code,
}
use semihost.Word.{read_u32_le}
use semihost.Word.Laws.{read_u32_le_inside, read_u16_le_inside}

-- A chunk that passes its tests leaves a well-formed structure.
abbrev pub IsVisit : ℕ → Visit → Type 0
IsVisit n v = is_ok v.code ≡ true → IsParsed n v.out

-- Only sizes of at most 8 bytes pass.
cnfg_code-narrow : (a b : ℕ) → is_ok (cnfg_code a b) ≡ true → (a ≤ 8) × (b ≤ 8)
unfolding cnfg_code
cnfg_code-narrow a b h = ground arith

module _ (buf : Bytes) (bytes : IsBytes buf) (n : ℕ) (n_le : n ≤ length buf) where
  module _ (l : Layout) (out : Parsed) (w : IsParsed n out) (at size : ℕ)
      (inside : at + size ≤ n) where
    visit_cnfg-Yields : Yields (IsVisit n) (visit_cnfg buf l out at size)
    unfolding visit_cnfg
    visit_cnfg-Yields = elim (Bool-cases (leb 4 size)) [
      | inl full ↦
          let (a, ea, _) = load_byte buf at bytes (ground arith) in
          let (b, eb, _) = load_byte buf (at + 1) bytes (ground arith) in
          let (c, ec, _) = load_byte buf (at + 2) bytes (ground arith) in
          let sizes = cnfg_code-narrow a b in
          rw (full, ea, eb, ec)
            (λ good. record {
              int_narrow = (sizes good).0;
              ptr_narrow = (sizes good).1;
              parms_length = w.parms_length;
              parm_count_le = w.parm_count_le;
              data_length = w.data_length;
              data_count_le = w.data_count_le;
              refs_within = w.refs_within;
              retn_within = w.retn_within;
              retn_after = w.retn_after;
              erro_within = w.erro_within;
              erro_after = w.erro_after;
            })
      | inr short ↦ rw short (λ _. w)
    ]

    visit_call-Yields : Yields (IsParsed n) (visit_call buf l out at size)
    unfolding visit_call
    visit_call-Yields = elim (Bool-cases (leb 4 size)) [
      | inl full ↦
          let (op, e, _) = load_byte buf at bytes (ground arith) in
          let marked : IsParsed n (record out { opcode = op; has_call = true }) = record {
            int_narrow = w.int_narrow;
            ptr_narrow = w.ptr_narrow;
            parms_length = w.parms_length;
            parm_count_le = w.parm_count_le;
            data_length = w.data_length;
            data_count_le = w.data_count_le;
            refs_within = w.refs_within;
            retn_within = w.retn_within;
            retn_after = w.retn_after;
            erro_within = w.erro_within;
            erro_after = w.erro_after;
          } in
          rw (full, e)
            (parse_subchunks-Yields buf bytes n n_le l (suc size) (at + 4) (at + size) _
              (omega arith) (omega arith) inside marked)
      | inr short ↦ rw short w
    ]

    module _ (after : 20 ≤ at) where
      marked_retn :
          (result host_errno : ℕ)
          → IsParsed n (record out {
            has_retn = true;
            retn_payload_offset = at;
            retn_payload_capacity = size;
            result = result;
            host_errno = host_errno;
          })
      marked_retn result host_errno = record {
        int_narrow = w.int_narrow;
        ptr_narrow = w.ptr_narrow;
        parms_length = w.parms_length;
        parm_count_le = w.parm_count_le;
        data_length = w.data_length;
        data_count_le = w.data_count_le;
        refs_within = w.refs_within;
        retn_within = inside;
        retn_after = λ _. after;
        erro_within = w.erro_within;
        erro_after = w.erro_after;
      }

      visit_retn-Yields : Yields (IsParsed n) (visit_retn buf l out at size)
      unfolding visit_retn
      visit_retn-Yields = elim (Bool-cases (leb (l.int_size + retn_errno_size) size)) [
        | inl full ↦
            let (r, er) = read_native_int_inside buf at l.int_size l.endian bytes (ground arith) in
            let (h, eh, _) = read_u32_le_inside buf (at + l.int_size) bytes (ground arith) in
            rw (full, er, eh)
              (parse_subchunks-Yields buf bytes n n_le l (suc size) (at + l.int_size + 4)
                (at + size) _ (omega arith) (omega arith) inside (marked_retn r h))
        | inr short ↦ rw short (marked_retn out.result out.host_errno)
      ]

      marked_erro :
          (code : ℕ)
          → IsParsed n (record out {
            has_erro = true;
            erro_payload_offset = at;
            erro_payload_capacity = size;
            proto_error = code;
          })
      marked_erro code = record {
        int_narrow = w.int_narrow;
        ptr_narrow = w.ptr_narrow;
        parms_length = w.parms_length;
        parm_count_le = w.parm_count_le;
        data_length = w.data_length;
        data_count_le = w.data_count_le;
        refs_within = w.refs_within;
        retn_within = w.retn_within;
        retn_after = w.retn_after;
        erro_within = inside;
        erro_after = λ _. after;
      }

      visit_erro-Yields : Yields (IsParsed n) (visit_erro buf out at size)
      unfolding visit_erro
      visit_erro-Yields = elim (Bool-cases (leb 4 size)) [
        | inl full ↦
            let (c, e, _) = read_u16_le_inside buf at bytes (ground arith) in
            rw (full, e) (marked_erro c)
        | inr short ↦ rw short (marked_erro out.proto_error)
      ]

      go_on-Yields : (m : Option Parsed) → Yields (IsParsed n) m → Yields (IsVisit n) (go_on l m)
      go_on-Yields m h = Yields-bind (IsParsed n) (IsVisit n) m _ h (λ out' w' _. w')

      pub visit-Yields : (id : ℕ) → Yields (IsVisit n) (visit buf l out id at size)
      unfolding visit
      visit-Yields id = elim (Bool-cases (id == id_cnfg)) [
        | inl cnfg ↦ rw cnfg visit_cnfg-Yields
        | inr a ↦ elim (Bool-cases (id == id_call)) [
          | inl call ↦ rw (a, call) (go_on-Yields _ visit_call-Yields)
          | inr b ↦ elim (Bool-cases (id == id_retn)) [
            | inl retn ↦ rw (a, b, retn) (go_on-Yields _ visit_retn-Yields)
            | inr c ↦ elim (Bool-cases (id == id_erro)) [
              | inl erro ↦ rw (a, b, c, erro) (go_on-Yields _ visit_erro-Yields)
              | inr d ↦ rw (a, b, c, d) (λ _. w)
            ]
          ]
        ]
      ]

  abbrev IsResult : Rc × Parsed → Type 0
  IsResult r = is_ok r.0 ≡ true → IsParsed n r.1

  pub walk-Yields :
      (fuel : ℕ) (l : Layout) (pos end : ℕ) (out : Parsed)
      → 0 < fuel
      → end < pos + fuel
      → end ≤ n
      → 12 ≤ pos
      → IsParsed n out
      → Yields IsResult (walk fuel buf l pos end out)
  unfolding walk
  walk-Yields zero l pos end out some_fuel enough le start w = absurd (omega arith)
  walk-Yields (suc fuel) l pos end out some_fuel enough le start w =
      elim (Bool-cases (leb (pos + chunk_hdr_size) end)) [
        | inl more ↦
            let (id, e, _) = read_u32_le_inside buf pos bytes (ground arith) in
            let (size, f, _) = read_u32_le_inside buf (pos + 4) bytes (ground arith) in
            elim (Bool-cases (ltb end (pos + chunk_hdr_size + size))) [
              | inl cut ↦ rw (more, e, f, cut) (λ h. cc)
              | inr whole ↦
                  rw (more, e, f, whole)
                    (Yields-bind (IsVisit n) IsResult _ _
                      (visit-Yields l out w (pos + 8) size (ground arith) (omega arith) id)
                      λ v w'. elim (Bool-cases (is_ok v.code)) [
                        | inl good ↦ rw good (
                            walk-Yields fuel v.layout _ end v.out (ground arith) (ground arith) le
                              (omega arith) (w' good))
                        | inr bad ↦ rw bad λ h. cc
                      ])
            ]
        | inr last ↦ rw last (λ _. w)
      ]

-- The container test passes only where the container's 32-bit total fits the buffer.
pub validate_fields-ok :
    (riff_id form expected size buf_size : ℕ)
    → is_ok (validate_fields riff_id form expected size buf_size) ≡ true
    → (8 + size) % 2 ^ 32 ≤ buf_size
unfolding validate_fields
validate_fields-ok riff_id form expected size buf_size h = ground arith

module _ (buf : Bytes) (bytes : IsBytes buf) (buf_size : ℕ) (fits : buf_size ≤ length buf) where
  -- On a buffer of bytes that is at least `buf_size` long, and whose size field does not wrap the
  -- 32-bit total (or with `buf_size` below 12), the parser makes no access outside and ends, and
  -- where it reports ZBC_OK the structure is well formed: sizes of integers of at most 8, counters
  -- within their arrays, and data references and response payloads within the first `buf_size`
  -- bytes.
  pub parse_container-Yields :
      (int_size endian : ℕ)
      → ((size : ℕ) → read_u32_le buf 4 ≡ some size → size + 8 < 2 ^ 32 ⊎ buf_size < 12)
      → Yields
          (λ r. is_ok r.0 ≡ true → IsParsed buf_size r.1)
          (parse_container buf buf_size int_size endian)
  unfolding parse_container riff_validate riff_end
  parse_container-Yields int_size endian no_wrap = elim (Bool-cases (ltb buf_size riff_hdr_size)) [
    | inl short ↦ rw short (λ _. zeroed-IsParsed buf_size)
    | inr header ↦
        let (id, e, _) = read_u32_le_inside buf 0 bytes (ground arith) in
        let (form, f, _) = read_u32_le_inside buf 8 bytes (ground arith) in
        let (size, g, _) = read_u32_le_inside buf 4 bytes (ground arith) in
        elim (Bool-cases (is_ok (validate_fields id form id_semi size buf_size))) [
          | inl valid ↦
              rw (header, e, f, g, valid)
                (walk-Yields buf bytes buf_size fits (suc (8 + size))
                  (record { int_size = int_size; ptr_size = int_size; endian = endian }) 12
                  (8 + size) zeroed (omega arith) (omega arith)
                  (ground
                    (arith, no_wrap size g, validate_fields-ok id form id_semi size buf_size valid))
                  (omega arith) (zeroed-IsParsed buf_size))
          | inr bad ↦ rw (header, e, f, g, bad) (λ _. zeroed-IsParsed buf_size)
        ]
  ]
