-- ===== src/Riff/Parse/Safety.antt =====
-- Accesses of parse_subchunks, src/shared/zbc_riff.c, and the well-formed parsed structure.
use semihost.Base.{
  ℕ, zero, suc, ◌+◌, ◌-◌, ◌<◌, ◌≤◌, true, none, some, ◌≡◌, ◌∙◌, arith, length, All, All-set,
  length-set, Bool-cases, inl, inr, leb, ltb, ◌==◌, ◌&&◌, if◌then◌else◌,
}
use semihost.Memory.{Bytes, IsBytes, Yields, Yields-bind, load_byte}
use semihost.Native.Laws.{read_native_int_inside}
use semihost.Riff.{id_parm, id_data, chunk_hdr_size, parm_type_ptr, max_parms, max_data}
use semihost.Riff.Parse.{
  DataRef, Parsed, zeroed, Layout, add_parm, add_data, sub_parm, sub_data, subchunk,
  parse_subchunks,
}
use semihost.Word.Laws.{read_u32_le_inside}

-- A DATA reference is the zeroed one or lies in the first `n` bytes.
abbrev pub Within : ℕ → DataRef → Type 0
Within n r = elim r.ptr [ none ↦ r.size ≡ 0 | some p ↦ p + r.size ≤ n ]

-- The layout's integers have at most 8 bytes, the arrays have their sizes, the counters are within
-- them, every DATA reference lies in the first
-- `n` bytes, and so do the payloads of RETN and ERRO, which come after the container's header and
-- their own one.
pub record IsParsed (n : ℕ) (p : Parsed) : Type 0 where
  pub int_narrow : p.int_size ≤ 8
  pub ptr_narrow : p.ptr_size ≤ 8
  pub parms_length : length p.parms ≡ 8
  pub parm_count_le : p.parm_count ≤ 8
  pub data_length : length p.data_refs ≡ 4
  pub data_count_le : p.data_count ≤ 4
  pub refs_within : All (Within n) p.data_refs
  pub retn_within : p.retn_payload_offset + p.retn_payload_capacity ≤ n
  pub retn_after : p.has_retn ≡ true → 20 ≤ p.retn_payload_offset
  pub erro_within : p.erro_payload_offset + p.erro_payload_capacity ≤ n
  pub erro_after : p.has_erro ≡ true → 20 ≤ p.erro_payload_offset

pub zeroed-IsParsed : (n : ℕ) → IsParsed n zeroed
zeroed-IsParsed n = ground arith

add_parm-IsParsed :
    (n : ℕ) (p : Parsed) (v : ℕ) → p.parm_count < 8 → IsParsed n p → IsParsed n (add_parm p v)
add_parm-IsParsed n p v h w = record {
  int_narrow = w.int_narrow;
  ptr_narrow = w.ptr_narrow;
  parms_length = length-set p.parms p.parm_count v ∙ w.parms_length;
  parm_count_le = omega arith;
  data_length = w.data_length;
  data_count_le = w.data_count_le;
  refs_within = w.refs_within;
  retn_within = w.retn_within;
  retn_after = w.retn_after;
  erro_within = w.erro_within;
  erro_after = w.erro_after;
}

add_data-IsParsed :
    (n : ℕ) (p : Parsed) (ptr size : ℕ)
    → p.data_count < 4
    → ptr + size ≤ n
    → IsParsed n p
    → IsParsed n (add_data p ptr size)
add_data-IsParsed n p ptr size h le w = record {
  int_narrow = w.int_narrow;
  ptr_narrow = w.ptr_narrow;
  parms_length = w.parms_length;
  parm_count_le = w.parm_count_le;
  data_length = length-set p.data_refs p.data_count _ ∙ w.data_length;
  data_count_le = omega arith;
  refs_within = All-set (Within n) p.data_refs p.data_count _ w.refs_within le;
  retn_within = w.retn_within;
  retn_after = w.retn_after;
  erro_within = w.erro_within;
  erro_after = w.erro_after;
}

module _ (buf : Bytes) (bytes : IsBytes buf) (n : ℕ) (n_le : n ≤ length buf) (l : Layout) where
  sub_parm-Yields :
      (out : Parsed) (at size : ℕ)
      → out.parm_count < 8
      → at + size ≤ n
      → IsParsed n out
      → Yields (IsParsed n) (sub_parm buf l out at size)
  unfolding sub_parm
  sub_parm-Yields out at size room inside w = elim (Bool-cases (leb 4 size)) [
    | inl header ↦
        let (t, e, _) = load_byte buf at bytes (ground arith) in
        let value_size = if t == parm_type_ptr then l.ptr_size else l.int_size in
        elim (Bool-cases (leb (4 + value_size) size)) [
          | inl fits ↦
              let (v, r) =
                read_native_int_inside buf (at + 4) value_size l.endian bytes (ground arith) in
              rw (header, e, fits, r) (add_parm-IsParsed n out v room w)
          | inr short ↦ rw (header, e, short) w
        ]
    | inr short ↦ rw short w
  ]

  sub_data-IsParsed :
      (out : Parsed) (at size : ℕ)
      → out.data_count < 4
      → at + size ≤ n
      → IsParsed n out
      → IsParsed n (sub_data out at size)
  unfolding sub_data
  sub_data-IsParsed out at size room inside w = elim (Bool-cases (leb 4 size)) [
    | inl header ↦ rw header (add_data-IsParsed n out (at + 4) (size - 4) room (ground arith) w)
    | inr short ↦ rw short w
  ]

  subchunk-Yields :
      (out : Parsed) (id at size : ℕ)
      → at + size ≤ n
      → IsParsed n out
      → Yields (IsParsed n) (subchunk buf l out id at size)
  unfolding subchunk
  subchunk-Yields out id at size inside w =
      elim (Bool-cases (id == id_parm && ltb out.parm_count max_parms)) [
        | inl parm ↦ rw parm (sub_parm-Yields out at size (ground arith) inside w)
        | inr other ↦ elim (Bool-cases (id == id_data && ltb out.data_count max_data)) [
          | inl found ↦ rw (other, found) (sub_data-IsParsed out at size (ground arith) inside w)
          | inr skip ↦ rw (other, skip) w
        ]
      ]

  -- The loop ends within its fuel: each chunk is at least its header of eight bytes.
  pub parse_subchunks-Yields :
      (fuel pos end : ℕ) (out : Parsed)
      → 0 < fuel
      → end < pos + fuel
      → end ≤ n
      → IsParsed n out
      → Yields (IsParsed n) (parse_subchunks fuel buf l pos end out)
  unfolding parse_subchunks
  parse_subchunks-Yields zero pos end out some_fuel enough le w = absurd (omega arith)
  parse_subchunks-Yields (suc fuel) pos end out some_fuel enough le w =
      elim (Bool-cases (leb (pos + chunk_hdr_size) end)) [
        | inl more ↦
            let (id, e, _) = read_u32_le_inside buf pos bytes (ground arith) in
            let (size, f, _) = read_u32_le_inside buf (pos + 4) bytes (ground arith) in
            elim (Bool-cases (ltb end (pos + chunk_hdr_size + size))) [
              | inl cut ↦ rw (more, e, f, cut) w
              | inr whole ↦
                  rw (more, e, f, whole)
                    (Yields-bind (IsParsed n) (IsParsed n) _ _
                      (subchunk-Yields out id (pos + 8) size (ground arith) w)
                      λ out' w'.
                        parse_subchunks-Yields fuel _ end out' (ground arith) (ground arith) le w')
            ]
        | inr last ↦ rw last w
      ]
