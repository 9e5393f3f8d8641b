-- ===== src/Host/Confined.antt =====
-- The writes to guest memory of report_proto_error and write_retn_payload, src/c/zbc_host.c.
use semihost.Base.{
  ℕ, ◌+◌, ◌%◌, ◌^◌, ◌<◌, ◌≤◌, Bool, true, false, not, ◌==◌, ltb, Option, none, some, List, [], ◌∷◌,
  ◌⊎◌, ◌≡◌, refl, ◌∙◌, arith, length, take, length-take, replicate, All, Bool-cases, inl, inr,
  All-append, ◌||◌, bit_and, bit_and_mask,
}
use semihost.Host.{
  GuestWrite, HostState, write_guest, signal_proto_error, report_parsed, report_proto_error, needed,
  stage_result, stage_data, write_data, write_fitting, write_retn_payload, err_missing_retn,
  err_retn_too_small,
}
use semihost.Memory.{Bytes, Yields, Yields-bind, Yields-weaken, write_bytes}
use semihost.Native.Writes.{
  HasLength, write_native_uint-Yields, write_u32_le-Yields, write_bytes-Yields,
}
use semihost.Native.{write_native_uint}
use semihost.Riff.{erro_payload_size, id_data, data_hdr_size}
use semihost.Riff.Parse.{Parsed}
use semihost.Riff.Parse.Safety.{IsParsed}
use semihost.Word.{u16_le, u32, u64, write_u32_le}
use semihost.Word.Laws.{pad_size_lem}

-- The block lies in [lo, hi).
abbrev pub Inside : ℕ → ℕ → GuestWrite → Type 0
Inside lo hi w = (lo ≤ w.addr) × (w.addr + length w.bytes ≤ hi)

-- Every write so far lies in [lo, hi).
abbrev pub IsConfined : ℕ → ℕ → HostState → Type 0
IsConfined lo hi s = All (Inside lo hi) s.writes

-- A pointer's data, if any, is shorter than half the address space.
abbrev pub Small : Option Bytes → Type 0
Small none = Unit
Small (some d) = length d < 2 ^ 63

pub signal_proto_error-IsConfined :
    (lo hi : ℕ) (s : HostState) (code : ℕ)
    → IsConfined lo hi s
    → IsConfined lo hi (signal_proto_error s code)
unfolding signal_proto_error
signal_proto_error-IsConfined lo hi s code h = elim (Bool-cases s.notifies) [
  | inl e ↦ rw e h
  | inr e ↦ rw e h
]

-- The block lies in the payload of the request's RETN chunk, or of its ERRO chunk.
abbrev pub IsResponse : ℕ → Parsed → GuestWrite → Type 0
IsResponse riff_addr p w =
    ((p.has_retn ≡ true)
      × Inside (riff_addr + p.retn_payload_offset)
          (riff_addr + p.retn_payload_offset + p.retn_payload_capacity) w)
    ⊎ ((p.has_erro ≡ true)
        × Inside (riff_addr + p.erro_payload_offset)
            (riff_addr + p.erro_payload_offset + p.erro_payload_capacity) w)

-- Every write so far is a response to the request, or one of those that `Old` is about.
abbrev pub OnlyResponses : (GuestWrite → Type 0) → ℕ → Parsed → HostState → Type 0
OnlyResponses Old riff_addr p s = All (λ w. Old w ⊎ IsResponse riff_addr p w) s.writes

weaken_all :
    (P Q : GuestWrite → Type 0) (ws : List GuestWrite)
    → ((w : GuestWrite) → P w → Q w)
    → All P ws
    → All Q ws
weaken_all P Q [] f h = tt
weaken_all P Q (w ∷ ws) f (h, hs) = (f w h, weaken_all P Q ws f hs)

-- What the test on a response chunk tells when it passes
accepted : (has : Bool) (c k : ℕ) → (not has || ltb c k) ≡ false → (has ≡ true) × (k ≤ c)
accepted true c k h = ground arith
accepted false c k h = cc

module _ (riff_addr n : ℕ) (low : riff_addr + n < 2 ^ 64) (p : Parsed) (w : IsParsed n p) where
  -- A write of the response and the ones before it
  held_write :
      (Old : GuestWrite → Type 0) (s : HostState) (addr : ℕ) (src : Bytes)
      → OnlyResponses Old riff_addr p s
      → IsResponse riff_addr p (record { addr = addr; bytes = src })
      → OnlyResponses Old riff_addr p (write_guest s addr src)
  held_write Old s addr src h new =
      All-append (λ w. Old w ⊎ IsResponse riff_addr p w) s.writes
        (record { addr = addr; bytes = src } ∷ []) h (inr new, tt)

  held_signal :
      (Old : GuestWrite → Type 0) (s : HostState) (code : ℕ)
      → OnlyResponses Old riff_addr p s
      → OnlyResponses Old riff_addr p (signal_proto_error s code)
  unfolding signal_proto_error
  held_signal Old s code h = elim (Bool-cases s.notifies) [ inl e ↦ rw e h | inr e ↦ rw e h ]

  report_held :
      (Old : GuestWrite → Type 0) (s : HostState) (code : ℕ)
      → OnlyResponses Old riff_addr p s
      → OnlyResponses Old riff_addr p (report_parsed s riff_addr p code)
  unfolding report_parsed u16_le
  report_held Old s code h =
      elim (Bool-cases (not p.has_erro || ltb p.erro_payload_capacity erro_payload_size)) [
        | inl e ↦ rw e (held_signal Old s code h)
        | inr e ↦
            let (has, room) = accepted p.has_erro p.erro_payload_capacity erro_payload_size e in
            let after = w.erro_after has in
            let within = w.erro_within in
            rw e (
              held_write Old s (u64 (riff_addr + p.erro_payload_offset)) _ h
                (inr (has, (omega arith, omega arith))))
      ]

  module _ (s : HostState) (narrow : s.guest_int_size ≤ 8) where
    stage_result-Yields :
        (result err : ℕ)
        → Yields (λ r. (length r.0 ≡ 24) × (r.1 ≡ s.guest_int_size + 4)) (stage_result s result err)
    unfolding stage_result
    stage_result-Yields result err =
        Yields-bind (HasLength 24) _
          (write_native_uint (replicate 24 0) 0 result s.guest_int_size s.guest_endianness) _
          (write_native_uint-Yields (replicate 24 0) 0 result s.guest_int_size s.guest_endianness
            (omega arith))
          λ b l.
            Yields-bind (HasLength (length b)) _ (write_u32_le b s.guest_int_size (u32 err)) _
              (write_u32_le-Yields b s.guest_int_size (u32 err) (omega arith)) λ c m. (m ∙ l, refl)

  stage_data-Yields :
      (staged : Bytes) (pos : ℕ) (d : Bytes)
      → pos + 12 ≤ length staged
      → Yields (λ r. (length r.0 ≡ length staged) × (r.1 ≡ pos + 12)) (stage_data staged pos d)
  unfolding stage_data
  stage_data-Yields staged pos d h =
      Yields-bind (HasLength (length staged)) _ (write_u32_le staged pos id_data) _
        (write_u32_le-Yields staged pos id_data (omega arith))
        λ b l.
          Yields-bind (HasLength (length b)) _ (write_u32_le b (pos + 4) (data_hdr_size + length d))
            _ (write_u32_le-Yields b (pos + 4) (data_hdr_size + length d) (omega arith))
            λ c m.
              Yields-bind (HasLength (length c)) _ (write_bytes c (pos + 8) _) _
                (write_bytes-Yields c (pos + 8) _ (omega arith)) λ e k. (k ∙ m ∙ l, omega arith)

  -- A place of the RETN payload, from its `from`-th byte on
  abbrev retn_addr : ℕ
  retn_addr = u64 (riff_addr + p.retn_payload_offset)

  module _ (Old : GuestWrite → Type 0) where
    abbrev Held : HostState → Type 0
    Held s = OnlyResponses Old riff_addr p s

    write_data-Held :
        (s : HostState) (pos : ℕ) (d : Bytes)
        → p.has_retn ≡ true
        → pos + (length d + length d % 2) ≤ p.retn_payload_capacity
        → Held s
        → Held (write_data s retn_addr pos d)
    unfolding write_data
    write_data-Held s pos d has room h =
        let after = w.retn_after has in
        let within = w.retn_within in
        let held =
          held_write Old s (u64 (retn_addr + pos)) d h (inl (has, (omega arith, omega arith))) in
        elim (Bool-cases (not (bit_and (data_hdr_size + length d) 1 == 0))) [
          | inl odd ↦ rw odd (
              held_write Old (write_guest s (u64 (retn_addr + pos)) d)
                (u64 (retn_addr + pos + length d)) (0 ∷ []) held
                (inl
                  (has, (omega arith, ground (arith, bit_and_mask 1 (data_hdr_size + length d))))))
          | inr even ↦ rw even held
        ]

    write_head-Held :
        (s : HostState) (src : Bytes) (k : ℕ)
        → p.has_retn ≡ true
        → k ≤ p.retn_payload_capacity
        → Held s
        → Held (write_guest s retn_addr (take k src))
    write_head-Held s src k has room h =
        let after = w.retn_after has in
        let within = w.retn_within in
        held_write Old s retn_addr (take k src) h
          (inl (has, (omega arith, omega (arith, length-take k src))))

    write_fitting-Yields :
        (s : HostState) (result err : ℕ) (payload : Option Bytes)
        → s.guest_int_size ≤ 8
        → Small payload
        → p.has_retn ≡ true
        → needed s.guest_int_size payload ≤ p.retn_payload_capacity
        → Held s
        → Yields Held (write_fitting s retn_addr result err payload)
    unfolding write_fitting needed
    write_fitting-Yields s result err none narrow small has room h =
        Yields-bind _ Held (stage_result s result err) _ (stage_result-Yields s narrow result err)
          λ r (_, l). write_head-Held s r.0 r.1 has (omega arith) h
    write_fitting-Yields s result err (some d) narrow small has room h =
        Yields-bind _ Held (stage_result s result err) _ (stage_result-Yields s narrow result err)
          λ r (m, l). elim (Bool-cases (ltb 0 (length d))) [
            | inr empty ↦ rw empty (write_head-Held s r.0 r.1 has (ground arith) h)
            | inl more ↦
                let padded = pad_size_lem (data_hdr_size + length d) (omega arith) in
                let bound : r.1 + 12 + (length d + length d % 2) ≤ p.retn_payload_capacity =
                  ground arith in
                rw more (
                  Yields-bind _ Held (stage_data r.0 r.1 d) _
                    (stage_data-Yields r.0 r.1 d (omega arith))
                    λ t (_, at).
                      write_data-Held (write_guest s retn_addr (take t.1 t.0)) t.1 d has
                        (omega arith) (write_head-Held s t.0 t.1 has (omega arith) h))
          ]

    -- For a well-formed request of `n` bytes at an address whose end does not wrap, whatever the
    -- call's result and errno, write_retn_payload makes no access outside the staged array, ends, and
    -- writes to guest memory only inside the payload of the request's RETN chunk or of its ERRO chunk,
    -- and only where the request has that chunk. The guest's integers have at most 8 bytes, and the
    -- data is smaller than 2 ^ 63 bytes.
    pub write_retn_payload-Yields :
        (s : HostState) (result err : ℕ) (payload : Option Bytes)
        → s.guest_int_size ≤ 8
        → Small payload
        → Held s
        → Yields Held (write_retn_payload s riff_addr p result err payload)
    unfolding write_retn_payload report_proto_error
    write_retn_payload-Yields s result err payload narrow small h =
        elim (Bool-cases (not p.has_retn)) [
          | inl missing ↦ rw missing (report_held Old s err_missing_retn h)
          | inr has ↦
              elim (Bool-cases (ltb p.retn_payload_capacity (needed s.guest_int_size payload))) [
                | inl short ↦ rw (has, short) (report_held Old s err_retn_too_small h)
                | inr room ↦
                    rw (has, room)
                      (write_fitting-Yields s result err payload narrow small (ground arith)
                        (ground arith) h)
              ]
        ]

  -- The responses lie in the request, behind the headers of its container and first chunk.
  response_Inside :
      (w : GuestWrite)
      → Inside (riff_addr + 20) (riff_addr + n) w ⊎ IsResponse riff_addr p w
      → Inside (riff_addr + 20) (riff_addr + n) w
  response_Inside v (inl h) = h
  response_Inside v (inr (inl (has, (lo, hi)))) =
      let after = w.retn_after has in let within = w.retn_within in (omega arith, omega arith)
  response_Inside v (inr (inr (has, (lo, hi)))) =
      let after = w.erro_after has in let within = w.erro_within in (omega arith, omega arith)

  abbrev InRequest : GuestWrite → Type 0
  InRequest = Inside (riff_addr + 20) (riff_addr + n)

  confined :
      (s : HostState)
      → OnlyResponses InRequest riff_addr p s
      → IsConfined (riff_addr + 20) (riff_addr + n) s
  confined s h = weaken_all _ InRequest s.writes response_Inside h

  unconfined :
      (s : HostState)
      → IsConfined (riff_addr + 20) (riff_addr + n) s
      → OnlyResponses InRequest riff_addr p s
  unconfined s h = weaken_all InRequest _ s.writes (λ v k. inl k) h

  pub report_parsed-IsConfined :
      (s : HostState) (code : ℕ)
      → IsConfined (riff_addr + 20) (riff_addr + n) s
      → IsConfined (riff_addr + 20) (riff_addr + n) (report_parsed s riff_addr p code)
  report_parsed-IsConfined s code h =
      confined (report_parsed s riff_addr p code) (report_held InRequest s code (unconfined s h))

  pub write_retn_payload-IsConfined :
      (s : HostState) (result err : ℕ) (payload : Option Bytes)
      → s.guest_int_size ≤ 8
      → Small payload
      → IsConfined (riff_addr + 20) (riff_addr + n) s
      → Yields
          (IsConfined (riff_addr + 20) (riff_addr + n))
          (write_retn_payload s riff_addr p result err payload)
  write_retn_payload-IsConfined s result err payload narrow small h =
      Yields-weaken _ _ (write_retn_payload s riff_addr p result err payload)
        (write_retn_payload-Yields InRequest s result err payload narrow small (unconfined s h))
        λ t k. confined t k
