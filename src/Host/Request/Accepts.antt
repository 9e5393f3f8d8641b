-- ===== src/Host/Request/Accepts.antt =====
-- What parse_request of src/c/zbc_host.c leaves for the dispatch.
use semihost.Base.{
  ℕ, ◌+◌, ◌^◌, ◌<◌, ◌≤◌, true, false, not, some, ◌++◌, ◌≡◌, ◌⊎◌, inl, inr, refl, arith, length,
  Bool-cases, ltb, ◌==◌, ◌∙◌,
}
use semihost.Host.{
  HostState, guest_bytes, report_proto_error, err_malformed_riff, err_missing_cnfg,
  err_invalid_chunk,
}
use semihost.Host.Confined.{IsConfined, signal_proto_error-IsConfined, report_parsed-IsConfined}
use semihost.Host.Request.{
  Outcome, adopt_cnfg, require_config, malformed, parse_copied, parse_header, parse_request,
}
use semihost.Host.Wire.{wire_u8, wire_u32, read_u32_le-guest_bytes, copied}
use semihost.Memory.{Bytes, IsBytes, Yields, Yields-bind}
use semihost.Riff.{Rc, is_ok, id_riff, parse_error, buffer_full}
use semihost.Riff.Parse.{Parsed, parse_container}
use semihost.Riff.Parse.Safety.{IsParsed}
use semihost.Riff.Parse.Walk.{parse_container-Yields}
use semihost.Word.{u32, read_u32_le}
use semihost.Word.Laws.{make_fourcc_sum}

-- The container's size on the wire, as parse_request computes it
abbrev pub wire_total : (ℕ → ℕ) → ℕ → ℕ
wire_total guest addr = u32 (4 + 4 + wire_u32 guest addr 4)

module _ (riff_addr n : ℕ) (low : riff_addr + n < 2 ^ 64) where
  abbrev IsHeld : HostState → Type 0
  IsHeld s = IsConfined (riff_addr + 20) (riff_addr + n) s

  -- What the dispatch may rely on
  abbrev pub IsReady : ℕ → HostState → Type 0
  IsReady size s = (s.guest_int_size ≤ 8) × ((length s.work_buf ≡ size) × (n ≤ size)) × IsHeld s

  abbrev pub IsOutcome : ℕ → Outcome → Type 0
  IsOutcome size o =
      IsHeld o.host × (is_ok o.code ≡ true → IsReady size o.host × IsParsed n o.parsed)

  adopt_cnfg-IsReady :
      (size : ℕ) (s : HostState) (p : Parsed)
      → IsParsed n p
      → IsReady size s
      → IsReady size (adopt_cnfg s p)
  unfolding adopt_cnfg
  adopt_cnfg-IsReady size s p w (narrow, l, h) = elim (Bool-cases p.has_cnfg) [
    | inl e ↦ rw e (w.int_narrow, l, h)
    | inr e ↦ rw e (narrow, l, h)
  ]

  require_config-IsOutcome :
      (size : ℕ) (s : HostState) (p : Parsed)
      → IsParsed n p
      → IsReady size s
      → IsOutcome size (require_config s riff_addr p)
  unfolding require_config report_proto_error
  require_config-IsOutcome size s p w (narrow, l, h) = elim (Bool-cases (not s.cnfg_received)) [
    | inl e ↦ rw e (report_parsed-IsConfined riff_addr n low p w s err_missing_cnfg h, λ f. cc)
    | inr e ↦ elim (Bool-cases (not p.has_call)) [
      | inl f ↦
          rw (e, f) (report_parsed-IsConfined riff_addr n low p w s err_invalid_chunk h, λ f. cc)
      | inr f ↦ rw (e, f) (h, λ _. ((narrow, l, h), w))
    ]
  ]

  malformed-IsOutcome :
      (size : ℕ) (s : HostState) (code : Rc)
      → is_ok code ≡ false
      → IsHeld s
      → IsOutcome size (malformed s code)
  malformed-IsOutcome size s code bad h =
      (signal_proto_error-IsConfined _ _ s err_malformed_riff h, λ e. cc)

  parse_copied-Yields :
      (size : ℕ) (s : HostState)
      → IsBytes s.work_buf
      → n ≤ length s.work_buf
      → ((v : ℕ) → read_u32_le s.work_buf 4 ≡ some v → v + 8 < 2 ^ 32 ⊎ n < 12)
      → IsReady size s
      → Yields (IsOutcome size) (parse_copied s riff_addr n)
  unfolding parse_copied
  parse_copied-Yields size s bytes fits no_wrap (narrow, l, h) =
      Yields-bind _ (IsOutcome size)
        (parse_container s.work_buf n s.guest_int_size s.guest_endianness) _
        (parse_container-Yields s.work_buf bytes n fits s.guest_int_size s.guest_endianness no_wrap)
        λ r w. elim (Bool-cases (is_ok r.0)) [
          | inl good ↦ rw good (
              require_config-IsOutcome size (adopt_cnfg s r.1) r.1 (w good)
                (adopt_cnfg-IsReady size s r.1 (w good) (narrow, l, h)))
          | inr bad ↦ rw bad (malformed-IsOutcome size s parse_error refl h)
        ]

wire_u32_lt : (guest : ℕ → ℕ) (addr off : ℕ) → wire_u32 guest addr off < 2 ^ 32
wire_u32_lt guest addr off = omega (
  arith,
  make_fourcc_sum (wire_u8 guest addr off) (wire_u8 guest addr (off + 1))
      (wire_u8 guest addr (off + 2)) (wire_u8 guest addr (off + 3)) (omega arith) (omega arith)
      (omega arith) (omega arith),
)

-- A total that holds a container's header has not wrapped.
total_no_wrap : (size : ℕ) → size < 2 ^ 32 → size + 8 < 2 ^ 32 ⊎ u32 (4 + 4 + size) < 12
total_no_wrap size h = ground arith

module _ (guest : ℕ → ℕ) (riff_addr : ℕ)
    (low : riff_addr + wire_total guest riff_addr < 2 ^ 64) where
  abbrev total : ℕ
  total = wire_total guest riff_addr

  copied_no_wrap :
      (post : Bytes) (v : ℕ)
      → read_u32_le (guest_bytes guest riff_addr total ++ post) 4 ≡ some v
      → v + 8 < 2 ^ 32 ⊎ total < 12
  copied_no_wrap post v e = elim (Bool-cases (ltb total 12)) [
    | inl short ↦ inr (ground arith)
    | inr long ↦
        let same : v ≡ wire_u32 guest riff_addr 4 =
          cc (e, read_u32_le-guest_bytes guest riff_addr total 4 post (ground arith)) in
        rw same (total_no_wrap (wire_u32 guest riff_addr 4) (wire_u32_lt guest riff_addr 4))
  ]

  parse_header-Yields :
      (size id : ℕ) (s : HostState)
      → IsBytes s.work_buf
      → s.guest_int_size ≤ 8
      → length s.work_buf ≡ size
      → IsConfined (riff_addr + 20) (riff_addr + total) s
      → Yields
          (IsOutcome riff_addr total low size)
          (parse_header guest s riff_addr id (wire_u32 guest riff_addr 4))
  unfolding parse_header
  parse_header-Yields size id s bytes narrow l h = elim (Bool-cases (not (id == id_riff))) [
    | inl other ↦ rw other (malformed-IsOutcome riff_addr total low size s parse_error refl h)
    | inr riff ↦ elim (Bool-cases (ltb (length s.work_buf) total)) [
      | inl big ↦ rw (riff, big) (malformed-IsOutcome riff_addr total low size s buffer_full refl h)
      | inr fits ↦
          let (post, e, k, b) = copied guest s.work_buf riff_addr total bytes (ground arith) in
          rw (riff, fits, e)
            (parse_copied-Yields riff_addr total low size
              (record s { work_buf = guest_bytes guest riff_addr total ++ post }) b (ground arith)
              (copied_no_wrap post) (narrow, (k ∙ l, ground arith), h))
    ]
  ]

  -- parse_request
  pub parse_request-Yields :
      (s : HostState)
      → IsBytes s.work_buf
      → 12 ≤ length s.work_buf
      → s.guest_int_size ≤ 8
      → IsConfined (riff_addr + 20) (riff_addr + total) s
      → Yields (IsOutcome riff_addr total low (length s.work_buf)) (parse_request guest s riff_addr)
  unfolding parse_request
  parse_request-Yields s bytes room narrow h =
      let (post, e, k, b) = copied guest s.work_buf riff_addr 12 bytes room in
      rw
        (
          e,
          read_u32_le-guest_bytes guest riff_addr 12 0 post (omega arith),
          read_u32_le-guest_bytes guest riff_addr 12 4 post (omega arith),
        )
        (parse_header-Yields (length s.work_buf) _
          (record s { work_buf = guest_bytes guest riff_addr 12 ++ post }) b narrow k h)
