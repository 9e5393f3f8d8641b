-- ===== src/Host/Wire.antt =====
-- What read_guest puts into the work buffer: the guest's bytes, and the numbers read back from them.
use semihost.Base.{
  ℕ, zero, suc, ◌+◌, ◌%◌, ◌^◌, ◌<◌, ◌≤◌, some, [], ◌++◌, ◌≡◌, refl, ap, ◌∙◌, arith, length,
  length-append, All-append, All-append_right, subst, sym, take, drop, take-append-drop,
  length-take, length-drop,
}
use semihost.Host.{guest_bytes}
use semihost.Memory.{Bytes, IsByte, IsBytes, load, write_bytes, write_bytes_over}
use semihost.Word.{u64, make_fourcc, read_u32_le}

-- The guest's byte at `addr + off`, and the 32-bit number there
abbrev pub wire_u8 : (ℕ → ℕ) → ℕ → ℕ → ℕ
wire_u8 guest addr off = guest (u64 (addr + off)) % 2 ^ 8

abbrev pub wire_u32 : (ℕ → ℕ) → ℕ → ℕ → ℕ
wire_u32 guest addr off =
    make_fourcc (wire_u8 guest addr off) (wire_u8 guest addr (off + 1))
      (wire_u8 guest addr (off + 2)) (wire_u8 guest addr (off + 3))

module _ (guest : ℕ → ℕ) where
  pub length-guest_bytes : (addr n : ℕ) → length (guest_bytes guest addr n) ≡ n
  unfolding guest_bytes
  length-guest_bytes addr zero = refl
  length-guest_bytes addr (suc n) = ap suc (length-guest_bytes (addr + 1) n)

  guest_bytes-IsBytes : (addr n : ℕ) → IsBytes (guest_bytes guest addr n)
  unfolding guest_bytes
  guest_bytes-IsBytes addr zero = tt
  guest_bytes-IsBytes addr (suc n) = (omega arith, guest_bytes-IsBytes (addr + 1) n)

  load-guest_bytes :
      (addr n i : ℕ) (post : Bytes)
      → i < n
      → load (guest_bytes guest addr n ++ post) i ≡ some (wire_u8 guest addr i)
  unfolding guest_bytes load
  load-guest_bytes addr zero i post h = absurd (omega arith)
  load-guest_bytes addr (suc n) zero post h = ap (λ a. some (guest (u64 a) % 2 ^ 8)) (omega arith)
  load-guest_bytes addr (suc n) (suc i) post h =
      load-guest_bytes (addr + 1) n i post (omega arith)
      ∙ ap (λ a. some (guest (u64 a) % 2 ^ 8)) (omega arith)

  pub read_u32_le-guest_bytes :
      (addr n off : ℕ) (post : Bytes)
      → off + 4 ≤ n
      → read_u32_le (guest_bytes guest addr n ++ post) off ≡ some (wire_u32 guest addr off)
  unfolding read_u32_le
  read_u32_le-guest_bytes addr n off post h =
      rw
        (
          load-guest_bytes addr n off post (omega arith),
          load-guest_bytes addr n (off + 1) post (omega arith),
          load-guest_bytes addr n (off + 2) post (omega arith),
          load-guest_bytes addr n (off + 3) post (omega arith),
        )
        refl

  -- The copy leaves the guest's bytes in front of what the buffer held behind them.
  pub copied :
      (buf : Bytes) (addr n : ℕ)
      → IsBytes buf
      → n ≤ length buf
      → (post : Bytes) × (write_bytes buf 0 (guest_bytes guest addr n)
          ≡ some (guest_bytes guest addr n ++ post))
        × (length (guest_bytes guest addr n ++ post) ≡ length buf)
        × IsBytes (guest_bytes guest addr n ++ post)
  copied buf addr n bytes h =
      let whole = take-append-drop n buf in
      let here = guest_bytes guest addr n in
      let same : length (take n buf) ≡ length here =
        omega (arith, length-take n buf, length-guest_bytes addr n) in
      (
        drop n buf,
        ap (λ (b : Bytes). write_bytes b 0 here) (sym whole)
            ∙ write_bytes_over [] (take n buf) (drop n buf) here same,
        omega
            (arith, length-append here (drop n buf), length-drop n buf, length-guest_bytes addr n),
        All-append IsByte here (drop n buf) (guest_bytes-IsBytes addr n)
            (All-append_right IsByte (take n buf) (drop n buf) (subst IsBytes (sym whole) bytes)),
      )
