-- ===== src/Ansi/Secure/Operations.antt =====
-- The calls that the secure backend's functions that open and close files make, src/c/zbc_ansi_secure.c.
use semihost.Base.{
  ℕ, suc, ◌≤◌, ◌<◌, Bool, true, false, ◌==◌, ltb, ◌&&◌, ◌||◌, if◌then◌else◌, some, ◌∷◌, ◌≡◌, refl,
  Bool-cases, Option-cases, inl, inr, arith,
}
use semihost.Ansi.Fds.{
  FdState, Stream, file, first_fd, int_max, is_outside, fd_alloc, fd_free, fd_get,
}
use semihost.Ansi.Fds.Invariant.{file_of}
use semihost.Ansi.Fds.Laws.{others, fd_alloc-IsAllocated}
use semihost.Ansi.Fds.Freed.{fd_free-IsFreed}
use semihost.Ansi.Secure.{
  Run, returned, fail, set_errno, set_fds, reported, invoke, take_file, open_resolved,
  has_mode_string, is_negative, mode_is_write, ansi_open, ansi_close,
}
use semihost.Ansi.Secure.Confined.{
  IsWritable, IsSafe, IsHeld, IsGood, resolved-IsHostPath, flag_kept,
}
use semihost.Ansi.Secure.Guards.{
  later-IsHeld, invoke-IsHeld, reported-IsHeld, if_ready-Yields, if_valid-Yields, if_open-Yields,
}
use semihost.Ansi.State.{
  AnsiState, Os, OsCall, fopen, fclose, has_flag, flag_read_only, write_blocked,
}
use semihost.Ansi.Validate.Safety.{IsResolved}
use semihost.Memory.{Bytes, Yields, Yields-bind}

-- The descriptor below a FILE pointer that secure_get_file finds
get-file_of :
    (s : FdState) (fd_num : ℕ) (fp : Stream)
    → first_fd ≤ fd_num
    → fd_get s fd_num ≡ some fp
    → (p : ℕ) × (file_of s fd_num ≡ some p)
unfolding fd_get
get-file_of s fd_num fp low h =
    let a : (fd_num == 0) ≡ false = ground arith in
    let b : (fd_num == 1) ≡ false = ground arith in
    let c : (fd_num == 2) ≡ false = ground arith in
    elim (Bool-cases (is_outside fd_num)) [
      | inl e ↦ absurd (cc (rw (a, b, c, e) at h))
      | inr e ↦ elim (Option-cases (file_of s fd_num)) [
        | inl f ↦ absurd (cc (rw (a, b, c, e, f) at h))
        | inr (p, f) ↦ (p, f)
      ]
    ]

-- A mode that writes passes the test of the read-only flag only where the flag is off.
writable : (w flag : Bool) → (w && flag) ≡ false → w ≡ true → flag ≡ false
writable true true h e = h
writable true false h e = refl
writable false flag h e = absurd (cc)

module _ {W : Type 0} (os : Os W) (s : AnsiState) (n : ℕ) where
  abbrev same : n ≤ n
  same = omega arith

  take_file-Yields :
      (r : Run W) (fp : ℕ)
      → IsHeld s n r
      → n < int_max
      → Yields (IsGood s (suc n)) (take_file os r fp)
  unfolding take_file
  take_file-Yields r fp ((dir, rules, flags, policy, full, low, (free, table)), calls) bound =
      Yields-bind _ (IsGood s (suc n)) (fd_alloc r.state.fds fp) _
        (fd_alloc-IsAllocated free r.state.fds fp table (omega arith))
        λ a (given, _, next).
          let next_run = set_fds r a.1 in
          let held : IsHeld s (suc n) next_run =
            ((dir, rules, flags, policy, full, omega arith, (others free, given)), calls) in
          elim (Bool-cases (is_negative a.0)) [
            | inl e ↦ rw e (
                invoke-IsHeld os s (suc n) (suc n) (omega arith) (fclose (file fp)) next_run held
                  tt)
            | inr e ↦ rw e held
          ]

  -- The files that ansi_close closes are in the table.
  closed :
      (fd : ℕ) (r : Run W) (fp : Stream)
      → IsHeld s n r
      → first_fd ≤ fd
      → fd_get r.state.fds fd ≡ some fp
      → Yields (IsGood s n) (
          let (a, r) = invoke os (fclose fp) r in
          if a.result == 0
          then some (returned 0 (set_fds r (fd_free r.state.fds fd)))
          else some (fail r a.errno))
  unfolding invoke
  closed fd r fp h low there =
      let ((dir, rules, flags, policy, full, next_low, (free, table)), calls) =
        invoke-IsHeld os s n n same (fclose fp) r h tt in
      let (p, found) = get-file_of r.state.fds fd fp low there in
      let (i, after, _, next) = fd_free-IsFreed free r.state.fds fd p table low found in
      elim (Bool-cases ((invoke os (fclose fp) r).0.result == 0)) [
        | inl e ↦
            rw e ((dir, rules, flags, policy, full, omega arith, ((i, fd) ∷ free, after)), calls)
        | inr e ↦ rw e ((dir, rules, flags, policy, full, next_low, (free, table)), calls)
      ]

  open_resolved-Yields :
      (mode len : ℕ) (r : Run W)
      → IsHeld s n r
      → IsResolved s (mode_is_write mode) r.state.path_buf len
      → (mode_is_write mode ≡ true → IsWritable s)
      → n < int_max
      → Yields (IsGood s (suc n)) (open_resolved os r mode)
  unfolding open_resolved
  open_resolved-Yields mode len r h found w bound =
      let c = fopen r.state.path_buf mode in
      let run = (invoke os c r).1 in
      let safe : IsSafe s c =
        (resolved-IsHostPath s (mode_is_write mode) r.state.path_buf len found, w) in
      let held = invoke-IsHeld os s n n same c r h safe in
      elim (Bool-cases (has_mode_string mode)) [
        | inr e ↦ rw e (later-IsHeld os s n (suc n) (omega arith) r h)
        | inl e ↦ elim (Bool-cases ((invoke os c r).0.result == 0)) [
          | inl z ↦ rw (e, z) (later-IsHeld os s n (suc n) (omega arith) run held)
          | inr z ↦ rw (e, z) (take_file-Yields run (invoke os c r).0.result held bound)
        ]
      ]

  pub ansi_open-Yields :
      (path : Bytes) (mode : ℕ) (r : Run W)
      → IsHeld s n r
      → n < int_max
      → Yields (IsGood s (suc n)) (ansi_open os path mode r)
  unfolding ansi_open
  ansi_open-Yields path mode r h bound =
      let more : n ≤ suc n = omega arith in
      if_ready-Yields os s n (suc n) more r _ h
        (elim (Bool-cases (mode_is_write mode && has_flag r.state flag_read_only)) [
          | inl e ↦ rw e (
              later-IsHeld os s n (suc n) more (reported r (some write_blocked))
                (reported-IsHeld os s n n same r (some write_blocked) h))
          | inr e ↦ rw e (
              if_valid-Yields os s n (suc n) more r path (mode_is_write mode) _ h
                λ v len held found.
                  open_resolved-Yields mode len v held found
                    (λ w.
                      flag_kept s.flags r.state.flags flag_read_only false h.0.2 (writable _ _ e w))
                    bound)
        ])

  pub ansi_close-Yields :
      (fd : ℕ) (r : Run W) → IsHeld s n r → Yields (IsGood s n) (ansi_close os fd r)
  unfolding ansi_close
  ansi_close-Yields fd r h =
      if_ready-Yields os s n n same r _ h (elim (Bool-cases (ltb fd first_fd || is_negative fd)) [
        | inl e ↦ rw e h
        | inr e ↦ rw e (
            if_open-Yields os s n n same r fd _ h λ fp there. closed fd r fp h (ground arith) there)
      ])

  -- A call that is always allowed
  pub free_call :
      (c : OsCall) (r : Run W) → IsSafe s c → IsHeld s n r → IsHeld s n (invoke os c r).1
  free_call c r safe h = invoke-IsHeld os s n n same c r h safe

  pub errno_if :
      (b : Bool) (r : Run W) (errno : ℕ)
      → IsHeld s n r
      → IsHeld s n (if b then set_errno r errno else r)
  errno_if true r errno h = h
  errno_if false r errno h = h
