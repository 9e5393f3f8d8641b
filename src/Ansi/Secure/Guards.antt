-- ===== src/Ansi/Secure/Guards.antt =====
-- The guards and calls that the secure backend's functions share, src/c/zbc_ansi_secure.c.
use semihost.Base.{
  ℕ, ◌≤◌, Bool, false, ◌==◌, Option, none, some, [], ◌∷◌, All, All-append, ◌≡◌, Bool-cases,
  Option-cases, inl, inr, arith,
}
use semihost.Ansi.Fds.{Stream, fd_get}
use semihost.Ansi.Secure.{
  Run, Returned, reported, if_ready, invoke, if_writable, if_valid, if_open, status_call,
  checked_call,
}
use semihost.Ansi.State.{AnsiState, Os, OsCall, Violation, has_flag, flag_read_only}
use semihost.Ansi.Validate.{ansi_validate_path}
use semihost.Ansi.Validate.Safety.{IsResolved, IsResolvedWith-IsResolved}
use semihost.Ansi.Validate.Resolves.{ansi_validate_path-Yields}
use semihost.Memory.{Bytes, Yields, Yields-bind}
use semihost.Ansi.Secure.Confined.{
  IsWritable, IsSafe, IsHeld, IsGood, flag_kept, report-IsKept, validated-IsKept, IsResolved-kept,
}

all_any : (bs : Bytes) → All (λ _. Unit {0}) bs
all_any [] = tt
all_any (b ∷ bs) = (tt, all_any bs)

module _ {W : Type 0} (os : Os W) (s : AnsiState) (n m : ℕ) (le : n ≤ m) where
  pub later-IsHeld : (r : Run W) → IsHeld s n r → IsHeld s m r
  later-IsHeld r ((dir, rules, flags, policy, full, low, table), calls) =
      ((dir, rules, flags, policy, full, omega arith, table), calls)

  pub invoke-IsHeld :
      (c : OsCall) (r : Run W) → IsHeld s n r → IsSafe s c → IsHeld s n (invoke os c r).1
  unfolding invoke
  invoke-IsHeld c r (k, calls) safe = (k, All-append (IsSafe s) r.calls (c ∷ []) calls (safe, tt))

  pub reported-IsHeld :
      (r : Run W) (v : Option Violation) → IsHeld s n r → IsHeld s n (reported r v)
  reported-IsHeld r none h = h
  reported-IsHeld r (some v) (k, calls) = (report-IsKept s n r.state v k, calls)

  pub if_ready-Yields :
      (r : Run W) (next : Option (Returned W))
      → IsHeld s n r
      → Yields (IsGood s m) next
      → Yields (IsGood s m) (if_ready r next)
  if_ready-Yields r next h k = elim (Bool-cases r.state.initialized) [
    | inl e ↦ rw e k
    | inr e ↦ rw e (later-IsHeld r h)
  ]

  pub if_writable-Yields :
      (r : Run W) (v : Option Violation) (next : Option (Returned W))
      → IsHeld s n r
      → (IsWritable s → Yields (IsGood s m) next)
      → Yields (IsGood s m) (if_writable os r v next)
  if_writable-Yields r v next h k = elim (Bool-cases (has_flag r.state flag_read_only)) [
    | inl e ↦ rw e (later-IsHeld (reported r v) (reported-IsHeld r v h))
    | inr e ↦ rw e (k (flag_kept s.flags r.state.flags flag_read_only false h.0.2 e))
  ]

  pub if_valid-Yields :
      (r : Run W) (path : Bytes) (for_write : Bool) (next : Run W → ℕ → Option (Returned W))
      → IsHeld s n r
      → ((r : Run W) (len : ℕ)
          → IsHeld s n r
          → IsResolved s for_write r.state.path_buf len
          → Yields (IsGood s m) (next r len))
      → Yields (IsGood s m) (if_valid os r path for_write next)
  unfolding if_valid
  if_valid-Yields r path for_write next (k, calls) then_next =
      let (dir, rules, flags, policy, full, low, table) = k in
      Yields-bind _ (IsGood s m) (ansi_validate_path r.state path for_write) _
        (ansi_validate_path-Yields (λ _. Unit) r.state path for_write tt
          (all_any r.state.sandbox_dir) (all_any path) full policy)
        λ v (size, same, resolved).
          let kept = validated-IsKept s n r.state v.state _ _ same size k in
          elim (Bool-cases v.allowed) [
            | inl e ↦ rw e (
                then_next (record r { state = v.state }) v.resolved_len (kept, calls)
                  (IsResolved-kept s r.state for_write v.state.path_buf v.resolved_len dir rules (
                    IsResolvedWith-IsResolved (λ _. Unit) r.state for_write v.state.path_buf
                      v.resolved_len (resolved e))))
            | inr e ↦ rw e (later-IsHeld (record r { state = v.state }) (kept, calls))
          ]

  pub if_open-Yields :
      (r : Run W) (fd : ℕ) (next : Stream → Option (Returned W))
      → IsHeld s n r
      → ((fp : Stream) → fd_get r.state.fds fd ≡ some fp → Yields (IsGood s m) (next fp))
      → Yields (IsGood s m) (if_open os r fd next)
  unfolding if_open
  if_open-Yields r fd next h k = elim (Option-cases (fd_get r.state.fds fd)) [
    | inl e ↦ rw e (later-IsHeld r h)
    | inr (fp, e) ↦ rw e (k fp e)
  ]

  pub status_call-Yields :
      (c : OsCall) (r : Run W)
      → IsHeld s n r
      → IsSafe s c
      → Yields (IsGood s m) (status_call os c r)
  unfolding status_call
  status_call-Yields c r h safe = elim (Bool-cases ((invoke os c r).0.result == 0)) [
    | inl e ↦ rw e (later-IsHeld (invoke os c r).1 (invoke-IsHeld c r h safe))
    | inr e ↦ rw e (later-IsHeld (invoke os c r).1 (invoke-IsHeld c r h safe))
  ]

  pub checked_call-Yields :
      (c : OsCall) (r : Run W)
      → IsHeld s n r
      → IsSafe s c
      → Yields (IsGood s m) (checked_call os c r)
  unfolding checked_call
  checked_call-Yields c r h safe = elim (Bool-cases ((invoke os c r).0.result == 0)) [
    | inl e ↦ rw e (later-IsHeld (invoke os c r).1 (invoke-IsHeld c r h safe))
    | inr e ↦ rw e (later-IsHeld (invoke os c r).1 (invoke-IsHeld c r h safe))
  ]
