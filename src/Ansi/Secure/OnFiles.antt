-- ===== src/Ansi/Secure/OnFiles.antt =====
-- The calls that the secure backend's functions on open files make, src/c/zbc_ansi_secure.c.
use semihost.Base.{
  ℕ, ◌≤◌, Bool, true, false, ◌==◌, ltb, ◌||◌, if◌then◌else◌, none, Bool-cases, Option-cases, inl,
  inr, arith,
}
use semihost.Ansi.Fds.{Stream, fd_get}
use semihost.Ansi.Secure.{
  Run, set_errno, invoke, measure, is_negative_long, ansi_read, ansi_write, ansi_seek, ansi_flen,
  ansi_fstat, ansi_ftruncate, ansi_fsync,
}
use semihost.Ansi.Secure.Confined.{IsHeld, IsGood}
use semihost.Ansi.Secure.Guards.{
  if_ready-Yields, if_writable-Yields, if_open-Yields, status_call-Yields, checked_call-Yields,
}
use semihost.Ansi.State.{
  AnsiState, Os, fread, fwrite, fseek, ftell, ferror, fflush, fstat, fsync, ftruncate,
}
use semihost.Memory.{Bytes, Yields, Yields-if}
use semihost.Ansi.Secure.Operations.{free_call, errno_if}

module _ {W : Type 0} (os : Os W) (s : AnsiState) (n : ℕ) where
  abbrev same : n ≤ n
  same = omega arith

  pub ansi_read-Yields :
      (fd count : ℕ) (r : Run W) → IsHeld s n r → Yields (IsGood s n) (ansi_read os fd count r)
  unfolding ansi_read
  ansi_read-Yields fd count r h = if_ready-Yields os s n n same r _ h (
      if_open-Yields os s n n same r fd _ h λ fp there.
        let run = (invoke os (fread fp count) r).1 in
        let held = free_call os s n (fread fp count) r tt h in
        elim (Bool-cases (ltb (invoke os (fread fp count) r).0.result count)) [
          | inr e ↦ rw e held
          | inl e ↦ elim (Bool-cases ((invoke os (ferror fp) run).0.result == 0)) [
            | inl z ↦ rw (e, z) (free_call os s n (ferror fp) run tt held)
            | inr z ↦ rw (e, z) (free_call os s n (ferror fp) run tt held)
          ]
        ])

  flushed :
      (b : Bool) (fp : Stream) (r : Run W)
      → IsHeld s n r
      → IsHeld s n (if b then (invoke os (fflush fp) r).1 else r)
  flushed true fp r h = free_call os s n (fflush fp) r tt h
  flushed false fp r h = h

  pub ansi_write-Yields :
      (fd : ℕ) (bytes : Bytes) (count : ℕ) (r : Run W)
      → IsHeld s n r
      → Yields (IsGood s n) (ansi_write os fd bytes count r)
  unfolding ansi_write
  ansi_write-Yields fd bytes count r h = if_ready-Yields os s n n same r _ h (
      if_open-Yields os s n n same r fd _ h λ fp there.
        let a = invoke os (fwrite fp bytes) r in
        let held = free_call os s n (fwrite fp bytes) r tt h in
        flushed (fd == 1 || fd == 2) fp
          (if ltb a.0.result count then set_errno a.1 a.0.errno else a.1)
          (errno_if os s n (ltb a.0.result count) a.1 a.0.errno held))

  pub ansi_seek-Yields :
      (fd pos : ℕ) (r : Run W) → IsHeld s n r → Yields (IsGood s n) (ansi_seek os fd pos r)
  unfolding ansi_seek
  ansi_seek-Yields fd pos r h = if_ready-Yields os s n n same r _ h (
      if_open-Yields os s n n same r fd _ h
        λ fp there. checked_call-Yields os s n n same (fseek fp pos 0) r h tt)

  measure-Yields :
      (fp : Stream) (cur : ℕ) (r : Run W) → IsHeld s n r → Yields (IsGood s n) (measure os fp cur r)
  unfolding measure
  measure-Yields fp cur r h =
      let end = invoke os (fseek fp 0 2) r in
      let pos = invoke os (ftell fp) end.1 in
      let back = invoke os (fseek fp cur 0) pos.1 in
      let at_end = free_call os s n (fseek fp 0 2) r tt h in
      let held =
        free_call os s n (fseek fp cur 0) pos.1 tt (free_call os s n (ftell fp) end.1 tt at_end) in
      elim (Bool-cases (end.0.result == 0)) [
        | inr e ↦ rw e at_end
        | inl e ↦ elim (Bool-cases (is_negative_long pos.0.result)) [
          | inl f ↦ rw (e, f) held
          | inr f ↦ elim (Bool-cases (back.0.result == 0)) [
            | inl g ↦ rw (e, f, g) held
            | inr g ↦ rw (e, f, g) held
          ]
        ]
      ]

  pub ansi_flen-Yields :
      (fd : ℕ) (r : Run W) → IsHeld s n r → Yields (IsGood s n) (ansi_flen os fd r)
  unfolding ansi_flen
  ansi_flen-Yields fd r h =
      Yields-if _ r.state.initialized _ _
        (λ ready. elim (Option-cases (fd_get r.state.fds fd)) [
          | inl f ↦ rw f h
          | inr (fp, f) ↦
              let run = (invoke os (ftell fp) r).1 in
              let held = free_call os s n (ftell fp) r tt h in
              elim (Bool-cases (is_negative_long (invoke os (ftell fp) r).0.result)) [
                | inl g ↦ rw (f, g) held
                | inr g ↦ rw (f, g) (measure-Yields fp (invoke os (ftell fp) r).0.result run held)
              ]
        ])
        (λ idle. h)

  pub ansi_fstat-Yields :
      (fd : ℕ) (r : Run W) → IsHeld s n r → Yields (IsGood s n) (ansi_fstat os fd r)
  unfolding ansi_fstat
  ansi_fstat-Yields fd r h = if_ready-Yields os s n n same r _ h (
      if_open-Yields os s n n same r fd _ h λ fp there.
        status_call-Yields os s n n same (fstat fp) (invoke os (fflush fp) r).1
          (free_call os s n (fflush fp) r tt h) tt)

  pub ansi_fsync-Yields :
      (fd : ℕ) (r : Run W) → IsHeld s n r → Yields (IsGood s n) (ansi_fsync os fd r)
  unfolding ansi_fsync
  ansi_fsync-Yields fd r h = if_ready-Yields os s n n same r _ h (
      if_open-Yields os s n n same r fd _ h λ fp there.
        status_call-Yields os s n n same (fsync fp) (invoke os (fflush fp) r).1
          (free_call os s n (fflush fp) r tt h) tt)

  pub ansi_ftruncate-Yields :
      (fd size : ℕ) (r : Run W) → IsHeld s n r → Yields (IsGood s n) (ansi_ftruncate os fd size r)
  unfolding ansi_ftruncate
  ansi_ftruncate-Yields fd size r h = if_ready-Yields os s n n same r _ h (
      if_writable-Yields os s n n same r none _ h λ w.
        if_open-Yields os s n n same r fd _ h λ fp there.
          status_call-Yields os s n n same (ftruncate fp size) (invoke os (fflush fp) r).1
            (free_call os s n (fflush fp) r tt h) w)
