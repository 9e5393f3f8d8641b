-- ===== src/Ansi/Secure.antt =====
-- The secure backend's functions on descriptors, src/c/zbc_ansi_secure.c, and the guards that all
-- its functions share. What the C library and the system do is a parameter; each call of them is
-- kept, in order.
use semihost.Base.{
  ℕ, zero, suc, ◌+◌, ◌-◌, ◌^◌, Bool, true, false, not, ◌==◌, ltb, leb, ◌&&◌, ◌||◌, if◌then◌else◌,
  Option, none, some, List, [], ◌∷◌, ◌++◌, replicate,
}
use semihost.Ansi.Fds.{
  FdState, Stream, stdin, stdout, stderr, file, first_fd, minus_one, fd_alloc, fd_free, fd_get,
}
use semihost.Ansi.State.{
  AnsiState, Os, OsAnswer, OsCall, Violation, fopen, fclose, fread, fwrite, fseek, ftell, ferror,
  fflush, fstat, fsync, ftruncate, report, has_flag, flag_read_only, write_blocked,
}
use semihost.Ansi.Validate.{ansi_validate_path}
use semihost.Memory.{Bytes, ◌>>=◌}
use semihost.Word.{u32}
pub mod Paths
pub mod Confined
pub mod Guards
pub mod Operations
pub mod OnFiles
pub mod OnPaths
pub mod Table
pub mod Session

-- The backend's state, the world that the system works on, and the calls so far
pub record Run (W : Type 0) : Type 0 where
  pub state : AnsiState
  pub world : W
  pub calls : List OsCall

-- A function's result, an `int` or `intmax_t` by its pattern, and the bytes that it stored
pub record Returned (W : Type 0) : Type 0 where
  pub result : ℕ
  pub out : Bytes
  pub run : Run W

-- -1 as an `intmax_t`
abbrev pub minus_one_max : ℕ
minus_one_max = 2 ^ 64 - 1

abbrev pub is_negative : ℕ → Bool
is_negative x = leb (2 ^ 31) x

abbrev pub is_negative_long : ℕ → Bool
is_negative_long x = leb (2 ^ 63) x

-- zbc_ansi_mode_is_write: mode >= 4
abbrev pub mode_is_write : ℕ → Bool
mode_is_write mode = leb 4 mode && not (is_negative mode)

-- Whether zbc_ansi_mode_string gives a string, "r" for 0 to "a+b" for 11
abbrev pub has_mode_string : ℕ → Bool
has_mode_string mode = ltb mode 12

-- if (p == NULL) … else …
abbrev pub on_pointer : {A B : Type 0} → Option A → B → (A → B) → B
on_pointer none absent present = absent
on_pointer (some p) absent present = present p

module _ {W : Type 0} where
  abbrev pub returned : ℕ → Run W → Returned W
  returned n r = record { result = n; out = []; run = r }

  -- state->last_errno = errno
  abbrev pub set_errno : Run W → ℕ → Run W
  set_errno r errno = record r { state = record r.state { last_errno = errno } }

  -- state->last_errno = errno; return -1;
  abbrev pub fail : Run W → ℕ → Returned W
  fail r errno = returned minus_one (set_errno r errno)

  abbrev pub set_fds : Run W → FdState → Run W
  set_fds r fds = record r { state = record r.state { fds = fds } }

  -- if (!state || !state->initialized) return -1;
  abbrev pub if_ready : Run W → Option (Returned W) → Option (Returned W)
  if_ready r next = if r.state.initialized then next else some (returned minus_one r)

  abbrev pub reported : Run W → Option Violation → Run W
  reported r none = r
  reported r (some v) = record r { state = report r.state v }

module _ {W : Type 0} (os : Os W) where
  unfoldable pub invoke : OsCall → Run W → OsAnswer × Run W
  invoke c r =
      let (answer, world) = os.run c r.world in
      (answer, record r { world = world; calls = r.calls ++ (c ∷ []) })

  -- if (state->flags & ZBC_ANSI_FLAG_READ_ONLY) { …; state->last_errno = EACCES; return -1; }
  abbrev pub if_writable : Run W → Option Violation → Option (Returned W) → Option (Returned W)
  if_writable r v next =
      if has_flag r.state flag_read_only then some (fail (reported r v) os.eacces) else next

  -- if (ansi_validate_path(…) != 0) { state->last_errno = EACCES; return -1; }
  unfoldable pub if_valid :
      Run W → Bytes → Bool → (Run W → ℕ → Option (Returned W)) → Option (Returned W)
  if_valid r path for_write next = do
    v ← ansi_validate_path r.state path for_write
    let r = record r { state = v.state }
    if v.allowed then next r v.resolved_len else some (fail r os.eacces)

  -- fp = secure_get_file(state, fd); if (fp == NULL) { state->last_errno = EBADF; return -1; }
  unfoldable pub if_open : Run W → ℕ → (Stream → Option (Returned W)) → Option (Returned W)
  if_open r fd next = on_pointer (fd_get r.state.fds fd) (some (fail r os.ebadf)) next

  -- rc = …; if (rc != 0) state->last_errno = errno; return rc;
  unfoldable pub status_call : OsCall → Run W → Option (Returned W)
  unfolding invoke
  status_call c r =
      let (a, r) = invoke c r in
      some record {
        result = a.result;
        out = a.out;
        run = if a.result == 0 then r else set_errno r a.errno;
      }

  -- if (… != 0) { state->last_errno = errno; return -1; } return 0;
  unfoldable pub checked_call : OsCall → Run W → Option (Returned W)
  unfolding invoke
  checked_call c r =
      let (a, r) = invoke c r in
      if a.result == 0 then some (returned 0 r) else some (fail r a.errno)

  -- fopen gave `fp`
  unfoldable pub take_file : Run W → ℕ → Option (Returned W)
  unfolding invoke
  take_file r fp = do
    (fd, fds) ← fd_alloc r.state.fds fp
    let r = set_fds r fds
    if is_negative fd
        then some (fail (invoke (fclose (file fp)) r).1 os.emfile)
        else some (returned fd r)

  unfoldable pub open_resolved : Run W → ℕ → Option (Returned W)
  unfolding invoke take_file
  open_resolved r mode =
      if has_mode_string mode
      then (let (a, r) = invoke (fopen r.state.path_buf mode) r in
          if a.result == 0 then some (fail r a.errno) else take_file r a.result)
      else some (fail r os.einval)

  unfoldable pub ansi_open : Bytes → ℕ → Run W → Option (Returned W)
  unfolding if_valid open_resolved
  ansi_open path mode r = if_ready r (
      if mode_is_write mode && has_flag r.state flag_read_only
      then some (fail (reported r (some write_blocked)) os.eacces)
      else if_valid r path (mode_is_write mode) λ r _. open_resolved r mode)

  -- fd < ZBC_ANSI_FIRST_FD, where a descriptor with the sign bit is negative
  unfoldable pub ansi_close : ℕ → Run W → Option (Returned W)
  unfolding if_open invoke
  ansi_close fd r = if_ready r (
      if ltb fd first_fd || is_negative fd
      then some (returned 0 r)
      else if_open r fd λ fp.
        let (a, r) = invoke (fclose fp) r in
        if a.result == 0
        then some (returned 0 (set_fds r (fd_free r.state.fds fd)))
        else some (fail r a.errno))

  unfoldable pub ansi_read : ℕ → ℕ → Run W → Option (Returned W)
  unfolding if_open invoke
  ansi_read fd count r = if_ready r (
      if_open r fd λ fp.
        let (a, r) = invoke (fread fp count) r in
        let done : Returned W = record { result = u32 (count - a.result); out = a.out; run = r } in
        if ltb a.result count
        then (let (failed, r) = invoke (ferror fp) r in
            if failed.result == 0
            then some (record done { run = r })
            else some (record done { result = minus_one; run = set_errno r a.errno }))
        else some done)

  unfoldable pub ansi_write : ℕ → Bytes → ℕ → Run W → Option (Returned W)
  unfolding if_open invoke
  ansi_write fd bytes count r = if_ready r (
      if_open r fd λ fp.
        let (a, r) = invoke (fwrite fp bytes) r in
        let r = if ltb a.result count then set_errno r a.errno else r in
        let r = if fd == 1 || fd == 2 then (invoke (fflush fp) r).1 else r in
        some (returned (u32 (count - a.result)) r))

  -- The last argument of fseek: 0 for SEEK_SET, 2 for SEEK_END
  unfoldable pub ansi_seek : ℕ → ℕ → Run W → Option (Returned W)
  unfolding if_open checked_call
  ansi_seek fd pos r = if_ready r (if_open r fd λ fp. checked_call (fseek fp pos 0) r)

  abbrev fail_long : Run W → ℕ → Returned W
  fail_long r errno = returned minus_one_max (set_errno r errno)

  -- cur_pos is known: to the end, and back
  unfoldable pub measure : Stream → ℕ → Run W → Option (Returned W)
  unfolding invoke
  measure fp cur_pos r =
      let (at_end, r) = invoke (fseek fp 0 2) r in
      if at_end.result == 0
      then (let (end_pos, r) = invoke (ftell fp) r in
          let (back, r) = invoke (fseek fp cur_pos 0) r in
          if is_negative_long end_pos.result
          then some (fail_long r end_pos.errno)
          else if back.result == 0
          then some (returned end_pos.result r)
          else some (fail_long r back.errno))
      else some (fail_long r at_end.errno)

  unfoldable pub ansi_flen : ℕ → Run W → Option (Returned W)
  unfolding measure invoke
  ansi_flen fd r =
      if r.state.initialized
      then (on_pointer (fd_get r.state.fds fd) (some (fail_long r os.ebadf)) λ fp.
          let (cur_pos, r) = invoke (ftell fp) r in
          if is_negative_long cur_pos.result
          then some (fail_long r cur_pos.errno)
          else measure fp cur_pos.result r)
      else some (returned minus_one_max r)

  unfoldable pub ansi_fstat : ℕ → Run W → Option (Returned W)
  unfolding if_open invoke status_call
  ansi_fstat fd r = if_ready r (if_open r fd λ fp. status_call (fstat fp) (invoke (fflush fp) r).1)

  unfoldable pub ansi_ftruncate : ℕ → ℕ → Run W → Option (Returned W)
  unfolding if_open invoke status_call
  ansi_ftruncate fd length r = if_ready r (
      if_writable r none
        (if_open r fd λ fp. status_call (ftruncate fp length) (invoke (fflush fp) r).1))

  unfoldable pub ansi_fsync : ℕ → Run W → Option (Returned W)
  unfolding if_open invoke status_call
  ansi_fsync fd r = if_ready r (if_open r fd λ fp. status_call (fsync fp) (invoke (fflush fp) r).1)
