-- ===== src/Ansi/Secure/Session.antt =====
-- Runs of the secure backend, src/c/zbc_ansi_secure.c.
use semihost.Base.{
  ℕ, suc, ◌<◌, Bool, true, false, not, leb, Option, some, [], length, length-replicate, ◌≡◌, refl,
  ◌∙◌, Bool-cases, inl, inr, arith,
}
use semihost.Ansi.Fds.{int_max, first_fd, fd_init}
use semihost.Ansi.Fds.History.{fd_init-IsTable}
use semihost.Ansi.Secure.{Run, Returned}
use semihost.Ansi.Secure.Confined.{IsKept, IsHeld, IsGood, flag_kept}
use semihost.Ansi.Secure.Guards.{later-IsHeld, invoke-IsHeld, reported-IsHeld, if_ready-Yields}
use semihost.Ansi.Secure.OnPaths.{
  ansi_stat-Yields, ansi_lstat-Yields, ansi_readlink-Yields, ansi_remove_file-Yields,
  ansi_rmdir-Yields, ansi_mkdir-Yields, ansi_symlink-Yields, ansi_rename_file-Yields,
  ansi_link-Yields, ansi_opendir-Yields, ansi_readdir-Yields, ansi_closedir-Yields,
  ansi_tmpnam_func-Yields,
}
use semihost.Ansi.Secure.Operations.{ansi_open-Yields, ansi_close-Yields}
use semihost.Ansi.Secure.OnFiles.{
  ansi_read-Yields, ansi_write-Yields, ansi_seek-Yields, ansi_flen-Yields, ansi_fstat-Yields,
  ansi_fsync-Yields, ansi_ftruncate-Yields,
}
use semihost.Ansi.Secure.Paths.{run_command, ansi_do_system, lets_system}
use semihost.Ansi.Secure.Table.{
  Operation, open_file, make_dir, close_file, file_length, stat_file, sync_file, close_dir,
  read_file, seek_file, truncate_file, read_dir, temp_name, write_file, remove_file, remove_dir,
  run_system, stat_path, lstat_path, open_dir, rename_file, link_path, symlink_path, read_symlink,
  perform, zbc_ansi_init,
}
use semihost.Ansi.State.{
  AnsiState, Os, system, system_blocked, has_flag, flag_allow_system, path_buf_max,
}
use semihost.Memory.{Bytes, Yields, Yields-bind, Yields-weaken, store, write_bytes}
use semihost.Native.Writes.{HasLength, write_bytes-Yields, store-Yields}

allowed_by : (b : Bool) → not b ≡ false → b ≡ true
allowed_by true h = refl
allowed_by false h = cc

module _ {W : Type 0} (os : Os W) (s : AnsiState) (n : ℕ) where
  run_command-Yields :
      (command : Bytes) (r : Run W)
      → IsHeld s n r
      → has_flag s flag_allow_system ≡ true
      → Yields (IsGood s n) (run_command os command r)
  unfolding run_command
  run_command-Yields command r ((dir, rules, flags, policy, full, low, table), calls) on =
      elim (Bool-cases (leb path_buf_max (length command))) [
        | inl e ↦ rw e ((dir, rules, flags, policy, full, low, table), calls)
        | inr e ↦ rw e (
            Yields-bind (HasLength (length r.state.path_buf)) _
              (write_bytes r.state.path_buf 0 command) _
              (write_bytes-Yields r.state.path_buf 0 command (ground arith))
              λ b l.
                Yields-bind (HasLength (length b)) (IsGood s n) (store b (length command) 0) _
                  (store-Yields b (length command) 0 (ground arith))
                  λ path_buf k.
                    invoke-IsHeld os s n n (omega arith) (system path_buf)
                      (record r { state = record r.state { path_buf = path_buf } })
                      ((dir, rules, flags, policy, k ∙ l ∙ full, low, table), calls) on)
      ]

  ansi_do_system-Yields :
      (command : Bytes) (r : Run W)
      → IsHeld s n r
      → Yields (IsGood s n) (ansi_do_system os command r)
  unfolding ansi_do_system
  ansi_do_system-Yields command r h =
      let blocked = reported-IsHeld os s n n (omega arith) r (some system_blocked) h in
      if_ready-Yields os s n n (omega arith) r _ h
        (elim (Bool-cases (not (has_flag r.state flag_allow_system))) [
          | inl e ↦ rw e blocked
          | inr e ↦ elim (Bool-cases (lets_system r.state.policy command)) [
            | inr p ↦ rw (e, p) blocked
            | inl p ↦
                rw (e, p)
                  (run_command-Yields command r h
                    (flag_kept s.flags r.state.flags flag_allow_system true h.0.2 (allowed_by _ e)))
          ]
        ])

  stays : (m : Option (Returned W)) → Yields (IsGood s n) m → Yields (IsGood s (suc n)) m
  stays m h = Yields-weaken _ _ m h λ a held. later-IsHeld os s n (suc n) (omega arith) a.run held

  -- While the configuration, with the built-in policy, is kept, and the calls so far were allowed by
  -- it, each function makes no access outside its buffers, ends, and keeps the configuration; each
  -- of its own calls of the system is allowed too: a path that it passes on lies in the sandbox, or
  -- under a rule that allows the access, with no component ".."; with the read-only flag on, it
  -- makes no call that changes a file by its path or cuts it; and it runs a command only with the
  -- flag for it. The table's next new descriptor is below INT_MAX.
  pub perform-IsGood :
      (op : Operation) (r : Run W)
      → IsHeld s n r
      → n < int_max
      → Yields (IsGood s (suc n)) (perform os op r)
  unfolding perform
  perform-IsGood (open_file path mode) r h low = ansi_open-Yields os s n path mode r h low
  perform-IsGood (make_dir path mode) r h low = stays _ (ansi_mkdir-Yields os s n path r h mode)
  perform-IsGood (close_file fd) r h low = stays _ (ansi_close-Yields os s n fd r h)
  perform-IsGood (file_length fd) r h low = stays _ (ansi_flen-Yields os s n fd r h)
  perform-IsGood (stat_file fd) r h low = stays _ (ansi_fstat-Yields os s n fd r h)
  perform-IsGood (sync_file fd) r h low = stays _ (ansi_fsync-Yields os s n fd r h)
  perform-IsGood (close_dir handle) r h low = stays _ (ansi_closedir-Yields os s n handle r h)
  perform-IsGood (read_file fd count) r h low = stays _ (ansi_read-Yields os s n fd count r h)
  perform-IsGood (seek_file fd pos) r h low = stays _ (ansi_seek-Yields os s n fd pos r h)
  perform-IsGood (truncate_file fd size) r h low =
      stays _ (ansi_ftruncate-Yields os s n fd size r h)
  perform-IsGood (read_dir handle size) r h low =
      stays _ (ansi_readdir-Yields os s n handle size r h)
  perform-IsGood (temp_name size id) r h low = stays _ (ansi_tmpnam_func-Yields os s n size id r h)
  perform-IsGood (write_file fd bytes count) r h low =
      stays _ (ansi_write-Yields os s n fd bytes count r h)
  perform-IsGood (remove_file path) r h low = stays _ (ansi_remove_file-Yields os s n path r h)
  perform-IsGood (remove_dir path) r h low = stays _ (ansi_rmdir-Yields os s n path r h)
  perform-IsGood (run_system command) r h low = stays _ (ansi_do_system-Yields command r h)
  perform-IsGood (stat_path path) r h low = stays _ (ansi_stat-Yields os s n path r h)
  perform-IsGood (lstat_path path) r h low = stays _ (ansi_lstat-Yields os s n path r h)
  perform-IsGood (open_dir path) r h low = stays _ (ansi_opendir-Yields os s n path r h)
  perform-IsGood (rename_file old new) r h low =
      stays _ (ansi_rename_file-Yields os s n old r h new)
  perform-IsGood (link_path old new) r h low = stays _ (ansi_link-Yields os s n old r h new)
  perform-IsGood (symlink_path target path) r h low =
      stays _ (ansi_symlink-Yields os s n path r h target)
  perform-IsGood (read_symlink path size) r h low =
      stays _ (ansi_readlink-Yields os s n path r h size)

-- A state that zbc_ansi_init has set up is a configuration with a well-formed table.
pub zbc_ansi_init-IsKept :
    (dir : Bytes) (now : ℕ) → (let s = zbc_ansi_init dir now in IsKept s first_fd s)
unfolding zbc_ansi_init fd_init
zbc_ansi_init-IsKept dir now =
    let zero_byte : ℕ = 0 in
    (
      refl,
      refl,
      refl,
      refl,
      length-replicate path_buf_max zero_byte,
      omega arith,
      ([], fd_init-IsTable),
    )
