-- ===== src/Ansi/Secure/Table.antt =====
-- The secure backend's table of functions on files and paths, and its life cycle,
-- src/c/zbc_ansi_secure.c.
use semihost.Base.{
  ℕ, ◌-◌, Bool, true, false, not, ◌==◌, ltb, leb, ◌&&◌, if◌then◌else◌, Option, none, some, List, [],
  ◌∷◌, ◌++◌, length, take, get_or, map, replicate,
}
use semihost.Ansi.Fds.{file, fd_init}
use semihost.Ansi.Normalize.{slash}
use semihost.Ansi.Secure.{
  Run, Returned, invoke, ansi_open, ansi_close, ansi_read, ansi_write, ansi_seek, ansi_flen,
  ansi_fstat, ansi_ftruncate, ansi_fsync,
}
use semihost.Ansi.Secure.Paths.{
  ansi_remove_file, ansi_rename_file, ansi_tmpnam_func, ansi_do_system, ansi_stat, ansi_opendir,
  ansi_readdir, ansi_closedir, ansi_mkdir, ansi_rmdir, ansi_link, ansi_symlink, ansi_readlink,
  ansi_lstat,
}
use semihost.Ansi.State.{
  AnsiState, Os, fclose, closedir, max_dirs, max_path_rules, path_buf_max, sandbox_dir_max,
}
use semihost.Memory.{Bytes, ◌>>=◌}

-- A call through ansi_secure_backend; a path is a guest's bytes.
pub data Operation : Type 0 where
  open_file make_dir : Bytes → ℕ → Operation
  close_file file_length stat_file sync_file close_dir : ℕ → Operation
  read_file seek_file truncate_file read_dir temp_name : ℕ → ℕ → Operation
  write_file : ℕ → Bytes → ℕ → Operation
  remove_file remove_dir run_system stat_path lstat_path open_dir : Bytes → Operation
  rename_file link_path symlink_path : Bytes → Bytes → Operation
  read_symlink : Bytes → ℕ → Operation

module _ {W : Type 0} (os : Os W) where
  unfoldable pub perform : Operation → Run W → Option (Returned W)
  perform (open_file path mode) r = ansi_open os path mode r
  perform (make_dir path mode) r = ansi_mkdir os path mode r
  perform (close_file fd) r = ansi_close os fd r
  perform (file_length fd) r = ansi_flen os fd r
  perform (stat_file fd) r = ansi_fstat os fd r
  perform (sync_file fd) r = ansi_fsync os fd r
  perform (close_dir handle) r = ansi_closedir os handle r
  perform (read_file fd count) r = ansi_read os fd count r
  perform (seek_file fd pos) r = ansi_seek os fd pos r
  perform (truncate_file fd size) r = ansi_ftruncate os fd size r
  perform (read_dir handle size) r = ansi_readdir os handle size r
  perform (temp_name size id) r = ansi_tmpnam_func os size id r
  perform (write_file fd bytes count) r = ansi_write os fd bytes count r
  perform (remove_file path) r = ansi_remove_file os path r
  perform (remove_dir path) r = ansi_rmdir os path r
  perform (run_system command) r = ansi_do_system os command r
  perform (stat_path path) r = ansi_stat os path r
  perform (lstat_path path) r = ansi_lstat os path r
  perform (open_dir path) r = ansi_opendir os path r
  perform (rename_file old new) r = ansi_rename_file os old new r
  perform (link_path old new) r = ansi_link os old new r
  perform (symlink_path target path) r = ansi_symlink os target path r
  perform (read_symlink path size) r = ansi_readlink os path size r

  -- One call after another
  unfoldable pub perform_all : List Operation → Run W → Option (Run W)
  perform_all [] r = some r
  perform_all (op ∷ ops) r = do a ← perform op r; perform_all ops a.run

  unfoldable pub close_files : List (Option ℕ) → Run W → Run W
  close_files [] r = r
  close_files (none ∷ files) r = close_files files r
  close_files (some fp ∷ files) r = close_files files (invoke os (fclose (file fp)) r).1

  unfoldable pub close_dirs : List (Option ℕ) → Run W → Run W
  close_dirs [] r = r
  close_dirs (none ∷ dirs) r = close_dirs dirs r
  close_dirs (some d ∷ dirs) r = close_dirs dirs (invoke os (closedir d) r).1

  abbrev no_pointer : Option ℕ → Option ℕ
  no_pointer p = none

  unfoldable pub zbc_ansi_cleanup : Run W → Run W
  unfolding close_files close_dirs
  zbc_ansi_cleanup r =
      if r.state.initialized
      then (let r = close_files r.state.fds.files r in
          let r = close_dirs r.state.dirs r in
          record r {
            state = record r.state {
              fds = record r.state.fds { files = map no_pointer r.state.fds.files };
              dirs = map no_pointer r.state.dirs;
              initialized = false;
            };
          })
      else r

-- The sandbox's path with its trailing slash, cut at the buffer's size
unfoldable pub sandbox_path : Bytes → Bytes
sandbox_path dir =
    let dir =
      if leb (sandbox_dir_max - 1) (length dir) then take (sandbox_dir_max - 2) dir else dir in
    if ltb 0 (length dir) && not (get_or dir (length dir - 1) 0 == slash)
    then dir ++ slash ∷ []
    else dir

-- `dir` has no NUL; `now` is what clock() returns.
unfoldable pub zbc_ansi_init : Bytes → ℕ → AnsiState
unfolding sandbox_path
zbc_ansi_init dir now = record {
  sandbox_dir = sandbox_path dir;
  flags = 0;
  path_rules = [];
  policy = none;
  reports = false;
  fds = fd_init;
  dirs = replicate max_dirs none;
  last_errno = 0;
  start_clock = now;
  path_buf = replicate path_buf_max 0;
  initialized = true;
  violations = [];
}

-- Whether the rule was taken, and the state
unfoldable pub zbc_ansi_add_path : AnsiState → Bytes → Bool → Bool × AnsiState
zbc_ansi_add_path s prefix allow_write =
    if leb max_path_rules (length s.path_rules) then (false, s) else (
      true,
      record s {
        path_rules = s.path_rules ++ (record { prefix = prefix; allow_write = allow_write } ∷ []);
      },
    )
