-- ===== src/Host/Dispatch.antt =====
-- The dispatch table and zbc_host_process of src/c/zbc_host.c.
pub mod Safety
use semihost.Base.{
  ℕ, ◌/◌, ◌-◌, Bool, true, false, ◌&&◌, not, ◌==◌, Option, none, some, List, [], ◌∷◌, length,
  if◌then◌else◌,
}
use semihost.Host.{HostState, report_proto_error, write_retn_payload, err_unsupported_op}
use semihost.Host.Backend.{
  Field, Backend, open_file, close, write, read, seek, flen, istty, remove, rename, tmpnam, writec,
  write0, readc, clock, time, tickfreq, get_errno, do_system, get_cmdline, heapinfo, do_exit,
  elapsed, timer_config, opendir, readdir, closedir, stat, fstat, mkdir, rmdir, ftruncate, fsync,
  readc_poll, link, symlink, readlink, lstat,
}
use semihost.Host.Callers.{
  Caller, call, is_negative, minus_one, call_path_mode, call_fd, call_fd_write, call_fd_read,
  call_fd_int, call_fd_flen, call_path, call_path_path, call_tmpnam, call_writec, call_write0,
  call_ctx, call_iserror, call_cmdline, call_heapinfo, call_exit, call_elapsed, call_uint,
  call_fd_buf_sz, call_path_buf, call_fd_stat, call_mkdir, call_fd_len64, call_path_buf_sz,
}
use semihost.Host.Request.{Outcome, parse_request}
use semihost.Memory.{◌>>=◌}
use semihost.Opcode.{
  sys_open, sys_close, sys_write, sys_read, sys_seek, sys_flen, sys_istty, sys_remove, sys_rename,
  sys_tmpnam, sys_writec, sys_write0, sys_readc, sys_iserror, sys_clock, sys_time, sys_tickfreq,
  sys_errno, sys_system, sys_get_cmdline, sys_heapinfo, sys_exit, sys_exit_extended, sys_elapsed,
  sys_timer_config, sys_opendir, sys_readdir, sys_closedir, sys_stat, sys_fstat, sys_mkdir,
  sys_rmdir, sys_ftruncate, sys_fsync, sys_readc_poll, sys_link, sys_symlink, sys_readlink,
  sys_lstat,
}
use semihost.Riff.{Rc, ok, is_ok}
use semihost.Riff.Parse.{Parsed}

-- dispatch_entry_t. `field` is `none` for the entry that needs no backend function.
pub record DispatchEntry : Type 0 where
  pub opcode : ℕ
  pub field : Option Field
  pub wants_errno : Bool
  pub caller : Caller

abbrev entry : ℕ → Option Field → Bool → Caller → DispatchEntry
entry op f e c = record { opcode = op; field = f; wants_errno = e; caller = c }

-- dispatch_table, without its end marker
unfoldable pub dispatch_table : List DispatchEntry
dispatch_table =
    entry sys_open (some open_file) true call_path_mode
    ∷ entry sys_close (some close) true call_fd
    ∷ entry sys_write (some write) true call_fd_write
    ∷ entry sys_read (some read) true call_fd_read
    ∷ entry sys_seek (some seek) true call_fd_int
    ∷ entry sys_flen (some flen) true call_fd_flen
    ∷ entry sys_istty (some istty) false call_fd
    ∷ entry sys_remove (some remove) true call_path
    ∷ entry sys_rename (some rename) true call_path_path
    ∷ entry sys_tmpnam (some tmpnam) true call_tmpnam
    ∷ entry sys_writec (some writec) false call_writec
    ∷ entry sys_write0 (some write0) false call_write0
    ∷ entry sys_readc (some readc) false call_ctx
    ∷ entry sys_iserror none false call_iserror
    ∷ entry sys_clock (some clock) false call_ctx
    ∷ entry sys_time (some time) false call_ctx
    ∷ entry sys_tickfreq (some tickfreq) false call_ctx
    ∷ entry sys_errno (some get_errno) false call_ctx
    ∷ entry sys_system (some do_system) false call_path
    ∷ entry sys_get_cmdline (some get_cmdline) false call_cmdline
    ∷ entry sys_heapinfo (some heapinfo) false call_heapinfo
    ∷ entry sys_exit (some do_exit) false call_exit
    ∷ entry sys_exit_extended (some do_exit) false call_exit
    ∷ entry sys_elapsed (some elapsed) false call_elapsed
    ∷ entry sys_timer_config (some timer_config) true call_uint
    ∷ entry sys_opendir (some opendir) true call_path
    ∷ entry sys_readdir (some readdir) true call_fd_buf_sz
    ∷ entry sys_closedir (some closedir) true call_fd
    ∷ entry sys_stat (some stat) true call_path_buf
    ∷ entry sys_fstat (some fstat) true call_fd_stat
    ∷ entry sys_mkdir (some mkdir) true call_mkdir
    ∷ entry sys_rmdir (some rmdir) true call_path
    ∷ entry sys_ftruncate (some ftruncate) true call_fd_len64
    ∷ entry sys_fsync (some fsync) true call_fd
    ∷ entry sys_readc_poll (some readc_poll) false call_ctx
    ∷ entry sys_link (some link) true call_path_path
    ∷ entry sys_symlink (some symlink) true call_path_path
    ∷ entry sys_readlink (some readlink) true call_path_buf_sz
    ∷ entry sys_lstat (some lstat) true call_path_buf
    ∷ []

-- The search of zbc_host_process
unfoldable pub find_entry : List DispatchEntry → ℕ → Option DispatchEntry
find_entry [] opcode = none
find_entry (d ∷ ds) opcode = if d.opcode == opcode then some d else find_entry ds opcode

unfoldable pub dispatch_lookup : ℕ → Option DispatchEntry
unfolding dispatch_table find_entry
dispatch_lookup opcode = find_entry dispatch_table opcode

-- ENOSYS
abbrev pub enosys : ℕ
enosys = 38

-- `open` is the table's first field, so its offset is 0.
abbrev pub at_offset_zero : Option Field → Bool
at_offset_zero none = true
at_offset_zero (some open_file) = true
at_offset_zero (some _) = false

module _ {S : Type 0} (be : Backend S) where
  abbrev errno_of : Bool → S → ℕ × S
  errno_of true b = be.errno b
  errno_of false b = (0, b)

  -- The wrapper's call, errno and response
  unfoldable pub run_entry :
      DispatchEntry → Field → HostState → ℕ → Parsed → S → Option (HostState × S)
  run_entry d f s riff_addr p b =
      let half = length s.work_buf / 2 in
      call be s.work_buf half d.caller f p b >>= λ r.
      let failing = d.wants_errno && is_negative r.0.result && be.has get_errno in
      let e = errno_of failing r.1 in
      write_retn_payload s riff_addr p r.0.result e.0 r.0.payload >>= λ s'. some (s', e.1)

  -- The body of the search loop on the entry found
  unfoldable pub dispatch : DispatchEntry → HostState → ℕ → Parsed → S → Option (HostState × S)
  unfolding run_entry
  dispatch d s riff_addr p b = elim d.field [
    | none ↦ run_entry d open_file s riff_addr p b
    | some f ↦
        if not (be.has f) && not (at_offset_zero (some f))
        then (write_retn_payload s riff_addr p minus_one enosys none >>= λ s'. some (s', b))
        else if not (be.has f)
        then none
        else run_entry d f s riff_addr p b
  ]

  -- zbc_host_process behind its NULL tests
  unfoldable pub host_process : (ℕ → ℕ) → HostState → ℕ → S → Option (Rc × HostState × S)
  host_process guest s riff_addr b = parse_request guest s riff_addr >>= λ o.
      if not (is_ok o.code)
      then some (o.code, o.host, b)
      else elim (dispatch_lookup o.parsed.opcode) [
        | none ↦
            some (ok, report_proto_error o.host riff_addr (some o.parsed) err_unsupported_op, b)
        | some d ↦ dispatch d o.host riff_addr o.parsed b >>= λ r. some (ok, r.0, r.1)
      ]
