-- ===== src/Ansi/Secure/Paths.antt =====
-- The secure backend's functions on paths and directories,
-- src/c/zbc_ansi_secure.c. Directory entries and stat buffers are packed by the system parameter's
-- answer.
use semihost.Base.{
  ℕ, ◌+◌, ◌-◌, ◌/◌, ◌%◌, Bool, true, false, not, ◌==◌, ltb, leb, ◌||◌, if◌then◌else◌, Option, none,
  some, List, [], ◌∷◌, ◌++◌, length, take, get_or, set,
}
use semihost.Ansi.Fds.{minus_one}
use semihost.Ansi.Secure.{
  Run, Returned, on_pointer, returned, set_errno, fail, reported, if_ready, invoke, if_writable,
  if_valid, status_call, checked_call, is_negative,
}
use semihost.Ansi.State.{
  Os, Policy, remove, rmdir, opendir, stat, lstat, system, mkdir, rename, hard_link, symlink,
  readlink, readdir, closedir, has_flag, flag_allow_system, max_dirs, path_buf_max,
  first_dir_handle, remove_blocked, rename_blocked, system_blocked,
}
use semihost.Memory.{Bytes, ◌>>=◌, store, write_bytes}

-- The three digits of `%03d`
abbrev digits3 : ℕ → Bytes
digits3 n = (48 + n / 100 % 10) ∷ (48 + n / 10 % 10) ∷ (48 + n % 10) ∷ []

-- Whether a policy that is set lets the command pass
abbrev pub lets_system : Option Policy → Bytes → Bool
lets_system none cmd = true
lets_system (some policy) cmd = elim policy.validate_system [
  | none ↦ true
  | some validate ↦ validate cmd
]

-- The loop for a free slot of dirs, from `slot` on
unfoldable pub free_slot : List (Option ℕ) → ℕ → Option ℕ
free_slot [] slot = none
free_slot (none ∷ dirs) slot = some slot
free_slot (some d ∷ dirs) slot = free_slot dirs (slot + 1)

-- slot < 0 || slot >= ZBC_ANSI_MAX_DIRS || state->dirs[slot] == NULL
unfoldable pub dir_at : {W : Type 0} → Run W → ℕ → Option ℕ
dir_at r handle =
    if ltb handle first_dir_handle || leb (first_dir_handle + max_dirs) handle
    then none
    else get_or r.state.dirs (handle - first_dir_handle) none

module _ {W : Type 0} (os : Os W) where
  unfoldable pub ansi_remove_file : Bytes → Run W → Option (Returned W)
  unfolding if_valid checked_call
  ansi_remove_file path r = if_ready r (
      if_writable os r (some remove_blocked)
        (if_valid os r path true λ r _. checked_call os (remove r.state.path_buf) r))

  -- Behind the first path; old_resolved is the copy of its resolved_len + 1 bytes.
  abbrev pub rename_to : Bytes → Run W → ℕ → Option (Returned W)
  rename_to new_path r old_len =
      let old_resolved = take (old_len + 1) r.state.path_buf in
      if_valid os r new_path true λ r _. checked_call os (rename old_resolved r.state.path_buf) r

  unfoldable pub ansi_rename_file : Bytes → Bytes → Run W → Option (Returned W)
  unfolding if_valid checked_call
  ansi_rename_file old_path new_path r =
      if_ready r
        (if_writable os r (some rename_blocked) (if_valid os r old_path true (rename_to new_path)))

  -- A negative id, which the host does not pass, is left out: `out` is the name and its NUL.
  unfoldable pub ansi_tmpnam_func : ℕ → ℕ → Run W → Option (Returned W)
  ansi_tmpnam_func buf_size id r = if_ready r (
      if ltb buf_size (length r.state.sandbox_dir + 3 + 3 + 4 + 1)
      then some (fail r os.einval)
      else some record {
        result = 0;
        out =
            r.state.sandbox_dir
            ++ (116 ∷ 109 ∷ 112 ∷ (digits3 (id % 1000) ++ (46 ∷ 116 ∷ 109 ∷ 112 ∷ 0 ∷ [])));
        run = r;
      })

  unfoldable pub run_command : Bytes → Run W → Option (Returned W)
  unfolding invoke
  run_command cmd r = if leb path_buf_max (length cmd) then some (fail r os.enametoolong) else (do
    path_buf ← write_bytes r.state.path_buf 0 cmd
    path_buf ← store path_buf (length cmd) 0
    let r = record r { state = record r.state { path_buf = path_buf } }
    let (a, r) = invoke os (system path_buf) r
    some (returned a.result r))

  unfoldable pub ansi_do_system : Bytes → Run W → Option (Returned W)
  unfolding run_command
  ansi_do_system cmd r = if_ready r (
      if not (has_flag r.state flag_allow_system)
      then some (returned minus_one (reported r (some system_blocked)))
      else if lets_system r.state.policy cmd
      then run_command cmd r
      else some (returned minus_one (reported r (some system_blocked))))

  unfoldable pub ansi_stat : Bytes → Run W → Option (Returned W)
  unfolding if_valid status_call
  ansi_stat path r =
      if_ready r (if_valid os r path false λ r _. status_call os (stat r.state.path_buf) r)

  unfoldable pub open_slot : Run W → ℕ → Option (Returned W)
  unfolding invoke
  open_slot r slot =
      let (a, r) = invoke os (opendir r.state.path_buf) r in
      if a.result == 0
      then some (fail r a.errno)
      else some (
          returned (first_dir_handle + slot)
            (record r { state = record r.state { dirs = set r.state.dirs slot (some a.result) } }))

  unfoldable pub ansi_opendir : Bytes → Run W → Option (Returned W)
  unfolding if_valid open_slot free_slot
  ansi_opendir path r = if_ready r (
      if_valid os r path false
        λ r _. on_pointer (free_slot r.state.dirs 0) (some (fail r os.emfile)) (open_slot r))

  unfoldable pub ansi_readdir : ℕ → ℕ → Run W → Option (Returned W)
  unfolding invoke dir_at
  ansi_readdir handle buf_size r = if_ready r (
      on_pointer (dir_at r handle) (some (fail r os.ebadf)) λ d.
        let (a, r) = invoke os (readdir d buf_size) r in
        let errno = if a.errno == 0 then os.einval else a.errno in
        some record {
          result = a.result;
          out = a.out;
          run = if is_negative a.result then set_errno r errno else r;
        })

  unfoldable pub ansi_closedir : ℕ → Run W → Option (Returned W)
  unfolding invoke dir_at
  ansi_closedir handle r = if_ready r (
      on_pointer (dir_at r handle) (some (fail r os.ebadf)) λ d.
        let (a, r) = invoke os (closedir d) r in
        let dirs = set r.state.dirs (handle - first_dir_handle) none in
        let r = record r { state = record r.state { dirs = dirs } } in
        if a.result == 0 then some (returned 0 r) else some (fail r a.errno))

  unfoldable pub ansi_mkdir : Bytes → ℕ → Run W → Option (Returned W)
  unfolding if_valid status_call
  ansi_mkdir path mode r = if_ready r (
      if_writable os r none
        (if_valid os r path true λ r _. status_call os (mkdir r.state.path_buf mode) r))

  unfoldable pub ansi_rmdir : Bytes → Run W → Option (Returned W)
  unfolding if_valid status_call
  ansi_rmdir path r = if_ready r (
      if_writable os r none
        (if_valid os r path true λ r _. status_call os (rmdir r.state.path_buf) r))

  abbrev pub link_to : Bytes → Run W → ℕ → Option (Returned W)
  link_to new_path r old_len =
      let old_resolved = take (old_len + 1) r.state.path_buf in
      if_valid os r new_path true λ r _. status_call os (hard_link old_resolved r.state.path_buf) r

  unfoldable pub ansi_link : Bytes → Bytes → Run W → Option (Returned W)
  unfolding if_valid status_call
  ansi_link old_path new_path r =
      if_ready r (if_writable os r none (if_valid os r old_path true (link_to new_path)))

  -- The target's copy ends in a NUL.
  unfoldable pub ansi_symlink : Bytes → Bytes → Run W → Option (Returned W)
  unfolding if_valid status_call
  ansi_symlink target linkpath r = if_ready r (
      if_writable os r none (
        if leb path_buf_max (length target)
        then some (fail r os.enametoolong)
        else if_valid os r linkpath true
            λ r _. status_call os (symlink (target ++ 0 ∷ []) r.state.path_buf) r))

  abbrev pub read_link : ℕ → Run W → ℕ → Option (Returned W)
  read_link buf_size r _ =
      let (a, r) = invoke os (readlink r.state.path_buf buf_size) r in
      some record {
        result = a.result;
        out = a.out;
        run = if is_negative a.result then set_errno r a.errno else r;
      }

  unfoldable pub ansi_readlink : Bytes → ℕ → Run W → Option (Returned W)
  unfolding if_valid invoke
  ansi_readlink path buf_size r = if_ready r (if_valid os r path false (read_link buf_size))

  unfoldable pub ansi_lstat : Bytes → Run W → Option (Returned W)
  unfolding if_valid status_call
  ansi_lstat path r =
      if_ready r (if_valid os r path false λ r _. status_call os (lstat r.state.path_buf) r)
