-- ===== src/Ansi/Secure/OnPaths.antt =====
-- The calls that the secure backend's functions on paths make, src/c/zbc_ansi_secure.c.
use semihost.Base.{
  ℕ, ◌+◌, ◌≤◌, true, false, ◌==◌, ltb, leb, if◌then◌else◌, Option, none, some, [], ◌∷◌, ◌++◌,
  length, take, Bool-cases, Option-cases, inl, inr, arith,
}
use semihost.Ansi.Secure.{
  Run, Returned, status_call, checked_call, fail, on_pointer, invoke, is_negative,
}
use semihost.Ansi.Secure.Confined.{IsHeld, IsGood, resolved-IsHostPath, copied-IsHostPath}
use semihost.Ansi.Secure.Guards.{
  if_ready-Yields, if_writable-Yields, if_valid-Yields, status_call-Yields, checked_call-Yields,
}
use semihost.Ansi.Secure.Operations.{free_call, errno_if}
use semihost.Ansi.Secure.Paths.{
  read_link, rename_to, link_to, ansi_remove_file, ansi_rename_file, ansi_tmpnam_func, ansi_stat,
  free_slot, open_slot, ansi_opendir, ansi_readdir, ansi_closedir, ansi_mkdir, ansi_rmdir,
  ansi_link, ansi_symlink, ansi_readlink, ansi_lstat, dir_at,
}
use semihost.Ansi.State.{
  AnsiState, Os, remove, rmdir, opendir, stat, lstat, mkdir, rename, hard_link, symlink, readlink,
  readdir, closedir, remove_blocked, rename_blocked, path_buf_max,
}
use semihost.Ansi.Validate.Safety.{IsResolved}
use semihost.Memory.{Bytes, Yields}

module _ {W : Type 0} (os : Os W) (s : AnsiState) (n : ℕ) where
  abbrev same : n ≤ n
  same = omega arith

  abbrev IsHeldAfter : Option (Returned W) → Type 0
  IsHeldAfter = Yields (IsGood s n)

  -- A path that is to be read, and one status call on it
  module _ (path : Bytes) (r : Run W) (h : IsHeld s n r) where
    pub ansi_stat-Yields : IsHeldAfter (ansi_stat os path r)
    unfolding ansi_stat
    ansi_stat-Yields = if_ready-Yields os s n n same r _ h (
        if_valid-Yields os s n n same r path false (λ v _. status_call os (stat v.state.path_buf) v)
          h
          λ v len held found.
            status_call-Yields os s n n same (stat v.state.path_buf) v held
              (resolved-IsHostPath s false v.state.path_buf len found))

    pub ansi_lstat-Yields : IsHeldAfter (ansi_lstat os path r)
    unfolding ansi_lstat
    ansi_lstat-Yields = if_ready-Yields os s n n same r _ h (
        if_valid-Yields os s n n same r path false
          (λ v _. status_call os (lstat v.state.path_buf) v) h
          λ v len held found.
            status_call-Yields os s n n same (lstat v.state.path_buf) v held
              (resolved-IsHostPath s false v.state.path_buf len found))

    pub ansi_readlink-Yields : (buf_size : ℕ) → IsHeldAfter (ansi_readlink os path buf_size r)
    unfolding ansi_readlink
    ansi_readlink-Yields buf_size = if_ready-Yields os s n n same r _ h (
        if_valid-Yields os s n n same r path false (read_link os buf_size) h λ v len held found.
          let a = invoke os (readlink v.state.path_buf buf_size) v in
          errno_if os s n (is_negative a.0.result) a.1 a.0.errno (
            free_call os s n (readlink v.state.path_buf buf_size) v
              (resolved-IsHostPath s false v.state.path_buf len found) held))

    open_slot-Yields :
        (slot len : ℕ) → IsResolved s false r.state.path_buf len → IsHeldAfter (open_slot os r slot)
    unfolding open_slot
    open_slot-Yields slot len found =
        let c = opendir r.state.path_buf in
        let held =
          free_call os s n c r (resolved-IsHostPath s false r.state.path_buf len found) h in
        elim (Bool-cases ((invoke os c r).0.result == 0)) [ inl e ↦ rw e held | inr e ↦ rw e held ]

    pub ansi_remove_file-Yields : IsHeldAfter (ansi_remove_file os path r)
    unfolding ansi_remove_file
    ansi_remove_file-Yields = if_ready-Yields os s n n same r _ h (
        if_writable-Yields os s n n same r (some remove_blocked) _ h λ w.
          if_valid-Yields os s n n same r path true
            (λ v _. checked_call os (remove v.state.path_buf) v) h
            λ v len held found.
              checked_call-Yields os s n n same (remove v.state.path_buf) v held
                (resolved-IsHostPath s true v.state.path_buf len found, w))

    pub ansi_rmdir-Yields : IsHeldAfter (ansi_rmdir os path r)
    unfolding ansi_rmdir
    ansi_rmdir-Yields = if_ready-Yields os s n n same r _ h (
        if_writable-Yields os s n n same r none _ h λ w.
          if_valid-Yields os s n n same r path true
            (λ v _. status_call os (rmdir v.state.path_buf) v) h
            λ v len held found.
              status_call-Yields os s n n same (rmdir v.state.path_buf) v held
                (resolved-IsHostPath s true v.state.path_buf len found, w))

    pub ansi_mkdir-Yields : (mode : ℕ) → IsHeldAfter (ansi_mkdir os path mode r)
    unfolding ansi_mkdir
    ansi_mkdir-Yields mode = if_ready-Yields os s n n same r _ h (
        if_writable-Yields os s n n same r none _ h λ w.
          if_valid-Yields os s n n same r path true
            (λ v _. status_call os (mkdir v.state.path_buf mode) v) h
            λ v len held found.
              status_call-Yields os s n n same (mkdir v.state.path_buf mode) v held
                (resolved-IsHostPath s true v.state.path_buf len found, w))

    pub ansi_symlink-Yields : (target : Bytes) → IsHeldAfter (ansi_symlink os target path r)
    unfolding ansi_symlink
    ansi_symlink-Yields target = if_ready-Yields os s n n same r _ h (
        if_writable-Yields os s n n same r none _ h λ w.
          elim (Bool-cases (leb path_buf_max (length target))) [
            | inl e ↦ rw e h
            | inr e ↦ rw e (
                if_valid-Yields os s n n same r path true
                  (λ v _. status_call os (symlink (target ++ 0 ∷ []) v.state.path_buf) v) h
                  λ v len held found.
                    status_call-Yields os s n n same (symlink (target ++ 0 ∷ []) v.state.path_buf) v
                      held (resolved-IsHostPath s true v.state.path_buf len found, w))
          ])

    -- Two paths; the first is copied before the second is resolved.
    module _ (new_path : Bytes) where
      pub ansi_rename_file-Yields : IsHeldAfter (ansi_rename_file os path new_path r)
      unfolding ansi_rename_file
      ansi_rename_file-Yields = if_ready-Yields os s n n same r _ h (
          if_writable-Yields os s n n same r (some rename_blocked) _ h λ w.
            if_valid-Yields os s n n same r path true (rename_to os new_path) h λ v len held found.
              let old = take (len + 1) v.state.path_buf in
              if_valid-Yields os s n n same v new_path true
                (λ u _. checked_call os (rename old u.state.path_buf) u) held
                λ u new_len kept new.
                  checked_call-Yields os s n n same (rename old u.state.path_buf) u kept (
                    copied-IsHostPath s true v.state.path_buf len found,
                    resolved-IsHostPath s true u.state.path_buf new_len new,
                    w,
                  ))

      pub ansi_link-Yields : IsHeldAfter (ansi_link os path new_path r)
      unfolding ansi_link
      ansi_link-Yields = if_ready-Yields os s n n same r _ h (
          if_writable-Yields os s n n same r none _ h λ w.
            if_valid-Yields os s n n same r path true (link_to os new_path) h λ v len held found.
              let old = take (len + 1) v.state.path_buf in
              if_valid-Yields os s n n same v new_path true
                (λ u _. status_call os (hard_link old u.state.path_buf) u) held
                λ u new_len kept new.
                  status_call-Yields os s n n same (hard_link old u.state.path_buf) u kept (
                    copied-IsHostPath s true v.state.path_buf len found,
                    resolved-IsHostPath s true u.state.path_buf new_len new,
                    w,
                  ))

  pub ansi_opendir-Yields :
      (path : Bytes) (r : Run W) → IsHeld s n r → IsHeldAfter (ansi_opendir os path r)
  unfolding ansi_opendir
  ansi_opendir-Yields path r h = if_ready-Yields os s n n same r _ h (
      if_valid-Yields os s n n same r path false
        (λ v _. on_pointer (free_slot v.state.dirs 0) (some (fail v os.emfile)) (open_slot os v)) h
        λ v len held found. elim (Option-cases (free_slot v.state.dirs 0)) [
          | inl e ↦ rw e held
          | inr (slot, e) ↦ rw e (open_slot-Yields path v held slot len found)
        ])

  pub ansi_readdir-Yields :
      (handle buf_size : ℕ) (r : Run W)
      → IsHeld s n r
      → IsHeldAfter (ansi_readdir os handle buf_size r)
  unfolding ansi_readdir
  ansi_readdir-Yields handle buf_size r h =
      if_ready-Yields os s n n same r _ h (elim (Option-cases (dir_at r handle)) [
        | inl e ↦ rw e h
        | inr (d, e) ↦
            let a = invoke os (readdir d buf_size) r in
            rw e (
              errno_if os s n (is_negative a.0.result) a.1
                (if a.0.errno == 0 then os.einval else a.0.errno)
                (free_call os s n (readdir d buf_size) r tt h))
      ])

  pub ansi_closedir-Yields :
      (handle : ℕ) (r : Run W) → IsHeld s n r → IsHeldAfter (ansi_closedir os handle r)
  unfolding ansi_closedir
  ansi_closedir-Yields handle r h =
      if_ready-Yields os s n n same r _ h (elim (Option-cases (dir_at r handle)) [
        | inl e ↦ rw e h
        | inr (d, e) ↦
            let held = free_call os s n (closedir d) r tt h in
            elim (Bool-cases ((invoke os (closedir d) r).0.result == 0)) [
              | inl z ↦ rw (e, z) held
              | inr z ↦ rw (e, z) held
            ]
      ])

  pub ansi_tmpnam_func-Yields :
      (buf_size id : ℕ) (r : Run W) → IsHeld s n r → IsHeldAfter (ansi_tmpnam_func os buf_size id r)
  unfolding ansi_tmpnam_func
  ansi_tmpnam_func-Yields buf_size id r h =
      if_ready-Yields os s n n same r _ h
        (elim (Bool-cases (ltb buf_size (length r.state.sandbox_dir + 3 + 3 + 4 + 1))) [
          | inl e ↦ rw e h
          | inr e ↦ rw e h
        ])
