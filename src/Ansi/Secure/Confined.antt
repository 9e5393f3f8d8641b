-- ===== src/Ansi/Secure/Confined.antt =====
-- The calls of the C library that the secure backend makes, src/c/zbc_ansi_secure.c.
use semihost.Base.{
  ℕ, suc, ◌+◌, ◌≤◌, Bool, true, false, not, ◌==◌, bit_and, none, List, [], ◌∷◌, ◌++◌, length, take,
  All, ◌≡◌, refl, sym, ap, ◌∙◌, subst, Bool-cases, inl, inr, ◌⊎◌, arith,
}
use semihost.Ansi.Fds.{FdState}
use semihost.Ansi.Fds.Invariant.{IsTable}
use semihost.Ansi.Normalize.Clean.{has_parent}
use semihost.Ansi.Secure.{Run, Returned, mode_is_write}
use semihost.Ansi.State.{
  AnsiState, PathRule, OsCall, Violation, fopen, ftruncate, remove, rmdir, opendir, stat, lstat,
  system, mkdir, rename, hard_link, symlink, readlink, report, has_flag, flag_allow_system,
  flag_read_only, path_buf_max,
}
use semihost.Ansi.Validate.Safety.{IsPrefix, IsRuled, IsWithin, IsResolved}
use semihost.Memory.{Bytes}

-- A buffer with a path in it up to a NUL: no component is "..", and the path lies in the sandbox
-- or under a rule that allows the access.
abbrev pub IsHostPath : AnsiState → Bool → Bytes → Type 0
IsHostPath s for_write path_buf =
    (path : Bytes) × (rest : Bytes) × (path_buf ≡ path ++ 0 ∷ rest)
    × (has_parent [] path ≡ false)
    × IsWithin s for_write path

abbrev pub IsWritable : AnsiState → Type 0
IsWritable s = has_flag s flag_read_only ≡ false

-- What the configuration allows of the system's calls
abbrev pub IsSafe : AnsiState → OsCall → Type 0
IsSafe s (fopen path_buf mode) =
    IsHostPath s (mode_is_write mode) path_buf × (mode_is_write mode ≡ true → IsWritable s)
IsSafe s (remove path_buf) = IsHostPath s true path_buf × IsWritable s
IsSafe s (rmdir path_buf) = IsHostPath s true path_buf × IsWritable s
IsSafe s (mkdir path_buf mode) = IsHostPath s true path_buf × IsWritable s
IsSafe s (rename old new) = IsHostPath s true old × IsHostPath s true new × IsWritable s
IsSafe s (hard_link old new) = IsHostPath s true old × IsHostPath s true new × IsWritable s
IsSafe s (symlink target path_buf) = IsHostPath s true path_buf × IsWritable s
IsSafe s (opendir path_buf) = IsHostPath s false path_buf
IsSafe s (stat path_buf) = IsHostPath s false path_buf
IsSafe s (lstat path_buf) = IsHostPath s false path_buf
IsSafe s (readlink path_buf size) = IsHostPath s false path_buf
IsSafe s (ftruncate fp length) = IsWritable s
IsSafe s (system command) = has_flag s flag_allow_system ≡ true
IsSafe s _ = Unit

-- The configuration that `s` had at first, with the built-in policy, the buffer's size, and a
-- well-formed table of at most `n` for its next new descriptor
abbrev pub IsKept : AnsiState → ℕ → AnsiState → Type 0
IsKept s n now =
    (now.sandbox_dir ≡ s.sandbox_dir)
    × (now.path_rules ≡ s.path_rules)
    × (now.flags ≡ s.flags)
    × (now.policy ≡ none)
    × (length now.path_buf ≡ path_buf_max)
    × (now.fds.next_fd ≤ n)
    × ((free : List (ℕ × ℕ)) × IsTable free now.fds)

abbrev pub IsHeld : {W : Type 0} → AnsiState → ℕ → Run W → Type 0
IsHeld s n r = IsKept s n r.state × All (IsSafe s) r.calls

abbrev pub IsGood : {W : Type 0} → AnsiState → ℕ → Returned W → Type 0
IsGood s n a = IsHeld s n a.run

-- A configuration that is kept allows the same paths.
within_kept :
    (dir dir' : Bytes) (rules rules' : List PathRule) (for_write : Bool) (path : Bytes)
    → dir' ≡ dir
    → rules' ≡ rules
    → IsPrefix dir' path ⊎ IsRuled rules' for_write path
    → IsPrefix dir path ⊎ IsRuled rules for_write path
within_kept dir dir' rules rules' for_write path d e w = rw (← d, ← e) w

pub flag_kept :
    (flags flags' flag : ℕ) (b : Bool)
    → flags' ≡ flags
    → not (bit_and flags' flag == 0) ≡ b
    → not (bit_and flags flag == 0) ≡ b
flag_kept flags flags' flag b e h = rw (← e) h

pub report-IsKept :
    (s : AnsiState) (n : ℕ) (now : AnsiState) (v : Violation)
    → IsKept s n now
    → IsKept s n (report now v)
unfolding report
report-IsKept s n now v k = elim (Bool-cases now.reports) [ inl e ↦ rw e k | inr e ↦ rw e k ]

pub validated-IsKept :
    (s : AnsiState) (n : ℕ) (now after : AnsiState) (path_buf : Bytes) (violations : List Violation)
    → after ≡ record now { path_buf = path_buf; violations = violations }
    → length after.path_buf ≡ path_buf_max
    → IsKept s n now
    → IsKept s n after
validated-IsKept s n now after path_buf violations e size
      (dir, rules, flags, policy, _, low, (free, table)) =
    let fds = ap AnsiState.fds e in
    (
      ap AnsiState.sandbox_dir e ∙ dir,
      ap AnsiState.path_rules e ∙ rules,
      ap AnsiState.flags e ∙ flags,
      ap AnsiState.policy e ∙ policy,
      size,
      omega (arith, ap FdState.next_fd fds),
      (free, subst (IsTable free) (sym fds) table),
    )

pub IsResolved-kept :
    (s now : AnsiState) (for_write : Bool) (path_buf : Bytes) (len : ℕ)
    → now.sandbox_dir ≡ s.sandbox_dir
    → now.path_rules ≡ s.path_rules
    → IsResolved now for_write path_buf len
    → IsResolved s for_write path_buf len
IsResolved-kept s now for_write path_buf len dir rules (path, rest, e, l, clean, within) = (
  path,
  rest,
  e,
  l,
  clean,
  within_kept s.sandbox_dir now.sandbox_dir s.path_rules now.path_rules for_write path dir rules
      within,
)

-- The path in its buffer, and in a copy that ends with its NUL
pub resolved-IsHostPath :
    (s : AnsiState) (for_write : Bool) (path_buf : Bytes) (len : ℕ)
    → IsResolved s for_write path_buf len
    → IsHostPath s for_write path_buf
resolved-IsHostPath s for_write path_buf len (path, rest, e, l, clean, within) =
    (path, rest, e, clean, within)

take_terminated : (path rest : Bytes) → take (length path + 1) (path ++ 0 ∷ rest) ≡ path ++ 0 ∷ []
take_terminated [] rest = refl
take_terminated (c ∷ path) rest =
    let e : suc (length path) + 1 ≡ suc (length path + 1) = omega arith in
    rw (e, take_terminated path rest) refl

pub copied-IsHostPath :
    (s : AnsiState) (for_write : Bool) (path_buf : Bytes) (len : ℕ)
    → IsResolved s for_write path_buf len
    → IsHostPath s for_write (take (len + 1) path_buf)
copied-IsHostPath s for_write path_buf len (path, rest, e, l, clean, within) =
    (path, [], rw (e, ← l) (take_terminated path rest), clean, within)
