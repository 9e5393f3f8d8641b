-- ===== src/Ansi/Validate.antt =====
-- ansi_validate_path of src/c/zbc_ansi_secure.c. A path is its path_len bytes.
use semihost.Base.{
  ℕ, zero, suc, ◌+◌, ◌-◌, Bool, true, false, not, ◌==◌, leb, ◌&&◌, if◌then◌else◌, Option, none,
  some, List, [], ◌∷◌, length,
}
use semihost.Ansi.Normalize.{slash, is_slash, ansi_path_normalize}
use semihost.Ansi.State.{
  AnsiState, PathRule, Policy, Resolution, path_buf_max, report, write_blocked, path_blocked,
  path_traversal,
}
use semihost.Memory.{Bytes, ◌>>=◌, load, store, write_bytes}
pub mod Safety
pub mod Resolves

-- The state afterwards, whether 0 is returned, and *resolved_len
pub record Validated : Type 0 where
  pub state : AnsiState
  pub allowed : Bool
  pub resolved_len : ℕ

abbrev pub deny : AnsiState → Validated
deny s = record { state = s; allowed = false; resolved_len = 0 }

abbrev pub allow : AnsiState → ℕ → Validated
allow s n = record { state = s; allowed = true; resolved_len = n }

-- memcmp(a, b, n) == 0
unfoldable pub memcmp : Bytes → Bytes → ℕ → Option Bool
memcmp a b zero = some true
memcmp (x ∷ a) (y ∷ b) (suc n) = do same ← memcmp a b n; some (x == y && same)
memcmp _ _ (suc n) = none

-- norm_len >= prefix_len && memcmp(path_buf, prefix, prefix_len) == 0
unfoldable pub has_prefix : Bytes → ℕ → Bytes → Option Bool
has_prefix path_buf norm_len prefix =
    if leb (length prefix) norm_len then memcmp path_buf prefix (length prefix) else some false

-- The loop over path_rules
unfoldable pub check_rules : AnsiState → List PathRule → ℕ → Bool → Option Validated
check_rules s [] norm_len for_write = some (deny (report s path_blocked))
check_rules s (rule ∷ rules) norm_len for_write = do
  matches ← has_prefix s.path_buf norm_len rule.prefix
  let later = check_rules s rules norm_len for_write
  if matches
      then (if for_write && not rule.allow_write
          then some (deny (report s write_blocked))
          else some (allow s norm_len))
      else later

unfoldable pub validate_absolute : AnsiState → Bytes → Bool → Option Validated
validate_absolute s path for_write = if leb path_buf_max (length path) then some (deny s) else (do
  path_buf ← write_bytes s.path_buf 0 path
  path_buf ← store path_buf (length path) 0
  (path_buf, norm_len) ← ansi_path_normalize path_buf (length path)
  let s = record s { path_buf = path_buf }
  inside ← has_prefix path_buf norm_len s.sandbox_dir
  if inside then some (allow s norm_len) else check_rules s s.path_rules norm_len for_write)

-- norm_len + 1 == sandbox_dir_len && sandbox_dir[norm_len] == '/' && memcmp(…) == 0
unfoldable pub is_sandbox_itself : Bytes → ℕ → Bytes → Option Bool
is_sandbox_itself path_buf norm_len sandbox_dir =
    if norm_len + 1 == length sandbox_dir
    then (do
      c ← load sandbox_dir norm_len
      if c == slash then memcmp path_buf sandbox_dir norm_len else some false)
    else some false

-- The separator that normalisation took off the sandbox's own path
unfoldable pub restore_slash : Bytes → ℕ → Bytes → Option (Bytes × ℕ)
restore_slash path_buf norm_len sandbox_dir = do
  itself ← is_sandbox_itself path_buf norm_len sandbox_dir
  if itself
      then (do
        path_buf ← store path_buf norm_len slash
        path_buf ← store path_buf (norm_len + 1) 0
        some (path_buf, norm_len + 1))
      else some (path_buf, norm_len)

unfoldable pub validate_relative : AnsiState → Bytes → Option Validated
validate_relative s path =
    if leb path_buf_max (length s.sandbox_dir + length path + 1) then some (deny s) else (do
      path_buf ← write_bytes s.path_buf 0 s.sandbox_dir
      path_buf ← write_bytes path_buf (length s.sandbox_dir) path
      let norm_len = length s.sandbox_dir + length path
      path_buf ← store path_buf norm_len 0
      (path_buf, norm_len) ← ansi_path_normalize path_buf norm_len
      (path_buf, norm_len) ← restore_slash path_buf norm_len s.sandbox_dir
      let s = record s { path_buf = path_buf }
      inside ← has_prefix path_buf norm_len s.sandbox_dir
      if inside then some (allow s norm_len) else some (deny (report s path_traversal)))

-- path_len > 0 && (path[0] == '/' || path[0] == '\\')
abbrev pub is_absolute : Bytes → Bool
is_absolute [] = false
is_absolute (c ∷ cs) = is_slash c

unfoldable pub built_in : AnsiState → Bytes → Bool → Option Validated
built_in s path for_write =
    if is_absolute path then validate_absolute s path for_write else validate_relative s path

unfoldable pub ask_policy : AnsiState → Option Policy → Bytes → Bool → Option Validated
ask_policy s none path for_write = built_in s path for_write
ask_policy s (some policy) path for_write = elim policy.validate_path [
  | none ↦ built_in s path for_write
  | some validate ↦
      let r = validate path for_write s.path_buf in
      some record {
        state = record s { path_buf = r.resolved };
        allowed = r.allowed;
        resolved_len = r.resolved_len;
      }
]

unfoldable pub ansi_validate_path : AnsiState → Bytes → Bool → Option Validated
ansi_validate_path s path for_write = ask_policy s s.policy path for_write
