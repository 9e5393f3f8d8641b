-- ===== src/Ansi/State.antt =====
-- The state of the secure backend, include/c/zbc_backend_ansi.h, and what it asks of the C library.
use semihost.Base.{ℕ, Bool, not, ◌==◌, bit_and, if◌then◌else◌, Option, List, [], ◌∷◌, ◌++◌}
use semihost.Ansi.Fds.{FdState, Stream}
use semihost.Memory.{Bytes}

abbrev pub path_buf_max : ℕ
path_buf_max = 1024

abbrev pub max_dirs : ℕ
max_dirs = 8

abbrev pub max_path_rules : ℕ
max_path_rules = 16

abbrev pub sandbox_dir_max : ℕ
sandbox_dir_max = 512

abbrev pub first_dir_handle : ℕ
first_dir_handle = 256

abbrev pub flag_allow_system : ℕ
flag_allow_system = 1

abbrev pub flag_allow_exit : ℕ
flag_allow_exit = 2

abbrev pub flag_read_only : ℕ
flag_read_only = 4

-- The ZBC_ANSI_VIOL_ types
pub data Violation : Type 0 where
  path_blocked path_traversal system_blocked exit_blocked write_blocked : Violation
  remove_blocked rename_blocked : Violation

-- zbc_ansi_path_rule_t; prefix_len is the prefix's length.
pub record PathRule : Type 0 where
  pub prefix : Bytes
  pub allow_write : Bool

-- What a policy's validate_path returns and leaves in the buffer
pub record Resolution : Type 0 where
  pub allowed : Bool
  pub resolved : Bytes
  pub resolved_len : ℕ

-- zbc_ansi_policy_t with its context, the embedding's code; a test is true where it allows.
pub record Policy : Type 0 where
  pub validate_path : Option (Bytes → Bool → Bytes → Resolution)
  pub validate_system : Option (Bytes → Bool)
  pub handle_exit : Option (ℕ → ℕ → Bool)

-- The calls of the C library and the system, with the buffers that paths are read from
pub data OsCall : Type 0 where
  fopen : Bytes → ℕ → OsCall
  fclose ftell ferror fflush fstat fsync : Stream → OsCall
  fread : Stream → ℕ → OsCall
  fwrite : Stream → Bytes → OsCall
  fseek : Stream → ℕ → ℕ → OsCall
  ftruncate : Stream → ℕ → OsCall
  remove rmdir opendir stat lstat system : Bytes → OsCall
  mkdir : Bytes → ℕ → OsCall
  rename hard_link symlink : Bytes → Bytes → OsCall
  readlink : Bytes → ℕ → OsCall
  readdir : ℕ → ℕ → OsCall
  closedir : ℕ → OsCall
  exit : ℕ → OsCall
  clock time : OsCall

-- A call's result as an `int` pattern, a pointer as a number and NULL as 0; errno; and the bytes
-- that it stored
pub record OsAnswer : Type 0 where
  pub result : ℕ
  pub errno : ℕ
  pub out : Bytes

-- The system and its <errno.h>
pub record Os (W : Type 0) : Type 0 where
  pub run : OsCall → W → OsAnswer × W
  pub eacces : ℕ
  pub einval : ℕ
  pub ebadf : ℕ
  pub emfile : ℕ
  pub enametoolong : ℕ

-- zbc_ansi_state_t; sandbox_dir has sandbox_dir_len bytes, path_rules path_rule_count rules, and
-- `reports` says whether on_violation is set. What was reported is kept in order.
pub record AnsiState : Type 0 where
  pub sandbox_dir : Bytes
  pub flags : ℕ
  pub path_rules : List PathRule
  pub policy : Option Policy
  pub reports : Bool
  pub fds : FdState
  pub dirs : List (Option ℕ)
  pub last_errno : ℕ
  pub start_clock : ℕ
  pub path_buf : Bytes
  pub initialized : Bool
  pub violations : List Violation

-- state->flags & flag
abbrev pub has_flag : AnsiState → ℕ → Bool
has_flag s flag = not (bit_and s.flags flag == 0)

-- if (state->on_violation) state->on_violation(…)
unfoldable pub report : AnsiState → Violation → AnsiState
report s v = if s.reports then record s { violations = s.violations ++ (v ∷ []) } else s
