-- ===== src/Host/Backend.antt =====
-- The backend as zbc_host.c sees it (include/c/zbc_backend.h): which functions its table has, and
-- what a call of one returns. The functions themselves belong to the embedding, a parameter here.
use semihost.Base.{ℕ, Bool, Option, List}
use semihost.Memory.{Bytes}
use semihost.Riff.Parse.{DataRef}

-- The fields of zbc_backend_t that the dispatch table names
pub data Field : Type 0 where
  open_file close read write seek flen remove rename tmpnam writec write0 readc istty : Field
  clock time elapsed tickfreq do_system get_cmdline heapinfo do_exit get_errno timer_config : Field
  stat opendir readdir closedir readc_poll fstat mkdir rmdir ftruncate fsync : Field
  link symlink readlink lstat : Field

-- A call through the table, one constructor for each signature. Paths and data are pointers into
-- the work buffer; `int` and `unsigned` arguments are 32-bit patterns.
pub data Call : Type 0 where
  ctx : Field → Call
  fd : Field → ℕ → Call
  fd_int : Field → ℕ → ℕ → Call
  fd_buf : Field → ℕ → ℕ → Call
  fd_cbuf : Field → ℕ → DataRef → Call
  path : Field → DataRef → Call
  path_mode : Field → DataRef → ℕ → Call
  path_path : Field → DataRef → DataRef → Call
  path_buf : Field → DataRef → Call
  fd_stat : Field → ℕ → Call
  fd_len64 : Field → ℕ → ℕ → Call
  path_buf_sz : Field → DataRef → ℕ → Call
  tmp_name : Field → ℕ → ℕ → Call
  put_char : Field → ℕ → Call
  put_string : Field → Option ℕ → Call
  uint : Field → ℕ → Call
  exit : Field → ℕ → ℕ → Call
  elapsed_ticks : Field → Call
  cmdline : Field → ℕ → Call
  heap_info : Field → Call

-- What a call leaves: its result as an `intmax_t` pattern, the output buffer's bytes, and the
-- values that it stored through pointers to numbers.
pub record Answer : Type 0 where
  pub result : ℕ
  pub out : Bytes
  pub values : List ℕ

-- zbc_backend_t with its context: the state, the non-NULL functions, and the calls. A call is
-- given the work buffer and the size of the output buffer.
pub record Backend (S : Type 0) : Type 0 where
  pub has : Field → Bool
  pub run : Call → Bytes → ℕ → S → Answer × S
  pub errno : S → ℕ × S
