-- ===== src/Composite.antt =====
-- The composite transport, src/c/zbc_transport_composite.c, the null transport,
-- src/c/zbc_transport_null.c, and the 9P transport as a child.
use semihost.Base.{
  ℕ, Bool, true, false, ◌==◌, ◌||◌, if◌then◌else◌, Option, none, some, List, [], ◌∷◌,
}
use semihost.Client.Response.{Response}
use semihost.Memory.{◌>>=◌}
use semihost.Opcode.{
  sys_open, sys_close, sys_writec, sys_write0, sys_write, sys_read, sys_readc, sys_istty, sys_seek,
  sys_flen, sys_tmpnam, sys_remove, sys_rename, sys_opendir, sys_readdir, sys_closedir, sys_stat,
  sys_fstat, sys_mkdir, sys_rmdir, sys_ftruncate, sys_fsync, sys_readc_poll, sys_link, sys_symlink,
  sys_readlink, sys_lstat,
}
use semihost.P9.Rpc.{Device}
use semihost.P9.Session.{Session, minus_one}
use semihost.P9.Transport.{Args, p9_transport_call}
use semihost.P9.Wire.{enosys}
use semihost.Riff.{Rc, ok, null_arg, invalid_arg, not_initialized}
pub mod Routes
pub mod Shared

-- zbc_client_state_t as a transport sees it: its context's address, the response to fill in, and the
-- contexts that the addresses stand for.
pub record Caller (R : Type 0) : Type 0 where
  pub transport_ctx : Option ℕ
  pub response : Response
  pub contexts : R

-- zbc_transport_t, a call of it
abbrev pub Call : Type 0 → Type 0
Call R = Caller R → ℕ → Args → Option (Rc × Caller R)

-- zbc_composite_state_t
pub record Composite (R : Type 0) : Type 0 where
  pub console : Option (Call R)
  pub console_ctx : Option ℕ
  pub file : Option (Call R)
  pub file_ctx : Option ℕ
  pub fallback : Option (Call R)
  pub fallback_ctx : Option ℕ

abbrev pub enosys_response : Response
enosys_response = record {
  result = minus_one;
  error_code = enosys;
  data_ptr = none;
  data_size = 0;
  is_error = false;
  proto_error = 0;
}

-- composite_fill_enosys
abbrev pub fill_enosys : {R : Type 0} → Caller R → Caller R
fill_enosys s = record s { response = enosys_response }

-- The labels of a case
abbrev pub is_one_of : ℕ → List ℕ → Bool
is_one_of opcode [] = false
is_one_of opcode (label ∷ labels) = opcode == label || is_one_of opcode labels

abbrev pub console_class : List ℕ
console_class = sys_writec ∷ sys_write0 ∷ sys_readc ∷ sys_readc_poll ∷ []

abbrev pub file_class : List ℕ
file_class =
    sys_open ∷ sys_close ∷ sys_read ∷ sys_write ∷ sys_seek ∷ sys_flen ∷ sys_remove ∷ sys_rename
    ∷ sys_tmpnam ∷ sys_istty ∷ sys_stat ∷ sys_opendir ∷ sys_readdir ∷ sys_closedir ∷ sys_fstat
    ∷ sys_mkdir ∷ sys_rmdir ∷ sys_ftruncate ∷ sys_fsync ∷ sys_link ∷ sys_symlink ∷ sys_readlink
    ∷ sys_lstat ∷ []

module _ {R : Type 0} where
  unfoldable pub composite_select : ℕ → Composite R → Option (Call R) × Option ℕ
  composite_select opcode cc =
      if is_one_of opcode console_class
      then (cc.console, cc.console_ctx)
      else if is_one_of opcode file_class
      then (cc.file, cc.file_ctx)
      else (cc.fallback, cc.fallback_ctx)

  -- The call of the child, with its context put in and the caller's restored
  unfoldable pub call_child :
      Option (Call R) × Option ℕ → Caller R → ℕ → Args → Option (Rc × Option (Caller R))
  call_child (none, ctx) s opcode args = some (ok, some (fill_enosys s))
  call_child (some child, ctx) s opcode args = do
    r ← child (record s { transport_ctx = ctx }) opcode args
    some (r.0, some (record r.1 { transport_ctx = s.transport_ctx }))

  unfoldable pub composite_at :
      Option (Composite R) → Caller R → ℕ → Args → Option (Rc × Option (Caller R))
  composite_at none s opcode args = some (null_arg, some s)
  composite_at (some cc) s opcode args = call_child (composite_select opcode cc) s opcode args

  -- composite_call; `composites` holds the composite states by address. A null response or a null
  -- state is `none`.
  unfoldable pub composite_call :
      (ℕ → Composite R) → Option (Caller R) → ℕ → Args → Option (Rc × Option (Caller R))
  composite_call composites none opcode args = some (null_arg, none)
  composite_call composites (some s) opcode args =
      composite_at (mathlib.Core.Option.map composites s.transport_ctx) s opcode args

  unfoldable pub null_transport_call :
      Option (Caller R) → ℕ → Args → Option (Rc × Option (Caller R))
  null_transport_call none opcode args = some (invalid_arg, none)
  null_transport_call (some s) opcode args = some (ok, some (fill_enosys s))

-- The 9P sessions, by address
abbrev pub Sessions : Type 0
Sessions = ℕ → Option Session

abbrev with_response : Response → Session → Session
with_response r s = record s { response = r }

-- The session that a call left at the address, and its response
unfoldable pub keep_session : ℕ → Option Session → Caller Sessions → Caller Sessions
keep_session a none s = s
keep_session a (some session) s = record s {
  response = session.response;
  contexts = λ b. if b == a then some session else s.contexts b;
}

-- p9_transport_call as a child
unfoldable pub p9_at : Device → ℕ → Option ℕ → Call Sessions
p9_at dev fuel none s opcode args = some (not_initialized, s)
p9_at dev fuel (some a) s opcode args = do
  let session = mathlib.Core.Option.map (with_response s.response) (s.contexts a)
  r ← p9_transport_call dev fuel session opcode args
  some (r.0, keep_session a r.1 s)

unfoldable pub p9_child : Device → ℕ → Call Sessions
p9_child dev fuel s opcode args = p9_at dev fuel s.transport_ctx s opcode args
