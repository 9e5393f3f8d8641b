-- ===== src/Tests/Routings.antt =====
-- The composite transport with the 9P one for its file child.
use semihost.Base.{ℕ, ◌==◌, if◌then◌else◌, none, some, ◌≡◌, refl, arith, inr}
use semihost.Client.Response.{empty_response}
use semihost.Composite.{Caller, Composite, Sessions, fill_enosys, composite_call, p9_child}
use semihost.Composite.Shared.{IsRestored, IsShared, composite_call-Yields, composite_call-errno}
use semihost.Memory.{Yields}
use semihost.Opcode.{sys_read, sys_errno}
use semihost.P9.Transport.{file_cases}
use semihost.Riff.{ok}
use semihost.Tests.Mounts.{
  server, server-Serves, reading, reading-InOrder, read_args, read_args-IsCall,
}

-- A composite without console and fallback
abbrev files_only : ℕ → Composite Sessions
files_only a = record {
  console = none;
  console_ctx = none;
  file = some (p9_child server 11);
  file_ctx = some 7;
  fallback = none;
  fallback_ctx = none;
}

-- A caller with the composite at 5 and the session at 7
abbrev caller : Caller Sessions
caller = record {
  transport_ctx = some 5;
  response = empty_response;
  contexts = λ a. if a == 7 then some reading else none;
}

read-IsShared : IsShared server 11 read_args sys_read
unfolding file_cases
read-IsShared =
    (omega arith, refl, (λ e. absurd (omega (arith, e))), (λ e. absurd (omega (arith, e))))

composite_call-Yields_example :
    Yields
      (λ r. IsRestored 256 64 5 7 r.1)
      (composite_call files_only (some caller) sys_read read_args)
composite_call-Yields_example =
    composite_call-Yields 256 64 5 7 files_only server 11 sys_read read_args caller (omega arith)
      server-Serves refl (refl, refl) read-IsShared reading-InOrder read_args-IsCall

composite_call-errno_example :
    composite_call files_only (some caller) sys_errno read_args
    ≡ some (ok, some (fill_enosys caller))
composite_call-errno_example =
    composite_call-errno 5 files_only sys_errno read_args caller (inr refl) refl refl
