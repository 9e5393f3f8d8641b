-- ===== src/Host/Dispatch/Safety.antt =====
-- Accesses and guest writes of zbc_host_process, src/c/zbc_host.c.
use semihost.Base.{ℕ, ◌+◌, ◌^◌, ◌<◌}
use semihost.Host.{HostState}
use semihost.Host.Backend.{Backend}
use semihost.Host.Callers.Total.{IsHonest}
use semihost.Host.Confined.{IsConfined}

module _ {S : Type 0} (be : Backend S) (honest : IsHonest be) (riff_addr n : ℕ)
    (low : riff_addr + n < 2 ^ 64) where
  abbrev IsSafe : HostState × S → Type 0
  IsSafe r = IsConfined (riff_addr + 20) (riff_addr + n) r.0
