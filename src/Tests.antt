-- ===== src/Tests.antt =====
-- Concrete data for the runs of the model and for the theorems at inputs that meet their conditions.
mod Formats
mod Clients
mod Hosts
mod Sandboxes
mod Queues
mod Routings
mod Mounts
use semihost.Base.{ℕ, ◌-◌, false, true, none, some, List, [], ◌∷◌, ◌++◌, replicate, get_or}
use semihost.Client.{ClientState}
use semihost.Host.{HostState}
use semihost.Memory.{Bytes}

-- A 32-bit client with 64-bit pointers that has not sent its configuration
abbrev pub fresh : ClientState
fresh = record { cnfg_sent = false; int_size = 4; ptr_size = 8; endianness = 0 }

-- The headers and payloads of a request to close file 5
abbrev pub request_head : Bytes
request_head =
    82 ∷ 73 ∷ 70 ∷ 70 ∷ 132 ∷ 0 ∷ 0 ∷ 0 ∷ 83 ∷ 69 ∷ 77 ∷ 73 ∷ 67 ∷ 78 ∷ 70 ∷ 71 ∷ 4 ∷ 0 ∷ 0 ∷ 0 ∷ 4
    ∷ 8 ∷ 0 ∷ 0 ∷ 67 ∷ 65 ∷ 76 ∷ 76 ∷ 20 ∷ 0 ∷ 0 ∷ 0 ∷ 2 ∷ 0 ∷ 0 ∷ 0 ∷ 80 ∷ 65 ∷ 82 ∷ 77 ∷ 8 ∷ 0 ∷ 0
    ∷ 0 ∷ 1 ∷ 0 ∷ 0 ∷ 0 ∷ 5 ∷ 0 ∷ 0 ∷ 0 ∷ 82 ∷ 69 ∷ 84 ∷ 78 ∷ 8 ∷ 0 ∷ 0 ∷ 0 ∷ 0 ∷ 0 ∷ 0 ∷ 0 ∷ 0 ∷ 0
    ∷ 0 ∷ 0 ∷ 69 ∷ 82 ∷ 82 ∷ 79 ∷ 64 ∷ 0 ∷ 0 ∷ 0 ∷ []

-- The whole request, of 140 bytes
abbrev pub request : Bytes
request = request_head ++ replicate 64 0

-- Guest memory with the request at address 4096
abbrev pub guest : ℕ → ℕ
guest a = get_or request (a - 4096) 0

abbrev pub host : HostState
host = record {
  work_buf = replicate 512 0;
  guest_int_size = 0;
  guest_ptr_size = 0;
  guest_endianness = 0;
  cnfg_received = false;
  notifies = true;
  writes = [];
  signals = [];
}
