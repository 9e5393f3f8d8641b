-- ===== src/P9/Session.antt =====
-- The state of the 9P transport, zbc_9p_state_t of include/c/zbc_9p.h, and computations on it. A
-- computation accesses the transport's buffers, may return from its C function early, and is `none`
-- at an access outside a buffer.
use semihost.Base.{ℕ, Bool, true, false, ◌+◌, ◌-◌, ◌^◌, Option, none, some, List, if◌then◌else◌}
use semihost.Client.Response.{Response}
use semihost.Memory.{Bytes}
use semihost.Riff.{Rc}
use semihost.Virtio.{Virtq}
pub mod Safe
pub mod Ends
pub mod Leaves

-- zbc_9p_file_t, and zbc_9p_dir_t, which has the same fields
pub record Handle : Type 0 where
  pub offset : ℕ
  pub in_use : Bool

-- zbc_9p_state_t: the queue, the two halves of the message buffer with their addresses, the
-- negotiated size and the handles. Beside it stand the caller's response and the buffer that its
-- arguments point to, and the T-messages that were sent.
pub record Session : Type 0 where
  pub vq : Virtq
  pub tx_at : ℕ
  pub rx_at : ℕ
  pub tx : Bytes
  pub rx : Bytes
  pub msize : ℕ
  pub files : List Handle
  pub dirs : List Handle
  pub last_errno : ℕ
  pub tmpnam_counter : ℕ
  pub response : Response
  pub out : Bytes
  pub turns : ℕ
  pub sent : List Bytes

-- How a statement ends: with a value, or with `return rc;`
pub data Flow (A : Type 0) : Type 0 where
  next : A → Flow A
  returned : Rc → Flow A

abbrev pub P9 : Type 0 → Type 0
P9 A = Session → Option (Flow A × Session)

module _ {A B : Type 0} where
  abbrev pub follow : Flow A → (A → P9 B) → P9 B
  follow (next a) f s = f a s
  follow (returned rc) f s = some (returned rc, s)

  abbrev pub run_on : Option (Flow A × Session) → (A → P9 B) → Option (Flow B × Session)
  run_on none f = none
  run_on (some r) f = follow r.0 f r.1

  infixl 5 ◌>>=◌ ◌>>◌
  unfoldable pub ◌>>=◌ : P9 A → (A → P9 B) → P9 B
  ◌>>=◌ m f s = run_on (m s) f

  abbrev pub ◌>>◌ : P9 A → P9 B → P9 B
  m >> k = m >>= λ _. k

module _ {A : Type 0} where
  unfoldable pub pure : A → P9 A
  pure a s = some (next a, s)

  unfoldable pub return : Rc → P9 A
  return rc s = some (returned rc, s)

  unfoldable pub gets : (Session → A) → P9 A
  gets f s = some (next (f s), s)

  abbrev pub reached : Option A → P9 A
  reached none s = none
  reached (some a) s = some (next a, s)

  -- An access to memory
  unfoldable pub access : (Session → Option A) → P9 A
  access f s = reached (f s) s

unfoldable pub modify : (Session → Session) → P9 (Unit {0})
modify f s = some (next tt, f s)

-- if (b) { m }
abbrev pub when : Bool → P9 (Unit {0}) → P9 (Unit {0})
when b m = if b then m else pure tt

-- -1 as an `int`
abbrev pub minus_one : ℕ
minus_one = 2 ^ 32 - 1

-- p9_fill_response
unfoldable pub p9_fill_response : ℕ → ℕ → P9 (Unit {0})
p9_fill_response result error_code = modify λ s. record s {
  response = record {
    result = result;
    error_code = error_code;
    data_ptr = none;
    data_size = 0;
    is_error = false;
    proto_error = 0;
  };
}

-- response->data = the caller's buffer; response->data_size = size;
unfoldable pub give_data : ℕ → P9 (Unit {0})
give_data size =
    modify λ s. record s { response = record (s.response) { data_ptr = some 0; data_size = size } }

-- fail_errno(s, response, err); return ZBC_OK;
unfoldable pub fail_errno : {A : Type 0} → ℕ → P9 A
fail_errno err = do
  modify λ s. record s { last_errno = err }
  p9_fill_response minus_one err
  return Rc.ok
