-- ===== src/Tests/Mounts.antt =====
-- The 9P transport with a concrete device.
use semihost.Base.{
  ℕ, zero, suc, ◌+◌, ◌*◌, ◌/◌, ◌%◌, ◌^◌, ◌≤◌, ◌<◌, true, some, [], ◌∷◌, replicate, length, get_or,
  min, ◌≡◌, ◌≢◌, refl, ap, ◌∙◌, sym, arith, bit_or, bit_or_low, ◌==◌, if◌then◌else◌,
}
use native.Mathlib.Nat.{mod-lt}
use semihost.Client.Response.{empty_response}
use semihost.Memory.{Bytes, IsBytes, is_bytes-IsBytes, Yields, load}
use semihost.P9.Files.{no_handle, do_read, do_write, do_open, do_close}
use semihost.P9.Rpc.{Device}
use semihost.P9.Rpc.Safe.{Serves}
use semihost.P9.Session.{Session, next}
use semihost.P9.Session.Safe.{InOrder}
use semihost.Tests.Queues.{fresh_queue, fresh_queue-IsQueue}
use semihost.Virtio.{Virtq}
use semihost.Virtio.Exchange.{length_at}
use semihost.Opcode.{sys_read}
use semihost.P9.Files.Counts.{IsRead, IsWritten, do_read-IsRead, do_write-IsWritten}
use semihost.P9.Files.Endless.{do_read-ne-next}
use semihost.P9.Files.Handles.{EndsWith, IsOpened, IsClosed, do_open-IsOpened, do_close-IsClosed}
use semihost.P9.Session.Ends.{IfEnds}
use semihost.P9.Transport.{Args, zbc_9p_mount}
use semihost.P9.Transport.Mount.{zbc_9p_mount-Yields}
use semihost.P9.Transport.Safe.{IsCall}
use semihost.P9.Walk.Split.{fields, nonempty, components}
use semihost.Riff.{Rc}
use semihost.Word.{u16, read_u16_le, read_u32_le}
use semihost.Word.Laws.{make_fourcc_sum, read_u32_le-append}

-- The entries of a used ring, each with the same length below 256
abbrev entries : ℕ → ℕ → Bytes
entries zero len = []
entries (suc m) len = 0 ∷ 0 ∷ 0 ∷ 0 ∷ len ∷ 0 ∷ 0 ∷ 0 ∷ entries m len

-- A used ring with the index `idx`
abbrev ring : ℕ → ℕ → ℕ → Bytes
ring idx m len = 0 ∷ 0 ∷ idx % 256 ∷ idx / 256 ∷ entries m len

length-entries : (m len : ℕ) → length (entries m len) ≡ 8 * m
length-entries zero len = refl
length-entries (suc m) len = omega (arith, length-entries m len)

entries-IsBytes : (m len : ℕ) → len < 256 → IsBytes (entries m len)
entries-IsBytes zero len h = tt
entries-IsBytes (suc m) len h = (
  omega arith,
  (
    omega arith,
    (
      omega arith,
      (omega arith, (h, (omega arith, (omega arith, (omega arith, entries-IsBytes m len h))))),
    ),
  ),
)

read_entry : (m len i : ℕ) → i < m → len < 256 → read_u32_le (entries m len) (8 * i + 4) ≡ some len
read_entry zero len i h l = absurd (omega arith)
read_entry (suc m) len zero h l =
    unfold read_u32_le load in
    ap some (make_fourcc_sum len 0 0 0 l (omega arith) (omega arith) (omega arith) ∙ omega arith)
read_entry (suc m) len (suc i) h l =
    ap (read_u32_le (entries (suc m) len)) {x = 8 * suc i + 4} (omega arith)
    ∙ (read_u32_le-append (0 ∷ 0 ∷ 0 ∷ 0 ∷ len ∷ 0 ∷ 0 ∷ 0 ∷ []) (entries m len) (8 * i + 4)
        ∙ read_entry m len i (omega arith) l)

ring-read : (idx m len : ℕ) → idx < 2 ^ 16 → read_u16_le (ring idx m len) 2 ≡ some idx
ring-read idx m len h =
    let e : u16 (idx / 256 * 2 ^ 8) ≡ idx / 256 * 2 ^ 8 = omega arith in
    unfold read_u16_le load in
    ap some (
      ap (bit_or (idx % 256)) e ∙ omega (arith, bit_or_low 8 (idx / 256) (idx % 256) (omega arith)))

-- The length that the polling driver finds
ring-length :
    (idx len : ℕ) (q : Virtq)
    → 2 ≤ q.size
    → len < 256
    → read_u32_le (ring idx q.size len) (length_at q) ≡ some len
ring-length idx len q h l =
    let i = q.last_used_idx % q.size in
    let inside : i < q.size = mod-lt q.last_used_idx {m = q.size} (omega arith) in
    ap (read_u32_le (ring idx q.size len)) {x = length_at q} {y = 4 + (8 * i + 4)} (omega arith)
    ∙ (read_u32_le-append (0 ∷ 0 ∷ idx % 256 ∷ idx / 256 ∷ []) (entries q.size len) (8 * i + 4)
        ∙ read_entry q.size len i inside l)

-- The device's answer to a message: the reply's type, and a payload of a one and zeros
abbrev reply_bytes : Bytes → Bytes
reply_bytes message =
    200 ∷ 0 ∷ 0 ∷ 0 ∷ (get_or message 4 0 + 1) % 256 ∷ 1 ∷ 0 ∷ 1 ∷ 0 ∷ replicate 191 0

abbrev pub server : Device
server i q message room = record {
  fuel = 1;
  rings = λ _. ring ((q.last_used_idx + 1) % 2 ^ 16) q.size (min room 200);
  received = reply_bytes message;
}

reply-IsBytes : (message : Bytes) → IsBytes (reply_bytes message)
reply-IsBytes message = (
  omega arith,
  (
    omega arith,
    (
      omega arith,
      (
        omega arith,
        (
          omega arith,
          (
            omega arith,
            (omega arith, (omega arith, (omega arith, is_bytes-IsBytes (replicate 191 0) refl))),
          ),
        ),
      ),
    ),
  ),
)

pub server-Serves : Serves server
server-Serves = record {
  turns = λ i q message room w idle. record {
    polls = 0;
    enough = omega arith;
    done = (
      λ j h. absurd (omega arith),
      (
        omega (arith, length-entries q.size (min room 200)),
        ((
          omega arith,
          (
            omega arith,
            (omega arith, (omega arith, entries-IsBytes q.size (min room 200) (omega arith))),
          ),
        )),
        ring-read ((q.last_used_idx + 1) % 2 ^ 16) q.size (min room 200) (omega arith),
      ),
    );
    bytes = reply-IsBytes message;
    within = λ len e.
        let low = w.size_low in
        let same : some (min room 200) ≡ some len =
          sym
            (ring-length ((q.last_used_idx + 1) % 2 ^ 16) (min room 200) q w.size_low (omega arith))
          ∙ e in
        ground arith;
  };
}

abbrev mounted : Session
mounted = record {
  vq = fresh_queue;
  tx_at = 4096;
  rx_at = 8192;
  tx = replicate 256 0;
  rx = replicate 256 0;
  msize = 256;
  files = replicate 8 no_handle;
  dirs = replicate 4 no_handle;
  last_errno = 0;
  tmpnam_counter = 0;
  response = empty_response;
  out = replicate 64 0;
  turns = 0;
  sent = [];
}

mounted-InOrder : InOrder 256 64 mounted
mounted-InOrder = record {
  queue = fresh_queue-IsQueue;
  idle = refl;
  msize_is = refl;
  tx_room = omega arith;
  rx_room = omega arith;
  rx_bytes = is_bytes-IsBytes (replicate 256 0) refl;
  files_len = refl;
  dirs_len = refl;
  out_len = refl;
}

-- The same session with descriptor 3 open
abbrev pub reading : Session
reading = record mounted { files = record { offset = 5; in_use = true } ∷ replicate 7 no_handle }

pub reading-InOrder : InOrder 256 64 reading
reading-InOrder = record {
  queue = fresh_queue-IsQueue;
  idle = refl;
  msize_is = refl;
  tx_room = omega arith;
  rx_room = omega arith;
  rx_bytes = is_bytes-IsBytes (replicate 256 0) refl;
  files_len = refl;
  dirs_len = refl;
  out_len = refl;
}

-- The words of a read of 10 bytes from descriptor 3
abbrev pub read_args : Args
read_args = record { word = λ i. if i == 0 then 3 else if i == 2 then 10 else 0; text = λ i. [] }

pub read_args-IsCall : IsCall 11 64 read_args sys_read
read_args-IsCall = record {
  bytes = λ i. tt;
  opens = λ e. absurd (omega (arith, e));
  path = λ e. cc;
  paths = λ e. cc;
  writes = λ e. absurd (omega (arith, e));
  reads = λ e. (omega arith, omega arith, omega arith);
  truncates = λ e. absurd (omega (arith, e));
  names = λ e. absurd (omega (arith, e));
  stats = λ e. cc;
  lists = λ e. absurd (omega (arith, e));
  links = λ e. absurd (omega (arith, e));
}

zbc_9p_mount-Yields_example :
    Yields (λ r. (m : ℕ) × (128 ≤ m) × (m ≤ 256) × InOrder m 64 r.1) (zbc_9p_mount server mounted)
zbc_9p_mount-Yields_example =
    zbc_9p_mount-Yields 256 64 server mounted (omega arith) server-Serves mounted-InOrder

do_open-IsOpened_example :
    IfEnds (EndsWith reading.files (IsOpened server reading)) (do_open server (b'a' ∷ []) 4 reading)
do_open-IsOpened_example = do_open-IsOpened server (b'a' ∷ []) 4 reading

do_close-IsClosed_example :
    IfEnds (EndsWith reading.files (IsClosed server 3 reading)) (do_close server 3 reading)
do_close-IsClosed_example = do_close-IsClosed server 3 reading

do_read-ne-next_example : do_read server 20 3 (2 ^ 32 * suc 0) reading ≢ some (next Rc.ok, mounted)
do_read-ne-next_example = do_read-ne-next server 20 3 0 reading mounted Rc.ok

do_read-IsRead_example :
    IfEnds (EndsWith reading.files (IsRead 3 10 reading)) (do_read server 11 3 10 reading)
do_read-IsRead_example = do_read-IsRead server 11 3 10 reading

do_write-IsWritten_example :
    IfEnds
      (EndsWith reading.files (IsWritten 3 1 reading))
      (do_write server 11 3 (b'a' ∷ []) 1 reading)
do_write-IsWritten_example = do_write-IsWritten server 11 3 1 reading (b'a' ∷ [])

-- "/a//bc"
abbrev deep_path : Bytes
deep_path = b'/' ∷ b'a' ∷ b'/' ∷ b'/' ∷ b'b' ∷ b'c' ∷ []

two_components : components deep_path ≡ (b'a' ∷ []) ∷ (b'b' ∷ b'c' ∷ []) ∷ []
unfolding components fields nonempty
two_components = refl
