-- ===== src/Ansi/Fds.antt =====
-- The descriptor table of src/c/zbc_ansi_common.c. A FILE pointer is a number that the C library
-- gave, a node of the free list is its place in fd_pool, and a guest's `int` is its 32-bit pattern.
use semihost.Base.{
  ℕ, zero, suc, ◌+◌, ◌-◌, ◌^◌, Bool, true, false, ◌==◌, ltb, leb, ◌||◌, if◌then◌else◌, Option, none,
  some, List, [], ◌∷◌, get_elem?, get_or, set, replicate,
}
use semihost.Memory.{◌>>=◌}
pub mod Chain
pub mod Invariant
pub mod Laws
pub mod Freed
pub mod History

abbrev pub max_files : ℕ
max_files = 64

abbrev pub first_fd : ℕ
first_fd = 3

-- -1 as an `int`
abbrev pub minus_one : ℕ
minus_one = 2 ^ 32 - 1

-- INT_MAX
abbrev pub int_max : ℕ
int_max = 2 ^ 31 - 1

-- zbc_ansi_fd_node_t
pub record FdNode : Type 0 where
  pub fd : ℕ
  pub next : Option ℕ

-- zbc_ansi_fd_state_t
pub record FdState : Type 0 where
  pub files : List (Option ℕ)
  pub fd_pool : List FdNode
  pub free_fd_list : Option ℕ
  pub next_fd : ℕ

pub data Stream : Type 0 where
  stdin stdout stderr : Stream
  file : ℕ → Stream

abbrev pub empty_node : FdNode
empty_node = record { fd = 0; next = none }

unfoldable pub fd_init : FdState
fd_init = record {
  files = replicate max_files none;
  fd_pool = replicate max_files empty_node;
  free_fd_list = none;
  next_fd = first_fd;
}

-- idx < 0 || idx >= ZBC_ANSI_MAX_FILES
abbrev pub is_outside : ℕ → Bool
is_outside fd_num = ltb fd_num first_fd || leb (first_fd + max_files) fd_num

unfoldable pub place : FdState → ℕ → ℕ → ℕ × FdState
place s fd_num fp =
    if is_outside fd_num
    then (minus_one, s)
    else (fd_num, record s { files = set s.files (fd_num - first_fd) (some fp) })

-- A next_fd past INT_MAX is undefined in C, `none` here.
unfoldable pub alloc_from : FdState → ℕ → Option ℕ → Option (ℕ × FdState)
unfolding place
alloc_from s fp none =
    if ltb s.next_fd int_max
    then some (place (record s { next_fd = s.next_fd + 1 }) s.next_fd fp)
    else none
alloc_from s fp (some i) = get_elem? s.fd_pool i >>= λ node.
    some (
      place (record s { free_fd_list = node.next; fd_pool = set s.fd_pool i empty_node }) node.fd
        fp)

unfoldable pub fd_alloc : FdState → ℕ → Option (ℕ × FdState)
unfolding alloc_from
fd_alloc s fp = alloc_from s fp s.free_fd_list

-- The first node of the pool, from node `i` on, that is unused or has the descriptor already
unfoldable pub find_node : List FdNode → ℕ → ℕ → Option ℕ
find_node [] fd_num i = none
find_node (node ∷ pool) fd_num i =
    let later = find_node pool fd_num (i + 1) in
    if node.fd == 0 || node.fd == fd_num then some i else later

unfoldable pub link : FdState → ℕ → Option ℕ → FdState
link s fd_num none = s
link s fd_num (some i) = record s {
  fd_pool = set s.fd_pool i (record { fd = fd_num; next = s.free_fd_list });
  free_fd_list = some i;
}

unfoldable pub fd_free : FdState → ℕ → FdState
unfolding link find_node
fd_free s fd_num =
    if is_outside fd_num
    then s
    else link (record s { files = set s.files (fd_num - first_fd) none }) fd_num
        (find_node s.fd_pool fd_num 0)

unfoldable pub fd_get : FdState → ℕ → Option Stream
fd_get s fd_num =
    if fd_num == 0
    then some stdin
    else if fd_num == 1
    then some stdout
    else if fd_num == 2
    then some stderr
    else if is_outside fd_num
    then none
    else elim (get_or s.files (fd_num - first_fd) none) [ none ↦ none | some fp ↦ some (file fp) ]
