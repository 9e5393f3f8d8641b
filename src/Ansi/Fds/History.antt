-- ===== src/Ansi/Fds/History.antt =====
-- The life of the descriptor table, src/c/zbc_ansi_common.c.
use mathlib.Core.Option.{some-injective}
use semihost.Base.{
  ℕ, zero, suc, ◌+◌, ◌-◌, ◌≤◌, ◌<◌, Option, none, some, List, [], ◌∷◌, length, get_elem?, get_or,
  set, replicate, ◌≡◌, refl, sym, ap, ◌∙◌, subst, inl, inr, arith,
}
use semihost.Ansi.Fds.{
  FdNode, FdState, max_files, first_fd, int_max, empty_node, fd_init, fd_alloc, fd_free,
}
use semihost.Ansi.Fds.Chain.{get_or-set_same, opened, spare}
use semihost.Ansi.Fds.Invariant.{IsTable, file_of}
use semihost.Ansi.Fds.Laws.{IsGiven, others, outside_low, fd_alloc-IsAllocated}
use semihost.Memory.{Yields, Yields-weaken}
use semihost.Ansi.Fds.Freed.{open_range, fd_free-IsFreed}

abbrev no_file : Option ℕ
no_file = none

get_or-replicate : (n k : ℕ) → get_or (replicate n no_file) k none ≡ none
get_or-replicate zero k = refl
get_or-replicate (suc n) zero = refl
get_or-replicate (suc n) (suc k) = get_or-replicate n k

get_elem?-replicate :
    (n i : ℕ) (node : FdNode) → get_elem? (replicate n empty_node) i ≡ some node → node.fd ≡ 0
get_elem?-replicate zero i node h = cc
get_elem?-replicate (suc n) zero node h = sym (ap FdNode.fd (some-injective empty_node node h))
get_elem?-replicate (suc n) (suc i) node h = get_elem?-replicate n i node h

pub fd_init-IsTable : IsTable [] fd_init
unfolding fd_init spare opened
fd_init-IsTable = record {
  chain = refl;
  size = refl;
  next_low = omega arith;
  fresh = λ k h. get_or-replicate 64 k;
  closed = tt;
  distinct = tt;
  used = λ i node h. inl (get_elem?-replicate 64 i node h);
  room = refl;
  count = refl;
}

-- The tables that the backend can come to: by fd_alloc while next_fd is below INT_MAX, and by
-- fd_free of a descriptor that is open.
pub data IsReached : FdState → Type 0 where
  initial : IsReached fd_init
  allocated :
      (s after : FdState) (fp fd_num : ℕ)
      → IsReached s
      → s.next_fd < int_max
      → fd_alloc s fp ≡ some (fd_num, after)
      → IsReached after
  freed :
      (s after : FdState) (fp fd_num : ℕ)
      → IsReached s
      → first_fd ≤ fd_num
      → file_of s fd_num ≡ some fp
      → fd_free s fd_num ≡ after
      → IsReached after

-- Every table that the backend can come to from fd_init is well-formed: its free list is finite,
-- and holds distinct closed descriptors; every node that is not in it is unused; and the open
-- files and the free descriptors together are those given out so far.
pub IsReached-IsTable : (s : FdState) → IsReached s → (free : List (ℕ × ℕ)) × IsTable free s
IsReached-IsTable _ initial = ([], fd_init-IsTable)
IsReached-IsTable _ (allocated s after fp fd_num r low e) =
    let (free, t) = IsReached-IsTable s r in
    (others free, (rw e at (fd_alloc-IsAllocated free s fp t low)).0)
IsReached-IsTable _ (freed s after fp fd_num r low o e) =
    let (free, t) = IsReached-IsTable s r in
    let (i, u, _, _) = fd_free-IsFreed free s fd_num fp t low o in
    ((i, fd_num) ∷ free, subst (IsTable ((i, fd_num) ∷ free)) e u)

reopened :
    (s : FdState) (fd_num again : ℕ) (r : ℕ × FdState)
    → length (fd_free s fd_num).files ≡ max_files
    → fd_num < first_fd + max_files
    → first_fd ≤ fd_num
    → IsGiven (fd_free s fd_num) again fd_num r.0 r.1
    → (r.0 ≡ fd_num) × (file_of r.1 fd_num ≡ some again)
reopened s fd_num again r size high low (inl (inside, same, _, files)) = (
  same,
  ap (λ (f : List (Option ℕ)). get_or f (fd_num - first_fd) none) files
      ∙ ap
          (λ (n : ℕ).
            get_or (set (fd_free s fd_num).files (n - first_fd) (some again)) (fd_num - first_fd)
              none)
          same
      ∙ get_or-set_same (fd_free s fd_num).files (fd_num - first_fd) (some again) none
          (omega arith),
)
reopened s fd_num again r size high low (inr (outside, _, _)) =
    absurd (cc (outside_low fd_num low high, outside))

-- In every table that the backend can come to, a descriptor that is closed is the next that
-- fd_alloc gives out, and it has the new file; next_fd is below INT_MAX.
pub fd_alloc-fd_free :
    (s : FdState) (fd_num fp again : ℕ)
    → IsReached s
    → first_fd ≤ fd_num
    → file_of s fd_num ≡ some fp
    → s.next_fd < int_max
    → Yields
        (λ r. (r.0 ≡ fd_num) × (file_of r.1 fd_num ≡ some again))
        (fd_alloc (fd_free s fd_num) again)
fd_alloc-fd_free s fd_num fp again r low o bound =
    let (free, t) = IsReached-IsTable s r in
    let (i, u, files, next) = fd_free-IsFreed free s fd_num fp t low o in
    let (high, _) = open_range free s fd_num fp t low o in
    let size = u.size in
    Yields-weaken _ _ (fd_alloc (fd_free s fd_num) again)
      (fd_alloc-IsAllocated ((i, fd_num) ∷ free) (fd_free s fd_num) again u (omega arith))
      λ p given. reopened s fd_num again p size high low given.1
