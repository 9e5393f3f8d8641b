-- ===== src/Ansi/Fds/Invariant.antt =====
-- What holds of the descriptor table of src/c/zbc_ansi_common.c between its operations.
use semihost.Base.{
  ℕ, ◌+◌, ◌-◌, ◌≤◌, ◌<◌, min, true, false, Option, none, some, List, [], ◌∷◌, length, get_elem?,
  get_or, set, All, ◌≡◌, refl, sym, ◌∙◌, inl, inr, ◌⊎◌, arith,
}
use semihost.Ansi.Fds.{FdNode, FdState, max_files, first_fd, minus_one, is_outside, place}
use semihost.Ansi.Fds.Chain.{get_or-set_other, opened, spare, Chain}

abbrev pub IsIn : ℕ → ℕ → List (ℕ × ℕ) → Type 0
IsIn i fd_num [] = ⊥
IsIn i fd_num (e ∷ free) = ((i ≡ e.0) × (fd_num ≡ e.1)) ⊎ IsIn i fd_num free

-- No two entries have one descriptor.
abbrev pub IsDistinct : List (ℕ × ℕ) → Type 0
IsDistinct [] = Unit
IsDistinct (e ∷ free) = All (λ d. e.1 ≡ d.1 → ⊥) free × IsDistinct free

abbrev pub file_of : FdState → ℕ → Option ℕ
file_of s fd_num = get_or s.files (fd_num - first_fd) none

-- A descriptor of the free list was given out before, and is closed.
abbrev pub IsClosed : List (Option ℕ) → ℕ → ℕ × ℕ → Type 0
IsClosed files next_fd e =
    (first_fd ≤ e.1)
    × (e.1 < first_fd + max_files)
    × (e.1 < next_fd)
    × (get_or files (e.1 - first_fd) none ≡ none)

-- The free list is `free`, nodes with their descriptors, the one to be used next first.
pub record IsTable (free : List (ℕ × ℕ)) (s : FdState) : Type 0 where
  pub chain : Chain s.fd_pool s.free_fd_list free
  pub size : length s.files ≡ max_files
  pub next_low : first_fd ≤ s.next_fd
  pub fresh : (k : ℕ) → s.next_fd ≤ k + first_fd → get_or s.files k none ≡ none
  pub closed : All (IsClosed s.files s.next_fd) free
  pub distinct : IsDistinct free
  pub used :
      (i : ℕ) (node : FdNode)
      → get_elem? s.fd_pool i ≡ some node
      → (node.fd ≡ 0) ⊎ IsIn i node.fd free
  pub room : spare s.fd_pool + length free ≡ max_files
  pub count : opened s.files + length free ≡ min s.next_fd (first_fd + max_files) - first_fd

-- What `place` does to the table
pub place_inside :
    (s : FdState) (fd_num fp : ℕ)
    → first_fd ≤ fd_num
    → fd_num < first_fd + max_files
    → place s fd_num fp ≡ (fd_num, record s { files = set s.files (fd_num - first_fd) (some fp) })
unfolding place
place_inside s fd_num fp h k = let e : is_outside fd_num ≡ false = ground arith in rw e refl

pub place_outside :
    (s : FdState) (fd_num fp : ℕ)
    → first_fd + max_files ≤ fd_num
    → place s fd_num fp ≡ (minus_one, s)
unfolding place
place_outside s fd_num fp h = let e : is_outside fd_num ≡ true = ground arith in rw e refl

-- Descriptors that stay closed when another one's file changes
pub closed-set :
    (files : List (Option ℕ)) (next_fd more fd_num : ℕ) (v : Option ℕ) (free : List (ℕ × ℕ))
    → first_fd ≤ fd_num
    → next_fd ≤ more
    → All (λ e. fd_num ≡ e.1 → ⊥) free
    → All (IsClosed files next_fd) free
    → All (IsClosed (set files (fd_num - first_fd) v) more) free
closed-set files next_fd more fd_num v [] low m away h = tt
closed-set files next_fd more fd_num v (e ∷ free) low m (apart, away) ((a, b, c, d), h) = (
  (
    a,
    b,
    omega arith,
    get_or-set_other files (fd_num - first_fd) (e.1 - first_fd) v none (λ same. apart (omega arith))
        ∙ d,
  ),
  closed-set files next_fd more fd_num v free low m away h,
)

-- A descriptor whose file is open, or that was never given out, is not in the free list.
pub open-apart :
    (files : List (Option ℕ)) (next_fd fd_num fp : ℕ) (free : List (ℕ × ℕ))
    → get_or files (fd_num - first_fd) none ≡ some fp
    → All (IsClosed files next_fd) free
    → All (λ e. fd_num ≡ e.1 → ⊥) free
open-apart files next_fd fd_num fp [] o h = tt
open-apart files next_fd fd_num fp (e ∷ free) o ((a, b, c, d), h) =
    (λ same. absurd (cc (rw same at o, d)), open-apart files next_fd fd_num fp free o h)

pub fresh-apart :
    (files : List (Option ℕ)) (next_fd : ℕ) (free : List (ℕ × ℕ))
    → All (IsClosed files next_fd) free
    → All (λ e. next_fd ≡ e.1 → ⊥) free
fresh-apart files next_fd [] h = tt
fresh-apart files next_fd (e ∷ free) ((a, b, c, d), h) =
    (λ same. absurd (omega arith), fresh-apart files next_fd free h)

pub IsIn-tail :
    (i fd_num : ℕ) (e : ℕ × ℕ) (free : List (ℕ × ℕ))
    → (e.0 ≡ i → ⊥)
    → IsIn i fd_num (e ∷ free)
    → IsIn i fd_num free
IsIn-tail i fd_num e free apart (inl (a, b)) = absurd (apart (sym a))
IsIn-tail i fd_num e free apart (inr h) = h
