-- ===== src/Tests/Sandboxes.antt =====
-- The secure backend on concrete paths, descriptors and calls.
use semihost.Base.{
  Bool, not, ◌&&◌, ◌==◌, ◌≢◌, All, Bool-cases, inl, inr, ℕ, ◌+◌, true, false, some, List, [], ◌∷◌,
  ◌≡◌, refl, set, arith,
}
use semihost.Ansi.Fds.{FdState, fd_init, fd_alloc, fd_free, place, alloc_from}
use semihost.Ansi.Fds.Invariant.{IsTable, file_of}
use semihost.Ansi.Fds.Laws.{IsAllocated, fd_alloc-IsAllocated}
use semihost.Ansi.Fds.History.{
  IsReached, initial, allocated, IsReached-IsTable, fd_init-IsTable, fd_alloc-fd_free,
}
use semihost.Ansi.Fds.Freed.{IsFreed, fd_free-IsFreed}
use semihost.Ansi.Normalize.{
  ansi_path_normalize, start, normalize_loop, normalize_step, end_path, strip_slash, end_component,
  back_to_slash, add_slash, skip_slashes, is_one_dot, is_two_dots,
}
use semihost.Ansi.Normalize.Reference.{normalized}
use semihost.Ansi.Normalize.Refines.{Refines, ansi_path_normalize-normalized}
use semihost.Ansi.Secure.{mode_is_write}
use semihost.Ansi.Secure.Session.{zbc_ansi_init-IsKept}
use semihost.Ansi.Secure.Table.{
  Operation, zbc_ansi_init, open_file, write_file, close_file, symlink_path, rename_file,
}
use semihost.Ansi.State.{AnsiState, Os, OsAnswer, OsCall, fopen}
use semihost.Ansi.Validate.{ansi_validate_path}
use semihost.Ansi.Validate.Safety.{IsValidated}
use semihost.Ansi.Validate.Resolves.{ansi_validate_path-Yields}
use semihost.Memory.{Bytes, Yields, load, store}

-- "a/b/../c"
abbrev up_and_down : Bytes
up_and_down = 97 ∷ 47 ∷ 98 ∷ 47 ∷ 46 ∷ 46 ∷ 47 ∷ 99 ∷ []

-- The separator in front of the removed component stays: "a//c".
ansi_path_normalize_doubles :
    ansi_path_normalize (97 ∷ 47 ∷ 98 ∷ 47 ∷ 46 ∷ 46 ∷ 47 ∷ 99 ∷ 0 ∷ []) 8
    ≡ some (97 ∷ 47 ∷ 47 ∷ 99 ∷ 0 ∷ 46 ∷ 47 ∷ 99 ∷ 0 ∷ [], 4)
unfolding ansi_path_normalize start normalize_loop normalize_step end_path strip_slash end_component
    back_to_slash add_slash skip_slashes is_one_dot is_two_dots load store
ansi_path_normalize_doubles = refl

-- ".." above the root takes the root's slash away: "/../a" becomes "a".
ansi_path_normalize_root :
    ansi_path_normalize (47 ∷ 46 ∷ 46 ∷ 47 ∷ 97 ∷ 0 ∷ []) 5
    ≡ some (97 ∷ 0 ∷ 46 ∷ 47 ∷ 97 ∷ 0 ∷ [], 1)
unfolding ansi_path_normalize start normalize_loop normalize_step end_path strip_slash end_component
    back_to_slash add_slash skip_slashes is_one_dot is_two_dots load store
ansi_path_normalize_root = refl

-- A NUL behind the dots: the component has three bytes, and stays.
ansi_path_normalize_nul :
    ansi_path_normalize (47 ∷ 115 ∷ 47 ∷ 46 ∷ 46 ∷ 0 ∷ 0 ∷ []) 6
    ≡ some (47 ∷ 115 ∷ 47 ∷ 46 ∷ 46 ∷ 0 ∷ 0 ∷ [], 6)
unfolding ansi_path_normalize start normalize_loop normalize_step end_path strip_slash end_component
    back_to_slash add_slash skip_slashes is_one_dot is_two_dots load store
ansi_path_normalize_nul = refl

-- "r+" opens for writing too.
mode_is_write_plus : mode_is_write 2 ≡ false
mode_is_write_plus = refl

ansi_path_normalize-normalized_example :
    Refines 8
      (7 ∷ [])
      (normalized up_and_down)
      (ansi_path_normalize (97 ∷ 47 ∷ 98 ∷ 47 ∷ 46 ∷ 46 ∷ 47 ∷ 99 ∷ 0 ∷ 7 ∷ []) 8)
ansi_path_normalize-normalized_example =
    ansi_path_normalize-normalized 97 (47 ∷ 98 ∷ 47 ∷ 46 ∷ 46 ∷ 47 ∷ 99 ∷ []) (7 ∷ []) 0

-- "/s"
abbrev sandbox : AnsiState
sandbox = zbc_ansi_init (47 ∷ 115 ∷ []) 0

abbrev has_no_nul : Bytes → Bool
has_no_nul [] = true
has_no_nul (b ∷ bs) = not (b == 0) && has_no_nul bs

has_no_nul-All : (bs : Bytes) → has_no_nul bs ≡ true → All (λ c. c ≢ 0) bs
has_no_nul-All [] h = tt
has_no_nul-All (b ∷ bs) h = elim (Bool-cases (b == 0)) [
  | inl e ↦ let bad : false ≡ true = (rw e at h) in cc
  | inr e ↦ ((λ z. let bad : (b == 0) ≡ true = ground arith in cc), has_no_nul-All bs (rw e at h))
]

sandbox_has_no_nul : has_no_nul sandbox.sandbox_dir ≡ true
unfolding zbc_ansi_init
sandbox_has_no_nul = refl

ansi_validate_path-Yields_example :
    Yields (IsValidated (λ c. c ≢ 0) sandbox true) (ansi_validate_path sandbox up_and_down true)
ansi_validate_path-Yields_example =
    ansi_validate_path-Yields (λ c. c ≢ 0) sandbox up_and_down true (omega arith)
      (has_no_nul-All sandbox.sandbox_dir sandbox_has_no_nul) (has_no_nul-All up_and_down refl)
      (zbc_ansi_init-IsKept (47 ∷ 115 ∷ []) 0).4 (zbc_ansi_init-IsKept (47 ∷ 115 ∷ []) 0).3

fd_alloc-IsAllocated_example : Yields (IsAllocated [] fd_init 9) (fd_alloc fd_init 9)
unfolding fd_init
fd_alloc-IsAllocated_example = fd_alloc-IsAllocated [] fd_init 9 fd_init-IsTable (omega arith)

-- The table with stream 9 open as descriptor 3
abbrev one_open : FdState
one_open = record fd_init { files = set fd_init.files 0 (some 9); next_fd = 4 }

one_open-IsReached : IsReached one_open
unfolding fd_init fd_alloc alloc_from place
one_open-IsReached = allocated fd_init one_open 9 3 initial (omega arith) refl

three_open : file_of one_open 3 ≡ some 9
unfolding fd_init
three_open = refl

fd_free-IsFreed_example :
    IsFreed (IsReached-IsTable one_open one_open-IsReached).0 one_open 3 (fd_free one_open 3)
fd_free-IsFreed_example =
    fd_free-IsFreed (IsReached-IsTable one_open one_open-IsReached).0 one_open 3 9
      (IsReached-IsTable one_open one_open-IsReached).1 (omega arith) three_open

IsReached-IsTable_example : (free : List (ℕ × ℕ)) × IsTable free one_open
IsReached-IsTable_example = IsReached-IsTable one_open one_open-IsReached

fd_alloc-fd_free_example :
    Yields (λ r. (r.0 ≡ 3) × (file_of r.1 3 ≡ some 5)) (fd_alloc (fd_free one_open 3) 5)
fd_alloc-fd_free_example =
    fd_alloc-fd_free one_open 3 9 5 one_open-IsReached (omega arith) three_open (omega arith)

-- A system that opens stream 9 and does everything else with 0, counting the calls
abbrev answer : OsCall → OsAnswer
answer (fopen path mode) = record { result = 9; errno = 0; out = [] }
answer _ = record { result = 0; errno = 0; out = [] }

abbrev counting : Os ℕ
counting = record {
  run = λ c w. (answer c, w + 1);
  eacces = 13;
  einval = 22;
  ebadf = 9;
  emfile = 24;
  enametoolong = 36;
}

abbrev session : List Operation
session =
    open_file up_and_down 4
    ∷ write_file 3 (1 ∷ 2 ∷ []) 2
    ∷ close_file 3
    ∷ rename_file up_and_down (97 ∷ [])
    ∷ symlink_path (47 ∷ []) (98 ∷ [])
    ∷ []
