-- ===== src/Ansi/Fds/Freed.antt =====
-- Freeing a descriptor, src/c/zbc_ansi_common.c.
use semihost.Base.{
  dec_lt, ℕ, zero, suc, ◌+◌, ◌-◌, ◌≤◌, ◌<◌, true, ◌==◌, ◌||◌, Option, none, some, List, [], ◌∷◌,
  length, get_or, set, All, length-set, ◌≡◌, refl, ap, ◌∙◌, Bool-cases, inl, inr, ◌⊎◌, arith,
}
use semihost.Ansi.Fds.{FdNode, FdState, max_files, first_fd, find_node, link, fd_free}
use semihost.Ansi.Fds.Chain.{
  get_or-set_same, get_or-set_other, get_elem?-set_same, opened-set-none, spare-set_used,
  find_node-some, Chain-set,
}
use semihost.Ansi.Fds.Invariant.{IsIn, IsClosed, IsTable, file_of, closed-set, open-apart}
use semihost.Ansi.Fds.Laws.{outside_low, used_free}

get_or_inside {ℓ} :
    {A : Type ℓ} (xs : List (Option A)) (i : ℕ) {v : A} → get_or xs i none ≡ some v → i < length xs
get_or_inside [] i h = cc
get_or_inside (x ∷ xs) zero h = omega arith
get_or_inside (x ∷ xs) (suc i) h = omega (arith, get_or_inside xs i h)

-- An open descriptor is one of 3 to 66, and below next_fd.
pub open_range :
    (free : List (ℕ × ℕ)) (s : FdState) (fd_num fp : ℕ)
    → IsTable free s
    → first_fd ≤ fd_num
    → file_of s fd_num ≡ some fp
    → (fd_num < first_fd + max_files) × (fd_num < s.next_fd)
open_range free s fd_num fp t low o =
    let size = t.size in
    (
      omega (arith, get_or_inside s.files (fd_num - first_fd) o),
      elim (dec_lt fd_num s.next_fd) [
        | yes p ↦ p
        | no p ↦ absurd (cc (o, t.fresh (fd_num - first_fd) (omega arith)))
      ],
    )

IsIn-apart :
    (i fd_num : ℕ) (free : List (ℕ × ℕ)) → All (λ e. fd_num ≡ e.1 → ⊥) free → IsIn i fd_num free → ⊥
IsIn-apart i fd_num [] away m = absurd m
IsIn-apart i fd_num (e ∷ free) (apart, away) (inl (a, b)) = apart b
IsIn-apart i fd_num (e ∷ free) (apart, away) (inr m) = IsIn-apart i fd_num free away m

-- The node that find_node takes for an open descriptor is unused.
unused :
    (free : List (ℕ × ℕ)) (i fd_num : ℕ) (node : FdNode)
    → All (λ e. fd_num ≡ e.1 → ⊥) free
    → (node.fd == 0 || node.fd == fd_num) ≡ true
    → (node.fd ≡ 0) ⊎ IsIn i node.fd free
    → node.fd ≡ 0
unused free i fd_num node away fits (inl z) = z
unused free i fd_num node away fits (inr m) = elim (Bool-cases (node.fd == 0)) [
  | inl z ↦ ground arith
  | inr p ↦
      let same : node.fd ≡ fd_num = ground arith in
      absurd (IsIn-apart i fd_num free away (rw same at m))
]

-- A free list that an open descriptor has been put in front of
abbrev pub IsFreed : List (ℕ × ℕ) → FdState → ℕ → FdState → Type 0
IsFreed free s fd_num after =
    (i : ℕ) × IsTable ((i, fd_num) ∷ free) after
    × (after.files ≡ set s.files (fd_num - first_fd) none)
    × (after.next_fd ≡ s.next_fd)

-- On a well-formed table, fd_free of an open descriptor leaves a well-formed table, with the
-- descriptor in front of the free list; its file is gone, no other file changes, nor does next_fd.
pub fd_free-IsFreed :
    (free : List (ℕ × ℕ)) (s : FdState) (fd_num fp : ℕ)
    → IsTable free s
    → first_fd ≤ fd_num
    → file_of s fd_num ≡ some fp
    → IsFreed free s fd_num (fd_free s fd_num)
unfolding fd_free link
fd_free-IsFreed free s fd_num fp t low o =
    let at = fd_num - first_fd in
    let size = t.size in
    let (high, given) = open_range free s fd_num fp t low o in
    let away = open-apart s.files s.next_fd fd_num fp free o t.closed in
    let fewer = opened-set-none s.files at fp o in
    let (i, node, found, here, fits) =
      find_node-some s.fd_pool fd_num 0 (omega (arith, t.room, t.count)) in
    let zero_fd = unused free i fd_num node away fits (t.used i node here) in
    let new : FdNode = record { fd = fd_num; next = s.free_fd_list } in
    let found_at : find_node s.fd_pool fd_num 0 ≡ some i = found ∙ ap some (omega arith) in
    let fewer_nodes = spare-set_used s.fd_pool i node new here zero_fd (omega arith) in
    rw (outside_low fd_num low high, found_at)
      (
        i,
        record {
          chain = (
            s.free_fd_list,
            refl,
            get_elem?-set_same s.fd_pool i new here,
            Chain-set s.fd_pool s.free_fd_list free i node new t.chain here
                (low_apart free node zero_fd s t.closed),
          );
          size = length-set s.files at none ∙ t.size;
          next_low = t.next_low;
          fresh = λ k h.
              get_or-set_other s.files at k none none (λ same. absurd (omega arith)) ∙ t.fresh k h;
          closed = (
            (low, high, given, get_or-set_same s.files at none none (get_or_inside s.files at o)),
            closed-set s.files s.next_fd s.next_fd fd_num none free low (omega arith) away t.closed,
          );
          distinct = (away, t.distinct);
          used = used_free s.fd_pool i free node new here t.used;
          room = omega (arith, t.room);
          count = omega (arith, t.count);
        },
        refl,
        refl,
      )
  where
    low_apart :
        (free : List (ℕ × ℕ)) (node : FdNode)
        → node.fd ≡ 0
        → (s : FdState) → All (IsClosed s.files s.next_fd) free
        → All (λ e. node.fd ≡ e.1 → ⊥) free
    low_apart [] node z s h = tt
    low_apart (e ∷ free) node z s ((a, b, c, d), h) =
        (λ same. absurd (omega arith), low_apart free node z s h)
