-- ===== src/Ansi/Fds/Laws.antt =====
-- The operations of the descriptor table of src/c/zbc_ansi_common.c.
use mathlib.Core.Option.{some-injective}
use semihost.Base.{
  ℕ_discrete, ℕ, ◌+◌, ◌-◌, ◌≤◌, ◌<◌, true, false, ltb, Option, none, some, List, [], ◌∷◌, get_elem?,
  set, length-set, ◌≡◌, refl, sym, ap, ◌∙◌, Bool-cases, inl, inr, ◌⊎◌, arith,
}
use semihost.Ansi.Fds.{
  FdNode, FdState, max_files, first_fd, minus_one, int_max, empty_node, is_outside, alloc_from,
  fd_alloc,
}
use semihost.Ansi.Fds.Chain.{
  get_or-set_other, get_elem?-set_other, get_elem?-set_same, opened-set-some, spare-set_unused,
  Chain, Chain-set,
}
use semihost.Ansi.Fds.Invariant.{
  IsIn, IsTable, file_of, place_inside, place_outside, closed-set, IsIn-tail,
}
use semihost.Memory.{Yields}

-- The descriptor that is to be given out next, and the free list without it
abbrev pub expected : List (ℕ × ℕ) → ℕ → ℕ
expected [] next_fd = next_fd
expected (e ∷ free) next_fd = e.1

abbrev pub others : List (ℕ × ℕ) → List (ℕ × ℕ)
others [] = []
others (e ∷ free) = free

-- A closed descriptor with its file put in place, or -1 and the files as they were
abbrev pub IsGiven : FdState → ℕ → ℕ → ℕ → FdState → Type 0
IsGiven s fp next fd_num after =
    ((is_outside next ≡ false)
      × (fd_num ≡ next)
      × (file_of s fd_num ≡ none)
      × (after.files ≡ set s.files (fd_num - first_fd) (some fp)))
    ⊎ ((is_outside next ≡ true) × (fd_num ≡ minus_one) × (after.files ≡ s.files))

abbrev pub IsAllocated : List (ℕ × ℕ) → FdState → ℕ → ℕ × FdState → Type 0
IsAllocated free s fp r =
    IsTable (others free) r.1
    × IsGiven s fp (expected free s.next_fd) r.0 r.1
    × (r.1.next_fd ≤ s.next_fd + 1)

pub outside_low :
    (fd_num : ℕ) → first_fd ≤ fd_num → fd_num < first_fd + max_files → is_outside fd_num ≡ false
outside_low fd_num h k = ground arith

-- A new descriptor
fresh-IsTable :
    (s : FdState) (fp : ℕ)
    → IsTable [] s
    → s.next_fd < first_fd + max_files
    → IsTable []
        (record s { next_fd = s.next_fd + 1; files = set s.files (s.next_fd - first_fd) (some fp) })
fresh-IsTable s fp t low =
    let at = s.next_fd - first_fd in
    let low_next = t.next_low in
    let size = t.size in
    let none_there = t.fresh at (omega arith) in
    record {
      chain = t.chain;
      size = length-set s.files at (some fp) ∙ t.size;
      next_low = omega arith;
      fresh = λ k h.
          get_or-set_other s.files at k (some fp) none (λ e. absurd (omega arith))
          ∙ t.fresh k (omega arith);
      closed = tt;
      distinct = tt;
      used = t.used;
      room = t.room;
      count = omega (arith, t.count, opened-set-some s.files at fp (omega arith) none_there);
    }

spent-IsTable :
    (s : FdState)
    → IsTable [] s
    → first_fd + max_files ≤ s.next_fd
    → IsTable [] (record s { next_fd = s.next_fd + 1 })
spent-IsTable s t high =
    let low_next = t.next_low in
    record {
      chain = t.chain;
      size = t.size;
      next_low = omega arith;
      fresh = λ k h. t.fresh k (omega arith);
      closed = tt;
      distinct = tt;
      used = t.used;
      room = t.room;
      count = omega (arith, t.count);
    }

used_reuse :
    (pool : List FdNode) (e : ℕ × ℕ) (free : List (ℕ × ℕ)) (old : FdNode)
    → get_elem? pool e.0 ≡ some old
    → ((i : ℕ) (node : FdNode)
        → get_elem? pool i ≡ some node
        → (node.fd ≡ 0) ⊎ IsIn i node.fd (e ∷ free))
    → (i : ℕ) (node : FdNode) → get_elem? (set pool e.0 empty_node) i ≡ some node
    → (node.fd ≡ 0) ⊎ IsIn i node.fd free
used_reuse pool e free old here used i node h = elim (ℕ_discrete e.0 i) [
  | yes same ↦
      let emptied =
        sym (get_elem?-set_same pool e.0 empty_node here)
        ∙ ap (get_elem? (set pool e.0 empty_node)) same
        ∙ h in
      inl (sym (ap FdNode.fd (some-injective empty_node node emptied)))
  | no apart ↦ elim (used i node (sym (get_elem?-set_other pool e.0 i empty_node apart) ∙ h)) [
    | inl z ↦ inl z
    | inr m ↦ inr (IsIn-tail i node.fd e free apart m)
  ]
]

pub used_free :
    (pool : List FdNode) (j : ℕ) (free : List (ℕ × ℕ)) (old new : FdNode)
    → get_elem? pool j ≡ some old
    → ((i : ℕ) (node : FdNode) → get_elem? pool i ≡ some node → (node.fd ≡ 0) ⊎ IsIn i node.fd free)
    → (i : ℕ) (node : FdNode) → get_elem? (set pool j new) i ≡ some node
    → (node.fd ≡ 0) ⊎ IsIn i node.fd ((j, new.fd) ∷ free)
used_free pool j free old new here used i node h = elim (ℕ_discrete j i) [
  | yes same ↦
      let written =
        sym (get_elem?-set_same pool j new here) ∙ ap (get_elem? (set pool j new)) same ∙ h in
      inr (inl (sym same, sym (ap FdNode.fd (some-injective new node written))))
  | no apart ↦ elim (used i node (sym (get_elem?-set_other pool j i new apart) ∙ h)) [
    | inl z ↦ inl z
    | inr m ↦ inr (inr m)
  ]
]

-- The descriptor that was freed last
reuse-IsTable :
    (s : FdState) (fp : ℕ) (e : ℕ × ℕ) (free : List (ℕ × ℕ)) (next : Option ℕ)
    → IsTable (e ∷ free) s
    → get_elem? s.fd_pool e.0 ≡ some record { fd = e.1; next = next }
    → Chain s.fd_pool next free
    → IsTable free (record s {
      free_fd_list = next;
      fd_pool = set s.fd_pool e.0 empty_node;
      files = set s.files (e.1 - first_fd) (some fp);
    })
reuse-IsTable s fp e free next t here rest =
    let at = e.1 - first_fd in
    let size = t.size in
    let (a, b, c, d) = t.closed.0 in
    let (apart, distinct) = t.distinct in
    record {
      chain =
          Chain-set s.fd_pool next free e.0 record { fd = e.1; next = next } empty_node rest here
            apart;
      size = length-set s.files at (some fp) ∙ t.size;
      next_low = t.next_low;
      fresh = λ k h.
          get_or-set_other s.files at k (some fp) none (λ same. absurd (omega arith)) ∙ t.fresh k h;
      closed =
          closed-set s.files s.next_fd s.next_fd e.1 (some fp) free a (omega arith) apart
            t.closed.1;
      distinct = distinct;
      used = used_reuse s.fd_pool e free record { fd = e.1; next = next } here t.used;
      room = omega (
        arith,
        t.room,
        spare-set_unused s.fd_pool e.0 record { fd = e.1; next = next } here (omega arith),
      );
      count = omega (arith, t.count, opened-set-some s.files at fp (omega arith) d);
    }

alloc_from-IsAllocated :
    (free : List (ℕ × ℕ)) (s : FdState) (fp : ℕ) (head : Option ℕ)
    → s.free_fd_list ≡ head
    → IsTable free s
    → s.next_fd < int_max
    → Yields (IsAllocated free s fp) (alloc_from s fp head)
unfolding alloc_from
alloc_from-IsAllocated [] s fp none eq t low =
    let bound : ltb s.next_fd int_max ≡ true = ground arith in
    let low_next = t.next_low in
    elim (Bool-cases (ltb s.next_fd (first_fd + max_files))) [
      | inl room ↦
          let inside : s.next_fd < first_fd + max_files = ground arith in
          rw
            (
              bound,
              place_inside (record s { next_fd = s.next_fd + 1 }) s.next_fd fp low_next inside,
            )
            (
              fresh-IsTable s fp t inside,
              inl (outside_low s.next_fd low_next inside, refl, t.fresh _ (omega arith), refl),
              omega arith,
            )
      | inr full ↦
          let past : first_fd + max_files ≤ s.next_fd = ground arith in
          rw (bound, place_outside (record s { next_fd = s.next_fd + 1 }) s.next_fd fp past)
            (spent-IsTable s t past, inr (ground arith, refl, refl), omega arith)
    ]
alloc_from-IsAllocated [] s fp (some i) eq t low = absurd (cc (eq, t.chain))
alloc_from-IsAllocated (e ∷ free) s fp none eq t low = absurd (cc (eq, t.chain.1))
alloc_from-IsAllocated (e ∷ free) s fp (some i) eq t low =
    let (next, head, here, rest) = t.chain in
    let (a, b, c, d) = t.closed.0 in
    let same : i ≡ e.0 = some-injective i e.0 (sym eq ∙ head) in
    let emptied = record s { free_fd_list = next; fd_pool = set s.fd_pool e.0 empty_node } in
    rw (same, here, place_inside emptied e.1 fp a b)
      (
        reuse-IsTable s fp e free next t here rest,
        inl (outside_low e.1 a b, refl, d, refl),
        omega arith,
      )

-- On a well-formed table whose next new descriptor is below INT_MAX, fd_alloc makes no access
-- outside the table and leaves it well-formed, with the free list without its first entry and
-- next_fd at most one higher. If the first free descriptor, or with none free the next new one, is one of 3 to 66, then it was closed,
-- it is returned and has the file, and no other file changes. Otherwise -1 is returned and no file
-- changes.
pub fd_alloc-IsAllocated :
    (free : List (ℕ × ℕ)) (s : FdState) (fp : ℕ)
    → IsTable free s
    → s.next_fd < int_max
    → Yields (IsAllocated free s fp) (fd_alloc s fp)
unfolding fd_alloc
fd_alloc-IsAllocated free s fp t low = alloc_from-IsAllocated free s fp s.free_fd_list refl t low
