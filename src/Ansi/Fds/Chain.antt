-- ===== src/Ansi/Fds/Chain.antt =====
-- The lists of the descriptor table, src/c/zbc_ansi_common.c: files, fd_pool and the free list.
use mathlib.Core.Option.{some-injective}
use semihost.Base.{
  ℕ, zero, suc, ◌+◌, ◌<◌, true, false, ◌==◌, ◌||◌, if◌then◌else◌, Option, none, some, List, [], ◌∷◌,
  length, get_elem?, get_or, set, All, ◌≡◌, refl, sym, ap, ◌∙◌, Bool-cases, inl, inr, arith,
}
use semihost.Ansi.Fds.{FdNode, find_node, empty_node}

module _ {ℓ} {A : Type ℓ} where
  pub get_or-set_same :
      (xs : List A) (i : ℕ) (v d : A) → i < length xs → get_or (set xs i v) i d ≡ v
  get_or-set_same [] i v d h = absurd (omega arith)
  get_or-set_same (x ∷ xs) zero v d h = refl
  get_or-set_same (x ∷ xs) (suc i) v d h = get_or-set_same xs i v d (omega arith)

  pub get_or-set_other :
      (xs : List A) (i j : ℕ) (v d : A) → (i ≡ j → ⊥) → get_or (set xs i v) j d ≡ get_or xs j d
  get_or-set_other [] i j v d h = refl
  get_or-set_other (x ∷ xs) zero zero v d h = absurd (h refl)
  get_or-set_other (x ∷ xs) zero (suc j) v d h = refl
  get_or-set_other (x ∷ xs) (suc i) zero v d h = refl
  get_or-set_other (x ∷ xs) (suc i) (suc j) v d h = get_or-set_other xs i j v d λ e. h (ap suc e)

  pub get_elem?-set_other :
      (xs : List A) (i j : ℕ) (v : A) → (i ≡ j → ⊥) → get_elem? (set xs i v) j ≡ get_elem? xs j
  get_elem?-set_other [] i j v h = refl
  get_elem?-set_other (x ∷ xs) zero zero v h = absurd (h refl)
  get_elem?-set_other (x ∷ xs) zero (suc j) v h = refl
  get_elem?-set_other (x ∷ xs) (suc i) zero v h = refl
  get_elem?-set_other (x ∷ xs) (suc i) (suc j) v h = get_elem?-set_other xs i j v λ e. h (ap suc e)

  pub get_elem?-set_same :
      (xs : List A) (i : ℕ) (v : A) {a : A}
      → get_elem? xs i ≡ some a
      → get_elem? (set xs i v) i ≡ some v
  get_elem?-set_same [] i v h = cc
  get_elem?-set_same (x ∷ xs) zero v h = refl
  get_elem?-set_same (x ∷ xs) (suc i) v h = get_elem?-set_same xs i v h

-- The files that are open
unfoldable pub opened : List (Option ℕ) → ℕ
opened [] = 0
opened (none ∷ files) = opened files
opened (some fp ∷ files) = suc (opened files)

pub opened-set-some :
    (files : List (Option ℕ)) (i fp : ℕ)
    → i < length files
    → get_or files i none ≡ none
    → opened (set files i (some fp)) ≡ suc (opened files)
unfolding opened
opened-set-some [] i fp h e = absurd (omega arith)
opened-set-some (none ∷ files) zero fp h e = refl
opened-set-some (some x ∷ files) zero fp h e = cc
opened-set-some (none ∷ files) (suc i) fp h e = opened-set-some files i fp (omega arith) e
opened-set-some (some x ∷ files) (suc i) fp h e =
    ap suc (opened-set-some files i fp (omega arith) e)

pub opened-set-none :
    (files : List (Option ℕ)) (i fp : ℕ)
    → get_or files i none ≡ some fp
    → suc (opened (set files i none)) ≡ opened files
unfolding opened
opened-set-none [] i fp e = cc
opened-set-none (none ∷ files) zero fp e = cc
opened-set-none (some x ∷ files) zero fp e = refl
opened-set-none (none ∷ files) (suc i) fp e = opened-set-none files i fp e
opened-set-none (some x ∷ files) (suc i) fp e = ap suc (opened-set-none files i fp e)

-- The nodes of the pool that are unused
unfoldable pub spare : List FdNode → ℕ
spare [] = 0
spare (node ∷ pool) = if node.fd == 0 then suc (spare pool) else spare pool

pub spare-set_unused :
    (pool : List FdNode) (i : ℕ) (node : FdNode)
    → get_elem? pool i ≡ some node
    → 0 < node.fd
    → spare (set pool i empty_node) ≡ suc (spare pool)
unfolding spare
spare-set_unused [] i node h p = cc
spare-set_unused (x ∷ pool) zero node h p =
    let same : x.fd ≡ node.fd = cc in let e : (x.fd == 0) ≡ false = ground arith in rw e refl
spare-set_unused (x ∷ pool) (suc i) node h p =
    let ih = spare-set_unused pool i node h p in
    elim (Bool-cases (x.fd == 0)) [ inl e ↦ rw (e, ih) refl | inr e ↦ rw (e, ih) refl ]

pub spare-set_used :
    (pool : List FdNode) (i : ℕ) (old node : FdNode)
    → get_elem? pool i ≡ some old
    → old.fd ≡ 0
    → 0 < node.fd
    → suc (spare (set pool i node)) ≡ spare pool
unfolding spare
spare-set_used [] i old node h z p = cc
spare-set_used (x ∷ pool) zero old node h z p =
    let same : x.fd ≡ old.fd = cc in
    let e : (x.fd == 0) ≡ true = ground arith in
    let f : (node.fd == 0) ≡ false = ground arith in rw (e, f) refl
spare-set_used (x ∷ pool) (suc i) old node h z p =
    let ih = spare-set_used pool i old node h z p in
    elim (Bool-cases (x.fd == 0)) [ inl e ↦ rw e (ap suc ih) | inr e ↦ rw e ih ]

-- While a node is unused, the search ends at one that it may take.
pub find_node-some :
    (pool : List FdNode) (fd_num k : ℕ)
    → 0 < spare pool
    → (i : ℕ) × (node : FdNode) × (find_node pool fd_num k ≡ some (k + i))
      × (get_elem? pool i ≡ some node)
      × ((node.fd == 0 || node.fd == fd_num) ≡ true)
unfolding find_node spare
find_node-some [] fd_num k h = absurd (omega arith)
find_node-some (x ∷ pool) fd_num k h = elim (Bool-cases (x.fd == 0 || x.fd == fd_num)) [
  | inl e ↦ (0, x, rw e (ap some (omega arith)), refl, e)
  | inr e ↦
      let used : (x.fd == 0) ≡ false = ground arith in
      let (i, node, found, at, fits) = find_node-some pool fd_num (k + 1) (rw used at h) in
      (suc i, node, rw (e, found) (ap some (omega arith)), at, fits)
]

-- The free list from `head` on: nodes and their descriptors
abbrev pub Chain : List FdNode → Option ℕ → List (ℕ × ℕ) → Type 0
Chain pool head [] = head ≡ none
Chain pool head (e ∷ free) =
    (next : Option ℕ) × (head ≡ some e.0)
    × (get_elem? pool e.0 ≡ some record { fd = e.1; next = next })
    × Chain pool next free

-- A node whose descriptor is not in the list can be written.
pub Chain-set :
    (pool : List FdNode) (head : Option ℕ) (free : List (ℕ × ℕ)) (j : ℕ) (old node : FdNode)
    → Chain pool head free
    → get_elem? pool j ≡ some old
    → All (λ e. old.fd ≡ e.1 → ⊥) free
    → Chain (set pool j node) head free
Chain-set pool head [] j old node c at away = c
Chain-set pool head (e ∷ free) j old node (next, h, here, rest) at (apart, away) = (
  next,
  h,
  get_elem?-set_other pool j e.0 node (λ same.
        let node_same = sym at ∙ ap (get_elem? pool) same ∙ here in
        apart (ap FdNode.fd (some-injective old _ node_same)))
      ∙ here,
  Chain-set pool next free j old node rest at away,
)
