-- ===== src/P9/Walk/Split.antt =====
-- The loop of p9_walk of src/c/zbc_transport_9p.c over a path, and the path's components.
use semihost.Base.{
  ℕ, zero, suc, ◌+◌, ◌≤◌, ◌<◌, true, false, ◌==◌, leb, if◌then◌else◌, Option, none, some, List, [],
  ◌∷◌, length, ◌≡◌, refl, sym, ap, ◌∙◌, ◌⊎◌, inl, inr, arith, Bool-cases,
}
use semihost.Memory.{Bytes}
use semihost.P9.Walk.{slash, skip_slashes, name_of, after_name, prepend, split_path}
use semihost.P9.Wire.{max_walk}

abbrev onto_first : ℕ → List Bytes → List Bytes
onto_first c [] = (c ∷ []) ∷ []
onto_first c (f ∷ fs) = (c ∷ f) ∷ fs

-- What stands between the separators of a path
unfoldable pub fields : Bytes → List Bytes
fields [] = [] ∷ []
fields (c ∷ cs) = if c == slash then [] ∷ fields cs else onto_first c (fields cs)

unfoldable pub nonempty : List Bytes → List Bytes
nonempty [] = []
nonempty ([] ∷ fs) = nonempty fs
nonempty ((c ∷ f) ∷ fs) = (c ∷ f) ∷ nonempty fs

-- The components of a path: what stands between its separators, where that is not empty.
unfoldable pub components : Bytes → List Bytes
components path = nonempty (fields path)

-- As many components as one Twalk carries, with `n` of them used up
abbrev pub at_most_max : ℕ → List Bytes → Option (List Bytes)
at_most_max n names = if leb (n + length names) max_walk then some names else none

-- The fields after the first one
rest_fields : Bytes → List Bytes
rest_fields [] = []
rest_fields (c ∷ cs) = if c == slash then fields cs else rest_fields cs

fields-name_of : (path : Bytes) → fields path ≡ name_of path ∷ rest_fields path
unfolding fields name_of rest_fields
fields-name_of [] = refl
fields-name_of (c ∷ cs) = elim (Bool-cases (c == slash)) [
  | inl e ↦ rw e refl
  | inr e ↦ rw (e, fields-name_of cs) refl
]

after_name-components : (path : Bytes) → components (after_name path) ≡ nonempty (rest_fields path)
unfolding components fields nonempty rest_fields after_name
after_name-components [] = refl
after_name-components (c ∷ cs) = elim (Bool-cases (c == slash)) [
  | inl e ↦ rw (e, e) refl
  | inr e ↦ rw e (after_name-components cs)
]

skip_slashes-components : (path : Bytes) → components (skip_slashes path) ≡ components path
unfolding components fields nonempty skip_slashes
skip_slashes-components [] = refl
skip_slashes-components (c ∷ cs) = elim (Bool-cases (c == slash)) [
  | inl e ↦ rw e (skip_slashes-components cs)
  | inr e ↦ rw (e, e) refl
]

components-name_of :
    (c : ℕ) (cs : Bytes)
    → (c == slash) ≡ false
    → components (c ∷ cs) ≡ name_of (c ∷ cs) ∷ components (after_name (c ∷ cs))
components-name_of c cs e =
    rw (after_name-components (c ∷ cs))
      (unfold components name_of nonempty in rw (fields-name_of (c ∷ cs)) (rw (e) refl))

-- What is left after separators: nothing, or a component's first byte
after_slashes :
    (path : Bytes)
    → (skip_slashes path ≡ [])
      ⊎ ((c : ℕ) × (cs : Bytes) × (skip_slashes path ≡ c ∷ cs)
          × ((c == slash) ≡ false)
          × (length cs < length path))
unfolding skip_slashes
after_slashes [] = inl refl
after_slashes (c ∷ cs) = elim (Bool-cases (c == slash)) [
  | inl e ↦ rw e (elim (after_slashes cs) [
    | inl none_left ↦ inl none_left
    | inr (d, ds, found, other, less) ↦ inr (d, ds, found, other, omega arith)
  ])
  | inr e ↦ rw e (inr (c, cs, refl, e, omega arith))
]

length-after_name : (path : Bytes) → length (after_name path) ≤ length path
unfolding after_name
length-after_name [] = omega arith
length-after_name (c ∷ cs) = ground (arith, length-after_name cs)

after_name_less :
    (c : ℕ) (cs : Bytes) → (c == slash) ≡ false → length (after_name (c ∷ cs)) ≤ length cs
unfolding after_name
after_name_less c cs e = rw e (length-after_name cs)

prepend-at_most_max :
    (n : ℕ) (name : Bytes) (names : List Bytes)
    → leb max_walk n ≡ false
    → prepend name (some (at_most_max (n + 1) names)) ≡ some (at_most_max n (name ∷ names))
prepend-at_most_max n name names low = elim (Bool-cases (leb (n + 1 + length names) max_walk)) [
  | inl e ↦ let e' : leb (n + suc (length names)) max_walk ≡ true = ground arith in rw (e, e') refl
  | inr e ↦ let e' : leb (n + suc (length names)) max_walk ≡ false = ground arith in rw (e, e') refl
]

pub split_path-components :
    (fuel n : ℕ) (path : Bytes)
    → n ≤ max_walk
    → length path < fuel
    → split_path fuel n path ≡ some (at_most_max n (components path))
unfolding split_path
split_path-components zero n path h l = absurd (omega arith)
split_path-components (suc fuel) n path h l = elim (after_slashes path) [
  | inl none_left ↦
      let same : components path ≡ [] =
        sym (skip_slashes-components path) ∙ (ap components none_left ∙ empty) in
      let fits : leb (n + 0) max_walk ≡ true = ground arith in rw (none_left, same, fits) refl
  | inr (c, cs, found, other, less) ↦
      let same : components path ≡ name_of (c ∷ cs) ∷ components (after_name (c ∷ cs)) =
        sym (skip_slashes-components path)
        ∙ (ap components found ∙ components-name_of c cs other) in
      let less' = after_name_less c cs other in
      elim (Bool-cases (leb max_walk n)) [
        | inl full ↦
            let over : leb (n + suc (length (components (after_name (c ∷ cs))))) max_walk ≡ false =
              ground arith in
            rw (found, full, same, over) refl
        | inr room ↦
            rw
              (
                found,
                room,
                same,
                split_path-components fuel (n + 1) (after_name (c ∷ cs)) (ground arith)
                    (omega arith),
              )
              (prepend-at_most_max n (name_of (c ∷ cs)) (components (after_name (c ∷ cs))) room)
      ]
]
  where
    empty : components [] ≡ []
    empty = unfold components fields nonempty in refl
