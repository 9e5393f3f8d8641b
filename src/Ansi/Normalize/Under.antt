-- ===== src/Ansi/Normalize/Under.antt =====
-- What ansi_path_normalize of src/c/zbc_ansi_secure.c takes back is on top of what it wrote.
use semihost.Base.{
  ℕ, suc, Bool, ◌==◌, ltb, if◌then◌else◌, [], ◌∷◌, ◌++◌, length, append_assoc, ◌≡◌, refl, sym, ap,
  ◌∙◌, Bool-cases, inl, inr,
}
use semihost.Memory.{Bytes}
use semihost.Ansi.Normalize.{slash, is_slash}
use semihost.Ansi.Normalize.Reference.{is_dot, is_parent, tail, pop, close, last_component, strip}

-- `out` is `left` with bytes on top.
abbrev pub IsUnder : Bytes → Bytes → Type 0
IsUnder left out = (top : Bytes) × (out ≡ top ++ left)

pub IsUnder-tail : (out : Bytes) → IsUnder (tail out) out
unfolding tail
IsUnder-tail [] = ([], refl)
IsUnder-tail (x ∷ out) = (x ∷ [], refl)

pub IsUnder-trans : (a b c : Bytes) → IsUnder a b → IsUnder b c → IsUnder a c
IsUnder-trans a b c (s, e) (t, f) = (t ++ s, f ∙ ap (◌++◌ t) e ∙ sym (append_assoc t s a))

pub IsUnder-pop : (floor : ℕ) (out : Bytes) → IsUnder (pop floor out) out
unfolding pop
IsUnder-pop floor [] = ([], refl)
IsUnder-pop floor (x ∷ out) =
    let (top, e) = IsUnder-pop floor out in
    elim (Bool-cases (ltb floor (suc (length out)))) [
      | inl more ↦ elim (Bool-cases (is_slash x)) [
        | inl s ↦ rw (more, s) ([], refl)
        | inr s ↦ rw (more, s) (x ∷ top, ap (◌∷◌ x) e)
      ]
      | inr low ↦ rw low ([], refl)
    ]

pub IsUnder-close :
    (is_absolute : Bool) (done comp : Bytes) → IsUnder (close is_absolute done comp) (comp ++ done)
unfolding close
IsUnder-close is_absolute done comp = elim (Bool-cases (is_dot comp)) [
  | inl d ↦ rw d (comp, refl)
  | inr d ↦ elim (Bool-cases (is_parent comp)) [
    | inl n ↦
        let popped = IsUnder-pop (if is_absolute then 1 else 0) (tail done) in
        rw (d, n)
          (IsUnder-trans _ done _ (IsUnder-trans _ _ done popped (IsUnder-tail done)) (comp, refl))
    | inr n ↦ rw (d, n) ([], refl)
  ]
]

pub IsUnder-last : (done comp : Bytes) → IsUnder (last_component done comp) (comp ++ done)
unfolding last_component
IsUnder-last done comp = elim (Bool-cases (is_dot comp)) [
  | inl d ↦ rw d (IsUnder-trans _ done _ (IsUnder-tail done) (comp, refl))
  | inr d ↦ elim (Bool-cases (is_parent comp)) [
    | inl n ↦
        let popped = IsUnder-trans _ _ _ (IsUnder-tail _) (IsUnder-pop 0 (tail done)) in
        rw (d, n)
          (IsUnder-trans _ done _ (IsUnder-trans _ _ done popped (IsUnder-tail done)) (comp, refl))
    | inr n ↦ rw (d, n) ([], refl)
  ]
]

pub IsUnder-strip : (out : Bytes) → IsUnder (strip out) out
unfolding strip
IsUnder-strip [] = ([], refl)
IsUnder-strip (y ∷ []) = ([], refl)
IsUnder-strip (y ∷ x ∷ out) = elim (Bool-cases (y == slash)) [
  | inl s ↦ rw s (y ∷ [], refl)
  | inr s ↦ rw s ([], refl)
]
