-- ===== src/Ansi/Normalize/Clean.antt =====
-- The components of a normalised path, src/c/zbc_ansi_secure.c.
use semihost.Base.{
  ℕ, suc, ◌≤◌, Bool, true, false, ◌==◌, ltb, ◌||◌, if◌then◌else◌, [], ◌∷◌, ◌++◌, length, ◌≡◌, refl,
  ap, ◌∙◌, Bool-cases, lt→ltb, inl, inr, arith,
}
use mathlib.Core.List.{reverse_aux}
use semihost.Memory.{Bytes}
use semihost.Ansi.Normalize.{slash, is_slash}
use semihost.Ansi.Normalize.Reference.{
  Walk, is_dot, is_parent, tail, pop, close, separate, step, steps, last_component, drop_slashes,
  strip, finish, normalized, relative, absolute,
}

-- Whether ".." stands between separators; `comp` is the component so far, last byte first.
unfoldable pub has_parent : Bytes → Bytes → Bool
has_parent comp [] = is_parent comp
has_parent comp (c ∷ cs) =
    let next = has_parent [] cs in
    let more = has_parent (c ∷ comp) cs in if is_slash c then is_parent comp || next else more

-- The component on top of a stack of written bytes
unfoldable current : Bytes → Bytes
current [] = []
current (x ∷ xs) = let more = current xs in if is_slash x then [] else x ∷ more

-- Each component under a separator is not "..".
abbrev IsClean : Bytes → Type 0
IsClean [] = Unit
IsClean (x ∷ xs) = IsClean xs × (is_slash x ≡ true → is_parent (current xs) ≡ false)

-- Nothing stands above the last separator.
abbrev IsEnded : Bytes → Type 0
IsEnded xs = current xs ≡ []

-- No separator
abbrev IsPlain : Bytes → Type 0
IsPlain [] = Unit
IsPlain (x ∷ xs) = (is_slash x ≡ false) × IsPlain xs

-- Written bytes, put back in order in front of `cs`
has_parent-reverse :
    (out cs : Bytes)
    → IsClean out
    → has_parent [] (reverse_aux out cs) ≡ has_parent (current out) cs
unfolding has_parent current
has_parent-reverse [] cs h = refl
has_parent-reverse (x ∷ out) cs h = elim (Bool-cases (is_slash x)) [
  | inl e ↦ has_parent-reverse out (x ∷ cs) h.0 ∙ rw (e, h.1 e) refl
  | inr e ↦ has_parent-reverse out (x ∷ cs) h.0 ∙ rw e refl
]

current-append : (comp done : Bytes) → IsPlain comp → IsEnded done → current (comp ++ done) ≡ comp
unfolding current
current-append [] done h e = e
current-append (x ∷ comp) done h e = rw h.0 (ap (◌∷◌ x) (current-append comp done h.1 e))

append-IsClean : (comp done : Bytes) → IsPlain comp → IsClean done → IsClean (comp ++ done)
append-IsClean [] done h c = c
append-IsClean (x ∷ comp) done h c = (append-IsClean comp done h.1 c, λ e. absurd (cc))

tail-IsClean : (xs : Bytes) → IsClean xs → IsClean (tail xs)
unfolding tail
tail-IsClean [] h = tt
tail-IsClean (x ∷ xs) h = h.0

-- The top component is not "..".
abbrev IsShut : Bytes → Type 0
IsShut xs = IsClean xs × (is_parent (current xs) ≡ false)

short-IsShut : (x : ℕ) (xs : Bytes) → length xs ≡ 0 → IsClean (x ∷ xs) → IsShut (x ∷ xs)
unfolding current is_parent
short-IsShut x [] e h = elim (Bool-cases (is_slash x)) [
  | inl s ↦ (h, rw s refl)
  | inr s ↦ (h, rw s refl)
]
short-IsShut x (y ∷ ys) e h = absurd (omega arith)

ended-IsShut : (xs : Bytes) → IsEnded xs → IsClean xs → IsShut xs
unfolding is_parent
ended-IsShut xs e h = (h, rw e refl)

pop-IsShut : (floor : ℕ) (xs : Bytes) → floor ≤ 1 → IsClean xs → IsShut (pop floor xs)
unfolding pop current
pop-IsShut floor [] f h = ended-IsShut [] refl tt
pop-IsShut floor (x ∷ xs) f h = elim (Bool-cases (ltb floor (suc (length xs)))) [
  | inl more ↦ elim (Bool-cases (is_slash x)) [
    | inl e ↦ rw (more, e) (ended-IsShut (x ∷ xs) (rw e refl) h)
    | inr e ↦ rw (more, e) (pop-IsShut floor xs f h.0)
  ]
  | inr low ↦ rw low (short-IsShut x xs (ground arith) h)
]

-- With no floor, a separator is on top of what is left, if anything is.
pop-IsEnded : (xs : Bytes) → IsEnded (pop 0 xs)
unfolding pop current
pop-IsEnded [] = refl
pop-IsEnded (x ∷ xs) =
    let above = lt→ltb 0 (suc (length xs)) (omega arith) in
    elim (Bool-cases (is_slash x)) [
      | inl e ↦ rw (above, e) (rw e refl)
      | inr e ↦ rw (above, e) (pop-IsEnded xs)
    ]

-- A separator on top is taken off.
tail-IsShut : (xs : Bytes) → IsEnded xs → IsClean xs → IsShut (tail xs)
unfolding tail current
tail-IsShut [] e h = ended-IsShut [] refl tt
tail-IsShut (x ∷ xs) e h = elim (Bool-cases (is_slash x)) [
  | inl s ↦ (h.0, h.1 s)
  | inr s ↦ absurd (cc (rw s at e))
]

Bool-le : (b : Bool) → (if b then 1 else 0) ≤ 1
Bool-le true = omega arith
Bool-le false = omega arith

append-IsShut :
    (comp done : Bytes)
    → IsPlain comp
    → IsEnded done
    → IsClean done
    → is_parent comp ≡ false
    → IsShut (comp ++ done)
append-IsShut comp done p e h n =
    (append-IsClean comp done p h, ap is_parent (current-append comp done p e) ∙ n)

close-IsShut :
    (is_absolute : Bool) (done comp : Bytes)
    → IsPlain comp
    → IsEnded done
    → IsClean done
    → IsShut (close is_absolute done comp)
unfolding close
close-IsShut is_absolute done comp p e h = elim (Bool-cases (is_dot comp)) [
  | inl d ↦ rw d (ended-IsShut done e h)
  | inr d ↦ elim (Bool-cases (is_parent comp)) [
    | inl n ↦
        rw (d, n)
          (pop-IsShut (if is_absolute then 1 else 0) (tail done) (Bool-le is_absolute)
            (tail-IsClean done h))
    | inr n ↦ rw (d, n) (append-IsShut comp done p e h n)
  ]
]

last-IsShut :
    (done comp : Bytes)
    → IsPlain comp
    → IsEnded done
    → IsClean done
    → IsShut (last_component done comp)
unfolding last_component
last-IsShut done comp p e h = elim (Bool-cases (is_dot comp)) [
  | inl d ↦ rw d (tail-IsShut done e h)
  | inr d ↦ elim (Bool-cases (is_parent comp)) [
    | inl n ↦
        let shut = pop-IsShut 0 (tail done) (omega arith) (tail-IsClean done h) in
        rw (d, n) (tail-IsShut (pop 0 (tail done)) (pop-IsEnded (tail done)) shut.0)
    | inr n ↦ rw (d, n) (append-IsShut comp done p e h n)
  ]
]

slash_top : (y : ℕ) → (y == slash) ≡ true → is_slash y ≡ true
slash_top y e = rw e refl

strip-IsShut : (xs : Bytes) → IsShut xs → IsShut (strip xs)
unfolding strip
strip-IsShut [] h = h
strip-IsShut (y ∷ []) h = h
strip-IsShut (y ∷ x ∷ xs) h = elim (Bool-cases (y == slash)) [
  | inl e ↦ rw e (h.0.0, h.0.1 (slash_top y e))
  | inr e ↦ rw e h
]

-- What a walk keeps: behind a separator only the components below it count.
abbrev IsTidy : Bytes → Bytes → Bool → Type 0
IsTidy done comp true = IsShut done × (comp ≡ [])
IsTidy done comp false = IsPlain comp × IsEnded done × IsClean done

abbrev IsTidyWalk : Walk → Type 0
IsTidyWalk w = IsTidy w.done w.comp w.gap

separate-IsTidy : (xs : Bytes) → IsShut xs → IsEnded (separate xs) × IsClean (separate xs)
unfolding separate current
separate-IsTidy [] h = (refl, tt)
separate-IsTidy (x ∷ xs) h = (refl, (h.0, λ _. h.1))

step-IsTidy :
    (is_absolute : Bool) (done comp : Bytes) (gap : Bool) (c : ℕ)
    → IsTidy done comp gap
    → IsTidyWalk (step is_absolute record { done = done; comp = comp; gap = gap } c)
unfolding step
step-IsTidy is_absolute done comp true c (shut, none) = elim (Bool-cases (is_slash c)) [
  | inl e ↦ rw e (shut, refl)
  | inr e ↦ let (ended, clean) = separate-IsTidy done shut in rw e ((e, tt), ended, clean)
]
step-IsTidy is_absolute done comp false c (p, e, h) = elim (Bool-cases (is_slash c)) [
  | inl s ↦ rw s (close-IsShut is_absolute done comp p e h, refl)
  | inr s ↦ rw s ((s, p), e, h)
]

steps-IsTidy :
    (is_absolute : Bool) (w : Walk) (cs : Bytes)
    → IsTidyWalk w
    → IsTidyWalk (steps is_absolute w cs)
unfolding steps
steps-IsTidy is_absolute w [] h = h
steps-IsTidy is_absolute w (c ∷ cs) h =
    steps-IsTidy is_absolute (step is_absolute w c) cs
      (step-IsTidy is_absolute w.done w.comp w.gap c h)

tidy-IsShut :
    (done comp : Bytes) (gap : Bool) → IsTidy done comp gap → IsShut (last_component done comp)
unfolding last_component is_dot is_parent
tidy-IsShut done comp true (shut, e) = rw e shut
tidy-IsShut done comp false (p, e, h) = last-IsShut done comp p e h

finish_lem : (w : Walk) → IsTidyWalk w → has_parent [] (finish w) ≡ false
unfolding finish has_parent
finish_lem w h =
    let (clean, top) =
      strip-IsShut (last_component w.done w.comp) (tidy-IsShut w.done w.comp w.gap h) in
    has_parent-reverse (strip (last_component w.done w.comp)) [] clean ∙ top

-- No component of a normalised path, between slashes or backslashes, is "..".
pub has_parent-normalized : (cs : Bytes) → has_parent [] (normalized cs) ≡ false
unfolding normalized has_parent current is_parent
has_parent-normalized [] = refl
has_parent-normalized (c ∷ cs) = elim (Bool-cases (is_slash c)) [
  | inl e ↦ rw e (
      finish_lem (steps true absolute (drop_slashes (c ∷ cs)))
        (steps-IsTidy true absolute (drop_slashes (c ∷ cs)) (tt, refl, (tt, λ _. refl))))
  | inr e ↦ rw e (
      finish_lem (steps false relative (c ∷ cs))
        (steps-IsTidy false relative (c ∷ cs) (tt, refl, tt)))
]

-- A separator at the end adds no component.
pub has_parent-append_slash :
    (comp cs : Bytes) → has_parent comp cs ≡ false → has_parent comp (cs ++ slash ∷ []) ≡ false
unfolding has_parent is_parent
has_parent-append_slash comp [] h = rw h refl
has_parent-append_slash comp (c ∷ cs) h = elim (Bool-cases (is_slash c)) [
  | inl e ↦ elim (Bool-cases (is_parent comp)) [
    | inl n ↦ absurd (cc (rw (e, n) at h))
    | inr n ↦ rw (e, n) (has_parent-append_slash [] cs (rw (e, n) at h))
  ]
  | inr e ↦ rw e (has_parent-append_slash (c ∷ comp) cs (rw e at h))
]
