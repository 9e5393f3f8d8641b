-- ===== src/Ansi/Normalize/Kept.antt =====
-- The bytes that ansi_path_normalize of src/c/zbc_ansi_secure.c leaves are those of the path, and
-- separators.
use mathlib.Core.List.{reverse_aux}
use semihost.Base.{
  ℕ, Bool, true, false, ◌==◌, ltb, if◌then◌else◌, suc, [], ◌∷◌, ◌++◌, length, reverse, All,
  All-append, Bool-cases, inl, inr,
}
use semihost.Ansi.Normalize.{slash, is_slash}
use semihost.Ansi.Normalize.Reference.{
  Walk, is_dot, is_parent, tail, pop, close, separate, step, steps, last_component, strip,
  drop_slashes, finish, relative, absolute, normalized,
}
use semihost.Memory.{Bytes}

-- A property of bytes that the separator has
module _ (P : ℕ → Type 0) (separator : P slash) where
  All-if : (b : Bool) (xs ys : Bytes) → All P xs → All P ys → All P (if b then xs else ys)
  All-if true xs ys h k = h
  All-if false xs ys h k = k

  All-tail : (xs : Bytes) → All P xs → All P (tail xs)
  unfolding tail
  All-tail [] h = tt
  All-tail (x ∷ xs) h = h.1

  All-pop : (floor : ℕ) (xs : Bytes) → All P xs → All P (pop floor xs)
  unfolding pop
  All-pop floor [] h = tt
  All-pop floor (x ∷ xs) h =
      All-if (ltb floor (suc (length xs))) (if is_slash x then x ∷ xs else pop floor xs) (x ∷ xs)
        (All-if (is_slash x) (x ∷ xs) (pop floor xs) h (All-pop floor xs h.1)) h

  All-close : (b : Bool) (done comp : Bytes) → All P done → All P comp → All P (close b done comp)
  unfolding close
  All-close b done comp h k = All-if (is_dot comp) done _ h (
      All-if (is_parent comp) (pop (if b then 1 else 0) (tail done)) (comp ++ done)
        (All-pop _ (tail done) (All-tail done h)) (All-append P comp done k h))

  All-separate : (xs : Bytes) → All P xs → All P (separate xs)
  unfolding separate
  All-separate [] h = tt
  All-separate (x ∷ xs) h = (separator, h)

  -- Both stacks of a walk
  abbrev IsKept : Walk → Type 0
  IsKept w = All P w.done × All P w.comp

  step-IsKept : (b : Bool) (w : Walk) (c : ℕ) → IsKept w → P c → IsKept (step b w c)
  unfolding step
  step-IsKept b w c (h, k) p = elim (Bool-cases (is_slash c)) [
    | inl e ↦
        rw e (All-if w.gap w.done (close b w.done w.comp) h (All-close b w.done w.comp h k), tt)
    | inr e ↦ rw e (
      All-if w.gap (separate w.done) w.done (All-separate w.done h) h,
      All-if w.gap (c ∷ []) (c ∷ w.comp) (p, tt) (p, k),
    )
  ]

  steps-IsKept : (b : Bool) (w : Walk) (cs : Bytes) → IsKept w → All P cs → IsKept (steps b w cs)
  unfolding steps
  steps-IsKept b w [] h k = h
  steps-IsKept b w (c ∷ cs) h k = steps-IsKept b (step b w c) cs (step-IsKept b w c h k.0) k.1

  All-last_component :
      (done comp : Bytes) → All P done → All P comp → All P (last_component done comp)
  unfolding last_component
  All-last_component done comp h k = All-if (is_dot comp) (tail done) _ (All-tail done h) (
      All-if (is_parent comp) (tail (pop 0 (tail done))) (comp ++ done)
        (All-tail _ (All-pop 0 (tail done) (All-tail done h))) (All-append P comp done k h))

  All-strip : (xs : Bytes) → All P xs → All P (strip xs)
  unfolding strip
  All-strip (y ∷ x ∷ xs) h = All-if (y == slash) (x ∷ xs) (y ∷ x ∷ xs) h.1 h
  All-strip (y ∷ []) h = h
  All-strip [] h = h

  All-drop_slashes : (xs : Bytes) → All P xs → All P (drop_slashes xs)
  unfolding drop_slashes
  All-drop_slashes [] h = tt
  All-drop_slashes (x ∷ xs) h =
      All-if (is_slash x) (drop_slashes xs) (x ∷ xs) (All-drop_slashes xs h.1) h

  All-reverse_aux : (xs ys : Bytes) → All P xs → All P ys → All P (reverse_aux xs ys)
  All-reverse_aux [] ys h k = k
  All-reverse_aux (x ∷ xs) ys h k = All-reverse_aux xs (x ∷ ys) h.1 (h.0, k)

  All-reverse : (xs : Bytes) → All P xs → All P (reverse xs)
  All-reverse xs h = All-reverse_aux xs [] h tt

  All-finish : (w : Walk) → IsKept w → All P (finish w)
  unfolding finish
  All-finish w (h, k) =
      All-reverse (strip (last_component w.done w.comp))
        (All-strip (last_component w.done w.comp) (All-last_component w.done w.comp h k))

  -- The property holds of every byte of the normalised path if it holds of every byte of the path.
  pub All-normalized : (path : Bytes) → All P path → All P (normalized path)
  unfolding normalized
  All-normalized [] h = tt
  All-normalized (c ∷ cs) h =
      All-if (is_slash c) _ _
        (All-finish _ (
          steps-IsKept true absolute (drop_slashes (c ∷ cs)) ((separator, tt), tt)
            (All-drop_slashes (c ∷ cs) h)))
        (All-finish _ (steps-IsKept false relative (c ∷ cs) (tt, tt) h))
