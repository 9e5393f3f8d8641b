-- ===== src/Ansi/Normalize/Refines.antt =====
-- ansi_path_normalize of src/c/zbc_ansi_secure.c as a whole.
use mathlib.Core.List.{reverse_aux}
use semihost.Base.{
  ℕ, suc, ◌+◌, true, false, ◌==◌, Option, some, [], ◌∷◌, ◌++◌, length, reverse, append_assoc, ◌≡◌,
  refl, ap, ◌∙◌, Bool-cases, inl, inr, arith, length-append,
}
use semihost.Memory.{Bytes, ◌>>=◌, load, store}
use semihost.Ansi.Normalize.{
  slash, is_slash, skip_slashes, Cursor, ansi_path_normalize, start, end_path, strip_slash,
}
use semihost.Ansi.Normalize.Reference.{
  Walk, steps, last_component, drop_slashes, strip, finish, normalized, relative, absolute,
}
use semihost.Ansi.Normalize.Under.{IsUnder-last, IsUnder-strip}
use semihost.Ansi.Normalize.Loop.{Ends, normalize_loop-Ends, drop-slash}
use semihost.Ansi.Normalize.Rounds.{drop_slashes-split, skip_slashes-reverse, cursor}
use semihost.Ansi.Normalize.Stack.{
  store-top, uncover, length-reverse_aux, end_path-reverse, strip_slash-reverse,
}

reverse-append : (xs ys zs : Bytes) → reverse_aux xs (ys ++ zs) ≡ reverse_aux xs ys ++ zs
reverse-append [] ys zs = refl
reverse-append (x ∷ xs) ys zs = reverse-append xs (x ∷ ys) zs

-- The trailing component, the trailing separator and the final NUL
abbrev close_path : Cursor → Option (Bytes × ℕ)
close_path k = do
  write_pos ← end_path k.path k.component_start k.write_pos
  write_pos ← strip_slash k.path write_pos
  path ← store k.path write_pos 0
  some (path, write_pos)

-- The result for a path of `n` bytes: the list version's, then a NUL, and past the path's bytes
-- the buffer as it was.
abbrev pub Refines : ℕ → Bytes → Bytes → Option (Bytes × ℕ) → Type 0
Refines n rest out o =
    (junk : Bytes) × (o ≡ some (out ++ 0 ∷ (junk ++ rest), length out))
    × (length out + length junk ≡ n)

close_path-cursor :
    (n : ℕ) (done comp left rest : Bytes) (t : ℕ)
    → length (comp ++ done) + length left ≡ n
    → Refines n rest
        (reverse (strip (last_component done comp)))
        (close_path (cursor done comp left (t ∷ rest)))
close_path-cursor n done comp left rest t h =
    let last = last_component done comp in
    let out = strip last in
    let (top, e) = IsUnder-last done comp in
    let (bit, f) = IsUnder-strip last in
    let (m, g, l) = uncover top last (left ++ t ∷ rest) in
    let (p, q, k) = uncover bit out (m ++ (left ++ t ∷ rest)) in
    let moved = ap (λ (o : Bytes). reverse_aux o (left ++ t ∷ rest)) e ∙ g in
    let again = ap (λ (o : Bytes). reverse_aux o (m ++ (left ++ t ∷ rest))) f ∙ q in
    let over = p ++ (m ++ (left ++ t ∷ [])) in
    let regroup : p ++ (m ++ (left ++ t ∷ rest)) ≡ over ++ rest = simp append_assoc refl in
    let sizes : length over ≡ length p + (length m + (length left + 1)) = omega (
      arith,
      length-append p (m ++ (left ++ t ∷ [])),
      length-append m (left ++ t ∷ []),
      length-append left (t ∷ []),
    ) in
    let (junk, stored, j) = store-top out over rest 0 (omega arith) in
    let same : length (reverse out) ≡ length out = omega (arith, length-reverse_aux out []) in
    (
      junk,
      rw
          (
            end_path-reverse done comp (left ++ t ∷ rest),
            moved,
            strip_slash-reverse last (m ++ (left ++ t ∷ rest)),
            again,
            regroup,
            stored,
            reverse-append out [] (0 ∷ (junk ++ rest)),
            same,
          )
          refl,
      omega (arith, ap length e, length-append top last, ap length f, length-append bit out),
    )

loop-Refines :
    (n : ℕ) (rest : Bytes) (t : ℕ) (w : Walk) (o : Option Cursor)
    → Ends n (t ∷ rest) w o
    → Refines n rest (finish w) (o >>= close_path)
unfolding finish
loop-Refines n rest t w o (left, e, h) = rw e (close_path-cursor n w.done w.comp left rest t h)

start-absolute :
    (c : ℕ) (cs post : Bytes)
    → (left : Bytes) × (start (c ∷ (cs ++ post)) (suc (length cs)) true
        ≡ some (cursor (slash ∷ []) [] left (drop_slashes cs ++ post)))
      × (length left + length (drop_slashes cs) ≡ length cs)
unfolding start store
start-absolute c cs post =
    let (skipped, split) = drop_slashes-split cs in
    let sizes : length skipped + length (drop_slashes cs) ≡ length cs =
      omega (arith, ap length split, length-append skipped (drop_slashes cs)) in
    let skip : skip_slashes (suc (suc (length cs))) (slash ∷ (cs ++ post)) (suc (length cs)) 0
        ≡ some (1 + length skipped) =
      ap (λ (k : ℕ). skip_slashes (suc (suc (length cs))) (slash ∷ (cs ++ post)) k 0)
        {x = suc (length cs)} {y = 0 + suc (length cs)} (omega arith)
      ∙ skip_slashes-reverse (suc (suc (length cs))) [] (slash ∷ cs) post (omega arith)
      ∙ ap some {y = 1 + length skipped} (omega (arith, ap length (drop-slash slash cs refl))) in
    let regroup =
      ap (λ (z : Bytes). z ++ post) split ∙ append_assoc skipped (drop_slashes cs) post in
    (skipped, rw skip (rw regroup refl), sizes)

start-relative : (path : Bytes) (n : ℕ) → start path n false ≡ some (cursor [] [] [] path)
unfolding start
start-relative path n = refl

-- For a path `c ∷ cs` in a buffer that goes on behind it, ansi_path_normalize makes no access
-- outside the buffer and ends. It leaves in the buffer what the list version computes from the
-- path and a NUL behind it, changes no byte behind that of the path's end, and returns the length
-- of the result, which is at most the path's.
pub ansi_path_normalize-normalized :
    (c : ℕ) (cs rest : Bytes) (t : ℕ)
    → Refines
        (suc (length cs))
        rest
        (normalized (c ∷ cs))
        (ansi_path_normalize (c ∷ (cs ++ t ∷ rest)) (suc (length cs)))
unfolding ansi_path_normalize normalized load
ansi_path_normalize-normalized c cs rest t =
    let n = suc (length cs) in
    let some_path : (suc (length cs) == 0) ≡ false = ground arith in
    elim (Bool-cases (is_slash c)) [
      | inl s ↦
          let (left, went, h) = start-absolute c cs (t ∷ rest) in
          rw (some_path, s, went, drop-slash c cs s)
            (loop-Refines n rest t (steps true absolute (drop_slashes cs)) _ (
              normalize_loop-Ends (suc n) n true (slash ∷ []) [] left (drop_slashes cs) (t ∷ rest)
                (omega arith) (omega arith)))
      | inr s ↦
          rw (some_path, s, start-relative (c ∷ (cs ++ t ∷ rest)) n)
            (loop-Refines n rest t (steps false relative (c ∷ cs)) _ (
              normalize_loop-Ends (suc n) n false [] [] [] (c ∷ cs) (t ∷ rest) (omega arith)
                (omega arith)))
    ]
