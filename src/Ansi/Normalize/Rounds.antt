-- ===== src/Ansi/Normalize/Rounds.antt =====
-- One round of the main loop of ansi_path_normalize, src/c/zbc_ansi_secure.c, beside a walk over lists.
use mathlib.Core.List.{reverse_aux}
use semihost.Base.{
  ℕ, zero, suc, ◌+◌, ◌-◌, ◌<◌, Bool, true, false, ltb, some, [], ◌∷◌, ◌++◌, length, append_assoc,
  ◌≡◌, refl, sym, ap, ◌∙◌, Bool-cases, lt→ltb, inl, inr, arith, length-append,
}
use semihost.Memory.{Bytes, load, store, load-append_here}
use semihost.Ansi.Normalize.{slash, is_slash, skip_slashes, add_slash, Cursor, normalize_step}
use semihost.Ansi.Normalize.Reference.{separate, drop_slashes}
use semihost.Ansi.Normalize.Stack.{load-reverse, load-top, store-top}

-- The separators that are skipped
pub drop_slashes-split : (cs : Bytes) → (skipped : Bytes) × (cs ≡ skipped ++ drop_slashes cs)
unfolding drop_slashes
drop_slashes-split [] = ([], refl)
drop_slashes-split (c ∷ cs) =
    let (skipped, e) = drop_slashes-split cs in
    elim (Bool-cases (is_slash c)) [
      | inl s ↦ rw s (c ∷ skipped, ap (◌∷◌ c) e)
      | inr s ↦ rw s ([], refl)
    ]

pub skip_slashes-reverse :
    (fuel : ℕ) (out cs rest : Bytes)
    → length cs < fuel
    → skip_slashes fuel (reverse_aux out (cs ++ rest)) (length out + length cs) (length out)
      ≡ some (length out + length cs - length (drop_slashes cs))
unfolding skip_slashes drop_slashes
skip_slashes-reverse zero out cs rest h = absurd (omega arith)
skip_slashes-reverse (suc fuel) out [] rest h =
    let e : ltb (length out) (length out + 0) ≡ false = ground arith in rw e (ap some (omega arith))
skip_slashes-reverse (suc fuel) out (c ∷ cs) rest h =
    let more : ltb (length out) (length out + suc (length cs)) ≡ true = ground arith in
    elim (Bool-cases (is_slash c)) [
      | inl s ↦
          let at : length out + 1 ≡ suc (length out) = omega arith in
          let end : length out + suc (length cs) ≡ suc (length out) + length cs = omega arith in
          rw (more, load-top out (cs ++ rest) c, s, at, end)
            (skip_slashes-reverse fuel (c ∷ out) cs rest (omega arith))
      | inr s ↦ rw (more, load-top out (cs ++ rest) c, s) (ap some (omega arith))
    ]

-- The cursor behind the components written, with `mid` between the two positions
abbrev pub cursor : Bytes → Bytes → Bytes → Bytes → Cursor
cursor done comp mid rest = record {
  path = reverse_aux (comp ++ done) (mid ++ rest);
  read_pos = length (comp ++ done) + length mid;
  write_pos = length (comp ++ done);
  component_start = length done;
}

pub load-cursor :
    (out mid rest : Bytes) (c : ℕ)
    → load (reverse_aux out (mid ++ c ∷ rest)) (length out + length mid) ≡ some c
unfolding load
load-cursor out mid rest c =
    load-reverse out (mid ++ c ∷ rest) (length mid)
    ∙ ap (load (mid ++ c ∷ rest)) (omega arith)
    ∙ load-append_here mid (c ∷ rest) 0

pub byte_round :
    (n : ℕ) (is_absolute : Bool) (done comp mid rest : Bytes) (c : ℕ)
    → is_slash c ≡ false
    → (left : Bytes) × (normalize_step n is_absolute (cursor done comp mid (c ∷ rest))
        ≡ some (cursor done (c ∷ comp) left rest))
      × (length left ≡ length mid)
unfolding normalize_step
byte_round n is_absolute done comp mid rest c plain =
    let (left, e, l) =
      store-top (comp ++ done) (mid ++ c ∷ []) rest c (omega (arith, length-append mid (c ∷ []))) in
    let stored =
      ap (λ (b : Bytes). store (reverse_aux (comp ++ done) b) (length (comp ++ done)) c)
        (sym (append_assoc mid (c ∷ []) rest))
      ∙ e in
    let write : length (comp ++ done) + 1 ≡ suc (length (comp ++ done)) = omega arith in
    let kept : length left ≡ length mid = omega (arith, length-append mid (c ∷ [])) in
    let read : length (comp ++ done) + length mid + 1 ≡ suc (length (comp ++ done)) + length left =
      omega arith in
    (left, rw (load-cursor (comp ++ done) mid rest c, plain, stored, read, write) refl, kept)

-- A separator is written only in front of a component.
abbrev pub resume : Bytes → Bytes → Bytes
resume [] done = done
resume (c ∷ cs) done = separate done

pub add_slash-resume :
    (n : ℕ) (done mid cs post : Bytes)
    → 0 < length mid
    → length done + length mid + length cs ≡ n
    → (left : Bytes) × (add_slash n
          (reverse_aux done (mid ++ (cs ++ post)))
          (length done + length mid)
          (length done)
        ≡ some (cursor (resume cs done) [] left (cs ++ post)))
      × (length (resume cs done) + length left + length cs ≡ n)
unfolding add_slash separate
add_slash-resume n done mid [] post more h =
    let e : ltb (length done + length mid) n ≡ false = ground arith in
    elim (Bool-cases (ltb 0 (length done))) [
      | inl a ↦ (mid, rw (a, e) refl, h)
      | inr a ↦ (mid, rw a refl, h)
    ]
add_slash-resume n [] mid (c ∷ cs) post more h = (mid, refl, h)
add_slash-resume n (x ∷ done) mid (c ∷ cs) post more h =
    let above = lt→ltb 0 (suc (length done)) (omega arith) in
    let e : ltb (suc (length done) + length mid) n ≡ true = ground arith in
    let (left, stored, l) = store-top (x ∷ done) mid (c ∷ (cs ++ post)) slash more in
    let write : suc (length done) + 1 ≡ suc (suc (length done)) = omega arith in
    let read : suc (length done) + length mid ≡ suc (suc (length done)) + length left =
      omega arith in
    (left, rw (above, e, stored, write, read) refl, omega arith)
