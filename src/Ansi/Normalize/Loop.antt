-- ===== src/Ansi/Normalize/Loop.antt =====
-- The main loop of ansi_path_normalize, src/c/zbc_ansi_secure.c, beside a walk over lists.
use mathlib.Core.List.{reverse_aux}
use semihost.Base.{
  ℕ, zero, suc, ◌+◌, ◌-◌, ◌≤◌, ◌<◌, Bool, true, false, ltb, if◌then◌else◌, Option, some, [], ◌∷◌,
  ◌++◌, length, append_assoc, ◌≡◌, refl, sym, ap, ◌∙◌, Bool-cases, inl, inr, arith, length-append,
}
use semihost.Memory.{Bytes}
use semihost.Ansi.Normalize.{is_slash, skip_slashes, Cursor, normalize_step, normalize_loop}
use semihost.Ansi.Normalize.Reference.{Walk, close, separate, step, steps, drop_slashes}
use semihost.Ansi.Normalize.Under.{IsUnder-close}
use semihost.Ansi.Normalize.Rounds.{
  drop_slashes-split, skip_slashes-reverse, load-cursor, byte_round, add_slash-resume, cursor,
  resume,
}
use semihost.Ansi.Normalize.Stack.{
  reverse_aux-shift, uncover, length-reverse_aux, end_component-reverse,
}

pub drop-slash : (c : ℕ) (cs : Bytes) → is_slash c ≡ true → drop_slashes (c ∷ cs) ≡ drop_slashes cs
unfolding drop_slashes
drop-slash c cs s = rw s refl

drop-byte : (c : ℕ) (cs : Bytes) → is_slash c ≡ false → drop_slashes (c ∷ cs) ≡ c ∷ cs
unfolding drop_slashes
drop-byte c cs s = rw s refl

drop_slashes_shorter : (cs : Bytes) → length (drop_slashes cs) ≤ length cs
drop_slashes_shorter cs =
    let (skipped, e) = drop_slashes-split cs in
    omega (arith, ap length e, length-append skipped (drop_slashes cs))

skip_round :
    (n : ℕ) (out mid cs post : Bytes) (c : ℕ)
    → is_slash c ≡ true
    → n ≡ length out + length mid + suc (length cs)
    → skip_slashes
        (suc (n - (length out + length mid)))
        (reverse_aux out (mid ++ (c ∷ (cs ++ post))))
        n
        (length out + length mid)
      ≡ some (n - length (drop_slashes cs))
skip_round n out mid cs post c s h =
    let all = reverse_aux mid out in
    let at : length out + length mid ≡ length all = omega (arith, length-reverse_aux mid out) in
    let end : n ≡ length all + suc (length cs) = omega arith in
    rw (← reverse_aux-shift mid out (c ∷ (cs ++ post)), at, end)
      (rw (drop-slash c cs s) at (
        skip_slashes-reverse (suc (length all + suc (length cs) - length all)) all (c ∷ cs) post
          (omega arith)))

-- The buffer, apart from what an ended component leaves of it
behind :
    (top closed mid cs post : Bytes) (c : ℕ)
    → (over : Bytes) × (reverse_aux (top ++ closed) (mid ++ (c ∷ (cs ++ post)))
        ≡ reverse_aux closed (over ++ (drop_slashes cs ++ post)))
      × (length over + length (drop_slashes cs) ≡ length top + length mid + suc (length cs))
behind top closed mid cs post c =
    let (m, e, l) = uncover top closed (mid ++ (c ∷ (cs ++ post))) in
    let (skipped, split) = drop_slashes-split cs in
    let regroup : m ++ (mid ++ (c ∷ ((skipped ++ drop_slashes cs) ++ post)))
        ≡ (m ++ (mid ++ (c ∷ skipped))) ++ (drop_slashes cs ++ post) =
      simp append_assoc refl in
    (
      m ++ (mid ++ (c ∷ skipped)),
      e
          ∙ ap (λ (z : Bytes). reverse_aux closed (m ++ (mid ++ (c ∷ (z ++ post))))) split
          ∙ ap (reverse_aux closed) regroup,
      omega (
        arith,
        length-append m (mid ++ (c ∷ skipped)),
        length-append mid (c ∷ skipped),
        ap length split,
        length-append skipped (drop_slashes cs),
      ),
    )

slash_round :
    (n : ℕ) (is_absolute : Bool) (done comp mid cs post : Bytes) (c : ℕ)
    → is_slash c ≡ true
    → n ≡ length (comp ++ done) + length mid + suc (length cs)
    → (left : Bytes) × (normalize_step n is_absolute (cursor done comp mid (c ∷ (cs ++ post)))
        ≡ some (
            cursor
              (resume (drop_slashes cs) (close is_absolute done comp))
              []
              left
              (drop_slashes cs ++ post)))
      × (length (resume (drop_slashes cs) (close is_absolute done comp))
            + length left
            + length (drop_slashes cs)
          ≡ n)
unfolding normalize_step
slash_round n is_absolute done comp mid cs post c s h =
    let closed = close is_absolute done comp in
    let rest = mid ++ (c ∷ (cs ++ post)) in
    let (top, under) = IsUnder-close is_absolute done comp in
    let (over, e, l) = behind top closed mid cs post c in
    let shorter = drop_slashes_shorter cs in
    let total : length closed + length over + length (drop_slashes cs) ≡ n =
      omega (arith, ap length under, length-append top closed) in
    let skipped =
      skip_round n (comp ++ done) mid cs post c s h
      ∙ ap some {y = length closed + length over} (omega arith) in
    let moved = ap (λ (o : Bytes). reverse_aux o rest) under ∙ e in
    let (left, added, m) =
      add_slash-resume n closed over (drop_slashes cs) post (omega arith) total in
    (
      left,
      rw
          (
            load-cursor (comp ++ done) mid (cs ++ post) c,
            s,
            end_component-reverse done comp rest is_absolute,
            skipped,
            moved,
          )
          added,
      m,
    )

-- Where the loop stops at the end of the path
abbrev pub Ends : ℕ → Bytes → Walk → Option Cursor → Type 0
Ends n post w o =
    (left : Bytes) × (o ≡ some (cursor w.done w.comp left post))
    × (length (w.comp ++ w.done) + length left ≡ n)

module _ (is_absolute : Bool) (done comp : Bytes) (c : ℕ) (cs : Bytes) where
  steps-slash :
      (gap : Bool)
      → is_slash c ≡ true
      → steps is_absolute record { done = done; comp = comp; gap = gap } (c ∷ cs)
        ≡ steps is_absolute
            record {
              done = if gap then done else close is_absolute done comp;
              comp = [];
              gap = true;
            }
            cs
  unfolding steps step
  steps-slash gap s = rw (steps, s) refl

  steps-byte :
      is_slash c ≡ false
      → steps is_absolute record { done = done; comp = comp; gap = false } (c ∷ cs)
        ≡ steps is_absolute record { done = done; comp = c ∷ comp; gap = false } cs
  unfolding steps step
  steps-byte s = rw (steps, s) refl

  steps-resume :
      is_slash c ≡ false
      → steps is_absolute record { done = done; comp = []; gap = true } (c ∷ cs)
        ≡ steps is_absolute record { done = separate done; comp = []; gap = false } (c ∷ cs)
  unfolding steps step
  steps-resume s = rw (steps, s) refl

-- Separators behind a separator change nothing.
resume-Ends :
    (n : ℕ) (post : Bytes) (is_absolute : Bool) (done cs : Bytes) (o : Option Cursor)
    → Ends n post
        (steps is_absolute
          record { done = resume (drop_slashes cs) done; comp = []; gap = false }
          (drop_slashes cs))
        o
    → Ends n post (steps is_absolute record { done = done; comp = []; gap = true } cs) o
resume-Ends n post is_absolute done [] o h = unfold steps drop_slashes in h
resume-Ends n post is_absolute done (c ∷ cs) o h = elim (Bool-cases (is_slash c)) [
  | inl s ↦
      rw (steps-slash is_absolute done [] c cs true s)
        (resume-Ends n post is_absolute done cs o (rw (drop-slash c cs s) at h))
  | inr s ↦ rw (steps-resume is_absolute done [] c cs s) (rw (drop-byte c cs s) at h)
]

pub normalize_loop-Ends :
    (fuel n : ℕ) (is_absolute : Bool) (done comp mid cs post : Bytes)
    → n ≡ length (comp ++ done) + length mid + length cs
    → length cs < fuel
    → Ends n post
        (steps is_absolute record { done = done; comp = comp; gap = false } cs)
        (normalize_loop fuel n is_absolute (cursor done comp mid (cs ++ post)))
unfolding normalize_loop
normalize_loop-Ends zero n is_absolute done comp mid cs post h k = absurd (omega arith)
normalize_loop-Ends (suc fuel) n is_absolute done comp mid [] post h k =
    let e : ltb (length (comp ++ done) + length mid) n ≡ false = ground arith in
    unfold steps in (mid, rw e refl, omega arith)
normalize_loop-Ends (suc fuel) n is_absolute done comp mid (c ∷ cs) post h k =
    let e : ltb (length (comp ++ done) + length mid) n ≡ true = ground arith in
    elim (Bool-cases (is_slash c)) [
      | inl s ↦
          let closed = close is_absolute done comp in
          let (left, went, m) = slash_round n is_absolute done comp mid cs post c s h in
          let shorter = drop_slashes_shorter cs in
          rw (e, went, steps-slash is_absolute done comp c cs false s)
            (resume-Ends n post is_absolute closed cs _ (
              normalize_loop-Ends fuel n is_absolute (resume (drop_slashes cs) closed) [] left
                (drop_slashes cs) post (sym m) (omega arith)))
      | inr s ↦
          let (left, went, m) = byte_round n is_absolute done comp mid (cs ++ post) c s in
          rw (e, went, steps-byte is_absolute done comp c cs s)
            (normalize_loop-Ends fuel n is_absolute done (c ∷ comp) left cs post (omega arith)
              (omega arith))
    ]
