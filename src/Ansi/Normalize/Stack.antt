-- ===== src/Ansi/Normalize/Stack.antt =====
-- The accesses of ansi_path_normalize, src/c/zbc_ansi_secure.c, to a buffer whose written bytes are
-- a stack, last byte first: the buffer is `reverse_aux out rest`.
use mathlib.Core.List.{reverse_aux}
use mathlib.Core.Option
use semihost.Base.{
  ℕ, suc, ◌+◌, ◌-◌, ◌<◌, Bool, true, false, ◌==◌, ltb, if◌then◌else◌, some, [], ◌∷◌, ◌++◌, length,
  append_assoc, ◌≡◌, refl, sym, ap, ◌∙◌, Bool-cases, Option-cases, lt→ltb, inl, inr, arith,
  length-append,
}
use semihost.Memory.{Bytes, ◌>>=◌, load, store}
use semihost.Ansi.Normalize.{
  slash, dot, is_slash, back_to_slash, is_one_dot, is_two_dots, end_component, end_path,
  strip_slash,
}
use semihost.Ansi.Normalize.Reference.{is_dot, is_parent, tail, pop, close, last_component, strip}

pub load-reverse :
    (out rest : Bytes) (i : ℕ) → load (reverse_aux out rest) (length out + i) ≡ load rest i
unfolding load
load-reverse [] rest i = ap (load rest) (omega arith)
load-reverse (x ∷ out) rest i =
    ap (load (reverse_aux out (x ∷ rest))) (omega arith) ∙ load-reverse out (x ∷ rest) (suc i)

pub load-top : (out rest : Bytes) (x : ℕ) → load (reverse_aux out (x ∷ rest)) (length out) ≡ some x
unfolding load
load-top out rest x =
    ap (load (reverse_aux out (x ∷ rest))) (omega arith) ∙ load-reverse out (x ∷ rest) 0

store-reverse :
    (out rest : Bytes) (i v : ℕ)
    → store (reverse_aux out rest) (length out + i) v
      ≡ Option.map (reverse_aux out) (store rest i v)
unfolding store
store-reverse [] rest i v =
    ap (λ (k : ℕ). store rest k v) {x = 0 + i} {y = i} (omega arith)
    ∙ elim (Option-cases (store rest i v)) [ inl e ↦ rw e refl | inr (b, e) ↦ rw e refl ]
store-reverse (x ∷ out) rest i v =
    ap (λ (k : ℕ). store (reverse_aux out (x ∷ rest)) k v) (omega arith)
    ∙ store-reverse out (x ∷ rest) (suc i) v
    ∙ elim (Option-cases (store rest i v)) [ inl e ↦ rw e refl | inr (b, e) ↦ rw e refl ]

-- A byte written on top of the stack, over a byte that is no longer needed
pub store-top :
    (out mid rest : Bytes) (v : ℕ)
    → 0 < length mid
    → (left : Bytes) × (store (reverse_aux out (mid ++ rest)) (length out) v
        ≡ some (reverse_aux (v ∷ out) (left ++ rest)))
      × (suc (length left) ≡ length mid)
unfolding store
store-top out [] rest v h = absurd (omega arith)
store-top out (o ∷ mid) rest v h = (
  mid,
  ap (λ (k : ℕ). store (reverse_aux out (o ∷ (mid ++ rest))) k v) (omega arith)
      ∙ store-reverse out (o ∷ (mid ++ rest)) 0 v,
  refl,
)

pub reverse_aux-shift :
    (mid out rest : Bytes) → reverse_aux (reverse_aux mid out) rest ≡ reverse_aux out (mid ++ rest)
reverse_aux-shift [] out rest = refl
reverse_aux-shift (m ∷ mid) out rest = reverse_aux-shift mid (m ∷ out) rest

-- What is taken off the stack stays in the buffer, behind it.
pub uncover :
    (top out rest : Bytes)
    → (mid : Bytes) × (reverse_aux (top ++ out) rest ≡ reverse_aux out (mid ++ rest))
      × (length mid ≡ length top)
uncover [] out rest = ([], refl, refl)
uncover (x ∷ top) out rest =
    let (mid, e, l) = uncover top out (x ∷ rest) in
    (
      mid ++ x ∷ [],
      e ∙ ap (reverse_aux out) (sym (append_assoc mid (x ∷ []) rest)),
      omega (arith, length-append mid (x ∷ [])),
    )

pub length-reverse_aux : (xs ys : Bytes) → length (reverse_aux xs ys) ≡ length xs + length ys
length-reverse_aux [] ys = omega arith
length-reverse_aux (x ∷ xs) ys = omega (arith, length-reverse_aux xs (x ∷ ys))

back_to_slash-reverse :
    (floor : ℕ) (out rest : Bytes)
    → back_to_slash (reverse_aux out rest) floor (length out) ≡ some (length (pop floor out))
unfolding back_to_slash pop
back_to_slash-reverse floor [] rest = refl
back_to_slash-reverse floor (x ∷ out) rest = elim (Bool-cases (ltb floor (suc (length out)))) [
  | inl more ↦ elim (Bool-cases (is_slash x)) [
    | inl e ↦ rw (more, load-top out rest x, e) refl
    | inr e ↦ rw (more, load-top out rest x, e) (back_to_slash-reverse floor out (x ∷ rest))
  ]
  | inr low ↦ rw low refl
]

-- The way back from a "..": over the separator, to the one before it
back_to_slash-tail :
    (floor : ℕ) (out rest : Bytes)
    → (if ltb 0 (length out)
        then back_to_slash (reverse_aux out rest) floor (length out - 1)
        else some (length out))
      ≡ some (length (pop floor (tail out)))
unfolding back_to_slash pop tail
back_to_slash-tail floor [] rest = refl
back_to_slash-tail floor (x ∷ out) rest =
    let above = lt→ltb 0 (suc (length out)) (omega arith) in
    rw above (
      ap (back_to_slash (reverse_aux out (x ∷ rest)) floor) (omega arith)
      ∙ back_to_slash-reverse floor out (x ∷ rest))

length-tail : (out : Bytes) → length (tail out) ≡ length out - 1
unfolding tail
length-tail [] = refl
length-tail (x ∷ out) = omega arith

last-tail :
    (out rest : Bytes)
    → (if ltb 0 (length out)
        then (back_to_slash (reverse_aux out rest) 0 (length out - 1)) >>= (λ w. some (w - 1))
        else some (length out))
      ≡ some (length (tail (pop 0 (tail out))))
unfolding pop tail
last-tail [] rest = refl
last-tail (x ∷ out) rest =
    let above = lt→ltb 0 (suc (length out)) (omega arith) in
    let e : suc (length out) - 1 ≡ length out = omega arith in
    rw (above, e, back_to_slash-reverse 0 out (x ∷ rest)) (ap some (sym (length-tail (pop 0 out))))

is_one_dot-reverse :
    (done comp rest : Bytes)
    → is_one_dot (reverse_aux (comp ++ done) rest) (length done) (length (comp ++ done))
      ≡ some (is_dot comp)
unfolding is_one_dot is_dot
is_one_dot-reverse done [] rest = ground arith
is_one_dot-reverse done (x ∷ []) rest =
    let e : (suc (length done) - length done == 1) ≡ true = ground arith in
    rw (e, load-top done rest x) refl
is_one_dot-reverse done (y ∷ x ∷ comp) rest =
    let e : (suc (suc (length (comp ++ done))) - length done == 1) ≡ false =
      ground (arith, length-append comp done) in
    rw e refl

is_two_dots-reverse :
    (done comp rest : Bytes)
    → is_two_dots (reverse_aux (comp ++ done) rest) (length done) (length (comp ++ done))
      ≡ some (is_parent comp)
unfolding is_two_dots is_parent load
is_two_dots-reverse done [] rest = ground arith
is_two_dots-reverse done (x ∷ []) rest = ground arith
is_two_dots-reverse done (y ∷ x ∷ []) rest =
    let e : (suc (suc (length done)) - length done == 2) ≡ true = ground arith in
    elim (Bool-cases (x == dot)) [
      | inl d ↦ rw (e, load-top done (y ∷ rest) x, d, load-reverse done (x ∷ y ∷ rest) 1) refl
      | inr d ↦ rw (e, load-top done (y ∷ rest) x, d) refl
    ]
is_two_dots-reverse done (z ∷ y ∷ x ∷ comp) rest =
    let e : (suc (suc (suc (length (comp ++ done)))) - length done == 2) ≡ false =
      ground (arith, length-append comp done) in
    rw e refl

module _ (done comp rest : Bytes) where
  abbrev path : Bytes
  path = reverse_aux (comp ++ done) rest

  pub end_component-reverse :
      (is_absolute : Bool)
      → end_component path is_absolute (length done) (length (comp ++ done))
        ≡ some (length (close is_absolute done comp))
  unfolding end_component close
  end_component-reverse is_absolute =
      let one = is_one_dot-reverse done comp rest in
      let two = is_two_dots-reverse done comp rest in
      let (mid, e, _) = uncover comp done rest in
      elim (Bool-cases (is_dot comp)) [
        | inl d ↦ rw (one, two, d) refl
        | inr d ↦ elim (Bool-cases (is_parent comp)) [
          | inl n ↦
              rw (one, two, d, n, e)
                (back_to_slash-tail (if is_absolute then 1 else 0) done (mid ++ rest))
          | inr n ↦ rw (one, two, d, n) refl
        ]
      ]

  pub end_path-reverse :
      end_path path (length done) (length (comp ++ done)) ≡ some (length (last_component done comp))
  unfolding end_path last_component
  end_path-reverse =
      let one = is_one_dot-reverse done comp rest in
      let two = is_two_dots-reverse done comp rest in
      let (mid, e, _) = uncover comp done rest in
      elim (Bool-cases (is_dot comp)) [
        | inl d ↦ rw (one, two, d) (ap some (sym (length-tail done)))
        | inr d ↦ elim (Bool-cases (is_parent comp)) [
          | inl n ↦ rw (one, two, d, n, e) (last-tail done (mid ++ rest))
          | inr n ↦ rw (one, two, d, n) refl
        ]
      ]

pub strip_slash-reverse :
    (out rest : Bytes) → strip_slash (reverse_aux out rest) (length out) ≡ some (length (strip out))
unfolding strip_slash strip
strip_slash-reverse [] rest = refl
strip_slash-reverse (y ∷ []) rest = refl
strip_slash-reverse (y ∷ x ∷ out) rest =
    let more = lt→ltb 1 (suc (suc (length out))) (omega arith) in
    let e : suc (suc (length out)) - 1 ≡ suc (length out) = omega arith in
    rw (more, e, load-top (x ∷ out) rest y)
      (elim (Bool-cases (y == slash)) [ inl s ↦ rw s refl | inr s ↦ rw s refl ])
