-- ===== src/P9/Files/Moves.antt =====
-- How the rounds of do_read and do_write of src/c/zbc_transport_9p.c move the position of a handle.
use semihost.Base.{
  ℕ, zero, suc, ◌+◌, ◌%◌, ◌^◌, ◌≤◌, Bool, true, false, ltb, if◌then◌else◌, Option, none, some, List,
  [], ◌∷◌, get_or, set, ◌≡◌, refl, sym, ap, ◌∙◌, subst, arith,
}
use semihost.Memory.{Bytes}
use semihost.P9.Files.{
  no_handle, at_offset, advance, with_file, put_out, with_out, copy_data, read_round, write_round,
}
use semihost.P9.Files.Handles.{open_files, open_files-at_offset, EndsWith, then_ends, Leaves-ends}
use semihost.P9.Rpc.{Device}
use semihost.P9.Rpc.Leaves.{request-Leaves, check-Leaves, rd_u32-Leaves, rd_bytes-Leaves}
use semihost.P9.Session.{Session, Handle, Flow, P9, ◌>>=◌, pure, return, modify, when}
use semihost.P9.Session.Ends.{IfEnds}
use semihost.P9.Session.Leaves.{Leaves, Leaves-modify, Leaves-gets, Leaves-access, leaving}
use semihost.Riff.{Rc, parse_error}
use semihost.Word.{u64}

-- The position of one handle has moved on by `k`, modulo 2 ^ 64, and nothing else has changed.
abbrev pub IsMoved : ℕ → ℕ → List Handle → List Handle → Type 0
IsMoved slot k before after =
    (o : ℕ) × (o % 2 ^ 64 ≡ ((get_or before slot no_handle).offset + k) % 2 ^ 64)
    × (after ≡ set before slot (at_offset o (get_or before slot no_handle)))

set-get_or :
    (hs : List Handle) (slot : ℕ)
    → set hs slot (at_offset ((get_or hs slot no_handle).offset) (get_or hs slot no_handle)) ≡ hs
set-get_or [] slot = refl
set-get_or (h ∷ hs) zero = refl
set-get_or (h ∷ hs) (suc slot) = ap (◌∷◌ h) (set-get_or hs slot)

set-advance :
    (hs : List Handle) (slot o c : ℕ)
    → (let moved = set hs slot (at_offset o (get_or hs slot no_handle)) in
        set moved slot (advance c (get_or moved slot no_handle)))
      ≡ set hs slot (at_offset (u64 (o + c)) (get_or hs slot no_handle))
set-advance [] slot o c = refl
set-advance (h ∷ hs) zero o c = refl
set-advance (h ∷ hs) (suc slot) o c = ap (◌∷◌ h) (set-advance hs slot o c)

pub IsMoved-start : (slot : ℕ) (hs : List Handle) → IsMoved slot 0 hs hs
IsMoved-start slot hs = ((get_or hs slot no_handle).offset, omega arith, sym (set-get_or hs slot))

IsMoved-advance :
    (slot k c : ℕ) (before after : List Handle)
    → IsMoved slot k before after
    → IsMoved slot (k + c) before (set after slot (advance c (get_or after slot no_handle)))
IsMoved-advance slot k c before after (o, at, is) = (
  u64 (o + c),
  omega arith,
  ap (λ (hs : List Handle). set hs slot (advance c (get_or hs slot no_handle))) is
      ∙ set-advance before slot o c,
)

IsMoved-open_files :
    (slot k : ℕ) (before after : List Handle)
    → IsMoved slot k before after
    → open_files after ≡ open_files before
IsMoved-open_files slot k before after (o, at, is) =
    ap open_files is ∙ open_files-at_offset before slot o

pub IfEnds-if :
    {A : Type 0} (E : Flow A → Session → Type 0) (b : Bool) (x y : P9 A) (t : Session)
    → (b ≡ true → IfEnds E (x t))
    → (b ≡ false → IfEnds E (y t))
    → IfEnds E ((if b then x else y) t)
IfEnds-if E true x y t h g = h refl
IfEnds-if E false x y t h g = g refl

put_out-Leaves : (off : ℕ) (bs : Bytes) → Leaves (put_out off bs)
unfolding put_out
put_out-Leaves off bs = search (leaving, with_out_leaves)
  where
    with_out_leaves : (out : Bytes) → Leaves (modify (with_out out))
    with_out_leaves out = Leaves-modify _ λ s. refl

copy_data-Leaves : (p : Option ℕ) (got cnt : ℕ) → Leaves (copy_data p got cnt)
unfolding copy_data
copy_data-Leaves none got cnt = Leaves-access _
copy_data-Leaves (some p) got cnt = search (leaving, put_out-Leaves)

-- The rest of a call that has moved the position of the handle at `slot` of the table `files` by `k`
module _ (files : List Handle) (slot k : ℕ) {B : Type 0} (Q : B → Session → Type 0) where
  abbrev Here : Session → Type 0
  Here t = IsMoved slot k files t.files

  after_leaving :
      {A : Type 0} (m : P9 A) (f : A → P9 B) (t : Session)
      → Leaves m
      → Here t
      → ((a : A) (u : Session) → Here u → IfEnds (EndsWith files Q) (f a u))
      → IfEnds (EndsWith files Q) ((m >>= f) t)
  after_leaving m f t h here g =
      then_ends files (λ _ u. u.files ≡ t.files) Q m f t
        (Leaves-ends files m t.files t h (IsMoved-open_files slot k files t.files here) refl)
        λ a u e. g a u (subst (IsMoved slot k files) (sym e) here)

  after_guard :
      (b : Bool) (rc : Rc) (f : P9 B) (t : Session)
      → Here t
      → (b ≡ false → IfEnds (EndsWith files Q) (f t))
      → IfEnds (EndsWith files Q) ((when b (return rc) >>= λ _. f) t)
  unfolding ◌>>=◌ pure return
  after_guard true rc f t here g = IsMoved-open_files slot k files t.files here
  after_guard false rc f t here g = g refl

-- A round that moves the position by what it counts, of `n` bytes at most
abbrev pub Counted : List Handle → ℕ → ℕ → ℕ → ℕ → Session → Type 0
Counted files slot k n cnt u = (cnt ≤ n) × IsMoved slot (k + cnt) files u.files

advance_ends :
    (files : List Handle) (slot k n cnt : ℕ) (t : Session)
    → cnt ≤ n
    → IsMoved slot k files t.files
    → IfEnds
        (EndsWith files (Counted files slot k n))
        ((modify (with_file slot (advance cnt)) >>= λ _. pure cnt) t)
unfolding ◌>>=◌ modify pure
advance_ends files slot k n cnt t few here = (few, IsMoved-advance slot k cnt files t.files here)

module _ (dev : Device) (files : List Handle) (slot k n : ℕ) where
  pub read_round_ends :
      (got : ℕ) (t : Session)
      → IsMoved slot k files t.files
      → IfEnds (EndsWith files (Counted files slot k n)) (read_round dev slot n got t)
  unfolding read_round
  read_round_ends got t here =
      let Q = Counted files slot k n in
      after_leaving files slot k Q _ _ t (Leaves-gets _) here λ offset t1 h1.
        after_leaving files slot k Q _ _ t1 (request-Leaves dev _ _ _ _) h1 λ r t2 h2.
          after_leaving files slot k Q _ _ t2 (check-Leaves r) h2 λ reader t3 h3.
            after_leaving files slot k Q _ _ t3 (rd_u32-Leaves reader) h3 λ cnt t4 h4.
              after_guard files slot k Q (ltb n cnt.0) parse_error _ t4 h4 λ few.
                after_leaving files slot k Q _ _ t4 (rd_bytes-Leaves cnt.1 cnt.0) h4 λ p t5 h5.
                  after_guard files slot k Q ((p.1).truncated) parse_error _ t5 h5 λ _.
                    after_leaving files slot k Q _ _ t5 (copy_data-Leaves p.0 got cnt.0) h5
                      λ _ t6 h6. advance_ends files slot k n cnt.0 t6 (ground arith) h6

  pub write_round_ends :
      (src : Bytes) (t : Session)
      → IsMoved slot k files t.files
      → IfEnds (EndsWith files (Counted files slot k n)) (write_round dev slot n src t)
  unfolding write_round
  write_round_ends src t here =
      let Q = Counted files slot k n in
      after_leaving files slot k Q _ _ t (Leaves-gets _) here λ offset t1 h1.
        after_leaving files slot k Q _ _ t1 (Leaves-access _) h1 λ payload t2 h2.
          after_leaving files slot k Q _ _ t2 (request-Leaves dev _ _ _ _) h2 λ r t3 h3.
            after_leaving files slot k Q _ _ t3 (check-Leaves r) h3 λ reader t4 h4.
              after_leaving files slot k Q _ _ t4 (rd_u32-Leaves reader) h4 λ cnt t5 h5.
                after_guard files slot k Q ((cnt.1).truncated) parse_error _ t5 h5 λ _.
                  after_guard files slot k Q (ltb n cnt.0) parse_error _ t5 h5
                    λ few. advance_ends files slot k n cnt.0 t5 (ground arith) h5
