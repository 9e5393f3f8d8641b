-- ===== src/P9/Session/Safe.antt =====
-- Sessions of src/c/zbc_transport_9p.c between two calls, and the computations that keep them.
use semihost.Base.{
  ℕ, ◌≤◌, Bool, true, false, if◌then◌else◌, Option, none, some, length, ◌≡◌, refl, arith,
}
use semihost.Memory.{IsBytes, Yields, Yields-weaken}
use semihost.P9.Session.{
  Session, Flow, P9, next, returned, ◌>>=◌, pure, return, gets, modify, access, when, follow,
  run_on, p9_fill_response, give_data, fail_errno,
}
use semihost.P9.Wire.{max_files, max_dirs}
use semihost.Riff.{Rc}
use semihost.Virtio.Invariant.{IsQueue}

-- A session with messages of `n` bytes at most, a caller's buffer of `k` bytes, and nothing
-- outstanding in its queue
pub record InOrder (n k : ℕ) (s : Session) : Type 0 where
  pub queue : IsQueue s.vq
  pub idle : (s.vq).inflight ≡ false
  pub msize_is : s.msize ≡ n
  pub tx_room : n ≤ length s.tx
  pub rx_room : n ≤ length s.rx
  pub rx_bytes : IsBytes s.rx
  pub files_len : length s.files ≡ max_files
  pub dirs_len : length s.dirs ≡ max_dirs
  pub out_len : length s.out ≡ k

-- A value that is handed on satisfies `P`.
abbrev pub Holds : {A : Type 0} → (A → Type 0) → Flow A → Type 0
Holds P (next a) = P a
Holds P (returned rc) = Unit

abbrev pub Any : {A : Type 0} → A → Type 0
Any a = Unit

module _ (n k : ℕ) where
  abbrev pub Kept : {A : Type 0} → (A → Type 0) → Flow A × Session → Type 0
  Kept P r = InOrder n k r.1 × Holds P r.0

  -- From a session in order the computation ends, makes no access outside a buffer, and leaves a
  -- session in order.
  pub record Safe {A : Type 0} (P : A → Type 0) (m : P9 A) : Type 0 where
    pub at : (s : Session) → InOrder n k s → Yields (Kept P) (m s)

  module _ {A : Type 0} {P : A → Type 0} where
    pub Safe-pure : (a : A) → P a → Safe P (pure a)
    unfolding pure
    Safe-pure a p = record { at = λ s w. (w, p) }

    pub Safe-return : (rc : Rc) → Safe P (return rc)
    unfolding return
    Safe-return rc = record { at = λ s w. (w, tt) }

    pub Safe-gets : (f : Session → A) → ((s : Session) → InOrder n k s → P (f s)) → Safe P (gets f)
    unfolding gets
    Safe-gets f h = record { at = λ s w. (w, h s w) }

    pub Safe-access :
        (f : Session → Option A)
        → ((s : Session) → InOrder n k s → Yields P (f s))
        → Safe P (access f)
    unfolding access
    Safe-access f h = record { at = λ s w. lift (f s) s w (h s w) }
      where
        lift :
            (o : Option A) (s : Session)
            → InOrder n k s
            → Yields P o
            → Yields (Kept P) (semihost.P9.Session.reached o s)
        lift none s w h = h
        lift (some a) s w h = (w, h)

    pub Safe-if :
        (b : Bool) (x y : P9 A)
        → (b ≡ true → Safe P x)
        → (b ≡ false → Safe P y)
        → Safe P (if b then x else y)
    Safe-if true x y h h' = h refl
    Safe-if false x y h h' = h' refl

    pub Safe-weaken : (Q : A → Type 0) (m : P9 A) → Safe P m → ((a : A) → P a → Q a) → Safe Q m
    Safe-weaken Q m h f = record {
      at = λ s w. Yields-weaken (Kept P) (Kept Q) (m s) (h.at s w) λ (r, t) (v, p). (v, weak r p);
    }
      where
        weak : (r : Flow A) → Holds P r → Holds Q r
        weak (next a) p = f a p
        weak (returned rc) p = tt

  pub Safe-modify :
      (f : Session → Session)
      → ((s : Session) → InOrder n k s → InOrder n k (f s))
      → Safe Any (modify f)
  unfolding modify
  Safe-modify f h = record { at = λ s w. (h s w, tt) }

  pub Safe-bind :
      {A B : Type 0} {P : A → Type 0} {Q : B → Type 0} (m : P9 A) (f : A → P9 B)
      → Safe P m
      → ((a : A) → P a → Safe Q (f a))
      → Safe Q (m >>= f)
  unfolding ◌>>=◌
  Safe-bind {P} {Q} m f h g = record { at = λ s w. goes (m s) (h.at s w) }
    where
      goes : (o : Option (Flow _ × Session)) → Yields (Kept P) o → Yields (Kept Q) (run_on o f)
      goes none v = v
      goes (some (next a, t)) (w, p) = (g a p).at t w
      goes (some (returned rc, t)) (w, p) = (w, tt)

  -- The tests that return early
  pub Safe-when : (b : Bool) (m : P9 (Unit {0})) → Safe Any m → Safe Any (when b m)
  Safe-when b m h = Safe-if b m (pure tt) (λ _. h) (λ _. Safe-pure tt tt)

  pub Safe-guard :
      {B : Type 0} {Q : B → Type 0} (b : Bool) (m : P9 (Unit {0})) (f : P9 B)
      → Safe (λ _. ⊥) m
      → (b ≡ false → Safe Q f)
      → Safe Q (when b m >>= λ _. f)
  Safe-guard {Q} b m f h g =
      Safe-bind {P = λ _. b ≡ false} (when b m) (λ _. f)
        (Safe-if b m (pure tt) (λ _. Safe-weaken (λ _. b ≡ false) m h (λ _ a. absurd a))
          (λ e. Safe-pure tt e))
        (λ _ e. g e)

  -- What the computations that fill in the response leave
  pub fill_response-Safe : (result err : ℕ) → Safe Any (p9_fill_response result err)
  unfolding p9_fill_response
  fill_response-Safe result err = Safe-modify _ λ s w. ground arith

  pub give_data-Safe : (size : ℕ) → Safe Any (give_data size)
  unfolding give_data
  give_data-Safe size = Safe-modify _ λ s w. ground arith

  pub fail_errno-Safe : {A : Type 0} (P : A → Type 0) (err : ℕ) → Safe P (fail_errno err)
  unfolding fail_errno
  fail_errno-Safe P err =
      Safe-bind {P = Any} _ _ (Safe-modify (λ s. record s { last_errno = err }) λ s w. ground arith)
        λ _ _. Safe-bind {P = Any} _ _ (fill_response-Safe _ err) λ _ _. Safe-return Rc.ok
