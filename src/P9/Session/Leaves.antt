-- ===== src/P9/Session/Leaves.antt =====
-- Computations of src/c/zbc_transport_9p.c that leave the table of open files alone.
use semihost.Base.{ℕ, Bool, true, false, if◌then◌else◌, Option, none, some, ◌≡◌, refl, ◌∙◌}
use semihost.P9.Session.{
  Session, Flow, P9, next, returned, ◌>>=◌, pure, return, gets, modify, access, reached, when,
  run_on, p9_fill_response, fail_errno,
}
use semihost.P9.Session.Ends.{IfEnds}
use semihost.Riff.{Rc}

-- However the computation ends, the files are those that it started with.
pub record Leaves {A : Type 0} (m : P9 A) : Type 0 where
  pub at : (s : Session) → IfEnds (λ _ t. t.files ≡ s.files) (m s)

-- Steps of a computation, for what holds at its end
pub IfEnds-bind :
    {A B : Type 0} (E : Flow A → Session → Type 0) (F : Flow B → Session → Type 0) (m : P9 A)
    (f : A → P9 B) (s : Session)
    → IfEnds E (m s)
    → ((a : A) (t : Session) → E (next a) t → IfEnds F (f a t))
    → ((rc : Rc) (t : Session) → E (returned rc) t → F (returned rc) t)
    → IfEnds F ((m >>= f) s)
unfolding ◌>>=◌
IfEnds-bind {A} {B} E F m f s h onward early = goes (m s) h
  where
    goes : (o : Option (Flow A × Session)) → IfEnds E o → IfEnds F (run_on o f)
    goes none q = tt
    goes (some (next a, t)) q = onward a t q
    goes (some (returned rc, t)) q = early rc t q

module _ {A : Type 0} where
  pub Leaves-pure : (a : A) → Leaves (pure a)
  unfolding pure
  Leaves-pure a = record { at = λ s. refl }

  pub Leaves-return : (rc : Rc) → Leaves (return {A = A} rc)
  unfolding return
  Leaves-return rc = record { at = λ s. refl }

  pub Leaves-gets : (f : Session → A) → Leaves (gets f)
  unfolding gets
  Leaves-gets f = record { at = λ s. refl }

  pub Leaves-access : (f : Session → Option A) → Leaves (access f)
  unfolding access
  Leaves-access f = record { at = λ s. lift (f s) s }
    where
      lift : (o : Option A) (s : Session) → IfEnds (λ _ t. t.files ≡ s.files) (reached o s)
      lift none s = tt
      lift (some a) s = refl

  pub Leaves-if : (b : Bool) (x y : P9 A) → Leaves x → Leaves y → Leaves (if b then x else y)
  Leaves-if true x y h g = h
  Leaves-if false x y h g = g

pub Leaves-modify :
    (f : Session → Session) → ((s : Session) → (f s).files ≡ s.files) → Leaves (modify f)
unfolding modify
Leaves-modify f h = record { at = λ s. h s }

pub Leaves-bind :
    {A B : Type 0} (m : P9 A) (f : A → P9 B)
    → Leaves m
    → ((a : A) → Leaves (f a))
    → Leaves (m >>= f)
Leaves-bind {A} {B} m f h g = record {
  at = λ s.
      IfEnds-bind (λ _ t. t.files ≡ s.files) (λ _ t. t.files ≡ s.files) m f s (h.at s)
        (λ a t e. same s t e (f a t) ((g a).at t)) λ rc t e. e;
}
  where
    same :
        (s t : Session)
        → t.files ≡ s.files
        → (o : Option (Flow B × Session)) → IfEnds (λ _ u. u.files ≡ t.files) o
        → IfEnds (λ _ u. u.files ≡ s.files) o
    same s t e none q = tt
    same s t e (some r) q = q ∙ e

pub Leaves-when : (b : Bool) (m : P9 (Unit {0})) → Leaves m → Leaves (when b m)
Leaves-when b m h = Leaves-if b m (pure tt) h (Leaves-pure tt)

pub fill_response-Leaves : (result err : ℕ) → Leaves (p9_fill_response result err)
unfolding p9_fill_response
fill_response-Leaves result err = Leaves-modify _ λ s. refl

pub fail_errno-Leaves : {A : Type 0} (err : ℕ) → Leaves (fail_errno {A = A} err)
unfolding fail_errno
fail_errno-Leaves err =
    Leaves-bind _ _ (Leaves-modify (λ s. record s { last_errno = err }) λ s. refl)
      λ _. Leaves-bind _ _ (fill_response-Leaves _ err) λ _. Leaves-return Rc.ok

pub ruleset leaving = (
  Leaves-pure, Leaves-return, Leaves-gets, Leaves-access, Leaves-if, Leaves-bind, Leaves-when,
  fail_errno-Leaves,
)
