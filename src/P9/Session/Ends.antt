-- ===== src/P9/Session/Ends.antt =====
-- What holds of the values that the computations of src/c/zbc_transport_9p.c hand on, whatever the
-- session they start from, and of the handles of the session that they leave.
use semihost.Base.{Bool, true, false, if◌then◌else◌, Option, none, some, ◌≡◌, refl}
use semihost.P9.Session.{
  Session, Flow, P9, next, returned, ◌>>=◌, pure, return, gets, access, when, run_on,
}
use semihost.Riff.{Rc}

-- Where the computation ends, its end satisfies `E`.
abbrev pub IfEnds : {A : Type 0} → (Flow A → Session → Type 0) → Option (Flow A × Session) → Type 0
IfEnds E none = Unit
IfEnds E (some r) = E r.0 r.1

-- A value that it hands on satisfies `P`.
abbrev pub HandsOn : {A : Type 0} → (A → Type 0) → Option (Flow A × Session) → Type 0
HandsOn P none = Unit
HandsOn P (some (next a, s)) = P a
HandsOn P (some (returned rc, s)) = Unit

pub record Ends {A : Type 0} (P : A → Type 0) (m : P9 A) : Type 0 where
  pub at : (s : Session) → HandsOn P (m s)

module _ {A B : Type 0} {P : B → Type 0} where
  pub Ends-bind : (m : P9 A) (f : A → P9 B) → ((a : A) → Ends P (f a)) → Ends P (m >>= f)
  unfolding ◌>>=◌
  Ends-bind m f h = record { at = λ s. goes (m s) }
    where
      goes : (o : Option (Flow A × Session)) → HandsOn P (run_on o f)
      goes none = tt
      goes (some (next a, t)) = (h a).at t
      goes (some (returned rc, t)) = tt

  pub Ends-bind_of :
      {Q : A → Type 0} (m : P9 A) (f : A → P9 B)
      → Ends Q m
      → ((a : A) → Q a → Ends P (f a))
      → Ends P (m >>= f)
  unfolding ◌>>=◌
  Ends-bind_of {Q} m f g h = record { at = λ s. goes (m s) (g.at s) }
    where
      goes : (o : Option (Flow A × Session)) → HandsOn Q o → HandsOn P (run_on o f)
      goes none q = tt
      goes (some (next a, t)) q = (h a q).at t
      goes (some (returned rc, t)) q = tt

module _ {A : Type 0} {P : A → Type 0} where
  pub Ends-pure : (a : A) → P a → Ends P (pure a)
  unfolding pure
  Ends-pure a p = record { at = λ s. p }

  pub Ends-gets : (f : Session → A) → ((s : Session) → P (f s)) → Ends P (gets f)
  unfolding gets
  Ends-gets f h = record { at = λ s. h s }

  pub Ends-none : Ends P (access λ _. none)
  unfolding access
  Ends-none = record { at = λ s. tt }

  pub Ends-return : (rc : Rc) → Ends P (return rc)
  unfolding return
  Ends-return rc = record { at = λ s. tt }

  pub Ends-if :
      (b : Bool) (x y : P9 A)
      → (b ≡ true → Ends P x)
      → (b ≡ false → Ends P y)
      → Ends P (if b then x else y)
  Ends-if true x y h h' = h refl
  Ends-if false x y h h' = h' refl

  -- A test that returns
  pub Ends-guard :
      (b : Bool) (rc : Rc) (f : P9 A)
      → (b ≡ false → Ends P f)
      → Ends P (when b (return rc) >>= λ _. f)
  Ends-guard b rc f h =
      Ends-bind_of {Q = λ _. b ≡ false} (when b (return rc)) (λ _. f) (left b) λ _ e. h e
    where
      left : (c : Bool) → Ends (λ _. c ≡ false) (when c (return rc))
      left true = record { at = λ s. unfold return in tt }
      left false = record { at = λ s. unfold pure in refl }
