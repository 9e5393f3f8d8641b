-- ===== src/Composite/Routes.antt =====
-- Which transport the composite one of src/c/zbc_transport_composite.c calls for an operation.
use semihost.Base.{
  ℕ, zero, suc, ◌<◌, Bool, true, false, ◌==◌, ◌&&◌, ◌||◌, not, List, ◌++◌, map, ◌≡◌, refl, sym,
  subst, ◌∙◌, if◌then◌else◌, arith, ◌⊎◌, inl, inr,
}
use semihost.Composite.{Composite, composite_select, is_one_of, console_class, file_class}
use semihost.Opcode.{sys_errno, sys_iserror, sys_writec, sys_write0, sys_readc, sys_readc_poll}
use semihost.P9.Rpc.{Device}
use semihost.P9.Transport.{Args, file_cases, path_cases, other_cases}

-- The labels of p9_transport_call's switch
abbrev pub p9_labels : Device → ℕ → Args → List ℕ
p9_labels dev fuel args =
    map (λ c. c.0) (file_cases dev fuel args)
    ++ (map (λ c. c.0) (path_cases dev fuel args) ++ map (λ c. c.0) (other_cases dev fuel args))

-- The operations that the 9P transport serves and the composite one should leave to it
abbrev pub is_file_call : Device → ℕ → Args → ℕ → Bool
is_file_call dev fuel args opcode =
    is_one_of opcode (p9_labels dev fuel args) && not (opcode == sys_iserror || opcode == sys_errno)

abbrev pub is_console_call : ℕ → Bool
is_console_call opcode =
    opcode == sys_writec
    || (opcode == sys_write0 || (opcode == sys_readc || opcode == sys_readc_poll))

abbrev same : Bool → Bool → Bool
same true b = b
same false b = not b

-- The comparison of two tests at every opcode under a bound
abbrev agrees : (ℕ → Bool) → (ℕ → Bool) → ℕ → Bool
agrees f g zero = true
agrees f g (suc last) = agrees f g last && same (f last) (g last)

same-eq : (a b : Bool) → same a b ≡ true → a ≡ b
same-eq true true h = refl
same-eq true false h = cc
same-eq false true h = cc
same-eq false false h = refl

last_or_before : (opcode last : ℕ) → opcode < suc last → (opcode ≡ last) ⊎ (opcode < last)
last_or_before opcode last h = ground arith

both : (a b : Bool) → (a && b) ≡ true → (a ≡ true) × (b ≡ true)
both a b h = ground arith

agrees-eq :
    (f g : ℕ → Bool) (bound opcode : ℕ)
    → agrees f g bound ≡ true
    → opcode < bound
    → f opcode ≡ g opcode
agrees-eq f g zero opcode h below = absurd (omega arith)
agrees-eq f g (suc last) opcode h below =
    let (before, at_last) = both (agrees f g last) _ h in
    elim (last_or_before opcode last below) [
      | inl e ↦ subst (λ o. f o ≡ g o) (sym e) (same-eq (f last) (g last) at_last)
      | inr lt ↦ agrees-eq f g last opcode before lt
    ]

file_agrees :
    (dev : Device) (fuel : ℕ) (args : Args) (opcode : ℕ)
    → opcode < 256
    → (not (is_one_of opcode console_class) && is_one_of opcode file_class)
      ≡ is_file_call dev fuel args opcode
unfolding file_cases path_cases other_cases
file_agrees dev fuel args opcode h =
    agrees-eq (λ o. not (is_one_of o console_class) && is_one_of o file_class)
      (is_file_call dev fuel args) 256 opcode refl h

console_agrees :
    (opcode : ℕ) → opcode < 256 → is_one_of opcode console_class ≡ is_console_call opcode
console_agrees opcode h =
    agrees-eq (λ o. is_one_of o console_class) is_console_call 256 opcode refl h

second_first :
    {A : Type 0} (b c : Bool) (x y z : A)
    → (if b then x else if c then y else z) ≡ (if not b && c then y else if b then x else z)
second_first true c x y z = refl
second_first false c x y z = refl

pub composite_select-p9_labels :
    {R : Type 0} (dev : Device) (fuel : ℕ) (args : Args) (opcode : ℕ) (children : Composite R)
    → opcode < 256
    → composite_select opcode children ≡ (
        if is_file_call dev fuel args opcode
        then (children.file, children.file_ctx)
        else if is_console_call opcode
        then (children.console, children.console_ctx)
        else (children.fallback, children.fallback_ctx))
unfolding composite_select
composite_select-p9_labels dev fuel args opcode children h =
    second_first (is_one_of opcode console_class) (is_one_of opcode file_class) _ _ _
    ∙ rw (file_agrees dev fuel args opcode h, console_agrees opcode h) refl
