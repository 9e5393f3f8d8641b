-- ===== src/Composite/Shared.antt =====
-- The 9P transport as the file child of the composite one of src/c/zbc_transport_composite.c.
use semihost.Base.{
  ℕ, ◌≤◌, ◌<◌, true, false, ◌==◌, Option, none, some, ◌≡◌, ◌≢◌, refl, sym, ◌∙◌, ap, subst, arith,
  inl, inr, ◌⊎◌,
}
use semihost.Client.Response.{Response}
use semihost.Composite.{
  Caller, Call, Composite, Sessions, fill_enosys, is_one_of, composite_select, call_child,
  composite_at, composite_call, with_response, keep_session, p9_at, p9_child,
}
use semihost.Composite.Routes.{p9_labels, composite_select-p9_labels}
use semihost.Memory.{Yields, Yields-bind}
use semihost.Opcode.{sys_errno, sys_iserror}
use semihost.P9.Rpc.{Device}
use semihost.P9.Rpc.Safe.{Serves}
use semihost.P9.Session.{Session}
use semihost.P9.Transport.{Args, p9_transport_call}
use semihost.P9.Transport.Safe.{IsContext, IsCall, p9_transport_call-Yields}
use semihost.Riff.{ok}

with_response-IsContext :
    (n k : ℕ) (r : Response) (o : Option Session)
    → IsContext n k o
    → IsContext n k (mathlib.Core.Option.map (with_response r) o)
with_response-IsContext n k r none h = tt
with_response-IsContext n k r (some s) h = ground arith

-- The caller's context is the composite's own again, and the session at `b` is in order.
abbrev pub IsRestored : ℕ → ℕ → ℕ → ℕ → Option (Caller Sessions) → Type 0
IsRestored n k a b none = ⊥
IsRestored n k a b (some c) = (c.transport_ctx ≡ some a) × IsContext n k (c.contexts b)

keep_session-IsContext :
    (n k b : ℕ) (o : Option Session) (s : Caller Sessions)
    → IsContext n k o
    → IsContext n k (s.contexts b)
    → IsContext n k ((keep_session b o s).contexts b)
unfolding keep_session
keep_session-IsContext n k b none s h l = l
keep_session-IsContext n k b (some session) s h l = let e : (b == b) ≡ true = ground arith in rw e h

p9_at-Yields :
    (n k : ℕ) (dev : Device) (fuel b opcode : ℕ) (args : Args) (s : Caller Sessions)
    → 128 ≤ n
    → Serves dev
    → IsContext n k (s.contexts b)
    → IsCall fuel k args opcode
    → Yields (λ r. IsContext n k (r.1.contexts b)) (p9_at dev fuel (some b) s opcode args)
unfolding p9_at
p9_at-Yields n k dev fuel b opcode args s large serves v c =
    Yields-bind (λ r. IsContext n k r.1) _ (p9_transport_call dev fuel _ opcode args) _
      (p9_transport_call-Yields n k dev fuel _ opcode args large serves
        (with_response-IsContext n k s.response (s.contexts b) v) c)
      λ r after. keep_session-IsContext n k b r.1 s after v

p9_child-Yields :
    (n k : ℕ) (dev : Device) (fuel b opcode : ℕ) (args : Args) (s : Caller Sessions)
    → 128 ≤ n
    → Serves dev
    → s.transport_ctx ≡ some b
    → IsContext n k (s.contexts b)
    → IsCall fuel k args opcode
    → Yields (λ r. IsContext n k (r.1.contexts b)) (p9_child dev fuel s opcode args)
unfolding p9_child
p9_child-Yields n k dev fuel b opcode args s large serves e v c =
    subst (λ ctx. Yields (λ r. IsContext n k (r.1.contexts b)) (p9_at dev fuel ctx s opcode args))
      (sym e) (p9_at-Yields n k dev fuel b opcode args s large serves v c)

-- The operations that the composite transport leaves to the 9P one
abbrev pub IsShared : Device → ℕ → Args → ℕ → Type 0
IsShared dev fuel args opcode =
    (opcode < 256)
    × (is_one_of opcode (p9_labels dev fuel args) ≡ true)
    × (opcode ≢ sys_iserror)
    × (opcode ≢ sys_errno)

==-false : (a b : ℕ) → a ≢ b → (a == b) ≡ false
==-false a b ne = ground arith

file_selected :
    (dev : Device) (fuel : ℕ) (args : Args) (opcode : ℕ) (children : Composite Sessions)
    → IsShared dev fuel args opcode
    → composite_select opcode children ≡ (children.file, children.file_ctx)
file_selected dev fuel args opcode children (low, served, not_iserror, not_errno) =
    composite_select-p9_labels dev fuel args opcode children low
    ∙ rw (served, ==-false opcode sys_iserror not_iserror, ==-false opcode sys_errno not_errno) refl

call_child-Yields :
    (n k a b : ℕ) (dev : Device) (fuel opcode : ℕ) (args : Args) (s : Caller Sessions)
    → 128 ≤ n
    → Serves dev
    → s.transport_ctx ≡ some a
    → IsContext n k (s.contexts b)
    → IsCall fuel k args opcode
    → Yields
        (λ r. IsRestored n k a b r.1)
        (call_child (some (p9_child dev fuel), some b) s opcode args)
unfolding call_child
call_child-Yields n k a b dev fuel opcode args s large serves e v c =
    Yields-bind (λ r. IsContext n k (r.1.contexts b)) _ (p9_child dev fuel _ opcode args) _
      (p9_child-Yields n k dev fuel b opcode args (record s { transport_ctx = some b }) large serves
        refl v c)
      λ r after. (e, after)

-- The composite transport's state has the 9P transport for its file child, with the session at `b`.
abbrev pub HasP9 : Device → ℕ → ℕ → Composite Sessions → Type 0
HasP9 dev fuel b children =
    (children.file ≡ some (p9_child dev fuel)) × (children.file_ctx ≡ some b)

child_is_p9 :
    (dev : Device) (fuel : ℕ) (args : Args) (opcode b : ℕ) (children : Composite Sessions)
    → IsShared dev fuel args opcode
    → HasP9 dev fuel b children
    → composite_select opcode children ≡ (some (p9_child dev fuel), some b)
child_is_p9 dev fuel args opcode b children shared (f, g) =
    file_selected dev fuel args opcode children shared ∙ rw (f, g) refl

-- Take a composite transport whose file child is the 9P one, with a session that is in order and has
-- room for messages of 128 bytes at least, and a device that keeps to the virtio protocol and reports
-- no length beyond the room for the reply. Then a call for an operation that both serve, with lengths
-- that are those of the memory pointed to and with a byte count below 2 ^ 32 and below the fuel,
-- returns; the caller's context is the composite's again and the session is in order.
pub composite_call-Yields :
    (n k a b : ℕ) (composites : ℕ → Composite Sessions) (dev : Device) (fuel opcode : ℕ)
    (args : Args) (s : Caller Sessions)
    → 128 ≤ n
    → Serves dev
    → s.transport_ctx ≡ some a
    → HasP9 dev fuel b (composites a)
    → IsShared dev fuel args opcode
    → IsContext n k (s.contexts b)
    → IsCall fuel k args opcode
    → Yields (λ r. IsRestored n k a b r.1) (composite_call composites (some s) opcode args)
unfolding composite_call composite_at
composite_call-Yields n k a b composites dev fuel opcode args s large serves e has shared v c =
    subst
      (λ ctx.
        Yields (λ r. IsRestored n k a b r.1)
          (composite_at (mathlib.Core.Option.map composites ctx) s opcode args))
      (sym e)
      (subst (λ child. Yields (λ r. IsRestored n k a b r.1) (call_child child s opcode args))
        (sym (child_is_p9 dev fuel args opcode b (composites a) shared has))
        (call_child-Yields n k a b dev fuel opcode args s large serves e v c))

-- The two operations about errors, which the composite transport does not leave to the 9P one
abbrev pub IsMeta : ℕ → Type 0
IsMeta opcode = (opcode ≡ sys_iserror) ⊎ (opcode ≡ sys_errno)

fallback_selected :
    (opcode : ℕ) (children : Composite Sessions)
    → IsMeta opcode
    → composite_select opcode children ≡ (children.fallback, children.fallback_ctx)
unfolding composite_select
fallback_selected opcode children (inl e) =
    subst (λ o. composite_select o children ≡ (children.fallback, children.fallback_ctx)) (sym e)
      refl
fallback_selected opcode children (inr e) =
    subst (λ o. composite_select o children ≡ (children.fallback, children.fallback_ctx)) (sym e)
      refl

no_child :
    (child : Option (Call Sessions) × Option ℕ) (s : Caller Sessions) (opcode : ℕ) (args : Args)
    → child.0 ≡ none
    → call_child child s opcode args ≡ some (ok, some (fill_enosys s))
unfolding call_child
no_child (none, ctx) s opcode args e = refl
no_child (some call, ctx) s opcode args e = cc

-- SYS_ISERROR and SYS_ERRNO, which the 9P transport answers, get -1 and ENOSYS from the composite
-- one whose fallback is NULL, whatever its file child and the session are.
pub composite_call-errno :
    (a : ℕ) (composites : ℕ → Composite Sessions) (opcode : ℕ) (args : Args) (s : Caller Sessions)
    → IsMeta opcode
    → s.transport_ctx ≡ some a
    → (composites a).fallback ≡ none
    → composite_call composites (some s) opcode args ≡ some (ok, some (fill_enosys s))
unfolding composite_call composite_at
composite_call-errno a composites opcode args s meta e no_fallback =
    subst
      (λ ctx.
        composite_at (mathlib.Core.Option.map composites ctx) s opcode args
        ≡ some (ok, some (fill_enosys s)))
      (sym e)
      (no_child (composite_select opcode (composites a)) s opcode args
        (ap (λ c. c.0) (fallback_selected opcode (composites a) meta) ∙ no_fallback))
