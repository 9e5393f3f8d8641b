-- ===== src/P9/Walk/Safe.antt =====
-- Walks and size queries of src/c/zbc_transport_9p.c keep a session in order.
use semihost.Base.{
  ℕ, suc, ◌≤◌, Bool, true, false, not, ◌==◌, ◌||◌, if◌then◌else◌, Option, none, some, List, [],
  length, arith,
}
use semihost.Memory.{Bytes}
use semihost.P9.Message.Safe.{rd_u16-Safe, rd_u32-Safe, rd_bytes-Safe}
use semihost.P9.Rpc.{Device, Reply, answer}
use semihost.P9.Rpc.Safe.{Serves, IsReply, request-Safe}
use semihost.P9.Session.Safe.{Any, Safe, Safe-pure, Safe-access, Safe-if, Safe-bind}
use semihost.P9.Walk.{
  split_last, walked, walk_to, walk_to_leaf, walk_names, p9_walk, p9_getattr_size,
}
use semihost.P9.Walk.Split.{split_path-components}
use semihost.P9.Wire.{p9_tag, twalk, rwalk, tgetattr, rgetattr, rgetattr_size_offset, enoent}
use semihost.Riff.{ok, is_ok}
use semihost.Word.{u16}

-- A reply, and the leaf's name or the size beside it
abbrev pub IsAnswered : {A : Type 0} → ℕ → Reply × A → Type 0
IsAnswered n x = IsReply n x.0

if_reply :
    (n : ℕ) (b : Bool) (x y : Reply) → IsReply n x → IsReply n y → IsReply n (if b then x else y)
if_reply n true x y h l = h
if_reply n false x y h l = l

walked-Safe :
    (n k : ℕ) (names : ℕ) (r : Reply) → IsReply n r → Safe n k (IsReply n) (walked names r)
unfolding walked
walked-Safe n k names r h =
    Safe-if n k (not (is_ok r.rc) || not (r.p9err == 0)) _ _ (λ _. Safe-pure n k r h)
      λ _. Safe-bind n k _ _ (rd_u16-Safe n k r.reader h) λ got l. Safe-pure n k _ (
        if_reply n (not (got.0 == u16 names) || (got.1).truncated) (answer ok enoent got.1)
          (answer ok 0 got.1) l l)

module _ (n k : ℕ) (large : 128 ≤ n) (dev : Device) (serves : Serves dev) where
  walk_to-Safe :
      (base_fid newfid : ℕ) (leaf : Bytes) (names : List Bytes)
      → Safe n k (IsAnswered n) (walk_to dev base_fid newfid leaf names)
  unfolding walk_to
  walk_to-Safe base_fid newfid leaf names =
      Safe-bind n k _ _ (request-Safe n k large dev serves twalk p9_tag rwalk _)
        λ r h. Safe-bind n k _ _ (walked-Safe n k (length names) r h) λ r' h'. Safe-pure n k _ h'

  walk_to_leaf-Safe :
      (base_fid newfid : ℕ) (split : Option (List Bytes × Bytes))
      → Safe n k (IsAnswered n) (walk_to_leaf dev base_fid newfid split)
  unfolding walk_to_leaf
  walk_to_leaf-Safe base_fid newfid none = Safe-pure n k _ (omega arith)
  walk_to_leaf-Safe base_fid newfid (some r) = walk_to-Safe base_fid newfid r.1 r.0

  walk_names-Safe :
      (base_fid newfid : ℕ) (to_parent : Bool) (names : Option (List Bytes))
      → Safe n k (IsAnswered n) (walk_names dev base_fid newfid to_parent names)
  unfolding walk_names
  walk_names-Safe base_fid newfid to_parent none = Safe-pure n k _ (omega arith)
  walk_names-Safe base_fid newfid to_parent (some names) =
      Safe-if n k to_parent _ _ (λ _. walk_to_leaf-Safe base_fid newfid (split_last names))
        λ _. walk_to-Safe base_fid newfid [] names

  pub p9_walk-Safe :
      (base_fid newfid : ℕ) (path : Bytes) (to_parent : Bool)
      → Safe n k (IsAnswered n) (p9_walk dev base_fid newfid path to_parent)
  unfolding p9_walk
  p9_walk-Safe base_fid newfid path to_parent =
      Safe-bind n k {P = Any} _ _
        (Safe-access n k _ λ s v.
          rw (split_path-components (suc (length path)) 0 path (omega arith) (omega arith)) tt)
        λ names _. walk_names-Safe base_fid newfid to_parent names

  pub p9_getattr_size-Safe : (fid : ℕ) → Safe n k (IsAnswered n) (p9_getattr_size dev fid)
  unfolding p9_getattr_size
  p9_getattr_size-Safe fid =
      Safe-bind n k _ _ (request-Safe n k large dev serves tgetattr p9_tag rgetattr _) λ r h.
        Safe-if n k (not (is_ok r.rc) || not (r.p9err == 0)) _ _ (λ _. Safe-pure n k _ h)
          λ _.
            Safe-bind n k _ _ (rd_bytes-Safe n k r.reader rgetattr_size_offset h) λ skipped (l, _).
              Safe-bind n k _ _ (rd_u32-Safe n k skipped.1 l) λ lo l1.
                Safe-bind n k _ _ (rd_u32-Safe n k lo.1 l1) λ hi l2.
                  Safe-if n k ((hi.1).truncated) _ _ (λ _. Safe-pure n k _ l2)
                    λ _. Safe-pure n k _ l2
