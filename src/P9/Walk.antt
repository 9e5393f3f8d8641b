-- ===== src/P9/Walk.antt =====
-- p9_walk and p9_getattr_size of src/c/zbc_transport_9p.c. A path is given as the bytes that its
-- length covers.
use semihost.Base.{
  ℕ, zero, suc, ◌+◌, ◌*◌, ◌^◌, Bool, true, false, not, ◌==◌, leb, ◌||◌, if◌then◌else◌, Option, none,
  some, List, [], ◌∷◌, map, length, bit_or,
}
use semihost.Memory.{Bytes}
use semihost.P9.Message.{Field, word16, word32, word64, str, Reader, rd_u16, rd_u32, rd_bytes}
use semihost.P9.Rpc.{Device, Reply, no_reader, answer, request}
use semihost.P9.Session.{P9, ◌>>=◌, pure, return, access}
use semihost.P9.Wire.{
  max_walk, p9_tag, twalk, rwalk, tgetattr, rgetattr, getattr_size, rgetattr_size_offset, enoent,
  enametoolong,
}
use semihost.Riff.{ok, is_ok, parse_error}
use semihost.Word.{u16}
pub mod Split
pub mod Safe
pub mod Leaves

abbrev pub slash : ℕ
slash = b'/'

-- while (i < path_len && path[i] == '/') i++;
unfoldable pub skip_slashes : Bytes → Bytes
skip_slashes [] = []
skip_slashes (c ∷ cs) = if c == slash then skip_slashes cs else c ∷ cs

-- The bytes up to the next separator, and those from it on
unfoldable pub name_of : Bytes → Bytes
name_of [] = []
name_of (c ∷ cs) = if c == slash then [] else c ∷ name_of cs

unfoldable pub after_name : Bytes → Bytes
after_name [] = []
after_name (c ∷ cs) = if c == slash then c ∷ cs else after_name cs

abbrev pub prepend : Bytes → Option (Option (List Bytes)) → Option (Option (List Bytes))
prepend name none = none
prepend name (some none) = some none
prepend name (some (some names)) = some (some (name ∷ names))

-- One component, where one is left; `more` is what the rest of the path gives. Inside, `none` means
-- that the path has more components than one Twalk carries.
abbrev pub split_name :
    ℕ → Bytes → (Bytes → Option (Option (List Bytes))) → Option (Option (List Bytes))
split_name n [] more = some (some [])
split_name n (c ∷ cs) more =
    if leb max_walk n then some none else prepend (name_of (c ∷ cs)) (more (after_name (c ∷ cs)))

-- The loop of p9_walk over the path with `n` components found; `none` when the fuel runs out
unfoldable pub split_path : ℕ → ℕ → Bytes → Option (Option (List Bytes))
split_path zero n path = none
split_path (suc fuel) n path =
    split_name n (skip_slashes path) (λ rest. split_path fuel (n + 1) rest)

-- n--; *leaf = comp[n];
unfoldable pub split_last : List Bytes → Option (List Bytes × Bytes)
split_last [] = none
split_last (name ∷ []) = some ([], name)
split_last (name ∷ (after ∷ names)) = elim (split_last (after ∷ names)) [
  | none ↦ none
  | some r ↦ some (name ∷ r.0, r.1)
]

-- The Rwalk's count of names
unfoldable pub walked : ℕ → Reply → P9 Reply
walked n r = if not (is_ok r.rc) || not (r.p9err == 0) then pure r else (do
  got ← rd_u16 r.reader
  pure (
      if not (got.0 == u16 n) || (got.1).truncated
      then answer ok enoent got.1
      else answer ok 0 got.1))

module _ (dev : Device) where
  -- The Twalk with the names, and its reply; the leaf is handed on.
  unfoldable pub walk_to : ℕ → ℕ → Bytes → List Bytes → P9 (Reply × Bytes)
  walk_to base_fid newfid leaf names = do
    r ←
        request dev twalk p9_tag rwalk
          (word32 base_fid ∷ word32 newfid ∷ word16 (u16 (length names)) ∷ map str names)
    r ← walked (length names) r
    pure (r, leaf)

  unfoldable pub walk_to_leaf : ℕ → ℕ → Option (List Bytes × Bytes) → P9 (Reply × Bytes)
  walk_to_leaf base_fid newfid none = pure (answer ok enoent no_reader, [])
  walk_to_leaf base_fid newfid (some r) = walk_to base_fid newfid r.1 r.0

  unfoldable pub walk_names : ℕ → ℕ → Bool → Option (List Bytes) → P9 (Reply × Bytes)
  walk_names base_fid newfid to_parent none = pure (answer ok enametoolong no_reader, [])
  walk_names base_fid newfid to_parent (some names) =
      if to_parent
      then walk_to_leaf base_fid newfid (split_last names)
      else walk_to base_fid newfid [] names

  unfoldable pub p9_walk : ℕ → ℕ → Bytes → Bool → P9 (Reply × Bytes)
  p9_walk base_fid newfid path to_parent = do
    names ← access (λ _. split_path (suc (length path)) 0 path)
    walk_names base_fid newfid to_parent names

  -- The reply and *size_out
  unfoldable pub p9_getattr_size : ℕ → P9 (Reply × ℕ)
  p9_getattr_size fid = do
    r ← request dev tgetattr p9_tag rgetattr (word32 fid ∷ word64 getattr_size ∷ [])
    if not (is_ok r.rc) || not (r.p9err == 0) then pure (r, 0) else (do
      skipped ← rd_bytes r.reader rgetattr_size_offset
      lo ← rd_u32 skipped.1
      hi ← rd_u32 lo.1
      if (hi.1).truncated
          then pure (answer parse_error 0 hi.1, 0)
          else pure (answer ok 0 hi.1, bit_or lo.0 (hi.0 * 2 ^ 32)))
