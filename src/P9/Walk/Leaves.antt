-- ===== src/P9/Walk/Leaves.antt =====
-- Walks and size queries of src/c/zbc_transport_9p.c leave the table of open files alone.
use semihost.Base.{ℕ, Bool, Option, none, some, List}
use semihost.Memory.{Bytes}
use semihost.P9.Rpc.{Device, Reply}
use semihost.P9.Rpc.Leaves.{request-Leaves, rd_u16-Leaves, rd_u32-Leaves, rd_bytes-Leaves}
use semihost.P9.Session.Leaves.{Leaves, Leaves-pure, leaving}
use semihost.P9.Walk.{walked, walk_to, walk_to_leaf, walk_names, p9_walk, p9_getattr_size}

walked-Leaves : (names : ℕ) (r : Reply) → Leaves (walked names r)
unfolding walked
walked-Leaves names r = search (leaving, rd_u16-Leaves)

module _ (dev : Device) where
  walk_to-Leaves :
      (base_fid newfid : ℕ) (leaf : Bytes) (names : List Bytes)
      → Leaves (walk_to dev base_fid newfid leaf names)
  unfolding walk_to
  walk_to-Leaves base_fid newfid leaf names = search (leaving, request-Leaves, walked-Leaves)

  walk_to_leaf-Leaves :
      (base_fid newfid : ℕ) (split : Option (List Bytes × Bytes))
      → Leaves (walk_to_leaf dev base_fid newfid split)
  unfolding walk_to_leaf
  walk_to_leaf-Leaves base_fid newfid none = Leaves-pure _
  walk_to_leaf-Leaves base_fid newfid (some r) = walk_to-Leaves base_fid newfid r.1 r.0

  walk_names-Leaves :
      (base_fid newfid : ℕ) (to_parent : Bool) (names : Option (List Bytes))
      → Leaves (walk_names dev base_fid newfid to_parent names)
  unfolding walk_names
  walk_names-Leaves base_fid newfid to_parent none = Leaves-pure _
  walk_names-Leaves base_fid newfid to_parent (some names) =
      search (leaving, walk_to-Leaves, walk_to_leaf-Leaves)

  pub p9_walk-Leaves :
      (base_fid newfid : ℕ) (path : Bytes) (to_parent : Bool)
      → Leaves (p9_walk dev base_fid newfid path to_parent)
  unfolding p9_walk
  p9_walk-Leaves base_fid newfid path to_parent = search (leaving, walk_names-Leaves)

  pub p9_getattr_size-Leaves : (fid : ℕ) → Leaves (p9_getattr_size dev fid)
  unfolding p9_getattr_size
  p9_getattr_size-Leaves fid =
      search (leaving, request-Leaves, rd_bytes-Leaves, rd_u32-Leaves) depth 12
