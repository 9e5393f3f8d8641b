-- ===== src/P9/Transport/Safe.antt =====
-- Every call of p9_transport_call of src/c/zbc_transport_9p.c keeps a session in order.
use semihost.Base.{
  ℕ, ◌≤◌, ◌<◌, ◌^◌, Bool, true, ◌==◌, ◌||◌, Option, none, some, List, [], ◌∷◌, min, length, ◌≡◌,
  refl, arith, All,
}
use semihost.Memory.{Bytes, IsBytes, Yields, load_bytes-Yields}
use semihost.Opcode.{
  sys_open, sys_read, sys_write, sys_remove, sys_rename, sys_tmpnam, sys_stat, sys_opendir,
  sys_readdir, sys_fstat, sys_mkdir, sys_rmdir, sys_ftruncate, sys_link, sys_symlink, sys_readlink,
  sys_lstat,
}
use semihost.P9.Dirs.Safe.{do_opendir-Safe, do_readdir-Safe, do_closedir-Safe}
use semihost.P9.Files.Operations.{
  do_open-Safe, do_close-Safe, do_read-Safe, do_write-Safe, do_seek-Safe, do_flen-Safe,
  do_fstat-Safe, do_ftruncate-Safe, do_fsync-Safe,
}
use semihost.P9.Files.Safe.{succeed-Safe}
use semihost.P9.Paths.Safe.{
  do_stat-Safe, do_mkdir-Safe, do_link-Safe, do_symlink-Safe, do_readlink-Safe, do_remove-Safe,
  do_rename-Safe, do_tmpnam-Safe,
}
use semihost.P9.Rpc.{Device}
use semihost.P9.Rpc.Safe.{Serves}
use semihost.P9.Session.{Session, Flow, P9}
use semihost.P9.Session.Safe.{
  InOrder, Any, Kept, Safe, Safe-gets, Safe-access, Safe-if, Safe-bind, fail_errno-Safe,
}
use semihost.P9.Transport.{
  Args, input, switch, on_path, on_paths, ftruncate_case, file_cases, path_cases, other_cases,
  dispatch, finish, p9_transport_call,
}
use semihost.P9.Wire.{stat_buf_size, enosys}
use semihost.Riff.{Rc}

-- The operations on one path at args[0], with its length in args[1]
abbrev pub is_on_path : ℕ → Bool
is_on_path opcode =
    opcode == sys_remove
    || (opcode == sys_stat
        || (opcode == sys_mkdir
            || (opcode == sys_rmdir
                || (opcode == sys_readlink || (opcode == sys_lstat || opcode == sys_opendir)))))

abbrev pub is_on_paths : ℕ → Bool
is_on_paths opcode = opcode == sys_rename || (opcode == sys_link || opcode == sys_symlink)

abbrev pub is_stat : ℕ → Bool
is_stat opcode = opcode == sys_stat || (opcode == sys_lstat || opcode == sys_fstat)

-- A call whose lengths are those of the memory that its pointers point to: of the texts that it
-- reads, and of the caller's buffer of `k` bytes.
pub record IsCall (fuel k : ℕ) (args : Args) (opcode : ℕ) : Type 0 where
  pub bytes : (i : ℕ) → IsBytes (args.text i)
  pub opens : opcode ≡ sys_open → args.word 2 ≤ length (args.text 0)
  pub path : is_on_path opcode ≡ true → args.word 1 ≤ length (args.text 0)
  pub paths :
      is_on_paths opcode ≡ true
      → (args.word 1 ≤ length (args.text 0)) × (args.word 3 ≤ length (args.text 2))
  pub writes :
      opcode ≡ sys_write
      → (args.word 2 ≤ length (args.text 1)) × (args.word 2 < 2 ^ 32) × (args.word 2 < fuel)
  pub reads : opcode ≡ sys_read → (args.word 2 ≤ k) × (args.word 2 < 2 ^ 32) × (args.word 2 < fuel)
  pub truncates : opcode ≡ sys_ftruncate → min (args.word 2) 8 ≤ length (args.text 1)
  pub names : opcode ≡ sys_tmpnam → args.word 2 ≤ k
  pub stats : is_stat opcode ≡ true → stat_buf_size ≤ k
  pub lists : opcode ≡ sys_readdir → args.word 2 ≤ k
  pub links : opcode ≡ sys_readlink → args.word 3 ≤ k

-- Every case that the opcode may take is safe.
abbrev AreSafe : ℕ → ℕ → ℕ → List (ℕ × P9 Rc) → Type 0
AreSafe n k opcode cases = All (λ c. opcode ≡ c.0 → Safe n k Any c.1) cases

switch-Safe :
    (n k opcode : ℕ) (cases : List (ℕ × P9 Rc)) (other : P9 Rc)
    → AreSafe n k opcode cases
    → Safe n k Any other
    → Safe n k Any (switch opcode cases other)
unfolding switch
switch-Safe n k opcode [] other h o = o
switch-Safe n k opcode ((label, body) ∷ cases) other (h, hs) o =
    Safe-if n k (opcode == label) body _ (λ e. h (ground arith))
      λ _. switch-Safe n k opcode cases other hs o

-- The bytes that a pointer argument points to
input-Safe :
    (n k : ℕ) (args : Args) (i len : ℕ)
    → IsBytes (args.text i)
    → len ≤ length (args.text i)
    → Safe n k (λ bs. (length bs ≡ len) × IsBytes bs) (input args i len)
unfolding input
input-Safe n k args i len bytes h =
    Safe-access n k _ λ s v. load_bytes-Yields (args.text i) 0 len bytes (omega arith)

infixr 2 ◌also◌
abbrev ◌also◌ : {P Q : Type 0} → P → Q → P × Q
h also g = (h, g)

module _ (n k : ℕ) (large : 128 ≤ n) (dev : Device) (serves : Serves dev) (fuel : ℕ) (args : Args)
    (opcode : ℕ) (c : IsCall fuel k args opcode) where
  on_path-Safe :
      (i j : ℕ) (f : Bytes → P9 Rc)
      → args.word j ≤ length (args.text i)
      → ((path : Bytes) → length path ≡ args.word j → IsBytes path → Safe n k Any (f path))
      → Safe n k Any (on_path dev fuel args i j f)
  unfolding on_path
  on_path-Safe i j f h g =
      Safe-bind n k _ _ (input-Safe n k args i (args.word j) (c.bytes i) h)
        λ path (len, bytes). g path len bytes

  on_paths-Safe :
      (f : Bytes → Bytes → P9 Rc)
      → is_on_paths opcode ≡ true
      → ((a b : Bytes) → Safe n k Any (f a b))
      → Safe n k Any (on_paths dev fuel args f)
  unfolding on_paths
  on_paths-Safe f e g =
      Safe-bind n k _ _ (input-Safe n k args 0 (args.word 1) (c.bytes 0) (c.paths e).0) λ a _.
        Safe-bind n k _ _ (input-Safe n k args 2 (args.word 3) (c.bytes 2) (c.paths e).1)
          λ b _. g a b

  at_path :
      (f : Bytes → P9 Rc)
      → is_on_path opcode ≡ true
      → ((path : Bytes) → Safe n k Any (f path))
      → Safe n k Any (on_path dev fuel args 0 1 f)
  at_path f e g = on_path-Safe 0 1 f (c.path e) λ path _ _. g path

  ftruncate_case-Safe : opcode ≡ sys_ftruncate → Safe n k Any (ftruncate_case dev fuel args)
  unfolding ftruncate_case
  ftruncate_case-Safe e =
      Safe-bind n k _ _ (input-Safe n k args 1 (min (args.word 2) 8) (c.bytes 1) (c.truncates e))
        λ bytes _. do_ftruncate-Safe n k large dev serves _ _

  file_cases-Safe : AreSafe n k opcode (file_cases dev fuel args)
  unfolding file_cases
  file_cases-Safe =
      (λ e. on_path-Safe 0 2 _ (c.opens e) λ path _ _. do_open-Safe n k large dev serves path _)
      also (λ e. do_close-Safe n k large dev serves _)
      also (λ e.
          do_read-Safe n k large dev serves fuel _ _ (c.reads e).0 (c.reads e).1 (c.reads e).2)
      also (λ e. on_path-Safe 1 2 _ (c.writes e).0 λ src len bytes.
          do_write-Safe n k large dev serves fuel _ src _ (omega arith) bytes (c.writes e).1
            (c.writes e).2)
      also (λ e. do_seek-Safe n k large dev serves _ _)
      also (λ e. do_flen-Safe n k large dev serves _)
      also (λ e. do_fstat-Safe n k large dev serves _ (c.stats (rw e refl)))
      also ftruncate_case-Safe
      also (λ e. do_fsync-Safe n k large dev serves _)
      also tt

  path_cases-Safe : AreSafe n k opcode (path_cases dev fuel args)
  unfolding path_cases
  path_cases-Safe =
      (λ e. at_path _ (rw e refl) (do_remove-Safe n k large dev serves))
      also (λ e. on_paths-Safe _ (rw e refl) (do_rename-Safe n k large dev serves))
      also (λ e. do_tmpnam-Safe n k _ _ (c.names e))
      also (λ e.
          at_path _ (rw e refl)
            λ path. do_stat-Safe n k large dev serves path (c.stats (rw e refl)))
      also (λ e. at_path _ (rw e refl) λ path. do_mkdir-Safe n k large dev serves path _)
      also (λ e. at_path _ (rw e refl) (do_remove-Safe n k large dev serves))
      also (λ e. on_paths-Safe _ (rw e refl) (do_link-Safe n k large dev serves))
      also (λ e. on_paths-Safe _ (rw e refl) (do_symlink-Safe n k large dev serves))
      also (λ e.
          at_path _ (rw e refl) λ path. do_readlink-Safe n k large dev serves path _ (c.links e))
      also (λ e.
          at_path _ (rw e refl)
            λ path. do_stat-Safe n k large dev serves path (c.stats (rw e refl)))
      also tt

  other_cases-Safe : AreSafe n k opcode (other_cases dev fuel args)
  unfolding other_cases
  other_cases-Safe =
      (λ e. at_path _ (rw e refl) (do_opendir-Safe n k large dev serves))
      also (λ e. do_readdir-Safe n k large dev serves _ _ (c.lists e))
      also (λ e. do_closedir-Safe n k large dev serves _)
      also (λ e. succeed-Safe n k _)
      also (λ e. succeed-Safe n k _)
      also (λ e.
          Safe-bind n k {P = Any} _ _ (Safe-gets n k _ λ _ _. tt) λ errno _. succeed-Safe n k errno)
      also tt

  dispatch-Safe : Safe n k Any (dispatch dev fuel args opcode)
  unfolding dispatch
  dispatch-Safe = switch-Safe n k opcode _ _ file_cases-Safe (
      switch-Safe n k opcode _ _ path_cases-Safe
        (switch-Safe n k opcode _ _ other_cases-Safe (fail_errno-Safe n k Any enosys)))

-- A context that is in order, where there is one
abbrev pub IsContext : ℕ → ℕ → Option Session → Type 0
IsContext n k none = Unit
IsContext n k (some s) = InOrder n k s

pub p9_transport_call-Yields :
    (n k : ℕ) (dev : Device) (fuel : ℕ) (ctx : Option Session) (opcode : ℕ) (args : Args)
    → 128 ≤ n
    → Serves dev
    → IsContext n k ctx
    → IsCall fuel k args opcode
    → Yields (λ r. IsContext n k r.1) (p9_transport_call dev fuel ctx opcode args)
unfolding p9_transport_call
p9_transport_call-Yields n k dev fuel none opcode args large serves v c = tt
p9_transport_call-Yields n k dev fuel (some s) opcode args large serves v c =
    ends (dispatch dev fuel args opcode s)
      ((dispatch-Safe n k large dev serves fuel args opcode c).at s v)
  where
    ends :
        (o : Option (Flow Rc × Session))
        → Yields (Kept n k Any) o
        → Yields (λ r. IsContext n k r.1) (finish o)
    ends none h = h
    ends (some r) (h, _) = h
