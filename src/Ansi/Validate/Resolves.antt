-- ===== src/Ansi/Validate/Resolves.antt =====
-- The two branches of ansi_validate_path of src/c/zbc_ansi_secure.c.
use semihost.Base.{
  ℕ, ◌+◌, ◌<◌, Bool, true, ◌==◌, leb, if◌then◌else◌, Option, none, some, [], ◌∷◌, ◌++◌, length,
  length-append, append_assoc, All, All-append, ◌≡◌, refl, sym, arith, Bool-cases, inl, inr,
}
use semihost.Ansi.Normalize.{slash}
use semihost.Ansi.Normalize.Clean.{has_parent-append_slash}
use semihost.Ansi.State.{AnsiState, Policy, path_buf_max, report, path_traversal}
use semihost.Ansi.Validate.{
  memcmp, has_prefix, check_rules, validate_absolute, is_sandbox_itself, restore_slash,
  validate_relative, is_absolute, built_in, ansi_validate_path, ask_policy, allow, deny,
}
use semihost.Ansi.Validate.Safety.{
  IsValidated, memcmp-Yields, has_prefix-IsPrefix, allow-IsValidated, deny-IsValidated,
  check_rules-Yields, write_behind, terminate-normalize, Holds,
}
use semihost.Memory.{
  Bytes, ◌>>=◌, load_inside, store, store_over, Yields, Yields-bind, Yields-bind_two, Yields-weaken,
}

is_sandbox_itself-Yields :
    (path rest dir : Bytes)
    → Yields
        (λ same. same ≡ true → length path + 1 ≡ length dir)
        (is_sandbox_itself (path ++ rest) (length path) dir)
unfolding is_sandbox_itself
is_sandbox_itself-Yields path rest dir = elim (Bool-cases (length path + 1 == length dir)) [
  | inr e ↦ rw e (λ h. cc)
  | inl e ↦
      let size : length path + 1 ≡ length dir = ground arith in
      let (c, got) = load_inside dir (length path) (omega arith) in
      elim (Bool-cases (c == slash)) [
        | inl s ↦
            rw (e, got, s)
              (Yields-weaken _ _ (memcmp (path ++ rest) dir (length path))
                (memcmp-Yields (path ++ rest) dir (length path)
                  (omega (arith, length-append path rest)) (omega arith))
                λ _ _ _. size)
        | inr s ↦ rw (e, got, s) (λ h. size)
      ]
]

restore_slash-Yields :
    (P : ℕ → Type 0) (size : ℕ) (dir : Bytes) (r : Bytes × ℕ)
    → P slash
    → length dir + 1 < size
    → Holds P size r
    → Yields (Holds P size) (restore_slash r.0 r.1 dir)
unfolding restore_slash store
restore_slash-Yields P size dir (b, n) p room (path, rest, e, l, clean, full) =
    rw (e, ← l)
      (Yields-bind _ (Holds P size) (is_sandbox_itself (path ++ 0 ∷ rest) (length path) dir) _
        (is_sandbox_itself-Yields path (0 ∷ rest) dir)
        λ itself size_lem. elim (Bool-cases itself) [
          | inl i ↦ rw i (put rest (size_lem i) full)
          | inr i ↦ rw i (path, rest, refl, refl, clean, full)
        ])
  where
    put :
        (rest : Bytes)
        → length path + 1 ≡ length dir
        → length (path ++ 0 ∷ rest) ≡ size
        → Yields (Holds P size) (
            store (path ++ 0 ∷ rest) (length path) slash >>= λ b.
            store b (length path + 1) 0 >>= λ b. some (b, length path + 1))
    put [] h full = absurd (omega (arith, length-append path (0 ∷ [])))
    put (t ∷ rest) h full =
        let longer : length path + 1 ≡ length (path ++ slash ∷ []) =
          omega (arith, length-append path (slash ∷ [])) in
        let regroup = sym (append_assoc path (slash ∷ []) (t ∷ rest)) in
        rw
          (
            store_over path (t ∷ rest) 0 slash,
            regroup,
            longer,
            store_over (path ++ slash ∷ []) rest t 0,
          )
          (
            path ++ slash ∷ [],
            rest,
            refl,
            refl,
            (
              has_parent-append_slash [] path clean.0,
              All-append P path (slash ∷ []) clean.1 (p, tt),
            ),
            omega (
              arith,
              length-append (path ++ slash ∷ []) (0 ∷ rest),
              length-append path (slash ∷ []),
              length-append path (0 ∷ (t ∷ rest)),
            ),
          )

settle_absolute :
    (P : ℕ → Type 0) (s : AnsiState) (for_write : Bool) (r : Bytes × ℕ)
    → Holds P path_buf_max r
    → Yields (IsValidated P s for_write) (
        has_prefix r.0 r.1 s.sandbox_dir >>= λ inside.
        if inside
        then some (allow (record s { path_buf = r.0 }) r.1)
        else check_rules (record s { path_buf = r.0 }) s.path_rules r.1 for_write)
settle_absolute P s for_write (b, n) (path, rest, e, l, clean, full) =
    rw (e, ← l)
      (Yields-bind _ _ (has_prefix (path ++ 0 ∷ rest) (length path) s.sandbox_dir) _
        (has_prefix-IsPrefix s.sandbox_dir path (0 ∷ rest))
        λ inside fits. elim (Bool-cases inside) [
          | inl i ↦ rw i (allow-IsValidated P s for_write path rest clean full (inl (fits i)))
          | inr i ↦
              rw i (check_rules-Yields P s for_write path rest clean full s.path_rules (λ r. r))
        ])

settle_relative :
    (P : ℕ → Type 0) (s : AnsiState) (for_write : Bool) (r : Bytes × ℕ)
    → Holds P path_buf_max r
    → Yields (IsValidated P s for_write) (
        has_prefix r.0 r.1 s.sandbox_dir >>= λ inside.
        if inside
        then some (allow (record s { path_buf = r.0 }) r.1)
        else some (deny (report (record s { path_buf = r.0 }) path_traversal)))
settle_relative P s for_write (b, n) (path, rest, e, l, clean, full) =
    rw (e, ← l)
      (Yields-bind _ _ (has_prefix (path ++ 0 ∷ rest) (length path) s.sandbox_dir) _
        (has_prefix-IsPrefix s.sandbox_dir path (0 ∷ rest))
        λ inside fits. elim (Bool-cases inside) [
          | inl i ↦ rw i (allow-IsValidated P s for_write path rest clean full (inl (fits i)))
          | inr i ↦ rw i (deny-IsValidated P s for_write path rest clean full path_traversal)
        ])

module _ (P : ℕ → Type 0) (s : AnsiState) (path : Bytes) (for_write : Bool) (separator : P slash)
    (in_dir : All P s.sandbox_dir) (in_path : All P path)
    (full : length s.path_buf ≡ path_buf_max) where
  validate_absolute-Yields : Yields (IsValidated P s for_write) (validate_absolute s path for_write)
  unfolding validate_absolute
  validate_absolute-Yields = elim (Bool-cases (leb path_buf_max (length path))) [
    | inl e ↦ rw e (full, refl, λ h. cc)
    | inr e ↦
        let (post, wrote, l) = write_behind [] s.path_buf path (ground arith) in
        let size : length (path ++ post) ≡ path_buf_max = omega (arith, length-append path post) in
        rw (e, wrote)
          (Yields-bind_two (Holds P path_buf_max) _ (store (path ++ post) (length path) 0) _ _
            (rw size at (terminate-normalize P path post separator in_path (ground arith)))
            (settle_absolute P s for_write))
  ]

  validate_relative-Yields : Yields (IsValidated P s for_write) (validate_relative s path)
  unfolding validate_relative
  validate_relative-Yields =
      let dir = s.sandbox_dir in
      elim (Bool-cases (leb path_buf_max (length dir + length path + 1))) [
        | inl e ↦ rw e (full, refl, λ h. cc)
        | inr e ↦
            let (post, wrote, l) = write_behind [] s.path_buf dir (ground arith) in
            let (over, then_path, k) = write_behind dir post path (ground arith) in
            let regroup = sym (append_assoc dir path over) in
            let at = sym (length-append dir path) in
            let size : length ((dir ++ path) ++ over) ≡ path_buf_max =
              omega (arith, length-append (dir ++ path) over) in
            rw (e, wrote, then_path, regroup, at)
              (Yields-bind_two (Holds P path_buf_max) _
                (store ((dir ++ path) ++ over) (length (dir ++ path)) 0) _ _
                (rw size at (
                  terminate-normalize P (dir ++ path) over separator
                    (All-append P dir path in_dir in_path) (ground arith)))
                λ r held.
                  Yields-bind (Holds P path_buf_max) _ (restore_slash r.0 r.1 dir) _
                    (restore_slash-Yields P path_buf_max dir r separator (ground arith) held)
                    (settle_relative P s for_write))
      ]

  ask_policy-none :
      (policy : Option Policy)
      → policy ≡ none
      → Yields (IsValidated P s for_write) (ask_policy s policy path for_write)
  unfolding ask_policy built_in
  ask_policy-none policy own = rw own (elim (Bool-cases (is_absolute path)) [
    | inl e ↦ rw e validate_absolute-Yields
    | inr e ↦ rw e validate_relative-Yields
  ])

  -- With the built-in policy and a path_buf of 1024 bytes, for every path and kind of access,
  -- ansi_validate_path makes no access outside path_buf and ends. It changes nothing of the state
  -- but path_buf and the list of reported violations. If it returns 0, path_buf holds a path of
  -- *resolved_len bytes with a NUL behind it, in which no component is ".."; the path starts with
  -- sandbox_dir, or with the prefix of a rule, which allows writing if the access is one. The path is
  -- all of these bytes. A property that the separator, the bytes of sandbox_dir and those of the
  -- guest's path have holds of its bytes too: where none of them is a NUL, path_buf has no NUL before
  -- the one behind the path, which is thus the whole string that C reads there.
  pub ansi_validate_path-Yields :
      s.policy ≡ none → Yields (IsValidated P s for_write) (ansi_validate_path s path for_write)
  unfolding ansi_validate_path
  ansi_validate_path-Yields own = ask_policy-none s.policy own
