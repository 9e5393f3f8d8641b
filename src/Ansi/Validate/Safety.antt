-- ===== src/Ansi/Validate/Safety.antt =====
-- Which paths ansi_validate_path of src/c/zbc_ansi_secure.c lets through.
use semihost.Base.{
  ℕ, zero, suc, ◌+◌, ◌≤◌, ◌<◌, Bool, true, false, not, ◌==◌, leb, leb→le, ◌&&◌, some, List, [], ◌∷◌,
  ◌++◌, length, take, drop, take-append-drop, length-take, length-drop, length-append, ◌≡◌, refl,
  sym, ap, ◌∙◌, arith, All, Bool-cases, inl, inr, ◌⊎◌,
}
use semihost.Ansi.Normalize.{slash, ansi_path_normalize}
use semihost.Ansi.Normalize.Clean.{has_parent, has_parent-normalized}
use semihost.Ansi.Normalize.Reference.{normalized, is_parent}
use semihost.Ansi.Normalize.Kept.{All-normalized}
use semihost.Ansi.Normalize.Refines.{ansi_path_normalize-normalized}
use semihost.Ansi.State.{
  AnsiState, PathRule, path_buf_max, report, Violation, write_blocked, path_blocked,
}
use semihost.Ansi.Validate.{Validated, memcmp, has_prefix, check_rules, allow, deny}
use semihost.Memory.{
  Bytes, ◌>>=◌, store, store_over, write_bytes, write_bytes_over, Yields, Yields-bind,
}

abbrev pub IsPrefix : Bytes → Bytes → Type 0
IsPrefix prefix path = (rest : Bytes) × (path ≡ prefix ++ rest)

-- A rule's prefix starts the path, and the rule allows writes if they are asked for.
abbrev pub IsRuled : List PathRule → Bool → Bytes → Type 0
IsRuled [] for_write path = ⊥
IsRuled (rule ∷ rules) for_write path =
    (IsPrefix rule.prefix path × (for_write ≡ true → rule.allow_write ≡ true))
    ⊎ IsRuled rules for_write path

abbrev pub IsWithin : AnsiState → Bool → Bytes → Type 0
IsWithin s for_write path = IsPrefix s.sandbox_dir path ⊎ IsRuled s.path_rules for_write path

-- The path is in the buffer, with a NUL behind it, has no component "..", and lies in the sandbox
-- or under a rule.
abbrev pub IsResolved : AnsiState → Bool → Bytes → ℕ → Type 0
IsResolved s for_write path_buf resolved_len =
    (path : Bytes) × (rest : Bytes) × (path_buf ≡ path ++ 0 ∷ rest)
    × (length path ≡ resolved_len)
    × (has_parent [] path ≡ false)
    × IsWithin s for_write path

-- No component is "..", and the bytes have the property.
abbrev pub IsClean : (ℕ → Type 0) → Bytes → Type 0
IsClean P path = (has_parent [] path ≡ false) × All P path

-- As `IsResolved`, with a property of the path's bytes
abbrev pub IsResolvedWith : (ℕ → Type 0) → AnsiState → Bool → Bytes → ℕ → Type 0
IsResolvedWith P s for_write path_buf resolved_len =
    (path : Bytes) × (rest : Bytes) × (path_buf ≡ path ++ 0 ∷ rest)
    × (length path ≡ resolved_len)
    × IsClean P path
    × IsWithin s for_write path

pub IsResolvedWith-IsResolved :
    (P : ℕ → Type 0) (s : AnsiState) (for_write : Bool) (path_buf : Bytes) (len : ℕ)
    → IsResolvedWith P s for_write path_buf len
    → IsResolved s for_write path_buf len
IsResolvedWith-IsResolved P s for_write path_buf len (path, rest, e, l, (clean, all), within) =
    (path, rest, e, l, clean, within)

abbrev pub IsValidated : (ℕ → Type 0) → AnsiState → Bool → Validated → Type 0
IsValidated P s for_write r =
    (length r.state.path_buf ≡ path_buf_max)
    × (r.state ≡ record s { path_buf = r.state.path_buf; violations = r.state.violations })
    × (r.allowed ≡ true → IsResolvedWith P s for_write r.state.path_buf r.resolved_len)

both : (a b : Bool) → (a && b) ≡ true → (a ≡ true) × (b ≡ true)
both true true h = (refl, refl)
both true false h = cc
both false b h = cc

-- What the test for a blocked write tells when it fails
permits : (w a : Bool) → (w && not a) ≡ false → w ≡ true → a ≡ true
permits true true h e = refl
permits true false h e = cc
permits false a h e = cc

pub memcmp-Yields :
    (a b : Bytes) (n : ℕ) → n ≤ length a → n ≤ length b → Yields (λ _. Unit) (memcmp a b n)
unfolding memcmp
memcmp-Yields a b zero h k = tt
memcmp-Yields (x ∷ a) (y ∷ b) (suc n) h k =
    Yields-bind _ (λ _. Unit) (memcmp a b n) _ (memcmp-Yields a b n (omega arith) (omega arith))
      λ _ _. tt
memcmp-Yields [] b (suc n) h k = absurd (omega arith)
memcmp-Yields (x ∷ a) [] (suc n) h k = absurd (omega arith)

memcmp-IsPrefix :
    (prefix path rest : Bytes)
    → length prefix ≤ length path
    → Yields
        (λ same. same ≡ true → IsPrefix prefix path)
        (memcmp (path ++ rest) prefix (length prefix))
unfolding memcmp
memcmp-IsPrefix [] path rest h = λ _. (path, refl)
memcmp-IsPrefix (y ∷ prefix) [] rest h = absurd (omega arith)
memcmp-IsPrefix (y ∷ prefix) (x ∷ path) rest h =
    Yields-bind _ _ (memcmp (path ++ rest) prefix (length prefix)) _
      (memcmp-IsPrefix prefix path rest (omega arith))
      λ same ih e.
        let (first, others) = both (x == y) same e in
        let (rest, eq) = ih others in
        (rest, ap (λ (c : ℕ). c ∷ path) {y = y} (ground arith) ∙ ap (◌∷◌ y) eq)

pub has_prefix-IsPrefix :
    (prefix path rest : Bytes)
    → Yields
        (λ same. same ≡ true → IsPrefix prefix path)
        (has_prefix (path ++ rest) (length path) prefix)
unfolding has_prefix
has_prefix-IsPrefix prefix path rest = elim (Bool-cases (leb (length prefix) (length path))) [
  | inl e ↦ rw e (memcmp-IsPrefix prefix path rest (leb→le _ _ e))
  | inr e ↦ rw e (λ h. cc)
]

module _ (P : ℕ → Type 0) (s : AnsiState) (for_write : Bool) (path rest : Bytes)
    (clean : IsClean P path) (full : length (path ++ 0 ∷ rest) ≡ path_buf_max) where
  abbrev pub found : AnsiState
  found = record s { path_buf = path ++ 0 ∷ rest }

  pub allow-IsValidated :
      IsWithin s for_write path → IsValidated P s for_write (allow found (length path))
  allow-IsValidated w = (full, refl, λ _. (path, rest, refl, refl, clean, w))

  pub deny-IsValidated : (v : Violation) → IsValidated P s for_write (deny (report found v))
  unfolding report
  deny-IsValidated v = elim (Bool-cases s.reports) [
    | inl e ↦ rw e (full, refl, λ h. cc)
    | inr e ↦ rw e (full, refl, λ h. cc)
  ]

  pub check_rules-Yields :
      (rules : List PathRule)
      → (IsRuled rules for_write path → IsRuled s.path_rules for_write path)
      → Yields (IsValidated P s for_write) (check_rules found rules (length path) for_write)
  unfolding check_rules
  check_rules-Yields [] sub = deny-IsValidated path_blocked
  check_rules-Yields (rule ∷ rules) sub =
      Yields-bind _ _ (has_prefix (path ++ 0 ∷ rest) (length path) rule.prefix) _
        (has_prefix-IsPrefix rule.prefix path (0 ∷ rest))
        λ same fits. elim (Bool-cases same) [
          | inl e ↦ elim (Bool-cases (for_write && not rule.allow_write)) [
            | inl blocked ↦ rw (e, blocked) (deny-IsValidated write_blocked)
            | inr open_rule ↦
                rw (e, open_rule)
                  (allow-IsValidated (inr (sub (inl (fits e, permits _ _ open_rule)))))
          ]
          | inr e ↦ rw e (check_rules-Yields rules (λ r. sub (inr r)))
        ]

-- Bytes written behind a prefix of the buffer
pub write_behind :
    (pre rest src : Bytes)
    → length src ≤ length rest
    → (post : Bytes) × (write_bytes (pre ++ rest) (length pre) src ≡ some (pre ++ (src ++ post)))
      × (length src + length post ≡ length rest)
write_behind pre rest src h =
    let n = length src in
    let old : length (take n rest) ≡ n = omega (arith, length-take n rest) in
    let split =
      ap (λ (r : Bytes). write_bytes (pre ++ r) (length pre) src) (sym (take-append-drop n rest)) in
    (
      drop n rest,
      split ∙ write_bytes_over pre (take n rest) (drop n rest) src old,
      omega (arith, length-drop n rest),
    )

-- A terminated path with no component "..", in a buffer of `size` bytes
abbrev pub Holds : (ℕ → Type 0) → ℕ → Bytes × ℕ → Type 0
Holds P size r =
    (path : Bytes) × (rest : Bytes) × (r.0 ≡ path ++ 0 ∷ rest)
    × (length path ≡ r.1)
    × IsClean P path
    × (length (path ++ 0 ∷ rest) ≡ size)

-- A path in a buffer that has room for a NUL, terminated and normalised
pub terminate-normalize :
    (P : ℕ → Type 0) (path post : Bytes)
    → P slash
    → All P path
    → 0 < length post
    → Yields
        (Holds P (length (path ++ post)))
        (store (path ++ post) (length path) 0 >>= λ b. ansi_path_normalize b (length path))
terminate-normalize P path [] p all h = absurd (omega arith)
terminate-normalize P [] (t ∷ post) p all h =
    unfold store ansi_path_normalize has_parent is_parent in
    ([], post, refl, refl, (refl, tt), refl)
terminate-normalize P (c ∷ cs) (t ∷ post) p all h =
    let (junk, e, l) = ansi_path_normalize-normalized c cs post 0 in
    let out = normalized (c ∷ cs) in
    rw (store_over (c ∷ cs) post t 0, e)
      (
        out,
        junk ++ post,
        refl,
        refl,
        (has_parent-normalized (c ∷ cs), All-normalized P p (c ∷ cs) all),
        omega (
          arith,
          length-append out (0 ∷ (junk ++ post)),
          length-append junk post,
          length-append cs (t ∷ post),
        ),
      )
