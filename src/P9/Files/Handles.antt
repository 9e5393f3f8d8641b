-- ===== src/P9/Files/Handles.antt =====
-- Which descriptors do_open and do_close of src/c/zbc_transport_9p.c give out and take back.
use semihost.Base.{
  ℕ, zero, suc, ◌+◌, ◌-◌, leb, ◌<◌, Bool, true, false, not, ◌==◌, ltb, if◌then◌else◌, Option, none,
  some, List, [], ◌∷◌, map, get_or, set, length, length-set, bit_and, ◌≡◌, refl, sym, ap, ◌∙◌,
  subst, inl, inr, arith, Bool-cases,
}
use semihost.Memory.{Bytes}
use semihost.P9.Files.{
  no_handle, free_slot, with_file, at_offset, used, found, succeed, fd_slot, open_slot,
  check_or_clunk, open_existing, create_file, start_offset, do_open, do_close,
}
use semihost.P9.Rpc.{Device, Reply}
use semihost.P9.Rpc.Leaves.{request-Leaves, p9_clunk-Leaves, check-Leaves}
use semihost.P9.Session.{
  Session, Handle, Flow, P9, next, returned, ◌>>=◌, pure, return, gets, modify, p9_fill_response,
  fail_errno,
}
use semihost.P9.Session.Ends.{IfEnds}
use semihost.P9.Session.Leaves.{
  Leaves, Leaves-if, Leaves-when, Leaves-return, fail_errno-Leaves, IfEnds-bind, leaving,
}
use semihost.P9.Walk.Leaves.{p9_walk-Leaves, p9_getattr_size-Leaves}
use semihost.P9.Wire.{einval, emfile, ebadf, fid_file, sh_open_flags, o_creat}
use semihost.Riff.{Rc, ok, is_ok}

-- Which files are open
abbrev pub open_files : List Handle → List Bool
open_files files = map (λ h. h.in_use) files

pub free_slot-is_free :
    (hs : List Handle) (from slot : ℕ)
    → free_slot hs from ≡ some slot
    → (i : ℕ) × (slot ≡ from + i)
      × (i < length hs)
      × ((get_or hs i no_handle).in_use ≡ false)
      × ((j : ℕ) → j < i → (get_or hs j no_handle).in_use ≡ true)
unfolding free_slot
free_slot-is_free [] from slot e = cc
free_slot-is_free (h ∷ hs) from slot e = elim (Bool-cases h.in_use) [
  | inl busy ↦
      let (i, at, inside, free, before) = free_slot-is_free hs (from + 1) slot (rw busy at e) in
      (suc i, omega arith, omega arith, free, below i busy before)
  | inr free ↦
      let here : some from ≡ some slot = rw free at e in
      (0, ground arith, omega arith, free, λ j l. absurd (omega arith))
]
  where
    below :
        (i : ℕ)
        → h.in_use ≡ true
        → ((j : ℕ) → j < i → (get_or hs j no_handle).in_use ≡ true)
        → (j : ℕ) → j < suc i
        → (get_or (h ∷ hs) j no_handle).in_use ≡ true
    below i busy before zero l = busy
    below i busy before (suc j) l = before j (omega arith)

-- The lowest slot that is not in use
abbrev pub IsLowestFree : List Handle → ℕ → Type 0
IsLowestFree hs slot =
    (slot < length hs)
    × ((get_or hs slot no_handle).in_use ≡ false)
    × ((j : ℕ) → j < slot → (get_or hs j no_handle).in_use ≡ true)

free_slot-IsLowestFree :
    (hs : List Handle) (slot : ℕ) → free_slot hs 0 ≡ some slot → IsLowestFree hs slot
free_slot-IsLowestFree hs slot e =
    let (i, at, inside, free, before) = free_slot-is_free hs 0 slot e in
    subst (IsLowestFree hs) (omega arith) (inside, free, before)

set-set : (hs : List Handle) (i : ℕ) (a b : Handle) → set (set hs i a) i b ≡ set hs i b
set-set [] i a b = refl
set-set (h ∷ hs) zero a b = refl
set-set (h ∷ hs) (suc i) a b = ap (◌∷◌ h) (set-set hs i a b)

get_or-set :
    (hs : List Handle) (i : ℕ) (v : Handle) → i < length hs → get_or (set hs i v) i no_handle ≡ v
get_or-set [] i v h = absurd (omega arith)
get_or-set (x ∷ hs) zero v h = refl
get_or-set (x ∷ hs) (suc i) v h = get_or-set hs i v (omega arith)

-- A position does not say which files are open.
pub open_files-at_offset :
    (hs : List Handle) (i o : ℕ)
    → open_files (set hs i (at_offset o (get_or hs i no_handle))) ≡ open_files hs
open_files-at_offset [] i o = refl
open_files-at_offset (h ∷ hs) zero o = refl
open_files-at_offset (h ∷ hs) (suc i) o = ap (◌∷◌ h.in_use) (open_files-at_offset hs i o)

-- How a computation ends that started from the table `files`: it hands on a value with `P`, or it
-- has returned early and the same files are open.
abbrev pub EndsWith :
    {A : Type 0} → List Handle → (A → Session → Type 0) → Flow A → Session → Type 0
EndsWith files P (next a) t = P a t
EndsWith files P (returned rc) t = open_files t.files ≡ open_files files

module _ (files : List Handle) where
  pub then_ends :
      {A B : Type 0} (P : A → Session → Type 0) (Q : B → Session → Type 0) (m : P9 A) (f : A → P9 B)
      (t : Session)
      → IfEnds (EndsWith files P) (m t)
      → ((a : A) (u : Session) → P a u → IfEnds (EndsWith files Q) (f a u))
      → IfEnds (EndsWith files Q) ((m >>= f) t)
  then_ends P Q m f t h g = IfEnds-bind (EndsWith files P) (EndsWith files Q) m f t h g λ rc u e. e

  pub Leaves-ends :
      {A : Type 0} (m : P9 A) (now : List Handle) (t : Session)
      → Leaves m
      → open_files now ≡ open_files files
      → t.files ≡ now
      → IfEnds (EndsWith files (λ _ u. u.files ≡ now)) (m t)
  Leaves-ends {A} m now t h same e = lift (m t) (h.at t)
    where
      lift :
          (o : Option (Flow A × Session))
          → IfEnds (λ _ u. u.files ≡ t.files) o
          → IfEnds (EndsWith files (λ _ u. u.files ≡ now)) o
      lift none q = tt
      lift (some (next a, u)) q = q ∙ e
      lift (some (returned rc, u)) q = ap open_files (q ∙ e) ∙ same

  free_slot_ends :
      (t : Session)
      → t.files ≡ files
      → IfEnds
          (EndsWith files (λ free u. (free ≡ free_slot files 0) × (u.files ≡ files)))
          (gets (λ u. free_slot u.files 0) t)
  unfolding gets
  free_slot_ends t e = (ap (λ (hs : List Handle). free_slot hs 0) e, e)

  found_ends :
      {A : Type 0} (err : ℕ) (o : Option A) (t : Session)
      → t.files ≡ files
      → IfEnds (EndsWith files (λ a u. (o ≡ some a) × (u.files ≡ files))) (found err o t)
  unfolding found pure fail_errno ◌>>=◌ modify p9_fill_response return
  found_ends err (some a) t e = (refl, e)
  found_ends err none t e = ap open_files e

-- The descriptor is 3 and the slot of one of the eight handles, and that handle is in use.
abbrev pub IsOpen : ℕ → ℕ → Session → Type 0
IsOpen fd slot s = (fd ≡ slot + 3) × (slot < 8) × ((get_or s.files slot no_handle).in_use ≡ true)

pub fd_slot-IsOpen : (fd slot : ℕ) (s : Session) → fd_slot fd s ≡ some slot → IsOpen fd slot s
unfolding fd_slot
fd_slot-IsOpen fd slot s e = elim (Bool-cases (leb 3 fd)) [
  | inr low ↦ let bad : none ≡ some slot = (rw low at e) in cc
  | inl high ↦ elim (Bool-cases (ltb (fd - 3) 8)) [
    | inr far ↦ let bad : none ≡ some slot = (rw (high, far) at e) in cc
    | inl near ↦ elim (Bool-cases (get_or s.files (fd - 3) no_handle).in_use) [
      | inr closed ↦ let bad : none ≡ some slot = (rw (high, near, closed) at e) in cc
      | inl busy ↦
          let same : some (fd - 3) ≡ some slot = (rw (high, near, busy) at e) in
          let at : fd - 3 ≡ slot = ground arith in
          (
            ground arith,
            ground arith,
            subst (λ i. (get_or s.files i no_handle).in_use ≡ true) at busy,
          )
    ]
  ]
]

module _ (dev : Device) where
  check_or_clunk-Leaves : (fid : ℕ) (r : Reply) → Leaves (check_or_clunk dev fid r)
  unfolding check_or_clunk
  check_or_clunk-Leaves fid r = search (leaving, p9_clunk-Leaves, check-Leaves)

  open_existing-Leaves : (fid flags : ℕ) → Leaves (open_existing dev fid flags)
  unfolding open_existing
  open_existing-Leaves fid flags = search (leaving, request-Leaves, check_or_clunk-Leaves)

  create_file-Leaves : (fid flags : ℕ) (path : Bytes) → Leaves (create_file dev fid flags path)
  unfolding create_file
  create_file-Leaves fid flags path =
      search (leaving, p9_walk-Leaves, check-Leaves, request-Leaves, check_or_clunk-Leaves) depth 10

  start_offset-Leaves : (fid flags : ℕ) → Leaves (start_offset dev fid flags)
  unfolding start_offset
  start_offset-Leaves fid flags =
      search (leaving, p9_getattr_size-Leaves, check_or_clunk-Leaves) depth 10

  -- What do_open leaves: the lowest descriptor that was free, now open, and no other handle changed.
  abbrev pub IsOpened : Session → Rc → Session → Type 0
  IsOpened s rc t =
      (rc ≡ ok)
      × (slot : ℕ) × (offset : ℕ) × IsLowestFree s.files slot
      × ((t.response).result ≡ slot + 3)
      × ((t.response).error_code ≡ 0)
      × (t.files ≡ set s.files slot (record { offset = offset; in_use = true }))

  -- A write to the table, and what follows it
  abbrev At : List Handle → Unit {0} → Session → Type 0
  At now _ u = u.files ≡ now

  with_file_ends :
      (files : List Handle) (slot : ℕ) (f : Handle → Handle) (t : Session) (now : List Handle)
      → t.files ≡ now
      → IfEnds
          (EndsWith files (At (set now slot (f (get_or now slot no_handle)))))
          (modify (with_file slot f) t)
  unfolding modify
  with_file_ends files slot f t now e =
      ap (λ (hs : List Handle). set hs slot (f (get_or hs slot no_handle))) e

  succeed_ends :
      (s u : Session) (slot offset : ℕ)
      → IsLowestFree s.files slot
      → u.files ≡ set s.files slot (record { offset = offset; in_use = true })
      → IfEnds (EndsWith s.files (IsOpened s)) (succeed (slot + 3) u)
  unfolding succeed ◌>>=◌ p9_fill_response modify pure
  succeed_ends s u slot offset free e = (refl, slot, offset, free, refl, refl, e)

  three_writes :
      (hs : List Handle) (slot o : ℕ)
      → slot < length hs
      → (let placed = set hs slot (at_offset 0 (get_or hs slot no_handle)) in
          let moved = set placed slot (at_offset o (get_or placed slot no_handle)) in
          set moved slot (used true (get_or moved slot no_handle)))
        ≡ set hs slot (record { offset = o; in_use = true })
  three_writes hs slot o h =
      let h0 = at_offset 0 (get_or hs slot no_handle) in
      let placed = set hs slot h0 in
      let h1 = at_offset o (get_or placed slot no_handle) in
      let inside : slot < length placed = omega (arith, length-set hs slot h0) in
      rw
        (
          get_or-set placed slot h1 inside,
          set-set placed slot h1 (used true h1),
          set-set hs slot h0 (used true h1),
        )
        refl

  -- The end of do_open: the position is set, and the handle is in use.
  finish_open :
      (s t : Session) (slot flags : ℕ)
      → IsLowestFree s.files slot
      → t.files ≡ s.files
      → IfEnds (EndsWith s.files (IsOpened s)) (
          (modify (with_file slot (at_offset 0)) >>= λ _.
          start_offset dev (fid_file slot) flags >>= λ offset.
          modify (with_file slot (at_offset offset)) >>= λ _.
          modify (with_file slot (used true)) >>= λ _. succeed (slot + 3))
            t)
  finish_open s t slot flags free e =
      let placed = set s.files slot (at_offset 0 (get_or s.files slot no_handle)) in
      let same = open_files-at_offset s.files slot 0 in
      then_ends s.files (At placed) (IsOpened s) _ _ t
        (with_file_ends s.files slot (at_offset 0) t s.files e)
        λ _ u e1.
          then_ends s.files (λ _ v. v.files ≡ placed) (IsOpened s) _ _ u
            (Leaves-ends s.files _ placed u (start_offset-Leaves (fid_file slot) flags) same e1)
            λ offset v e2.
              let moved = set placed slot (at_offset offset (get_or placed slot no_handle)) in
              then_ends s.files (At moved) (IsOpened s) _ _ v
                (with_file_ends s.files slot (at_offset offset) v placed e2)
                λ _ w e3.
                  then_ends s.files (At (set moved slot (used true (get_or moved slot no_handle))))
                    (IsOpened s) _ _ w (with_file_ends s.files slot (used true) w moved e3)
                    λ _ x e4.
                      succeed_ends s x slot offset free
                        (e4 ∙ three_writes s.files slot offset free.0)

  -- However do_open ends, it either opens exactly one file or leaves all as they were. If it comes to
  -- its end, it returns ZBC_OK with the lowest descriptor that was free, the handle of that
  -- descriptor is now in use, and every other handle is unchanged. If it returns early, with a code
  -- of the transport or an errno, then the same files are open as before.
  pub do_open-IsOpened :
      (path : Bytes) (mode : ℕ) (s : Session)
      → IfEnds (EndsWith s.files (IsOpened s)) (do_open dev path mode s)
  unfolding do_open
  do_open-IsOpened path mode s =
      then_ends s.files (λ _ t. t.files ≡ s.files) (IsOpened s) _ _ s
        (Leaves-ends s.files _ s.files s
          (Leaves-when (ltb 11 mode) (fail_errno einval) (fail_errno-Leaves einval)) refl refl)
        λ _ t e.
          then_ends s.files (λ free u. (free ≡ free_slot s.files 0) × (u.files ≡ s.files))
            (IsOpened s) _ _ t (free_slot_ends s.files t e)
            λ free u (got, e1).
              then_ends s.files (λ slot v. (free ≡ some slot) × (v.files ≡ s.files)) (IsOpened s) _
                _ u (found_ends s.files emfile free u e1)
                λ slot v (is, e2).
                  then_ends s.files (λ _ w. w.files ≡ s.files) (IsOpened s) _ _ v
                    (Leaves-ends s.files _ s.files v (p9_walk-Leaves dev _ _ path false) refl e2)
                    λ walk w e3.
                      then_ends s.files (λ _ x. x.files ≡ s.files) (IsOpened s) _ _ w
                        (Leaves-ends s.files _ s.files w
                          (Leaves-when (not (is_ok (walk.0).rc)) (return (walk.0).rc)
                            (Leaves-return (walk.0).rc))
                          refl e3)
                        λ _ x e4.
                          then_ends s.files (λ _ y. y.files ≡ s.files) (IsOpened s) _ _ x
                            (Leaves-ends s.files _ s.files x (opened_or_created slot walk) refl e4)
                            λ _ y e5.
                              finish_open s y slot (get_or sh_open_flags mode 0)
                                (free_slot-IsLowestFree s.files slot (sym got ∙ is)) e5
    where
      opened_or_created :
          (slot : ℕ) (walk : Reply × Bytes)
          → Leaves (
              if (walk.0).p9err == 0
              then open_existing dev (fid_file slot) (get_or sh_open_flags mode 0)
              else if not (bit_and (get_or sh_open_flags mode 0) o_creat == 0)
              then create_file dev (fid_file slot) (get_or sh_open_flags mode 0) path
              else fail_errno (walk.0).p9err)
      opened_or_created slot walk = Leaves-if ((walk.0).p9err == 0) _ _ (open_existing-Leaves _ _) (
          Leaves-if (not (bit_and (get_or sh_open_flags mode 0) o_creat == 0)) _ _
            (create_file-Leaves _ _ path) (fail_errno-Leaves _))

  -- What do_close leaves: an open descriptor is closed, and no other handle changed.
  abbrev pub IsClosed : ℕ → Session → Rc → Session → Type 0
  IsClosed fd s rc t =
      (rc ≡ ok)
      × (slot : ℕ) × IsOpen fd slot s
      × ((t.response).result ≡ 0)
      × (t.files ≡ set s.files slot (used false (get_or s.files slot no_handle)))

  pub open_slot_ends :
      (fd : ℕ) (s : Session)
      → IfEnds
          (EndsWith s.files (λ slot u. (fd_slot fd s ≡ some slot) × (u.files ≡ s.files)))
          (open_slot fd s)
  unfolding open_slot
  open_slot_ends fd s =
      then_ends s.files (λ o u. (o ≡ fd_slot fd s) × (u.files ≡ s.files)) _ (gets (fd_slot fd)) _ s
        (unfold gets in both) λ o u (is, e). rw (← is) (found_ends s.files ebadf o u e)
    where
      both : (fd_slot fd s ≡ fd_slot fd s) × (s.files ≡ s.files)
      both = (refl, refl)

  close_ends :
      (fd : ℕ) (s v : Session) (slot : ℕ)
      → IsOpen fd slot s
      → v.files ≡ set s.files slot (used false (get_or s.files slot no_handle))
      → IfEnds (EndsWith s.files (IsClosed fd s)) (succeed 0 v)
  unfolding succeed ◌>>=◌ p9_fill_response modify pure
  close_ends fd s v slot is e = (refl, slot, is, refl, e)

  -- However do_close ends: if it comes to its end, the descriptor is 3 and the slot of a handle that
  -- was in use, the result is 0, that handle is no longer in use and every other handle is unchanged, whatever the server answered. If
  -- it returns early, the same files are open as before.
  pub do_close-IsClosed :
      (fd : ℕ) (s : Session) → IfEnds (EndsWith s.files (IsClosed fd s)) (do_close dev fd s)
  unfolding do_close
  do_close-IsClosed fd s =
      then_ends s.files _ (IsClosed fd s) _ _ s (open_slot_ends fd s) λ slot t (is, e).
        then_ends s.files (λ _ u. u.files ≡ s.files) (IsClosed fd s) _ _ t
          (Leaves-ends s.files _ s.files t (p9_clunk-Leaves dev _) refl e)
          λ _ u e1.
            let closed = set s.files slot (used false (get_or s.files slot no_handle)) in
            then_ends s.files (At closed) (IsClosed fd s) _ _ u
              (with_file_ends s.files slot (used false) u s.files e1)
              λ _ v e2. close_ends fd s v slot (fd_slot-IsOpen fd slot s is) e2
