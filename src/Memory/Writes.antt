-- ===== src/Memory/Writes.antt =====
-- What a write of bytes leaves in a buffer, at its own place and at others.
use mathlib.Core.Option
use semihost.Base.{
  ℕ, zero, suc, ◌+◌, ◌<◌, ◌≤◌, ◌≢◌, Option, none, some, [], ◌∷◌, length, ◌≡◌, refl, ap, ◌∙◌, arith,
  ◌⊎◌, inl,
}
use semihost.Memory.{Bytes, load, store, write_bytes, >>=-eq-some}

-- The bytes stand in the buffer from the offset on.
pub record Holds (buf : Bytes) (off : ℕ) (bs : Bytes) : Type 0 where
  pub at : (k : ℕ) → k < length bs → load buf (off + k) ≡ load bs k

map-eq-some :
    (x : ℕ) (m : Option Bytes) (after : Bytes)
    → Option.map (◌∷◌ x) m ≡ some after
    → (rest : Bytes) × (m ≡ some rest) × (after ≡ x ∷ rest)
map-eq-some x none after e = cc
map-eq-some x (some rest) after e = (rest, refl, cc)

load-store : (buf after : Bytes) (i v : ℕ) → store buf i v ≡ some after → load after i ≡ some v
unfolding store load
load-store [] after i v e = cc
load-store (x ∷ xs) after zero v e = let same : after ≡ v ∷ xs = cc in rw same refl
load-store (x ∷ xs) after (suc i) v e =
    let (rest, stored, same) = map-eq-some x (store xs i v) after e in
    rw same (load-store xs rest i v stored)

load-store_other :
    (buf after : Bytes) (i j v : ℕ) → store buf i v ≡ some after → j ≢ i → load after j ≡ load buf j
unfolding store load
load-store_other [] after i j v e h = cc
load-store_other (x ∷ xs) after zero zero v e h = absurd (h refl)
load-store_other (x ∷ xs) after zero (suc j) v e h = let same : after ≡ v ∷ xs = cc in rw same refl
load-store_other (x ∷ xs) after (suc i) zero v e h =
    let (rest, stored, same) = map-eq-some x (store xs i v) after e in rw same refl
load-store_other (x ∷ xs) after (suc i) (suc j) v e h =
    let (rest, stored, same) = map-eq-some x (store xs i v) after e in
    rw same (load-store_other xs rest i j v stored (λ q. h (ap suc q)))

load-write_bytes_other :
    (buf after : Bytes) (off : ℕ) (bs : Bytes) (j : ℕ)
    → write_bytes buf off bs ≡ some after
    → (j < off) ⊎ (off + length bs ≤ j)
    → load after j ≡ load buf j
unfolding write_bytes
load-write_bytes_other buf after off [] j e h = let same : after ≡ buf = cc in rw same refl
load-write_bytes_other buf after off (b ∷ bs) j e h =
    let (mid, stored, wrote) = >>=-eq-some (store buf off b) _ e in
    load-write_bytes_other mid after (off + 1) bs j wrote (ground arith)
    ∙ load-store_other buf mid off j b stored (ground arith)

load-write_bytes :
    (buf after : Bytes) (off : ℕ) (bs : Bytes) (k : ℕ)
    → write_bytes buf off bs ≡ some after
    → k < length bs
    → load after (off + k) ≡ load bs k
unfolding write_bytes
load-write_bytes buf after off [] k e h = absurd (omega arith)
load-write_bytes buf after off (b ∷ bs) zero e h =
    let (mid, stored, wrote) = >>=-eq-some (store buf off b) _ e in
    ap (load after) (omega arith)
    ∙ load-write_bytes_other mid after (off + 1) bs off wrote (inl (omega arith))
    ∙ load-store buf mid off b stored
    ∙ unfold load in refl
load-write_bytes buf after off (b ∷ bs) (suc k) e h =
    let (mid, stored, wrote) = >>=-eq-some (store buf off b) _ e in
    ap (load after) (omega arith)
    ∙ load-write_bytes mid after (off + 1) bs k wrote (omega arith)
    ∙ unfold load in refl

pub write_bytes-Holds :
    (buf after : Bytes) (off : ℕ) (bs : Bytes)
    → write_bytes buf off bs ≡ some after
    → Holds after off bs
write_bytes-Holds buf after off bs e = record {
  at = λ k h. load-write_bytes buf after off bs k e h;
}

-- A write elsewhere leaves what the buffer holds.
pub write_bytes-keeps :
    (buf after : Bytes) (off : ℕ) (bs : Bytes) (o : ℕ) (cs : Bytes)
    → write_bytes buf off bs ≡ some after
    → (o + length cs ≤ off) ⊎ (off + length bs ≤ o)
    → Holds buf o cs
    → Holds after o cs
write_bytes-keeps buf after off bs o cs e apart held = record {
  at = λ k h. load-write_bytes_other buf after off bs (o + k) e (ground arith) ∙ held.at k h;
}
