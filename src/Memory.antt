-- ===== src/Memory.antt =====
-- Byte buffers and the accesses that C makes to them. A pointer into a buffer is its offset from
-- the buffer's start; an access outside the buffer, which C leaves undefined, is `none`.
pub mod Writes
use mathlib.Core.Option
use semihost.Base.{
  ℕ, zero, suc, ◌+◌, ◌<◌, Option, none, some, List, [], ◌∷◌, ◌++◌, ◌≡◌, refl, ap, ◌∙◌, append_assoc,
  sym, take, drop, take-append-drop, length-take, length-drop, ◌≤◌, arith, ltb, ◌&&◌, Bool-cases,
  inl, inr, Bool, true, false, if◌then◌else◌, length, get_elem?, get_elem?_inside, get_elem?-append,
  All, All-get_elem?, length-append,
}

abbrev pub Bytes : Type 0
Bytes = List ℕ

abbrev pub IsByte : ℕ → Type 0
IsByte b = b < 256

-- Every cell holds a `uint8_t`.
abbrev pub IsBytes : Bytes → Type 0
IsBytes = All IsByte

abbrev pub is_bytes : Bytes → Bool
is_bytes [] = true
is_bytes (b ∷ bs) = ltb b 256 && is_bytes bs

pub is_bytes-IsBytes : (bs : Bytes) → is_bytes bs ≡ true → IsBytes bs
is_bytes-IsBytes [] h = tt
is_bytes-IsBytes (b ∷ bs) h = elim (Bool-cases (ltb b 256)) [
  | inl e ↦ (ground arith, is_bytes-IsBytes bs (rw e at h))
  | inr e ↦ absurd (cc (rw e at h))
]

infixl 5 ◌>>=◌
abbrev pub ◌>>=◌ {ℓ κ} : {A : Type ℓ} {B : Type κ} → Option A → (A → Option B) → Option B
none >>= f = none
some a >>= f = f a

pub >>=-eq-some {ℓ κ} :
    {A : Type ℓ} {B : Type κ} (m : Option A) (f : A → Option B) {b : B}
    → (m >>= f) ≡ some b
    → (a : A) × (m ≡ some a) × (f a ≡ some b)
>>=-eq-some none f h = cc
>>=-eq-some (some a) f h = (a, refl, h)

unfoldable pub load : Bytes → ℕ → Option ℕ
load buf i = get_elem? buf i

unfoldable pub store : Bytes → ℕ → ℕ → Option Bytes
store [] i v = none
store (x ∷ xs) zero v = some (v ∷ xs)
store (x ∷ xs) (suc i) v = Option.map (◌∷◌ x) (store xs i v)

-- `for (i = 0; i < n; i++) dst[off + i] = src[i];`
unfoldable pub write_bytes : Bytes → ℕ → Bytes → Option Bytes
write_bytes buf off [] = some buf
write_bytes buf off (v ∷ vs) = do b ← store buf off v; write_bytes b (off + 1) vs

-- `for (i = 0; i < n; i++) dst[i] = src[off + i];`, the bytes that are read
unfoldable pub load_bytes : Bytes → ℕ → ℕ → Option Bytes
load_bytes buf off zero = some []
load_bytes buf off (suc n) = do b ← load buf off; bs ← load_bytes buf (off + 1) n; some (b ∷ bs)

pub load_inside : (buf : Bytes) (i : ℕ) → i < length buf → (v : ℕ) × (load buf i ≡ some v)
unfolding load
load_inside buf i h = get_elem?_inside buf i h

-- A load inside the buffer gives a byte.
pub load_byte :
    (buf : Bytes) (i : ℕ)
    → IsBytes buf
    → i < length buf
    → (v : ℕ) × (load buf i ≡ some v) × (v < 256)
unfolding load
load_byte buf i bytes h =
    let (v, e) = get_elem?_inside buf i h in (v, e, All-get_elem? IsByte buf i bytes e)

-- A load at `i + k` behind a prefix.
pub load-append :
    (pre xs : Bytes) (i k : ℕ) → load (pre ++ xs) (length pre + i + k) ≡ load xs (i + k)
unfolding load
load-append pre xs i k = ap (get_elem? (pre ++ xs)) (omega arith) ∙ get_elem?-append pre xs (i + k)

pub load-append_here : (pre xs : Bytes) (i : ℕ) → load (pre ++ xs) (length pre + i) ≡ load xs i
unfolding load
load-append_here pre xs i = get_elem?-append pre xs i

pub store_over :
    (pre post : Bytes) (o v : ℕ) → store (pre ++ o ∷ post) (length pre) v ≡ some (pre ++ v ∷ post)
unfolding store
store_over [] post o v = refl
store_over (p ∷ pre) post o v = rw (store_over pre post o v)

-- Bytes written over as many old ones.
pub write_bytes_over :
    (pre old post bs : Bytes)
    → length old ≡ length bs
    → write_bytes (pre ++ (old ++ post)) (length pre) bs ≡ some (pre ++ (bs ++ post))
unfolding write_bytes
write_bytes_over pre [] post [] h = refl
write_bytes_over pre (o ∷ old) post (b ∷ bs) h =
    let next : length pre + 1 ≡ length (pre ++ b ∷ []) =
      omega (arith, length-append pre (b ∷ [])) in
    let regroup = λ (r : Bytes). append_assoc pre (b ∷ []) r in
    rw (store_over pre (old ++ post) o b) (
      rw (next, ← regroup (old ++ post), ← regroup (bs ++ post))
        (write_bytes_over (pre ++ b ∷ []) old post bs (omega arith)))
write_bytes_over pre [] post (b ∷ bs) h = absurd (omega arith)
write_bytes_over pre (o ∷ old) post [] h = absurd (omega arith)

-- The computation makes no access outside its buffer, ends, and its result satisfies `P`.
abbrev pub Yields {ℓ} : {A : Type ℓ} → (A → Type 0) → Option A → Type 0
Yields P none = ⊥
Yields P (some a) = P a

pub Yields-bind {ℓ κ} :
    {A : Type ℓ} {B : Type κ} (P : A → Type 0) (Q : B → Type 0) (m : Option A) (f : A → Option B)
    → Yields P m
    → ((a : A) → P a → Yields Q (f a))
    → Yields Q (m >>= f)
Yields-bind P Q none f h k = absurd h
Yields-bind P Q (some a) f h k = k a h

-- As `Yields-bind`, where the result's equation is of use.
pub Yields-bind_eq {ℓ κ} :
    {A : Type ℓ} {B : Type κ} (P : A → Type 0) (Q : B → Type 0) (m : Option A) (f : A → Option B)
    → Yields P m
    → ((a : A) → m ≡ some a → P a → Yields Q (f a))
    → Yields Q (m >>= f)
Yields-bind_eq P Q none f h k = absurd h
Yields-bind_eq P Q (some a) f h k = k a refl h

-- Two computations and what follows them
pub Yields-bind_two {ℓ κ μ} :
    {A : Type ℓ} {B : Type κ} {C : Type μ} (P : B → Type 0) (Q : C → Type 0) (m : Option A)
    (f : A → Option B) (g : B → Option C)
    → Yields P (m >>= f)
    → ((b : B) → P b → Yields Q (g b))
    → Yields Q (m >>= λ a. f a >>= g)
Yields-bind_two P Q none f g h k = absurd h
Yields-bind_two P Q (some a) f g h k = Yields-bind P Q (f a) g h k

pub Yields-if {ℓ} :
    {A : Type ℓ} (P : A → Type 0) (b : Bool) (x y : Option A)
    → (b ≡ true → Yields P x)
    → (b ≡ false → Yields P y)
    → Yields P (if b then x else y)
Yields-if P true x y h k = h refl
Yields-if P false x y h k = k refl

pub Yields-weaken {ℓ} :
    {A : Type ℓ} (P Q : A → Type 0) (m : Option A) → Yields P m → ((a : A) → P a → Q a) → Yields Q m
Yields-weaken P Q none h k = h
Yields-weaken P Q (some a) h k = k a h

-- The result, taken out.
pub Yields-result {ℓ} :
    {A : Type ℓ} (P : A → Type 0) (m : Option A) → Yields P m → (a : A) × (m ≡ some a) × P a
Yields-result P none h = absurd h
Yields-result P (some a) h = (a, refl, h)

pub load_bytes-Yields :
    (buf : Bytes) (off n : ℕ)
    → IsBytes buf
    → off + n ≤ length buf
    → Yields (λ bs. (length bs ≡ n) × IsBytes bs) (load_bytes buf off n)
unfolding load_bytes
load_bytes-Yields buf off zero bytes h = (refl, tt)
load_bytes-Yields buf off (suc n) bytes h =
    let (b, e, l) = load_byte buf off bytes (omega arith) in
    rw e (
      Yields-bind _ _ (load_bytes buf (off + 1) n) _
        (load_bytes-Yields buf (off + 1) n bytes (omega arith))
        λ bs (size, all). (omega arith, (l, all)))

pub load-Yields : (buf : Bytes) (i : ℕ) → IsBytes buf → i < length buf → Yields IsByte (load buf i)
load-Yields buf i bytes h = let (v, e, l) = load_byte buf i bytes h in rw e l

-- `n` bytes at `off`, apart from what stands before and after them.
pub split_at :
    (buf : Bytes) (off n : ℕ)
    → off + n ≤ length buf
    → (pre : Bytes) × (old : Bytes) × (post : Bytes) × (buf ≡ pre ++ (old ++ post))
      × (length pre ≡ off)
      × (length old ≡ n)
split_at buf off n h = (
  take off buf,
  take n (drop off buf),
  drop n (drop off buf),
  sym (ap (◌++◌ (take off buf)) (take-append-drop n (drop off buf)) ∙ take-append-drop off buf),
  omega (arith, length-take off buf),
  omega (arith, length-take n (drop off buf), length-drop off buf),
)
