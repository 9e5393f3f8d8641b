-- ===== src/Native/Laws.antt =====
-- What the loops of Native read and write.
use semihost.Base.{
  ℕ, zero, suc, ◌+◌, ◌/◌, ◌%◌, ◌≤◌, ◌==◌, if◌then◌else◌, some, [], ◌∷◌, ◌++◌, ◌≡◌, refl, ap, arith,
  length, length-append, append_assoc, bit_and_mask, Bool-cases, inl, inr,
}
use semihost.Memory.{Bytes, IsBytes, load_byte, store_over}
use semihost.Native.{
  endian_little, write_up, write_down, write_native_uint, read_down, read_up, shift_in,
  read_native_int, sign_extend,
}

-- The bytes of a value, lowest first and highest first.
abbrev pub le_bytes : ℕ → ℕ → Bytes
le_bytes v zero = []
le_bytes v (suc n) = v % 256 ∷ le_bytes (v / 256) n

abbrev pub be_bytes : ℕ → ℕ → Bytes
be_bytes v zero = []
be_bytes v (suc n) = be_bytes (v / 256) n ++ v % 256 ∷ []

abbrev pub native_bytes : ℕ → ℕ → ℕ → Bytes
native_bytes v n endianness = if endianness == endian_little then le_bytes v n else be_bytes v n

pub length-le_bytes : (v n : ℕ) → length (le_bytes v n) ≡ n
length-le_bytes v zero = refl
length-le_bytes v (suc n) = ap suc (length-le_bytes (v / 256) n)

pub length-be_bytes : (v n : ℕ) → length (be_bytes v n) ≡ n
length-be_bytes v zero = refl
length-be_bytes v (suc n) =
    omega (arith, length-append (be_bytes (v / 256) n) (v % 256 ∷ []), length-be_bytes (v / 256) n)

pub length-native_bytes : (v n e : ℕ) → length (native_bytes v n e) ≡ n
length-native_bytes v n e = ground (arith, length-le_bytes v n, length-be_bytes v n)

write_up_over :
    (pre old post : Bytes) (v n : ℕ)
    → length old ≡ n
    → write_up (pre ++ (old ++ post)) (length pre) v n ≡ some (pre ++ (le_bytes v n ++ post))
unfolding write_up
write_up_over pre [] post v zero h = refl
write_up_over pre (o ∷ old) post v (suc n) h =
    let next : length pre + 1 ≡ length (pre ++ v % 256 ∷ []) =
      omega (arith, length-append pre (v % 256 ∷ [])) in
    let regroup = λ (r : Bytes). append_assoc pre (v % 256 ∷ []) r in
    rw (bit_and_mask 8 v, store_over pre (old ++ post) o (v % 256))
      (rw (next, ← regroup (old ++ post), ← regroup (le_bytes (v / 256) n ++ post))
        (write_up_over (pre ++ v % 256 ∷ []) old post (v / 256) n (omega arith)))
write_up_over pre [] post v (suc n) h = absurd (omega arith)
write_up_over pre (o ∷ old) post v zero h = absurd (omega arith)

-- A list that is not empty, with its last element apart.
last_apart :
    (xs : Bytes) (n : ℕ)
    → length xs ≡ suc n
    → (ys : Bytes) × (y : ℕ) × (xs ≡ ys ++ y ∷ []) × (length ys ≡ n)
last_apart [] n h = absurd (omega arith)
last_apart (x ∷ []) n h = ([], x, refl, omega arith)
last_apart (x ∷ z ∷ zs) zero h = absurd (omega arith)
last_apart (x ∷ z ∷ zs) (suc n) h =
    let (ys, y, e, l) = last_apart (z ∷ zs) n (omega arith) in (x ∷ ys, y, ap (◌∷◌ x) e, ap suc l)

write_down_over :
    (pre old post : Bytes) (v n : ℕ)
    → length old ≡ n
    → write_down (pre ++ (old ++ post)) (length pre) v n ≡ some (pre ++ (be_bytes v n ++ post))
unfolding write_down
write_down_over pre [] post v zero h = refl
write_down_over pre (o ∷ old) post v zero h = absurd (omega arith)
write_down_over pre old post v (suc n) h =
    let (ys, y, e, l) = last_apart old n h in
    let at : length pre + n ≡ length (pre ++ ys) = omega (arith, length-append pre ys) in
    rw (e, append_assoc ys (y ∷ []) post, ← append_assoc pre ys (y ∷ post), at, bit_and_mask 8 v)
      (rw
        (
          store_over (pre ++ ys) post y (v % 256),
          append_assoc pre ys (v % 256 ∷ post),
          append_assoc (be_bytes (v / 256) n) (v % 256 ∷ []) post,
        )
        (write_down_over pre ys (v % 256 ∷ post) (v / 256) n l))

-- The write replaces exactly `size` bytes by those of the value, in the byte order asked for.
pub write_native_uint_over :
    (pre old post : Bytes) (v n e : ℕ)
    → length old ≡ n
    → write_native_uint (pre ++ (old ++ post)) (length pre) v n e
      ≡ some (pre ++ (native_bytes v n e ++ post))
unfolding write_native_uint
write_native_uint_over pre old post v n e h = elim (Bool-cases (e == endian_little)) [
  | inl little ↦ rw little (write_up_over pre old post v n h)
  | inr big ↦ rw big (write_down_over pre old post v n h)
]

read_down_inside :
    (buf : Bytes) (off n acc : ℕ)
    → IsBytes buf
    → off + n ≤ length buf
    → (v : ℕ) × (read_down buf off acc n ≡ some v)
unfolding read_down
read_down_inside buf off zero acc bytes h = (acc, refl)
read_down_inside buf off (suc n) acc bytes h =
    let (b, e, l) = load_byte buf (off + n) bytes (omega arith) in
    rw e (read_down_inside buf off n (shift_in acc b) bytes (omega arith))

read_up_inside :
    (buf : Bytes) (off n acc : ℕ)
    → IsBytes buf
    → off + n ≤ length buf
    → (v : ℕ) × (read_up buf off acc n ≡ some v)
unfolding read_up
read_up_inside buf off zero acc bytes h = (acc, refl)
read_up_inside buf off (suc n) acc bytes h =
    let (b, e, l) = load_byte buf off bytes (omega arith) in
    rw e (read_up_inside buf (off + 1) n (shift_in acc b) bytes (omega arith))

-- Inside the buffer a read succeeds.
pub read_native_int_inside :
    (buf : Bytes) (off n e : ℕ)
    → IsBytes buf
    → off + n ≤ length buf
    → (v : ℕ) × (read_native_int buf off n e ≡ some v)
unfolding read_native_int
read_native_int_inside buf off n e bytes h =
    let (d, dd) = read_down_inside buf off n 0 bytes h in
    let (u, uu) = read_up_inside buf off n 0 bytes h in
    elim (Bool-cases (e == endian_little)) [
      | inl little ↦ (sign_extend n d, rw (little, dd))
      | inr big ↦ (sign_extend n u, rw (big, uu))
    ]
