-- ===== src/Native/Sign.antt =====
-- The sign extension of zbc_read_native_int.
use semihost.Base.{
  ℕ, refl, ◌+◌, ◌-◌, ◌*◌, ◌%◌, ◌^◌, ◌<◌, ◌≤◌, ◌≡◌, ◌⊎◌, inl, inr, arith, some, ◌++◌, length,
  bit_and_bit, bit_or_low,
}
use semihost.Memory.{Bytes, ◌>>=◌, split_at}
use semihost.Native.Laws.{native_bytes, write_native_uint_over}
use semihost.Native.RoundTrip.{read_native_uint-native_bytes}
use semihost.Native.{write_native_uint, sign_extend, read_native_uint, read_native_int}

-- The widths that a CNFG chunk may announce.
abbrev pub IsWidth : ℕ → Type 0
IsWidth n = (n ≡ 1) ⊎ (n ≡ 2) ⊎ (n ≡ 4) ⊎ (n ≡ 8)

-- A 64-bit pattern whose signed value fits `n` bytes.
abbrev pub FitsSigned : ℕ → ℕ → Type 0
FitsSigned v n = (v < 2 ^ (8 * n - 1)) ⊎ ((2 ^ 64 ≤ v + 2 ^ (8 * n - 1)) × (v < 2 ^ 64))

sign_extend_1 : (v : ℕ) → FitsSigned v 1 → sign_extend 1 (v % 256) ≡ v
unfolding sign_extend
sign_extend_1 v h = ground (arith, bit_and_bit 7 (v % 256), bit_or_low 8 (2 ^ 56 - 1) (v % 256))

sign_extend_2 : (v : ℕ) → FitsSigned v 2 → sign_extend 2 (v % 2 ^ 16) ≡ v
unfolding sign_extend
sign_extend_2 v h =
    ground (arith, bit_and_bit 15 (v % 2 ^ 16), bit_or_low 16 (2 ^ 48 - 1) (v % 2 ^ 16))

sign_extend_4 : (v : ℕ) → FitsSigned v 4 → sign_extend 4 (v % 2 ^ 32) ≡ v
unfolding sign_extend
sign_extend_4 v h =
    ground (arith, bit_and_bit 31 (v % 2 ^ 32), bit_or_low 32 (2 ^ 32 - 1) (v % 2 ^ 32))

-- Extending the low bytes gives the value back, when its signed value fits them.
pub sign_extend-mod : (v n : ℕ) → IsWidth n → FitsSigned v n → sign_extend n (v % 256 ^ n) ≡ v
unfolding sign_extend
sign_extend-mod v n (inl e) h = rw e (sign_extend_1 v (rw e at h))
sign_extend-mod v n (inr (inl e)) h = rw e (sign_extend_2 v (rw e at h))
sign_extend-mod v n (inr (inr (inl e))) h = rw e (sign_extend_4 v (rw e at h))
sign_extend-mod v n (inr (inr (inr e))) h = rw e (let k : FitsSigned v 8 = rw e at h in omega arith)

read_native_int-uint :
    (buf : Bytes) (off n e : ℕ)
    → read_native_int buf off n e
      ≡ (read_native_uint buf off n e >>= λ value. some (sign_extend n value))
unfolding read_native_int read_native_uint
read_native_int-uint buf off n e = refl

pub read_native_int-native_bytes :
    (pre post : Bytes) (v n e : ℕ)
    → IsWidth n
    → FitsSigned v n
    → read_native_int (pre ++ (native_bytes v n e ++ post)) (length pre) n e ≡ some v
read_native_int-native_bytes pre post v n e w h = rw (
  read_native_int-uint (pre ++ (native_bytes v n e ++ post)) (length pre) n e,
  read_native_uint-native_bytes pre post v n e (ground arith),
  sign_extend-mod v n w h,
)

-- An integer whose signed value fits its width of 1, 2, 4 or 8 bytes, written anywhere in a buffer in
-- either byte order, reads back as itself.
pub read_native_int-write_native_uint :
    (buf : Bytes) (off v n e : ℕ)
    → IsWidth n
    → FitsSigned v n
    → off + n ≤ length buf
    → (b : Bytes) × (write_native_uint buf off v n e ≡ some b)
      × (read_native_int b off n e ≡ some v)
read_native_int-write_native_uint buf off v n e w h room =
    let (pre, old, post, q, l, m) = split_at buf off n room in
    (
      pre ++ (native_bytes v n e ++ post),
      rw (q, ← l) (write_native_uint_over pre old post v n e m),
      rw (← l) (read_native_int-native_bytes pre post v n e w h),
    )
