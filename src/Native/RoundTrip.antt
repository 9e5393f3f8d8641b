-- ===== src/Native/RoundTrip.antt =====
-- Reading an integer back from its bytes.
use native.Mathlib.Nat.{div-div-eq-div-mul, pow-suc, one-le-pow, div-add-mod, pow-le-pow_right}
use semihost.Base.{
  ℕ, zero, suc, ◌+◌, ◌-◌, ◌*◌, ◌/◌, ◌%◌, ◌^◌, ◌<◌, ◌≤◌, ◌==◌, some, [], ◌∷◌, ◌++◌, ◌≡◌, sym, ap,
  ◌∙◌, arith, length, get_elem?-append, append_assoc, bit_or_high, dec_lt, get_elem?, Bool-cases,
  inl, inr,
}
use semihost.Memory.{Bytes, load, load-append_here}
use semihost.Native.Laws.{le_bytes, be_bytes, native_bytes, length-be_bytes}
use semihost.Native.{endian_little, read_down, read_up, read_native_uint, shift_in}

-- Digit `i` of a value in base 256.
abbrev digit : ℕ → ℕ → ℕ
digit v i = v / 256 ^ i % 256

mod_digit : (p v : ℕ) → 0 < p → v % (p * 256) ≡ v / p % 256 * p + v % p
mod_digit p v h = omega (
  arith,
  div-div-eq-div-mul v p 256,
  ap (λ (t : ℕ). t * p) (div-div-eq-div-mul v p 256),
  ap (λ (t : ℕ). t * p) (div-add-mod (v / p) 256),
)

shift_in_sum : (acc b k : ℕ) → acc < 256 ^ k → k < 8 → b < 256 → shift_in acc b ≡ acc * 256 + b
shift_in_sum acc b k h lt hb =
    let top : 256 ^ k ≤ 256 ^ 7 =
      pow-le-pow_right {n = 256} (omega arith) {i = k} {j = 7} (omega arith) in
    let fits : acc * 2 ^ 8 % 2 ^ 64 ≡ acc * 2 ^ 8 = omega arith in rw fits (bit_or_high 8 acc b hb)

shift_in-lt : (acc b k : ℕ) → acc < 256 ^ k → k < 8 → b < 256 → shift_in acc b < 256 ^ suc k
shift_in-lt acc b k h lt hb = omega (arith, shift_in_sum acc b k h lt hb, pow-suc 256 k)

digit_shift : (v i : ℕ) → digit (v / 256) i ≡ digit v (suc i)
digit_shift v i =
    ap (λ (t : ℕ). t % 256)
      (div-div-eq-div-mul v 256 (256 ^ i) ∙ ap (λ (t : ℕ). v / t) (omega (arith, pow-suc 256 i)))

digit_step :
    (acc v n k : ℕ)
    → acc < 256 ^ k
    → k < 8
    → shift_in acc (digit v n) * 256 ^ n + v % 256 ^ n ≡ acc * 256 ^ suc n + v % 256 ^ suc n
digit_step acc v n k h lt =
    rw (shift_in_sum acc (digit v n) k h lt (omega arith), pow-suc 256 n)
      (omega (arith, mod_digit (256 ^ n) v (one-le-pow n 256 (omega arith))))

read_down_digits :
    (buf : Bytes) (off v n acc k : ℕ)
    → ((i : ℕ) → i < n → load buf (off + i) ≡ some (digit v i))
    → acc < 256 ^ k
    → k + n ≤ 8
    → read_down buf off acc n ≡ some (acc * 256 ^ n + v % 256 ^ n)
unfolding read_down
read_down_digits buf off v zero acc k at h le = ap some (omega arith)
read_down_digits buf off v (suc n) acc k at h le =
    let d = digit v n in
    rw (at n (omega arith)) (
      read_down_digits buf off v n (shift_in acc d) (suc k) (λ i lt. at i (omega arith))
        (shift_in-lt acc d k h (omega arith) (omega arith)) (omega arith)
      ∙ ap some (digit_step acc v n k h (omega arith)))

read_up_digits :
    (buf : Bytes) (off v n acc k : ℕ)
    → ((i : ℕ) → i < n → load buf (off + i) ≡ some (digit v (n - 1 - i)))
    → acc < 256 ^ k
    → k + n ≤ 8
    → read_up buf off acc n ≡ some (acc * 256 ^ n + v % 256 ^ n)
unfolding read_up
read_up_digits buf off v zero acc k at h le = ap some (omega arith)
read_up_digits buf off v (suc n) acc k at h le =
    let d = digit v n in
    let here : load buf off ≡ some d =
      ap (load buf) (omega arith)
      ∙ at 0 (omega arith)
      ∙ ap (λ (i : ℕ). some (digit v i)) (omega arith) in
    rw here (
      read_up_digits buf (off + 1) v n (shift_in acc d) (suc k)
        (λ i lt.
          ap (load buf) (omega arith)
          ∙ at (i + 1) (omega arith)
          ∙ ap (λ (j : ℕ). some (digit v j)) (omega arith))
        (shift_in-lt acc d k h (omega arith) (omega arith)) (omega arith)
      ∙ ap some (digit_step acc v n k h (omega arith)))

get_elem?-le_bytes :
    (v n i : ℕ) (post : Bytes) → i < n → get_elem? (le_bytes v n ++ post) i ≡ some (digit v i)
get_elem?-le_bytes v zero i post h = absurd (omega arith)
get_elem?-le_bytes v (suc n) zero post h = ap some (omega arith)
get_elem?-le_bytes v (suc n) (suc i) post h =
    get_elem?-le_bytes (v / 256) n i post (omega arith) ∙ ap some (digit_shift v i)

-- `be_bytes v n` before `post`: its last byte is the lowest digit.
get_elem?-be_bytes :
    (v n i : ℕ) (post : Bytes)
    → i < n
    → get_elem? (be_bytes v n ++ post) i ≡ some (digit v (n - 1 - i))
get_elem?-be_bytes v zero i post h = absurd (omega arith)
get_elem?-be_bytes v (suc n) i post h =
    rw (append_assoc (be_bytes (v / 256) n) (v % 256 ∷ []) post) (elim (dec_lt i n) [
      | yes lt ↦
          get_elem?-be_bytes (v / 256) n i (v % 256 ∷ post) lt
          ∙ ap some (digit_shift v (n - 1 - i))
          ∙ ap (λ (j : ℕ). some (digit v j)) (omega arith)
      | no ge ↦
          let at : i ≡ length (be_bytes (v / 256) n) + 0 =
            omega (arith, length-be_bytes (v / 256) n) in
          rw at (
            get_elem?-append (be_bytes (v / 256) n) (v % 256 ∷ post) 0
            ∙ last (length (be_bytes (v / 256) n) + 0) (omega (arith, length-be_bytes (v / 256) n)))
    ])
  where
    last : (j : ℕ) → j ≡ n → some (v % 256) ≡ some (digit v (suc n - 1 - j))
    last j e =
        let z : suc n - 1 - j ≡ 0 = omega arith in ap some (sym (ap (digit v) z ∙ omega arith))

-- The bytes of a value, read in the same order, give the value's low `n` bytes.
pub read_native_uint-native_bytes :
    (pre post : Bytes) (v n e : ℕ)
    → n ≤ 8
    → read_native_uint (pre ++ (native_bytes v n e ++ post)) (length pre) n e ≡ some (v % 256 ^ n)
unfolding read_native_uint load
read_native_uint-native_bytes pre post v n e le = elim (Bool-cases (e == endian_little)) [
  | inl little ↦ rw little (
      read_down_digits _ (length pre) v n 0 0
        (λ i lt. load-append_here pre _ i ∙ get_elem?-le_bytes v n i post lt) (omega arith)
        (omega arith)
      ∙ ap some (omega arith))
  | inr big ↦ rw big (
      read_up_digits _ (length pre) v n 0 0
        (λ i lt. load-append_here pre _ i ∙ get_elem?-be_bytes v n i post lt) (omega arith)
        (omega arith)
      ∙ ap some (omega arith))
]
