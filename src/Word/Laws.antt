-- ===== src/Word/Laws.antt =====
-- The accessors of Word, as arithmetic.
use semihost.Base.{
  ℕ, ◌+◌, ◌*◌, ◌/◌, ◌%◌, ◌^◌, ◌<◌, ◌≤◌, ◌≡◌, refl, sym, ◌∙◌, arith, some, ◌++◌, length, ap, bit_and,
  bit_or, bit_or_low, bit_and_mask, bit_and_even,
}
use semihost.Memory.{
  write_bytes_over, Yields, Bytes, IsBytes, load, load, load_byte, load-append, load-append_here,
}
use semihost.Word.{
  u32, make_fourcc, u32_le, write_u32_le, read_u32_le, read_u16_le, pad_size_u32, pad_size,
}

pub make_fourcc_sum :
    (a b c d : ℕ)
    → a < 256
    → b < 256
    → c < 256
    → d < 256
    → make_fourcc a b c d ≡ a + 256 * b + 65536 * c + 16777216 * d
unfolding make_fourcc
make_fourcc_sum a b c d ha hb hc hd = ground (
  arith,
  bit_or_low 8 b a,
  bit_or_low 16 c (b * 2 ^ 8 + a),
  bit_or_low 24 d (c * 2 ^ 16 + (b * 2 ^ 8 + a)),
)

-- Four stored bytes read back as the number.
pub make_fourcc-u32_le :
    (v : ℕ)
    → make_fourcc
        (bit_and (u32 v) 0xff)
        (bit_and (u32 v / 2 ^ 8) 0xff)
        (bit_and (u32 v / 2 ^ 16) 0xff)
        (bit_and (u32 v / 2 ^ 24) 0xff)
      ≡ u32 v
make_fourcc-u32_le v = omega (
  arith,
  bit_and_mask 8 (u32 v),
  bit_and_mask 8 (u32 v / 2 ^ 8),
  bit_and_mask 8 (u32 v / 2 ^ 16),
  bit_and_mask 8 (u32 v / 2 ^ 24),
  make_fourcc_sum (bit_and (u32 v) 0xff) (bit_and (u32 v / 2 ^ 8) 0xff)
      (bit_and (u32 v / 2 ^ 16) 0xff) (bit_and (u32 v / 2 ^ 24) 0xff),
)

-- Inside the buffer a read of four bytes succeeds.
pub read_u32_le_inside :
    (buf : Bytes) (off : ℕ)
    → IsBytes buf
    → off + 4 ≤ length buf
    → (v : ℕ) × (read_u32_le buf off ≡ some v) × (v < 2 ^ 32)
unfolding read_u32_le
read_u32_le_inside buf off bytes h =
    let (b0, e0, l0) = load_byte buf off bytes (omega arith) in
    let (b1, e1, l1) = load_byte buf (off + 1) bytes (omega arith) in
    let (b2, e2, l2) = load_byte buf (off + 2) bytes (omega arith) in
    let (b3, e3, l3) = load_byte buf (off + 3) bytes (omega arith) in
    (
      make_fourcc b0 b1 b2 b3,
      rw (e0, e1, e2, e3),
      omega (arith, make_fourcc_sum b0 b1 b2 b3 l0 l1 l2 l3),
    )

pub read_u16_le_inside :
    (buf : Bytes) (off : ℕ)
    → IsBytes buf
    → off + 2 ≤ length buf
    → (v : ℕ) × (read_u16_le buf off ≡ some v) × (v < 2 ^ 16)
unfolding read_u16_le
read_u16_le_inside buf off bytes h =
    let (b0, e0, l0) = load_byte buf off bytes (omega arith) in
    let (b1, e1, l1) = load_byte buf (off + 1) bytes (omega arith) in
    (
      bit_or b0 (b1 * 2 ^ 8 % 2 ^ 16),
      rw (e0, e1),
      omega (arith, bit_or_low 8 b1 b0 l0, same b0 b1 l1),
    )
  where
    same : (b0 b1 : ℕ) → b1 < 256 → bit_or b0 (b1 * 2 ^ 8 % 2 ^ 16) ≡ bit_or b0 (b1 * 2 ^ 8)
    same b0 b1 l = ap (bit_or b0) (omega arith)

-- Reading behind a prefix.
pub read_u32_le-append :
    (pre xs : Bytes) (i : ℕ) → read_u32_le (pre ++ xs) (length pre + i) ≡ read_u32_le xs i
unfolding read_u32_le
read_u32_le-append pre xs i =
    let shift = λ (k : ℕ). load-append pre xs i k in
    rw (load-append_here pre xs i, shift 1, shift 2, shift 3)

-- Four bytes that were stored read back as the number.
pub read_u32_le-u32_le : (post : Bytes) (v : ℕ) → read_u32_le (u32_le v ++ post) 0 ≡ some (u32 v)
unfolding read_u32_le u32_le load
read_u32_le-u32_le post v = ap some (make_fourcc-u32_le v)

pub pad_size_u32_lem : (n : ℕ) → n + 1 < 2 ^ 32 → pad_size_u32 n ≡ n + n % 2
unfolding pad_size_u32
pad_size_u32_lem n h = omega (arith, bit_and_even 63 ((n + 1) % 2 ^ 32) (omega arith))

pub pad_size_lem : (n : ℕ) → n + 1 < 2 ^ 64 → pad_size n ≡ n + n % 2
unfolding pad_size
pad_size_lem n h = omega (arith, bit_and_even 63 ((n + 1) % 2 ^ 64) (omega arith))

pub read_u32_le-Yields :
    (buf : Bytes) (off : ℕ)
    → IsBytes buf
    → off + 4 ≤ length buf
    → Yields (λ v. v < 2 ^ 32) (read_u32_le buf off)
read_u32_le-Yields buf off bytes h = let (v, e, l) = read_u32_le_inside buf off bytes h in rw e l

pub read_u16_le-Yields :
    (buf : Bytes) (off : ℕ)
    → IsBytes buf
    → off + 2 ≤ length buf
    → Yields (λ v. v < 2 ^ 16) (read_u16_le buf off)
read_u16_le-Yields buf off bytes h = let (v, e, l) = read_u16_le_inside buf off bytes h in rw e l

-- A padded size is at least the size, unless the 32-bit sum wraps, and at most one more.
pub pad_size_u32_le : (n : ℕ) → n < 2 ^ 32 → pad_size_u32 n ≤ n + 1
unfolding pad_size_u32
pad_size_u32_le n h = omega (arith, bit_and_even 63 ((n + 1) % 2 ^ 32) (omega arith))

pub length-u32_le : (v : ℕ) → length (u32_le v) ≡ 4
unfolding u32_le
length-u32_le v = refl

-- The four bytes at the end of `pre`, replaced.
pub write_u32_le_over :
    (pre old post : Bytes) (v : ℕ)
    → length old ≡ 4
    → write_u32_le (pre ++ (old ++ post)) (length pre) v ≡ some (pre ++ (u32_le v ++ post))
unfolding write_u32_le
write_u32_le_over pre old post v h =
    write_bytes_over pre old post (u32_le v) (h ∙ sym (length-u32_le v))
