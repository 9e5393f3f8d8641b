-- ===== src/Native/Writes.antt =====
-- Writes inside a buffer, for the code that writes at computed offsets.
use semihost.Base.{
  ℕ, zero, suc, ◌+◌, ◌<◌, ◌≤◌, [], ◌∷◌, ◌++◌, ◌≡◌, refl, ap, arith, length, length-append,
}
use semihost.Memory.{Bytes, Yields, Yields-result, store, write_bytes, write_bytes_over, split_at}
use semihost.Native.{write_native_uint}
use semihost.Native.Laws.{native_bytes, length-native_bytes, write_native_uint_over}
use semihost.Word.{u32_le, write_u32_le}
use semihost.Word.Laws.{length-u32_le, write_u32_le_over}

abbrev pub HasLength : ℕ → Bytes → Type 0
HasLength n b = length b ≡ n

pub write_native_uint-Yields :
    (buf : Bytes) (off v n e : ℕ)
    → off + n ≤ length buf
    → Yields (HasLength (length buf)) (write_native_uint buf off v n e)
write_native_uint-Yields buf off v n e h =
    let (pre, old, post, eq, l, m) = split_at buf off n h in
    rw (eq, ← l, write_native_uint_over pre old post v n e m)
      (omega (
        arith,
        length-append pre (native_bytes v n e ++ post),
        length-append (native_bytes v n e) post,
        length-native_bytes v n e,
        length-append pre (old ++ post),
        length-append old post,
      ))

pub write_u32_le-Yields :
    (buf : Bytes) (off v : ℕ)
    → off + 4 ≤ length buf
    → Yields (HasLength (length buf)) (write_u32_le buf off v)
write_u32_le-Yields buf off v h =
    let (pre, old, post, eq, l, m) = split_at buf off 4 h in
    rw (eq, ← l, write_u32_le_over pre old post v m)
      (omega (
        arith,
        length-append pre (u32_le v ++ post),
        length-append (u32_le v) post,
        length-u32_le v,
        length-append pre (old ++ post),
        length-append old post,
      ))

pub write_bytes-Yields :
    (buf : Bytes) (off : ℕ) (bs : Bytes)
    → off + length bs ≤ length buf
    → Yields (HasLength (length buf)) (write_bytes buf off bs)
write_bytes-Yields buf off bs h =
    let (pre, old, post, eq, l, m) = split_at buf off (length bs) h in
    rw (eq, ← l, write_bytes_over pre old post bs m)
      (omega (
        arith,
        length-append pre (bs ++ post),
        length-append bs post,
        length-append pre (old ++ post),
        length-append old post,
      ))

pub store-Yields :
    (buf : Bytes) (i v : ℕ) → i < length buf → Yields (HasLength (length buf)) (store buf i v)
unfolding store
store-Yields [] i v h = absurd (omega arith)
store-Yields (x ∷ xs) zero v h = refl
store-Yields (x ∷ xs) (suc i) v h =
    let (ys, e, l) =
      Yields-result (HasLength (length xs)) (store xs i v) (store-Yields xs i v (omega arith)) in
    rw e (ap suc l)
