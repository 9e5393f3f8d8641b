-- ===== src/Client/Reads.antt =====
-- Reads of an argument's bytes in the client's memory, zbc_strlen included.
use semihost.Base.{
  ℕ, zero, suc, ◌+◌, ◌<◌, ◌≤◌, false, ◌==◌, ltb, some, ◌≡◌, refl, arith, length, Bool-cases, inl,
  inr,
}
use semihost.Client.{read_bytes, strlen_loop, strlen}
use semihost.Memory.{Bytes, Yields, Yields-bind, Yields-weaken, load, load_inside}
use semihost.Native.Writes.{HasLength}

pub read_bytes-Yields :
    (mem : Bytes) (addr n : ℕ)
    → addr + n ≤ length mem
    → Yields (HasLength n) (read_bytes mem addr n)
unfolding read_bytes
read_bytes-Yields mem addr zero h = refl
read_bytes-Yields mem addr (suc n) h =
    let (b, e) = load_inside mem addr (omega arith) in
    rw e (
      Yields-bind (HasLength n) (HasLength (suc n)) (read_bytes mem (addr + 1) n) _
        (read_bytes-Yields mem (addr + 1) n (omega arith)) λ bs l. omega arith)

-- The loop ends at the terminator, or earlier.
pub strlen_loop-Yields :
    (fuel : ℕ) (mem : Bytes) (s len i : ℕ)
    → i < length mem
    → load mem i ≡ some 0
    → s ≤ i
    → i < s + fuel
    → Yields (λ n. n + s ≤ len + i) (strlen_loop fuel mem s len)
unfolding strlen_loop
strlen_loop-Yields zero mem s len i h e le enough = absurd (omega arith)
strlen_loop-Yields (suc fuel) mem s len i h e le enough =
    let (c, f) = load_inside mem s (omega arith) in
    elim (Bool-cases (c == 0)) [
      | inl end ↦ rw (f, end) (omega arith)
      | inr more ↦
          let away : s < i = elim (Bool-cases (ltb s i)) [
            | inl l ↦ ground arith
            | inr l ↦
                let here : s ≡ i = ground arith in
                let nul : c ≡ 0 = cc (f, e, here) in absurd (ground arith)
          ] in
          rw (f, more)
            (Yields-weaken _ _ (strlen_loop fuel mem (s + 1) (len + 1))
              (strlen_loop-Yields fuel mem (s + 1) (len + 1) i h e (omega arith) (omega arith))
              λ n k. omega arith)
    ]

pub strlen-Yields :
    (mem : Bytes) (s i : ℕ)
    → i < length mem
    → load mem i ≡ some 0
    → s ≤ i
    → 0 < s
    → Yields (λ n. s + n ≤ i) (strlen mem s)
unfolding strlen
strlen-Yields mem s i h e le pos =
    let there : (s == 0) ≡ false = ground arith in
    rw there (
      Yields-weaken _ _ (strlen_loop (suc (length mem)) mem s 0)
        (strlen_loop-Yields (suc (length mem)) mem s 0 i h e le (omega arith)) λ n k. omega arith)
