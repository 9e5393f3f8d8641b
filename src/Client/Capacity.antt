-- ===== src/Client/Capacity.antt =====
-- The space that the client reserves for a response against what the host needs for it.
use semihost.Base.{
  ℕ, ◌+◌, ◌*◌, ◌^◌, ◌<◌, ◌≤◌, Option, none, some, List, ◌≡◌, ◌⊎◌, refl, arith, length, get_elem?,
  inl, inr,
}
use semihost.Client.{ClientState, retn_capacity, data_capacity}
use semihost.Host.{needed}
use semihost.Memory.{Bytes, Yields, >>=-eq-some}
use semihost.Opcode.{OpcodeEntry, RespType, int, data_bytes, heapinfo, elapsed}
use semihost.Word.{u64, pad_size}
use semihost.Word.Laws.{pad_size_lem}

-- The data that an answer may carry, by the entry's response type and the caller's argument slots
abbrev pub IsAnswerTo : OpcodeEntry → ClientState → List ℕ → Option Bytes → Type 0
IsAnswerTo e st args none = Unit
IsAnswerTo e st args (some d) = elim e.resp_type [
  | int ↦ length d ≡ 0
  | data_bytes ↦ Yields (λ n. length d ≤ n) (get_elem? args e.resp_len_slot)
  | heapinfo ↦ length d ≤ 4 * st.ptr_size
  | elapsed ↦ length d ≤ 8
]

needed_le :
    (int_size n : ℕ) (d : Bytes)
    → int_size ≤ 8
    → n < 2 ^ 32
    → length d ≤ n
    → needed int_size (some d) ≤ u64 (int_size + 4 + 8 + 4 + pad_size n)
unfolding needed
needed_le int_size n d narrow small le =
    ground (arith, pad_size_lem n (omega arith), pad_size_lem (4 + length d) (omega arith))

pub RespType-cases : (t : RespType) → (t ≡ int) ⊎ (t ≡ data_bytes) ⊎ (t ≡ heapinfo) ⊎ (t ≡ elapsed)
RespType-cases int = inl refl
RespType-cases data_bytes = inr (inl refl)
RespType-cases heapinfo = inr (inr (inl refl))
RespType-cases elapsed = inr (inr (inr refl))

base_le :
    (int_size n : ℕ)
    → int_size ≤ 8
    → n < 2 ^ 32
    → int_size + 4 ≤ u64 (int_size + 4 + 8 + 4 + pad_size n)
base_le int_size n narrow small = omega (arith, pad_size_lem n (omega arith))

-- The capacity of the RETN chunk that the client reserves for a call with arguments is at least
-- what the host needs for the answer, if the answer's data is no longer than the caller's buffer
-- (or than the fixed size of the response type, nothing for an integer), the length in the
-- caller's slot is below 2 ^ 32, and the guest's integers and pointers have at most 8 bytes.
pub needed-retn_capacity :
    (e : OpcodeEntry) (st : ClientState) (args : List ℕ) (payload : Option Bytes) (capacity : ℕ)
    → st.int_size ≤ 8
    → st.ptr_size ≤ 8
    → ((n : ℕ) → get_elem? args e.resp_len_slot ≡ some n → n < 2 ^ 32)
    → IsAnswerTo e st args payload
    → retn_capacity e st (some args) ≡ some capacity
    → needed st.int_size payload ≤ capacity
unfolding retn_capacity needed
needed-retn_capacity e st args none capacity narrow thin small answer h =
    elim (RespType-cases e.resp_type) [
      | inl t ↦ let k : st.int_size + 4 ≡ capacity = cc (rw t at h) in ground arith
      | inr (inl t) ↦
          let (n, f, k) =
            >>=-eq-some (get_elem? args e.resp_len_slot)
              (λ n. some (data_capacity (st.int_size + 4) n)) (rw t at h) in
          let q : data_capacity (st.int_size + 4) n ≡ capacity = cc k in
          omega (arith, base_le st.int_size n narrow (small n f))
      | inr (inr (inl t)) ↦
          let q : data_capacity (st.int_size + 4) (4 * st.ptr_size) ≡ capacity = cc (rw t at h) in
          omega (arith, base_le st.int_size (4 * st.ptr_size) narrow (omega arith))
      | inr (inr (inr t)) ↦
          let q : data_capacity (st.int_size + 4) 8 ≡ capacity = cc (rw t at h) in
          omega (arith, base_le st.int_size 8 narrow (omega arith))
    ]
needed-retn_capacity e st args (some d) capacity narrow thin small answer h =
    elim (RespType-cases e.resp_type) [
      | inl t ↦
          let z : length d ≡ 0 = rw t at answer in
          let k : st.int_size + 4 ≡ capacity = cc (rw t at h) in ground arith
      | inr (inl t) ↦
          let (n, f, k) =
            >>=-eq-some (get_elem? args e.resp_len_slot)
              (λ n. some (data_capacity (st.int_size + 4) n)) (rw t at h) in
          let q : data_capacity (st.int_size + 4) n ≡ capacity = cc k in
          let le : length d ≤ n = rw f at (rw t at answer) in
          rw (← q) (needed_le st.int_size n d narrow (small n f) le)
      | inr (inr (inl t)) ↦
          let q : data_capacity (st.int_size + 4) (4 * st.ptr_size) ≡ capacity = cc (rw t at h) in
          let le : length d ≤ 4 * st.ptr_size = rw t at answer in
          rw (← q) (needed_le st.int_size (4 * st.ptr_size) d narrow (omega arith) le)
      | inr (inr (inr t)) ↦
          let q : data_capacity (st.int_size + 4) 8 ≡ capacity = cc (rw t at h) in
          let le : length d ≤ 8 = rw t at answer in
          rw (← q) (needed_le st.int_size 8 d narrow (omega arith) le)
    ]
