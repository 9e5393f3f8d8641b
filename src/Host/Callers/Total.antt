-- ===== src/Host/Callers/Total.antt =====
-- The caller wrappers of src/c/zbc_host.c on a backend that keeps to include/c/zbc_backend.h.
use semihost.Base.{
  ℕ, zero, suc, ◌+◌, ◌*◌, ◌^◌, ◌<◌, ◌≤◌, Bool, true, false, ◌&&◌, not, ◌==◌, ltb, Option, none,
  some, List, [], ◌∷◌, ◌≡◌, refl, ◌∙◌, arith, length, get_or, replicate, length-replicate,
  length-append, All, Bool-cases, Option-cases, inl, inr,
}
use semihost.Client.{read_bytes, strlen_loop}
use semihost.Client.Reads.{read_bytes-Yields, strlen_loop-Yields}
use semihost.Host.{CallResult}
use semihost.Host.Backend.{
  Field, Call, Answer, Backend, fd_buf, path_buf_sz, path_buf, fd_stat, heap_info, elapsed_ticks,
  tmp_name, cmdline,
}
use semihost.Host.Callers.{
  Caller, call_ctx, call_fd, call_fd_flen, call_fd_int, call_fd_read, call_fd_write, call_path,
  call_path_mode, call_mkdir, call_path_path, call_path_buf, call_fd_buf_sz, call_fd_stat,
  call_fd_len64, call_path_buf_sz, call_tmpnam, call_writec, call_write0, call_uint, call_exit,
  call_elapsed, call_iserror, call_cmdline, call_heapinfo, call, parm32, stat_buf_size, is_negative,
  data_at, parm, capped, length_loop, wire_length, with_output, on_zero, on_positive, on_read,
  on_string, write_char, heap_bytes, heap_result, elapsed_result,
}
use semihost.Memory.{Bytes, Yields, Yields-bind, Yields-if, Yields-weaken, load, load_inside}
use semihost.Native.{write_native_uint}
use semihost.Native.Writes.{HasLength, write_native_uint-Yields}
use semihost.Riff.Parse.{Parsed, DataRef}
use semihost.Riff.Parse.Safety.{IsParsed, Within}
use semihost.Word.{u32_le}
use semihost.Word.Laws.{length-u32_le}

-- A string's terminator is in the output.
abbrev pub HasString : Bytes → Type 0
HasString out = (i : ℕ) × (i < length out) × (load out i ≡ some 0)

-- What zbc_backend.h says of an answer: an output buffer that is as large as the backend is told is
-- filled within its size, a count is at most the count asked for, and a string that is handed over
-- has its terminator within the size told. Nothing is said of a call that is told more than there is.
abbrev pub IsAnswer : Call → ℕ → Answer → Type 0
IsAnswer (fd_buf f fd count) size a =
    count ≤ size → (length a.out ≡ size) × (is_negative a.result ≡ false → a.result ≤ count)
IsAnswer (path_buf_sz f p count) size a =
    count ≤ size → (length a.out ≡ size) × (is_negative a.result ≡ false → a.result ≤ count)
IsAnswer (tmp_name f count id) size a =
    count ≤ size → (length a.out ≡ size) × (a.result ≡ 0 → HasString a.out)
IsAnswer (cmdline f count) size a =
    count ≤ size → (length a.out ≡ size) × (a.result ≡ 0 → HasString a.out)
IsAnswer (path_buf f p) size a = stat_buf_size ≤ size → length a.out ≡ size
IsAnswer (fd_stat f fd) size a = stat_buf_size ≤ size → length a.out ≡ size
IsAnswer _ size a = length a.out ≡ size

capped_le : (n size : ℕ) → capped n size ≤ size
capped_le n size = ground arith

abbrev pub IsHonest : {S : Type 0} → Backend S → Type 0
IsHonest be = (c : Call) (buf : Bytes) (size : ℕ) (s : _) → IsAnswer c size (be.run c buf size s).0

length_loop-Yields :
    (n : ℕ) (buf : Bytes) (at i acc : ℕ)
    → at + i + n ≤ length buf
    → Yields (λ _. Unit) (length_loop n buf at i acc)
unfolding length_loop
length_loop-Yields zero buf at i acc h = tt
length_loop-Yields (suc n) buf at i acc h =
    let (b, e) = load_inside buf (at + i) (omega arith) in
    rw e (length_loop-Yields n buf at (i + 1) _ (omega arith))

All-get_or :
    (P : DataRef → Type 0) (xs : List DataRef) (i : ℕ) (d : DataRef)
    → All P xs
    → P d
    → P (get_or xs i d)
All-get_or P [] i d h k = k
All-get_or P (x ∷ xs) zero d h k = h.0
All-get_or P (x ∷ xs) (suc i) d h k = All-get_or P xs i d h.1 k

null-Within : (n : ℕ) (d : DataRef) → Within n d → d.ptr ≡ none → d.size ≡ 0
null-Within n d w e = rw e at w

some-Within : (n : ℕ) (d : DataRef) (at : ℕ) → Within n d → d.ptr ≡ some at → at + d.size ≤ n
some-Within n d at w e = rw e at w

wire_length-Yields :
    (buf : Bytes) (n : ℕ) (d : DataRef)
    → n ≤ length buf
    → Within n d
    → Yields (λ _. Unit) (wire_length buf d)
unfolding wire_length
wire_length-Yields buf n d h w = elim (Option-cases d.ptr) [
  | inl e ↦ rw (e, null-Within n d w e) tt
  | inr (at, e) ↦
      let inside = some-Within n d at w e in
      rw e (length_loop-Yields (capped d.size 8) buf at 0 0 (ground arith))
]

not_negative : (a b : Bool) → (a && not b) ≡ true → b ≡ false
not_negative true false h = refl
not_negative true true h = cc
not_negative false b h = cc

-- A response's data is at most the output buffer.
abbrev pub Fits : ℕ → Option Bytes → Type 0
Fits size none = Unit
Fits size (some d) = length d ≤ size

module _ {S : Type 0} (be : Backend S) (honest : IsHonest be) (buf : Bytes) (size : ℕ) where
  abbrev IsGood : CallResult × S → Type 0
  IsGood r = Fits size r.0.payload

  -- The number of bytes handed over is within the output.
  abbrev IsCount : Bytes → Option ℕ → Type 0
  IsCount out none = Unit
  IsCount out (some n) = n ≤ length out

  with_output-Yields :
      (wanted : Answer → Option (Option ℕ)) (c : Call) (s : S)
      → length (be.run c buf size s).0.out ≡ size
      → Yields (IsCount (be.run c buf size s).0.out) (wanted (be.run c buf size s).0)
      → Yields IsGood (with_output be buf size wanted c s)
  with_output-Yields wanted c s l h =
      Yields-bind (IsCount (be.run c buf size s).0.out) IsGood (wanted (be.run c buf size s).0) _ h
        elim [
          | none ↦ λ _. tt
          | some n ↦ λ le.
              Yields-bind (HasLength n) IsGood (read_bytes (be.run c buf size s).0.out 0 n) _
                (read_bytes-Yields (be.run c buf size s).0.out 0 n (omega arith)) λ d k. omega arith
        ]

  on_positive-Yields :
      (a : Answer) (count : ℕ)
      → count ≤ length a.out
      → (is_negative a.result ≡ false → a.result ≤ count)
      → Yields (IsCount a.out) (on_positive be buf size a)
  on_positive-Yields a count h k =
      elim (Bool-cases (ltb 0 a.result && not (is_negative a.result))) [
        | inl e ↦ let le = k (not_negative _ _ e) in rw e (omega arith)
        | inr e ↦ rw e tt
      ]

  on_read-Yields :
      (a : Answer) (count : ℕ)
      → count ≤ length a.out
      → length a.out < 2 ^ 63
      → (is_negative a.result ≡ false → a.result ≤ count)
      → Yields (IsCount a.out) (on_read be buf size count a)
  on_read-Yields a count h small k = elim (Bool-cases (is_negative a.result)) [
    | inl e ↦ rw e tt
    | inr e ↦ let le = k e in rw e (omega arith)
  ]

  on_string-Yields :
      (a : Answer)
      → (a.result ≡ 0 → HasString a.out)
      → Yields (IsCount a.out) (on_string be buf size a)
  on_string-Yields a h = elim (Bool-cases (a.result == 0)) [
    | inl e ↦
        let (i, l, z) = h (ground arith) in
        rw e (
          Yields-bind (λ n. n + 0 ≤ 0 + i) (IsCount a.out)
            (strlen_loop (suc (length a.out)) a.out 0 0) _
            (strlen_loop-Yields (suc (length a.out)) a.out 0 0 i l z (omega arith) (omega arith))
            λ n k. omega arith)
    | inr e ↦ rw e tt
  ]

  on_zero-Yields :
      (a : Answer) (n : ℕ) → n ≤ length a.out → Yields (IsCount a.out) (on_zero be buf size n a)
  on_zero-Yields a n h = elim (Bool-cases (a.result == 0)) [ inl e ↦ rw e h | inr e ↦ rw e tt ]

  elapsed_result-Yields :
      (c : Call) (s : S) → 8 ≤ size → Yields IsGood (elapsed_result be buf size c s)
  elapsed_result-Yields c s h =
      let vs = (be.run c buf size s).0.values in
      elim (Bool-cases ((be.run c buf size s).0.result == 0)) [
        | inl e ↦ rw e (
            omega (
              arith,
              length-append (u32_le (get_or vs 0 0)) (u32_le (get_or vs 1 0)),
              length-u32_le (get_or vs 0 0),
              length-u32_le (get_or vs 1 0),
            ))
        | inr e ↦ rw e tt
      ]

  heap_write-Yields :
      (b : Bytes) (off v ps endian : ℕ)
      → off + ps ≤ 4 * ps
      → length b ≡ 4 * ps
      → Yields (HasLength (4 * ps)) (write_native_uint b off v ps endian)
  heap_write-Yields b off v ps endian h l =
      Yields-weaken (HasLength (length b)) (HasLength (4 * ps)) _
        (write_native_uint-Yields b off v ps endian (omega arith)) λ c k. k ∙ l

  heap_bytes-Yields :
      (ps endian : ℕ) (vs : List ℕ)
      → Yields (HasLength (4 * ps)) (heap_bytes be buf size ps endian vs)
  heap_bytes-Yields ps endian vs =
      let room = HasLength (4 * ps) in
      let start : Bytes = replicate (4 * ps) 0 in
      Yields-bind room room _ _
        (heap_write-Yields start 0 (get_or vs 0 0) ps endian (omega arith)
          (length-replicate (4 * ps) 0))
        λ b l.
          Yields-bind room room _ _
            (heap_write-Yields b ps (get_or vs 1 0) ps endian (omega arith) l)
            λ c m.
              Yields-bind room room _ _
                (heap_write-Yields c (2 * ps) (get_or vs 2 0) ps endian (omega arith) m)
                λ d k. heap_write-Yields d (3 * ps) (get_or vs 3 0) ps endian (omega arith) k

  heap_result-Yields :
      (ps endian : ℕ) (c : Call) (s : S)
      → 4 * ps ≤ size
      → Yields IsGood (heap_result be buf size ps endian c s)
  heap_result-Yields ps endian c s h = elim (Bool-cases ((be.run c buf size s).0.result == 0)) [
    | inl e ↦ rw e (
        Yields-bind (HasLength (4 * ps)) IsGood
          (heap_bytes be buf size ps endian (be.run c buf size s).0.values) _
          (heap_bytes-Yields ps endian (be.run c buf size s).0.values) λ d l. omega arith)
    | inr e ↦ rw e tt
  ]

  module _ (p : Parsed) (n : ℕ) (w : IsParsed n p) (n_le : n ≤ length buf)
      (small : size < 2 ^ 63) where
    data-Within : (i : ℕ) → Within n (data_at p i)
    data-Within i = All-get_or (Within n) p.data_refs i _ w.refs_within refl

    write_char-Yields : (f : Field) (s : S) → Yields IsGood (write_char be buf size f p s)
    write_char-Yields f s = elim (Bool-cases (ltb 0 p.data_count && ltb 0 (data_at p 0).size)) [
      | inl e ↦ elim (Option-cases (data_at p 0).ptr) [
        | inl null ↦
            let empty : (data_at p 0).size ≡ 0 = null-Within n (data_at p 0) (data-Within 0) null in
            absurd (ground arith)
        | inr (at, some_ptr) ↦
            let inside : at + (data_at p 0).size ≤ n =
              some-Within n (data_at p 0) at (data-Within 0) some_ptr in
            let (c, g) = load_inside buf at (ground arith) in rw (e, some_ptr, g) tt
      ]
      | inr e ↦ rw e tt
    ]

    -- A wrapper returns, with data of at most the output buffer's size.
    pub call-Yields : (c : Caller) (f : Field) (s : S) → Yields IsGood (call be buf size c f p s)
    unfolding call
    call-Yields call_ctx f s = tt
    call-Yields call_fd f s = tt
    call-Yields call_fd_flen f s = tt
    call-Yields call_fd_int f s = tt
    call-Yields call_fd_read f s =
        let count = capped (parm p 1) size in
        let (l, k) = honest (fd_buf f (parm32 p 0) count) buf size s (capped_le (parm p 1) size) in
        with_output-Yields (on_read be buf size count) (fd_buf f (parm32 p 0) count) s l (
          on_read-Yields (be.run (fd_buf f (parm32 p 0) count) buf size s).0 count (ground arith)
            (omega arith) k)
    call-Yields call_fd_write f s = tt
    call-Yields call_path f s = tt
    call-Yields call_path_mode f s = tt
    call-Yields call_mkdir f s = tt
    call-Yields call_path_path f s = tt
    call-Yields call_path_buf f s =
        Yields-if IsGood (ltb size stat_buf_size) _ _ (λ _. tt)
          λ e.
            let l = honest (path_buf f (data_at p 0)) buf size s (ground arith) in
            with_output-Yields (on_zero be buf size stat_buf_size) (path_buf f (data_at p 0)) s l (
              on_zero-Yields (be.run (path_buf f (data_at p 0)) buf size s).0 stat_buf_size
                (ground arith))
    call-Yields call_fd_buf_sz f s =
        let count = capped (parm p 1) size in
        let (l, k) = honest (fd_buf f (parm32 p 0) count) buf size s (capped_le (parm p 1) size) in
        with_output-Yields (on_positive be buf size) (fd_buf f (parm32 p 0) count) s l (
          on_positive-Yields (be.run (fd_buf f (parm32 p 0) count) buf size s).0 count
            (ground arith) k)
    call-Yields call_fd_stat f s =
        Yields-if IsGood (ltb size stat_buf_size) _ _ (λ _. tt)
          λ e.
            let l = honest (fd_stat f (parm32 p 0)) buf size s (ground arith) in
            with_output-Yields (on_zero be buf size stat_buf_size) (fd_stat f (parm32 p 0)) s l (
              on_zero-Yields (be.run (fd_stat f (parm32 p 0)) buf size s).0 stat_buf_size
                (ground arith))
    call-Yields call_fd_len64 f s =
        Yields-bind (λ _. Unit) IsGood (wire_length buf (data_at p 0)) _
          (wire_length-Yields buf n (data_at p 0) n_le (data-Within 0)) λ _ _. tt
    call-Yields call_path_buf_sz f s =
        let count = capped (parm p 1) size in
        let (l, k) =
          honest (path_buf_sz f (data_at p 0) count) buf size s (capped_le (parm p 1) size) in
        with_output-Yields (on_positive be buf size) (path_buf_sz f (data_at p 0) count) s l (
          on_positive-Yields (be.run (path_buf_sz f (data_at p 0) count) buf size s).0 count
            (ground arith) k)
    call-Yields call_tmpnam f s =
        let c = tmp_name f (capped (parm p 1) size) (parm32 p 0) in
        let (l, k) = honest c buf size s (capped_le (parm p 1) size) in
        with_output-Yields (on_string be buf size) c s l
          (on_string-Yields (be.run c buf size s).0 k)
    call-Yields call_writec f s = write_char-Yields f s
    call-Yields call_write0 f s = Yields-if IsGood (ltb 0 p.data_count) _ _ (λ _. tt) (λ _. tt)
    call-Yields call_uint f s = tt
    call-Yields call_exit f s = tt
    call-Yields call_elapsed f s =
        Yields-if IsGood (ltb size 8) _ _ (λ _. tt)
          (λ e. elapsed_result-Yields (elapsed_ticks f) s (ground arith))
    call-Yields call_iserror f s = tt
    call-Yields call_cmdline f s =
        let c = cmdline f (capped (parm p 0) size) in
        let (l, k) = honest c buf size s (capped_le (parm p 0) size) in
        with_output-Yields (on_string be buf size) c s l
          (on_string-Yields (be.run c buf size s).0 k)
    call-Yields call_heapinfo f s =
        Yields-if IsGood (ltb size (4 * p.ptr_size)) _ _ (λ _. tt)
          λ e. heap_result-Yields p.ptr_size p.endianness (heap_info f) s (ground arith)
