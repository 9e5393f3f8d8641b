-- ===== src/Opcode/Agreement/Answers.antt =====
-- The client's opcode table against what the host's wrappers read and answer.
use semihost.Base.{
  ℕ, ◌<◌, Bool, true, false, ◌&&◌, ◌==◌, leb, ltb, Option, none, some, [], replicate, ◌≡◌, ◌↔◌,
  refl, sym, ◌∙◌, arith, Bool-cases, Option-cases, inl, inr,
}
use semihost.Client.{read_bytes, strlen_loop}
use semihost.Host.{CallResult}
use semihost.Host.Backend.{Field, Backend, open_file}
use semihost.Host.Callers.{
  Caller, call_ctx, call_fd, call_fd_flen, call_fd_int, call_fd_read, call_fd_write, call_path,
  call_path_mode, call_mkdir, call_path_path, call_path_buf, call_fd_buf_sz, call_fd_stat,
  call_fd_len64, call_path_buf_sz, call_tmpnam, call_writec, call_write0, call_uint, call_exit,
  call_elapsed, call_iserror, call_cmdline, call_heapinfo, call, write_char, data_at, wire_length,
}
use semihost.Host.Dispatch.{DispatchEntry, dispatch_lookup}
use semihost.Memory.{Bytes, ◌>>=◌, load, write_bytes, store}
use semihost.Native.{write_native_uint, write_up}
use semihost.Opcode.Agreement.{
  is_parm, is_data, sent, parms_read, data_read, answers_data, expects_data, same, agree, agrees,
  tables_agree,
}
use semihost.Opcode.Agreement.Reads.{Alike, call-Alike}
use semihost.Opcode.{OpcodeEntry, opcode_lookup}
use semihost.Riff.Parse.{Parsed, zeroed}
use semihost.Word.{u32_le}

-- A call's result, where it returns, has no data.
abbrev HasNoData : {S : Type 0} → Option (CallResult × S) → Type 0
HasNoData none = Unit
HasNoData (some r) = r.0.payload ≡ none

bind_no_data :
    {A S : Type 0} (m : Option A) (f : A → Option (CallResult × S))
    → ((a : A) → HasNoData (f a))
    → HasNoData (m >>= f)
bind_no_data none f h = tt
bind_no_data (some a) f h = h a

module _ {S : Type 0} (be : Backend S) (buf : Bytes) (size : ℕ) (f : Field) (p : Parsed)
    (s : S) where
  write_char-HasNoData : HasNoData (write_char be buf size f p s)
  write_char-HasNoData = elim (Bool-cases (ltb 0 p.data_count && ltb 0 (data_at p 0).size)) [
    | inr e ↦ rw e refl
    | inl e ↦ elim (Option-cases (data_at p 0).ptr) [
      | inl null ↦ rw (e, null) tt
      | inr (at, there) ↦ rw (e, there) (bind_no_data (load buf at) _ λ c. refl)
    ]
  ]

  call-HasNoData : (c : Caller) → answers_data c ≡ false → HasNoData (call be buf size c f p s)
  unfolding call
  call-HasNoData call_ctx h = refl
  call-HasNoData call_fd h = refl
  call-HasNoData call_fd_flen h = refl
  call-HasNoData call_fd_int h = refl
  call-HasNoData call_fd_write h = refl
  call-HasNoData call_path h = refl
  call-HasNoData call_path_mode h = refl
  call-HasNoData call_mkdir h = refl
  call-HasNoData call_path_path h = refl
  call-HasNoData call_fd_len64 h = bind_no_data (wire_length buf (data_at p 0)) _ λ n. refl
  call-HasNoData call_writec h = write_char-HasNoData
  call-HasNoData call_write0 h = elim (Bool-cases (ltb 0 p.data_count)) [
    | inl e ↦ rw e refl
    | inr e ↦ rw e refl
  ]
  call-HasNoData call_uint h = refl
  call-HasNoData call_exit h = refl
  call-HasNoData call_iserror h = refl
  call-HasNoData _ h = cc

-- A run of the wrapper that answers with data
abbrev pub MayAnswer : Caller → Type 0
MayAnswer c =
    (be : Backend ℕ) × (buf : Bytes) × (size : ℕ) × (f : Field) × (p : Parsed) × (s : ℕ)
    × (r : CallResult × ℕ) × (d : Bytes) × (call be buf size c f p s ≡ some r)
    × (r.0.payload ≡ some d)

-- A backend that answers every call with the number, and fills the output with NULs
abbrev answering : ℕ → Backend ℕ
answering n = record {
  has = λ f. true;
  run = λ c buf size s. (record { result = n; out = replicate size 0; values = [] }, s);
  errno = λ s. (0, s);
}

abbrev answer_of : Option (CallResult × ℕ) → CallResult × ℕ
answer_of none = (record { result = 0; payload = none }, 0)
answer_of (some r) = r

abbrev data_of : Option Bytes → Bytes
data_of none = []
data_of (some d) = d

abbrev asked : Parsed
asked = record zeroed { ptr_size = 8; parms = replicate 8 8 }

run_of :
    (n : ℕ) (c : Caller)
    → (let m = call (answering n) [] 48 c open_file asked 0 in
        (m ≡ some (answer_of m))
        × ((answer_of m).0.payload ≡ some (data_of (answer_of m).0.payload)))
    → MayAnswer c
run_of n c (e, g) =
    let m = call (answering n) [] 48 c open_file asked 0 in
    (answering n, [], 48, open_file, asked, 0, answer_of m, data_of (answer_of m).0.payload, e, g)

answers_data-MayAnswer : (c : Caller) → answers_data c ≡ true → MayAnswer c
unfolding call read_bytes strlen_loop load write_native_uint write_bytes store u32_le write_up
answers_data-MayAnswer call_fd_read h = run_of 0 call_fd_read (refl, refl)
answers_data-MayAnswer call_path_buf h = run_of 0 call_path_buf (refl, refl)
answers_data-MayAnswer call_fd_buf_sz h = run_of 1 call_fd_buf_sz (refl, refl)
answers_data-MayAnswer call_fd_stat h = run_of 0 call_fd_stat (refl, refl)
answers_data-MayAnswer call_path_buf_sz h = run_of 1 call_path_buf_sz (refl, refl)
answers_data-MayAnswer call_tmpnam h = run_of 0 call_tmpnam (refl, refl)
answers_data-MayAnswer call_elapsed h = run_of 0 call_elapsed (refl, refl)
answers_data-MayAnswer call_cmdline h = run_of 0 call_cmdline (refl, refl)
answers_data-MayAnswer call_heapinfo h = run_of 0 call_heapinfo (refl, refl)
answers_data-MayAnswer _ h = cc

MayAnswer-answers_data : (c : Caller) → MayAnswer c → answers_data c ≡ true
MayAnswer-answers_data c (be, buf, size, f, p, s, r, d, e, g) = elim (Bool-cases (answers_data c)) [
  | inl h ↦ h
  | inr h ↦
      let no_data : r.0.payload ≡ none = (rw e at (call-HasNoData be buf size f p s c h)) in
      absurd (cc (g, no_data))
]

-- The wrapper reads no more than the client sends: it does the same for two requests that are alike
-- in the PARM values and DATA references of the entry.
abbrev pub ReadsSent : OpcodeEntry → Caller → Type 1
ReadsSent e c =
    (S : Type 0) (be : Backend S) (buf : Bytes) (size : ℕ) (f : Field) (p q : Parsed) (s : S)
    → Alike (sent is_parm e.params) (sent is_data e.params) p q
    → call be buf size c f p s ≡ call be buf size c f q s

abbrev pub IsAgreed : ℕ → Option OpcodeEntry → Option DispatchEntry → Type 1
IsAgreed op none none = Unit {1}
IsAgreed op (some e) (some d) =
    (e.opcode ≡ op)
    × (d.opcode ≡ op)
    × (MayAnswer d.caller ↔ (expects_data e.resp_type ≡ true))
    × ReadsSent e d.caller
IsAgreed op _ _ = ⊥ × Unit {1}

same-eq : (a b : Bool) → same a b ≡ true → a ≡ b
same-eq true true h = refl
same-eq true false h = cc
same-eq false true h = cc
same-eq false false h = refl

all_five :
    (a b c d e : Bool)
    → (a && b && c && d && e) ≡ true
    → (a ≡ true) × (b ≡ true) × (c ≡ true) × (d ≡ true) × (e ≡ true)
all_five a b c d e h = ground arith

agree-IsAgreed :
    (op : ℕ) (e : OpcodeEntry) (d : DispatchEntry)
    → agree op e d ≡ true
    → IsAgreed op (some e) (some d)
agree-IsAgreed op e d h =
    let (here, there, parms, refs, answers) =
      all_five (e.opcode == op) (d.opcode == op) (leb (parms_read d.caller) (sent is_parm e.params))
        (leb (data_read d.caller) (sent is_data e.params)) _ h in
    let level = same-eq (answers_data d.caller) (expects_data e.resp_type) answers in
    (
      ground arith,
      ground arith,
      (
        (λ may. sym level ∙ MayAnswer-answers_data d.caller may),
        (λ expects. answers_data-MayAnswer d.caller (level ∙ expects)),
      ),
      (λ S be buf size f p q s alike.
          call-Alike be buf size f p q s (sent is_parm e.params) (sent is_data e.params) d.caller
            (ground arith) (ground arith) alike),
    )

agrees-IsAgreed :
    (op : ℕ) (e : Option OpcodeEntry) (d : Option DispatchEntry)
    → agrees op e d ≡ true
    → IsAgreed op e d
agrees-IsAgreed op none none h = tt
agrees-IsAgreed op (some e) (some d) h = agree-IsAgreed op e d h
agrees-IsAgreed op none (some d) h = cc
agrees-IsAgreed op (some e) none h = cc

-- For every opcode byte, the client's table has an entry exactly when the host's has one. Both are
-- then for that opcode; the host's wrapper can answer with data, on some backend and request, exactly
-- if the client's entry expects data; and on any backend it does the same for two requests that have
-- as many PARM values as the client sends and agree in these and in the DATA references that the
-- client sends, in their numbers of DATA chunks and in the layout of integers.
pub opcode_lookup-dispatch_lookup :
    (op : ℕ) → op < 256 → IsAgreed op (opcode_lookup op) (dispatch_lookup op)
opcode_lookup-dispatch_lookup op h =
    agrees-IsAgreed op (opcode_lookup op) (dispatch_lookup op) (tables_agree op h)
