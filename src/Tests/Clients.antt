-- ===== src/Tests/Clients.antt =====
-- The client's builder and parser.
use semihost.Base.{
  ℕ, ◌+◌, ◌<◌, ◌≤◌, ◌^◌, ◌⊎◌, inl, true, Option, some, [], ◌∷◌, replicate, ◌≡◌, refl, arith,
}
use semihost.Client.{retn_capacity}
use semihost.Client.Capacity.{needed-retn_capacity}
use semihost.Client.Cnfg.{build_request-cnfg_sent}
use semihost.Client.Request.{
  build_request, Draft, riff_write_hdr, ◌on_ok◌, write_cnfg_if_needed, chunk_write_hdr, write_call,
  write_params, write_param, write_parm_chunk, write_prealloc, finish_request,
}
use semihost.Native.{write_native_uint, write_up}
use semihost.Client.Response.{parse_response}
use semihost.Client.Response.Safety.{IsResponse, parse_response-Yields}
use semihost.Client.Safety.{IsBuilt, build_request-Yields}
use semihost.Host.{needed}
use semihost.Memory.{IsBytes, is_bytes-IsBytes, Yields, store, load, write_bytes}
use semihost.Opcode.{
  OpcodeEntry, opcode_lookup, sys_close, parm_int, parm_uint, unused, int, data_bytes,
}
use semihost.Riff.{Rc, ok, buffer_full}
use semihost.Tests.{fresh, request}
use semihost.Word.{read_u32_le, make_fourcc, u32_le, write_u32_le, pad_size}

-- The table's entries for SYS_CLOSE and SYS_READ
abbrev close_entry : OpcodeEntry
close_entry = record {
  opcode = 2;
  arg_count = 1;
  params =
      record { type = parm_int; slot = 0; len_slot = 0 }
      ∷ record { type = unused; slot = 0; len_slot = 0 }
      ∷ record { type = unused; slot = 0; len_slot = 0 }
      ∷ record { type = unused; slot = 0; len_slot = 0 }
      ∷ [];
  resp_type = int;
  resp_dest = 0;
  resp_len_slot = 0;
}

close_found : opcode_lookup sys_close ≡ some close_entry
unfolding opcode_lookup
close_found = refl

abbrev built : Option (Rc × Draft)
built = build_request [] (replicate 140 255) 140 fresh close_entry (some (5 ∷ []))

built-request :
    built
    ≡ some (ok, record { buf = request; pos = 140; state = record (fresh) { cnfg_sent = true } })
unfolding build_request riff_write_hdr write_u32_le write_bytes u32_le store ◌on_ok◌
    write_cnfg_if_needed chunk_write_hdr write_call write_params write_param write_parm_chunk
    pad_size write_native_uint write_up retn_capacity write_prealloc finish_request make_fourcc
built-request = refl

build_request-Yields_example :
    Yields
      (IsBuilt 140 140)
      (build_request [] (replicate 140 255) 140 fresh close_entry (some (5 ∷ [])))
build_request-Yields_example =
    build_request-Yields [] (replicate 140 255) 140 fresh close_entry (some (5 ∷ [])) (omega arith)
      (omega arith) (omega arith) (omega arith) (omega arith) (tt, (tt, (tt, (tt, tt)))) (λ e. cc)

build_request-cnfg_sent_example :
    Yields
      (λ r. (r.0 ≡ buffer_full) × (r.1.state.cnfg_sent ≡ true))
      (build_request [] (replicate 30 255) 30 fresh close_entry (some (5 ∷ [])))
build_request-cnfg_sent_example =
    build_request-cnfg_sent [] (replicate 30 255) 30 fresh close_entry (some (5 ∷ [])) (omega arith)
      (omega arith) (omega arith) refl

request-IsBytes : IsBytes request
request-IsBytes = is_bytes-IsBytes request refl

request_size : read_u32_le request 4 ≡ some 132
unfolding read_u32_le load make_fourcc
request_size = refl

request_no_wrap : (size : ℕ) → read_u32_le request 4 ≡ some size → size + 8 < 2 ^ 32 ⊎ 140 < 12
request_no_wrap size h = let e : size ≡ 132 = cc (h, request_size) in inl (omega arith)

parse_response-Yields_example : Yields (λ r. IsResponse 140 r.1) (parse_response request 140 fresh)
parse_response-Yields_example =
    parse_response-Yields request 140 fresh request-IsBytes (omega arith) request_no_wrap

-- SYS_READ's entry: its response carries up to as many bytes as its third slot says.
abbrev read_entry : OpcodeEntry
read_entry = record {
  opcode = 6;
  arg_count = 3;
  params =
      record { type = parm_int; slot = 0; len_slot = 0 }
      ∷ record { type = parm_uint; slot = 2; len_slot = 0 }
      ∷ [];
  resp_type = data_bytes;
  resp_dest = 1;
  resp_len_slot = 2;
}

needed-retn_capacity_example : needed 4 (some (replicate 7 1)) ≤ 30
unfolding retn_capacity pad_size
needed-retn_capacity_example =
    needed-retn_capacity read_entry fresh (5 ∷ 8192 ∷ 9 ∷ []) (some (replicate 7 1)) 30
      (omega arith) (omega arith) (λ n h. let e : n ≡ 9 = cc h in omega arith) (omega arith) refl
