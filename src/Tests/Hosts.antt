-- ===== src/Tests/Hosts.antt =====
-- The host on a request in guest memory.
use semihost.Base.{
  ◌<◌, zero, suc, List, ℕ, ◌+◌, Bool, true, some, [], ◌∷◌, replicate, ◌≡◌, refl, arith,
}
use semihost.Host.{write_retn_payload}
use semihost.Host.Backend.{Field, Call, Answer, Backend, fd, close}
use semihost.Opcode.Agreement.Reads.{Alike, call-Alike}
use semihost.Host.Callers.{parm, call, call_fd, minus_one}
use semihost.Host.Confined.{OnlyResponses, write_retn_payload-Yields}
use semihost.Memory.{Yields}
use semihost.Riff.Parse.{Parsed, zeroed}
use semihost.Riff.Parse.Safety.{IsParsed}
use semihost.Tests.{host}

-- A backend that closes files and fails at everything else, with the number of calls as its state
abbrev answer : Call → ℕ → Answer
answer (fd f n) size = record { result = 0; out = replicate size 0; values = [] }
answer _ size = record { result = minus_one; out = replicate size 0; values = [] }

abbrev closing : (Field → Bool) → Backend ℕ
closing has = record {
  has = has;
  run = λ c buf size s. (answer c size, s + 1);
  errno = λ s. (9, s);
}

abbrev all_fields : Field → Bool
all_fields f = true

-- A request whose RETN chunk has room for the result alone
abbrev parsed_close : Parsed
parsed_close = record zeroed {
  has_retn = true;
  retn_payload_offset = 60;
  retn_payload_capacity = 8;
  has_erro = true;
  erro_payload_offset = 76;
  erro_payload_capacity = 64;
}

parsed_close-IsParsed : IsParsed 140 parsed_close
parsed_close-IsParsed = ground arith

-- Data for which there is no room
write_retn_payload-Yields_example :
    Yields
      (OnlyResponses (λ w. ⊥) 4096 parsed_close)
      (write_retn_payload host 4096 parsed_close 7 0 (some (1 ∷ 2 ∷ 3 ∷ [])))
write_retn_payload-Yields_example =
    write_retn_payload-Yields 4096 140 (omega arith) parsed_close parsed_close-IsParsed (λ w. ⊥)
      host 7 0 (some (1 ∷ 2 ∷ 3 ∷ [])) (omega arith) (omega arith) tt

-- Two requests with two PARM values, one of which has a third value behind them
abbrev with_parms : List ℕ → Parsed
with_parms vs = record zeroed { has_call = true; opcode = 2; parm_count = 2; parms = vs }

alike : Alike 2 0 (with_parms (5 ∷ 6 ∷ [])) (with_parms (5 ∷ 6 ∷ 7 ∷ []))
alike = record {
  same_parms = λ i h. below i h;
  same_data = λ i h. refl;
  first_count = refl;
  second_count = refl;
  same_data_count = refl;
  same_ptr_size = refl;
  same_endianness = refl;
}
  where
    below :
        (i : ℕ) → i < 2 → parm (with_parms (5 ∷ 6 ∷ [])) i ≡ parm (with_parms (5 ∷ 6 ∷ 7 ∷ [])) i
    below zero h = refl
    below (suc zero) h = refl
    below (suc (suc i)) h = absurd (omega arith)

call-Alike_example :
    call (closing all_fields) (replicate 8 0) 8 call_fd close (with_parms (5 ∷ 6 ∷ [])) 3
    ≡ call (closing all_fields) (replicate 8 0) 8 call_fd close (with_parms (5 ∷ 6 ∷ 7 ∷ [])) 3
call-Alike_example =
    call-Alike (closing all_fields) (replicate 8 0) 8 close (with_parms (5 ∷ 6 ∷ []))
      (with_parms (5 ∷ 6 ∷ 7 ∷ [])) 3 2 0 call_fd (omega arith) (omega arith) alike
