-- ===== src/P9/Files/Counts.antt =====
-- What do_read and do_write of src/c/zbc_transport_9p.c count, and where they leave the position.
use semihost.Base.{
  ℕ, zero, suc, ◌+◌, ◌-◌, ◌≤◌, not, ltb, if◌then◌else◌, some, List, drop, ◌≡◌, refl, sym, subst,
  arith,
}
use semihost.Memory.{Bytes}
use semihost.P9.Files.{
  round_size, succeed, read_round, read_loop, do_read, write_round, write_loop, do_write,
}
use semihost.P9.Files.Handles.{EndsWith, IsOpen, fd_slot-IsOpen, then_ends, open_slot_ends}
use semihost.P9.Files.Moves.{
  IsMoved, IsMoved-start, IfEnds-if, Counted, read_round_ends, write_round_ends,
}
use semihost.P9.Rpc.{Device}
use semihost.P9.Session.{
  Session, Handle, P9, ◌>>=◌, pure, gets, modify, access, p9_fill_response, give_data,
}
use semihost.P9.Session.Ends.{IfEnds}
use semihost.Riff.{Rc, ok}
use semihost.Word.{u32}

-- What a loop over rounds hands on: the bytes of all its rounds
abbrev Summed : List Handle → ℕ → ℕ → ℕ → Session → Type 0
Summed files slot count got u = (got ≤ count) × IsMoved slot got files u.files

size_ends :
    (files : List Handle) (slot count got : ℕ) (t : Session)
    → IsMoved slot got files t.files
    → IfEnds
        (EndsWith files (λ n u. (n ≤ count - got) × IsMoved slot got files u.files))
        (gets (λ s. round_size s.msize (count - got)) t)
unfolding gets
size_ends files slot count got t here = (omega arith, here)

pure_ends :
    (files : List Handle) (slot count got : ℕ) (t : Session)
    → Summed files slot count got t
    → IfEnds (EndsWith files (Summed files slot count)) (pure got t)
unfolding pure
pure_ends files slot count got t h = h

-- The body of a loop, by its round and by the loop that follows it
body_ends :
    (files : List Handle) (slot count got : ℕ) (round : ℕ → P9 ℕ) (rest : ℕ → P9 ℕ) (t : Session)
    → Summed files slot count got t
    → ((n : ℕ) (u : Session)
        → IsMoved slot got files u.files
        → IfEnds (EndsWith files (Counted files slot got n)) (round n u))
    → ((cnt : ℕ) (u : Session)
        → Summed files slot count (got + cnt) u
        → IfEnds (EndsWith files (Summed files slot count)) (rest cnt u))
    → IfEnds (EndsWith files (Summed files slot count)) (
        (gets (λ s. round_size s.msize (count - got)) >>= λ n.
        round n >>= λ cnt. if ltb cnt n then pure (got + cnt) else rest cnt)
          t)
body_ends files slot count got round rest t (inside, here) h g =
    then_ends files (λ n u. (n ≤ count - got) × IsMoved slot got files u.files)
      (Summed files slot count) _ _ t (size_ends files slot count got t here)
      λ n u (size, moved).
        then_ends files (Counted files slot got n) (Summed files slot count) (round n) _ u
          (h n u moved)
          λ cnt v (few, at).
            let sum : Summed files slot count (got + cnt) v = (omega arith, at) in
            IfEnds-if (EndsWith files (Summed files slot count)) (ltb cnt n) _ _ v
              (λ _. pure_ends files slot count (got + cnt) v sum) λ _. g cnt v sum

module _ (dev : Device) (files : List Handle) (slot count : ℕ) where
  read_loop_ends :
      (fuel got : ℕ) (t : Session)
      → Summed files slot count got t
      → IfEnds (EndsWith files (Summed files slot count)) (read_loop dev fuel slot count got t)
  unfolding read_loop
  read_loop_ends zero got t h = unfold access in tt
  read_loop_ends (suc fuel) got t h =
      IfEnds-if (EndsWith files (Summed files slot count)) (not (ltb got count)) _ _ t
        (λ _. pure_ends files slot count got t h)
        λ _.
          body_ends files slot count got (λ n. read_round dev slot n got)
            (λ cnt. read_loop dev fuel slot count (got + cnt)) t h
            (λ n. read_round_ends dev files slot got n got) λ cnt. read_loop_ends fuel (got + cnt)

  write_loop_ends :
      (fuel : ℕ) (src : Bytes) (got : ℕ) (t : Session)
      → Summed files slot count got t
      → IfEnds (EndsWith files (Summed files slot count)) (write_loop dev fuel slot count src got t)
  unfolding write_loop
  write_loop_ends zero src got t h = unfold access in tt
  write_loop_ends (suc fuel) src got t h =
      IfEnds-if (EndsWith files (Summed files slot count)) (not (ltb got count)) _ _ t
        (λ _. pure_ends files slot count got t h)
        λ _.
          body_ends files slot count got (λ n. write_round dev slot n (drop got src))
            (λ cnt. write_loop dev fuel slot count src (got + cnt)) t h
            (λ n. write_round_ends dev files slot got n (drop got src))
            λ cnt. write_loop_ends fuel src (got + cnt)

-- What a transfer of `count` bytes leaves: the bytes not transferred are the result, and the
-- position has moved by the others.
abbrev pub IsTransferred : ℕ → ℕ → ℕ → Session → Rc → Session → Type 0
IsTransferred fd count done s rc t =
    (rc ≡ ok)
    × (done ≤ count)
    × ((t.response).result ≡ u32 (count - done))
    × ((t.response).error_code ≡ 0)
    × (slot : ℕ) × IsOpen fd slot s
    × IsMoved slot done s.files t.files

-- As much data as was read
abbrev pub IsRead : ℕ → ℕ → Session → Rc → Session → Type 0
IsRead fd count s rc t =
    (got : ℕ) × ((t.response).data_ptr ≡ some 0)
    × ((t.response).data_size ≡ got)
    × IsTransferred fd count got s rc t

abbrev pub IsWritten : ℕ → ℕ → Session → Rc → Session → Type 0
IsWritten fd count s rc t = (written : ℕ) × IsTransferred fd count written s rc t

IsMoved-from : (slot : ℕ) (before now : List Handle) → now ≡ before → IsMoved slot 0 before now
IsMoved-from slot before now e = subst (IsMoved slot 0 before) (sym e) (IsMoved-start slot before)

give_data_ends :
    (fd count slot got : ℕ) (s u : Session)
    → IsOpen fd slot s
    → Summed s.files slot count got u
    → IfEnds
        (EndsWith s.files (IsRead fd count s))
        ((p9_fill_response (u32 (count - got)) 0 >>= λ _. give_data got >>= λ _. pure ok) u)
unfolding ◌>>=◌ p9_fill_response give_data modify pure
give_data_ends fd count slot got s u is (inside, here) =
    (got, refl, refl, (refl, inside, refl, refl, slot, is, here))

succeed_ends :
    (fd count slot written : ℕ) (s u : Session)
    → IsOpen fd slot s
    → Summed s.files slot count written u
    → IfEnds (EndsWith s.files (IsWritten fd count s)) (succeed (u32 (count - written)) u)
unfolding succeed ◌>>=◌ p9_fill_response modify pure
succeed_ends fd count slot written s u is (inside, here) =
    (written, (refl, inside, refl, refl, slot, is, here))

module _ (dev : Device) (fuel fd count : ℕ) (s : Session) where
  -- However do_read ends: if it comes to its end, it returns ZBC_OK, the descriptor is 3 and the slot
  -- of a handle in use, at most `count` bytes were counted, the response's data is the caller's
  -- buffer with that number as its size, the result is the number not read, cut to 32 bits, the
  -- position of that handle has moved on by the bytes counted, modulo 2 ^ 64, and no other handle has
  -- changed. If it returns early, as it does when a round fails, only the open files are stated: they
  -- are the same, while the position may have moved by earlier rounds.
  pub do_read-IsRead : IfEnds (EndsWith s.files (IsRead fd count s)) (do_read dev fuel fd count s)
  unfolding do_read
  do_read-IsRead =
      then_ends s.files _ (IsRead fd count s) _ _ s (open_slot_ends dev fd s) λ slot t (is, e).
        then_ends s.files (Summed s.files slot count) (IsRead fd count s) _ _ t
          (read_loop_ends dev s.files slot count fuel 0 t
            (omega arith, IsMoved-from slot s.files t.files e))
          λ got u h. give_data_ends fd count slot got s u (fd_slot-IsOpen fd slot s is) h

  -- However do_write ends: if it comes to its end, it returns ZBC_OK, the descriptor is 3 and the
  -- slot of a handle in use, at most `count` bytes were counted, the result is the number not
  -- written, cut to 32 bits, the position of that handle has moved on by the bytes counted, modulo
  -- 2 ^ 64, and no other handle has changed. If it returns early, as it does when a round fails, only
  -- the open files are stated: they are the same, while the position may have moved.
  pub do_write-IsWritten :
      (src : Bytes)
      → IfEnds (EndsWith s.files (IsWritten fd count s)) (do_write dev fuel fd src count s)
  unfolding do_write
  do_write-IsWritten src =
      then_ends s.files _ (IsWritten fd count s) _ _ s (open_slot_ends dev fd s) λ slot t (is, e).
        then_ends s.files (Summed s.files slot count) (IsWritten fd count s) _ _ t
          (write_loop_ends dev s.files slot count fuel src 0 t
            (omega arith, IsMoved-from slot s.files t.files e))
          λ written u h. succeed_ends fd count slot written s u (fd_slot-IsOpen fd slot s is) h
