-- ===== src/P9/Files/Endless.antt =====
-- do_read of src/c/zbc_transport_9p.c at counts of 2 ^ 32 and its multiples.
use semihost.Base.{ℕ, zero, suc, ◌+◌, ◌-◌, ◌*◌, ◌%◌, ◌^◌, ◌≤◌, ◌<◌, not, ltb, some, ◌≡◌, arith, ◌≢◌}
use semihost.P9.Files.{read_round, read_loop, do_read}
use semihost.P9.Rpc.{Device}
use semihost.P9.Session.{Session, next}
use semihost.P9.Session.Ends.{
  HandsOn, Ends, Ends-bind, Ends-bind_of, Ends-pure, Ends-gets, Ends-none, Ends-if, Ends-guard,
}
use semihost.Riff.{Rc, parse_error}

module _ (dev : Device) where
  -- A round that asks for nothing gets nothing.
  read_round-Ends : (slot asked got : ℕ) → Ends (λ cnt. cnt ≤ asked) (read_round dev slot asked got)
  unfolding read_round
  read_round-Ends slot asked got = Ends-bind _ _ λ offset. Ends-bind _ _ λ r.
      Ends-bind _ _ λ reader. Ends-bind _ _ λ cnt. Ends-guard (ltb asked cnt.0) parse_error _ λ few.
        Ends-bind _ _ λ p.
          Ends-guard ((p.1).truncated) parse_error _
            λ _. Ends-bind _ _ λ _. Ends-bind _ _ λ _. Ends-pure cnt.0 (ground arith)

  read_loop-Ends :
      (fuel slot count got : ℕ)
      → got < count
      → (count - got) % 2 ^ 32 ≡ 0
      → Ends (λ _. ⊥) (read_loop dev fuel slot count got)
  unfolding read_loop
  read_loop-Ends zero slot count got more full = Ends-none
  read_loop-Ends (suc fuel) slot count got more full =
      Ends-if (not (ltb got count)) _ _ (λ e. absurd (ground arith))
        λ _.
          Ends-bind_of {Q = λ asked. asked ≡ 0} _ _ (Ends-gets _ λ s. ground arith)
            λ asked none_asked. Ends-bind_of _ _ (read_round-Ends slot asked got) λ cnt less.
              let nothing : cnt ≡ 0 = omega arith in
              Ends-if (ltb cnt asked) _ _ (λ e. absurd (ground arith))
                λ _. read_loop-Ends fuel slot count (got + cnt) (omega arith) (omega arith)

  do_read-Ends : (fuel fd i : ℕ) → Ends (λ _. ⊥) (do_read dev fuel fd (2 ^ 32 * suc i))
  unfolding do_read
  do_read-Ends fuel fd i = Ends-bind _ _ λ slot.
      Ends-bind_of _ _ (read_loop-Ends fuel slot (2 ^ 32 * suc i) 0 (omega arith) (omega arith))
        λ got bad. absurd bad

  -- A read of a multiple of 2 ^ 32 bytes, more than none, never gets to its end: whatever the device
  -- answers, and however many rounds are made, do_read does not come to the return behind its loop,
  -- where it fills in the response for the bytes read.
  pub do_read-ne-next :
      (fuel fd i : ℕ) (s after : Session) (rc : Rc)
      → do_read dev fuel fd (2 ^ 32 * suc i) s ≢ some (next rc, after)
  do_read-ne-next fuel fd i s after rc e =
      let bad : HandsOn (λ _. ⊥) (do_read dev fuel fd (2 ^ 32 * suc i) s) =
        (do_read-Ends fuel fd i).at s in
      rw e at bad
