-- ===== src/Client/Cnfg.antt =====
-- The configuration chunk's flag in build_request, src/c/zbc_client.c.
use semihost.Base.{ℕ, ◌+◌, ◌<◌, ◌≤◌, true, false, Option, List, ◌≡◌, refl, arith, length, ltb}
use semihost.Client.{ClientState}
use semihost.Client.Build.{chunk_write_hdr-Yields}
use semihost.Client.Request.{
  Draft, Step, ◌on_ok◌, chunk_write_hdr, riff_write_hdr, write_cnfg_if_needed, write_call,
  build_request,
}
use semihost.Client.Safety.{riff_write_hdr-Yields}
use semihost.Memory.{Bytes, Yields, Yields-bind, write_bytes}
use semihost.Native.Writes.{HasLength, write_bytes-Yields}
use semihost.Opcode.{OpcodeEntry}
use semihost.Riff.{Rc, ok, buffer_full, id_semi, id_cnfg, cnfg_payload_size, riff_hdr_size}
use semihost.Word.{u64}

-- An error ends a chain of steps, with what it left.
abbrev Stopped : Rc × Draft → Type 0
Stopped r = (r.0 ≡ buffer_full) × (r.1.state.cnfg_sent ≡ true)

abbrev Sent : Rc × Draft → Type 0
Sent r = (r.0 ≡ ok) × (r.1.state.cnfg_sent ≡ true) × (r.1.pos ≡ 24)

stop-on_ok : (m : Step) (f : Draft → Step) → Yields Stopped m → Yields Stopped (m on_ok f)
unfolding ◌on_ok◌
stop-on_ok m f h = Yields-bind Stopped Stopped m _ h λ r (e, s). rw e (refl, s)

Sent-on_ok :
    (m : Step) (f : Draft → Step)
    → Yields Sent m
    → ((d : Draft) → d.state.cnfg_sent ≡ true → d.pos ≡ 24 → Yields Stopped (f d))
    → Yields Stopped (m on_ok f)
unfolding ◌on_ok◌
Sent-on_ok m f h k = Yields-bind Sent Stopped m _ h λ r (e, s, p). rw e (k r.1 s p)

write_cnfg-Sent :
    (capacity : ℕ) (b : Bytes) (state : ClientState)
    → 24 ≤ capacity
    → capacity ≤ length b
    → state.cnfg_sent ≡ false
    → Yields Sent (write_cnfg_if_needed capacity (record { buf = b; pos = 12; state = state }))
unfolding write_cnfg_if_needed
write_cnfg-Sent capacity b state room fits fresh =
    let enough : ltb capacity (u64 24) ≡ false = ground arith in
    rw (fresh, enough)
      (Yields-bind (HasLength (length b)) Sent (chunk_write_hdr b 12 id_cnfg cnfg_payload_size) _
        (chunk_write_hdr-Yields b 12 id_cnfg cnfg_payload_size (omega arith))
        λ c l.
          Yields-bind (HasLength (length c)) Sent (write_bytes c 20 _) _
            (write_bytes-Yields c 20 _ (omega arith)) λ d m. (refl, refl, refl))

write_call_full :
    (mem : Bytes) (capacity : ℕ) (entry : OpcodeEntry) (args : Option (List ℕ)) (d : Draft)
    → capacity < 36
    → d.state.cnfg_sent ≡ true
    → d.pos ≡ 24
    → Yields Stopped (write_call mem capacity entry args d)
unfolding write_call
write_call_full mem capacity entry args d short sent at =
    let full : ltb capacity (u64 (d.pos + 8 + 4)) ≡ true = ground arith in rw full (refl, sent)

-- A request with a capacity of 24 to 35 bytes, within the buffer, from a client that has not sent
-- its configuration fails for lack of space, and yet marks the configuration as sent.
pub build_request-cnfg_sent :
    (mem buf : Bytes) (capacity : ℕ) (state : ClientState) (entry : OpcodeEntry)
    (args : Option (List ℕ))
    → capacity ≤ length buf
    → 24 ≤ capacity
    → capacity < 36
    → state.cnfg_sent ≡ false
    → Yields
        (λ r. (r.0 ≡ buffer_full) × (r.1.state.cnfg_sent ≡ true))
        (build_request mem buf capacity state entry args)
unfolding build_request
build_request-cnfg_sent mem buf capacity state entry args fits room short fresh =
    let header : ltb capacity riff_hdr_size ≡ false = ground arith in
    rw header (
      Yields-bind (HasLength (length buf)) Stopped (riff_write_hdr buf 0 id_semi) _
        (riff_write_hdr-Yields buf 0 id_semi (omega arith))
        λ b l. stop-on_ok _ _ (
          Sent-on_ok _ _ (write_cnfg-Sent capacity b state room (omega arith) fresh)
            λ d s p. write_call_full mem capacity entry args d short s p))
