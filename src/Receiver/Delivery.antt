-- ===== src/Receiver/Delivery.antt =====
-- What the receiver of src/read-write/read_write_receiver.c delivers, over a whole run.
use projet_trtp.Base.{
  append_nil, ℕ, ◌+◌, ◌%◌, ◌≡◌, ◌≢◌, refl, sym, subst, ◌∙◌, ap, Bool, true, List, [], ◌++◌, some,
  length, take, All,
}
use projet_trtp.Packet.Struct.{Pkt, Libs}
use projet_trtp.Packet.Access.{pkt_get_payload}
use projet_trtp.Packet.Decode.{payload_bytes}
use projet_trtp.Receiver.{World, Receiver, initial}
use projet_trtp.Receiver.Loop.{Turn, read_write_receiver}
use projet_trtp.Receiver.Flushes.{WritesAll, take-length}
use projet_trtp.Receiver.History.{
  IsTurn, InBuffer, found, Decoded, turns-Brings, InBuffer-KeepsBuffer, Decoded-IsHeld,
}
use projet_trtp.Receiver.Sound.{IsWindow, IsBuffer}
use projet_trtp.Receiver.Sound.Runs.{KeptByWrite, KeptByEnd, initial-Goes}

-- The bytes of the file that a packet carries.
abbrev pub IsContent : Pkt → List ℕ → Type 0
IsContent pkt own =
    (pkt.length ≡ 0 → own ≡ [])
    × (pkt.length ≢ 0 → payload_bytes pkt.length (pkt_get_payload pkt) ≡ some own)

-- The delivered bytes are the contents of packets that `pkt_decode` has accepted in these turns, with the
-- numbers 0, 1, 2 and so on, without a gap and each once, going round at 256; the next number is the first
-- index.
pub data Delivered (libs : Libs) (turns : List Turn) (buffer : List ℕ) : ℕ → List ℕ → Type 0 where
  start : Delivered libs turns buffer 0 []
  deliver :
      (pkt : Pkt) (head : ℕ) (output own : List ℕ)
      → Decoded libs turns buffer pkt
      → head ≡ pkt.seqnum
      → IsContent pkt own
      → Delivered libs turns buffer head output
      → Delivered libs turns buffer ((head + 1) % 256) (output ++ own)

module _ (world : World) (turns : List Turn) (buffer : List ℕ) where
  abbrev Origin : Pkt → Type 0
  Origin pkt = Decoded world.libs turns buffer pkt

  abbrev Output : ℕ → List ℕ → Type 0
  Output head output = Delivered world.libs turns buffer head output

  kept_by_write : WritesAll world → KeptByWrite world Origin Output
  kept_by_write all pkt head output own n held here more e taken q =
      let size : length own ≡ n = cc (all output own, taken) in
      subst (λ (l : List ℕ). Output ((head + 1) % 256) (output ++ l))
        (sym (take-length own) ∙ ap (λ (k : ℕ). take k own) size)
        (deliver pkt head output own held here ((λ empty. absurd (more empty)), λ _. e) q)

  kept_by_end : KeptByEnd Origin Output (λ _ _. Unit {0})
  kept_by_end pkt head output held here empty q = (
    subst (λ (l : List ℕ). Output ((head + 1) % 256) l) (append_nil output)
        (deliver pkt head output [] held here ((λ _. refl), λ more. absurd (more empty)) q),
    tt,
  )

-- Where `malloc` succeeds and the buffer has 528 bytes, no sequence of datagrams, failed reads,
-- failed writes and failed sends makes the receiver go wrong: it never reads outside its buffer or a
-- payload, and what it is left with has a sequence number below 256 at the window's head, a window of
-- 1 to 31 places, and a list of PTYPE_DATA packets each of which `pkt_decode` accepts behind the `read` of a
-- turn, from a buffer over whose first contents nothing has been written but datagrams of the turns and
-- encoded PTYPE_ACK and PTYPE_NACK packets.
pub read_write_receiver-IsWindow :
    (world : World) (turns : List Turn) (buffer : List ℕ)
    → ((k : ℕ) → world.libs.malloc k ≡ true)
    → All IsTurn turns
    → IsBuffer buffer
    → (eof_wrote : Bool) × (s : Receiver) × (read_write_receiver world turns (initial buffer)
        ≡ some (eof_wrote, s))
      × IsWindow (Decoded world.libs turns buffer) s.window
read_write_receiver-IsWindow world turns buffer mem h b =
    let (eof_wrote, s, e, v, done) =
      initial-Goes world mem (Decoded world.libs turns buffer)
        (Decoded-IsHeld world.libs mem turns buffer h b) (InBuffer world.libs turns buffer)
        (InBuffer-KeepsBuffer world.libs mem turns buffer h b) (λ _ _. Unit {0}) (λ _ _. Unit {0})
        (λ _ _ _ _ _ _ _ _ _ _ _. tt) (λ _ _ _ _ _ _ _. (tt, tt)) (λ _ _ _ _ _. tt) turns buffer
        (turns-Brings world.libs turns buffer) found tt in
    (eof_wrote, s, e, v.0)

-- Where `malloc` succeeds, the buffer has 528 bytes and a write to the standard output takes all its
-- bytes, then after any sequence of turns, with datagrams lost, doubled, changed or out of order, the
-- receiver is defined, and the standard output holds the contents of PTYPE_DATA packets each of which
-- `pkt_decode` accepts behind the `read` of a turn, from a buffer over whose first contents nothing has
-- been written but datagrams of the turns and encoded PTYPE_ACK and PTYPE_NACK packets. Their numbers run
-- from 0 on, one by one and round at 256, without a gap or a repetition; the number at the window's head
-- is the next one.
pub read_write_receiver-Delivered :
    (world : World) (turns : List Turn) (buffer : List ℕ)
    → ((k : ℕ) → world.libs.malloc k ≡ true)
    → WritesAll world
    → All IsTurn turns
    → IsBuffer buffer
    → (eof_wrote : Bool) × (s : Receiver) × (read_write_receiver world turns (initial buffer)
        ≡ some (eof_wrote, s))
      × Delivered world.libs turns buffer s.window.seqnum_head s.output
read_write_receiver-Delivered world turns buffer mem all h b =
    let (eof_wrote, s, e, v, done) =
      initial-Goes world mem (Decoded world.libs turns buffer)
        (Decoded-IsHeld world.libs mem turns buffer h b) (InBuffer world.libs turns buffer)
        (InBuffer-KeepsBuffer world.libs mem turns buffer h b) (Delivered world.libs turns buffer)
        (λ _ _. Unit {0}) (kept_by_write world turns buffer all) (kept_by_end world turns buffer)
        (λ _ _ _ _ _. tt) turns buffer (turns-Brings world.libs turns buffer) found start in
    (eof_wrote, s, e, v.1.1)
