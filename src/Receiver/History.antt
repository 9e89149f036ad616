-- ===== src/Receiver/History.antt =====
-- Where the packets in the list of src/read-write/read_write_receiver.c come from: what its buffer has held,
-- and what `pkt_decode` has accepted.
use projet_trtp.Base.{
  arith, ℕ, ◌-◌, ◌^◌, ◌≡◌, subst, ap, inl, inr, refl, true, List, [], ◌∷◌, none, some, length, take,
  All, IsIn, All-IsIn,
}
use projet_trtp.Base.Bytes.{All-FirstByte, FirstByte-take, IsByte}
use projet_trtp.Packet.Struct.{Ptypes, StatusCode, ptype_data, pkt_ok, Pkt, Libs}
use projet_trtp.Packet.Access.{pkt_zero}
use projet_trtp.Packet.Encode.{encode_start}
use projet_trtp.Packet.Decode.{pkt_decode}
use projet_trtp.Packet.Total.{decode-Accepted}
use projet_trtp.Packet.Total.Spec.{Accepted}
use projet_trtp.Receiver.{overwrite}
use projet_trtp.Receiver.Answers.{answer, IsAnswer}
use projet_trtp.Receiver.Loop.{Turn, incoming, outgoing}
use projet_trtp.Receiver.Sound.{IsHeld, IsBuffer, KeepsBuffer}
use projet_trtp.Receiver.Sound.Keep.{overwrite-IsBuffer, IsBuffer-KeepsBuffer}
use projet_trtp.Receiver.Sound.Runs.{Brings}

-- A datagram of a turn consists of bytes.
abbrev pub IsTurn : Turn → Type 0
IsTurn (incoming (some datagram)) = All IsByte datagram
IsTurn (incoming none) = Unit {0}
IsTurn outgoing = Unit {0}

module _ (libs : Libs) (turns : List Turn) (start : List ℕ) where
  -- The buffer: what `malloc` found, with datagrams of the turns and encoded PTYPE_ACK and PTYPE_NACK packets
  -- written over its start.
  pub data InBuffer : List ℕ → Type 0 where
    found : InBuffer start
    read :
        (datagram old : List ℕ)
        → IsIn (incoming (some datagram)) turns
        → InBuffer old
        → InBuffer (overwrite (take 528 datagram) old)
    encoded :
        (type : Ptypes) (window seqnum timestamp : ℕ) (old : List ℕ)
        → IsAnswer type
        → InBuffer old
        → InBuffer (overwrite (encode_start libs (answer type window seqnum timestamp)) old)

  -- A PTYPE_DATA packet that `pkt_decode` accepts behind the `read` of a turn: from the buffer with the turn's
  -- datagram at its start and the datagram's length, or, where the `read` fails, from the buffer as it
  -- was, with the length that -1 becomes.
  pub data Decoded : Pkt → Type 0 where
    from_datagram :
        (datagram old : List ℕ) (pkt : Pkt)
        → IsIn (incoming (some datagram)) turns
        → InBuffer old
        → pkt_decode libs (overwrite (take 528 datagram) old) (length (take 528 datagram)) pkt_zero
          ≡ some (pkt_ok, pkt)
        → pkt.type ≡ ptype_data
        → Decoded pkt
    from_old :
        (old : List ℕ) (pkt : Pkt)
        → IsIn (incoming none) turns
        → InBuffer old
        → pkt_decode libs old (2 ^ 64 - 1) pkt_zero ≡ some (pkt_ok, pkt)
        → pkt.type ≡ ptype_data
        → Decoded pkt

  all_Brings : (t : Turn) → IsIn t turns → Brings libs Decoded InBuffer t
  all_Brings (incoming (some datagram)) i = (
    λ old b. read datagram old i b,
    λ old pkt b e kind. from_datagram datagram old pkt i b e kind,
  )
  all_Brings (incoming none) i = λ old pkt b e kind. from_old old pkt i b e kind
  all_Brings outgoing i = tt

  part_Brings :
      (ts : List Turn)
      → ((t : Turn) → IsIn t ts → IsIn t turns)
      → All (Brings libs Decoded InBuffer) ts
  part_Brings [] h = tt
  part_Brings (t ∷ ts) h = (all_Brings t (h t (inl refl)), part_Brings ts (λ u i. h u (inr i)))

  pub turns-Brings : All (Brings libs Decoded InBuffer) turns
  turns-Brings = part_Brings turns (λ t i. i)

module _ (libs : Libs) (mem : (k : ℕ) → libs.malloc k ≡ true) where
  -- What `pkt_decode` accepts is accepted, from whatever buffer.
  pub accepted-IsHeld :
      (buffer : List ℕ) (len : ℕ) (pkt : Pkt)
      → IsBuffer buffer
      → pkt_decode libs buffer len pkt_zero ≡ some (pkt_ok, pkt)
      → pkt.type ≡ ptype_data
      → IsHeld libs pkt
  accepted-IsHeld [] len pkt (size, f) e kind = absurd (omega arith)
  accepted-IsHeld (b ∷ bs) len pkt (size, f) e kind =
      let (status, pkt', e', a) = decode-Accepted libs mem b bs len f size in
      let same : (status, pkt') ≡ (pkt_ok, pkt) = cc (e, e') in
      (
        kind,
        (
          b ∷ bs,
          subst (λ (k : Pkt). Accepted libs (b ∷ bs) k) (ap (λ (r : StatusCode × Pkt). r.1) same)
              (a (ap (λ (r : StatusCode × Pkt). r.0) same)),
        ),
      )

  module _ (turns : List Turn) (start : List ℕ) (bytes : All IsTurn turns)
      (size : IsBuffer start) where
    InBuffer-IsBuffer : (old : List ℕ) → InBuffer libs turns start old → IsBuffer old
    InBuffer-IsBuffer _ found = size
    InBuffer-IsBuffer _ (read datagram old i b) =
        overwrite-IsBuffer (take 528 datagram) old
          (FirstByte-take 528 datagram
            (All-FirstByte datagram (All-IsIn IsTurn (incoming (some datagram)) turns bytes i)))
          (InBuffer-IsBuffer old b)
    InBuffer-IsBuffer _ (encoded type window seqnum timestamp old kind b) =
        (IsBuffer-KeepsBuffer libs).answered type window seqnum timestamp old kind
          (InBuffer-IsBuffer old b)

    pub InBuffer-KeepsBuffer : KeepsBuffer libs (InBuffer libs turns start)
    InBuffer-KeepsBuffer = record {
      full = InBuffer-IsBuffer;
      answered = λ type window seqnum timestamp old kind b.
          encoded type window seqnum timestamp old kind b;
    }

    pub Decoded-IsHeld : (pkt : Pkt) → Decoded libs turns start pkt → IsHeld libs pkt
    Decoded-IsHeld pkt (from_datagram datagram old _ i b e kind) =
        accepted-IsHeld (overwrite (take 528 datagram) old) (length (take 528 datagram)) pkt
          (InBuffer-IsBuffer _ (read datagram old i b)) e kind
    Decoded-IsHeld pkt (from_old old _ i b e kind) =
        accepted-IsHeld old (2 ^ 64 - 1) pkt (InBuffer-IsBuffer old b) e kind
