-- ===== src/Sender/Sound.antt =====
-- The invariant of the sender of src/read-write/read_write_sender.c without FEC: what its list holds and
-- what it has sent is of the file.
pub mod Resent
pub mod Acked
pub mod Writes
pub mod Reads
pub mod Runs
use projet_trtp.Base.{
  true, false, ◌+◌, ℕ, ◌%◌, ap, ◌^◌, ◌≤◌, ◌<◌, ◌≡◌, ◌≢◌, ◌⊎◌, inl, inr, refl, subst, sym, Bool,
  true, false, List, [], ◌∷◌, ◌++◌, some, length, All, arith,
}
use projet_trtp.Packet.Struct.{ptype_data, pkt_ok, Pkt, Libs}
use projet_trtp.Packet.Encode.{pkt_encode}
use projet_trtp.Packet.Decode.Steps.{fields}
use projet_trtp.Packet.RoundTrip.{decode-encode}
use projet_trtp.Packet.RoundTrip.Final.{final_out, final_trip}
use projet_trtp.Receiver.Sound.{IsBuffer}
use projet_trtp.Sender.{System, Sender}
use projet_trtp.Sender.Pieces.{piece}
use projet_trtp.Sender.Pieces.Filled.{IsPiece}

-- The packet with which the file ends; `E` holds of its number.
abbrev pub IsEnd : (E : ℕ → Type 0) → Pkt → Type 0
IsEnd E pkt =
    (window timestamp seqnum : ℕ) × (window ≤ 31)
    × (timestamp < 2 ^ 32)
    × (seqnum < 256)
    × E seqnum
    × (pkt ≡ fields ptype_data 0 window 0 seqnum 0 0 timestamp)

abbrev pub IsOurs : System → (E : ℕ → Type 0) → Pkt → Type 0
IsOurs system E pkt = ((number : ℕ) × IsPiece system number pkt) ⊎ IsEnd E pkt

-- A datagram that is such a packet, as `pkt_encode` writes it.
abbrev pub IsOut : System → (E : ℕ → Type 0) → List ℕ → Type 0
IsOut system E out =
    (pkt : Pkt) × IsOurs system E pkt × (pkt_encode system.libs pkt 528 ≡ some (pkt_ok, out))

-- What the loop keeps: the window has 1 to 31 places, and at most `w`; the list and the datagrams sent are
-- of the file; the buffer is there; and `K` holds of `seqnumTail`, `global_pkt`, `eof_reached` and
-- `lastPkt`.
pub record Parts (system : System) (E : ℕ → Type 0)
    (K : (tail global : ℕ) (eof last : Bool) → Type 0) (w windowsize : ℕ) (list : List Pkt)
    (sent : List (List ℕ)) (copybuf : List ℕ) (tail global : ℕ) (eof last : Bool) : Type 0 where
  pub low : 1 ≤ windowsize
  pub high : windowsize ≤ 31
  pub bound : windowsize ≤ w
  pub pkts : All (IsOurs system E) list
  pub outs : All (IsOut system E) sent
  pub buffer : IsBuffer copybuf
  pub state : K tail global eof last

abbrev pub IsSender :
    System
    → (E : ℕ → Type 0) → (K : (tail global : ℕ) (eof last : Bool) → Type 0) → (w : ℕ) → Sender
    → Type 0
IsSender system E K w s =
    Parts system E K w s.window.windowsize s.window.list s.sent s.copybuf s.window.seqnum_tail
      s.global_pkt s.eof_reached s.last_pkt

-- The invariant, with something in the list.
abbrev pub IsBusy :
    System
    → (E : ℕ → Type 0) → (K : (tail global : ℕ) (eof last : Bool) → Type 0) → (w : ℕ) → Sender
    → Type 0
IsBusy system E K w s = IsSender system E K w s × (s.window.list ≢ [])

-- The last packet is not out unless something is in the list.
abbrev pub IsOpen : Sender → Type 0
IsOpen s = s.last_pkt ≡ true → s.window.list ≢ []

-- The file may end: `send_final_pkt` moves `seqnumTail` on to the number of its packet.
abbrev pub LetsEnd : (E : ℕ → Type 0) → (K : (tail global : ℕ) (eof last : Bool) → Type 0) → Type 0
LetsEnd E K =
    (tail global : ℕ) (eof last : Bool)
    → eof ≡ true
    → last ≡ false
    → K tail global eof last
    → E ((tail + 1) % 256) × K ((tail + 1) % 256) global eof true

module _ (system : System) (mem : (k : ℕ) → system.libs.malloc k ≡ true) (E : ℕ → Type 0) where
  -- Every packet of the file can be encoded.
  pub IsOurs-encode :
      (pkt : Pkt)
      → IsOurs system E pkt
      → (out : List ℕ) × (pkt_encode system.libs pkt 528 ≡ some (pkt_ok, out))
  IsOurs-encode pkt (inl (number, (window, timestamp, bytes, hw, ht, e, full, fits, same))) =
      let (out, encoded, size, d) =
        decode-encode system.libs mem (piece window (number % 256) timestamp bytes) bytes []
          (record { window = omega arith; tr = refl; seqnum = omega arith; timestamp = ht })
          (refl, refl, full, fits) in
      (out, rw same encoded)
  IsOurs-encode pkt (inr (window, timestamp, seqnum, hw, ht, hs, he, same)) = (
    final_out system.libs mem window seqnum 0 0 timestamp [] (omega arith) ht,
    rw same (final_trip system.libs mem window seqnum 0 0 timestamp [] (omega arith) ht).0,
  )

  -- So it is with another timestamp.
  pub IsOurs-timestamp :
      (pkt : Pkt) (time : ℕ)
      → time < 2 ^ 32
      → IsOurs system E pkt
      → IsOurs system E (record pkt { timestamp = time })
  IsOurs-timestamp pkt time early
        (inl (number, (window, old, bytes, hw, ht, e, full, fits, same))) =
      inl (
        number,
        (
          window,
          time,
          bytes,
          hw,
          early,
          e,
          full,
          fits,
          ap (λ (p : Pkt). record p { timestamp = time }) same,
        ),
      )
  IsOurs-timestamp pkt time early (inr (window, old, seqnum, hw, ht, hs, he, same)) = inr (
    window,
    time,
    seqnum,
    hw,
    early,
    hs,
    he,
    ap (λ (p : Pkt). record p { timestamp = time }) same,
  )

module _ {ℓ κ} {A : Type ℓ} (P : A → Type κ) where
  pub All-append : (xs ys : List A) → All P xs → All P ys → All P (xs ++ ys)
  All-append [] ys h k = k
  All-append (x ∷ xs) ys (p, h) k = (p, All-append xs ys h k)
