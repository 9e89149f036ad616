-- ===== src/Network/EndToEnd.antt =====
-- A file from the sender of src/read-write/read_write_sender.c to the receiver of
-- src/read-write/read_write_receiver.c, both as they run.
use projet_trtp.Base.{
  bit_and, ℕ, ◌+◌, ◌*◌, ◌%◌, ◌^◌, ◌≤◌, ◌<◌, ◌≡◌, ◌≢◌, ◌⊎◌, inl, inr, refl, sym, subst, ap, ◌∙◌,
  Bool, true, false, List, [], ◌∷◌, ◌++◌, Option, none, some, arith, length, take, drop, All, IsIn,
  All-IsIn, ne→==, le→ltb,
}
use projet_trtp.Base.Bytes.{IsByte, FirstByte, be32, take_exactly_all}
use projet_trtp.Packet.Struct.{pkt_ok, StatusCode, Pkt, Libs}
use projet_trtp.Packet.Access.{pkt_get_payload}
use projet_trtp.Packet.Encode.{pkt_encode, encode_start, encode_tail, encode_payload, first_byte}
use projet_trtp.Packet.Decode.{crc_of}
use projet_trtp.Packet.RoundTrip.Final.{final_trip}
use projet_trtp.Receiver.{World, Receiver}
use projet_trtp.Receiver as R
use projet_trtp.Receiver.Loop.{Turn, incoming, outgoing, read_write_receiver}
use projet_trtp.Receiver.Flushes.{WritesAll}
use projet_trtp.Receiver.Sound.{IsBuffer}
use projet_trtp.Sender.{System, Sender, initial}
use projet_trtp.Sender.Loop.{Ready, read_write_sender}
use projet_trtp.Sender.Pieces.{piece}
use projet_trtp.Sender.Sound.{IsOut}
use projet_trtp.Sender.Sound.Runs.{AreRounds}
use projet_trtp.Network.{IsFile, contents, IsRefused, Datagram, Carried}
use projet_trtp.Network
use projet_trtp.Network.Pieces.{pieces, pieces-IsFile, contents-pieces, contents-take}
use projet_trtp.Network.Prefix.{read_write_receiver-Prefix}
use projet_trtp.Network.Sent.{
  Reads, at_piece, get_elem?-lt, EndsAt, out-Datagram, pieces_fit, sender_run,
}

-- What a network makes of a datagram that it truncates: TR is set, and only the header is left.
abbrev pub truncated : List ℕ → List ℕ
truncated [] = []
truncated (b ∷ bs) = (b + 32) % 256 ∷ take 11 bs

-- A turn without a datagram, or with one of those sent, perhaps truncated if it has a payload, or with
-- one that `pkt_decode` refuses.
abbrev pub Arrives : Libs → (sent : List (List ℕ)) → Turn → Type 0
Arrives libs sent outgoing = Unit {0}
Arrives libs sent (incoming none) = ⊥
Arrives libs sent (incoming (some out)) =
    IsIn out sent
    ⊎ (((whole : List ℕ) × IsIn whole sent × (16 < length whole) × (out ≡ truncated whole))
        ⊎ (FirstByte out × IsRefused libs out))

-- A piece's datagram, truncated, is what `pkt_encode` makes of the packet with TR.
piece_encode :
    (libs : Libs) (window number time : ℕ) (bytes : List ℕ)
    → length bytes ≢ 0
    → length bytes ≤ 512
    → pkt_encode libs (piece window number time bytes) 528
      ≡ some (
        pkt_ok,
        encode_start libs (piece window number time bytes) ++ (bytes ++ be32 (crc_of libs bytes)),
      )
unfolding pkt_encode pkt_get_payload
piece_encode libs window number time bytes full fits = rw (
  ne→== (length bytes) 0 full,
  le→ltb 528 (8 + (length bytes + 4) + 4) (omega arith),
  encode_tail,
  encode_payload,
  take_exactly_all (length bytes) bytes refl,
)

cut_encode :
    (libs : Libs) (window number time : ℕ) (bytes : List ℕ)
    → length bytes ≢ 0
    → length bytes ≤ 512
    → pkt_encode libs (record (piece window number time bytes) { tr = 1 }) 528
      ≡ some (pkt_ok, encode_start libs (record (piece window number time bytes) { tr = 1 }))
unfolding pkt_encode
cut_encode libs window number time bytes full fits =
    rw (ne→== (length bytes) 0 full, le→ltb 528 (8 + (length bytes + 4) + 4) (omega arith))

truncated-encode_start :
    (libs : Libs) (window number time : ℕ) (bytes rest : List ℕ)
    → truncated (encode_start libs (piece window number time bytes) ++ rest)
      ≡ encode_start libs (record (piece window number time bytes) { tr = 1 })
truncated-encode_start libs window number time bytes rest =
    let first : ℕ = bit_and (first_byte (piece window number time bytes)) 0xdf in
    let e : ((first + 0) % 256 + 32) % 256 ≡ (first + 1 * 2 ^ 5) % 256 = omega arith in rw e

same_out :
    {o : Option (StatusCode × List ℕ)} {a b : List ℕ}
    → o ≡ some (pkt_ok, a)
    → o ≡ some (pkt_ok, b)
    → a ≡ b
same_out e1 e2 = cc (e1, e2)

module _ (system : System) (file : List ℕ) (found : Reads system file)
    (mem : (k : ℕ) → system.libs.malloc k ≡ true) where
  truncated-Datagram :
      (out : List ℕ)
      → length (pieces file) < 255
      → 16 < length out
      → IsOut system (EndsAt system file found) out
      → Datagram system.libs (pieces file) (truncated out)
  truncated-Datagram out short long
        (pkt, inl (number, (window, time, bytes, hw, ht, e, full, fits, same)), enc) =
      let at = at_piece system file found number bytes e full in
      let lt = get_elem?-lt system file found (pieces file) (number % 2 ^ 55) bytes at in
      let small : number % 256 ≡ number % 2 ^ 55 = omega arith in
      let sent =
        ap (λ (k : ℕ). pkt_encode system.libs (piece window k time bytes) 528) (sym small)
        ∙ ap (λ (p : Pkt). pkt_encode system.libs p 528) (sym same)
        ∙ enc in
      let bytes_out =
        same_out sent (piece_encode system.libs window (number % 2 ^ 55) time bytes full fits) in
      let cut_out =
        ap truncated bytes_out
        ∙ truncated-encode_start system.libs window (number % 2 ^ 55) time bytes
            (bytes ++ be32 (crc_of system.libs bytes)) in
      subst (Datagram system.libs (pieces file)) (sym cut_out) (
        Network.cut (number % 2 ^ 55) window time bytes _ at (omega arith) ht
          (cut_encode system.libs window (number % 2 ^ 55) time bytes full fits))
  truncated-Datagram out short long (pkt, inr (window, time, seqnum, hw, ht, hs, he, same), enc) =
      let final = (final_trip system.libs mem window seqnum 0 0 time [] (omega arith) ht).0 in
      let size =
        ap length
          (same_out (ap (λ (p : Pkt). pkt_encode system.libs p 528) (sym same) ∙ enc) final) in
      absurd (omega arith)

  turn-Carried :
      (sent : List (List ℕ)) (t : Turn)
      → length (pieces file) < 255
      → All (IsOut system (EndsAt system file found)) sent
      → Arrives system.libs sent t
      → Carried system.libs (pieces file) t
  turn-Carried sent outgoing short outs h = tt
  turn-Carried sent (incoming none) short outs h = h
  turn-Carried sent (incoming (some out)) short outs (inl i) =
      out-Datagram system file found out short
        (All-IsIn (IsOut system (EndsAt system file found)) out sent outs i)
  turn-Carried sent (incoming (some out)) short outs (inr (inl (whole, i, long, e))) =
      subst (Datagram system.libs (pieces file)) (sym e) (
        truncated-Datagram whole short long
          (All-IsIn (IsOut system (EndsAt system file found)) whole sent outs i))
  turn-Carried sent (incoming (some out)) short outs (inr (inr (first, not_kept))) =
      Network.refused out first not_kept

  turns-Carried :
      (sent : List (List ℕ)) (turns : List Turn)
      → length (pieces file) < 255
      → All (IsOut system (EndsAt system file found)) sent
      → All (Arrives system.libs sent) turns
      → All (Carried system.libs (pieces file)) turns
  turns-Carried sent [] short outs h = tt
  turns-Carried sent (t ∷ ts) short outs (h, hs) =
      (turn-Carried sent t short outs h, turns-Carried sent ts short outs hs)

-- A sender without FEC, where `malloc` and every `write` succeed and `pread` finds what is in the file at
-- its offset, sends a file of 1 to 130048 bytes; its buffer and the receiver's have 528 bytes. A
-- datagram is only read in a round in which `poll` finds POLLOUT too, and no datagram that `pkt_decode`
-- accepts announces a smaller window. Of the datagrams that it has sent within some rounds, which need
-- not be all, any may reach a receiver with the same libraries, in any order, any number of times, or not
-- at all, a piece also truncated by the network, among others that `pkt_decode` refuses. No `read` of the
-- receiver fails and its standard output takes all bytes. Then the receiver is defined, its standard
-- output is a beginning of the file, and if it has met the end of the file, it is the file.
pub read_write_receiver-read_write_sender :
    (system : System) (world : World) (file : List ℕ) (rounds : List Ready) (turns : List Turn)
    (copybuf buffer : List ℕ) (left : Bool) (s : Sender)
    → world.libs ≡ system.libs
    → ((k : ℕ) → system.libs.malloc k ≡ true)
    → ((sent : List (List ℕ)) (bytes : List ℕ) → system.send sent bytes ≡ true)
    → WritesAll world
    → Reads system file
    → All IsByte file
    → file ≢ []
    → length file ≤ 512 * 254
    → IsBuffer copybuf
    → IsBuffer buffer
    → AreRounds system.libs ⊥ 1 rounds
    → read_write_sender system false rounds (initial copybuf) ≡ some (left, s)
    → All (Arrives system.libs s.sent) turns
    → (eof_wrote : Bool) × (r : Receiver) × (read_write_receiver world turns (R.initial buffer)
        ≡ some (eof_wrote, r))
      × ((rest : List ℕ) × (r.output ++ rest ≡ file))
      × (eof_wrote ≡ true → r.output ≡ file)
read_write_receiver-read_write_sender system world file rounds turns copybuf buffer left s same_libs
      mem sends all found bytes full small b b' h e arrive =
    let outs =
      sender_run system file found rounds copybuf left s mem sends bytes full small b h e in
    let short = pieces_fit file small in
    let carried = turns-Carried system file found mem s.sent turns short outs arrive in
    let (eof_wrote, r, run, output, whole) =
      read_write_receiver-Prefix world (pieces file) turns buffer
        (λ k. ap (λ (l : Libs). l.malloc k) same_libs ∙ mem k) all (pieces-IsFile file) short
        (subst (λ (l : Libs). All (Carried l (pieces file)) turns) (sym same_libs) carried) b' in
    (
      eof_wrote,
      r,
      run,
      (
        contents (drop r.window.seqnum_head (pieces file)),
        ap (λ (l : List ℕ). l ++ contents (drop r.window.seqnum_head (pieces file))) output
            ∙ contents-take (pieces file) r.window.seqnum_head
            ∙ contents-pieces file,
      ),
      λ ended. whole ended ∙ contents-pieces file,
    )
