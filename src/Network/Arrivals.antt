-- ===== src/Network/Arrivals.antt =====
-- What src/read-write/read_write_receiver.c makes of the datagrams of a file.
use projet_trtp.Base.{
  ℕ, zero, suc, ◌+◌, ◌^◌, ◌≤◌, ◌<◌, ◌≡◌, ◌≢◌, ◌⊎◌, inl, inr, refl, sym, subst, ap, ◌∙◌, true, List,
  [], ◌∷◌, ◌++◌, Option, none, some, length, take, take_all, drop, length-drop, get_elem?, All,
  arith,
}
use projet_trtp.Base.Bytes.{FirstByte-take, FirstByte, take_exactly_all}
use projet_trtp.Packet.Struct.{StatusCode, ptype_data, pkt_ok, e_crc, Pkt, Libs}
use projet_trtp.Packet.Access.{pkt_zero, pkt_get_payload}
use projet_trtp.Packet.Encode.{pkt_encode, encode_header}
use projet_trtp.Packet.Decode.{pkt_decode, payload_bytes, crc_of}
use projet_trtp.Packet.Decode.Steps.{fields}
use projet_trtp.Packet.RoundTrip.{decode-encode}
use projet_trtp.Packet.RoundTrip.Truncated.{decode-encode_truncated}
use projet_trtp.Packet.RoundTrip.Final.{final_trip}
use projet_trtp.Packet.Encode.First.{encode-FirstByte}
use projet_trtp.Receiver.{overwrite}
use projet_trtp.Receiver.Loop.{Turn, incoming, outgoing}
use projet_trtp.Receiver.Sound.{IsBuffer, IsHeld}
use projet_trtp.Receiver.Sound.Keep.{overwrite-IsBuffer}
use projet_trtp.Receiver.Sound.Runs.{Brings}
use projet_trtp.Receiver.History.{accepted-IsHeld}
use projet_trtp.Sender.Pieces.{piece}
use projet_trtp.Network.{IsFile, Datagram, Carried}
use projet_trtp.Network

same_out :
    {o : Option (StatusCode × List ℕ)} {a b : List ℕ}
    → o ≡ some (pkt_ok, a)
    → o ≡ some (pkt_ok, b)
    → b ≡ a
same_out e1 e2 = cc (e1, e2)

same_pkt :
    {o : Option (StatusCode × Pkt)} {a b : Pkt}
    → o ≡ some (pkt_ok, a)
    → o ≡ some (pkt_ok, b)
    → b ≡ a
same_pkt e1 e2 = cc (e1, e2)

two_results :
    {a b : Pkt} → ◌≡◌ {A = Option (StatusCode × Pkt)} (some (e_crc, a)) (some (pkt_ok, b)) → ⊥
two_results e = cc e

piece_bounds :
    (pieces : List (List ℕ)) (number : ℕ) (bytes : List ℕ)
    → IsFile pieces
    → get_elem? pieces number ≡ some bytes
    → (number < length pieces) × (length bytes ≢ 0) × (length bytes ≤ 512)
piece_bounds [] number bytes h e = absurd (cc e)
piece_bounds (b ∷ pieces) zero bytes (hb, h) e =
    let same : b ≡ bytes = cc e in
    let (full, small) = subst (λ (l : List ℕ). (length l ≢ 0) × (length l ≤ 512)) same hb in
    (omega arith, full, small)
piece_bounds (b ∷ pieces) (suc number) bytes (hb, h) e =
    let (lt, full, small) = piece_bounds pieces number bytes h e in (omega arith, full, small)

module _ (libs : Libs) (mem : (k : ℕ) → libs.malloc k ≡ true) (pieces : List (List ℕ)) where
  -- A packet of the file: one of its pieces under its number, or its end.
  abbrev pub IsOfFile : Pkt → Type 0
  IsOfFile pkt =
      IsHeld libs pkt
      × (((bytes : List ℕ) × (get_elem? pieces pkt.seqnum ≡ some bytes)
            × (pkt.length ≢ 0)
            × (payload_bytes pkt.length (pkt_get_payload pkt) ≡ some bytes))
          ⊎ ((pkt.seqnum ≡ length pieces) × (pkt.length ≡ 0)))

  -- The receiver's buffer begins with the datagram.
  buffer_lem :
      (out old : List ℕ)
      → length out ≤ 528
      → pkt_decode libs (overwrite (take 528 out) old) (length (take 528 out)) pkt_zero
        ≡ pkt_decode libs (out ++ drop (length out) old) (length out) pkt_zero
  buffer_lem out old size = rw (take_all 528 out size)

  -- A datagram that is decoded to one packet, from every buffer.
  one-Brings :
      (out : List ℕ) (sent : Pkt)
      → FirstByte out
      → length out ≤ 528
      → ((rest : List ℕ)
          → pkt_decode libs (out ++ rest) (length out) pkt_zero ≡ some (pkt_ok, sent))
      → (IsHeld libs sent → IsOfFile sent)
      → Brings libs IsOfFile IsBuffer (incoming (some out))
  one-Brings out sent first size decodes of_file = (
    (λ old b. overwrite-IsBuffer (take 528 out) old (FirstByte-take 528 out first) b),
    λ old pkt b e kind.
        let same : pkt ≡ sent =
          same_pkt (decodes (drop (length out) old)) (sym (buffer_lem out old size) ∙ e) in
        let kept : IsHeld libs pkt =
          accepted-IsHeld libs mem (overwrite (take 528 out) old) (length (take 528 out)) pkt
            (overwrite-IsBuffer (take 528 out) old (FirstByte-take 528 out first) b) e kind in
        subst IsOfFile (sym same) (of_file (subst (IsHeld libs) same kept)),
  )

  whole-Brings :
      (number window timestamp : ℕ) (bytes out : List ℕ)
      → IsFile pieces
      → length pieces < 255
      → get_elem? pieces number ≡ some bytes
      → window < 32
      → timestamp < 2 ^ 32
      → pkt_encode libs (piece window number timestamp bytes) 528 ≡ some (pkt_ok, out)
      → Brings libs IsOfFile IsBuffer (incoming (some out))
  unfolding pkt_get_payload
  whole-Brings number window timestamp bytes out file short at hw ht e =
      let (lt, full, small) = piece_bounds pieces number bytes file at in
      let pkt : Pkt = piece window number timestamp bytes in
      let trip = λ (rest : List ℕ).
        decode-encode libs mem pkt bytes rest
          (record { window = hw; tr = refl; seqnum = omega arith; timestamp = ht })
          (refl, refl, full, small) in
      let sent : Pkt = record pkt {
        crc1 = crc_of libs (encode_header pkt);
        crc2 = crc_of libs bytes;
      } in
      one-Brings out sent (encode-FirstByte libs pkt out e)
        (subst (λ (l : List ℕ). length l ≤ 528) (same_out e (trip []).1) (trip []).2)
        (λ rest.
          subst
            (λ (l : List ℕ). pkt_decode libs (l ++ rest) (length l) pkt_zero ≡ some (pkt_ok, sent))
            (same_out e (trip rest).1) (trip rest).3)
        (λ kept. (kept, inl (bytes, at, full, take_exactly_all (length bytes) bytes refl)))

  last-Brings :
      (window timestamp : ℕ) (out : List ℕ)
      → window < 32
      → timestamp < 2 ^ 32
      → pkt_encode libs (fields ptype_data 0 window 0 (length pieces) 0 0 timestamp) 528
        ≡ some (pkt_ok, out)
      → Brings libs IsOfFile IsBuffer (incoming (some out))
  last-Brings window timestamp out hw ht e =
      let pkt : Pkt = fields ptype_data 0 window 0 (length pieces) 0 0 timestamp in
      let trip =
        λ (rest : List ℕ). final_trip libs mem window (length pieces) 0 0 timestamp rest hw ht in
      let sent : Pkt = record pkt { crc1 = crc_of libs (encode_header pkt) } in
      let same = same_out e (trip []).0 in
      one-Brings out sent (encode-FirstByte libs pkt out e)
        (subst (λ (l : List ℕ). length l ≤ 528) same (omega arith))
        (λ rest.
          subst
            (λ (l : List ℕ). pkt_decode libs (l ++ rest) (length l) pkt_zero ≡ some (pkt_ok, sent))
            same (trip rest).1)
        (λ kept. (kept, inr (refl, refl)))

  cut_refused :
      {seen : Pkt} (cut_out out old : List ℕ) (other : Pkt)
      → cut_out ≡ out
      → length cut_out ≡ 12
      → pkt_decode libs (cut_out ++ drop 12 old) (length cut_out) pkt_zero ≡ some (e_crc, seen)
      → pkt_decode libs (out ++ drop (length out) old) (length out) pkt_zero ≡ some (pkt_ok, other)
      → ⊥
  cut_refused {seen} cut_out out old other same twelve decoded e =
      let at_cut =
        subst
          (λ (n : ℕ).
            pkt_decode libs (cut_out ++ drop n old) (length cut_out) pkt_zero ≡ some (e_crc, seen))
          (sym twelve) decoded in
      let at_out =
        subst
          (λ (l : List ℕ).
            pkt_decode libs (l ++ drop (length l) old) (length l) pkt_zero ≡ some (e_crc, seen))
          same at_cut in
      two_results (sym at_out ∙ e)

  cut-Brings :
      (number window timestamp : ℕ) (bytes out : List ℕ)
      → IsFile pieces
      → get_elem? pieces number ≡ some bytes
      → window < 32
      → timestamp < 2 ^ 32
      → pkt_encode libs (record (piece window number timestamp bytes) { tr = 1 }) 528
        ≡ some (pkt_ok, out)
      → Brings libs IsOfFile IsBuffer (incoming (some out))
  cut-Brings number window timestamp bytes out file at hw ht e =
      let (lt, full, small) = piece_bounds pieces number bytes file at in
      let pkt : Pkt = record (piece window number timestamp bytes) { tr = 1 } in
      let cut = λ (rest : List ℕ) (room : length bytes + 4 ≤ length rest).
        decode-encode_truncated libs mem pkt rest refl refl hw ht full small room in
      (
        (λ old b.
            overwrite-IsBuffer (take 528 out) old
              (FirstByte-take 528 out (encode-FirstByte libs pkt out e)) b),
        λ old other b e' kind.
            let size = length-drop 12 old in
            let long = b.0 in
            let (cut_out, bs, encoded, twelve, decoded) = cut (drop 12 old) (omega arith) in
            let same : cut_out ≡ out = same_out e encoded in
            let short : length out ≡ 12 = ap length (sym same) ∙ twelve in
            absurd (
              cut_refused cut_out out old other same twelve decoded
                (sym (buffer_lem out old (omega arith)) ∙ e')),
      )

  Datagram-Brings :
      (out : List ℕ)
      → IsFile pieces
      → length pieces < 255
      → Datagram libs pieces out
      → Brings libs IsOfFile IsBuffer (incoming (some out))
  Datagram-Brings out file short (Network.whole number window timestamp bytes _ at hw ht e) =
      whole-Brings number window timestamp bytes out file short at hw ht e
  Datagram-Brings out file short (Network.cut number window timestamp bytes _ at hw ht e) =
      cut-Brings number window timestamp bytes out file at hw ht e
  Datagram-Brings out file short (Network.last window timestamp _ hw ht e) =
      last-Brings window timestamp out hw ht e
  Datagram-Brings out file short (Network.refused _ first not_kept) = (
    (λ old b. overwrite-IsBuffer (take 528 out) old (FirstByte-take 528 out first) b),
    λ old pkt b e kind. absurd (not_kept old pkt b e kind),
  )

  pub Carried-Brings :
      (turns : List Turn)
      → IsFile pieces
      → length pieces < 255
      → All (Carried libs pieces) turns
      → All (Brings libs IsOfFile IsBuffer) turns
  Carried-Brings [] file short h = tt
  Carried-Brings (incoming (some out) ∷ ts) file short (h, hs) =
      (Datagram-Brings out file short h, Carried-Brings ts file short hs)
  Carried-Brings (incoming none ∷ ts) file short (h, hs) = absurd h
  Carried-Brings (outgoing ∷ ts) file short (h, hs) = (tt, Carried-Brings ts file short hs)
