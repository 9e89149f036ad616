-- ===== src/Receiver/Recover/Hole.antt =====
-- What `deal_with_fec` of src/read-write/read_write_receiver.c restores.
use projet_trtp.Base.{
  ℕ, ◌+◌, ◌%◌, ◌≤◌, ◌<◌, ◌≡◌, ap, ◌∙◌, true, false, List, [], ◌∷◌, none, some, arith, ltb, ◌==◌,
  ==_refl, ne→==, le→ltb, if◌then◌else◌, length, get_elem?,
}
use projet_trtp.Packet.Struct.{block, Pkt, Libs}
use projet_trtp.Packet.Access.{pkt_zero}
use projet_trtp.Fec.{xor_length}
use projet_trtp.Fec.Parity.{Holds, parity, fec_generation-parity}
use projet_trtp.Receiver.{Receiver}
use projet_trtp.Receiver.Insert.{linked_list_add_increasing}
use projet_trtp.Receiver.Recover.{
  collected, collect, recovered, restore, use_collected, from_start, find_start, deal_with_fec,
}

module _ (n tail : ℕ) (p0 p1 p2 p3 : Pkt) (rest : List Pkt) (byte : n < 256) (e0 : p0.seqnum ≡ n)
    (e1 : p1.seqnum ≡ (n + 1) % 256) where
  collect_hole :
      p2.seqnum ≡ (n + 3) % 256
      → collect tail n 4 0 [] none (p0 ∷ p1 ∷ p2 ∷ p3 ∷ rest)
        ≡ some (collected (p0 ∷ p1 ∷ p2 ∷ []) (some ((n + 2) % 256)))
  unfolding collect
  collect_hole e2 =
      let same : (n + 0) % 256 ≡ n = omega arith in
      rw (
        e0,
        same,
        ==_refl n,
        e1,
        ==_refl ((n + 1) % 256),
        e2,
        ne→== ((n + 3) % 256) ((n + 2) % 256) (λ e. absurd (omega arith)),
      )

  -- A fourth packet in a row, or any fourth packet behind three in a row, is stored behind the three places.
  collect_full :
      p2.seqnum ≡ (n + 2) % 256 → collect tail n 4 0 [] none (p0 ∷ p1 ∷ p2 ∷ p3 ∷ rest) ≡ none
  unfolding collect
  collect_full e2 =
      let same : (n + 0) % 256 ≡ n = omega arith in
      rw (e0, same, ==_refl n, e1, ==_refl ((n + 1) % 256), e2, ==_refl ((n + 2) % 256))

module _ (libs : Libs) (fec_pkt : Pkt) (s : Receiver) (p0 p1 p2 p3 : Pkt) (rest : List Pkt)
    (list : s.window.list ≡ p0 ∷ p1 ∷ p2 ∷ p3 ∷ rest) (byte : fec_pkt.seqnum < 256)
    (e0 : p0.seqnum ≡ fec_pkt.seqnum) (e1 : p1.seqnum ≡ (fec_pkt.seqnum + 1) % 256) where
  abbrev pub hole : ℕ
  hole = (fec_pkt.seqnum + 2) % 256

  listed_lem :
      (if ltb (length (p0 ∷ p1 ∷ p2 ∷ p3 ∷ rest)) 3
        then some (none, s)
        else from_start libs fec_pkt s (find_start fec_pkt.seqnum (p0 ∷ p1 ∷ p2 ∷ p3 ∷ rest)))
      ≡ use_collected libs fec_pkt s
          (collect s.window.seqnum_tail fec_pkt.seqnum 4 0 [] none (p0 ∷ p1 ∷ p2 ∷ p3 ∷ rest))
  listed_lem =
      let long : ltb (length (p0 ∷ p1 ∷ p2 ∷ p3 ∷ rest)) 3 ≡ false = le→ltb _ 3 (omega arith) in
      let here : (p0.seqnum == fec_pkt.seqnum) ≡ true = ground (arith, e0) in
      let not_next : (p1.seqnum == fec_pkt.seqnum) ≡ false =
        ne→== p1.seqnum fec_pkt.seqnum (λ e. absurd (omega arith)) in
      let at_first : (if ltb (length (p0 ∷ p1 ∷ p2 ∷ p3 ∷ rest)) 3
            then some (none, s)
            else from_start libs fec_pkt s (find_start fec_pkt.seqnum (p0 ∷ p1 ∷ p2 ∷ p3 ∷ rest)))
          ≡ use_collected libs fec_pkt s
              (collect s.window.seqnum_tail p0.seqnum 4 0 [] none (p0 ∷ p1 ∷ p2 ∷ p3 ∷ rest)) =
        rw (long, here, not_next) in
      at_first
      ∙ ap
          (λ (k : ℕ).
            use_collected libs fec_pkt s
              (collect s.window.seqnum_tail k 4 0 [] none (p0 ∷ p1 ∷ p2 ∷ p3 ∷ rest)))
          e0

  collect_lem :
      deal_with_fec libs fec_pkt s
      ≡ use_collected libs fec_pkt s
          (collect s.window.seqnum_tail fec_pkt.seqnum 4 0 [] none (p0 ∷ p1 ∷ p2 ∷ p3 ∷ rest))
  unfolding deal_with_fec
  collect_lem =
      ap
        (λ (pkts : List Pkt).
          if ltb (length pkts) 3
          then some (none, s)
          else from_start libs fec_pkt s (find_start fec_pkt.seqnum pkts))
        list
      ∙ listed_lem

  -- So `deal_with_fec` is undefined where three packets in a row have a further one behind them.
  deal_with_fec_full : p2.seqnum ≡ hole → deal_with_fec libs fec_pkt s ≡ none
  deal_with_fec_full e2 =
      collect_lem
      ∙ ap (use_collected libs fec_pkt s)
          (collect_full fec_pkt.seqnum s.window.seqnum_tail p0 p1 p2 p3 rest byte e0 e1 e2)

  -- Where the list starts with a packet of the parity packet's number, one of the next number and one of the
  -- next but two, a further packet follows, all three carry payloads of their lengths, the parity packet's
  -- length is at most the third one's, and `malloc` succeeds, `deal_with_fec` gives a packet of type PTYPE_FEC with
  -- the missing number, the XOR of the four lengths and at each place the XOR of the bytes there,
  -- in which the third payload stands for the parity's, to `linkedList_add_increasing`. Its result is
  -- the missing number, whether or not the packet was added.
  pub deal_with_fec_lem :
      (bytes0 bytes1 bytes2 : List ℕ)
      → ((k : ℕ) → libs.malloc k ≡ true)
      → Holds p0 bytes0
      → Holds p1 bytes1
      → Holds p2 bytes2
      → fec_pkt.length ≤ p2.length
      → p2.seqnum ≡ (fec_pkt.seqnum + 3) % 256
      → (bytes : List ℕ) × (deal_with_fec libs fec_pkt s
          ≡ recovered hole (
              linked_list_add_increasing libs
                (record pkt_zero {
                  length = let n = xor_length p0 p1 p2 fec_pkt in if ltb 512 n then 0 else n;
                  seqnum = hole;
                  payload = block bytes;
                })
                s))
        × (length bytes ≡ 512)
        × ((i : ℕ)
            → i < 512
            → get_elem? bytes i ≡ some (parity bytes0 bytes1 bytes2 fec_pkt.length i))
  deal_with_fec_lem bytes0 bytes1 bytes2 mem h0 h1 h2 short e2 =
      let (bytes, e, size, each) =
        fec_generation-parity p0 p1 p2 fec_pkt bytes0 bytes1 bytes2 h0 h1 h2 short libs mem in
      (
        bytes,
        collect_lem
            ∙ ap (use_collected libs fec_pkt s)
                (collect_hole fec_pkt.seqnum s.window.seqnum_tail p0 p1 p2 p3 rest byte e0 e1 e2)
            ∙ ap (restore libs hole s) e,
        size,
        each,
      )
